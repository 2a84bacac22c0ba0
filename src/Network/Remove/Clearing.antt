-- ===== src/Network/Remove/Clearing.antt =====
-- What a removal has cleared before it drops the firewall and the record of a network.
use sandcube.Prelude.{
  String, str_eq, eq_iff, ◌≡◌, refl, if◌then◌else◌, ◌⊎◌, Bool, true, false, not, ◌||◌, arith,
}
use sandcube.Exec.{
  Result, ok, err, Exec, OnOk, OnOk-succeeded, succeeded, continue, for_each, refuse_if, lift,
  attempt, handle, message, not_exist, ◌>>=◌,
}
use sandcube.Exec.Rules.{
  Preserves, Achieves, Achieves-bind, Achieves-bind_first, Preserves-bind, Preserves-guard,
  Preserves-attempt, Preserves-handle, Preserves-refuse_if, Preserves-if, Preserves-pure,
  preserves_rules,
}
use sandcube.Paths.{Bytes}
use sandcube.Calls.{Call, Sys, call, done, any_call, fresh}
use sandcube.Calls.Laws.{Preserves-call}
use sandcube.Network.Host.{Host, NetworkRecord, Run, exited, broken}
use sandcube.Network.Remove.{
  conntrack_done, no_conntrack_entries, clear_direction, clear_conntrack, delete_named_link,
  delete_named_table, remove_namespace, tear_down, remove_network_locked, remove_network,
}
use sandcube.Network.Remove.Laws.{takes_down, remove-Settled}

-- A run of `conntrack -D` that has left nothing: it has deleted the entries, or there was none.
abbrev pub HasCleared : Run → Type 0
HasCleared (exited code out) = (code ≡ 0) ⊎ ((code ≡ 1) × (no_conntrack_entries out ≡ true))
HasCleared (broken out) = ⊥

-- A record that a sandbox has for its own network.
abbrev pub IsOwn : {W : Type 0} → Host W → String → NetworkRecord → Type 0
IsOwn host id n = (n.id ≡ id) × (n.name ≡ host.network_name id)

-- `guest` is the address of a network by its name, and `tracked` the connections that the kernel
-- tracks, by direction and address. In a `Safe` state, a record that a sandbox has for its own
-- network has the network's address, and a firewall or a record may go where no connection of that
-- address is tracked in either direction. A run of conntrack that has cleared leaves none in its
-- direction, and no call of the removal makes one tracked.
pub record IsClearing {W : Type 0} (host : Host W) (guest : String → Bytes)
    (tracked : String → Bytes → W → Bool) (Safe : W → Type 0) : Type 0 where
  pub read_lem :
      (w : W) (id : String)
      → Safe w
      → OnOk
          (λ raw. OnOk (λ n. IsOwn host id n → n.guest ≡ guest n.name) (host.decode_record raw))
          (host.read_journal id w).0
  pub cleared_lem :
      (w : W) (direction : String) (address : Bytes)
      → HasCleared (host.run_conntrack direction address w).0
      → tracked direction address (host.run_conntrack direction address w).1 ≡ false
  pub conntrack_keeps :
      (w : W) (direction other : String) (address : Bytes)
      → tracked direction address w ≡ false
      → tracked direction address (host.run_conntrack other address w).1 ≡ false
  pub tables_keep :
      (direction : String) (address : Bytes)
      → Preserves (λ w. tracked direction address w ≡ false) host.list_tables
  pub table_keeps :
      (direction name : String) (address : Bytes)
      → Preserves (λ w. tracked direction address w ≡ false) (host.delete_table name)
  pub directory_keeps :
      (direction id : String) (address : Bytes)
      → Preserves (λ w. tracked direction address w ≡ false) (host.remove_sandbox_dir id)
  pub journal_keeps :
      (direction id : String) (address : Bytes)
      → Preserves (λ w. tracked direction address w ≡ false) (host.remove_journal id)
  pub lock-Safe : Preserves Safe host.lock
  pub read-Safe : (id : String) → Preserves Safe (host.read_journal id)
  pub links-Safe : Preserves Safe host.list_links
  pub link-Safe : (name : String) → Preserves Safe (host.delete_link name)
  pub stat-Safe : (name : String) → Preserves Safe (host.stat_namespace name)
  pub namespace-Safe : (name : String) → Preserves Safe (host.delete_namespace name)
  pub conntrack-Safe :
      (w : W) (direction : String) (address : Bytes)
      → Safe w
      → Safe (host.run_conntrack direction address w).1
  pub tables-Safe : Preserves Safe host.list_tables
  pub directory-Safe : (id : String) → Preserves Safe (host.remove_sandbox_dir id)
  pub table-Safe :
      (w : W) (name : String)
      → Safe w
      → tracked "--orig-src" (guest name) w ≡ false
      → tracked "--orig-dst" (guest name) w ≡ false
      → Safe (host.delete_table name w).1
  pub journal-Safe :
      (w : W) (id : String)
      → Safe w
      → tracked "--orig-src" (guest (host.network_name id)) w ≡ false
      → tracked "--orig-dst" (guest (host.network_name id)) w ≡ false
      → Safe (host.remove_journal id w).1

conntrack_done_lem : (run : Run) → conntrack_done run ≡ true → HasCleared run
unfolding conntrack_done
conntrack_done_lem (exited code out) h = ground (arith, h)
conntrack_done_lem (broken out) h = absurd (ground (arith, h))

accepted :
    (b : Bool)
    → succeeded {0} {A = Unit {0}} (if b then ok tt else err (message "conntrack cleanup")) ≡ true
    → b ≡ true
accepted true h = refl
accepted false h = absurd (ground (arith, h))

module _ {W : Type 0} {host : Host W} {guest : String → Bytes} {tracked : String → Bytes → W → Bool}
    {Safe : W → Type 0} (clearing : IsClearing host guest tracked Safe) where
  abbrev Kept : Sys W → Type 0
  Kept s = Safe s.world

  abbrev Untracked : String → Bytes → Sys W → Type 0
  Untracked direction address s = tracked direction address s.world ≡ false

  -- Nothing of this address is tracked.
  abbrev Clear : Bytes → Sys W → Type 0
  Clear address s = Kept s × Untracked "--orig-src" address s × Untracked "--orig-dst" address s

  direction_lem :
      (address : Bytes) (direction : String)
      → Achieves
          (Untracked direction address)
          (call Call.run_conntrack (clear_direction host address direction))
  unfolding call clear_direction
  direction_lem address direction = record {
    from = λ s h. clearing.cleared_lem s.world direction address (
        conntrack_done_lem _
          (accepted (conntrack_done (host.run_conntrack direction address s.world).0) h));
  }

  direction_keeps :
      (address : Bytes) (direction other : String)
      → Preserves
          (Untracked direction address)
          (call Call.run_conntrack (clear_direction host address other))
  unfolding call clear_direction
  direction_keeps address direction other = record {
    from = λ s. clearing.conntrack_keeps s.world direction other address;
  }

  direction_Kept :
      (address : Bytes) (direction : String)
      → Preserves Kept (call Call.run_conntrack (clear_direction host address direction))
  unfolding call clear_direction
  direction_Kept address direction = record {
    from = λ s. clearing.conntrack-Safe s.world direction address;
  }

  conntrack_Kept : (address : Bytes) → Preserves Kept (clear_conntrack host address)
  unfolding clear_conntrack
  conntrack_Kept address = search (preserves_rules, direction_Kept)

  conntrack-src :
      (address : Bytes) → Achieves (Untracked "--orig-src" address) (clear_conntrack host address)
  unfolding clear_conntrack for_each
  conntrack-src address = Achieves-bind _ _ λ _.
      Achieves-bind_first _ _ (direction_lem address "--orig-src")
        (λ _. search (preserves_rules, direction_keeps))

  conntrack-dst :
      (address : Bytes) → Achieves (Untracked "--orig-dst" address) (clear_conntrack host address)
  unfolding clear_conntrack for_each
  conntrack-dst address =
      search (Achieves-bind, Achieves-bind_first, direction_lem, preserves_rules) depth 12

  cleared :
      (address : Bytes) (r : Result (Unit {0})) (f : Unit {0} → Exec (Sys W) (Unit {0})) (s : Sys W)
      → Kept s
      → (succeeded r ≡ true → Clear address s)
      → ((a : Unit {0}) → Preserves (Clear address) (f a))
      → Kept (continue r f s).1
  cleared address (ok a) f s h c k = ((k a).from s (c refl)).0
  cleared address (err e) f s h c k = h

  -- Behind the clearing, the rest may count on it.
  after_conntrack :
      (address : Bytes) (f : Unit {0} → Exec (Sys W) (Unit {0}))
      → ((a : Unit {0}) → Preserves (Clear address) (f a))
      → Preserves Kept (clear_conntrack host address >>= f)
  unfolding ◌>>=◌
  after_conntrack address f k = record {
    from = λ s h.
        let kept = (conntrack_Kept address).from s h in
        cleared address (clear_conntrack host address s).0 f _ kept
          (λ e. (kept, (conntrack-src address).from s e, (conntrack-dst address).from s e)) k;
  }

  Clear-call :
      {A : Type 0} (address : Bytes) (c : Call) (m : Exec W A)
      → ((w : W)
          → Safe w
          → tracked "--orig-src" address w ≡ false
          → tracked "--orig-dst" address w ≡ false
          → Safe (m w).1)
      → ((direction : String) → Preserves (λ w. tracked direction address w ≡ false) m)
      → Preserves (Clear address) (call c m)
  unfolding call
  Clear-call address c m k l = record {
    from = λ s (h, src, dst).
        (k s.world h src dst, (l "--orig-src").from s.world src, (l "--orig-dst").from s.world dst);
  }

  tables_Clear :
      (address : Bytes) → Preserves (Clear address) (call Call.list_tables host.list_tables)
  tables_Clear address =
      Clear-call address _ _ (λ w h _ _. clearing.tables-Safe.from w h)
        (λ d. clearing.tables_keep d address)

  table_Clear :
      (name : String) (table : String × String)
      → Preserves (Clear (guest name)) (delete_named_table host name table)
  unfolding delete_named_table
  table_Clear name (family, table) =
      Preserves-if _ _ _
        (Clear-call _ _ _ (λ w. clearing.table-Safe w name)
          (λ d. clearing.table_keeps d name (guest name)))
        (Preserves-pure tt)

  directory_Clear :
      (address : Bytes) (id : String)
      → Preserves (Clear address) (call Call.remove_directory (host.remove_sandbox_dir id))
  directory_Clear address id =
      Clear-call address _ _ (λ w h _ _. (clearing.directory-Safe id).from w h)
        (λ d. clearing.directory_keeps d id address)

  journal_Clear :
      (id : String)
      → Preserves
          (Clear (guest (host.network_name id)))
          (call Call.remove_journal (host.remove_journal id))
  journal_Clear id =
      Clear-call _ _ _ (λ w. clearing.journal-Safe w id) (λ d. clearing.journal_keeps d id _)

  outside_Kept :
      {A : Type 0} (c : Call) (m : Exec W A) → Preserves Safe m → Preserves Kept (call c m)
  outside_Kept c m k = Preserves-call Safe c m k

  links_Kept : Preserves Kept (call Call.list_links host.list_links)
  links_Kept = outside_Kept _ _ clearing.links-Safe

  link_Kept : (name link : String) → Preserves Kept (delete_named_link host name link)
  unfolding delete_named_link
  link_Kept name link =
      Preserves-if _ _ _ (outside_Kept _ _ (clearing.link-Safe name)) (Preserves-pure tt)

  namespace_Kept : (name : String) → Preserves Kept (remove_namespace host name)
  unfolding remove_namespace
  namespace_Kept name =
      Preserves-bind _ _ (Preserves-attempt _ (outside_Kept _ _ (clearing.stat-Safe _))) λ seen.
        Preserves-handle _ _ seen (λ _. outside_Kept _ _ (clearing.namespace-Safe name))
          (λ e. Preserves-refuse_if _ e)

  owned_lem :
      (id : String) (n : NetworkRecord)
      → (not (str_eq n.id id) || not (str_eq n.name (host.network_name id))) ≡ false
      → IsOwn host id n
  owned_lem id n h = (
    (eq_iff n.id id).0 (ground (arith, h)),
    (eq_iff n.name (host.network_name id)).0 (ground (arith, h)),
  )

  ruleset clear_rules = (
    preserves_rules, links_Kept, link_Kept, namespace_Kept, after_conntrack, tables_Clear,
    table_Clear, directory_Clear, journal_Clear,
  )

  tear_down-Kept :
      (id : String) (n : NetworkRecord)
      → (IsOwn host id n → n.guest ≡ guest n.name)
      → Preserves Kept (tear_down host id n)
  unfolding tear_down
  tear_down-Kept id n at =
      Preserves-guard _ _ _
        λ own. let mine = owned_lem id n own in rw (at mine, mine.1) (search clear_rules depth 14)

  decoded :
      (id : String) (r : Result NetworkRecord) (s : Sys W)
      → OnOk (λ n. IsOwn host id n → n.guest ≡ guest n.name) r
      → Kept s
      → Kept (continue r (tear_down host id) s).1
  decoded id (ok n) s at h = (tear_down-Kept id n at).from s h
  decoded id (err e) s at h = h

  read_Kept :
      (id : String) (r : Result Bytes) (s : Sys W)
      → OnOk
          (λ raw. OnOk (λ n. IsOwn host id n → n.guest ≡ guest n.name) (host.decode_record raw))
          r
      → Kept s
      → Kept
          (handle
            (λ raw. lift (host.decode_record raw) >>= tear_down host id)
            (λ e. refuse_if (not (e.is not_exist)) e)
            r
            s).1
  unfolding handle lift ◌>>=◌
  read_Kept id (ok raw) s at h = decoded id (host.decode_record raw) s at h
  read_Kept id (err e) s at h = (Preserves-refuse_if {P = Kept} (not (e.is not_exist)) e).from s h

  locked_Kept : (id : String) → Preserves Kept (remove_network_locked host id)
  unfolding remove_network_locked ◌>>=◌ attempt call
  locked_Kept id = record {
    from = λ s h.
        read_Kept id (host.read_journal id s.world).0 _ (clearing.read_lem s.world id h)
          ((clearing.read-Safe id).from s.world h);
  }

  remove_Kept : (id : String) → Preserves Kept (remove_network host id)
  unfolding remove_network
  remove_Kept id = Preserves-bind _ _ (outside_Kept _ _ clearing.lock-Safe) (λ _. locked_Kept id)

  -- Taking a network down, whatever the tools answer, keeps a state safe in which the record that a
  -- sandbox has for its own network has the network's address, where a firewall table is deleted, and
  -- a record removed, safely where no connection of that address is tracked in either direction; and
  -- where it reports success, either the record is gone or nothing was taken down.
  pub remove_network-Safe :
      (id : String) (w : W)
      → Safe w
      → let (r, s) = remove_network host id (fresh w) in
        Safe s.world
        × OnOk
            (λ _. (any_call takes_down s.calls ≡ false) ⊎ (done Call.remove_journal s.calls ≡ true))
            r
  remove_network-Safe id w h =
      ((remove_Kept id).from _ h, OnOk-succeeded _ ((remove-Settled host id).from _ refl))
