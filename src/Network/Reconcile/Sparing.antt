-- ===== src/Network/Reconcile/Sparing.antt =====
-- What the removal of a network touches, where the tools and the files do as they are told.
use sandcube.Prelude.{ℕ, String, str_eq, eq_iff, ◌≡◌, Bool, true, false, not, ◌||◌, List, arith}
use sandcube.Exec.{Result, ok, err, Exec, not_found, OnOk}
use sandcube.Exec.Rules.{
  Preserves, Preserves-guard, Preserves-bind, Preserves-pure, Preserves-attempt, Preserves-handle,
  Preserves-refuse_if, Preserves-if, preserves_rules, Preserves-for_each,
}
use sandcube.Calls.{Call, Sys, call}
use sandcube.Calls.Laws.{Preserves-call}
use sandcube.Runtime.Engine.{Engine, TaskState}
use sandcube.Runtime.Container.{is_managed}
use sandcube.Network.Host.{Host, NetworkRecord}
use sandcube.Network.Remove.{
  clear_direction, clear_conntrack, delete_named_link, delete_named_table, remove_namespace,
  tear_down, remove_network_locked, remove_network,
}
use sandcube.Network.Reconcile.{Journals}

-- Whether a sandbox runs, as the answers to these questions tell.
abbrev pub Denies : {A : Type 0} → Bool → Result A → Type 0
Denies b (ok _) = Unit
Denies b (err e) = e.is not_found ≡ true → b ≡ false

abbrev pub is_running : TaskState → Bool
is_running TaskState.running = true
is_running _ = false

-- `runs` tells which sandboxes run. The questions tell it and keep `Safe`, and so does what removes a
-- network by the ID of a sandbox that does not run, or by the name for this ID, and what clears
-- tracked connections.
pub record IsSparing {W : Type 0} (engine : Engine W) (host : Host W) (journals : Journals W)
    (runs : String → Bool) (Safe : W → Type 0) : Type 0 where
  pub load_lem : (w : W) (id : String) → Safe w → Denies (runs id) (engine.load_container id w).0
  pub info_lem :
      (w : W) (id : String)
      → Safe w
      → Denies (runs id) (engine.container_info id w).0
        × OnOk (λ info. is_managed info ≡ false → runs id ≡ false) (engine.container_info id w).0
  pub task_lem : (w : W) (id : String) → Safe w → Denies (runs id) (engine.find_task id w).0
  pub status_lem :
      (w : W) (id : String)
      → Safe w
      → Denies (runs id) (engine.task_status id w).0
        × OnOk (λ state. is_running state ≡ runs id) (engine.task_status id w).0
  pub load-Safe : (id : String) → Preserves Safe (engine.load_container id)
  pub info-Safe : (id : String) → Preserves Safe (engine.container_info id)
  pub task-Safe : (id : String) → Preserves Safe (engine.find_task id)
  pub status-Safe : (id : String) → Preserves Safe (engine.task_status id)
  pub names-Safe : Preserves Safe journals.list_journals
  pub lock-Safe : Preserves Safe host.lock
  pub read-Safe : (id : String) → Preserves Safe (host.read_journal id)
  pub links-Safe : Preserves Safe host.list_links
  pub tables-Safe : Preserves Safe host.list_tables
  pub stat-Safe : (name : String) → Preserves Safe (host.stat_namespace name)
  pub clear-Safe :
      (guest : List ℕ) (direction : String) → Preserves Safe (clear_direction host guest direction)
  pub link-Safe :
      (id : String) → runs id ≡ false → Preserves Safe (host.delete_link (host.network_name id))
  pub namespace-Safe :
      (id : String)
      → runs id ≡ false
      → Preserves Safe (host.delete_namespace (host.network_name id))
  pub table-Safe :
      (id : String) → runs id ≡ false → Preserves Safe (host.delete_table (host.network_name id))
  pub directory-Safe : (id : String) → runs id ≡ false → Preserves Safe (host.remove_sandbox_dir id)
  pub journal-Safe : (id : String) → runs id ≡ false → Preserves Safe (host.remove_journal id)

module _ {W : Type 0} {engine : Engine W} {host : Host W} {journals : Journals W}
    {runs : String → Bool} {Safe : W → Type 0}
    (sparing : IsSparing engine host journals runs Safe) where
  abbrev pub Kept : Sys W → Type 0
  Kept s = Safe s.world

  pub outside_Kept :
      {A : Type 0} (c : Call) (m : Exec W A) → Preserves Safe m → Preserves Kept (call c m)
  outside_Kept c m k = Preserves-call Safe c m k

  -- The record names the network of this sandbox.
  named :
      (id : String) (n : NetworkRecord)
      → (not (str_eq n.id id) || not (str_eq n.name (host.network_name id))) ≡ false
      → n.name ≡ host.network_name id
  named id n h = (eq_iff n.name (host.network_name id)).0 (ground (arith, h))

  links_Kept : Preserves Kept (call Call.list_links host.list_links)
  links_Kept = outside_Kept _ _ sparing.links-Safe

  tables_Kept : Preserves Kept (call Call.list_tables host.list_tables)
  tables_Kept = outside_Kept _ _ sparing.tables-Safe

  link_Kept :
      (id link : String)
      → runs id ≡ false
      → Preserves Kept (delete_named_link host (host.network_name id) link)
  unfolding delete_named_link
  link_Kept id link off =
      Preserves-if _ _ _ (outside_Kept _ _ (sparing.link-Safe id off)) (Preserves-pure tt)

  table_Kept :
      (id : String) (table : String × String)
      → runs id ≡ false
      → Preserves Kept (delete_named_table host (host.network_name id) table)
  unfolding delete_named_table
  table_Kept id (family, table) off =
      Preserves-if _ _ _ (outside_Kept _ _ (sparing.table-Safe id off)) (Preserves-pure tt)

  namespace_Kept :
      (id : String)
      → runs id ≡ false
      → Preserves Kept (remove_namespace host (host.network_name id))
  unfolding remove_namespace
  namespace_Kept id off =
      Preserves-bind _ _ (Preserves-attempt _ (outside_Kept _ _ (sparing.stat-Safe _))) λ seen.
        Preserves-handle _ _ seen (λ _. outside_Kept _ _ (sparing.namespace-Safe id off))
          (λ e. Preserves-refuse_if _ e)

  conntrack_Kept : (guest : List ℕ) → Preserves Kept (clear_conntrack host guest)
  unfolding clear_conntrack
  conntrack_Kept guest =
      Preserves-bind _ _ (Preserves-refuse_if _ _)
        (λ _. Preserves-for_each _ _ (λ d. outside_Kept _ _ (sparing.clear-Safe guest d)))

  directory_Kept :
      (id : String)
      → runs id ≡ false
      → Preserves Kept (call Call.remove_directory (host.remove_sandbox_dir id))
  directory_Kept id off = outside_Kept _ _ (sparing.directory-Safe id off)

  journal_Kept :
      (id : String)
      → runs id ≡ false
      → Preserves Kept (call Call.remove_journal (host.remove_journal id))
  journal_Kept id off = outside_Kept _ _ (sparing.journal-Safe id off)

  tear_down-Kept :
      (id : String) (n : NetworkRecord) → runs id ≡ false → Preserves Kept (tear_down host id n)
  unfolding tear_down
  tear_down-Kept id n off = Preserves-guard _ _ _ λ own. rw (named id n own) (
      search
        (
          preserves_rules, links_Kept, link_Kept, tables_Kept, table_Kept, namespace_Kept,
          conntrack_Kept, directory_Kept, journal_Kept,
        )
        depth 12)

  lock_Kept : Preserves Kept (call Call.lock_network host.lock)
  lock_Kept = outside_Kept _ _ sparing.lock-Safe

  read_Kept : (id : String) → Preserves Kept (call Call.read_journal (host.read_journal id))
  read_Kept id = outside_Kept _ _ (sparing.read-Safe id)

  locked_Kept : (id : String) → runs id ≡ false → Preserves Kept (remove_network_locked host id)
  unfolding remove_network_locked
  locked_Kept id off = search (preserves_rules, read_Kept, tear_down-Kept) depth 9

  pub remove_Kept : (id : String) → runs id ≡ false → Preserves Kept (remove_network host id)
  unfolding remove_network
  remove_Kept id off = Preserves-bind _ _ lock_Kept (λ _. locked_Kept id off)
