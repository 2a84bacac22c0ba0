-- ===== src/Quota/Journal/Safety.antt =====
-- No limit is taken off storage that is in use.
use sandcube.Prelude.{
  ℕ, zero, suc, String, ◌≡◌, refl, Bool, true, false, ◌&&◌, Option, none, some, arith, ◌==◌,
}
use sandcube.Exec.{Result, ok, err, OnOk, OnOk-each, Exec, attempt, lift, ◌>>=◌}
use sandcube.Exec.Rules.{Preserves, preserves_rules}
use sandcube.Exec.Leads.{
  Leads, Leads-weaken, Leads-Preserves, Leads-pure, Leads-raise, Leads-if, Leads-bind,
  Leads-bind_kept, Leads-catch,
}
use sandcube.Calls.{Call, Sys, call}
use sandcube.Calls.Laws.{Preserves-call}
use sandcube.Paths.{Bytes}
use sandcube.Quota.Kernel.{Kernel, DiskQuota, QuotaRecord, Wake}
use sandcube.Quota.Journal.Laws.{refuse_failure_lem}
use sandcube.Quota.Device.{quota_device}
use sandcube.Quota.Journal.{
  no_limits, is_absent, is_reclaimed, on_wake, sleep, poll, retire, reclaim_storage, reclaim_quota,
}

-- What a directory and a project hold.
pub record Holdings : Type 0 where
  pub exists : Bytes → Bool
  pub blocks : Bytes → ℕ → ℕ
  pub inodes : Bytes → ℕ → ℕ

-- The directory is gone, and nothing is charged to the project.
abbrev pub IsUnused : Holdings → Bytes → Bytes → ℕ → Type 0
IsUnused h device parent project =
    (h.exists parent ≡ false) × (h.blocks device project ≡ 0) × (h.inodes device project ≡ 0)

-- A record that has been read from the journal of a sandbox.
abbrev pub IsJournal : {W : Type 0} → Kernel W → String → QuotaRecord → Type 0
IsJournal {W} kernel id rec =
    (w : W) × (raw : Bytes) × ((kernel.read_journal id w).0 ≡ ok raw)
    × (kernel.decode_journal raw ≡ ok rec)

-- `Safe` is kept by every call of `reclaimQuota`, where the one that takes the limits off a project
-- keeps it if the project is unused. Stat and Q_XGETQUOTA tell what is held and leave it.
pub record IsGuarded {W : Type 0} (kernel : Kernel W) (Safe : W → Type 0) : Type 0 where
  pub holdings : W → Holdings
  pub stat_lem :
      (w : W) (path : Bytes)
      → is_absent (kernel.stat path w).0 ≡ true
      → (holdings w).exists path ≡ false
  pub get_quota_lem :
      (w : W) (device : Bytes) (project : ℕ) (q : DiskQuota)
      → (kernel.get_quota device project w).0 ≡ ok q
      → (q.blocks ≡ (holdings w).blocks device project)
        × (q.inodes ≡ (holdings w).inodes device project)
  pub holdings-stat : (w : W) (path : Bytes) → holdings (kernel.stat path w).1 ≡ holdings w
  pub holdings-get_quota :
      (w : W) (device : Bytes) (project : ℕ)
      → holdings (kernel.get_quota device project w).1 ≡ holdings w
  pub is_xfs-Safe : (path : Bytes) → Preserves Safe (kernel.is_xfs path)
  pub mounts-Safe : Preserves Safe kernel.mounts
  pub stat-Safe : (path : Bytes) → Preserves Safe (kernel.stat path)
  pub get_quota-Safe :
      (device : Bytes) (project : ℕ) → Preserves Safe (kernel.get_quota device project)
  pub cleanup-Safe : Preserves Safe kernel.cleanup
  pub wait-Safe : (w : W) → Safe w → Safe (kernel.wait w).1
  pub read_journal-Safe : (id : String) → Preserves Safe (kernel.read_journal id)
  pub remove_journal-Safe : (id : String) → Preserves Safe (kernel.remove_journal id)
  pub clear-Safe :
      (w : W) (device : Bytes) (id : String) (rec : QuotaRecord)
      → IsJournal kernel id rec
      → Safe w
      → IsUnused (holdings w) device rec.parent rec.project
      → Safe (kernel.set_limits device rec.project no_limits w).1

module _ {W : Type 0} {kernel : Kernel W} {Safe : W → Type 0}
    (guarded : IsGuarded kernel Safe) where
  open guarded use {holdings}

  abbrev Fine : Sys W → Type 0
  Fine s = Safe s.world

  -- After a stat, what it says holds; after the look at the usage, both.
  abbrev Seen : Bytes → Result (Unit {0}) → Sys W → Type 0
  Seen parent seen s = Fine s × (is_absent seen ≡ true → (holdings s.world).exists parent ≡ false)

  abbrev Found : Bytes → QuotaRecord → Bool → Sys W → Type 0
  Found device rec b s =
      Fine s × (b ≡ true → IsUnused (holdings s.world) device rec.parent rec.project)

  stat_Seen :
      (parent : Bytes)
      → Leads Fine
          (λ r s. Fine s × OnOk (λ seen. Seen parent seen s) r)
          (attempt (call Call.stat_storage (kernel.stat parent)))
  unfolding attempt call
  stat_Seen parent = record {
    from = λ s h.
        let kept = (guarded.stat-Safe parent).from s.world h in
        (
          kept,
          (
            kept,
            λ absent.
                rw (guarded.holdings-stat s.world parent) (guarded.stat_lem s.world parent absent),
          ),
        );
  }

  abbrev Told : Bytes → QuotaRecord → Result (Unit {0}) → DiskQuota → Sys W → Type 0
  Told device rec seen q s =
      Seen rec.parent seen s
      × (q.blocks ≡ (holdings s.world).blocks device rec.project)
      × (q.inodes ≡ (holdings s.world).inodes device rec.project)

  get_quota_Told :
      (device : Bytes) (rec : QuotaRecord) (seen : Result (Unit {0}))
      → Leads
          (λ s. Fine s × Seen rec.parent seen s)
          (λ r s. Fine s × OnOk (λ q. Told device rec seen q s) r)
          (call Call.read_limits (kernel.get_quota device rec.project))
  unfolding call
  get_quota_Told device rec seen = record {
    from = λ s h.
        let kept = (guarded.get_quota-Safe device rec.project).from s.world h.0 in
        let s' = (call Call.read_limits (kernel.get_quota device rec.project) s).1 in
        (
          kept,
          OnOk-each {P = λ q. Told device rec seen q s'} _ λ q got.
              rw (guarded.holdings-get_quota s.world device rec.project) (
                (kept, h.1.1),
                (guarded.get_quota_lem s.world device rec.project q got).0,
                (guarded.get_quota_lem s.world device rec.project q got).1,
              ),
        );
  }

  usage_Found :
      (device : Bytes) (rec : QuotaRecord) (seen : Result (Unit {0})) (q : DiskQuota) (s : Sys W)
      → Told device rec seen q s
      → Found device rec (is_absent seen && q.blocks == 0 && q.inodes == 0) s
  usage_Found device rec seen q s h = (h.0.0, λ zero. ground (arith, h))

  -- A look finds the storage unused when it says so.
  is_reclaimed_lem :
      (device : Bytes) (rec : QuotaRecord)
      → Leads Fine
          (λ r s. Fine s × OnOk (λ b. Found device rec b s) r)
          (is_reclaimed kernel device rec)
  unfolding is_reclaimed
  is_reclaimed_lem device rec =
      Leads-bind _ _ _ (stat_Seen rec.parent) (λ e s h. (h.0, tt))
        λ seen.
          Leads-bind_kept _ _ (refuse_failure_lem _ _) (λ e s h. (h.0, tt))
            λ _.
              Leads-bind _ _ _ (get_quota_Told device rec seen) (λ e s h. (h.0, tt))
                λ q. Leads-pure _ (λ s h. (h.0, usage_Found device rec seen q s h.1))

  sleep-Fine : Preserves Fine (sleep kernel)
  unfolding sleep call
  sleep-Fine = record { from = λ s h. guarded.wait-Safe s.world h }

  -- The loop keeps `Safe`, and where it is left by its `break` the storage is unused.
  abbrev Ready : Bytes → QuotaRecord → Result (Option (Unit {0})) → Sys W → Type 0
  Ready device rec r s =
      Fine s × OnOk (λ o. o ≡ some tt → IsUnused (holdings s.world) device rec.parent rec.project) r

  on_wake-Ready :
      (device : Bytes) (rec : QuotaRecord) (again : Exec (Sys W) (Option (Unit {0}))) (wake : Wake)
      → Leads Fine (Ready device rec) again
      → Leads Fine (Ready device rec) (on_wake kernel again wake)
  unfolding on_wake
  on_wake-Ready device rec again Wake.tick k = k
  on_wake-Ready device rec again Wake.deadline k = Leads-raise _ (λ s h. (h, tt))
  on_wake-Ready device rec again (Wake.cancelled e) k = Leads-raise _ (λ s h. (h, tt))

  poll-Ready :
      (looks : ℕ) (device : Bytes) (rec : QuotaRecord)
      → Leads Fine (Ready device rec) (poll kernel looks device rec)
  unfolding poll
  poll-Ready zero device rec = Leads-pure _ (λ s h. (h, λ same. ground (arith, same)))
  poll-Ready (suc looks) device rec =
      Leads-bind _ _ _ (is_reclaimed_lem device rec) (λ e s h. (h.0, tt))
        λ reclaimed.
          Leads-if _ _ _ (λ hit. Leads-pure _ (λ s h. (h.0, λ _. h.1.1 hit)))
            λ miss.
              Leads-weaken
                (Leads-bind_kept _ _ sleep-Fine (λ e s h. (h, tt))
                  λ wake. on_wake-Ready device rec _ wake (poll-Ready looks device rec))
                (λ s h. h.0)

  clear_Safe :
      (device : Bytes) (id : String) (rec : QuotaRecord)
      → IsJournal kernel id rec
      → Leads
          (Ready device rec (ok (some tt)))
          (λ _ s. Fine s)
          (call Call.clear_limits (kernel.set_limits device rec.project no_limits))
  unfolding call
  clear_Safe device id rec j = record {
    from = λ s h. guarded.clear-Safe s.world device id rec j h.0 (h.1 refl);
  }

  Fine-call : {A : Type 0} (c : Call) (m : Exec W A) → Preserves Safe m → Preserves Fine (call c m)
  Fine-call c m k = Preserves-call Safe c m k

  is_xfs-Fine : (path : Bytes) → Preserves Fine (call Call.check_filesystem (kernel.is_xfs path))
  is_xfs-Fine path = Fine-call _ _ (guarded.is_xfs-Safe path)

  mounts-Fine : Preserves Fine (call Call.list_mounts kernel.mounts)
  mounts-Fine = Fine-call _ _ guarded.mounts-Safe

  remove_journal-Fine :
      (id : String) → Preserves Fine (call Call.remove_quota_journal (kernel.remove_journal id))
  remove_journal-Fine id = Fine-call _ _ (guarded.remove_journal-Safe id)

  read_journal-Fine :
      (id : String) → Preserves Fine (call Call.read_quota_journal (kernel.read_journal id))
  read_journal-Fine id = Fine-call _ _ (guarded.read_journal-Safe id)

  retire_Safe :
      (id : String) (device : Bytes) (rec : QuotaRecord) (o : Option (Unit {0}))
      → IsJournal kernel id rec
      → Leads (Ready device rec (ok o)) (λ _ s. Fine s) (retire kernel id device rec o)
  unfolding retire
  retire_Safe id device rec none j = Leads-pure _ (λ s h. h.0)
  retire_Safe id device rec (some _) j =
      Leads-bind (λ _ s. Fine s) _ _ (clear_Safe device id rec j) (λ e s h. h)
        λ _. Leads-Preserves (search (preserves_rules, remove_journal-Fine))

  quota_device-Fine : (parent : Bytes) → Preserves Fine (quota_device kernel parent)
  unfolding quota_device
  quota_device-Fine parent = search (preserves_rules, is_xfs-Fine, mounts-Fine) depth 9

  cleanup-Fine : Preserves Fine (call Call.cleanup_snapshots kernel.cleanup)
  cleanup-Fine = Fine-call _ _ guarded.cleanup-Safe

  poll-retire-Fine :
      (looks : ℕ) (id : String) (device : Bytes) (rec : QuotaRecord)
      → IsJournal kernel id rec
      → Preserves Fine (poll kernel looks device rec >>= retire kernel id device rec)
  poll-retire-Fine looks id device rec j = record {
    from =
        (Leads-bind (Ready device rec) _ _ (poll-Ready looks device rec) (λ e s h. h.0)
          (λ o. retire_Safe id device rec o j)).from;
  }

  reclaim_storage-Fine :
      (looks : ℕ) (id : String) (rec : QuotaRecord)
      → IsJournal kernel id rec
      → Preserves Fine (reclaim_storage kernel looks id rec)
  unfolding reclaim_storage
  reclaim_storage-Fine looks id rec j =
      search (preserves_rules, quota_device-Fine, cleanup-Fine, poll-retire-Fine, j) depth 12

  decoded_Fine :
      {A : Type 0} (r : Result QuotaRecord) (f : QuotaRecord → Exec (Sys W) A)
      → ((rec : QuotaRecord) → r ≡ ok rec → Preserves Fine (f rec))
      → Preserves Fine (lift r >>= f)
  unfolding ◌>>=◌ lift
  decoded_Fine (ok rec) f k = record { from = (k rec refl).from }
  decoded_Fine (err e) f k = record { from = λ s h. h }

  -- Which world a journal was read in.
  abbrev Read : String → Result Bytes → Sys W → Type 0
  Read id r s = Fine s × OnOk (λ raw. (w : W) × ((kernel.read_journal id w).0 ≡ ok raw)) r

  read_journal-Read :
      (id : String) → Leads Fine (Read id) (call Call.read_quota_journal (kernel.read_journal id))
  unfolding call
  read_journal-Read id = record {
    from = λ s h. (
      (guarded.read_journal-Safe id).from s.world h,
      OnOk-each (kernel.read_journal id s.world).0 (λ raw e. (s.world, e)),
    );
  }

  reclaim_quota-Fine : (looks : ℕ) (id : String) → Preserves Fine (reclaim_quota kernel looks id)
  unfolding reclaim_quota
  reclaim_quota-Fine looks id = record {
    from =
        (Leads-catch (Read id) _ _ _ (read_journal-Read id)
          (λ raw. record {
            from = λ s h.
                let (w, e) = h.1 in
                (decoded_Fine (kernel.decode_journal raw) _
                    (λ rec d. reclaim_storage-Fine looks id rec (w, raw, e, d))).from
                  s h.0;
          })
          (λ e. Leads-weaken (Leads-Preserves (search preserves_rules)) (λ s h. h.0))).from;
  }

  -- Whatever is kept by every call of `reclaimQuota` on the kernel and on the journal, where the
  -- call that takes the limits off a project need only keep it when the directory that has
  -- been read from the journal of the sandbox is gone, and no block and no inode is charged to the
  -- project that has been read with it, is kept by `reclaimQuota` as a whole, on
  -- success and on each of its errors: no limit is taken off storage that is still in use.
  pub reclaim_quota-Safe :
      (looks : ℕ) (id : String) (s : Sys W)
      → Safe s.world
      → Safe (reclaim_quota kernel looks id s).1.world
  reclaim_quota-Safe looks id s h = (reclaim_quota-Fine looks id).from s h
