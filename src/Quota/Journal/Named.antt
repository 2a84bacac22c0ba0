-- ===== src/Quota/Journal/Named.antt =====
-- What is on disk before a limit is set.
use sandcube.Prelude.{String, ℕ, ◌≡◌, refl, List, true}
use sandcube.Prelude.Int.{ℤ, to_ℕ}
use sandcube.Exec.{Err, Result, ok, err, Exec, OnOk, continue, lift, ◌>>=◌}
use sandcube.Exec.Rules.{Preserves, Preserves-bind, Preserves-refuse_if, preserves_rules}
use sandcube.Calls.{Call, Sys, call, fresh, Follows}
use sandcube.Paths.{Bytes}
use sandcube.Runtime.Engine.{Mount}
use sandcube.Quota.Kernel.{Kernel, DiskQuota, QuotaRecord, Attributes}
use sandcube.Quota.Path.{snapshot_quota_path}
use sandcube.Quota.Device.{quota_device}
use sandcube.Quota.Enforce.{
  explaining, prepare_limits, check_limits, tag_directory, tag_opened, check_directory,
  check_opened, enforce_on, enforce_quota,
}
use sandcube.Quota.Journal.{prepare_quota, reclaim_quota}
use sandcube.Quota.Journal.Order.{order_of_calls}

-- An action that keeps a state safe, and what the journal of the sandbox names.
abbrev pub IsHarmless : {W A : Type 0} → (W → Type 0) → (ℕ → W → Type 0) → Exec W A → Type 0
IsHarmless Safe Names m = Preserves Safe m × ((project : ℕ) → Preserves (Names project) m)

-- `Names project` says that the journal of this sandbox is on disk and names the project. A write of
-- that journal, with its ID, that succeeds makes it name the project of the record; a limit may be
-- set in a `Safe` state on a project that it names; and nothing else that a preparation calls
-- matters.
pub record IsNaming {W : Type 0} (kernel : Kernel W) (id : String) (Names : ℕ → W → Type 0)
    (Safe : W → Type 0) : Type 0 where
  pub write-Safe : (rec : QuotaRecord) → Preserves Safe (kernel.write_journal id rec)
  pub write_lem :
      (w : W) (rec : QuotaRecord)
      → rec.id ≡ id
      → OnOk
          (λ _. Names rec.project (kernel.write_journal id rec w).1)
          (kernel.write_journal id rec w).0
  pub limits-Safe :
      (w : W) (device : Bytes) (project : ℕ) (want : DiskQuota)
      → Names project w
      → Safe w
      → Safe (kernel.set_limits device project want w).1
  pub limits_keep :
      (device : Bytes) (project other : ℕ) (want : DiskQuota)
      → Preserves (Names other) (kernel.set_limits device project want)
  pub xfs_lem : (path : Bytes) → IsHarmless Safe Names (kernel.is_xfs path)
  pub mounts_lem : IsHarmless Safe Names kernel.mounts
  pub directory_lem : IsHarmless Safe Names kernel.make_journal_directory
  pub read_lem :
      (device : Bytes) (project : ℕ) → IsHarmless Safe Names (kernel.get_quota device project)
  pub open_lem : (path : Bytes) → IsHarmless Safe Names (kernel.open_directory path)
  pub attributes_lem : (fd : ℕ) → IsHarmless Safe Names (kernel.get_attributes fd)
  pub tag_lem : (fd : ℕ) (attr : Attributes) → IsHarmless Safe Names (kernel.set_attributes fd attr)
  pub close_lem : (fd : ℕ) → IsHarmless Safe Names (kernel.close fd)

module _ {W : Type 0} {kernel : Kernel W} {id : String} {Names : ℕ → W → Type 0} {Safe : W → Type 0}
    (naming : IsNaming kernel id Names Safe) where
  -- The journal names the project.
  abbrev Named : ℕ → W → Type 0
  Named project w = Safe w × Names project w

  abbrev Kept : Sys W → Type 0
  Kept s = Safe s.world

  abbrev KeptNamed : ℕ → Sys W → Type 0
  KeptNamed project s = Named project s.world

  both_kept :
      {A : Type 0} (project : ℕ) (m : Exec W A)
      → IsHarmless Safe Names m
      → Preserves (Named project) m
  both_kept project m (k, l) = record { from = λ w (h, n). (k.from w h, (l project).from w n) }

  outside :
      {A : Type 0} (project : ℕ) (c : Call) (m : Exec W A)
      → Preserves (Named project) m
      → Preserves (KeptNamed project) (call c m)
  unfolding call
  outside project c m k = record { from = λ s h. k.from s.world h }

  outside_Kept :
      {A : Type 0} (c : Call) (m : Exec W A) → Preserves Safe m → Preserves Kept (call c m)
  unfolding call
  outside_Kept c m k = record { from = λ s h. k.from s.world h }

  xfs_Named : (p : ℕ) (path : Bytes) → Preserves (Named p) (kernel.is_xfs path)
  xfs_Named p path = both_kept p _ (naming.xfs_lem path)

  mounts_Named : (p : ℕ) → Preserves (Named p) (kernel.mounts)
  mounts_Named p = both_kept p _ naming.mounts_lem

  read_Named : (p : ℕ) (device : Bytes) (n : ℕ) → Preserves (Named p) (kernel.get_quota device n)
  read_Named p device n = both_kept p _ (naming.read_lem device n)

  open_Named : (p : ℕ) (path : Bytes) → Preserves (Named p) (kernel.open_directory path)
  open_Named p path = both_kept p _ (naming.open_lem path)

  attributes_Named : (p : ℕ) (fd : ℕ) → Preserves (Named p) (kernel.get_attributes fd)
  attributes_Named p fd = both_kept p _ (naming.attributes_lem fd)

  tag_Named : (p : ℕ) (fd : ℕ) (a : Attributes) → Preserves (Named p) (kernel.set_attributes fd a)
  tag_Named p fd a = both_kept p _ (naming.tag_lem fd a)

  close_Named : (p : ℕ) (fd : ℕ) → Preserves (Named p) (kernel.close fd)
  close_Named p fd = both_kept p _ (naming.close_lem fd)

  ruleset named_rules = (
    preserves_rules, xfs_Named, mounts_Named, read_Named, open_Named, attributes_Named, tag_Named,
    close_Named,
  )

  tagged_Named :
      (project n : ℕ) (path : Bytes) → Preserves (Named project) (tag_directory kernel n path)
  unfolding tag_directory tag_opened
  tagged_Named project n path = search named_rules depth 12

  check_Named :
      (project n : ℕ) (path : Bytes) → Preserves (Named project) (check_directory kernel n path)
  unfolding check_directory check_opened
  check_Named project n path = search named_rules depth 12

  limits_Named :
      (device : Bytes) (project : ℕ) (want : DiskQuota)
      → Preserves (Named project) (kernel.set_limits device project want)
  limits_Named device project want = record {
    from = λ w (h, n). (
      naming.limits-Safe w device project want n h,
      (naming.limits_keep device project project want).from w n,
    );
  }

  device_Named :
      (project : ℕ) (path : Bytes) → Preserves (KeptNamed project) (quota_device kernel path)
  unfolding quota_device
  device_Named project path = search (named_rules, outside) depth 12

  xfs_Kept : (path : Bytes) → Preserves Kept (call Call.check_filesystem (kernel.is_xfs path))
  xfs_Kept path = outside_Kept _ _ (naming.xfs_lem path).0

  mounts_Kept : Preserves Kept (call Call.list_mounts kernel.mounts)
  mounts_Kept = outside_Kept _ _ naming.mounts_lem.0

  device_Kept : (path : Bytes) → Preserves Kept (quota_device kernel path)
  unfolding quota_device
  device_Kept path = search (preserves_rules, xfs_Kept, mounts_Kept) depth 9

  enforce_Named :
      (parent : Bytes) (project disk_mb : ℕ)
      → Preserves (KeptNamed project) (enforce_on kernel (parent, project) disk_mb true)
  unfolding enforce_on prepare_limits check_limits explaining
  enforce_Named parent project disk_mb =
      search (named_rules, device_Named, outside, limits_Named, tagged_Named, check_Named) depth 16

  lifted :
      {A B : Type 0} {P : Sys W → Type 0} (a : A) (f : A → Exec (Sys W) B)
      → Preserves P (f a)
      → Preserves P (lift (ok a) >>= f)
  unfolding ◌>>=◌ lift
  lifted a f k = record { from = k.from }

  refused :
      {A B : Type 0} {P : Sys W → Type 0} (f : Err) (g : A → Exec (Sys W) B)
      → Preserves P (lift (err f) >>= g)
  unfolding ◌>>=◌ lift
  refused f g = record { from = λ s h. h }

  placed_Named :
      (place : Bytes × ℕ) (disk_mb : ℤ) (ms : List Mount)
      → snapshot_quota_path ms ≡ ok place
      → Preserves (KeptNamed place.1) (enforce_quota kernel ms disk_mb true)
  unfolding enforce_quota
  placed_Named (parent, project) disk_mb ms e =
      Preserves-bind _ _ (Preserves-refuse_if _ _)
        λ _. rw e (lifted (parent, project) _ (enforce_Named parent project (to_ℕ disk_mb)))

  -- The journal names the project that is limited next.
  written :
      (place : Bytes × ℕ) (r : Result (Unit {0})) (disk_mb : ℤ) (ms : List Mount) (s : Sys W)
      → snapshot_quota_path ms ≡ ok place
      → Kept s
      → OnOk (λ _. Names place.1 s.world) r
      → Kept (continue r (λ _. enforce_quota kernel ms disk_mb true) s).1
  written place (ok a) disk_mb ms s e h n = ((placed_Named place disk_mb ms e).from s (h, n)).0
  written place (err f) disk_mb ms s e h n = h

  write_Kept :
      (place : Bytes × ℕ) (disk_mb : ℤ) (ms : List Mount)
      → snapshot_quota_path ms ≡ ok place
      → Preserves Kept (
          call Call.write_quota_journal (
            kernel.write_journal id
              (record { id = id; parent = place.0; project = place.1; disk_mb = disk_mb }))
          >>= λ _. enforce_quota kernel ms disk_mb true)
  unfolding ◌>>=◌ call
  write_Kept place disk_mb ms e = record {
    from = λ s h.
        written place _ disk_mb ms _ e ((naming.write-Safe _).from s.world h)
          (naming.write_lem s.world _ refl);
  }

  prepared_Kept :
      (r : Result (Bytes × ℕ)) (disk_mb : ℤ) (ms : List Mount) (s : Sys W)
      → snapshot_quota_path ms ≡ r
      → Kept s
      → Kept (prepare_quota kernel id disk_mb ms s).1
  unfolding prepare_quota
  prepared_Kept (ok place) disk_mb ms s e h = rw e (
      (lifted place _ (
          Preserves-bind _ _ (device_Kept place.0) λ _.
            Preserves-bind _ _ (outside_Kept _ _ naming.directory_lem.0)
              λ _. write_Kept place disk_mb ms e)).from
        s h)
  prepared_Kept (err f) disk_mb ms s e h = rw e ((refused {P = Kept} f _).from s h)

  -- Whatever the kernel answers: `prepareQuota` keeps a state safe in which a limit may be set on a
  -- project only once the journal of this sandbox is on disk and names that project. It sets a limit
  -- only after a write of a journal has succeeded, and charges a directory only after a setting of
  -- limits has succeeded; and `reclaimQuota` removes a journal only after a taking off of limits has
  -- succeeded.
  pub quota_order :
      (looks : ℕ) (disk_mb : ℤ) (ms : List Mount) (w : W)
      → Safe w
      → let made = (prepare_quota kernel id disk_mb ms (fresh w)).1 in
        let gone = (reclaim_quota kernel looks id (fresh w)).1.calls in
        Safe made.world
        × Follows Call.set_limits Call.write_quota_journal made.calls
        × Follows Call.tag_directory Call.set_limits made.calls
        × Follows Call.remove_quota_journal Call.clear_limits gone
  quota_order looks disk_mb ms w h =
      let (limited, charged, removed) = order_of_calls kernel looks id disk_mb ms w in
      (prepared_Kept _ disk_mb ms (fresh w) refl h, limited, charged, removed)
