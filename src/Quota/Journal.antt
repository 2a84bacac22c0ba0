-- ===== src/Quota/Journal.antt =====
-- `checkQuota`, `prepareQuota`, `reclaimQuota` and `reconcileQuotas` of
-- services/containerd-runtime/quota.go.
pub mod Laws
pub mod Safety
pub mod Reconciled
pub mod Order
pub mod Named
use sandcube.Prelude.{
  ℕ, zero, suc, String, str_eq, Bool, true, false, not, ◌&&◌, ◌||◌, Option, none, some, List, [],
  ◌∷◌, ◌==◌, if◌then◌else◌,
}
use sandcube.Prelude.Int.{ℤ}
use sandcube.Exec.{
  Err, Result, ok, err, Exec, message, not_exist, not_found, not_implemented, pure, raise, attempt,
  handle, lift, skip, refuse_if, for_each, ◌>>=◌, ◌>>◌,
}
use sandcube.Paths.{Bytes, bytes, is_rooted, dir, base}
use sandcube.Calls.{Call, Sys, call}
use sandcube.Server.Limits.{is_valid_id}
use sandcube.Runtime.Engine.{Mount}
use sandcube.Quota.Kernel.{Kernel, DiskQuota, QuotaRecord, Wake}
use sandcube.Quota.Path.{parse_uint, snapshot_quota_path}
use sandcube.Quota.Device.{quota_device}
use sandcube.Quota.Enforce.{enforce_quota}

-- `diskQuota` with no limit set.
abbrev pub no_limits : DiskQuota
no_limits = record {
  block_hard = 0;
  block_soft = 0;
  inode_hard = 0;
  inode_soft = 0;
  blocks = 0;
  inodes = 0;
}

-- The project is the name of the directory as a number.
abbrev names_project : Option ℕ → ℕ → Bool
names_project none project = false
names_project (some n) project = not (n == 0) && n == project

-- The journal of a sandbox is for this sandbox, and for a directory that a project is named after.
unfoldable pub is_owned : String → QuotaRecord → Bool
is_owned id rec =
    str_eq rec.id id
    && is_rooted rec.parent
    && names_project (parse_uint (base rec.parent)) rec.project

-- An error of os.Stat other than that there is nothing.
unfoldable pub stat_failure : Result (Unit {0}) → Option Err
stat_failure (ok _) = none
stat_failure (err e) = if e.is not_exist then none else some e

abbrev pub is_absent : Result (Unit {0}) → Bool
is_absent (ok _) = false
is_absent (err e) = e.is not_exist

unfoldable pub refuse_failure : {S : Type 0} → Option Err → Exec S (Unit {0})
refuse_failure none = skip
refuse_failure (some e) = raise e

module _ {W : Type 0} (kernel : Kernel W) where
  unfoldable pub check_quota : String → Exec (Sys W) (Unit {0})
  check_quota id = do
    size ← call Call.container_info (kernel.load_size id)
    elim size [
      | none ↦ raise (message "sandbox has no enforced disk quota; recreate legacy sandbox")
      | some disk_mb ↦ call Call.snapshot_mounts (kernel.load_mounts id) >>= λ ms.
          enforce_quota kernel ms disk_mb false
    ]

  -- The journal is on disk before a limit is set.
  unfoldable pub prepare_quota : String → ℤ → List Mount → Exec (Sys W) (Unit {0})
  prepare_quota id disk_mb ms = do
    place ← lift (snapshot_quota_path ms)
    quota_device kernel place.0
    call Call.make_directory kernel.make_journal_directory
    call Call.write_quota_journal (
        kernel.write_journal id
          (record { id = id; parent = place.0; project = place.1; disk_mb = disk_mb }))
    enforce_quota kernel ms disk_mb true

  -- One look at the storage: whether the directory is gone and nothing is charged.
  unfoldable pub is_reclaimed : Bytes → QuotaRecord → Exec (Sys W) Bool
  is_reclaimed device rec = do
    seen ← attempt (call Call.stat_storage (kernel.stat rec.parent))
    refuse_failure (stat_failure seen)
    usage ← call Call.read_limits (kernel.get_quota device rec.project)
    pure (is_absent seen && usage.blocks == 0 && usage.inodes == 0)

  unfoldable pub on_wake :
      Exec (Sys W) (Option (Unit {0})) → Wake → Exec (Sys W) (Option (Unit {0}))
  on_wake again Wake.tick = again
  on_wake again Wake.deadline = raise (message "snapshot storage has not yet been reclaimed")
  on_wake again (Wake.cancelled e) = raise e

  -- The `select` at the end of the loop's body.
  unfoldable pub sleep : Exec (Sys W) Wake
  sleep = call Call.wait_tick (λ w. let (k, w') = kernel.wait w in (ok k, w'))

  -- The loop, for at most this many looks. There is no value if they are used up.
  unfoldable pub poll : ℕ → Bytes → QuotaRecord → Exec (Sys W) (Option (Unit {0}))
  poll zero device rec = pure none
  poll (suc looks) device rec = do
    reclaimed ← is_reclaimed device rec
    (if reclaimed then pure (some tt) else sleep >>= on_wake (poll looks device rec))

  -- What is behind the loop.
  unfoldable pub retire :
      String → Bytes → QuotaRecord → Option (Unit {0}) → Exec (Sys W) (Option (Unit {0}))
  retire id device rec none = pure none
  retire id device rec (some _) = do
    call Call.clear_limits (kernel.set_limits device rec.project no_limits)
    call Call.remove_quota_journal (kernel.remove_journal id)
    pure (some tt)

  unfoldable pub reclaim_storage : ℕ → String → QuotaRecord → Exec (Sys W) (Option (Unit {0}))
  reclaim_storage looks id rec = do
    refuse_if (not (is_owned id rec)) (message "invalid quota ownership journal")
    device ← quota_device kernel (dir rec.parent)
    attempt (call Call.cleanup_snapshots kernel.cleanup)
        >>= handle (λ _. skip) (λ e. refuse_if (not (e.is not_implemented)) e)
    poll looks device rec >>= retire id device rec

  unfoldable pub reclaim_quota : ℕ → String → Exec (Sys W) (Option (Unit {0}))
  reclaim_quota looks id =
      attempt (call Call.read_quota_journal (kernel.read_journal id))
      >>= handle (λ raw. lift (kernel.decode_journal raw) >>= reclaim_storage looks id)
          (λ e. if e.is not_exist then pure (some tt) else raise e)

  -- Whether the lookup finds nothing. Any other error ends the loop.
  unfoldable pub is_missing : {A : Type 0} → Exec (Sys W) A → Exec (Sys W) Bool
  is_missing m =
      attempt m >>= handle (λ _. pure false) (λ e. if e.is not_found then pure true else raise e)

  unfoldable pub reconcile_snapshot : ℕ → String → Exec (Sys W) (Option (Unit {0}))
  reconcile_snapshot looks id = do
    no_snapshot ← is_missing (call Call.stat_snapshot (kernel.stat_snapshot id))
    (if no_snapshot then reclaim_quota looks id else pure (some tt))

  -- A journal whose sandbox has neither a container nor a snapshot is reclaimed.
  unfoldable pub reconcile_quota : ℕ → String → Exec (Sys W) (Option (Unit {0}))
  reconcile_quota looks id = do
    refuse_if (not (is_valid_id (bytes id))) (message "invalid quota journal filename")
    no_container ← is_missing (call Call.load_container (kernel.load_container id))
    (if no_container then reconcile_snapshot looks id else pure (some tt))

  abbrev if_finished :
      Exec (Sys W) (Option (Unit {0})) → Option (Unit {0}) → Exec (Sys W) (Option (Unit {0}))
  if_finished rest none = pure none
  if_finished rest (some _) = rest

  unfoldable pub reconcile_each : ℕ → List String → Exec (Sys W) (Option (Unit {0}))
  reconcile_each looks [] = pure (some tt)
  reconcile_each looks (id ∷ ids) =
      reconcile_quota looks id >>= if_finished (reconcile_each looks ids)

  unfoldable pub reconcile_quotas : ℕ → Exec (Sys W) (Option (Unit {0}))
  reconcile_quotas looks =
      call Call.list_quota_journals kernel.list_journals >>= reconcile_each looks
