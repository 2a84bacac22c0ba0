-- ===== src/Quota/Enforce.antt =====
-- `projectAttr` and `enforceQuota` of services/containerd-runtime/quota.go.
pub mod Laws
use sandcube.Prelude.{
  ℕ, ◌+◌, ◌*◌, ◌/◌, ◌%◌, String, Bool, true, false, not, ◌&&◌, ◌||◌, List, [], ◌∷◌, ◌++◌, ltb, ◌==◌,
  if◌then◌else◌,
}
use sandcube.Prelude.Int.{ℤ, below, above, to_ℕ}
use sandcube.Exec.{
  Err, Result, ok, err, Exec, message, wrap, pure, raise, attempt, handle, lift, deferring, skip,
  refuse_if, for_each, ◌>>=◌, ◌>>◌,
}
use sandcube.Paths.{Bytes, bytes, slash}
use sandcube.Calls.{Call, Sys, call}
use sandcube.Runtime.Engine.{Mount}
use sandcube.Quota.Kernel.{Kernel, DiskQuota, Attributes}
use sandcube.Quota.Path.{snapshot_quota_path}
use sandcube.Quota.Device.{quota_device}

-- FS_XFLAG_PROJINHERIT, a bit of its own.
unfoldable pub inherits : ℕ → Bool
inherits flags = (flags / 512) % 2 == 1

-- `flags | 0x200`
unfoldable pub with_inherit : ℕ → ℕ
unfolding inherits
with_inherit flags = if inherits flags then flags else flags + 512

-- The limits of a sandbox: MiB in blocks of 512 bytes, and 256 inodes for each MiB.
unfoldable pub limits_of : ℕ → DiskQuota
limits_of disk_mb = record {
  block_hard = disk_mb * 2048;
  block_soft = disk_mb * 2048;
  inode_hard = disk_mb * 256;
  inode_soft = disk_mb * 256;
  blocks = 0;
  inodes = 0;
}

unfoldable pub same_limits : DiskQuota → DiskQuota → Bool
same_limits got want = got.block_hard == want.block_hard && got.inode_hard == want.inode_hard

-- `filepath.Join` of a clean directory and a name.
abbrev pub beneath : Bytes → Bytes → Bytes
beneath parent name = parent ++ slash ∷ name

abbrev pub charged : Bytes → List Bytes
charged parent = parent ∷ beneath parent (bytes "fs") ∷ beneath parent (bytes "work") ∷ []

module _ {W : Type 0} (kernel : Kernel W) where
  -- `fmt.Errorf("…: %w", err)` around an error.
  unfoldable pub explaining : {A : Type 0} → String → Exec (Sys W) A → Exec (Sys W) A
  explaining text m = attempt m >>= handle pure (λ e. raise (wrap text e))

  -- The two uses of `projectAttr`, on a directory that is open.
  unfoldable pub tag_opened : ℕ → ℕ → Exec W (Unit {0})
  tag_opened project fd = do
    attr ← kernel.get_attributes fd
    kernel.set_attributes fd (record { flags = with_inherit attr.flags; project = project })

  unfoldable pub check_opened : ℕ → ℕ → Exec W (Unit {0})
  check_opened project fd = do
    attr ← kernel.get_attributes fd
    refuse_if (not (attr.project == project) || not (inherits attr.flags))
        (message "snapshot project quota identity mismatch")

  unfoldable pub tag_directory : ℕ → Bytes → Exec W (Unit {0})
  tag_directory project path =
      kernel.open_directory path >>= λ fd. deferring (kernel.close fd) (tag_opened project fd)

  unfoldable pub check_directory : ℕ → Bytes → Exec W (Unit {0})
  check_directory project path =
      kernel.open_directory path >>= λ fd. deferring (kernel.close fd) (check_opened project fd)

  -- The branch `prepare`: limits first.
  unfoldable pub prepare_limits : Bytes → Bytes → ℕ → DiskQuota → Exec (Sys W) (Unit {0})
  prepare_limits device parent project want = do
    explaining "set project quota" (call Call.set_limits (kernel.set_limits device project want))
    for_each (charged parent) (λ path. call Call.tag_directory (tag_directory project path))

  -- What is read back, after a preparation too.
  unfoldable pub check_limits : Bytes → Bytes → ℕ → DiskQuota → Exec (Sys W) (Unit {0})
  check_limits device parent project want = do
    got ← explaining "read project quota" (call Call.read_limits (kernel.get_quota device project))
    refuse_if (not (same_limits got want))
        (message "project quota limits do not match sandbox configuration")
    for_each (charged parent) (λ path. call Call.check_directory (check_directory project path))

  unfoldable pub enforce_on : Bytes × ℕ → ℕ → Bool → Exec (Sys W) (Unit {0})
  enforce_on (parent, project) disk_mb prepare = do
    device ← quota_device kernel parent
    (if prepare then prepare_limits device parent project (limits_of disk_mb) else skip)
    check_limits device parent project (limits_of disk_mb)

  unfoldable pub enforce_quota : List Mount → ℤ → Bool → Exec (Sys W) (Unit {0})
  enforce_quota ms disk_mb prepare = do
    refuse_if (below disk_mb 16 || above disk_mb 1048576) (message "invalid disk quota")
    place ← lift (snapshot_quota_path ms)
    enforce_on place (to_ℕ disk_mb) prepare
