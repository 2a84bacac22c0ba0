-- ===== src/Quota/Device.antt =====
-- `quotaDevice` of services/containerd-runtime/quota.go.
pub mod Laws
use sandcube.Prelude.{
  ℕ, ◌+◌, Bool, true, false, not, ◌&&◌, ◌||◌, Option, none, some, List, [], ◌∷◌, ◌++◌, ltb, length,
  ◌==◌, if◌then◌else◌,
}
use sandcube.Exec.{Result, ok, err, Exec, message, pure, raise, lift, refuse_if, ◌>>=◌, ◌>>◌}
use sandcube.Paths.{Bytes, bytes, slash, same, trim_right, after_prefix, contains}
use sandcube.Calls.{Call, Sys, call}
use sandcube.Quota.Kernel.{Kernel, MountInfo}

abbrev has_prefix : Option Bytes → Bool
has_prefix none = false
has_prefix (some _) = true

-- Whether a path lies on a mount.
unfoldable pub covers : Bytes → MountInfo → Bool
covers path m =
    same path m.mountpoint || has_prefix (after_prefix (trim_right m.mountpoint ++ slash ∷ []) path)

abbrev pub beats : MountInfo → Option MountInfo → Bool
beats m none = true
beats m (some best) = ltb (length best.mountpoint) (length m.mountpoint)

-- The loop over the mount table: the covering mount with the longest name, the first of them.
unfoldable pub best_mount : Bytes → Option MountInfo → List MountInfo → Option MountInfo
best_mount path best [] = best
best_mount path best (m ∷ ms) =
    best_mount path (if covers path m && beats m best then some m else best) ms

unfoldable pub has_project_quota : MountInfo → Bool
has_project_quota m =
    let opts = bytes "," ++ (m.vfs_options ++ (bytes "," ++ (m.options ++ bytes ","))) in
    contains opts (bytes ",prjquota,") || contains opts (bytes ",pquota,")

abbrev pub source_of : Option MountInfo → Result Bytes
source_of none = err (message "snapshot mount not found")
source_of (some m) =
    if has_project_quota m
    then ok m.source
    else err (message "XFS project quota enforcement is not enabled")

module _ {W : Type 0} (kernel : Kernel W) where
  unfoldable pub quota_device : Bytes → Exec (Sys W) Bytes
  quota_device path = do
    xfs ← call Call.check_filesystem (kernel.is_xfs path)
    refuse_if (not xfs) (message "disk quota requires an XFS snapshotter mount with prjquota")
    ms ← call Call.list_mounts kernel.mounts
    lift (source_of (best_mount path none ms))
