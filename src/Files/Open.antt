-- ===== src/Files/Open.antt =====
-- `File` of services/containerd-runtime/files.go: the directory that a request is carried out in.
pub mod Laws
use sandcube.Prelude.{ℕ, String, str_eq, Bool, not, List, [], ◌∷◌, ◌++◌, map, if◌then◌else◌}
use sandcube.Exec.{
  Err, Exec, not_found, message, pure, raise, attempt, handle, deferring, refuse_if, ◌>>=◌, ◌>>◌,
}
use sandcube.Calls.{Call, Sys, call}
use sandcube.Paths.{Bytes, bytes, join, clean}
use sandcube.Runtime.Engine.{Engine, Services, ContainerInfo, Mount}
use sandcube.Runtime.Container.{load}
use sandcube.Files.Host.{Host}
use sandcube.Files.Access.{FileRequest, Reply, file_at}

-- `stateRoot` and `namespace` of the runtime; os.Open of a directory; whether Fstatfs finds an
-- overlay; mount.WithTempMount.
pub record Roots (W : Type 0) : Type 0 where
  pub state_root : Bytes
  pub namespace : Bytes
  pub open_directory : Bytes → Exec W ℕ
  pub is_overlay : ℕ → Exec W Bool
  pub with_temp_mount : List Mount → (Bytes → Exec W Reply) → Exec W Reply

-- The file system of a task that runs.
unfoldable pub task_root : Bytes → Bytes → String → Bytes
task_root state_root namespace id = clean (
    join (
      state_root
      ∷ bytes "io.containerd.runtime.v2.task"
      ∷ namespace
      ∷ bytes id
      ∷ bytes "rootfs"
      ∷ []))

-- Device nodes of an image are no devices of the host.
unfoldable pub harden : Mount → Mount
harden m = record m { options = m.options ++ ("nodev" ∷ "nosuid" ∷ "noexec" ∷ []) }

module _ {W : Type 0} (engine : Engine W) (services : Services W) (host : Host W)
    (roots : Roots W) where
  unfoldable pub in_overlay : FileRequest → ℕ → Exec W Reply
  in_overlay req fd = do
    found ← roots.is_overlay fd
    refuse_if (not found) (message "task rootfs is not a mounted overlay")
    file_at host fd req

  unfoldable pub in_task : String → FileRequest → Exec W Reply
  in_task id req = do
    fd ← roots.open_directory (task_root roots.state_root roots.namespace id)
    deferring (host.close fd) (in_overlay req fd)

  unfoldable pub in_mount : FileRequest → Bytes → Exec W Reply
  in_mount req root = do
    fd ← roots.open_directory root
    deferring (host.close fd) (file_at host fd req)

  -- Where there is no task, the snapshot is mounted for this request.
  unfoldable pub in_snapshot : String → FileRequest → Exec (Sys W) Reply
  in_snapshot id req = do
    info ← call Call.container_info (engine.container_info id)
    mounts ← call Call.snapshot_mounts (engine.snapshot_mounts info.snapshotter info.snapshot_key)
    call Call.access_files (roots.with_temp_mount (map harden mounts) (in_mount req))

  unfoldable pub file : String → FileRequest → Exec (Sys W) Reply
  file id req = do
    load engine id
    call Call.check_quota (services.check_quota id)
    attempt (call Call.find_task (engine.find_task id))
        >>= handle (λ _. call Call.access_files (in_task id req))
            (λ e. if not (e.is not_found) then raise e else in_snapshot id req)
