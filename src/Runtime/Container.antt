-- ===== src/Runtime/Container.antt =====
-- `load`, `describe` and `Inspect` of services/containerd-runtime/runtime.go.
pub mod Laws
use sandcube.Prelude.{String, str_eq, Bool, not, ◌||◌, if◌then◌else◌}
use sandcube.Exec.{
  Err, Exec, sentinel, wrap, not_found, pure, raise, attempt, handle, refuse_if, ◌>>=◌, ◌>>◌,
}
use sandcube.Runtime.Types.{Sandbox, runtime_name, owner_label}
use sandcube.Calls.{Call, Sys, call}
use sandcube.Runtime.Engine.{Engine, ContainerInfo, TaskState, running}

abbrev pub err_not_found : Err
err_not_found = sentinel not_found "not found"

-- The label and the runtime that mark a container as managed.
abbrev pub is_managed : ContainerInfo → Bool
is_managed info =
    not (not (str_eq (info.labels owner_label) "true") || not (str_eq info.runtime runtime_name))

abbrev pub status_text : TaskState → String
status_text running = "running"
status_text _ = "stopped"

module _ {W : Type 0} (engine : Engine W) where
  unfoldable pub load : String → Exec (Sys W) ContainerInfo
  load id = do
    call Call.load_container (engine.load_container id)
    info ← call Call.container_info (engine.container_info id)
    refuse_if (not (is_managed info)) (wrap "unmanaged container" err_not_found)
    pure info

  unfoldable pub describe : String → Exec (Sys W) Sandbox
  describe id = do
    info ← call Call.container_info (engine.container_info id)
    attempt (call Call.find_task (engine.find_task id))
        >>= handle
            (λ _. do
              state ← call Call.task_status (engine.task_status id)
              pure (record { id = id; status = status_text state; snapshot = info.snapshot_key }))
            (λ e.
              if e.is not_found
              then pure (record { id = id; status = "stopped"; snapshot = info.snapshot_key })
              else raise e)

  unfoldable pub inspect : String → Exec (Sys W) Sandbox
  inspect id = load id >>= λ _. describe id
