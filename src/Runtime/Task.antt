-- ===== src/Runtime/Task.antt =====
-- `deleteTask` of services/containerd-runtime/runtime.go.
use sandcube.Prelude.{String, Bool, true, false, if◌then◌else◌}
use sandcube.Exec.{Result, Exec, not_found, raise, attempt, handle, skip, ignoring, ◌>>=◌, ◌>>◌}
use sandcube.Calls.{Call, Sys, call}
use sandcube.Runtime.Engine.{Engine, TaskState, running, paused, pausing}

-- A task with live processes is killed; any other is deleted through the task service.
abbrev pub needs_kill : TaskState → Bool
needs_kill running = true
needs_kill paused = true
needs_kill pausing = true
needs_kill _ = false

-- `if errdefs.IsNotFound(err) { return nil }; return err`
unfoldable pub ignore_not_found : {S : Type 0} → Result (Unit {0}) → Exec S (Unit {0})
ignore_not_found = handle (λ _. skip) (λ e. if e.is not_found then skip else raise e)

module _ {W : Type 0} (engine : Engine W) where
  unfoldable pub retire_task : String → TaskState → Exec (Sys W) (Unit {0})
  retire_task id state = if needs_kill state then call Call.kill_task (engine.kill_task id) else do
    call Call.delete_task_record (engine.delete_task_record id)
    ignoring (call Call.close_task_io (engine.close_task_io id))

  unfoldable pub delete_task : String → Exec (Sys W) (Unit {0})
  delete_task id =
      attempt (call Call.task_status (engine.task_status id))
      >>= handle (λ state. attempt (retire_task id state) >>= ignore_not_found)
          (λ e. if e.is not_found then skip else raise e)
