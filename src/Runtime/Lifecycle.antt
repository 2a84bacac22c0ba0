-- ===== src/Runtime/Lifecycle.antt =====
-- `Start`, `Stop` and `Delete` of services/containerd-runtime/runtime.go.
pub mod Steps
pub mod Closed
pub mod Laws
use sandcube.Prelude.{String, str_eq, Bool, true, false, not, List, ◌&&◌, if◌then◌else◌}
use sandcube.Exec.{
  Err, Result, ok, err, Exec, wrap, join, not_found, pure, raise, attempt, handle, gets, skip,
  refuse_if, for_each, ◌>>=◌, ◌>>◌,
}
use sandcube.Runtime.Types.{Sandbox, owner_label}
use sandcube.Calls.{Call, Sys, call}
use sandcube.Runtime.Engine.{Engine, Services, TaskState, running}
use sandcube.Runtime.Container.{load, describe, err_not_found}
use sandcube.Runtime.Task.{delete_task, ignore_not_found}

abbrev pub is_running : TaskState → Bool
is_running running = true
is_running _ = false

unfoldable pub task_rollback_error : Err → Result (Unit {0}) → Err
task_rollback_error e (ok _) = e
task_rollback_error e (err f) = join e (wrap "task rollback" f)

module _ {W : Type 0} (engine : Engine W) (services : Services W) where
  -- From the quota check to a running task; a task whose start fails is deleted again.
  unfoldable pub launch : String → Exec (Sys W) Sandbox
  launch id = do
    call Call.check_quota (services.check_quota id)
    call Call.setup_network (services.setup_network id)
    call Call.new_task (engine.new_task id)
    attempt (call Call.start_task (engine.start_task id))
        >>= handle (λ _. describe engine id)
            (λ e.
              attempt (delete_task engine id) >>= λ removed. raise (task_rollback_error e removed))

  unfoldable pub start : String → Exec (Sys W) Sandbox
  start id = do
    _ ← load engine id
    attempt (call Call.find_task (engine.find_task id))
        >>= handle
            (λ _. do
              state ← call Call.task_status (engine.task_status id)
              if is_running state then describe engine id else delete_task engine id >> launch id)
            (λ e. if e.is not_found then launch id else raise e)

  -- `Kill` of a process that is running; one that is gone is no error.
  unfoldable pub kill_running : String → Exec (Sys W) (Unit {0})
  kill_running pid = do
    alive ← gets (λ s. services.process_running s.world pid)
    if alive
        then attempt (call Call.kill_process (services.kill_process pid)) >>= ignore_not_found
        else skip

  -- `Stop` of a sandbox that has a task.
  unfoldable pub stop_task : String → Exec (Sys W) Sandbox
  stop_task id = do
    processes ← call Call.list_processes (services.list_processes id)
    for_each processes kill_running
    call Call.settle_processes (services.settle_processes id)
    delete_task engine id
    call Call.settle_processes (services.settle_processes id)
    call Call.remove_network (services.remove_network id)
    describe engine id

  unfoldable pub stop : String → Exec (Sys W) Sandbox
  stop id = do
    _ ← load engine id
    attempt (call Call.find_task (engine.find_task id))
        >>= handle (λ _. stop_task id)
            (λ e.
              if e.is not_found
              then call Call.remove_network (services.remove_network id) >> describe engine id
              else raise e)

  -- The snapshot of an ID with no container: removed if it is ours.
  unfoldable pub remove_orphan : String → Exec (Sys W) (Unit {0})
  remove_orphan id =
      attempt (call Call.stat_snapshot (engine.stat_snapshot id))
      >>= handle
          (λ labels.
            if str_eq (labels owner_label) "true"
            then attempt (call Call.remove_snapshot (engine.remove_snapshot id))
              >>= ignore_not_found
            else skip)
          (λ e. refuse_if (not (e.is not_found)) e)

  -- `Delete` of an ID with no container.
  unfoldable pub delete_remains : String → Exec (Sys W) (Unit {0})
  delete_remains id = do
    remove_orphan id
    call Call.reclaim_quota (services.reclaim_quota id)
    call Call.settle_processes (services.settle_processes id)
    call Call.remove_network (services.remove_network id)
    call Call.forget_processes (services.forget_processes id)

  -- `Delete` of an ID with no managed container.
  unfoldable pub delete_absent : String → Exec (Sys W) (Unit {0})
  delete_absent id =
      attempt (call Call.load_container (engine.load_container id))
      >>= handle (λ _. raise err_not_found)
          (λ e. if e.is not_found then delete_remains id else raise e)

  -- `Delete` of a managed container.
  unfoldable pub delete_managed : String → Exec (Sys W) (Unit {0})
  delete_managed id = do
    _ ← stop id
    call Call.delete_container (engine.delete_container id)
    call Call.reclaim_quota (services.reclaim_quota id)
    call Call.forget_processes (services.forget_processes id)

  unfoldable pub delete : String → Exec (Sys W) (Unit {0})
  delete id =
      attempt (load engine id)
      >>= handle (λ _. delete_managed id)
          (λ e. if e.is not_found then delete_absent id else raise e)
