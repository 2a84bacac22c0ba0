-- ===== src/Processes/Recover.antt =====
-- `recoverProcesses` and `cleanupProcessRecords` of services/containerd-runtime/reliability.go.
use sandcube.Prelude.{
  ℕ, String, str_eq, Bool, true, false, not, ◌&&◌, ◌||◌, List, [], if◌then◌else◌,
}
use sandcube.Exec.{
  Err, Exec, message, wrap, not_found, not_exist, pure, raise, attempt, handle, lift, gets,
  ignoring, skip, refuse_if, for_each, ◌>>=◌, ◌>>◌,
}
use sandcube.Calls.{Call, Sys}
use sandcube.Paths.{bytes}
use sandcube.Server.Limits.{is_valid_id}
use sandcube.Runtime.Engine.{TaskState}
use sandcube.Processes.{ProcessInfo, Tracked, Machine, ExecState, Shim, outer}
use sandcube.Processes.Table.{
  put, is_valid_process_id, change_table, change_process, change_info, close_done,
}
use sandcube.Processes.Start.{track, failed_with, read_clock, save_process, is_running}
use sandcube.Processes.Watch.{is_stopped, is_terminal}

abbrev pub is_created : TaskState → Bool
is_created TaskState.created = true
is_created _ = false

-- A record that names its own place: the names of the two directories above it.
unfoldable pub is_in_place : String × String → ProcessInfo → Bool
is_in_place (id, pid) info =
    is_valid_id (bytes info.sandbox_id)
    && is_valid_process_id (bytes info.id)
    && str_eq info.sandbox_id id
    && str_eq info.id pid

module _ {W : Type 0} (shim : Shim W) where
  -- A directory with no record cannot have launched an exec.
  unfoldable pub sweep_directory : String × String → Exec (Sys (Machine W)) (Unit {0})
  sweep_directory (id, pid) =
      if not (is_valid_id (bytes id)) || not (is_valid_process_id (bytes pid))
      then skip
      else attempt (outer Call.list_history (shim.stat_record id pid))
        >>= handle (λ _. skip)
            (λ e.
              if e.is not_exist
              then outer Call.remove_process_directory (shim.remove_directory id pid)
              else raise e)

  unfoldable pub fail_recovered : String → String → Exec (Sys (Machine W)) (Unit {0})
  fail_recovered text pid = do
    now ← read_clock shim
    change_info pid (failed_with text now)
    save_process shim pid

  unfoldable pub resume_watch : String → Exec (Sys (Machine W)) (Unit {0})
  resume_watch pid = change_process pid (λ p. record p { is_watched = true })

  -- An exec that was found again, by its state.
  unfoldable pub recover_exec : String → Bool → ExecState → Exec (Sys (Machine W)) (Unit {0})
  recover_exec pid terminal found =
      if is_created found.state
      then (do
        fail_recovered "Process start interrupted" pid
        ignoring (outer Call.delete_exec (shim.delete_exec pid))
        close_done pid)
      else if is_stopped found.state && terminal
      then (do
        attempt (outer Call.delete_exec (shim.delete_exec pid))
            >>= handle (λ _. skip) (λ e. refuse_if (not (e.is not_found)) e)
        close_done pid)
      else if is_running found.state
      then (do
        change_info pid (λ i. record i { status = "running"; error = "" })
        save_process shim pid
        resume_watch pid)
      else resume_watch pid

  -- The sandbox, its task and the exec.
  unfoldable pub find_exec : String → String → Exec (Sys (Machine W)) (Unit {0})
  find_exec id pid = do
    outer Call.load_container (shim.load id)
    outer Call.find_task (shim.find_task id)
    outer Call.load_exec (shim.load_exec id pid)
    change_process pid (λ p. record p { has_proc = true })

  unfoldable pub recover_missing : String → Bool → Err → Exec (Sys (Machine W)) (Unit {0})
  recover_missing pid terminal e =
      if e.is not_found
      then (if terminal
          then close_done pid
          else fail_recovered "Process missing after runtime restart; exit code unavailable" pid
            >> close_done pid)
      else raise e

  unfoldable pub recover_tracked : ProcessInfo → Exec (Sys (Machine W)) (Unit {0})
  recover_tracked info =
      if not shim.has_client && is_terminal info
      then close_done info.id
      else attempt (find_exec info.sandbox_id info.id)
        >>= handle
            (λ _.
              outer Call.exec_status (shim.exec_status info.id)
              >>= recover_exec info.id (is_terminal info))
            (recover_missing info.id (is_terminal info))

  unfoldable pub decode_record : List ℕ → Exec (Sys (Machine W)) ProcessInfo
  decode_record raw =
      attempt (lift (shim.decode raw))
      >>= handle pure (λ e. raise (wrap "corrupt process metadata" e))

  unfoldable pub recover_record : String × String → Exec (Sys (Machine W)) (Unit {0})
  recover_record place = do
    raw ← outer Call.read_process_record (shim.read_record place.0 place.1)
    info ← decode_record raw
    refuse_if (not (is_in_place place info)) (message "invalid process metadata")
    change_table (put info.id (track info))
    recover_tracked info

  unfoldable pub recover_processes : Exec (Sys (Machine W)) (Unit {0})
  recover_processes = do
    outer Call.make_process_directory shim.make_root
    places ← outer Call.list_history shim.list_directories
    for_each places sweep_directory
    records ← outer Call.list_process_records shim.list_records
    change_table (λ _. [])
    for_each records recover_record

  -- A process that is done and whose exec is still there has it deleted.
  unfoldable pub cleanup_exec : ExecState → String → Exec (Sys (Machine W)) (Unit {0})
  cleanup_exec found pid =
      if not (is_stopped found.state) && not (is_created found.state)
      then skip
      else attempt (outer Call.delete_exec (shim.delete_exec pid))
        >>= handle (λ _. skip) (λ e. refuse_if (not (e.is not_found)) e)

  unfoldable pub cleanup_record : String × Tracked → Exec (Sys (Machine W)) (Unit {0})
  cleanup_record (pid, p) =
      if not p.is_done || not p.has_proc
      then skip
      else attempt (outer Call.exec_status (shim.exec_status pid))
        >>= handle (λ found. cleanup_exec found pid) (λ e. if e.is not_found then skip else raise e)

  unfoldable pub cleanup_process_records : Exec (Sys (Machine W)) (Unit {0})
  cleanup_process_records = gets (λ s. s.world.table) >>= λ t. for_each t cleanup_record
