-- ===== src/Processes/Watch.antt =====
-- `watchProcess` of services/containerd-runtime/processes.go. A round is one turn of its loop, up to
-- the sleep or the return.
pub mod Laws
use sandcube.Prelude.{
  ℕ, zero, suc, ◌-◌, ◌*◌, String, str_eq, Bool, true, false, not, ◌&&◌, ◌||◌, Option, none, some,
  leb, if◌then◌else◌,
}
use sandcube.Prelude.Int.{above, to_ℕ}
use sandcube.Exec.{
  Err, Result, ok, err, Exec, succeeded, not_found, pure, raise, attempt, handle, ignoring, skip,
  ◌>>=◌, ◌>>◌,
}
use sandcube.Calls.{Call, Sys, call}
use sandcube.Runtime.Engine.{TaskState, stopped}
use sandcube.Processes.{ProcessInfo, Tracked, Machine, ExecState, Shim, outer}
use sandcube.Processes.Table.{change_info, close_done, find_process}
use sandcube.Processes.Start.{failed_with, read_clock, save_process}

abbrev pub is_stopped : TaskState → Bool
is_stopped TaskState.stopped = true
is_stopped _ = false

-- `info.Timeout > 0 && time.Since(info.StartedAt) >= info.Timeout * time.Second`
unfoldable pub is_overdue : ℕ → ProcessInfo → Bool
is_overdue now info =
    above info.timeout 0 && leb (to_ℕ info.timeout * 1000000000) (now - info.started_at)

-- What the exit turns the process into.
unfoldable pub exited_with : ExecState → ℕ → Bool → ProcessInfo → ProcessInfo
exited_with found now complete info = record info {
  error = if complete then info.error else "Log capture did not finish successfully";
  status = "exited";
  exit_code = some found.exit_status;
  completed_at = some (elim found.exit_time [ none ↦ now | some at ↦ at ]);
}

unfoldable pub is_terminal : ProcessInfo → Bool
is_terminal info = str_eq info.status "exited" || str_eq info.status "error"

module _ {W : Type 0} (shim : Shim W) (id pid : String) where
  -- The record is saved; only then may the loop be left.
  unfoldable pub settle_saved : Exec (Sys (Machine W)) (Unit {0}) → Exec (Sys (Machine W)) Bool
  settle_saved m =
      attempt (save_process shim pid)
      >>= handle (λ _. m >> (close_done pid >> pure true)) (λ _. pure false)

  unfoldable pub missing_round : Exec (Sys (Machine W)) Bool
  missing_round = do
    now ← read_clock shim
    change_info pid (failed_with "Runtime process missing; exit code unavailable" now)
    settle_saved skip

  unfoldable pub kill_overdue : Option Tracked → ℕ → Exec (Sys (Machine W)) (Unit {0})
  kill_overdue none now = skip
  kill_overdue (some p) now =
      if is_overdue now p.info
      then change_info pid (λ i. record i { timed_out = true })
        >> ignoring (outer Call.kill_exec (shim.kill_exec pid))
      else skip

  unfoldable pub alive_round : Exec (Sys (Machine W)) Bool
  alive_round = do p ← find_process pid; now ← read_clock shim; kill_overdue p now; pure false

  -- The wait for the collector's marker: at most this many looks.
  unfoldable pub wait_logs : ℕ → Exec (Sys (Machine W)) (Unit {0})
  wait_logs zero = skip
  wait_logs (suc looks) =
      attempt (outer Call.stat_logs (shim.stat_file id pid "logs.done"))
      >>= handle (λ _. skip) (λ _. wait_logs looks)

  unfoldable pub has_logs : Exec (Sys (Machine W)) Bool
  has_logs =
      if shim.is_durable
      then wait_logs 100
        >> (attempt (outer Call.stat_logs (shim.stat_file id pid "logs.done")) >>= λ seen.
            pure (succeeded seen))
      else pure true

  unfoldable pub exit_round : ExecState → Exec (Sys (Machine W)) Bool
  exit_round found = do
    complete ← has_logs
    now ← read_clock shim
    change_info pid (exited_with found now complete)
    settle_saved (ignoring (outer Call.delete_exec (shim.delete_exec pid)))

  -- Whether the loop is left.
  unfoldable pub watch_round : Exec (Sys (Machine W)) Bool
  watch_round =
      attempt (outer Call.exec_status (shim.exec_status pid))
      >>= handle (λ found. if is_stopped found.state then exit_round found else alive_round)
          (λ e. if e.is not_found then missing_round else pure false)

  -- The loop, for at most this many rounds.
  unfoldable pub watch : ℕ → Exec (Sys (Machine W)) Bool
  watch zero = pure false
  watch (suc rounds) = watch_round >>= λ left. if left then pure true else watch rounds
