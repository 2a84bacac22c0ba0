-- ===== src/Processes/Use.antt =====
-- `Processes`, `Process`, `ProcessLogs`, `KillProcess`, `settleProcesses` and `forgetProcesses` of
-- services/containerd-runtime/processes.go, and `waitExec` and `Exec` of runtime.go.
pub mod Laws
use Prim.Native.String.{◌++◌ as ◌<>◌}
use sandcube.Prelude.{
  ℕ, String, str_eq, Bool, true, false, not, ◌&&◌, ◌||◌, Option, none, some, List, [], ◌∷◌, leb,
  if◌then◌else◌,
}
use sandcube.Exec.{
  Err, Result, ok, err, Exec, succeeded, message, not_found, not_exist, pure, raise, attempt,
  handle, gets, skip, refuse_if, for_each, ◌>>=◌, ◌>>◌,
}
use sandcube.Calls.{Call, Sys, call}
use sandcube.Paths.{Bytes}
use sandcube.Logs.Buffer.{result}
use sandcube.Runtime.Types.{ExecRequest, ExecResult}
use sandcube.Runtime.Container.{err_not_found}
use sandcube.Processes.{ProcessInfo, Tracked, Table, Machine, Shim, outer}
use sandcube.Processes.Table.{
  of_sandbox, without_sandbox, change_table, change_info, find_process, lookup_tracked,
}
use sandcube.Processes.Start.{start_process}

-- `sort.Slice` by the time of the start.
unfoldable pub insert_started : ProcessInfo → List ProcessInfo → List ProcessInfo
insert_started i [] = i ∷ []
insert_started i (j ∷ js) =
    let rest = insert_started i js in if leb i.started_at j.started_at then i ∷ j ∷ js else j ∷ rest

unfoldable pub sort_started : Table → List ProcessInfo
sort_started [] = []
sort_started ((k, p) ∷ t) = insert_started p.info (sort_started t)

-- What ends the wait of `waitExec`.
pub data Woken : Type 0 where
  finished : Woken
  timed_out : Woken
  cancelled : Err → Woken

module _ {W : Type 0} (shim : Shim W) where
  unfoldable pub processes : String → Exec (Sys (Machine W)) (List ProcessInfo)
  processes id = do
    outer Call.load_container (shim.load id)
    gets (λ s. sort_started (of_sandbox id s.world.table))

  -- The process of this sandbox, or errdefs.ErrNotFound.
  unfoldable pub require_tracked : Option Tracked → Exec (Sys (Machine W)) Tracked
  require_tracked none = raise err_not_found
  require_tracked (some p) = pure p

  unfoldable pub process : String → String → Exec (Sys (Machine W)) Tracked
  process id pid = do
    outer Call.load_container (shim.load id)
    p ← lookup_tracked id pid
    require_tracked p

  -- A file that is not there reads as nothing.
  unfoldable pub read_log : String → String → String → Exec (Sys (Machine W)) Bytes
  read_log id pid name =
      attempt (outer Call.stat_logs (shim.read_file id pid name))
      >>= handle pure (λ e. if not (e.is not_exist) then raise e else pure [])

  unfoldable pub has_file : String → String → String → Exec (Sys (Machine W)) Bool
  has_file id pid name =
      attempt (outer Call.stat_logs (shim.stat_file id pid name)) >>= λ seen. pure (succeeded seen)

  unfoldable pub truncated : String → String → Exec (Sys (Machine W)) Bool
  truncated id pid = do
    a ← has_file id pid "stdout.truncated"
    b ← has_file id pid "stderr.truncated"
    pure (a || b)

  unfoldable pub logs_on_disk : String → String → Exec (Sys (Machine W)) (Bytes × Bytes × Bool)
  logs_on_disk id pid = do
    out ← read_log id pid "stdout"
    errors ← read_log id pid "stderr"
    cut ← truncated id pid
    pure (out, errors, cut)

  abbrev pub logs_in_memory : Tracked → Bytes × Bytes × Bool
  logs_in_memory p =
      let (out, a) = result p.out in let (errors, b) = result p.errors in (out, errors, a || b)

  unfoldable pub process_logs : String → String → Exec (Sys (Machine W)) (Bytes × Bytes × Bool)
  process_logs id pid = do
    p ← process id pid
    (if shim.is_durable then logs_on_disk id pid else pure (logs_in_memory p))

  -- The files of a process must be there when its command is answered.
  unfoldable pub require_log : String → String → String → Exec (Sys (Machine W)) Bytes
  require_log id pid name = outer Call.stat_logs (shim.read_file id pid name)

  unfoldable pub output_of : String → Tracked → Exec (Sys (Machine W)) (Bytes × Bytes × Bool)
  output_of id p =
      if shim.is_durable
      then (do
        out ← require_log id p.info.id "stdout"
        errors ← require_log id p.info.id "stderr"
        cut ← truncated id p.info.id
        pure (out, errors, cut))
      else pure (logs_in_memory p)

  unfoldable pub result_of : String → Bool → Tracked → Exec (Sys (Machine W)) ExecResult
  result_of id timed p = elim p.info.exit_code [
    | none ↦ raise (message p.info.error)
    | some code ↦ output_of id p >>= λ output. pure (record {
      stdout = output.0;
      stderr = output.1;
      exit_code = code;
      timed_out = timed || p.info.timed_out;
      truncated = output.2;
    })
  ]

  unfoldable pub forget_processes : String → Exec (Sys (Machine W)) (Unit {0})
  forget_processes id = do
    (if shim.is_durable then outer Call.remove_history (shim.remove_history id) else skip)
    change_table (without_sandbox id)

  -- The waits: on `done` of a process and on ctx.Done(), and on the timer too. Other goroutines run
  -- meanwhile, and what they leave is part of the result.
  module _ (await : String → Exec (Sys (Machine W)) (Unit {0}))
      (race : String → Exec (Sys (Machine W)) Woken) where
    unfoldable pub kill_process : String → String → Exec (Sys (Machine W)) Tracked
    kill_process id pid = do
      p ← process id pid
      (if not (str_eq p.info.status "running")
          then pure p
          else attempt (outer Call.kill_exec (shim.kill_exec pid))
            >>= handle (λ _. skip) (λ e. refuse_if (not (e.is not_found)) e)
            >> await pid
            >> (find_process pid >>= require_tracked))

    unfoldable pub settle_processes : String → Exec (Sys (Machine W)) (Unit {0})
    settle_processes id = do
      t ← gets (λ s. of_sandbox id s.world.table)
      for_each t λ entry.
          attempt (await entry.0)
          >>= handle (λ _. skip)
              (λ e. raise (message ("waiting for sandbox processes to stop: " <> e.text)))

    unfoldable pub on_woken : String → String → Woken → Exec (Sys (Machine W)) Bool
    on_woken id pid Woken.finished = pure false
    on_woken id pid Woken.timed_out =
        change_info pid (λ i. record i { timed_out = true }) >> (kill_process id pid >> pure true)
    on_woken id pid (Woken.cancelled e) = raise e

    unfoldable pub wait_exec : String → String → Exec (Sys (Machine W)) ExecResult
    wait_exec id pid = do
      woken ← race pid
      timed ← on_woken id pid woken
      p ← find_process pid
      q ← require_tracked p
      result_of id timed q

    unfoldable pub run_exec : String → ExecRequest → Exec (Sys (Machine W)) ExecResult
    run_exec id req = do
      info ← start_process shim id req
      p ← lookup_tracked id info.id
      q ← require_tracked p
      wait_exec id q.info.id
