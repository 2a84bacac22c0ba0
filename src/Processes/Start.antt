-- ===== src/Processes/Start.antt =====
-- `StartProcess` and `saveProcess` of services/containerd-runtime/processes.go and reliability.go.
use sandcube.Prelude.{
  String, str_eq, Bool, true, false, not, Option, none, some, [], ◌∷◌, if◌then◌else◌, ℕ,
}
use sandcube.Exec.{
  Err, ok, Exec, sentinel, not_found, invalid_argument, already_exists, failed_precondition, pure,
  raise, attempt, handle, lift, ignoring, skip, refuse_if, for_each, ◌>>=◌, ◌>>◌,
}
use sandcube.Calls.{Call, Sys}
use sandcube.Paths.{bytes}
use sandcube.Logs.Buffer.{empty}
use sandcube.Runtime.Types.{ExecRequest}
use sandcube.Runtime.Engine.{TaskState}
use sandcube.Processes.{ProcessInfo, Tracked, Machine, ProcessSpec, Shim, outer}
use sandcube.Processes.Env.{merge_env}
use sandcube.Processes.Table.{
  put, is_valid_process_id, change_table, change_process, change_info, close_done, find_process,
  lookup_tracked,
}

abbrev pub is_running : TaskState → Bool
is_running TaskState.running = true
is_running _ = false

-- The process that is tracked before anything of it exists.
unfoldable pub new_info : String → ExecRequest → String → ℕ → String → ProcessInfo
new_info id req pid now hash = record {
  request_hash = hash;
  timeout = req.timeout;
  timed_out = false;
  id = pid;
  sandbox_id = id;
  command = req.command;
  status = "starting";
  exit_code = none;
  started_at = now;
  completed_at = none;
  error = "";
}

abbrev pub track : ProcessInfo → Tracked
track info = record {
  info = info;
  has_proc = false;
  out = empty;
  errors = empty;
  is_done = false;
  is_watched = false;
}

-- What a process that did not run, or whose end is not known, is turned into.
unfoldable pub failed_with : String → ℕ → ProcessInfo → ProcessInfo
failed_with text now info = record info { status = "error"; error = text; completed_at = some now }

-- The command runs with the arguments, the environment and the directory of the request.
unfoldable pub spec_for : ExecRequest → ProcessSpec → ProcessSpec
spec_for req ps = record {
  args = req.command;
  terminal = false;
  env = merge_env ps.env req.env;
  cwd = if not (str_eq req.cwd "") then req.cwd else ps.cwd;
}

module _ {W : Type 0} (shim : Shim W) where
  unfoldable pub read_clock : Exec (Sys (Machine W)) ℕ
  read_clock s =
      let (now, w) = shim.now s.world.outside in
      (ok now, record s { world = record s.world { outside = w } })

  unfoldable pub draw_id : Exec (Sys (Machine W)) String
  draw_id s =
      let (id, w) = shim.new_id s.world.outside in
      (ok id, record s { world = record s.world { outside = w } })

  -- The record of a process on disk, where there is a history.
  unfoldable pub save_info : ProcessInfo → Exec (Sys (Machine W)) (Unit {0})
  save_info info = if shim.is_durable then outer Call.save_process (shim.save info) else skip

  unfoldable pub save_tracked : Option Tracked → Exec (Sys (Machine W)) (Unit {0})
  save_tracked none = skip
  save_tracked (some p) = save_info p.info

  unfoldable pub save_process : String → Exec (Sys (Machine W)) (Unit {0})
  save_process pid = find_process pid >>= save_tracked

  -- A process that is known under the ID of the request.
  unfoldable pub reuse_tracked :
      String → Option Tracked → Exec (Sys (Machine W)) (Option ProcessInfo)
  reuse_tracked hash none = pure none
  reuse_tracked hash (some p) =
      if not (str_eq p.info.request_hash hash)
      then raise (sentinel already_exists "already exists")
      else pure (some p.info)

  unfoldable pub reuse_process : String → ExecRequest → Exec (Sys (Machine W)) (Option ProcessInfo)
  reuse_process id req =
      if str_eq req.request_id ""
      then pure none
      else refuse_if (not (is_valid_process_id (bytes req.request_id)))
          (sentinel invalid_argument "invalid argument")
        >> (lookup_tracked id req.request_id >>= reuse_tracked (shim.fingerprint req))

  -- Only a sandbox that runs takes a process.
  unfoldable pub require_running : String → Exec (Sys (Machine W)) (Unit {0})
  require_running id = do
    attempt (outer Call.find_task (shim.find_task id))
        >>= handle (λ _. skip)
            (λ e.
              raise
                (if e.is not_found then sentinel failed_precondition "failed precondition" else e))
    state ← outer Call.task_status (shim.task_status id)
    refuse_if (not (is_running state)) (sentinel failed_precondition "failed precondition")

  unfoldable pub prepare_directory : String → String → Exec (Sys (Machine W)) (Unit {0})
  prepare_directory id pid =
      if shim.is_durable
      then outer Call.make_process_directory (shim.make_directory id pid) >> save_process pid
      else skip

  unfoldable pub prepare_logs : String → String → Exec (Sys (Machine W)) (Unit {0})
  prepare_logs id pid =
      if shim.is_durable
      then for_each ("stdout" ∷ "stderr" ∷ [])
          (λ name. outer Call.make_pipe (shim.make_pipe id pid name))
        >> outer Call.start_collector (shim.start_collector id pid)
      else skip

  -- An exec that did not start is deleted, killed first where it runs all the same.
  unfoldable pub abandon_exec : String → Exec (Sys (Machine W)) (Unit {0})
  abandon_exec pid = do
    attempt (outer Call.exec_status (shim.exec_status pid))
        >>= handle
            (λ found.
              if is_running found.state
              then ignoring (outer Call.abandon_exec (shim.delete_killing pid))
              else ignoring (outer Call.abandon_exec (shim.delete_exec pid)))
            (λ _. ignoring (outer Call.abandon_exec (shim.delete_exec pid)))
    ignoring (outer Call.close_task_io (shim.cancel_io pid))

  unfoldable pub start_or_abandon : String → Exec (Sys (Machine W)) (Unit {0})
  start_or_abandon pid =
      attempt (outer Call.start_exec (shim.start_exec pid))
      >>= handle (λ _. skip) (λ e. abandon_exec pid >> raise e)

  -- What is between the entry in the table and `success = true`.
  unfoldable pub launch :
      String → ExecRequest → ProcessSpec → String → Exec (Sys (Machine W)) (Unit {0})
  launch id req ps pid = do
    prepare_directory id pid
    prepare_logs id pid
    outer Call.create_exec (shim.create_exec pid (spec_for req ps))
    change_process pid (λ p. record p { has_proc = true })
    start_or_abandon pid

  -- The deferred function, where the process has not been started.
  unfoldable pub fail_start : String → Err → Exec (Sys (Machine W)) ProcessInfo
  fail_start pid e = do
    now ← read_clock
    change_info pid (failed_with "Process start failed" now)
    ignoring (save_process pid)
    close_done pid
    raise e

  abbrev pub info_or : ProcessInfo → Option Tracked → ProcessInfo
  info_or info none = info
  info_or info (some p) = p.info

  -- The process runs: this is saved, and it is watched whether or not the save succeeds.
  unfoldable pub begin_watch : String → ProcessInfo → Exec (Sys (Machine W)) ProcessInfo
  begin_watch pid info = do
    change_info pid (λ i. record i { status = "running" })
    saved ← attempt (save_process pid)
    change_process pid (λ p. record p { is_watched = true })
    p ← find_process pid
    lift saved >> pure (info_or info p)

  unfoldable pub start_fresh : String → ExecRequest → Exec (Sys (Machine W)) ProcessInfo
  start_fresh id req = do
    require_running id
    ps ← outer Call.read_spec (shim.read_spec id)
    drawn ← draw_id
    now ← read_clock
    let pid = if str_eq req.request_id "" then drawn else req.request_id
    let info = new_info id req pid now (shim.fingerprint req)
    change_table (put pid (track info))
    attempt (launch id req ps pid) >>= handle (λ _. begin_watch pid info) (fail_start pid)

  abbrev pub or_fresh :
      Exec (Sys (Machine W)) ProcessInfo → Option ProcessInfo → Exec (Sys (Machine W)) ProcessInfo
  or_fresh m none = m
  or_fresh m (some info) = pure info

  unfoldable pub start_process : String → ExecRequest → Exec (Sys (Machine W)) ProcessInfo
  start_process id req = do
    outer Call.load_container (shim.load id)
    known ← reuse_process id req
    or_fresh (start_fresh id req) known
