-- ===== src/Tests/Runs.antt =====
-- The theorems on whole runs at a concrete input.
use sandcube.Prelude.{ℕ, ◌≡◌, refl, Bool, true, false, none, some, List, [], ◌∷◌}
use sandcube.Exec.{ok, err, message, succeeded, Exec}
use sandcube.Calls.{Call, fresh, Follows}
use sandcube.Paths.{bytes}
use sandcube.Logs.Capture.{chunk, ended}
use sandcube.Logs.Run.{Stream, Logs, run_logger}
use sandcube.Logs.Run.Laws.{IsStream, Logged, run_logger_lem}
use sandcube.Startup.{Flags, Platform, run_adapter}
use sandcube.Startup.Checks.{Checks}
use sandcube.Startup.Laws.{run_adapter_order}
use sandcube.Processes.Env.{merge_env}
use sandcube.Processes.Env.RoundTrip.{merge_env_twice}
use sandcube.Tests.Disks.{give}
use sandcube.Tests.Samples.{log_file, log_file-IsFile}

abbrev flags : Flags
flags = record {
  log_dir = [];
  socket = bytes "/run/a.sock";
  containerd = bytes "/run/c/c.sock";
  state_root = [];
  config_path = bytes "/etc/runsc.toml";
  namespace = bytes "sandcube";
}

-- A host where a socket is left over and nobody answers it.
abbrev platform : Platform ℕ
platform = record {
  open_file = λ path. give 3;
  flock = λ fd. give tt;
  stat = λ path. give tt;
  connect = λ path. give tt;
  lstat = λ path. give true;
  dial = λ path w. (err (message "connection refused"), w);
  remove = λ path. give tt;
  is_cgroup2 = give true;
  forwarding = give (bytes "1");
  look_path = λ tool. give tt;
  listen = λ path. give tt;
  chmod = λ path mode. give tt;
  close_listener = give tt;
  serve = give tt;
}

run_adapter_order_example :
    let calls = (run_adapter platform (give tt) (give (some 0)) flags (fresh 0)).1.calls in
    Follows Call.recover Call.lock_socket calls
    × Follows Call.recover Call.lock_namespace calls
    × Follows Call.recover Call.check_cgroups calls
    × Follows Call.recover Call.read_forwarding calls
    × Follows Call.reconcile Call.recover calls
    × Follows Call.listen Call.reconcile calls
    × Follows Call.protect_socket Call.listen calls
    × Follows Call.serve Call.protect_socket calls
    × Follows Call.remove_socket Call.lock_socket calls
    × Follows Call.remove_socket Call.dial_socket calls
    × ((v : ℕ) → Checks platform v)
run_adapter_order_example = run_adapter_order platform (give tt) (give (some 0)) flags 0

merge_env_twice_example :
    merge_env (merge_env (bytes "A=1" ∷ bytes "B=2" ∷ []) ((bytes "A", bytes "3=4") ∷ [])) []
    ≡ merge_env (bytes "A=1" ∷ bytes "B=2" ∷ []) ((bytes "A", bytes "3=4") ∷ [])
merge_env_twice_example =
    merge_env_twice (bytes "A=1" ∷ bytes "B=2" ∷ []) ((bytes "A", bytes "3=4") ∷ []) (refl, tt)

abbrev stream : Stream (List ℕ × Bool)
stream = record {
  open_output = give tt;
  close_output = λ w. w;
  open_pipe = give (chunk (1 ∷ 2 ∷ []) (ended none));
  close_pipe = λ w. w;
  sink = log_file;
}

abbrev stream-IsStream : IsStream stream
stream-IsStream = record {
  file = log_file-IsFile;
  content-open_output = λ w. refl;
  marked-open_output = λ w. refl;
  content-close_output = λ w. refl;
  marked-close_output = λ w. refl;
  content-open_pipe = λ w. refl;
  marked-open_pipe = λ w. refl;
  content-close_pipe = λ w. refl;
  marked-close_pipe = λ w. refl;
}

abbrev mark : Exec Bool (Unit {0})
mark d = (ok tt, true)

abbrev logs : Logs (List ℕ × Bool) (List ℕ × Bool) Bool
logs = record { stdout = ([], false); stderr = (7 ∷ [], false); directory = false }

run_logger_lem_example :
    let (r, t) = run_logger stream stream mark false (bytes "/var/p") logs in
    (succeeded r ≡ true → t.directory ≡ true)
    × (t.directory ≡ true
        → Logged stream-IsStream logs.stdout t.stdout × Logged stream-IsStream logs.stderr t.stderr)
run_logger_lem_example =
    run_logger_lem stream-IsStream stream-IsStream mark (λ d. d) (λ d got. refl) false
      (bytes "/var/p") logs refl
