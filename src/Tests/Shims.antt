-- ===== src/Tests/Shims.antt =====
-- A containerd with one exec, and the disk of its history.
use sandcube.Prelude.{◌≡◌, refl, ◌∙◌, arith, true, false, Option, none, some, [], ◌∷◌}
use sandcube.Prelude.Int.{pos}
use sandcube.Exec.{ok}
use sandcube.Runtime.Types.{ExecRequest}
use sandcube.Runtime.Engine.{running, stopped}
use sandcube.Processes.{ProcessInfo, Machine, Shim}
use sandcube.Processes.Start.{track}
use sandcube.Processes.Watch.{is_terminal}
use sandcube.Processes.Watch.Laws.{IsDurable}
use sandcube.Tests.Disks.{give}

-- The record on disk, and what it was when the exec was deleted.
pub record Shed : Type 0 where
  pub on_disk : Option ProcessInfo
  pub at_deletion : Option (Option ProcessInfo)

abbrev pub empty_shed : Shed
empty_shed = record { on_disk = none; at_deletion = none }

abbrev pub sleeper : ProcessInfo
sleeper = record {
  request_hash = "h";
  timeout = pos 5;
  timed_out = false;
  id = "proc_a";
  sandbox_id = "sbx_a";
  command = "sleep" ∷ "1" ∷ [];
  status = "running";
  exit_code = none;
  started_at = 0;
  completed_at = none;
  error = "";
}

abbrev pub exec_request : ExecRequest
exec_request = record {
  request_id = "";
  command = "sleep" ∷ "1" ∷ [];
  cwd = "";
  env = [];
  timeout = pos 5;
}

abbrev pub shed : Shim Shed
shed = record {
  is_durable = true;
  fingerprint = λ req. "h";
  now = λ w. (7, w);
  new_id = λ w. ("proc_a", w);
  load = λ id. give tt;
  find_task = λ id. give tt;
  task_status = λ id. give running;
  read_spec = λ id. give (record { args = []; terminal = false; env = []; cwd = "/" });
  create_exec = λ pid ps. give tt;
  start_exec = λ pid. give tt;
  exec_status = λ pid. give (record { state = stopped; exit_status = 3; exit_time = some 9 });
  kill_exec = λ pid. give tt;
  delete_exec = λ pid w. (ok tt, record w { at_deletion = some w.on_disk });
  delete_killing = λ pid. give tt;
  cancel_io = λ pid. give tt;
  load_exec = λ id pid. give tt;
  make_directory = λ id pid. give tt;
  make_pipe = λ id pid name. give tt;
  start_collector = λ id pid. give tt;
  save = λ info w. (ok tt, record w { on_disk = some info });
  read_file = λ id pid name. give [];
  stat_file = λ id pid name. give tt;
  make_root = give tt;
  list_directories = give [];
  list_records = give [];
  stat_record = λ id pid. give tt;
  remove_directory = λ id pid. give tt;
  read_record = λ id pid. give [];
  decode = λ raw. ok sleeper;
  has_client = true;
  remove_history = λ id. give tt;
  wait_done = λ pid. give tt;
}

-- If the exec has been deleted, the disk had its end by then.
abbrev pub IsSafe : Shed → Type 0
IsSafe w =
    (o : Option ProcessInfo)
    → w.at_deletion ≡ some o
    → (info : ProcessInfo) × (o ≡ some info) × (is_terminal info ≡ true)

pub last_deletion : (a b : Option ProcessInfo) → some a ≡ some b → b ≡ a
last_deletion a b h = ground (arith, h)

abbrev pub shed-IsDurable : IsDurable shed "proc_a" IsSafe
shed-IsDurable = record {
  saved = λ w. w.on_disk;
  durable = refl;
  save_lem = λ w info same got. refl;
  saved-delete = λ w. refl;
  now-Safe = λ w h. h;
  save-Safe = λ info. record { from = λ w h. h };
  exec_status-Safe = record { from = λ w h. h };
  kill_exec-Safe = record { from = λ w h. h };
  stat_file-Safe = λ id name. record { from = λ w h. h };
  delete-Safe = λ w info h stored over o e. (info, last_deletion w.on_disk o e ∙ stored, over);
}

-- Before and after the exec has been started.
abbrev pub idle : Machine Shed
idle = record { outside = empty_shed; table = [] }

abbrev pub busy : Machine Shed
busy = record { outside = empty_shed; table = ("proc_a", track sleeper) ∷ [] }
