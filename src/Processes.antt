-- ===== src/Processes.antt =====
-- The data of services/containerd-runtime/processes.go: a process in a sandbox, the table of the
-- processes that are tracked, and what the code asks of containerd and of the file system.
pub mod Table
pub mod Env
pub mod Start
pub mod Watch
pub mod Use
pub mod Recover
pub mod Accounted
use sandcube.Prelude.{ℕ, String, Bool, Option, List}
use sandcube.Prelude.Int.{ℤ}
use sandcube.Exec.{Exec, Result}
use sandcube.Calls.{Call, Sys, call}
use sandcube.Logs.Buffer.{Buffer}
use sandcube.Paths.{Bytes}
use sandcube.Runtime.Types.{ExecRequest}
use sandcube.Runtime.Engine.{TaskState}

-- A time is in nanoseconds.
pub record ProcessInfo : Type 0 where
  pub request_hash : String
  pub timeout : ℤ
  pub timed_out : Bool
  pub id : String
  pub sandbox_id : String
  pub command : List String
  pub status : String
  pub exit_code : Option ℕ
  pub started_at : ℕ
  pub completed_at : Option ℕ
  pub error : String

-- `trackedProcess`: whether `proc` is set and whether `done` is closed. `is_watched` says that
-- `watchProcess` has been started for it.
pub record Tracked : Type 0 where
  pub info : ProcessInfo
  pub has_proc : Bool
  pub out : Buffer
  pub errors : Buffer
  pub is_done : Bool
  pub is_watched : Bool

-- `r.processes`, by the ID of the process.
abbrev pub Table : Type 0
Table = List (String × Tracked)

-- The runtime's own memory beside the rest of the world.
pub record Machine (W : Type 0) : Type 0 where
  pub outside : W
  pub table : Table

-- What Status tells of an exec: the state, the exit code, and the exit time, where it is not zero.
pub record ExecState : Type 0 where
  pub state : TaskState
  pub exit_status : ℕ
  pub exit_time : Option ℕ

-- The fields of the OCI process that are set.
pub record ProcessSpec : Type 0 where
  pub args : List String
  pub terminal : Bool
  pub env : List Bytes
  pub cwd : String

pub record Shim (W : Type 0) : Type 0 where
  -- whether `historyRoot` is set
  pub is_durable : Bool
  -- the hash of the request's JSON
  pub fingerprint : ExecRequest → String
  pub now : W → ℕ × W
  pub new_id : W → String × W
  -- `load` of runtime.go, Container.Task with no attach, and Task.Status
  pub load : String → Exec W (Unit {0})
  pub find_task : String → Exec W (Unit {0})
  pub task_status : String → Exec W TaskState
  pub read_spec : String → Exec W ProcessSpec
  -- Task.Exec, Process.Start, Status, Kill, Delete, Delete with WithProcessKill, and the end of the IO
  pub create_exec : String → ProcessSpec → Exec W (Unit {0})
  pub start_exec : String → Exec W (Unit {0})
  pub exec_status : String → Exec W ExecState
  pub kill_exec : String → Exec W (Unit {0})
  pub delete_exec : String → Exec W (Unit {0})
  pub delete_killing : String → Exec W (Unit {0})
  pub cancel_io : String → Exec W (Unit {0})
  -- Task.LoadProcess
  pub load_exec : String → String → Exec W (Unit {0})
  -- the directory of a process, its pipes and its collector, by the IDs of the sandbox and the process
  pub make_directory : String → String → Exec W (Unit {0})
  pub make_pipe : String → String → String → Exec W (Unit {0})
  pub start_collector : String → String → Exec W (Unit {0})
  -- atomicJSON of the record, into the directory of its process
  pub save : ProcessInfo → Exec W (Unit {0})
  -- ReadFile of a file in this directory, and Stat
  pub read_file : String → String → String → Exec W (List ℕ)
  pub stat_file : String → String → String → Exec W (Unit {0})
  -- the history: its root, the directories of processes and their records, by the two names of each
  pub make_root : Exec W (Unit {0})
  pub list_directories : Exec W (List (String × String))
  pub list_records : Exec W (List (String × String))
  pub stat_record : String → String → Exec W (Unit {0})
  pub remove_directory : String → String → Exec W (Unit {0})
  pub read_record : String → String → Exec W (List ℕ)
  pub decode : List ℕ → Result ProcessInfo
  -- whether there is a containerd client
  pub has_client : Bool
  -- RemoveAll of the directory of a sandbox
  pub remove_history : String → Exec W (Unit {0})
  -- the select on `done` of a process and on ctx.Done(), with ctx.Err() as the error
  pub wait_done : String → Exec W (Unit {0})

module _ {W : Type 0} where
  -- A call to the outside.
  unfoldable pub outer : {A : Type 0} → Call → Exec W A → Exec (Sys (Machine W)) A
  outer c m = call c λ s. let (r, w) = m s.outside in (r, record s { outside = w })

  -- An operation that does not see the table.
  unfoldable pub within : {A : Type 0} → Exec (Sys W) A → Exec (Sys (Machine W)) A
  within m s =
      let (r, t) = m (record { world = s.world.outside; calls = s.calls }) in
      (r, record { world = record s.world { outside = t.world }; calls = t.calls })
