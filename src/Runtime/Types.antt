-- ===== src/Runtime/Types.antt =====
-- The data of services/containerd-runtime/runtime.go.
use sandcube.Prelude.{ℕ, String, Bool, List}
use sandcube.Prelude.Int.{ℤ}
use sandcube.Paths.{Bytes}

pub record Config : Type 0 where
  pub id : String
  pub image : String
  pub command : List String
  pub cpu : ℤ
  pub disk_mb : ℤ
  pub memory_mb : ℤ
  pub pids : ℤ

pub record Sandbox : Type 0 where
  pub id : String
  pub status : String
  pub snapshot : String

pub record ExecRequest : Type 0 where
  pub request_id : String
  pub command : List String
  pub cwd : String
  pub env : List (Bytes × Bytes)
  pub timeout : ℤ

pub record ExecResult : Type 0 where
  pub stdout : List ℕ
  pub stderr : List ℕ
  pub exit_code : ℕ
  pub timed_out : Bool
  pub truncated : Bool

abbrev pub runtime_name : String
runtime_name = "io.containerd.runsc.v1"

abbrev pub owner_label : String
owner_label = "sandcube.managed"
