-- ===== src/Runtime/Engine.antt =====
-- The containerd client and the runtime's own services, as the lifecycle uses them. A container, a
-- task and an image are named by the ID that they were looked up under.
use sandcube.Prelude.{String, Bool, List}
use sandcube.Exec.{Exec}
use sandcube.Paths.{Bytes}
use sandcube.Runtime.Types.{Config}
use sandcube.Runtime.Spec.{SpecOption}

pub record ContainerInfo : Type 0 where
  -- a missing label reads as ""
  pub labels : String → String
  pub runtime : String
  pub snapshot_key : String
  pub snapshotter : String
  pub image : String

pub data TaskState : Type 0 where
  running paused pausing created stopped unknown : TaskState

pub record Mount : Type 0 where
  pub kind : String
  pub options : List String

pub record Engine (W : Type 0) : Type 0 where
  pub version : Exec W (Unit {0})
  pub load_container : String → Exec W (Unit {0})
  pub container_info : String → Exec W ContainerInfo
  -- Delete with WithSnapshotCleanup
  pub delete_container : String → Exec W (Unit {0})
  pub get_image : String → Exec W (Unit {0})
  pub pull_image : String → Exec W (Unit {0})
  pub unpack_image : String → Exec W (Unit {0})
  -- the labels that Stat of the overlayfs snapshotter returns
  pub stat_snapshot : String → Exec W (String → String)
  pub remove_snapshot : String → Exec W (Unit {0})
  -- WithNewSnapshot, with the labels given
  pub new_snapshot : String → String → Exec W (Unit {0})
  pub snapshot_mounts : String → String → Exec W (List Mount)
  -- the options of NewContainer after the snapshot, and the write of the container record, for a
  -- fingerprint
  pub commit_container : Config → String → List SpecOption → Exec W (Unit {0})
  -- Container.Task with no attach
  pub find_task : String → Exec W (Unit {0})
  pub task_status : String → Exec W TaskState
  -- Task.Delete with WithProcessKill
  pub kill_task : String → Exec W (Unit {0})
  -- TaskService.Delete
  pub delete_task_record : String → Exec W (Unit {0})
  pub close_task_io : String → Exec W (Unit {0})
  pub new_task : String → Exec W (Unit {0})
  pub start_task : String → Exec W (Unit {0})

-- The parts of the runtime that the lifecycle calls.
pub record Services (W : Type 0) : Type 0 where
  -- `historyRoot`, and `networkPath` of a sandbox
  pub history_root : Bytes
  pub network_path : String → Bytes
  pub check_quota : String → Exec W (Unit {0})
  pub prepare_quota : String → Config → List Mount → Exec W (Unit {0})
  pub reclaim_quota : String → Exec W (Unit {0})
  pub setup_network : String → Exec W (Unit {0})
  pub remove_network : String → Exec W (Unit {0})
  -- the tracked processes of a sandbox, and whether the status of one is "running"
  pub list_processes : String → Exec W (List String)
  pub process_running : W → String → Bool
  pub kill_process : String → Exec W (Unit {0})
  pub settle_processes : String → Exec W (Unit {0})
  pub forget_processes : String → Exec W (Unit {0})
