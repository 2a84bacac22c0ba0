-- ===== src/Quota/Kernel.antt =====
-- What services/containerd-runtime/quota.go asks of the kernel and of the file system, and the file of its
-- journal.
use sandcube.Prelude.{ℕ, String, Bool, Option, List}
use sandcube.Prelude.Int.{ℤ}
use sandcube.Exec.{Err, Exec, Result}
use sandcube.Paths.{Bytes}
use sandcube.Runtime.Engine.{Mount}

-- The fields of `diskQuota` that are read or set.
pub record DiskQuota : Type 0 where
  pub block_hard : ℕ
  pub block_soft : ℕ
  pub inode_hard : ℕ
  pub inode_soft : ℕ
  pub blocks : ℕ
  pub inodes : ℕ

-- The fields of `fsxattr` that are read or set.
pub record Attributes : Type 0 where
  pub flags : ℕ
  pub project : ℕ

-- A line of the mount table.
pub record MountInfo : Type 0 where
  pub mountpoint : Bytes
  pub vfs_options : Bytes
  pub options : Bytes
  pub source : Bytes

-- `quotaRecord`
pub record QuotaRecord : Type 0 where
  pub id : String
  pub parent : Bytes
  pub project : ℕ
  pub disk_mb : ℤ

-- What the wait of the loop ends with.
pub data Wake : Type 0 where
  tick : Wake
  deadline : Wake
  -- ctx.Done(), with what ctx.Err() is
  cancelled : Err → Wake

pub record Kernel (W : Type 0) : Type 0 where
  -- statfs: whether the file system is XFS
  pub is_xfs : Bytes → Exec W Bool
  pub mounts : Exec W (List MountInfo)
  -- quotactl with Q_XGETQUOTA and Q_XSETQLIM, on a device and a project
  pub get_quota : Bytes → ℕ → Exec W DiskQuota
  pub set_limits : Bytes → ℕ → DiskQuota → Exec W (Unit {0})
  -- open of a directory, FS_IOC_FSGETXATTR and FS_IOC_FSSETXATTR on it, and close
  pub open_directory : Bytes → Exec W ℕ
  pub get_attributes : ℕ → Exec W Attributes
  pub set_attributes : ℕ → Attributes → Exec W (Unit {0})
  pub close : ℕ → Exec W (Unit {0})
  -- os.Stat of a directory
  pub stat : Bytes → Exec W (Unit {0})
  -- the snapshotter's Cleanup, or nothing where it has none
  pub cleanup : Exec W (Unit {0})
  pub wait : W → Wake × W
  -- the journal of a sandbox: MkdirAll and atomicJSON, ReadFile, Unmarshal, Remove
  pub make_journal_directory : Exec W (Unit {0})
  pub write_journal : String → QuotaRecord → Exec W (Unit {0})
  pub read_journal : String → Exec W Bytes
  pub decode_journal : Bytes → Result QuotaRecord
  pub remove_journal : String → Exec W (Unit {0})
  -- load and Info: the label `sandcube.disk_mb`, as strconv.ParseInt reads it, and the snapshot's Mounts
  pub load_size : String → Exec W (Option ℤ)
  pub load_mounts : String → Exec W (List Mount)
  -- the IDs that name the files of the journal directory, and LoadContainer and Stat of a snapshot
  pub list_journals : Exec W (List String)
  pub load_container : String → Exec W (Unit {0})
  pub stat_snapshot : String → Exec W (Unit {0})
