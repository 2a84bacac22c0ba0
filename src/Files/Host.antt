-- ===== src/Files/Host.antt =====
-- The system calls that services/containerd-runtime/files.go makes, on open descriptors, and the
-- base64 codec. They are parameters: what is assumed of them is stated where it is used.
use sandcube.Prelude.{ℕ, ◌/◌, ◌%◌, Bool, Option, List, ◌==◌}
use sandcube.Exec.{Exec}
use sandcube.Paths.{Bytes}

-- The fields of `unix.Stat_t` that are read.
pub record Stat : Type 0 where
  pub mode : ℕ
  pub size : ℕ

-- `st.Mode & unix.S_IFMT`, in units of 010000 (octal).
abbrev pub format_of : Stat → ℕ
format_of st = (st.mode / 4096) % 16

-- `st.Mode & 0777`
abbrev pub permissions : Stat → ℕ
permissions st = st.mode % 512

abbrev pub is_regular : Stat → Bool
is_regular st = format_of st == 8

abbrev pub is_directory : Stat → Bool
is_directory st = format_of st == 4

abbrev pub is_symlink : Stat → Bool
is_symlink st = format_of st == 10

-- `unix.O_PATH`, and `unix.O_RDONLY|unix.O_DIRECTORY`.
pub data OpenFlags : Type 0 where
  path_only directory : OpenFlags

pub record Host (W : Type 0) : Type 0 where
  -- openat2 with RESOLVE_BENEATH, RESOLVE_NO_SYMLINKS and RESOLVE_NO_XDEV
  pub openat2 : ℕ → Bytes → OpenFlags → Exec W ℕ
  pub fstat : ℕ → Exec W Stat
  -- os.Open of /proc/self/fd/N, and io.ReadAll of at most so many bytes
  pub open_proc : ℕ → Exec W ℕ
  pub read_all : ℕ → ℕ → Exec W Bytes
  pub read_dir : ℕ → ℕ → Exec W (List Bytes)
  -- fstatat with AT_SYMLINK_NOFOLLOW
  pub fstatat : ℕ → Bytes → Exec W Stat
  pub mkdirat : ℕ → Bytes → ℕ → Exec W (Unit {0})
  -- unlinkat, with AT_REMOVEDIR or without
  pub unlinkat : ℕ → Bytes → Bool → Exec W (Unit {0})
  -- openat with O_WRONLY, O_CREAT, O_EXCL and O_NOFOLLOW
  pub create : ℕ → Bytes → Exec W ℕ
  pub write : ℕ → Bytes → Exec W (Unit {0})
  pub chmod : ℕ → ℕ → Exec W (Unit {0})
  pub sync : ℕ → Exec W (Unit {0})
  pub close : ℕ → Exec W (Unit {0})
  -- renameat within one directory
  pub rename : ℕ → Bytes → Bytes → Exec W (Unit {0})
  -- `newProcessID`, from crypto/rand
  pub fresh_id : Exec W Bytes
  pub encode : Bytes → Bytes
  pub decode : Bytes → Option Bytes
