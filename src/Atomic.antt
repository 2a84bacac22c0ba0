-- ===== src/Atomic.antt =====
-- `atomicJSON` of services/containerd-runtime/reliability.go.
pub mod Laws
use sandcube.Prelude.{ℕ, String, Bool, List, ◌∷◌}
use sandcube.Exec.{Result, Exec, attempt, lift, deferring, ◌>>=◌, ◌>>◌}
use sandcube.Paths.{Bytes, dir}

-- The file system: a new file is known by a descriptor and its name, and a directory by a
-- descriptor.
pub record Disk (W : Type 0) : Type 0 where
  -- os.CreateTemp in a directory, with a name that starts with ".pending-"
  pub create_temp : Bytes → Exec W (ℕ × Bytes)
  pub write : ℕ → Bytes → Exec W (Unit {0})
  pub sync : ℕ → Exec W (Unit {0})
  pub close : ℕ → Exec W (Unit {0})
  pub rename : Bytes → Bytes → Exec W (Unit {0})
  pub remove : Bytes → Exec W (Unit {0})
  pub open_directory : Bytes → Exec W ℕ
  pub sync_directory : ℕ → Exec W (Unit {0})

module _ {W : Type 0} (disk : Disk W) (path : Bytes) where
  unfoldable pub sync_parent : Exec W (Unit {0})
  sync_parent =
      disk.open_directory (dir path) >>= λ d. deferring (disk.close d) (disk.sync_directory d)

  -- The rename comes only after the content is on disk and the file is closed.
  unfoldable pub publish : ℕ × Bytes → Bytes → Exec W (Unit {0})
  publish (fd, name) content = do
    filled ← attempt (disk.write fd content >> disk.sync fd)
    closed ← attempt (disk.close fd)
    lift filled
    lift closed
    disk.rename name path
    sync_parent

  unfoldable pub write_atomic : Bytes → Exec W (Unit {0})
  write_atomic content =
      disk.create_temp (dir path) >>= λ temp. deferring (disk.remove temp.1) (publish temp content)

  unfoldable pub atomic_json : {A : Type 0} → (A → Result Bytes) → A → Exec W (Unit {0})
  atomic_json encode value = lift (encode value) >>= write_atomic

-- The same file system, with every state that it goes through, newest first.
abbrev pub Passed : Type 0 → Type 0
Passed W = W × List W

unfoldable pub noting : {W A : Type 0} → Exec W A → Exec (Passed W) A
noting m (w, past) = let (r, w') = m w in (r, (w', w' ∷ past))

abbrev pub noted : {W : Type 0} → Disk W → Disk (Passed W)
noted disk = record {
  create_temp = λ path. noting (disk.create_temp path);
  write = λ fd b. noting (disk.write fd b);
  sync = λ fd. noting (disk.sync fd);
  close = λ fd. noting (disk.close fd);
  rename = λ a b. noting (disk.rename a b);
  remove = λ path. noting (disk.remove path);
  open_directory = λ path. noting (disk.open_directory path);
  sync_directory = λ d. noting (disk.sync_directory d);
}
