-- ===== src/Files/Write.antt =====
-- The `write` case of `fileAt` in services/containerd-runtime/files.go.
pub mod Laws
use sandcube.Prelude.{
  ℕ, ◌*◌, Bool, true, false, not, ◌&&◌, Option, none, some, ◌++◌, ltb, length, if◌then◌else◌,
}
use sandcube.Exec.{
  Err, Result, ok, err, Exec, sentinel, enoent, file_too_large, pure, raise, attempt, lift,
  deferring, skip, refuse_if, ◌>>=◌, ◌>>◌,
}
use sandcube.Paths.{Bytes, bytes}
use sandcube.Files.Name.{err_invalid_path}
use sandcube.Files.Host.{Host, Stat, is_regular, permissions}

abbrev pub max_file_size : ℕ
max_file_size = 16 * (1024 * 1024)

abbrev pub err_file_too_large : Err
err_file_too_large = sentinel file_too_large "file exceeds 16 MiB transfer limit"

abbrev pub mode_or : Option ℕ → ℕ → ℕ
mode_or none m = m
mode_or (some m) _ = m

-- `mode` before the request's own: the permissions of the file that is replaced, or 0644.
unfoldable pub old_mode : Result Stat → ℕ
old_mode (ok st) = permissions st
old_mode (err e) = 420

-- The tests on what `Fstatat` of the leaf returned.
unfoldable pub refuse_leaf : {W : Type 0} → Result Stat → Exec W (Unit {0})
refuse_leaf (ok st) = refuse_if (not (is_regular st)) err_invalid_path
refuse_leaf (err e) = refuse_if (not (e.is enoent)) e

module _ {W : Type 0} (host : Host W) where
  unfoldable pub fill : ℕ → Bytes → ℕ → Exec W (Unit {0})
  unfolding ◌>>=◌
  fill fd content mode = do host.write fd content; host.chmod fd mode; host.sync fd

  -- Fill the new file, close it whatever happened, and rename it over the leaf if all went well.
  unfoldable pub fill_and_rename : ℕ → Bytes → Bytes → Bytes → ℕ → ℕ → Exec W (Unit {0})
  unfolding ◌>>=◌
  fill_and_rename parent tmp leaf content mode fd = do
    filled ← attempt (fill fd content mode)
    closed ← attempt (host.close fd)
    lift filled
    lift closed
    host.rename parent tmp leaf

  unfoldable pub replace_file : ℕ → Bytes → Bytes → ℕ → Exec W (Unit {0})
  unfolding ◌>>=◌
  replace_file parent leaf content mode = do
    id ← host.fresh_id
    let tmp = bytes ".sandcube-" ++ id
    fd ← host.create parent tmp
    deferring (host.unlinkat parent tmp false) (fill_and_rename parent tmp leaf content mode fd)

  unfoldable pub write_leaf : ℕ → Bytes → Option ℕ → Bytes → Exec W (Unit {0})
  unfolding ◌>>=◌
  write_leaf parent leaf mode encoded = elim (host.decode encoded) [
    | none ↦ raise err_invalid_path
    | some content ↦ do
      refuse_if (ltb max_file_size (length content)) err_file_too_large
      found ← attempt (host.fstatat parent leaf)
      refuse_leaf found
      replace_file parent leaf content (mode_or mode (old_mode found))
  ]
