-- ===== src/Files/Access.antt =====
-- `confinedOpen` and `fileAt` of services/containerd-runtime/files.go.
pub mod Laws
pub mod Kept
use sandcube.Prelude.{
  ℕ, ◌+◌, String, str_eq, Bool, true, false, not, ◌&&◌, ◌||◌, Option, none, some, List, [], ◌∷◌,
  ltb, length, if◌then◌else◌,
}
use sandcube.Exec.{
  Err, Result, ok, err, Exec, wrap, enoent, eisdir, eloop, exdev, pure, raise, attempt, lift,
  deferring, refuse_if, ◌>>=◌, ◌>>◌,
}
use sandcube.Paths.{Bytes, dot, same, dir, base}
use sandcube.Files.Name.{err_invalid_path, sandbox_path}
use sandcube.Files.Host.{
  Host, Stat, OpenFlags, path_only, directory, is_regular, is_directory, is_symlink,
}
use sandcube.Files.Write.{max_file_size, err_file_too_large, mode_or, write_leaf}

pub record FileRequest : Type 0 where
  pub operation : String
  pub path : Bytes
  pub mode : Option ℕ
  pub content : Bytes

pub data EntryKind : Type 0 where
  file subdirectory symlink other : EntryKind

pub record FileEntry : Type 0 where
  pub name : Bytes
  pub kind : EntryKind
  pub size : ℕ

-- The three shapes of a successful answer.
pub data Reply : Type 0 where
  content : Bytes → Reply
  entries : List FileEntry → Reply
  done : Reply

unfoldable pub kind_of : Stat → EntryKind
kind_of st =
    if is_regular st
    then file
    else if is_directory st
    then subdirectory
    else if is_symlink st
    then symlink
    else other

abbrev pub max_entries : ℕ
max_entries = 10000

module _ {W : Type 0} (host : Host W) where
  unfoldable pub confined_open : ℕ → Bytes → OpenFlags → Exec W ℕ
  unfolding ◌>>=◌
  confined_open root name flags = do
    opened ← attempt (host.openat2 root name flags)
    elim opened [
      | ok fd ↦ pure fd
      | err e ↦ raise (if e.is eloop || e.is exdev then err_invalid_path else e)
    ]

  unfoldable pub read_pinned : ℕ → Exec W Reply
  unfolding ◌>>=◌
  read_pinned fd = do
    st ← host.fstat fd
    refuse_if (not (is_regular st)) err_invalid_path
    refuse_if (ltb max_file_size st.size) err_file_too_large
    f ← host.open_proc fd
    bytes ← deferring (host.close f) (host.read_all f (max_file_size + 1))
    refuse_if (ltb max_file_size (length bytes)) err_file_too_large
    pure (content (host.encode bytes))

  unfoldable pub read_file : ℕ → Bytes → Exec W Reply
  unfolding ◌>>=◌
  read_file root name = do
    fd ← confined_open root name path_only
    deferring (host.close fd) (read_pinned fd)

  -- The loop over the entries: one that is gone is left out.
  unfoldable pub stat_entries : ℕ → List Bytes → Exec W (List FileEntry)
  unfolding ◌>>=◌
  stat_entries fd [] = pure []
  stat_entries fd (name ∷ names) =
      let rest = stat_entries fd names in
      attempt (host.fstatat fd name) >>= elim [
        | ok st ↦ do
          found ← rest
          pure (record { name = name; kind = kind_of st; size = st.size } ∷ found)
        | err e ↦ if e.is enoent then rest else raise e
      ]

  unfoldable pub list_opened : ℕ → Exec W Reply
  unfolding ◌>>=◌
  list_opened fd = do
    names ← host.read_dir fd (max_entries + 1)
    refuse_if (ltb max_entries (length names))
        (wrap "directory exceeds 10000 entries" err_file_too_large)
    found ← stat_entries fd names
    pure (entries found)

  unfoldable pub list_directory : ℕ → Bytes → Exec W Reply
  unfolding ◌>>=◌
  list_directory root name = do
    fd ← confined_open root name directory
    deferring (host.close fd) (list_opened fd)

  unfoldable pub delete_leaf : ℕ → Bytes → Exec W (Unit {0})
  unfolding ◌>>=◌
  delete_leaf parent leaf = do
    unlinked ← attempt (host.unlinkat parent leaf false)
    elim unlinked [
      | ok _ ↦ pure tt
      | err e ↦ if e.is eisdir then host.unlinkat parent leaf true else raise e
    ]

  unfoldable pub change_leaf : FileRequest → ℕ → Bytes → Exec W (Unit {0})
  unfolding ◌>>=◌
  change_leaf req parent leaf =
      if str_eq req.operation "mkdir"
      then host.mkdirat parent leaf (mode_or req.mode 493)
      else if str_eq req.operation "delete"
      then delete_leaf parent leaf
      else write_leaf host parent leaf req.mode req.content

  unfoldable pub change_file : ℕ → FileRequest → Bytes → Exec W Reply
  unfolding ◌>>=◌
  change_file root req name = do
    parent ← confined_open root (dir name) directory
    deferring (host.close parent) (change_leaf req parent (base name))
    pure done

  abbrev pub mode_too_large : Option ℕ → Bool
  mode_too_large none = false
  mode_too_large (some m) = ltb 511 m

  -- The `switch` on the operation.
  unfoldable pub dispatch : ℕ → FileRequest → Bytes → Exec W Reply
  unfolding ◌>>=◌
  dispatch root req name =
      if str_eq req.operation "read"
      then read_file root name
      else if str_eq req.operation "list"
      then list_directory root name
      else if str_eq req.operation "write"
          || str_eq req.operation "mkdir"
          || str_eq req.operation "delete"
      then change_file root req name
      else raise err_invalid_path

  unfoldable pub file_at : ℕ → FileRequest → Exec W Reply
  unfolding ◌>>=◌
  file_at root req = do
    refuse_if (mode_too_large req.mode) err_invalid_path
    name ← lift (sandbox_path req.path)
    refuse_if (same name (dot ∷ []) && not (str_eq req.operation "list")) err_invalid_path
    dispatch root req name
