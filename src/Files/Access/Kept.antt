-- ===== src/Files/Access/Kept.antt =====
-- What every call of the host keeps is kept by a request.
use sandcube.Prelude.{
  ℕ, Bool, true, false, Option, List, Option-cases, inl, inr, if◌then◌else◌, [], ◌∷◌, ◌||◌,
}
use sandcube.Exec.{Exec, Result, ok, err, eloop, exdev, enoent, eisdir, ◌>>=◌, raise, pure}
use sandcube.Exec.Rules.{
  Preserves, Preserves-bind, Preserves-attempt, Preserves-deferring, Preserves-if, Preserves-raise,
  Preserves-pure, Preserves-refuse_if, preserves_rules,
}
use sandcube.Paths.{Bytes}
use sandcube.Files.Host.{Host, Stat, OpenFlags}
use sandcube.Files.Name.{err_invalid_path}
use sandcube.Files.Access.{
  FileEntry, kind_of, FileRequest, confined_open, read_pinned, read_file, stat_entries, list_opened,
  list_directory, delete_leaf, change_leaf, change_file, dispatch, file_at,
}
use sandcube.Files.Write.{
  mode_or, old_mode, refuse_leaf, fill, fill_and_rename, replace_file, write_leaf,
}

pub record IsKeeping {W : Type 0} (host : Host W) (P : W → Type 0) : Type 0 where
  pub openat2 : (fd : ℕ) (n : Bytes) (f : OpenFlags) → Preserves P (host.openat2 fd n f)
  pub fstat : (fd : ℕ) → Preserves P (host.fstat fd)
  pub open_proc : (fd : ℕ) → Preserves P (host.open_proc fd)
  pub read_all : (fd n : ℕ) → Preserves P (host.read_all fd n)
  pub read_dir : (fd n : ℕ) → Preserves P (host.read_dir fd n)
  pub fstatat : (fd : ℕ) (n : Bytes) → Preserves P (host.fstatat fd n)
  pub mkdirat : (fd : ℕ) (n : Bytes) (m : ℕ) → Preserves P (host.mkdirat fd n m)
  pub unlinkat : (fd : ℕ) (n : Bytes) (b : Bool) → Preserves P (host.unlinkat fd n b)
  pub create : (fd : ℕ) (n : Bytes) → Preserves P (host.create fd n)
  pub write : (fd : ℕ) (b : Bytes) → Preserves P (host.write fd b)
  pub chmod : (fd m : ℕ) → Preserves P (host.chmod fd m)
  pub sync : (fd : ℕ) → Preserves P (host.sync fd)
  pub close : (fd : ℕ) → Preserves P (host.close fd)
  pub rename : (fd : ℕ) (n l : Bytes) → Preserves P (host.rename fd n l)
  pub fresh_id : Preserves P host.fresh_id

module _ {W : Type 0} {host : Host W} {P : W → Type 0} (keeping : IsKeeping host P) where
  open keeping use {
    openat2, fstat, open_proc, read_all, read_dir, fstatat, mkdirat, unlinkat, create, write, chmod,
    sync, close, rename, fresh_id,
  }

  open_ended :
      (r : Result ℕ)
      → Preserves P (elim r [
        | ok fd ↦ pure fd
        | err e ↦ raise (if e.is eloop || e.is exdev then err_invalid_path else e)
      ])
  open_ended (ok fd) = Preserves-pure fd
  open_ended (err e) = Preserves-raise _

  opened : (root : ℕ) (n : Bytes) (f : OpenFlags) → Preserves P (confined_open host root n f)
  unfolding confined_open
  opened root n f = Preserves-bind _ _ (Preserves-attempt _ (openat2 root n f)) (λ r. open_ended r)

  pinned : (fd : ℕ) → Preserves P (read_pinned host fd)
  unfolding read_pinned
  pinned fd = search (preserves_rules, fstat, open_proc, close, read_all) depth 12

  read_P : (root : ℕ) (n : Bytes) → Preserves P (read_file host root n)
  unfolding read_file
  read_P root n = search (preserves_rules, opened, close, pinned) depth 9

  one_stat :
      (n : Bytes) (rest : Exec W (List FileEntry)) (r : Result Stat)
      → Preserves P rest
      → Preserves P (elim r [
        | ok st ↦
            rest >>= λ found. pure (record { name = n; kind = kind_of st; size = st.size } ∷ found)
        | err e ↦ if e.is enoent then rest else raise e
      ])
  one_stat n rest (ok st) k = Preserves-bind rest _ k (λ found. Preserves-pure _)
  one_stat n rest (err e) k = Preserves-if _ _ _ k (Preserves-raise e)

  stats : (fd : ℕ) (ns : List Bytes) → Preserves P (stat_entries host fd ns)
  unfolding stat_entries
  stats fd [] = Preserves-pure []
  stats fd (n ∷ ns) =
      Preserves-bind _ _ (Preserves-attempt _ (fstatat fd n)) (λ r. one_stat n _ r (stats fd ns))

  refused : (r : Result Stat) → Preserves P (refuse_leaf r)
  unfolding refuse_leaf
  refused (ok st) = search preserves_rules
  refused (err e) = search preserves_rules

  filled : (fd : ℕ) (b : Bytes) (m : ℕ) → Preserves P (fill host fd b m)
  unfolding fill
  filled fd b m = search (preserves_rules, write, chmod, sync) depth 9

  renamed : (p : ℕ) (t l b : Bytes) (m fd : ℕ) → Preserves P (fill_and_rename host p t l b m fd)
  unfolding fill_and_rename
  renamed p t l b m fd = search (preserves_rules, filled, close, rename) depth 12

  replaced : (p : ℕ) (l b : Bytes) (m : ℕ) → Preserves P (replace_file host p l b m)
  unfolding replace_file
  replaced p l b m = Preserves-bind _ _ fresh_id λ id.
      Preserves-bind _ _ (create p _)
        (λ fd. Preserves-deferring _ _ (unlinkat p _ false) (renamed p _ l b m fd))

  written : (p : ℕ) (l : Bytes) (m : Option ℕ) (b : Bytes) → Preserves P (write_leaf host p l m b)
  unfolding write_leaf
  written p l m b = elim (Option-cases (host.decode b)) [
    | inl e ↦ rw (e, write_leaf) (Preserves-raise _)
    | inr (c, e) ↦
        rw (e, write_leaf)
          (Preserves-bind _ _ (Preserves-refuse_if _ _) λ _.
            Preserves-bind _ _ (Preserves-attempt _ (fstatat p l))
              λ r. Preserves-bind _ _ (refused r) (λ _. replaced p l c (mode_or m (old_mode r))))
  ]

  unlinked :
      (p : ℕ) (l : Bytes) (r : Result (Unit {0}))
      → Preserves P (elim r [
        | ok _ ↦ pure tt
        | err e ↦ if e.is eisdir then host.unlinkat p l true else raise e
      ])
  unlinked p l (ok _) = Preserves-pure tt
  unlinked p l (err e) = Preserves-if _ _ _ (unlinkat p l true) (Preserves-raise e)

  deleted : (p : ℕ) (l : Bytes) → Preserves P (delete_leaf host p l)
  unfolding delete_leaf
  deleted p l = Preserves-bind _ _ (Preserves-attempt _ (unlinkat p l false)) (unlinked p l)

  listed : (root : ℕ) (n : Bytes) → Preserves P (list_directory host root n)
  unfolding list_directory list_opened
  listed root n = search (preserves_rules, opened, close, read_dir, stats) depth 12

  changed_leaf : (req : FileRequest) (p : ℕ) (l : Bytes) → Preserves P (change_leaf host req p l)
  unfolding change_leaf
  changed_leaf req p l = search (preserves_rules, mkdirat, deleted, written) depth 9

  changed : (root : ℕ) (req : FileRequest) (n : Bytes) → Preserves P (change_file host root req n)
  unfolding change_file
  changed root req n = search (preserves_rules, opened, close, changed_leaf) depth 9

  -- What every call of the host keeps, `fileAt` keeps.
  pub file_at-Kept : (root : ℕ) (req : FileRequest) → Preserves P (file_at host root req)
  unfolding file_at dispatch
  file_at-Kept root req = search (preserves_rules, read_P, listed, changed) depth 12
