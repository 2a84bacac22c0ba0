-- ===== src/Files/Access/Laws.antt =====
-- What `fileAt` refuses, and what bounds its answers.
use sandcube.Prelude.{
  ℕ, ◌+◌, ◌≡◌, ◌≢◌, ◌≤◌, refl, true, false, Option, none, some, List, [], ◌∷◌, arith, inl, inr,
  length, any, ◌==◌,
}
use sandcube.Exec.{Err, OnOk, ok, err, sentinel, exdev, Result-cases, refuse_if}
use sandcube.Paths.{
  Bytes, slash, dot, split, trim_left, is_empty, is_dot_dot, dir, clean, same, up_to_slash, join,
  clean_parts, clean_step, render,
}
use sandcube.Files.Name.{err_invalid_path, sandbox_path}
use sandcube.Files.Name.Laws.{sandbox_path_lem}
use sandcube.Files.Host.{Host, OpenFlags, path_only, directory}
use sandcube.Files.Write.{max_file_size}
use sandcube.Files.Access.{
  FileRequest, Reply, content, entries, done, confined_open, read_pinned, read_file, stat_entries,
  list_opened, list_directory, change_file, dispatch, file_at, max_entries,
}

-- The error number that openat2 gives for a name that leaves the root.
abbrev pub err_exdev : Err
err_exdev = sentinel exdev "invalid cross-device link"

-- RESOLVE_BENEATH refuses an absolute name.
abbrev pub IsBeneath : {W : Type 0} → Host W → ℕ → Type 0
IsBeneath {W} host root =
    (name : Bytes) (flags : OpenFlags) (w : W)
    → (host.openat2 root (slash ∷ name) flags w).0 ≡ err err_exdev

dir-slash : dir (slash ∷ []) ≡ slash ∷ []
unfolding dir up_to_slash clean clean_parts clean_step render split join
dir-slash = refl

same-dot-slash : same (slash ∷ []) (dot ∷ []) ≡ false
unfolding same
same-dot-slash = refl

any_slashes :
    (p : Bytes)
    → is_empty (trim_left p) ≡ true
    → (any is_dot_dot (split p) ≡ false) × (any (λ c. c == 0) p ≡ false)
unfolding trim_left split same
any_slashes [] h = (refl, refl)
any_slashes (c ∷ p) h = ground (arith, any_slashes p)

sandbox_path_slashes :
    (p : Bytes)
    → p ≢ []
    → length p ≤ 4096
    → is_empty (trim_left p) ≡ true
    → sandbox_path p ≡ ok (slash ∷ [])
sandbox_path_slashes p ne short slashes = ground (arith, (sandbox_path_lem p).0, any_slashes p)

module _ {W : Type 0} (host : Host W) where
  confined_open-slash :
      (root : ℕ) (flags : OpenFlags) (w : W)
      → IsBeneath host root
      → (confined_open host root (slash ∷ []) flags w).0 ≡ err err_invalid_path
  unfolding confined_open
  confined_open-slash root flags w beneath = ground (arith, beneath [] flags w)

  -- A path of at most 4096 bytes, all of them slashes, the usual spelling of the root, is refused for
  -- every operation, `list` among them, where opening an absolute name beneath the root is refused.
  pub file_at-slashes :
      (root : ℕ) (req : FileRequest) (w : W)
      → IsBeneath host root
      → req.path ≢ []
      → length req.path ≤ 4096
      → is_empty (trim_left req.path) ≡ true
      → (file_at host root req w).0 ≡ err err_invalid_path
  unfolding file_at refuse_if dispatch read_file list_directory change_file
  file_at-slashes root req w beneath ne short slashes = ground (
    arith,
    sandbox_path_slashes req.path,
    same-dot-slash,
    dir-slash,
    confined_open-slash root path_only w beneath,
    confined_open-slash root directory w beneath,
  )

  stat_entries-bound :
      (fd : ℕ) (names : List Bytes) (w : W)
      → OnOk (λ found. length found ≤ length names) (stat_entries host fd names w).0
  unfolding stat_entries
  stat_entries-bound fd [] w = omega arith
  stat_entries-bound fd (n ∷ names) w =
      ground (arith, stat_entries-bound fd names (host.fstatat fd n w).1)

  abbrev decoded_length : Option Bytes → ℕ
  decoded_length none = 0
  decoded_length (some b) = length b

  -- The sizes that an answer may have.
  abbrev pub IsBounded : Reply → Type 0
  IsBounded (content b) = decoded_length (host.decode b) ≤ max_file_size
  IsBounded (entries es) = length es ≤ max_entries
  IsBounded done = Unit

  module _ (codec : (b : Bytes) → host.decode (host.encode b) ≡ some b) where
    read_pinned-bound : (fd : ℕ) (w : W) → OnOk IsBounded (read_pinned host fd w).0
    unfolding read_pinned refuse_if
    read_pinned-bound fd w =
        let w₁ = (host.fstat fd w).1 in
        let w₂ = (host.open_proc fd w₁).1 in
        elim (Result-cases (host.open_proc fd w₁).0) [
          | inr (e, failed) ↦ ground (arith, failed)
          | inl (f, opened) ↦ elim (Result-cases (host.read_all f (max_file_size + 1) w₂).0) [
            | inr (e, failed) ↦ ground (arith, opened, failed)
            | inl (b, whole) ↦ ground (arith, opened, whole, codec b)
          ]
        ]

    list_opened-bound : (fd : ℕ) (w : W) → OnOk IsBounded (list_opened host fd w).0
    unfolding list_opened refuse_if
    list_opened-bound fd w =
        let w₁ = (host.read_dir fd (max_entries + 1) w).1 in
        elim (Result-cases (host.read_dir fd (max_entries + 1) w).0) [
          | inr (e, failed) ↦ ground (arith, failed)
          | inl (names, given) ↦ ground (arith, given, stat_entries-bound fd names w₁)
        ]

    dispatch-bound :
        (root : ℕ) (req : FileRequest) (name : Bytes) (w : W)
        → OnOk IsBounded (dispatch host root req name w).0
    unfolding dispatch read_file list_directory change_file
    dispatch-bound root req name w =
        let look = confined_open host root name path_only w in
        let walk = confined_open host root name directory w in
        elim (Result-cases look.0) [
          | inl (fd, opened) ↦ elim (Result-cases walk.0) [
            | inl (fd', opened') ↦
                ground (
                  arith,
                  opened,
                  opened',
                  read_pinned-bound fd look.1,
                  list_opened-bound fd' walk.1,
                )
            | inr (e, failed) ↦ ground (arith, opened, failed, read_pinned-bound fd look.1)
          ]
          | inr (e, failed) ↦ elim (Result-cases walk.0) [
            | inl (fd', opened') ↦ ground (arith, failed, opened', list_opened-bound fd' walk.1)
            | inr (e', failed') ↦ ground (arith, failed, failed')
          ]
        ]

    -- With a codec that decodes what it encodes, a file that is read has at most 16 MiB, and a listing
    -- has at most 10000 entries.
    pub file_at-bound :
        (root : ℕ) (req : FileRequest) (w : W) → OnOk IsBounded (file_at host root req w).0
    unfolding file_at refuse_if
    file_at-bound root req w = elim (Result-cases (sandbox_path req.path)) [
      | inl (name, named) ↦ ground (arith, named, dispatch-bound root req name w)
      | inr (e, failed) ↦ ground (arith, failed)
    ]
