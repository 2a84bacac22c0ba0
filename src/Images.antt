-- ===== src/Images.antt =====
-- services/containerd-runtime/images.go. `imageMu` makes each of these operations one step against
-- the others and against `Create`.
pub mod Laws
pub mod Removal
use Prim.Native.String.{◌++◌ as ◌<>◌}
use sandcube.Prelude.{
  ℕ, String, str_eq, Bool, true, false, not, ◌&&◌, ◌||◌, Option, none, some, List, [], ◌∷◌, ◌++◌,
  if◌then◌else◌,
}
use sandcube.Exec.{
  Err, Result, ok, err, Exec, message, sentinel, wrap, already_exists, not_found,
  failed_precondition, succeeded, pure, raise, attempt, handle, lift, ignoring, deferring, skip,
  refuse_if, for_each, ◌>>=◌, ◌>>◌,
}
use sandcube.Paths.{
  Bytes, bytes, slash, dot, same, split, join, trim_left, base, is_empty, is_dot_dot, after_prefix,
  is_some,
}
use sandcube.Calls.{Call, Sys, call}
use sandcube.Runtime.Types.{owner_label}
use sandcube.Runtime.Container.{err_not_found}
use sandcube.Runtime.Engine.{ContainerInfo}

pub record ImageRequest : Type 0 where
  pub reference : String
  pub path : Bytes

pub record ImageInfo : Type 0 where
  pub reference : String
  pub digest : String

-- The name, the digest of the target and the labels of an image; a missing label reads as "".
pub record Image : Type 0 where
  pub name : String
  pub digest : String
  pub labels : String → String

-- The containerd client and the file system, as these operations use them. An open archive is named
-- by a number.
pub record Store (W : Type 0) : Type 0 where
  pub build_root : Bytes
  -- filepath.EvalSymlinks, os.Open, Stat and IsRegular, Close
  pub resolve : Bytes → Exec W Bytes
  pub open_archive : Bytes → Exec W ℕ
  pub is_regular : ℕ → Exec W Bool
  pub close_archive : ℕ → Exec W (Unit {0})
  pub get_image : String → Exec W Image
  pub unpack_image : String → Exec W (Unit {0})
  -- WithLease, what it returns to release, and Import under an index name with the owner's label
  pub lease : Exec W (Unit {0})
  pub release_lease : Exec W (Unit {0})
  pub import_archive : ℕ → String → Exec W (Unit {0})
  -- ImageService.Delete
  pub delete_image : String → Exec W (Unit {0})
  pub list_containers : Exec W (List String)
  pub container_info : String → Exec W ContainerInfo

abbrev climb : List Bytes → List Bytes → List Bytes
climb [] ts = ts
climb (b ∷ bs) ts = bytes ".." ∷ climb bs ts

-- What is behind the elements that two paths share, with `..` for each other element of the first.
unfoldable pub relative_parts : List Bytes → List Bytes → List Bytes
relative_parts [] ts = ts
relative_parts (b ∷ bs) [] = climb (b ∷ bs) []
relative_parts (b ∷ bs) (t ∷ ts) =
    let rest = relative_parts bs ts in if same b t then rest else climb (b ∷ bs) (t ∷ ts)

abbrev print_relative : List Bytes → Bytes
print_relative [] = dot ∷ []
print_relative (p ∷ ps) = join (p ∷ ps)

-- The elements of an absolute path that is clean.
unfoldable pub elements : Bytes → List Bytes
elements p = if is_empty (trim_left p) then [] else split (trim_left p)

-- `filepath.Rel` of absolute paths that are clean, as EvalSymlinks gives them.
unfoldable pub relative : Bytes → Bytes → Bytes
relative root path = print_relative (relative_parts (elements root) (elements path))

-- The archive is `image.tar` beneath a directory of the build root.
unfoldable pub is_archive : Bytes → Bytes → Bool
is_archive root path = not (
    is_some (after_prefix (bytes "../") (relative root path))
    || not (same (base path) (bytes "image.tar"))
    || same (relative root path) (bytes "image.tar"))

abbrev info_of : Image → ImageInfo
info_of image = record { reference = image.name; digest = image.digest }

module _ {W : Type 0} (store : Store W) where
  -- The deferred function: the record of an import that failed is deleted, and the lease released.
  unfoldable pub settle_import : {A : Type 0} → String → Exec (Sys W) A → Exec (Sys W) A
  settle_import ref m = do
    r ← attempt m
    (if succeeded r
        then skip
        else ignoring (call Call.delete_image_record (store.delete_image ref)))
    ignoring (call Call.release_lease store.release_lease)
    lift r

  unfoldable pub import_leased : ℕ → String → Exec (Sys W) ImageInfo
  import_leased f ref = do
    call Call.import_archive (store.import_archive f ref)
    image ← call Call.get_image (store.get_image ref)
    call Call.unpack_image (store.unpack_image ref)
    pure (info_of image)

  -- An image that has the name already is left alone.
  unfoldable pub import_new : ℕ → String → Exec (Sys W) ImageInfo
  import_new f ref =
      attempt (call Call.get_image (store.get_image ref))
      >>= handle (λ _. raise (sentinel already_exists "already exists"))
          (λ e.
            if not (e.is not_found)
            then raise e
            else call Call.lease store.lease >> settle_import ref (import_leased f ref))

  unfoldable pub import_opened : ℕ → String → Exec (Sys W) ImageInfo
  import_opened f ref = do
    regular ← call Call.open_archive (store.is_regular f)
    refuse_if (not regular) (message "image archive must be a regular file")
    import_new f ref

  unfoldable pub import_image : ImageRequest → Exec (Sys W) ImageInfo
  import_image req = do
    root ← call Call.resolve_path (store.resolve store.build_root)
    path ← call Call.resolve_path (store.resolve req.path)
    refuse_if (not (is_archive root path)) (message "image archive must be inside build root")
    f ← call Call.open_archive (store.open_archive path)
    deferring (call Call.close_archive (store.close_archive f)) (import_opened f req.reference)

  unfoldable pub inspect_image : String → Exec (Sys W) ImageInfo
  inspect_image ref = do
    image ← call Call.get_image (store.get_image ref)
    refuse_if (not (str_eq (image.labels owner_label) "true")) err_not_found
    pure (info_of image)

  unfoldable pub refuse_referenced : String → String → Exec (Sys W) (Unit {0})
  refuse_referenced ref id = do
    info ← call Call.container_info (store.container_info id)
    refuse_if (str_eq info.image ref) (
        wrap ("image is referenced by container " <> id)
          (sentinel failed_precondition "failed precondition"))

  unfoldable pub delete_unused : String → Exec (Sys W) (Unit {0})
  delete_unused ref = do
    ids ← call Call.list_containers store.list_containers
    for_each ids (refuse_referenced ref)
    call Call.delete_image_record (store.delete_image ref)

  unfoldable pub delete_image : String → Exec (Sys W) (Unit {0})
  delete_image ref =
      attempt (inspect_image ref)
      >>= handle (λ _. delete_unused ref) (λ e. if e.is not_found then skip else raise e)
