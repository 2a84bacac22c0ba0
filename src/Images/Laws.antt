-- ===== src/Images/Laws.antt =====
-- An import leaves the images that there are as they are.
use sandcube.Prelude.{
  ℕ, String, str_eq, eq_iff, ◌≡◌, refl, ◌∙◌, true, false, not, Option, some, arith, Bool-cases, inl,
  inr,
}
use sandcube.Exec.{Err, Result, ok, err, Exec, not_found}
use sandcube.Exec.Rules.{Preserves, preserves_rules}
use sandcube.Exec.Leads.{Leads, Leads-catch, Leads-if, Leads-raise, Preserves-Leads}
use sandcube.Calls.{Call, Sys, call}
use sandcube.Paths.{Bytes}
use sandcube.Images.{
  Store, ImageRequest, settle_import, import_leased, import_new, import_opened, import_image,
}

-- What GetImage would tell of each name. Import and Delete reach the image of their own name alone,
-- and an image that there is is not reported missing.
pub record IsNamed {W : Type 0} (store : Store W) : Type 0 where
  pub images : W → String → Option String
  pub get_lem :
      (w : W) (ref digest : String) (e : Err)
      → images w ref ≡ some digest
      → (store.get_image ref w).0 ≡ err e
      → e.is not_found ≡ false
  pub images-get : (w : W) (ref : String) → images (store.get_image ref w).1 ≡ images w
  pub images-unpack : (w : W) (ref : String) → images (store.unpack_image ref w).1 ≡ images w
  pub images-resolve : (w : W) (path : Bytes) → images (store.resolve path w).1 ≡ images w
  pub images-open : (w : W) (path : Bytes) → images (store.open_archive path w).1 ≡ images w
  pub images-regular : (w : W) (f : ℕ) → images (store.is_regular f w).1 ≡ images w
  pub images-close : (w : W) (f : ℕ) → images (store.close_archive f w).1 ≡ images w
  pub images-lease : (w : W) → images (store.lease w).1 ≡ images w
  pub images-release : (w : W) → images (store.release_lease w).1 ≡ images w
  pub images-import :
      (w : W) (f : ℕ) (ref other : String)
      → str_eq other ref ≡ false
      → images (store.import_archive f ref w).1 other ≡ images w other
  pub images-delete :
      (w : W) (ref other : String)
      → str_eq other ref ≡ false
      → images (store.delete_image ref w).1 other ≡ images w other

module _ {W : Type 0} {store : Store W} (named : IsNamed store) (name digest : String) where
  open named use {images}

  abbrev Has : Sys W → Type 0
  Has s = images s.world name ≡ some digest

  -- A call that leaves all the images, and one that leaves this image.
  Has-all :
      {A : Type 0} (c : Call) (m : Exec W A)
      → ((w : W) → images (m w).1 ≡ images w)
      → Preserves Has (call c m)
  unfolding call
  Has-all c m k = record { from = λ s h. rw (k s.world) h }

  Has-this :
      {A : Type 0} (c : Call) (m : Exec W A)
      → ((w : W) → images (m w).1 name ≡ images w name)
      → Preserves Has (call c m)
  unfolding call
  Has-this c m k = record { from = λ s h. k s.world ∙ h }

  resolve_Has : (path : Bytes) → Preserves Has (call Call.resolve_path (store.resolve path))
  resolve_Has path = Has-all _ _ (λ w. named.images-resolve w path)

  open_Has : (path : Bytes) → Preserves Has (call Call.open_archive (store.open_archive path))
  open_Has path = Has-all _ _ (λ w. named.images-open w path)

  regular_Has : (f : ℕ) → Preserves Has (call Call.open_archive (store.is_regular f))
  regular_Has f = Has-all _ _ (λ w. named.images-regular w f)

  close_Has : (f : ℕ) → Preserves Has (call Call.close_archive (store.close_archive f))
  close_Has f = Has-all _ _ (λ w. named.images-close w f)

  get_Has : (ref : String) → Preserves Has (call Call.get_image (store.get_image ref))
  get_Has ref = Has-all _ _ (λ w. named.images-get w ref)

  unpack_Has : (ref : String) → Preserves Has (call Call.unpack_image (store.unpack_image ref))
  unpack_Has ref = Has-all _ _ (λ w. named.images-unpack w ref)

  lease_Has : Preserves Has (call Call.lease store.lease)
  lease_Has = Has-all _ _ named.images-lease

  release_Has : Preserves Has (call Call.release_lease store.release_lease)
  release_Has = Has-all _ _ named.images-release

  module _ (f : ℕ) (ref : String) where
    module _ (other : str_eq name ref ≡ false) where
      import_Has : Preserves Has (call Call.import_archive (store.import_archive f ref))
      import_Has = Has-this _ _ (λ w. named.images-import w f ref name other)

      delete_Has : Preserves Has (call Call.delete_image_record (store.delete_image ref))
      delete_Has = Has-this _ _ (λ w. named.images-delete w ref name other)

      import_other : Preserves Has (import_new store f ref)
      unfolding import_new settle_import import_leased
      import_other =
          search
            (preserves_rules, get_Has, unpack_Has, lease_Has, release_Has, import_Has, delete_Has)
            depth 14

    -- No answer to GetImage says that there is no such image.
    abbrev IsFound : {A : Type 0} → Result A → Type 0
    IsFound (ok _) = Unit
    IsFound (err e) = e.is not_found ≡ false

    IsFound-result :
        {A : Type 0} (r : Result A) → ((e : Err) → r ≡ err e → e.is not_found ≡ false) → IsFound r
    IsFound-result (ok a) k = tt
    IsFound-result (err e) k = k e refl

    get-IsFound :
        str_eq name ref ≡ true
        → Leads Has (λ r s. Has s × IsFound r) (call Call.get_image (store.get_image ref))
    unfolding call
    get-IsFound same = record {
      from = λ s h.
          let key : name ≡ ref = (eq_iff name ref).0 same in
          (
            rw (named.images-get s.world ref) h,
            IsFound-result _ λ e failed. named.get_lem s.world ref digest e (rw key at h) failed,
          );
    }

    -- It is found, so that nothing is imported.
    import_same : str_eq name ref ≡ true → Preserves Has (import_new store f ref)
    unfolding import_new
    import_same same = Preserves-Leads (
        Leads-catch (λ r s. Has s × IsFound r) _ _ _ (get-IsFound same)
          (λ _. Leads-raise _ (λ s h. h.0))
          (λ e.
            Leads-if (not (e.is not_found)) _ _ (λ _. Leads-raise e (λ s h. h.0))
              (λ absent. record { from = λ s h. absurd (ground (arith, absent, h)) })))

    import_new-Has : Preserves Has (import_new store f ref)
    import_new-Has = elim (Bool-cases (str_eq name ref)) [
      | inl same ↦ import_same same
      | inr other ↦ import_other other
    ]

  image_Has : (req : ImageRequest) → Preserves Has (import_image store req)
  unfolding import_image import_opened
  image_Has req =
      search (preserves_rules, resolve_Has, open_Has, regular_Has, close_Has, import_new-Has) depth
        14

  -- `ImportImage` leaves every image that there is as it is, under whatever name it imports and
  -- however it ends: an import to a name that is taken changes nothing under that name, neither at
  -- first nor when a failed import is cleaned up.
  pub import_image-Has :
      (req : ImageRequest) (s : Sys W)
      → images s.world name ≡ some digest
      → images (import_image store req s).1.world name ≡ some digest
  import_image-Has req s h = (image_Has req).from s h
