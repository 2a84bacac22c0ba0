-- ===== src/Tests/Cellar.antt =====
-- The theorem on the deletion of images at a store with an image in use.
use sandcube.Prelude.{String, str_eq, ◌≡◌, refl, Bool, true, false, [], ◌∷◌, if◌then◌else◌}
use sandcube.Exec.{Result, ok, err, OnOk, sentinel, not_found}
use sandcube.Paths.{bytes}
use sandcube.Calls.{fresh}
use sandcube.Runtime.Types.{owner_label, runtime_name}
use sandcube.Images.{Store, Image, delete_image}
use sandcube.Images.Removal.{IsKeeping, delete_image-Safe}
use sandcube.Tests.Disks.{give}

abbrev cellar_reply : Bool → String → Result Image
cellar_reply true ref = ok (record { name = ref; digest = "sha256:1"; labels = λ l. "true" })
cellar_reply false ref = err (sentinel not_found "not found")

-- Which images there are; the container sbx_a refers to img.
abbrev cellar : Store (String → Bool)
cellar = record {
  build_root = bytes "/build";
  resolve = λ path. give path;
  open_archive = λ path. give 3;
  is_regular = λ f. give true;
  close_archive = λ f. give tt;
  get_image = λ ref w. (cellar_reply (w ref) ref, w);
  unpack_image = λ ref. give tt;
  lease = give tt;
  release_lease = give tt;
  import_archive = λ f ref. give tt;
  delete_image = λ ref w. (ok tt, λ n. if str_eq n ref then false else w n);
  list_containers = give ("sbx_a" ∷ []);
  container_info = λ id. give (record {
    labels = λ l. "true";
    runtime = runtime_name;
    snapshot_key = id;
    snapshotter = "overlayfs";
    image = "img";
  });
}

labelled :
    (b : Bool) (ref : String)
    → OnOk (λ image. str_eq (image.labels owner_label) "true" ≡ b) (cellar_reply b ref)
labelled true ref = refl
labelled false ref = tt

cellar-IsKeeping : IsKeeping cellar (λ w. w "img" ≡ true)
cellar-IsKeeping = record {
  uses = λ w. record { containers = "sbx_a" ∷ []; image_of = λ id. "img"; managed = w };
  get_lem = λ w ref. labelled (w ref) ref;
  list_lem = λ w. refl;
  info_lem = λ w id. refl;
  get-Safe = λ ref. record { from = λ w h. h };
  list-Safe = record { from = λ w h. h };
  info-Safe = λ id. record { from = λ w h. h };
  uses-get = λ w ref. refl;
  uses-list = λ w. refl;
  uses-info = λ w id. refl;
  delete-Safe = λ w ref h free. rw (free.1.0) h;
}

delete_image-Safe_example : (delete_image cellar "img" (fresh (λ n. true))).1.world "img" ≡ true
delete_image-Safe_example = delete_image-Safe cellar-IsKeeping "img" (fresh (λ n. true)) refl
