-- ===== src/Images/Removal.antt =====
-- No image is deleted that a container refers to, or that is not managed.
use mathlib.Core.Path.{subst}
use sandcube.Prelude.{
  String, str_eq, ◌≡◌, refl, sym, ◌∙◌, Bool, true, false, List, [], ◌∷◌, All, arith,
}
use sandcube.Exec.{Err, Result, OnOk, OnOk-map, not_found, for_each, Exec, refuse_if}
use sandcube.Exec.Rules.{Preserves}
use sandcube.Exec.Leads.{
  Leads, Leads-weaken, Leads-bind, Leads-catch, Leads-if, Leads-pure, Leads-raise,
}
use sandcube.Calls.{Call, Sys, call}
use sandcube.Runtime.Types.{owner_label}
use sandcube.Images.{Store, inspect_image, refuse_referenced, delete_unused, delete_image}

-- The containers with the images that they refer to, and the images with the owner's label.
pub record Uses : Type 0 where
  pub containers : List String
  pub image_of : String → String
  pub managed : String → Bool

-- Deleting this image is harmless.
abbrev pub IsFree : Uses → String → Type 0
IsFree u ref = (u.managed ref ≡ true) × All (λ id. str_eq (u.image_of id) ref ≡ false) u.containers

-- `Safe` is kept by the deletion of an image that is free. The lookups tell the
-- uses, and leave them and `Safe`.
pub record IsKeeping {W : Type 0} (store : Store W) (Safe : W → Type 0) : Type 0 where
  pub uses : W → Uses
  pub get_lem :
      (w : W) (ref : String)
      → OnOk
          (λ image. str_eq (image.labels owner_label) "true" ≡ (uses w).managed ref)
          (store.get_image ref w).0
  pub list_lem : (w : W) → OnOk (λ ids. ids ≡ (uses w).containers) (store.list_containers w).0
  pub info_lem :
      (w : W) (id : String)
      → OnOk (λ info. info.image ≡ (uses w).image_of id) (store.container_info id w).0
  pub get-Safe : (ref : String) → Preserves Safe (store.get_image ref)
  pub list-Safe : Preserves Safe store.list_containers
  pub info-Safe : (id : String) → Preserves Safe (store.container_info id)
  pub uses-get : (w : W) (ref : String) → uses (store.get_image ref w).1 ≡ uses w
  pub uses-list : (w : W) → uses (store.list_containers w).1 ≡ uses w
  pub uses-info : (w : W) (id : String) → uses (store.container_info id w).1 ≡ uses w
  pub delete-Safe :
      (w : W) (ref : String) → Safe w → IsFree (uses w) ref → Safe (store.delete_image ref w).1

module _ {W : Type 0} {store : Store W} {Safe : W → Type 0} (keeping : IsKeeping store Safe)
    (ref : String) (u : Uses) where
  open keeping use {uses}

  abbrev Look : Sys W → Type 0
  Look s = Safe s.world × (uses s.world ≡ u)

  -- What an action that succeeds has found out.
  abbrev Finds : {A : Type 0} → (A → Type 0) → Result A → Sys W → Type 0
  Finds Q r s = Look s × OnOk Q r

  lookup_lem :
      {A : Type 0} (Q : Uses → A → Type 0) (c : Call) (m : Exec W A)
      → Preserves Safe m
      → ((w : W) → uses (m w).1 ≡ uses w)
      → ((w : W) → OnOk (Q (uses w)) (m w).0)
      → Leads Look (Finds (Q u)) (call c m)
  unfolding call
  lookup_lem Q c m k l n = record {
    from = λ s h. (
      (k.from s.world h.0, l s.world ∙ h.1),
      subst (λ v. OnOk (Q v) (m s.world).0) h.1 (n s.world),
    );
  }

  -- A guard that lets it pass, with what was known before.
  passes :
      {X Q : Type 0} (b : Bool) (e : Err)
      → (b ≡ false → X → Q)
      → Leads (λ s. Look s × X) (Finds (λ (u' : Unit {0}). Q)) (refuse_if b e)
  unfolding refuse_if
  passes true e k = Leads-raise e (λ s h. (h.0, tt))
  passes false e k = Leads-pure tt (λ s h. (h.0, k refl h.1))

  inspect_Finds : Leads Look (Finds (λ _. u.managed ref ≡ true)) (inspect_image store ref)
  unfolding inspect_image
  inspect_Finds =
      Leads-bind (Finds (λ image. str_eq (image.labels owner_label) "true" ≡ u.managed ref)) _ _
        (lookup_lem (λ v image. str_eq (image.labels owner_label) "true" ≡ v.managed ref) _ _
          (keeping.get-Safe ref) (λ w. keeping.uses-get w ref) (λ w. keeping.get_lem w ref))
        (λ e s h. (h.0, tt))
        λ image.
          Leads-bind (Finds (λ (x : Unit {0}). u.managed ref ≡ true)) _ _
            (passes _ _ (λ labelled same. ground (arith, labelled, same))) (λ e s h. (h.0, tt))
            λ _. Leads-pure _ (λ s h. h)

  refuse_Finds :
      (id : String)
      → Leads Look
          (Finds (λ _. str_eq (u.image_of id) ref ≡ false))
          (refuse_referenced store ref id)
  unfolding refuse_referenced
  refuse_Finds id =
      Leads-bind (Finds (λ info. info.image ≡ u.image_of id)) _ _
        (lookup_lem (λ v info. info.image ≡ v.image_of id) _ _ (keeping.info-Safe id)
          (λ w. keeping.uses-info w id) (λ w. keeping.info_lem w id))
        (λ e s h. (h.0, tt)) λ info. passes _ _ (λ apart same. rw same at apart)

  -- What was known before is known after too.
  Leads-and :
      {A X : Type 0} {Y : A → Type 0} {m : Exec (Sys W) A}
      → Leads Look (Finds Y) m
      → Leads (λ s. Look s × X) (Finds (λ a. X × Y a)) m
  Leads-and {X = X} {Y = Y} k = record {
    from = λ s h.
        let (look, found) = k.from s h.0 in
        (look, OnOk-map {P = Y} {Q = λ a. X × Y a} (λ _ y. (h.1, y)) _ found);
  }

  each_Finds :
      (ids : List String)
      → Leads Look
          (Finds (λ _. All (λ id. str_eq (u.image_of id) ref ≡ false) ids))
          (for_each ids (refuse_referenced store ref))
  unfolding for_each
  each_Finds [] = Leads-pure tt (λ s h. (h, tt))
  each_Finds (id ∷ ids) =
      Leads-bind (Finds (λ _. str_eq (u.image_of id) ref ≡ false)) _ _ (refuse_Finds id)
        (λ e s h. (h.0, tt)) λ _. Leads-and (each_Finds ids)

  delete_lem :
      Leads
        (λ s. Look s × IsFree u ref)
        (λ _ s. Safe s.world)
        (call Call.delete_image_record (store.delete_image ref))
  unfolding call
  delete_lem = record {
    from = λ s h. keeping.delete-Safe s.world ref h.0.0 (subst (λ v. IsFree v ref) (sym h.0.1) h.1);
  }

  unused_Safe :
      Leads (λ s. Look s × (u.managed ref ≡ true)) (λ _ s. Safe s.world) (delete_unused store ref)
  unfolding delete_unused
  unused_Safe =
      Leads-bind (Finds (λ ids. (u.managed ref ≡ true) × (ids ≡ u.containers))) _ _
        (Leads-and (
          lookup_lem (λ v ids. ids ≡ v.containers) _ _ keeping.list-Safe keeping.uses-list
            keeping.list_lem))
        (λ e s h. h.0.0)
        λ ids.
          Leads-bind
            (Finds (λ _.
              ((u.managed ref ≡ true) × (ids ≡ u.containers))
              × All (λ id. str_eq (u.image_of id) ref ≡ false) ids))
            _ _ (Leads-and (each_Finds ids)) (λ e s h. h.0.0)
            λ _. Leads-weaken delete_lem (λ s h. (
              h.0,
              (
                h.1.0.0,
                subst (λ l. All (λ id. str_eq (u.image_of id) ref ≡ false) l) h.1.0.1 h.1.1,
              ),
            ))

  delete_Safe : Leads Look (λ _ s. Safe s.world) (delete_image store ref)
  unfolding delete_image
  delete_Safe =
      Leads-catch (Finds (λ _. u.managed ref ≡ true)) _ _ _ inspect_Finds (λ _. unused_Safe)
        (λ e.
          Leads-if (e.is not_found) _ _ (λ _. Leads-pure tt (λ s h. h.0.0))
            (λ _. Leads-raise e (λ s h. h.0.0)))

module _ {W : Type 0} {store : Store W} {Safe : W → Type 0} (keeping : IsKeeping store Safe) where
  -- Whatever the lookups keep, and the deletion of an image keeps when the image is managed and no
  -- container refers to it, is kept by `DeleteImage`, whether it succeeds or fails.
  pub delete_image-Safe :
      (ref : String) (s : Sys W) → Safe s.world → Safe (delete_image store ref s).1.world
  delete_image-Safe ref s h = (delete_Safe keeping ref (keeping.uses s.world)).from s (h, refl)
