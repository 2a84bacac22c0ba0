-- ===== src/Runtime/Inventory/Laws.antt =====
-- What `List` tells of the containers.
use mathlib.Core.Path.{subst}
use mathlib.Core.List.{map-append}
use sandcube.Prelude.{
  String, ◌≡◌, refl, ◌∙◌, ap, Bool, true, false, ◌&&◌, List, [], ◌∷◌, ◌++◌, map, arith,
  if◌then◌else◌, Bool-cases, inl, inr,
}
use sandcube.Exec.{Err, Result, not_found, pure, raise, OnOk, ◌>>=◌}
use sandcube.Exec.Leads.{Leads, Leads-bind, Leads-catch, Leads-pure, Leads-raise}
use sandcube.Calls.{Call, Sys, call}
use sandcube.Paths.{bytes}
use sandcube.Server.Limits.{is_valid_id}
use sandcube.Runtime.Types.{Sandbox}
use sandcube.Runtime.Engine.{Engine}
use sandcube.Runtime.Container.{describe}
use sandcube.Runtime.Inventory.{Catalog, list_one, list_each, list}
use sandcube.Runtime.Container.Laws.{
  Containers, IsTelling, manages, Loaded, Look, load_Loaded, describe_lem,
}

-- The sandboxes among these containers.
abbrev pub is_listed : Containers → String → Bool
is_listed c id = is_valid_id (bytes id) && manages (c id)

abbrev pub listed : Containers → List String → List String
listed c [] = []
listed c (id ∷ ids) = let rest = listed c ids in if is_listed c id then id ∷ rest else rest

abbrev pub id_of : Sandbox → String
id_of s = s.id

module _ {W : Type 0} {engine : Engine W} (catalog : Catalog W) (telling : IsTelling engine)
    (c : Containers) where
  abbrev Looks : Sys W → Type 0
  Looks = Look telling c

  -- The sandboxes that are given are those listed among these IDs.
  abbrev Lists : List String → Result (List Sandbox) → Sys W → Type 0
  Lists ids r s = Looks s × OnOk (λ ss. map id_of ss ≡ listed c ids) r

  listed_one :
      (id : String) (x : Sandbox)
      → is_valid_id (bytes id) ≡ true
      → manages (c id) ≡ true
      → x.id ≡ id
      → map id_of (x ∷ []) ≡ listed c (id ∷ [])
  listed_one id x valid managed e = ground (arith, valid, managed, e)

  unlisted : (id : String) → manages (c id) ≡ false → map id_of [] ≡ listed c (id ∷ [])
  unlisted id absent = ground (arith, absent)

  found_Lists :
      (id : String)
      → is_valid_id (bytes id) ≡ true
      → Leads
          (λ s. Looks s × (manages (c id) ≡ true))
          (Lists (id ∷ []))
          (describe engine id >>= λ s. pure (s ∷ []))
  found_Lists id valid =
      Leads-bind (λ r s. (Looks s × OnOk (λ (x : Sandbox). x.id ≡ id) r) × (manages (c id) ≡ true))
        _ _ record { from = λ s h. ((describe_lem telling c id).from s h.0, h.1) }
        (λ e s h. (h.0.0, tt)) λ x. Leads-pure _ (λ s h. (h.0.0, listed_one id x valid h.1 h.0.1))

  missing_Lists :
      (id : String) (e : Err) (b : Bool)
      → e.is not_found ≡ b
      → Leads
          (λ s. Looks s × (e.is not_found ≡ true → manages (c id) ≡ false))
          (Lists (id ∷ []))
          (if b then pure [] else raise e)
  missing_Lists id e true gone = Leads-pure [] (λ s h. (h.0, unlisted id (h.1 gone)))
  missing_Lists id e false gone = Leads-raise e (λ s h. (h.0, tt))

  one_Lists : (id : String) → Leads Looks (Lists (id ∷ [])) (list_one engine catalog id)
  unfolding list_one
  one_Lists id = elim (Bool-cases (is_valid_id (bytes id))) [
    | inl valid ↦ rw valid (
        Leads-catch (λ r s. Looks s × Loaded (c id) r) _ _ _ (load_Loaded telling c id)
          (λ info. found_Lists id valid) (λ e. missing_Lists id e (e.is not_found) refl))
    | inr invalid ↦ rw invalid (Leads-pure [] (λ s h. (h, ground (arith, invalid))))
  ]

  listed-cons :
      (id : String) (ids : List String) → listed c (id ∷ []) ++ listed c ids ≡ listed c (id ∷ ids)
  listed-cons id ids = ground arith

  joined :
      (id : String) (ids : List String) (xs ys : List Sandbox)
      → map id_of xs ≡ listed c (id ∷ [])
      → map id_of ys ≡ listed c ids
      → map id_of (xs ++ ys) ≡ listed c (id ∷ ids)
  joined id ids xs ys h k =
      map-append id_of xs ys
      ∙ ap (λ zs. zs ++ map id_of ys) h
      ∙ ap (λ zs. listed c (id ∷ []) ++ zs) k
      ∙ listed-cons id ids

  each_Lists : (ids : List String) → Leads Looks (Lists ids) (list_each engine catalog ids)
  unfolding list_each
  each_Lists [] = Leads-pure [] (λ s h. (h, refl))
  each_Lists (id ∷ ids) =
      Leads-bind (Lists (id ∷ [])) _ _ (one_Lists id) (λ e s h. (h.0, tt))
        λ xs.
          Leads-bind (λ r s. Lists ids r s × (map id_of xs ≡ listed c (id ∷ []))) _ _
            record { from = λ s h. ((each_Lists ids).from s h.0, h.1) } (λ e s h. (h.0.0, tt))
            λ ys. Leads-pure _ (λ s h. (h.0.0, joined id ids xs ys h.1 h.0.1))

module _ {W : Type 0} {engine : Engine W} (catalog : Catalog W) (telling : IsTelling engine)
    (owned : W → List String)
    (managed_lem : (w : W) → OnOk (λ ids. ids ≡ owned w) (catalog.managed w).0)
    (managed_kept : (w : W) → telling.containers (catalog.managed w).1 ≡ telling.containers w) where
  list_Lists :
      (w : W)
      → Leads
          (λ (s : Sys W). s.world ≡ w)
          (λ r s. OnOk (λ ss. map id_of ss ≡ listed (telling.containers w) (owned w)) r)
          (list engine catalog)
  unfolding list call
  list_Lists w =
      Leads-bind
        (λ r s. (telling.containers s.world ≡ telling.containers w) × OnOk (λ ids. ids ≡ owned w) r)
        _ _ first (λ e s h. tt)
        λ ids. record {
          from = λ s h.
              rw (← h.1) ((each_Lists catalog telling (telling.containers w) ids).from s h.0).1;
        }
    where
      first :
          Leads
            (λ (s : Sys W). s.world ≡ w)
            (λ r s.
              (telling.containers s.world ≡ telling.containers w) × OnOk (λ ids. ids ≡ owned w) r)
            (call Call.list_containers catalog.managed)
      first = record {
        from = λ s h. (
          managed_kept s.world ∙ ap telling.containers h,
          subst (λ v. OnOk (λ ids. ids ≡ owned v) (catalog.managed s.world).0) h
              (managed_lem s.world),
        );
      }

  -- Where the lookups tell what containers there are: a list that `List` gives has, in the order of
  -- containerd's, exactly the labelled containers whose ID is valid, that are still there, and that
  -- carry the owner's label and the runtime.
  pub list_lem :
      (s : Sys W)
      → OnOk
          (λ ss. map id_of ss ≡ listed (telling.containers s.world) (owned s.world))
          (list engine catalog s).0
  list_lem s = (list_Lists s.world).from s refl
