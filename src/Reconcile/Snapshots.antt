-- ===== src/Reconcile/Snapshots.antt =====
-- Which snapshots `Reconcile` leaves alone.
use mathlib.Core.Path.{subst}
use sandcube.Prelude.{
  String, str_eq, ◌≡◌, refl, sym, ap, ◌∙◌, Bool, true, false, List, [], ◌∷◌, All, arith, Bool-cases,
  inl, inr, map,
}
use sandcube.Exec.{Exec, OnOk, for_each}
use sandcube.Exec.Rules.{
  Preserves, Preserves-bind, Preserves-attempt, Preserves-handle, Preserves-pure,
  Preserves-refuse_if,
}
use sandcube.Exec.Leads.{Leads, Leads-bind, Leads-pure}
use sandcube.Calls.{Call, Sys, call}
use sandcube.Calls.Laws.{Preserves-call}
use sandcube.Runtime.Types.{owner_label}
use sandcube.Runtime.Engine.{Engine}
use sandcube.Runtime.Inventory.{Catalog}
use sandcube.Reconcile.{is_used, orphans, used_keys, clean_snapshot, sweep_snapshots}

-- The containers with the snapshots that they use, and the snapshots with the owner's label.
pub record Holders : Type 0 where
  pub containers : List String
  pub key_of : String → String
  pub owned : String → Bool

-- A snapshot of ours that no container uses.
abbrev pub IsOrphan : Holders → String → Type 0
IsOrphan h key = (h.owned key ≡ true) × All (λ id. str_eq (h.key_of id) key ≡ false) h.containers

abbrev pub Labels : Holders → String × (String → String) → Type 0
Labels h (name, labels) = str_eq (labels owner_label) "true" ≡ true → h.owned name ≡ true

-- `Safe` is kept by the removal of an orphan. The lookups tell the holders, and keep `Safe`.
pub record IsSweeping {W : Type 0} (engine : Engine W) (catalog : Catalog W) (holders : Holders)
    (Safe : W → Type 0) : Type 0 where
  pub list_lem : (w : W) → Safe w → OnOk (λ ids. ids ≡ holders.containers) (catalog.containers w).0
  pub info_lem :
      (w : W) (id : String)
      → Safe w
      → OnOk (λ info. info.snapshot_key ≡ holders.key_of id) (engine.container_info id w).0
  pub walk_lem :
      (w : W) → Safe w → OnOk (λ infos. All (Labels holders) infos) (catalog.snapshots w).0
  pub list-Safe : Preserves Safe catalog.containers
  pub info-Safe : (id : String) → Preserves Safe (engine.container_info id)
  pub walk-Safe : Preserves Safe catalog.snapshots
  pub remove-Safe :
      (key : String) → IsOrphan holders key → Preserves Safe (engine.remove_snapshot key)

unused_lem :
    (h : Holders) (key : String) (ids : List String)
    → is_used (map h.key_of ids) key ≡ false
    → All (λ id. str_eq (h.key_of id) key ≡ false) ids
unused_lem h key [] e = tt
unused_lem h key (id ∷ ids) e = (ground (arith, e), unused_lem h key ids (ground (arith, e)))

orphans_lem :
    (h : Holders) (infos : List (String × (String → String)))
    → All (Labels h) infos
    → All (IsOrphan h) (orphans (map h.key_of h.containers) infos)
unfolding orphans
orphans_lem h [] l = tt
orphans_lem h ((name, labels) ∷ infos) l = elim (Bool-cases (str_eq (labels owner_label) "true")) [
  | inl ours ↦ elim (Bool-cases (is_used (map h.key_of h.containers) name)) [
    | inl used ↦ rw (ours, used) (orphans_lem h infos l.1)
    | inr free ↦
        rw (ours, free) ((l.0 ours, unused_lem h name h.containers free), orphans_lem h infos l.1)
  ]
  | inr other ↦ rw other (orphans_lem h infos l.1)
]

module _ {W : Type 0} {engine : Engine W} {catalog : Catalog W} {holders : Holders}
    {Safe : W → Type 0} (sweeping : IsSweeping engine catalog holders Safe) where
  abbrev Kept : Sys W → Type 0
  Kept s = Safe s.world

  pub ask :
      {A : Type 0} (Q : A → Type 0) (c : Call) (m : Exec W A)
      → Preserves Safe m
      → ((w : W) → Safe w → OnOk Q (m w).0)
      → Leads Kept (λ r s. Kept s × OnOk Q r) (call c m)
  unfolding call
  ask Q c m k q = record { from = λ s h. (k.from s.world h, q s.world h) }

  pub used_keys_lem :
      (ids : List String)
      → Leads Kept
          (λ r s. Kept s × OnOk (λ keys. keys ≡ map holders.key_of ids) r)
          (used_keys engine catalog ids)
  unfolding used_keys
  used_keys_lem [] = Leads-pure [] (λ s h. (h, refl))
  used_keys_lem (id ∷ ids) =
      Leads-bind (λ r s. Kept s × OnOk (λ info. info.snapshot_key ≡ holders.key_of id) r) _ _
        (ask _ _ _ (sweeping.info-Safe id) (λ w h. sweeping.info_lem w id h)) (λ e s h. (h.0, tt))
        λ info.
          Leads-bind
            (λ r s.
              (Kept s × OnOk (λ keys. keys ≡ map holders.key_of ids) r)
              × (info.snapshot_key ≡ holders.key_of id))
            _ _ record { from = λ s h. ((used_keys_lem ids).from s h.0, h.1) }
            (λ e s h. (h.0.0, tt)) λ keys. Leads-pure _ (λ s h. (h.0.0, cc (h.0.1, h.1)))

  clean_one :
      (key : String) → IsOrphan holders key → Preserves Kept (clean_snapshot engine catalog key)
  unfolding clean_snapshot
  clean_one key free =
      Preserves-bind _ _
        (Preserves-attempt _ (Preserves-call Safe _ _ (sweeping.remove-Safe key free)))
        (λ r. Preserves-handle _ _ r (λ _. Preserves-pure tt) (λ e. Preserves-refuse_if _ e))

  clean-All :
      (keys : List String)
      → All (IsOrphan holders) keys
      → Preserves Kept (for_each keys (clean_snapshot engine catalog))
  unfolding for_each
  clean-All [] l = Preserves-pure tt
  clean-All (key ∷ keys) l = Preserves-bind _ _ (clean_one key l.0) (λ _. clean-All keys l.1)

  -- What was looked up holds when the snapshots go.
  clean_known :
      (ids used : List String) (infos : List (String × (String → String)))
      → Leads
          (λ s.
            ((Kept s × All (Labels holders) infos) × (used ≡ map holders.key_of ids))
            × (ids ≡ holders.containers))
          (λ _ s. Kept s)
          (for_each (orphans used infos) (clean_snapshot engine catalog))
  clean_known ids used infos = record {
    from = λ s h.
        let keys = h.0.1 ∙ ap (map holders.key_of) h.1 in
        (clean-All (orphans used infos) (
            subst (λ u. All (IsOrphan holders) (orphans u infos)) (sym keys)
              (orphans_lem holders infos h.0.0.1))).from
          s h.0.0.0;
  }

  sweep_Kept : Leads Kept (λ _ s. Kept s) (sweep_snapshots engine catalog)
  unfolding sweep_snapshots
  sweep_Kept =
      Leads-bind (λ r s. Kept s × OnOk (λ ids. ids ≡ holders.containers) r) _ _
        (ask _ _ _ sweeping.list-Safe sweeping.list_lem) (λ e s h. h.0)
        λ ids.
          Leads-bind
            (λ r s.
              (Kept s × OnOk (λ used. used ≡ map holders.key_of ids) r)
              × (ids ≡ holders.containers))
            _ _ record { from = λ s h. ((used_keys_lem ids).from s h.0, h.1) } (λ e s h. h.0.0)
            λ used.
              Leads-bind
                (λ r s.
                  ((Kept s × OnOk (λ infos. All (Labels holders) infos) r)
                    × (used ≡ map holders.key_of ids))
                  × (ids ≡ holders.containers))
                _ _
                record {
                  from = λ s h. (
                    (
                      (ask (λ infos. All (Labels holders) infos) Call.walk_snapshots
                            catalog.snapshots sweeping.walk-Safe sweeping.walk_lem).from
                          s h.0.0,
                      h.0.1,
                    ),
                    h.1,
                  );
                }
                (λ e s h. h.0.0.0)
                λ infos.
                  Leads-bind (λ r s. Kept s) _ _ (clean_known ids used infos) (λ e s h. h)
                    λ _. Leads-pure _ (λ s h. h)

  -- Where the lookups tell which snapshots the containers use and which carry the owner's label:
  -- whatever they keep, and the removal of a snapshot keeps that has the label and that no container
  -- uses, is kept while `Reconcile` cleans snapshots up, whether that succeeds or fails.
  pub sweep_snapshots-Safe :
      (s : Sys W) → Safe s.world → Safe (sweep_snapshots engine catalog s).1.world
  sweep_snapshots-Safe s h = sweep_Kept.from s h
