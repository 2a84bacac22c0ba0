-- ===== src/Reconcile/Swept.antt =====
-- Which snapshots are gone once `Reconcile` has succeeded.
use mathlib.Core.Path.{subst}
use sandcube.Prelude.{
  String, str_eq, eq_iff, ◌≡◌, refl, sym, ap, ◌∙◌, ◌⊎◌, inl, inr, Bool, true, false, not, ◌&&◌,
  List, [], ◌∷◌, any, arith, Bool-cases, map, All,
}
use sandcube.Exec.{Err, Result, ok, err, OnOk, OnOk-each, OnOk-map, not_found, refuse_if, for_each}
use sandcube.Exec.Rules.{
  Preserves, Preserves-bind, Preserves-attempt, Preserves-handle, Preserves-pure,
  Preserves-refuse_if,
}
use sandcube.Exec.Leads.{Leads, Leads-bind, Leads-pure, Leads-catch, Leads-Then, Then}
use sandcube.Calls.{Call, Sys, call}
use sandcube.Calls.Laws.{Preserves-call}
use sandcube.Runtime.Types.{owner_label}
use sandcube.Runtime.Engine.{Engine}
use sandcube.Runtime.Inventory.{Catalog}
use sandcube.Reconcile.{is_used, orphans, clean_snapshot, sweep_snapshots}
use sandcube.Reconcile.Snapshots.{Holders, IsOrphan, IsSweeping, ask, used_keys_lem}

-- Whether a snapshot is listed with the owner's label.
abbrev pub is_listed : String → List (String × (String → String)) → Bool
is_listed key infos =
    any (λ (name, labels). str_eq (labels owner_label) "true" && str_eq name key) infos

-- A removal that succeeds, or finds nothing, leaves nothing.
abbrev pub Removes : Result (Unit {0}) → Bool → Type 0
Removes (ok _) there = there ≡ false
Removes (err e) there = e.is not_found ≡ true → there ≡ false

-- The snapshotter lists every snapshot that is there, and removes what it says it has removed.
pub record IsRemoving {W : Type 0} (engine : Engine W) (catalog : Catalog W) (holders : Holders)
    : Type 0 where
  pub is_there : W → String → Bool
  pub walk_all :
      (w : W) (key : String)
      → holders.owned key ≡ true
      → OnOk
          (λ infos. (is_listed key infos ≡ true) ⊎ (is_there (catalog.snapshots w).1 key ≡ false))
          (catalog.snapshots w).0
  pub remove_lem :
      (w : W) (key : String)
      → let (r, w') = engine.remove_snapshot key w in Removes r (is_there w' key)
  pub remove_only :
      (w : W) (key other : String)
      → is_there w other ≡ false
      → is_there (engine.remove_snapshot key w).1 other ≡ false

apart :
    (used : List String) (name key : String)
    → is_used used name ≡ true
    → is_used used key ≡ false
    → str_eq name key ≡ false
apart used name key held free = elim (Bool-cases (str_eq name key)) [
  | inl same ↦
      absurd
        (ground (arith, subst (λ n. is_used used n ≡ true) ((eq_iff name key).0 same) held, free))
  | inr other ↦ other
]

orphans-is_listed :
    (used : List String) (key : String) (infos : List (String × (String → String)))
    → is_used used key ≡ false
    → is_listed key infos ≡ true
    → any (λ name. str_eq name key) (orphans used infos) ≡ true
unfolding orphans
orphans-is_listed used key [] free h = h
orphans-is_listed used key ((name, labels) ∷ infos) free h =
    elim (Bool-cases (str_eq (labels owner_label) "true")) [
      | inl ours ↦ elim (Bool-cases (is_used used name)) [
        | inl held ↦
            rw (ours, held)
              (orphans-is_listed used key infos free
                (ground (arith, h, ours, apart used name key held free)))
        | inr other ↦ elim (Bool-cases (str_eq name key)) [
          | inl same ↦ rw (ours, other) (ground (arith, same))
          | inr not_same ↦
              rw (ours, other)
                (ground (
                  arith,
                  orphans-is_listed used key infos free (ground (arith, h, ours, not_same)),
                ))
        ]
      ]
      | inr not_ours ↦
          rw not_ours (orphans-is_listed used key infos free (ground (arith, h, not_ours)))
    ]

unused :
    (h : Holders) (key : String) (ids : List String)
    → All (λ id. str_eq (h.key_of id) key ≡ false) ids
    → is_used (map h.key_of ids) key ≡ false
unused h key [] k = refl
unused h key (id ∷ ids) k = ground (arith, unused h key ids k.1, k.0)

module _ {W : Type 0} {engine : Engine W} {catalog : Catalog W} {holders : Holders}
    (removing : IsRemoving engine catalog holders) (key : String) where
  abbrev Absent : Sys W → Type 0
  Absent s = removing.is_there s.world key ≡ false

  refused : (b : Bool) (e : Err) → Leads (λ s. b ≡ false → Absent s) (Then Absent) (refuse_if b e)
  unfolding refuse_if
  refused true e = record { from = λ s h. tt }
  refused false e = Leads-pure tt (λ s h. h refl)

  removed :
      Leads
        (λ s. Unit)
        (λ r s. Removes r (removing.is_there s.world key))
        (call Call.remove_snapshot (engine.remove_snapshot key))
  unfolding call
  removed = record { from = λ s h. removing.remove_lem s.world key }

  clean_this : Leads (λ s. Unit) (Then Absent) (clean_snapshot engine catalog key)
  unfolding clean_snapshot
  clean_this =
      Leads-catch (λ r s. Removes r (removing.is_there s.world key)) _ _ _ removed
        (λ a. Leads-pure tt (λ s h. h))
        λ e. record {
          from = λ s h. (refused (not (e.is not_found)) e).from s (λ b. h (ground (arith, b)));
        }

  clean_other : (name : String) → Preserves Absent (clean_snapshot engine catalog name)
  unfolding clean_snapshot
  clean_other name =
      Preserves-bind _ _
        (Preserves-attempt _ (
          Preserves-call (λ w. removing.is_there w key ≡ false) _ _
            record { from = λ w h. removing.remove_only w name key h }))
        (λ r. Preserves-handle _ _ r (λ _. Preserves-pure tt) (λ e. Preserves-refuse_if _ e))

  -- Either still to come, or gone.
  abbrev Pending : List String → Sys W → Type 0
  Pending keys s = (any (λ name. str_eq name key) keys ≡ true) ⊎ Absent s

  clean_one :
      (name : String) (rest : List String)
      → Leads (Pending (name ∷ rest)) (Then (Pending rest)) (clean_snapshot engine catalog name)
  clean_one name rest = record {
    from = λ s h. elim h [
      | inl due ↦ elim (Bool-cases (str_eq name key)) [
        | inl same ↦
            OnOk-map (λ _ a. inr a) (clean_snapshot engine catalog name s).0
              ((subst (λ n. Leads (λ t. Unit) (Then Absent) (clean_snapshot engine catalog n))
                  (sym ((eq_iff name key).0 same)) clean_this).from
                s tt)
        | inr other ↦
            OnOk-each (clean_snapshot engine catalog name s).0
              (λ _ _. inl (ground (arith, due, other)))
      ]
      | inr gone ↦
          OnOk-each (clean_snapshot engine catalog name s).0
            (λ _ _. inr ((clean_other name).from s gone))
    ];
  }

  clean_each :
      (names : List String)
      → Leads (Pending names) (Then Absent) (for_each names (clean_snapshot engine catalog))
  unfolding for_each
  clean_each [] =
      Leads-pure tt (λ s h. elim h [ inl due ↦ absurd (ground (arith, due)) | inr gone ↦ gone ])
  clean_each (name ∷ rest) =
      Leads-Then (Pending rest) _ _ (clean_one name rest) (λ _. clean_each rest)

module _ {W : Type 0} {engine : Engine W} {catalog : Catalog W} {holders : Holders}
    {Safe : W → Type 0} (sweeping : IsSweeping engine catalog holders Safe)
    (removing : IsRemoving engine catalog holders) (key : String)
    (orphan : IsOrphan holders key) where
  -- The snapshot is listed, or not there, where the walk has come back.
  abbrev Found : Result (List (String × (String → String))) → Sys W → Type 0
  Found r s =
      OnOk (λ infos. (is_listed key infos ≡ true) ⊎ (removing.is_there s.world key ≡ false)) r

  walked : Leads (λ s. Safe s.world) Found (call Call.walk_snapshots catalog.snapshots)
  unfolding call
  walked = record { from = λ s h. removing.walk_all s.world key orphan.0 }

  -- What a list of these keys comes to for the snapshot.
  due :
      (ids used : List String) (infos : List (String × (String → String)))
      → Leads
          (λ s. (Found (ok infos) s × (used ≡ map holders.key_of ids)) × (ids ≡ holders.containers))
          (Then (Absent removing key))
          (for_each (orphans used infos) (clean_snapshot engine catalog))
  due ids used infos = record {
    from = λ s h.
        let keys = h.0.1 ∙ ap (map holders.key_of) h.1 in
        let free =
          subst (λ u. is_used u key ≡ false) (sym keys)
            (unused holders key holders.containers orphan.1) in
        (clean_each removing key (orphans used infos)).from s (elim h.0.0 [
          | inl listed ↦ inl (orphans-is_listed used key infos free listed)
          | inr gone ↦ inr gone
        ]);
  }

  swept : Leads (λ s. Safe s.world) (Then (Absent removing key)) (sweep_snapshots engine catalog)
  unfolding sweep_snapshots
  swept =
      Leads-bind (λ r s. Safe s.world × OnOk (λ ids. ids ≡ holders.containers) r) _ _
        (ask sweeping _ _ _ sweeping.list-Safe sweeping.list_lem) (λ e s h. tt)
        λ ids.
          Leads-bind
            (λ r s.
              (Safe s.world × OnOk (λ used. used ≡ map holders.key_of ids) r)
              × (ids ≡ holders.containers))
            _ _ record { from = λ s h. ((used_keys_lem sweeping ids).from s h.0, h.1) }
            (λ e s h. tt)
            λ used.
              Leads-bind
                (λ r s. (Found r s × (used ≡ map holders.key_of ids)) × (ids ≡ holders.containers))
                _ _ record { from = λ s h. ((walked.from s h.0.0, h.0.1), h.1) } (λ e s h. tt)
                λ infos.
                  Leads-Then (Absent removing key) _ _ (due ids used infos)
                    (λ _. Leads-pure _ (λ s h. h))

  -- Where the lookups tell which snapshots the containers use, the walk lists every snapshot that is
  -- there, and the snapshotter removes what it says it has removed: when `Reconcile` has cleaned the
  -- snapshots up without an error, a snapshot of ours that no container uses is not there any more.
  pub sweep_snapshots_lem :
      (s : Sys W)
      → Safe s.world
      → let (r, s') = sweep_snapshots engine catalog s in
        OnOk (λ _. removing.is_there s'.world key ≡ false) r
  sweep_snapshots_lem s h = swept.from s h
