-- ===== src/Reconcile/Histories.antt =====
-- Which process histories `Reconcile` leaves alone.
use sandcube.Prelude.{
  String, str_eq, eq_iff, ◌≡◌, refl, sym, ap, Bool, true, false, arith, Bool-cases, inl, inr,
  if◌then◌else◌,
}
use mathlib.Core.Path.{subst}
use sandcube.Exec.{Err, Result, err, Exec, not_found, attempt, raise, modify, skip, handle, ◌>>=◌}
use sandcube.Exec.Rules.{
  Preserves-refuse_if, Preserves, Preserves-bind, Preserves-attempt, Preserves-handle,
  Preserves-pure, Preserves-raise, Preserves-for_each, Preserves-if, Preserves-gets,
}
use sandcube.Exec.Leads.{
  Leads, Leads-catch, Leads-pure, Leads-raise, Preserves-Leads, Leads-Preserves,
}
use sandcube.Calls.{Call, Sys, call}
use sandcube.Calls.Laws.{Preserves-call}
use sandcube.Runtime.Engine.{Engine}
use sandcube.Runtime.Container.{load}
use sandcube.Runtime.Container.Laws.{Containers, IsTelling, manages, Loaded, load_Loaded}
use sandcube.Runtime.Inventory.{Catalog}
use sandcube.Processes.{Table, Machine, Shim, outer, within}
use sandcube.Processes.Table.{of_sandbox, without_sandbox, change_table}
use sandcube.Processes.Use.{Woken, settle_processes, forget_processes}
use sandcube.Processes.Use.Laws.{others-without}
use sandcube.Reconcile.{drop_history, sweep_entry, sweep_histories}

module _ {W : Type 0} (X : Table → Type 0) where
  -- An operation that does not see the table leaves what is known of it.
  pub Leads-within :
      {A : Type 0} (P : W → Type 0) (Q : Result A → W → Type 0) (m : Exec (Sys W) A)
      → Leads (λ s. P s.world) (λ r s. Q r s.world) m
      → Leads
          (λ (s : Sys (Machine W)). P s.world.outside × X s.world.table)
          (λ r s. Q r s.world.outside × X s.world.table)
          (within m)
  unfolding within
  Leads-within P Q m k = record { from = λ s h. (k.from _ h.0, h.1) }

  pub Preserves-outer :
      {A : Type 0} {P : W → Type 0} (c : Call) (m : Exec W A)
      → Preserves P m
      → Preserves (λ (s : Sys (Machine W)). P s.world.outside × X s.world.table) (outer c m)
  unfolding outer call
  Preserves-outer c m k = record { from = λ s h. (k.from s.world.outside h.0, h.1) }

-- A sandbox that has its container, and what is known of its entries in the table and of the world.
-- The lookups, and the waits on other goroutines, keep it, and so does the removal of the history
-- of a sandbox that has no container.
pub record IsRetaining {W : Type 0} {engine : Engine W} (telling : IsTelling engine)
    (catalog : Catalog W) (shim : Shim W) (await : String → Exec (Sys (Machine W)) (Unit {0}))
    (c : Containers) (id : String) (Intact : W → Type 0) (Holds : Table → Type 0) : Type 0 where
  pub present : manages (c id) ≡ true
  pub told : (w : W) → Intact w → telling.containers w ≡ c
  pub load-Intact : (name : String) → Preserves Intact (engine.load_container name)
  pub info-Intact : (name : String) → Preserves Intact (engine.container_info name)
  pub histories-Intact : Preserves Intact catalog.histories
  pub remove-Intact :
      (name : String) → manages (c name) ≡ false → Preserves Intact (shim.remove_history name)
  pub await_kept :
      (pid : String)
      → Preserves
          (λ (s : Sys (Machine W)). Intact s.world.outside × Holds (of_sandbox id s.world.table))
          (await pid)

module _ {W : Type 0} {engine : Engine W} {telling : IsTelling engine} {catalog : Catalog W}
    {shim : Shim W} {await : String → Exec (Sys (Machine W)) (Unit {0})} {c : Containers}
    {id : String} {Intact : W → Type 0} {Holds : Table → Type 0}
    (retaining : IsRetaining telling catalog shim await c id Intact Holds)
    (race : String → Exec (Sys (Machine W)) Woken) where
  abbrev Entries : Table → Type 0
  Entries t = Holds (of_sandbox id t)

  abbrev Kept : Sys (Machine W) → Type 0
  Kept s = Intact s.world.outside × Entries s.world.table

  other_id : (name : String) → manages (c name) ≡ false → str_eq id name ≡ false
  other_id name gone = elim (Bool-cases (str_eq id name)) [
    | inl same ↦
        let e : id ≡ name = (eq_iff id name).0 same in
        absurd (ground (arith, retaining.present, ap (λ n. manages (c n)) e, gone))
    | inr apart ↦ apart
  ]

  settle_Kept : (name : String) → Preserves Kept (settle_processes shim await race name)
  unfolding settle_processes
  settle_Kept name = Preserves-bind _ _ (Preserves-gets _) λ t. Preserves-for_each _ _ λ entry.
      Preserves-bind _ _ (Preserves-attempt _ (retaining.await_kept entry.0))
        λ r. Preserves-handle _ _ r (λ _. Preserves-pure tt) (λ e. Preserves-raise _)

  drop_table :
      (name : String)
      → str_eq id name ≡ false
      → Preserves Kept (change_table (without_sandbox name))
  unfolding change_table modify
  drop_table name apart = record {
    from = λ s h. (h.0, subst Holds (sym (others-without name id s.world.table apart)) h.1);
  }

  forget_Kept :
      (name : String) → manages (c name) ≡ false → Preserves Kept (forget_processes shim name)
  unfolding forget_processes
  forget_Kept name gone =
      Preserves-bind _ _
        (Preserves-if _ _ _ (Preserves-outer Entries _ _ (retaining.remove-Intact name gone))
          (Preserves-pure tt))
        (λ _. drop_table name (other_id name gone))

  drop_Kept :
      (name : String)
      → manages (c name) ≡ false
      → Preserves Kept (drop_history engine catalog shim await race name)
  unfolding drop_history
  drop_Kept name gone = Preserves-bind _ _ (settle_Kept name) (λ _. forget_Kept name gone)

  look_Intact : (name : String) → Preserves (λ s. Intact s.world) (load engine name)
  unfolding load
  look_Intact name =
      Preserves-bind _ _ (Preserves-call Intact _ _ (retaining.load-Intact name)) λ _.
        Preserves-bind _ _ (Preserves-call Intact _ _ (retaining.info-Intact name))
          λ info. Preserves-bind _ _ (Preserves-refuse_if _ _) (λ _. Preserves-pure info)

  load_Intact :
      (name : String)
      → Leads (λ s. Intact s.world) (λ r s. Intact s.world × Loaded (c name) r) (load engine name)
  load_Intact name = record {
    from = λ s h. (
      (look_Intact name).from s h,
      ((load_Loaded telling c name).from s (retaining.told s.world h)).1,
    );
  }

  drop_gone :
      (name : String) (e : Err) (b : Bool)
      → e.is not_found ≡ b
      → Leads
          (λ s. (Intact s.world.outside × Loaded (c name) (err e)) × Entries s.world.table)
          (λ _ s. Kept s)
          (if b then drop_history engine catalog shim await race name else raise e)
  drop_gone name e true gone = record {
    from = λ s h. (drop_Kept name (h.0.1 gone)).from s (h.0.0, h.1);
  }
  drop_gone name e false gone = Leads-raise e (λ s h. (h.0.0, h.1))

  found_or_gone :
      (name : String)
      → Leads Kept
          (λ _ s. Kept s)
          (attempt (within (load engine name))
            >>= handle
                (λ _. skip)
                (λ e.
                  if e.is not_found
                  then drop_history engine catalog shim await race name
                  else raise e))
  found_or_gone name =
      Leads-catch (λ r s. (Intact s.world.outside × Loaded (c name) r) × Entries s.world.table) _ _
        _ (Leads-within Entries Intact (λ r w. Intact w × Loaded (c name) r) _ (load_Intact name))
        (λ _. Leads-pure tt (λ s h. (h.0.0, h.1))) (λ e. drop_gone name e (e.is not_found) refl)

  entry_Kept :
      (entry : String × Bool) → Preserves Kept (sweep_entry engine catalog shim await race entry)
  unfolding sweep_entry
  entry_Kept (name, directory) =
      Preserves-if _ _ _ (Preserves-pure tt) (Preserves-Leads (found_or_gone name))

  sweep_Kept : Preserves Kept (sweep_histories engine catalog shim await race)
  unfolding sweep_histories
  sweep_Kept =
      Preserves-bind _ _
        (Preserves-Leads (
          Leads-within Entries Intact (λ _ w. Intact w) _
            (Leads-Preserves (Preserves-call Intact _ _ retaining.histories-Intact))))
        (λ entries. Preserves-for_each _ _ entry_Kept)

  -- For a sandbox that has its managed container: what is known of its entries in the table, and of
  -- the world, is kept while `Reconcile` settles and drops the histories of sandboxes that have
  -- none, whether that succeeds or fails, if the lookups, the waits on other goroutines and the
  -- removal of the history of a sandbox without a container keep it.
  pub sweep_histories-Keeps :
      (s : Sys (Machine W))
      → Intact s.world.outside
      → Holds (of_sandbox id s.world.table)
      → let s' = (sweep_histories engine catalog shim await race s).1 in
        Intact s'.world.outside × Holds (of_sandbox id s'.world.table)
  sweep_histories-Keeps s h k = sweep_Kept.from s (h, k)
