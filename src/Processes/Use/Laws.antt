-- ===== src/Processes/Use/Laws.antt =====
-- What forgetting the processes of a sandbox leaves.
use sandcube.Prelude.{
  String, str_eq, eq_iff, ◌≡◌, refl, sym, ap, Bool, true, false, [], ◌∷◌, arith, Bool-cases, inl,
  inr,
}
use sandcube.Exec.{succeeded, modify}
use sandcube.Exec.Rules.{Preserves-if, Preserves-pure}
use sandcube.Exec.Leads.{Leads, Leads-bind_kept}
use sandcube.Processes.Accounted.{outer-table}
use sandcube.Calls.{Sys}
use sandcube.Processes.{Tracked, Table, Machine, Shim}
use sandcube.Processes.Table.{of_sandbox, without_sandbox, belongs, change_table}
use sandcube.Processes.Use.{forget_processes}

of-without : (id : String) (t : Table) → of_sandbox id (without_sandbox id t) ≡ []
unfolding of_sandbox without_sandbox
of-without id [] = refl
of-without id ((k, p) ∷ t) = ground (arith, of-without id t)

str_eq_sym : (k l : String) → str_eq l k ≡ false → str_eq k l ≡ false
str_eq_sym k l apart = elim (Bool-cases (str_eq k l)) [
  | inl hit ↦ absurd (ground (arith, apart, (eq_iff l k).1 (sym ((eq_iff k l).0 hit))))
  | inr miss ↦ miss
]

belongs_once :
    (id other : String) (p : Tracked)
    → str_eq other id ≡ false
    → belongs id p ≡ true
    → belongs other p ≡ false
belongs_once id other p apart h =
    let owner : p.info.sandbox_id ≡ id = (eq_iff p.info.sandbox_id id).0 h in
    rw owner (str_eq_sym id other apart)

pub others-without :
    (id other : String) (t : Table)
    → str_eq other id ≡ false
    → of_sandbox other (without_sandbox id t) ≡ of_sandbox other t
unfolding of_sandbox without_sandbox
others-without id other [] apart = refl
others-without id other ((k, p) ∷ t) apart =
    ground (arith, others-without id other t, belongs_once id other p apart)

-- The table behind it, by whether it succeeded.
abbrev Forgotten : String → Table → Bool → Table → Type 0
Forgotten id before true after = after ≡ without_sandbox id before
Forgotten id before false after = after ≡ before

module _ {W : Type 0} (shim : Shim W) where
  forgotten :
      (id : String) (before : Table)
      → Leads
          (λ (s : Sys (Machine W)). s.world.table ≡ before)
          (λ r s. Forgotten id before (succeeded r) s.world.table)
          (forget_processes shim id)
  unfolding forget_processes change_table modify
  forgotten id before =
      Leads-bind_kept _ _
        (Preserves-if _ _ _ (outer-table (λ t. t ≡ before) _ _) (Preserves-pure tt)) (λ e s h. h)
        λ _. record { from = λ s h. ap (without_sandbox id) h }

  Forgotten-all :
      (id : String) (before after : Table) (b : Bool)
      → Forgotten id before b after
      → (b ≡ true → of_sandbox id after ≡ [])
        × (b ≡ true
            → (other : String) → str_eq other id ≡ false
            → of_sandbox other after ≡ of_sandbox other before)
        × (b ≡ false → after ≡ before)
  Forgotten-all id before after true h = (
    λ _. rw h (of-without id before),
    λ _ other apart. rw h (others-without id other before apart),
    λ failed. absurd (ground (arith, failed)),
  )
  Forgotten-all id before after false h =
      (λ done. absurd (ground (arith, done)), λ done. absurd (ground (arith, done)), λ _. h)

  -- `forgetProcesses` that succeeds leaves no process of the sandbox in the table and those of every
  -- other sandbox as they were; when it fails, the table is as it was.
  pub forget_processes_lem :
      (id : String) (s : Sys (Machine W))
      → let (r, s') = forget_processes shim id s in
        (succeeded r ≡ true → of_sandbox id s'.world.table ≡ [])
        × (succeeded r ≡ true
            → (other : String) → str_eq other id ≡ false
            → of_sandbox other s'.world.table ≡ of_sandbox other s.world.table)
        × (succeeded r ≡ false → s'.world.table ≡ s.world.table)
  forget_processes_lem id s =
      Forgotten-all id s.world.table _ _ ((forgotten id s.world.table).from s refl)
