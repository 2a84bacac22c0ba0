-- ===== src/Processes/Accounted.antt =====
-- Every process of the table is either over or watched.
pub mod Kept
pub mod Recovered
use sandcube.Prelude.{
  ℕ, String, str_eq, eq_iff, ◌≡◌, refl, ◌∙◌, ◌↔◌, Bool, true, false, ◌||◌, Option, none, some, List,
  [], ◌∷◌, arith, All, Bool-cases, inl, inr, if◌then◌else◌,
}
use sandcube.Exec.{Err, Result, ok, err, Exec, modify}
use sandcube.Exec.Rules.{Preserves}
use sandcube.Exec.Leads.{Leads, IsSure}
use sandcube.Calls.{Call, Sys, call}
use sandcube.Processes.{ProcessInfo, Tracked, Table, Machine, Shim, outer}
use sandcube.Processes.Table.{
  find, put, change, change_table, change_process, without_sandbox, belongs,
}
use sandcube.Processes.Table.Laws.{find-put, find-change, str_eq_refl, Tracks}
use sandcube.Processes.Start.{read_clock, draw_id}
use sandcube.Processes.Watch.{is_terminal}

-- A process whose channel is closed has ended, and one that has not ended is watched.
abbrev pub IsOver : Tracked → Type 0
IsOver p = (p.is_done ≡ true → is_terminal p.info ≡ true) × ((p.is_done || p.is_watched) ≡ true)

-- The entry stands under its own ID.
abbrev pub IsEntry : String × Tracked → Type 0
IsEntry (k, p) = (p.info.id ≡ k) × IsOver p

abbrev pub IsAccounted : Table → Type 0
IsAccounted t = All IsEntry t

-- All but the entry that is read under `pid`.
abbrev pub Rest : String → Table → Type 0
Rest pid [] = Unit
Rest pid ((k, p) ∷ t) =
    (str_eq k pid ≡ true → IsAccounted t) × (str_eq k pid ≡ false → IsEntry (k, p) × Rest pid t)

-- An entry of `pid` before entries that are accounted for, and one of another ID.
Rest-here :
    (pid k : String) (p : Tracked) (t : Table)
    → str_eq k pid ≡ true
    → IsAccounted t
    → Rest pid ((k, p) ∷ t)
Rest-here pid k p t e h = ((λ _. h), λ miss. absurd (ground (arith, e, miss)))

Rest-there :
    (pid k : String) (p : Tracked) (t : Table)
    → str_eq k pid ≡ false
    → IsEntry (k, p)
    → Rest pid t
    → Rest pid ((k, p) ∷ t)
Rest-there pid k p t e h r = ((λ hit. absurd (ground (arith, e, hit))), λ _. (h, r))

pub Rest-put : (pid : String) (p : Tracked) (t : Table) → IsAccounted t → Rest pid (put pid p t)
unfolding put
Rest-put pid p [] h = Rest-here pid pid p [] (str_eq_refl pid) tt
Rest-put pid p ((k, q) ∷ t) h = elim (Bool-cases (str_eq k pid)) [
  | inl hit ↦ rw hit (Rest-here pid pid p t (str_eq_refl pid) h.1)
  | inr miss ↦ rw miss (Rest-there pid k q (put pid p t) miss h.0 (Rest-put pid p t h.1))
]

pub Rest-change :
    (pid : String) (f : Tracked → Tracked) (t : Table) → Rest pid t → Rest pid (change pid f t)
unfolding change
Rest-change pid f [] h = tt
Rest-change pid f ((k, q) ∷ t) h = elim (Bool-cases (str_eq k pid)) [
  | inl hit ↦ rw hit (Rest-here pid k (f q) t hit (h.0 hit))
  | inr miss ↦
      rw miss
        (Rest-there pid k q (change pid f t) miss (h.1 miss).0 (Rest-change pid f t (h.1 miss).1))
]

pub Rest-open : (pid : String) (t : Table) → IsAccounted t → Rest pid t
Rest-open pid [] h = tt
Rest-open pid ((k, q) ∷ t) h = ((λ _. h.1), λ _. (h.0, Rest-open pid t h.1))

pub Rest-close :
    (pid : String) (t : Table) (p : Tracked)
    → Rest pid t
    → find pid t ≡ some p
    → IsEntry (pid, p)
    → IsAccounted t
unfolding find
Rest-close pid [] p h found e = tt
Rest-close pid ((k, q) ∷ t) p h found e = elim (Bool-cases (str_eq k pid)) [
  | inl hit ↦
      let same : q ≡ p = ground (arith, found, hit) in
      let key : k ≡ pid = (eq_iff k pid).0 hit in (rw (key, same) e, h.0 hit)
  | inr miss ↦ ((h.1 miss).0, Rest-close pid t p (h.1 miss).1 (ground (arith, found, miss)) e)
]

pub IsAccounted-without :
    (id : String) (t : Table) → IsAccounted t → IsAccounted (without_sandbox id t)
unfolding without_sandbox
IsAccounted-without id [] h = tt
IsAccounted-without id ((k, q) ∷ t) h = elim (Bool-cases (belongs id q)) [
  | inl hit ↦ rw hit (IsAccounted-without id t h.1)
  | inr miss ↦ rw miss (h.0, IsAccounted-without id t h.1)
]

-- While one process changes: it is tracked, and the others are accounted for.
abbrev pub Changing : (Tracked → Type 0) → String → Table → Type 0
Changing T pid t = Rest pid t × Tracks T pid t

pub Changing-close :
    (T : Tracked → Type 0) (pid : String) (t : Table)
    → ((p : Tracked) → T p → IsOver p)
    → Changing T pid t
    → IsAccounted t
Changing-close T pid t over (rest, (p, found, same, h)) =
    Rest-close pid t p rest found (same, over p h)

module _ {W : Type 0} where
  abbrev pub With : (Tracked → Type 0) → String → Sys (Machine W) → Type 0
  With T pid s = Changing T pid s.world.table

  abbrev pub Good : Sys (Machine W) → Type 0
  Good s = IsAccounted s.world.table

  -- The outside does not reach the table.
  pub outer-table :
      {A : Type 0} (P : Table → Type 0) (c : Call) (m : Exec W A)
      → Preserves (λ (s : Sys (Machine W)). P s.world.table) (outer c m)
  unfolding outer call
  outer-table P c m = record { from = λ s h. h }

  pub change-With :
      (T U : Tracked → Type 0) (pid : String) (f : Tracked → Tracked)
      → ((p : Tracked) → T p → ((f p).info.id ≡ p.info.id) × U (f p))
      → Leads (With T pid) (λ _ s. With U pid s) (change_process pid f)
  unfolding change_process change_table modify
  change-With T U pid f k = record {
    from = λ s h.
        let (rest, (p, found, same, t)) = h in
        (
          Rest-change pid f s.world.table rest,
          (f p, find-change pid f s.world.table p found, (k p t).0 ∙ same, (k p t).1),
        );
  }

  pub put-With :
      (T : Tracked → Type 0) (pid : String) (p : Tracked)
      → p.info.id ≡ pid
      → T p
      → Leads Good (λ _ s. With T pid s) (change_table (put pid p))
  unfolding change_table modify
  put-With T pid p same t = record {
    from = λ s h. (Rest-put pid p s.world.table h, (p, find-put pid p s.world.table, same, t));
  }

  pub IsSure-table : (f : Table → Table) → IsSure (change_table {W = W} f)
  unfolding change_table modify
  IsSure-table f = record { from = λ s. refl }

  pub IsSure-change : (pid : String) (f : Tracked → Tracked) → IsSure (change_process {W = W} pid f)
  unfolding change_process change_table modify
  IsSure-change pid f = record { from = λ s. refl }

  pub IsSure-clock : (shim : Shim W) → IsSure (read_clock shim)
  unfolding read_clock
  IsSure-clock shim = record { from = λ s. refl }
