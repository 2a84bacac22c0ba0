-- ===== src/Processes/Table/Laws.antt =====
-- Reading what a change of the table leaves.
use sandcube.Prelude.{String, str_eq, eq_iff, ◌≡◌, refl, true, some, [], ◌∷◌, arith}
use sandcube.Processes.{Tracked, Table}
use sandcube.Processes.Table.{find, put, change}

pub str_eq_refl : (k : String) → str_eq k k ≡ true
str_eq_refl k = (eq_iff k k).1 refl

pub find-put : (pid : String) (p : Tracked) (t : Table) → find pid (put pid p t) ≡ some p
unfolding find put
find-put pid p [] = ground (arith, str_eq_refl pid)
find-put pid p ((k, q) ∷ t) = ground (arith, str_eq_refl pid, find-put pid p t)

pub find-change :
    (pid : String) (f : Tracked → Tracked) (t : Table) (p : Tracked)
    → find pid t ≡ some p
    → find pid (change pid f t) ≡ some (f p)
unfolding find change
find-change pid f [] p h = ground (arith, h)
find-change pid f ((k, q) ∷ t) p h = ground (arith, find-change pid f t p)

-- The process is tracked, under its own ID.
abbrev pub Tracks : (Tracked → Type 0) → String → Table → Type 0
Tracks T pid t = (p : Tracked) × (find pid t ≡ some p) × (p.info.id ≡ pid) × T p
