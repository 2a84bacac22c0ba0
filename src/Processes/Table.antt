-- ===== src/Processes/Table.antt =====
-- The map `r.processes` of services/containerd-runtime/processes.go, `lookupProcess` and `snapshot`.
pub mod Laws
use sandcube.Prelude.{
  String, str_eq, Bool, true, false, not, ◌&&◌, ◌||◌, Option, none, some, List, [], ◌∷◌, leb, ◌==◌,
  if◌then◌else◌, ℕ, length,
}
use sandcube.Exec.{Err, Result, ok, err, Exec, modify, gets}
use sandcube.Calls.{Sys}
use sandcube.Paths.{Bytes, bytes, after_prefix}
use sandcube.Runtime.Container.{err_not_found}
use sandcube.Processes.{ProcessInfo, Tracked, Table, Machine}

-- A key that the map has no entry for reads as nothing.
unfoldable pub find : String → Table → Option Tracked
find pid [] = none
find pid ((k, p) ∷ t) = let rest = find pid t in if str_eq k pid then some p else rest

unfoldable pub put : String → Tracked → Table → Table
put pid p [] = (pid, p) ∷ []
put pid p ((k, q) ∷ t) =
    let rest = put pid p t in if str_eq k pid then (pid, p) ∷ t else (k, q) ∷ rest

-- A change of the process that a pointer of the map leads to.
unfoldable pub change : String → (Tracked → Tracked) → Table → Table
change pid f [] = []
change pid f ((k, p) ∷ t) =
    let rest = change pid f t in if str_eq k pid then (k, f p) ∷ t else (k, p) ∷ rest

abbrev pub belongs : String → Tracked → Bool
belongs id p = str_eq p.info.sandbox_id id

-- The entries of a sandbox, and what is left without them.
unfoldable pub of_sandbox : String → Table → Table
of_sandbox id [] = []
of_sandbox id ((k, p) ∷ t) =
    let rest = of_sandbox id t in if belongs id p then (k, p) ∷ rest else rest

unfoldable pub without_sandbox : String → Table → Table
without_sandbox id [] = []
without_sandbox id ((k, p) ∷ t) =
    let rest = without_sandbox id t in if belongs id p then rest else (k, p) ∷ rest

abbrev owned : String → Option Tracked → Option Tracked
owned id none = none
owned id (some p) = if not (belongs id p) then none else some p

-- `lookupProcess`, where nothing stands for errdefs.ErrNotFound.
unfoldable pub lookup_process : String → String → Table → Option Tracked
lookup_process id pid t = owned id (find pid t)

abbrev pub is_hex : ℕ → Bool
is_hex c = leb b'a' c && leb c b'f' || leb b'0' c && leb c b'9'

abbrev all_hex : Bytes → Bool
all_hex [] = true
all_hex (c ∷ s) = is_hex c && all_hex s

abbrev is_hex_32 : Option Bytes → Bool
is_hex_32 none = false
is_hex_32 (some s) = length s == 32 && all_hex s

-- `validProcessID`
unfoldable pub is_valid_process_id : Bytes → Bool
is_valid_process_id s = is_hex_32 (after_prefix (bytes "proc_") s)

module _ {W : Type 0} where
  unfoldable pub change_table : (Table → Table) → Exec (Sys (Machine W)) (Unit {0})
  change_table f = modify (λ s. record s { world = record s.world { table = f s.world.table } })

  unfoldable pub change_process : String → (Tracked → Tracked) → Exec (Sys (Machine W)) (Unit {0})
  change_process pid f = change_table (change pid f)

  unfoldable pub change_info :
      String → (ProcessInfo → ProcessInfo) → Exec (Sys (Machine W)) (Unit {0})
  change_info pid f = change_process pid (λ p. record p { info = f p.info })

  unfoldable pub close_done : String → Exec (Sys (Machine W)) (Unit {0})
  close_done pid = change_process pid (λ p. record p { is_done = true })

  unfoldable pub find_process : String → Exec (Sys (Machine W)) (Option Tracked)
  find_process pid = gets (λ s. find pid s.world.table)

  unfoldable pub lookup_tracked : String → String → Exec (Sys (Machine W)) (Option Tracked)
  lookup_tracked id pid = gets (λ s. lookup_process id pid s.world.table)
