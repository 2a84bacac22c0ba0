-- ===== src/Processes/Env.antt =====
-- `mergeEnv` of services/containerd-runtime/runtime.go.
pub mod Laws
pub mod RoundTrip
use sandcube.Prelude.{
  String, str_eq, Bool, true, false, ◌&&◌, ◌||◌, Option, none, some, List, [], ◌∷◌, ◌++◌, ltb, ◌==◌,
  map, if◌then◌else◌, ℕ,
}
use sandcube.Paths.{Bytes, bytes, same}

-- `strings.Cut(entry, "=")`: nothing where there is no `=`.
unfoldable pub cut : Bytes → Option (Bytes × Bytes)
cut [] = none
cut (c ∷ s) =
    let rest = cut s in
    if c == 61
    then some ([], s)
    else elim rest [ none ↦ none | some (key, value) ↦ some (c ∷ key, value) ]

-- The order of Go's strings.
unfoldable pub is_less : Bytes → Bytes → Bool
is_less [] [] = false
is_less [] (y ∷ ys) = true
is_less (x ∷ xs) [] = false
is_less (x ∷ xs) (y ∷ ys) = ltb x y || x == y && is_less xs ys

abbrev pub Values : Type 0
Values = List (Bytes × Bytes)

-- `values[key] = value`, in a map that is kept in the order of its keys, as it is read at the end.
unfoldable pub set_value : Bytes → Bytes → Values → Values
set_value key value [] = (key, value) ∷ []
set_value key value ((k, v) ∷ vs) =
    let rest = set_value key value vs in
    if same k key
    then (key, value) ∷ vs
    else if is_less key k
    then (key, value) ∷ (k, v) ∷ vs
    else (k, v) ∷ rest

abbrev add_entry : Option (Bytes × Bytes) → Values → Values
add_entry none vs = vs
add_entry (some (key, value)) vs = set_value key value vs

unfoldable pub add_base : List Bytes → Values → Values
add_base [] vs = vs
add_base (entry ∷ es) vs = add_base es (add_entry (cut entry) vs)

unfoldable pub add_overrides : Values → Values → Values
add_overrides [] vs = vs
add_overrides ((key, value) ∷ os) vs = add_overrides os (set_value key value vs)

unfoldable pub print_entry : Bytes × Bytes → Bytes
print_entry (key, value) = key ++ 61 ∷ value

unfoldable pub merged : List Bytes → Values → Values
merged base overrides = add_overrides overrides (add_base base [])

unfoldable pub merge_env : List Bytes → Values → List Bytes
merge_env base overrides = map print_entry (merged base overrides)
