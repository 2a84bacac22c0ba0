-- ===== src/Processes/Env/Laws.antt =====
-- The environment of a process: one entry for each name, in their order, the request's before the image's.
use sandcube.Prelude.{
  ◌≡◌, refl, ◌∙◌, Bool, true, false, ◌&&◌, Option, none, some, List, [], ◌∷◌, map, arith,
  if◌then◌else◌, Bool-cases, inl, inr, ap,
}
use sandcube.Paths.{Bytes, same, same_iff}
use sandcube.Processes.Env.{
  cut, is_less, Values, set_value, add_entry, add_base, add_overrides, print_entry, merged,
  merge_env,
}

-- The value of a name.
abbrev pub value_of : Bytes → Values → Option Bytes
value_of key [] = none
value_of key ((k, v) ∷ vs) = let rest = value_of key vs in if same k key then some v else rest

abbrev pub or_else : Option Bytes → Option Bytes → Option Bytes
or_else none o = o
or_else (some v) o = some v

-- The last value that a list of settings gives a name.
abbrev pub last_value : Bytes → Values → Option Bytes
last_value key [] = none
last_value key ((k, v) ∷ vs) = or_else (last_value key vs) (if same k key then some v else none)

abbrev add_setting : Option (Bytes × Bytes) → Values → Values
add_setting none vs = vs
add_setting (some kv) vs = kv ∷ vs

-- The settings among the entries of an image.
abbrev pub settings : List Bytes → Values
settings [] = []
settings (e ∷ es) = add_setting (cut e) (settings es)

-- The name comes before the first of these.
abbrev pub precedes : Bytes → Values → Bool
precedes k [] = true
precedes k ((l, w) ∷ vs) = is_less k l

abbrev pub is_sorted : Values → Bool
is_sorted [] = true
is_sorted ((k, v) ∷ vs) = precedes k vs && is_sorted vs

less_total : (k l : Bytes) → same k l ≡ false → is_less l k ≡ false → is_less k l ≡ true
unfolding same is_less
less_total [] [] h g = ground (arith, h)
less_total [] (y ∷ ys) h g = refl
less_total (x ∷ xs) [] h g = ground (arith, g)
less_total (x ∷ xs) (y ∷ ys) h g = ground (arith, less_total xs ys)

same_sym : (k l : Bytes) → same k l ≡ same l k
unfolding same
same_sym [] [] = refl
same_sym [] (y ∷ ys) = refl
same_sym (x ∷ xs) [] = refl
same_sym (x ∷ xs) (y ∷ ys) = ground (arith, same_sym xs ys)

value_of-set :
    (key k v : Bytes) (vs : Values)
    → value_of key (set_value k v vs) ≡ (if same k key then some v else value_of key vs)
unfolding set_value
value_of-set key k v [] = refl
value_of-set key k v ((l, w) ∷ vs) = elim (Bool-cases (same l k)) [
  | inl hit ↦ let eq = ap (λ z. same z key) ((same_iff l k).0 hit) in ground (arith, hit, eq)
  | inr miss ↦ elim (Bool-cases (same l key)) [
    | inl there ↦
        let eq = ap (λ z. same k z) ((same_iff l key).0 there) in
        let back = same_sym k l in ground (arith, miss, there, eq, back)
    | inr elsewhere ↦ let later = value_of-set key k v vs in ground (arith, miss, elsewhere, later)
  ]
]

precedes-set :
    (l k v : Bytes) (vs : Values)
    → precedes l vs ≡ true
    → is_less l k ≡ true
    → precedes l (set_value k v vs) ≡ true
unfolding set_value
precedes-set l k v [] h g = ground (arith, g)
precedes-set l k v ((m, x) ∷ vs) h g = ground (arith, h, g)

set-sorted : (k v : Bytes) (vs : Values) → is_sorted vs ≡ true → is_sorted (set_value k v vs) ≡ true
unfolding set_value
set-sorted k v [] h = refl
set-sorted k v ((l, w) ∷ vs) h = elim (Bool-cases (same l k)) [
  | inl hit ↦ let eq = ap (λ z. precedes z vs) ((same_iff l k).0 hit) in ground (arith, hit, eq)
  | inr miss ↦
      let later = set-sorted k v vs (ground arith) in
      elim (Bool-cases (is_less k l)) [
        | inl less ↦ ground (arith, miss, less)
        | inr more ↦
            let first = precedes-set l k v vs (ground arith) (less_total l k miss more) in
            ground (arith, miss, more, later, first)
      ]
]

add_entry-sorted :
    (o : Option (Bytes × Bytes)) (vs : Values)
    → is_sorted vs ≡ true
    → is_sorted (add_entry o vs) ≡ true
add_entry-sorted none vs h = h
add_entry-sorted (some (k, v)) vs h = set-sorted k v vs h

add_base-sorted :
    (es : List Bytes) (vs : Values) → is_sorted vs ≡ true → is_sorted (add_base es vs) ≡ true
unfolding add_base
add_base-sorted [] vs h = h
add_base-sorted (e ∷ es) vs h = add_base-sorted es _ (add_entry-sorted (cut e) vs h)

add_overrides-sorted :
    (os vs : Values) → is_sorted vs ≡ true → is_sorted (add_overrides os vs) ≡ true
unfolding add_overrides
add_overrides-sorted [] vs h = h
add_overrides-sorted ((k, v) ∷ os) vs h = add_overrides-sorted os _ (set-sorted k v vs h)

pub merged-sorted :
    (base : List Bytes) (overrides : Values) → is_sorted (merged base overrides) ≡ true
unfolding merged
merged-sorted base overrides = add_overrides-sorted overrides _ (add_base-sorted base [] refl)

value_of-add_overrides :
    (key : Bytes) (os vs : Values)
    → value_of key (add_overrides os vs) ≡ or_else (last_value key os) (value_of key vs)
unfolding add_overrides
value_of-add_overrides key [] vs = refl
value_of-add_overrides key ((k, v) ∷ os) vs =
    let later = value_of-add_overrides key os (set_value k v vs) in
    let here = value_of-set key k v vs in ground (arith, later, here)

one_more :
    (key : Bytes) (o : Option (Bytes × Bytes)) (later vs : Values)
    → or_else (last_value key later) (value_of key (add_entry o vs))
      ≡ or_else (last_value key (add_setting o later)) (value_of key vs)
one_more key none later vs = refl
one_more key (some (k, v)) later vs = let here = value_of-set key k v vs in ground (arith, here)

value_of-add_base :
    (key : Bytes) (es : List Bytes) (vs : Values)
    → value_of key (add_base es vs) ≡ or_else (last_value key (settings es)) (value_of key vs)
unfolding add_base
value_of-add_base key [] vs = refl
value_of-add_base key (e ∷ es) vs =
    value_of-add_base key es (add_entry (cut e) vs) ∙ one_more key (cut e) (settings es) vs

-- The environment that a process gets is a map of names, printed as `name=value`: the names come in
-- strictly ascending order, so that each occurs once, and a name has the last value that the
-- request gives it or, where it gives none, the last that the entries of the image give it, where
-- an entry without `=` gives nothing.
pub merge_env_lem :
    (base : List Bytes) (overrides : Values)
    → (vs : Values) × (merge_env base overrides ≡ map print_entry vs)
      × (is_sorted vs ≡ true)
      × ((key : Bytes)
          → value_of key vs ≡ or_else (last_value key overrides) (last_value key (settings base)))
unfolding merge_env merged
merge_env_lem base overrides = (
  merged base overrides,
  refl,
  merged-sorted base overrides,
  λ key.
      let above = value_of-add_overrides key overrides (add_base base []) in
      let below = value_of-add_base key base [] in ground (arith, above, below),
)
