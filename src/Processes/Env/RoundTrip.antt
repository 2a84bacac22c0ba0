-- ===== src/Processes/Env/RoundTrip.antt =====
-- The environment that `mergeEnv` prints is read back as it was.
use sandcube.Prelude.{
  ◌≡◌, refl, ◌∙◌, ap, sym, Bool, true, false, not, ◌&&◌, Option, none, some, List, [], ◌∷◌, ◌++◌,
  map, arith, All, ◌==◌, append-nil, append_assoc, ℕ, Bool-cases, inl, inr,
}
use sandcube.Paths.{Bytes, same}
use sandcube.Processes.Env.{
  cut, is_less, Values, set_value, add_entry, add_base, add_overrides, print_entry, merged,
  merge_env,
}
use sandcube.Processes.Env.Laws.{precedes, is_sorted, merged-sorted}

-- There is no `=` in it.
abbrev pub is_plain : Bytes → Bool
is_plain [] = true
is_plain (c ∷ s) = not (c == 61) && is_plain s

abbrev pub ArePlain : Values → Type 0
ArePlain vs = All (λ (e : Bytes × Bytes). is_plain e.0 ≡ true) vs

less_trans : (k l m : Bytes) → is_less k l ≡ true → is_less l m ≡ true → is_less k m ≡ true
unfolding is_less
less_trans [] [] m h g = ground (arith, h)
less_trans [] (y ∷ ys) [] h g = ground (arith, g)
less_trans [] (y ∷ ys) (z ∷ zs) h g = refl
less_trans (x ∷ xs) [] m h g = ground (arith, h)
less_trans (x ∷ xs) (y ∷ ys) [] h g = ground (arith, g)
less_trans (x ∷ xs) (y ∷ ys) (z ∷ zs) h g = ground (arith, less_trans xs ys zs)

less_asym : (k l : Bytes) → is_less k l ≡ true → is_less l k ≡ false
unfolding is_less
less_asym [] [] h = ground (arith, h)
less_asym [] (y ∷ ys) h = refl
less_asym (x ∷ xs) [] h = ground (arith, h)
less_asym (x ∷ xs) (y ∷ ys) h = ground (arith, less_asym xs ys)

less-ne : (k l : Bytes) → is_less k l ≡ true → same k l ≡ false
unfolding same is_less
less-ne [] [] h = ground (arith, h)
less-ne [] (y ∷ ys) h = refl
less-ne (x ∷ xs) [] h = refl
less-ne (x ∷ xs) (y ∷ ys) h = ground (arith, less-ne xs ys)

cut-print : (k v : Bytes) → is_plain k ≡ true → cut (print_entry (k, v)) ≡ some (k, v)
unfolding cut print_entry
cut-print [] v h = refl
cut-print (c ∷ k) v h = ground (arith, cut-print k v)

abbrev IsCut : Option (Bytes × Bytes) → Type 0
IsCut none = Unit
IsCut (some e) = is_plain e.0 ≡ true

cut-IsCut : (s : Bytes) → IsCut (cut s)
unfolding cut
cut-IsCut [] = tt
cut-IsCut (c ∷ s) = elim (Bool-cases (c == 61)) [
  | inl here ↦ rw here refl
  | inr later ↦ rw later (extended c (cut s) later (cut-IsCut s))
]
  where
    extended :
        (c : ℕ) (o : Option (Bytes × Bytes))
        → (c == 61) ≡ false
        → IsCut o
        → IsCut (elim o [ none ↦ none | some (key, value) ↦ some (c ∷ key, value) ])
    extended c none h k = tt
    extended c (some (key, value)) h k = ground (arith, h, k)

set-ArePlain :
    (k v : Bytes) (vs : Values) → is_plain k ≡ true → ArePlain vs → ArePlain (set_value k v vs)
unfolding set_value
set-ArePlain k v [] h p = (h, tt)
set-ArePlain k v ((l, w) ∷ vs) h p = elim (Bool-cases (same l k)) [
  | inl hit ↦ rw hit (h, p.1)
  | inr miss ↦ elim (Bool-cases (is_less k l)) [
    | inl less ↦ rw (miss, less) (h, p)
    | inr more ↦ rw (miss, more) (p.0, set-ArePlain k v vs h p.1)
  ]
]

add_entry-ArePlain :
    (o : Option (Bytes × Bytes)) (vs : Values) → IsCut o → ArePlain vs → ArePlain (add_entry o vs)
add_entry-ArePlain none vs h p = p
add_entry-ArePlain (some (k, v)) vs h p = set-ArePlain k v vs h p

add_base-ArePlain : (es : List Bytes) (vs : Values) → ArePlain vs → ArePlain (add_base es vs)
unfolding add_base
add_base-ArePlain [] vs p = p
add_base-ArePlain (e ∷ es) vs p =
    add_base-ArePlain es _ (add_entry-ArePlain (cut e) vs (cut-IsCut e) p)

add_overrides-ArePlain :
    (os vs : Values) → ArePlain os → ArePlain vs → ArePlain (add_overrides os vs)
unfolding add_overrides
add_overrides-ArePlain [] vs h p = p
add_overrides-ArePlain ((k, v) ∷ os) vs h p =
    add_overrides-ArePlain os _ h.1 (set-ArePlain k v vs h.0 p)

-- Every name of these comes before this one.
abbrev AllBefore : Bytes → Values → Type 0
AllBefore k vs = All (λ (e : Bytes × Bytes). is_less e.0 k ≡ true) vs

set-end : (k v : Bytes) (vs : Values) → AllBefore k vs → set_value k v vs ≡ vs ++ (k, v) ∷ []
unfolding set_value
set-end k v [] b = refl
set-end k v ((l, w) ∷ vs) b =
    rw (less-ne l k b.0, less_asym l k b.0) (ap (λ z. (l, w) ∷ z) (set-end k v vs b.1))

before-next :
    (k v l : Bytes) (vs : Values)
    → AllBefore k vs
    → is_less k l ≡ true
    → AllBefore l (vs ++ (k, v) ∷ [])
before-next k v l [] b less = (less, tt)
before-next k v l ((m, w) ∷ vs) b less = (less_trans m k l b.0 less, before-next k v l vs b.1 less)

-- All of the first come before the first of the second.
abbrev Joins : Values → Values → Type 0
Joins acc [] = Unit
Joins acc ((k, v) ∷ vs) = AllBefore k acc

Joins-next :
    (acc : Values) (k v : Bytes) (vs : Values)
    → AllBefore k acc
    → precedes k vs ≡ true
    → Joins (acc ++ (k, v) ∷ []) vs
Joins-next acc k v [] b p = tt
Joins-next acc k v ((l, w) ∷ vs) b p = before-next k v l acc b p

read_back :
    (vs acc : Values)
    → ArePlain vs
    → is_sorted vs ≡ true
    → Joins acc vs
    → add_base (map print_entry vs) acc ≡ acc ++ vs
unfolding add_base
read_back [] acc p s j = sym (append-nil acc)
read_back ((k, v) ∷ vs) acc p s j =
    let (first, rest) : (precedes k vs ≡ true) × (is_sorted vs ≡ true) = ground (arith, s) in
    ap (λ o. add_base (map print_entry vs) (add_entry o acc)) (cut-print k v p.0)
    ∙ ap (add_base (map print_entry vs)) (set-end k v acc j)
    ∙ read_back vs (acc ++ (k, v) ∷ []) p.1 rest (Joins-next acc k v vs j first)
    ∙ append_assoc acc ((k, v) ∷ []) vs

Joins-nil : (vs : Values) → Joins [] vs
Joins-nil [] = tt
Joins-nil ((k, v) ∷ vs) = tt

-- Merging nothing more into a merged environment gives it back, entry for entry, where no name that
-- the request gives has an `=`: what is printed is what was meant.
pub merge_env_twice :
    (base : List Bytes) (overrides : Values)
    → ArePlain overrides
    → merge_env (merge_env base overrides) [] ≡ merge_env base overrides
unfolding merge_env merged add_overrides
merge_env_twice base overrides p = ap (map print_entry) (
    read_back (merged base overrides) []
      (add_overrides-ArePlain overrides _ p (add_base-ArePlain base [] tt))
      (merged-sorted base overrides) (Joins-nil _))
