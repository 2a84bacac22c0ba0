-- ===== src/Paths.antt =====
-- What the program uses of Go's `path` and `strings` on slash-separated names, over bytes.
pub mod Split
pub mod Absolute
use Prim.Native.Char.{code}
use Prim.Native.String
use sandcube.Prelude.{
  ℕ, ◌≤◌, String, ◌≡◌, ◌↔◌, Bool, true, false, ◌&&◌, ◌||◌, Option, none, some, List, [], ◌∷◌, ◌++◌,
  ◌==◌, arith, any, if◌then◌else◌,
}

abbrev pub Bytes : Type 0
Bytes = List ℕ

-- The bytes of an ASCII text.
abbrev pub bytes : String → Bytes
bytes String.[] = []
bytes (String.◌∷◌ c s) = code c ∷ bytes s

abbrev pub slash : ℕ
slash = 47

abbrev pub dot : ℕ
dot = 46

unfoldable pub same : Bytes → Bytes → Bool
same [] [] = true
same (x ∷ xs) (y ∷ ys) = x == y && same xs ys
same _ _ = false

pub same_iff : (xs ys : Bytes) → (same xs ys ≡ true) ↔ (xs ≡ ys)
unfolding same
same_iff [] [] = ground arith
same_iff [] (y ∷ ys) = ground arith
same_iff (x ∷ xs) [] = ground arith
same_iff (x ∷ xs) (y ∷ ys) = ground (arith, same_iff xs ys)

abbrev extend : ℕ → List Bytes → List Bytes
extend c [] = (c ∷ []) ∷ []
extend c (p ∷ ps) = (c ∷ p) ∷ ps

-- `strings.Split(s, "/")`
unfoldable pub split : Bytes → List Bytes
split [] = [] ∷ []
split (c ∷ cs) = let rest = split cs in if c == slash then [] ∷ rest else extend c rest

-- `strings.Join(ps, "/")`
unfoldable pub join : List Bytes → Bytes
join [] = []
join (p ∷ []) = p
join (p ∷ q ∷ ps) = p ++ (slash ∷ join (q ∷ ps))

-- `strings.TrimLeft(s, "/")`
unfoldable pub trim_left : Bytes → Bytes
trim_left [] = []
trim_left (c ∷ cs) = let rest = trim_left cs in if c == slash then rest else c ∷ cs

abbrev pub is_dot : Bytes → Bool
is_dot p = same p (dot ∷ [])

abbrev pub is_dot_dot : Bytes → Bool
is_dot_dot p = same p (dot ∷ dot ∷ [])

abbrev pub is_empty {ℓ} : {A : Type ℓ} → List A → Bool
is_empty [] = true
is_empty (x ∷ xs) = false

abbrev pub init {ℓ} : {A : Type ℓ} → List A → List A
init [] = []
init (x ∷ []) = []
init (x ∷ y ∷ xs) = x ∷ init (y ∷ xs)

abbrev pub last_or {ℓ} : {A : Type ℓ} → A → List A → A
last_or d [] = d
last_or d (x ∷ xs) = last_or x xs

abbrev pub is_rooted : Bytes → Bool
is_rooted [] = false
is_rooted (c ∷ cs) = c == slash

-- One element of a path, onto the elements kept so far: `.` and empty ones go, `..` takes the
-- element before it away, or stands where there is none in a path that is not rooted.
unfoldable pub clean_step : Bool → List Bytes → Bytes → List Bytes
clean_step rooted kept p =
    if is_empty p || is_dot p
    then kept
    else if is_dot_dot p
    then (if is_empty kept || is_dot_dot (last_or [] kept)
        then (if rooted then kept else kept ++ p ∷ [])
        else init kept)
    else kept ++ p ∷ []

unfoldable pub clean_parts : Bool → List Bytes → List Bytes → List Bytes
clean_parts rooted kept [] = kept
clean_parts rooted kept (p ∷ ps) = clean_parts rooted (clean_step rooted kept p) ps

unfoldable pub render : Bool → List Bytes → Bytes
render true ps = slash ∷ join ps
render false [] = dot ∷ []
render false (p ∷ ps) = join (p ∷ ps)

-- `path.Clean`
unfoldable pub clean : Bytes → Bytes
clean s = render (is_rooted s) (clean_parts (is_rooted s) [] (split s))

-- The name up to and with its last slash.
unfoldable pub up_to_slash : Bytes → Bytes
up_to_slash s = let ps = init (split s) in if is_empty ps then [] else join ps ++ slash ∷ []

-- `path.Dir`
unfoldable pub dir : Bytes → Bytes
dir s = clean (up_to_slash s)

abbrev last_proper : Option Bytes → List Bytes → Option Bytes
last_proper found [] = found
last_proper found (p ∷ ps) = last_proper (if is_empty p then found else some p) ps

-- `path.Base`
unfoldable pub base : Bytes → Bytes
base [] = dot ∷ []
base (c ∷ cs) = elim (last_proper none (split (c ∷ cs))) [ none ↦ slash ∷ [] | some p ↦ p ]

-- What is left of a text behind a prefix.
unfoldable pub after_prefix : Bytes → Bytes → Option Bytes
after_prefix [] s = some s
after_prefix (p ∷ ps) [] = none
after_prefix (p ∷ ps) (c ∷ s) = let rest = after_prefix ps s in if p == c then rest else none

-- `strings.TrimRight(s, "/")`
unfoldable pub trim_right : Bytes → Bytes
trim_right [] = []
trim_right (c ∷ s) = let rest = trim_right s in if c == slash && is_empty rest then [] else c ∷ rest

abbrev pub is_some : Option Bytes → Bool
is_some none = false
is_some (some _) = true

-- `strings.Contains`
unfoldable pub contains : Bytes → Bytes → Bool
contains [] p = is_some (after_prefix p [])
contains (c ∷ s) p = is_some (after_prefix p (c ∷ s)) || contains s p
