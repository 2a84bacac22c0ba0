-- ===== src/Paths/Split.antt =====
-- `split` and `join` undo one another, and what a split keeps of its text.
use sandcube.Prelude.{
  ℕ, ◌≡◌, ◌≢◌, refl, ◌∙◌, Bool, true, false, not, List, [], ◌∷◌, ◌++◌, ◌==◌, arith, all,
  if◌then◌else◌,
}
use sandcube.Paths.{Bytes, slash, split, join, extend, trim_left}

split-ne-nil : (s : Bytes) → split s ≢ []
unfolding split
split-ne-nil [] e = cc
split-ne-nil (c ∷ s) e = ground (arith, split-ne-nil s)

extend-append : (c : ℕ) (ps qs : List Bytes) → ps ≢ [] → extend c (ps ++ qs) ≡ extend c ps ++ qs
extend-append c [] qs h = absurd (h refl)
extend-append c (p ∷ ps) qs h = refl

-- Cutting at a slash cuts both sides.
pub split-append_slash : (s t : Bytes) → split (s ++ slash ∷ t) ≡ split s ++ split t
unfolding split
split-append_slash [] t = refl
split-append_slash (c ∷ s) t =
    ground (arith, split-append_slash s t, split-ne-nil s, extend-append c (split s) (split t))

abbrev pub has_no_slash : Bytes → Bool
has_no_slash = all (λ c. not (c == slash))

-- A text with no slash is one part.
pub split_whole : (s : Bytes) → has_no_slash s ≡ true → split s ≡ s ∷ []
unfolding split
split_whole [] h = refl
split_whole (c ∷ s) h = ground (arith, split_whole s)

pub split-join : (ps : List Bytes) → ps ≢ [] → all has_no_slash ps ≡ true → split (join ps) ≡ ps
unfolding join
split-join [] ne h = absurd (ne refl)
split-join (p ∷ []) ne h = split_whole p (ground arith)
split-join (p ∷ q ∷ ps) ne h =
    split-append_slash p (join (q ∷ ps)) ∙ ground (arith, split_whole p, split-join (q ∷ ps))

extend-has_no_slash :
    (c : ℕ) (ps : List Bytes)
    → (c == slash) ≡ false
    → all has_no_slash ps ≡ true
    → all has_no_slash (extend c ps) ≡ true
extend-has_no_slash c [] h hs = ground arith
extend-has_no_slash c (p ∷ ps) h hs = ground arith

-- No part of a split has a slash.
pub split-has_no_slash : (s : Bytes) → all has_no_slash (split s) ≡ true
unfolding split
split-has_no_slash [] = refl
split-has_no_slash (c ∷ s) = ground (arith, split-has_no_slash s, extend-has_no_slash c (split s))

-- The parts that count: neither empty nor `.`.
unfoldable pub select : (Bytes → Bool) → List Bytes → List Bytes
select keep [] = []
select keep (p ∷ ps) = let rest = select keep ps in if keep p then p ∷ rest else rest

-- Slashes at the front only add empty parts.
pub select-trim_left :
    (keep : Bytes → Bool)
    → keep [] ≡ false
    → (s : Bytes) → select keep (split (trim_left s)) ≡ select keep (split s)
unfolding trim_left split select
select-trim_left keep h [] = refl
select-trim_left keep h (c ∷ s) = ground (arith, select-trim_left keep h s)
