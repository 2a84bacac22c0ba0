-- ===== src/Paths/Absolute.antt =====
-- Absolute paths by their elements: what `path.Dir` and `path.Base` make of them.
use sandcube.Prelude.{
  ◌≡◌, ◌≢◌, refl, sym, ◌∙◌, ap, Bool, true, not, ◌&&◌, Option, none, some, List, [], ◌∷◌, ◌++◌,
  append_assoc, append-nil, arith, all, if◌then◌else◌,
}
use sandcube.Paths.{
  Bytes, slash, split, join, init, last_proper, up_to_slash, clean, clean_parts, clean_step, render,
  dir, base, is_empty, is_dot, is_dot_dot, is_rooted,
}
use sandcube.Paths.Split.{has_no_slash, split-join, split-append_slash}

-- The name of an entry: not empty, not `.` or `..`, and without slashes.
abbrev pub is_entry : Bytes → Bool
is_entry p = not (is_empty p) && not (is_dot p) && not (is_dot_dot p) && has_no_slash p

abbrev pub absolute : List Bytes → Bytes
absolute ps = slash ∷ join ps

clean_parts-entries :
    (kept ps : List Bytes) → all is_entry ps ≡ true → clean_parts true kept ps ≡ kept ++ ps
unfolding clean_parts clean_step
clean_parts-entries kept [] h = sym (append-nil kept)
clean_parts-entries kept (p ∷ ps) h =
    ground (arith, clean_parts-entries (kept ++ p ∷ []) ps, append_assoc kept (p ∷ []) ps)

-- An empty element at the end, as a trailing slash leaves it, does not count.
clean_parts-trailing :
    (kept ps : List Bytes)
    → all is_entry ps ≡ true
    → clean_parts true kept (ps ++ [] ∷ []) ≡ kept ++ ps
unfolding clean_parts clean_step
clean_parts-trailing kept [] h = sym (append-nil kept)
clean_parts-trailing kept (p ∷ ps) h =
    ground (arith, clean_parts-trailing (kept ++ p ∷ []) ps, append_assoc kept (p ∷ []) ps)

init-append : (ps : List Bytes) (p : Bytes) → init (ps ++ p ∷ []) ≡ ps
init-append [] p = refl
init-append (q ∷ []) p = refl
init-append (q ∷ r ∷ ps) p = ap (λ l. q ∷ l) (init-append (r ∷ ps) p)

last_proper-append :
    (found : Option Bytes) (ps : List Bytes) (p : Bytes)
    → is_entry p ≡ true
    → last_proper found (ps ++ p ∷ []) ≡ some p
last_proper-append found [] p h = ground arith
last_proper-append found (q ∷ ps) p h =
    last_proper-append (if is_empty q then found else some q) ps p h

entries-slash : (ps : List Bytes) → all is_entry ps ≡ true → all has_no_slash ps ≡ true
entries-slash [] h = refl
entries-slash (p ∷ ps) h = ground (arith, entries-slash ps)

all-append :
    (ps : List Bytes) (p : Bytes)
    → all is_entry (ps ++ p ∷ []) ≡ true
    → (all is_entry ps ≡ true) × (is_entry p ≡ true)
all-append [] p h = (refl, ground arith)
all-append (q ∷ ps) p h = let (k, l) = all-append ps p (ground arith) in (ground arith, l)

append-ne-nil : (ps : List Bytes) (p : Bytes) → ps ++ p ∷ [] ≢ []
append-ne-nil [] p e = cc
append-ne-nil (q ∷ ps) p e = cc

is_rooted-join : (ps : List Bytes) → is_rooted (join ([] ∷ ps) ++ slash ∷ []) ≡ true
unfolding join
is_rooted-join [] = refl
is_rooted-join (p ∷ ps) = refl

split-join-slash :
    (ps : List Bytes)
    → all is_entry ps ≡ true
    → split (join ([] ∷ ps) ++ slash ∷ []) ≡ [] ∷ (ps ++ [] ∷ [])
unfolding split
split-join-slash ps h =
    split-append_slash (join ([] ∷ ps)) []
    ∙ ap (λ l. l ++ split []) (split-join ([] ∷ ps) (λ e. cc) (entries-slash ps h))

clean-absolute :
    (ps : List Bytes) → all is_entry ps ≡ true → clean (join ([] ∷ ps) ++ slash ∷ []) ≡ absolute ps
unfolding clean clean_parts clean_step render
clean-absolute ps h = rw (is_rooted-join ps, split-join-slash ps h, clean_parts-trailing [] ps h)

module _ (ps : List Bytes) (p : Bytes) (entries : all is_entry (ps ++ p ∷ []) ≡ true) where
  split-absolute : split (absolute (ps ++ p ∷ [])) ≡ ([] ∷ ps) ++ p ∷ []
  unfolding split
  split-absolute =
      ap (λ l. [] ∷ l)
        (split-join (ps ++ p ∷ []) (append-ne-nil ps p) (entries-slash (ps ++ p ∷ []) entries))

  pub base-absolute : base (absolute (ps ++ p ∷ [])) ≡ p
  unfolding base
  base-absolute =
      let last = last_proper-append none ([] ∷ ps) p (all-append ps p entries).1 in
      ground (arith, split-absolute, last)

  up_to_slash-absolute : up_to_slash (absolute (ps ++ p ∷ [])) ≡ join ([] ∷ ps) ++ slash ∷ []
  unfolding up_to_slash
  up_to_slash-absolute = rw (split-absolute, init-append ([] ∷ ps) p)

  pub dir-absolute : dir (absolute (ps ++ p ∷ [])) ≡ absolute ps
  unfolding dir
  dir-absolute = rw up_to_slash-absolute (clean-absolute ps (all-append ps p entries).0)
