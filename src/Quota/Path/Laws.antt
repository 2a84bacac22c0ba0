-- ===== src/Quota/Path/Laws.antt =====
-- The directory and the project of a snapshot in the layout of the overlayfs snapshotter.
use sandcube.Prelude.{
  String, str_eq, false, Option, any, ap, ◌∙◌, Bool-cases, inl, inr, ℕ, ◌+◌, ◌*◌, ◌-◌, ◌^◌, ◌≡◌,
  refl, Bool, true, ◌&&◌, none, some, List, [], ◌∷◌, ◌++◌, arith, all, ltb, append_assoc,
  if◌then◌else◌,
}
use sandcube.Exec.{Result, ok, err, message}
use sandcube.Paths.{Bytes, bytes, is_rooted, dir, base, same, after_prefix}
use sandcube.Paths.Absolute.{absolute, is_entry, base-absolute, dir-absolute}
use sandcube.Runtime.Engine.{Mount}
use sandcube.Quota.Path.{
  is_digit, decimal_from, parse_uint, upper_option, find_upper, quota_path_of, snapshot_quota_path,
  accept_project,
}

-- `d` reads as the number `n` in decimal.
abbrev pub value : ℕ → Bytes → ℕ
value n [] = n
value n (c ∷ s) = value (n * 10 + (c - 48)) s

decimal_from-value :
    (n : ℕ) (d : Bytes) → decimal_from n d ≡ (if all is_digit d then some (value n d) else none)
unfolding decimal_from
decimal_from-value n [] = refl
decimal_from-value n (c ∷ d) = ground (arith, decimal_from-value (n * 10 + (c - 48)) d)

-- An ID that names a project.
abbrev pub is_project : Bytes → Bool
is_project d = all is_digit d && ltb 0 (value 0 d) && ltb (value 0 d) (2 ^ 32)

abbrev refused : Result (Bytes × ℕ)
refused = err (message "unsupported snapshot quota path")

accept_parsed :
    (upper d : Bytes)
    → is_rooted upper ≡ true
    → accept_project upper (parse_uint d) ≡ (
        if is_project d && same (base upper) (bytes "fs")
        then ok (dir upper, value 0 d)
        else refused)
unfolding parse_uint
accept_parsed upper [] r = refl
accept_parsed upper (c ∷ d) r = ground (arith, decimal_from-value 0 (c ∷ d))

entries_last :
    (ps : List Bytes) (d leaf : Bytes)
    → all is_entry (ps ++ d ∷ leaf ∷ []) ≡ true
    → all is_entry (ps ++ d ∷ []) ≡ true
entries_last [] d leaf h = ground arith
entries_last (p ∷ ps) d leaf h = ground (arith, entries_last ps d leaf)

found_path_lem :
    (ms : List Mount) (ps : List Bytes) (d leaf : Bytes)
    → all is_entry (ps ++ d ∷ leaf ∷ []) ≡ true
    → find_upper ms ≡ some (absolute (ps ++ d ∷ leaf ∷ []))
    → snapshot_quota_path ms ≡ (
        if is_project d && same leaf (bytes "fs")
        then ok (absolute (ps ++ d ∷ []), value 0 d)
        else err (message "unsupported snapshot quota path"))
unfolding snapshot_quota_path quota_path_of
found_path_lem ms ps d leaf h e =
    let assoc = append_assoc ps (d ∷ []) (leaf ∷ []) in
    let entries : all is_entry ((ps ++ d ∷ []) ++ leaf ∷ []) ≡ true = rw assoc h in
    let upper = absolute ((ps ++ d ∷ []) ++ leaf ∷ []) in
    ground (
      arith,
      assoc,
      e,
      dir-absolute (ps ++ d ∷ []) leaf entries,
      base-absolute (ps ++ d ∷ []) leaf entries,
      base-absolute ps d (entries_last ps d leaf h),
      accept_parsed upper d refl,
    )

abbrev is_found : Option Bytes → Bool
is_found none = false
is_found (some s) = true

none_behind :
    (o : Option Bytes) (rest : Option Bytes)
    → is_found o ≡ false
    → elim o [ some upper ↦ some upper | none ↦ rest ] ≡ rest
none_behind none rest h = refl
none_behind (some s) rest h = absurd (ground (arith, h))

none_found : (o rest : Option Bytes) → o ≡ none → elim o [ some u ↦ some u | none ↦ rest ] ≡ rest
none_found none rest e = refl
none_found (some u) rest e = cc

found_first :
    (o rest : Option Bytes) (upper : Bytes)
    → o ≡ some upper
    → elim o [ some u ↦ some u | none ↦ rest ] ≡ some upper
found_first none rest upper e = cc
found_first (some u) rest upper e = e

when_overlay :
    (b : Bool) (o : Option Bytes) (upper : Bytes)
    → b ≡ true
    → o ≡ some upper
    → (if b then o else none) ≡ some upper
when_overlay true o upper h e = e
when_overlay false o upper h e = cc

-- Whether an option names an upper directory.
abbrev pub names_upper : String → Bool
names_upper o = is_found (after_prefix (bytes "upperdir=") (bytes o))

abbrev pub has_upper : Mount → Bool
has_upper m = str_eq m.kind "overlay" && any names_upper m.options

upper_option_lem :
    (os os' : List String) (o : String) (upper : Bytes)
    → any names_upper os ≡ false
    → after_prefix (bytes "upperdir=") (bytes o) ≡ some upper
    → upper_option (os ++ o ∷ os') ≡ some upper
unfolding upper_option
upper_option_lem [] os' o upper h e =
    found_first (after_prefix (bytes "upperdir=") (bytes o)) _ upper e
upper_option_lem (p ∷ os) os' o upper h e =
    none_behind (after_prefix (bytes "upperdir=") (bytes p)) _ (ground (arith, h))
    ∙ upper_option_lem os os' o upper (ground (arith, h)) e

no_upper : (os : List String) → any names_upper os ≡ false → upper_option os ≡ none
unfolding upper_option
no_upper [] h = refl
no_upper (p ∷ os) h =
    none_behind (after_prefix (bytes "upperdir=") (bytes p)) _ (ground (arith, h))
    ∙ no_upper os (ground (arith, h))

without_upper :
    (m : Mount)
    → has_upper m ≡ false
    → (if str_eq m.kind "overlay" then upper_option m.options else none) ≡ none
without_upper m h = elim (Bool-cases (str_eq m.kind "overlay")) [
  | inl kind ↦ rw kind (no_upper m.options (ground (arith, h, kind)))
  | inr other ↦ rw other refl
]

find_upper_lem :
    (before rest : List Mount) (m : Mount) (upper : Bytes)
    → any has_upper before ≡ false
    → str_eq m.kind "overlay" ≡ true
    → upper_option m.options ≡ some upper
    → find_upper (before ++ m ∷ rest) ≡ some upper
unfolding find_upper
find_upper_lem [] rest m upper h k e =
    found_first (if str_eq m.kind "overlay" then upper_option m.options else none) _ upper
      (when_overlay (str_eq m.kind "overlay") _ upper k e)
find_upper_lem (n ∷ before) rest m upper h k e =
    none_found (if str_eq n.kind "overlay" then upper_option n.options else none) _
      (without_upper n (ground (arith, h)))
    ∙ find_upper_lem before rest m upper (ground (arith, h)) k e

-- Where the first overlay mount with an option `upperdir=` has there, as its first such option, a clean
-- absolute path of two or more elements, the quota is put on the directory above it, with the name of
-- that directory as the project, if the name is decimal, positive and below 2^32 and the upper
-- directory is called `fs`; and else it is refused.
pub snapshot_quota_path_lem :
    (before rest : List Mount) (m : Mount) (os os' : List String) (o : String) (ps : List Bytes)
    (d leaf : Bytes)
    → any has_upper before ≡ false
    → str_eq m.kind "overlay" ≡ true
    → m.options ≡ os ++ o ∷ os'
    → any names_upper os ≡ false
    → after_prefix (bytes "upperdir=") (bytes o) ≡ some (absolute (ps ++ d ∷ leaf ∷ []))
    → all is_entry (ps ++ d ∷ leaf ∷ []) ≡ true
    → snapshot_quota_path (before ++ m ∷ rest) ≡ (
        if is_project d && same leaf (bytes "fs")
        then ok (absolute (ps ++ d ∷ []), value 0 d)
        else err (message "unsupported snapshot quota path"))
snapshot_quota_path_lem before rest m os os' o ps d leaf none_before kind opts none_first e h =
    found_path_lem (before ++ m ∷ rest) ps d leaf h (
      find_upper_lem before rest m _ none_before kind
        (ap upper_option opts ∙ upper_option_lem os os' o _ none_first e))
