-- ===== src/Server/Limits/Laws.antt =====
-- What the accepted requests look like.
use sandcube.Prelude.{
  String, eq_iff, ℕ, ◌||◌, ◌≤◌, ◌≡◌, refl, ◌↔◌, ◌≢◌, true, false, Option, none, some, List, [], ◌∷◌,
  ◌++◌, arith, length, all,
}
use sandcube.Prelude.Int.{ℤ, pos, negsuc, below, above}
use sandcube.Paths.{Bytes, bytes, slash, dot, split, after_prefix}
use sandcube.Runtime.Types.{Config}
use sandcube.Server.Limits.{is_id_char, id_rest, is_valid_id, is_rejected_config, lacks_program}

id_char-not_slash : (c : ℕ) → is_id_char c ≡ true → c ≢ slash
unfolding is_id_char
id_char-not_slash c h = ground arith

abbrev pub IsId : Bytes → Type 0
IsId s =
    (t : Bytes) × (s ≡ bytes "sbx_" ++ t)
    × (1 ≤ length t)
    × (length t ≤ 80)
    × (all is_id_char t ≡ true)

after_prefix-some : (p s t : Bytes) → after_prefix p s ≡ some t → s ≡ p ++ t
unfolding after_prefix
after_prefix-some [] s t h = ground arith
after_prefix-some (c ∷ p) [] t h = ground arith
after_prefix-some (c ∷ p) (d ∷ s) t h = ground (arith, after_prefix-some p s t)

after_prefix-append : (p t : Bytes) → after_prefix p (p ++ t) ≡ some t
unfolding after_prefix
after_prefix-append [] t = refl
after_prefix-append (c ∷ p) t = ground (arith, after_prefix-append p t)

IsId-rest :
    (s : Bytes) (r : Option Bytes) → after_prefix (bytes "sbx_") s ≡ r → id_rest r ≡ true → IsId s
IsId-rest s none e h = ground arith
IsId-rest s (some t) e h =
    (t, after_prefix-some (bytes "sbx_") s t e, ground arith, ground arith, ground arith)

-- `validID` accepts the prefix `sbx_` followed by 1 to 80 letters, digits, underscores or dashes, and
-- nothing else.
is_valid_id_lem : (s : Bytes) → (is_valid_id s ≡ true) ↔ IsId s
unfolding is_valid_id
is_valid_id_lem s =
    (IsId-rest s _ refl, λ (t, e, l, u, a). ground (arith, after_prefix-append (bytes "sbx_") t))

id_chars-split : (c : ℕ) (s : Bytes) → all is_id_char (c ∷ s) ≡ true → split (c ∷ s) ≡ (c ∷ s) ∷ []
unfolding split is_id_char
id_chars-split c [] h = ground arith
id_chars-split c (d ∷ s) h = ground (arith, id_chars-split d s)

-- A valid ID is one element of a path, neither `.` nor `..`: a file that is named by an ID stands in the
-- directory that it is joined to.
valid_id-split :
    (s : Bytes) → is_valid_id s ≡ true → (split s ≡ s ∷ []) × (s ≢ dot ∷ []) × (s ≢ dot ∷ dot ∷ [])
unfolding is_id_char
valid_id-split s h =
    let (t, e, l, u, a) = (is_valid_id_lem s).0 h in
    (ground (arith, id_chars-split b's' (b'b' ∷ b'x' ∷ b'_' ∷ t)), ground arith, ground arith)

abbrev pub IsBetween : ℕ → ℕ → ℤ → Type 0
IsBetween lo hi (pos n) = (lo ≤ n) × (n ≤ hi)
IsBetween lo hi (negsuc n) = ⊥

abbrev pub HasProgram : List String → Type 0
HasProgram [] = ⊥
HasProgram (s ∷ ss) = s ≢ ""

abbrev pub IsAccepted : Config → Type 0
IsAccepted c =
    IsId (bytes c.id)
    × (c.image ≢ "")
    × HasProgram c.command
    × IsBetween 1 64 c.cpu
    × IsBetween 16 1048576 c.disk_mb
    × IsBetween 16 262144 c.memory_mb
    × IsBetween 1 65536 c.pids

IsBetween-to : (lo hi : ℕ) (z : ℤ) → below z lo ≡ false → above z hi ≡ false → IsBetween lo hi z
IsBetween-to lo hi (pos n) h k = (ground arith, ground arith)
IsBetween-to lo hi (negsuc n) h k = ground arith

between_from : (lo hi : ℕ) (z : ℤ) → IsBetween lo hi z → (below z lo || above z hi) ≡ false
between_from lo hi (pos n) (h, k) = ground arith
between_from lo hi (negsuc n) h = absurd h

program_iff : (c : List String) → (lacks_program c ≡ false) ↔ HasProgram c
program_iff [] = ground arith
program_iff (s ∷ ss) = ground (arith, eq_iff s "")

module _ (c : Config) where
  IsAccepted-to : is_rejected_config c ≡ false → IsAccepted c
  unfolding is_rejected_config
  IsAccepted-to h = (
    (is_valid_id_lem (bytes c.id)).0 (ground arith),
    ground (arith, eq_iff c.image ""),
    (program_iff c.command).0 (ground arith),
    IsBetween-to 1 64 c.cpu (ground arith) (ground arith),
    IsBetween-to 16 1048576 c.disk_mb (ground arith) (ground arith),
    IsBetween-to 16 262144 c.memory_mb (ground arith) (ground arith),
    IsBetween-to 1 65536 c.pids (ground arith) (ground arith),
  )

  accepted_from : IsAccepted c → is_rejected_config c ≡ false
  unfolding is_rejected_config
  accepted_from (i, m, p, cpu, disk, memory, pids) = ground (
    arith,
    (is_valid_id_lem (bytes c.id)).1 i,
    eq_iff c.image "",
    (program_iff c.command).1 p,
    between_from 1 64 c.cpu cpu,
    between_from 16 1048576 c.disk_mb disk,
    between_from 16 262144 c.memory_mb memory,
    between_from 1 65536 c.pids pids,
  )

-- A configuration passes the check of the `POST /containers` handler where its ID is valid, it names an
-- image and a program, and its four limits are within their bounds; and no other passes.
pub is_rejected_config_lem : (c : Config) → (is_rejected_config c ≡ false) ↔ IsAccepted c
is_rejected_config_lem c = (IsAccepted-to c, accepted_from c)
