-- ===== src/Quota/Path.antt =====
-- `snapshotQuotaPath` of services/containerd-runtime/quota.go.
pub mod Laws
use sandcube.Prelude.{
  ℕ, ◌+◌, ◌-◌, ◌*◌, ◌^◌, String, str_eq, Bool, true, false, not, ◌&&◌, ◌||◌, Option, none, some,
  List, [], ◌∷◌, ltb, leb, ◌==◌, if◌then◌else◌,
}
use sandcube.Exec.{Result, ok, err, message}
use sandcube.Paths.{Bytes, bytes, same, is_rooted, dir, base, after_prefix}
use sandcube.Runtime.Engine.{Mount}

abbrev pub is_digit : ℕ → Bool
is_digit c = leb b'0' c && leb c b'9'

-- The number that decimal digits stand for, behind the number `n`.
unfoldable pub decimal_from : ℕ → Bytes → Option ℕ
decimal_from n [] = some n
decimal_from n (c ∷ s) =
    let rest = decimal_from (n * 10 + (c - 48)) s in if is_digit c then rest else none

abbrev within_32 : Option ℕ → Option ℕ
within_32 none = none
within_32 (some n) = if ltb n (2 ^ 32) then some n else none

-- `strconv.ParseUint(s, 10, 32)`
unfoldable pub parse_uint : Bytes → Option ℕ
parse_uint [] = none
parse_uint (c ∷ s) = within_32 (decimal_from 0 (c ∷ s))

-- The first option with the prefix `upperdir=`, without the prefix.
unfoldable pub upper_option : List String → Option Bytes
upper_option [] = none
upper_option (o ∷ os) = elim (after_prefix (bytes "upperdir=") (bytes o)) [
  | some upper ↦ some upper
  | none ↦ upper_option os
]

unfoldable pub find_upper : List Mount → Option Bytes
find_upper [] = none
find_upper (m ∷ ms) = elim (if str_eq m.kind "overlay" then upper_option m.options else none) [
  | some upper ↦ some upper
  | none ↦ find_upper ms
]

abbrev accept_project : Bytes → Option ℕ → Result (Bytes × ℕ)
accept_project upper none = err (message "unsupported snapshot quota path")
accept_project upper (some id) =
    if id == 0 || not (is_rooted upper) || not (same (base upper) (bytes "fs"))
    then err (message "unsupported snapshot quota path")
    else ok (dir upper, id)

-- The directory that is charged, and its project, which is the name of the directory as a number.
unfoldable pub quota_path_of : Option Bytes → Result (Bytes × ℕ)
quota_path_of none = err (message "writable overlay snapshot required for disk quota")
quota_path_of (some upper) = accept_project upper (parse_uint (base (dir upper)))

unfoldable pub snapshot_quota_path : List Mount → Result (Bytes × ℕ)
snapshot_quota_path ms = quota_path_of (find_upper ms)
