-- ===== src/Network/Address.antt =====
-- The addresses that `setupNetwork` of services/containerd-runtime/network.go gives out: 32768 blocks
-- of four in 198.18.0.0/15, tried in a cyclic order.
pub mod Laws
use sandcube.Prelude.{
  ℕ, ◌+◌, ◌-◌, ◌*◌, ◌/◌, ◌%◌, ◌^◌, Bool, true, false, ◌&&◌, ◌||◌, List, [], ◌∷◌, ◌++◌, ltb, ◌==◌,
  any, if◌then◌else◌,
}
use sandcube.Paths.{Bytes, dot}

pub record Address : Type 0 where
  pub a : ℕ
  pub b : ℕ
  pub c : ℕ
  pub d : ℕ

abbrev pub pool_size : ℕ
pool_size = 32768

-- `v`, for the block that is tried in a given round.
unfoldable pub block_offset : ℕ → ℕ → ℕ
block_offset start offset = ((start + offset) % pool_size) * 4

-- The address with the number `host` in the block at `v`.
unfoldable pub address_in : ℕ → ℕ → Address
address_in v host = record { a = 198; b = 18 + v / 65536; c = (v / 256) % 256; d = v % 256 + host }

abbrev pub subnet_of : ℕ → Address
subnet_of v = address_in v 0

abbrev pub gateway_of : ℕ → Address
gateway_of v = address_in v 1

abbrev pub guest_of : ℕ → Address
guest_of v = address_in v 2

-- `%d` for an octet.
unfoldable pub decimal : ℕ → Bytes
decimal n =
    if ltb n 10
    then (48 + n) ∷ []
    else if ltb n 100
    then (48 + n / 10) ∷ (48 + n % 10) ∷ []
    else (48 + n / 100) ∷ (48 + (n / 10) % 10) ∷ (48 + n % 10) ∷ []

-- `198.%d.%d.%d`
unfoldable pub dotted : Address → Bytes
dotted i = decimal i.a ++ (dot ∷ decimal i.b ++ (dot ∷ decimal i.c ++ (dot ∷ decimal i.d)))

-- An address as one number, and whether the first `bits` bits of two addresses agree.
abbrev pub number_of : Address → ℕ
number_of i = ((i.a * 256 + i.b) * 256 + i.c) * 256 + i.d

unfoldable pub in_prefix : Address → ℕ → Address → Bool
in_prefix base bits i = (number_of base / 2 ^ (32 - bits)) == (number_of i / 2 ^ (32 - bits))

abbrev ip : ℕ → ℕ → ℕ → ℕ → Address
ip a b c d = record { a = a; b = b; c = c; d = d }

-- `protectedIPv4`
abbrev pub protected_prefixes : List (Address × ℕ)
protected_prefixes =
    (ip 0 0 0 0, 8)
    ∷ (ip 10 0 0 0, 8)
    ∷ (ip 100 64 0 0, 10)
    ∷ (ip 127 0 0 0, 8)
    ∷ (ip 169 254 0 0, 16)
    ∷ (ip 172 16 0 0, 12)
    ∷ (ip 192 0 0 0, 24)
    ∷ (ip 192 0 2 0, 24)
    ∷ (ip 192 88 99 0, 24)
    ∷ (ip 192 168 0 0, 16)
    ∷ (ip 198 18 0 0, 15)
    ∷ (ip 198 51 100 0, 24)
    ∷ (ip 203 0 113 0, 24)
    ∷ (ip 224 0 0 0, 4)
    ∷ (ip 240 0 0 0, 4)
    ∷ (ip 168 63 129 16, 32)
    ∷ []

unfoldable pub is_protected : Address → Bool
unfolding in_prefix
is_protected i = any (λ (base, bits). in_prefix base bits i) protected_prefixes

-- The test of `clearConntrack` on a parsed IPv4 address.
unfoldable pub is_sandbox_address : Address → Bool
unfolding in_prefix
is_sandbox_address i = in_prefix (ip 198 18 0 0) 15 i
