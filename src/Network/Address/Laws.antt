-- ===== src/Network/Address/Laws.antt =====
-- The addresses of sandboxes are well formed, distinct, and closed to other sandboxes.
use sandcube.Prelude.{ℕ, ◌+◌, ◌-◌, ◌*◌, ◌%◌, ◌≤◌, ◌<◌, ◌≡◌, true, arith}
use sandcube.Network.Address.{
  Address, pool_size, block_offset, address_in, guest_of, is_protected, is_sandbox_address,
}

block_bounds :
    (start offset : ℕ) → (block_offset start offset % 4 ≡ 0) × (block_offset start offset < 131072)
unfolding block_offset
block_bounds start offset = omega arith

-- Two rounds of one search try different blocks.
block_offset-injective :
    (start i j : ℕ)
    → i < pool_size
    → j < pool_size
    → block_offset start i ≡ block_offset start j
    → i ≡ j
unfolding block_offset
block_offset-injective start i j hi hj e = omega arith

guest_injective :
    (v w : ℕ) → v < 131072 → w < 131072 → v % 4 ≡ 0 → w % 4 ≡ 0 → guest_of v ≡ guest_of w → v ≡ w
unfolding address_in
guest_injective v w hv hw mv mw e = ground arith

octets :
    (v host : ℕ)
    → v % 4 ≡ 0
    → v < 131072
    → host ≤ 3
    → ((address_in v host).b ≤ 19)
      × ((address_in v host).c ≤ 255)
      × ((address_in v host).d ≤ 255)
      × (18 ≤ (address_in v host).b)
unfolding address_in
octets v host m h k = omega arith

sandbox_address :
    (v host : ℕ) → v % 4 ≡ 0 → v < 131072 → host ≤ 3 → is_sandbox_address (address_in v host) ≡ true
unfolding address_in is_sandbox_address
sandbox_address v host m h k = ground arith

sandbox-protected : (i : Address) → is_sandbox_address i ≡ true → is_protected i ≡ true
unfolding is_sandbox_address is_protected
sandbox-protected i h = ground arith

-- Whatever the hash says and in whatever round, the addresses 0 to 3 of a block are proper dotted quads in
-- 198.18.0.0/15, pass the address test of the conntrack cleanup, and are among the destinations that
-- the firewall of every sandbox drops.
address_in-pool :
    (start offset host : ℕ)
    → host ≤ 3
    → let i = address_in (block_offset start offset) host in
      (i.b ≤ 255)
      × (i.c ≤ 255)
      × (i.d ≤ 255)
      × (is_sandbox_address i ≡ true)
      × (is_protected i ≡ true)
address_in-pool start offset host h =
    let v = block_offset start offset in
    let (m, k) = block_bounds start offset in
    let fits = octets v host m k h in
    let inside = sandbox_address v host m k h in
    (omega arith, omega arith, omega arith, inside, sandbox-protected (address_in v host) inside)

-- In one search of at most the size of the pool, rounds with the same guest address are the same
-- round: no address is tried twice.
guest_of-injective :
    (start i j : ℕ)
    → i < pool_size
    → j < pool_size
    → guest_of (block_offset start i) ≡ guest_of (block_offset start j)
    → i ≡ j
guest_of-injective start i j hi hj e =
    let (m, k) = block_bounds start i in
    let (m', k') = block_bounds start j in
    block_offset-injective start i j hi hj (guest_injective _ _ k k' m m' e)

-- The round in which a search comes to the block number `k`.
abbrev round_of : ℕ → ℕ → ℕ
round_of start k = (k + pool_size - start % pool_size) % pool_size

-- Every block of the pool is tried in some round of a search over the size of the pool.
block_offset-round_of :
    (start k : ℕ)
    → k < pool_size
    → (round_of start k < pool_size) × (block_offset start (round_of start k) ≡ k * 4)
unfolding block_offset
block_offset-round_of start k h = (omega arith, omega arith)
