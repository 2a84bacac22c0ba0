-- ===== src/Network/Setup/Laws.antt =====
-- The order in which a network is set up, and the block that it takes.
use sandcube.Prelude.{
  ℕ, zero, suc, ◌+◌, ◌<◌, String, ◌≡◌, true, false, ltb, ◌||◌, Option, none, some, arith,
}
use sandcube.Exec.{OnOk, OnOk-map, OnOk-succeeded}
use sandcube.Exec.Rules.{
  Preserves, Achieves, Preserves-bind, Preserves-if, Preserves-pure, achieves_rules,
}
use sandcube.Exec.Outcomes.{Gives, Gives-pure, Gives-if, Gives-bind}
use sandcube.Paths.{Bytes, contains}
use sandcube.Calls.{Call, Sys, done, fresh, Follows, same_call}
use sandcube.Calls.Laws.{call_rules, Achieves-call, Follows-call}
use sandcube.Network.Address.{block_offset, guest_of, dotted}
use sandcube.Network.Host.{Host}
use sandcube.Network.Remove.Laws.{Ordered, is_removal, remove_keeps}
use sandcube.Network.Setup.{quoted, find_block, establish, setup_network}

other_load_firewall : (e : Call) → is_removal e ≡ true → same_call Call.load_firewall e ≡ false
other_load_firewall e h = ground arith

other_run_command : (e : Call) → is_removal e ≡ true → same_call Call.run_command e ≡ false
other_run_command e h = ground arith

other_write_resolver : (e : Call) → is_removal e ≡ true → same_call Call.write_resolver e ≡ false
other_write_resolver e h = ground arith

module _ {W : Type 0} (host : Host W) where
  find_block_keeps :
      (c d : Call)
      → same_call c Call.show_routes ≡ false
      → (state : Bytes) (start rounds offset : ℕ)
      → Preserves (Ordered c d) (find_block host state start rounds offset)
  unfolding find_block
  find_block_keeps c d h state start zero offset = search call_rules depth 8
  find_block_keeps c d h state start (suc rounds) offset =
      Preserves-bind _ _ (Follows-call Call.show_routes c d _ h) λ routes.
        Preserves-if _ _ _ (find_block_keeps c d h state start rounds (offset + 1))
          (Preserves-pure _)

  ruleset setup_rules = (
    call_rules, find_block_keeps, remove_keeps, other_load_firewall, other_run_command,
    other_write_resolver,
  )

  establish-load_firewall :
      (id : String) (v : Option ℕ)
      → Preserves (Ordered Call.load_firewall Call.write_journal) (establish host id v)
  unfolding establish
  establish-load_firewall id none = search call_rules depth 8
  establish-load_firewall id (some v) = search call_rules depth 12

  establish-run_command :
      (id : String) (v : Option ℕ)
      → Preserves (Ordered Call.run_command Call.load_firewall) (establish host id v)
  unfolding establish
  establish-run_command id none = search call_rules depth 8
  establish-run_command id (some v) = search call_rules depth 12

  establish-write_resolver :
      (id : String) (v : Option ℕ)
      → Preserves (Ordered Call.write_resolver Call.load_firewall) (establish host id v)
  unfolding establish
  establish-write_resolver id none = search call_rules depth 8
  establish-write_resolver id (some v) = search call_rules depth 12

  establish-done :
      (id : String) (v : Option ℕ)
      → Achieves (λ (s : Sys W). done Call.write_resolver s.calls ≡ true) (establish host id v)
  unfolding establish
  establish-done id none = search (achieves_rules, Achieves-call) depth 8
  establish-done id (some v) = search (achieves_rules, Achieves-call) depth 12

  setup-load_firewall :
      (id : String)
      → Preserves (Ordered Call.load_firewall Call.write_journal) (setup_network host id)
  unfolding setup_network
  setup-load_firewall id = search (setup_rules, establish-load_firewall) depth 12

  setup-run_command :
      (id : String)
      → Preserves (Ordered Call.run_command Call.load_firewall) (setup_network host id)
  unfolding setup_network
  setup-run_command id = search (setup_rules, establish-run_command) depth 12

  setup-write_resolver :
      (id : String)
      → Preserves (Ordered Call.write_resolver Call.load_firewall) (setup_network host id)
  unfolding setup_network
  setup-write_resolver id = search (setup_rules, establish-write_resolver) depth 12

  setup-done :
      (id : String)
      → Achieves (λ (s : Sys W). done Call.write_resolver s.calls ≡ true) (setup_network host id)
  unfolding setup_network
  setup-done id = search (achieves_rules, Achieves-call, establish-done) depth 12

  -- Setting a network up, whatever the tools answer: the firewall is loaded only after the record of
  -- the network is durable, and the interface and the resolver are made only after the firewall has
  -- been loaded; and where it reports success, it has run to its last step.
  pub setup_network_order :
      (id : String) (w : W)
      → let (r, s) = setup_network host id (fresh w) in
        Follows Call.load_firewall Call.write_journal s.calls
        × Follows Call.run_command Call.load_firewall s.calls
        × Follows Call.write_resolver Call.load_firewall s.calls
        × OnOk (λ _. done Call.write_resolver s.calls ≡ true) r
  setup_network_order id w = (
    (setup-load_firewall id).from _ tt,
    (setup-run_command id).from _ tt,
    (setup-write_resolver id).from _ tt,
    OnOk-succeeded _ ((setup-done id).from _),
  )

-- A block that the loop reaches within so many rounds, whose guest address no firewall names.
abbrev IsFree : Bytes → ℕ → ℕ → ℕ → Option ℕ → Type 0
IsFree state start rounds offset none = Unit
IsFree state start rounds offset (some v) =
    ((k : ℕ) × (k < rounds) × (v ≡ block_offset start (offset + k)))
    × (contains state (quoted (dotted (guest_of v))) ≡ false)

IsFree-suc :
    (state : Bytes) (start rounds offset : ℕ) (v : Option ℕ)
    → IsFree state start rounds (offset + 1) v
    → IsFree state start (suc rounds) offset v
IsFree-suc state start rounds offset none h = tt
IsFree-suc state start rounds offset (some v) ((k, l, e), f) =
    ((suc k, omega arith, ground arith), f)

module _ {W : Type 0} (host : Host W) where
  find_block-Gives :
      (state : Bytes) (start rounds offset : ℕ)
      → Gives (IsFree state start rounds offset) (find_block host state start rounds offset)
  unfolding find_block
  find_block-Gives state start zero offset = Gives-pure none tt
  find_block-Gives state start (suc rounds) offset =
      let v = block_offset start offset in
      let later = find_block-Gives state start rounds (offset + 1) in
      Gives-bind _ _ λ routes.
        Gives-if (ltb 0 routes || contains state (quoted (dotted (guest_of v)))) _ _
          record { from = λ s. OnOk-map (IsFree-suc state start rounds offset) _ (later.from s) }
          λ e. Gives-pure (some v) ((zero, omega arith, ground arith), ground arith)

  -- What the loop gives is a block of one of its rounds, and no firewall in the listing names the
  -- guest address of that block.
  find_block-IsFree :
      (state : Bytes) (start rounds offset : ℕ) (s : Sys W)
      → OnOk (IsFree state start rounds offset) (find_block host state start rounds offset s).0
  find_block-IsFree state start rounds offset s =
      (find_block-Gives state start rounds offset).from s
