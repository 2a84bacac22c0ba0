-- ===== src/Network/Setup.antt =====
-- `setupNetwork` of services/containerd-runtime/network.go.
pub mod Laws
use sandcube.Prelude.{
  ℕ, zero, suc, ◌+◌, ◌%◌, String, Bool, true, false, ◌||◌, Option, none, some, List, [], ◌∷◌, ◌++◌,
  ltb, if◌then◌else◌,
}
use sandcube.Exec.{Err, Result, ok, err, Exec, message, pure, raise, lift, for_each, ◌>>=◌, ◌>>◌}
use sandcube.Paths.{Bytes, bytes, contains}
use sandcube.Calls.{Call, Sys, call}
use sandcube.Network.Address.{
  Address, pool_size, block_offset, subnet_of, gateway_of, guest_of, dotted,
}
use sandcube.Network.Host.{Host, NetworkRecord}
use sandcube.Network.Firewall.{firewall}
use sandcube.Network.Remove.{remove_network_locked}

abbrev pub quoted : Bytes → Bytes
quoted s = b'"' ∷ (s ++ b'"' ∷ [])

abbrev words : List String → List Bytes
words [] = []
words (s ∷ ss) = bytes s ∷ words ss

abbrev map_words : List String → List Bytes → List Bytes
map_words ss rest = words ss ++ rest

-- The nine commands behind the firewall, in their order.
unfoldable pub setup_commands : Bytes → Bytes → Bytes → List (List Bytes)
setup_commands name gateway guest =
    map_words ("ip" ∷ "netns" ∷ "add" ∷ []) (name ∷ [])
    ∷ (map_words ("ip" ∷ "link" ∷ "add" ∷ []) (name ∷ [])
        ++ map_words ("type" ∷ "veth" ∷ "peer" ∷ "name" ∷ "eth0" ∷ "netns" ∷ []) (name ∷ []))
    ∷ (map_words ("ip" ∷ "addr" ∷ "add" ∷ []) ((gateway ++ bytes "/30") ∷ bytes "dev" ∷ name ∷ []))
    ∷ (map_words ("ip" ∷ "netns" ∷ "exec" ∷ []) (name ∷ [])
        ++ map_words
            ("sysctl" ∷ "-qw" ∷ "net.ipv6.conf.all.disable_ipv6=1"
              ∷ "net.ipv6.conf.default.disable_ipv6=1" ∷ [])
            [])
    ∷ (map_words ("ip" ∷ "-n" ∷ []) (name ∷ [])
        ++ map_words ("addr" ∷ "add" ∷ [])
            ((guest ++ bytes "/30") ∷ bytes "dev" ∷ bytes "eth0" ∷ []))
    ∷ (map_words ("ip" ∷ "-n" ∷ []) (name ∷ []) ++ map_words ("link" ∷ "set" ∷ "lo" ∷ "up" ∷ []) [])
    ∷ (map_words ("ip" ∷ "-n" ∷ []) (name ∷ [])
        ++ map_words ("link" ∷ "set" ∷ "eth0" ∷ "up" ∷ []) [])
    ∷ (map_words ("ip" ∷ "-n" ∷ []) (name ∷ [])
        ++ map_words ("route" ∷ "add" ∷ "default" ∷ "via" ∷ []) (gateway ∷ []))
    ∷ (map_words ("ip" ∷ "link" ∷ "set" ∷ []) (name ∷ bytes "up" ∷ []))
    ∷ []

module _ {W : Type 0} (host : Host W) where
  -- The loop over the blocks, for so many rounds from the round `offset`: the first block with no
  -- route whose guest address no firewall names.
  unfoldable pub find_block : Bytes → ℕ → ℕ → ℕ → Exec (Sys W) (Option ℕ)
  find_block state start zero offset = pure none
  find_block state start (suc rounds) offset =
      let v = block_offset start offset in
      let next = find_block state start rounds (offset + 1) in
      call Call.show_routes (host.show_routes (dotted (subnet_of v) ++ bytes "/30")) >>= λ routes.
      if ltb 0 routes || contains state (quoted (dotted (guest_of v))) then next else pure (some v)

  abbrev record_for : String → ℕ → NetworkRecord
  record_for id v = record {
    id = id;
    name = host.network_name id;
    guest = dotted (guest_of v);
    gateway = dotted (gateway_of v);
    subnet = dotted (subnet_of v) ++ bytes "/30";
  }

  -- From the chosen block to the finished network.
  unfoldable pub establish : String → Option ℕ → Exec (Sys W) (Unit {0})
  establish id none = raise (message "sandbox network address pool exhausted")
  establish id (some v) = do
    let n = record_for id v
    call Call.write_journal (host.write_journal id n)
    call Call.load_firewall (host.load_firewall (firewall n))
    for_each (setup_commands (bytes n.name) n.gateway n.guest)
        λ args. call Call.run_command (host.run_command args)
    call Call.make_directory (host.make_sandbox_dir id)
    call Call.write_resolver (
        host.write_resolver id
          (bytes "nameserver 1.1.1.1\nnameserver 8.8.8.8\noptions timeout:2 attempts:2\n"))

  unfoldable pub setup_network : String → Exec (Sys W) (Unit {0})
  setup_network id = do
    call Call.lock_network host.lock
    remove_network_locked host id
    call Call.make_directory host.make_network_dir
    state ← call Call.list_ruleset host.list_ruleset
    block ← find_block state (host.hash_start (host.network_name id) % pool_size) pool_size 0
    establish id block
