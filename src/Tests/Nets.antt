-- ===== src/Tests/Nets.antt =====
-- The theorem on the removal of a network, at a network with tracked connections.
use sandcube.Prelude.{
  String, str_eq, ◌≡◌, refl, ◌⊎◌, Bool, true, false, not, ◌&&◌, ◌||◌, [], ◌∷◌, arith,
}
use sandcube.Exec.{ok, OnOk}
use sandcube.Calls.{Call, any_call, done, fresh}
use sandcube.Paths.{Bytes, bytes}
use sandcube.Network.Host.{Host, Run, exited}
use sandcube.Network.Remove.{remove_network}
use sandcube.Network.Remove.Laws.{takes_down}
use sandcube.Network.Remove.Clearing.{IsClearing, remove_network-Safe}
use sandcube.Tests.Disks.{give}
use sandcube.Tests.Samples.{network_host}

-- A network whose firewall is there or not, and whether a connection of its address is tracked, by
-- the direction.
record Net : Type 0 where
  table : Bool
  src : Bool
  dst : Bool

abbrev is_tracked : String → Bytes → Net → Bool
is_tracked direction address n =
    (str_eq direction "--orig-src" && n.src) || (str_eq direction "--orig-dst" && n.dst)

abbrev clear_net : String → Bytes → Net → Run × Net
clear_net direction address n = (
  exited 0 [],
  record n {
    src = n.src && not (str_eq direction "--orig-src");
    dst = n.dst && not (str_eq direction "--orig-dst");
  },
)

abbrev net_host : Host Net
net_host = record {
  lock = give tt;
  read_journal = λ id. give (bytes "{}");
  decode_record = network_host.decode_record;
  write_journal = λ id n. give tt;
  remove_journal = λ id. give tt;
  make_network_dir = give tt;
  make_sandbox_dir = λ id. give tt;
  remove_sandbox_dir = λ id. give tt;
  write_resolver = λ id b. give tt;
  list_links = give ("sc1" ∷ "eth0" ∷ []);
  delete_link = λ n. give tt;
  stat_namespace = λ n. give tt;
  delete_namespace = λ n. give tt;
  run_conntrack = clear_net;
  list_tables = give (("inet", "sc1") ∷ []);
  delete_table = λ name n. (ok tt, record n { table = false });
  list_ruleset = give (bytes "{}");
  show_routes = λ s. give 0;
  load_firewall = λ n. give tt;
  run_command = λ args. give tt;
  parse_address = network_host.parse_address;
  network_name = network_host.network_name;
  hash_start = network_host.hash_start;
}

-- Without its firewall, no connection of its address is tracked.
abbrev IsShut : Net → Type 0
IsShut n = (n.table || (not n.src && not n.dst)) ≡ true

net_host-IsClearing : IsClearing net_host (λ name. bytes "198.18.0.6") is_tracked IsShut
net_host-IsClearing = record {
  read_lem = λ n id h own. refl;
  cleared_lem = λ n direction address h. ground arith;
  conntrack_keeps = λ n direction other address h. ground (arith, h);
  tables_keep = λ direction address. record { from = λ n h. h };
  table_keeps = λ direction name address. record { from = λ n h. h };
  directory_keeps = λ direction id address. record { from = λ n h. h };
  journal_keeps = λ direction id address. record { from = λ n h. h };
  lock-Safe = record { from = λ n h. h };
  read-Safe = λ id. record { from = λ n h. h };
  links-Safe = record { from = λ n h. h };
  link-Safe = λ name. record { from = λ n h. h };
  stat-Safe = λ name. record { from = λ n h. h };
  namespace-Safe = λ name. record { from = λ n h. h };
  conntrack-Safe = λ n direction address h. ground (arith, h);
  tables-Safe = record { from = λ n h. h };
  directory-Safe = λ id. record { from = λ n h. h };
  table-Safe = λ n name h src dst. ground (arith, h, src, dst);
  journal-Safe = λ n id h src dst. h;
}

abbrev busy_net : Net
busy_net = record { table = true; src = true; dst = true }

remove_network-Safe_example :
    let (r, s) = remove_network net_host "sbx_a" (fresh busy_net) in
    IsShut s.world
    × OnOk
        (λ _. (any_call takes_down s.calls ≡ false) ⊎ (done Call.remove_journal s.calls ≡ true))
        r
remove_network-Safe_example = remove_network-Safe net_host-IsClearing "sbx_a" busy_net refl
