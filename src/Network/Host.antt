-- ===== src/Network/Host.antt =====
-- What services/containerd-runtime/network.go asks of the host: files, and the tools `ip`, `nft` and
-- `conntrack`. The JSON that they print is a parameter too, so a listing is what it decodes to.
use sandcube.Prelude.{ℕ, String, List, Option}
use sandcube.Exec.{Exec, Result}
use sandcube.Paths.{Bytes}
use sandcube.Network.Address.{Address}

-- `networkRecord`
pub record NetworkRecord : Type 0 where
  pub id : String
  pub name : String
  pub guest : Bytes
  pub gateway : Bytes
  pub subnet : Bytes

-- How a run of a tool ended: its exit code, or no exit code; with its output.
pub data Run : Type 0 where
  exited : ℕ → Bytes → Run
  broken : Bytes → Run

pub record Host (W : Type 0) : Type 0 where
  pub lock : Exec W (Unit {0})
  pub read_journal : String → Exec W Bytes
  pub decode_record : Bytes → Result NetworkRecord
  pub write_journal : String → NetworkRecord → Exec W (Unit {0})
  pub remove_journal : String → Exec W (Unit {0})
  pub make_network_dir : Exec W (Unit {0})
  pub make_sandbox_dir : String → Exec W (Unit {0})
  pub remove_sandbox_dir : String → Exec W (Unit {0})
  pub write_resolver : String → Bytes → Exec W (Unit {0})
  -- `ip -j link show`, and `ip link delete`
  pub list_links : Exec W (List String)
  pub delete_link : String → Exec W (Unit {0})
  -- os.Stat of the name under /run/netns, and `ip netns delete`
  pub stat_namespace : String → Exec W (Unit {0})
  pub delete_namespace : String → Exec W (Unit {0})
  -- `conntrack -D -f ipv4` with one of the two direction flags
  pub run_conntrack : String → Bytes → W → Run × W
  -- `nft -j list tables`: families and names; `nft delete table inet`
  pub list_tables : Exec W (List (String × String))
  pub delete_table : String → Exec W (Unit {0})
  -- `nft -j list ruleset`
  pub list_ruleset : Exec W Bytes
  -- how many routes `ip -j route show exact` lists
  pub show_routes : Bytes → Exec W ℕ
  -- `nft -f -` with its input
  pub load_firewall : Bytes → Exec W (Unit {0})
  pub run_command : List Bytes → Exec W (Unit {0})
  -- netip.ParseAddr, for IPv4
  pub parse_address : Bytes → Option Address
  -- the start of the hash of the namespace and the ID, in hexadecimal, and two bytes of the name's
  pub network_name : String → String
  pub hash_start : String → ℕ
