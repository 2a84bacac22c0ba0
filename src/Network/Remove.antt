-- ===== src/Network/Remove.antt =====
-- `clearConntrack` and `removeNetworkLocked` of services/containerd-runtime/network.go.
pub mod Laws
pub mod Clearing
use sandcube.Prelude.{
  ℕ, String, str_eq, Bool, true, false, not, ◌&&◌, ◌||◌, Option, none, some, List, [], ◌∷◌, ◌++◌,
  leb, ◌==◌, if◌then◌else◌,
}
use sandcube.Exec.{
  Err, Result, ok, err, Exec, message, not_exist, pure, raise, attempt, handle, lift, skip,
  refuse_if, for_each, ◌>>=◌, ◌>>◌,
}
use sandcube.Paths.{Bytes, bytes, dot, after_prefix}
use sandcube.Calls.{Call, Sys, call}
use sandcube.Network.Address.{Address, is_sandbox_address}
use sandcube.Network.Host.{Host, NetworkRecord, Run, exited, broken}

abbrev is_version_char : ℕ → Bool
is_version_char c = leb b'0' c && leb c b'9' || c == dot

-- `\s` of Go's regular expressions.
abbrev is_space : ℕ → Bool
is_space c = c == 9 || c == 10 || c == 12 || c == 13 || c == 32

abbrev drop_version : Bytes → Bytes
drop_version [] = []
drop_version (c ∷ s) = let rest = drop_version s in if is_version_char c then rest else c ∷ s

abbrev all_space : Bytes → Bool
all_space [] = true
all_space (c ∷ s) = is_space c && all_space s

abbrev starts_version : Bytes → Bool
starts_version [] = false
starts_version (c ∷ s) = is_version_char c

abbrev tail_matches : Option Bytes → Bool
tail_matches none = false
tail_matches (some s) = all_space s

abbrev version_matches : Option Bytes → Bool
version_matches none = false
version_matches (some s) =
    starts_version s
    && tail_matches (
        after_prefix (bytes " (conntrack-tools): 0 flow entries have been deleted.")
          (drop_version s))

-- `noConntrackEntries`
unfoldable pub no_conntrack_entries : Bytes → Bool
unfolding after_prefix
no_conntrack_entries out = version_matches (after_prefix (bytes "conntrack v") out)

-- Whether a run of `conntrack -D` counts as done.
unfoldable pub conntrack_done : Run → Bool
conntrack_done (exited code out) = code == 0 || code == 1 && no_conntrack_entries out
conntrack_done (broken out) = false

abbrev pub is_clearable : Option Address → Bool
is_clearable none = false
is_clearable (some i) = is_sandbox_address i

module _ {W : Type 0} (host : Host W) where
  -- One direction.
  unfoldable pub clear_direction : Bytes → String → Exec W (Unit {0})
  clear_direction guest direction w =
      let (run, w') = host.run_conntrack direction guest w in
      (if conntrack_done run then ok tt else err (message "conntrack cleanup"), w')

  unfoldable pub clear_conntrack : Bytes → Exec (Sys W) (Unit {0})
  clear_conntrack guest = do
    refuse_if (not (is_clearable (host.parse_address guest)))
        (message "invalid sandbox conntrack address")
    for_each ("--orig-src" ∷ "--orig-dst" ∷ [])
        λ direction. call Call.run_conntrack (clear_direction guest direction)

  unfoldable pub delete_named_link : String → String → Exec (Sys W) (Unit {0})
  delete_named_link name link =
      if str_eq link name then call Call.delete_link (host.delete_link name) else skip

  unfoldable pub delete_named_table : String → String × String → Exec (Sys W) (Unit {0})
  delete_named_table name (family, table) =
      if str_eq family "inet" && str_eq table name
      then call Call.delete_table (host.delete_table name)
      else skip

  unfoldable pub remove_namespace : String → Exec (Sys W) (Unit {0})
  remove_namespace name =
      attempt (call Call.stat_namespace (host.stat_namespace name))
      >>= handle (λ _. call Call.delete_namespace (host.delete_namespace name))
          (λ e. refuse_if (not (e.is not_exist)) e)

  -- What the record of a sandbox stands for, taken down with the link first and the firewall last.
  unfoldable pub tear_down : String → NetworkRecord → Exec (Sys W) (Unit {0})
  tear_down id n = do
    refuse_if (not (str_eq n.id id) || not (str_eq n.name (host.network_name id)))
        (message "corrupt network ownership record")
    links ← call Call.list_links host.list_links
    for_each links (delete_named_link n.name)
    remove_namespace n.name
    clear_conntrack n.guest
    tables ← call Call.list_tables host.list_tables
    for_each tables (delete_named_table n.name)
    call Call.remove_directory (host.remove_sandbox_dir id)
    call Call.remove_journal (host.remove_journal id)

  unfoldable pub remove_network_locked : String → Exec (Sys W) (Unit {0})
  remove_network_locked id =
      attempt (call Call.read_journal (host.read_journal id))
      >>= handle (λ raw. lift (host.decode_record raw) >>= tear_down id)
          (λ e. refuse_if (not (e.is not_exist)) e)

  unfoldable pub remove_network : String → Exec (Sys W) (Unit {0})
  remove_network id = do call Call.lock_network host.lock; remove_network_locked id
