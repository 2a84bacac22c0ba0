-- ===== src/Network/Firewall.antt =====
-- `firewall` of services/containerd-runtime/network.go: the text that `nft -f -` reads.
use sandcube.Prelude.{String, List, [], ◌∷◌, ◌++◌}
use sandcube.Paths.{Bytes, bytes}
use sandcube.Network.Host.{NetworkRecord}

-- `protectedIPv4`
abbrev pub protected_text : String
protected_text =
    "0.0.0.0/8, 10.0.0.0/8, 100.64.0.0/10, 127.0.0.0/8, 169.254.0.0/16, 172.16.0.0/12, 192.0.0.0/24, 192.0.2.0/24, 192.88.99.0/24, 192.168.0.0/16, 198.18.0.0/15, 198.51.100.0/24, 203.0.113.0/24, 224.0.0.0/4, 240.0.0.0/4, 168.63.129.16/32"

-- The pieces of a line, one behind the other.
abbrev flat : List Bytes → Bytes
flat [] = []
flat (p ∷ ps) = p ++ flat ps

-- Every line ends with a line feed.
abbrev unlines : List Bytes → Bytes
unlines [] = []
unlines (l ∷ ls) = l ++ (10 ∷ unlines ls)

abbrev pub firewall_lines : NetworkRecord → List Bytes
firewall_lines n =
    flat (bytes "table inet " ∷ bytes n.name ∷ bytes " {" ∷ [])
    ∷ flat (bytes " chain early {" ∷ [])
    ∷ flat (bytes "  type filter hook prerouting priority -310; policy accept;" ∷ [])
    ∷ flat (bytes "  iifname \"" ∷ bytes n.name ∷ bytes "\" meta nfproto != ipv4 counter drop" ∷ [])
    ∷ flat (
        bytes "  iifname \""
        ∷ bytes n.name
        ∷ bytes "\" ip saddr != "
        ∷ n.guest
        ∷ bytes " counter drop"
        ∷ [])
    ∷ flat (bytes "  iifname \"" ∷ bytes n.name ∷ bytes "\" fib daddr type local counter drop" ∷ [])
    ∷ flat (
        bytes "  iifname \""
        ∷ bytes n.name
        ∷ bytes "\" ip daddr { "
        ∷ bytes protected_text
        ∷ bytes " } counter drop"
        ∷ [])
    ∷ flat (bytes " }" ∷ [])
    ∷ flat (bytes " chain input {" ∷ [])
    ∷ flat (bytes "  type filter hook input priority -10; policy accept;" ∷ [])
    ∷ flat (bytes "  iifname \"" ∷ bytes n.name ∷ bytes "\" counter drop" ∷ [])
    ∷ flat (bytes " }" ∷ [])
    ∷ flat (bytes " chain forward {" ∷ [])
    ∷ flat (bytes "  type filter hook forward priority -10; policy accept;" ∷ [])
    ∷ flat (
        bytes "  iifname \""
        ∷ bytes n.name
        ∷ bytes "\" ip daddr { "
        ∷ bytes protected_text
        ∷ bytes " } counter drop"
        ∷ [])
    ∷ flat (bytes "  iifname \"" ∷ bytes n.name ∷ bytes "\" fib daddr type local counter drop" ∷ [])
    ∷ flat (
        bytes "  iifname \""
        ∷ bytes n.name
        ∷ bytes "\" meta l4proto != { tcp, udp, icmp } counter drop"
        ∷ [])
    ∷ flat (bytes "  oifname \"" ∷ bytes n.name ∷ bytes "\" meta nfproto != ipv4 counter drop" ∷ [])
    ∷ flat (
        bytes "  oifname \""
        ∷ bytes n.name
        ∷ bytes "\" ip daddr != "
        ∷ n.guest
        ∷ bytes " counter drop"
        ∷ [])
    ∷ flat (
        bytes "  oifname \""
        ∷ bytes n.name
        ∷ bytes "\" ct state != { established, related } counter drop"
        ∷ [])
    ∷ flat (bytes " }" ∷ [])
    ∷ flat (bytes " chain nat {" ∷ [])
    ∷ flat (bytes "  type nat hook postrouting priority srcnat; policy accept;" ∷ [])
    ∷ flat (
        bytes "  iifname \""
        ∷ bytes n.name
        ∷ bytes "\" ip saddr "
        ∷ n.guest
        ∷ bytes " masquerade"
        ∷ [])
    ∷ flat (bytes " }" ∷ [])
    ∷ flat (bytes "}" ∷ [])
    ∷ []

unfoldable pub firewall : NetworkRecord → Bytes
firewall n = unlines (firewall_lines n)
