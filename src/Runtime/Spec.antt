-- ===== src/Runtime/Spec.antt =====
-- The options that `Create` of services/containerd-runtime/runtime.go makes the OCI spec of a container
-- with, in their order, and `withOOMGroup`. What an option of containerd makes of its arguments is
-- containerd's; the arguments are here, with the wrap-around of Go's integers.
pub mod Laws
use sandcube.Prelude.{ℕ, ◌+◌, ◌*◌, ◌-◌, ◌%◌, String, Bool, List, [], ◌∷◌, ltb, if◌then◌else◌}
use sandcube.Prelude.Int.{ℤ, pos, negsuc}
use sandcube.Paths.{Bytes, bytes, clean, join}
use sandcube.Runtime.Types.{Config}

-- The remainders of a number modulo 2^64, as `uint64` and as `int64`.
unfoldable pub to_uint64 : ℤ → ℕ
to_uint64 (pos n) = n % 18446744073709551616
to_uint64 (negsuc n) = 18446744073709551615 - n % 18446744073709551616

unfoldable pub to_int64 : ℕ → ℤ
to_int64 n =
    let m = n % 18446744073709551616 in
    if ltb m 9223372036854775808 then pos m else negsuc (18446744073709551615 - m)

-- `x * k` on `uint64` and on `int64`.
abbrev pub times_uint64 : ℕ → ℕ → ℕ
times_uint64 x k = (x * k) % 18446744073709551616

abbrev pub times_int64 : ℤ → ℕ → ℤ
times_int64 z k = to_int64 (to_uint64 z * k)

unfoldable pub memory_limit : Config → ℕ
memory_limit c = times_uint64 (times_uint64 (to_uint64 c.memory_mb) 1024) 1024

unfoldable pub memory_swap : Config → ℤ
memory_swap c = times_int64 (times_int64 c.memory_mb 1024) 1024

unfoldable pub cpu_quota : Config → ℤ
cpu_quota c = times_int64 c.cpu 100000

-- What `withOOMGroup` changes of a spec.
pub record Resources : Type 0 where
  pub unified : List (String × String)

unfoldable pub with_oom_group : Resources → Resources
with_oom_group r = record r { unified = ("memory.oom.group", "1") ∷ [] }

pub record BindMount : Type 0 where
  pub destination : Bytes
  pub kind : String
  pub source : Bytes
  pub options : List String

-- The options of oci, and one of the runtime's own.
pub data SpecOption : Type 0 where
  with_image_config : String → SpecOption
  with_process_args : List String → SpecOption
  with_annotations : List (String × String) → SpecOption
  with_memory_limit : ℕ → SpecOption
  with_memory_swap : ℤ → SpecOption
  with_cpu_cfs : ℤ → ℕ → SpecOption
  with_mounts : List BindMount → SpecOption
  own : (Resources → Resources) → SpecOption
  with_pids_limit : ℤ → SpecOption
  with_capabilities : List String → SpecOption
  with_no_new_privileges : SpecOption
  with_network_namespace : Bytes → SpecOption

-- `networkDir` is the directory .networks of the history.
unfoldable pub network_dir : Bytes → Bytes
network_dir history_root = clean (join (history_root ∷ bytes ".networks" ∷ []))

unfoldable pub resolver_path : Bytes → String → Bytes
resolver_path history_root id =
    clean (join (network_dir history_root ∷ bytes id ∷ bytes "resolv.conf" ∷ []))

abbrev resolver_mount : Bytes → BindMount
resolver_mount path = record {
  destination = bytes "/etc/resolv.conf";
  kind = "bind";
  source = path;
  options = "bind" ∷ "ro" ∷ "nosuid" ∷ "nodev" ∷ "noexec" ∷ [];
}

-- For the directory of the history and the path of the network namespace.
unfoldable pub spec_options : Bytes → Bytes → Config → List SpecOption
spec_options history_root network_path c =
    with_image_config c.image
    ∷ with_process_args c.command
    ∷ with_annotations (
        ("io.kubernetes.cri.container-type", "sandbox")
        ∷ ("io.kubernetes.cri.sandbox-id", c.id)
        ∷ [])
    ∷ with_memory_limit (memory_limit c)
    ∷ with_memory_swap (memory_swap c)
    ∷ with_cpu_cfs (cpu_quota c) 100000
    ∷ with_mounts (resolver_mount (resolver_path history_root c.id) ∷ [])
    ∷ own with_oom_group
    ∷ with_pids_limit c.pids
    ∷ with_capabilities []
    ∷ with_no_new_privileges
    ∷ with_network_namespace network_path
    ∷ []
