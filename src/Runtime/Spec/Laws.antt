-- ===== src/Runtime/Spec/Laws.antt =====
-- The limits in the spec of a container.
use mathlib.Core.Path.{ap}
use sandcube.Prelude.{
  ℕ, ◌*◌, ◌<◌, ◌≡◌, ◌∙◌, refl, String, Bool, Option, some, List, [], ◌∷◌, false, arith,
}
use sandcube.Prelude.Int.{ℤ, pos, negsuc, to_ℕ}
use sandcube.Paths.{Bytes}
use sandcube.Runtime.Types.{Config}
use sandcube.Runtime.Spec.{
  SpecOption, with_oom_group, with_memory_limit, with_memory_swap, with_cpu_cfs, own,
  with_pids_limit, with_capabilities, with_no_new_privileges, to_uint64, to_int64, times_uint64,
  times_int64, memory_limit, memory_swap, cpu_quota, spec_options,
}
use sandcube.Server.Limits.{is_rejected_config}
use sandcube.Server.Limits.Laws.{IsBetween, is_rejected_config_lem}

times_uint64-small : (n k : ℕ) → n * k < 9223372036854775808 → times_uint64 n k ≡ n * k
times_uint64-small n k h = omega arith

to_uint64-pos : (n : ℕ) → n < 9223372036854775808 → to_uint64 (pos n) ≡ n
unfolding to_uint64
to_uint64-pos n h = omega arith

to_int64-small : (n : ℕ) → n < 9223372036854775808 → to_int64 n ≡ pos n
unfolding to_int64
to_int64-small n h = ground arith

times_int64-small :
    (n k : ℕ)
    → n < 9223372036854775808
    → n * k < 9223372036854775808
    → times_int64 (pos n) k ≡ pos (n * k)
times_int64-small n k h l =
    ap (λ m. to_int64 (m * k)) (to_uint64-pos n h) ∙ to_int64-small (n * k) l

-- What the options set in a spec: the memory, and memory with swap, in bytes; the CPU time for a
-- period, in microseconds; the tasks; the capabilities; what cgroup v2 is given as it stands; and
-- whether privileges may be gained.
pub record Limits : Type 0 where
  pub memory : Option ℕ
  pub memory_and_swap : Option ℤ
  pub cpu : Option (ℤ × ℕ)
  pub tasks : Option ℤ
  pub capabilities : Option (List String)
  pub unified : List (String × String)
  pub may_gain : Bool

-- The documented effect of one option. The options that are not named set none of these.
abbrev pub set_limits : Limits → SpecOption → Limits
set_limits l (with_memory_limit n) = record l { memory = some n }
set_limits l (with_memory_swap z) = record l { memory_and_swap = some z }
set_limits l (with_cpu_cfs z period) = record l { cpu = some (z, period) }
set_limits l (with_pids_limit z) = record l { tasks = some z }
set_limits l (with_capabilities names) = record l { capabilities = some names }
set_limits l (own f) = record l { unified = (f (record { unified = l.unified })).unified }
set_limits l with_no_new_privileges = record l { may_gain = false }
set_limits l _ = l

-- The options one behind the other.
abbrev pub all_limits : Limits → List SpecOption → Limits
all_limits l [] = l
all_limits l (o ∷ os) = all_limits (set_limits l o) os

bytes_of :
    (z : ℤ)
    → IsBetween 16 262144 z
    → times_uint64 (times_uint64 (to_uint64 z) 1024) 1024 ≡ to_ℕ z * 1048576
unfolding to_uint64
bytes_of (pos n) (h, k) = omega arith
bytes_of (negsuc n) h = absurd h

signed_bytes_of :
    (z : ℤ) → IsBetween 16 262144 z → times_int64 (times_int64 z 1024) 1024 ≡ pos (to_ℕ z * 1048576)
signed_bytes_of (pos n) (h, k) =
    ap (λ y. times_int64 y 1024) (times_int64-small n 1024 (omega arith) (omega arith))
    ∙ times_int64-small (n * 1024) 1024 (omega arith) (omega arith)
    ∙ ap pos (omega arith)
signed_bytes_of (negsuc n) h = absurd h

micros_of : (z : ℤ) → IsBetween 1 64 z → times_int64 z 100000 ≡ pos (to_ℕ z * 100000)
micros_of (pos n) (h, k) = times_int64-small n 100000 (omega arith) (omega arith)
micros_of (negsuc n) h = absurd h

-- For a configuration that has passed the check of `POST /containers`, whatever stood in the spec
-- before, the options of `Create` set every limit, and none has wrapped around: the memory limit is
-- the megabytes asked for, in bytes; the limit of memory and swap together is the same, so that there
-- is no swap; the CPU time for each period of 100000 is 100000 for each CPU asked for; the tasks are
-- those asked for; there are no capabilities; the tasks of a sandbox that is out of memory are killed
-- together; and no privileges may be gained.
pub limits-spec_options :
    (history_root network_path : Bytes) (c : Config) (before : Limits)
    → is_rejected_config c ≡ false
    → all_limits before (spec_options history_root network_path c) ≡ record {
      memory = some (to_ℕ c.memory_mb * 1048576);
      memory_and_swap = some (pos (to_ℕ c.memory_mb * 1048576));
      cpu = some (pos (to_ℕ c.cpu * 100000), 100000);
      tasks = some c.pids;
      capabilities = some [];
      unified = ("memory.oom.group", "1") ∷ [];
      may_gain = false;
    }
unfolding spec_options memory_limit memory_swap cpu_quota with_oom_group
limits-spec_options history_root network_path c before h =
    let (i, m, p, cpu, disk, memory, pids) = (is_rejected_config_lem c).0 h in
    rw (bytes_of c.memory_mb memory, signed_bytes_of c.memory_mb memory, micros_of c.cpu cpu) refl
