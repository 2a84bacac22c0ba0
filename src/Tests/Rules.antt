-- ===== src/Tests/Rules.antt =====
-- The protected prefixes in the text of the firewall are those that the addresses are tested by; and
-- the limits of a sandbox at a concrete configuration.
use sandcube.Prelude.{ℕ, ◌≡◌, refl, true, false, none, some, List, [], ◌∷◌, ◌++◌, ◌*◌}
use sandcube.Paths.{Bytes, bytes, after_prefix}
use sandcube.Network.Address.{Address, decimal, dotted, protected_prefixes}
use sandcube.Network.Firewall.{protected_text}
use sandcube.Runtime.Spec.{spec_options}
use sandcube.Runtime.Spec.Laws.{Limits, all_limits, limits-spec_options}
use sandcube.Prelude.Int.{pos, to_ℕ}
use sandcube.Server.Limits.{is_id_char, is_valid_id, is_rejected_config}
use sandcube.Tests.Samples.{config}

abbrev print_prefixes : List (Address × ℕ) → Bytes
print_prefixes [] = []
print_prefixes ((base, bits) ∷ []) = dotted base ++ (bytes "/" ++ decimal bits)
print_prefixes ((base, bits) ∷ p ∷ ps) =
    dotted base ++ (bytes "/" ++ (decimal bits ++ (bytes ", " ++ print_prefixes (p ∷ ps))))

same_prefixes : print_prefixes protected_prefixes ≡ bytes protected_text
unfolding dotted decimal
same_prefixes = refl

config_accepted : is_rejected_config config ≡ false
unfolding is_rejected_config is_valid_id is_id_char after_prefix
config_accepted = refl

-- A spec that sets no limit.
abbrev no_limits : Limits
no_limits = record {
  memory = none;
  memory_and_swap = none;
  cpu = none;
  tasks = none;
  capabilities = none;
  unified = [];
  may_gain = true;
}

limits-spec_options_example :
    all_limits no_limits (spec_options (bytes "/h/sandcube") (bytes "/run/netns/scn") config)
    ≡ record {
      memory = some (to_ℕ config.memory_mb * 1048576);
      memory_and_swap = some (pos (to_ℕ config.memory_mb * 1048576));
      cpu = some (pos (to_ℕ config.cpu * 100000), 100000);
      tasks = some config.pids;
      capabilities = some [];
      unified = ("memory.oom.group", "1") ∷ [];
      may_gain = false;
    }
limits-spec_options_example =
    limits-spec_options (bytes "/h/sandcube") (bytes "/run/netns/scn") config no_limits
      config_accepted
