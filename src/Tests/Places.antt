-- ===== src/Tests/Places.antt =====
-- The theorems on requests for files and on reports at a concrete input.
use sandcube.Prelude.{ℕ, ◌≡◌, refl, some, [], ◌∷◌}
use sandcube.Exec.{ok, ◌>>=◌, handle, refuse_if}
use sandcube.Calls.{call, fresh}
use sandcube.Paths.{after_prefix}
use sandcube.Server.Limits.{is_valid_id, is_id_char}
use sandcube.Runtime.Types.{Sandbox}
use sandcube.Runtime.Container.{load, describe}
use sandcube.Runtime.Inventory.{Catalog, list, list_each, list_one}
use sandcube.Processes.{Machine, within}
use sandcube.Metrics.{Meters, Counters, Stats, Visit, metrics}
use sandcube.Metrics.Laws.{Reports, metrics_lem}
use sandcube.Tests.Disks.{give}
use sandcube.Tests.Samples.{present}

abbrev catalog : Catalog ℕ
catalog = record {
  managed = give ("sbx_a" ∷ []);
  containers = give ("sbx_a" ∷ []);
  snapshots = give [];
  histories = give [];
}

abbrev meters : Meters ℕ
meters = record {
  usage = λ s k. give 4096;
  task_metrics = λ id. give (Stats.v2 1000 2000000);
  walk = λ w. (Visit.directory ∷ Visit.file (some 10) ∷ [], w);
}

abbrev counters : Counters
counters = record { requests = 3; failures = 1; duration_millis = 20 }

abbrev start : Machine ℕ
start = record { outside = 0; table = [] }

abbrev running_sandbox : Sandbox
running_sandbox = record { id = "sbx_a"; status = "running"; snapshot = "sbx_a" }

one_listed : (within (list present catalog) (fresh start)).0 ≡ ok (running_sandbox ∷ [])
unfolding within list list_each list_one load describe call ◌>>=◌ handle refuse_if is_valid_id
    is_id_char after_prefix
one_listed = refl

metrics_lem_example :
    Reports present catalog meters counters
      (running_sandbox ∷ [])
      []
      (metrics present catalog meters counters (fresh start)).0
metrics_lem_example =
    metrics_lem present catalog meters counters (fresh start) (running_sandbox ∷ []) one_listed
