-- ===== src/Metrics.antt =====
-- `Metrics` of services/containerd-runtime/metrics.go. A line is its name, the sandbox that it is
-- labelled with, and its value; the way that `Fprintf` writes them is left out.
pub mod Laws
use sandcube.Prelude.{
  ℕ, zero, suc, ◌+◌, String, str_eq, Bool, true, false, not, ◌||◌, Option, none, some, List, [],
  ◌∷◌, ◌++◌, length, ◌==◌, if◌then◌else◌,
}
use sandcube.Exec.{Exec, pure, attempt, handle, gets, ◌>>=◌}
use sandcube.Calls.{Call, Sys, call}
use sandcube.Runtime.Types.{Sandbox}
use sandcube.Runtime.Engine.{Engine}
use sandcube.Runtime.Container.{load}
use sandcube.Runtime.Inventory.{Catalog, list}
use sandcube.Processes.{Tracked, Table, Machine, within}

-- A number, or a number of units of which so many are a second.
pub data Value : Type 0 where
  count : ℕ → Value
  seconds : ℕ → ℕ → Value

pub record Line : Type 0 where
  pub name : String
  pub sandbox : Option String
  pub value : Value

-- What the message of a task unpacks to: the memory in use and the time of the CPU, in nanoseconds
-- for cgroup v1 and in microseconds for v2.
pub data Stats : Type 0 where
  v1 : ℕ → ℕ → Stats
  v2 : ℕ → ℕ → Stats
  other : Stats

-- What WalkDir passes to its function: an error, a directory, or a file, whose Info may be an error.
pub data Visit : Type 0 where
  broken : Visit
  directory : Visit
  file : Option ℕ → Visit

pub record Meters (W : Type 0) : Type 0 where
  -- Usage of a snapshot, by its snapshotter and its key
  pub usage : String → String → Exec W ℕ
  -- Task.Metrics and typeurl.UnmarshalAny
  pub task_metrics : String → Exec W Stats
  -- what WalkDir would visit
  pub walk : W → List Visit × W

-- The counters that ServeHTTP and `failure` add to.
pub record Counters : Type 0 where
  pub requests : ℕ
  pub failures : ℕ
  pub duration_millis : ℕ

abbrev pub line : String → Value → Line
line name value = record { name = name; sandbox = none; value = value }

abbrev pub line_of : String → String → Value → Line
line_of name id value = record { name = name; sandbox = some id; value = value }

-- The lines of a part, and how many of its lookups failed.
abbrev pub Scrape : Type 0
Scrape = List Line × ℕ

abbrev failed : Scrape
failed = ([], 1)

abbrev pub both : Scrape → Scrape → Scrape
both (xs, m) (ys, n) = (xs ++ ys, m + n)

abbrev pub task_lines : String → ℕ → Value → Scrape
task_lines id memory cpu = (
  line_of "sandcube_memory_usage_bytes" id (count memory)
      ∷ line_of "sandcube_cpu_usage_seconds_total" id cpu
      ∷ [],
  0,
)

unfoldable pub stats_lines : String → Stats → Scrape
stats_lines id (v1 memory cpu) = task_lines id memory (seconds cpu 1000000000)
stats_lines id (v2 memory cpu) = task_lines id memory (seconds cpu 1000000)
stats_lines id other = failed

-- The bytes up to the first error, and whether there was one.
unfoldable pub sum_sizes : List Visit → ℕ × Bool
sum_sizes [] = (0, false)
sum_sizes (broken ∷ vs) = (0, true)
sum_sizes (directory ∷ vs) = sum_sizes vs
sum_sizes (file none ∷ vs) = (0, true)
sum_sizes (file (some n) ∷ vs) = let (m, b) = sum_sizes vs in (n + m, b)

abbrev pub has_failed_code : Option ℕ → Bool
has_failed_code none = false
has_failed_code (some code) = not (code == 0)

abbrev pub is_failed : Tracked → Bool
is_failed p = str_eq p.info.status "error" || has_failed_code p.info.exit_code

abbrev pub is_live : Tracked → Bool
is_live p = str_eq p.info.status "running"

unfoldable pub count_processes : (Tracked → Bool) → Table → ℕ
count_processes p [] = 0
count_processes p ((k, t) ∷ rest) = let n = count_processes p rest in if p t then suc n else n

module _ {W : Type 0} (engine : Engine W) (catalog : Catalog W) (meters : Meters W) where
  unfoldable pub scrape_running : Sandbox → Exec (Sys W) Scrape
  scrape_running s =
      attempt (call Call.find_task (engine.find_task s.id))
      >>= handle
          (λ _.
            attempt (call Call.task_metrics (meters.task_metrics s.id))
            >>= handle (λ stats. pure (stats_lines s.id stats)) (λ _. pure failed))
          (λ _. pure failed)

  unfoldable pub scrape_task : Sandbox → Exec (Sys W) Scrape
  scrape_task s = if not (str_eq s.status "running") then pure ([], 0) else scrape_running s

  unfoldable pub scrape_usage : Sandbox → String → String → Exec (Sys W) Scrape
  scrape_usage s snapshotter key =
      attempt (call Call.snapshot_usage (meters.usage snapshotter key))
      >>= handle (λ size. pure (line_of "sandcube_snapshot_bytes" s.id (count size) ∷ [], 0))
          (λ _. pure failed)

  unfoldable pub scrape_loaded : Sandbox → Exec (Sys W) Scrape
  scrape_loaded s =
      attempt (call Call.container_info (engine.container_info s.id))
      >>= handle
          (λ info. do
            a ← scrape_usage s info.snapshotter info.snapshot_key
            b ← scrape_task s
            pure (both a b))
          (λ _. pure failed)

  unfoldable pub scrape_sandbox : Sandbox → Exec (Sys W) Scrape
  scrape_sandbox s = attempt (load engine s.id) >>= handle (λ _. scrape_loaded s) (λ _. pure failed)

  unfoldable pub scrape_all : List Sandbox → Exec (Sys W) Scrape
  scrape_all [] = pure ([], 0)
  scrape_all (s ∷ ss) = do a ← scrape_sandbox s; b ← scrape_all ss; pure (both a b)

  unfoldable pub walk_history : Exec (Sys W) (ℕ × Bool)
  walk_history = call Call.walk_history λ w. let (vs, w') = meters.walk w in pure (sum_sizes vs) w'

  abbrev one_if : Bool → ℕ
  one_if b = if b then 1 else 0

  abbrev pub report : Counters → Scrape → ℕ × Bool → Table → List Line
  report c scraped history table =
      (line "sandcube_runtime_requests_total" (count c.requests)
        ∷ line "sandcube_runtime_failures_total" (count c.failures)
        ∷ line "sandcube_runtime_request_duration_seconds_sum" (seconds c.duration_millis 1000)
        ∷ scraped.0)
      ++ (line "sandcube_process_history_bytes" (count history.0)
          ∷ line "sandcube_resource_scrape_errors" (count (scraped.1 + one_if history.1))
          ∷ line "sandcube_processes_retained" (count (length table))
          ∷ line "sandcube_processes_running" (count (count_processes is_live table))
          ∷ line "sandcube_processes_failed" (count (count_processes is_failed table))
          ∷ [])

  unfoldable pub metrics : Counters → Exec (Sys (Machine W)) (List Line)
  metrics c = do
    inventory ← within (list engine catalog)
    scraped ← within (scrape_all inventory)
    history ← within walk_history
    gets (λ s. report c scraped history s.world.table)
