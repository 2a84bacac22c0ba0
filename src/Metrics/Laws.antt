-- ===== src/Metrics/Laws.antt =====
-- What a report tells, and that it comes.
use mathlib.Core.Path.{subst}
use sandcube.Prelude.{
  ℕ, String, str_eq, ◌≡◌, refl, ap, sym, Bool, true, false, not, Option, some, List, [], ◌∷◌, ◌++◌,
  arith, none, length, ◌+◌, ◌==◌, ◌||◌, if◌then◌else◌,
}
use sandcube.Exec.{Err, Result, ok, err, Exec, pure, attempt, handle, continue, gets, ◌>>=◌}
use sandcube.Calls.{Sys, call}
use sandcube.Runtime.Types.{Sandbox}
use sandcube.Runtime.Engine.{Engine, ContainerInfo}
use sandcube.Runtime.Inventory.{Catalog, list}
use sandcube.Processes.{Machine, Tracked, Table, within}
use sandcube.Metrics.{
  Line, Value, count, seconds, is_live, is_failed, count_processes, Stats, v1, v2, other, Scrape,
  both, Meters, Counters, stats_lines, sum_sizes, has_failed_code, scrape_running, scrape_task,
  scrape_usage, scrape_loaded, scrape_sandbox, scrape_all, walk_history, report, metrics,
}

-- An entry of the table whose process runs, and one whose process has failed: by its status, or by
-- an exit code other than 0.
abbrev pub runs : String × Tracked → Bool
runs (pid, p) = str_eq p.info.status "running"

abbrev is_nonzero : Option ℕ → Bool
is_nonzero none = false
is_nonzero (some code) = not (code == 0)

abbrev pub has_failed : String × Tracked → Bool
has_failed (pid, p) = str_eq p.info.status "error" || is_nonzero p.info.exit_code

nonzero_lem : (code : Option ℕ) → has_failed_code code ≡ is_nonzero code
nonzero_lem none = refl
nonzero_lem (some code) = refl

failed_lem : (pid : String) (p : Tracked) → is_failed p ≡ has_failed (pid, p)
failed_lem pid p = ap (λ b. str_eq p.info.status "error" || b) (nonzero_lem p.info.exit_code)

-- The entries that answer a test.
abbrev pub chosen : (String × Tracked → Bool) → Table → Table
chosen q [] = []
chosen q (t ∷ table) = let rest = chosen q table in if q t then t ∷ rest else rest

count_lem :
    (p : Tracked → Bool) (q : String × Tracked → Bool)
    → ((pid : String) (t : Tracked) → p t ≡ q (pid, t))
    → (table : Table) → count_processes p table ≡ length (chosen q table)
unfolding count_processes
count_lem p q e [] = refl
count_lem p q e ((pid, t) ∷ table) = rw (e pid t) (ground (arith, count_lem p q e table))

-- What a line should be.
abbrev pub Key : Type 1
Key = Line → Type 0

-- These lines, in this order.
abbrev pub Fits : List Key → List Line → Type 0
Fits [] [] = Unit
Fits [] (l ∷ ls) = ⊥
Fits (k ∷ ks) [] = ⊥
Fits (k ∷ ks) (l ∷ ls) = k l × Fits ks ls

Fits-append :
    (ks ls : List Key) (xs ys : List Line) → Fits ks xs → Fits ls ys → Fits (ks ++ ls) (xs ++ ys)
Fits-append [] ls [] ys h k = k
Fits-append [] ls (x ∷ xs) ys h k = absurd h
Fits-append (key ∷ ks) ls [] ys h k = absurd h
Fits-append (key ∷ ks) ls (x ∷ xs) ys h k = (h.0, Fits-append ks ls xs ys h.1 k)

-- The lines are there, unless a lookup failed; and there is no error.
abbrev pub Complete : List Key → Result Scrape → Type 0
Complete ks (ok a) = a.1 ≡ 0 → Fits ks a.0
Complete ks (err e) = ⊥

both-Complete :
    (ks ls : List Key) (a b : Scrape)
    → Complete ks (ok a)
    → Complete ls (ok b)
    → Complete (ks ++ ls) (ok (both a b))
both-Complete ks ls (xs, m) (ys, n) h k none_failed =
    Fits-append ks ls xs ys (h (omega arith)) (k (omega arith))

module _ {W : Type 0} where
  -- Every run ends so.
  record Tells (ks : List Key) (m : Exec (Sys W) Scrape) : Type 0 where
    from : (s : Sys W) → Complete ks (m s).0

  Tells-pure : (ks : List Key) (a : Scrape) → Complete ks (ok a) → Tells ks (pure a)
  unfolding pure
  Tells-pure ks a h = record { from = λ s. h }

  Tells-failed : (ks : List Key) → Tells ks (pure ([], 1))
  Tells-failed ks = Tells-pure ks ([], 1) (λ h. absurd (omega arith))

  caught :
      {A : Type 0} (ks : List Key) (f : A → Exec (Sys W) Scrape) (g : Err → Exec (Sys W) Scrape)
      (r : Result A) (s : Sys W)
      → ((a : A) → r ≡ ok a → Tells ks (f a))
      → ((e : Err) → Tells ks (g e))
      → Complete ks (handle f g r s).0
  unfolding handle
  caught ks f g (ok a) s k l = (k a refl).from s
  caught ks f g (err e) s k l = (l e).from s

  Tells-catch :
      {A : Type 0} (ks : List Key) (m : Exec (Sys W) A) (f : A → Exec (Sys W) Scrape)
      (g : Err → Exec (Sys W) Scrape)
      → ((s : Sys W) (a : A) → (m s).0 ≡ ok a → Tells ks (f a))
      → ((e : Err) → Tells ks (g e))
      → Tells ks (attempt m >>= handle f g)
  unfolding ◌>>=◌ attempt
  Tells-catch ks m f g k l = record { from = λ s. caught ks f g (m s).0 (m s).1 (k s) l }

  Tells-if :
      (ks ls : List Key) (b : Bool) (m n : Exec (Sys W) Scrape)
      → Tells ks m
      → Tells ls n
      → Tells (if b then ks else ls) (if b then m else n)
  Tells-if ks ls true m n k l = k
  Tells-if ks ls false m n k l = l

  finished :
      (ks ls : List Key) (a : Scrape) (r : Result Scrape) (s : Sys W)
      → Complete ks (ok a)
      → Complete ls r
      → Complete (ks ++ ls) (continue r (λ b. pure (both a b)) s).0
  unfolding pure
  finished ks ls a (ok b) s h k = both-Complete ks ls a b h k
  finished ks ls a (err e) s h k = absurd k

  joined :
      (ks ls : List Key) (m : Exec (Sys W) Scrape) (r : Result Scrape) (s : Sys W)
      → Complete ks r
      → Tells ls m
      → Complete (ks ++ ls) (continue r (λ a. m >>= λ b. pure (both a b)) s).0
  unfolding ◌>>=◌
  joined ks ls m (ok a) s h k = finished ks ls a (m s).0 (m s).1 h (k.from s)
  joined ks ls m (err e) s h k = absurd h

  Tells-both :
      (ks ls : List Key) (m n : Exec (Sys W) Scrape)
      → Tells ks m
      → Tells ls n
      → Tells (ks ++ ls) (m >>= λ a. n >>= λ b. pure (both a b))
  unfolding ◌>>=◌
  Tells-both ks ls m n k l = record { from = λ s. joined ks ls n (m s).0 (m s).1 (k.from s) l }

module _ {W : Type 0} (engine : Engine W) (catalog : Catalog W) (meters : Meters W) where
  -- A line of this name for this sandbox.
  abbrev Labelled : String → String → Line → Type 0
  Labelled name id l = (l.name ≡ name) × (l.sandbox ≡ some id)

  -- The memory and the time of the CPU that a message of a task tells.
  abbrev pub Memory : Stats → Value → Type 0
  Memory (v1 memory cpu) v = v ≡ count memory
  Memory (v2 memory cpu) v = v ≡ count memory
  Memory other v = ⊥

  abbrev pub CpuTime : Stats → Value → Type 0
  CpuTime (v1 memory cpu) v = v ≡ seconds cpu 1000000000
  CpuTime (v2 memory cpu) v = v ≡ seconds cpu 1000000
  CpuTime other v = ⊥

  -- What the host has answered about a sandbox at some moment.
  abbrev pub SizeOf : String → Value → Type 0
  SizeOf id v =
      (w w' : W) × (info : ContainerInfo) × (n : ℕ) × ((engine.container_info id w).0 ≡ ok info)
      × ((meters.usage info.snapshotter info.snapshot_key w').0 ≡ ok n)
      × (v ≡ count n)

  abbrev pub Measured : (Stats → Value → Type 0) → String → Value → Type 0
  Measured Q id v =
      (w : W) × (stats : Stats) × ((meters.task_metrics id w).0 ≡ ok stats) × Q stats v

  -- The lines that a sandbox should have.
  abbrev pub task_keys : String → List Key
  task_keys id =
      (λ l. Labelled "sandcube_memory_usage_bytes" id l × Measured Memory id l.value)
      ∷ (λ l. Labelled "sandcube_cpu_usage_seconds_total" id l × Measured CpuTime id l.value)
      ∷ []

  abbrev pub state_keys : Sandbox → List Key
  state_keys s = if not (str_eq s.status "running") then [] else task_keys s.id

  abbrev pub size_key : Sandbox → Key
  size_key s l = Labelled "sandcube_snapshot_bytes" s.id l × SizeOf s.id l.value

  abbrev pub all_keys : List Sandbox → List Key
  all_keys [] = []
  all_keys (s ∷ ss) = (size_key s ∷ state_keys s) ++ all_keys ss

  stats_Tells :
      (id : String) (stats : Stats) (w : W)
      → (meters.task_metrics id w).0 ≡ ok stats
      → Tells {W = W} (task_keys id) (pure (stats_lines id stats))
  unfolding stats_lines
  stats_Tells id (v1 memory cpu) w e =
      Tells-pure _ _ (λ h. (((refl, refl), (w, _, e, refl)), (((refl, refl), (w, _, e, refl)), tt)))
  stats_Tells id (v2 memory cpu) w e =
      Tells-pure _ _ (λ h. (((refl, refl), (w, _, e, refl)), (((refl, refl), (w, _, e, refl)), tt)))
  stats_Tells id other w e = Tells-failed _

  running_Tells : (s : Sandbox) → Tells (task_keys s.id) (scrape_running engine catalog meters s)
  unfolding scrape_running call
  running_Tells s =
      Tells-catch _ _ _ _
        (λ _ _ _.
          Tells-catch _ _ _ _ (λ t stats e. stats_Tells s.id stats t.world e) (λ e. Tells-failed _))
        (λ e. Tells-failed _)

  task_Tells : (s : Sandbox) → Tells (state_keys s) (scrape_task engine catalog meters s)
  unfolding scrape_task
  task_Tells s = Tells-if _ _ _ _ _ (Tells-pure [] ([], 0) (λ h. tt)) (running_Tells s)

  usage_Tells :
      (s : Sandbox) (info : ContainerInfo) (w : W)
      → (engine.container_info s.id w).0 ≡ ok info
      → Tells
          (size_key s ∷ [])
          (scrape_usage engine catalog meters s info.snapshotter info.snapshot_key)
  unfolding scrape_usage call
  usage_Tells s info w e =
      Tells-catch _ _ _ _
        (λ t size got.
          Tells-pure _ _ (λ h. (((refl, refl), (w, t.world, info, size, e, got, refl)), tt)))
        (λ e. Tells-failed _)

  loaded_Tells :
      (s : Sandbox) → Tells (size_key s ∷ state_keys s) (scrape_loaded engine catalog meters s)
  unfolding scrape_loaded call
  loaded_Tells s =
      Tells-catch _ _ _ _
        (λ t info e.
          Tells-both (size_key s ∷ []) (state_keys s) _ _ (usage_Tells s info t.world e)
            (task_Tells s))
        (λ e. Tells-failed _)

  sandbox_Tells :
      (s : Sandbox) → Tells (size_key s ∷ state_keys s) (scrape_sandbox engine catalog meters s)
  unfolding scrape_sandbox
  sandbox_Tells s = Tells-catch _ _ _ _ (λ _ _ _. loaded_Tells s) (λ e. Tells-failed _)

  all_Tells : (ss : List Sandbox) → Tells (all_keys ss) (scrape_all engine catalog meters ss)
  unfolding scrape_all
  all_Tells [] = Tells-pure [] ([], 0) (λ h. tt)
  all_Tells (s ∷ ss) =
      Tells-both (size_key s ∷ state_keys s) (all_keys ss) _ _ (sandbox_Tells s) (all_Tells ss)

  -- A report: its lines for the sandboxes, the lookups that failed, and what the walk of the history
  -- came to; and how many processes there are, run, and have failed.
  abbrev pub lines_of : Counters → List Line → ℕ → ℕ × Bool → Table → List Line
  lines_of c body failures (bytes, broke) table =
      (record { name = "sandcube_runtime_requests_total"; sandbox = none; value = count c.requests }
        ∷ record {
          name = "sandcube_runtime_failures_total";
          sandbox = none;
          value = count c.failures;
        }
        ∷ record {
          name = "sandcube_runtime_request_duration_seconds_sum";
          sandbox = none;
          value = seconds c.duration_millis 1000;
        }
        ∷ body)
      ++ (record { name = "sandcube_process_history_bytes"; sandbox = none; value = count bytes }
          ∷ record {
            name = "sandcube_resource_scrape_errors";
            sandbox = none;
            value = count (failures + (if broke then 1 else 0));
          }
          ∷ record {
            name = "sandcube_processes_retained";
            sandbox = none;
            value = count (length table);
          }
          ∷ record {
            name = "sandcube_processes_running";
            sandbox = none;
            value = count (length (chosen runs table));
          }
          ∷ record {
            name = "sandcube_processes_failed";
            sandbox = none;
            value = count (length (chosen has_failed table));
          }
          ∷ [])

  report_lem :
      (c : Counters) (a : Scrape) (h : ℕ × Bool) (table : Table)
      → report engine catalog meters c a h table ≡ lines_of c a.0 a.1 h table
  report_lem c (body, failures) (bytes, broke) table =
      rw
        (
          count_lem is_live runs (λ pid t. refl) table,
          count_lem is_failed has_failed failed_lem table,
        )
        refl

  abbrev pub Reports : Counters → List Sandbox → Table → Result (List Line) → Type 0
  Reports c ss table r =
      (body : List Line) × (failures : ℕ) × (h : ℕ × Bool) × (r
        ≡ ok (lines_of c body failures h table))
      × (failures ≡ 0 → Fits (all_keys ss) body)

  rest : Counters → Scrape → Exec (Sys (Machine W)) (List Line)
  rest c a = within (walk_history engine catalog meters) >>= λ h.
      gets (λ s. report engine catalog meters c a h s.world.table)

  rest-Reports :
      (c : Counters) (ss : List Sandbox) (r : Result Scrape) (s : Sys (Machine W))
      → Complete (all_keys ss) r
      → Reports c ss s.world.table (continue r (rest c) s).0
  unfolding rest within walk_history call pure gets ◌>>=◌
  rest-Reports c ss (ok a) s h =
      let history = sum_sizes (meters.walk s.world.outside).0 in
      (a.0, a.1, history, ap ok (report_lem c a history s.world.table), h)
  rest-Reports c ss (err e) s h = absurd h

  listed_Reports :
      (c : Counters) (ss : List Sandbox) (s : Sys (Machine W))
      → Reports c ss s.world.table ((within (scrape_all engine catalog meters ss) >>= rest c) s).0
  unfolding ◌>>=◌ within
  listed_Reports c ss s = rest-Reports c ss _ _ ((all_Tells ss).from _)

  -- `Metrics` reports whenever the sandboxes can be listed: no other failure makes it fail. The report
  -- counts the processes in the table, those that run and those that have failed; and where no lookup for a sandbox failed, which is what it
  -- counts as scrape errors beside those of the history, it has for each sandbox the size of its
  -- snapshot and, if it runs, its memory and its CPU time, as the host has answered them, in the order
  -- of the list.
  pub metrics_lem :
      (c : Counters) (s : Sys (Machine W)) (ss : List Sandbox)
      → (within (list engine catalog) s).0 ≡ ok ss
      → Reports c ss s.world.table (metrics engine catalog meters c s).0
  unfolding metrics rest ◌>>=◌ within
  metrics_lem c s ss e =
      let t = (within (list engine catalog) s).1 in
      let scrape = λ (inventory : List Sandbox).
        within (scrape_all engine catalog meters inventory) >>= rest c in
      subst (λ r. Reports c ss s.world.table (continue r scrape t).0) (sym e)
        (listed_Reports c ss t)
