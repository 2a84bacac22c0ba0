-- ===== src/Tests/Tracking.antt =====
-- The theorems on processes at a concrete input.
use sandcube.Prelude.{String, str_eq, ◌≡◌, refl, true, false, some, List, [], ◌∷◌, map, arith}
use sandcube.Exec.{OnOk, succeeded}
use sandcube.Calls.{fresh}
use sandcube.Paths.{Bytes, bytes}
use sandcube.Processes.Env.{Values, merge_env, print_entry}
use sandcube.Processes.Env.Laws.{is_sorted, value_of, or_else, last_value, settings, merge_env_lem}
use sandcube.Processes.Table.{find, of_sandbox}
use sandcube.Processes.Table.Laws.{Tracks}
use sandcube.Processes.Start.{start_process, track}
use sandcube.Processes.Watch.{watch}
use sandcube.Processes.Watch.Laws.{Stored, IsSettled, watch-IsSettled}
use sandcube.Processes.Use.{forget_processes}
use sandcube.Processes.Use.Laws.{forget_processes_lem}
use sandcube.Processes.Recover.{recover_processes}
use sandcube.Processes.Accounted.{IsAccounted}
use sandcube.Processes.Accounted.Kept.{start_process-IsAccounted}
use sandcube.Processes.Accounted.Recovered.{recover_processes-IsAccounted}
use sandcube.Tests.Shims.{sleeper, exec_request, shed, IsSafe, shed-IsDurable, idle, busy}

found_busy : find "proc_a" busy.table ≡ some (track sleeper)
unfolding find
found_busy = refl

watch-IsSettled_example :
    let (r, s') = watch shed "sbx_a" "proc_a" 3 (fresh busy) in
    IsSafe s'.world.outside
    × OnOk
        (λ left.
          left ≡ true → Tracks (Stored s'.world.outside.on_disk IsSettled) "proc_a" s'.world.table)
        r
watch-IsSettled_example =
    watch-IsSettled shed-IsDurable "sbx_a" 3 (fresh busy) (λ o e. absurd (ground (arith, e)))
      (track sleeper, found_busy, refl, tt)

start_process-IsAccounted_example :
    IsAccounted (start_process shed "sbx_a" exec_request (fresh idle)).1.world.table
start_process-IsAccounted_example =
    start_process-IsAccounted shed "sbx_a" exec_request (fresh idle) tt

recover_processes-IsAccounted_example :
    let (r, s') = recover_processes shed (fresh busy) in OnOk (λ _. IsAccounted s'.world.table) r
recover_processes-IsAccounted_example = recover_processes-IsAccounted shed (fresh busy)

abbrev image_env : List Bytes
image_env = bytes "PATH=/bin" ∷ bytes "HOME=/" ∷ []

abbrev request_env : Values
request_env = (bytes "HOME", bytes "/root") ∷ []

merge_env_lem_example :
    (vs : Values) × (merge_env image_env request_env ≡ map print_entry vs)
    × (is_sorted vs ≡ true)
    × ((key : Bytes)
        → value_of key vs
          ≡ or_else (last_value key request_env) (last_value key (settings image_env)))
merge_env_lem_example = merge_env_lem image_env request_env

forget_processes_lem_example :
    let (r, s') = forget_processes shed "sbx_a" (fresh busy) in
    (succeeded r ≡ true → of_sandbox "sbx_a" s'.world.table ≡ [])
    × (succeeded r ≡ true
        → (other : String) → str_eq other "sbx_a" ≡ false
        → of_sandbox other s'.world.table ≡ of_sandbox other busy.table)
    × (succeeded r ≡ false → s'.world.table ≡ busy.table)
forget_processes_lem_example = forget_processes_lem shed "sbx_a" (fresh busy)
