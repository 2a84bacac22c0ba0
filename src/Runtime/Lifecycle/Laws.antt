-- ===== src/Runtime/Lifecycle/Laws.antt =====
-- The order of the calls that `Start`, `Stop` and `Delete` make.
use sandcube.Prelude.{String, ◌≡◌, refl, true, false, arith}
use sandcube.Exec.{OnOk, OnOk-succeeded}
use sandcube.Exec.Rules.{Preserves, Achieves, achieves_rules}
use sandcube.Calls.{Call, Sys, any_call, done, fresh, is_destructive, Follows, same_call}
use sandcube.Calls.Laws.{call_rules, Achieves-call, Follows-bind_after}
use sandcube.Runtime.Engine.{Engine, Services}
use sandcube.Runtime.Container.{load, describe}
use sandcube.Runtime.Task.{delete_task, retire_task, ignore_not_found}
use sandcube.Runtime.Lifecycle.{
  kill_running, stop, stop_task, remove_orphan, delete_remains, delete_absent, delete_managed,
  delete,
}
use sandcube.Runtime.Lifecycle.Steps.{
  Ordered, is_stop_call, load_keeps, describe_keeps, delete_task_keeps, stop_keeps, describe_after,
  delete_task_after, stop-remove_network,
}

other_new_task : (e : Call) → is_stop_call e ≡ true → same_call Call.new_task e ≡ false
other_new_task e h = ground arith

other_delete : (e : Call) → is_stop_call e ≡ true → same_call Call.delete_container e ≡ false
other_delete e h = ground arith

other_forget : (e : Call) → is_stop_call e ≡ true → same_call Call.forget_processes e ≡ false
other_forget e h = ground arith

ruleset step_rules = (
  call_rules, load_keeps, describe_keeps, delete_task_keeps, stop_keeps, describe_after,
  delete_task_after, other_new_task, other_delete, other_forget,
)

module _ {W : Type 0} (engine : Engine W) (services : Services W) where
  abbrev Harmless : Sys W → Type 0
  Harmless s = any_call is_destructive s.calls ≡ false

  load-Harmless : (id : String) → Preserves Harmless (load engine id)
  unfolding load
  load-Harmless id = search call_rules depth 8

  describe-Harmless : (id : String) → Preserves Harmless (describe engine id)
  unfolding describe
  describe-Harmless id = search call_rules depth 8

  stop_task-Harmless : (id : String) → Preserves Harmless (stop_task engine services id)
  unfolding stop_task delete_task retire_task ignore_not_found kill_running
  stop_task-Harmless id = search (call_rules, describe-Harmless) depth 14

  stop-Harmless : (id : String) → Preserves Harmless (stop engine services id)
  unfolding stop
  stop-Harmless id =
      search (call_rules, load-Harmless, describe-Harmless, stop_task-Harmless) depth 10

  -- `Stop` calls nothing that touches the container, its snapshot, its quota or its history, and
  -- where it reports success it has removed the network.
  pub stop_retains :
      (id : String) (w : W)
      → let (r, s) = stop engine services id (fresh w) in
        (any_call is_destructive s.calls ≡ false)
        × OnOk (λ _. done Call.remove_network s.calls ≡ true) r
  stop_retains id w = (
    (stop-Harmless id).from _ refl,
    OnOk-succeeded _ ((stop-remove_network engine services id).from _),
  )

  remove_orphan_keeps :
      (c d : Call)
      → same_call c Call.stat_snapshot ≡ false
      → same_call c Call.remove_snapshot ≡ false
      → (id : String) → Preserves (Ordered c d) (remove_orphan engine services id)
  unfolding remove_orphan ignore_not_found
  remove_orphan_keeps c d h k id = search call_rules depth 9

  -- The later calls of `delete_remains` and `delete_managed` cannot come before the earlier ones.
  delete_managed_order :
      (c : Call)
      → ((e : Call) → is_stop_call e ≡ true → same_call c e ≡ false)
      → (id : String)
      → Preserves (Ordered c Call.remove_network) (delete_managed engine services id)
  unfolding delete_managed
  delete_managed_order c other id =
      Follows-bind_after c Call.remove_network _ _ (stop-remove_network engine services id)
        (stop_keeps engine services c Call.remove_network other id) (λ _. search call_rules depth 9)

  delete_managed-forget :
      (id : String)
      → Preserves
          (Ordered Call.forget_processes Call.reclaim_quota)
          (delete_managed engine services id)
  unfolding delete_managed
  delete_managed-forget id = search step_rules depth 10

  delete_remains-forget :
      (id : String)
      → Preserves
          (Ordered Call.forget_processes Call.reclaim_quota)
          (delete_remains engine services id)
  unfolding delete_remains
  delete_remains-forget id = search (step_rules, remove_orphan_keeps) depth 10

  delete_remains-forget_network :
      (id : String)
      → Preserves
          (Ordered Call.forget_processes Call.remove_network)
          (delete_remains engine services id)
  unfolding delete_remains
  delete_remains-forget_network id = search (step_rules, remove_orphan_keeps) depth 10

  delete_remains-delete_container :
      (id : String)
      → Preserves
          (Ordered Call.delete_container Call.remove_network)
          (delete_remains engine services id)
  unfolding delete_remains
  delete_remains-delete_container id = search (step_rules, remove_orphan_keeps) depth 10

  ruleset delete_rules = (
    step_rules, delete_managed_order, delete_managed-forget, delete_remains-forget,
    delete_remains-forget_network, delete_remains-delete_container,
  )

  delete-delete_container :
      (id : String)
      → Preserves (Ordered Call.delete_container Call.remove_network) (delete engine services id)
  unfolding delete delete_absent
  delete-delete_container id = search delete_rules depth 10

  delete-forget :
      (id : String)
      → Preserves (Ordered Call.forget_processes Call.reclaim_quota) (delete engine services id)
  unfolding delete delete_absent
  delete-forget id = search delete_rules depth 10

  delete-forget_network :
      (id : String)
      → Preserves (Ordered Call.forget_processes Call.remove_network) (delete engine services id)
  unfolding delete delete_absent
  delete-forget_network id = search delete_rules depth 10

  -- A deletion that succeeds has run to its last step.
  delete-done :
      (id : String)
      → Achieves
          (λ (s : Sys W). done Call.forget_processes s.calls ≡ true)
          (delete engine services id)
  unfolding delete delete_absent delete_remains delete_managed
  delete-done id = search (achieves_rules, Achieves-call) depth 14

  -- The order of the calls of `Delete`, whatever the host answers: a container is deleted only after
  -- a removal of a network has succeeded, and a process history is dropped only after a removal of a
  -- network and a reclaim of a disk quota have succeeded. Where it reports success it has dropped a
  -- history.
  pub delete_order :
      (id : String) (w : W)
      → let (r, s) = delete engine services id (fresh w) in
        Follows Call.delete_container Call.remove_network s.calls
        × Follows Call.forget_processes Call.remove_network s.calls
        × Follows Call.forget_processes Call.reclaim_quota s.calls
        × OnOk (λ _. done Call.forget_processes s.calls ≡ true) r
  delete_order id w = (
    (delete-delete_container id).from _ tt,
    (delete-forget_network id).from _ tt,
    (delete-forget id).from _ tt,
    OnOk-succeeded _ ((delete-done id).from _),
  )
