-- ===== src/Runtime/Lifecycle/Steps.antt =====
-- What the parts that several operations share do to the order of calls.
use sandcube.Prelude.{String, ◌≡◌, Bool, true, false}
use sandcube.Exec.Rules.{Preserves, Achieves, Achieves-bind_first, achieves_rules}
use sandcube.Calls.{Call, Sys, done, Follows, same_call}
use sandcube.Calls.Laws.{call_rules, Achieves-call}
use sandcube.Runtime.Engine.{Engine, Services}
use sandcube.Runtime.Container.{load, describe}
use sandcube.Runtime.Task.{delete_task, retire_task, ignore_not_found}
use sandcube.Runtime.Lifecycle.{kill_running, stop_task, stop}

abbrev pub Ordered : {W : Type 0} → Call → Call → Sys W → Type 0
Ordered c d s = Follows c d s.calls

abbrev pub Holding : {W : Type 0} → Call → Call → Sys W → Type 0
Holding c d s = Follows c d s.calls × (done d s.calls ≡ true)

-- The calls of `Stop` and of what it shares with other operations.
abbrev pub is_stop_call : Call → Bool
is_stop_call Call.load_container = true
is_stop_call Call.container_info = true
is_stop_call Call.find_task = true
is_stop_call Call.task_status = true
is_stop_call Call.kill_task = true
is_stop_call Call.delete_task_record = true
is_stop_call Call.close_task_io = true
is_stop_call Call.list_processes = true
is_stop_call Call.kill_process = true
is_stop_call Call.settle_processes = true
is_stop_call Call.remove_network = true
is_stop_call _ = false

module _ {W : Type 0} (engine : Engine W) where
  -- An order is kept where its later call is none of these.
  module _ (c d : Call) (other : (e : Call) → is_stop_call e ≡ true → same_call c e ≡ false) where
    pub load_keeps : (id : String) → Preserves (Ordered c d) (load engine id)
    unfolding load
    load_keeps id = search call_rules depth 8

    pub describe_keeps : (id : String) → Preserves (Ordered c d) (describe engine id)
    unfolding describe
    describe_keeps id = search call_rules depth 8

    pub delete_task_keeps : (id : String) → Preserves (Ordered c d) (delete_task engine id)
    unfolding delete_task retire_task ignore_not_found
    delete_task_keeps id = search call_rules depth 9

  -- Once the earlier call is done, they all keep the order.
  module _ (c d : Call) where
    pub describe_after : (id : String) → Preserves (Holding c d) (describe engine id)
    unfolding describe
    describe_after id = search call_rules depth 8

    pub delete_task_after : (id : String) → Preserves (Holding c d) (delete_task engine id)
    unfolding delete_task retire_task ignore_not_found
    delete_task_after id = search call_rules depth 9

  done-describe :
      (c : Call) (id : String)
      → Preserves (λ (s : Sys W). done c s.calls ≡ true) (describe engine id)
  unfolding describe
  done-describe c id = search call_rules depth 8

module _ {W : Type 0} (engine : Engine W) (services : Services W) where
  module _ (c d : Call) (other : (e : Call) → is_stop_call e ≡ true → same_call c e ≡ false) where
    kill_running_keeps : (pid : String) → Preserves (Ordered c d) (kill_running engine services pid)
    unfolding kill_running ignore_not_found
    kill_running_keeps pid = search call_rules depth 9

    pub stop_keeps : (id : String) → Preserves (Ordered c d) (stop engine services id)
    unfolding stop stop_task
    stop_keeps id =
        search (call_rules, load_keeps, describe_keeps, delete_task_keeps, kill_running_keeps) depth
          12

  -- A stop that succeeds has removed the network.
  pub stop-remove_network :
      (id : String)
      → Achieves (λ (s : Sys W). done Call.remove_network s.calls ≡ true) (stop engine services id)
  unfolding stop stop_task
  stop-remove_network id =
      search (achieves_rules, Achieves-bind_first, Achieves-call, done-describe) depth 14
