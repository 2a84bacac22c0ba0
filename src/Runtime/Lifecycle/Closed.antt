-- ===== src/Runtime/Lifecycle/Closed.antt =====
-- `Start` makes a task only behind the quota check and with the network.
use sandcube.Prelude.{String}
use sandcube.Exec.{OnOk, attempt, handle, raise, ◌>>=◌}
use sandcube.Exec.Rules.{Preserves, preserves_rules}
use sandcube.Exec.Leads.{Leads, Leads-bind, Leads-Preserves, Preserves-Leads}
use sandcube.Calls.{Call, Sys, call, fresh}
use sandcube.Calls.Laws.{Preserves-call}
use sandcube.Runtime.Engine.{Engine, Services}
use sandcube.Runtime.Container.{load, describe}
use sandcube.Runtime.Task.{delete_task, retire_task, ignore_not_found}
use sandcube.Runtime.Lifecycle.{launch, start, task_rollback_error}

-- A task of this sandbox may be made in a world where its quota has been checked and its network has
-- been set up, which only the check and the setup for this sandbox bring about. All else that `Start`
-- calls keeps `Safe`.
pub record IsClosing {W : Type 0} (engine : Engine W) (services : Services W) (id : String)
    (Safe : W → Type 0) : Type 1 where
  pub Checked : W → Type 0
  pub Connected : W → Type 0
  pub check_lem :
      (w : W)
      → Safe w
      → let (r, w') = services.check_quota id w in Safe w' × OnOk (λ _. Checked w') r
  pub setup_lem :
      (w : W)
      → Safe w
      → Checked w
      → let (r, w') = services.setup_network id w in
        Safe w' × OnOk (λ _. Checked w' × Connected w') r
  pub new_task-Safe : (w : W) → Safe w → Checked w → Connected w → Safe (engine.new_task id w).1
  pub start_task-Safe : Preserves Safe (engine.start_task id)
  pub load-Safe : Preserves Safe (engine.load_container id)
  pub info-Safe : Preserves Safe (engine.container_info id)
  pub find-Safe : Preserves Safe (engine.find_task id)
  pub status-Safe : Preserves Safe (engine.task_status id)
  pub kill-Safe : Preserves Safe (engine.kill_task id)
  pub delete-Safe : Preserves Safe (engine.delete_task_record id)
  pub close-Safe : Preserves Safe (engine.close_task_io id)

module _ {W : Type 0} {engine : Engine W} {services : Services W} {id : String} {Safe : W → Type 0}
    (closing : IsClosing engine services id Safe) where
  abbrev Kept : Sys W → Type 0
  Kept s = Safe s.world

  abbrev Ready : W → Type 0
  Ready w = closing.Checked w × closing.Connected w

  start_task-Kept : Preserves Kept (call Call.start_task (engine.start_task id))
  start_task-Kept = Preserves-call Safe _ _ closing.start_task-Safe

  load_container-Kept : Preserves Kept (call Call.load_container (engine.load_container id))
  load_container-Kept = Preserves-call Safe _ _ closing.load-Safe

  container_info-Kept : Preserves Kept (call Call.container_info (engine.container_info id))
  container_info-Kept = Preserves-call Safe _ _ closing.info-Safe

  find_task-Kept : Preserves Kept (call Call.find_task (engine.find_task id))
  find_task-Kept = Preserves-call Safe _ _ closing.find-Safe

  task_status-Kept : Preserves Kept (call Call.task_status (engine.task_status id))
  task_status-Kept = Preserves-call Safe _ _ closing.status-Safe

  kill_task-Kept : Preserves Kept (call Call.kill_task (engine.kill_task id))
  kill_task-Kept = Preserves-call Safe _ _ closing.kill-Safe

  delete_task_record-Kept :
      Preserves Kept (call Call.delete_task_record (engine.delete_task_record id))
  delete_task_record-Kept = Preserves-call Safe _ _ closing.delete-Safe

  close_task_io-Kept : Preserves Kept (call Call.close_task_io (engine.close_task_io id))
  close_task_io-Kept = Preserves-call Safe _ _ closing.close-Safe

  ruleset kept_rules = (
    preserves_rules, start_task-Kept, load_container-Kept, container_info-Kept, find_task-Kept,
    task_status-Kept, kill_task-Kept, delete_task_record-Kept, close_task_io-Kept,
  )

  load_Kept : Preserves Kept (load engine id)
  unfolding load
  load_Kept = search kept_rules depth 9

  describe_Kept : Preserves Kept (describe engine id)
  unfolding describe
  describe_Kept = search kept_rules depth 9

  delete_task-Kept : Preserves Kept (delete_task engine id)
  unfolding delete_task retire_task ignore_not_found
  delete_task-Kept = search kept_rules depth 12

  checked :
      Leads Kept
        (λ r s. Kept s × OnOk (λ _. closing.Checked s.world) r)
        (call Call.check_quota (services.check_quota id))
  unfolding call
  checked = record { from = λ s h. closing.check_lem s.world h }

  connected :
      Leads
        (λ s. Kept s × closing.Checked s.world)
        (λ r s. Kept s × OnOk (λ _. Ready s.world) r)
        (call Call.setup_network (services.setup_network id))
  unfolding call
  connected = record { from = λ s h. closing.setup_lem s.world h.0 h.1 }

  made :
      Leads (λ s. Kept s × Ready s.world) (λ _ s. Kept s) (call Call.new_task (engine.new_task id))
  unfolding call
  made = record { from = λ s h. closing.new_task-Safe s.world h.0 h.1.0 h.1.1 }

  started_Kept : Preserves Kept (
      attempt (call Call.start_task (engine.start_task id))
      >>= handle
          (λ _. describe engine id)
          (λ e.
            attempt (delete_task engine id) >>= λ removed. raise (task_rollback_error e removed)))
  started_Kept = search (kept_rules, describe_Kept, delete_task-Kept) depth 9

  launch_Kept : Preserves Kept (launch engine services id)
  unfolding launch
  launch_Kept = Preserves-Leads (
      Leads-bind _ _ _ checked (λ e s h. h.0)
        λ _.
          Leads-bind _ _ _ connected (λ e s h. h.0)
            λ _.
              Leads-bind (λ _ s. Kept s) _ _ made (λ e s h. h) (λ _. Leads-Preserves started_Kept))

  start_Kept : Preserves Kept (start engine services id)
  unfolding start
  start_Kept = search (kept_rules, load_Kept, describe_Kept, delete_task-Kept, launch_Kept) depth 12

  -- `Start` fails closed, whether it succeeds or fails: what is kept by all its calls for this sandbox,
  -- where the one that makes the task need only keep it once the quota check of this very sandbox has
  -- passed and then its network has been set up, is kept by `Start`.
  pub start_fails_closed : (w : W) → Safe w → Safe (start engine services id (fresh w)).1.world
  start_fails_closed w h = start_Kept.from (fresh w) h
