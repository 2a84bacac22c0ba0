-- ===== src/Reconcile/Laws.antt =====
-- What `Reconcile` as a whole keeps.
use sandcube.Prelude.{ℕ, String, ◌≡◌, Bool, true, not, ◌&&◌, Option, none, some, if◌then◌else◌}
use sandcube.Exec.{Exec, Result, ok, OnOk, not_found, pure, attempt, handle, skip, refuse_if, ◌>>=◌}
use sandcube.Exec.Leads.{Leads, Leads-catch, Leads-Preserves, Leads-weaken, Preserves-Leads}
use sandcube.Exec.Rules.{
  Preserves, Preserves-bind, Preserves-if, Preserves-pure, Preserves-raise, Preserves-refuse_if,
  Preserves-gets, Preserves-for_each,
}
use sandcube.Calls.{Call, Sys, call}
use sandcube.Runtime.Engine.{Engine, TaskState}
use sandcube.Runtime.Container.Laws.{Containers, IsTelling}
use sandcube.Runtime.Inventory.{Catalog}
use sandcube.Quota.Kernel.{Kernel}
use sandcube.Quota.Journal.Safety.{IsGuarded}
use sandcube.Quota.Journal.Reconciled.{IsChoosing, reconcile_Kept}
use sandcube.Network.Host.{Host}
use sandcube.Network.Reconcile.{Journals, reconcile_networks}
use sandcube.Network.Reconcile.Sparing.{IsSparing}
use sandcube.Network.Reconcile.Laws.{reconcile_networks-Kept}
use sandcube.Processes.{Tracked, ExecState, Table, Machine, Shim, outer, within}
use sandcube.Processes.Table.{of_sandbox}
use sandcube.Processes.Use.{Woken}
use sandcube.Processes.Watch.{is_stopped}
use sandcube.Processes.Recover.{is_created, cleanup_exec, cleanup_record, cleanup_process_records}
use sandcube.Reconcile.{finish_reconcile, reconcile}
use sandcube.Reconcile.Snapshots.{Holders, IsSweeping, sweep_snapshots-Safe}
use sandcube.Reconcile.Histories.{IsRetaining, sweep_histories-Keeps}

-- The states of an exec that does not run: it has ended, or has not been started.
abbrev pub IsIdle : TaskState → Type 0
IsIdle TaskState.stopped = Unit
IsIdle TaskState.created = Unit
IsIdle _ = ⊥

-- Looking at an exec keeps it and tells whether the exec is idle; deleting one that is idle keeps it.
pub record IsTidying {W : Type 0} (shim : Shim W) (Safe : W → Type 0) : Type 0 where
  pub is_idle : W → String → Bool
  pub status_lem :
      (w : W) (pid : String)
      → let (r, w') = shim.exec_status pid w in
        OnOk (λ found. IsIdle found.state → is_idle w' pid ≡ true) r
  pub status-Safe : (pid : String) → Preserves Safe (shim.exec_status pid)
  pub delete-Safe :
      (w : W) (pid : String) → is_idle w pid ≡ true → Safe w → Safe (shim.delete_exec pid w).1

module _ {W : Type 0} (P : W → Type 0) (X : Table → Type 0) where
  Preserves-within :
      {A : Type 0} (m : Exec (Sys W) A)
      → Preserves (λ s. P s.world) m
      → Preserves (λ (s : Sys (Machine W)). P s.world.outside × X s.world.table) (within m)
  unfolding within
  Preserves-within m k = record { from = λ s h. (k.from _ h.0, h.1) }

module _ {W : Type 0} {engine : Engine W} {catalog : Catalog W} {shim : Shim W} {kernel : Kernel W}
    {host : Host W} {journals : Journals W} {await : String → Exec (Sys (Machine W)) (Unit {0})}
    {telling : IsTelling engine} {c : Containers} {id : String} {holders : Holders}
    {runs : String → Bool} {Safe : W → Type 0} {Holds : Table → Type 0}
    (tidying : IsTidying shim Safe) (sweeping : IsSweeping engine catalog holders Safe)
    (retaining : IsRetaining telling catalog shim await c id Safe Holds)
    (guarded : IsGuarded kernel Safe) (choosing : IsChoosing kernel Safe)
    (sparing : IsSparing engine host journals runs Safe)
    (race : String → Exec (Sys (Machine W)) Woken) where
  abbrev Entries : Table → Type 0
  Entries t = Holds (of_sandbox id t)

  abbrev Kept : Sys (Machine W) → Type 0
  Kept s = Safe s.world.outside × Entries s.world.table

  -- Nothing is deleted of an exec that runs.
  abbrev Idle : String → Sys (Machine W) → Type 0
  Idle pid s = Kept s × (tidying.is_idle s.world.outside pid ≡ true)

  delete_Kept :
      (pid : String)
      → Leads (Idle pid) (λ _ s. Kept s) (outer Call.delete_exec (shim.delete_exec pid))
  unfolding outer call
  delete_Kept pid = record {
    from = λ s h. (tidying.delete-Safe s.world.outside pid h.1 h.0.0, h.0.1);
  }

  deleted_Kept :
      (pid : String)
      → Leads
          (Idle pid)
          (λ _ s. Kept s)
          (attempt (outer Call.delete_exec (shim.delete_exec pid))
            >>= handle (λ _. skip) (λ e. refuse_if (not (e.is not_found)) e))
  deleted_Kept pid =
      Leads-catch (λ _ s. Kept s) _ _ _ (delete_Kept pid) (λ _. Leads-Preserves (Preserves-pure tt))
        (λ e. Leads-Preserves (Preserves-refuse_if _ e))

  abbrev Looked : String → Result ExecState → Sys (Machine W) → Type 0
  Looked pid r s =
      Kept s × OnOk (λ found. IsIdle found.state → tidying.is_idle s.world.outside pid ≡ true) r

  status_Looked :
      (pid : String) → Leads Kept (Looked pid) (outer Call.exec_status (shim.exec_status pid))
  unfolding outer call
  status_Looked pid = record {
    from = λ s h. (
      ((tidying.status-Safe pid).from s.world.outside h.0, h.1),
      tidying.status_lem s.world.outside pid,
    );
  }

  -- Only a state that is idle leads to the deletion.
  cleanup_state_Kept :
      (state : TaskState) (pid : String) {m : Exec (Sys (Machine W)) (Unit {0})}
      → Leads (Idle pid) (λ _ s. Kept s) m
      → (s : Sys (Machine W)) → Kept s
      → (IsIdle state → tidying.is_idle s.world.outside pid ≡ true)
      → Kept ((if not (is_stopped state) && not (is_created state) then skip else m) s).1
  unfolding pure
  cleanup_state_Kept TaskState.stopped pid k s h idle = k.from s (h, idle tt)
  cleanup_state_Kept TaskState.created pid k s h idle = k.from s (h, idle tt)
  cleanup_state_Kept TaskState.running pid k s h idle = h
  cleanup_state_Kept TaskState.paused pid k s h idle = h
  cleanup_state_Kept TaskState.pausing pid k s h idle = h
  cleanup_state_Kept TaskState.unknown pid k s h idle = h

  cleanup_exec-Kept :
      (found : ExecState) (pid : String)
      → Leads (Looked pid (ok found)) (λ _ s. Kept s) (cleanup_exec shim found pid)
  unfolding cleanup_exec
  cleanup_exec-Kept found pid = record {
    from = λ s h. cleanup_state_Kept found.state pid (deleted_Kept pid) s h.0 h.1;
  }

  cleanup_record-Kept : (entry : String × Tracked) → Preserves Kept (cleanup_record shim entry)
  unfolding cleanup_record
  cleanup_record-Kept (pid, p) = Preserves-if _ _ _ (Preserves-pure tt) (
      Preserves-Leads (
        Leads-catch (Looked pid) _ _ _ (status_Looked pid) (λ found. cleanup_exec-Kept found pid)
          (λ e.
            Leads-weaken
              (Leads-Preserves (Preserves-if _ _ _ (Preserves-pure tt) (Preserves-raise e)))
              (λ s h. h.0))))

  cleanup_Kept : Preserves Kept (cleanup_process_records shim)
  unfolding cleanup_process_records
  cleanup_Kept =
      Preserves-bind _ _ (Preserves-gets _) (λ t. Preserves-for_each _ _ cleanup_record-Kept)

  inside :
      {A : Type 0} (m : Exec (Sys W) A)
      → Preserves (λ s. Safe s.world) m
      → Preserves Kept (within m)
  inside m k = Preserves-within Safe Entries m k

  networks_Kept : Preserves Kept (within (reconcile_networks engine host journals))
  networks_Kept = inside _ (reconcile_networks-Kept sparing)

  finish_Kept :
      (cleaned : ℕ) (o : Option (Unit {0}))
      → Preserves Kept
          (finish_reconcile engine catalog shim await race kernel host journals cleaned o)
  unfolding finish_reconcile
  finish_Kept cleaned none = Preserves-pure none
  finish_Kept cleaned (some _) = Preserves-bind _ _ networks_Kept (λ _. Preserves-pure _)

  all_Kept :
      (looks : ℕ)
      → Preserves Kept (reconcile engine catalog shim await race kernel host journals looks)
  unfolding reconcile
  all_Kept looks = Preserves-bind _ _ cleanup_Kept λ _.
      Preserves-bind _ _ (inside _ record { from = sweep_snapshots-Safe sweeping }) λ cleaned.
        Preserves-bind _ _ record { from = λ s h. sweep_histories-Keeps retaining race s h.0 h.1 }
          λ _.
            Preserves-bind _ _ (inside _ (reconcile_Kept guarded choosing looks))
              (finish_Kept cleaned)

  -- `Reconcile` as a whole is harmless, whether it succeeds or fails: it keeps what is known of the
  -- world and of the entries of a sandbox that has its managed container, if that is kept by the
  -- lookups and the waits, by deleting an exec that has ended or has not been started, by removing a snapshot of ours that no
  -- container uses, by dropping the history of a sandbox without a container, by taking the
  -- limits off storage that is gone and unused, and by taking down the network of a sandbox that does not
  -- run.
  pub reconcile-Keeps :
      (looks : ℕ) (s : Sys (Machine W))
      → Safe s.world.outside
      → Holds (of_sandbox id s.world.table)
      → let s' = (reconcile engine catalog shim await race kernel host journals looks s).1 in
        Safe s'.world.outside × Holds (of_sandbox id s'.world.table)
  reconcile-Keeps looks s h k = (all_Kept looks).from s (h, k)
