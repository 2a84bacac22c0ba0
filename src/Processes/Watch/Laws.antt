-- ===== src/Processes/Watch/Laws.antt =====
-- The exit of a process is on disk before containerd forgets it and before anyone is told.
use sandcube.Prelude.{
  ℕ, zero, suc, String, ◌≡◌, refl, ◌∙◌, Bool, true, false, Option, none, some, arith,
}
use sandcube.Exec.{
  Err, Result, ok, err, OnOk, OnOk-each, OnOk-map, Exec, attempt, ignoring, skip, ◌>>=◌, modify,
  gets,
}
use sandcube.Exec.Rules.{
  Preserves, Preserves-pure, Preserves-attempt, Preserves-handle, Preserves-bind, preserves_rules,
}
use sandcube.Exec.Leads.{
  Leads, Leads-weaken, Leads-Preserves, Preserves-Leads, Leads-pure, Leads-if, Leads-bind,
  Leads-bind_kept, Leads-catch,
}
use sandcube.Calls.{Call, Sys, call}
use sandcube.Processes.{ProcessInfo, Tracked, Machine, ExecState, Shim, outer}
use sandcube.Processes.Table.{
  find, change, change_table, change_process, change_info, close_done, find_process,
}
use sandcube.Processes.Table.Laws.{find-change, Tracks}
use sandcube.Processes.Start.{failed_with, read_clock, save_info, save_tracked, save_process}
use sandcube.Processes.Watch.{
  is_terminal, exited_with, settle_saved, missing_round, kill_overdue, alive_round, wait_logs,
  has_logs, exit_round, watch_round, watch,
}

-- What the disk would tell after a restart, and a property that each call of the watcher keeps,
-- where the deletion of the exec need only keep it when the disk has the end of the process.
pub record IsDurable {W : Type 0} (shim : Shim W) (pid : String) (Safe : W → Type 0) : Type 0 where
  pub saved : W → Option ProcessInfo
  pub durable : shim.is_durable ≡ true
  pub save_lem :
      (w : W) (info : ProcessInfo)
      → info.id ≡ pid
      → (shim.save info w).0 ≡ ok tt
      → saved (shim.save info w).1 ≡ some info
  pub saved-delete : (w : W) → saved (shim.delete_exec pid w).1 ≡ saved w
  pub now-Safe : (w : W) → Safe w → Safe (shim.now w).1
  pub save-Safe : (info : ProcessInfo) → Preserves Safe (shim.save info)
  pub exec_status-Safe : Preserves Safe (shim.exec_status pid)
  pub kill_exec-Safe : Preserves Safe (shim.kill_exec pid)
  pub stat_file-Safe : (id name : String) → Preserves Safe (shim.stat_file id pid name)
  pub delete-Safe :
      (w : W) (info : ProcessInfo)
      → Safe w
      → saved w ≡ some info
      → is_terminal info ≡ true
      → Safe (shim.delete_exec pid w).1

abbrev pub Any : Tracked → Type 0
Any p = Unit

abbrev pub Ended : Tracked → Type 0
Ended p = is_terminal p.info ≡ true

-- Its channel is closed, and it has ended.
abbrev pub IsSettled : Tracked → Type 0
IsSettled p = (p.is_done ≡ true) × Ended p

-- The disk has the process as the table has it.
abbrev pub Stored : Option ProcessInfo → (Tracked → Type 0) → Tracked → Type 0
Stored o T p = (o ≡ some p.info) × T p

pub failed_info :
    (text : String) (now : ℕ) (i : ProcessInfo) → is_terminal (failed_with text now i) ≡ true
unfolding is_terminal failed_with
failed_info text now i = refl

exited_info :
    (found : ExecState) (now : ℕ) (complete : Bool) (i : ProcessInfo)
    → is_terminal (exited_with found now complete i) ≡ true
unfolding is_terminal exited_with
exited_info found now complete i = refl

module _ {W : Type 0} {shim : Shim W} {pid : String} {Safe : W → Type 0}
    (durable : IsDurable shim pid Safe) where
  open durable use {saved}

  -- The watched process is in the table.
  abbrev Fine : (Tracked → Type 0) → Sys (Machine W) → Type 0
  Fine T s = Safe s.world.outside × Tracks T pid s.world.table

  abbrev OnDisk : (Tracked → Type 0) → Sys (Machine W) → Type 0
  OnDisk T s = Fine (Stored (saved s.world.outside) T) s

  outer-Fine :
      {A : Type 0} (T : Tracked → Type 0) (c : Call) (m : Exec W A)
      → Preserves Safe m
      → Preserves (Fine T) (outer c m)
  unfolding outer call
  outer-Fine T c m k = record { from = λ s h. (k.from s.world.outside h.0, h.1) }

  read_clock-Fine : (T : Tracked → Type 0) → Preserves (Fine T) (read_clock shim)
  unfolding read_clock
  read_clock-Fine T = record { from = λ s h. (durable.now-Safe s.world.outside h.0, h.1) }

  change_Fine :
      (T U : Tracked → Type 0) (f : Tracked → Tracked)
      → ((p : Tracked) → T p → ((f p).info.id ≡ p.info.id) × U (f p))
      → Leads (Fine T) (λ _ s. Fine U s) (change_process pid f)
  unfolding change_process change_table modify
  change_Fine T U f k = record {
    from = λ s h.
        let (safe, (p, found, same, t)) = h in
        (safe, (f p, find-change pid f s.world.table p found, (k p t).0 ∙ same, (k p t).1));
  }

  save_info-Fine :
      (T : Tracked → Type 0) (p : Tracked)
      → Leads
          (λ s. Safe s.world.outside × (find pid s.world.table ≡ some p) × (p.info.id ≡ pid) × T p)
          (λ r s. Fine T s × OnOk (λ _. OnDisk T s) r)
          (save_info shim p.info)
  unfolding save_info outer call
  save_info-Fine T p = record {
    from = λ s h.
        let (safe, found, same, t) = h in
        let kept = (durable.save-Safe p.info).from s.world.outside safe in
        rw durable.durable (
          (kept, (p, found, same, t)),
          OnOk-each {P = λ _. OnDisk T (outer Call.save_process (shim.save p.info) s).1} _ λ _ got.
              (kept, (p, found, same, (durable.save_lem s.world.outside p.info same got, t))),
        );
  }

  -- After a save that succeeds, the disk has what the table has.
  save_Fine :
      (T : Tracked → Type 0)
      → Leads (Fine T) (λ r s. Fine T s × OnOk (λ _. OnDisk T s) r) (save_process shim pid)
  unfolding save_process find_process gets ◌>>=◌ save_tracked
  save_Fine T = record {
    from = λ s h.
        let (safe, (p, found, same, t)) = h in
        rw found ((save_info-Fine T p).from s (safe, found, same, t));
  }

  delete_Fine :
      Leads
        (OnDisk Ended)
        (λ _ s. OnDisk Ended s)
        (ignoring (outer Call.delete_exec (shim.delete_exec pid)))
  unfolding ignoring outer call attempt ◌>>=◌
  delete_Fine = record {
    from = λ s h.
        let (safe, (p, found, same, (stored, ended))) = h in
        let w = s.world.outside in
        (
          durable.delete-Safe w p.info safe stored ended,
          (p, found, same, (durable.saved-delete w ∙ stored, ended)),
        );
  }

  abbrev Left : Result Bool → Sys (Machine W) → Type 0
  Left r s = Fine Any s × OnOk (λ left. left ≡ true → OnDisk IsSettled s) r

  close_Fine : Leads (OnDisk Ended) (λ _ s. OnDisk IsSettled s) (close_done pid)
  unfolding close_done change_process change change_table modify
  close_Fine = record {
    from = λ s h.
        (change_Fine (Stored (saved s.world.outside) Ended)
            (Stored (saved s.world.outside) IsSettled) _ (λ p t. (refl, (t.0, (refl, t.1))))).from
          s h;
  }

  Left_lem : (s : Sys (Machine W)) → OnDisk IsSettled s → Left (ok true) s
  Left_lem s (safe, (p, found, same, t)) =
      ((safe, (p, found, same, tt)), λ _. (safe, (p, found, same, t)))

  not-Left : (T : Tracked → Type 0) (s : Sys (Machine W)) → Fine T s → Left (ok false) s
  not-Left T s (safe, (p, found, same, t)) =
      ((safe, (p, found, same, tt)), λ hit. ground (arith, hit))

  failed-Left : (T : Tracked → Type 0) (e : Err) (s : Sys (Machine W)) → OnDisk T s → Left (err e) s
  failed-Left T e s (safe, (p, found, same, t)) = ((safe, (p, found, same, tt)), tt)

  settle_Left :
      (id : String) (m : Exec (Sys (Machine W)) (Unit {0}))
      → Leads (OnDisk Ended) (λ _ s. OnDisk Ended s) m
      → Leads (Fine Ended) Left (settle_saved shim id pid m)
  unfolding settle_saved
  settle_Left id m k =
      Leads-catch (λ r s. Fine Ended s × OnOk (λ _. OnDisk Ended s) r) _ _ _ (save_Fine Ended)
        (λ _.
          Leads-bind (λ _ s. OnDisk Ended s) _ _ (Leads-weaken k (λ s h. h.1)) (failed-Left Ended)
            λ _.
              Leads-bind (λ _ s. OnDisk IsSettled s) _ _ close_Fine (failed-Left IsSettled)
                λ _. Leads-pure _ Left_lem)
        (λ e. Leads-pure _ (λ s h. not-Left Ended s h.0))

  -- A change of what is known about the process, by a function that leaves its ID.
  change_info-Fine :
      (U : Tracked → Type 0) (f : ProcessInfo → ProcessInfo)
      → ((p : Tracked) → ((f p.info).id ≡ p.info.id) × U (record p { info = f p.info }))
      → Leads (Fine Any) (λ _ s. Fine U s) (change_info pid f)
  unfolding change_info
  change_info-Fine U f k = change_Fine Any U _ (λ p _. k p)

  fail_Ended :
      (text : String) (now : ℕ)
      → Leads (Fine Any) (λ _ s. Fine Ended s) (change_info pid (failed_with text now))
  unfolding failed_with
  fail_Ended text now = change_info-Fine Ended _ (λ p. (refl, failed_info text now p.info))

  exit_Ended :
      (found : ExecState) (now : ℕ) (complete : Bool)
      → Leads (Fine Any) (λ _ s. Fine Ended s) (change_info pid (exited_with found now complete))
  unfolding exited_with
  exit_Ended found now complete =
      change_info-Fine Ended _ (λ p. (refl, exited_info found now complete p.info))

  overdue_Any :
      Leads (Fine Any) (λ _ s. Fine Any s) (change_info pid (λ i. record i { timed_out = true }))
  overdue_Any = change_info-Fine Any _ (λ p. (refl, tt))

  kept-Left : (e : Err) (s : Sys (Machine W)) → Fine Any s → Left (err e) s
  kept-Left e s h = (h, tt)

  Ended-Left : (e : Err) (s : Sys (Machine W)) → Fine Ended s → Left (err e) s
  Ended-Left e s (safe, (p, found, same, t)) = ((safe, (p, found, same, tt)), tt)

  overdue-Fine : Preserves (Fine Any) (change_info pid (λ i. record i { timed_out = true }))
  overdue-Fine = Preserves-Leads overdue_Any

  kill_exec-Fine : Preserves (Fine Any) (outer Call.kill_exec (shim.kill_exec pid))
  kill_exec-Fine = outer-Fine Any _ _ durable.kill_exec-Safe

  exec_status-Fine : Preserves (Fine Any) (outer Call.exec_status (shim.exec_status pid))
  exec_status-Fine = outer-Fine Any _ _ durable.exec_status-Safe

  module _ (id : String) where
    stat_logs-Fine :
        (name : String) → Preserves (Fine Any) (outer Call.stat_logs (shim.stat_file id pid name))
    stat_logs-Fine name = outer-Fine Any _ _ (durable.stat_file-Safe id name)

    wait_logs-Fine : (looks : ℕ) → Preserves (Fine Any) (wait_logs shim id pid looks)
    unfolding wait_logs
    wait_logs-Fine zero = search preserves_rules
    wait_logs-Fine (suc looks) =
        Preserves-bind _ _ (Preserves-attempt _ (stat_logs-Fine "logs.done"))
          λ r. Preserves-handle _ _ r (λ _. Preserves-pure tt) (λ _. wait_logs-Fine looks)

    missing_Left : Leads (Fine Any) Left (missing_round shim id pid)
    unfolding missing_round
    missing_Left = Leads-bind_kept _ _ (read_clock-Fine Any) kept-Left λ now.
        Leads-bind (λ _ s. Fine Ended s) _ _ (fail_Ended _ now) Ended-Left
          λ _. settle_Left id skip (Leads-Preserves (search preserves_rules))

    kill_Any :
        (p : Option Tracked) (now : ℕ) → Preserves (Fine Any) (kill_overdue shim id pid p now)
    unfolding kill_overdue
    kill_Any none now = search preserves_rules
    kill_Any (some p) now = search (preserves_rules, overdue-Fine, kill_exec-Fine)

    alive_Left : Leads (Fine Any) Left (alive_round shim id pid)
    unfolding alive_round find_process
    alive_Left = Leads-bind_kept _ _ (search preserves_rules) kept-Left λ p.
        Leads-bind_kept _ _ (read_clock-Fine Any) kept-Left
          λ now. Leads-bind_kept _ _ (kill_Any p now) kept-Left λ _. Leads-pure _ (not-Left Any)

    has_logs-Fine : Preserves (Fine Any) (has_logs shim id pid)
    unfolding has_logs
    has_logs-Fine = search (preserves_rules, stat_logs-Fine, wait_logs-Fine)

    exit_Left : (found : ExecState) → Leads (Fine Any) Left (exit_round shim id pid found)
    unfolding exit_round
    exit_Left found = Leads-bind_kept _ _ has_logs-Fine kept-Left λ complete.
        Leads-bind_kept _ _ (read_clock-Fine Any) kept-Left λ now.
          Leads-bind (λ _ s. Fine Ended s) _ _ (exit_Ended found now complete) Ended-Left
            λ _. settle_Left id _ delete_Fine

    round_Left : Leads (Fine Any) Left (watch_round shim id pid)
    unfolding watch_round
    round_Left =
        Leads-catch (λ _ s. Fine Any s) _ _ _ (Leads-Preserves exec_status-Fine)
          (λ found. Leads-if _ _ _ (λ _. exit_Left found) (λ _. alive_Left))
          (λ e. Leads-if _ _ _ (λ _. missing_Left) (λ _. Leads-pure _ (not-Left Any)))

    watch-Left : (rounds : ℕ) → Leads (Fine Any) Left (watch shim id pid rounds)
    unfolding watch
    watch-Left zero = Leads-pure _ (not-Left Any)
    watch-Left (suc rounds) =
        Leads-bind Left _ _ round_Left (λ e s h. (h.0, tt))
          λ left.
            Leads-if _ _ _ (λ hit. Leads-pure _ (λ s h. Left_lem s (h.1 hit)))
              (λ _. Leads-weaken (watch-Left rounds) (λ s h. h.0))

  -- `watchProcess` of a tracked process, with a history: whatever is kept by each of its calls,
  -- where the deletion of the exec need only keep it when the disk has an end of the process, is
  -- kept by all its rounds together; and when the loop is left, the process is `exited` or `error`,
  -- its channel `done` is closed, and the disk has exactly what the table has.
  pub watch-IsSettled :
      (id : String) (rounds : ℕ) (s : Sys (Machine W))
      → Safe s.world.outside
      → Tracks Any pid s.world.table
      → let (r, s') = watch shim id pid rounds s in
        Safe s'.world.outside
        × OnOk
            (λ left.
              left ≡ true → Tracks (Stored (saved s'.world.outside) IsSettled) pid s'.world.table)
            r
  watch-IsSettled id rounds s safe tracked =
      let (kept, settled) = (watch-Left id rounds).from s (safe, tracked) in
      let s' = (watch shim id pid rounds s).1 in
      (
        kept.0,
        OnOk-map {P = λ left. left ≡ true → OnDisk IsSettled s'}
            {Q = λ left.
              left ≡ true → Tracks (Stored (saved s'.world.outside) IsSettled) pid s'.world.table}
            (λ left h hit. (h hit).1) _ settled,
      )
