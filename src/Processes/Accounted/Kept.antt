-- ===== src/Processes/Accounted/Kept.antt =====
-- `StartProcess` leaves no process that is neither over nor watched.
use sandcube.Prelude.{ℕ, String, ◌≡◌, refl, true, false, Option, none, some, arith}
use sandcube.Exec.{Err, Exec, attempt, handle, ◌>>=◌, ◌>>◌}
use sandcube.Exec.Rules.{
  Preserves, Preserves-bind, Preserves-ignoring, Preserves-attempt, preserves_rules,
}
use sandcube.Exec.Leads.{
  Leads, Leads-weaken, Leads-Preserves, Preserves-Leads, Leads-pure, Leads-raise, Leads-bind_kept,
  Leads-bind_sure, Leads-catch, IsSure-attempt, IsSure-ignoring,
}
use sandcube.Calls.{Call, Sys}
use sandcube.Runtime.Types.{ExecRequest}
use sandcube.Processes.{ProcessInfo, Tracked, Table, Machine, ProcessSpec, Shim, outer}
use sandcube.Processes.Table.{
  put, change_table, change_process, change_info, close_done, find_process, lookup_tracked,
}
use sandcube.Processes.Start.{
  new_info, track, failed_with, read_clock, draw_id, save_info, save_tracked, save_process,
  reuse_tracked, reuse_process, require_running, prepare_directory, prepare_logs, abandon_exec,
  start_or_abandon, launch, fail_start, begin_watch, start_fresh, or_fresh, start_process,
}
use sandcube.Processes.Watch.{is_terminal}
use sandcube.Processes.Watch.Laws.{failed_info}
use sandcube.Processes.Accounted.{
  IsOver, IsAccounted, Changing, Changing-close, With, Good, outer-table, change-With, put-With,
  IsSure-table, IsSure-change, IsSure-clock,
}

abbrev pub IsOpen : Tracked → Type 0
IsOpen p = p.is_done ≡ false

abbrev pub IsWatched : Tracked → Type 0
IsWatched p = (p.is_done ≡ false) × (p.is_watched ≡ true)

abbrev pub IsEnded : Tracked → Type 0
IsEnded p = is_terminal p.info ≡ true

abbrev pub IsClosed : Tracked → Type 0
IsClosed p = (p.is_done ≡ true) × (is_terminal p.info ≡ true)

pub watched-IsOver : (p : Tracked) → IsWatched p → IsOver p
watched-IsOver p h = ((λ done. ground (arith, h, done)), ground (arith, h))

pub closed-IsOver : (p : Tracked) → IsClosed p → IsOver p
closed-IsOver p h = ((λ _. h.1), ground (arith, h))

module _ {W : Type 0} (shim : Shim W) (P : Table → Type 0) where
  -- What the table shows, and nothing else.
  abbrev pub Shows : Sys (Machine W) → Type 0
  Shows s = P s.world.table

  pub outer-Shows : {A : Type 0} (c : Call) (m : Exec W A) → Preserves Shows (outer c m)
  outer-Shows c m = outer-table P c m

  pub read_clock-Shows : Preserves Shows (read_clock shim)
  unfolding read_clock
  read_clock-Shows = record { from = λ s h. h }

  pub draw_id-Shows : Preserves Shows (draw_id shim)
  unfolding draw_id
  draw_id-Shows = record { from = λ s h. h }

  save_tracked-Shows : (o : Option Tracked) → Preserves Shows (save_tracked shim o)
  unfolding save_tracked save_info
  save_tracked-Shows none = search preserves_rules
  save_tracked-Shows (some p) = search (preserves_rules, outer-Shows)

  pub save_process-Shows : (pid : String) → Preserves Shows (save_process shim pid)
  unfolding save_process find_process
  save_process-Shows pid = Preserves-bind _ _ (search preserves_rules) save_tracked-Shows

  abandon_exec-Shows : (pid : String) → Preserves Shows (abandon_exec shim pid)
  unfolding abandon_exec
  abandon_exec-Shows pid = search (preserves_rules, outer-Shows) depth 9

  reuse_tracked-Shows :
      (hash : String) (o : Option Tracked) → Preserves Shows (reuse_tracked shim hash o)
  unfolding reuse_tracked
  reuse_tracked-Shows hash none = search preserves_rules
  reuse_tracked-Shows hash (some p) = search preserves_rules

  reuse_process-Shows :
      (id : String) (req : ExecRequest) → Preserves Shows (reuse_process shim id req)
  unfolding reuse_process lookup_tracked
  reuse_process-Shows id req = search (preserves_rules, reuse_tracked-Shows) depth 9

  require_running-Shows : (id : String) → Preserves Shows (require_running shim id)
  unfolding require_running
  require_running-Shows id = search (preserves_rules, outer-Shows) depth 9

  prepare_directory-Shows : (id pid : String) → Preserves Shows (prepare_directory shim id pid)
  unfolding prepare_directory
  prepare_directory-Shows id pid = search (preserves_rules, outer-Shows, save_process-Shows)

  prepare_logs-Shows : (id pid : String) → Preserves Shows (prepare_logs shim id pid)
  unfolding prepare_logs
  prepare_logs-Shows id pid = search (preserves_rules, outer-Shows)

  start_or_abandon-Shows : (pid : String) → Preserves Shows (start_or_abandon shim pid)
  unfolding start_or_abandon
  start_or_abandon-Shows pid = search (preserves_rules, outer-Shows, abandon_exec-Shows)

module _ {W : Type 0} (shim : Shim W) where
  -- Whatever `launch` does, the entry is open, and the others are as they were.
  launch-Open :
      (id : String) (req : ExecRequest) (ps : ProcessSpec) (pid : String)
      → Preserves (With IsOpen pid) (launch shim id req ps pid)
  unfolding launch
  launch-Open id req ps pid =
      let P = Changing IsOpen pid in
      Preserves-bind _ _ (prepare_directory-Shows shim P id pid) λ _.
        Preserves-bind _ _ (prepare_logs-Shows shim P id pid) λ _.
          Preserves-bind _ _ (outer-Shows shim P _ _) λ _.
            Preserves-bind _ _
              (Preserves-Leads (change-With IsOpen IsOpen pid _ (λ p t. (refl, t))))
              λ _. start_or_abandon-Shows shim P pid

  pub Good-close :
      {T : Tracked → Type 0} {pid : String} (s : Sys (Machine W))
      → ((p : Tracked) → T p → IsOver p)
      → With T pid s
      → Good s
  Good-close s over h = Changing-close _ _ s.world.table over h

  begin_watch-Good :
      (pid : String) (info : ProcessInfo)
      → Leads (With IsOpen pid) (λ _ s. Good s) (begin_watch shim pid info)
  unfolding begin_watch change_info find_process
  begin_watch-Good pid info =
      Leads-bind_sure (With IsOpen pid) _ _ (IsSure-change pid _)
        (change-With IsOpen IsOpen pid _ (λ p t. (refl, t)))
        λ _.
          Leads-bind_sure (With IsOpen pid) _ _ (IsSure-attempt _)
            (Leads-Preserves
              (Preserves-attempt _ (save_process-Shows shim (Changing IsOpen pid) pid)))
            λ saved.
              Leads-bind_sure (With IsWatched pid) _ _ (IsSure-change pid _)
                (change-With IsOpen IsWatched pid _ (λ p t. (refl, (t, refl))))
                λ _.
                  Leads-weaken (Leads-Preserves (search preserves_rules))
                    (λ s h. Good-close s watched-IsOver h)

  -- A failed process stands in the table, over.
  pub end_info :
      (text : String) (now : ℕ) (pid : String)
      → Leads
          (With {W = W} IsOpen pid)
          (λ _ s. With IsEnded pid s)
          (change_process pid (λ p. record p { info = failed_with text now p.info }))
  unfolding failed_with
  end_info text now pid =
      change-With IsOpen IsEnded pid _ (λ p t. (refl, failed_info text now p.info))

  fail_start-Good :
      (pid : String) (e : Err) → Leads (With IsOpen pid) (λ _ s. Good s) (fail_start shim pid e)
  unfolding fail_start change_info close_done
  fail_start-Good pid e =
      Leads-bind_sure (With IsOpen pid) _ _ (IsSure-clock shim)
        (Leads-Preserves (read_clock-Shows shim (Changing IsOpen pid)))
        λ now.
          Leads-bind_sure (With IsEnded pid) _ _ (IsSure-change pid _)
            (end_info "Process start failed" now pid)
            λ _.
              Leads-bind_sure (With IsEnded pid) _ _ (IsSure-ignoring _)
                (Leads-Preserves
                  (Preserves-ignoring _ (save_process-Shows shim (Changing IsEnded pid) pid)))
                λ _.
                  Leads-bind_sure (With IsClosed pid) _ _ (IsSure-change pid _)
                    (change-With IsEnded IsClosed pid _ (λ p t. (refl, (refl, t))))
                    λ _. Leads-raise _ (λ s h. Good-close s closed-IsOver h)

  -- From the entry in the table to the end.
  tracked-Good :
      (id : String) (req : ExecRequest) (ps : ProcessSpec) (pid : String) (info : ProcessInfo)
      → info.id ≡ pid
      → Leads Good
          (λ _ s. Good s)
          (change_table (put pid (track info))
            >> (attempt (launch shim id req ps pid)
                >>= handle (λ _. begin_watch shim pid info) (fail_start shim pid)))
  tracked-Good id req ps pid info same =
      Leads-bind_sure (With IsOpen pid) _ _ (IsSure-table _)
        (put-With IsOpen pid (track info) same refl)
        λ _.
          Leads-catch (λ _ s. With IsOpen pid s) _ _ _ (Leads-Preserves (launch-Open id req ps pid))
            (λ _. begin_watch-Good pid info) (fail_start-Good pid)

  start_fresh-Good :
      (id : String) (req : ExecRequest) → Leads Good (λ _ s. Good s) (start_fresh shim id req)
  unfolding start_fresh new_info
  start_fresh-Good id req =
      Leads-bind_kept _ _ (require_running-Shows shim IsAccounted id) (λ e s h. h)
        λ _.
          Leads-bind_kept _ _ (outer-Shows shim IsAccounted _ _) (λ e s h. h)
            λ ps.
              Leads-bind_kept _ _ (draw_id-Shows shim IsAccounted) (λ e s h. h)
                λ drawn.
                  Leads-bind_kept _ _ (read_clock-Shows shim IsAccounted) (λ e s h. h)
                    λ now. tracked-Good id req ps _ _ refl

  or_fresh-Good :
      (id : String) (req : ExecRequest) (known : Option ProcessInfo)
      → Leads Good (λ _ s. Good s) (or_fresh shim (start_fresh shim id req) known)
  or_fresh-Good id req none = start_fresh-Good id req
  or_fresh-Good id req (some info) = Leads-pure _ (λ s h. h)

  start_process-Good :
      (id : String) (req : ExecRequest) → Leads Good (λ _ s. Good s) (start_process shim id req)
  unfolding start_process
  start_process-Good id req =
      Leads-bind_kept _ _ (outer-Shows shim IsAccounted _ _) (λ e s h. h)
        λ _.
          Leads-bind_kept _ _ (reuse_process-Shows shim IsAccounted id req) (λ e s h. h)
            (or_fresh-Good id req)

  -- Where every process of the table stands under its own ID, has ended if it is done, and is done
  -- or watched, the same holds after `StartProcess`, whether it succeeds or fails, and wherever.
  pub start_process-IsAccounted :
      (id : String) (req : ExecRequest) (s : Sys (Machine W))
      → IsAccounted s.world.table
      → IsAccounted (start_process shim id req s).1.world.table
  start_process-IsAccounted id req s h = (start_process-Good id req).from s h
