-- ===== src/Processes/Accounted/Recovered.antt =====
-- `recoverProcesses` leaves no process that is neither over nor watched.
use sandcube.Prelude.{String, ◌≡◌, refl, ◌∙◌, ap, true, false, not, ◌&&◌, [], arith}
use sandcube.Exec.{
  Err, OnOk, OnOk-each, Exec, attempt, handle, skip, refuse_if, not_found, modify, ◌>>=◌,
}
use sandcube.Exec.Rules.{
  Preserves, Preserves-bind, Preserves-pure, Preserves-handle, Preserves-refuse_if,
  Preserves-ignoring, Preserves-attempt, preserves_rules,
}
use sandcube.Exec.Leads.{
  Leads, Then, Then-Preserves, Leads-Then, Leads-for_each, Leads-weaken, Leads-Preserves,
  Preserves-Leads, Leads-raise, Leads-if, Leads-bind_sure, Leads-catch,
}
use sandcube.Calls.{Call, Sys}
use sandcube.Processes.{ProcessInfo, Tracked, Table, Machine, ExecState, Shim, outer}
use sandcube.Processes.Table.{change_table, change_process, change_info, close_done}
use sandcube.Processes.Start.{track, is_running}
use sandcube.Processes.Watch.{is_terminal, is_stopped}
use sandcube.Processes.Recover.{
  fail_recovered, resume_watch, recover_exec, find_exec, recover_missing, recover_tracked,
  decode_record, recover_record, recover_processes, is_created,
}
use sandcube.Processes.Accounted.{
  IsAccounted, Changing, With, Good, change-With, put-With, IsSure-table, IsSure-change,
  IsSure-clock,
}
use sandcube.Processes.Accounted.Kept.{
  IsOpen, IsWatched, IsEnded, IsClosed, watched-IsOver, closed-IsOver, outer-Shows,
  read_clock-Shows, save_process-Shows, Good-close, end_info,
}

-- As it was read from the disk.
abbrev IsRead : ProcessInfo → Tracked → Type 0
IsRead info p = (p.is_done ≡ false) × (p.info ≡ info)

module _ {W : Type 0} (shim : Shim W) where
  close-IsEnded : (pid : String) → Leads (With {W = W} IsEnded pid) (Then Good) (close_done pid)
  unfolding close_done change_process change_table modify
  close-IsEnded pid = record {
    from = λ s h.
        Good-close shim (close_done pid s).1 closed-IsOver
          ((change-With IsEnded IsClosed pid _ (λ p t. (refl, (refl, t)))).from s h);
  }

  close-IsRead :
      (info : ProcessInfo)
      → is_terminal info ≡ true
      → Leads (With {W = W} (IsRead info) info.id) (Then Good) (close_done info.id)
  close-IsRead info over =
      Leads-weaken (close-IsEnded info.id)
        (λ s (rest, (p, found, same, t)). (rest, (p, found, same, ap is_terminal t.1 ∙ over)))

  read-IsOpen :
      (info : ProcessInfo) (s : Sys (Machine W))
      → With (IsRead info) info.id s
      → With IsOpen info.id s
  read-IsOpen info s (rest, (p, found, same, t)) = (rest, (p, found, same, t.0))

  fail_recovered-Ended :
      (text pid : String)
      → Leads (With IsOpen pid) (Then (With IsEnded pid)) (fail_recovered shim text pid)
  unfolding fail_recovered change_info
  fail_recovered-Ended text pid =
      Leads-bind_sure (With IsOpen pid) _ _ (IsSure-clock shim)
        (Leads-Preserves (read_clock-Shows shim (Changing IsOpen pid)))
        λ now.
          Leads-bind_sure (With IsEnded pid) _ _ (IsSure-change pid _) (end_info shim text now pid)
            λ _. Then-Preserves (save_process-Shows shim (Changing IsEnded pid) pid)

  resume-Good : (pid : String) → Leads (With {W = W} IsOpen pid) (Then Good) (resume_watch shim pid)
  unfolding resume_watch change_process change_table modify
  resume-Good pid = record {
    from = λ s h.
        Good-close shim (resume_watch shim pid s).1 watched-IsOver
          ((change-With IsOpen IsWatched pid _ (λ p t. (refl, (t, refl)))).from s h);
  }

  delete-Shows :
      (P : Table → Type 0) (pid : String)
      → Preserves
          (λ (s : Sys (Machine W)). P s.world.table)
          (outer Call.delete_exec (shim.delete_exec pid))
  delete-Shows P pid = outer-Shows shim P _ _

  -- A deletion that may find the exec gone.
  delete_missing :
      (info : ProcessInfo)
      → Preserves (With (IsRead info) info.id) (
          attempt (outer Call.delete_exec (shim.delete_exec info.id))
          >>= handle (λ _. skip) (λ e. refuse_if (not (e.is not_found)) e))
  delete_missing info =
      Preserves-bind _ _
        (Preserves-attempt _ (delete-Shows (Changing (IsRead info) info.id) info.id))
        λ r. Preserves-handle _ _ r (λ _. Preserves-pure tt) (λ e. Preserves-refuse_if _ e)

  running_again :
      (pid : String)
      → Leads (With {W = W} IsOpen pid) (Then (With IsOpen pid)) (
          change_process pid
            (λ p. record p { info = record p.info { status = "running"; error = "" } }))
  running_again pid =
      Then-Preserves (Preserves-Leads (change-With IsOpen IsOpen pid _ (λ p t. (refl, t))))

  recover_exec-Good :
      (info : ProcessInfo) (found : ExecState)
      → Leads
          (With (IsRead info) info.id)
          (Then Good)
          (recover_exec shim info.id (is_terminal info) found)
  unfolding recover_exec change_info
  recover_exec-Good info found =
      Leads-if (is_created found.state) _ _
        (λ _.
          Leads-Then (With IsEnded info.id) _ _
            (Leads-weaken (fail_recovered-Ended "Process start interrupted" info.id)
              (read-IsOpen info))
            λ _.
              Leads-Then (With IsEnded info.id) _ _
                (Then-Preserves
                  (Preserves-ignoring _ (delete-Shows (Changing IsEnded info.id) info.id)))
                λ _. close-IsEnded info.id)
        λ _.
          Leads-if (is_stopped found.state && is_terminal info) _ _
            (λ over.
              Leads-Then (With (IsRead info) info.id) _ _ (Then-Preserves (delete_missing info))
                λ _. close-IsRead info (ground (arith, over)))
            λ _.
              Leads-if (is_running found.state) _ _
                (λ _.
                  Leads-Then (With IsOpen info.id) _ _
                    (Leads-weaken (running_again info.id) (read-IsOpen info))
                    λ _.
                      Leads-Then (With IsOpen info.id) _ _
                        (Then-Preserves (save_process-Shows shim (Changing IsOpen info.id) info.id))
                        λ _. resume-Good info.id)
                (λ _. Leads-weaken (resume-Good info.id) (read-IsOpen info))

  find_exec-Read :
      (info : ProcessInfo)
      → Preserves (With (IsRead info) info.id) (find_exec shim info.sandbox_id info.id)
  unfolding find_exec
  find_exec-Read info =
      let P = Changing (IsRead info) info.id in
      Preserves-bind _ _ (outer-Shows shim P _ _) λ _.
        Preserves-bind _ _ (outer-Shows shim P _ _) λ _.
          Preserves-bind _ _ (outer-Shows shim P _ _) λ _.
            Preserves-Leads (change-With (IsRead info) (IsRead info) info.id _ (λ p t. (refl, t)))

  recover_missing-Good :
      (info : ProcessInfo) (e : Err)
      → Leads
          (With (IsRead info) info.id)
          (Then Good)
          (recover_missing shim info.id (is_terminal info) e)
  unfolding recover_missing
  recover_missing-Good info e =
      Leads-if (e.is not_found) _ _
        (λ _.
          Leads-if (is_terminal info) _ _ (λ over. close-IsRead info over)
            (λ _.
              Leads-Then (With IsEnded info.id) _ _
                (Leads-weaken
                  (fail_recovered-Ended
                    "Process missing after runtime restart; exit code unavailable" info.id)
                  (read-IsOpen info))
                λ _. close-IsEnded info.id))
        (λ _. Leads-raise e (λ s h. tt))

  recover_tracked-Good :
      (info : ProcessInfo)
      → Leads (With (IsRead info) info.id) (Then Good) (recover_tracked shim info)
  unfolding recover_tracked
  recover_tracked-Good info =
      Leads-if (not shim.has_client && is_terminal info) _ _
        (λ over. close-IsRead info (ground (arith, over)))
        (λ _.
          Leads-catch (λ _ s. With (IsRead info) info.id s) _ _ _
            (Leads-Preserves (find_exec-Read info))
            (λ _.
              Leads-Then (With (IsRead info) info.id) _ _
                (Then-Preserves (outer-Shows shim (Changing (IsRead info) info.id) _ _))
                λ found. recover_exec-Good info found)
            (recover_missing-Good info))

  recover_record-Good :
      (place : String × String) → Leads (Good {W = W}) (Then Good) (recover_record shim place)
  unfolding recover_record decode_record
  recover_record-Good place =
      Leads-Then Good _ _ (Then-Preserves (outer-Shows shim IsAccounted _ _)) λ raw.
        Leads-Then Good _ _ (Then-Preserves (search preserves_rules)) λ info.
          Leads-Then Good _ _ (Then-Preserves (search preserves_rules)) λ _.
            Leads-bind_sure (With (IsRead info) info.id) _ _ (IsSure-table _)
              (put-With (IsRead info) info.id (track info) refl (refl, refl))
              λ _. recover_tracked-Good info

  emptied : Leads (λ _. Unit {0}) (Then (Good {W = W})) (change_table (λ _. []))
  unfolding change_table modify
  emptied = record { from = λ s h. tt }

  Nothing :
      {A : Type 0} (m : Exec (Sys (Machine W)) A) → Leads (λ _. Unit {0}) (Then (λ _. Unit {0})) m
  Nothing m = record { from = λ s h. OnOk-each (m s).0 (λ _ _. tt) }

  recovered : Leads (λ _. Unit {0}) (Then Good) (recover_processes shim)
  unfolding recover_processes
  recovered =
      Leads-Then (λ _. Unit {0}) _ _ (Nothing _)
        λ _.
          Leads-Then (λ _. Unit {0}) _ _ (Nothing _)
            λ places.
              Leads-Then (λ _. Unit {0}) _ _ (Nothing _)
                λ _.
                  Leads-Then (λ _. Unit {0}) _ _ (Nothing _)
                    λ records.
                      Leads-Then Good _ _ emptied λ _. Leads-for_each records _ recover_record-Good

  -- Whatever the table was, when `recoverProcesses` succeeds, every process of the table stands
  -- under its own ID, has ended if it is done, and is done or watched.
  pub recover_processes-IsAccounted :
      (s : Sys (Machine W))
      → let (r, s') = recover_processes shim s in OnOk (λ _. IsAccounted s'.world.table) r
  recover_processes-IsAccounted s = recovered.from s tt
