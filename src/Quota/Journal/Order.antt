-- ===== src/Quota/Journal/Order.antt =====
-- The order of what a quota leaves behind.
use sandcube.Prelude.{ℕ, String, ◌≡◌, refl, true, Option, none, some, List, zero, suc}
use sandcube.Prelude.Int.{ℤ}
use sandcube.Exec.{Exec, Result, ok, err, succeeded, wrap, ◌>>=◌, attempt, handle, pure, raise}
use sandcube.Exec.Rules.{Preserves, Preserves-bind, Preserves-if, Achieves}
use sandcube.Calls.{Call, Sys, Follows, fresh}
use sandcube.Calls.Laws.{call_rules, Follows-bind_after, Achieves-call}
use sandcube.Paths.{Bytes}
use sandcube.Runtime.Engine.{Mount}
use sandcube.Quota.Kernel.{Kernel, DiskQuota, QuotaRecord, Wake}
use sandcube.Quota.Device.{quota_device}
use sandcube.Quota.Enforce.{explaining, prepare_limits, check_limits, enforce_on, enforce_quota}
use sandcube.Quota.Journal.{
  prepare_quota, retire, poll, is_reclaimed, sleep, on_wake, reclaim_storage, reclaim_quota,
}
use sandcube.Quota.Journal.Laws.{refuse_failure_lem}

module _ {W : Type 0} (kernel : Kernel W) where
  explained :
      {A : Type 0} (Q : Sys W → Type 0) (text : String) (r : Result A) (s : Sys W)
      → (succeeded r ≡ true → Q s)
      → succeeded (handle pure (λ e. raise (wrap text e)) r s).0 ≡ true
      → Q (handle pure (λ e. raise (wrap text e)) r s).1
  unfolding handle pure raise
  explained Q text (ok a) s q h = q refl
  explained Q text (err e) s q h = cc

  Achieves-explaining :
      {A : Type 0} {Q : Sys W → Type 0} (text : String) (m : Exec (Sys W) A)
      → Achieves Q m
      → Achieves Q (explaining kernel text m)
  unfolding explaining ◌>>=◌ attempt
  Achieves-explaining {Q = Q} text m k = record {
    from = λ s h. explained Q text (m s).0 (m s).1 (k.from s) h;
  }

  tags_last :
      (device parent : Bytes) (project : ℕ) (want : DiskQuota)
      → Preserves
          (λ (s : Sys W). Follows Call.tag_directory Call.set_limits s.calls)
          (prepare_limits kernel device parent project want)
  unfolding prepare_limits explaining
  tags_last device parent project want =
      Follows-bind_after Call.tag_directory Call.set_limits _ _
        (Achieves-explaining "set project quota" _ (Achieves-call _ _)) (search call_rules)
        (λ _. search call_rules)

  journal_first :
      (id : String) (disk_mb : ℤ) (ms : List Mount)
      → Preserves
          (λ (s : Sys W). Follows Call.set_limits Call.write_quota_journal s.calls)
          (prepare_quota kernel id disk_mb ms)
  unfolding prepare_quota quota_device enforce_quota enforce_on prepare_limits check_limits
      explaining
  journal_first id disk_mb ms = search call_rules depth 16

  limits_first :
      (id : String) (disk_mb : ℤ) (ms : List Mount)
      → Preserves
          (λ (s : Sys W). Follows Call.tag_directory Call.set_limits s.calls)
          (prepare_quota kernel id disk_mb ms)
  unfolding prepare_quota quota_device enforce_quota enforce_on check_limits explaining
  limits_first id disk_mb ms = search (tags_last, call_rules) depth 16

  retire-order :
      (id : String) (device : Bytes) (rec : QuotaRecord) (o : Option (Unit {0}))
      → Preserves
          (λ (s : Sys W). Follows Call.remove_quota_journal Call.clear_limits s.calls)
          (retire kernel id device rec o)
  unfolding retire
  retire-order id device rec none = search call_rules
  retire-order id device rec (some _) = search call_rules

  on_wake-order :
      (again : Exec (Sys W) (Option (Unit {0}))) (wake : Wake)
      → Preserves (λ (s : Sys W). Follows Call.remove_quota_journal Call.clear_limits s.calls) again
      → Preserves
          (λ (s : Sys W). Follows Call.remove_quota_journal Call.clear_limits s.calls)
          (on_wake kernel again wake)
  unfolding on_wake
  on_wake-order again Wake.tick k = k
  on_wake-order again Wake.deadline k = search call_rules
  on_wake-order again (Wake.cancelled e) k = search call_rules

  is_reclaimed-order :
      (device : Bytes) (rec : QuotaRecord)
      → Preserves
          (λ (s : Sys W). Follows Call.remove_quota_journal Call.clear_limits s.calls)
          (is_reclaimed kernel device rec)
  unfolding is_reclaimed
  is_reclaimed-order device rec = search (refuse_failure_lem, call_rules) depth 12

  poll-order :
      (looks : ℕ) (device : Bytes) (rec : QuotaRecord)
      → Preserves
          (λ (s : Sys W). Follows Call.remove_quota_journal Call.clear_limits s.calls)
          (poll kernel looks device rec)
  unfolding poll sleep
  poll-order zero device rec = search call_rules
  poll-order (suc looks) device rec =
      Preserves-bind _ _ (is_reclaimed-order device rec) λ reclaimed.
        Preserves-if reclaimed _ _ (search call_rules) (
          Preserves-bind _ _ (search call_rules)
            λ wake. on_wake-order _ wake (poll-order looks device rec))

  journal_last :
      (looks : ℕ) (id : String)
      → Preserves
          (λ (s : Sys W). Follows Call.remove_quota_journal Call.clear_limits s.calls)
          (reclaim_quota kernel looks id)
  unfolding reclaim_quota reclaim_storage quota_device
  journal_last looks id = search (retire-order, poll-order, call_rules) depth 16

  -- Whatever the kernel answers: `prepareQuota` sets a limit only after the write of a journal has
  -- succeeded, and charges a directory only after a setting of limits has succeeded; and
  -- `reclaimQuota` removes a journal only after a taking off of limits has succeeded.
  pub order_of_calls :
      (looks : ℕ) (id : String) (disk_mb : ℤ) (ms : List Mount) (w : W)
      → let made = (prepare_quota kernel id disk_mb ms (fresh w)).1.calls in
        let gone = (reclaim_quota kernel looks id (fresh w)).1.calls in
        Follows Call.set_limits Call.write_quota_journal made
        × Follows Call.tag_directory Call.set_limits made
        × Follows Call.remove_quota_journal Call.clear_limits gone
  order_of_calls looks id disk_mb ms w = (
    (journal_first id disk_mb ms).from _ tt,
    (limits_first id disk_mb ms).from _ tt,
    (journal_last looks id).from _ tt,
  )
