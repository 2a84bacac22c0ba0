-- ===== src/Quota/Journal/Laws.antt =====
-- Reclaiming ends, and it takes no limit off storage that is in use.
use sandcube.Prelude.{ℕ, zero, suc, ◌<◌, ◌≤◌, String, ◌≡◌, refl, Option, none, some, arith}
use sandcube.Exec.{Err, OnOk, Exec, ◌>>=◌}
use sandcube.Exec.Rules.{Preserves, preserves_rules}
use sandcube.Exec.Outcomes.{Gives, Gives-pure, gives_rules}
use sandcube.Exec.Leads.{Leads, Leads-pure, Leads-raise, Leads-if, Leads-bind, Leads-bind_kept}
use sandcube.Calls.{Call, Sys, call}
use sandcube.Paths.{Bytes}
use sandcube.Quota.Kernel.{Kernel, QuotaRecord, Wake}
use sandcube.Quota.Journal.{
  is_reclaimed, on_wake, sleep, poll, retire, reclaim_storage, reclaim_quota, refuse_failure,
}

-- The check of what stat says changes nothing.
pub refuse_failure_lem :
    {S : Type 0} (P : S → Type 0) (r : Option Err) → Preserves P (refuse_failure r)
unfolding refuse_failure
refuse_failure_lem P none = search preserves_rules
refuse_failure_lem P (some e) = search preserves_rules

-- What remains of the time in ticks. A tick takes some of it, and no other call gives any back.
pub record IsTimed {W : Type 0} (kernel : Kernel W) : Type 0 where
  pub left : W → ℕ
  pub most : ℕ
  pub left-most : (w : W) → left w ≤ most
  pub left-wait : (w : W) → (kernel.wait w).0 ≡ Wake.tick → left (kernel.wait w).1 < left w
  pub left-stat : (w : W) (path : Bytes) → left (kernel.stat path w).1 ≤ left w
  pub left-get_quota :
      (w : W) (device : Bytes) (project : ℕ) → left (kernel.get_quota device project w).1 ≤ left w

abbrev pub IsFinished : Option (Unit {0}) → Type 0
IsFinished o = o ≡ some tt

module _ {W : Type 0} {kernel : Kernel W} (timed : IsTimed kernel) where
  open timed use {left}

  abbrev Within : ℕ → Sys W → Type 0
  Within n s = left s.world < n

  stat-Within :
      (n : ℕ) (path : Bytes) → Preserves (Within n) (call Call.stat_storage (kernel.stat path))
  unfolding call
  stat-Within n path = record { from = λ s h. ground (arith, timed.left-stat s.world path) }

  get_quota-Within :
      (n : ℕ) (device : Bytes) (project : ℕ)
      → Preserves (Within n) (call Call.read_limits (kernel.get_quota device project))
  unfolding call
  get_quota-Within n device project = record {
    from = λ s h. ground (arith, timed.left-get_quota s.world device project);
  }

  is_reclaimed-Within :
      (n : ℕ) (device : Bytes) (rec : QuotaRecord)
      → Preserves (Within n) (is_reclaimed kernel device rec)
  unfolding is_reclaimed
  is_reclaimed-Within n device rec =
      search (preserves_rules, stat-Within, get_quota-Within, refuse_failure_lem) depth 9

  abbrev Finishes : ℕ → Exec (Sys W) (Option (Unit {0})) → Type 0
  Finishes n m = Leads (Within n) (λ r _. OnOk IsFinished r) m

  on_wake_lem :
      (n : ℕ) (again : Exec (Sys W) (Option (Unit {0}))) (wake : Wake)
      → Finishes n again
      → Leads
          (λ s. wake ≡ Wake.tick → Within n s)
          (λ r _. OnOk IsFinished r)
          (on_wake kernel again wake)
  unfolding on_wake
  on_wake_lem n again Wake.tick k = record { from = λ s h. k.from s (h refl) }
  on_wake_lem n again Wake.deadline k = Leads-raise _ (λ s h. tt)
  on_wake_lem n again (Wake.cancelled e) k = Leads-raise _ (λ s h. tt)

  sleep_lem :
      (n : ℕ)
      → Leads
          (Within (suc n))
          (λ r s. OnOk (λ wake. wake ≡ Wake.tick → Within n s) r)
          (sleep kernel)
  unfolding sleep call
  sleep_lem n = record { from = λ s h woken. ground (arith, timed.left-wait s.world woken) }

  -- More looks than ticks are left are never used up.
  poll_lem : (n : ℕ) (device : Bytes) (rec : QuotaRecord) → Finishes n (poll kernel n device rec)
  unfolding poll
  poll_lem zero device rec = record { from = λ s h. ground arith }
  poll_lem (suc n) device rec =
      Leads-bind_kept _ _ (is_reclaimed-Within (suc n) device rec) (λ e t h. tt)
        λ reclaimed.
          Leads-if _ _ _ (λ _. Leads-pure _ (λ s h. refl))
            λ _.
              Leads-bind _ _ _ (sleep_lem n) (λ e t h. tt)
                λ wake. on_wake_lem n _ wake (poll_lem n device rec)

  retire_lem :
      (id : String) (device : Bytes) (rec : QuotaRecord) (o : Option (Unit {0}))
      → Leads (λ _. IsFinished o) (λ r _. OnOk IsFinished r) (retire kernel id device rec o)
  unfolding retire
  retire_lem id device rec none = record { from = λ s h. ground (arith, h) }
  retire_lem id device rec (some _) =
      let rest : Gives IsFinished (retire kernel id device rec (some tt)) =
        search (gives_rules, Gives-pure) in
      record { from = λ s _. rest.from s }

  reclaimed_there :
      (looks : ℕ) (id : String) (device : Bytes) (rec : QuotaRecord)
      → timed.most < looks
      → Gives IsFinished (poll kernel looks device rec >>= retire kernel id device rec)
  reclaimed_there looks id device rec enough = record {
    from = λ s.
        (Leads-bind (λ r _. OnOk IsFinished r) _ _ (poll_lem looks device rec) (λ e t h. tt)
            (retire_lem id device rec)).from
          s (ground (arith, timed.left-most s.world));
  }

  finished :
      (looks : ℕ) (id : String)
      → timed.most < looks
      → Gives IsFinished (reclaim_quota kernel looks id)
  unfolding reclaim_quota reclaim_storage
  finished looks id enough = search (gives_rules, Gives-pure, reclaimed_there) depth 9

  -- The loop of `reclaimQuota` ends: when there are more looks than the most ticks that its time
  -- holds, they are not used up, and the code returns nil or an error.
  pub reclaim_quota-IsFinished :
      (looks : ℕ) (id : String) (s : Sys W)
      → timed.most < looks
      → OnOk IsFinished (reclaim_quota kernel looks id s).0
  reclaim_quota-IsFinished looks id s enough = (finished looks id enough).from s
