-- ===== src/Quota/Journal/Reconciled.antt =====
-- What the reconciliation of the quotas keeps.
use sandcube.Prelude.{ℕ, String, Option, none, some, List, [], ◌∷◌}
use sandcube.Exec.{Exec}
use sandcube.Exec.Rules.{
  Preserves, Preserves-bind, Preserves-attempt, Preserves-handle, Preserves-if, Preserves-pure,
  Preserves-raise, Preserves-refuse_if,
}
use sandcube.Calls.{Sys}
use sandcube.Calls.Laws.{Preserves-call}
use sandcube.Quota.Kernel.{Kernel}
use sandcube.Quota.Journal.{
  reclaim_quota, is_missing, reconcile_snapshot, reconcile_quota, if_finished, reconcile_each,
  reconcile_quotas,
}
use sandcube.Quota.Journal.Safety.{IsGuarded, reclaim_quota-Safe}

-- The lookups by which the journals are chosen keep it too.
pub record IsChoosing {W : Type 0} (kernel : Kernel W) (Safe : W → Type 0) : Type 0 where
  pub list-Safe : Preserves Safe kernel.list_journals
  pub load-Safe : (id : String) → Preserves Safe (kernel.load_container id)
  pub stat-Safe : (id : String) → Preserves Safe (kernel.stat_snapshot id)

module _ {W : Type 0} {kernel : Kernel W} {Safe : W → Type 0} (guarded : IsGuarded kernel Safe)
    (choosing : IsChoosing kernel Safe) where
  abbrev Kept : Sys W → Type 0
  Kept s = Safe s.world

  missing_Kept :
      {A : Type 0} (m : Exec (Sys W) A) → Preserves Kept m → Preserves Kept (is_missing kernel m)
  unfolding is_missing
  missing_Kept m k = Preserves-bind _ _ (Preserves-attempt m k) λ r.
      Preserves-handle _ _ r (λ _. Preserves-pure _)
        (λ e. Preserves-if _ _ _ (Preserves-pure _) (Preserves-raise e))

  reclaim_Kept : (looks : ℕ) (id : String) → Preserves Kept (reclaim_quota kernel looks id)
  reclaim_Kept looks id = record { from = reclaim_quota-Safe guarded looks id }

  snapshot_Kept : (looks : ℕ) (id : String) → Preserves Kept (reconcile_snapshot kernel looks id)
  unfolding reconcile_snapshot
  snapshot_Kept looks id =
      Preserves-bind _ _ (missing_Kept _ (Preserves-call Safe _ _ (choosing.stat-Safe id)))
        (λ b. Preserves-if b _ _ (reclaim_Kept looks id) (Preserves-pure _))

  quota_Kept : (looks : ℕ) (id : String) → Preserves Kept (reconcile_quota kernel looks id)
  unfolding reconcile_quota
  quota_Kept looks id = Preserves-bind _ _ (Preserves-refuse_if _ _) λ _.
      Preserves-bind _ _ (missing_Kept _ (Preserves-call Safe _ _ (choosing.load-Safe id)))
        (λ b. Preserves-if b _ _ (snapshot_Kept looks id) (Preserves-pure _))

  finished_Kept :
      (m : Exec (Sys W) (Option (Unit {0}))) (o : Option (Unit {0}))
      → Preserves Kept m
      → Preserves Kept (if_finished kernel m o)
  finished_Kept m none k = Preserves-pure none
  finished_Kept m (some _) k = k

  each_Kept : (looks : ℕ) (ids : List String) → Preserves Kept (reconcile_each kernel looks ids)
  unfolding reconcile_each
  each_Kept looks [] = Preserves-pure _
  each_Kept looks (id ∷ ids) =
      Preserves-bind _ _ (quota_Kept looks id) (λ o. finished_Kept _ o (each_Kept looks ids))

  pub reconcile_Kept : (looks : ℕ) → Preserves Kept (reconcile_quotas kernel looks)
  unfolding reconcile_quotas
  reconcile_Kept looks =
      Preserves-bind _ _ (Preserves-call Safe _ _ choosing.list-Safe) (each_Kept looks)
