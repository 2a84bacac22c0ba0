-- ===== src/Runtime/Create/Rollback.antt =====
-- What a creation that fails leaves of its snapshot.
use mathlib.Core.Path.{subst}
use sandcube.Prelude.{
  Bool-cases, if◌then◌else◌, String, ◌≡◌, refl, ◌⊎◌, inl, inr, Bool, true, false,
}
use sandcube.Exec.{
  Err, Result, ok, err, Exec, succeeded, not_found, join, wrap, attempt, handle, raise, pure, lift,
  ◌>>=◌,
}
use sandcube.Exec.Rules.{Preserves, preserves_rules}
use sandcube.Exec.Leads.{
  Leads, Leads-attempt, Leads-bind_kept, Leads-catch, Leads-Preserves, Leads-if, Leads-raise,
  Leads-pure,
}
use sandcube.Calls.{Call, Sys, call, fresh}
use sandcube.Calls.Laws.{Preserves-call}
use sandcube.Runtime.Types.{Config, Sandbox}
use sandcube.Runtime.Engine.{Engine, Services}
use sandcube.Runtime.Container.{load, describe}
use sandcube.Runtime.Create.{
  rollback_error, reuse, refuse_occupied, recover_snapshot, provide_image, build_container,
  new_container, create_fresh, create,
}

-- A removal that succeeds, or finds nothing, leaves nothing.
abbrev pub Removes : Result (Unit {0}) → Bool → Type 0
Removes (ok _) there = there ≡ false
Removes (err e) there = e.is not_found ≡ true → there ≡ false

-- Whether the snapshot of a sandbox is there. Only its creation brings it, and only one that succeeds.
pub record IsSnapshotting {W : Type 0} (engine : Engine W) (services : Services W) (id : String)
    : Type 0 where
  pub is_there : W → Bool
  pub remove_lem : (w : W) → let (r, w') = engine.remove_snapshot id w in Removes r (is_there w')
  pub new_fails :
      (w : W) (image : String)
      → is_there w ≡ false
      → let (r, w') = engine.new_snapshot id image w in succeeded r ≡ false → is_there w' ≡ false
  pub remove-Absent : Preserves (λ w. is_there w ≡ false) (engine.remove_snapshot id)
  pub load-Absent : Preserves (λ w. is_there w ≡ false) (engine.load_container id)
  pub info-Absent : Preserves (λ w. is_there w ≡ false) (engine.container_info id)
  pub find-Absent : Preserves (λ w. is_there w ≡ false) (engine.find_task id)
  pub status-Absent : Preserves (λ w. is_there w ≡ false) (engine.task_status id)
  pub stat-Absent : Preserves (λ w. is_there w ≡ false) (engine.stat_snapshot id)
  pub reclaim-Absent : Preserves (λ w. is_there w ≡ false) (services.reclaim_quota id)
  pub get-Absent : (image : String) → Preserves (λ w. is_there w ≡ false) (engine.get_image image)
  pub pull-Absent : (image : String) → Preserves (λ w. is_there w ≡ false) (engine.pull_image image)
  pub unpack-Absent :
      (image : String) → Preserves (λ w. is_there w ≡ false) (engine.unpack_image image)

-- An error that tells of a rollback that failed.
abbrev pub SaysRollback : Err → Type 0
SaysRollback e =
    (cause : Err) × (failure : Err) × (e ≡ join cause (wrap "snapshot rollback" failure))

module _ {W : Type 0} {engine : Engine W} {services : Services W} (fingerprint : Config → String)
    (cfg : Config) (snaps : IsSnapshotting engine services cfg.id) where
  abbrev Absent : Sys W → Type 0
  Absent s = snaps.is_there s.world ≡ false

  abbrev Gone : W → Type 0
  Gone w = snaps.is_there w ≡ false

  abbrev Keeps : {A : Type 0} → Exec (Sys W) A → Type 0
  Keeps m = Preserves Absent m

  kept : {A : Type 0} (c : Call) {m : Exec W A} → Preserves Gone m → Keeps (call c m)
  kept c k = Preserves-call Gone c _ k

  load_container-Absent : Keeps (call Call.load_container (engine.load_container cfg.id))
  load_container-Absent = kept _ snaps.load-Absent

  container_info-Absent : Keeps (call Call.container_info (engine.container_info cfg.id))
  container_info-Absent = kept _ snaps.info-Absent

  find_task-Absent : Keeps (call Call.find_task (engine.find_task cfg.id))
  find_task-Absent = kept _ snaps.find-Absent

  task_status-Absent : Keeps (call Call.task_status (engine.task_status cfg.id))
  task_status-Absent = kept _ snaps.status-Absent

  stat_snapshot-Absent : Keeps (call Call.stat_snapshot (engine.stat_snapshot cfg.id))
  stat_snapshot-Absent = kept _ snaps.stat-Absent

  remove_snapshot-Absent : Keeps (call Call.remove_snapshot (engine.remove_snapshot cfg.id))
  remove_snapshot-Absent = kept _ snaps.remove-Absent

  reclaim_quota-Absent : Keeps (call Call.reclaim_quota (services.reclaim_quota cfg.id))
  reclaim_quota-Absent = kept _ snaps.reclaim-Absent

  get_image-Absent : (image : String) → Keeps (call Call.get_image (engine.get_image image))
  get_image-Absent image = kept _ (snaps.get-Absent image)

  pull_image-Absent : (image : String) → Keeps (call Call.pull_image (engine.pull_image image))
  pull_image-Absent image = kept _ (snaps.pull-Absent image)

  unpack_image-Absent :
      (image : String) → Keeps (call Call.unpack_image (engine.unpack_image image))
  unpack_image-Absent image = kept _ (snaps.unpack-Absent image)

  ruleset absent_rules = (
    preserves_rules, load_container-Absent, container_info-Absent, find_task-Absent,
    task_status-Absent, stat_snapshot-Absent, remove_snapshot-Absent, reclaim_quota-Absent,
    get_image-Absent, pull_image-Absent, unpack_image-Absent,
  )

  abbrev pub Clean : {A : Type 0} → Result A → Sys W → Type 0
  Clean (ok _) s = Unit
  Clean (err e) s = (snaps.is_there s.world ≡ false) ⊎ SaysRollback e

  absent_Clean : {A : Type 0} (r : Result A) (s : Sys W) → Absent s → Clean r s
  absent_Clean (ok a) s h = tt
  absent_Clean (err e) s h = inl h

  -- What keeps the absence ends so.
  kept_Clean : {A : Type 0} (m : Exec (Sys W) A) → Preserves Absent m → Leads Absent Clean m
  kept_Clean m k = record { from = λ s h. absent_Clean (m s).0 (m s).1 (k.from s h) }

  removed :
      Leads
        (λ s. Unit)
        (λ r s. Removes r (snaps.is_there s.world))
        (call Call.remove_snapshot (engine.remove_snapshot cfg.id))
  unfolding call
  removed = record { from = λ s h. snaps.remove_lem s.world }

  made :
      Leads Absent
        (λ r s. succeeded r ≡ false → Absent s)
        (call Call.new_snapshot (engine.new_snapshot cfg.id cfg.image))
  unfolding call
  made = record { from = λ s h. snaps.new_fails s.world cfg.image h }

  rolled_back :
      (e f : Err) (s : Sys W)
      → (f.is not_found ≡ true → Absent s)
      → Clean {A = Sandbox} (err (rollback_error e (err f))) s
  unfolding rollback_error
  rolled_back e f s h = elim (Bool-cases (f.is not_found)) [
    | inl gone ↦ inl (h gone)
    | inr failed ↦ inr (e, f, rw failed refl)
  ]

  report_Clean :
      (e : Err) (r : Result (Unit {0}))
      → Leads
          (λ s. Removes r (snaps.is_there s.world))
          Clean
          (raise {A = Sandbox} (rollback_error e r))
  unfolding rollback_error
  report_Clean e (ok u) = Leads-raise _ (λ s h. inl h)
  report_Clean e (err f) = Leads-raise _ (λ s h. rolled_back e f s h)

  rollback_Clean :
      (e : Err)
      → Leads
          (λ s. Unit)
          Clean
          (attempt (call Call.remove_snapshot (engine.remove_snapshot cfg.id))
            >>= (λ r. raise {A = Sandbox} (rollback_error e r)))
  rollback_Clean e = Leads-attempt _ _ _ removed (λ r. report_Clean e r)

  abbrev stopped : Sandbox
  stopped = record { id = cfg.id; status = "stopped"; snapshot = cfg.id }

  whatever :
      {A : Type 0} {P : Sys W → Type 0} (m : Exec (Sys W) A) → Leads P (λ (r : Result A) s. Unit) m
  whatever m = record { from = λ s h. tt }

  -- What is behind the options that have run.
  abbrev behind : Result (Unit {0}) → Result (Unit {0}) → Exec (Sys W) Sandbox
  behind snapshot =
      handle (λ _. pure stopped)
        (λ e.
          if succeeded snapshot
          then attempt (call Call.remove_snapshot (engine.remove_snapshot cfg.id))
            >>= (λ r. raise (rollback_error e r))
          else raise e)

  behind-Clean : (r : Result (Unit {0})) → Leads (λ s. Unit) Clean (behind (ok tt) r)
  unfolding handle
  behind-Clean (ok u) = Leads-pure stopped (λ s h. tt)
  behind-Clean (err e) = rollback_Clean e

  unbuilt_Clean :
      (e : Err)
      → Leads
          (λ s. succeeded {A = Unit {0}} (err e) ≡ false → Absent s)
          Clean
          (attempt (build_container engine services fingerprint cfg (err e)) >>= behind (err e))
  unfolding build_container ◌>>=◌ lift attempt handle raise
  unbuilt_Clean e = record { from = λ s h. inl (h refl) }

  built_Clean :
      (snapshot : Result (Unit {0}))
      → Leads
          (λ s. succeeded snapshot ≡ false → Absent s)
          Clean
          (attempt (build_container engine services fingerprint cfg snapshot) >>= behind snapshot)
  built_Clean (ok tt) =
      Leads-attempt (λ (r : Result (Unit {0})) s. Unit) _ _ (whatever _) behind-Clean
  built_Clean (err e) = unbuilt_Clean e

  new_container-Clean : Leads Absent Clean (new_container engine services fingerprint cfg)
  unfolding new_container
  new_container-Clean = Leads-attempt _ _ _ made built_Clean

  create_fresh-Clean : Leads Absent Clean (create_fresh engine services fingerprint cfg)
  unfolding create_fresh refuse_occupied recover_snapshot provide_image
  create_fresh-Clean =
      Leads-bind_kept _ _ (search absent_rules depth 9) (λ e s h. inl h)
        λ _.
          Leads-bind_kept _ _ (search absent_rules depth 9) (λ e s h. inl h)
            λ _.
              Leads-bind_kept _ _ (search absent_rules depth 9) (λ e s h. inl h)
                λ _.
                  Leads-bind_kept _ _ (search absent_rules depth 9) (λ e s h. inl h)
                    λ _.
                      Leads-bind_kept _ _ (search absent_rules depth 9) (λ e s h. inl h)
                        (λ _. new_container-Clean)

  load_Absent : Preserves Absent (load engine cfg.id)
  unfolding load
  load_Absent = search absent_rules depth 9

  reuse_Absent : Preserves Absent (reuse engine services fingerprint cfg)
  unfolding reuse describe
  reuse_Absent = search absent_rules depth 12

  create_Clean : Leads Absent Clean (create engine services fingerprint cfg)
  unfolding create
  create_Clean =
      Leads-catch (λ _ s. Absent s) _ _ _ (Leads-Preserves load_Absent)
        (λ _. kept_Clean _ reuse_Absent)
        λ e. Leads-if _ _ _ (λ _. create_fresh-Clean) (λ _. Leads-raise e (λ s h. inl h))

  -- Where the snapshot of a sandbox is not there, a creation that fails, at whatever step, leaves none
  -- behind, unless its error tells that the rollback of the snapshot has failed.
  pub create_settled :
      (w : W)
      → snaps.is_there w ≡ false
      → (e : Err) → (create engine services fingerprint cfg (fresh w)).0 ≡ err e
      → (snaps.is_there (create engine services fingerprint cfg (fresh w)).1.world ≡ false)
        ⊎ SaysRollback e
  create_settled w h e failed =
      subst (λ r. Clean r (create engine services fingerprint cfg (fresh w)).1) failed
        (create_Clean.from (fresh w) h)
