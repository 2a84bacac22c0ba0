-- ===== src/Network/Reconcile/Laws.antt =====
-- Which networks `reconcileNetworks` leaves alone.
use sandcube.Prelude.{String, str_eq, ◌≡◌, refl, sym, Bool, true, false, not, arith, if◌then◌else◌}
use sandcube.Exec.{
  Err, Result, ok, err, Exec, not_found, OnOk, pure, raise, refuse_if, wrap, ◌>>=◌, ◌>>◌,
}
use sandcube.Exec.Rules.{
  Preserves, Preserves-guard, Preserves-bind, Preserves-pure, Preserves-for_each,
}
use sandcube.Exec.Leads.{
  Leads, Leads-weaken, Leads-bind, Leads-catch, Leads-pure, Leads-raise, Preserves-Leads,
}
use sandcube.Calls.{Call, Sys, call}
use sandcube.Runtime.Types.{Sandbox}
use sandcube.Runtime.Engine.{Engine, ContainerInfo, TaskState}
use sandcube.Runtime.Container.{err_not_found, is_managed, status_text, load, describe, inspect}
use sandcube.Network.Host.{Host}
use sandcube.Network.Remove.{remove_network}
use sandcube.Network.Reconcile.{Journals, trim_json, reconcile_network, reconcile_networks}
use sandcube.Network.Reconcile.Sparing.{
  Denies, is_running, IsSparing, Kept, outside_Kept, remove_Kept,
}

module _ {W : Type 0} {engine : Engine W} {host : Host W} {journals : Journals W}
    {runs : String → Bool} {Safe : W → Type 0}
    (sparing : IsSparing engine host journals runs Safe) where
  abbrev Fine : Sys W → Type 0
  Fine = Kept sparing

  ask :
      {A : Type 0} (Q : Result A → Type 0) (c : Call) (m : Exec W A)
      → Preserves Safe m
      → ((w : W) → Safe w → Q (m w).0)
      → Leads Fine (λ r s. Fine s × Q r) (call c m)
  unfolding call
  ask Q c m k q = record { from = λ s h. (k.from s.world h, q s.world h) }

  -- What an inspection says of whether the sandbox runs.
  abbrev Says : Bool → Result Sandbox → Type 0
  Says b (ok x) = str_eq x.status "running" ≡ false → b ≡ false
  Says b (err e) = e.is not_found ≡ true → b ≡ false

  abbrev Answers : Bool → Result Sandbox → Sys W → Type 0
  Answers b r s = Fine s × Says b r

  status_Says :
      (b : Bool) (state : TaskState)
      → is_running state ≡ b
      → str_eq (status_text state) "running" ≡ false
      → b ≡ false
  status_Says b TaskState.running e h = absurd (ground (arith, h))
  status_Says b TaskState.paused e h = sym e
  status_Says b TaskState.pausing e h = sym e
  status_Says b TaskState.created e h = sym e
  status_Says b TaskState.stopped e h = sym e
  status_Says b TaskState.unknown e h = sym e

  absent_Says :
      (id snapshot : String) (b : Bool) (e : Err) (gone : Bool)
      → e.is not_found ≡ gone
      → Leads
          (λ s. Fine s × (e.is not_found ≡ true → b ≡ false))
          (Answers b)
          (if gone
            then pure (record { id = id; status = "stopped"; snapshot = snapshot })
            else raise e)
  absent_Says id snapshot b e true known = Leads-pure _ (λ s h. (h.0, λ _. h.1 known))
  absent_Says id snapshot b e false known = Leads-raise e (λ s h. h)

  describe_Says : (id : String) → Leads Fine (Answers (runs id)) (describe engine id)
  unfolding describe
  describe_Says id =
      Leads-bind (λ r s. Fine s × Denies (runs id) r) _ _
        (ask (Denies (runs id)) _ _ (sparing.info-Safe id) (λ w h. (sparing.info_lem w id h).0))
        (λ e s h. h)
        λ info.
          Leads-weaken
            (Leads-catch (λ r s. Fine s × Denies (runs id) r) _ _ _
              (ask (Denies (runs id)) _ _ (sparing.task-Safe id) (λ w h. sparing.task_lem w id h))
              (λ _.
                Leads-weaken
                  (Leads-bind
                    (λ r s.
                      Fine s × (Denies (runs id) r × OnOk (λ state. is_running state ≡ runs id) r))
                    _ _
                    (ask (λ r. Denies (runs id) r × OnOk (λ state. is_running state ≡ runs id) r) _
                      _ (sparing.status-Safe id) (λ w h. sparing.status_lem w id h))
                    (λ e s h. (h.0, h.1.0))
                    λ state. Leads-pure _ (λ s h. (h.0, status_Says (runs id) state h.1.1)))
                  (λ s h. h.0))
              λ e. absent_Says id _ _ e (e.is not_found) refl)
            (λ s h. h.0)

  abbrev About : ContainerInfo → Bool → Type 0
  About info b = is_managed info ≡ false → b ≡ false

  admit_Says :
      (info : ContainerInfo) (b managed : Bool)
      → is_managed info ≡ managed
      → Leads
          (λ s. Fine s × About info b)
          (λ r s. Fine s × Denies b r)
          (refuse_if (not managed) (wrap "unmanaged container" err_not_found) >> pure info)
  unfolding refuse_if ◌>>=◌
  admit_Says info b true e = record { from = λ s h. (h.0, tt) }
  admit_Says info b false e = record { from = λ s h. (h.0, λ _. h.1 e) }

  load_Says : (id : String) → Leads Fine (λ r s. Fine s × Denies (runs id) r) (load engine id)
  unfolding load
  load_Says id =
      Leads-bind (λ r s. Fine s × Denies (runs id) r) _ _
        (ask (Denies (runs id)) _ _ (sparing.load-Safe id) (λ w h. sparing.load_lem w id h))
        (λ e s h. h)
        λ _.
          Leads-weaken
            (Leads-bind
              (λ r s. Fine s × (Denies (runs id) r × OnOk (λ info. About info (runs id)) r)) _ _
              (ask (λ r. Denies (runs id) r × OnOk (λ info. About info (runs id)) r) _ _
                (sparing.info-Safe id) (λ w h. sparing.info_lem w id h))
              (λ e s h. (h.0, h.1.0))
              λ info.
                Leads-weaken (admit_Says info (runs id) (is_managed info) refl)
                  (λ s h. (h.0, h.1.1)))
            (λ s h. h.0)

  inspect_Says : (id : String) → Leads Fine (Answers (runs id)) (inspect engine id)
  unfolding inspect
  inspect_Says id =
      Leads-bind (λ r s. Fine s × Denies (runs id) r) _ _ (load_Says id) (λ e s h. h)
        λ _. Leads-weaken (describe_Says id) (λ s h. h.0)

  -- What is known not to run goes.
  if_off :
      (id : String) (b : Bool) (m : Exec (Sys W) (Unit {0}))
      → Preserves Fine m
      → Leads
          (λ s. Fine s × (b ≡ true → runs id ≡ false))
          (λ _ s. Fine s)
          (if b then remove_network host id else m)
  if_off id true m k = record { from = λ s h. (remove_Kept sparing id (h.1 refl)).from s h.0 }
  if_off id false m k = record { from = λ s h. k.from s h.0 }

  unless_gone :
      (id : String) (b : Bool) (e : Err)
      → Leads
          (λ s. Fine s × (b ≡ true → runs id ≡ false))
          (λ _ s. Fine s)
          (if not b then raise e else remove_network host id)
  unless_gone id true e = record { from = λ s h. (remove_Kept sparing id (h.1 refl)).from s h.0 }
  unless_gone id false e = Leads-raise e (λ s h. h.0)

  flip : {X : Type 0} (b : Bool) → (b ≡ false → X) → not b ≡ true → X
  flip true k e = absurd (ground (arith, e))
  flip false k e = k refl

  one_Kept : (id : String) → Preserves Fine (reconcile_network engine host journals id)
  unfolding reconcile_network
  one_Kept id = Preserves-guard _ _ _ λ valid. Preserves-Leads (
      Leads-catch (Answers (runs id)) _ _ _ (inspect_Says id)
        (λ x.
          Leads-weaken (if_off id _ _ (Preserves-pure tt))
            (λ s h. (h.0, flip (str_eq x.status "running") h.1)))
        (λ e. unless_gone id (e.is not_found) e))

  -- No network of a sandbox that runs is taken down.
  pub reconcile_networks-Kept : Preserves Fine (reconcile_networks engine host journals)
  unfolding reconcile_networks
  reconcile_networks-Kept =
      Preserves-bind _ _ (outside_Kept sparing _ _ sparing.names-Safe)
        (λ names. Preserves-for_each _ _ (λ name. one_Kept (trim_json name)))
