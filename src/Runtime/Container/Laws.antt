-- ===== src/Runtime/Container/Laws.antt =====
-- What the lookup of a container tells, where containerd tells what containers there are.
use mathlib.Core.Path.{subst}
use sandcube.Prelude.{String, ◌≡◌, refl, ◌∙◌, Bool, true, false, not, Option, none, some}
use sandcube.Exec.{Result, ok, err, Exec, not_found, pure, OnOk, refuse_if, wrap, ◌>>=◌, ◌>>◌}
use sandcube.Exec.Leads.{
  Leads, Leads-weaken, Leads-bind, Leads-catch, Leads-if, Leads-pure, Leads-raise,
}
use sandcube.Calls.{Call, Sys, call}
use sandcube.Runtime.Types.{Sandbox}
use sandcube.Runtime.Engine.{Engine, ContainerInfo}
use sandcube.Runtime.Container.{err_not_found, is_managed, load, describe}

-- The containers, by their IDs.
abbrev pub Containers : Type 0
Containers = String → Option ContainerInfo

-- What an answer tells of a container: that it is there, or, by an error of this kind, that it is not.
abbrev pub Present : Option ContainerInfo → Result (Unit {0}) → Type 0
Present none (ok _) = ⊥
Present (some info) (ok _) = Unit
Present o (err e) = e.is not_found ≡ true → o ≡ none

abbrev pub Tells : Option ContainerInfo → Result ContainerInfo → Type 0
Tells o (ok info) = o ≡ some info
Tells o (err e) = e.is not_found ≡ true → o ≡ none

-- The lookups tell what containers there are and leave them.
pub record IsTelling {W : Type 0} (engine : Engine W) : Type 0 where
  pub containers : W → Containers
  pub load_lem : (w : W) (id : String) → Present (containers w id) (engine.load_container id w).0
  pub info_lem : (w : W) (id : String) → Tells (containers w id) (engine.container_info id w).0
  pub containers-load :
      (w : W) (id : String) → containers (engine.load_container id w).1 ≡ containers w
  pub containers-info :
      (w : W) (id : String) → containers (engine.container_info id w).1 ≡ containers w
  pub containers-task : (w : W) (id : String) → containers (engine.find_task id w).1 ≡ containers w
  pub containers-status :
      (w : W) (id : String) → containers (engine.task_status id w).1 ≡ containers w

abbrev pub manages : Option ContainerInfo → Bool
manages none = false
manages (some info) = is_managed info

-- What `load` tells.
abbrev pub Loaded : Option ContainerInfo → Result ContainerInfo → Type 0
Loaded o (ok info) = manages o ≡ true
Loaded o (err e) = e.is not_found ≡ true → manages o ≡ false

module _ {W : Type 0} {engine : Engine W} (telling : IsTelling engine) (c : Containers) where
  open telling use {containers}

  abbrev pub Look : Sys W → Type 0
  Look s = containers s.world ≡ c

  pub lookup :
      {A : Type 0} (Q : Containers → Result A → Type 0) (x : Call) (m : Exec W A)
      → ((w : W) → containers (m w).1 ≡ containers w)
      → ((w : W) → Q (containers w) (m w).0)
      → Leads Look (λ r s. Look s × Q c r) (call x m)
  unfolding call
  lookup Q x m k q = record {
    from = λ s h. (k s.world ∙ h, subst (λ v. Q v (m s.world).0) h (q s.world));
  }

  pub lookup_kept :
      {A : Type 0} (x : Call) (m : Exec W A)
      → ((w : W) → containers (m w).1 ≡ containers w)
      → Leads Look (λ (r : Result A) s. Look s) (call x m)
  unfolding call
  lookup_kept x m k = record { from = λ s h. k s.world ∙ h }

  passes :
      (id : String) (info : ContainerInfo) (b : Bool)
      → is_managed info ≡ b
      → Leads
          (λ s. Look s × (c id ≡ some info))
          (λ r s. Look s × Loaded (c id) r)
          (refuse_if (not b) (wrap "unmanaged container" err_not_found) >> pure info)
  unfolding refuse_if ◌>>=◌
  passes id info true e = record { from = λ s h. (h.0, rw (h.1) e) }
  passes id info false e = record { from = λ s h. (h.0, λ _. rw (h.1) e) }

  pub load_Loaded : (id : String) → Leads Look (λ r s. Look s × Loaded (c id) r) (load engine id)
  unfolding load
  load_Loaded id =
      Leads-bind (λ r s. Look s × Present (c id) r) _ _
        (lookup (λ v. Present (v id)) _ _ (λ w. telling.containers-load w id)
          (λ w. telling.load_lem w id))
        (λ e s h. (h.0, λ gone. rw (h.1 gone)))
        λ _.
          Leads-bind (λ r s. Look s × Tells (c id) r) _ _
            (Leads-weaken
              (lookup (λ v. Tells (v id)) _ _ (λ w. telling.containers-info w id)
                (λ w. telling.info_lem w id))
              (λ s h. h.0))
            (λ e s h. (h.0, λ gone. rw (h.1 gone))) λ info. passes id info (is_managed info) refl

  pub describe_lem :
      (id : String)
      → Leads Look (λ r s. Look s × OnOk (λ (x : Sandbox). x.id ≡ id) r) (describe engine id)
  unfolding describe
  describe_lem id =
      Leads-bind (λ r s. Look s) _ _ (lookup_kept _ _ (λ w. telling.containers-info w id))
        (λ e s h. (h, tt))
        λ info.
          Leads-catch (λ r s. Look s) _ _ _ (lookup_kept _ _ (λ w. telling.containers-task w id))
            (λ _.
              Leads-bind (λ r s. Look s) _ _ (lookup_kept _ _ (λ w. telling.containers-status w id))
                (λ e s h. (h, tt)) λ state. Leads-pure _ (λ s h. (h, refl)))
            λ e.
              Leads-if (e.is not_found) _ _ (λ _. Leads-pure _ (λ s h. (h, refl)))
                (λ _. Leads-raise e (λ s h. (h, tt)))
