-- ===== src/Calls/Laws.antt =====
-- How one recorded call bears on the orders between calls.
use sandcube.Prelude.{◌≡◌, true, false, Bool, arith}
use sandcube.Exec.{Exec, ◌>>=◌}
use sandcube.Exec.Rules.{Preserves, Achieves, Preserves-bind_after, preserves_rules}
use sandcube.Calls.{Call, Sys, call, same_call, any_call, done, Follows}

module _ {W A : Type 0} where
  -- A call of something else.
  pub Follows-call :
      (e c d : Call) (m : Exec W A)
      → same_call c e ≡ false
      → Preserves (λ (s : Sys W). Follows c d s.calls) (call e m)
  unfolding call
  Follows-call e c d m h = record { from = λ s f. ground arith }

  -- What has been done stays done.
  pub done-call :
      (e c : Call) (m : Exec W A) → Preserves (λ (s : Sys W). done c s.calls ≡ true) (call e m)
  unfolding call
  done-call e c m = record { from = λ s f. ground arith }

  -- Once `d` has been done, every call keeps the order.
  pub Follows-call_after :
      (e c d : Call) (m : Exec W A)
      → Preserves (λ (s : Sys W). Follows c d s.calls × (done d s.calls ≡ true)) (call e m)
  unfolding call
  Follows-call_after e c d m = record { from = λ s f. ground arith }

  -- What the world's action keeps, the call keeps.
  pub Preserves-call :
      (P : W → Type 0) (c : Call) (m : Exec W A)
      → Preserves P m
      → Preserves (λ (s : Sys W). P s.world) (call c m)
  unfolding call
  Preserves-call P c m k = record { from = λ s h. k.from s.world h }

  pub Achieves-call :
      (c : Call) (m : Exec W A) → Achieves (λ (s : Sys W). done c s.calls ≡ true) (call c m)
  unfolding call
  Achieves-call c m = record { from = λ s f. ground arith }

  -- A call of another kind.
  pub any_call-call :
      (e : Call) (p : Call → Bool) (m : Exec W A)
      → p e ≡ false
      → Preserves (λ (s : Sys W). any_call p s.calls ≡ false) (call e m)
  unfolding call
  any_call-call e p m h = record { from = λ s f. ground arith }

module _ {W A B : Type 0} where
  -- After the call of `d` has succeeded, the rest may call `c`.
  pub Follows-bind :
      (c d : Call) (m : Exec W A) (f : A → Exec (Sys W) B)
      → same_call c d ≡ false
      → ((a : A) → Preserves (λ (s : Sys W). Follows c d s.calls × (done d s.calls ≡ true)) (f a))
      → Preserves (λ (s : Sys W). Follows c d s.calls) (call d m >>= f)
  Follows-bind c d m f h k =
      Preserves-bind_after (λ s. done d s.calls ≡ true) _ _ (Achieves-call d m)
        (Follows-call d c d m h) k

  -- The same where a whole action has done `d`.
  pub Follows-bind_after :
      (c d : Call) (m : Exec (Sys W) A) (f : A → Exec (Sys W) B)
      → Achieves (λ (s : Sys W). done d s.calls ≡ true) m
      → Preserves (λ (s : Sys W). Follows c d s.calls) m
      → ((a : A) → Preserves (λ (s : Sys W). Follows c d s.calls × (done d s.calls ≡ true)) (f a))
      → Preserves (λ (s : Sys W). Follows c d s.calls) (m >>= f)
  Follows-bind_after c d m f g h k = Preserves-bind_after (λ s. done d s.calls ≡ true) _ _ g h k

pub ruleset call_rules =
    (Follows-bind, preserves_rules, Follows-call, Follows-call_after, done-call, any_call-call)
