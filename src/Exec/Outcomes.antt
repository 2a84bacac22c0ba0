-- ===== src/Exec/Outcomes.antt =====
-- What an action ends with, and what it gives: one rule for each way to build an action.
use sandcube.Prelude.{◌≡◌, refl, Bool, true, false, if◌then◌else◌}
use sandcube.Exec.{
  Err, Result, ok, err, succeeded, OnOk, Exec, pure, raise, handle, continue, ◌>>=◌,
}
use sandcube.Exec.Rules.{Preserves}

-- From `P`, the action ends with `Q` of whether it succeeded and of its last state.
pub record Ends {S A : Type 0} (P : S → Type 0) (Q : Bool → S → Type 0) (m : Exec S A)
    : Type 0 where
  pub from : (s : S) → P s → Q (succeeded (m s).0) (m s).1

module _ {S A : Type 0} {P : S → Type 0} {Q : Bool → S → Type 0} where
  pub Ends-Preserves :
      (m : Exec S A) → Preserves P m → ((b : Bool) (s : S) → P s → Q b s) → Ends P Q m
  Ends-Preserves m k q = record { from = λ s h. q (succeeded (m s).0) (m s).1 (k.from s h) }

  pub Ends-if :
      (b : Bool) (m n : Exec S A) → Ends P Q m → Ends P Q n → Ends P Q (if b then m else n)
  Ends-if true m n k l = k
  Ends-if false m n k l = l

module _ {S A B : Type 0} {P : S → Type 0} {Q : Bool → S → Type 0} where
  pub Ends-handle :
      (f : A → Exec S B) (g : Err → Exec S B) (r : Result A)
      → ((a : A) → Ends P Q (f a))
      → ((e : Err) → Ends P Q (g e))
      → Ends P Q (handle f g r)
  unfolding handle
  Ends-handle f g (ok a) k l = k a
  Ends-handle f g (err e) k l = l e

  Ends-continue :
      (r : Result A) (f : A → Exec S B) (s : S)
      → P s
      → ((t : S) → P t → Q false t)
      → ((a : A) → Ends P Q (f a))
      → Q (succeeded (continue r f s).0) (continue r f s).1
  Ends-continue (ok a) f s h q k = (k a).from s h
  Ends-continue (err e) f s h q k = q s h

  pub Ends-bind :
      (m : Exec S A) (f : A → Exec S B)
      → Preserves P m
      → ((t : S) → P t → Q false t)
      → ((a : A) → Ends P Q (f a))
      → Ends P Q (m >>= f)
  unfolding ◌>>=◌
  Ends-bind m f k q l = record { from = λ s h. Ends-continue (m s).0 f (m s).1 (k.from s h) q l }

pub ruleset ends_rules = (Ends-if, Ends-handle, Ends-bind)

-- What the value is, of an action that gives one.
pub record Gives {S A : Type 0} (Q : A → Type 0) (m : Exec S A) : Type 0 where
  pub from : (s : S) → OnOk Q (m s).0

module _ {S A : Type 0} {Q : A → Type 0} where
  pub Gives-pure : (a : A) → Q a → Gives {S = S} Q (pure a)
  unfolding pure
  Gives-pure a q = record { from = λ s. q }

  pub Gives-raise : (e : Err) → Gives {S = S} Q (raise {A = A} e)
  unfolding raise
  Gives-raise e = record { from = λ s. tt }

  pub Gives-if :
      (b : Bool) (m n : Exec S A)
      → Gives Q m
      → (b ≡ false → Gives Q n)
      → Gives Q (if b then m else n)
  Gives-if true m n k l = k
  Gives-if false m n k l = l refl

module _ {S A B : Type 0} {Q : B → Type 0} where
  Gives-continue :
      (r : Result A) (f : A → Exec S B) (s : S)
      → ((a : A) → Gives Q (f a))
      → OnOk Q (continue r f s).0
  Gives-continue (ok a) f s k = (k a).from s
  Gives-continue (err e) f s k = tt

  pub Gives-bind : (m : Exec S A) (f : A → Exec S B) → ((a : A) → Gives Q (f a)) → Gives Q (m >>= f)
  unfolding ◌>>=◌
  Gives-bind m f k = record { from = λ s. Gives-continue (m s).0 f (m s).1 k }

  pub Gives-handle :
      (f : A → Exec S B) (g : Err → Exec S B) (r : Result A)
      → ((a : A) → Gives Q (f a))
      → ((e : Err) → Gives Q (g e))
      → Gives Q (handle f g r)
  unfolding handle
  Gives-handle f g (ok a) k l = k a
  Gives-handle f g (err e) k l = l e

pub ruleset gives_rules = (Gives-raise, Gives-if, Gives-bind, Gives-handle)
