-- ===== src/Exec/Rules.antt =====
-- Predicates of the state that an action keeps, whether it succeeds or fails: one rule for each way
-- to build an action.
use sandcube.Prelude.{◌≡◌, refl, Bool, List, [], ◌∷◌, true, false, if◌then◌else◌}
use sandcube.Exec.{
  Err, Result, ok, err, succeeded, Exec, pure, raise, attempt, lift, gets, deferring, handle,
  ignoring, refuse_if, for_each, continue, ◌>>=◌, ◌>>◌,
}

pub record Preserves {S A : Type 0} (P : S → Type 0) (m : Exec S A) : Type 0 where
  pub from : (s : S) → P s → P (m s).1

module _ {S A : Type 0} {P : S → Type 0} where
  pub Preserves-pure : (a : A) → Preserves P (pure a)
  unfolding pure
  Preserves-pure a = record { from = λ s h. h }

  pub Preserves-raise : (e : Err) → Preserves P (raise {A = A} e)
  unfolding raise
  Preserves-raise e = record { from = λ s h. h }

  pub Preserves-lift : (r : Result A) → Preserves P (lift r)
  unfolding lift
  Preserves-lift r = record { from = λ s h. h }

  pub Preserves-gets : (f : S → A) → Preserves P (gets f)
  unfolding gets
  Preserves-gets f = record { from = λ s h. h }

  pub Preserves-attempt : (m : Exec S A) → Preserves P m → Preserves P (attempt m)
  unfolding attempt
  Preserves-attempt m k = record { from = k.from }

  pub Preserves-if :
      (b : Bool) (m n : Exec S A) → Preserves P m → Preserves P n → Preserves P (if b then m else n)
  Preserves-if true m n k l = k
  Preserves-if false m n k l = l

module _ {S : Type 0} {P : S → Type 0} where
  pub Preserves-refuse_if : (b : Bool) (e : Err) → Preserves P (refuse_if b e)
  unfolding refuse_if
  Preserves-refuse_if true e = record { from = λ s h. h }
  Preserves-refuse_if false e = record { from = λ s h. h }

module _ {S A : Type 0} {P : S → Type 0} where
  pub Preserves-deferring :
      (c : Exec S (Unit {0})) (m : Exec S A)
      → Preserves P c
      → Preserves P m
      → Preserves P (deferring c m)
  unfolding deferring
  Preserves-deferring c m k l = record { from = λ s h. k.from _ (l.from s h) }

module _ {S A B : Type 0} {P : S → Type 0} where
  pub Preserves-handle :
      (f : A → Exec S B) (g : Err → Exec S B) (r : Result A)
      → ((a : A) → Preserves P (f a))
      → ((e : Err) → Preserves P (g e))
      → Preserves P (handle f g r)
  unfolding handle
  Preserves-handle f g (ok a) k l = k a
  Preserves-handle f g (err e) k l = l e

  Preserves-continue :
      (r : Result A) (f : A → Exec S B) (s : S)
      → ((a : A) → Preserves P (f a))
      → P s
      → P (continue r f s).1
  Preserves-continue (ok a) f s k h = (k a).from s h
  Preserves-continue (err e) f s k h = h

  pub Preserves-bind :
      (m : Exec S A) (f : A → Exec S B)
      → Preserves P m
      → ((a : A) → Preserves P (f a))
      → Preserves P (m >>= f)
  unfolding ◌>>=◌
  Preserves-bind m f k l = record {
    from = λ s h. Preserves-continue (m s).0 f (m s).1 l (k.from s h);
  }

module _ {S A : Type 0} {P : S → Type 0} where
  pub Preserves-for_each :
      (xs : List A) (f : A → Exec S (Unit {0}))
      → ((a : A) → Preserves P (f a))
      → Preserves P (for_each xs f)
  unfolding for_each
  Preserves-for_each [] f k = Preserves-pure tt
  Preserves-for_each (x ∷ xs) f k = Preserves-bind (f x) _ (k x) (λ _. Preserves-for_each xs f k)

pub Preserves-ignoring :
    {S A : Type 0} {P : S → Type 0} (m : Exec S A) → Preserves P m → Preserves P (ignoring m)
unfolding ignoring
Preserves-ignoring m k =
    Preserves-bind (attempt m) _ (Preserves-attempt m k) (λ _. Preserves-pure tt)

pub ruleset preserves_rules = (
  Preserves-deferring, Preserves-ignoring, Preserves-pure, Preserves-raise, Preserves-lift,
  Preserves-gets, Preserves-attempt, Preserves-if, Preserves-refuse_if, Preserves-handle,
  Preserves-bind, Preserves-for_each,
)

-- What holds after an action that succeeds, whatever held before.
pub record Achieves {S A : Type 0} (Q : S → Type 0) (m : Exec S A) : Type 0 where
  pub from : (s : S) → succeeded (m s).0 ≡ true → Q (m s).1

module _ {S A : Type 0} {Q : S → Type 0} where
  pub Achieves-raise : (e : Err) → Achieves Q (raise {A = A} e)
  unfolding raise
  Achieves-raise e = record { from = λ s h. cc }

  pub Achieves-if :
      (b : Bool) (m n : Exec S A) → Achieves Q m → Achieves Q n → Achieves Q (if b then m else n)
  Achieves-if true m n k l = k
  Achieves-if false m n k l = l

module _ {S A B : Type 0} {Q : S → Type 0} where
  pub Achieves-handle :
      (f : A → Exec S B) (g : Err → Exec S B) (r : Result A)
      → ((a : A) → Achieves Q (f a))
      → ((e : Err) → Achieves Q (g e))
      → Achieves Q (handle f g r)
  unfolding handle
  Achieves-handle f g (ok a) k l = k a
  Achieves-handle f g (err e) k l = l e

  achieved_later :
      (r : Result A) (f : A → Exec S B) (s : S)
      → ((a : A) → Achieves Q (f a))
      → succeeded (continue r f s).0 ≡ true
      → Q (continue r f s).1
  achieved_later (ok a) f s k h = (k a).from s h
  achieved_later (err e) f s k h = cc

  kept_later :
      (r : Result A) (f : A → Exec S B) (s : S)
      → (succeeded r ≡ true → Q s)
      → ((a : A) → Preserves Q (f a))
      → succeeded (continue r f s).0 ≡ true
      → Q (continue r f s).1
  kept_later (ok a) f s q k h = (k a).from s (q refl)
  kept_later (err e) f s q k h = cc

  -- It is achieved by the rest of the action.
  pub Achieves-bind :
      (m : Exec S A) (f : A → Exec S B) → ((a : A) → Achieves Q (f a)) → Achieves Q (m >>= f)
  unfolding ◌>>=◌
  Achieves-bind m f k = record { from = λ s h. achieved_later (m s).0 f (m s).1 k h }

  -- It is achieved by the first part, and the rest keeps it.
  pub Achieves-bind_first :
      (m : Exec S A) (f : A → Exec S B)
      → Achieves Q m
      → ((a : A) → Preserves Q (f a))
      → Achieves Q (m >>= f)
  unfolding ◌>>=◌
  Achieves-bind_first m f k l = record { from = λ s h. kept_later (m s).0 f (m s).1 (k.from s) l h }

  caught_later :
      (f : A → Exec S B) (g : Err → Exec S B) (r : Result A) (s : S)
      → (succeeded r ≡ true → Q s)
      → ((a : A) → Preserves Q (f a))
      → ((e : Err) → Achieves Q (g e))
      → succeeded (handle f g r s).0 ≡ true
      → Q (handle f g r s).1
  unfolding handle
  caught_later f g (ok a) s q k l h = (k a).from s (q refl)
  caught_later f g (err e) s q k l h = (l e).from s h

  -- It is achieved by the first part, or by what is done on its error.
  pub Achieves-catch :
      (m : Exec S A) (f : A → Exec S B) (g : Err → Exec S B)
      → Achieves Q m
      → ((a : A) → Preserves Q (f a))
      → ((e : Err) → Achieves Q (g e))
      → Achieves Q (attempt m >>= handle f g)
  unfolding ◌>>=◌ attempt
  Achieves-catch m f g k l n = record {
    from = λ s h. caught_later f g (m s).0 (m s).1 (k.from s) l n h;
  }

  -- The rest may use what a computed result is.
  pub Achieves-lift :
      (r : Result A) (f : A → Exec S B)
      → ((a : A) → r ≡ ok a → Achieves Q (f a))
      → Achieves Q (lift r >>= f)
  unfolding ◌>>=◌ lift
  Achieves-lift (ok a) f k = record { from = λ s h. (k a refl).from s h }
  Achieves-lift (err e) f k = record { from = λ s h. cc }

  after_success :
      (r : Result A) (f : A → Exec S B) (s : S) (R : S → Type 0)
      → (succeeded r ≡ true → R s)
      → ((a : A) → Preserves (λ t. Q t × R t) (f a))
      → Q s
      → Q (continue r f s).1
  after_success (ok a) f s R q k h = ((k a).from s (h, q refl)).0
  after_success (err e) f s R q k h = h

  -- The rest may use what the first part achieves.
  pub Preserves-bind_after :
      (R : S → Type 0) (m : Exec S A) (f : A → Exec S B)
      → Achieves R m
      → Preserves Q m
      → ((a : A) → Preserves (λ t. Q t × R t) (f a))
      → Preserves Q (m >>= f)
  unfolding ◌>>=◌
  Preserves-bind_after R m f g k l = record {
    from = λ s h. after_success (m s).0 f (m s).1 R (g.from s) l (k.from s h);
  }

-- The rest may use that a guard has let it pass.
pub Achieves-refuse_if :
    {S B : Type 0} {Q : S → Type 0} (b : Bool) (e : Err) (m : Exec S B)
    → (b ≡ false → Achieves Q m)
    → Achieves Q (refuse_if b e >> m)
unfolding ◌>>=◌ refuse_if
Achieves-refuse_if true e m k = record { from = λ s h. cc }
Achieves-refuse_if false e m k = record { from = λ s h. (k refl).from s h }

pub Preserves-guard :
    {S B : Type 0} {P : S → Type 0} (b : Bool) (e : Err) (m : Exec S B)
    → (b ≡ false → Preserves P m)
    → Preserves P (refuse_if b e >> m)
unfolding ◌>>=◌ refuse_if
Preserves-guard true e m k = record { from = λ s h. h }
Preserves-guard false e m k = record { from = λ s h. (k refl).from s h }

pub ruleset achieves_rules = (Achieves-raise, Achieves-if, Achieves-handle, Achieves-bind)
