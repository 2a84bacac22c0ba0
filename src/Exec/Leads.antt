-- ===== src/Exec/Leads.antt =====
-- What an action ends with, of its result and of its last state.
use sandcube.Prelude.{◌≡◌, refl, Bool, true, false, List, [], ◌∷◌, if◌then◌else◌}
use sandcube.Exec.{
  Err, Result, ok, err, Exec, pure, raise, succeeded, OnOk, OnOk-each, deferring, for_each, attempt,
  handle, ignoring, continue, ◌>>=◌,
}
use sandcube.Exec.Rules.{Preserves}

-- From `P`, the action ends with `Q` of its result and of its last state.
pub record Leads {S A : Type 0} (P : S → Type 0) (Q : Result A → S → Type 0) (m : Exec S A)
    : Type 0 where
  pub from : (s : S) → P s → Q (m s).0 (m s).1

module _ {S A : Type 0} {P : S → Type 0} {Q : Result A → S → Type 0} where
  pub Leads-weaken :
      {P' : S → Type 0} {m : Exec S A} → Leads P' Q m → ((s : S) → P s → P' s) → Leads P Q m
  Leads-weaken k f = record { from = λ s h. k.from s (f s h) }

  pub Leads-pure : (a : A) → ((s : S) → P s → Q (ok a) s) → Leads P Q (pure a)
  unfolding pure
  Leads-pure a q = record { from = q }

  pub Leads-raise : (e : Err) → ((s : S) → P s → Q (err e) s) → Leads P Q (raise e)
  unfolding raise
  Leads-raise e q = record { from = q }

  pub Leads-if :
      (b : Bool) (m n : Exec S A)
      → (b ≡ true → Leads P Q m)
      → (b ≡ false → Leads P Q n)
      → Leads P Q (if b then m else n)
  Leads-if true m n k l = k refl
  Leads-if false m n k l = l refl

pub Leads-Preserves :
    {S A : Type 0} {P : S → Type 0} {m : Exec S A} → Preserves P m → Leads P (λ _ s. P s) m
Leads-Preserves k = record { from = k.from }

pub Preserves-Leads :
    {S A : Type 0} {P : S → Type 0} {m : Exec S A} → Leads P (λ _ s. P s) m → Preserves P m
Preserves-Leads k = record { from = k.from }

module _ {S A B : Type 0} (R : Result A → S → Type 0) {Q : Result B → S → Type 0} where
  Leads-continue :
      (r : Result A) (f : A → Exec S B) (s : S)
      → R r s
      → ((e : Err) (t : S) → R (err e) t → Q (err e) t)
      → ((a : A) → Leads (R (ok a)) Q (f a))
      → Q (continue r f s).0 (continue r f s).1
  Leads-continue (ok a) f s h q k = (k a).from s h
  Leads-continue (err e) f s h q k = q e s h

module _ {S A B : Type 0} {P : S → Type 0} (R : Result A → S → Type 0)
    {Q : Result B → S → Type 0} where
  pub Leads-bind :
      (m : Exec S A) (f : A → Exec S B)
      → Leads P R m
      → ((e : Err) (t : S) → R (err e) t → Q (err e) t)
      → ((a : A) → Leads (R (ok a)) Q (f a))
      → Leads P Q (m >>= f)
  unfolding ◌>>=◌
  Leads-bind m f k q l = record {
    from = λ s h. Leads-continue R (m s).0 f (m s).1 (k.from s h) q l;
  }

module _ {S A B : Type 0} {P : S → Type 0} {Q : Result B → S → Type 0} where
  -- The first part keeps what is known.
  pub Leads-bind_kept :
      (m : Exec S A) (f : A → Exec S B)
      → Preserves P m
      → ((e : Err) (t : S) → P t → Q (err e) t)
      → ((a : A) → Leads P Q (f a))
      → Leads P Q (m >>= f)
  Leads-bind_kept m f k q l = Leads-bind (λ _ t. P t) m f record { from = k.from } q l

module _ {S A B : Type 0} (R : Result A → S → Type 0) {Q : Result B → S → Type 0} where
  Leads-caught :
      (f : A → Exec S B) (g : Err → Exec S B) (r : Result A) (s : S)
      → R r s
      → ((a : A) → Leads (R (ok a)) Q (f a))
      → ((e : Err) → Leads (R (err e)) Q (g e))
      → Q (handle f g r s).0 (handle f g r s).1
  unfolding handle
  Leads-caught f g (ok a) s h l n = (l a).from s h
  Leads-caught f g (err e) s h l n = (n e).from s h

module _ {S A B : Type 0} {P : S → Type 0} (R : Result A → S → Type 0)
    {Q : Result B → S → Type 0} where
  -- What is done on a value and what is done on an error.
  pub Leads-catch :
      (m : Exec S A) (f : A → Exec S B) (g : Err → Exec S B)
      → Leads P R m
      → ((a : A) → Leads (R (ok a)) Q (f a))
      → ((e : Err) → Leads (R (err e)) Q (g e))
      → Leads P Q (attempt m >>= handle f g)
  unfolding ◌>>=◌ attempt handle
  Leads-catch m f g k l n = record {
    from = λ s h. Leads-caught R f g (m s).0 (m s).1 (k.from s h) l n;
  }

-- An action that does not fail.
pub record IsSure {S A : Type 0} (m : Exec S A) : Type 0 where
  pub from : (s : S) → succeeded (m s).0 ≡ true

module _ {S A : Type 0} where
  pub IsSure-attempt : (m : Exec S A) → IsSure (attempt m)
  unfolding attempt
  IsSure-attempt m = record { from = λ s. refl }

  pub IsSure-ignoring : (m : Exec S A) → IsSure (ignoring m)
  unfolding ignoring ◌>>=◌ attempt pure
  IsSure-ignoring m = record { from = λ s. refl }

module _ {S A B : Type 0} (R : S → Type 0) {Q : Result B → S → Type 0} where
  sure_later :
      (r : Result A) (f : A → Exec S B) (s : S)
      → R s
      → succeeded r ≡ true
      → ((a : A) → Leads R Q (f a))
      → Q (continue r f s).0 (continue r f s).1
  sure_later (ok a) f s h b k = (k a).from s h
  sure_later (err e) f s h b k = cc

  pub Leads-bind_sure :
      {P : S → Type 0} (m : Exec S A) (f : A → Exec S B)
      → IsSure m
      → Leads P (λ _ s. R s) m
      → ((a : A) → Leads R Q (f a))
      → Leads P Q (m >>= f)
  unfolding ◌>>=◌
  Leads-bind_sure m f b k l = record {
    from = λ s h. sure_later (m s).0 f (m s).1 (k.from s h) (b.from s) l;
  }

-- `Q` holds at the end of an action that succeeds.
abbrev pub Then : {S A : Type 0} → (S → Type 0) → Result A → S → Type 0
Then Q r s = OnOk (λ _. Q s) r

pub Then-Preserves :
    {S A : Type 0} {P : S → Type 0} {m : Exec S A} → Preserves P m → Leads P (Then P) m
Then-Preserves {m = m} k = record { from = λ s h. OnOk-each (m s).0 (λ _ _. k.from s h) }

module _ {S A B : Type 0} {P : S → Type 0} (R : S → Type 0) {Q : S → Type 0} where
  -- Only the successes matter.
  pub Leads-Then :
      (m : Exec S A) (f : A → Exec S B)
      → Leads P (Then R) m
      → ((a : A) → Leads R (Then Q) (f a))
      → Leads P (Then Q) (m >>= f)
  Leads-Then m f k l = Leads-bind (Then R) m f k (λ e s h. tt) l

module _ {S A : Type 0} {P : S → Type 0} where
  pub Leads-for_each :
      (xs : List A) (f : A → Exec S (Unit {0}))
      → ((a : A) → Leads P (Then P) (f a))
      → Leads P (Then P) (for_each xs f)
  unfolding for_each
  Leads-for_each [] f k = Leads-pure tt (λ s h. h)
  Leads-for_each (x ∷ xs) f k =
      Leads-bind (Then P) (f x) _ (k x) (λ e s h. tt) (λ _. Leads-for_each xs f k)

module _ {S A : Type 0} {P : S → Type 0} {Q : Result A → S → Type 0} where
  pub Leads-deferring :
      (c : Exec S (Unit {0})) (m : Exec S A)
      → Leads P Q m
      → ((r : Result A) → Leads (Q r) (λ _ s. Q r s) c)
      → Leads P Q (deferring c m)
  unfolding deferring
  Leads-deferring c m k l = record { from = λ s h. (l (m s).0).from (m s).1 (k.from s h) }

module _ {S A B : Type 0} {P : S → Type 0} (R : Result A → S → Type 0)
    {Q : Result B → S → Type 0} where
  -- The result as a value.
  pub Leads-attempt :
      (m : Exec S A) (f : Result A → Exec S B)
      → Leads P R m
      → ((r : Result A) → Leads (R r) Q (f r))
      → Leads P Q (attempt m >>= f)
  unfolding ◌>>=◌ attempt
  Leads-attempt m f k l = record { from = λ s h. (l (m s).0).from (m s).1 (k.from s h) }
