-- ===== src/Exec.antt =====
-- Go functions that return `(value, error)`: an action over a state gives a result and the state
-- that it leaves, since what was done before an error stays done.
-- An `error` is modelled by what the program can ask of it: its text, and the answer to each of
-- the tests `errors.Is`, `errdefs.IsX` and `os.IsNotExist` that the source makes.
pub mod Rules
pub mod Outcomes
pub mod Leads
use sandcube.Prelude.{
  ℕ, String, ◌≡◌, refl, ◌⊎◌, inl, inr, Bool, true, false, ◌||◌, List, [], ◌∷◌, ◌==◌, if◌then◌else◌,
}
use Prim.Native.String.{◌++◌ as ◌<>◌}

pub data Kind : Type 0 where
  not_found already_exists failed_precondition invalid_argument : Kind
  not_implemented resource_exhausted invalid_path file_too_large : Kind
  edquot enospc enoent eexist enotempty eisdir enotdir eloop exdev : Kind
  not_exist : Kind

abbrev rank : Kind → ℕ
rank not_found = 0
rank already_exists = 1
rank failed_precondition = 2
rank invalid_argument = 3
rank not_implemented = 4
rank resource_exhausted = 5
rank invalid_path = 6
rank file_too_large = 7
rank edquot = 8
rank enospc = 9
rank enoent = 10
rank eexist = 11
rank enotempty = 12
rank eisdir = 13
rank enotdir = 14
rank eloop = 15
rank exdev = 16
rank not_exist = 17

pub record Err : Type 0 where
  pub text : String
  pub is : Kind → Bool

-- A sentinel such as `errdefs.ErrNotFound` answers to its own kind alone.
abbrev pub sentinel : Kind → String → Err
sentinel k t = record { text = t; is = λ j. rank j == rank k }

-- `errors.New`, and `fmt.Errorf` with no `%w`.
abbrev pub message : String → Err
message t = record { text = t; is = λ _. false }

-- `fmt.Errorf("t: %w", e)`
abbrev pub wrap : String → Err → Err
wrap t e = record { text = t <> (": " <> e.text); is = e.is }

-- `errors.Join`
abbrev pub join : Err → Err → Err
join e f = record { text = e.text <> ("\n" <> f.text); is = λ k. e.is k || f.is k }

pub data Result {ℓ} (A : Type ℓ) : Type ℓ where
  ok : A → Result A
  err : Err → Result A

abbrev pub succeeded {ℓ} : {A : Type ℓ} → Result A → Bool
succeeded (ok a) = true
succeeded (err e) = false

-- What holds of the value, where there is one.
abbrev pub OnOk {ℓ} : {A : Type ℓ} → (A → Type 0) → Result A → Type 0
OnOk P (ok a) = P a
OnOk P (err e) = Unit

pub OnOk-succeeded {ℓ} :
    {A : Type ℓ} {Q : Type 0} (r : Result A) → (succeeded r ≡ true → Q) → OnOk (λ _. Q) r
OnOk-succeeded (ok a) q = q refl
OnOk-succeeded (err e) q = tt

pub OnOk-each {ℓ} :
    {A : Type ℓ} {P : A → Type 0} (r : Result A) → ((a : A) → r ≡ ok a → P a) → OnOk P r
OnOk-each (ok a) f = f a refl
OnOk-each (err e) f = tt

pub OnOk-map {ℓ} :
    {A : Type ℓ} {P Q : A → Type 0} → ((a : A) → P a → Q a) → (r : Result A) → OnOk P r → OnOk Q r
OnOk-map f (ok a) h = f a h
OnOk-map f (err e) h = tt

pub Result-cases {ℓ} :
    {A : Type ℓ} (r : Result A) → ((a : A) × (r ≡ ok a)) ⊎ ((e : Err) × (r ≡ err e))
Result-cases (ok a) = inl (a, refl)
Result-cases (err e) = inr (e, refl)

abbrev pub Exec : Type 0 → Type 0 → Type 0
Exec S A = S → Result A × S

module _ {S A : Type 0} where
  unfoldable pub pure : A → Exec S A
  pure a s = (ok a, s)

  unfoldable pub raise : Err → Exec S A
  raise e s = (err e, s)

  -- The error as a value, for a caller that looks at it.
  unfoldable pub attempt : Exec S A → Exec S (Result A)
  attempt m s = let (r, s') = m s in (ok r, s')

  unfoldable pub lift : Result A → Exec S A
  lift r s = (r, s)

  -- `defer c()`, where what `c` returns is dropped.
  unfoldable pub deferring : Exec S (Unit {0}) → Exec S A → Exec S A
  deferring c m s = let (r, s') = m s in (r, (c s').1)

  unfoldable pub gets : (S → A) → Exec S A
  gets f s = (ok (f s), s)

module _ {S : Type 0} where
  unfoldable pub modify : (S → S) → Exec S (Unit {0})
  modify f s = (ok tt, f s)

module _ {S A B : Type 0} where
  abbrev pub continue : Result A → (A → Exec S B) → Exec S B
  continue (ok a) f s = f a s
  continue (err e) f s = (err e, s)

  infixl 10 ◌>>=◌ ◌>>◌
  -- Opening this opens the actions above too.
  unfoldable pub ◌>>=◌ : Exec S A → (A → Exec S B) → Exec S B
  unfolding pure raise attempt lift deferring gets modify
  ◌>>=◌ m f s = let (r, s') = m s in continue r f s'

  -- What is done on a value and what is done on an error.
  unfoldable pub handle : (A → Exec S B) → (Err → Exec S B) → Result A → Exec S B
  handle f g (ok a) = f a
  handle f g (err e) = g e

  abbrev pub ◌>>◌ : Exec S A → Exec S B → Exec S B
  m >> n = m >>= λ _. n

module _ {S : Type 0} where
  abbrev pub skip : Exec S (Unit {0})
  skip = pure tt

  -- `_ = c()`
  unfoldable pub ignoring : {A : Type 0} → Exec S A → Exec S (Unit {0})
  unfolding ◌>>=◌
  ignoring m = attempt m >>= λ _. skip

  -- `if b { return e }`
  unfoldable pub refuse_if : Bool → Err → Exec S (Unit {0})
  unfolding ◌>>=◌
  refuse_if b e = if b then raise e else skip

  -- A `for` over a slice whose body may return an error.
  module _ {A : Type 0} where
    unfoldable pub for_each : List A → (A → Exec S (Unit {0})) → Exec S (Unit {0})
    unfolding ◌>>=◌
    for_each [] f = skip
    for_each (x ∷ xs) f = f x >> for_each xs f
