-- ===== src/CanJson/Run.antt =====
-- The outcome of reading the CAN definition file: a result, the `exit` for want of memory, or undefined
-- behaviour.
use agl_can_binder.Base.{◌≡◌, refl, Option, none, some, ◌⊎◌, inl, inr}

pub data Run {ℓ} (A : Type ℓ) : Type ℓ where
  done : A → Run A
  exited undefined : Run A

infixl 5 ◌>>=◌
abbrev pub ◌>>=◌ {ℓ κ} : {A : Type ℓ} {B : Type κ} → Run A → (A → Run B) → Run B
done a >>= f = f a
exited >>= f = exited
undefined >>= f = undefined

-- `none` is undefined behaviour.
abbrev pub defined {ℓ} : {A : Type ℓ} → Option A → Run A
defined none = undefined
defined (some a) = done a

-- A result that comes out of a composition went through the middle.
pub >>=-eq-done {ℓ κ} :
    {A : Type ℓ} {B : Type κ} (m : Run A) (f : A → Run B) {b : B}
    → (m >>= f) ≡ done b
    → (a : A) × (m ≡ done a) × (f a ≡ done b)
>>=-eq-done (done a) f h = (a, refl, h)
>>=-eq-done exited f h = cc
>>=-eq-done undefined f h = cc

pub defined-eq-done {ℓ} : {A : Type ℓ} (o : Option A) {a : A} → defined o ≡ done a → o ≡ some a
defined-eq-done none h = cc
defined-eq-done (some x) h = cc

pub Run-cases {ℓ} :
    {A : Type ℓ} (m : Run A) → ((a : A) × (m ≡ done a)) ⊎ ((m ≡ exited) ⊎ (m ≡ undefined))
Run-cases (done a) = inl (a, refl)
Run-cases exited = inr (inl refl)
Run-cases undefined = inr (inr refl)
