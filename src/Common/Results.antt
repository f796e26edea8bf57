-- ===== src/Common/Results.antt =====
-- Results of code that throws: a value, or the code of the error. A transaction that throws is
-- rolled back, so an operation on a store returns the new store only with `ok`.
use mathlib.Core.Path.{◌≡◌, refl}
use mathlib.Core.Logic.{◌⊎◌, inl, inr}
use mathlib.Core.Bool.{Bool, true, false}

pub data Result {ℓ κ} (E : Type κ) (A : Type ℓ) : Type (ℓ ⊔ κ) where
  ok : A → Result E A
  err : E → Result E A

infixl 5 ◌>>=◌ ◌>>◌
abbrev pub ◌>>=◌ {ℓ κ ι} :
    {E : Type ι} {A : Type ℓ} {B : Type κ} → Result E A → (A → Result E B) → Result E B
ok a >>= f = f a
err e >>= f = err e

abbrev pub ◌>>◌ {ℓ ι} : {E : Type ι} {B : Type ℓ} → Result E (Unit {0}) → Result E B → Result E B
m >> k = m >>= λ _. k

-- `if (test) throw e`.
abbrev pub throw_if {ι} : {E : Type ι} → Bool → E → Result E (Unit {0})
throw_if true e = err e
throw_if false e = ok tt

module _ {ℓ κ ι} {E : Type ι} {A : Type ℓ} {B : Type κ} where
  -- Code that returned has returned from its first step.
  pub >>=-eq-ok :
      (first : Result E A) (next : A → Result E B) {returned : B}
      → (first >>= next) ≡ ok returned
      → (x : A) × (first ≡ ok x) × (next x ≡ ok returned)
  >>=-eq-ok (err thrown) next done = cc
  >>=-eq-ok (ok x) next done = (x, refl, done)

-- A guard that lets the code go on.
pub throw_if-eq-ok {ℓ ι} :
    {E : Type ι} {B : Type ℓ} (b : Bool) (e : E) (k : Result E B) {x : B}
    → (throw_if b e >> k) ≡ ok x
    → (b ≡ false) × (k ≡ ok x)
throw_if-eq-ok true e k h = cc
throw_if-eq-ok false e k h = (refl, h)

pub Result-cases {ℓ κ} :
    {E : Type κ} {A : Type ℓ} (r : Result E A) → ((a : A) × (r ≡ ok a)) ⊎ ((e : E) × (r ≡ err e))
Result-cases (ok a) = inl (a, refl)
Result-cases (err e) = inr (e, refl)
