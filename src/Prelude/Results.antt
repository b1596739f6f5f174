-- ===== src/Prelude/Results.antt =====
-- A computation that returns or raises, with the errors of its own module.
use mathlib.Core.Path.{◌≡◌, refl, ap}
use mathlib.Core.Bool.{Bool, true, false, not}
use mathlib.Core.Logic.{◌⊎◌, inl, inr}

pub data Result {ℓ κ} (E : Type ℓ) (A : Type κ) : Type (ℓ ⊔ κ) where
  ok : A → Result E A
  raise : E → Result E A

module _ {ℓ κ λ'} {E : Type ℓ} {A : Type κ} {B : Type λ'} where
  infixl 5 ◌>>=◌
  abbrev pub ◌>>=◌ : Result E A → (A → Result E B) → Result E B
  ok a >>= f = f a
  raise e >>= f = raise e

  -- A chain that returns: its first part returned, and so did what followed.
  pub >>=-eq-ok :
      (first : Result E A) (next : A → Result E B) {result : B}
      → (first >>= next) ≡ ok result
      → (x : A) × (first ≡ ok x) × (next x ≡ ok result)
  >>=-eq-ok (raise why) next h = cc
  >>=-eq-ok (ok x) next h = (x, refl, h)

module _ {ℓ κ} {E : Type ℓ} {B : Type κ} where
  infixl 5 ◌>>◌
  abbrev pub ◌>>◌ : Result E (Unit {0}) → Result E B → Result E B
  ok u >> k = k
  raise e >> k = raise e

-- `if bad: raise error`
abbrev pub raise_if {ℓ} : {E : Type ℓ} → Bool → E → Result E (Unit {0})
raise_if true e = raise e
raise_if false e = ok tt

-- To split on a computed result and keep the equation.
pub Result-cases {ℓ κ} :
    {E : Type ℓ} {A : Type κ} (m : Result E A) → ((e : E) × (m ≡ raise e)) ⊎ ((a : A) × (m ≡ ok a))
Result-cases (ok a) = inr (a, refl)
Result-cases (raise e) = inl (e, refl)

pub >>-eq-ok {ℓ κ} :
    {E : Type ℓ} {B : Type κ} (m : Result E (Unit {0})) (k : Result E B) {b : B}
    → (m >> k) ≡ ok b
    → (m ≡ ok tt) × (k ≡ ok b)
>>-eq-ok (ok u) k h = (refl, h)
>>-eq-ok (raise e) k h = cc

value_or {ℓ κ} : {E : Type ℓ} {A : Type κ} → A → Result E A → A
value_or default (ok a) = a
value_or default (raise e) = default

pub ok-injective {ℓ κ} :
    {E : Type ℓ} {A : Type κ} {a b : A} → ◌≡◌ {A = Result E A} (ok a) (ok b) → a ≡ b
unfolding value_or
ok-injective {a = a} h = ap (value_or a) h

-- A guard that did not raise.
pub raise_if-not-eq-ok {ℓ} : {E : Type ℓ} (b : Bool) (e : E) → raise_if (not b) e ≡ ok tt → b ≡ true
raise_if-not-eq-ok true e h = refl
raise_if-not-eq-ok false e h = cc
