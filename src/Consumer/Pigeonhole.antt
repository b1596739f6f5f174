-- ===== src/Consumer/Pigeonhole.antt =====
-- As many different whole numbers as there are between 0 and a bound are all of them.
use nasa_earth_observation_e.Prelude.{
  ℕ, zero, suc, ◌≤◌, ◌<◌, true, false, List, [], ◌∷◌, length, All, if◌then◌else◌, ◌≡◌, refl, ap,
  arith, Bool-cases, inl, inr,
}
use mathlib.Core.Path.{subst}
use nasa_earth_observation_e.Prelude.Int.{ℤ, pos, negsuc}
use nasa_earth_observation_e.Consumer.{int_eq, is_int_in}

pub int_eq_lem : (m n : ℤ) → int_eq m n ≡ true → m ≡ n
int_eq_lem (pos a) (pos b) h = ap pos (ground (arith, h))
int_eq_lem (negsuc a) (negsuc b) h = ap negsuc (ground (arith, h))
int_eq_lem (pos a) (negsuc b) h = cc
int_eq_lem (negsuc a) (pos b) h = cc

pub int_eq_refl : (n : ℤ) → int_eq n n ≡ true
int_eq_refl (pos a) = ground arith
int_eq_refl (negsuc a) = ground arith

-- No number stands twice in the list.
abbrev pub HasNoRepeat : List ℤ → Type 0
HasNoRepeat [] = Unit
HasNoRepeat (n ∷ ns) = (is_int_in n ns ≡ false) × HasNoRepeat ns

-- A whole number from 0 up to, without, a bound.
abbrev pub IsBelow : ℕ → ℤ → Type 0
IsBelow bound n = (k : ℕ) × (n ≡ pos k) × (k < bound)

abbrev without : ℤ → List ℤ → List ℤ
without n [] = []
without n (m ∷ ms) = let rest = without n ms in if int_eq m n then rest else m ∷ rest

without-in : (n m : ℤ) (ms : List ℤ) → is_int_in m ms ≡ false → is_int_in m (without n ms) ≡ false
without-in n m [] h = refl
without-in n m (k ∷ ms) h = ground (arith, h, without-in n m ms (ground (arith, h)))

without-HasNoRepeat : (n : ℤ) (ms : List ℤ) → HasNoRepeat ms → HasNoRepeat (without n ms)
without-HasNoRepeat n [] h = tt
without-HasNoRepeat n (m ∷ ms) (new, h) = elim (Bool-cases (int_eq m n)) [
  | inl same ↦ rw same (without-HasNoRepeat n ms h)
  | inr other ↦ rw other (without-in n m ms new, without-HasNoRepeat n ms h)
]

-- Nothing is dropped but the number.
without-absent : (n : ℤ) (ms : List ℤ) → is_int_in n ms ≡ false → without n ms ≡ ms
without-absent n [] h = refl
without-absent n (m ∷ ms) h =
    let other : int_eq m n ≡ false = ground (arith, h) in
    rw (other, without-absent n ms (ground (arith, h))) refl

length-without : (n : ℤ) (ms : List ℤ) → HasNoRepeat ms → length ms ≤ suc (length (without n ms))
length-without n [] h = omega arith
length-without n (m ∷ ms) (new, h) = elim (Bool-cases (int_eq m n)) [
  | inl same ↦
      let absent =
        without-absent n ms (subst (λ k. is_int_in k ms ≡ false) (int_eq_lem m n same) new) in
      rw (same, absent) (omega arith)
  | inr other ↦ rw other (omega (arith, length-without n ms h))
]

IsBelow-without :
    (n : ℕ) (ms : List ℤ) → All (IsBelow (suc n)) ms → All (IsBelow n) (without (pos n) ms)
IsBelow-without n [] h = tt
IsBelow-without n (m ∷ ms) ((k, whole, low), h) = elim (Bool-cases (int_eq m (pos n))) [
  | inl same ↦ rw same (IsBelow-without n ms h)
  | inr other ↦
      let less : k < n =
        ground (arith, low, other, whole, subst (λ z. int_eq z (pos n) ≡ false) whole other) in
      rw other ((k, whole, less), IsBelow-without n ms h)
]

-- Different numbers below a bound are not more than the bound.
length-below : (n : ℕ) (ms : List ℤ) → HasNoRepeat ms → All (IsBelow n) ms → length ms ≤ n
length-below zero [] h low = omega arith
length-below zero (m ∷ ms) h ((k, whole, less), low) = ground (arith, less)
length-below (suc n) ms h low = omega (
  arith,
  length-without (pos n) ms h,
  length-below n (without (pos n) ms) (without-HasNoRepeat (pos n) ms h) (IsBelow-without n ms low),
)

-- As many as the bound are all of them.
pub pigeonhole :
    (n : ℕ) (ms : List ℤ) (k : ℕ)
    → HasNoRepeat ms
    → All (IsBelow n) ms
    → length ms ≡ n
    → k < n
    → is_int_in (pos k) ms ≡ true
pigeonhole n ms k h low size less = elim (Bool-cases (is_int_in (pos k) ms)) [
  | inl present ↦ present
  | inr absent ↦
      ground (arith, size, length-below n (pos k ∷ ms) (absent, h) ((k, refl, less), low))
]
