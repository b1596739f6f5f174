-- ===== src/Prelude/Lists.antt =====
-- Lists measured by the native numbers, sums over lists, and predicates on all items.
use Prim.Native.Nat.{ℕ, zero, suc, ◌+◌, ◌≤◌, ◌<◌}
use mathlib.Core.Path.{◌≡◌, refl, ap}
use mathlib.Core.Bool.{Bool, true, false, ◌||◌, ◌&&◌}
use mathlib.Core.List.{List, [], ◌∷◌, ◌++◌}
use mathlib.Core.Option.{Option, none, some}
use native.Mathlib.Omega.{arith}
use nasa_earth_observation_e.Prelude.Tests.{if◌then◌else◌}

zero-plus : (n : ℕ) → 0 + n ≡ n
zero-plus n = omega arith

suc-plus : (m n : ℕ) → suc m + n ≡ suc (m + n)
suc-plus m n = omega arith

module _ {ℓ} {A : Type ℓ} where
  abbrev pub length : List A → ℕ
  length [] = 0
  length (x ∷ xs) = suc (length xs)

  abbrev pub drop : ℕ → List A → List A
  drop zero xs = xs
  drop (suc n) [] = []
  drop (suc n) (x ∷ xs) = drop n xs

  abbrev pub take : ℕ → List A → List A
  take zero xs = []
  take (suc n) [] = []
  take (suc n) (x ∷ xs) = x ∷ take n xs

  abbrev pub get_elem? : List A → ℕ → Option A
  get_elem? [] i = none
  get_elem? (x ∷ xs) zero = some x
  get_elem? (x ∷ xs) (suc i) = get_elem? xs i

  pub length-append : (xs ys : List A) → length (xs ++ ys) ≡ length xs + length ys
  length-append [] ys = omega arith
  length-append (x ∷ xs) ys = omega (arith, length-append xs ys)

  pub take-all : (n : ℕ) (xs : List A) → length xs ≤ n → take n xs ≡ xs
  take-all zero [] h = refl
  take-all zero (x ∷ xs) h = ground (arith, h)
  take-all (suc n) [] h = refl
  take-all (suc n) (x ∷ xs) h = ap (λ rest. x ∷ rest) (take-all n xs (omega (arith, h)))

  pub take-append : (xs ys : List A) (n : ℕ) → take (length xs + n) (xs ++ ys) ≡ xs ++ take n ys
  take-append [] ys n = rw (zero-plus n) refl
  take-append (x ∷ xs) ys n = rw (suc-plus (length xs) n, take-append xs ys n) refl

  pub get_elem?-append :
      (xs : List A) (y : A) (ys : List A) → get_elem? (xs ++ y ∷ ys) (length xs) ≡ some y
  get_elem?-append [] y ys = refl
  get_elem?-append (x ∷ xs) y ys = get_elem?-append xs y ys

  -- The item at a position, and what stands in front of it and behind it.
  pub item_at :
      (n : ℕ) (xs : List A)
      → n < length xs
      → (front : List A) × (y : A) × (back : List A) × (xs ≡ front ++ y ∷ back) × (length front ≡ n)
  item_at n [] h = ground (arith, h)
  item_at zero (x ∷ xs) h = ([], x, xs, refl, refl)
  item_at (suc n) (x ∷ xs) h =
      let (front, y, back, same, size) = item_at n xs (omega (arith, h)) in
      (x ∷ front, y, back, ap (λ rest. x ∷ rest) same, ap suc size)

module _ {ℓ κ} {A : Type ℓ} where
  -- Every item has the property.
  abbrev pub All : (A → Type κ) → List A → Type κ
  All P [] = Unit
  All P (x ∷ xs) = P x × All P xs

  pub All-append : (P : A → Type κ) (xs ys : List A) → All P xs → All P ys → All P (xs ++ ys)
  All-append P [] ys h k = k
  All-append P (x ∷ xs) ys (h, hs) k = (h, All-append P xs ys hs k)

module _ {ℓ} {A : Type ℓ} where
  abbrev pub any : (A → Bool) → List A → Bool
  any p [] = false
  any p (x ∷ xs) = p x || any p xs

  pub any-append : (p : A → Bool) (xs ys : List A) → any p (xs ++ ys) ≡ (any p xs || any p ys)
  any-append p [] ys = refl
  any-append p (x ∷ xs) ys = ground (arith, any-append p xs ys)

  abbrev pub all : (A → Bool) → List A → Bool
  all p [] = true
  all p (x ∷ xs) = p x && all p xs

-- The items that pass a test.
abbrev pub filter {ℓ} : {A : Type ℓ} → (A → Bool) → List A → List A
filter p [] = []
filter p (x ∷ xs) = let rest = filter p xs in if p x then x ∷ rest else rest
