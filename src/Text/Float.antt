-- ===== src/Text/Float.antt =====
-- Python's `float`: a finite one is a whole number over a power of two.
use nasa_earth_observation_e.Prelude.{ℕ, Bool, true, false, ◌^◌, not}
use nasa_earth_observation_e.Prelude.Int.{ℤ, leb_ℤ, scale}

-- `finite n k` is n / 2^k. The two zeros are one value, as for every comparison.
pub data Float : Type 0 where
  finite : ℤ → ℕ → Float
  infinity minus_infinity nan : Float

abbrev pub of_int : ℤ → Float
of_int n = finite n 0

-- `a <= b`
unfoldable pub le : Float → Float → Bool
le nan b = false
le (finite n k) nan = false
le (finite n k) (finite m j) = leb_ℤ (scale n (2 ^ j)) (scale m (2 ^ k))
le (finite n k) infinity = true
le (finite n k) minus_infinity = false
le infinity infinity = true
le infinity b = false
le minus_infinity nan = false
le minus_infinity b = true

-- `a < b`
unfoldable pub lt : Float → Float → Bool
lt nan b = false
lt (finite n k) nan = false
lt (finite n k) (finite m j) = not (leb_ℤ (scale m (2 ^ k)) (scale n (2 ^ j)))
lt (finite n k) infinity = true
lt (finite n k) minus_infinity = false
lt infinity b = false
lt minus_infinity (finite m j) = true
lt minus_infinity infinity = true
lt minus_infinity b = false

-- `value != value or value in {inf, -inf}`
unfoldable pub is_finite : Float → Bool
is_finite (finite n k) = true
is_finite x = false
