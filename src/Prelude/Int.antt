-- ===== src/Prelude/Int.antt =====
-- The integers, over the native natural numbers: `negsuc n` is -(n + 1).
use Prim.Native.Nat.{ℕ, suc, ◌+◌, ◌*◌, ◌-◌}
use mathlib.Core.Bool.{Bool, true, false}
use nasa_earth_observation_e.Prelude.Tests.{leb, if◌then◌else◌}

pub data ℤ : Type 0 where
  pos : ℕ → ℤ
  negsuc : ℕ → ℤ

abbrev pub leb_ℤ : ℤ → ℤ → Bool
leb_ℤ (pos a) (pos b) = leb a b
leb_ℤ (pos a) (negsuc b) = false
leb_ℤ (negsuc a) (pos b) = true
leb_ℤ (negsuc a) (negsuc b) = leb b a

-- The product with a natural number that is not 0.
abbrev pub scale : ℤ → ℕ → ℤ
scale (pos a) s = pos (a * s)
scale (negsuc a) s = negsuc (suc a * s - 1)

abbrev pub add_ℕ : ℤ → ℕ → ℤ
add_ℕ (pos a) n = pos (a + n)
add_ℕ (negsuc a) n = if leb n a then negsuc (a - n) else pos (n - a - 1)

abbrev pub sub_ℕ : ℤ → ℕ → ℤ
sub_ℕ (pos a) n = if leb n a then pos (a - n) else negsuc (n - a - 1)
sub_ℕ (negsuc a) n = negsuc (a + n)
