-- ===== src/Text/Digits.antt =====
-- The digits of ASCII, and `zfill`.
use nasa_earth_observation_e.Prelude.{
  ℕ, zero, suc, ◌-◌, ◌≤◌, ◌≡◌, refl, ap, Bool, ◌&&◌, [], ◌∷◌, ◌++◌, leb, arith, length,
  length-append,
}
use nasa_earth_observation_e.Text.{Text}

abbrev pub is_digit : ℕ → Bool
is_digit c = leb b'0' c && leb c b'9'

unfoldable pub zeros : ℕ → Text
zeros zero = []
zeros (suc n) = b'0' ∷ zeros n

-- `str.zfill`, of a text without a sign.
unfoldable pub zfill : ℕ → Text → Text
unfolding zeros
zfill width s = zeros (width - length s) ++ s

pub length-zeros : (n : ℕ) → length (zeros n) ≡ n
unfolding zeros
length-zeros zero = refl
length-zeros (suc n) = ap suc (length-zeros n)

pub length-zfill : (width : ℕ) (s : Text) → length s ≤ width → length (zfill width s) ≡ width
unfolding zfill
length-zfill width s h =
    omega (arith, length-append (zeros (width - length s)) s, length-zeros (width - length s))
