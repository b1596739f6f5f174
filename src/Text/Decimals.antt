-- ===== src/Text/Decimals.antt =====
-- The decimal digits of Unicode 15, which Python 3.12 knows: the category Nd, `\\d` of a regular
-- expression, and the digits that `int` reads. They stand in runs of ten.
use nasa_earth_observation_e.Prelude.{
  ℕ, zero, suc, ◌+◌, ◌-◌, ◌*◌, ◌≡◌, refl, Bool, true, false, ◌&&◌, ◌||◌, List, [], ◌∷◌, ◌++◌, leb,
  ltb, if◌then◌else◌, arith, Bool-cases, inl, inr, any, all, not, length,
}
use nasa_earth_observation_e.Text.{Text, is_space}
use nasa_earth_observation_e.Text.Digits.{is_digit, zeros, zfill}

-- The zeros of the runs behind that of ASCII.
abbrev other_zeros : List ℕ
other_zeros =
    1632 ∷ 1776 ∷ 1984 ∷ 2406 ∷ 2534 ∷ 2662 ∷ 2790 ∷ 2918 ∷ 3046 ∷ 3174 ∷ 3302 ∷ 3430 ∷ 3558 ∷ 3664
    ∷ 3792 ∷ 3872 ∷ 4160 ∷ 4240 ∷ 6112 ∷ 6160 ∷ 6470 ∷ 6608 ∷ 6784 ∷ 6800 ∷ 6992 ∷ 7088 ∷ 7232
    ∷ 7248 ∷ 42528 ∷ 43216 ∷ 43264 ∷ 43472 ∷ 43504 ∷ 43600 ∷ 44016 ∷ 65296 ∷ 66720 ∷ 68912 ∷ 69734
    ∷ 69872 ∷ 69942 ∷ 70096 ∷ 70384 ∷ 70736 ∷ 70864 ∷ 71248 ∷ 71360 ∷ 71472 ∷ 71904 ∷ 72016 ∷ 72784
    ∷ 73040 ∷ 73120 ∷ 73552 ∷ 92768 ∷ 92864 ∷ 93008 ∷ 120782 ∷ 120792 ∷ 120802 ∷ 120812 ∷ 120822
    ∷ 123200 ∷ 123632 ∷ 124144 ∷ 125264 ∷ 130032 ∷ []

abbrev is_in_run : ℕ → ℕ → Bool
is_in_run c nought = leb nought c && ltb c (nought + 10)

unfoldable pub is_other_decimal : ℕ → Bool
is_other_decimal c = any (is_in_run c) other_zeros

abbrev pub is_decimal : ℕ → Bool
is_decimal c = is_digit c || is_other_decimal c

unfoldable pub value_in : List ℕ → ℕ → ℕ
value_in [] c = 0
value_in (nought ∷ rest) c =
    let later = value_in rest c in if is_in_run c nought then c - nought else later

unfoldable pub other_value : ℕ → ℕ
other_value c = value_in other_zeros c

-- The value of a decimal digit.
abbrev pub decimal_value : ℕ → ℕ
decimal_value c = if is_digit c then c - b'0' else other_value c

unfoldable pub all_decimals : Text → Bool
all_decimals [] = true
all_decimals (c ∷ s) = is_decimal c && all_decimals s

-- `str.isdecimal`, which is false of the empty text.
unfoldable pub are_decimals : Text → Bool
unfolding all_decimals
are_decimals [] = false
are_decimals (c ∷ s) = is_decimal c && all_decimals s

-- The value of the digits, behind others of the value `acc`.
unfoldable pub decimals_from : ℕ → Text → ℕ
decimals_from acc [] = acc
decimals_from acc (c ∷ s) = decimals_from (acc * 10 + decimal_value c) s

-- `int` of a text of decimal digits.
unfoldable pub int_of_decimals : Text → ℕ
unfolding decimals_from
int_of_decimals s = decimals_from 0 s

decimals_from-zeros : (n : ℕ) (s : Text) → decimals_from 0 (zeros n ++ s) ≡ decimals_from 0 s
unfolding decimals_from zeros
decimals_from-zeros zero s = refl
decimals_from-zeros (suc n) s = decimals_from-zeros n s

-- Leading zeros do not change the value.
pub int_of_decimals-zfill :
    (width : ℕ) (s : Text) → int_of_decimals (zfill width s) ≡ int_of_decimals s
unfolding int_of_decimals zfill
int_of_decimals-zfill width s = decimals_from-zeros (width - length s) s

pub all_decimals-zeros :
    (n : ℕ) (s : Text) → all_decimals s ≡ true → all_decimals (zeros n ++ s) ≡ true
unfolding all_decimals zeros
all_decimals-zeros zero s h = h
all_decimals-zeros (suc n) s h = all_decimals-zeros n s h

pub all_decimals_of_are_decimals : (s : Text) → are_decimals s ≡ true → all_decimals s ≡ true
unfolding are_decimals all_decimals
all_decimals_of_are_decimals [] h = refl
all_decimals_of_are_decimals (c ∷ s) h = h

-- A run without a blank.
abbrev is_apart : ℕ → Bool
is_apart nought =
    ltb 160 nought
    && not (is_in_run 5760 nought)
    && (leb (nought + 10) 8192 || ltb 8202 nought)
    && not (is_in_run 8232 nought)
    && not (is_in_run 8233 nought)
    && not (is_in_run 8239 nought)
    && not (is_in_run 8287 nought)
    && not (is_in_run 12288 nought)

apart_run : (c nought : ℕ) → is_apart nought ≡ true → is_in_run c nought ≡ true → is_space c ≡ false
unfolding is_space
apart_run c nought h k = ground arith

apart_runs :
    (c : ℕ) (noughts : List ℕ)
    → all is_apart noughts ≡ true
    → any (is_in_run c) noughts ≡ true
    → is_space c ≡ false
apart_runs c [] h k = cc
apart_runs c (nought ∷ rest) h k = elim (Bool-cases (is_in_run c nought)) [
  | inl here ↦ apart_run c nought (ground (arith, h)) here
  | inr other ↦ apart_runs c rest (ground (arith, h)) (ground (arith, k, other))
]

ascii_not_space : (c : ℕ) → is_digit c ≡ true → is_space c ≡ false
unfolding is_space
ascii_not_space c h = ground arith

other_not_space : (c : ℕ) → is_other_decimal c ≡ true → is_space c ≡ false
unfolding is_other_decimal
other_not_space c h = apart_runs c other_zeros refl h

-- No decimal digit is a blank.
pub is_decimal-not_space : (c : ℕ) → is_decimal c ≡ true → is_space c ≡ false
is_decimal-not_space c h = elim (Bool-cases (is_digit c)) [
  | inl ascii ↦ ascii_not_space c ascii
  | inr other ↦ other_not_space c (ground (arith, h, other))
]
