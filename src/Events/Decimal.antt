-- ===== src/Events/Decimal.antt =====
-- `normalize_decimal` of src/eo_event_platform/events/identity.py, with what it uses of Python's
-- `decimal`: the constructor from a text, `normalize` in the default context of 28 digits with
-- rounding half to even, and the format `f`. `none` is ValueError. There are no underscores
-- between digits, and exponents stay within the context's limits.
pub mod Canonical
use nasa_earth_observation_e.Prelude.{
  ℕ, zero, suc, ◌+◌, ◌-◌, ◌*◌, ◌/◌, ◌%◌, ◌^◌, Bool, true, false, ◌&&◌, ◌||◌, not, Option, none,
  some, List, [], ◌∷◌, ◌++◌, leb, ltb, ◌==◌, if◌then◌else◌, length, drop, arith, ◌≡◌, refl,
}
use nasa_earth_observation_e.Prelude.Int.{ℤ, pos, negsuc, add_ℕ, sub_ℕ}
use nasa_earth_observation_e.Text.{Text, codes, strip, is_empty}
use nasa_earth_observation_e.Text.Digits.{zeros, zfill}
use nasa_earth_observation_e.Text.Decimals.{is_decimal, int_of_decimals, are_decimals}
use nasa_earth_observation_e.Json.{show}

-- A finite decimal: its sign, and coefficient * 10 ^ exponent.
pub record Decimal : Type 0 where
  pub negative : Bool
  pub coefficient : ℕ
  pub exponent : ℤ

-- The digits at the front, and the rest.
unfoldable pub span : Text → Text × Text
span [] = ([], [])
span (c ∷ s) =
    let (digits, rest) = span s in if is_decimal c then (c ∷ digits, rest) else ([], c ∷ s)

-- The exponent behind the digits, if the rest is one or empty.
unfoldable pub exponent_of : Text → Option ℤ
exponent_of [] = some (pos 0)
exponent_of (e ∷ []) = none
exponent_of (e ∷ sign ∷ s) =
    if not (e == b'e' || e == b'E')
    then none
    else if sign == b'-'
    then (if are_decimals s then some (sub_ℕ (pos 0) (int_of_decimals s)) else none)
    else if sign == b'+'
    then (if are_decimals s then some (pos (int_of_decimals s)) else none)
    else if are_decimals (sign ∷ s)
    then some (pos (int_of_decimals (sign ∷ s)))
    else none

abbrev pub with_exponent : Bool → Text → Text → Option ℤ → Option Decimal
with_exponent negative whole fraction none = none
with_exponent negative whole fraction (some e) =
    if is_empty (whole ++ fraction)
    then none
    else some (record {
      negative = negative;
      coefficient = int_of_decimals (whole ++ fraction);
      exponent = sub_ℕ e (length fraction);
    })

-- What stands behind the sign: digits, perhaps a point and digits, perhaps an exponent.
unfoldable pub unsigned : Bool → Text → Option Decimal
unfolding span exponent_of
unsigned negative s = let (whole, rest) = span s in after_whole whole rest
  where
    after_whole : Text → Text → Option Decimal
    after_whole whole [] = with_exponent negative whole [] (some (pos 0))
    after_whole whole (c ∷ rest) =
        if c == b'.'
        then (let (fraction, rest') = span rest in
            with_exponent negative whole fraction (exponent_of rest'))
        else with_exponent negative whole [] (exponent_of (c ∷ rest))

-- `Decimal(text)`, where it is finite; the names of the infinities and of NaN are refused with the
-- texts that are no decimals.
unfoldable pub parse_decimal : Text → Option Decimal
parse_decimal [] = none
parse_decimal (c ∷ s) =
    if c == b'-'
    then unsigned true s
    else if c == b'+'
    then unsigned false s
    else unsigned false (c ∷ s)

-- Rounding to 28 digits, half to even.
unfoldable pub round_decimal : ℕ → ℤ → ℕ × ℤ
round_decimal c e =
    if ltb c (10 ^ 28)
    then (c, e)
    else (let places = length (show c) - 28 in
        let unit = 10 ^ places in
        let quotient = c / unit in
        let twice = c % unit * 2 in
        let up = ltb unit twice || (twice == unit && quotient % 2 == 1) in
        (if up then quotient + 1 else quotient, add_ℕ e places))

-- The trailing zeros of a coefficient that is not 0; as much fuel as the coefficient is enough.
unfoldable pub strip_zeros : ℕ → ℕ → ℤ → ℕ × ℤ
strip_zeros zero c e = (c, e)
strip_zeros (suc fuel) c e =
    let rest = strip_zeros fuel (c / 10) (add_ℕ e 1) in if c % 10 == 0 then rest else (c, e)

-- `Decimal.normalize`, of a number that is not 0.
unfoldable pub normalize : Decimal → Decimal
normalize d =
    let (c, e) = round_decimal d.coefficient d.exponent in
    let (c', e') = strip_zeros c c e in record d { coefficient = c'; exponent = e' }

unfoldable pub first_chars : ℕ → Text → Text
first_chars zero s = []
first_chars (suc n) [] = []
first_chars (suc n) (c ∷ s) = c ∷ first_chars n s

-- The digits of the coefficient with the point, or the zeros, that the exponent asks for.
unfoldable pub format_digits : ℕ → ℤ → Text
format_digits c (pos e) = show c ++ zeros e
format_digits c (negsuc k) =
    let digits = zfill (k + 2) (show c) in
    let whole = length digits - (k + 1) in first_chars whole digits ++ b'.' ∷ drop whole digits

-- `format(d, "f")`
unfoldable pub format_fixed : Decimal → Text
format_fixed d =
    if d.negative
    then b'-' ∷ format_digits d.coefficient d.exponent
    else format_digits d.coefficient d.exponent

-- The text of a decimal that was read.
unfoldable pub normal_text : Decimal → Text
normal_text d = if d.coefficient == 0 then codes "0" else format_fixed (normalize d)

unfoldable pub normalize_decimal : Text → Option Text
normalize_decimal value = elim (parse_decimal (strip value)) [
  | none ↦ none
  | some d ↦ some (normal_text d)
]
