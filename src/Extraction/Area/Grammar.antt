-- ===== src/Extraction/Area/Grammar.antt =====
-- The numbers that `AREA_PATTERN` of src/eo_event_platform/ingestion/nasa_firms/extractor.py matches.
use nasa_earth_observation_e.Prelude.{
  ℕ, true, false, [], ◌∷◌, ◌++◌, ◌==◌, ◌≡◌, refl, sym, ap, ◌∙◌, ◌⊎◌, inl, inr, ◌↔◌, arith,
  Bool-cases,
}
use nasa_earth_observation_e.Text.{Text}
use nasa_earth_observation_e.Text.Decimals.{
  is_decimal, is_other_decimal, all_decimals, are_decimals,
}
use nasa_earth_observation_e.Extraction.Area.{
  matches_fraction, matches_digits, matches_unsigned, matches_number,
}

-- Digits, and perhaps a point and digits, at least one behind it.
abbrev pub IsTail : Text → Text → Type 0
IsTail digits s =
    (s ≡ digits)
    ⊎ ((fraction : Text) × (are_decimals fraction ≡ true) × (s ≡ digits ++ b'.' ∷ fraction))

-- A number without its sign: digits, at least one, and perhaps a fraction.
abbrev pub IsUnsigned : Text → Type 0
IsUnsigned s = (whole : Text) × (are_decimals whole ≡ true) × IsTail whole s

-- A decimal number, perhaps with a minus sign.
abbrev pub IsNumeral : Text → Type 0
IsNumeral t = IsUnsigned t ⊎ ((s : Text) × (t ≡ b'-' ∷ s) × IsUnsigned s)

IsDigits : Text → Type 0
IsDigits s = (digits : Text) × (all_decimals digits ≡ true) × IsTail digits s

point_no_digit : is_decimal b'.' ≡ false
unfolding is_other_decimal
point_no_digit = refl

minus_no_digit : is_decimal b'-' ≡ false
unfolding is_other_decimal
minus_no_digit = refl

IsTail-cons : (c : ℕ) (digits s : Text) → IsTail digits s → IsTail (c ∷ digits) (c ∷ s)
IsTail-cons c digits s (inl same) = inl (ap (λ t. c ∷ t) same)
IsTail-cons c digits s (inr (fraction, some_digits, same)) =
    inr (fraction, some_digits, ap (λ t. c ∷ t) same)

matches_fraction-IsDigits : (s : Text) → matches_fraction s ≡ true → IsTail [] s
unfolding matches_fraction
matches_fraction-IsDigits [] h = inl refl
matches_fraction-IsDigits (c ∷ s) h =
    let point : c ≡ b'.' = ground arith in inr (s, ground arith, ap (λ d. d ∷ s) point)

matches_digits-IsDigits :
    (s : Text)
    → matches_digits s ≡ true
    → (digits : Text) × (all_decimals digits ≡ true) × IsTail digits s
unfolding matches_digits all_decimals
matches_digits-IsDigits [] h = ([], refl, inl refl)
matches_digits-IsDigits (c ∷ s) h = elim (Bool-cases (is_decimal c)) [
  | inl digit ↦
      let (digits, all, tail) = matches_digits-IsDigits s (rw digit at h) in
      (c ∷ digits, ground (arith, digit, all), IsTail-cons c digits s tail)
  | inr other ↦ ([], refl, matches_fraction-IsDigits (c ∷ s) (rw other at h))
]

digits-matches : (digits : Text) → all_decimals digits ≡ true → matches_digits digits ≡ true
unfolding matches_digits all_decimals
digits-matches [] h = refl
digits-matches (c ∷ digits) h = ground (arith, digits-matches digits)

fraction-matches :
    (digits fraction : Text)
    → all_decimals digits ≡ true
    → are_decimals fraction ≡ true
    → matches_digits (digits ++ b'.' ∷ fraction) ≡ true
unfolding matches_digits matches_fraction all_decimals
fraction-matches [] fraction h k = rw point_no_digit k
fraction-matches (c ∷ digits) fraction h k = ground (arith, fraction-matches digits fraction)

matches_unsigned-IsUnsigned : (s : Text) → matches_unsigned s ≡ true → IsUnsigned s
unfolding matches_unsigned are_decimals
matches_unsigned-IsUnsigned [] h = cc
matches_unsigned-IsUnsigned (c ∷ s) h =
    let (digits, all, tail) = matches_digits-IsDigits s (ground arith) in
    (c ∷ digits, ground (arith, all), IsTail-cons c digits s tail)

IsUnsigned-matches_unsigned : (s : Text) → IsUnsigned s → matches_unsigned s ≡ true
unfolding matches_unsigned are_decimals
IsUnsigned-matches_unsigned s ([], some_digits, tail) = cc
IsUnsigned-matches_unsigned s (c ∷ digits, some_digits, inl same) =
    rw same (ground (arith, digits-matches digits))
IsUnsigned-matches_unsigned s (c ∷ digits, some_digits, inr (fraction, k, same)) =
    rw same (ground (arith, fraction-matches digits fraction))

matches_number-IsNumeral : (t : Text) → matches_number t ≡ true → IsNumeral t
unfolding matches_number
matches_number-IsNumeral [] h = cc
matches_number-IsNumeral (c ∷ s) h = elim (Bool-cases (c == b'-')) [
  | inl minus ↦
      let same : c ≡ b'-' = ground (arith, minus) in
      inr (s, ap (λ d. d ∷ s) same, matches_unsigned-IsUnsigned s (rw minus at h))
  | inr other ↦ inl (matches_unsigned-IsUnsigned (c ∷ s) (rw other at h))
]

-- No number without a sign begins with a minus.
unsigned-not_minus : (c : ℕ) (s : Text) → matches_unsigned (c ∷ s) ≡ true → (c == b'-') ≡ false
unfolding matches_unsigned
unsigned-not_minus c s h = elim (Bool-cases (c == b'-')) [
  | inr other ↦ other
  | inl minus ↦
      let same : c ≡ b'-' = ground (arith, minus) in
      let digit : is_decimal c ≡ true = ground arith in
      absurd (cc (sym digit ∙ ap is_decimal same ∙ minus_no_digit))
]

unsigned-matches_number : (t : Text) → matches_unsigned t ≡ true → matches_number t ≡ true
unsigned-matches_number [] h = unfold matches_unsigned matches_number in h
unsigned-matches_number (c ∷ s) h =
    let other = unsigned-not_minus c s h in unfold matches_number in (rw (matches_number, other) h)

-- The pattern of one number matches the decimal numbers.
pub matches_number_lem : (t : Text) → (matches_number t ≡ true) ↔ IsNumeral t
matches_number_lem t = (matches_number-IsNumeral t, from t)
  where
    from : (t : Text) → IsNumeral t → matches_number t ≡ true
    from t (inl u) = unsigned-matches_number t (IsUnsigned-matches_unsigned t u)
    from t (inr (s, same, u)) = rw same (unfold matches_number in (IsUnsigned-matches_unsigned s u))
