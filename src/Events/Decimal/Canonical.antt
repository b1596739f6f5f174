-- ===== src/Events/Decimal/Canonical.antt =====
-- Decimals of one value have one text.
use native.Mathlib.Nat.{pow-suc, mul_assoc}
use nasa_earth_observation_e.Prelude.{
  ℕ, zero, suc, ◌-◌, ◌*◌, ◌/◌, ◌%◌, ◌^◌, ◌≤◌, ◌<◌, Bool, none, some, arith, ◌≡◌, refl, sym, ap, ◌∙◌,
}
use nasa_earth_observation_e.Prelude.Int.{ℤ, add_ℕ}
use nasa_earth_observation_e.Text.{codes, strip}
use nasa_earth_observation_e.Text.Digits.{zeros, zfill}
use nasa_earth_observation_e.Text.Decimals.{
  is_other_decimal, all_decimals, are_decimals, value_in, other_value, decimals_from,
  int_of_decimals,
}
use nasa_earth_observation_e.Json.{show}
use nasa_earth_observation_e.Events.Decimal.{
  Decimal, strip_zeros, round_decimal, normalize, normal_text, format_fixed, normalize_decimal,
  parse_decimal, format_digits, first_chars, span, exponent_of, unsigned,
}

-- More fuel than the coefficient changes nothing.
strip_zeros_fuel :
    (f g c : ℕ) (e : ℤ) → 0 < c → c ≤ f → c ≤ g → strip_zeros f c e ≡ strip_zeros g c e
unfolding strip_zeros
strip_zeros_fuel zero g c e p h k = absurd (omega arith)
strip_zeros_fuel (suc f) zero c e p h k = absurd (omega arith)
strip_zeros_fuel (suc f) (suc g) c e p h k =
    ground (arith, strip_zeros_fuel f g (c / 10) (add_ℕ e 1))

strip_zeros_step : (f c : ℕ) (e : ℤ) → strip_zeros (suc f) (c * 10) e ≡ strip_zeros f c (add_ℕ e 1)
unfolding strip_zeros
strip_zeros_step f c e =
    let quotient : c * 10 / 10 ≡ c = omega arith in
    let remainder : c * 10 % 10 ≡ 0 = omega arith in rw (quotient, remainder)

strip_zeros_ten :
    (c : ℕ) (e : ℤ) → 0 < c → strip_zeros (c * 10) (c * 10) e ≡ strip_zeros c c (add_ℕ e 1)
strip_zeros_ten c e p =
    let fuel : c * 10 ≡ suc (c * 10 - 1) = omega arith in
    ap (λ n. strip_zeros n (c * 10) e) fuel
    ∙ strip_zeros_step (c * 10 - 1) c e
    ∙ strip_zeros_fuel (c * 10 - 1) c c (add_ℕ e 1) p (omega arith) (omega arith)

abbrev pub decimal : Bool → ℕ → ℤ → Decimal
decimal negative c e = record { negative = negative; coefficient = c; exponent = e }

round_few : (c : ℕ) (e : ℤ) → c < 10 ^ 28 → round_decimal c e ≡ (c, e)
unfolding round_decimal
round_few c e h = ground arith

normalize_few :
    (negative : Bool) (c : ℕ) (e : ℤ)
    → c < 10 ^ 28
    → normalize (decimal negative c e)
      ≡ decimal negative (strip_zeros c c e).0 (strip_zeros c c e).1
unfolding normalize
normalize_few negative c e h = rw (round_few c e h)

normal_text_zero : (negative : Bool) (e : ℤ) → normal_text (decimal negative 0 e) ≡ codes "0"
unfolding normal_text
normal_text_zero negative e = refl

normal_text_pos :
    (negative : Bool) (c : ℕ) (e : ℤ)
    → 0 < c
    → normal_text (decimal negative c e) ≡ format_fixed (normalize (decimal negative c e))
unfolding normal_text
normal_text_pos negative c e h = ground arith

normal_text_ten :
    (negative : Bool) (c : ℕ) (e : ℤ)
    → c * 10 < 10 ^ 28
    → normal_text (decimal negative (c * 10) e) ≡ normal_text (decimal negative c (add_ℕ e 1))
normal_text_ten negative zero e h =
    normal_text_zero negative e ∙ sym (normal_text_zero negative (add_ℕ e 1))
normal_text_ten negative (suc c) e h =
    let same = strip_zeros_ten (suc c) e (omega arith) in
    normal_text_pos negative (suc c * 10) e (omega arith)
    ∙ ap format_fixed (
        normalize_few negative (suc c * 10) e h
        ∙ ap (λ r. decimal negative r.0 r.1) same
        ∙ sym (normalize_few negative (suc c) (add_ℕ e 1) (omega arith)))
    ∙ sym (normal_text_pos negative (suc c) (add_ℕ e 1) (omega arith))

add_ℕ-suc : (e : ℤ) (k : ℕ) → add_ℕ (add_ℕ e 1) k ≡ add_ℕ e (suc k)
add_ℕ-suc e k = ground arith

add_ℕ-zero : (e : ℤ) → add_ℕ e 0 ≡ e
add_ℕ-zero e = ground arith

-- Decimals of one value, of at most 28 digits, are written the same way: a factor 10 ^ k in the
-- coefficient is the same as k in the exponent.
pub normal_text-pow :
    (negative : Bool) (c k : ℕ) (e : ℤ)
    → c * 10 ^ k < 10 ^ 28
    → normal_text (decimal negative (c * 10 ^ k) e) ≡ normal_text (decimal negative c (add_ℕ e k))
normal_text-pow negative c zero e h =
    let one : c * 10 ^ 0 ≡ c = omega arith in
    ap (λ n. normal_text (decimal negative n e)) one
    ∙ ap (λ n. normal_text (decimal negative c n)) (sym (add_ℕ-zero e))
normal_text-pow negative c (suc k) e h =
    let ten : c * 10 ^ suc k ≡ c * 10 ^ k * 10 =
      ap (λ n. c * n) (pow-suc 10 k) ∙ sym (mul_assoc c (10 ^ k) 10) in
    ap (λ n. normal_text (decimal negative n e)) ten
    ∙ normal_text_ten negative (c * 10 ^ k) e (omega (arith, ten))
    ∙ normal_text-pow negative c k (add_ℕ e 1) (omega (arith, ten))
    ∙ ap (λ n. normal_text (decimal negative c n)) (add_ℕ-suc e k)

tests :
    (normalize_decimal (codes " -010.2500 ") ≡ some (codes "-10.25"))
    × (normalize_decimal (codes "-0.00") ≡ some (codes "0"))
    × (normalize_decimal (codes "1.5e3") ≡ some (codes "1500"))
    × (normalize_decimal (codes ".05") ≡ some (codes "0.05"))
    × (normalize_decimal (codes "nan") ≡ none)
unfolding normalize_decimal normal_text format_fixed normalize strip_zeros round_decimal
    parse_decimal format_digits first_chars span exponent_of unsigned strip show zeros zfill
    int_of_decimals are_decimals all_decimals decimals_from is_other_decimal other_value value_in
tests = (refl, refl, refl, refl, refl)
