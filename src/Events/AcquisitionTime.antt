-- ===== src/Events/AcquisitionTime.antt =====
-- `normalize_acquisition_time` of src/eo_event_platform/events/identity.py. `none` is ValueError,
-- which `int` raises of a digit that `isdigit` takes and that is no decimal one, such as a superscript.
use mathlib.Core.Path.{subst}
use nasa_earth_observation_e.Prelude.{
  ℕ, ◌-◌, ◌≤◌, ◌≡◌, refl, sym, ap, ◌∙◌, true, ◌&&◌, ◌||◌, not, Option, none, some, [], ◌∷◌, leb,
  ltb, if◌then◌else◌, arith, length,
}
use nasa_earth_observation_e.Text.{Text, strip, left_strip, right_strip}
use nasa_earth_observation_e.Text.Digits.{zfill, zeros, length-zfill}
use nasa_earth_observation_e.Text.Decimals.{
  all_decimals, are_decimals, int_of_decimals, int_of_decimals-zfill, all_decimals-zeros,
  all_decimals_of_are_decimals, is_decimal-not_space,
}

-- The hours and the minutes of four digits.
unfoldable pub hours : Text → ℕ
unfolding int_of_decimals
hours (a ∷ b ∷ rest) = int_of_decimals (a ∷ b ∷ [])
hours s = int_of_decimals s

unfoldable pub minutes : Text → ℕ
unfolding int_of_decimals
minutes (a ∷ b ∷ rest) = int_of_decimals rest
minutes s = 0

-- The checks of the padded digits.
unfoldable pub checked : Text → Option Text
checked normalized =
    if ltb 23 (hours normalized) || ltb 59 (minutes normalized) then none else some normalized

unfoldable pub normalize_acquisition_time : Text → Option Text
normalize_acquisition_time value =
    let cleaned = strip value in
    if not (are_decimals cleaned) || not (leb 1 (length cleaned) && leb (length cleaned) 4)
    then none
    else checked (zfill 4 cleaned)

-- A normalised time: four decimal digits, with hours and minutes of a day.
pub record IsTime (t : Text) : Type 0 where
  pub digits : all_decimals t ≡ true
  pub four : length t ≡ 4
  pub hour : hours t ≤ 23
  pub minute : minutes t ≤ 59

checked_lem : (s t : Text) → checked s ≡ some t → (s ≡ t) × (hours s ≤ 23) × (minutes s ≤ 59)
unfolding checked
checked_lem s t h = ground arith

checked_pass : (s : Text) → hours s ≤ 23 → minutes s ≤ 59 → checked s ≡ some s
unfolding checked
checked_pass s h m = ground arith

padded_digits : (s : Text) → all_decimals s ≡ true → all_decimals (zfill 4 s) ≡ true
unfolding zfill
padded_digits s h = all_decimals-zeros (4 - length s) s h

normalize_lem :
    (value t : Text)
    → normalize_acquisition_time value ≡ some t
    → (are_decimals (strip value) ≡ true)
      × (1 ≤ length (strip value))
      × (length (strip value) ≤ 4)
      × (checked (zfill 4 (strip value)) ≡ some t)
unfolding normalize_acquisition_time
normalize_lem value t h = ground arith

-- A time that is accepted is four decimal digits, of whatever script, with hours up to 23 and minutes up to 59, and is the number
-- that the trimmed text was.
pub normalize-IsTime :
    (value t : Text)
    → normalize_acquisition_time value ≡ some t
    → IsTime t × (int_of_decimals t ≡ int_of_decimals (strip value))
normalize-IsTime value t h =
    let (digits, some_digit, few, passed) = normalize_lem value t h in
    let (same, hour, minute) = checked_lem (zfill 4 (strip value)) t passed in
    (
      subst IsTime same (record {
        digits = padded_digits (strip value) (all_decimals_of_are_decimals (strip value) digits);
        four = length-zfill 4 (strip value) few;
        hour = hour;
        minute = minute;
      }),
      ap int_of_decimals (sym same) ∙ int_of_decimals-zfill 4 (strip value),
    )

left_strip_digits : (s : Text) → all_decimals s ≡ true → left_strip s ≡ s
unfolding left_strip all_decimals
left_strip_digits [] h = refl
left_strip_digits (c ∷ s) h = ground (arith, is_decimal-not_space c)

right_strip_digits : (s : Text) → all_decimals s ≡ true → right_strip s ≡ s
unfolding right_strip all_decimals
right_strip_digits [] h = refl
right_strip_digits (c ∷ s) h = ground (arith, is_decimal-not_space c, right_strip_digits s)

pub strip_digits : (s : Text) → all_decimals s ≡ true → strip s ≡ s
unfolding strip
strip_digits s h = rw (left_strip_digits s h) (right_strip_digits s h)

are_digits_of_four : (s : Text) → all_decimals s ≡ true → length s ≡ 4 → are_decimals s ≡ true
unfolding are_decimals all_decimals
are_digits_of_four [] h n = absurd (omega arith)
are_digits_of_four (c ∷ s) h n = h

zfill_four : (s : Text) → length s ≡ 4 → zfill 4 s ≡ s
unfolding zfill zeros
zfill_four s h = let none_left : 4 - length s ≡ 0 = omega arith in rw none_left

normalize_digits :
    (t : Text)
    → strip t ≡ t
    → are_decimals t ≡ true
    → length t ≡ 4
    → zfill 4 t ≡ t
    → normalize_acquisition_time t ≡ checked t
unfolding normalize_acquisition_time
normalize_digits t trimmed digits four filled = ground arith

-- A normalised time is accepted as it is.
pub normalize_of_IsTime : (t : Text) → IsTime t → normalize_acquisition_time t ≡ some t
normalize_of_IsTime t h =
    normalize_digits t (strip_digits t h.digits) (are_digits_of_four t h.digits h.four) h.four
      (zfill_four t h.four)
    ∙ checked_pass t h.hour h.minute
