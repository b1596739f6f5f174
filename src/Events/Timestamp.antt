-- ===== src/Events/Timestamp.antt =====
-- The acquisition date and time of src/eo_event_platform/events/canonicalization.py:
-- `datetime.strptime(date + time, "%Y-%m-%d%H%M")` and the ISO text of what it gives. Python turns
-- the format into a regular expression; a directive is the list of its matches, in the order in
-- which the expression tries them, and the first way to match them all counts.
pub mod RoundTrip
use nasa_earth_observation_e.Prelude.{
  ℕ, zero, suc, ◌+◌, ◌-◌, ◌*◌, ◌/◌, ◌%◌, Bool, true, false, ◌&&◌, ◌||◌, not, Option, none, some,
  List, [], ◌∷◌, ◌++◌, leb, ltb, ◌==◌, if◌then◌else◌, arith, ◌≡◌, refl,
}
use nasa_earth_observation_e.Text.{Text, codes}
use nasa_earth_observation_e.Text.Decimals.{is_decimal, decimal_value}

pub record DateTime : Type 0 where
  pub year : ℕ
  pub month : ℕ
  pub day : ℕ
  pub hour : ℕ
  pub minute : ℕ

abbrev pub Matches : Type 0 → Type 0
Matches A = List (A × Text)

abbrev pub in_class : ℕ → ℕ → ℕ → Bool
in_class low high c = leb low c && leb c high

-- One character of a class; the class `\d` is `is_decimal`.
unfoldable pub one : (ℕ → Bool) → Text → Matches ℕ
one class [] = []
one class (c ∷ s) = if class c then (decimal_value c, s) ∷ [] else []

-- A character of one class and one of another, read as two digits.
unfoldable pub two : (ℕ → Bool) → (ℕ → Bool) → Text → Matches ℕ
two class class' (c ∷ d ∷ s) =
    if class c && class' d then (decimal_value c * 10 + decimal_value d, s) ∷ [] else []
two class class' _ = []

-- A blank and a digit, as `int` reads them.
unfoldable pub blank_one : Text → Matches ℕ
unfolding one
blank_one [] = []
blank_one (c ∷ s) = if c == b' ' then one (in_class b'1' b'9') s else []

unfoldable pub year : Text → Matches ℕ
year (a ∷ b ∷ c ∷ d ∷ s) =
    if is_decimal a && is_decimal b && is_decimal c && is_decimal d
    then (
      decimal_value a * 1000 + decimal_value b * 100 + decimal_value c * 10 + decimal_value d,
      s,
    )
      ∷ []
    else []
year _ = []

unfoldable pub month : Text → Matches ℕ
unfolding one two
month s =
    two (in_class b'1' b'1') (in_class b'0' b'2') s
    ++ two (in_class b'0' b'0') (in_class b'1' b'9') s
    ++ one (in_class b'1' b'9') s

unfoldable pub day : Text → Matches ℕ
unfolding one two blank_one
day s =
    two (in_class b'3' b'3') (in_class b'0' b'1') s
    ++ two (in_class b'1' b'2') is_decimal s
    ++ two (in_class b'0' b'0') (in_class b'1' b'9') s
    ++ one (in_class b'1' b'9') s
    ++ blank_one s

unfoldable pub hour : Text → Matches ℕ
unfolding one two
hour s =
    two (in_class b'2' b'2') (in_class b'0' b'3') s
    ++ two (in_class b'0' b'1') is_decimal s
    ++ one is_decimal s

unfoldable pub minute : Text → Matches ℕ
unfolding one two
minute s = two (in_class b'0' b'5') is_decimal s ++ one is_decimal s

-- The character `-`.
unfoldable pub dash : Text → Matches (Unit {0})
dash [] = []
dash (c ∷ s) = if c == b'-' then (tt, s) ∷ [] else []

infixl 5 ◌>>=◌
abbrev pub ◌>>=◌ : {A B : Type 0} → Matches A → (A → Text → Matches B) → Matches B
[] >>= f = []
((a, s) ∷ rest) >>= f = f a s ++ (rest >>= f)

-- All ways to match the format, from each directive on.
unfoldable pub match_minute : ℕ → ℕ → ℕ → ℕ → Text → Matches DateTime
match_minute y m d h s =
    minute s >>= λ n r. (record { year = y; month = m; day = d; hour = h; minute = n }, r) ∷ []

unfoldable pub match_hour : ℕ → ℕ → ℕ → Text → Matches DateTime
match_hour y m d s = hour s >>= match_minute y m d

unfoldable pub match_day : ℕ → ℕ → Text → Matches DateTime
match_day y m s = day s >>= match_hour y m

unfoldable pub match_second_dash : ℕ → ℕ → Text → Matches DateTime
match_second_dash y m s = dash s >>= λ _ r. match_day y m r

unfoldable pub match_month : ℕ → Text → Matches DateTime
match_month y s = month s >>= match_second_dash y

unfoldable pub match_first_dash : ℕ → Text → Matches DateTime
match_first_dash y s = dash s >>= λ _ r. match_month y r

-- At the start of the text.
unfoldable pub match_format : Text → Matches DateTime
match_format s = year s >>= match_first_dash

abbrev pub is_leap : ℕ → Bool
is_leap y = y % 4 == 0 && (not (y % 100 == 0) || y % 400 == 0)

abbrev pub days_in_month : ℕ → ℕ → ℕ
days_in_month y m =
    if m == 2
    then (if is_leap y then 29 else 28)
    else if m == 4 || m == 6 || m == 9 || m == 11
    then 30
    else 31

abbrev pub is_date : DateTime → Bool
is_date t = leb 1 t.year && leb 1 t.day && leb t.day (days_in_month t.year t.month)

-- `datetime.strptime`: the whole text is to be matched, and the date is to exist.
unfoldable pub first_match : Matches DateTime → Option DateTime
first_match [] = none
first_match ((t, []) ∷ rest) = if is_date t then some t else none
first_match ((t, c ∷ s) ∷ rest) = none

unfoldable pub strptime : Text → Option DateTime
strptime s = first_match (match_format s)

unfoldable pub show_two : ℕ → Text
show_two n = (b'0' + n / 10 % 10) ∷ (b'0' + n % 10) ∷ []

unfoldable pub show_four : ℕ → Text
unfolding show_two
show_four n = show_two (n / 100) ++ show_two (n % 100)

-- All that a test of `strptime` computes with.
unfoldable pub strptime_parts : Unit {0}
unfolding strptime first_match match_format match_first_dash match_month match_second_dash match_day
    match_hour match_minute year month day hour minute dash
strptime_parts = tt

-- `isoformat` of a time in UTC, with `Z` in place of the offset.
unfoldable pub iso_format : DateTime → Text
unfolding show_two show_four
iso_format t =
    show_four t.year
    ++ b'-' ∷ show_two t.month
    ++ b'-' ∷ show_two t.day
    ++ b'T' ∷ show_two t.hour
    ++ b':' ∷ show_two t.minute
    ++ codes ":00Z"

padded :
    strptime (codes "2026-08-010130")
    ≡ some (record { year = 2026; month = 8; day = 1; hour = 1; minute = 30 })
unfolding strptime_parts
padded = refl

-- A day of one digit runs into the hours.
unpadded :
    strptime (codes "2026-8-10130")
    ≡ some (record { year = 2026; month = 8; day = 10; hour = 13; minute = 0 })
unfolding strptime_parts
unpadded = refl
