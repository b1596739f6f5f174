-- ===== src/Events/Timestamp/RoundTrip.antt =====
-- A date and a time in their padded form are read back.
use nasa_earth_observation_e.Prelude.{
  ℕ, ◌≤◌, true, Option, none, some, [], ◌∷◌, ◌++◌, arith, ◌≡◌, refl,
}
use nasa_earth_observation_e.Text.{Text}
use nasa_earth_observation_e.Events.Timestamp.{
  DateTime, Matches, year, month, day, hour, minute, dash, ◌>>=◌, match_format, match_minute,
  match_hour, match_day, match_second_dash, match_month, match_first_dash, is_date, first_match,
  strptime, show_two, show_four,
}

-- The match that is tried first.
abbrev first : {A : Type 0} → Matches A → Option (A × Text)
first [] = none
first (m ∷ rest) = some m

first-append :
    {A : Type 0} (xs ys : Matches A) (m : A × Text) → first xs ≡ some m → first (xs ++ ys) ≡ some m
first-append [] ys m h = cc
first-append (x ∷ xs) ys m h = h

first-bind :
    {A B : Type 0} (xs : Matches A) (f : A → Text → Matches B) (a : A) (s : Text) (r : B × Text)
    → first xs ≡ some (a, s)
    → first (f a s) ≡ some r
    → first (xs >>= f) ≡ some r
first-bind [] f a s r h k = cc
first-bind ((a', s') ∷ rest) f a s r h k = first-append (f a' s') (rest >>= f) r (cc (h, k))

month-show : (m : ℕ) (s : Text) → 1 ≤ m → m ≤ 12 → first (month (show_two m ++ s)) ≡ some (m, s)
unfolding month show_two
month-show m s low high = ground arith

day-show : (d : ℕ) (s : Text) → 1 ≤ d → d ≤ 31 → first (day (show_two d ++ s)) ≡ some (d, s)
unfolding day show_two
day-show d s low high = ground arith

hour-show : (h : ℕ) (s : Text) → h ≤ 23 → first (hour (show_two h ++ s)) ≡ some (h, s)
unfolding hour show_two
hour-show h s high = ground arith

minute-show : (n : ℕ) (s : Text) → n ≤ 59 → first (minute (show_two n ++ s)) ≡ some (n, s)
unfolding minute show_two
minute-show n s high = ground arith

year-show : (y : ℕ) (s : Text) → y ≤ 9999 → first (year (show_four y ++ s)) ≡ some (y, s)
unfolding year show_four
year-show y s high = ground arith

-- A date that exists, with a time of day.
pub record IsMoment (t : DateTime) : Type 0 where
  pub year_le : t.year ≤ 9999
  pub month_pos : 1 ≤ t.month
  pub month_le : t.month ≤ 12
  pub date : is_date t ≡ true
  pub hour_le : t.hour ≤ 23
  pub minute_le : t.minute ≤ 59

-- The date as NASA writes it, and the time as `normalize_acquisition_time` returns it.
pub date_text : DateTime → Text
date_text t = show_four t.year ++ b'-' ∷ show_two t.month ++ b'-' ∷ show_two t.day

pub time_text : DateTime → Text
time_text t = show_two t.hour ++ show_two t.minute

day-le : (t : DateTime) → is_date t ≡ true → (1 ≤ t.day) × (t.day ≤ 31)
day-le t h = ground arith

match_minute-show :
    (t : DateTime)
    → t.minute ≤ 59
    → first (match_minute t.year t.month t.day t.hour (show_two t.minute ++ [])) ≡ some (t, [])
unfolding match_minute
match_minute-show t h =
    first-bind (minute (show_two t.minute ++ []))
      (λ n r.
        (record { year = t.year; month = t.month; day = t.day; hour = t.hour; minute = n }, r) ∷ [])
      t.minute [] (t, []) (minute-show t.minute [] h) refl

-- A dash in front.
dash-first :
    (f : Text → Matches DateTime) (s : Text) (r : DateTime × Text)
    → first (f s) ≡ some r
    → first (dash (b'-' ∷ s) >>= λ _ r'. f r') ≡ some r
unfolding dash
dash-first f s r h = first-append (f s) [] r h

match_hour-show :
    (t : DateTime) (s : Text)
    → t.hour ≤ 23
    → first (match_minute t.year t.month t.day t.hour s) ≡ some (t, [])
    → first (match_hour t.year t.month t.day (show_two t.hour ++ s)) ≡ some (t, [])
unfolding match_hour
match_hour-show t s h k =
    first-bind (hour (show_two t.hour ++ s)) (match_minute t.year t.month t.day) t.hour s (t, [])
      (hour-show t.hour s h) k

match_day-show :
    (t : DateTime) (s : Text)
    → 1 ≤ t.day
    → t.day ≤ 31
    → first (match_hour t.year t.month t.day s) ≡ some (t, [])
    → first (match_day t.year t.month (show_two t.day ++ s)) ≡ some (t, [])
unfolding match_day
match_day-show t s low high k =
    first-bind (day (show_two t.day ++ s)) (match_hour t.year t.month) t.day s (t, [])
      (day-show t.day s low high) k

match_month-show :
    (t : DateTime) (s : Text)
    → 1 ≤ t.month
    → t.month ≤ 12
    → first (match_day t.year t.month s) ≡ some (t, [])
    → first (match_month t.year (show_two t.month ++ b'-' ∷ s)) ≡ some (t, [])
unfolding match_month match_second_dash
match_month-show t s low high k =
    first-bind (month (show_two t.month ++ b'-' ∷ s)) (match_second_dash t.year) t.month (b'-' ∷ s)
      (t, []) (month-show t.month (b'-' ∷ s) low high)
      (dash-first (match_day t.year t.month) s (t, []) k)

match_format-show :
    (t : DateTime) (s : Text)
    → t.year ≤ 9999
    → first (match_month t.year s) ≡ some (t, [])
    → first (match_format (show_four t.year ++ b'-' ∷ s)) ≡ some (t, [])
unfolding match_format match_first_dash
match_format-show t s high k =
    first-bind (year (show_four t.year ++ b'-' ∷ s)) match_first_dash t.year (b'-' ∷ s) (t, [])
      (year-show t.year (b'-' ∷ s) high) (dash-first (match_month t.year) s (t, []) k)

match-moment :
    (t : DateTime) → IsMoment t → first (match_format (date_text t ++ time_text t)) ≡ some (t, [])
unfolding date_text time_text
match-moment t v =
    let (day_pos, day_le) = day-le t v.date in
    let shown =
      match_format-show t
        (show_two t.month
          ++ b'-' ∷ (show_two t.day ++ (show_two t.hour ++ (show_two t.minute ++ []))))
        v.year_le
        (match_month-show t (show_two t.day ++ (show_two t.hour ++ (show_two t.minute ++ [])))
          v.month_pos v.month_le
          (match_day-show t (show_two t.hour ++ (show_two t.minute ++ [])) day_pos day_le (
            match_hour-show t (show_two t.minute ++ []) v.hour_le
              (match_minute-show t v.minute_le)))) in
    unfold show_two show_four in shown

first_match_lem :
    (l : Matches DateTime) (t : DateTime)
    → first l ≡ some (t, [])
    → is_date t ≡ true
    → first_match l ≡ some t
unfolding first_match
first_match_lem [] t h d = cc
first_match_lem ((t', []) ∷ rest) t h d = ground arith
first_match_lem ((t', c ∷ s) ∷ rest) t h d = absurd (ground arith)

-- Every moment of the years up to 9999, written as padded date and time, is read back: the parser's
-- choices never let one part run into the next.
pub strptime-date_text :
    (t : DateTime) → IsMoment t → strptime (date_text t ++ time_text t) ≡ some t
unfolding strptime
strptime-date_text t v =
    first_match_lem (match_format (date_text t ++ time_text t)) t (match-moment t v) v.date
