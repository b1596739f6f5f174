-- ===== src/Events/Clean.antt =====
-- What holds of a row whose reading ends without an error: rules for the readers of
-- src/eo_event_platform/events/canonicalization.py.
use mathlib.Core.Path.{subst}
use mathlib.Core.Option.{some-injective}
use nasa_earth_observation_e.Prelude.{
  String, sym, Bool-cases, Bool, true, false, Option, none, some, List, [], ◌∷◌, ◌++◌, ◌≡◌, refl,
  ap, ◌∙◌, ◌⊎◌, inl, inr, arith, if◌then◌else◌,
}
use nasa_earth_observation_e.Prelude.Int.{pos}
use nasa_earth_observation_e.Text.{Text, is_empty, strip, left_strip, right_strip}
use nasa_earth_observation_e.Text.Float.{Float, of_int, le, lt, is_finite}
use nasa_earth_observation_e.Events.Timestamp.{
  DateTime, Matches, is_date, first_match, match_format, strptime, iso_format,
}
use nasa_earth_observation_e.Events.AcquisitionTime.{normalize_acquisition_time}
use nasa_earth_observation_e.Prelude.Assoc.{lookup}
use nasa_earth_observation_e.Events.Row.{
  name, Row, Field, Reading, read, fault, Reader, pure, ◌>>=◌, ◌>>◌, report, report_if, code_of,
  cell, required_text, finite_float, Domain, positive, non_negative, check_domain, parse_moment,
  parse_event_timestamp, parse_required_float, parse_optional_float, acq_date, acq_time,
}

-- A reader that ends without an error began without one, and returns what `P` says.
pub record Clean {A : Type 0} (P : A → Type 0) (m : Reader A) : Type 0 where
  pub began : (errors : List String) (a : A) → m errors ≡ read a [] → errors ≡ []
  pub result : (errors : List String) (a : A) → m errors ≡ read a [] → P a

pub Reading-cases :
    {A : Type 0} (r : Reading A)
    → (r ≡ fault) ⊎ ((a : A) × (errors : List String) × (r ≡ read a errors))
Reading-cases fault = inl refl
Reading-cases (read a errors) = inr (a, errors, refl)

-- Inversion of a bind that returns.
bind-eq-read :
    {A B : Type 0} (m : Reader A) (f : A → Reader B) (errors errors' : List String) (b : B)
    → (m >>= f) errors ≡ read b errors'
    → (a : A) × (between : List String) × (m errors ≡ read a between)
      × (f a between ≡ read b errors')
bind-eq-read m f errors errors' b h = elim (Reading-cases (m errors)) [
  | inl faulty ↦ absurd (ground (arith, faulty))
  | inr (a, between, e) ↦ (a, between, e, ground (arith, e))
]

pub Clean-pure : {A : Type 0} (Q : A → Type 0) (a : A) → Q a → Clean Q (pure a)
Clean-pure Q a q = record { began = λ errors a' h. cc; result = λ errors a' h. subst Q (cc) q }

pub Clean-bind :
    {A B : Type 0} (P : A → Type 0) (Q : B → Type 0) (m : Reader A) (f : A → Reader B)
    → Clean P m
    → ((a : A) → Clean (λ b. P a → Q b) (f a))
    → Clean Q (m >>= f)
Clean-bind P Q m f cm cf = record {
  began = λ errors b h.
      let (a, between, e, k) = bind-eq-read m f errors [] b h in
      cm.began errors a (e ∙ ap (read a) ((cf a).began between b k));
  result = λ errors b h.
      let (a, between, e, k) = bind-eq-read m f errors [] b h in
      (cf a).result between b k (cm.result errors a (e ∙ ap (read a) ((cf a).began between b k)));
}

append-ne-nil : (xs : List String) (x : String) → xs ++ x ∷ [] ≡ [] → ⊥
append-ne-nil [] x h = cc
append-ne-nil (y ∷ xs) x h = cc

pub Clean-report : (Q : Unit {0} → Type 0) (code : String) → Clean Q (report code)
Clean-report Q code = record {
  began = λ errors u h. absurd (append-ne-nil errors code (cc));
  result = λ errors u h. absurd (append-ne-nil errors code (cc));
}

pub Clean-report_if : (b : Bool) (code : String) → Clean (λ _. b ≡ false) (report_if b code)
Clean-report_if true code = Clean-report (λ _. true ≡ false) code
Clean-report_if false code = Clean-pure (λ _. false ≡ false) tt refl

-- A reader that reports an error and goes on.
pub Clean-reported :
    {A : Type 0} (Q : A → Type 0) (code : String) (a : A) → Clean Q (report code >> pure a)
Clean-reported Q code a =
    Clean-bind (λ _. ⊥) Q (report code) (λ _. pure a) (Clean-report (λ _. ⊥) code)
      (λ u. Clean-pure (λ b. ⊥ → Q b) a (λ e. absurd e))

-- What the cell of a field says: its text without the blanks around it, or the empty text where the
-- row has no such column.
abbrev pub IsCell : Row → Field → Text → Type 0
IsCell row field s =
    ((lookup (name field) row ≡ none) × (s ≡ []))
    ⊎ ((raw : Text) × (lookup (name field) row ≡ some (some raw)) × (s ≡ strip raw))

read-injective : {A : Type 0} {a b : A} {e e' : List String} → read a e ≡ read b e' → a ≡ b
read-injective h = cc

-- The reader of a cell that was looked up.
IsCell-found :
    (row : Row) (field : Field) (found : Option (Option Text)) (errors : List String) (s : Text)
    → lookup (name field) row ≡ found
    → elim found [
      | none ↦ read (strip []) errors
      | some value ↦ elim value [ none ↦ fault | some raw ↦ read (strip raw) errors ]
    ]
      ≡ read s []
    → IsCell row field s
IsCell-found row field none errors s at h = inl (at, unfold strip left_strip right_strip in (cc h))
IsCell-found row field (some none) errors s at h = cc
IsCell-found row field (some (some raw)) errors s at h = inr (raw, at, sym (read-injective h))

cell-result :
    (row : Row) (field : Field) (errors : List String) (s : Text)
    → cell row field errors ≡ read s []
    → IsCell row field s
unfolding cell
cell-result row field errors s h = IsCell-found row field (lookup (name field) row) errors s refl h

cell-began :
    (row : Row) (field : Field) (errors : List String) (s : Text)
    → cell row field errors ≡ read s []
    → errors ≡ []
unfolding cell
cell-began row field errors s h = ground arith

pub Clean-cell : (row : Row) (field : Field) → Clean (IsCell row field) (cell row field)
Clean-cell row field = record { began = cell-began row field; result = cell-result row field }

-- What a reader leaves, weakened.
pub Clean-map :
    {A : Type 0} {P Q : A → Type 0} {m : Reader A} → ((a : A) → P a → Q a) → Clean P m → Clean Q m
Clean-map f c = record { began = c.began; result = λ errors a h. f a (c.result errors a h) }

pub Clean-if :
    {A : Type 0} (Q : A → Type 0) (b : Bool) (m n : Reader A)
    → (b ≡ true → Clean Q m)
    → (b ≡ false → Clean Q n)
    → Clean Q (if b then m else n)
Clean-if Q true m n km kn = km refl
Clean-if Q false m n km kn = kn refl

-- A text that is there, as the row has it.
abbrev pub IsPresent : Row → Field → Option Text → Type 0
IsPresent row field v = (s : Text) × IsCell row field s × (v ≡ some s) × (is_empty s ≡ false)

pub required_text-Clean :
    (row : Row) (field : Field) → Clean (IsPresent row field) (required_text row field)
unfolding required_text
required_text-Clean row field =
    Clean-bind (IsCell row field) (IsPresent row field) (cell row field) _ (Clean-cell row field)
      (λ value.
        Clean-if (λ v. IsCell row field value → IsPresent row field v) (is_empty value) _ _
          (λ _. Clean-reported _ (code_of "MISSING_" field) none)
          (λ full. Clean-pure _ (some value) (λ found. (value, found, refl, full))))

-- A float that was read and is finite.
abbrev pub IsNumber : Option Float → Option Float → Type 0
IsNumber o v = (x : Float) × (o ≡ some x) × (v ≡ some x) × (is_finite x ≡ true)

finite_float-Clean : (field : Field) (v : Option Float) → Clean (IsNumber v) (finite_float field v)
unfolding finite_float
finite_float-Clean field none = Clean-reported (IsNumber none) (code_of "INVALID_" field) none
finite_float-Clean field (some x) =
    Clean-if (IsNumber (some x)) (is_finite x) _ _
      (λ is_number. Clean-pure (IsNumber (some x)) (some x) (x, refl, refl, is_number))
      (λ _. Clean-reported (IsNumber (some x)) (code_of "INVALID_" field) none)

-- A bound of a measurement, as `check_domain` tests it.
abbrev pub InDomain : Domain → Float → Type 0
InDomain positive x = le x (of_int (pos 0)) ≡ false
InDomain non_negative x = lt x (of_int (pos 0)) ≡ false

abbrev IsChecked : Domain → Option Float → Option Float → Type 0
IsChecked domain v w = (x : Float) → v ≡ some x → (w ≡ some x) × InDomain domain x

check_domain-Clean :
    (domain : Domain) (field : Field) (v : Option Float)
    → Clean (IsChecked domain v) (check_domain domain field v)
unfolding check_domain
check_domain-Clean domain field none = Clean-pure (IsChecked domain none) none (λ x e. cc)
check_domain-Clean positive field (some x) =
    Clean-bind (λ _. le x (of_int (pos 0)) ≡ false) (IsChecked positive (some x))
      (report_if (le x (of_int (pos 0))) (code_of "NON_POSITIVE_" field)) (λ _. pure (some x))
      (Clean-report_if (le x (of_int (pos 0))) (code_of "NON_POSITIVE_" field))
      (λ u. Clean-pure _ (some x) (λ bound y e. (e, subst (InDomain positive) (cc) bound)))
check_domain-Clean non_negative field (some x) =
    Clean-bind (λ _. lt x (of_int (pos 0)) ≡ false) (IsChecked non_negative (some x))
      (report_if (lt x (of_int (pos 0))) (code_of "NEGATIVE_" field)) (λ _. pure (some x))
      (Clean-report_if (lt x (of_int (pos 0))) (code_of "NEGATIVE_" field))
      (λ u. Clean-pure _ (some x) (λ bound y e. (e, subst (InDomain non_negative) (cc) bound)))

-- The time of a row: the ISO text of the moment that its date and its normalised time say.
pub record IsTimestamp (row : Row) (v : Option Text) : Type 0 where
  pub raw_date : Text
  pub raw_time : Text
  pub date_cell : IsCell row acq_date raw_date
  pub time_cell : IsCell row acq_time raw_time
  pub time : Text
  pub normal : normalize_acquisition_time raw_time ≡ some time
  pub moment : DateTime
  pub parsed : strptime (raw_date ++ time) ≡ some moment
  pub date : is_date moment ≡ true
  pub text : v ≡ some (iso_format moment)

timestamp-Clean :
    (parsed : Option DateTime) (Q : Option Text → Type 0)
    → ((t : DateTime) → parsed ≡ some t → Q (some (iso_format t)))
    → Clean Q (elim parsed [
      | none ↦ (do report "INVALID_EVENT_TIMESTAMP"; pure none)
      | some t ↦ pure (some (iso_format t))
    ])
timestamp-Clean none Q q = Clean-reported Q "INVALID_EVENT_TIMESTAMP" none
timestamp-Clean (some t) Q q = Clean-pure Q (some (iso_format t)) (q t refl)

moment_of :
    (date time : Text) (normal : Option Text) (t : DateTime)
    → normalize_acquisition_time time ≡ normal
    → elim normal [ none ↦ none | some found ↦ strptime (date ++ found) ] ≡ some t
    → (found : Text) × (normalize_acquisition_time time ≡ some found)
      × (strptime (date ++ found) ≡ some t)
moment_of date time none t at h = cc
moment_of date time (some found) t at h = (found, at, h)

parse_moment_lem :
    (date time : Text) (t : DateTime)
    → parse_moment date time ≡ some t
    → (found : Text) × (normalize_acquisition_time time ≡ some found)
      × (strptime (date ++ found) ≡ some t)
unfolding parse_moment
parse_moment_lem date time t h = moment_of date time (normalize_acquisition_time time) t refl h

-- A moment that is parsed is a date that exists.
first_match-is_date :
    (l : Matches DateTime) (t : DateTime) → first_match l ≡ some t → is_date t ≡ true
unfolding first_match
first_match-is_date [] t h = cc
first_match-is_date ((t', []) ∷ rest) t h = elim (Bool-cases (is_date t')) [
  | inl exists ↦ subst (λ m. is_date m ≡ true) (some-injective _ _ (rw exists at h)) exists
  | inr missing ↦ cc (rw missing at h)
]
first_match-is_date ((t', c ∷ s) ∷ rest) t h = cc

strptime-is_date : (s : Text) (t : DateTime) → strptime s ≡ some t → is_date t ≡ true
unfolding strptime
strptime-is_date s t h = first_match-is_date (match_format s) t h

moment-IsTimestamp :
    (row : Row) (date time : Text) (t : DateTime)
    → IsCell row acq_date date
    → IsCell row acq_time time
    → parse_moment date time ≡ some t
    → IsTimestamp row (some (iso_format t))
moment-IsTimestamp row date time t date_cell time_cell h =
    let (normal, found, parsed) = parse_moment_lem date time t h in
    record {
      raw_date = date;
      raw_time = time;
      date_cell = date_cell;
      time_cell = time_cell;
      time = normal;
      normal = found;
      moment = t;
      parsed = parsed;
      date = strptime-is_date (date ++ normal) t parsed;
      text = refl;
    }

pub parse_event_timestamp-Clean : (row : Row) → Clean (IsTimestamp row) (parse_event_timestamp row)
unfolding parse_event_timestamp
parse_event_timestamp-Clean row =
    Clean-bind (IsCell row acq_date) (IsTimestamp row) (cell row acq_date) _
      (Clean-cell row acq_date)
      (λ date.
        Clean-bind (IsCell row acq_time) (λ v. IsCell row acq_date date → IsTimestamp row v)
          (cell row acq_time) _ (Clean-cell row acq_time)
          (λ time.
            timestamp-Clean (parse_moment date time)
              (λ v. IsCell row acq_time time → IsCell row acq_date date → IsTimestamp row v)
              (λ t parsed at_time at_date.
                moment-IsTimestamp row date time t at_date at_time parsed)))

module _ (float : Text → Option Float) where
  -- The finite float that a cell says.
  abbrev pub IsFloat : Row → Field → Option Float → Type 0
  IsFloat row field v = (s : Text) × IsCell row field s × IsNumber (float s) v

  -- A measurement that the cell says, within its bound, or that is missing with it.
  abbrev pub IsMeasurement : Row → Field → Domain → Option Float → Type 0
  IsMeasurement row field domain v =
      (s : Text) × IsCell row field s
      × (((is_empty s ≡ true) × (v ≡ none))
          ⊎ ((x : Float) × (float s ≡ some x)
              × (v ≡ some x)
              × (is_finite x ≡ true)
              × InDomain domain x))

  pub parse_required_float-Clean :
      (row : Row) (field : Field) → Clean (IsFloat row field) (parse_required_float float row field)
  unfolding parse_required_float
  parse_required_float-Clean row field =
      Clean-bind (IsCell row field) (IsFloat row field) (cell row field) _ (Clean-cell row field)
        (λ value.
          Clean-if (λ v. IsCell row field value → IsFloat row field v) (is_empty value) _ _
            (λ _. Clean-reported _ (code_of "MISSING_" field) none)
            (λ _.
              Clean-map (λ v number found. (value, found, number))
                (finite_float-Clean field (float value))))

  pub parse_optional_float-Clean :
      (row : Row) (field : Field) (domain : Domain)
      → Clean (IsMeasurement row field domain) (parse_optional_float float row field domain)
  unfolding parse_optional_float
  parse_optional_float-Clean row field domain =
      Clean-bind (IsCell row field) (IsMeasurement row field domain) (cell row field) _
        (Clean-cell row field)
        (λ value.
          Clean-if (λ v. IsCell row field value → IsMeasurement row field domain v) (is_empty value)
            _ _ (λ missing. Clean-pure _ none (λ found. (value, found, inl (missing, refl))))
            (λ _.
              Clean-bind (IsNumber (float value))
                (λ v. IsCell row field value → IsMeasurement row field domain v)
                (finite_float field (float value)) (λ x. check_domain domain field x)
                (finite_float-Clean field (float value))
                (λ o.
                  Clean-map
                    (λ w checked (x, source, same, number) found.
                      let (kept, bound) = checked x same in
                      (value, found, inr (x, source, kept, number, bound)))
                    (check_domain-Clean domain field o))))
