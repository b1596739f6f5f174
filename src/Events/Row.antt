-- ===== src/Events/Row.antt =====
-- The readers of one cell in src/eo_event_platform/events/canonicalization.py. A reader appends to
-- the list `errors` of the row; `fault` is an AttributeError, which no reader catches: `csv` gives
-- `None` for a cell that a short row lacks, and `None` has no `strip`.
use nasa_earth_observation_e.Prelude.{
  String, Bool, true, false, Option, none, some, List, [], ◌∷◌, ◌++◌, if◌then◌else◌,
}
use Prim.Native.String
use nasa_earth_observation_e.Prelude.Assoc.{lookup}
use nasa_earth_observation_e.Prelude.Int.{pos}
use nasa_earth_observation_e.Text.{Text, strip, is_empty}
use nasa_earth_observation_e.Text.Float.{Float, of_int, le, lt, is_finite}
use nasa_earth_observation_e.Events.AcquisitionTime.{normalize_acquisition_time}
use nasa_earth_observation_e.Events.Timestamp.{DateTime, strptime, iso_format}

-- A row of `csv.DictReader` with no more cells than columns.
abbrev pub Row : Type 0
Row = List (String × Option Text)

-- The columns that are read, and their names in error codes.
pub data Field : Type 0 where
  latitude longitude acq_date acq_time satellite instrument confidence version daynight : Field
  bright_ti4 bright_ti5 frp scan track : Field

unfoldable pub name : Field → String
name latitude = "latitude"
name longitude = "longitude"
name acq_date = "acq_date"
name acq_time = "acq_time"
name satellite = "satellite"
name instrument = "instrument"
name confidence = "confidence"
name version = "version"
name daynight = "daynight"
name bright_ti4 = "bright_ti4"
name bright_ti5 = "bright_ti5"
name frp = "frp"
name scan = "scan"
name track = "track"

-- `field.upper()`
unfoldable pub upper_name : Field → String
upper_name latitude = "LATITUDE"
upper_name longitude = "LONGITUDE"
upper_name acq_date = "ACQ_DATE"
upper_name acq_time = "ACQ_TIME"
upper_name satellite = "SATELLITE"
upper_name instrument = "INSTRUMENT"
upper_name confidence = "CONFIDENCE"
upper_name version = "VERSION"
upper_name daynight = "DAYNIGHT"
upper_name bright_ti4 = "BRIGHT_TI4"
upper_name bright_ti5 = "BRIGHT_TI5"
upper_name frp = "FRP"
upper_name scan = "SCAN"
upper_name track = "TRACK"

-- A reader of a row: what it returns, with the errors of the row, or the fault.
pub data Reading {ℓ} (A : Type ℓ) : Type ℓ where
  read : A → List String → Reading A
  fault : Reading A

abbrev pub Reader {ℓ} : Type ℓ → Type ℓ
Reader A = List String → Reading A

abbrev pub pure {ℓ} : {A : Type ℓ} → A → Reader A
pure a errors = read a errors

infixl 5 ◌>>=◌ ◌>>◌
abbrev pub ◌>>=◌ {ℓ κ} : {A : Type ℓ} {B : Type κ} → Reader A → (A → Reader B) → Reader B
◌>>=◌ m f errors = elim (m errors) [ fault ↦ fault | read a errors' ↦ f a errors' ]

abbrev pub ◌>>◌ {ℓ κ} : {A : Type ℓ} {B : Type κ} → Reader A → Reader B → Reader B
m >> n = m >>= λ _. n

-- errors.append(code)
abbrev pub report : String → Reader (Unit {0})
report code errors = read tt (errors ++ code ∷ [])

abbrev pub report_if : Bool → String → Reader (Unit {0})
report_if true code = report code
report_if false code = pure tt

abbrev pub code_of : String → Field → String
code_of kind field = String.◌++◌ kind (upper_name field)

-- row.get(field, "").strip()
unfoldable pub cell : Row → Field → Reader Text
cell row field errors = elim (lookup (name field) row) [
  | none ↦ read (strip []) errors
  | some value ↦ elim value [ none ↦ fault | some s ↦ read (strip s) errors ]
]

unfoldable pub required_text : Row → Field → Reader (Option Text)
required_text row field = do
  value ← cell row field
  if is_empty value then (do report (code_of "MISSING_" field); pure none) else pure (some value)

-- A float that is read: none where the text is no float, or is not finite.
unfoldable pub finite_float : Field → Option Float → Reader (Option Float)
finite_float field none = do report (code_of "INVALID_" field); pure none
finite_float field (some x) =
    if is_finite x then pure (some x) else (do report (code_of "INVALID_" field); pure none)

-- The bounds that a measurement may have: `positive=True`, `non_negative=True`.
pub data Domain : Type 0 where
  positive non_negative : Domain

unfoldable pub check_domain : Domain → Field → Option Float → Reader (Option Float)
check_domain domain field none = pure none
check_domain positive field (some x) = do
  report_if (le x (of_int (pos 0))) (code_of "NON_POSITIVE_" field)
  pure (some x)
check_domain non_negative field (some x) = do
  report_if (lt x (of_int (pos 0))) (code_of "NEGATIVE_" field)
  pure (some x)

-- The body of the `try`; `none` is ValueError.
unfoldable pub parse_moment : Text → Text → Option DateTime
parse_moment raw_date raw_time = elim (normalize_acquisition_time raw_time) [
  | none ↦ none
  | some normalized ↦ strptime (raw_date ++ normalized)
]

unfoldable pub parse_event_timestamp : Row → Reader (Option Text)
parse_event_timestamp row = do
  raw_date ← cell row acq_date
  raw_time ← cell row acq_time
  elim (parse_moment raw_date raw_time) [
    | none ↦ (do report "INVALID_EVENT_TIMESTAMP"; pure none)
    | some t ↦ pure (some (iso_format t))
  ]

-- Python's `float` of a text; `none` is ValueError.
module _ (float : Text → Option Float) where
  unfoldable pub parse_required_float : Row → Field → Reader (Option Float)
  parse_required_float row field = do
    value ← cell row field
    if is_empty value
        then (do report (code_of "MISSING_" field); pure none)
        else finite_float field (float value)

  unfoldable pub parse_optional_float : Row → Field → Domain → Reader (Option Float)
  parse_optional_float row field domain = do
    value ← cell row field
    if is_empty value
        then pure none
        else (do x ← finite_float field (float value); check_domain domain field x)
