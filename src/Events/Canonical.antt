-- ===== src/Events/Canonical.antt =====
-- The data of a canonicalized row (src/eo_event_platform/events/canonicalization.py), and the identity
-- of a row (src/eo_event_platform/events/identity.py).
use nasa_earth_observation_e.Prelude.{
  ℕ, String, Bool, Option, none, some, List, [], ◌∷◌, ◌++◌, if◌then◌else◌, map, str_eq, Result, ok,
  raise, ◌>>=◌,
}
use nasa_earth_observation_e.Prelude.Assoc.{lookup}
use nasa_earth_observation_e.Text.{Text, codes, strip}
use nasa_earth_observation_e.Text.Float.{Float}
use nasa_earth_observation_e.Json.{Flat, Scalar, null, text, dumps, str_lt}
use nasa_earth_observation_e.Events.AcquisitionTime.{normalize_acquisition_time}
use nasa_earth_observation_e.Events.Decimal.{normalize_decimal}
use nasa_earth_observation_e.Events.Row.{
  Row, Field, latitude, longitude, acq_date, acq_time, satellite, version, name,
}

abbrev pub identity_version : String
identity_version = "nasa-firms-viirs-v1"

abbrev pub schema_version : String
schema_version = "1.0.0"

abbrev pub nasa_original : String
nasa_original = "NASA_ORIGINAL"

-- sorted(set(errors))
unfoldable pub insert_code : String → List String → List String
insert_code code [] = code ∷ []
insert_code code (other ∷ rest) =
    if str_eq code other
    then other ∷ rest
    else if str_lt code other
    then code ∷ other ∷ rest
    else other ∷ insert_code code rest

unfoldable pub sorted_set : List String → List String
unfolding insert_code
sorted_set [] = []
sorted_set (code ∷ rest) = insert_code code (sorted_set rest)

-- The arguments that are the same for all rows of a run.
pub record Lineage : Type 0 where
  pub source_dataset : Text
  pub ingestion_run_id : Text
  pub ingestion_timestamp : Text
  pub pipeline_version : Text
  pub raw_object_uri : Text
  pub raw_file_name : Text

pub record RejectedRow : Type 0 where
  pub lineage : Lineage
  pub source_type : String
  pub raw_row_number : ℕ
  pub raw_payload_hash : Text
  pub validation_status : String
  pub validation_error_codes : List String
  pub raw_record : Row

-- The measurements and labels that are read from the row.
pub record Measured : Type 0 where
  pub latitude : Option Float
  pub longitude : Option Float
  pub event_timestamp : Option Text
  pub satellite : Option Text
  pub instrument : Option Text
  pub confidence : Option Text
  pub source_product_version : Option Text
  pub day_night : Option Text
  pub bright_ti4_kelvin : Option Float
  pub bright_ti5_kelvin : Option Float
  pub fire_radiative_power_mw : Option Float
  pub scan_km : Option Float
  pub track_km : Option Float

pub record CanonicalEvent : Type 0 where
  pub event_id : Text
  pub detection_id : Text
  pub lineage_root_id : Text
  pub source_record_id : Text
  pub source_type : String
  pub is_synthetic : Bool
  pub lineage : Lineage
  pub measured : Measured
  pub schema_version : String
  pub raw_row_number : ℕ
  pub raw_payload_hash : Text
  pub kafka_topic : Option Text
  pub kafka_partition : Option ℕ
  pub kafka_offset : Option ℕ
  pub kafka_timestamp : Option Text
  pub validation_status : String
  pub validation_error_codes : List String
  pub deduplication_status : String
  pub enrichment_status : String

-- `RowOutcome`: its status is the constructor.
pub data RowOutcome : Type 0 where
  rejected : RejectedRow → RowOutcome
  accepted : CanonicalEvent → RowOutcome

-- The errors of `build_source_record_id`.
pub data IdentityError : Type 0 where
  key_error value_error attribute_error : IdentityError

-- row[field]
unfoldable pub item : Row → Field → Result IdentityError (Option Text)
item row field = elim (lookup (name field) row) [ none ↦ raise key_error | some cell ↦ ok cell ]

-- row[field].strip()
unfoldable pub stripped : Row → Field → Result IdentityError Text
stripped row field = do
  cell ← item row field
  elim cell [ none ↦ raise attribute_error | some s ↦ ok (strip s) ]

unfoldable pub time_item : Row → Result IdentityError Text
time_item row = do
  cell ← item row acq_time
  elim cell [
    | none ↦ raise attribute_error
    | some s ↦ elim (normalize_acquisition_time s) [ none ↦ raise value_error | some t ↦ ok t ]
  ]

-- `normalize_decimal` turns an AttributeError into a ValueError.
unfoldable pub decimal_item : Row → Field → Result IdentityError Text
decimal_item row field = do
  cell ← item row field
  elim cell [
    | none ↦ raise value_error
    | some s ↦ elim (normalize_decimal s) [ none ↦ raise value_error | some t ↦ ok t ]
  ]

-- The dictionary whose JSON text is hashed.
unfoldable pub identity_material : Row → Text → Result IdentityError Flat
identity_material row source_dataset = do
  satellite' ← stripped row satellite
  date' ← stripped row acq_date
  time' ← time_item row
  latitude' ← decimal_item row latitude
  longitude' ← decimal_item row longitude
  version' ← stripped row version
  ok (
      ("identity_version", text (codes identity_version))
      ∷ ("source_dataset", text (strip source_dataset))
      ∷ ("satellite", text satellite')
      ∷ ("acq_date", text date')
      ∷ ("acq_time", text time')
      ∷ ("latitude", text latitude')
      ∷ ("longitude", text longitude')
      ∷ ("version", text version')
      ∷ [])

abbrev pub cell_scalar : String × Option Text → String × Scalar
cell_scalar (key, none) = (key, null)
cell_scalar (key, some s) = (key, text s)

-- The hexadecimal SHA-256 digest of an ASCII text.
module _ (sha256 : Text → Text) where
  unfoldable pub build_source_record_id : Row → Text → Result IdentityError Text
  build_source_record_id row source_dataset = do
    identity ← identity_material row source_dataset
    ok (codes identity_version ++ codes ":sha256:" ++ sha256 (dumps identity))

  unfoldable pub hash_raw_row : Row → Text
  hash_raw_row row = sha256 (dumps (map cell_scalar row))
