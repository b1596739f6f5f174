-- ===== src/Events/RowOutcome.antt =====
-- `canonicalize_row` of src/eo_event_platform/events/canonicalization.py.
use nasa_earth_observation_e.Prelude.{
  ℕ, String, Bool, false, ◌&&◌, ◌||◌, not, Option, none, some, List, [], ◌∷◌, ok, raise,
}
use nasa_earth_observation_e.Prelude.Int.{ℤ, pos, negsuc}
use nasa_earth_observation_e.Text.{Text, codes, text_eq, upper}
use nasa_earth_observation_e.Text.Float.{Float, of_int, le}
use nasa_earth_observation_e.Events.Row.{
  Row, latitude, longitude, satellite, instrument, confidence, version, daynight, bright_ti4,
  bright_ti5, frp, scan, track, read, fault, Reader, pure, ◌>>=◌, ◌>>◌, report_if, positive,
  non_negative, parse_required_float, parse_optional_float, parse_event_timestamp, required_text,
}
use nasa_earth_observation_e.Events.Canonical.{
  nasa_original, schema_version, sorted_set, Lineage, Measured, CanonicalEvent, RowOutcome,
  rejected, accepted, attribute_error, build_source_record_id, hash_raw_row,
}

-- A coordinate that was read and is not within its bounds.
abbrev pub is_outside : ℤ → ℤ → Option Float → Bool
is_outside low high none = false
is_outside low high (some x) = not (le (of_int low) x && le x (of_int high))

abbrev pub is_other : (Text → Bool) → Option Text → Bool
is_other test none = false
is_other test (some value) = not (test value)

abbrev pub is_viirs : Text → Bool
is_viirs value = text_eq (upper value) (codes "VIIRS")

abbrev pub is_day_or_night : Text → Bool
is_day_or_night value = text_eq value (codes "D") || text_eq value (codes "N")

module _ (float : Text → Option Float) (sha256 : Text → Text) where
  -- The checks of a row, in their order.
  unfoldable pub measure : Row → Reader Measured
  measure row = do
    latitude' ← parse_required_float float row latitude
    longitude' ← parse_required_float float row longitude
    report_if (is_outside (negsuc 89) (pos 90) latitude') "LATITUDE_OUT_OF_RANGE"
    report_if (is_outside (negsuc 179) (pos 180) longitude') "LONGITUDE_OUT_OF_RANGE"
    timestamp ← parse_event_timestamp row
    satellite' ← required_text row satellite
    instrument' ← required_text row instrument
    confidence' ← required_text row confidence
    version' ← required_text row version
    day_night' ← required_text row daynight
    report_if (is_other is_viirs instrument') "UNEXPECTED_INSTRUMENT"
    report_if (is_other is_day_or_night day_night') "INVALID_DAY_NIGHT"
    bright_ti4' ← parse_optional_float float row bright_ti4 positive
    bright_ti5' ← parse_optional_float float row bright_ti5 positive
    frp' ← parse_optional_float float row frp non_negative
    scan' ← parse_optional_float float row scan positive
    track' ← parse_optional_float float row track positive
    pure (record {
      latitude = latitude';
      longitude = longitude';
      event_timestamp = timestamp;
      satellite = satellite';
      instrument = instrument';
      confidence = confidence';
      source_product_version = version';
      day_night = day_night';
      bright_ti4_kelvin = bright_ti4';
      bright_ti5_kelvin = bright_ti5';
      fire_radiative_power_mw = frp';
      scan_km = scan';
      track_km = track';
    })

  abbrev pub rejection : Row → Lineage → ℕ → List String → RowOutcome
  rejection row lineage raw_row_number codes' = rejected (record {
    lineage = lineage;
    source_type = nasa_original;
    raw_row_number = raw_row_number;
    raw_payload_hash = hash_raw_row sha256 row;
    validation_status = "REJECTED";
    validation_error_codes = codes';
    raw_record = row;
  })

  abbrev pub event_of : Row → Lineage → ℕ → Measured → Text → CanonicalEvent
  event_of row lineage raw_row_number measured source_record_id = record {
    event_id = source_record_id;
    detection_id = source_record_id;
    lineage_root_id = source_record_id;
    source_record_id = source_record_id;
    source_type = nasa_original;
    is_synthetic = false;
    lineage = lineage;
    measured = measured;
    schema_version = schema_version;
    raw_row_number = raw_row_number;
    raw_payload_hash = hash_raw_row sha256 row;
    kafka_topic = none;
    kafka_partition = none;
    kafka_offset = none;
    kafka_timestamp = none;
    validation_status = "ACCEPTED";
    validation_error_codes = [];
    deduplication_status = "UNIQUE";
    enrichment_status = "NOT_STARTED";
  }

  -- The end of `canonicalize_row`, for a row without errors. `none` is an exception that escapes.
  unfoldable pub identify : Row → Lineage → ℕ → Measured → Option RowOutcome
  identify row lineage raw_row_number measured =
      elim (build_source_record_id sha256 row lineage.source_dataset) [
        | ok source_record_id ↦
            some (accepted (event_of row lineage raw_row_number measured source_record_id))
        | raise e ↦ elim e [
          | attribute_error ↦ none
          | _ ↦ some (rejection row lineage raw_row_number ("IDENTITY_CONSTRUCTION_FAILED" ∷ []))
        ]
      ]

  abbrev pub decide : Row → Lineage → ℕ → Measured → List String → Option RowOutcome
  decide row lineage raw_row_number measured [] = identify row lineage raw_row_number measured
  decide row lineage raw_row_number measured (code ∷ more) =
      some (rejection row lineage raw_row_number (sorted_set (code ∷ more)))

  unfoldable pub canonicalize_row : Row → Lineage → ℕ → Option RowOutcome
  canonicalize_row row lineage raw_row_number = elim (measure row []) [
    | fault ↦ none
    | read measured errors ↦ decide row lineage raw_row_number measured errors
  ]
