-- ===== src/Events/Tests.antt =====
-- Rows and runs of the canonicalizer, and its theorems at concrete inputs.
use nasa_earth_observation_e.Prelude.{
  ◌*◌, ◌^◌, ◌≡◌, refl, true, Option, none, some, List, [], ◌∷◌, ◌++◌, arith, ok, length,
}
use nasa_earth_observation_e.Prelude.Assoc.{lookup}
use nasa_earth_observation_e.Prelude.Int.{pos, negsuc}
use nasa_earth_observation_e.Text.{
  Text, codes, text_eq, is_space, left_strip, right_strip, strip, lower, upper, starts_with,
}
use nasa_earth_observation_e.Text.Digits.{zeros, zfill}
use nasa_earth_observation_e.Text.Decimals.{
  is_other_decimal, all_decimals, are_decimals, value_in, other_value, decimals_from,
  int_of_decimals,
}
use nasa_earth_observation_e.Text.Splitting.{after_last}
use nasa_earth_observation_e.Text.Float.{Float, finite, le, lt, is_finite}
use nasa_earth_observation_e.Json.{
  Flat, text, number, escape, escaped, quote, digits_from, show, dump_scalar, insert_key, sort_keys,
  dump_members, dumps,
}
use nasa_earth_observation_e.Events.AcquisitionTime.{
  hours, minutes, checked, normalize_acquisition_time, IsTime, normalize-IsTime,
  normalize_of_IsTime,
}
use nasa_earth_observation_e.Events.Decimal.{
  span, exponent_of, unsigned, parse_decimal, round_decimal, strip_zeros, normalize, first_chars,
  format_digits, format_fixed, normal_text, normalize_decimal,
}
use nasa_earth_observation_e.Events.Decimal.Canonical.{decimal, normal_text-pow}
use nasa_earth_observation_e.Events.Timestamp.{
  DateTime, strptime, strptime_parts, show_two, show_four, iso_format,
}
use nasa_earth_observation_e.Events.Timestamp.RoundTrip.{date_text, time_text, strptime-date_text}
use nasa_earth_observation_e.Events.Row.{
  Row, name, upper_name, cell, required_text, finite_float, check_domain, parse_moment,
  parse_event_timestamp, parse_required_float, parse_optional_float,
}
use nasa_earth_observation_e.Events.Canonical.{
  insert_code, sorted_set, item, stripped, time_item, decimal_item, identity_material,
  build_source_record_id, hash_raw_row, Lineage, CanonicalEvent, accepted,
}
use nasa_earth_observation_e.Events.RowOutcome.{measure, identify, canonicalize_row, event_of}
use nasa_earth_observation_e.Events.Accepted.{IsAccepted, canonicalize_row-IsAccepted}
use nasa_earth_observation_e.Events.Run.{
  place, canonicalize_rows, load_and_validate_source_manifest, process, transform, canonicalize,
  Counts, as_text, as_number,
}
use nasa_earth_observation_e.Events.Run.Reconciled.{IsReconciled, canonicalize-IsReconciled}

parts : Unit {0}
unfolding text_eq is_space left_strip right_strip strip lower upper starts_with decimals_from
    int_of_decimals is_other_decimal other_value value_in all_decimals are_decimals zeros zfill
    after_last le lt is_finite escape escaped quote digits_from show dump_scalar insert_key
    sort_keys dump_members dumps hours minutes checked normalize_acquisition_time span exponent_of
    unsigned parse_decimal round_decimal strip_zeros normalize first_chars format_digits
    format_fixed normal_text normalize_decimal strptime_parts show_two show_four iso_format name
    upper_name cell required_text finite_float check_domain parse_moment parse_event_timestamp
    parse_required_float parse_optional_float insert_code sorted_set item stripped time_item
    decimal_item identity_material build_source_record_id hash_raw_row measure identify
    canonicalize_row place canonicalize_rows load_and_validate_source_manifest process transform
    canonicalize lookup
parts = tt

normalize-IsTime_example :
    IsTime (codes "0130")
    × (int_of_decimals (codes "0130") ≡ int_of_decimals (strip (codes " 130")))
normalize-IsTime_example = normalize-IsTime (codes " 130") (codes "0130") (unfold parts in refl)

half_past_one : IsTime (codes "0130")
half_past_one = normalize-IsTime_example.0

normalize_of_IsTime_example : normalize_acquisition_time (codes "0130") ≡ some (codes "0130")
normalize_of_IsTime_example = normalize_of_IsTime (codes "0130") half_past_one

normal_text-pow_example :
    normal_text (decimal true (5 * 10 ^ 2) (negsuc 2)) ≡ normal_text (decimal true 5 (negsuc 0))
normal_text-pow_example = normal_text-pow true 5 2 (negsuc 2) (omega arith)

abbrev moment : DateTime
moment = record { year = 2026; month = 8; day = 1; hour = 1; minute = 30 }

strptime-date_text_example : strptime (date_text moment ++ time_text moment) ≡ some moment
strptime-date_text_example = strptime-date_text moment (record {
  year_le = omega arith;
  month_pos = omega arith;
  month_le = omega arith;
  date = refl;
  hour_le = omega arith;
  minute_le = omega arith;
})

-- Reads every text as its length.
abbrev float : Text → Option Float
float s = some (finite (pos (length s)) 0)

-- A hash of one code: the length.
abbrev sha256 : Text → Text
sha256 s = length s ∷ []

abbrev row : Row
row =
    ("latitude", some (codes "1.5"))
    ∷ ("longitude", some (codes "2.50"))
    ∷ ("acq_date", some (codes "2026-08-01"))
    ∷ ("acq_time", some (codes "130"))
    ∷ ("satellite", some (codes "N20"))
    ∷ ("instrument", some (codes "VIIRS"))
    ∷ ("confidence", some (codes "n"))
    ∷ ("version", some (codes "2.0"))
    ∷ ("daynight", some (codes "D"))
    ∷ []

abbrev lineage : Lineage
lineage = record {
  source_dataset = codes "VIIRS";
  ingestion_run_id = codes "r";
  ingestion_timestamp = codes "t";
  pipeline_version = codes "v";
  raw_object_uri = codes "a/b";
  raw_file_name = codes "b";
}

abbrev event : CanonicalEvent
event =
    event_of float sha256 row lineage 2
      (record {
        latitude = some (finite (pos 3) 0);
        longitude = some (finite (pos 4) 0);
        event_timestamp = some (codes "2026-08-01T01:30:00Z");
        satellite = some (codes "N20");
        instrument = some (codes "VIIRS");
        confidence = some (codes "n");
        source_product_version = some (codes "2.0");
        day_night = some (codes "D");
        bright_ti4_kelvin = none;
        bright_ti5_kelvin = none;
        fire_radiative_power_mw = none;
        scan_km = none;
        track_km = none;
      })
      (codes "nasa-firms-viirs-v1:sha256:" ++ 178 ∷ [])

event_lem : canonicalize_row float sha256 row lineage 2 ≡ some (accepted event)
unfolding parts
event_lem = refl

canonicalize_row-IsAccepted_example : IsAccepted float sha256 row lineage 2 event
canonicalize_row-IsAccepted_example =
    canonicalize_row-IsAccepted float sha256 row lineage 2 event event_lem

-- A raw file of the row, the row again, and a row without cells.
abbrev read_rows : Text → List Row
read_rows content = row ∷ row ∷ [] ∷ []

abbrev source : Flat
source =
    ("status", text (codes "SUCCEEDED"))
    ∷ ("source_dataset", text (codes "VIIRS"))
    ∷ ("ingestion_run_id", text (codes "r"))
    ∷ ("completed_at", text (codes "t"))
    ∷ ("raw_object_path", text (codes "a/b"))
    ∷ ("sha256", text (3 ∷ []))
    ∷ ("record_count", number 3)
    ∷ []

abbrev counts : Counts
counts = record { input_count = 3; accepted_count = 1; rejected_count = 1; duplicate_count = 1 }

counts_lem :
    (canonicalize float sha256 read_rows some (some source) (some (codes "raw")) (codes "v")).0
    ≡ ok counts
unfolding parts
counts_lem = refl

canonicalize-IsReconciled_example :
    (manifest : Flat) × (content : Text) × (load_and_validate_source_manifest (some source)
      ≡ ok manifest)
    × (some (codes "raw") ≡ some content)
    × (sha256 content ≡ as_text (lookup "sha256" manifest))
    × (counts.input_count ≡ as_number (lookup "record_count" manifest))
    × IsReconciled
        (read_rows content)
        counts
        (canonicalize float sha256 read_rows some (some source) (some (codes "raw")) (codes "v")).1
canonicalize-IsReconciled_example =
    canonicalize-IsReconciled float sha256 read_rows some (some source) (some (codes "raw"))
      (codes "v") counts counts_lem
