-- ===== src/Events/Accepted.antt =====
-- What an accepted row of src/eo_event_platform/events/canonicalization.py is worth.
use nasa_earth_observation_e.Prelude.{
  ℕ, String, Bool, true, false, Option, none, some, List, [], ◌∷◌, ◌≡◌, refl, inl, inr, arith, ok,
  Result-cases,
}
use mathlib.Core.Path.{subst}
use mathlib.Core.Option.{some-injective}
use nasa_earth_observation_e.Prelude.Int.{ℤ, pos, negsuc}
use nasa_earth_observation_e.Text.{Text}
use nasa_earth_observation_e.Text.Float.{Float, of_int, le, is_finite}
use nasa_earth_observation_e.Events.Row.{
  Row, Field, latitude, longitude, satellite, instrument, confidence, version, daynight, bright_ti4,
  bright_ti5, frp, scan, track, read, positive, non_negative,
}
use nasa_earth_observation_e.Events.Canonical.{
  nasa_original, Lineage, Measured, CanonicalEvent, accepted, key_error, value_error,
  attribute_error, build_source_record_id, hash_raw_row,
}
use nasa_earth_observation_e.Events.RowOutcome.{
  is_outside, is_other, is_viirs, is_day_or_night, measure, identify, decide, canonicalize_row,
  event_of,
}
use nasa_earth_observation_e.Events.Clean.{
  Reading-cases, Clean, IsCell, IsFloat, Clean-pure, Clean-bind, Clean-report_if, IsPresent,
  IsMeasurement, IsTimestamp, required_text-Clean, parse_event_timestamp-Clean,
  parse_required_float-Clean, parse_optional_float-Clean,
}

-- A text of a cell that passes a test.
abbrev pub IsLabel : Row → Field → (Text → Bool) → Option Text → Type 0
IsLabel row field test v = (s : Text) × IsCell row field s × (v ≡ some s) × (test s ≡ true)

label :
    (row : Row) (field : Field) (test : Text → Bool) (v : Option Text)
    → IsPresent row field v
    → is_other test v ≡ false
    → IsLabel row field test v
label row field test none p h = absurd (ground (arith, p))
label row field test (some s) (t, found, same, full) h =
    (s, subst (IsCell row field) (cc) found, refl, ground arith)

within :
    (low high : ℤ) (v : Option Float) (x : Float)
    → v ≡ some x
    → is_outside low high v ≡ false
    → (le (of_int low) x ≡ true) × (le x (of_int high) ≡ true)
within low high none x same h = cc
within low high (some y) x same h =
    subst (λ z. (le (of_int low) z ≡ true) × (le z (of_int high) ≡ true)) (some-injective y x same)
      (ground arith, ground arith)

module _ (float : Text → Option Float) (sha256 : Text → Text) where
  -- The finite coordinate that a cell says, within its bounds.
  abbrev pub IsCoordinate : Row → Field → ℤ → ℤ → Option Float → Type 0
  IsCoordinate row field low high v =
      (s : Text) × IsCell row field s
      × (x : Float) × (float s ≡ some x)
      × (v ≡ some x)
      × (is_finite x ≡ true)
      × (le (of_int low) x ≡ true)
      × (le x (of_int high) ≡ true)

  -- What a row without errors has.
  pub record IsValidMeasured (row : Row) (m : Measured) : Type 0 where
    pub latitude : IsCoordinate row latitude (negsuc 89) (pos 90) m.latitude
    pub longitude : IsCoordinate row longitude (negsuc 179) (pos 180) m.longitude
    pub event_timestamp : IsTimestamp row m.event_timestamp
    pub satellite : IsPresent row satellite m.satellite
    pub instrument : IsLabel row instrument is_viirs m.instrument
    pub confidence : IsPresent row confidence m.confidence
    pub source_product_version : IsPresent row version m.source_product_version
    pub day_night : IsLabel row daynight is_day_or_night m.day_night
    pub bright_ti4 : IsMeasurement float row bright_ti4 positive m.bright_ti4_kelvin
    pub bright_ti5 : IsMeasurement float row bright_ti5 positive m.bright_ti5_kelvin
    pub fire_radiative_power : IsMeasurement float row frp non_negative m.fire_radiative_power_mw
    pub scan : IsMeasurement float row scan positive m.scan_km
    pub track : IsMeasurement float row track positive m.track_km

  coordinate :
      (row : Row) (field : Field) (low high : ℤ) (v : Option Float)
      → IsFloat float row field v
      → is_outside low high v ≡ false
      → IsCoordinate row field low high v
  coordinate row field low high v (s, found, (x, source, same, number)) h =
      let (above, below) = within low high v x same h in
      (s, found, x, source, same, number, above, below)

  measure-Clean : (row : Row) → Clean (IsValidMeasured row) (measure float sha256 row)
  unfolding measure
  measure-Clean row =
      Clean-bind (IsFloat float row latitude) (IsValidMeasured row) _ _
        (parse_required_float-Clean float row latitude)
        λ lat.
          Clean-bind (IsFloat float row longitude) _ _ _
            (parse_required_float-Clean float row longitude)
            λ lon.
              Clean-bind (λ _. is_outside (negsuc 89) (pos 90) lat ≡ false) _ _ _
                (Clean-report_if (is_outside (negsuc 89) (pos 90) lat) "LATITUDE_OUT_OF_RANGE")
                λ _.
                  Clean-bind (λ _. is_outside (negsuc 179) (pos 180) lon ≡ false) _ _ _
                    (Clean-report_if (is_outside (negsuc 179) (pos 180) lon)
                      "LONGITUDE_OUT_OF_RANGE")
                    λ _.
                      Clean-bind (IsTimestamp row) _ _ _ (parse_event_timestamp-Clean row) λ time.
                        Clean-bind (IsPresent row satellite) _ _ _
                          (required_text-Clean row satellite)
                          λ sat.
                            Clean-bind (IsPresent row instrument) _ _ _
                              (required_text-Clean row instrument)
                              λ ins.
                                Clean-bind (IsPresent row confidence) _ _ _
                                  (required_text-Clean row confidence)
                                  λ con.
                                    Clean-bind (IsPresent row version) _ _ _
                                      (required_text-Clean row version)
                                      λ ver.
                                        Clean-bind (IsPresent row daynight) _ _ _
                                          (required_text-Clean row daynight)
                                          λ day.
                                            Clean-bind (λ _. is_other is_viirs ins ≡ false) _ _ _
                                              (Clean-report_if (is_other is_viirs ins)
                                                "UNEXPECTED_INSTRUMENT")
                                              λ _.
                                                Clean-bind
                                                  (λ _. is_other is_day_or_night day ≡ false) _ _ _
                                                  (Clean-report_if (is_other is_day_or_night day)
                                                    "INVALID_DAY_NIGHT")
                                                  λ _.
                                                    Clean-bind
                                                      (IsMeasurement float row bright_ti4 positive)
                                                      _ _ _
                                                      (parse_optional_float-Clean float row
                                                        bright_ti4 positive)
                                                      λ ti4.
                                                        Clean-bind
                                                          (IsMeasurement float row bright_ti5
                                                            positive)
                                                          _ _ _
                                                          (parse_optional_float-Clean float row
                                                            bright_ti5 positive)
                                                          λ ti5.
                                                            Clean-bind
                                                            (IsMeasurement float row frp
                                                            non_negative)
                                                            _ _ _
                                                            (parse_optional_float-Clean float row
                                                            frp non_negative)
                                                            λ power.
                                                            Clean-bind
                                                            (IsMeasurement float row scan positive)
                                                            _ _ _
                                                            (parse_optional_float-Clean float row
                                                            scan positive)
                                                            λ sc.
                                                            Clean-bind
                                                            (IsMeasurement float row track positive)
                                                            _ _ _
                                                            (parse_optional_float-Clean float row
                                                            track positive)
                                                            λ tr.
                                                            Clean-pure _ _
                                                            (λ h_tr h_sc h_power h_ti5 h_ti4 day_ok
                                                            ins_ok h_day h_ver h_con h_ins h_sat
                                                            h_time lon_ok lat_ok h_lon h_lat.
                                                            record {
                                                            latitude =
                                                            coordinate row latitude (negsuc 89)
                                                            (pos 90) lat h_lat lat_ok;
                                                            longitude =
                                                            coordinate row longitude (negsuc 179)
                                                            (pos 180) lon h_lon lon_ok;
                                                            event_timestamp = h_time;
                                                            satellite = h_sat;
                                                            instrument =
                                                            label row instrument is_viirs ins h_ins
                                                            ins_ok;
                                                            confidence = h_con;
                                                            source_product_version = h_ver;
                                                            day_night =
                                                            label row daynight is_day_or_night day
                                                            h_day day_ok;
                                                            bright_ti4 = h_ti4;
                                                            bright_ti5 = h_ti5;
                                                            fire_radiative_power = h_power;
                                                            scan = h_sc;
                                                            track = h_tr;
                                                            })

  -- An accepted event of a row.
  pub record IsAccepted (row : Row) (lineage : Lineage) (raw_row_number : ℕ) (e : CanonicalEvent)
      : Type 0 where
    pub valid : IsValidMeasured row e.measured
    pub identity : build_source_record_id sha256 row lineage.source_dataset ≡ ok e.event_id
    pub detection :
        (e.detection_id ≡ e.event_id)
        × (e.lineage_root_id ≡ e.event_id)
        × (e.source_record_id ≡ e.event_id)
    pub original : (e.source_type ≡ nasa_original) × (e.is_synthetic ≡ false)
    pub row_number : e.raw_row_number ≡ raw_row_number
    pub payload : e.raw_payload_hash ≡ hash_raw_row sha256 row

  identify-accepted :
      (row : Row) (lineage : Lineage) (n : ℕ) (m : Measured) (e : CanonicalEvent)
      → IsValidMeasured row m
      → identify float sha256 row lineage n m ≡ some (accepted e)
      → IsAccepted row lineage n e
  unfolding identify
  identify-accepted row lineage n m e v h =
      elim (Result-cases (build_source_record_id sha256 row lineage.source_dataset)) [
        | inl (attribute_error, no_id) ↦ absurd (ground (arith, no_id))
        | inl (key_error, no_id) ↦ absurd (ground (arith, no_id))
        | inl (value_error, no_id) ↦ absurd (ground (arith, no_id))
        | inr (id, found) ↦
            let same : event_of float sha256 row lineage n m id ≡ e = ground (arith, found) in
            subst (IsAccepted row lineage n) same (record {
              valid = v;
              identity = found;
              detection = (refl, refl, refl);
              original = (refl, refl);
              row_number = refl;
              payload = refl;
            })
      ]

  decide-accepted :
      (row : Row) (lineage : Lineage) (n : ℕ) (m : Measured) (errors : List String)
      (e : CanonicalEvent)
      → measure float sha256 row [] ≡ read m errors
      → decide float sha256 row lineage n m errors ≡ some (accepted e)
      → IsAccepted row lineage n e
  decide-accepted row lineage n m [] e h k =
      identify-accepted row lineage n m e ((measure-Clean row).result [] m h) k
  decide-accepted row lineage n m (code ∷ more) e h k = absurd (ground arith)

  -- A row that is accepted has, each as its cell says it: finite coordinates within their bounds, the
  -- required texts, the VIIRS instrument, day or night, and measurements that are missing with their
  -- cell or finite and within their bounds; its time is the ISO text of the existing date and time
  -- that its date and its normalised time are parsed as. Its event, detection and lineage identities
  -- are the identity of the row, and it is marked as original and not synthetic.
  pub canonicalize_row-IsAccepted :
      (row : Row) (lineage : Lineage) (n : ℕ) (e : CanonicalEvent)
      → canonicalize_row float sha256 row lineage n ≡ some (accepted e)
      → IsAccepted row lineage n e
  canonicalize_row-IsAccepted row lineage n e h =
      elim (Reading-cases (measure float sha256 row [])) [
        | inl faulty ↦ absurd (unfold canonicalize_row in ground (arith, faulty))
        | inr (m, errors, done) ↦
            decide-accepted row lineage n m errors e done
              (unfold canonicalize_row in (rw (done, canonicalize_row) at h))
      ]
