-- ===== src/Extraction/Handover.antt =====
-- From the extraction to the canonicalization: the manifest of
-- src/eo_event_platform/ingestion/nasa_firms/extractor.py as
-- src/eo_event_platform/events/canonicalization.py reads it. Its fields that are no text and no number,
-- the request and the columns, are left out: the reader does not look at them.
use mathlib.Core.Path.{subst}
use nasa_earth_observation_e.Prelude.{
  ℕ, ◌≤◌, Bool, false, Option, none, some, List, [], ◌∷◌, length, All, ok, raise, ◌≡◌, refl, sym,
  ap, ◌∙◌, ◌⊎◌, inl, inr, arith, Option-cases, Result-cases,
}
use nasa_earth_observation_e.Prelude.Assoc.{lookup}
use nasa_earth_observation_e.Text.{Text, codes, text_eq}
use nasa_earth_observation_e.Text.Equality.{text_eq_iff}
use nasa_earth_observation_e.Text.Float.{Float}
use nasa_earth_observation_e.Json.{Flat, Scalar, null, text, number}
use nasa_earth_observation_e.Events.Row.{Row}
use nasa_earth_observation_e.Events.Run.{
  empty_batches, CanonicalizationError, no_timezone, row_exception, as_text, as_number, process,
  transform, load_and_validate_source_manifest, lineage_of, canonicalize_rows,
}
use nasa_earth_observation_e.Events.Run.Reconciled.{rows-placed, process-rows}
use nasa_earth_observation_e.Extraction.Request.{ExtractionRequest}
use nasa_earth_observation_e.Extraction.Fetch.{Answer, Trace, untouched}
use nasa_earth_observation_e.Extraction.Csv.{CsvFile, row}
use nasa_earth_observation_e.Extraction.Run.{
  Surroundings, Status, failed, succeeded, RunManifest, Write, raw_file, manifest_file,
  ExtractionResult, Extracted, ExtractError, Obtained, initial_manifest, completed, raw_path,
  extract,
}
use nasa_earth_observation_e.Extraction.Run.Recorded.{
  IsComplete, IsRecorded, as_failed, unrecorded, contradicted, raw_only, as_succeeded,
  extract-IsRecorded,
}

abbrev pub status_text : Status → Text
status_text failed = codes "FAILED"
status_text succeeded = codes "SUCCEEDED"

abbrev pub or_null : Option Text → Scalar
or_null none = null
or_null (some s) = text s

abbrev pub number_or_null : Option ℕ → Scalar
number_or_null none = null
number_or_null (some n) = number n

-- The manifest's texts and numbers.
abbrev pub manifest_fields : RunManifest → Flat
manifest_fields m =
    ("ingestion_run_id", text m.ingestion_run_id)
    ∷ ("status", text (status_text m.status))
    ∷ ("source_type", text (codes "NASA_ORIGINAL"))
    ∷ ("source_dataset", text m.source_dataset)
    ∷ ("requested_at", text m.requested_at)
    ∷ ("pipeline_version", text m.pipeline_version)
    ∷ ("attempt_count", number m.attempt_count)
    ∷ ("http_status", number_or_null m.http_status)
    ∷ ("raw_object_path", or_null m.raw_object_path)
    ∷ ("raw_file_name", or_null m.raw_file_name)
    ∷ ("byte_count", number_or_null m.byte_count)
    ∷ ("sha256", or_null m.sha256)
    ∷ ("record_count", number_or_null m.record_count)
    ∷ ("failure_category", or_null m.failure_category)
    ∷ ("completed_at", or_null m.completed_at)
    ∷ []

module _ (float : Text → Option Float) (sha256 : Text → Text) (read_rows : Text → List Row)
    (normalize_utc_timestamp : Text → Option Text) where
  process-errors :
      (content pipeline_version : Text) (manifest : Flat) (e : CanonicalizationError)
      → process float sha256 read_rows normalize_utc_timestamp content pipeline_version manifest
        ≡ raise e
      → (e ≡ no_timezone) ⊎ (e ≡ row_exception)
  unfolding process
  process-errors content pipeline_version manifest e h =
      elim (Option-cases (normalize_utc_timestamp (as_text (lookup "completed_at" manifest)))) [
        | inl naive ↦ inl (ground (arith, naive))
        | inr (timestamp, zoned) ↦
            elim (Option-cases (
              canonicalize_rows float sha256 (lineage_of manifest timestamp pipeline_version) 2
                (read_rows content) empty_batches)) [
                  | inl escaped ↦ inr (ground (arith, zoned, escaped))
                  | inr (b, done) ↦ absurd (ground (arith, zoned, done))
                ]
      ]

  -- What a run of the canonicalization raises for a manifest that fits its raw file.
  transform-errors :
      (manifest : Flat) (content pipeline_version : Text) (e : CanonicalizationError)
      → load_and_validate_source_manifest (some manifest) ≡ ok manifest
      → sha256 content ≡ as_text (lookup "sha256" manifest)
      → length (read_rows content) ≡ as_number (lookup "record_count" manifest)
      → transform float sha256 read_rows normalize_utc_timestamp
          (some manifest)
          (some content)
          pipeline_version
        ≡ raise e
      → (e ≡ no_timezone) ⊎ (e ≡ row_exception)
  unfolding transform
  transform-errors manifest content pipeline_version e loaded hash count h =
      let made =
        process float sha256 read_rows normalize_utc_timestamp content pipeline_version manifest in
      elim (Result-cases made) [
        | inl (e', broken) ↦ process-errors content pipeline_version manifest e (
            ground (
              arith,
              loaded,
              text_eq_iff (sha256 content) (as_text (lookup "sha256" manifest)),
              hash,
              broken,
              h,
            ))
        | inr (b, done) ↦
            let (lineage, rows) =
              process-rows float sha256 read_rows normalize_utc_timestamp content pipeline_version
                manifest b done in
            let total =
              rows-placed float sha256 lineage 2 (read_rows content) empty_batches b rows in
            absurd (
              ground (
                arith,
                loaded,
                text_eq_iff (sha256 content) (as_text (lookup "sha256" manifest)),
                hash,
                count,
                done,
                total,
                h,
              ))
      ]

-- A run that returns has its raw file and its manifest.
as_succeeded_lem :
    (opener : ℕ → Answer) (max_attempts : ℕ) (decode : Text → Option Text)
    (dict_reader : Text → CsvFile) (sha256 : Text → Text) (run : Surroundings)
    (request : ExtractionRequest) (pipeline_version : Text) (end : Extracted × Trace)
    (result : ExtractionResult)
    → IsRecorded opener max_attempts decode dict_reader sha256 run request pipeline_version end
    → end.0.0 ≡ ok result
    → (o : Obtained) × IsComplete opener max_attempts decode dict_reader o
      × (end.0.1
          ≡ raw_file (raw_path run request) o.fetched.body
            ∷ manifest_file (completed sha256 run o (initial_manifest run request pipeline_version))
            ∷ [])
as_succeeded_lem _ _ _ _ _ _ _ _ _ result (as_failed category trace failure written) h = cc
as_succeeded_lem _ _ _ _ _ _ _ _ _ result (unrecorded error category trace failure undone) h = cc
as_succeeded_lem _ _ _ _ _ _ _ _ _ result (contradicted category o trace whole asked broken) h = cc
as_succeeded_lem _ _ _ _ _ _ _ _ _ result (raw_only category error o trace whole asked broken) h =
    cc
as_succeeded_lem _ _ _ _ _ _ _ _ _ result (as_succeeded o trace whole asked written) h =
    (o, whole, refl)

-- A run that returns is not one that was refused.
recorded_of :
    {Refused : ExtractError → Type 0} {Recorded : Type 0} (end : Extracted × Trace)
    (result : ExtractionResult)
    → end.0.0 ≡ ok result
    → ((e : ExtractError) × Refused e × (end ≡ ((raise e, []), untouched))) ⊎ Recorded
    → Recorded
recorded_of end result h (inl (e, why, same)) =
    cc (sym h ∙ ap (λ (x : Extracted × Trace). x.0.0) same)
recorded_of end result h (inr recorded) = recorded

completed-loads :
    (sha256 : Text → Text) (run : Surroundings) (request : ExtractionRequest)
    (pipeline_version : Text) (o : Obtained)
    → load_and_validate_source_manifest (
        some (
          manifest_fields (completed sha256 run o (initial_manifest run request pipeline_version))))
      ≡ ok
          (manifest_fields (completed sha256 run o (initial_manifest run request pipeline_version)))
unfolding load_and_validate_source_manifest text_eq lookup
completed-loads sha256 run request pipeline_version o = refl

content_of : List Write → Text
content_of (raw_file path content ∷ written) = content
content_of _ = []

manifest_of : RunManifest → List Write → RunManifest
manifest_of default (write ∷ manifest_file manifest ∷ written) = manifest
manifest_of default _ = default

module _ (float : Text → Option Float) (sha256 : Text → Text) (read_rows : Text → List Row)
    (normalize_utc_timestamp : Text → Option Text) (decode : Text → Option Text)
    (dict_reader : Text → CsvFile) (is_iso_date : Text → Bool) where
  completed-transform :
      (opener : ℕ → Answer) (max_attempts : ℕ) (run : Surroundings) (request : ExtractionRequest)
      (pipeline_version : Text) (o : Obtained) (later_version : Text) (e : CanonicalizationError)
      → IsComplete opener max_attempts decode dict_reader o
      → ((body text : Text)
          → decode body ≡ some text
          → All (λ r. r ≡ row false) (dict_reader text).rows
          → length (read_rows body) ≡ length (dict_reader text).rows)
      → transform float sha256 read_rows normalize_utc_timestamp
          (some (
            manifest_fields
              (completed sha256 run o (initial_manifest run request pipeline_version))))
          (some o.fetched.body)
          later_version
        ≡ raise e
      → (e ≡ no_timezone) ⊎ (e ≡ row_exception)
  unfolding lookup
  completed-transform opener max_attempts run request pipeline_version o later_version e whole
        same_rows h =
      let readable = whole.readable in
      transform-errors float sha256 read_rows normalize_utc_timestamp
        (manifest_fields (completed sha256 run o (initial_manifest run request pipeline_version)))
        o.fetched.body later_version e (completed-loads sha256 run request pipeline_version o) refl
        (same_rows o.fetched.body readable.content readable.decoded readable.plain
          ∙ sym readable.counted)
        h

  -- Where both readings of a body are by `csv.DictReader`, which gives as many rows each time: a
  -- canonicalization that is given the manifest and the raw file of an extraction that returned
  -- raises at most for the timestamp's timezone or at a row, and never for the manifest, the file, its
  -- checksum or its number of rows.
  pub extract-transform :
      (opener : ℕ → Answer) (max_attempts : ℕ) (run : Surroundings) (request : ExtractionRequest)
      (map_key pipeline_version : Text) (result : ExtractionResult) (path content : Text)
      (manifest : RunManifest) (later_version : Text) (e : CanonicalizationError)
      → 1 ≤ max_attempts
      → ((body text : Text)
          → decode body ≡ some text
          → All (λ r. r ≡ row false) (dict_reader text).rows
          → length (read_rows body) ≡ length (dict_reader text).rows)
      → (extract sha256 decode dict_reader float is_iso_date opener max_attempts run request map_key
          pipeline_version).0
        ≡ (ok result, raw_file path content ∷ manifest_file manifest ∷ [])
      → transform float sha256 read_rows normalize_utc_timestamp
          (some (manifest_fields manifest))
          (some content)
          later_version
        ≡ raise e
      → (e ≡ no_timezone) ⊎ (e ≡ row_exception)
  unfolding content_of manifest_of
  extract-transform opener max_attempts run request map_key pipeline_version result path content
        manifest later_version e positive same_rows extracted h =
      let end =
        extract sha256 decode dict_reader float is_iso_date opener max_attempts run request map_key
          pipeline_version in
      let returned = ap (λ (x : Extracted). x.0) extracted in
      let (call, recorded) = recorded_of end result returned (
        extract-IsRecorded decode dict_reader float is_iso_date sha256 opener max_attempts run
          request map_key pipeline_version positive) in
      let (o, whole, files) =
        as_succeeded_lem opener max_attempts decode dict_reader sha256 run request pipeline_version
          end result recorded returned in
      let left = sym (ap (λ (x : Extracted). x.1) extracted) ∙ files in
      let body : content ≡ o.fetched.body = ap content_of left in
      let written : manifest
          ≡ completed sha256 run o (initial_manifest run request pipeline_version) =
        ap (manifest_of manifest) left in
      completed-transform opener max_attempts run request pipeline_version o later_version e whole
        same_rows
        (subst
          (λ m.
            transform float sha256 read_rows normalize_utc_timestamp (some (manifest_fields m))
              (some o.fetched.body) later_version
            ≡ raise e)
          written
          (subst
            (λ c.
              transform float sha256 read_rows normalize_utc_timestamp
                (some (manifest_fields manifest)) (some c) later_version
              ≡ raise e)
            body h))
