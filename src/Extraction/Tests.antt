-- ===== src/Extraction/Tests.antt =====
-- Tests of the extraction.
use mathlib.Core.Path.{subst}
use mathlib.Core.Option.{some-injective}
use nasa_earth_observation_e.Prelude.{
  ℕ, suc, ◌-◌, ◌==◌, if◌then◌else◌, Bool, true, false, Option, none, some, List, [], ◌∷◌, length,
  All, map, ok, raise, ◌≡◌, refl, ◌↔◌, ◌⊎◌, ap, arith,
}
use nasa_earth_observation_e.Prelude.Int.{pos}
use nasa_earth_observation_e.Prelude.Assoc.{lookup}
use nasa_earth_observation_e.Text.{Text, codes, text_eq, strip, left_strip, right_strip, is_space}
use nasa_earth_observation_e.Text.Float.{Float, of_int, le, lt}
use nasa_earth_observation_e.Text.Splitting.{split}
use nasa_earth_observation_e.Events.Row.{Row}
use nasa_earth_observation_e.Events.Run.{
  no_timezone, row_exception, transform, load_and_validate_source_manifest, process,
}
use nasa_earth_observation_e.Extraction.Request.{
  ExtractionRequest, validate_request, check_area, check_pieces, check_bounds,
}
use nasa_earth_observation_e.Extraction.Area.{
  matches_area, are_numbers, matches_number, matches_unsigned, matches_digits, matches_fraction,
}
use nasa_earth_observation_e.Extraction.Contract.{IsValidRequest, validate_request-IsValidRequest}
use nasa_earth_observation_e.Extraction.Fetch.{
  Trace, untouched, Answer, response, http_error, request_csv, request_from, is_retryable,
  read_response,
}
use nasa_earth_observation_e.Extraction.Attempts.{Attempted, request_csv-Attempted}
use nasa_earth_observation_e.Extraction.Csv.{
  CsvFile, required_columns, row, validate_firms_csv, count_rows,
}
use nasa_earth_observation_e.Extraction.Run.{
  Extracted, ExtractError, Surroundings, succeeded, RunManifest, ExtractionResult, extract,
  check_call, obtain, write_outputs, write_manifest, raw_file, manifest_file, raw_path,
  initial_manifest,
}
use nasa_earth_observation_e.Extraction.Run.Recorded.{
  IsRecorded, IsRefused, IsCall, extract-IsRecorded,
}
use nasa_earth_observation_e.Extraction.Handover.{extract-transform, manifest_fields}

abbrev digit : Text → Option Float
digit [] = none
digit (c ∷ s) = some (of_int (pos (c - 48)))

abbrev is_date : Text → Bool
is_date date = true

abbrev box : ExtractionRequest
box = record {
  source_dataset = codes "VIIRS_SNPP_SP";
  area = codes "1,2,3,4";
  day_range = 5;
  start_date = some (codes "2026-08-01");
}

validate_request-IsValidRequest_example :
    (validate_request digit is_date box ≡ ok tt) ↔ IsValidRequest digit is_date box
validate_request-IsValidRequest_example = validate_request-IsValidRequest digit is_date box

abbrev second_answers : ℕ → Answer
second_answers n = if n == 1 then http_error 503 else response 200 (codes "ab")

request_csv-Attempted_example : Attempted second_answers 3 (request_csv second_answers 3)
request_csv-Attempted_example = request_csv-Attempted second_answers 3 (omega arith)

abbrev as_it_is : Text → Option Text
as_it_is body = some body

-- A row for each character.
abbrev reader : Text → CsvFile
reader text = record { header = some required_columns; rows = map (λ c. row false) text }

abbrev rows : Text → List Row
rows body = map (λ c. []) body

abbrev hash : Text → Text
hash body = b'#' ∷ body

abbrev run : Surroundings
run = record {
  ingestion_run_id = codes "r1";
  requested_at = codes "t0";
  ingestion_date = codes "2026-08-02";
  succeeded_at = codes "t1";
  failed_at = codes "t2";
  bronze_root = codes "bronze";
  raw_write = none;
  manifest_write = none;
  failure_write = none;
}

abbrev ended : Extracted × Trace
ended =
    extract hash as_it_is reader digit is_date second_answers 3 run box (codes "key") (codes "v1")

extract-IsRecorded_example :
    ((e : ExtractError) × IsRefused digit is_date box (codes "key") e
      × (ended ≡ ((raise e, []), untouched)))
    ⊎ (IsCall digit is_date box (codes "key")
        × IsRecorded second_answers 3 as_it_is reader hash run box (codes "v1") ended)
extract-IsRecorded_example =
    extract-IsRecorded as_it_is reader digit is_date hash second_answers 3 run box (codes "key")
      (codes "v1") (omega arith)

abbrev result : ExtractionResult
result = record {
  ingestion_run_id = codes "r1";
  record_count = 2;
  byte_count = 2;
  sha256 = codes "#ab";
  raw_object_path = raw_path run box;
}

abbrev manifest : RunManifest
manifest = record (initial_manifest run box (codes "v1")) {
  status = succeeded;
  attempt_count = 2;
  http_status = some 200;
  raw_object_path = some (raw_path run box);
  raw_file_name = some (codes "firms_response.csv");
  byte_count = some 2;
  sha256 = some (codes "#ab");
  record_count = some 2;
  source_columns = some required_columns;
  completed_at = some (codes "t1");
}

extracted :
    (extract hash as_it_is reader digit is_date second_answers 3 run box
      (codes "key")
      (codes "v1")).0
    ≡ (ok result, raw_file (raw_path run box) (codes "ab") ∷ manifest_file manifest ∷ [])
unfolding extract check_call validate_request text_eq check_area matches_area are_numbers
    matches_number matches_unsigned matches_digits matches_fraction split check_pieces check_bounds
    le lt strip left_strip right_strip is_space request_csv request_from is_retryable read_response
    obtain validate_firms_csv count_rows write_outputs write_manifest
extracted = refl

same_length : (text : Text) → length (rows text) ≡ length (reader text).rows
same_length [] = refl
same_length (c ∷ s) = ap suc (same_length s)

same_rows :
    (body text : Text)
    → as_it_is body ≡ some text
    → All (λ r. r ≡ row false) (reader text).rows
    → length (rows body) ≡ length (reader text).rows
same_rows body text same plain =
    subst (λ t. length (rows body) ≡ length (reader t).rows) (some-injective _ _ same)
      (same_length body)

naive : Text → Option Text
naive stamp = none

refused_later :
    transform digit hash rows naive
      (some (manifest_fields manifest))
      (some (codes "ab"))
      (codes "v2")
    ≡ raise no_timezone
unfolding transform naive load_and_validate_source_manifest lookup text_eq process
refused_later = refl

extract-transform_example : (no_timezone ≡ no_timezone) ⊎ (no_timezone ≡ row_exception)
extract-transform_example =
    extract-transform digit hash rows naive as_it_is reader is_date second_answers 3 run box
      (codes "key") (codes "v1") result (raw_path run box) (codes "ab") manifest (codes "v2")
      no_timezone (omega arith) same_rows extracted refused_later
