-- ===== src/Extraction/Run.antt =====
-- `FirmsExtractor.extract` of src/eo_event_platform/ingestion/nasa_firms/extractor.py. The run's
-- identity, the clock's readings and what each write of a file does are given by the run's
-- surroundings; SHA-256 is a parameter. An error is named by its type, as in `failure_category`.
pub mod Recorded
use nasa_earth_observation_e.Prelude.{
  ℕ, Bool, true, false, not, Option, none, some, List, [], ◌∷◌, ◌++◌, length, if◌then◌else◌, Result,
  ok, raise, ◌>>=◌, ◌>>◌, raise_if,
}
use nasa_earth_observation_e.Text.{Text, codes, is_empty, strip}
use nasa_earth_observation_e.Text.Float.{Float}
use nasa_earth_observation_e.Extraction.Request.{ExtractionRequest, RequestError, validate_request}
use nasa_earth_observation_e.Extraction.Fetch.{
  Answer, FetchError, unexpected_status, empty_response, http_failed, retries_exhausted, unhandled,
  Fetched, Trace, untouched, request_csv,
}
use nasa_earth_observation_e.Extraction.Csv.{
  CsvFile, CsvError, not_utf8, header_error, missing_columns, malformed_row, malformed_csv,
  validate_firms_csv,
}

-- The run's identity, the clock, and what becomes of each write: `none` if it is done, or the type of
-- its exception.
pub record Surroundings : Type 0 where
  pub ingestion_run_id : Text
  pub requested_at : Text
  pub ingestion_date : Text
  pub succeeded_at : Text
  pub failed_at : Text
  pub bronze_root : Text
  pub raw_write : Option Text
  pub manifest_write : Option Text
  pub failure_write : Option Text

pub data Status : Type 0 where
  failed succeeded : Status

pub record RunManifest : Type 0 where
  pub ingestion_run_id : Text
  pub status : Status
  pub source_dataset : Text
  pub request : ExtractionRequest
  pub requested_at : Text
  pub pipeline_version : Text
  pub attempt_count : ℕ
  pub http_status : Option ℕ
  pub raw_object_path : Option Text
  pub raw_file_name : Option Text
  pub byte_count : Option ℕ
  pub sha256 : Option Text
  pub record_count : Option ℕ
  pub source_columns : Option (List Text)
  pub failure_category : Option Text
  pub completed_at : Option Text

pub record ExtractionResult : Type 0 where
  pub ingestion_run_id : Text
  pub record_count : ℕ
  pub byte_count : ℕ
  pub sha256 : Text
  pub raw_object_path : Text

-- The files that a run writes.
pub data Write : Type 0 where
  raw_file : (path content : Text) → Write
  manifest_file : RunManifest → Write

-- `unwritten` is the exception of the handler's own write.
pub data ExtractError : Type 0 where
  invalid_request : RequestError → ExtractError
  empty_map_key extraction_failed : ExtractError
  unwritten : Text → ExtractError

abbrev pub Extracted : Type 0
Extracted = Result ExtractError ExtractionResult × List Write

abbrev pub raw_file_name : Text
raw_file_name = codes "firms_response.csv"

-- `raw_path`
abbrev pub raw_path : Surroundings → ExtractionRequest → Text
raw_path run request =
    run.bronze_root
    ++ codes "/source_dataset="
    ++ request.source_dataset
    ++ codes "/ingestion_date="
    ++ run.ingestion_date
    ++ codes "/ingestion_run_id="
    ++ run.ingestion_run_id
    ++ b'/' ∷ raw_file_name

-- The manifest in front of the `try`.
abbrev pub initial_manifest : Surroundings → ExtractionRequest → Text → RunManifest
initial_manifest run request pipeline_version = record {
  ingestion_run_id = run.ingestion_run_id;
  status = failed;
  source_dataset = request.source_dataset;
  request = request;
  requested_at = run.requested_at;
  pipeline_version = pipeline_version;
  attempt_count = 0;
  http_status = none;
  raw_object_path = none;
  raw_file_name = none;
  byte_count = none;
  sha256 = none;
  record_count = none;
  source_columns = none;
  failure_category = none;
  completed_at = none;
}

-- What the `try` has read before it writes.
pub record Obtained : Type 0 where
  pub fetched : Fetched
  pub columns : List Text
  pub record_count : ℕ

-- `type(exc).__name__`
abbrev pub category_of_fetch : FetchError → Text
category_of_fetch (unhandled category) = category
category_of_fetch _ = codes "ExtractionError"

abbrev pub category_of_csv : CsvError → Text
category_of_csv header_error = codes "Error"
category_of_csv _ = codes "ExtractionError"

abbrev pub with_category {ℓ} : {E : Type 0} {A : Type ℓ} → (E → Text) → Result E A → Result Text A
with_category category (raise e) = raise (category e)
with_category category (ok a) = ok a

-- The handler of the exceptions, with what becomes of its write.
abbrev pub handle : Option Text → Surroundings → RunManifest → Text → List Write → Extracted
handle (some error) run manifest category written = (raise (unwritten error), written)
handle none run manifest category written = (
  raise extraction_failed,
  written
      ++ manifest_file
          (record manifest { failure_category = some category; completed_at = some run.failed_at })
        ∷ [],
)

abbrev pub fail : Surroundings → RunManifest → Text → List Write → Extracted
fail run manifest category written = handle run.failure_write run manifest category written

module _ (decode : Text → Option Text) (dict_reader : Text → CsvFile) where
  -- The body's fetch and its checks.
  unfoldable pub obtain : Result FetchError Fetched → Result Text Obtained
  obtain fetch = do
    fetched ← with_category category_of_fetch fetch
    (columns, record_count) ←
        with_category category_of_csv (validate_firms_csv decode dict_reader fetched.body)
    ok (record { fetched = fetched; columns = columns; record_count = record_count })

module _ (float : Text → Option Float) (is_iso_date : Text → Bool) where
  -- The guards in front of the `try`.
  unfoldable pub check_call : ExtractionRequest → Text → Result ExtractError (Unit {0})
  check_call request map_key = elim (validate_request float is_iso_date request) [
    | raise e ↦ raise (invalid_request e)
    | ok u ↦ raise_if (is_empty (strip map_key)) empty_map_key
  ]

module _ (sha256 : Text → Text) where
  -- The manifest's update.
  abbrev pub completed : Surroundings → Obtained → RunManifest → RunManifest
  completed run o manifest = record manifest {
    status = succeeded;
    attempt_count = o.fetched.attempt_count;
    http_status = some o.fetched.http_status;
    raw_object_path = some (raw_path run manifest.request);
    raw_file_name = some raw_file_name;
    byte_count = some (length o.fetched.body);
    sha256 = some (sha256 o.fetched.body);
    record_count = some o.record_count;
    source_columns = some o.columns;
    completed_at = some run.succeeded_at;
  }

  abbrev pub extraction_result : Surroundings → ExtractionRequest → Obtained → ExtractionResult
  extraction_result run request o = record {
    ingestion_run_id = run.ingestion_run_id;
    record_count = o.record_count;
    byte_count = length o.fetched.body;
    sha256 = sha256 o.fetched.body;
    raw_object_path = raw_path run request;
  }

  -- The write of the manifest, behind that of the raw file.
  unfoldable pub write_manifest :
      Option Text → Surroundings → ExtractionRequest → RunManifest → Obtained → Extracted
  write_manifest (some category) run request manifest o =
      fail run (completed run o manifest) category
        (raw_file (raw_path run request) o.fetched.body ∷ [])
  write_manifest none run request manifest o = (
    ok (extraction_result run request o),
    raw_file (raw_path run request) o.fetched.body ∷ manifest_file (completed run o manifest) ∷ [],
  )

  -- The writes of the `try`, with what becomes of the first.
  unfoldable pub write_outputs :
      Option Text → Surroundings → ExtractionRequest → RunManifest → Obtained → Extracted
  write_outputs (some category) run request manifest o = fail run manifest category []
  write_outputs none run request manifest o =
      write_manifest run.manifest_write run request manifest o

  module _ (decode : Text → Option Text) (dict_reader : Text → CsvFile)
      (float : Text → Option Float) (is_iso_date : Text → Bool) where
    -- The result, the files written, and the requests made.
    unfoldable pub extract :
        (ℕ → Answer) → ℕ → Surroundings → ExtractionRequest → Text → Text → Extracted × Trace
    extract opener max_attempts run request map_key pipeline_version =
        elim (check_call float is_iso_date request map_key) [
          | raise e ↦ ((raise e, []), untouched)
          | ok u ↦
              let (fetch, trace) = request_csv opener max_attempts in
              let manifest = initial_manifest run request pipeline_version in
              elim (obtain decode dict_reader fetch) [
                | raise category ↦ (fail run manifest category [], trace)
                | ok o ↦ (write_outputs run.raw_write run request manifest o, trace)
              ]
        ]
