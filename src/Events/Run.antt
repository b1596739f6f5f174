-- ===== src/Events/Run.antt =====
-- The run of `Canonicalizer` in src/eo_event_platform/events/canonicalization.py: the checks of the
-- source manifest, the loop over the rows, and what is written. Python's `csv.DictReader` and
-- `datetime.fromisoformat`, with the conversion to UTC, are parameters; an error of a write is not
-- modelled, nor are the paths and the clock's readings, which no decision depends on.
pub mod Loop
pub mod Reconciled
use nasa_earth_observation_e.Prelude.{
  ℕ, zero, suc, ◌+◌, String, Bool, true, false, not, ◌||◌, Option, none, some, List, [], ◌∷◌, ◌++◌,
  if◌then◌else◌, length, any, Result, ok, raise, ◌>>=◌, ◌>>◌, raise_if, ◌==◌,
}
use nasa_earth_observation_e.Prelude.Assoc.{lookup}
use nasa_earth_observation_e.Text.{Text, codes, text_eq}
use nasa_earth_observation_e.Text.Splitting.{after_last}
use nasa_earth_observation_e.Text.Float.{Float}
use nasa_earth_observation_e.Json.{Flat, Scalar, null, text, number}
use nasa_earth_observation_e.Events.Row.{Row}
use nasa_earth_observation_e.Events.Canonical.{
  Lineage, RejectedRow, CanonicalEvent, RowOutcome, rejected, accepted,
}
use nasa_earth_observation_e.Events.RowOutcome.{canonicalize_row}

pub record Duplicate : Type 0 where
  pub event_id : Text
  pub detection_id : Text
  pub source_dataset : Text
  pub ingestion_run_id : Text
  pub raw_object_uri : Text
  pub raw_row_number : ℕ
  pub raw_payload_hash : Text
  pub deduplication_status : String

-- The variables of the loop.
pub record Batches : Type 0 where
  pub accepted_events : List CanonicalEvent
  pub rejected_rows : List RejectedRow
  pub duplicates : List Duplicate
  pub seen_event_ids : List Text

abbrev pub empty_batches : Batches
empty_batches = record {
  accepted_events = [];
  rejected_rows = [];
  duplicates = [];
  seen_event_ids = [];
}

abbrev pub duplicate_of : Lineage → ℕ → CanonicalEvent → Duplicate
duplicate_of lineage raw_row_number e = record {
  event_id = e.event_id;
  detection_id = e.detection_id;
  source_dataset = lineage.source_dataset;
  ingestion_run_id = lineage.ingestion_run_id;
  raw_object_uri = lineage.raw_object_uri;
  raw_row_number = raw_row_number;
  raw_payload_hash = e.raw_payload_hash;
  deduplication_status = "DUPLICATE";
}

abbrev pub is_seen : Text → List Text → Bool
is_seen id seen = any (λ other. text_eq other id) seen

-- The body of the loop, for an outcome.
unfoldable pub place : Lineage → ℕ → RowOutcome → Batches → Batches
place lineage n (rejected r) b = record b { rejected_rows = b.rejected_rows ++ r ∷ [] }
place lineage n (accepted e) b =
    if is_seen e.event_id b.seen_event_ids
    then record b { duplicates = b.duplicates ++ duplicate_of lineage n e ∷ [] }
    else record b {
      seen_event_ids = e.event_id ∷ b.seen_event_ids;
      accepted_events = b.accepted_events ++ e ∷ [];
    }

module _ (float : Text → Option Float) (sha256 : Text → Text) where
  -- The loop, at a row number. `none` is an exception of a row.
  unfoldable pub canonicalize_rows : Lineage → ℕ → List Row → Batches → Option Batches
  canonicalize_rows lineage n [] b = some b
  canonicalize_rows lineage n (row ∷ rows) b = elim (canonicalize_row float sha256 row lineage n) [
    | none ↦ none
    | some outcome ↦ canonicalize_rows lineage (suc n) rows (place lineage n outcome b)
  ]

-- The counts of a run.
pub record Counts : Type 0 where
  pub input_count : ℕ
  pub accepted_count : ℕ
  pub rejected_count : ℕ
  pub duplicate_count : ℕ

pub data CanonicalizationError : Type 0 where
  unreadable_manifest missing_fields not_succeeded raw_missing checksum_mismatch :
      CanonicalizationError
  no_timezone row_exception count_mismatch : CanonicalizationError

-- The files that a run writes.
pub data Artifact : Type 0 where
  events_file : List CanonicalEvent → Artifact
  rejected_file : List RejectedRow → Artifact
  duplicates_file : List Duplicate → Artifact
  success_manifest : Counts → Artifact
  failure_manifest : CanonicalizationError → Artifact

abbrev pub required_fields : List String
required_fields =
    "status" ∷ "source_dataset" ∷ "ingestion_run_id" ∷ "completed_at" ∷ "raw_object_path" ∷ "sha256"
    ∷ "record_count" ∷ []

abbrev pub is_none {ℓ} : {A : Type ℓ} → Option A → Bool
is_none none = true
is_none (some a) = false

-- `str` of a manifest's value that is a text.
abbrev pub as_text : Option Scalar → Text
as_text (some (text s)) = s
as_text _ = []

-- `int` of a manifest's count, which the extraction writes as a number or, for a failed run, as null;
-- other values, of which `int` reads a text of digits and refuses the rest, stand for 0.
abbrev pub as_number : Option Scalar → ℕ
as_number (some (number n)) = n
as_number _ = 0

-- `load_and_validate_source_manifest`, of a file that cannot be read (`none`) or of its JSON object.
unfoldable pub load_and_validate_source_manifest : Option Flat → Result CanonicalizationError Flat
load_and_validate_source_manifest none = raise unreadable_manifest
load_and_validate_source_manifest (some manifest) = do
  raise_if (any (λ field. is_none (lookup field manifest)) required_fields) missing_fields
  raise_if (not (text_eq (as_text (lookup "status" manifest)) (codes "SUCCEEDED"))) not_succeeded
  ok manifest

abbrev pub lineage_of : Flat → Text → Text → Lineage
lineage_of manifest timestamp pipeline_version = record {
  source_dataset = as_text (lookup "source_dataset" manifest);
  ingestion_run_id = as_text (lookup "ingestion_run_id" manifest);
  ingestion_timestamp = timestamp;
  pipeline_version = pipeline_version;
  raw_object_uri = as_text (lookup "raw_object_path" manifest);
  raw_file_name = after_last b'/' (as_text (lookup "raw_object_path" manifest));
}

abbrev pub counts_of : Batches → Counts
counts_of b = record {
  input_count = length b.accepted_events + length b.rejected_rows + length b.duplicates;
  accepted_count = length b.accepted_events;
  rejected_count = length b.rejected_rows;
  duplicate_count = length b.duplicates;
}

abbrev pub or_raise {ℓ} :
    {A : Type ℓ} → CanonicalizationError → Option A → Result CanonicalizationError A
or_raise e none = raise e
or_raise e (some a) = ok a

module _ (float : Text → Option Float) (sha256 : Text → Text) (read_rows : Text → List Row)
    (normalize_utc_timestamp : Text → Option Text) where
  -- The rows of the raw file, under the lineage of the manifest.
  unfoldable pub process : Text → Text → Flat → Result CanonicalizationError Batches
  process content pipeline_version manifest = do
    timestamp ←
        or_raise no_timezone (normalize_utc_timestamp (as_text (lookup "completed_at" manifest)))
    or_raise row_exception (
        canonicalize_rows float sha256 (lineage_of manifest timestamp pipeline_version) 2
          (read_rows content) empty_batches)

  -- `_canonicalize` up to its writes: `raw` is the content of the raw file, if there is one.
  unfoldable pub transform : Option Flat → Option Text → Text → Result CanonicalizationError Batches
  transform source raw pipeline_version = do
    manifest ← load_and_validate_source_manifest source
    content ← or_raise raw_missing raw
    raise_if (not (text_eq (sha256 content) (as_text (lookup "sha256" manifest)))) checksum_mismatch
    b ← process content pipeline_version manifest
    raise_if (not ((counts_of b).input_count == as_number (lookup "record_count" manifest)))
        count_mismatch
    ok b

  -- `canonicalize`: the counts or the error, and the files in the order in which they are written.
  unfoldable pub canonicalize :
      Option Flat → Option Text → Text → Result CanonicalizationError Counts × List Artifact
  canonicalize source raw pipeline_version = elim (transform source raw pipeline_version) [
    | raise e ↦ (raise e, failure_manifest e ∷ [])
    | ok b ↦ (
      ok (counts_of b),
      events_file b.accepted_events
          ∷ rejected_file b.rejected_rows
          ∷ duplicates_file b.duplicates
          ∷ success_manifest (counts_of b)
          ∷ [],
    )
  ]
