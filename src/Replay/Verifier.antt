-- ===== src/Replay/Verifier.antt =====
-- The checks of each line in src/eo_event_platform/replay/verify.py. The verifier recovers the iteration and
-- the original of a line from its position, and knows the fields that a replay overwrites.
use nasa_earth_observation_e.Prelude.{
  ℕ, suc, ◌+◌, ◌*◌, ◌/◌, ◌%◌, String, Bool, not, ◌&&◌, ◌||◌, false, none, some, List, [], ◌∷◌, any,
  all, get_elem?, Result, ok, raise, ◌>>=◌, ◌>>◌, raise_if, str_eq,
}
use nasa_earth_observation_e.Text.{Text, codes}
use nasa_earth_observation_e.Replay.Plan.{IdentityFault, build_replay_event_id}
use nasa_earth_observation_e.Replay.Value.{
  null, boolean, text, texts, Event, natural, get, value_eq,
}
use nasa_earth_observation_e.Replay.Update.{has, names}
use nasa_earth_observation_e.Replay.Generator.{Line, not_json, not_an_object, object, Original}

pub data VerifyError : Type 0 where
  invalid_json no_attribute no_original unexpected_fields : VerifyError
  bad_expected_id : IdentityFault → VerifyError
  invalid_field changed_field : String → VerifyError

-- `OVERWRITTEN_FIELDS`
abbrev pub overwritten_fields : List String
overwritten_fields =
    "event_id" ∷ "parent_event_id" ∷ "source_type" ∷ "is_synthetic" ∷ "replay_run_id"
    ∷ "replay_iteration" ∷ "replay_sequence_number" ∷ "scheduled_replay_timestamp"
    ∷ "pipeline_version" ∷ "kafka_topic" ∷ "kafka_partition" ∷ "kafka_offset" ∷ "kafka_timestamp"
    ∷ "validation_status" ∷ "validation_error_codes" ∷ "deduplication_status" ∷ "enrichment_status"
    ∷ []

unfoldable pub is_overwritten : String → Bool
is_overwritten name = any (λ other. str_eq other name) overwritten_fields

-- `expected_values`
abbrev pub expected_values : Text → Text → Text → ℕ → ℕ → Text → Text → Event
expected_values event_id parent_event_id run_id iteration sequence scheduled version =
    ("event_id", text event_id)
    ∷ ("parent_event_id", text parent_event_id)
    ∷ ("source_type", text (codes "NASA_REPLAY"))
    ∷ ("is_synthetic", boolean false)
    ∷ ("replay_run_id", text run_id)
    ∷ ("replay_iteration", natural iteration)
    ∷ ("replay_sequence_number", natural sequence)
    ∷ ("scheduled_replay_timestamp", text scheduled)
    ∷ ("pipeline_version", text version)
    ∷ ("kafka_topic", null)
    ∷ ("kafka_partition", null)
    ∷ ("kafka_offset", null)
    ∷ ("kafka_timestamp", null)
    ∷ ("validation_status", text (codes "PENDING"))
    ∷ ("validation_error_codes", texts [])
    ∷ ("deduplication_status", text (codes "PENDING"))
    ∷ ("enrichment_status", text (codes "NOT_STARTED"))
    ∷ []

unfoldable pub check_expected : Event → Event → Result VerifyError (Unit {0})
check_expected event [] = ok tt
check_expected event ((name, expected) ∷ rest) = do
  raise_if (not (value_eq (get name event) expected)) (invalid_field name)
  check_expected event rest

unfoldable pub check_kept : Event → Event → Result VerifyError (Unit {0})
check_kept event [] = ok tt
check_kept event ((name, expected) ∷ rest) = do
  raise_if (not (is_overwritten name) && not (value_eq (get name event) expected))
      (changed_field name)
  check_kept event rest

-- `set(event) == set(original) | OVERWRITTEN_FIELDS`
unfoldable pub has_fields : Event → Event → Bool
has_fields event original =
    all (λ name. is_overwritten name || has name original) (names event)
    && all (λ name. has name event) (names original)
    && all (λ name. has name event) overwritten_fields

unfoldable pub check_fields : Event → Event → Result VerifyError (Unit {0})
check_fields event original = raise_if (not (has_fields event original)) unexpected_fields

unfoldable pub or_bad_id : {A : Type 0} → Result IdentityFault A → Result VerifyError A
or_bad_id (ok a) = ok a
or_bad_id (raise fault) = raise (bad_expected_id fault)

module _ (sha256 : Text → Text) (run_id version : Text) where
  -- The checks of a line that is an object, for its original.
  unfoldable pub verify_event : Original → ℕ → ℕ → Text → Event → Result VerifyError (Unit {0})
  verify_event (parent, original) iteration sequence scheduled event = do
    event_id ← or_bad_id (build_replay_event_id sha256 run_id parent iteration)
    check_expected event
        (expected_values event_id parent run_id iteration sequence scheduled version)
    check_kept event original
    check_fields event original

  module _ (scheduled_at : ℕ → Text) (count interval : ℕ) (originals : List Original) where
    unfoldable pub verify_line : ℕ → Line → Result VerifyError (Unit {0})
    verify_line sequence not_json = raise invalid_json
    verify_line sequence not_an_object = raise no_attribute
    verify_line sequence (object event) = elim (get_elem? originals (sequence % count)) [
      | none ↦ raise no_original
      | some original ↦
          verify_event original (sequence / count + 1) sequence (scheduled_at (sequence * interval))
            event
    ]

    unfoldable pub verify_lines : ℕ → List Line → Result VerifyError (Unit {0})
    verify_lines sequence [] = ok tt
    verify_lines sequence (line ∷ lines) = do
      verify_line sequence line
      verify_lines (suc sequence) lines
