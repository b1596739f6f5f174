-- ===== src/Router/Validation.antt =====
-- `validation_errors` of src/eo_event_platform/streaming/kafka/failure_router.py.
use nasa_earth_observation_e.Prelude.{
  String, Bool, true, false, not, ◌&&◌, ◌||◌, Option, none, some, List, [], ◌∷◌, ◌++◌,
}
use nasa_earth_observation_e.Prelude.Int.{ℤ, pos, negsuc}
use nasa_earth_observation_e.Text.{Text, codes, is_empty, strip}
use nasa_earth_observation_e.Text.Float.{of_int, le}
use nasa_earth_observation_e.Events.Canonical.{sorted_set}
use nasa_earth_observation_e.Replay.Value.{Value, null, boolean, number, text, Event, get, value_eq}

-- `REQUIRED_TEXT_FIELDS`, each with the code of its absence.
abbrev pub required_text_fields : List (String × String)
required_text_fields =
    ("event_id", "MISSING_EVENT_ID")
    ∷ ("lineage_root_id", "MISSING_LINEAGE_ROOT_ID")
    ∷ ("source_type", "MISSING_SOURCE_TYPE")
    ∷ ("source_dataset", "MISSING_SOURCE_DATASET")
    ∷ ("source_record_id", "MISSING_SOURCE_RECORD_ID")
    ∷ ("ingestion_run_id", "MISSING_INGESTION_RUN_ID")
    ∷ ("event_timestamp", "MISSING_EVENT_TIMESTAMP")
    ∷ ("ingestion_timestamp", "MISSING_INGESTION_TIMESTAMP")
    ∷ ("schema_version", "MISSING_SCHEMA_VERSION")
    ∷ []

-- A text with something else than white space.
abbrev pub is_filled : Value → Bool
is_filled (text s) = not (is_empty (strip s))
is_filled _ = false

-- A number, and no Boolean, from `low` to `high`.
abbrev pub is_within : ℤ → ℤ → Value → Bool
is_within low high (number x) = le (of_int low) x && le x (of_int high)
is_within low high _ = false

abbrev pub is_false : Value → Bool
is_false (boolean b) = not b
is_false _ = false

-- The key of a message, as Python's value.
abbrev pub key_value : Option Text → Value
key_value none = null
key_value (some key) = text key

abbrev pub code_if : Bool → String → List String
code_if true code = code ∷ []
code_if false code = []

unfoldable pub missing_codes : List (String × String) → Event → List String
missing_codes [] event = []
missing_codes ((field, code) ∷ rest) event =
    code_if (not (is_filled (get field event))) code ++ missing_codes rest event

-- The codes in the order in which they are appended.
unfoldable pub error_codes : Event → Option Text → List String
error_codes event message_key =
    missing_codes required_text_fields event
    ++ code_if (not (value_eq (get "schema_version" event) (text (codes "1.0.0"))))
        "INVALID_SCHEMA_VERSION"
    ++ code_if
        (not (value_eq (get "source_type" event) (text (codes "NASA_REPLAY")))
          || not (is_false (get "is_synthetic" event)))
        "INVALID_REPLAY_CLASSIFICATION"
    ++ code_if (not (is_within (negsuc 89) (pos 90) (get "latitude" event))) "INVALID_LATITUDE"
    ++ code_if (not (is_within (negsuc 179) (pos 180) (get "longitude" event))) "INVALID_LONGITUDE"
    ++ code_if (not (value_eq (key_value message_key) (get "lineage_root_id" event)))
        "KAFKA_KEY_LINEAGE_MISMATCH"

unfoldable pub validation_errors : Event → Option Text → List String
validation_errors event message_key = sorted_set (error_codes event message_key)
