-- ===== src/Router/Tests.antt =====
-- Messages through the failure router, and its theorems at them.
use nasa_earth_observation_e.Prelude.{
  ◌↔◌, ℕ, ◌+◌, true, false, none, some, List, [], ◌∷◌, ◌++◌, map, if◌then◌else◌, length, ok, ◌≡◌,
  refl,
}
use nasa_earth_observation_e.Prelude.Assoc.{lookup}
use nasa_earth_observation_e.Text.{Text, codes, text_eq, is_space, left_strip, right_strip, strip}
use nasa_earth_observation_e.Text.Float.{le}
use nasa_earth_observation_e.Events.Canonical.{sorted_set, insert_code}
use nasa_earth_observation_e.Replay.Value.{
  Event, Value, text, boolean, natural, null, get, value_eq,
}
use nasa_earth_observation_e.Replay.Generator.{not_json, object}
use nasa_earth_observation_e.Router.Validation.{missing_codes, error_codes, validation_errors}
use nasa_earth_observation_e.Router.Attempts.{
  is_faulty, attempt_from, process_with_bounded_attempts, process_with_bounded_attempts_lem,
}
use nasa_earth_observation_e.Router.Sound.{IsSound, IsFaulty, route-passes}
use nasa_earth_observation_e.Router.Routing.{
  rejected, dead_letter, Message, Envelope, build_envelope, route_checked, route,
}
use nasa_earth_observation_e.Router.Delivery.{
  Routed, invalid_envelopes, coordinates, key_mismatches, verified, produce, produce_all, routed_of,
  verified-no_lineage,
}
use nasa_earth_observation_e.Router.Loop.{
  Poll, nothing, arrived, Progress, consume, answer, consume_all, in_range,
}
use nasa_earth_observation_e.Router.Reconciled.{taken, routes, consume_all-IsReconciled}
use nasa_earth_observation_e.Router.Run.{
  SourceManifest, Deliveries, reconciles, route_failures, IsDelivered, route_failures-IsDelivered,
}

routing : Unit {0}
unfolding lookup text_eq is_space left_strip right_strip strip le sorted_set insert_code get
    value_eq missing_codes error_codes validation_errors attempt_from process_with_bounded_attempts
    build_envelope route_checked route consume answer consume_all
routing = tt

abbrev event : Event
event =
    ("event_id", text (codes "e"))
    ∷ ("lineage_root_id", text (codes "k"))
    ∷ ("source_type", text (codes "NASA_REPLAY"))
    ∷ ("source_dataset", text (codes "d"))
    ∷ ("source_record_id", text (codes "k"))
    ∷ ("ingestion_run_id", text (codes "r"))
    ∷ ("event_timestamp", text (codes "t"))
    ∷ ("ingestion_timestamp", text (codes "t"))
    ∷ ("schema_version", text (codes "1.0.0"))
    ∷ ("is_synthetic", boolean false)
    ∷ ("latitude", natural 1)
    ∷ ("longitude", natural 2)
    ∷ []

abbrev faulty_event : Event
faulty_event = event ++ ("_test_fault_mode", text (codes "EXHAUST_RETRIES")) ∷ []

abbrev sound_message : Message
sound_message = record { partition = 0; offset = 4; key = some (codes "k"); value = object event }

abbrev faulty_message : Message
faulty_message = record {
  partition = 0;
  offset = 5;
  key = some (codes "k");
  value = object faulty_event;
}

abbrev corrupt_message : Message
corrupt_message = record { partition = 0; offset = 6; key = none; value = not_json }

process_with_bounded_attempts_lem_example :
    process_with_bounded_attempts faulty_event 3
    ≡ ok (if is_faulty faulty_event then (false, 3, some "RuntimeError") else (true, 1, none))
process_with_bounded_attempts_lem_example = process_with_bounded_attempts_lem faulty_event 2

faulty_is_dead_letter :
    route 3 faulty_message
    ≡ ok (
        some (
          build_envelope dead_letter faulty_message
            (some faulty_event)
            ("PROCESSING_RETRIES_EXHAUSTED" ∷ [])
            3
            (some "RuntimeError")))
unfolding routing
faulty_is_dead_letter = refl

route-passes_example : (route 3 sound_message ≡ ok none) ↔ (
    (event' : Event) × (object event ≡ object event')
    × IsSound event' (some (codes "k"))
    × (IsFaulty event' → ⊥))
route-passes_example = route-passes 2 sound_message

wrong_key : validation_errors event none ≡ "KAFKA_KEY_LINEAGE_MISMATCH" ∷ []
unfolding routing
wrong_key = refl

abbrev starts : ℕ → ℕ
starts partition = 4

abbrev ends : ℕ → ℕ
ends partition = 7

abbrev polls : List Poll
polls =
    arrived sound_message ∷ nothing false ∷ arrived faulty_message ∷ arrived corrupt_message ∷ []

abbrev dead_envelope : Envelope
dead_envelope = record {
  routing_type = dead_letter;
  source_partition = 0;
  source_offset = 5;
  message_key = some (codes "k");
  event_id = text (codes "e");
  lineage_root_id = text (codes "k");
  reason_codes = "PROCESSING_RETRIES_EXHAUSTED" ∷ [];
  processing_attempts = 3;
  failure_category = some "RuntimeError";
  original_event = some faulty_event;
}

abbrev corrupt_envelope : Envelope
corrupt_envelope = record {
  routing_type = rejected;
  source_partition = 0;
  source_offset = 6;
  message_key = none;
  event_id = null;
  lineage_root_id = null;
  reason_codes = "CORRUPT_JSON" ∷ [];
  processing_attempts = 0;
  failure_category = none;
  original_event = none;
}

abbrev progress : Progress
progress = record {
  source_consumed = 3;
  passed_count = 1;
  produced = dead_envelope ∷ corrupt_envelope ∷ [];
}

progress_lem :
    consume_all 3 starts ends 3 polls
      (record { source_consumed = 0; passed_count = 0; produced = [] })
    ≡ ok progress
unfolding routing
progress_lem = refl

consume_all-IsReconciled_example :
    (progress.source_consumed ≡ 3)
    × (length (taken (in_range starts ends) 3 polls) ≡ 3)
    × (progress.produced ≡ routes 3 (taken (in_range starts ends) 3 polls))
    × (progress.source_consumed ≡ progress.passed_count + length progress.produced)
consume_all-IsReconciled_example =
    consume_all-IsReconciled 2 starts ends 3 polls progress progress_lem

abbrev str : Value → Text
str v = codes "None"

verified-no_lineage_example :
    (message : Routed) × (produce str corrupt_envelope ≡ some message)
    × (verified rejected 1 ([] ++ message ∷ []) ≡ false)
verified-no_lineage_example = verified-no_lineage str refl rejected 1 [] [] corrupt_envelope refl

abbrev source_manifest : SourceManifest
source_manifest = record {
  status = codes "SUCCEEDED";
  is_reconciled = true;
  start_offsets = starts;
  end_offsets = ends;
  delivered_count = 2;
}

-- A cluster that delivers all to the dead letters.
abbrev cluster : List Routed → Deliveries
cluster messages = record {
  rejected_delivered = 0;
  dead_delivered = length messages;
  delivery_failures = 0;
  undelivered = 0;
  rejected_delta = 0;
  dead_delta = length messages;
  rejected_range = [];
  dead_range = messages;
}

abbrev routed_progress : Progress
routed_progress = record { source_consumed = 2; passed_count = 1; produced = dead_envelope ∷ [] }

routed_lem : route_failures str cluster 3 source_manifest polls ≡ ok routed_progress
unfolding routing route_failures reconciles verified produce produce_all key_mismatches
    invalid_envelopes coordinates
routed_lem = refl

route_failures-IsDelivered_example :
    (routed_progress.source_consumed ≡ 2)
    × (routed_progress.produced ≡ routes 3 (taken (in_range starts ends) 2 polls))
    × IsDelivered routed_progress (cluster (map (routed_of str) (dead_envelope ∷ [])))
route_failures-IsDelivered_example =
    route_failures-IsDelivered str cluster 2 source_manifest polls routed_progress routed_lem
