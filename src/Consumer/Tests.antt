-- ===== src/Consumer/Tests.antt =====
-- Two replayed events of one detection, behind a message out of range.
use nasa_earth_observation_e.Prelude.{ℕ, ◌+◌, true, false, some, List, [], ◌∷◌, ok, ◌≡◌, refl}
use nasa_earth_observation_e.Prelude.Int.{pos}
use nasa_earth_observation_e.Prelude.Assoc.{lookup}
use nasa_earth_observation_e.Text.{codes, text_eq}
use nasa_earth_observation_e.Replay.Value.{boolean, text, natural, Event, get, value_eq}
use nasa_earth_observation_e.Replay.Generator.{object}
use nasa_earth_observation_e.Router.Routing.{Message}
use nasa_earth_observation_e.Router.Loop.{Poll, nothing, arrived, in_range}
use nasa_earth_observation_e.Router.Reconciled.{taken}
use nasa_earth_observation_e.Consumer.{
  Tally, Expectations, add_int, observe_event, answer_poll, observe_all, consume_producer_run,
}
use nasa_earth_observation_e.Consumer.Complete.{IsComplete, consume_producer_run-IsComplete}

abbrev event : ℕ → Event
event n =
    ("event_id", text ((b'a' + n) ∷ []))
    ∷ ("detection_id", text (codes "d"))
    ∷ ("source_type", text (codes "NASA_REPLAY"))
    ∷ ("is_synthetic", boolean false)
    ∷ ("replay_sequence_number", natural n)
    ∷ ("replay_iteration", natural (n + 1))
    ∷ ("lineage_root_id", text (codes "r"))
    ∷ []

abbrev message : ℕ → Message
message n = record {
  partition = 0;
  offset = n + 5;
  key = some (codes "r");
  value = object (event n);
}

abbrev early : Message
early = record (message 0) { offset = 4 }

abbrev polls : List Poll
polls = nothing false ∷ arrived early ∷ arrived (message 0) ∷ arrived (message 1) ∷ []

abbrev start : ℕ → ℕ
start partition = 5

abbrev end : ℕ → ℕ
end partition = 7

abbrev expectations : Expectations
expectations = record {
  source_type = codes "NASA_REPLAY";
  synthetic_true = 0;
  detection_count = 1;
  replay_factor = 2;
  count = 2;
}

abbrev tally : Tally
tally = record {
  consumed = 2;
  partitions = 0 ∷ 0 ∷ [];
  invalid_json = 0;
  key_lineage_mismatch = 0;
  missing_event_id = 0;
  event_ids = codes "a" ∷ codes "b" ∷ [];
  detection_ids = codes "d" ∷ codes "d" ∷ [];
  source_types = codes "NASA_REPLAY" ∷ codes "NASA_REPLAY" ∷ [];
  replay_sequences = pos 1 ∷ pos 0 ∷ [];
  replay_iterations = pos 2 ∷ pos 1 ∷ [];
  synthetic_true = 0;
}

consumed : consume_producer_run true start end expectations polls ≡ ok tally
unfolding consume_producer_run observe_all answer_poll observe_event add_int get lookup value_eq
    text_eq
consumed = refl

consume_producer_run-IsComplete_example : IsComplete 2 (taken (in_range start end) 2 polls)
consume_producer_run-IsComplete_example =
    consume_producer_run-IsComplete true start end expectations polls tally consumed
