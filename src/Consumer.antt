-- ===== src/Consumer.antt =====
-- `consume_producer_run` of src/eo_event_platform/streaming/kafka/consumer.py, on the answers of the
-- consumer's polls in their order, with the messages of the failure router. A JSON number without a
-- fraction is an integer. A value that is null or no UTF-8 and a key that is no UTF-8, which end the
-- run with an exception, are left out, as are the clock and the fields of the manifest.
pub mod Pigeonhole
pub mod Observed
pub mod Complete
mod Tests
use nasa_earth_observation_e.Prelude.{
  ℕ, zero, suc, ◌+◌, ◌-◌, Bool, true, false, ◌&&◌, ◌||◌, not, Option, none, some, List, [], ◌∷◌,
  ◌++◌, length, any, all, ltb, leb, ◌==◌, if◌then◌else◌, Result, ok, raise, ◌>>=◌, ◌>>◌, raise_if,
}
use nasa_earth_observation_e.Prelude.Int.{ℤ, pos, negsuc, leb_ℤ}
use nasa_earth_observation_e.Text.{Text, codes, text_eq}
use nasa_earth_observation_e.Text.Float.{Float, finite}
use nasa_earth_observation_e.Replay.Value.{Value, null, boolean, number, text, Event, get, value_eq}
use nasa_earth_observation_e.Replay.Generator.{Line, not_json, not_an_object, object, present_text}
use nasa_earth_observation_e.Replay.Run.{distinct}
use nasa_earth_observation_e.Router.Validation.{key_value}
use nasa_earth_observation_e.Router.Routing.{Message}
use nasa_earth_observation_e.Router.Loop.{Poll, nothing, failure, arrived, in_range}

-- The run's expectations, with the producer's count.
pub record Expectations : Type 0 where
  pub source_type : Text
  pub synthetic_true : ℕ
  pub detection_count : ℕ
  pub replay_factor : ℕ
  pub count : ℕ

-- The variables of the loop. A `Counter` is the list of what it counted, a set the list of its members.
pub record Tally : Type 0 where
  pub consumed : ℕ
  pub partitions : List ℕ
  pub invalid_json : ℕ
  pub key_lineage_mismatch : ℕ
  pub missing_event_id : ℕ
  pub event_ids : List Text
  pub detection_ids : List Text
  pub source_types : List Text
  pub replay_sequences : List ℤ
  pub replay_iterations : List ℤ
  pub synthetic_true : ℕ

-- `waiting` is the loop that has not ended after these answers.
pub data ConsumeError : Type 0 where
  not_successful idle_timeout consume_failed waiting attribute_error not_reconciled : ConsumeError

abbrev pub empty_tally : Tally
empty_tally = record {
  consumed = 0;
  partitions = [];
  invalid_json = 0;
  key_lineage_mismatch = 0;
  missing_event_id = 0;
  event_ids = [];
  detection_ids = [];
  source_types = [];
  replay_sequences = [];
  replay_iterations = [];
  synthetic_true = 0;
}

-- `isinstance(value, int) and not isinstance(value, bool)`
abbrev pub as_int : Value → Option ℤ
as_int (number (finite n zero)) = some n
as_int _ = none

abbrev pub as_string : Value → Option Text
as_string (text s) = some s
as_string _ = none

abbrev pub int_eq : ℤ → ℤ → Bool
int_eq (pos a) (pos b) = a == b
int_eq (negsuc a) (negsuc b) = a == b
int_eq _ _ = false

abbrev pub is_int_in : ℤ → List ℤ → Bool
is_int_in n ns = any (λ m. int_eq m n) ns

-- `Counter[item] += 1`, where there is an item.
abbrev pub count_item : Option Text → List Text → List Text
count_item none items = items
count_item (some item) items = items ++ item ∷ []

-- `set.add`, where there is a number.
unfoldable pub add_int : Option ℤ → List ℤ → List ℤ
add_int none ns = ns
add_int (some n) ns = if is_int_in n ns then ns else n ∷ ns

abbrev pub count_none : Option Text → ℕ
count_none none = 1
count_none (some item) = 0

abbrev pub is_true : Value → Bool
is_true (boolean b) = b
is_true _ = false

-- The loop's body for a JSON object.
unfoldable pub observe_event : Message → Event → Tally → Tally
observe_event message event t = record t {
  missing_event_id = t.missing_event_id + count_none (present_text (get "event_id" event));
  event_ids = count_item (present_text (get "event_id" event)) t.event_ids;
  detection_ids = count_item (present_text (get "detection_id" event)) t.detection_ids;
  source_types = count_item (as_string (get "source_type" event)) t.source_types;
  synthetic_true = t.synthetic_true + (if is_true (get "is_synthetic" event) then 1 else 0);
  replay_sequences = add_int (as_int (get "replay_sequence_number" event)) t.replay_sequences;
  replay_iterations = add_int (as_int (get "replay_iteration" event)) t.replay_iterations;
  key_lineage_mismatch =
      t.key_lineage_mismatch
      + (if value_eq (key_value message.key) (get "lineage_root_id" event) then 0 else 1);
}

abbrev pub reached : Message → Tally → Tally
reached message t = record t {
  consumed = suc t.consumed;
  partitions = message.partition ∷ t.partitions;
}

-- The loop's body for a message in range.
abbrev pub observe_value : Message → Line → Tally → Result ConsumeError Tally
observe_value message not_json t = ok (record t { invalid_json = t.invalid_json + 1 })
observe_value message not_an_object t = raise attribute_error
observe_value message (object event) t = ok (observe_event message event t)

abbrev pub observe : Message → Tally → Result ConsumeError Tally
observe message t = observe_value message message.value (reached message t)

module _ (starts ends : ℕ → ℕ) (expected_count : ℕ) where
  unfoldable pub answer_poll : Poll → Tally → Result ConsumeError Tally
  answer_poll (nothing is_stale) t = if is_stale then raise idle_timeout else ok t
  answer_poll failure t = raise consume_failed
  answer_poll (arrived message) t = if in_range starts ends message then observe message t else ok t

  -- The loop tests its condition before every poll.
  unfoldable pub observe_all : List Poll → Tally → Result ConsumeError Tally
  observe_all [] t = if ltb t.consumed expected_count then raise waiting else ok t
  observe_all (poll ∷ polls) t = elim (ltb t.consumed expected_count) [
    | false ↦ ok t
    | true ↦ elim (answer_poll poll t) [ raise e ↦ raise e | ok t' ↦ observe_all polls t' ]
  ]

-- How often a text was counted.
abbrev pub occurrences_of : Text → List Text → ℕ
occurrences_of s [] = 0
occurrences_of s (t ∷ ts) = (if text_eq t s then 1 else 0) + occurrences_of s ts

-- `sum(count - 1 for count in event_ids.values() if count > 1)`
abbrev pub sum_duplicates : List Text → List Text → ℕ
sum_duplicates ids [] = 0
sum_duplicates ids (id ∷ keys) = (occurrences_of id ids - 1) + sum_duplicates ids keys

-- `min(set, default=-1) == 0`, and the maximum.
abbrev pub has_minimum : ℤ → List ℤ → Bool
has_minimum n ns = is_int_in n ns && all (λ m. leb_ℤ n m) ns

abbrev pub has_maximum : ℤ → List ℤ → Bool
has_maximum n ns = is_int_in n ns && all (λ m. leb_ℤ m n) ns

-- `range(1, n + 1)`
abbrev pub range_to : ℕ → List ℤ
range_to zero = []
range_to (suc n) = pos (suc n) ∷ range_to n

abbrev pub same_ints : List ℤ → List ℤ → Bool
same_ints ms ns = all (λ m. is_int_in m ns) ms && all (λ n. is_int_in n ms) ns

abbrev pub is_some_text : List Text → Bool
is_some_text [] = false
is_some_text (t ∷ ts) = true

-- `quality_checks`, in their order.
abbrev pub quality_checks : Expectations → Tally → List Bool
quality_checks e t =
    (t.consumed == e.count)
    ∷ (length t.partitions == t.consumed)
    ∷ (t.invalid_json == 0)
    ∷ (t.missing_event_id == 0)
    ∷ (t.key_lineage_mismatch == 0)
    ∷ (length (distinct t.event_ids) == e.count)
    ∷ (sum_duplicates t.event_ids (distinct t.event_ids) == 0)
    ∷ (is_some_text t.source_types
        && all (text_eq e.source_type) t.source_types
        && (length t.source_types == e.count))
    ∷ (t.synthetic_true == e.synthetic_true)
    ∷ (length (distinct t.detection_ids) == e.detection_count)
    ∷ (is_some_text t.detection_ids
        && all (λ id. occurrences_of id t.detection_ids == e.replay_factor)
            (distinct t.detection_ids))
    ∷ ((length t.replay_sequences == e.count)
        && has_minimum (pos 0) t.replay_sequences
        && has_maximum (pos (e.count - 1)) t.replay_sequences)
    ∷ same_ints t.replay_iterations (range_to e.replay_factor)
    ∷ []

-- `is_successful` is what the producer's manifest says of its status and its reconciliation.
unfoldable pub consume_producer_run :
    Bool → (ℕ → ℕ) → (ℕ → ℕ) → Expectations → List Poll → Result ConsumeError Tally
consume_producer_run is_successful starts ends e polls = do
  raise_if (not is_successful) not_successful
  t ← observe_all starts ends e.count polls empty_tally
  raise_if (not (all (λ check. check) (quality_checks e t))) not_reconciled
  ok t
