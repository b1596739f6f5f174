-- ===== src/Replay/Generator.antt =====
-- src/eo_event_platform/replay/generator.py: the admission of the original events, the replay of each
-- in every iteration, and the checks of a run. The source file is its SHA-256 digest and what
-- `json.loads` makes of its lines; `schedule` gives the texts of the times by the milliseconds after the start.
use nasa_earth_observation_e.Prelude.{
  ℕ, zero, suc, ◌+◌, ◌-◌, ◌*◌, Bool, true, false, not, ◌&&◌, ◌||◌, Option, none, some, List, [],
  ◌∷◌, ◌++◌, length, any, Result, ok, raise, ◌>>=◌, ◌>>◌, raise_if, if◌then◌else◌, ltb, ◌==◌,
}
use nasa_earth_observation_e.Text.{Text, codes, text_eq}
use nasa_earth_observation_e.Replay.Plan.{
  ReplayPlan, PlanError, IdentityFault, build_replay_event_id,
}
use nasa_earth_observation_e.Replay.Value.{
  Value, null, boolean, text, texts, Event, natural, get, value_eq,
}
use nasa_earth_observation_e.Replay.Update.{update}

-- A line of the source.
pub data Line : Type 0 where
  not_json not_an_object : Line
  object : Event → Line

pub data ReplayError : Type 0 where
  invalid_plan : PlanError → ReplayError
  bad_identity : IdentityFault → ReplayError
  wrong_source bad_line attribute_error no_event_id duplicate_event_id not_original synthetic :
      ReplayError
  broken_identity wrong_source_count bad_start : ReplayError
  wrong_output_count ids_not_unique wrong_detection_count : ReplayError

-- The text of a value, and none where it is no text or empty.
abbrev pub present_text : Value → Option Text
present_text (text []) = none
present_text (text (c ∷ s)) = some (c ∷ s)
present_text _ = none

-- `value is False`
abbrev pub is_false : Value → Bool
is_false (boolean b) = not b
is_false _ = false

abbrev pub is_member_of : Text → List Text → Bool
is_member_of id seen = any (λ other. text_eq other id) seen

-- The checks of an event after its identity.
unfoldable pub check_original : Event → Text → List Text → Result ReplayError (Unit {0})
check_original event event_id seen = do
  raise_if (is_member_of event_id seen) duplicate_event_id
  raise_if (not (value_eq (get "source_type" event) (text (codes "NASA_ORIGINAL")))) not_original
  raise_if (not (is_false (get "is_synthetic" event))) synthetic
  raise_if
      (not (
        value_eq (get "detection_id" event) (text event_id)
        && value_eq (get "lineage_root_id" event) (text event_id)
        && value_eq (get "source_record_id" event) (text event_id)))
      broken_identity
  ok tt

-- An event that has passed the checks, with its identity.
abbrev pub Original : Type 0
Original = Text × Event

unfoldable pub load_line : Line → List Text → Result ReplayError Original
load_line not_json seen = raise bad_line
load_line not_an_object seen = raise attribute_error
load_line (object event) seen = elim (present_text (get "event_id" event)) [
  | none ↦ raise no_event_id
  | some event_id ↦ (do check_original event event_id seen; ok (event_id, event))
]

unfoldable pub load_lines : List Line → List Text → Result ReplayError (List Original)
load_lines [] seen = ok []
load_lines (line ∷ lines) seen = do
  original ← load_line line seen
  originals ← load_lines lines (original.0 ∷ seen)
  ok (original ∷ originals)

-- Python's order of texts.
unfoldable pub text_lt : Text → Text → Bool
text_lt s [] = false
text_lt [] (d ∷ t) = true
text_lt (c ∷ s) (d ∷ t) = ltb c d || (c == d && text_lt s t)

unfoldable pub insert_original : Original → List Original → List Original
insert_original a [] = a ∷ []
insert_original a (b ∷ rest) = if text_lt b.0 a.0 then b ∷ insert_original a rest else a ∷ b ∷ rest

-- originals.sort(key=...)
unfoldable pub sort_originals : List Original → List Original
sort_originals [] = []
sort_originals (a ∷ rest) = insert_original a (sort_originals rest)

unfoldable pub load_original_events :
    Text → List Line → ReplayPlan → Result ReplayError (List Original)
load_original_events digest lines plan = do
  raise_if (not (text_eq digest plan.source_input_sha256)) wrong_source
  originals ← load_lines lines []
  raise_if (not (length originals == plan.source_record_count)) wrong_source_count
  ok (sort_originals originals)

-- The changes of a replay.
abbrev pub replay_changes : Text → Text → Text → ℕ → ℕ → Text → Text → Event
replay_changes event_id parent_event_id run_id iteration sequence scheduled version =
    ("event_id", text event_id)
    ∷ ("parent_event_id", text parent_event_id)
    ∷ ("source_type", text (codes "NASA_REPLAY"))
    ∷ ("is_synthetic", boolean false)
    ∷ ("replay_run_id", text run_id)
    ∷ ("replay_iteration", natural iteration)
    ∷ ("replay_sequence_number", natural sequence)
    ∷ ("scheduled_replay_timestamp", text scheduled)
    ∷ ("pipeline_version", text version)
    ∷ ("kafka_topic", null)
    ∷ ("kafka_partition", null)
    ∷ ("kafka_offset", null)
    ∷ ("kafka_timestamp", null)
    ∷ ("validation_status", text (codes "PENDING"))
    ∷ ("validation_error_codes", texts [])
    ∷ ("deduplication_status", text (codes "PENDING"))
    ∷ ("enrichment_status", text (codes "NOT_STARTED"))
    ∷ []

unfoldable pub or_fault : {A : Type 0} → Result IdentityFault A → Result ReplayError A
or_fault (ok a) = ok a
or_fault (raise fault) = raise (bad_identity fault)

module _ (sha256 : Text → Text) where
  unfoldable pub build_replay_event :
      Original → Text → ℕ → ℕ → Text → Text → Result ReplayError Event
  unfolding or_fault
  build_replay_event (parent, original) run_id iteration sequence scheduled version = do
    event_id ← or_fault (build_replay_event_id sha256 run_id parent iteration)
    ok (
        update original
          (replay_changes event_id parent run_id iteration sequence scheduled version))

  module _ (run_id version : Text) (scheduled_at : ℕ → Text) (count interval : ℕ) where
    -- The inner loop, from the original at an index on.
    unfoldable pub replay_originals : ℕ → ℕ → List Original → Result ReplayError (List Event)
    replay_originals iteration index [] = ok []
    replay_originals iteration index (original ∷ rest) = do
      event ←
          build_replay_event original run_id iteration ((iteration - 1) * count + index)
            (scheduled_at (((iteration - 1) * count + index) * interval)) version
      events ← replay_originals iteration (suc index) rest
      ok (event ∷ events)

    -- The outer loop: `left` iterations, from one on.
    unfoldable pub replay_iterations : ℕ → ℕ → List Original → Result ReplayError (List Event)
    replay_iterations iteration zero originals = ok []
    replay_iterations iteration (suc left) originals = do
      events ← replay_originals iteration 0 originals
      more ← replay_iterations (suc iteration) left originals
      ok (events ++ more)
