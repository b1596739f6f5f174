-- ===== src/Replay/Run.antt =====
-- `generate_replay` of src/eo_event_platform/replay/generator.py: the checks after the loops, and what
-- is written. Paths, the clock and the errors of writes are left out.
use nasa_earth_observation_e.Prelude.{
  ℕ, ◌*◌, Bool, not, Option, none, some, List, [], ◌∷◌, length, Result, ok, raise, ◌>>=◌, ◌>>◌,
  raise_if, if◌then◌else◌, ◌==◌,
}
use nasa_earth_observation_e.Text.{Text}
use nasa_earth_observation_e.Replay.Plan.{ReplayPlan, build_replay_run_id}
use nasa_earth_observation_e.Replay.Value.{Event, text, get, Value}
use nasa_earth_observation_e.Replay.Generator.{
  Line, Original, ReplayError, invalid_plan, bad_start, wrong_output_count, ids_not_unique,
  wrong_detection_count, is_member_of, load_original_events, replay_iterations,
}

-- A set of texts, as the list of its members.
abbrev pub distinct : List Text → List Text
distinct [] = []
distinct (t ∷ ts) = let rest = distinct ts in if is_member_of t rest then rest else t ∷ rest

-- `str` of a value that is a text.
abbrev pub text_of : Value → Text
text_of (text s) = s
text_of _ = []

abbrev pub event_ids : List Event → List Text
event_ids [] = []
event_ids (e ∷ es) = text_of (get "event_id" e) ∷ event_ids es

abbrev pub detection_ids : List Original → List Text
detection_ids [] = []
detection_ids (o ∷ os) = text_of (get "detection_id" o.1) ∷ detection_ids os

-- What a run writes: the events under their name and then the manifest, or the manifest of a failure.
pub data Written : Type 0 where
  replay_file : List Event → Written
  replay_manifest : (run_id : Text) (output_count : ℕ) → Written
  replay_failure : ReplayError → Written

abbrev pub or_start : {A : Type 0} → Option A → Result ReplayError A
or_start none = raise bad_start
or_start (some a) = ok a

module _ (sha256 : Text → Text) (is_base_16 : Text → Bool)
    (schedule : Text → Option (ℕ → Text)) where
  -- The body of the `try`, up to the renaming of the file.
  unfoldable pub replay_events :
      Text → List Line → ReplayPlan → Text → Text → Result ReplayError (List Event)
  replay_events digest lines plan run_id version = do
    originals ← load_original_events digest lines plan
    scheduled_at ← or_start (schedule plan.scheduled_replay_start)
    events ←
        replay_iterations sha256 run_id version scheduled_at plan.source_record_count
          plan.scheduled_interval_milliseconds 1 plan.replay_factor originals
    raise_if (not (length events == plan.source_record_count * plan.replay_factor))
        wrong_output_count
    raise_if
        (not
          (length (distinct (event_ids events)) == plan.source_record_count * plan.replay_factor))
        ids_not_unique
    raise_if (not (length (distinct (detection_ids originals)) == plan.source_record_count))
        wrong_detection_count
    ok events

  -- A plan that is refused leaves no manifest: its identity is built before the `try`.
  unfoldable pub generate_replay :
      Text → List Line → ReplayPlan → Text → Result ReplayError (List Event) × List Written
  generate_replay digest lines plan version = elim (build_replay_run_id sha256 is_base_16 plan) [
    | raise e ↦ (raise (invalid_plan e), [])
    | ok run_id ↦ elim (replay_events digest lines plan run_id version) [
      | raise e ↦ (raise e, replay_failure e ∷ [])
      | ok events ↦ (ok events, replay_file events ∷ replay_manifest run_id (length events) ∷ [])
    ]
  ]
