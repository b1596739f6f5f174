-- ===== src/Replay/Plan.antt =====
-- Replay plans and identities: src/eo_event_platform/replay/identity.py. A negative count is refused
-- as 0 is, so the numbers of a plan are natural numbers; Python's `int` of a text in base 16 and
-- SHA-256 are parameters.
use nasa_earth_observation_e.Prelude.{
  ℕ, Bool, not, [], ◌∷◌, ◌++◌, length, Result, ok, ◌>>◌, raise_if, leb, ◌==◌,
}
use nasa_earth_observation_e.Text.{Text, codes, is_empty, starts_with}
use nasa_earth_observation_e.Json.{Flat, text, number, dumps}

abbrev pub identity_algorithm : Text
identity_algorithm = codes "nasa-replay-v1"

abbrev pub ordering_algorithm : Text
ordering_algorithm = codes "replay-iteration-then-event-id-v1"

pub record ReplayPlan : Type 0 where
  pub source_input_sha256 : Text
  pub source_record_count : ℕ
  pub replay_factor : ℕ
  pub scheduled_replay_start : Text
  pub scheduled_interval_milliseconds : ℕ

pub data PlanError : Type 0 where
  not_a_digest not_hexadecimal no_records no_factor no_interval : PlanError

pub data IdentityFault : Type 0 where
  foreign_run no_parent no_iteration : IdentityFault

-- `ReplayPlan.validate`
unfoldable pub validate_plan : (Text → Bool) → ReplayPlan → Result PlanError (Unit {0})
validate_plan is_base_16 plan = do
  raise_if (not (length plan.source_input_sha256 == 64)) not_a_digest
  raise_if (not (is_base_16 plan.source_input_sha256)) not_hexadecimal
  raise_if (leb plan.source_record_count 0) no_records
  raise_if (leb plan.replay_factor 0) no_factor
  raise_if (leb plan.scheduled_interval_milliseconds 0) no_interval
  ok tt

-- `asdict` of a plan.
abbrev pub plan_dict : ReplayPlan → Flat
plan_dict plan =
    ("source_input_sha256", text plan.source_input_sha256)
    ∷ ("source_record_count", number plan.source_record_count)
    ∷ ("replay_factor", number plan.replay_factor)
    ∷ ("scheduled_replay_start", text plan.scheduled_replay_start)
    ∷ ("scheduled_interval_milliseconds", number plan.scheduled_interval_milliseconds)
    ∷ ("identity_algorithm", text identity_algorithm)
    ∷ ("ordering_algorithm", text ordering_algorithm)
    ∷ []

abbrev pub identity_prefix : Text
identity_prefix = identity_algorithm ++ codes ":sha256:"

unfoldable pub build_replay_run_id :
    (Text → Text) → (Text → Bool) → ReplayPlan → Result PlanError Text
build_replay_run_id sha256 is_base_16 plan = do
  validate_plan is_base_16 plan
  ok (identity_prefix ++ sha256 (dumps (plan_dict plan)))

abbrev pub event_material : Text → Text → ℕ → Flat
event_material run_id parent_event_id iteration =
    ("identity_algorithm", text identity_algorithm)
    ∷ ("parent_event_id", text parent_event_id)
    ∷ ("replay_iteration", number iteration)
    ∷ ("replay_run_id", text run_id)
    ∷ []

unfoldable pub build_replay_event_id : (Text → Text) → Text → Text → ℕ → Result IdentityFault Text
build_replay_event_id sha256 run_id parent_event_id iteration = do
  raise_if (not (starts_with identity_prefix run_id)) foreign_run
  raise_if (is_empty parent_event_id) no_parent
  raise_if (leb iteration 0) no_iteration
  ok (identity_prefix ++ sha256 (dumps (event_material run_id parent_event_id iteration)))
