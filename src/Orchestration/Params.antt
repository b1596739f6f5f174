-- ===== src/Orchestration/Params.antt =====
-- `RunParameters` of src/eo_event_platform/orchestration/runtime.py. Its numbers are natural: a
-- negative one fails the test that 0 fails. Whether a text is an ISO date is Python's
-- `date.fromisoformat`, and is a parameter.
use nasa_earth_observation_e.Prelude.{
  ℕ, ◌*◌, ◌≤◌, String, Bool, true, ◌&&◌, ◌||◌, not, leb, ltb, ◌==◌, ◌≡◌, ◌↔◌, ◌⊎◌, Result, ok, ◌>>◌,
  raise_if, str_eq, eq_iff, arith,
}

abbrev pub local : String
local = "local"

abbrev pub integration : String
integration = "integration"

abbrev pub max_gate_size : ℕ
max_gate_size = 1000000

abbrev pub max_integration_gate_size : ℕ
max_integration_gate_size = 100

pub record RunParameters : Type 0 where
  pub gate_size : ℕ
  pub source_detection_count : ℕ
  pub replay_factor : ℕ
  pub execution_profile : String
  pub source_date : String

pub data ParamError : Type 0 where
  bad_gate_size bad_detection_count bad_replay_factor not_reconciled : ParamError
  bad_profile integration_too_large bad_date : ParamError

unfoldable pub validate : (String → Bool) → RunParameters → Result ParamError (Unit {0})
validate is_iso_date p = do
  raise_if (not (leb 1 p.gate_size && leb p.gate_size max_gate_size)) bad_gate_size
  raise_if (not (leb 1 p.source_detection_count && leb p.source_detection_count 10000))
      bad_detection_count
  raise_if (not (leb 1 p.replay_factor && leb p.replay_factor 100)) bad_replay_factor
  raise_if (not (p.source_detection_count * p.replay_factor == p.gate_size)) not_reconciled
  raise_if (not (str_eq p.execution_profile local || str_eq p.execution_profile integration))
      bad_profile
  raise_if (str_eq p.execution_profile integration && ltb max_integration_gate_size p.gate_size)
      integration_too_large
  raise_if (not (is_iso_date p.source_date)) bad_date
  ok tt

-- The contract of a run.
pub record IsValidRun (is_iso_date : String → Bool) (p : RunParameters) : Type 0 where
  pub gate : (1 ≤ p.gate_size) × (p.gate_size ≤ max_gate_size)
  pub detections : (1 ≤ p.source_detection_count) × (p.source_detection_count ≤ 10000)
  pub factor : (1 ≤ p.replay_factor) × (p.replay_factor ≤ 100)
  pub reconciled : p.source_detection_count * p.replay_factor ≡ p.gate_size
  pub profile : (p.execution_profile ≡ local) ⊎ (p.execution_profile ≡ integration)
  pub integration_bound :
      p.execution_profile ≡ integration → p.gate_size ≤ max_integration_gate_size
  pub date : is_iso_date p.source_date ≡ true

-- The validation returns exactly for the parameters that meet the contract of a run.
pub validate-IsValidRun :
    (is_iso_date : String → Bool) (p : RunParameters)
    → (validate is_iso_date p ≡ ok tt) ↔ IsValidRun is_iso_date p
unfolding validate
validate-IsValidRun is_iso_date p = (
  λ h. ground (arith, eq_iff p.execution_profile local, eq_iff p.execution_profile integration),
  λ v. ground (
    arith,
    v.integration_bound,
    eq_iff p.execution_profile local,
    eq_iff p.execution_profile integration,
  ),
)
