-- ===== src/Orchestration/Manifest.antt =====
-- The data of src/eo_event_platform/orchestration/runtime.py: the manifest of a run, the receipts of
-- its stages, and the errors.
use nasa_earth_observation_e.Prelude.{
  ℕ, String, Bool, true, false, Option, none, some, List, [], ◌∷◌,
}
use nasa_earth_observation_e.Orchestration.Params.{RunParameters, ParamError}

abbrev pub contract_version : String
contract_version = "phase7-airflow-v1"

abbrev pub dag_id : String
dag_id = "nasa_eo_batch_vertical_slice_v1"

abbrev pub processing_stages : List String
processing_stages =
    "nasa_extraction" ∷ "canonical_transformation" ∷ "controlled_replay" ∷ "spark_processing"
    ∷ "gold_generation" ∷ "postgres_load" ∷ "verification" ∷ []

-- What a stage hands on. The output of a local stage is what its command printed.
pub data Output : Type 0 where
  integration_output :
      (stage : String) (record_count : ℕ) (upstream_checksum : String) (artifact_checksum : String)
      → Output
  local_output :
      (stage : String) (upstream_checksum : String) (command_fingerprint : String)
      (output : List (String × String))
      → Output

-- The values that `_sha256` is applied to.
pub data Material : Type 0 where
  run_material :
      (contract : String) (dag : String) (logical_date : String) → RunParameters → Material
  artifact_material :
      (run_id : String) (stage : String) (record_count : ℕ) (upstream_checksum : String) → Material
  command_material : List String → Material
  output_material : Output → Material

pub data Outcome : Type 0 where
  succeeded : (output_checksum : String) → Output → Outcome
  failed : (error_type : String) (error : String) → Outcome

pub record Receipt : Type 0 where
  pub stage : String
  pub attempt : ℕ
  pub started_at : String
  pub completed_at : String
  pub duration : ℕ
  pub upstream_checksum : String
  pub outcome : Outcome

pub data RunStatus : Type 0 where
  running failed succeeded : RunStatus

pub record Rerun : Type 0 where
  pub airflow_run_id : String
  pub recorded_at : String

pub record Manifest : Type 0 where
  pub contract : String
  pub orchestration_run_id : String
  pub dag : String
  pub logical_date : String
  pub parameters : RunParameters
  pub pipeline_revision : String
  pub airflow_run_ids : List String
  pub rerun_events : List Rerun
  pub created_at : String
  pub updated_at : String
  pub completed_at : Option String
  pub status : RunStatus
  pub stages : List (String × Receipt)
  -- `reconciliation`, by its record count.
  pub reconciliation : Option ℕ

abbrev pub Files : Type 0
Files = List (String × Manifest)

pub record Context : Type 0 where
  pub manifest_path : String
  pub orchestration_run_id : String
  pub parameters : RunParameters

pub data StageError : Type 0 where
  invalid_parameters : ParamError → StageError
  identity_conflict : (key : String) → StageError
  unknown_stage no_manifest identity_mismatch upstream_not_successful : StageError
  successful_stage_conflict stage_failed : StageError
  verification_not_successful not_all_succeeded : StageError

-- The clock in one call.
pub record Times : Type 0 where
  pub started_at : String
  pub completed_at : String
  pub duration : ℕ
  pub updated_at : String

abbrev pub has_succeeded : Option Receipt → Bool
has_succeeded none = false
has_succeeded (some r) = elim r.outcome [
  | succeeded checksum output ↦ true
  | failed kind text ↦ false
]
