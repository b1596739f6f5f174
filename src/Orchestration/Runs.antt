-- ===== src/Orchestration/Runs.antt =====
-- The start and the end of a run: `initialize_run` and `finalize_run` of
-- src/eo_event_platform/orchestration/runtime.py.
pub mod Laws
use Prim.Native.String
use nasa_earth_observation_e.Prelude.{
  ℕ, String, Bool, true, false, ◌&&◌, ◌||◌, not, Option, none, some, List, [], ◌∷◌, ◌++◌,
  if◌then◌else◌, Result, ok, raise, ◌>>=◌, ◌>>◌, raise_if, str_eq, any, ◌==◌,
}
use nasa_earth_observation_e.Prelude.Assoc.{lookup, insert}
use nasa_earth_observation_e.Orchestration.Params.{RunParameters, ParamError, validate}
use nasa_earth_observation_e.Orchestration.Manifest.{
  contract_version, dag_id, processing_stages, Material, run_material, Receipt, Rerun, Manifest,
  Files, Context, StageError, RunStatus, running, invalid_parameters, identity_conflict,
  verification_not_successful, not_all_succeeded, has_succeeded,
}
use nasa_earth_observation_e.Orchestration.Execution.{is_member, load_context}

-- `build_run_identity`
unfoldable pub build_run_identity :
    (Material → String) → (String → Bool) → String → RunParameters → Result StageError String
build_run_identity sha256 is_iso_date logical_date params = elim (validate is_iso_date params) [
  | raise e ↦ raise (invalid_parameters e)
  | ok u ↦ ok (sha256 (run_material contract_version dag_id logical_date params))
]

-- `_manifest_path`
unfoldable pub manifest_path : String → String → String
manifest_path metadata_root run_id =
    String.◌++◌ metadata_root
      (String.◌++◌ "/orchestration_run_id=" (String.◌++◌ run_id "/manifest.json"))

-- Equality of the parameters, as of the dictionaries that `asdict` makes of them.
unfoldable pub params_eq : RunParameters → RunParameters → Bool
params_eq p q =
    p.gate_size == q.gate_size
    && p.source_detection_count == q.source_detection_count
    && p.replay_factor == q.replay_factor
    && str_eq p.execution_profile q.execution_profile
    && str_eq p.source_date q.source_date

-- The loop over the identity's keys.
unfoldable pub check_identity :
    String → String → RunParameters → String → Manifest → Result StageError (Unit {0})
check_identity run_id logical_date params revision m = do
  raise_if (not (str_eq m.contract contract_version)) (identity_conflict "contract_version")
  raise_if (not (str_eq m.orchestration_run_id run_id)) (identity_conflict "orchestration_run_id")
  raise_if (not (str_eq m.dag dag_id)) (identity_conflict "dag_id")
  raise_if (not (str_eq m.logical_date logical_date)) (identity_conflict "logical_date")
  raise_if (not (params_eq m.parameters params)) (identity_conflict "parameters")
  raise_if (not (str_eq m.pipeline_revision revision)) (identity_conflict "pipeline_revision")
  ok tt

-- The manifest of an existing run, with another run of the DAG noted.
abbrev pub with_rerun : String → String → Manifest → Manifest
with_rerun airflow_run_id now m = record m {
  airflow_run_ids = m.airflow_run_ids ++ airflow_run_id ∷ [];
  rerun_events =
      m.rerun_events ++ record { airflow_run_id = airflow_run_id; recorded_at = now } ∷ [];
  updated_at = now;
}

abbrev pub new_manifest : String → String → String → RunParameters → String → String → Manifest
new_manifest run_id airflow_run_id logical_date params revision now = record {
  contract = contract_version;
  orchestration_run_id = run_id;
  dag = dag_id;
  logical_date = logical_date;
  parameters = params;
  pipeline_revision = revision;
  airflow_run_ids = airflow_run_id ∷ [];
  rerun_events = [];
  created_at = now;
  updated_at = now;
  completed_at = none;
  status = running;
  stages = [];
  reconciliation = none;
}

-- The existing manifest is reused.
unfoldable pub reuse :
    String → String → String → Manifest → Files → Result StageError (Manifest × Bool) × Files
reuse path airflow_run_id now m files =
    if is_member airflow_run_id m.airflow_run_ids then (ok (m, true), files) else (
      ok (with_rerun airflow_run_id now m, true),
      insert path (with_rerun airflow_run_id now m) files,
    )

-- `initialize_run` for a run identity: the manifest, whether it is reused, and the files.
unfoldable pub initialize_as :
    String
    → String
    → String
    → String
    → RunParameters
    → String
    → String
    → Files
    → Result StageError (Manifest × Bool) × Files
initialize_as path run_id airflow_run_id logical_date params revision now files =
    elim (lookup path files) [
      | none ↦
          let m = new_manifest run_id airflow_run_id logical_date params revision now in
          (ok (m, false), insert path m files)
      | some m ↦ elim (check_identity run_id logical_date params revision m) [
        | raise e ↦ (raise e, files)
        | ok u ↦ reuse path airflow_run_id now m files
      ]
    ]

unfoldable pub initialize_run :
    (Material → String)
    → (String → Bool)
    → String
    → String
    → String
    → RunParameters
    → String
    → String
    → Files
    → Result StageError (Manifest × Bool) × Files
initialize_run sha256 is_iso_date metadata_root airflow_run_id logical_date params revision now
      files =
    elim (build_run_identity sha256 is_iso_date logical_date params) [
      | raise e ↦ (raise e, files)
      | ok run_id ↦
          initialize_as (manifest_path metadata_root run_id) run_id airflow_run_id logical_date
            params revision now files
    ]

unfoldable pub all_succeeded : Manifest → List String → Bool
all_succeeded m [] = true
all_succeeded m (stage ∷ stages) = has_succeeded (lookup stage m.stages) && all_succeeded m stages

abbrev pub finalized : String → Manifest → Manifest
finalized now m = record m {
  status = RunStatus.succeeded;
  completed_at = some now;
  updated_at = now;
  reconciliation = some m.parameters.gate_size;
}

-- The checks of `finalize_run`.
unfoldable pub check_final : Context → Receipt → Files → Result StageError Manifest
check_final context verification files = do
  m ← load_context context files
  raise_if
      (not (str_eq verification.stage "verification") || not (has_succeeded (some verification)))
      verification_not_successful
  raise_if (not (all_succeeded m processing_stages)) not_all_succeeded
  ok m

unfoldable pub finalize_run :
    Context → Receipt → String → Files → Result StageError Manifest × Files
finalize_run context verification now files = elim (check_final context verification files) [
  | raise e ↦ (raise e, files)
  | ok m ↦ (ok (finalized now m), insert context.manifest_path (finalized now m) files)
]
