-- ===== src/Orchestration/Execution.antt =====
-- `execute_stage` of src/eo_event_platform/orchestration/runtime.py and what it calls.
use nasa_earth_observation_e.Prelude.{
  ℕ, ◌+◌, String, Bool, true, false, not, Option, none, some, List, [], ◌∷◌, if◌then◌else◌, Result,
  ok, raise, ◌>>=◌, ◌>>◌, raise_if, str_eq, any,
}
use nasa_earth_observation_e.Prelude.Assoc.{lookup, insert}
use nasa_earth_observation_e.Orchestration.Params.{integration}
use nasa_earth_observation_e.Orchestration.Manifest.{
  processing_stages, Output, integration_output, local_output, Material, artifact_material,
  command_material, output_material, Outcome, succeeded, failed, Receipt, Manifest, Files, Context,
  StageError, Times, RunStatus, running, unknown_stage, no_manifest, identity_mismatch,
  upstream_not_successful, successful_stage_conflict, stage_failed, has_succeeded,
}

-- The stage before a stage, in a list of stages: `PROCESSING_STAGES[position - 1]`.
unfoldable pub prior_in : List String → String → Option String
prior_in [] stage = none
prior_in (a ∷ []) stage = none
prior_in (a ∷ b ∷ rest) stage = if str_eq b stage then some a else prior_in (b ∷ rest) stage

unfoldable pub is_member : String → List String → Bool
is_member x xs = any (λ y. str_eq y x) xs

-- `_load_context`
unfoldable pub load_context : Context → Files → Result StageError Manifest
load_context context files = elim (lookup context.manifest_path files) [
  | none ↦ raise no_manifest
  | some manifest ↦
      if str_eq manifest.orchestration_run_id context.orchestration_run_id
      then ok manifest
      else raise identity_mismatch
]

-- A raise of the first stage that is not in order.
unfoldable pub check_prior : Manifest → Option String → Result StageError (Unit {0})
check_prior manifest none = ok tt
check_prior manifest (some prior) =
    raise_if (not (has_succeeded (lookup prior manifest.stages))) upstream_not_successful

abbrev pub upstream_checksum : Option String → String
upstream_checksum none = "ROOT"
upstream_checksum (some checksum) = checksum

abbrev pub next_attempt : Option Receipt → ℕ
next_attempt none = 1
next_attempt (some r) = r.attempt + 1

abbrev pub status_after : Outcome → RunStatus
status_after (succeeded checksum output) = running
status_after (failed kind text) = RunStatus.failed

-- The checks before a stage may run.
unfoldable pub admit_stage : Context → String → Files → Result StageError Manifest
admit_stage context stage files = do
  raise_if (not (is_member stage processing_stages)) unknown_stage
  manifest ← load_context context files
  check_prior manifest (prior_in processing_stages stage)
  ok manifest

-- What the command of a local stage gives: an exception (no command configured, not a list of texts,
-- a failed process), or the command and what it printed.
pub data LocalRun : Type 0 where
  command_failed : (error_type : String) (error : String) → LocalRun
  command_printed : (command : List String) (output : List (String × String)) → LocalRun

-- `_sha256`, which hashes the canonical JSON of a value.
module _ (sha256 : Material → String) where
  -- `_integration_output`
  unfoldable pub integration_output_of : String → Context → String → Output
  integration_output_of stage context upstream =
      let count = context.parameters.gate_size in
      integration_output stage count upstream
        (sha256 (artifact_material context.orchestration_run_id stage count upstream))

  -- The body of the `try` in `execute_stage`.
  unfoldable pub produce : Context → String → String → Bool → LocalRun → Outcome
  produce context stage upstream true command = failed "RuntimeError" "controlled Phase 7 failure"
  produce context stage upstream false command =
      if str_eq context.parameters.execution_profile integration
      then (let output = integration_output_of stage context upstream in
          succeeded (sha256 (output_material output)) output)
      else elim command [
        | command_failed kind text ↦ failed kind text
        | command_printed words printed ↦
            let output = local_output stage upstream (sha256 (command_material words)) printed in
            succeeded (sha256 (output_material output)) output
      ]

  -- The new receipt, written to the manifest, and the manifest to its file.
  unfoldable pub record_receipt : Context → Manifest → Times → Receipt → Files → Files
  record_receipt context manifest times receipt files =
      insert context.manifest_path
        (record manifest {
          stages = insert receipt.stage receipt manifest.stages;
          status = status_after receipt.outcome;
          updated_at = times.updated_at;
        })
        files

  abbrev pub new_receipt :
      Context → String → Option String → Bool → LocalRun → Times → Option Receipt → Receipt
  new_receipt context stage upstream fail_for_test command times existing =
      let checksum = upstream_checksum upstream in
      record {
        stage = stage;
        attempt = next_attempt existing;
        started_at = times.started_at;
        completed_at = times.completed_at;
        duration = times.duration;
        upstream_checksum = checksum;
        outcome = produce context stage checksum fail_for_test command;
      }

  -- A stage is executed: what is returned, the receipt and whether it is an earlier one, and the
  -- files. A failed stage raises after its receipt is written.
  unfoldable pub attempt_stage :
      Context → Manifest → Receipt → Times → Files → Result StageError (Receipt × Bool) × Files
  attempt_stage context manifest receipt times files =
      let files' = record_receipt context manifest times receipt files in
      elim receipt.outcome [
        | succeeded checksum output ↦ (ok (receipt, false), files')
        | failed kind text ↦ (raise stage_failed, files')
      ]

  -- `execute_stage` from its test for an earlier success on.
  unfoldable pub resume_stage :
      Context
      → String
      → Option String
      → Bool
      → LocalRun
      → Times
      → Manifest
      → Files
      → Result StageError (Receipt × Bool) × Files
  resume_stage context stage upstream fail_for_test command times manifest files =
      let existing = lookup stage manifest.stages in
      let fresh =
        attempt_stage context manifest
          (new_receipt context stage upstream fail_for_test command times existing) times files in
      elim existing [
        | none ↦ fresh
        | some r ↦
            if has_succeeded (some r)
            then (if str_eq r.upstream_checksum (upstream_checksum upstream)
                then (ok (r, true), files)
                else (raise successful_stage_conflict, files))
            else fresh
      ]

  -- `upstream` is the `output_checksum` of the mapping that the task before handed over.
  unfoldable pub execute_stage :
      Context
      → String
      → Option String
      → Bool
      → LocalRun
      → Times
      → Files
      → Result StageError (Receipt × Bool) × Files
  execute_stage context stage upstream fail_for_test command times files =
      elim (admit_stage context stage files) [
        | raise e ↦ (raise e, files)
        | ok manifest ↦
            resume_stage context stage upstream fail_for_test command times manifest files
      ]
