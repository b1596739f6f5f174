-- ===== src/Orchestration/Tests.antt =====
-- A run of the orchestration, and its theorems at concrete inputs.
use nasa_earth_observation_e.Prelude.{
  String, ◌≡◌, refl, ◌↔◌, Bool, true, false, Option, none, some, List, [], ◌∷◌, arith, Result, ok,
  eq_iff,
}
use nasa_earth_observation_e.Prelude.Assoc.{lookup, insert}
use nasa_earth_observation_e.Orchestration.Params.{
  RunParameters, validate, IsValidRun, validate-IsValidRun,
}
use nasa_earth_observation_e.Orchestration.Manifest.{
  Material, Receipt, Manifest, Files, Context, StageError, Times, processing_stages,
}
use nasa_earth_observation_e.Orchestration.Execution.{
  LocalRun, command_failed, prior_in, is_member, load_context, check_prior, admit_stage,
  integration_output_of, produce, record_receipt, attempt_stage, resume_stage, execute_stage,
}
use nasa_earth_observation_e.Orchestration.Stages.{
  AllOrdered, Succeeded, execute_stage-AllOrdered, execute_stage_keeps, IsNext, IsReturned,
  execute_stage_retry,
}
use nasa_earth_observation_e.Orchestration.Runs.{
  build_run_identity, manifest_path, params_eq, check_identity, new_manifest, reuse, initialize_as,
  initialize_run, all_succeeded, check_final, finalize_run, finalized,
}
use nasa_earth_observation_e.Orchestration.Runs.Laws.{
  initialize_run_twice, IsComplete, finalize_run-IsComplete,
}

runtime : Unit {0}
unfolding validate is_member load_context check_prior admit_stage integration_output_of produce
    record_receipt prior_in attempt_stage resume_stage execute_stage build_run_identity
    manifest_path params_eq check_identity reuse initialize_as initialize_run all_succeeded
    check_final finalize_run lookup insert
runtime = tt

abbrev hash : Material → String
hash m = "0f"

abbrev any_date : String → Bool
any_date s = true

abbrev params : RunParameters
params = record {
  gate_size = 4;
  source_detection_count = 4;
  replay_factor = 1;
  execution_profile = "integration";
  source_date = "2026-08-01";
}

validate-IsValidRun_example : (validate any_date params ≡ ok tt) ↔ IsValidRun any_date params
validate-IsValidRun_example = validate-IsValidRun any_date params

abbrev started : Result StageError (Manifest × Bool) × Files
started = initialize_run hash any_date "meta" "manual__1" "2026-08-01" params "rev" "t0" []

abbrev manifest : Manifest
manifest = new_manifest "0f" "manual__1" "2026-08-01" params "rev" "t0"

started_lem : started.0 ≡ ok (manifest, false)
unfolding runtime
started_lem = refl

initialize_run_twice_example :
    initialize_run hash any_date "meta" "manual__1" "2026-08-01" params "rev" "t9" started.1
    ≡ (ok (manifest, true), started.1)
initialize_run_twice_example =
    initialize_run_twice hash any_date "meta" "manual__1" "2026-08-01" params "rev" "t0" "t9" []
      manifest false started_lem

abbrev path : String
path = "meta/orchestration_run_id=0f/manifest.json"

abbrev context : Context
context = record { manifest_path = path; orchestration_run_id = "0f"; parameters = params }

abbrev times : Times
times = record { started_at = "t1"; completed_at = "t2"; duration = 1; updated_at = "t2" }

abbrev command : LocalRun
command = command_failed "RuntimeError" "none"

abbrev stored : Files
stored = (path, manifest) ∷ []

-- One stage after the other, each with the checksum of the one before.
abbrev run_all : List String → Option String → Files → Files
run_all [] upstream files = files
run_all (stage ∷ stages) upstream files =
    run_all stages (some "0f")
      (execute_stage hash context stage upstream false command times files).1

stored-AllOrdered : AllOrdered stored
stored-AllOrdered p m found stage prior before success =
    absurd (unfold runtime in ground (arith, eq_iff path p))

execute_stage-AllOrdered_example :
    AllOrdered (execute_stage hash context "nasa_extraction" none false command times stored).1
execute_stage-AllOrdered_example =
    execute_stage-AllOrdered hash context "nasa_extraction" none false command times stored
      stored-AllOrdered

abbrev receipt : Receipt
receipt = record {
  stage = "nasa_extraction";
  attempt = 1;
  started_at = "t1";
  completed_at = "t2";
  duration = 1;
  upstream_checksum = "ROOT";
  outcome = produce hash context "nasa_extraction" "ROOT" false command;
}

abbrev extracted : Manifest
extracted = record manifest { stages = ("nasa_extraction", receipt) ∷ []; updated_at = "t2" }

abbrev extracted_files : Files
extracted_files = (path, extracted) ∷ []

extraction :
    execute_stage hash context "nasa_extraction" none false command times stored
    ≡ (ok (receipt, false), extracted_files)
unfolding runtime
extraction = refl

extracted-Succeeded : Succeeded "nasa_extraction" extracted
unfolding runtime
extracted-Succeeded = refl

found_extracted : lookup path extracted_files ≡ some extracted
unfolding runtime
found_extracted = refl

execute_stage_keeps_example :
    (m' : Manifest) × (lookup path
        (execute_stage hash context "canonical_transformation"
          (some "0f")
          true
          command
          times
          extracted_files).1
      ≡ some m')
    × (lookup "nasa_extraction" m'.stages ≡ lookup "nasa_extraction" extracted.stages)
execute_stage_keeps_example =
    execute_stage_keeps hash context "canonical_transformation" (some "0f") true command times
      extracted_files path "nasa_extraction" extracted found_extracted extracted-Succeeded

admitted_again : admit_stage context "nasa_extraction" extracted_files ≡ ok extracted
unfolding runtime
admitted_again = refl

found_receipt : lookup "nasa_extraction" extracted.stages ≡ some receipt
unfolding runtime
found_receipt = refl

admitted_first : admit_stage context "nasa_extraction" stored ≡ ok manifest
unfolding runtime
admitted_first = refl

execute_stage_retry_example :
    (m' : Manifest) × (r : Receipt) × (lookup path
        (execute_stage hash context "nasa_extraction" none true command times stored).1
      ≡ some m')
    × (lookup "nasa_extraction" m'.stages ≡ some r)
    × IsNext (lookup "nasa_extraction" manifest.stages) r.attempt
    × IsReturned r m'.status
        (execute_stage hash context "nasa_extraction" none true command times stored).0
execute_stage_retry_example =
    execute_stage_retry hash context "nasa_extraction" none true command times stored manifest
      admitted_first (unfold runtime in refl)

abbrev verification : Receipt
verification = record receipt { stage = "verification"; upstream_checksum = "0f" }

-- A receipt of every stage, each under the checksum of the one before.
abbrev receipts : List String → String → List (String × Receipt)
receipts [] upstream = []
receipts (stage ∷ stages) upstream =
    (
      stage,
      record receipt {
        stage = stage;
        upstream_checksum = upstream;
        outcome = produce hash context stage upstream false command;
      },
    )
    ∷ receipts stages "0f"

abbrev processed : Manifest
processed = record manifest { stages = receipts processing_stages "ROOT"; updated_at = "t2" }

processed_lem : run_all processing_stages none stored ≡ (path, processed) ∷ []
unfolding runtime
processed_lem = refl

ended_lem :
    (finalize_run context verification "t3" ((path, processed) ∷ [])).0
    ≡ ok (finalized "t3" processed)
unfolding runtime
ended_lem = refl

finalize_run-IsComplete_example :
    IsComplete context
      (finalize_run context verification "t3" ((path, processed) ∷ [])).1
      (finalized "t3" processed)
finalize_run-IsComplete_example =
    finalize_run-IsComplete context verification "t3" ((path, processed) ∷ [])
      (finalized "t3" processed) ended_lem
