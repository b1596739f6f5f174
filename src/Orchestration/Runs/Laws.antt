-- ===== src/Orchestration/Runs/Laws.antt =====
-- Repeated starts of a run, and what its end certifies.
use mathlib.Core.Path.{subst}
use nasa_earth_observation_e.Prelude.{
  String, Bool, true, false, none, some, List, [], ◌∷◌, ◌++◌, ◌≡◌, refl, sym, ap, ◌∙◌, Result, ok,
  raise, str_eq, any-append, arith, eq_iff, Bool-cases, Option-cases, Result-cases, inl, inr, All,
}
use nasa_earth_observation_e.Prelude.Assoc.{lookup, insert, lookup-insert}
use nasa_earth_observation_e.Orchestration.Params.{RunParameters}
use nasa_earth_observation_e.Orchestration.Manifest.{
  contract_version, dag_id, processing_stages, Material, Receipt, Manifest, Files, Context,
  StageError, RunStatus, has_succeeded,
}
use nasa_earth_observation_e.Orchestration.Execution.{is_member, load_context}
use nasa_earth_observation_e.Orchestration.Runs.{
  build_run_identity, manifest_path, params_eq, check_identity, with_rerun, new_manifest, reuse,
  initialize_as, initialize_run, all_succeeded, finalized, check_final, finalize_run,
}

params_eq_refl : (p : RunParameters) → params_eq p p ≡ true
unfolding params_eq
params_eq_refl p =
    ground
      (arith, eq_iff p.execution_profile p.execution_profile, eq_iff p.source_date p.source_date)

is_member_snoc : (x : String) (xs : List String) → is_member x (xs ++ x ∷ []) ≡ true
unfolding is_member
is_member_snoc x xs = rw (any-append (λ y. str_eq y x) xs (x ∷ [])) (ground (arith, eq_iff x x))

stored_at :
    (path : String) (m : Manifest) (files : Files) → lookup path (insert path m files) ≡ some m
stored_at path m files = ground (arith, lookup-insert path path m files, eq_iff path path)

-- The arguments that a run is started with, under its path and its identity.
module _ (path run_id airflow_run_id logical_date : String) (params : RunParameters)
    (revision : String) where
  -- What a start of the run leaves in the files, and a later start relies on.
  record IsStarted (m : Manifest) (files : Files) : Type 0 where
    stored : lookup path files ≡ some m
    identity : check_identity run_id logical_date params revision m ≡ ok tt
    noted : is_member airflow_run_id m.airflow_run_ids ≡ true

  abbrev start : String → Files → Result StageError (Manifest × Bool) × Files
  start = initialize_as path run_id airflow_run_id logical_date params revision

  start_again :
      (now : String) (m : Manifest) (files : Files)
      → IsStarted m files
      → start now files ≡ (ok (m, true), files)
  unfolding initialize_as reuse
  start_again now m files s = ground (arith, s.stored, s.identity, s.noted)

  new_manifest-identity :
      (now : String)
      → check_identity run_id logical_date params revision
          (new_manifest run_id airflow_run_id logical_date params revision now)
        ≡ ok tt
  unfolding check_identity
  new_manifest-identity now = ground (
    arith,
    params_eq_refl params,
    eq_iff contract_version contract_version,
    eq_iff dag_id dag_id,
    eq_iff run_id run_id,
    eq_iff logical_date logical_date,
    eq_iff revision revision,
  )

  with_rerun-identity :
      (now : String) (m : Manifest)
      → check_identity run_id logical_date params revision (with_rerun airflow_run_id now m)
        ≡ check_identity run_id logical_date params revision m
  unfolding check_identity
  with_rerun-identity now m = refl

  abbrev added : String → Manifest
  added now = new_manifest run_id airflow_run_id logical_date params revision now

  start_new :
      (now : String) (files : Files)
      → lookup path files ≡ none
      → start now files ≡ (ok (added now, false), insert path (added now) files)
  unfolding initialize_as
  start_new now files h = ground arith

  start_conflict :
      (now : String) (files : Files) (m : Manifest) (e : StageError)
      → lookup path files ≡ some m
      → check_identity run_id logical_date params revision m ≡ raise e
      → start now files ≡ (raise e, files)
  unfolding initialize_as
  start_conflict now files m e h k = ground arith

  start-reuse :
      (now : String) (files : Files) (m : Manifest)
      → lookup path files ≡ some m
      → check_identity run_id logical_date params revision m ≡ ok tt
      → start now files ≡ reuse path airflow_run_id now m files
  unfolding initialize_as
  start-reuse now files m h k = ground arith

  reuse-IsStarted :
      (now : String) (files : Files) (m m' : Manifest) (reused : Bool)
      → lookup path files ≡ some m
      → check_identity run_id logical_date params revision m ≡ ok tt
      → (reuse path airflow_run_id now m files).0 ≡ ok (m', reused)
      → IsStarted m' (reuse path airflow_run_id now m files).1
  unfolding reuse
  reuse-IsStarted now files m m' reused h k e =
      elim (Bool-cases (is_member airflow_run_id m.airflow_run_ids)) [
        | inl old ↦ record { stored = ground arith; identity = ground arith; noted = ground arith }
        | inr new ↦ record {
          stored = ground (arith, stored_at path (with_rerun airflow_run_id now m) files);
          identity = ground (arith, with_rerun-identity now m);
          noted = ground (arith, is_member_snoc airflow_run_id m.airflow_run_ids);
        }
      ]

  start-IsStarted :
      (now : String) (files : Files) (m : Manifest) (reused : Bool)
      → (start now files).0 ≡ ok (m, reused)
      → IsStarted m (start now files).1
  start-IsStarted now files m reused h = elim (Option-cases (lookup path files)) [
    | inl missing ↦
        let same = start_new now files missing in
        let is_new : added now ≡ m = cc (ap (λ r. r.0) same) in
        subst (λ r. IsStarted m r.1) (sym same)
          (subst (λ k. IsStarted k (insert path (added now) files)) is_new
            (record {
              stored = stored_at path (added now) files;
              identity = new_manifest-identity now;
              noted = unfold is_member in ground (arith, eq_iff airflow_run_id airflow_run_id);
            }))
    | inr (old, found) ↦
        elim (Result-cases (check_identity run_id logical_date params revision old)) [
          | inl (e, conflict) ↦ cc (ap (λ r. r.0) (start_conflict now files old e found conflict))
          | inr (u, same_identity) ↦
              let same = start-reuse now files old found same_identity in
              subst (λ r. IsStarted m r.1) (sym same)
                (reuse-IsStarted now files old m reused found same_identity
                  (ap (λ r. r.0) (sym same) ∙ h))
        ]
  ]

  start_twice :
      (now later : String) (files : Files) (m : Manifest) (reused : Bool)
      → (start now files).0 ≡ ok (m, reused)
      → start later (start now files).1 ≡ (ok (m, true), (start now files).1)
  start_twice now later files m reused h =
      start_again later m (start now files).1 (start-IsStarted now files m reused h)

initialize_valid :
    (sha256 : Material → String) (is_iso_date : String → Bool)
    (metadata_root airflow_run_id logical_date : String) (params : RunParameters)
    (revision run_id : String)
    → build_run_identity sha256 is_iso_date logical_date params ≡ ok run_id
    → (now : String) (files : Files)
    → initialize_run sha256 is_iso_date metadata_root airflow_run_id logical_date params revision
        now files
      ≡ initialize_as
          (manifest_path metadata_root run_id)
          run_id
          airflow_run_id
          logical_date
          params
          revision
          now
          files
unfolding initialize_run
initialize_valid sha256 is_iso_date root id date params revision run_id valid now files =
    rw (initialize_run, valid)

initialize_invalid :
    (sha256 : Material → String) (is_iso_date : String → Bool)
    (metadata_root airflow_run_id logical_date : String) (params : RunParameters)
    (revision now : String) (files : Files) (e : StageError)
    → build_run_identity sha256 is_iso_date logical_date params ≡ raise e
    → initialize_run sha256 is_iso_date metadata_root airflow_run_id logical_date params revision
        now files
      ≡ (raise e, files)
unfolding initialize_run
initialize_invalid sha256 is_iso_date root id date params revision now files e invalid =
    rw (initialize_run, invalid)

-- A start of a run that is made again, with the same arguments and at any time, returns the manifest
-- of the first start as a reused one and writes nothing.
pub initialize_run_twice :
    (sha256 : Material → String) (is_iso_date : String → Bool)
    (metadata_root airflow_run_id logical_date : String) (params : RunParameters)
    (revision now later : String) (files : Files) (m : Manifest) (reused : Bool)
    → (initialize_run sha256 is_iso_date metadata_root airflow_run_id logical_date params revision
        now files).0
      ≡ ok (m, reused)
    → initialize_run sha256 is_iso_date metadata_root airflow_run_id logical_date params revision
        later
        (initialize_run sha256 is_iso_date metadata_root airflow_run_id logical_date params revision
          now files).1
      ≡ (
        ok (m, true),
        (initialize_run sha256 is_iso_date metadata_root airflow_run_id logical_date params revision
            now files).1,
      )
initialize_run_twice sha256 is_iso_date root id date params revision now later files m reused h =
    elim (Result-cases (build_run_identity sha256 is_iso_date date params)) [
      | inl (e, invalid) ↦ cc (
          ap (λ r. r.0)
            (initialize_invalid sha256 is_iso_date root id date params revision now files e
              invalid))
      | inr (run_id, valid) ↦
          let same =
            initialize_valid sha256 is_iso_date root id date params revision run_id valid in
          rw (same now files, same later)
            (start_twice (manifest_path root run_id) run_id id date params revision now later files
              m reused (ap (λ r. r.0) (sym (same now files)) ∙ h))
    ]

all_succeeded_lem :
    (m : Manifest) (stages : List String)
    → all_succeeded m stages ≡ true
    → All (λ stage. has_succeeded (lookup stage m.stages) ≡ true) stages
unfolding all_succeeded
all_succeeded_lem m [] h = tt
all_succeeded_lem m (stage ∷ stages) h = (ground arith, all_succeeded_lem m stages (ground arith))

check_final_lem :
    (context : Context) (verification : Receipt) (files : Files) (m : Manifest)
    → check_final context verification files ≡ ok m
    → (m.orchestration_run_id ≡ context.orchestration_run_id)
      × (all_succeeded m processing_stages ≡ true)
unfolding check_final load_context
check_final_lem context verification files m h =
    ground (arith, eq_iff m.orchestration_run_id context.orchestration_run_id)

finalize_run_lem :
    (context : Context) (verification : Receipt) (now : String) (files : Files) (m : Manifest)
    → check_final context verification files ≡ ok m
    → finalize_run context verification now files
      ≡ (ok (finalized now m), insert context.manifest_path (finalized now m) files)
unfolding finalize_run
finalize_run_lem context verification now files m h = rw (finalize_run, h)

finalize_run_error :
    (context : Context) (verification : Receipt) (now : String) (files : Files) (e : StageError)
    → check_final context verification files ≡ raise e
    → finalize_run context verification now files ≡ (raise e, files)
unfolding finalize_run
finalize_run_error context verification now files e h = rw (finalize_run, h)

-- What the end of a run certifies of its manifest.
pub record IsComplete (context : Context) (files : Files) (m : Manifest) : Type 0 where
  pub stages : All (λ stage. has_succeeded (lookup stage m.stages) ≡ true) processing_stages
  pub status : m.status ≡ RunStatus.succeeded
  pub identity : m.orchestration_run_id ≡ context.orchestration_run_id
  pub reconciliation : m.reconciliation ≡ some m.parameters.gate_size
  pub stored : lookup context.manifest_path files ≡ some m

-- A run that `finalize_run` ends has a manifest of its identity in which every processing stage has
-- succeeded; that manifest, marked as succeeded, is what is returned and what is stored.
pub finalize_run-IsComplete :
    (context : Context) (verification : Receipt) (now : String) (files : Files) (m : Manifest)
    → (finalize_run context verification now files).0 ≡ ok m
    → IsComplete context (finalize_run context verification now files).1 m
finalize_run-IsComplete context verification now files m h =
    elim (Result-cases (check_final context verification files)) [
      | inl (e, refused) ↦
          cc (ap (λ r. r.0) (finalize_run_error context verification now files e refused))
      | inr (m', passed) ↦
          let same = finalize_run_lem context verification now files m' passed in
          let (identity, all) = check_final_lem context verification files m' passed in
          let ended = finalized now m' in
          let is_result : ended ≡ m = cc (ap (λ r. r.0) same) in
          subst (λ k. IsComplete context (finalize_run context verification now files).1 k)
            is_result
            record {
              stages = all_succeeded_lem m' processing_stages all;
              status = refl;
              identity = identity;
              reconciliation = refl;
              stored =
                  ap (λ r. lookup context.manifest_path r.1) same
                  ∙ stored_at context.manifest_path ended files;
            }
    ]
