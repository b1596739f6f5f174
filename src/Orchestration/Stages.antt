-- ===== src/Orchestration/Stages.antt =====
-- The order and the permanence of stages under `execute_stage` of
-- src/eo_event_platform/orchestration/runtime.py.
use nasa_earth_observation_e.Prelude.{
  ℕ, suc, String, Bool, true, false, Option, none, some, List, ◌≡◌, refl, sym, ap, ◌∙◌, ◌⊎◌, inl,
  inr, Result, ok, raise, str_eq, eq_iff, arith, Bool-cases, Result-cases,
}
use mathlib.Core.Path.{subst}
use mathlib.Core.Option.{some-injective}
use nasa_earth_observation_e.Prelude.Assoc.{lookup, insert, lookup-insert}
use nasa_earth_observation_e.Orchestration.Manifest.{
  processing_stages, Material, Receipt, Manifest, Files, Context, StageError, Times, Outcome,
  Output, RunStatus, running, succeeded, failed, stage_failed, has_succeeded,
}
use nasa_earth_observation_e.Orchestration.Execution.{
  LocalRun, prior_in, is_member, load_context, check_prior, admit_stage, status_after,
  record_receipt, new_receipt, attempt_stage, resume_stage, execute_stage, next_attempt,
}

-- A stage of the manifest that has succeeded.
abbrev pub Succeeded : String → Manifest → Type 0
Succeeded stage m = has_succeeded (lookup stage m.stages) ≡ true

-- Every stage that has succeeded stands behind one that has.
abbrev pub IsOrdered : Manifest → Type 0
IsOrdered m =
    (stage prior : String)
    → prior_in processing_stages stage ≡ some prior
    → Succeeded stage m
    → Succeeded prior m

abbrev pub AllOrdered : Files → Type 0
AllOrdered files = (path : String) (m : Manifest) → lookup path files ≡ some m → IsOrdered m

check_prior_lem :
    (m : Manifest) (prior : Option String) (p : String)
    → check_prior m prior ≡ ok tt
    → prior ≡ some p
    → Succeeded p m
unfolding check_prior
check_prior_lem m none p h e = cc
check_prior_lem m (some q) p h e = ground arith

-- What the checks before a stage establish.
admit_stage_lem :
    (context : Context) (stage : String) (files : Files) (m : Manifest)
    → admit_stage context stage files ≡ ok m
    → (is_member stage processing_stages ≡ true)
      × (lookup context.manifest_path files ≡ some m)
      × (m.orchestration_run_id ≡ context.orchestration_run_id)
      × (check_prior m (prior_in processing_stages stage) ≡ ok tt)
unfolding admit_stage load_context
admit_stage_lem context stage files m h =
    ground (arith, eq_iff m.orchestration_run_id context.orchestration_run_id)

-- The manifest with the receipt of a stage written down.
abbrev pub with_receipt : Manifest → Times → Receipt → Manifest
with_receipt m times r = record m {
  stages = insert r.stage r m.stages;
  status = status_after r.outcome;
  updated_at = times.updated_at;
}

with_receipt-IsOrdered :
    (m : Manifest) (times : Times) (r : Receipt)
    → IsOrdered m
    → has_succeeded (lookup r.stage m.stages) ≡ false
    → ((p : String) → prior_in processing_stages r.stage ≡ some p → Succeeded p m)
    → IsOrdered (with_receipt m times r)
with_receipt-IsOrdered m times r ordered pending ready stage prior before h = ground (
  arith,
  lookup-insert r.stage stage r m.stages,
  lookup-insert r.stage prior r m.stages,
  eq_iff r.stage stage,
  eq_iff r.stage prior,
  ready prior,
  ordered stage prior before,
)

with_receipt_keeps :
    (m : Manifest) (times : Times) (r : Receipt) (stage : String)
    → has_succeeded (lookup r.stage m.stages) ≡ false
    → Succeeded stage m
    → lookup stage (with_receipt m times r).stages ≡ lookup stage m.stages
with_receipt_keeps m times r stage pending h =
    ground (arith, lookup-insert r.stage stage r m.stages, eq_iff r.stage stage)

lookup_written :
    (path written : String) (new m : Manifest) (files : Files)
    → lookup path (insert written new files) ≡ some m
    → ((written ≡ path) × (new ≡ m)) ⊎ (lookup path files ≡ some m)
lookup_written path written new m files h =
    ground (arith, lookup-insert written path new files, eq_iff written path)

lookup_inserted {ℓ} :
    {V : Type ℓ} (k : String) (v : V) (d : List (String × V)) → lookup k (insert k v d) ≡ some v
lookup_inserted k v d = ground (arith, lookup-insert k k v d, eq_iff k k)

-- The attempt of a receipt: one more than that of the receipt before it, or the first.
abbrev pub IsNext : Option Receipt → ℕ → Type 0
IsNext existing n =
    ((existing ≡ none) × (n ≡ 1)) ⊎ ((r : Receipt) × (existing ≡ some r) × (n ≡ suc r.attempt))

-- What a call that runs the stage returns, and the status of its manifest, by the outcome.
abbrev pub IsReturned : Receipt → RunStatus → Result StageError (Receipt × Bool) → Type 0
IsReturned r status result =
    ((checksum : String) × (output : Output) × (r.outcome ≡ succeeded checksum output)
      × (result ≡ ok (r, false))
      × (status ≡ running))
    ⊎ ((kind : String) × (text : String) × (r.outcome ≡ failed kind text)
        × (result ≡ raise stage_failed)
        × (status ≡ RunStatus.failed))

next_attempt-IsNext : (existing : Option Receipt) → IsNext existing (next_attempt existing)
next_attempt-IsNext none = inl (refl, refl)
next_attempt-IsNext (some r) = inr (r, refl, omega arith)

-- One call of `execute_stage`.
module _ (sha256 : Material → String) (context : Context) (stage : String)
    (upstream : Option String) (fail_for_test : Bool) (command : LocalRun) (times : Times) where
  abbrev pub call : Files → Result StageError (Receipt × Bool) × Files
  call files = execute_stage sha256 context stage upstream fail_for_test command times files

  abbrev pub receipt_for : Manifest → Receipt
  receipt_for m =
      new_receipt sha256 context stage upstream fail_for_test command times (lookup stage m.stages)

  -- A call that runs the stage and writes one receipt.
  record Runs (files : Files) (m : Manifest) : Type 0 where
    loaded : lookup context.manifest_path files ≡ some m
    ready : check_prior m (prior_in processing_stages stage) ≡ ok tt
    pending : has_succeeded (lookup stage m.stages) ≡ false
    written :
        (call files).1 ≡ insert context.manifest_path (with_receipt m times (receipt_for m)) files

  resume_lem :
      (m : Manifest) (files : Files)
      → (resume_stage sha256 context stage upstream fail_for_test command times m files).1 ≡ files
        ⊎ ((has_succeeded (lookup stage m.stages) ≡ false)
            × ((resume_stage sha256 context stage upstream fail_for_test command times m files).1
                ≡ insert context.manifest_path (with_receipt m times (receipt_for m)) files))
  unfolding resume_stage attempt_stage record_receipt
  resume_lem m files = ground arith

  call_refused :
      (files : Files) (e : StageError)
      → admit_stage context stage files ≡ raise e
      → (call files).1 ≡ files
  unfolding execute_stage
  call_refused files e h = rw (execute_stage, h)

  call_admitted :
      (files : Files) (m : Manifest)
      → admit_stage context stage files ≡ ok m
      → call files ≡ resume_stage sha256 context stage upstream fail_for_test command times m files
  unfolding execute_stage
  call_admitted files m h = rw (execute_stage, h)

  call_cases : (files : Files) → ((call files).1 ≡ files) ⊎ ((m : Manifest) × Runs files m)
  call_cases files = elim (Result-cases (admit_stage context stage files)) [
    | inl (e, refused) ↦ inl (call_refused files e refused)
    | inr (m, admitted) ↦
        let same = call_admitted files m admitted in
        let (member, loaded, identity, ready) = admit_stage_lem context stage files m admitted in
        elim (resume_lem m files) [
          | inl kept ↦ inl (ap (λ r. r.1) same ∙ kept)
          | inr (pending, written) ↦ inr (
            m,
            record {
              loaded = loaded;
              ready = ready;
              pending = pending;
              written = ap (λ r. r.1) same ∙ written;
            },
          )
        ]
  ]

  -- Whatever the call is and however it ends: where every stage that has succeeded stands behind one
  -- that has, it is so afterwards.
  pub execute_stage-AllOrdered : (files : Files) → AllOrdered files → AllOrdered (call files).1
  execute_stage-AllOrdered files ordered path m found = elim (call_cases files) [
    | inl kept ↦ ordered path m (ap (lookup path) (sym kept) ∙ found)
    | inr (m', runs) ↦
        let new = with_receipt m' times (receipt_for m') in
        let keeps : IsOrdered new =
          with_receipt-IsOrdered m' times (receipt_for m')
            (ordered context.manifest_path m' runs.loaded) runs.pending
            (λ p before.
              check_prior_lem m' (prior_in processing_stages stage) p runs.ready before) in
        elim (lookup_written path context.manifest_path new m files
          (ap (lookup path) (sym runs.written) ∙ found)) [
            | inl (here, same) ↦ subst IsOrdered same keeps
            | inr old ↦ ordered path m old
          ]
  ]

  -- The receipt of a stage that has succeeded is never written again.
  pub execute_stage_keeps :
      (files : Files) (path done : String) (m : Manifest)
      → lookup path files ≡ some m
      → Succeeded done m
      → (m' : Manifest) × (lookup path (call files).1 ≡ some m')
        × (lookup done m'.stages ≡ lookup done m.stages)
  execute_stage_keeps files path done m found success = elim (call_cases files) [
    | inl kept ↦ (m, ap (lookup path) kept ∙ found, refl)
    | inr (m', runs) ↦
        let new = with_receipt m' times (receipt_for m') in
        let look =
          ap (lookup path) runs.written ∙ lookup-insert context.manifest_path path new files in
        elim (Bool-cases (str_eq context.manifest_path path)) [
          | inr other ↦ (m, rw other at look ∙ found, refl)
          | inl here ↦
              let same : m' ≡ m = some-injective _ _ (
                sym runs.loaded
                ∙ ap (λ p. lookup p files) ((eq_iff context.manifest_path path).0 here)
                ∙ found) in
              (
                new,
                rw here at look,
                subst (λ k. Succeeded done k → lookup done new.stages ≡ lookup done k.stages) same
                    (with_receipt_keeps m' times (receipt_for m') done runs.pending) success,
              )
        ]
  ]

  attempt_stage-IsReturned :
      (m : Manifest) (r : Receipt) (outcome : Outcome) (files : Files)
      → r.outcome ≡ outcome
      → IsReturned r (status_after r.outcome) (attempt_stage sha256 context m r times files).0
  unfolding attempt_stage
  attempt_stage-IsReturned m r (succeeded checksum output) files same =
      inl (checksum, output, same, rw same refl, rw same refl)
  attempt_stage-IsReturned m r (failed kind text) files same =
      inr (kind, text, same, rw same refl, rw same refl)

  resume_pending :
      (m : Manifest) (files : Files)
      → has_succeeded (lookup stage m.stages) ≡ false
      → resume_stage sha256 context stage upstream fail_for_test command times m files
        ≡ attempt_stage sha256 context m (receipt_for m) times files
  unfolding resume_stage
  resume_pending m files pending = ground arith

  attempt_written :
      (m : Manifest) (files : Files)
      → (attempt_stage sha256 context m (receipt_for m) times files).1
        ≡ insert context.manifest_path (with_receipt m times (receipt_for m)) files
  unfolding attempt_stage record_receipt
  attempt_written m files = ground arith

  -- A stage that has not succeeded is run: its receipt counts one attempt more than the one before,
  -- or the first, and stands in the manifest whether the stage succeeds or fails; where its outcome is
  -- a success the call returns the receipt as a new one and the run goes on, and where it is a failure
  -- the call raises and the run has failed.
  pub execute_stage_retry :
      (files : Files) (m : Manifest)
      → admit_stage context stage files ≡ ok m
      → has_succeeded (lookup stage m.stages) ≡ false
      → (m' : Manifest) × (r : Receipt) × (lookup context.manifest_path (call files).1 ≡ some m')
        × (lookup stage m'.stages ≡ some r)
        × IsNext (lookup stage m.stages) r.attempt
        × IsReturned r m'.status (call files).0
  execute_stage_retry files m admitted pending =
      let r = receipt_for m in
      let new = with_receipt m times r in
      let same = call_admitted files m admitted ∙ resume_pending m files pending in
      (
        new,
        r,
        ap (λ c. lookup context.manifest_path c.1) same
            ∙ ap (lookup context.manifest_path) (attempt_written m files)
            ∙ lookup_inserted context.manifest_path new files,
        lookup_inserted stage r m.stages,
        next_attempt-IsNext (lookup stage m.stages),
        subst (λ c. IsReturned r new.status c.0) (sym same)
            (attempt_stage-IsReturned m r r.outcome files refl),
      )
