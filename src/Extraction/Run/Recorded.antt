-- ===== src/Extraction/Run/Recorded.antt =====
-- What an extraction leaves behind: src/eo_event_platform/ingestion/nasa_firms/extractor.py.
use mathlib.Core.Path.{subst}
use nasa_earth_observation_e.Prelude.{
  ℕ, suc, ◌≤◌, Bool, true, false, Option, none, some, List, [], ◌∷◌, Result, ok, raise, ◌>>=◌, ◌==◌,
  ◌≡◌, refl, sym, ap, ◌∙◌, inl, inr, ◌⊎◌, arith, Bool-cases, Result-cases, >>=-eq-ok, ok-injective,
}
use nasa_earth_observation_e.Text.{Text, is_empty, strip}
use nasa_earth_observation_e.Text.Float.{Float}
use nasa_earth_observation_e.Extraction.Request.{ExtractionRequest, RequestError, validate_request}
use nasa_earth_observation_e.Extraction.Contract.{IsValidRequest, validate_request-IsValidRequest}
use nasa_earth_observation_e.Extraction.Fetch.{
  Answer, response, http_error, unreachable, other_exception, FetchError, Fetched, Trace, untouched,
  request_csv, read_response,
}
use nasa_earth_observation_e.Extraction.Attempts.{verdict, Attempted, request_csv-Attempted}
use nasa_earth_observation_e.Extraction.Csv.{
  CsvFile, CsvError, validate_firms_csv, IsReadable, validate_firms_csv-IsReadable,
}
use nasa_earth_observation_e.Extraction.Run.{
  Surroundings, RunManifest, raw_file, manifest_file, ExtractError, invalid_request, empty_map_key,
  extraction_failed, unwritten, Extracted, raw_path, initial_manifest, Obtained, category_of_fetch,
  category_of_csv, with_category, fail, handle, write_manifest, completed, extraction_result,
  write_outputs, obtain, check_call, extract,
}

with_category_lem {ℓ} :
    {E : Type 0} {A : Type ℓ} (category : E → Text) (m : Result E A) (a : A)
    → with_category category m ≡ ok a
    → m ≡ ok a
with_category_lem category (raise e) a h = cc
with_category_lem category (ok b) a h = ap ok (ok-injective h)

-- A response that is read.
record IsFrom (answer : Answer) (n : ℕ) (fetched : Fetched) : Type 0 where
  pub full : answer ≡ response 200 fetched.body
  pub count : fetched.attempt_count ≡ n
  pub status : fetched.http_status ≡ 200
  pub filled : is_empty fetched.body ≡ false

read_response-IsFrom :
    (n status : ℕ) (body : Text) (fetched : Fetched)
    → read_response n status body ≡ ok fetched
    → IsFrom (response status body) n fetched
unfolding read_response
read_response-IsFrom n status [] fetched h = ground (arith, h)
read_response-IsFrom n status (c ∷ s) fetched h = elim (Bool-cases (status == 200)) [
  | inr other ↦ ground (arith, h, other)
  | inl same ↦
      let found : status ≡ 200 = ground (arith, same) in
      subst (IsFrom (response status (c ∷ s)) n) (ok-injective (rw (read_response, same) at h))
        (record {
          full = ap (λ k. response k (c ∷ s)) found;
          count = refl;
          status = found;
          filled = refl;
        })
]

verdict-IsFrom :
    (n : ℕ) (answer : Answer) (fetched : Fetched)
    → verdict n answer ≡ ok fetched
    → IsFrom answer n fetched
verdict-IsFrom n (response status body) fetched h = read_response-IsFrom n status body fetched h
verdict-IsFrom n (http_error code) fetched h = cc
verdict-IsFrom n unreachable fetched h = cc
verdict-IsFrom n (other_exception category) fetched h = cc

-- A result that the response of the last attempt gave, with its readable body.
pub record IsComplete (opener : ℕ → Answer) (max_attempts : ℕ) (decode : Text → Option Text)
    (dict_reader : Text → CsvFile) (o : Obtained) : Type 0 where
  pub source : opener o.fetched.attempt_count ≡ response 200 o.fetched.body
  pub attempts : (1 ≤ o.fetched.attempt_count) × (o.fetched.attempt_count ≤ max_attempts)
  pub status : o.fetched.http_status ≡ 200
  pub filled : is_empty o.fetched.body ≡ false
  pub readable : IsReadable decode dict_reader o.fetched.body o.columns o.record_count

module _ (opener : ℕ → Answer) (max_attempts : ℕ) (decode : Text → Option Text)
    (dict_reader : Text → CsvFile) where
  complete :
      (n : ℕ) (fetched : Fetched) (columns : List Text) (count : ℕ)
      → (1 ≤ n) × (n ≤ max_attempts)
      → IsFrom (opener n) n fetched
      → IsReadable decode dict_reader fetched.body columns count
      → IsComplete opener max_attempts decode dict_reader
          (record { fetched = fetched; columns = columns; record_count = count })
  complete n fetched columns count within from readable = record {
    source = subst (λ k. opener k ≡ response 200 fetched.body) (sym from.count) from.full;
    attempts = (omega (arith, from.count, within.0), omega (arith, from.count, within.1));
    status = from.status;
    filled = from.filled;
    readable = readable;
  }

  obtain-IsComplete :
      (run : Result FetchError Fetched × Trace) (o : Obtained)
      → Attempted opener max_attempts run
      → obtain decode dict_reader run.0 ≡ ok o
      → IsComplete opener max_attempts decode dict_reader o
        × (run.1.requests ≡ o.fetched.attempt_count)
  unfolding obtain
  obtain-IsComplete run o tried h =
      let (fetched, got, h1) = >>=-eq-ok (with_category category_of_fetch run.0) _ h in
      let (table, valid, h2) =
        >>=-eq-ok
          (with_category category_of_csv (validate_firms_csv decode dict_reader fetched.body)) _
          h1 in
      let answered : verdict (suc tried.retries) (opener (suc tried.retries)) ≡ ok fetched =
        sym (ap (λ (r : Result FetchError Fetched × Trace). r.0) tried.outcome)
        ∙ with_category_lem category_of_fetch run.0 fetched got in
      let from = verdict-IsFrom (suc tried.retries) (opener (suc tried.retries)) fetched answered in
      subst
        (λ o'.
          IsComplete opener max_attempts decode dict_reader o'
          × (run.1.requests ≡ o'.fetched.attempt_count))
        (ok-injective h2)
        (
          complete (suc tried.retries) fetched table.0 table.1 (omega arith, tried.within) from
              (validate_firms_csv-IsReadable decode dict_reader fetched.body table.0 table.1 (
                with_category_lem category_of_csv
                  (validate_firms_csv decode dict_reader fetched.body) table valid)),
          ap (λ (r : Result FetchError Fetched × Trace). r.1.requests) tried.outcome
              ∙ sym from.count,
        )

-- Why a run fails with a category: its attempts end with an error, the body that they give is no
-- readable table, or the raw file is not written.
module _ (opener : ℕ → Answer) (max_attempts : ℕ) (decode : Text → Option Text)
    (dict_reader : Text → CsvFile) (run : Surroundings) where
  abbrev pub IsCause : Result FetchError Fetched → Text → Type 0
  IsCause fetch category =
      ((e : FetchError) × (fetch ≡ raise e) × (category ≡ category_of_fetch e))
      ⊎ ((fetched : Fetched) × (why : CsvError) × (fetch ≡ ok fetched)
          × (validate_firms_csv decode dict_reader fetched.body ≡ raise why)
          × (category ≡ category_of_csv why))
      ⊎ ((o : Obtained) × IsComplete opener max_attempts decode dict_reader o
          × (run.raw_write ≡ some category))

  pub record IsFailure (category : Text) (trace : Trace) : Type 0 where
    pub tried : Result FetchError Fetched × Trace
    pub attempted : Attempted opener max_attempts tried
    pub traced : tried.1 ≡ trace
    pub cause : IsCause tried.0 category

  with_category-raise :
      {E : Type 0} {A : Type 0} (category : E → Text) (m : Result E A) (c : Text)
      → with_category category m ≡ raise c
      → (e : E) × (m ≡ raise e) × (c ≡ category e)
  with_category-raise category (ok a) c h = cc
  with_category-raise category (raise e) c h = (e, refl, cc)

  csv_cause :
      (body : Text) (table : Result CsvError (List Text × ℕ)) (f : List Text × ℕ → Obtained)
      (category : Text)
      → validate_firms_csv decode dict_reader body ≡ table
      → (with_category category_of_csv table >>= λ t. ok (f t)) ≡ raise category
      → (why : CsvError) × (validate_firms_csv decode dict_reader body ≡ raise why)
        × (category ≡ category_of_csv why)
  csv_cause body (raise why) f category at h = (why, at, cc)
  csv_cause body (ok t) f category at h = cc

  obtain-IsCause :
      (fetch : Result FetchError Fetched) (category : Text)
      → obtain decode dict_reader fetch ≡ raise category
      → IsCause fetch category
  unfolding obtain
  obtain-IsCause (raise e) category h = inl (e, refl, cc)
  obtain-IsCause (ok fetched) category h =
      let (why, bad, same) =
        csv_cause fetched.body (validate_firms_csv decode dict_reader fetched.body)
          (λ t. record { fetched = fetched; columns = t.0; record_count = t.1 }) category refl h in
      inr (inl (fetched, why, refl, bad, same))

-- The ways in which a run that is called as it should be may end, with the files that it leaves and
-- its requests.
module _ (opener : ℕ → Answer) (max_attempts : ℕ) (decode : Text → Option Text)
    (dict_reader : Text → CsvFile) (sha256 : Text → Text) (run : Surroundings)
    (request : ExtractionRequest) (pipeline_version : Text) where
  abbrev pub failed_manifest : Text → RunManifest → RunManifest
  failed_manifest category manifest = record manifest {
    failure_category = some category;
    completed_at = some run.failed_at;
  }

  pub data IsRecorded : Extracted × Trace → Type 0 where
    -- The run fails, and leaves a manifest that says so and no raw file.
    as_failed :
        (category : Text) (trace : Trace)
        → IsFailure opener max_attempts decode dict_reader run category trace
        → run.failure_write ≡ none
        → IsRecorded (
          (
            raise extraction_failed,
            manifest_file (failed_manifest category (initial_manifest run request pipeline_version))
                ∷ [],
          ),
          trace,
        )
    -- The run fails, and the handler's own write fails too.
    unrecorded :
        (error category : Text) (trace : Trace)
        → IsFailure opener max_attempts decode dict_reader run category trace
        → run.failure_write ≡ some error
        → IsRecorded ((raise (unwritten error), []), trace)
    -- The first write of the manifest fails: the handler leaves one that says `SUCCEEDED`.
    contradicted :
        (category : Text) (o : Obtained) (trace : Trace)
        → IsComplete opener max_attempts decode dict_reader o
        → trace.requests ≡ o.fetched.attempt_count
        → (run.raw_write ≡ none) × (run.manifest_write ≡ some category) × (run.failure_write ≡ none)
        → IsRecorded (
          (
            raise extraction_failed,
            raw_file (raw_path run request) o.fetched.body
                ∷ manifest_file (
                    failed_manifest category
                      (completed sha256 run o (initial_manifest run request pipeline_version)))
                ∷ [],
          ),
          trace,
        )
    -- Both writes of the manifest fail: the raw file is left alone.
    raw_only :
        (category error : Text) (o : Obtained) (trace : Trace)
        → IsComplete opener max_attempts decode dict_reader o
        → trace.requests ≡ o.fetched.attempt_count
        → (run.raw_write ≡ none)
          × (run.manifest_write ≡ some category)
          × (run.failure_write ≡ some error)
        → IsRecorded
            ((raise (unwritten error), raw_file (raw_path run request) o.fetched.body ∷ []), trace)
    as_succeeded :
        (o : Obtained) (trace : Trace)
        → IsComplete opener max_attempts decode dict_reader o
        → trace.requests ≡ o.fetched.attempt_count
        → (run.raw_write ≡ none) × (run.manifest_write ≡ none)
        → IsRecorded (
          (
            ok (extraction_result sha256 run request o),
            raw_file (raw_path run request) o.fetched.body
                ∷ manifest_file
                    (completed sha256 run o (initial_manifest run request pipeline_version))
                ∷ [],
          ),
          trace,
        )

  handle-IsRecorded :
      (outcome : Option Text) (category : Text) (trace : Trace)
      → run.failure_write ≡ outcome
      → IsFailure opener max_attempts decode dict_reader run category trace
      → IsRecorded
          (handle outcome run (initial_manifest run request pipeline_version) category [], trace)
  handle-IsRecorded none category trace is_done failure = as_failed category trace failure is_done
  handle-IsRecorded (some error) category trace undone failure =
      unrecorded error category trace failure undone

  refail-IsRecorded :
      (outcome : Option Text) (category : Text) (o : Obtained) (trace : Trace)
      → run.failure_write ≡ outcome
      → run.raw_write ≡ none
      → run.manifest_write ≡ some category
      → IsComplete opener max_attempts decode dict_reader o
      → trace.requests ≡ o.fetched.attempt_count
      → IsRecorded (
        handle outcome run
            (completed sha256 run o (initial_manifest run request pipeline_version))
            category
            (raw_file (raw_path run request) o.fetched.body ∷ []),
        trace,
      )
  refail-IsRecorded none category o trace is_done raw broken whole asked =
      contradicted category o trace whole asked (raw, broken, is_done)
  refail-IsRecorded (some error) category o trace undone raw broken whole asked =
      raw_only category error o trace whole asked (raw, broken, undone)

  write_manifest-IsRecorded :
      (outcome : Option Text) (o : Obtained) (trace : Trace)
      → run.manifest_write ≡ outcome
      → run.raw_write ≡ none
      → IsComplete opener max_attempts decode dict_reader o
      → trace.requests ≡ o.fetched.attempt_count
      → IsRecorded (
        write_manifest sha256 outcome run request (initial_manifest run request pipeline_version) o,
        trace,
      )
  unfolding write_manifest
  write_manifest-IsRecorded none o trace is_done raw whole asked =
      as_succeeded o trace whole asked (raw, is_done)
  write_manifest-IsRecorded (some category) o trace broken raw whole asked =
      refail-IsRecorded run.failure_write category o trace refl raw broken whole asked

  write_outputs-IsRecorded :
      (outcome : Option Text) (o : Obtained) (tried : Result FetchError Fetched × Trace)
      → run.raw_write ≡ outcome
      → Attempted opener max_attempts tried
      → IsComplete opener max_attempts decode dict_reader o
      → tried.1.requests ≡ o.fetched.attempt_count
      → IsRecorded (
        write_outputs sha256 outcome run request (initial_manifest run request pipeline_version) o,
        tried.1,
      )
  unfolding write_outputs
  write_outputs-IsRecorded none o tried is_done attempted whole asked =
      write_manifest-IsRecorded run.manifest_write o tried.1 refl is_done whole asked
  write_outputs-IsRecorded (some category) o tried broken attempted whole asked =
      handle-IsRecorded run.failure_write category tried.1 refl (record {
        tried = tried;
        attempted = attempted;
        traced = refl;
        cause = inr (inr (o, whole, broken));
      })

  obtained-IsRecorded :
      (tried : Result FetchError Fetched × Trace)
      → Attempted opener max_attempts tried
      → IsRecorded (elim (obtain decode dict_reader tried.0) [
        | raise category ↦
            (fail run (initial_manifest run request pipeline_version) category [], tried.1)
        | ok o ↦ (
          write_outputs sha256 run.raw_write run request
              (initial_manifest run request pipeline_version)
              o,
          tried.1,
        )
      ])
  obtained-IsRecorded tried whole = elim (Result-cases (obtain decode dict_reader tried.0)) [
    | inl (category, broken) ↦ rw broken (
        handle-IsRecorded run.failure_write category tried.1 refl (record {
          tried = tried;
          attempted = whole;
          traced = refl;
          cause = obtain-IsCause opener max_attempts decode dict_reader run tried.0 category broken;
        }))
    | inr (o, found) ↦
        let (complete', asked) =
          obtain-IsComplete opener max_attempts decode dict_reader tried o whole found in
        rw found (write_outputs-IsRecorded run.raw_write o tried refl whole complete' asked)
  ]

module _ (float : Text → Option Float) (is_iso_date : Text → Bool) (request : ExtractionRequest)
    (map_key : Text) where
  -- A call with a valid request and a key that is not blank.
  abbrev pub IsCall : Type 0
  IsCall = IsValidRequest float is_iso_date request × (is_empty (strip map_key) ≡ false)

  -- Why a call is refused: the request breaks its contract, or it is valid and the key is blank.
  abbrev pub IsRefused : ExtractError → Type 0
  IsRefused e =
      ((IsValidRequest float is_iso_date request → ⊥)
        × ((why : RequestError) × (e ≡ invalid_request why)))
      ⊎ (IsValidRequest float is_iso_date request
          × (is_empty (strip map_key) ≡ true)
          × (e ≡ empty_map_key))

  check_call-cases :
      ((e : ExtractError) × (check_call float is_iso_date request map_key ≡ raise e) × IsRefused e)
      ⊎ ((check_call float is_iso_date request map_key ≡ ok tt) × IsCall)
  check_call-cases =
      let contract = validate_request-IsValidRequest float is_iso_date request in
      elim (Result-cases (validate_request float is_iso_date request)) [
        | inl (why, invalid) ↦ inl (
          invalid_request why,
          unfold check_call in (rw (check_call, invalid) refl),
          inl ((λ v. cc (sym invalid ∙ contract.1 v)), (why, refl)),
        )
        | inr (u, valid) ↦ elim (Bool-cases (is_empty (strip map_key))) [
          | inl blank ↦ inl (
            empty_map_key,
            unfold check_call in (rw (check_call, valid, blank) refl),
            inr (contract.0 valid, blank, refl),
          )
          | inr filled ↦ inr (
            unfold check_call in (rw (check_call, valid, filled) refl),
            (contract.0 valid, filled),
          )
        ]
      ]

module _ (decode : Text → Option Text) (dict_reader : Text → CsvFile) (float : Text → Option Float)
    (is_iso_date : Text → Bool) (sha256 : Text → Text) where
  -- An extraction of at least one attempt is refused, with nothing asked or written, exactly where the
  -- request breaks its contract or the key is blank. Else it ends in one of five ways. It fails, for
  -- its attempts, for a body that is no table of the contract or for the raw file's write, and leaves
  -- a manifest that says so and no raw file, or nothing where that manifest is not written either. Or
  -- it has a readable body of its last response and writes it as the raw file: then it succeeds with a
  -- manifest of the body, or the first write of that manifest fails, and the handler leaves one that
  -- still says so, or none where its own write fails.
  pub extract-IsRecorded :
      (opener : ℕ → Answer) (max_attempts : ℕ) (run : Surroundings) (request : ExtractionRequest)
      (map_key pipeline_version : Text)
      → 1 ≤ max_attempts
      → let end =
          extract sha256 decode dict_reader float is_iso_date opener max_attempts run request
            map_key pipeline_version in
        ((e : ExtractError) × IsRefused float is_iso_date request map_key e
          × (end ≡ ((raise e, []), untouched)))
        ⊎ (IsCall float is_iso_date request map_key
            × IsRecorded opener max_attempts decode dict_reader sha256 run request pipeline_version
                end)
  unfolding extract
  extract-IsRecorded opener max_attempts run request map_key pipeline_version positive =
      elim (check_call-cases float is_iso_date request map_key) [
        | inl (e, invalid, why) ↦ inl (e, why, rw (extract, invalid) refl)
        | inr (valid, call) ↦ inr (
          call,
          rw (extract, valid)
              (obtained-IsRecorded opener max_attempts decode dict_reader sha256 run request
                pipeline_version (request_csv opener max_attempts)
                (request_csv-Attempted opener max_attempts positive)),
        )
      ]
