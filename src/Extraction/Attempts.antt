-- ===== src/Extraction/Attempts.antt =====
-- How `_request_csv` of src/eo_event_platform/ingestion/nasa_firms/extractor.py tries again.
use mathlib.Core.Path.{subst}
use nasa_earth_observation_e.Prelude.{
  ℕ, zero, suc, ◌+◌, ◌-◌, ◌^◌, ◌≤◌, Bool, true, false, ◌||◌, not, none, some, List, [], ◌∷◌, ◌++◌,
  if◌then◌else◌, ◌==◌, ltb, Result, raise, ◌≡◌, refl, sym, inl, inr, arith, Bool-cases,
}
use nasa_earth_observation_e.Extraction.Fetch.{
  Answer, response, http_error, unreachable, other_exception, FetchError, Fetched, Trace, requested,
  paused, is_retryable, LastError, read_response, request_from, request_csv, http_failed,
  retries_exhausted, unhandled,
}

-- An answer after which another attempt is made.
abbrev pub is_transient : Answer → Bool
is_transient (response status body) = false
is_transient (http_error code) = is_retryable code
is_transient unreachable = true
is_transient (other_exception category) = false

-- The pauses between one more than so many attempts.
abbrev pub backoff : ℕ → List ℕ
backoff zero = []
backoff (suc n) = backoff n ++ 2 ^ n ∷ []

-- What the answer to the last attempt says of the whole.
abbrev pub verdict : ℕ → Answer → Result FetchError Fetched
verdict n (response status body) = read_response n status body
verdict n (http_error code) = raise (http_failed code)
verdict n unreachable = raise retries_exhausted
verdict n (other_exception category) = raise (unhandled category)

module _ (opener : ℕ → Answer) (max_attempts : ℕ) where
  -- A run with so many attempts behind its first: what it made of their answers.
  pub record Attempted (run : Result FetchError Fetched × Trace) : Type 0 where
    pub retries : ℕ
    pub within : suc retries ≤ max_attempts
    pub retried : (i : ℕ) → 1 ≤ i → i ≤ retries → is_transient (opener i) ≡ true
    pub exhausted : is_transient (opener (suc retries)) ≡ true → suc retries ≡ max_attempts
    pub outcome : run ≡ (
      verdict (suc retries) (opener (suc retries)),
      record { requests = suc retries; pauses = backoff retries },
    )

  after : ℕ → Trace
  after k = record { requests = k; pauses = backoff k }

  Retried : ℕ → Type 0
  Retried k = (i : ℕ) → 1 ≤ i → i ≤ k → is_transient (opener i) ≡ true

  -- The run ends with this attempt.
  ends_here :
      (k : ℕ) (answer : Answer)
      → opener (suc k) ≡ answer
      → suc k ≤ max_attempts
      → Retried k
      → (is_transient answer ≡ true → suc k ≡ max_attempts)
      → (run : Result FetchError Fetched × Trace)
      → run ≡ (verdict (suc k) answer, requested (after k))
      → Attempted run
  unfolding after Retried
  ends_here k answer eq fits before final run same = record {
    retries = k;
    within = fits;
    retried = before;
    exhausted = subst (λ a. is_transient a ≡ true → suc k ≡ max_attempts) (sym eq) final;
    outcome = subst (λ a. run ≡ (verdict (suc k) a, requested (after k))) (sym eq) same;
  }

  also :
      (k : ℕ) (answer : Answer)
      → opener (suc k) ≡ answer
      → Retried k
      → is_transient answer ≡ true
      → Retried (suc k)
  unfolding Retried
  also k answer eq before transient i one below = elim (Bool-cases (i == suc k)) [
    | inl same ↦
        let at : i ≡ suc k = ground (arith, same) in
        subst (λ j. is_transient (opener j) ≡ true) (sym at)
          (subst (λ a. is_transient a ≡ true) (sym eq) transient)
    | inr other ↦ before i one (ground (arith, other, below))
  ]

  -- What is known of the rest of the loop.
  Continues : ℕ → ℕ → Type 0
  Continues zero k = Unit
  Continues (suc left) k =
      (last : LastError)
      → Retried (suc k)
      → Attempted (request_from opener max_attempts (suc (suc k)) (suc left) last (after (suc k)))

  retry-Attempted :
      (left k : ℕ) (error : LastError)
      → k + suc left ≡ max_attempts
      → (suc k == max_attempts) ≡ false
      → Retried (suc k)
      → Continues left k
      → Attempted (
          request_from opener max_attempts (suc (suc k)) left error (
            if ltb (suc k) max_attempts
            then paused (2 ^ (suc k - 1)) (requested (after k))
            else requested (after k)))
  unfolding Continues after
  retry-Attempted zero k error fits more before next = ground (arith, fits, more)
  retry-Attempted (suc left) k error fits more before next =
      let pause : ltb (suc k) max_attempts ≡ true = ground (arith, fits) in
      let exponent : (suc k - 1) ≡ k = omega arith in rw (pause, exponent) (next error before)

  answered-Attempted :
      (left k : ℕ) (last : LastError) (answer : Answer)
      → opener (suc k) ≡ answer
      → k + suc left ≡ max_attempts
      → Retried k
      → Continues left k
      → Attempted (request_from opener max_attempts (suc k) (suc left) last (after k))
  unfolding request_from
  answered-Attempted left k last (response status body) eq fits before next =
      ends_here k (response status body) eq (omega arith) before (λ h. cc) _ (rw (request_from, eq))
  answered-Attempted left k last (other_exception category) eq fits before next =
      ends_here k (other_exception category) eq (omega arith) before (λ h. cc) _
        (rw (request_from, eq))
  answered-Attempted left k last unreachable eq fits before next =
      elim (Bool-cases (suc k == max_attempts)) [
        | inl final ↦
            ends_here k unreachable eq (omega arith) before (λ h. ground (arith, final)) _
              (rw (request_from, eq, final))
        | inr more ↦
            rw (request_from, eq, more)
              (retry-Attempted left k none fits more (also k unreachable eq before refl) next)
      ]
  answered-Attempted left k last (http_error code) eq fits before next =
      elim (Bool-cases (not (is_retryable code) || suc k == max_attempts)) [
        | inl final ↦
            ends_here k (http_error code) eq (omega arith) before (λ h. ground (arith, final, h)) _
              (rw (request_from, eq, final))
        | inr more ↦
            rw (request_from, eq, more)
              (retry-Attempted left k (some code) fits (ground (arith, more))
                (also k (http_error code) eq before (ground (arith, more))) next)
      ]

  request_from-Attempted :
      (left k : ℕ) (last : LastError)
      → k + suc left ≡ max_attempts
      → Retried k
      → Attempted (request_from opener max_attempts (suc k) (suc left) last (after k))
  unfolding Continues
  request_from-Attempted zero k last fits before =
      answered-Attempted zero k last _ refl fits before tt
  request_from-Attempted (suc left) k last fits before =
      answered-Attempted (suc left) k last _ refl fits before
        (λ error before'. request_from-Attempted left (suc k) error (omega arith) before')

-- Of a positive number of attempts, `_request_csv` makes some, one at least, and makes another only
-- after an HTTP error that may be retried or an unreachable server; it stops before the last it may
-- make only at an answer of another kind. It asks the server once for each attempt, pauses for 1, 2,
-- 4 … seconds between them, and returns or raises what the last answer says.
pub request_csv-Attempted :
    (opener : ℕ → Answer) (max_attempts : ℕ)
    → 1 ≤ max_attempts
    → Attempted opener max_attempts (request_csv opener max_attempts)
unfolding request_csv after Retried
request_csv-Attempted opener zero positive = ground (arith, positive)
request_csv-Attempted opener (suc left) positive =
    request_from-Attempted opener (suc left) left 0 none (omega arith)
      (λ i one below. ground (arith, one, below))
