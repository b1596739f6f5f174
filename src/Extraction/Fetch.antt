-- ===== src/Extraction/Fetch.antt =====
-- `_request_csv` of src/eo_event_platform/ingestion/nasa_firms/extractor.py. What `opener` does is a
-- function of the attempt's number; the pauses are recorded in seconds.
use nasa_earth_observation_e.Prelude.{
  ℕ, zero, suc, ◌-◌, ◌^◌, Bool, true, false, ◌||◌, not, Option, none, some, List, [], ◌∷◌, ◌++◌,
  if◌then◌else◌, ◌==◌, ltb, Result, ok, raise,
}
use nasa_earth_observation_e.Text.{Text}

-- What an attempt gives: a response with its status and body, an HTTPError with its code, a URLError
-- or TimeoutError, or an exception of another kind, with the
-- name of its type.
pub data Answer : Type 0 where
  response : ℕ → Text → Answer
  http_error : ℕ → Answer
  unreachable : Answer
  other_exception : Text → Answer

pub data FetchError : Type 0 where
  unexpected_status : ℕ → FetchError
  empty_response : FetchError
  http_failed : ℕ → FetchError
  retries_exhausted : FetchError
  unhandled : Text → FetchError

pub record Fetched : Type 0 where
  pub body : Text
  pub http_status : ℕ
  pub attempt_count : ℕ

-- The requests that were made, and the pauses between them.
pub record Trace : Type 0 where
  pub requests : ℕ
  pub pauses : List ℕ

abbrev pub untouched : Trace
untouched = record { requests = 0; pauses = [] }

abbrev pub requested : Trace → Trace
requested t = record t { requests = suc t.requests }

abbrev pub paused : ℕ → Trace → Trace
paused seconds t = record t { pauses = t.pauses ++ seconds ∷ [] }

-- `RETRYABLE_HTTP_CODES`
unfoldable pub is_retryable : ℕ → Bool
is_retryable code = code == 429 || code == 500 || code == 502 || code == 503 || code == 504

-- `last_error`: the code of an HTTPError, or another error.
abbrev pub LastError : Type 0
LastError = Option ℕ

-- The errors behind the loop.
abbrev pub failed_with : LastError → FetchError
failed_with (some code) = http_failed code
failed_with none = retries_exhausted

-- The body of the `try`, for a response.
unfoldable pub read_response : ℕ → ℕ → Text → Result FetchError Fetched
read_response attempt status [] =
    if status == 200 then raise empty_response else raise (unexpected_status status)
read_response attempt status (c ∷ s) =
    if status == 200
    then ok (record { body = c ∷ s; http_status = status; attempt_count = attempt })
    else raise (unexpected_status status)

module _ (opener : ℕ → Answer) (max_attempts : ℕ) where
  -- The loop from an attempt on, with as many left.
  unfoldable pub request_from : ℕ → ℕ → LastError → Trace → Result FetchError Fetched × Trace
  request_from attempt zero last trace = (raise (failed_with last), trace)
  request_from attempt (suc left) last trace =
      let retry = λ (error : LastError). request_from (suc attempt) left error (
        if ltb attempt max_attempts
        then paused (2 ^ (attempt - 1)) (requested trace)
        else requested trace) in
      elim (opener attempt) [
        | response status body ↦ (read_response attempt status body, requested trace)
        | http_error code ↦ elim (not (is_retryable code) || attempt == max_attempts) [
          | true ↦ (raise (failed_with (some code)), requested trace)
          | false ↦ retry (some code)
        ]
        | unreachable ↦ elim (attempt == max_attempts) [
          | true ↦ (raise (failed_with none), requested trace)
          | false ↦ retry none
        ]
        | other_exception category ↦ (raise (unhandled category), requested trace)
      ]

  unfoldable pub request_csv : Result FetchError Fetched × Trace
  request_csv = request_from 1 max_attempts none untouched
