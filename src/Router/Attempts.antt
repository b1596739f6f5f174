-- ===== src/Router/Attempts.antt =====
-- `process_with_bounded_attempts` of src/eo_event_platform/streaming/kafka/failure_router.py.
use nasa_earth_observation_e.Prelude.{
  ℕ, zero, suc, ◌+◌, ◌<◌, String, Bool, true, false, Option, none, some, if◌then◌else◌, Result, ok,
  raise, ◌==◌, ◌≡◌, refl, arith, Bool-cases, inl, inr,
}
use nasa_earth_observation_e.Text.{codes}
use nasa_earth_observation_e.Replay.Value.{Event, text, get, value_eq}

pub data AttemptError : Type 0 where
  attempts_not_positive not_terminated : AttemptError

-- Whether the event was processed, the attempts made, and the kind of the failure.
abbrev pub Processing : Type 0
Processing = Bool × ℕ × Option String

abbrev pub is_faulty : Event → Bool
is_faulty event = value_eq (get "_test_fault_mode" event) (text (codes "EXHAUST_RETRIES"))

-- The loop, with as many attempts left.
unfoldable pub attempt_from : Bool → ℕ → ℕ → ℕ → Result AttemptError Processing
attempt_from faulty max_attempts attempt zero = raise not_terminated
attempt_from faulty max_attempts attempt (suc left) =
    let next = attempt_from faulty max_attempts (suc attempt) left in
    if faulty
    then (if attempt == max_attempts then ok (false, attempt, some "RuntimeError") else next)
    else ok (true, attempt, none)

unfoldable pub process_with_bounded_attempts : Event → ℕ → Result AttemptError Processing
process_with_bounded_attempts event zero = raise attempts_not_positive
process_with_bounded_attempts event (suc more) =
    attempt_from (is_faulty event) (suc more) 1 (suc more)

attempt_from-exhausted :
    (max_attempts attempt left : ℕ)
    → attempt + left ≡ suc max_attempts
    → 0 < left
    → attempt_from true max_attempts attempt left ≡ ok (false, max_attempts, some "RuntimeError")
unfolding attempt_from
attempt_from-exhausted max_attempts attempt zero h pos = absurd (omega arith)
attempt_from-exhausted max_attempts attempt (suc zero) h pos = ground arith
attempt_from-exhausted max_attempts attempt (suc (suc left)) h pos = ground (
  arith,
  attempt_from-exhausted max_attempts (suc attempt) (suc left) (omega arith) (omega arith),
)

-- With a positive bound the loop always returns: after all the attempts for an event that fails in
-- each, and else after the first; it never makes more attempts than the bound.
pub process_with_bounded_attempts_lem :
    (event : Event) (more : ℕ)
    → process_with_bounded_attempts event (suc more)
      ≡ ok (if is_faulty event then (false, suc more, some "RuntimeError") else (true, 1, none))
unfolding process_with_bounded_attempts
process_with_bounded_attempts_lem event more = elim (Bool-cases (is_faulty event)) [
  | inl faulty ↦
      rw faulty (attempt_from-exhausted (suc more) 1 (suc more) (omega arith) (omega arith))
  | inr sound ↦ rw sound (unfold attempt_from in refl)
]
