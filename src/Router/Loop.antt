-- ===== src/Router/Loop.antt =====
-- The loop of `route_failures` in src/eo_event_platform/streaming/kafka/failure_router.py, on the answers
-- of the consumer's polls in their order.
use nasa_earth_observation_e.Prelude.{
  ℕ, ◌+◌, Bool, true, false, not, ◌&&◌, Option, none, some, List, [], ◌∷◌, ◌++◌, if◌then◌else◌, ltb,
  Result, ok, raise,
}
use nasa_earth_observation_e.Router.Attempts.{AttemptError}
use nasa_earth_observation_e.Router.Routing.{Message, Envelope, route}

-- An answer of `consumer.poll`: nothing, with whether the last progress is over 15 seconds ago, an
-- error, or a message.
pub data Poll : Type 0 where
  nothing : (is_stale : Bool) → Poll
  failure : Poll
  arrived : Message → Poll

-- `waiting` is the loop that has not ended after these answers.
pub data LoopError : Type 0 where
  timed_out consume_failed waiting : LoopError
  not_processed : AttemptError → LoopError

pub record Progress : Type 0 where
  pub source_consumed : ℕ
  pub passed_count : ℕ
  pub produced : List Envelope

-- The offsets of the partitions: from the first up to, without, the second.
abbrev pub in_range : (ℕ → ℕ) → (ℕ → ℕ) → Message → Bool
in_range starts ends message =
    not (ltb message.offset (starts message.partition))
    && ltb message.offset (ends message.partition)

abbrev pub count_passed : Option Envelope → ℕ
count_passed none = 1
count_passed (some envelope) = 0

abbrev pub envelopes_of : Option Envelope → List Envelope
envelopes_of none = []
envelopes_of (some envelope) = envelope ∷ []

-- The end of the loop's body, for a message's routing.
abbrev pub advance : Option Envelope → Progress → Progress
advance outcome p = record {
  source_consumed = p.source_consumed + 1;
  passed_count = p.passed_count + count_passed outcome;
  produced = p.produced ++ envelopes_of outcome;
}

module _ (max_attempts : ℕ) (starts ends : ℕ → ℕ) (expected_source_count : ℕ) where
  -- `continue` where the message is out of range.
  unfoldable pub consume : Message → Progress → Result LoopError Progress
  consume message p =
      if in_range starts ends message
      then elim (route max_attempts message) [
        | raise e ↦ raise (not_processed e)
        | ok outcome ↦ ok (advance outcome p)
      ]
      else ok p

  unfoldable pub answer : Poll → Progress → Result LoopError Progress
  answer (nothing is_stale) p = if is_stale then raise timed_out else ok p
  answer failure p = raise consume_failed
  answer (arrived message) p = consume message p

  -- The loop tests its condition before every poll.
  unfoldable pub consume_all : List Poll → Progress → Result LoopError Progress
  consume_all [] p = if ltb p.source_consumed expected_source_count then raise waiting else ok p
  consume_all (poll ∷ polls) p = elim (ltb p.source_consumed expected_source_count) [
    | false ↦ ok p
    | true ↦ elim (answer poll p) [ raise e ↦ raise e | ok p' ↦ consume_all polls p' ]
  ]
