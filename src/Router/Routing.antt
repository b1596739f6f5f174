-- ===== src/Router/Routing.antt =====
-- The routing of one message in src/eo_event_platform/streaming/kafka/failure_router.py: the body of the
-- loop of `route_failures`, up to the produced envelope.
use nasa_earth_observation_e.Prelude.{
  ℕ, suc, String, true, false, Option, none, some, List, [], ◌∷◌, if◌then◌else◌, Result, ok, raise,
  ◌≡◌, refl, Bool-cases, inl, inr,
}
use nasa_earth_observation_e.Text.{Text}
use nasa_earth_observation_e.Replay.Value.{Value, null, Event, get}
use nasa_earth_observation_e.Replay.Generator.{Line, not_json, not_an_object, object}
use nasa_earth_observation_e.Router.Validation.{validation_errors}
use nasa_earth_observation_e.Router.Attempts.{
  AttemptError, Processing, is_faulty, process_with_bounded_attempts,
  process_with_bounded_attempts_lem,
}

pub data RoutingType : Type 0 where
  rejected dead_letter : RoutingType

-- A message of the source topic; its value is what `json.loads` makes of it, an
-- empty key is none, and a key that is no UTF-8, which ends the router, is left out.
pub record Message : Type 0 where
  pub partition : ℕ
  pub offset : ℕ
  pub key : Option Text
  pub value : Line

-- The envelope without its version, run, topic, times and copy of the bytes, which no decision reads.
pub record Envelope : Type 0 where
  pub routing_type : RoutingType
  pub source_partition : ℕ
  pub source_offset : ℕ
  pub message_key : Option Text
  pub event_id : Value
  pub lineage_root_id : Value
  pub reason_codes : List String
  pub processing_attempts : ℕ
  pub failure_category : Option String
  pub original_event : Option Event

-- `event.get(name) if event else None`: an empty object is no event.
abbrev pub field_of : String → Option Event → Value
field_of name none = null
field_of name (some []) = null
field_of name (some (item ∷ items)) = get name (item ∷ items)

unfoldable pub build_envelope :
    RoutingType → Message → Option Event → List String → ℕ → Option String → Envelope
build_envelope routing_type message event reason_codes attempts failure = record {
  routing_type = routing_type;
  source_partition = message.partition;
  source_offset = message.offset;
  message_key = message.key;
  event_id = field_of "event_id" event;
  lineage_root_id = field_of "lineage_root_id" event;
  reason_codes = reason_codes;
  processing_attempts = attempts;
  failure_category = failure;
  original_event = event;
}

-- A message without errors is processed: `none` is a message that passes.
abbrev pub routed : Message → Event → Processing → Option Envelope
routed message event (true, attempts, failure) = none
routed message event (false, attempts, failure) = some (
    build_envelope dead_letter message (some event) ("PROCESSING_RETRIES_EXHAUSTED" ∷ []) attempts
      failure)

abbrev pub when_processed :
    Message → Event → Result AttemptError Processing → Result AttemptError (Option Envelope)
when_processed message event (raise e) = raise e
when_processed message event (ok processing) = ok (routed message event processing)

unfoldable pub route_checked :
    ℕ → Message → Event → List String → Result AttemptError (Option Envelope)
route_checked max_attempts message event [] =
    when_processed message event (process_with_bounded_attempts event max_attempts)
route_checked max_attempts message event (code ∷ codes) =
    ok (some (build_envelope rejected message (some event) (code ∷ codes) 0 none))

abbrev pub corrupt : Message → Envelope
corrupt message = build_envelope rejected message none ("CORRUPT_JSON" ∷ []) 0 none

abbrev pub route_value : ℕ → Message → Line → Result AttemptError (Option Envelope)
route_value max_attempts message not_json = ok (some (corrupt message))
route_value max_attempts message not_an_object = ok (some (corrupt message))
route_value max_attempts message (object event) =
    route_checked max_attempts message event (validation_errors event message.key)

unfoldable pub route : ℕ → Message → Result AttemptError (Option Envelope)
route max_attempts message = route_value max_attempts message message.value

-- What the router promises of a message, from the message alone.
abbrev pub expected_checked : ℕ → Message → Event → List String → Option Envelope
expected_checked max_attempts message event [] =
    if is_faulty event
    then some (
        build_envelope dead_letter message (some event) ("PROCESSING_RETRIES_EXHAUSTED" ∷ [])
          max_attempts (some "RuntimeError"))
    else none
expected_checked max_attempts message event (code ∷ codes) =
    some (build_envelope rejected message (some event) (code ∷ codes) 0 none)

abbrev pub expected_route : ℕ → Message → Line → Option Envelope
expected_route max_attempts message (object event) =
    expected_checked max_attempts message event (validation_errors event message.key)
expected_route max_attempts message _ = some (corrupt message)

route_checked_lem :
    (more : ℕ) (message : Message) (event : Event) (errors : List String)
    → route_checked (suc more) message event errors
      ≡ ok (expected_checked (suc more) message event errors)
unfolding route_checked
route_checked_lem more message event [] = elim (Bool-cases (is_faulty event)) [
  | inl faulty ↦ rw (process_with_bounded_attempts_lem event more, faulty)
  | inr sound ↦ rw (process_with_bounded_attempts_lem event more, sound)
]
route_checked_lem more message event (code ∷ codes) = refl

-- With a positive bound on the attempts the routing of a message returns: a value that is no JSON
-- object and an event with errors are rejected, unprocessed and with their codes; an event without
-- errors passes, or goes to the dead letters where its processing fails in every attempt.
pub route_lem :
    (more : ℕ) (message : Message)
    → route (suc more) message ≡ ok (expected_route (suc more) message message.value)
unfolding route
route_lem more message =
    elim message.value
      as (λ v. route_value (suc more) message v ≡ ok (expected_route (suc more) message v)) [
        | not_json ↦ refl
        | not_an_object ↦ refl
        | object event ↦ route_checked_lem more message event (validation_errors event message.key)
      ]
