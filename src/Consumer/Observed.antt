-- ===== src/Consumer/Observed.antt =====
-- What the loop of `consume_producer_run` in src/eo_event_platform/streaming/kafka/consumer.py has
-- counted when it ends.
use mathlib.Core.Path.{subst}
use mathlib.Core.List.{append-nil}
use nasa_earth_observation_e.Prelude.{
  ℕ, zero, suc, ◌+◌, Bool, true, false, Option, none, some, List, [], ◌∷◌, ◌++◌, length, ltb,
  Result, ok, ◌>>=◌, ◌≡◌, refl, sym, ap, ◌∙◌, inl, inr, arith, Bool-cases, Result-cases,
  ok-injective,
}
use nasa_earth_observation_e.Prelude.Int.{ℤ}
use nasa_earth_observation_e.Text.{Text}
use nasa_earth_observation_e.Replay.Value.{Event, get, value_eq}
use nasa_earth_observation_e.Replay.Generator.{Line, not_json, not_an_object, object, present_text}
use nasa_earth_observation_e.Router.Validation.{key_value}
use nasa_earth_observation_e.Router.Routing.{Message}
use nasa_earth_observation_e.Router.Loop.{Poll, nothing, failure, arrived, in_range}
use nasa_earth_observation_e.Router.Reconciled.{taken}
use nasa_earth_observation_e.Consumer.{
  Tally, ConsumeError, as_int, count_item, add_int, count_none, observe_event, reached,
  observe_value, observe, answer_poll, observe_all,
}

-- The loop's bodies for messages, one after another.
abbrev pub observe_list : List Message → Tally → Result ConsumeError Tally
observe_list [] t = ok t
observe_list (message ∷ messages) t = observe message t >>= observe_list messages

observe_value-consumed :
    (message : Message) (line : Line) (t t' : Tally)
    → observe_value message line t ≡ ok t'
    → t'.consumed ≡ t.consumed
unfolding observe_event
observe_value-consumed message not_json t t' h =
    sym (ap (λ (s : Tally). s.consumed) (ok-injective h))
observe_value-consumed message not_an_object t t' h = cc
observe_value-consumed message (object event) t t' h =
    sym (ap (λ (s : Tally). s.consumed) (ok-injective h))

module _ (starts ends : ℕ → ℕ) (expected : ℕ) where
  abbrev test : Message → Bool
  test = in_range starts ends

  -- The messages that the loop has consumed when it ends: the first ones in range.
  pub observe_all-observe_list :
      (left : ℕ) (polls : List Poll) (t t' : Tally)
      → t.consumed + left ≡ expected
      → observe_all starts ends expected polls t ≡ ok t'
      → (observe_list (taken test left polls) t ≡ ok t') × (length (taken test left polls) ≡ left)
  unfolding observe_all answer_poll
  observe_all-observe_list left [] t t' h k = elim (Bool-cases (ltb t.consumed expected)) [
    | inl below ↦ absurd (ground (arith, below))
    | inr done ↦ (ground (arith, done, k), ground (arith, done, h))
  ]
  observe_all-observe_list zero (poll ∷ polls) t t' h k =
      let done : ltb t.consumed expected ≡ false = ground (arith, h) in
      (ground (arith, done, k), refl)
  observe_all-observe_list (suc left) (nothing true ∷ polls) t t' h k =
      let below : ltb t.consumed expected ≡ true = ground (arith, h) in
      absurd (ground (arith, below))
  observe_all-observe_list (suc left) (nothing false ∷ polls) t t' h k =
      let below : ltb t.consumed expected ≡ true = ground (arith, h) in
      observe_all-observe_list (suc left) polls t t' h (ground (arith, below))
  observe_all-observe_list (suc left) (failure ∷ polls) t t' h k =
      let below : ltb t.consumed expected ≡ true = ground (arith, h) in
      absurd (ground (arith, below))
  observe_all-observe_list (suc left) (arrived message ∷ polls) t t' h k =
      let below : ltb t.consumed expected ≡ true = ground (arith, h) in
      elim (Bool-cases (test message)) [
        | inl inside ↦ elim (Result-cases (observe message t)) [
          | inl (e, broken) ↦ absurd (ground (arith, below, inside, broken, k))
          | inr (t1, seen) ↦
              let next : observe_all starts ends expected polls t1 ≡ ok t' =
                ground (arith, below, inside, seen, k) in
              let count =
                observe_value-consumed message message.value (reached message t) t1 seen in
              let (rest, size) =
                observe_all-observe_list left polls t1 t' (omega (arith, count, h)) next in
              rw (inside, seen) (rest, ap suc size)
        ]
        | inr outside ↦
            let next : observe_all starts ends expected polls t ≡ ok t' =
              ground (arith, below, outside, k) in
            rw outside (observe_all-observe_list (suc left) polls t t' h next)
      ]

-- The event of a message, its identity and its number in the sequence of the replay.
abbrev pub id_of_line : Line → Option Text
id_of_line (object event) = present_text (get "event_id" event)
id_of_line _ = none

abbrev pub id_of : Message → Option Text
id_of message = id_of_line message.value

abbrev pub sequence_of_line : Line → Option ℤ
sequence_of_line (object event) = as_int (get "replay_sequence_number" event)
sequence_of_line _ = none

abbrev pub sequence_of : Message → Option ℤ
sequence_of message = sequence_of_line message.value

abbrev pub ids_of : List Message → List Text
ids_of [] = []
ids_of (message ∷ messages) = count_item (id_of message) [] ++ ids_of messages

-- A message with an event that has an identity, under the key of the event's lineage.
pub record IsClean (message : Message) : Type 0 where
  pub event : Event
  pub json : message.value ≡ object event
  pub id : Text
  pub identified : id_of message ≡ some id
  pub keyed : value_eq (key_value message.key) (get "lineage_root_id" event) ≡ true

abbrev pub faults : Tally → ℕ
faults t = t.invalid_json + t.missing_event_id + t.key_lineage_mismatch

-- What a message without a fault has added.
pub record IsObserved (message : Message) (t t' : Tally) : Type 0 where
  pub before : faults t ≡ 0
  pub clean : IsClean message
  pub ids : t'.event_ids ≡ t.event_ids ++ count_item (id_of message) []
  pub sequences : t'.replay_sequences ≡ add_int (sequence_of message) t.replay_sequences

present_text-cases : (o : Option Text) → (count_none o ≡ 0) → (id : Text) × (o ≡ some id)
present_text-cases none h = ground (arith, h)
present_text-cases (some id) h = (id, refl)

count_item-append :
    (o : Option Text) (items : List Text) → count_item o items ≡ items ++ count_item o []
count_item-append none items = sym (append-nil items)
count_item-append (some item) items = refl

observe_event-IsObserved :
    (message : Message) (event : Event) (t : Tally)
    → message.value ≡ object event
    → faults (observe_event message event (reached message t)) ≡ 0
    → IsObserved message t (observe_event message event (reached message t))
unfolding observe_event
observe_event-IsObserved message event t json h =
    let missing : count_none (present_text (get "event_id" event)) ≡ 0 = omega (arith, h) in
    let (id, found) = present_text-cases (present_text (get "event_id" event)) missing in
    let line : id_of message ≡ present_text (get "event_id" event) = ap id_of_line json in
    record {
      before = omega (arith, h);
      clean = record {
        event = event;
        json = json;
        id = id;
        identified = line ∙ found;
        keyed = ground (arith, h);
      };
      ids =
          count_item-append (present_text (get "event_id" event)) t.event_ids
          ∙ ap (λ o. t.event_ids ++ count_item o []) (sym line);
      sequences = ap (λ l. add_int (sequence_of_line l) t.replay_sequences) (sym json);
    }

pub observe_value-IsObserved :
    (message : Message) (line : Line) (t t' : Tally)
    → message.value ≡ line
    → observe_value message line (reached message t) ≡ ok t'
    → faults t' ≡ 0
    → IsObserved message t t'
observe_value-IsObserved message not_json t t' json h none_left =
    let same = ap faults (ok-injective h) in ground (arith, same, none_left)
observe_value-IsObserved message not_an_object t t' json h none_left = cc
observe_value-IsObserved message (object event) t t' json h none_left =
    let same = ok-injective h in
    subst (IsObserved message t) same
      (observe_event-IsObserved message event t json (ap faults same ∙ none_left))
