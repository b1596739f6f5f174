-- ===== src/Router/Delivery.antt =====
-- The delivery of the envelopes, and `verify_routed_range` of
-- src/eo_event_platform/streaming/kafka/failure_router.py on the messages of its range.
use nasa_earth_observation_e.Prelude.{
  ℕ, ◌+◌, ◌<◌, Bool, true, false, not, ◌&&◌, Option, none, some, List, [], ◌∷◌, ◌++◌, map,
  if◌then◌else◌, length, any, ◌==◌, ◌≡◌, refl, arith, leb, sym, ap, ◌∙◌,
}
use mathlib.Core.Option.{some-injective}
use nasa_earth_observation_e.Text.{Text, codes}
use nasa_earth_observation_e.Replay.Value.{Value, null, text, value_eq}
use nasa_earth_observation_e.Router.Validation.{key_value}
use nasa_earth_observation_e.Router.Routing.{RoutingType, rejected, dead_letter, Envelope}

-- A message of an output topic: its key's text, and its envelope.
abbrev pub Routed : Type 0
Routed = Text × Envelope

-- `message.key()` of a key that is empty is falsy.
abbrev pub read_key : Text → Option Text
read_key [] = none
read_key (c ∷ s) = some (c ∷ s)

abbrev pub is_mismatch : Routed → Bool
is_mismatch (key, envelope) = not (value_eq (key_value (read_key key)) envelope.lineage_root_id)

abbrev pub same_type : RoutingType → RoutingType → Bool
same_type rejected rejected = true
same_type dead_letter dead_letter = true
same_type _ _ = false

-- The sets and counters of the loop.
unfoldable pub key_mismatches : List Routed → ℕ
key_mismatches [] = 0
key_mismatches (message ∷ messages) =
    (if is_mismatch message then 1 else 0) + key_mismatches messages

unfoldable pub invalid_envelopes : RoutingType → List Routed → ℕ
invalid_envelopes expected [] = 0
invalid_envelopes expected (message ∷ messages) =
    (if same_type message.1.routing_type expected then 0 else 1)
    + invalid_envelopes expected messages

abbrev pub coordinate : Envelope → ℕ × ℕ
coordinate envelope = (envelope.source_partition, envelope.source_offset)

unfoldable pub coordinates : List Routed → List (ℕ × ℕ)
coordinates [] = []
coordinates (message ∷ messages) =
    let rest = coordinates messages in
    let here = coordinate message.1 in
    if any (λ other. other.0 == here.0 && other.1 == here.1) rest then rest else here ∷ rest

unfoldable pub verified : RoutingType → ℕ → List Routed → Bool
verified expected expected_count messages =
    length messages == expected_count
    && invalid_envelopes expected messages == 0
    && key_mismatches messages == 0
    && length (coordinates messages) == expected_count

abbrev pub is_surrogate : ℕ → Bool
is_surrogate c = leb 55296 c && leb c 57343

abbrev pub and_produced : Option Routed → Option (List Routed) → Option (List Routed)
and_produced (some message) (some messages) = some (message ∷ messages)
and_produced _ _ = none

and_produced_lem :
    (first : Option Routed) (others : Option (List Routed)) (messages : List Routed)
    → and_produced first others ≡ some messages
    → (message : Routed) × (rest : List Routed) × (first ≡ some message)
      × (others ≡ some rest)
      × (message ∷ rest ≡ messages)
and_produced_lem (some message) (some rest) messages h =
    (message, rest, refl, refl, some-injective _ _ h)
and_produced_lem (some message) none messages h = cc
and_produced_lem none others messages h = cc

-- `str(value)` of a value that is no text is a parameter.
module _ (str : Value → Text) where
  abbrev pub key_text : Value → Text
  key_text (text s) = s
  key_text v = str v

  -- The message of an envelope: what `decode` reads of its key is what `encode` was given.
  abbrev pub routed_of : Envelope → Routed
  routed_of envelope = (key_text envelope.lineage_root_id, envelope)

  -- producer.produce(key=str(envelope["lineage_root_id"]).encode("utf-8")); `none` is the
  -- UnicodeEncodeError of a key with a lone surrogate.
  unfoldable pub produce : Envelope → Option Routed
  produce envelope =
      if any is_surrogate (key_text envelope.lineage_root_id)
      then none
      else some (routed_of envelope)

  unfoldable pub produce_all : List Envelope → Option (List Routed)
  produce_all [] = some []
  produce_all (envelope ∷ envelopes) = and_produced (produce envelope) (produce_all envelopes)

  produce-routed_of :
      (envelope : Envelope) (message : Routed)
      → produce envelope ≡ some message
      → message ≡ routed_of envelope
  unfolding produce
  produce-routed_of envelope message h = ground arith

  -- What was produced is the messages of the envelopes.
  pub produce_all-map :
      (envelopes : List Envelope) (messages : List Routed)
      → produce_all envelopes ≡ some messages
      → messages ≡ map routed_of envelopes
  unfolding produce_all
  produce_all-map [] [] h = refl
  produce_all-map [] (message ∷ messages) h = cc
  produce_all-map (envelope ∷ envelopes) messages h =
      let (message, rest, produced, others, whole) =
        and_produced_lem (produce envelope) (produce_all envelopes) messages h in
      sym whole
      ∙ ap (λ m. m ∷ rest) (produce-routed_of envelope message produced)
      ∙ ap (λ ms. routed_of envelope ∷ ms) (produce_all-map envelopes rest others)

  produce-null :
      str null ≡ codes "None"
      → (envelope : Envelope) → envelope.lineage_root_id ≡ null
      → is_mismatch (routed_of envelope) ≡ true
  unfolding value_eq
  produce-null none_text envelope h = rw (h, none_text)

  mismatched :
      str null ≡ codes "None"
      → (before after : List Routed) (envelope : Envelope) → envelope.lineage_root_id ≡ null
      → 0 < key_mismatches (before ++ routed_of envelope ∷ after)
  unfolding key_mismatches
  mismatched none_text [] after envelope h = rw (produce-null none_text envelope h) (omega arith)
  mismatched none_text (message ∷ before) after envelope h =
      omega (arith, mismatched none_text before after envelope h)

  -- Where `str(None)` is "None": an envelope without a lineage is produced, and its message counts as
  -- a mismatch of its key, so that no range of messages with it is verified.
  pub verified-no_lineage :
      str null ≡ codes "None"
      → (expected : RoutingType) (count : ℕ) (before after : List Routed) (envelope : Envelope)
      → envelope.lineage_root_id ≡ null
      → (message : Routed) × (produce envelope ≡ some message)
        × (verified expected count (before ++ message ∷ after) ≡ false)
  unfolding verified
  verified-no_lineage none_text expected count before after envelope h = (
    routed_of envelope,
    unfold produce in (rw (produce, h, none_text) refl),
    ground (arith, mismatched none_text before after envelope h),
  )
