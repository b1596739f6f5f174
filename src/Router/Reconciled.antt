-- ===== src/Router/Reconciled.antt =====
-- What the loop of the failure router has done when it ends.
use nasa_earth_observation_e.Prelude.{
  ℕ, zero, suc, ◌+◌, Bool, true, false, Option, none, some, List, [], ◌∷◌, ◌++◌, if◌then◌else◌,
  length, length-append, ltb, ◌≡◌, refl, sym, ap, ◌∙◌, arith, Bool-cases, inl, inr, Result, ok,
}
use mathlib.Core.Path.{subst}
use nasa_earth_observation_e.Router.Routing.{Message, Envelope, expected_route, route_lem}
use nasa_earth_observation_e.Router.Loop.{
  Poll, nothing, failure, arrived, LoopError, Progress, in_range, count_passed, envelopes_of,
  advance, consume, answer, consume_all,
}

-- The first messages in range, at most as many as are left.
abbrev pub taken : (Message → Bool) → ℕ → List Poll → List Message
taken test left [] = []
taken test zero (poll ∷ polls) = []
taken test (suc left) (nothing is_stale ∷ polls) = taken test (suc left) polls
taken test (suc left) (failure ∷ polls) = taken test (suc left) polls
taken test (suc left) (arrived message ∷ polls) =
    if test message then message ∷ taken test left polls else taken test (suc left) polls

-- The envelopes that messages are to have, in their order.
abbrev pub routes : ℕ → List Message → List Envelope
routes max_attempts [] = []
routes max_attempts (message ∷ rest) =
    envelopes_of (expected_route max_attempts message message.value) ++ routes max_attempts rest

abbrev pub passes : ℕ → List Message → ℕ
passes max_attempts [] = 0
passes max_attempts (message ∷ rest) =
    count_passed (expected_route max_attempts message message.value) + passes max_attempts rest

append_assoc : {A : Type 0} (xs ys zs : List A) → (xs ++ ys) ++ zs ≡ xs ++ (ys ++ zs)
append_assoc [] ys zs = refl
append_assoc (x ∷ xs) ys zs = ap (λ l. x ∷ l) (append_assoc xs ys zs)

append_nil : {A : Type 0} (xs : List A) → xs ++ [] ≡ xs
append_nil [] = refl
append_nil (x ∷ xs) = ap (λ l. x ∷ l) (append_nil xs)

one_outcome : (outcome : Option Envelope) → count_passed outcome + length (envelopes_of outcome) ≡ 1
one_outcome none = refl
one_outcome (some envelope) = refl

module _ (more : ℕ) (starts ends : ℕ → ℕ) (expected : ℕ) where
  abbrev test : Message → Bool
  test = in_range starts ends

  -- What has been done from one state to another, by these messages.
  pub record IsAdvanced (p : Progress) (messages : List Message) (p' : Progress) : Type 0 where
    pub consumed : p'.source_consumed ≡ p.source_consumed + length messages
    pub passed : p'.passed_count ≡ p.passed_count + passes (suc more) messages
    pub produced : p'.produced ≡ p.produced ++ routes (suc more) messages
    pub complete : p'.source_consumed ≡ expected

  still : (p : Progress) → p.source_consumed ≡ expected → IsAdvanced p [] p
  still p h = record {
    consumed = omega arith;
    passed = omega arith;
    produced = sym (append_nil p.produced);
    complete = h;
  }

  step :
      (message : Message) (messages : List Message) (p p' : Progress)
      → IsAdvanced (advance (expected_route (suc more) message message.value) p) messages p'
      → IsAdvanced p (message ∷ messages) p'
  step message messages p p' a = record {
    consumed = omega (arith, a.consumed);
    passed = omega (arith, a.passed);
    produced =
        a.produced
        ∙ append_assoc p.produced (envelopes_of (expected_route (suc more) message message.value))
            (routes (suc more) messages);
    complete = a.complete;
  }

  passes-routes :
      (messages : List Message)
      → passes (suc more) messages + length (routes (suc more) messages) ≡ length messages
  passes-routes [] = refl
  passes-routes (message ∷ rest) =
      let outcome = expected_route (suc more) message message.value in
      omega (
        arith,
        length-append (envelopes_of outcome) (routes (suc more) rest),
        one_outcome outcome,
        passes-routes rest,
      )

  abbrev loop : List Poll → Progress → Result LoopError Progress
  loop = consume_all (suc more) starts ends expected

  consume_all-IsAdvanced :
      (left : ℕ) (polls : List Poll) (p p' : Progress)
      → p.source_consumed + left ≡ expected
      → loop polls p ≡ ok p'
      → IsAdvanced p (taken test left polls) p'
  unfolding consume_all answer consume
  consume_all-IsAdvanced left [] p p' h k = elim (Bool-cases (ltb p.source_consumed expected)) [
    | inl below ↦ absurd (ground (arith, below))
    | inr done ↦
        let same : p ≡ p' = ground (arith, done) in
        subst (λ q. IsAdvanced p [] q) same (still p (ground (arith, done)))
  ]
  consume_all-IsAdvanced zero (poll ∷ polls) p p' h k =
      let done : ltb p.source_consumed expected ≡ false = ground arith in
      let same : p ≡ p' = ground (arith, done) in
      subst (λ q. IsAdvanced p [] q) same (still p (omega arith))
  consume_all-IsAdvanced (suc left) (nothing true ∷ polls) p p' h k =
      let below : ltb p.source_consumed expected ≡ true = ground arith in
      absurd (ground (arith, below))
  consume_all-IsAdvanced (suc left) (nothing false ∷ polls) p p' h k =
      let below : ltb p.source_consumed expected ≡ true = ground arith in
      consume_all-IsAdvanced (suc left) polls p p' h (ground (arith, below))
  consume_all-IsAdvanced (suc left) (failure ∷ polls) p p' h k =
      let below : ltb p.source_consumed expected ≡ true = ground arith in
      absurd (ground (arith, below))
  consume_all-IsAdvanced (suc left) (arrived message ∷ polls) p p' h k =
      let below : ltb p.source_consumed expected ≡ true = ground arith in
      elim (Bool-cases (test message)) [
        | inl inside ↦
            let outcome = expected_route (suc more) message message.value in
            let next : loop polls (advance outcome p) ≡ ok p' =
              ground (arith, below, inside, route_lem more message) in
            rw inside (
              step message (taken test left polls) p p'
                (consume_all-IsAdvanced left polls (advance outcome p) p' (omega arith) next))
        | inr outside ↦
            let next : loop polls p ≡ ok p' = ground (arith, below, outside) in
            rw outside (consume_all-IsAdvanced (suc left) polls p p' h next)
      ]

  -- With a positive bound on the attempts: a loop that ends from its start has consumed as many messages
  -- as are expected, the first ones in the range of their partitions; it has produced the envelopes
  -- that those are to have, in their order, and each message either passed or was produced.
  pub consume_all-IsReconciled :
      (polls : List Poll) (p : Progress)
      → loop polls (record { source_consumed = 0; passed_count = 0; produced = [] }) ≡ ok p
      → (p.source_consumed ≡ expected)
        × (length (taken test expected polls) ≡ expected)
        × (p.produced ≡ routes (suc more) (taken test expected polls))
        × (p.source_consumed ≡ p.passed_count + length p.produced)
  consume_all-IsReconciled polls p h =
      let start : Progress = record { source_consumed = 0; passed_count = 0; produced = [] } in
      let a = consume_all-IsAdvanced expected polls start p (omega arith) h in
      let sum = passes-routes (taken test expected polls) in
      (
        a.complete,
        omega (arith, a.consumed, a.complete),
        a.produced,
        rw a.produced (omega (arith, a.consumed, a.passed, sum)),
      )
