-- ===== src/Router/Run.antt =====
-- `route_failures` of src/eo_event_platform/streaming/kafka/failure_router.py around its loop: the checks
-- of the source's manifest, and the reconciliation. What the Kafka cluster does with the produced
-- messages is a parameter; paths, clocks and the manifest that it writes either way are left out.
use nasa_earth_observation_e.Prelude.{
  ℕ, suc, ◌+◌, Bool, true, not, ◌&&◌, ◌||◌, List, [], Option, none, some, map, length, Result, ok,
  raise, ◌>>=◌, ◌>>◌, raise_if, ◌==◌, ◌≡◌, arith, >>=-eq-ok, >>-eq-ok,
}
use mathlib.Core.Path.{subst}
use nasa_earth_observation_e.Text.{Text, codes, text_eq}
use nasa_earth_observation_e.Replay.Value.{Value}
use nasa_earth_observation_e.Router.Routing.{rejected, dead_letter}
use nasa_earth_observation_e.Router.Delivery.{
  Routed, routed_of, produce_all, produce_all-map, verified,
}
use nasa_earth_observation_e.Router.Loop.{Poll, LoopError, Progress, in_range, consume_all}
use nasa_earth_observation_e.Router.Reconciled.{taken, routes, consume_all-IsReconciled}

-- What the router reads of the producer's manifest: the offsets are functions of the partition.
pub record SourceManifest : Type 0 where
  pub status : Text
  pub is_reconciled : Bool
  pub start_offsets : ℕ → ℕ
  pub end_offsets : ℕ → ℕ
  pub delivered_count : ℕ

-- What the cluster gives: the counts of the delivery callbacks, the messages left after the flush, the
-- growth of the output topics, and the messages that are read back from them.
pub record Deliveries : Type 0 where
  pub rejected_delivered : ℕ
  pub dead_delivered : ℕ
  pub delivery_failures : ℕ
  pub undelivered : ℕ
  pub rejected_delta : ℕ
  pub dead_delta : ℕ
  pub rejected_range : List Routed
  pub dead_range : List Routed

pub data RunError : Type 0 where
  source_not_successful not_reconciled not_encodable : RunError
  loop_ended : LoopError → RunError

abbrev pub or_ended : {A : Type 0} → Result LoopError A → Result RunError A
or_ended (ok a) = ok a
or_ended (raise e) = raise (loop_ended e)

-- `reconciled`
unfoldable pub reconciles : Progress → Deliveries → Bool
reconciles p d =
    p.source_consumed == p.passed_count + d.rejected_delivered + d.dead_delivered
    && d.delivery_failures == 0
    && d.undelivered == 0
    && d.rejected_delta == d.rejected_delivered
    && d.dead_delta == d.dead_delivered
    && verified rejected d.rejected_delivered d.rejected_range
    && verified dead_letter d.dead_delivered d.dead_range

-- A key that is not encoded ends the run.
abbrev pub or_not_encodable : Option (List Routed) → Result RunError (List Routed)
or_not_encodable none = raise not_encodable
or_not_encodable (some messages) = ok messages

abbrev pub start : Progress
start = record { source_consumed = 0; passed_count = 0; produced = [] }

module _ (str : Value → Text) (deliver : List Routed → Deliveries) (max_attempts : ℕ) where
  unfoldable pub route_failures : SourceManifest → List Poll → Result RunError Progress
  route_failures manifest polls = do
    raise_if (not (text_eq manifest.status (codes "SUCCEEDED")) || not manifest.is_reconciled)
        source_not_successful
    p ← or_ended (
        consume_all max_attempts manifest.start_offsets manifest.end_offsets
          manifest.delivered_count polls start)
    messages ← or_not_encodable (produce_all str p.produced)
    raise_if (not (reconciles p (deliver messages))) not_reconciled
    ok p

or_ended_lem : {A : Type 0} (r : Result LoopError A) (a : A) → or_ended r ≡ ok a → r ≡ ok a
or_ended_lem (ok b) a h = cc
or_ended_lem (raise e) a h = cc

or_not_encodable_lem :
    (o : Option (List Routed)) (messages : List Routed)
    → or_not_encodable o ≡ ok messages
    → o ≡ some messages
or_not_encodable_lem none messages h = cc
or_not_encodable_lem (some ms) messages h = cc

-- What was delivered of a run, and read back.
pub record IsDelivered (p : Progress) (d : Deliveries) : Type 0 where
  pub all_delivered : d.rejected_delivered + d.dead_delivered ≡ length p.produced
  pub none_failed : d.delivery_failures ≡ 0
  pub none_left : d.undelivered ≡ 0
  pub deltas : (d.rejected_delta ≡ d.rejected_delivered) × (d.dead_delta ≡ d.dead_delivered)
  pub rejected_verified : verified rejected d.rejected_delivered d.rejected_range ≡ true
  pub dead_verified : verified dead_letter d.dead_delivered d.dead_range ≡ true

reconciles-IsDelivered :
    (p : Progress) (d : Deliveries)
    → reconciles p d ≡ true
    → p.source_consumed ≡ p.passed_count + length p.produced
    → IsDelivered p d
unfolding reconciles
reconciles-IsDelivered p d h sum = record {
  all_delivered = ground (arith, sum);
  none_failed = ground arith;
  none_left = ground arith;
  deltas = (ground arith, ground arith);
  rejected_verified = ground arith;
  dead_verified = ground arith;
}

-- A run of the router that returns, with a positive bound on the attempts: it has consumed as many
-- messages as its source has delivered, has produced for them the envelopes that they are to have,
-- and as many messages were delivered to the two topics as did not pass; no delivery failed, none was
-- left, the topics grew by what was delivered, and what is read back from them is verified.
pub route_failures-IsDelivered :
    (str : Value → Text) (deliver : List Routed → Deliveries) (more : ℕ) (manifest : SourceManifest)
    (polls : List Poll) (p : Progress)
    → route_failures str deliver (suc more) manifest polls ≡ ok p
    → (p.source_consumed ≡ manifest.delivered_count)
      × (p.produced
          ≡ routes (suc more) (
              taken
                (in_range manifest.start_offsets manifest.end_offsets)
                manifest.delivered_count
                polls))
      × IsDelivered p (deliver (map (routed_of str) p.produced))
unfolding route_failures
route_failures-IsDelivered str deliver more manifest polls p h =
    let (source, h1) =
      >>-eq-ok
        (raise_if (not (text_eq manifest.status (codes "SUCCEEDED")) || not manifest.is_reconciled)
          _)
        _ h in
    let (p', looped, h2) =
      >>=-eq-ok
        (or_ended (
          consume_all (suc more) manifest.start_offsets manifest.end_offsets
            manifest.delivered_count polls start))
        _ h1 in
    let (messages, encoded, h3) = >>=-eq-ok (or_not_encodable (produce_all str p'.produced)) _ h2 in
    let mapped : messages ≡ map (routed_of str) p'.produced =
      produce_all-map str p'.produced messages (or_not_encodable_lem _ messages encoded) in
    let same : p' ≡ p = ground (arith, h3) in
    let passed : reconciles p' (deliver messages) ≡ true = ground (arith, h3) in
    let (complete, count, produced, sum) =
      consume_all-IsReconciled more manifest.start_offsets manifest.end_offsets
        manifest.delivered_count polls p' (or_ended_lem _ p' looped) in
    subst
      (λ (q : Progress).
        (q.source_consumed ≡ manifest.delivered_count)
        × (q.produced
            ≡ routes (suc more) (
                taken (in_range manifest.start_offsets manifest.end_offsets)
                  manifest.delivered_count polls))
        × IsDelivered q (deliver (map (routed_of str) q.produced)))
      same
      (
        complete,
        produced,
        subst (λ ms. IsDelivered p' (deliver ms)) mapped
            (reconciles-IsDelivered p' (deliver messages) passed sum),
      )
