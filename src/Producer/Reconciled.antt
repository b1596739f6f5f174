-- ===== src/Producer/Reconciled.antt =====
-- What a run of src/eo_event_platform/streaming/kafka/producer.py that returns has sent.
use mathlib.Core.Path.{subst}
use mathlib.Core.List.{append-nil, append_assoc}
use nasa_earth_observation_e.Prelude.{
  ℕ, zero, suc, ◌+◌, ◌≤◌, true, false, not, List, [], ◌∷◌, ◌++◌, length, take, leb, ◌==◌, ok,
  raise_if, ◌≡◌, refl, sym, ◌∙◌, arith, ok-injective, >>=-eq-ok, >>-eq-ok, raise_if-not-eq-ok,
}
use nasa_earth_observation_e.Text.{Text, text_eq}
use nasa_earth_observation_e.Text.Equality.{text_eq_iff}
use nasa_earth_observation_e.Producer.{
  SourceLine, Sent, Broker, Published, lineage_key, send, send_lines, count_delivered, count_failed,
  sum_offsets, is_reconciled, publish_jsonl, limit_not_positive, wrong_checksum, not_reconciled,
}

-- A message carries a line's bytes under the key of its lineage.
pub record IsMessageOf (line : SourceLine) (message : Sent) : Type 0 where
  pub key : lineage_key line.event ≡ ok message.key
  pub value : message.value ≡ line.value

-- Messages of lines, one for each in their order.
abbrev pub AreMessagesOf : List SourceLine → List Sent → Type 0
AreMessagesOf [] [] = Unit
AreMessagesOf (line ∷ lines) (message ∷ messages) =
    IsMessageOf line message × AreMessagesOf lines messages
AreMessagesOf (line ∷ lines) [] = true ≡ false
AreMessagesOf [] (message ∷ messages) = true ≡ false

-- What the loop has sent from one state to another.
record IsSent (lines : List SourceLine) (left : ℕ) (p p' : Published) : Type 0 where
  pub messages : List Sent
  pub sent : p'.sent ≡ p.sent ++ messages
  pub match : AreMessagesOf (take left lines) messages
  pub count : p'.attempted ≡ p.attempted + length (take left lines)

nothing-IsSent :
    (lines : List SourceLine) (left : ℕ) (p : Published)
    → take left lines ≡ []
    → IsSent lines left p p
nothing-IsSent lines left p none_left = record {
  messages = [];
  sent = sym (append-nil p.sent);
  match = rw none_left tt;
  count = rw none_left (omega arith);
}

take-nil : (left : ℕ) → take {A = SourceLine} left [] ≡ []
take-nil zero = refl
take-nil (suc left) = refl

one-IsSent :
    (line : SourceLine) (lines : List SourceLine) (left : ℕ) (key : Text) (p p' : Published)
    → lineage_key line.event ≡ ok key
    → IsSent lines left (send line key p) p'
    → IsSent (line ∷ lines) (suc left) p p'
one-IsSent line lines left key p p' keyed s =
    let message : Sent = record { key = key; value = line.value } in
    record {
      messages = message ∷ s.messages;
      sent = s.sent ∙ append_assoc p.sent (message ∷ []) s.messages;
      match = (record { key = keyed; value = refl }, s.match);
      count = omega (arith, s.count);
    }

send_lines-IsSent :
    (limit left : ℕ) (lines : List SourceLine) (p p' : Published)
    → p.attempted + left ≡ limit
    → send_lines limit lines p ≡ ok p'
    → IsSent lines left p p'
unfolding send_lines
send_lines-IsSent limit left [] p p' size h =
    subst (IsSent [] left p) (ok-injective h) (nothing-IsSent [] left p (take-nil left))
send_lines-IsSent limit zero (line ∷ lines) p p' size h =
    let full : leb limit p.attempted ≡ true = ground (arith, size) in
    subst (IsSent (line ∷ lines) 0 p) (ok-injective (rw (send_lines, full) at h))
      (nothing-IsSent (line ∷ lines) 0 p refl)
send_lines-IsSent limit (suc left) (line ∷ lines) p p' size h =
    let more : leb limit p.attempted ≡ false = ground (arith, size) in
    let (key, keyed, rest) = >>=-eq-ok (lineage_key line.event) _ (rw (send_lines, more) at h) in
    one-IsSent line lines left key p p' keyed
      (send_lines-IsSent limit left lines (send line key p) p' (omega (arith, size)) rest)

-- A run that reconciled.
pub record IsReconciled (partition_count limit : ℕ) (lines : List SourceLine) (broker : Broker)
    (p : Published) : Type 0 where
  -- A message for each of the first lines, in their order.
  pub messages : AreMessagesOf (take limit lines) p.sent
  pub count : p.attempted ≡ length (take limit lines)
  pub reported : count_delivered broker.reports ≡ p.attempted
  pub failures : count_failed broker.reports ≡ 0
  pub flushed : broker.undelivered_after_flush ≡ 0
  pub offsets :
      sum_offsets partition_count broker.end_offsets
      ≡ sum_offsets partition_count broker.start_offsets + length (take limit lines)

-- A run that returns has read the artifact of the expected checksum and a positive limit. It has sent
-- one message for each of the first lines, at most as many as the limit, in their order, with the
-- line's bytes under the key of its lineage; each was reported delivered and none failed or is left;
-- and the offsets of the partitions have grown by as many together.
pub publish_jsonl-IsReconciled :
    (sha256 : Text → Text) (content expected : Text) (partition_count limit : ℕ)
    (lines : List SourceLine) (broker : Broker) (p : Published)
    → publish_jsonl sha256 content expected partition_count limit lines broker ≡ ok p
    → (sha256 content ≡ expected) × (1 ≤ limit) × IsReconciled partition_count limit lines broker p
unfolding publish_jsonl
publish_jsonl-IsReconciled sha256 content expected partition_count limit lines broker p h =
    let (bounded, h1) = >>-eq-ok (raise_if (limit == 0) limit_not_positive) _ h in
    let (hashed, h2) =
      >>-eq-ok (raise_if (not (text_eq (sha256 content) expected)) wrong_checksum) _ h1 in
    let start : Published = record { attempted = 0; value_bytes = 0; sent = [] } in
    let (p1, looped, h3) = >>=-eq-ok (send_lines limit lines start) _ h2 in
    let (checked, h4) =
      >>-eq-ok (raise_if (not (is_reconciled partition_count broker p1)) not_reconciled) _ h3 in
    let holds =
      raise_if-not-eq-ok (is_reconciled partition_count broker p1) not_reconciled checked in
    let s = send_lines-IsSent limit limit lines start p1 (omega arith) looped in
    let total = s.count in
    (
      ground (
        arith,
        text_eq_iff (sha256 content) expected,
        raise_if-not-eq-ok (text_eq (sha256 content) expected) wrong_checksum hashed,
      ),
      ground (arith, bounded),
      subst (IsReconciled partition_count limit lines broker) (ok-injective h4) (record {
        messages = subst (AreMessagesOf (take limit lines)) (sym s.sent) s.match;
        count = omega (arith, total);
        reported = ground (arith, holds);
        failures = ground (arith, holds);
        flushed = ground (arith, holds);
        offsets = ground (arith, holds, total);
      }),
    )
