-- ===== src/Producer.antt =====
-- `publish_jsonl` of src/eo_event_platform/streaming/kafka/producer.py. What Kafka does is given: the
-- watermarks of the partitions before and after, the delivery reports that the callback has been
-- called with by the end of the flush, and what the flush returns. A full buffer only delays a
-- message, so its retries are left out, as are the headers, the clock and the fields of the manifest.
-- SHA-256 is a parameter.
pub mod Reconciled
mod Tests
use nasa_earth_observation_e.Prelude.{
  ℕ, zero, suc, ◌+◌, Bool, true, false, ◌&&◌, not, Option, none, some, List, [], ◌∷◌, ◌++◌, length,
  leb, ◌==◌, if◌then◌else◌, Result, ok, raise, ◌>>=◌, ◌>>◌, raise_if,
}
use nasa_earth_observation_e.Text.{Text, text_eq}
use nasa_earth_observation_e.Replay.Value.{Event, get}
use nasa_earth_observation_e.Replay.Generator.{Line, not_json, not_an_object, object, present_text}

-- A line without its end, and what `json.loads` makes of it.
pub record SourceLine : Type 0 where
  pub value : Text
  pub event : Line

-- A call of the callback: an error, or the partition of a delivered message.
pub data Report : Type 0 where
  failed : Text → Report
  delivered : (partition : ℕ) → Report

pub record Sent : Type 0 where
  pub key : Text
  pub value : Text

-- What Kafka does in a run, over the partitions below their number.
pub record Broker : Type 0 where
  pub start_offsets : ℕ → ℕ
  pub end_offsets : ℕ → ℕ
  pub reports : List Report
  pub undelivered_after_flush : ℕ

pub data PublishError : Type 0 where
  limit_not_positive wrong_checksum invalid_json attribute_error no_lineage not_reconciled :
      PublishError

-- The variables of the loop.
pub record Published : Type 0 where
  pub attempted : ℕ
  pub value_bytes : ℕ
  pub sent : List Sent

-- The key of a line's message.
abbrev pub lineage_key : Line → Result PublishError Text
lineage_key not_json = raise invalid_json
lineage_key not_an_object = raise attribute_error
lineage_key (object event) = elim (present_text (get "lineage_root_id" event)) [
  | none ↦ raise no_lineage
  | some key ↦ ok key
]

abbrev pub send : SourceLine → Text → Published → Published
send line key p = record {
  attempted = suc p.attempted;
  value_bytes = p.value_bytes + length line.value;
  sent = p.sent ++ record { key = key; value = line.value } ∷ [];
}

-- The loop over the lines.
unfoldable pub send_lines : ℕ → List SourceLine → Published → Result PublishError Published
send_lines message_limit [] p = ok p
send_lines message_limit (line ∷ lines) p = elim (leb message_limit p.attempted) [
  | true ↦ ok p
  | false ↦ (do key ← lineage_key line.event; send_lines message_limit lines (send line key p))
]

-- `sum(delivered_by_partition.values())` and `len(delivery_failures)`
abbrev pub count_delivered : List Report → ℕ
count_delivered [] = 0
count_delivered (failed error ∷ reports) = count_delivered reports
count_delivered (delivered partition ∷ reports) = suc (count_delivered reports)

abbrev pub count_failed : List Report → ℕ
count_failed [] = 0
count_failed (failed error ∷ reports) = suc (count_failed reports)
count_failed (delivered partition ∷ reports) = count_failed reports

-- The sum over the partitions.
abbrev pub sum_offsets : ℕ → (ℕ → ℕ) → ℕ
sum_offsets zero offsets = 0
sum_offsets (suc n) offsets = sum_offsets n offsets + offsets n

-- `reconciled`. That the offsets have grown by the deliveries is said without a subtraction.
abbrev pub is_reconciled : ℕ → Broker → Published → Bool
is_reconciled partition_count broker p =
    (p.attempted == count_delivered broker.reports)
    && (count_failed broker.reports == 0)
    && (broker.undelivered_after_flush == 0)
    && (sum_offsets partition_count broker.end_offsets
        == sum_offsets partition_count broker.start_offsets + count_delivered broker.reports)

-- A `message_limit` that is negative fails the test that 0 fails.
unfoldable pub publish_jsonl :
    (Text → Text) → Text → Text → ℕ → ℕ → List SourceLine → Broker → Result PublishError Published
publish_jsonl sha256 content expected_source_sha256 partition_count message_limit lines broker = do
  raise_if (message_limit == 0) limit_not_positive
  raise_if (not (text_eq (sha256 content) expected_source_sha256)) wrong_checksum
  p ← send_lines message_limit lines (record { attempted = 0; value_bytes = 0; sent = [] })
  raise_if (not (is_reconciled partition_count broker p)) not_reconciled
  ok p
