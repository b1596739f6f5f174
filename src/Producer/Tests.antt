-- ===== src/Producer/Tests.antt =====
-- Two of three lines, sent to one partition.
use nasa_earth_observation_e.Prelude.{ℕ, ◌≤◌, List, [], ◌∷◌, ok, ◌≡◌, refl}
use nasa_earth_observation_e.Prelude.Assoc.{lookup}
use nasa_earth_observation_e.Text.{Text, codes, text_eq}
use nasa_earth_observation_e.Replay.Value.{text, get}
use nasa_earth_observation_e.Replay.Generator.{object}
use nasa_earth_observation_e.Producer.{
  SourceLine, Broker, Published, delivered, send_lines, publish_jsonl,
}
use nasa_earth_observation_e.Producer.Reconciled.{IsReconciled, publish_jsonl-IsReconciled}

abbrev line : ℕ → SourceLine
line c = record { value = c ∷ []; event = object (("lineage_root_id", text (c ∷ [])) ∷ []) }

abbrev lines : List SourceLine
lines = line b'a' ∷ line b'b' ∷ line b'c' ∷ []

abbrev hash : Text → Text
hash content = content

abbrev broker : Broker
broker = record {
  start_offsets = λ p. 5;
  end_offsets = λ p. 7;
  reports = delivered 0 ∷ delivered 0 ∷ [];
  undelivered_after_flush = 0;
}

abbrev published : Published
published = record {
  attempted = 2;
  value_bytes = 2;
  sent =
      record { key = codes "a"; value = codes "a" }
      ∷ record { key = codes "b"; value = codes "b" }
      ∷ [];
}

published_lem : publish_jsonl hash (codes "abc") (codes "abc") 1 2 lines broker ≡ ok published
unfolding publish_jsonl send_lines get lookup text_eq
published_lem = refl

publish_jsonl-IsReconciled_example :
    (hash (codes "abc") ≡ codes "abc") × (1 ≤ 2) × IsReconciled 1 2 lines broker published
publish_jsonl-IsReconciled_example =
    publish_jsonl-IsReconciled hash (codes "abc") (codes "abc") 1 2 lines broker published
      published_lem
