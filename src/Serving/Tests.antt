-- ===== src/Serving/Tests.antt =====
-- A load of two rows, one of which is there already.
use nasa_earth_observation_e.Prelude.{false, some, [], ◌∷◌, ok, ◌≡◌, refl}
use nasa_earth_observation_e.Text.{Text, codes, text_eq, starts_with}
use nasa_earth_observation_e.Serving.{
  EventDetail, succeeded, Database, GoldArtifact, GoldManifest, ends_with, is_load_artifact,
  check_artifacts, load_manifest, insert_path, sort_paths, start_load, insert_events,
  stage_and_insert, load,
}
use nasa_earth_observation_e.Serving.Loaded.{IsLoad, load-IsLoad}

abbrev hash : Text → Text
hash content = content

abbrev artifact : GoldArtifact
artifact = record {
  path = codes "load_artifact/part-0.json";
  bytes = 2;
  sha256 = codes "ab";
  rows = some 2;
  content = some (codes "ab");
  payloads =
      record { event_id = codes "a"; governed_content_hash = codes "1"; gold_run_id = codes "g" }
      ∷ record { event_id = codes "b"; governed_content_hash = codes "2"; gold_run_id = codes "g" }
      ∷ [];
}

abbrev manifest : GoldManifest
manifest = record {
  gold_run_id = codes "g";
  expected_rows = 2;
  load_artifact_rows = 2;
  artifacts = artifact ∷ [];
}

abbrev row : Text → Text → Text → EventDetail
row id content run = record { event_id = id; governed_content_hash = content; gold_run_id = run }

abbrev database : Database
database = record { events = row (codes "a") (codes "1") (codes "f") ∷ []; load_runs = [] }

loaded : load hash (codes "k") false 2 manifest database ≡ (
  ok (record { inserted_rows = 1; already_present_rows = 1; idempotent_noop = false }),
  record {
    events = row (codes "a") (codes "1") (codes "f") ∷ row (codes "b") (codes "2") (codes "g") ∷ [];
    load_runs =
        record { idempotency_key = codes "k"; gold_run_id = codes "g"; status = succeeded } ∷ [];
  },
)
unfolding load load_manifest check_artifacts is_load_artifact ends_with starts_with text_eq
    start_load insert_path sort_paths insert_events stage_and_insert
loaded = refl

load-IsLoad_example :
    IsLoad hash
      (codes "k")
      false
      2
      manifest
      database
      (load hash (codes "k") false 2 manifest database)
load-IsLoad_example = load-IsLoad hash (codes "k") false 2 manifest database
