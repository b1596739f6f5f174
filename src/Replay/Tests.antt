-- ===== src/Replay/Tests.antt =====
-- A replay of one original, and the theorems at it.
use nasa_earth_observation_e.Prelude.{
  ℕ, Bool, true, false, Option, some, List, [], ◌∷◌, length, ok, raise, map, ◌≡◌, refl,
}
use nasa_earth_observation_e.Prelude.Assoc.{lookup, insert}
use nasa_earth_observation_e.Text.{Text, codes, text_eq, starts_with}
use nasa_earth_observation_e.Text.Float.{le}
use nasa_earth_observation_e.Json.{
  escape, escaped, quote, digits_from, show, dump_scalar, insert_key, sort_keys, dump_members,
  dumps,
}
use nasa_earth_observation_e.Replay.Plan.{
  ReplayPlan, validate_plan, build_replay_run_id, build_replay_event_id,
}
use nasa_earth_observation_e.Replay.Value.{Event, text, boolean, natural, get, value_eq}
use nasa_earth_observation_e.Replay.Update.{update}
use nasa_earth_observation_e.Replay.Generator.{
  Line, object, check_original, load_line, load_lines, text_lt, insert_original, sort_originals,
  load_original_events, build_replay_event, or_fault, replay_originals, replay_iterations,
}
use nasa_earth_observation_e.Replay.Run.{
  replay_events, generate_replay, replay_file, replay_manifest,
}
use nasa_earth_observation_e.Replay.Verified.{AreVerified, generate_replay-AreVerified}
use nasa_earth_observation_e.Replay.Verifier.{
  is_overwritten, check_expected, check_kept, has_fields, check_fields, or_bad_id, verify_event,
  verify_line, verify_lines,
}
use nasa_earth_observation_e.Replay.Verification.{
  ReplayManifest, LineFile, has_frequencies, check_totals, verify_manifest, IsVerified,
  verify_manifest-IsVerified,
}

replay : Unit {0}
unfolding lookup insert text_eq starts_with le escape escaped quote digits_from show dump_scalar
    insert_key sort_keys dump_members dumps validate_plan build_replay_run_id build_replay_event_id
    get value_eq update check_original load_line load_lines text_lt insert_original sort_originals
    load_original_events build_replay_event or_fault replay_originals replay_iterations
    replay_events generate_replay
replay = tt

abbrev digest : Text → Text
digest s = s

abbrev is_base_16 : Text → Bool
is_base_16 s = true

abbrev schedule : Text → Option (ℕ → Text)
schedule start = some (λ n. n ∷ [])

abbrev plan : ReplayPlan
plan = record {
  source_input_sha256 = codes "0123456789abcdef0123456789abcdef0123456789abcdef0123456789abcdef";
  source_record_count = 1;
  replay_factor = 2;
  scheduled_replay_start = codes "2026-08-01T00:00:00Z";
  scheduled_interval_milliseconds = 100;
}

abbrev original : Event
original =
    ("event_id", text (codes "a"))
    ∷ ("detection_id", text (codes "a"))
    ∷ ("lineage_root_id", text (codes "a"))
    ∷ ("source_record_id", text (codes "a"))
    ∷ ("source_type", text (codes "NASA_ORIGINAL"))
    ∷ ("is_synthetic", boolean false)
    ∷ ("latitude", natural 3)
    ∷ []

abbrev source_lines : List Line
source_lines = object original ∷ []

replayed_events : List Event
unfolding replay
replayed_events =
    elim (generate_replay digest is_base_16 schedule plan.source_input_sha256 source_lines plan
      (codes "v")).0 [ ok es ↦ es | raise e ↦ [] ]

replayed_lem :
    (generate_replay digest is_base_16 schedule plan.source_input_sha256 source_lines plan
      (codes "v")).0
    ≡ ok replayed_events
unfolding replay replayed_events
replayed_lem = refl

two_replays : length replayed_events ≡ 2
unfolding replay replayed_events
two_replays = refl

generate_replay-AreVerified_example :
    (run_id : Text) × (build_replay_run_id digest is_base_16 plan ≡ ok run_id)
    × AreVerified digest is_base_16 schedule plan.source_input_sha256 source_lines plan run_id
        (codes "v")
        replayed_events
    × ((generate_replay digest is_base_16 schedule plan.source_input_sha256 source_lines plan
          (codes "v")).1
        ≡ replay_file replayed_events ∷ replay_manifest run_id (length replayed_events) ∷ [])
generate_replay-AreVerified_example =
    generate_replay-AreVerified digest is_base_16 schedule plan.source_input_sha256 source_lines
      plan (codes "v") replayed_events
      (unfold replay in
        (
          (
            (refl, refl),
            (
              (refl, refl),
              ((refl, refl), ((refl, refl), ((refl, refl), ((refl, refl), ((refl, refl), tt))))),
            ),
          ),
          tt,
        ))
      replayed_lem

run_identity : Text
unfolding replay
run_identity = elim (build_replay_run_id digest is_base_16 plan) [ ok s ↦ s | raise e ↦ [] ]

manifest : ReplayManifest
unfolding replay run_identity
manifest = record {
  status = codes "SUCCEEDED";
  plan = plan;
  replay_run_id = run_identity;
  pipeline_version = codes "v";
  output_sha256 = codes "0f";
  output_bytes = 7;
  first_timestamp = some (0 ∷ []);
  last_timestamp = some (100 ∷ []);
}

abbrev source_file : LineFile
source_file = record { digest = plan.source_input_sha256; size = 5; lines = source_lines }

abbrev events_file : LineFile
events_file = record { digest = codes "0f"; size = 7; lines = map object replayed_events }

verified_lem : verify_manifest digest is_base_16 schedule manifest source_file events_file ≡ ok 2
unfolding replay replayed_events manifest run_identity verify_manifest check_totals has_frequencies
    verify_lines verify_line verify_event check_expected check_kept check_fields has_fields
    is_overwritten or_bad_id
verified_lem = refl

verify_manifest-IsVerified_example :
    IsVerified digest is_base_16 schedule manifest source_file events_file 2
verify_manifest-IsVerified_example =
    verify_manifest-IsVerified digest is_base_16 schedule manifest source_file events_file 2
      verified_lem
