-- ===== src/Replay/Verified.antt =====
-- What a run of src/eo_event_platform/replay/generator.py writes is accepted, line by line, by
-- src/eo_event_platform/replay/verify.py.
use nasa_earth_observation_e.Prelude.{
  ℕ, suc, ◌*◌, Bool, not, Option, none, some, List, [], ◌∷◌, length, map, All, ok, Result-cases,
  Option-cases, >>=-eq-ok, >>-eq-ok, raise_if, ◌≡◌, refl, ap, ◌∙◌, arith, inl, inr, Bool-cases,
}
use mathlib.Core.Path.{subst}
use nasa_earth_observation_e.Text.{Text, text_eq}
use nasa_earth_observation_e.Replay.Plan.{ReplayPlan, build_replay_run_id}
use nasa_earth_observation_e.Replay.Value.{Event, get}
use nasa_earth_observation_e.Replay.Generator.{
  Line, not_json, not_an_object, object, Original, present_text, check_original, load_line,
  load_lines, text_lt, insert_original, sort_originals, load_original_events, replay_iterations,
}
use nasa_earth_observation_e.Replay.Run.{
  replay_events, generate_replay, or_start, event_ids, distinct, replay_file, replay_manifest,
}
use nasa_earth_observation_e.Replay.Verifier.{verify_lines}
use nasa_earth_observation_e.Replay.Fields.{AreItems}
use nasa_earth_observation_e.Replay.Lines.{AreObjects, verify_lines-replay_iterations}

-- Lines whose objects have distinct keys and no NaN.
abbrev pub IsPlain : Line → Type 0
IsPlain (object event) = AreItems event event
IsPlain _ = Unit

load_line-object :
    (line : Line) (seen : List Text) (original : Original)
    → load_line line seen ≡ ok original
    → IsPlain line
    → AreItems original.1 original.1
unfolding load_line
load_line-object not_json seen original h plain = cc
load_line-object not_an_object seen original h plain = cc
load_line-object (object event) seen original h plain =
    elim (Option-cases (present_text (get "event_id" event))) [
      | inl absent ↦ absurd (ground (arith, absent))
      | inr (id, there) ↦ elim (Result-cases (check_original event id seen)) [
        | inl (e, refused) ↦ absurd (ground (arith, there, refused))
        | inr (u, passed) ↦
            let same : event ≡ original.1 = ground (arith, there, passed) in
            subst (λ e. AreItems e e) same plain
      ]
    ]

load_lines-AreObjects :
    (lines : List Line) (seen : List Text) (originals : List Original)
    → load_lines lines seen ≡ ok originals
    → All IsPlain lines
    → AreObjects originals
unfolding load_lines
load_lines-AreObjects [] seen originals h plain =
    let none_left : [] ≡ originals = ground (arith, h) in subst AreObjects none_left tt
load_lines-AreObjects (line ∷ lines) seen originals h (plain, plains) =
    let (original, here, follows) = >>=-eq-ok (load_line line seen) _ h in
    let (rest, rest_ok, all) = >>=-eq-ok (load_lines lines (original.0 ∷ seen)) _ follows in
    let same : original ∷ rest ≡ originals = ground (arith, all) in
    subst AreObjects same (
      load_line-object line seen original here plain,
      load_lines-AreObjects lines (original.0 ∷ seen) rest rest_ok plains,
    )

insert_original-AreObjects :
    (a : Original) (os : List Original)
    → AreItems a.1 a.1
    → AreObjects os
    → AreObjects (insert_original a os) × (length (insert_original a os) ≡ suc (length os))
unfolding insert_original
insert_original-AreObjects a [] h hs = ((h, tt), refl)
insert_original-AreObjects a (b ∷ rest) h (k, ks) =
    let (objects, count) = insert_original-AreObjects a rest h ks in
    elim (Bool-cases (text_lt b.0 a.0)) [
      | inl before ↦ rw before ((k, objects), omega (arith, count))
      | inr after ↦ rw after ((h, (k, ks)), refl)
    ]

sort_originals-AreObjects :
    (os : List Original)
    → AreObjects os
    → AreObjects (sort_originals os) × (length (sort_originals os) ≡ length os)
unfolding sort_originals
sort_originals-AreObjects [] h = (tt, refl)
sort_originals-AreObjects (a ∷ rest) (h, hs) =
    let (objects, count) = sort_originals-AreObjects rest hs in
    let (more, one) = insert_original-AreObjects a (sort_originals rest) h objects in
    (more, omega (arith, one, count))

load_original_events-AreObjects :
    (digest : Text) (lines : List Line) (plan : ReplayPlan) (originals : List Original)
    → load_original_events digest lines plan ≡ ok originals
    → All IsPlain lines
    → AreObjects originals × (length originals ≡ plan.source_record_count)
unfolding load_original_events
load_original_events-AreObjects digest lines plan originals h plain =
    let (digest_ok, follows) =
      >>-eq-ok (raise_if (not (text_eq digest plan.source_input_sha256)) _) _ h in
    let (loaded, loaded_ok, checked) = >>=-eq-ok (load_lines lines []) _ follows in
    let (objects, count) =
      sort_originals-AreObjects loaded (load_lines-AreObjects lines [] loaded loaded_ok plain) in
    let same : sort_originals loaded ≡ originals = ground (arith, checked) in
    let size : length loaded ≡ plan.source_record_count = ground (arith, checked) in
    subst (λ os. AreObjects os × (length os ≡ plan.source_record_count)) same
      (objects, count ∙ size)

or_start_lem : {A : Type 0} (o : Option A) (a : A) → or_start o ≡ ok a → o ≡ some a
or_start_lem none a h = cc
or_start_lem (some b) a h = cc

module _ (sha256 : Text → Text) (is_base_16 : Text → Bool)
    (schedule : Text → Option (ℕ → Text)) where
  -- The events of a run, under its identity.
  pub record AreVerified (digest : Text) (lines : List Line) (plan : ReplayPlan)
      (run_id version : Text) (events : List Event) : Type 0 where
    pub originals : List Original
    pub scheduled_at : ℕ → Text
    pub admitted : load_original_events digest lines plan ≡ ok originals
    pub start : schedule plan.scheduled_replay_start ≡ some scheduled_at
    pub checked :
        verify_lines sha256 run_id version scheduled_at plan.source_record_count
          plan.scheduled_interval_milliseconds originals 0
          (map object events)
        ≡ ok tt
    pub count : length events ≡ plan.source_record_count * plan.replay_factor
    pub unique :
        length (distinct (event_ids events)) ≡ plan.source_record_count * plan.replay_factor

  replay_events-AreVerified :
      (digest : Text) (lines : List Line) (plan : ReplayPlan) (run_id version : Text)
      (events : List Event)
      → All IsPlain lines
      → replay_events sha256 is_base_16 schedule digest lines plan run_id version ≡ ok events
      → AreVerified digest lines plan run_id version events
  unfolding replay_events
  replay_events-AreVerified digest lines plan run_id version events plain h =
      let (originals, loaded, follows) = >>=-eq-ok (load_original_events digest lines plan) _ h in
      let (scheduled_at, started, produced) =
        >>=-eq-ok (or_start (schedule plan.scheduled_replay_start)) _ follows in
      let (made, made_ok, passed) =
        >>=-eq-ok
          (replay_iterations sha256 run_id version scheduled_at plan.source_record_count
            plan.scheduled_interval_milliseconds 1 plan.replay_factor originals)
          _ produced in
      let (objects, size) =
        load_original_events-AreObjects digest lines plan originals loaded plain in
      let (verified, total) =
        verify_lines-replay_iterations sha256 run_id version scheduled_at plan.source_record_count
          plan.scheduled_interval_milliseconds originals 1 plan.replay_factor made (omega arith)
          size objects made_ok in
      let same : made ≡ events = ground (arith, passed) in
      subst (AreVerified digest lines plan run_id version) same record {
        originals = originals;
        scheduled_at = scheduled_at;
        admitted = loaded;
        start = or_start_lem (schedule plan.scheduled_replay_start) scheduled_at started;
        checked =
            subst
              (λ n.
                verify_lines sha256 run_id version scheduled_at plan.source_record_count
                  plan.scheduled_interval_milliseconds originals n (map object made)
                ≡ ok tt)
              (omega arith) verified;
        count = total;
        unique = ground (arith, passed);
      }

  -- For a source whose lines are JSON objects with distinct keys and without a NaN: a run that returns
  -- has written as many events as the plan's records times its factor, of distinct identities, and
  -- then its manifest; read back as they were written, they all pass the verifier's checks of a line,
  -- against the same originals, identity and schedule.
  pub generate_replay-AreVerified :
      (digest : Text) (lines : List Line) (plan : ReplayPlan) (version : Text) (events : List Event)
      → All IsPlain lines
      → (generate_replay sha256 is_base_16 schedule digest lines plan version).0 ≡ ok events
      → (run_id : Text) × (build_replay_run_id sha256 is_base_16 plan ≡ ok run_id)
        × AreVerified digest lines plan run_id version events
        × ((generate_replay sha256 is_base_16 schedule digest lines plan version).1
            ≡ replay_file events ∷ replay_manifest run_id (length events) ∷ [])
  unfolding generate_replay
  generate_replay-AreVerified digest lines plan version events plain h =
      elim (Result-cases (build_replay_run_id sha256 is_base_16 plan)) [
        | inl (e, refused) ↦ absurd (ground (arith, refused))
        | inr (run_id, named) ↦
            elim (Result-cases
              (replay_events sha256 is_base_16 schedule digest lines plan run_id version)) [
                | inl (e, failed) ↦ absurd (ground (arith, named, failed))
                | inr (made, done) ↦
                    let same : made ≡ events = ground (arith, named, done) in
                    (
                      run_id,
                      named,
                      replay_events-AreVerified digest lines plan run_id version events plain
                          (done ∙ ap ok same),
                      ground (arith, named, done, same),
                    )
              ]
      ]
