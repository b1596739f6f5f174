-- ===== src/Replay/Verification.antt =====
-- `verify_manifest` of src/eo_event_platform/replay/verify.py: the checks before and after its loop. A
-- scheduled time is never an empty text, so the first one is that of the first line.
use nasa_earth_observation_e.Prelude.{
  ℕ, zero, suc, ◌+◌, ◌*◌, Bool, true, false, not, ◌||◌, Option, none, some, List, [], ◌∷◌, length,
  all, Result, ok, raise, ◌>>=◌, ◌>>◌, raise_if, if◌then◌else◌, ◌==◌, ◌≡◌, ap, ◌∙◌, sym, arith,
  >>=-eq-ok, >>-eq-ok, ◌<◌, All,
}
use nasa_earth_observation_e.Text.{Text, codes, text_eq}
use nasa_earth_observation_e.Text.Equality.{text_eq_iff}
use nasa_earth_observation_e.Replay.Plan.{ReplayPlan, PlanError, build_replay_run_id}
use nasa_earth_observation_e.Replay.Value.{get}
use nasa_earth_observation_e.Replay.Generator.{
  Line, object, Original, ReplayError, load_original_events,
}
use nasa_earth_observation_e.Replay.Run.{text_of}
use nasa_earth_observation_e.Replay.Checked.{AreChecked, verify_lines-AreChecked}
use nasa_earth_observation_e.Replay.Verifier.{VerifyError, verify_lines}

-- What the verifier reads of the generator's manifest.
pub record ReplayManifest : Type 0 where
  pub status : Text
  pub plan : ReplayPlan
  pub replay_run_id : Text
  pub pipeline_version : Text
  pub output_sha256 : Text
  pub output_bytes : ℕ
  pub first_timestamp : Option Text
  pub last_timestamp : Option Text

-- A file of lines: its digest, its size and its lines.
pub record LineFile : Type 0 where
  pub digest : Text
  pub size : ℕ
  pub lines : List Line

pub data ManifestError : Type 0 where
  not_successful wrong_identity bad_schedule wrong_row_count wrong_frequencies : ManifestError
  wrong_checksum wrong_size wrong_boundaries : ManifestError
  plan_refused : PlanError → ManifestError
  source_refused : ReplayError → ManifestError
  line_refused : VerifyError → ManifestError

abbrev pub or_refuse {ℓ} :
    {E : Type ℓ} {A : Type 0} → (E → ManifestError) → Result E A → Result ManifestError A
or_refuse refuse (ok a) = ok a
or_refuse refuse (raise e) = raise (refuse e)

abbrev pub or_no_schedule : {A : Type 0} → Option A → Result ManifestError A
or_no_schedule none = raise bad_schedule
or_no_schedule (some a) = ok a

-- str(event["detection_id"])
abbrev pub line_detections : List Line → List Text
line_detections [] = []
line_detections (object event ∷ lines) = text_of (get "detection_id" event) ∷ line_detections lines
line_detections (_ ∷ lines) = line_detections lines

abbrev pub count_text : Text → List Text → ℕ
count_text t [] = 0
count_text t (s ∷ rest) = (if text_eq s t then 1 else 0) + count_text t rest

-- `set(detection_counts.values()) == {factor}`: a set with the factor, so no empty one.
unfoldable pub has_frequencies : ℕ → List Text → Bool
has_frequencies factor [] = false
has_frequencies factor (id ∷ ids) = all (λ other. count_text other (id ∷ ids) == factor) (id ∷ ids)

abbrev pub option_eq : Option Text → Option Text → Bool
option_eq none none = true
option_eq (some s) (some t) = text_eq s t
option_eq _ _ = false

-- The times of the first and of the last line.
abbrev pub first_of : (ℕ → Text) → ℕ → Option Text
first_of scheduled_at zero = none
first_of scheduled_at (suc n) = some (scheduled_at 0)

abbrev pub last_of : (ℕ → Text) → ℕ → ℕ → Option Text
last_of scheduled_at interval zero = none
last_of scheduled_at interval (suc n) = some (scheduled_at (n * interval))

-- The checks after the loop.
unfoldable pub check_totals :
    ReplayManifest → (ℕ → Text) → LineFile → Result ManifestError (Unit {0})
check_totals manifest scheduled_at events = do
  raise_if
      (not (length events.lines == manifest.plan.source_record_count * manifest.plan.replay_factor))
      wrong_row_count
  raise_if (not (has_frequencies manifest.plan.replay_factor (line_detections events.lines)))
      wrong_frequencies
  raise_if (not (text_eq events.digest manifest.output_sha256)) wrong_checksum
  raise_if (not (events.size == manifest.output_bytes)) wrong_size
  raise_if
      (not (option_eq (first_of scheduled_at (length events.lines)) manifest.first_timestamp)
        || not (
            option_eq
              (last_of scheduled_at manifest.plan.scheduled_interval_milliseconds
                (length events.lines))
              manifest.last_timestamp))
      wrong_boundaries
  ok tt

module _ (sha256 : Text → Text) (is_base_16 : Text → Bool)
    (schedule : Text → Option (ℕ → Text)) where
  -- The loop, for the originals of the manifest.
  abbrev pub check_lines :
      ReplayManifest → List Original → (ℕ → Text) → List Line → Result VerifyError (Unit {0})
  check_lines manifest originals scheduled_at lines =
      verify_lines sha256 manifest.replay_run_id manifest.pipeline_version scheduled_at
        manifest.plan.source_record_count manifest.plan.scheduled_interval_milliseconds originals 0
        lines

  -- The number of verified lines.
  unfoldable pub verify_manifest : ReplayManifest → LineFile → LineFile → Result ManifestError ℕ
  verify_manifest manifest source events = do
    raise_if (not (text_eq manifest.status (codes "SUCCEEDED"))) not_successful
    run_id ← or_refuse plan_refused (build_replay_run_id sha256 is_base_16 manifest.plan)
    raise_if (not (text_eq manifest.replay_run_id run_id)) wrong_identity
    originals ←
        or_refuse source_refused (load_original_events source.digest source.lines manifest.plan)
    scheduled_at ← or_no_schedule (schedule manifest.plan.scheduled_replay_start)
    or_refuse line_refused (check_lines manifest originals scheduled_at events.lines)
    check_totals manifest scheduled_at events
    ok (length events.lines)

  -- What a verified manifest stands for.
  pub record IsVerified (manifest : ReplayManifest) (source events : LineFile) (count : ℕ)
      : Type 0 where
    pub originals : List Original
    pub scheduled_at : ℕ → Text
    pub status : manifest.status ≡ codes "SUCCEEDED"
    pub identity : build_replay_run_id sha256 is_base_16 manifest.plan ≡ ok manifest.replay_run_id
    pub admitted : load_original_events source.digest source.lines manifest.plan ≡ ok originals
    pub started : schedule manifest.plan.scheduled_replay_start ≡ some scheduled_at
    -- Each line is the replay of the original at its position.
    pub lines :
        AreChecked sha256 manifest.replay_run_id manifest.pipeline_version scheduled_at
          manifest.plan.source_record_count manifest.plan.scheduled_interval_milliseconds originals
          0 events.lines
    pub total :
        (length events.lines ≡ count)
        × (count ≡ manifest.plan.source_record_count * manifest.plan.replay_factor)
    pub bytes : (events.digest ≡ manifest.output_sha256) × (events.size ≡ manifest.output_bytes)
    -- There is a line, and each detection stands in as many lines as the factor says.
    pub filled : 0 < length (line_detections events.lines)
    pub frequencies :
        All
          (λ (id : Text).
            count_text id (line_detections events.lines) ≡ manifest.plan.replay_factor)
          (line_detections events.lines)

  or_no_schedule_lem : {A : Type 0} (o : Option A) (a : A) → or_no_schedule o ≡ ok a → o ≡ some a
  or_no_schedule_lem none a h = cc
  or_no_schedule_lem (some b) a h = cc

  all_frequencies :
      (factor : ℕ) (counted ids : List Text)
      → all (λ other. count_text other counted == factor) ids ≡ true
      → All (λ (id : Text). count_text id counted ≡ factor) ids
  all_frequencies factor counted [] h = tt
  all_frequencies factor counted (id ∷ ids) h =
      (ground (arith, h), all_frequencies factor counted ids (ground (arith, h)))

  has_frequencies_lem :
      (factor : ℕ) (ids : List Text)
      → has_frequencies factor ids ≡ true
      → (0 < length ids) × All (λ (id : Text). count_text id ids ≡ factor) ids
  unfolding has_frequencies
  has_frequencies_lem factor [] h = cc
  has_frequencies_lem factor (id ∷ ids) h =
      (omega arith, all_frequencies factor (id ∷ ids) (id ∷ ids) h)

  or_refuse_lem :
      {E A : Type 0} (refuse : E → ManifestError) (r : Result E A) (a : A)
      → or_refuse refuse r ≡ ok a
      → r ≡ ok a
  or_refuse_lem refuse (ok b) a h = cc
  or_refuse_lem refuse (raise e) a h = cc

  check_totals_lem :
      (manifest : ReplayManifest) (scheduled_at : ℕ → Text) (events : LineFile)
      → check_totals manifest scheduled_at events ≡ ok tt
      → (length events.lines ≡ manifest.plan.source_record_count * manifest.plan.replay_factor)
        × (events.digest ≡ manifest.output_sha256)
        × (events.size ≡ manifest.output_bytes)
        × (has_frequencies manifest.plan.replay_factor (line_detections events.lines) ≡ true)
  unfolding check_totals
  check_totals_lem manifest scheduled_at events h =
      let digest = text_eq_iff events.digest manifest.output_sha256 in
      (ground arith, ground (arith, digest), ground arith, ground arith)

  -- A manifest that is verified is a successful one with the identity of its plan and admitted
  -- originals, and a file of events with its digest and size and as many lines as the plan's records
  -- times its factor, which is returned. Each line is an object, with the identity, the iteration,
  -- the number and the time of its position and the other values of a replay, with the values that its
  -- original has in the fields that no replay overwrites, and with no field more or less; and each
  -- detection stands in as many lines as the factor says.
  pub verify_manifest-IsVerified :
      (manifest : ReplayManifest) (source events : LineFile) (count : ℕ)
      → verify_manifest manifest source events ≡ ok count
      → IsVerified manifest source events count
  unfolding verify_manifest
  verify_manifest-IsVerified manifest source events count h =
      let (status, h1) =
        >>-eq-ok (raise_if (not (text_eq manifest.status (codes "SUCCEEDED"))) _) _ h in
      let (run_id, named, h2) =
        >>=-eq-ok (or_refuse plan_refused (build_replay_run_id sha256 is_base_16 manifest.plan)) _
          h1 in
      let (same, h3) =
        >>-eq-ok (raise_if (not (text_eq manifest.replay_run_id run_id)) wrong_identity) _ h2 in
      let (originals, loaded, h4) =
        >>=-eq-ok
          (or_refuse source_refused (load_original_events source.digest source.lines manifest.plan))
          _ h3 in
      let (scheduled_at, started, h5) =
        >>=-eq-ok (or_no_schedule (schedule manifest.plan.scheduled_replay_start)) _ h4 in
      let (passed, h6) =
        >>-eq-ok (or_refuse line_refused (check_lines manifest originals scheduled_at events.lines))
          _ h5 in
      let (totals, h7) = >>-eq-ok (check_totals manifest scheduled_at events) _ h6 in
      let (rows, digest, size, frequencies) =
        check_totals_lem manifest scheduled_at events totals in
      let counted : length events.lines ≡ count = ground (arith, h7) in
      let identity : manifest.replay_run_id ≡ run_id =
        ground (arith, same, text_eq_iff manifest.replay_run_id run_id) in
      record {
        originals = originals;
        scheduled_at = scheduled_at;
        status = ground (arith, status, text_eq_iff manifest.status (codes "SUCCEEDED"));
        started = or_no_schedule_lem _ scheduled_at started;
        identity = or_refuse_lem plan_refused _ run_id named ∙ ap ok (sym identity);
        admitted = or_refuse_lem source_refused _ originals loaded;
        lines =
            verify_lines-AreChecked sha256 manifest.replay_run_id manifest.pipeline_version
              scheduled_at manifest.plan.source_record_count
              manifest.plan.scheduled_interval_milliseconds originals 0 events.lines
              (or_refuse_lem line_refused _ tt passed);
        total = (counted, sym counted ∙ rows);
        bytes = (digest, size);
        filled = (has_frequencies_lem _ _ frequencies).0;
        frequencies = (has_frequencies_lem _ _ frequencies).1;
      }
