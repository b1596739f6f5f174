-- ===== src/Serving/Loaded.antt =====
-- What a load of src/eo_event_platform/serving/postgres_loader.py leaves in the database.
use nasa_earth_observation_e.Prelude.{
  ℕ, ◌-◌, Bool, true, false, Option, none, some, List, [], ◌∷◌, ◌++◌, length, All, ◌==◌,
  if◌then◌else◌, Result, ok, raise, ◌≡◌, refl, inl, inr, ◌⊎◌, arith, Bool-cases, Result-cases,
}
use nasa_earth_observation_e.Text.{Text}
use nasa_earth_observation_e.Text.Equality.{text_eq_refl}
use nasa_earth_observation_e.Serving.{
  Staged, EventDetail, LoadStatus, succeeded, failed, LoadRun, Database, GoldManifest, LoadError,
  staged_rows_mismatch, content_conflicts, database_error, idempotent_rows_mismatch, duplicate_key,
  LoadResult, load_manifest, iter_payloads, has_id, has_conflict, insert_events, stage_and_insert,
  has_key, start_load, find_success, count_gold, replay_load, end_load, load_new, load,
}
use nasa_earth_observation_e.Serving.Rows.{
  insert_events-IsInserted, IsRowOf, Agrees, has_conflict_lem,
}

abbrev pub run_of : LoadStatus → Text → GoldManifest → LoadRun
run_of status key manifest = record {
  idempotency_key = key;
  gold_run_id = manifest.gold_run_id;
  status = status;
}

-- The database after a load that succeeded.
pub record IsLoaded (key : Text) (expected : ℕ) (manifest : GoldManifest) (db db' : Database)
    (result : LoadResult) : Type 0 where
  -- The key was free.
  pub free : has_key key db.load_runs ≡ false
  -- The rows that were there are unchanged; those that were added are of staged rows whose identity
  -- was not there.
  pub new : List EventDetail
  pub kept : db'.events ≡ db.events ++ new
  pub rows : All (IsRowOf (iter_payloads manifest)) new
  pub absent : All (λ (e : EventDetail). has_id e.event_id db.events ≡ false) new
  pub runs : db'.load_runs ≡ run_of succeeded key manifest ∷ db.load_runs
  -- Every staged row is in the table, and agrees with the rows that were there.
  pub staged : length (iter_payloads manifest) ≡ expected
  pub present : All (λ (s : Staged). has_id s.event_id db'.events ≡ true) (iter_payloads manifest)
  pub agreed : All (Agrees db.events) (iter_payloads manifest)
  pub counts : result ≡ record {
    inserted_rows = length new;
    already_present_rows = expected - length new;
    idempotent_noop = false;
  }
  -- The same load again does nothing, where the rows of the manifest's run are as many as expected,
  -- and else fails; it writes nothing.
  pub again :
      (is_broken : Bool)
      → load_new key is_broken expected manifest db' (find_success key db'.load_runs) ≡ (
        if count_gold manifest.gold_run_id db'.events == expected
            then ok (record {
              inserted_rows = 0;
              already_present_rows = expected;
              idempotent_noop = true;
            })
            else raise idempotent_rows_mismatch,
        db',
      )

-- Why a load is refused before it writes.
abbrev pub IsRefused : (Text → Text) → Text → ℕ → GoldManifest → Database → LoadError → Type 0
IsRefused sha256 key expected manifest db e =
    (load_manifest sha256 expected manifest ≡ raise e)
    ⊎ ((run : LoadRun) × (find_success key db.load_runs ≡ some run)
        × ((count_gold run.gold_run_id db.events == expected) ≡ false)
        × (e ≡ idempotent_rows_mismatch))
    ⊎ ((find_success key db.load_runs ≡ none)
        × (has_key key db.load_runs ≡ true)
        × (e ≡ duplicate_key))

-- Why the transaction of a load fails.
abbrev pub IsBroken : Bool → ℕ → GoldManifest → Database → LoadError → Type 0
IsBroken is_broken expected manifest db e =
    (((length (iter_payloads manifest) == expected) ≡ false) × (e ≡ staged_rows_mismatch))
    ⊎ ((has_conflict (iter_payloads manifest) db.events ≡ true) × (e ≡ content_conflicts))
    ⊎ ((is_broken ≡ true) × (e ≡ database_error))

abbrev pub failed_database : Text → GoldManifest → Database → Database
failed_database key manifest db = record {
  events = db.events;
  load_runs = run_of failed key manifest ∷ db.load_runs;
}

-- The ways in which a load ends.
pub data IsLoad (sha256 : Text → Text) (key : Text) (is_broken : Bool) (expected : ℕ)
    (manifest : GoldManifest) (db : Database)
    : Result LoadError LoadResult × Database → Type 0 where
  refused :
      (e : LoadError)
      → IsRefused sha256 key expected manifest db e
      → IsLoad sha256 key is_broken expected manifest db (raise e, db)
  -- The transaction fails: no row changes, the run is recorded as failed, and from then on the same
  -- load raises on its key.
  rolled_back :
      (e : LoadError)
      → load_manifest sha256 expected manifest ≡ ok tt
      → has_key key db.load_runs ≡ false
      → IsBroken is_broken expected manifest db e
      → ((again : Bool)
          → load sha256 key again expected manifest (failed_database key manifest db)
            ≡ (raise duplicate_key, failed_database key manifest db))
      → IsLoad sha256 key is_broken expected manifest db (raise e, failed_database key manifest db)
  -- A load of the manifest has succeeded before: nothing changes.
  no_operation :
      (run : LoadRun)
      → load_manifest sha256 expected manifest ≡ ok tt
      → find_success key db.load_runs ≡ some run
      → count_gold run.gold_run_id db.events ≡ expected
      → IsLoad sha256 key is_broken expected manifest db (
        ok (record { inserted_rows = 0; already_present_rows = expected; idempotent_noop = true }),
        db,
      )
  done :
      (result : LoadResult) (db' : Database)
      → load_manifest sha256 expected manifest ≡ ok tt
      → IsLoaded key expected manifest db db' result
      → IsLoad sha256 key is_broken expected manifest db (ok result, db')

abbrev loaded_database : Text → GoldManifest → List EventDetail → List LoadRun → Database
loaded_database key manifest events runs = record {
  events = events;
  load_runs = run_of succeeded key manifest ∷ runs;
}

loaded_again :
    (key : Text) (is_broken : Bool) (expected : ℕ) (manifest : GoldManifest)
    (events : List EventDetail) (runs : List LoadRun)
    → load_new key is_broken expected manifest
        (loaded_database key manifest events runs)
        (find_success key (loaded_database key manifest events runs).load_runs)
      ≡ (
        if count_gold manifest.gold_run_id events == expected
            then ok (record {
              inserted_rows = 0;
              already_present_rows = expected;
              idempotent_noop = true;
            })
            else raise idempotent_rows_mismatch,
        loaded_database key manifest events runs,
      )
unfolding replay_load
loaded_again key is_broken expected manifest events runs =
    elim (Bool-cases (count_gold manifest.gold_run_id events == expected)) [
      | inl whole ↦ rw (text_eq_refl key, whole) refl
      | inr short ↦ rw (text_eq_refl key, short) refl
    ]

-- A key that is taken.
start_taken :
    (key : Text) (is_broken : Bool) (expected : ℕ) (manifest : GoldManifest) (db : Database)
    → has_key key db.load_runs ≡ true
    → start_load key is_broken expected manifest db ≡ (raise duplicate_key, db)
unfolding start_load
start_taken key is_broken expected manifest db taken = rw taken refl

-- No run of a free key is a success of it.
free-find_success :
    (key : Text) (runs : List LoadRun) → has_key key runs ≡ false → find_success key runs ≡ none
free-find_success key [] h = refl
free-find_success key (run ∷ runs) h =
    ground (arith, h, free-find_success key runs (ground (arith, h)))

module _ (sha256 : Text → Text) (key : Text) (is_broken : Bool) (expected : ℕ)
    (manifest : GoldManifest) (db : Database)
    (valid : load_manifest sha256 expected manifest ≡ ok tt) where
  failed_again :
      (again : Bool)
      → has_key key db.load_runs ≡ false
      → load sha256 key again expected manifest (failed_database key manifest db)
        ≡ (raise duplicate_key, failed_database key manifest db)
  unfolding load
  failed_again again free =
      rw (load, valid, free-find_success key db.load_runs free, text_eq_refl key)
        (start_taken key again expected manifest (failed_database key manifest db)
          (rw (text_eq_refl key) refl))

  roll_back :
      (e : LoadError)
      → has_key key db.load_runs ≡ false
      → IsBroken is_broken expected manifest db e
      → IsLoad sha256 key is_broken expected manifest db (raise e, failed_database key manifest db)
  roll_back e free broken = rolled_back e valid free broken (λ again. failed_again again free)

  replay_load-IsLoad :
      (run : LoadRun)
      → find_success key db.load_runs ≡ some run
      → IsLoad sha256 key is_broken expected manifest db (replay_load expected run db)
  unfolding replay_load
  replay_load-IsLoad run found =
      elim (Bool-cases (count_gold run.gold_run_id db.events == expected)) [
        | inl whole ↦ rw (replay_load, whole) (no_operation run valid found (ground (arith, whole)))
        | inr missing ↦
            rw (replay_load, missing)
              (refused idempotent_rows_mismatch (inr (inl (run, found, missing, refl))))
      ]

  end_load-IsLoad :
      has_key key db.load_runs ≡ false
      → length (iter_payloads manifest) ≡ expected
      → has_conflict (iter_payloads manifest) db.events ≡ false
      → IsLoad sha256 key is_broken expected manifest db (
          end_load key expected manifest db
            (ok (insert_events (iter_payloads manifest) db.events 0)))
  end_load-IsLoad free staged agree =
      let r = insert_events (iter_payloads manifest) db.events 0 in
      let i = insert_events-IsInserted (iter_payloads manifest) db.events 0 in
      let size : r.1 ≡ length i.new = omega (arith, i.count) in
      done _ _ valid (record {
        free = free;
        new = i.new;
        kept = i.kept;
        rows = i.rows;
        absent = i.absent;
        runs = refl;
        staged = staged;
        present = i.present;
        agreed = has_conflict_lem (iter_payloads manifest) db.events agree;
        counts = rw size refl;
        again = λ broken. loaded_again key broken expected manifest r.0 db.load_runs;
      })

  stage_and_insert-IsLoad :
      has_key key db.load_runs ≡ false
      → IsLoad sha256 key is_broken expected manifest db (
          end_load key expected manifest db
            (stage_and_insert is_broken expected manifest db.events))
  stage_and_insert-IsLoad free = elim (Bool-cases (length (iter_payloads manifest) == expected)) [
    | inr other ↦
        unfold stage_and_insert in
        (rw (stage_and_insert, other) (roll_back staged_rows_mismatch free (inl (other, refl))))
    | inl same ↦ elim (Bool-cases (has_conflict (iter_payloads manifest) db.events)) [
      | inl conflict ↦
          unfold stage_and_insert in
          (rw (stage_and_insert, same, conflict)
            (roll_back content_conflicts free (inr (inl (conflict, refl)))))
      | inr agree ↦ elim (Bool-cases is_broken) [
        | inl broken ↦
            let outcome : stage_and_insert is_broken expected manifest db.events
                ≡ raise database_error =
              unfold stage_and_insert in (rw (stage_and_insert, same, agree, broken) refl) in
            rw outcome (roll_back database_error free (inr (inr (broken, refl))))
        | inr whole ↦
            let outcome : stage_and_insert is_broken expected manifest db.events
                ≡ ok (insert_events (iter_payloads manifest) db.events 0) =
              unfold stage_and_insert in (rw (stage_and_insert, same, agree, whole) refl) in
            rw outcome (end_load-IsLoad free (ground (arith, same)) agree)
      ]
    ]
  ]

  load_new-IsLoad :
      (existing : Option LoadRun)
      → find_success key db.load_runs ≡ existing
      → IsLoad sha256 key is_broken expected manifest db
          (load_new key is_broken expected manifest db existing)
  load_new-IsLoad (some run) found = replay_load-IsLoad run found
  load_new-IsLoad none found = elim (Bool-cases (has_key key db.load_runs)) [
    | inl taken ↦
        unfold start_load in
        (rw (start_load, taken) (refused duplicate_key (inr (inr (found, taken, refl)))))
    | inr free ↦ unfold start_load in (rw (start_load, free) (stage_and_insert-IsLoad free))
  ]

-- Every load ends in one of four ways. It is refused, and nothing changes: by the checks of the
-- manifest, for a successful run whose rows do not count as expected, or since a run of its key has
-- failed or not ended. It is known to have succeeded with all its rows, and nothing changes. Or its
-- transaction fails, by the count of staged rows, a conflict of content or an error of the database:
-- no row changes, a failed run is recorded, and the same load raises on its key from then on. Or it
-- succeeds: the rows that were there stay as they are, the rows added are staged rows whose identity
-- was not there, every staged row is in the table and agrees with the rows that were there, the counts
-- are right, and the same load again writes nothing.
pub load-IsLoad :
    (sha256 : Text → Text) (key : Text) (is_broken : Bool) (expected : ℕ) (manifest : GoldManifest)
    (db : Database)
    → IsLoad sha256 key is_broken expected manifest db
        (load sha256 key is_broken expected manifest db)
load-IsLoad sha256 key is_broken expected manifest db =
    elim (Result-cases (load_manifest sha256 expected manifest)) [
      | inl (e, invalid) ↦ unfold load in (rw (load, invalid) (refused e (inl invalid)))
      | inr (u, valid) ↦
          unfold load in
          (rw (load, valid)
            (load_new-IsLoad sha256 key is_broken expected manifest db valid
              (find_success key db.load_runs) refl))
    ]
