-- ===== src/Serving.antt =====
-- `load_manifest` and `load` of src/eo_event_platform/serving/postgres_loader.py. The database is the
-- state: the rows of `serving.event_detail` and of `load_control.database_load_run`, with the columns
-- that decide. SHA-256 and what an artifact's lines parse to are parameters of a run; the summaries,
-- the metrics, the clock and the loads' random identities are left out.
pub mod Rows
pub mod Loaded
mod Tests
use nasa_earth_observation_e.Prelude.{
  ℕ, zero, suc, ◌+◌, ◌-◌, Bool, true, false, ◌&&◌, ◌||◌, not, Option, none, some, List, [], ◌∷◌,
  ◌++◌, length, any, all, map, filter, ◌==◌, if◌then◌else◌, Result, ok, raise, ◌>>=◌, ◌>>◌,
  raise_if,
}
use nasa_earth_observation_e.Text.{Text, codes, text_eq, starts_with}
use nasa_earth_observation_e.Replay.Generator.{text_lt}

-- A row of the staging table: the columns that decide.
pub record Staged : Type 0 where
  pub event_id : Text
  pub governed_content_hash : Text
  pub gold_run_id : Text

-- A row of `serving.event_detail`.
pub record EventDetail : Type 0 where
  pub event_id : Text
  pub governed_content_hash : Text
  pub gold_run_id : Text

pub data LoadStatus : Type 0 where
  running succeeded failed : LoadStatus

-- A row of `load_control.database_load_run`.
pub record LoadRun : Type 0 where
  pub idempotency_key : Text
  pub gold_run_id : Text
  pub status : LoadStatus

pub record Database : Type 0 where
  pub events : List EventDetail
  pub load_runs : List LoadRun

-- An artifact of the manifest, with its file, `none` where there is none, and the rows of its lines
-- that are not blank.
pub record GoldArtifact : Type 0 where
  pub path : Text
  pub bytes : ℕ
  pub sha256 : Text
  pub rows : Option ℕ
  pub content : Option Text
  pub payloads : List Staged

pub record GoldManifest : Type 0 where
  pub gold_run_id : Text
  pub expected_rows : ℕ
  pub load_artifact_rows : ℕ
  pub artifacts : List GoldArtifact

pub data LoadError : Type 0 where
  row_count_mismatch file_not_found size_mismatch checksum_mismatch no_load_artifacts
        rows_not_declared rows_do_not_reconcile :
      LoadError
  idempotent_rows_mismatch staged_rows_mismatch content_conflicts database_error duplicate_key :
      LoadError

pub record LoadResult : Type 0 where
  pub inserted_rows : ℕ
  pub already_present_rows : ℕ
  pub idempotent_noop : Bool

module _ (sha256 : Text → Text) where
  -- The checks of an artifact's file.
  abbrev pub check_content : GoldArtifact → Option Text → Result LoadError (Unit {0})
  check_content artifact none = raise file_not_found
  check_content artifact (some content) = do
    raise_if (not (length content == artifact.bytes)) size_mismatch
    raise_if (not (text_eq (sha256 content) artifact.sha256)) checksum_mismatch

  unfoldable pub check_artifacts : List GoldArtifact → Result LoadError (Unit {0})
  check_artifacts [] = ok tt
  check_artifacts (artifact ∷ artifacts) = do
    check_content artifact artifact.content
    check_artifacts artifacts

-- `path.endswith(suffix)`
unfoldable pub ends_with : Text → Text → Bool
ends_with suffix [] = text_eq [] suffix
ends_with suffix (c ∷ s) = text_eq (c ∷ s) suffix || ends_with suffix s

-- `load_artifact/part-*.json`; a backslash is read as a slash.
unfoldable pub is_load_artifact : GoldArtifact → Bool
is_load_artifact artifact =
    starts_with (codes "load_artifact/part-") (map (λ c. if c == 92 then b'/' else c) artifact.path)
    && ends_with (codes ".json") artifact.path

abbrev pub load_artifacts : List GoldArtifact → List GoldArtifact
load_artifacts artifacts = filter is_load_artifact artifacts

abbrev pub is_declared : Option ℕ → Bool
is_declared none = false
is_declared (some n) = true

abbrev pub sum_rows : List GoldArtifact → ℕ
sum_rows [] = 0
sum_rows (artifact ∷ artifacts) =
    (elim artifact.rows [ none ↦ 0 | some n ↦ n ]) + sum_rows artifacts

abbrev pub is_none_left : List GoldArtifact → Bool
is_none_left [] = true
is_none_left (artifact ∷ artifacts) = false

-- The checks of the rows that the load artifacts declare, where one declares them.
abbrev pub check_declared : ℕ → List GoldArtifact → Result LoadError (Unit {0})
check_declared expected_rows artifacts =
    if any (λ artifact. is_declared artifact.rows) artifacts
    then (do
      raise_if (not (all (λ artifact. is_declared artifact.rows) artifacts)) rows_not_declared
      raise_if (not (sum_rows artifacts == expected_rows)) rows_do_not_reconcile)
    else ok tt

-- `load_manifest`, of a manifest with its fields.
unfoldable pub load_manifest : (Text → Text) → ℕ → GoldManifest → Result LoadError (Unit {0})
load_manifest sha256 expected_rows manifest = do
  raise_if
      (not (
        (manifest.expected_rows == expected_rows)
        && (manifest.load_artifact_rows == expected_rows)))
      row_count_mismatch
  check_artifacts sha256 manifest.artifacts
  raise_if (is_none_left (load_artifacts manifest.artifacts)) no_load_artifacts
  check_declared expected_rows (load_artifacts manifest.artifacts)

-- The load artifacts in the order of their paths.
unfoldable pub insert_path : GoldArtifact → List GoldArtifact → List GoldArtifact
insert_path a [] = a ∷ []
insert_path a (b ∷ rest) = if text_lt b.path a.path then b ∷ insert_path a rest else a ∷ b ∷ rest

unfoldable pub sort_paths : List GoldArtifact → List GoldArtifact
sort_paths [] = []
sort_paths (a ∷ rest) = insert_path a (sort_paths rest)

abbrev pub payloads_of : List GoldArtifact → List Staged
payloads_of [] = []
payloads_of (artifact ∷ artifacts) = artifact.payloads ++ payloads_of artifacts

-- `iter_payloads`
abbrev pub iter_payloads : GoldManifest → List Staged
iter_payloads manifest = payloads_of (sort_paths (load_artifacts manifest.artifacts))

abbrev pub has_id : Text → List EventDetail → Bool
has_id id events = any (λ e. text_eq e.event_id id) events

-- A pair of the JOIN with another hash.
abbrev pub is_conflict : Staged → EventDetail → Bool
is_conflict s e =
    text_eq e.event_id s.event_id && not (text_eq e.governed_content_hash s.governed_content_hash)

abbrev pub has_conflict : List Staged → List EventDetail → Bool
has_conflict staged events = any (λ s. any (is_conflict s) events) staged

-- INSERT … ON CONFLICT (event_id) DO NOTHING, row by row: the table, and the rows inserted.
abbrev pub row_of : Staged → EventDetail
row_of s = record {
  event_id = s.event_id;
  governed_content_hash = s.governed_content_hash;
  gold_run_id = s.gold_run_id;
}

unfoldable pub insert_events : List Staged → List EventDetail → ℕ → List EventDetail × ℕ
insert_events [] events inserted = (events, inserted)
insert_events (s ∷ staged) events inserted =
    if has_id s.event_id events
    then insert_events staged events inserted
    else insert_events staged (events ++ row_of s ∷ []) (suc inserted)

-- The transaction of a load; an error of PostgreSQL in it is given. It leaves the rows it inserted.
unfoldable pub stage_and_insert :
    Bool → ℕ → GoldManifest → List EventDetail → Result LoadError (List EventDetail × ℕ)
stage_and_insert is_broken expected_rows manifest events = do
  raise_if (not (length (iter_payloads manifest) == expected_rows)) staged_rows_mismatch
  raise_if (has_conflict (iter_payloads manifest) events) content_conflicts
  raise_if is_broken database_error
  ok (insert_events (iter_payloads manifest) events 0)

-- The run of the load, with its end.
abbrev pub finished : LoadStatus → Text → GoldManifest → List LoadRun → List LoadRun
finished status key manifest runs =
    record { idempotency_key = key; gold_run_id = manifest.gold_run_id; status = status } ∷ runs

abbrev pub is_success_of : Text → LoadRun → Bool
is_success_of key run =
    text_eq run.idempotency_key key && (elim run.status [ succeeded ↦ true | _ ↦ false ])

-- The first successful run of the key.
abbrev pub find_success : Text → List LoadRun → Option LoadRun
find_success key [] = none
find_success key (run ∷ runs) =
    let rest = find_success key runs in if is_success_of key run then some run else rest

abbrev pub count_gold : Text → List EventDetail → ℕ
count_gold gold_run_id events = length (filter (λ e. text_eq e.gold_run_id gold_run_id) events)

-- A load that was done before.
unfoldable pub replay_load : ℕ → LoadRun → Database → Result LoadError LoadResult × Database
replay_load expected_rows run db =
    if count_gold run.gold_run_id db.events == expected_rows
    then (
      ok (record {
        inserted_rows = 0;
        already_present_rows = expected_rows;
        idempotent_noop = true;
      }),
      db,
    )
    else (raise idempotent_rows_mismatch, db)

-- A load that was not: its run is RUNNING until the transaction ends, one way or the other.
abbrev pub end_load :
    Text
    → ℕ
    → GoldManifest
    → Database
    → Result LoadError (List EventDetail × ℕ)
    → Result LoadError LoadResult × Database
end_load key expected_rows manifest db (raise e) =
    (raise e, record { events = db.events; load_runs = finished failed key manifest db.load_runs })
end_load key expected_rows manifest db (ok (events, inserted)) = (
  ok (record {
    inserted_rows = inserted;
    already_present_rows = expected_rows - inserted;
    idempotent_noop = false;
  }),
  record { events = events; load_runs = finished succeeded key manifest db.load_runs },
)

-- `idempotency_key` is UNIQUE in `load_control.database_load_run`.
abbrev pub has_key : Text → List LoadRun → Bool
has_key key runs = any (λ run. text_eq run.idempotency_key key) runs

-- A load without a successful run: its run is inserted before the transaction, which a run of the key
-- that failed or has not ended forbids; the caller's connection rolls back then.
unfoldable pub start_load :
    Text → Bool → ℕ → GoldManifest → Database → Result LoadError LoadResult × Database
start_load key is_broken expected_rows manifest db =
    if has_key key db.load_runs
    then (raise duplicate_key, db)
    else end_load key expected_rows manifest db
        (stage_and_insert is_broken expected_rows manifest db.events)

-- `load`; `key` is the hash of the manifest's bytes.
abbrev pub load_new :
    Text
    → Bool
    → ℕ
    → GoldManifest
    → Database
    → Option LoadRun
    → Result LoadError LoadResult × Database
load_new key is_broken expected_rows manifest db (some run) = replay_load expected_rows run db
load_new key is_broken expected_rows manifest db none =
    start_load key is_broken expected_rows manifest db

unfoldable pub load :
    (Text → Text)
    → Text
    → Bool
    → ℕ
    → GoldManifest
    → Database
    → Result LoadError LoadResult × Database
load sha256 key is_broken expected_rows manifest db =
    elim (load_manifest sha256 expected_rows manifest) [
      | raise e ↦ (raise e, db)
      | ok u ↦ load_new key is_broken expected_rows manifest db (find_success key db.load_runs)
    ]
