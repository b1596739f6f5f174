-- ===== src/Api/Pages.antt =====
-- The pages of `lineage` and `bbox` in src/eo_event_platform/api/repository.py. What PostgreSQL answers
-- is a parameter: `select_events` is the query for a page, with its cursor and its LIMIT.
pub mod Cuts
pub mod Following
use nasa_earth_observation_e.Prelude.{
  ℕ, suc, ◌+◌, ◌-◌, Bool, true, false, Option, none, some, List, [], ◌∷◌, length, get_elem?, take,
  map, ltb, if◌then◌else◌, Result, ok, raise, ◌>>=◌,
}
use nasa_earth_observation_e.Text.{Text}
use nasa_earth_observation_e.Text.Float.{Float}
use nasa_earth_observation_e.Json.{Flat}
use nasa_earth_observation_e.Api.Cursor.{CursorError, encode_cursor, decode_cursor}

-- The classes of psycopg's errors that the service tells apart, and that of the role's check.
pub data DatabaseError : Type 0 where
  query_canceled operational_error other_database_error role_not_ready : DatabaseError

pub data RepositoryError : Type 0 where
  bad_cursor : RepositoryError
  database : DatabaseError → RepositoryError

abbrev pub or_bad_cursor {ℓ} : {A : Type ℓ} → Result CursorError A → Result RepositoryError A
or_bad_cursor (raise e) = raise bad_cursor
or_bad_cursor (ok a) = ok a

abbrev pub or_database {ℓ} : {A : Type ℓ} → Result DatabaseError A → Result RepositoryError A
or_database (raise e) = raise (database e)
or_database (ok a) = ok a

-- A row of `serving.event_detail`, with those of its columns that are read here.
pub record EventRow (Timestamp : Type 0) : Type 0 where
  pub activity_timestamp : Timestamp
  pub event_id : Text
  pub longitude : Float
  pub latitude : Float

pub record PageQuery : Type 0 where
  pub limit : ℕ
  pub cursor : Option Text

pub record LineageResult (Timestamp Summary : Type 0) : Type 0 where
  pub summary : Summary
  pub events : List (EventRow Timestamp)
  pub next_cursor : Option Text

pub record Feature (Timestamp : Type 0) : Type 0 where
  pub id : Text
  pub coordinates : Float × Float
  pub properties : EventRow Timestamp

pub record FeatureCollection (Timestamp : Type 0) : Type 0 where
  pub features : List (Feature Timestamp)
  pub next_cursor : Option Text

module _ {Timestamp : Type 0} where
  abbrev pub key_of : EventRow Timestamp → Timestamp × Text
  key_of row = (row.activity_timestamp, row.event_id)

  abbrev pub feature_of : EventRow Timestamp → Feature Timestamp
  feature_of row = record {
    id = row.event_id;
    coordinates = (row.longitude, row.latitude);
    properties = row;
  }

  module _ (isoformat : Timestamp → Text) where
    abbrev pub cursor_of : Option (EventRow Timestamp) → Option Text
    cursor_of none = none
    cursor_of (some boundary) =
        some (encode_cursor isoformat boundary.activity_timestamp boundary.event_id)

    -- The rows of the page and the cursor of the next, of the rows that were read. A limit is positive.
    unfoldable pub cut_page :
        ℕ → List (EventRow Timestamp) → List (EventRow Timestamp) × Option Text
    cut_page limit rows =
        if ltb limit (length rows)
        then (take limit rows, cursor_of (get_elem? rows (limit - 1)))
        else (rows, none)

    module _ (fromisoformat : Text → Option Timestamp) (is_aware : Timestamp → Bool)
        (loads : Text → Option Flat)
        (select_events : Option (Timestamp × Text)
          → ℕ
          → Result DatabaseError (List (EventRow Timestamp))) where
      abbrev pub fetch_page :
          Option (Timestamp × Text)
          → ℕ
          → Result RepositoryError (List (EventRow Timestamp) × Option Text)
      fetch_page cursor limit = do
        rows ← or_database (select_events cursor (limit + 1))
        ok (cut_page limit rows)

      -- `lineage`; `select_summary` is the query for the summary, `none` where it finds no row.
      unfoldable pub lineage :
          {Summary : Type 0}
          → Result DatabaseError (Option Summary)
          → PageQuery
          → Result RepositoryError (Option (LineageResult Timestamp Summary))
      lineage select_summary page = do
        cursor ← or_bad_cursor (decode_cursor fromisoformat is_aware loads page.cursor)
        found ← or_database select_summary
        elim found [
          | none ↦ ok none
          | some summary ↦ (do
            (events, next_cursor) ← fetch_page cursor page.limit
            ok (some (record { summary = summary; events = events; next_cursor = next_cursor })))
        ]

      -- `bbox`
      unfoldable pub bbox : PageQuery → Result RepositoryError (FeatureCollection Timestamp)
      bbox query = do
        cursor ← or_bad_cursor (decode_cursor fromisoformat is_aware loads query.cursor)
        (rows, next_cursor) ← fetch_page cursor query.limit
        ok (record { features = map feature_of rows; next_cursor = next_cursor })
