-- ===== src/Extraction/Request.antt =====
-- `ExtractionRequest` of src/eo_event_platform/ingestion/nasa_firms/extractor.py, and its URL. A day
-- range that is negative fails the test that 0 fails. Python's `float` of a text and
-- `date.fromisoformat` are parameters.
use nasa_earth_observation_e.Prelude.{
  ℕ, Bool, ◌&&◌, ◌||◌, not, Option, none, some, List, [], ◌∷◌, ◌++◌, leb, if◌then◌else◌, Result, ok,
  raise, ◌>>=◌, ◌>>◌, raise_if,
}
use nasa_earth_observation_e.Prelude.Int.{pos, negsuc}
use nasa_earth_observation_e.Text.{Text, codes, text_eq}
use nasa_earth_observation_e.Text.Float.{Float, of_int, le, lt}
use nasa_earth_observation_e.Text.Splitting.{split}
use nasa_earth_observation_e.Json.{show}
use nasa_earth_observation_e.Extraction.Area.{matches_area}

pub record ExtractionRequest : Type 0 where
  pub source_dataset : Text
  pub area : Text
  pub day_range : ℕ
  pub start_date : Option Text

pub data RequestError : Type 0 where
  unapproved_source bad_day_range bad_area not_a_float bad_longitudes bad_latitudes bad_start_date :
      RequestError

-- `APPROVED_SOURCES`
abbrev pub is_approved : Text → Bool
is_approved source =
    text_eq source (codes "VIIRS_SNPP_SP") || text_eq source (codes "VIIRS_SNPP_NRT")

-- The checks of the four numbers.
unfoldable pub check_bounds : Float → Float → Float → Float → Result RequestError (Unit {0})
check_bounds west south east north = do
  raise_if (not (le (of_int (negsuc 179)) west && lt west east && le east (of_int (pos 180))))
      bad_longitudes
  raise_if (not (le (of_int (negsuc 89)) south && lt south north && le north (of_int (pos 90))))
      bad_latitudes
  ok tt

abbrev pub or_no_float : Option Float → Result RequestError Float
or_no_float none = raise not_a_float
or_no_float (some x) = ok x

module _ (float : Text → Option Float) where
  -- The floats of the pieces; the pattern leaves four.
  unfoldable pub check_pieces : List Text → Result RequestError (Unit {0})
  check_pieces (a ∷ b ∷ c ∷ d ∷ []) = do
    west ← or_no_float (float a)
    south ← or_no_float (float b)
    east ← or_no_float (float c)
    north ← or_no_float (float d)
    check_bounds west south east north
  check_pieces _ = raise bad_area

  unfoldable pub check_area : Text → Result RequestError (Unit {0})
  check_area area =
      if text_eq area (codes "world")
      then ok tt
      else (do raise_if (not (matches_area area)) bad_area; check_pieces (split b',' area))

module _ (is_iso_date : Text → Bool) where
  abbrev pub check_start_date : Option Text → Result RequestError (Unit {0})
  check_start_date none = ok tt
  check_start_date (some date) = raise_if (not (is_iso_date date)) bad_start_date

module _ (float : Text → Option Float) (is_iso_date : Text → Bool) where
  -- `ExtractionRequest.validate`
  unfoldable pub validate_request : ExtractionRequest → Result RequestError (Unit {0})
  validate_request request = do
    raise_if (not (is_approved request.source_dataset)) unapproved_source
    raise_if (not (leb 1 request.day_range && leb request.day_range 5)) bad_day_range
    check_area float request.area
    check_start_date is_iso_date request.start_date

abbrev pub and_date : Text → Option Text → Text
and_date url none = url
and_date url (some []) = url
and_date url (some (c ∷ s)) = url ++ b'/' ∷ c ∷ s

-- `build_area_url`
unfoldable pub build_area_url : ExtractionRequest → Text → Text
build_area_url request map_key =
    and_date
      (codes "https://firms.modaps.eosdis.nasa.gov/api/area/csv"
        ++ b'/' ∷ map_key
        ++ b'/' ∷ request.source_dataset
        ++ b'/' ∷ request.area
        ++ b'/' ∷ show request.day_range)
      request.start_date
