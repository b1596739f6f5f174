-- ===== src/Extraction/Contract.antt =====
-- The contract of a request, and that `validate` of src/eo_event_platform/ingestion/nasa_firms/extractor.py
-- checks it.
use nasa_earth_observation_e.Prelude.{
  ◌≤◌, Bool, true, false, ◌&&◌, ◌||◌, not, Option, none, some, List, [], ◌∷◌, leb, ok, ◌>>◌,
  raise_if, >>=-eq-ok, >>-eq-ok, ◌≡◌, refl, ◌↔◌, ◌⊎◌, inl, inr, arith, Bool-cases,
}
use nasa_earth_observation_e.Prelude.Int.{pos, negsuc}
use nasa_earth_observation_e.Text.{Text, codes, text_eq}
use nasa_earth_observation_e.Text.Equality.{text_eq_iff}
use nasa_earth_observation_e.Text.Float.{Float, of_int, le, lt}
use nasa_earth_observation_e.Text.Splitting.{split}
use nasa_earth_observation_e.Extraction.Area.{matches_number, are_numbers, matches_area}
use nasa_earth_observation_e.Extraction.Area.Grammar.{IsNumeral, matches_number_lem}
use nasa_earth_observation_e.Extraction.Request.{
  ExtractionRequest, RequestError, is_approved, check_bounds, or_no_float, check_pieces, check_area,
  check_start_date, validate_request,
}

-- A box of coordinates that is not empty.
pub record IsBox (west south east north : Float) : Type 0 where
  pub west_bound : le (of_int (negsuc 179)) west ≡ true
  pub longitudes : lt west east ≡ true
  pub east_bound : le east (of_int (pos 180)) ≡ true
  pub south_bound : le (of_int (negsuc 89)) south ≡ true
  pub latitudes : lt south north ≡ true
  pub north_bound : le north (of_int (pos 90)) ≡ true

-- The pieces of an area, read as the corners of a box.
pub record IsArea (float : Text → Option Float) (area : Text) : Type 0 where
  pub west : Float
  pub south : Float
  pub east : Float
  pub north : Float
  pub pieces : Text × Text × Text × Text
  pub parts : split b',' area ≡ pieces.0 ∷ pieces.1 ∷ pieces.2 ∷ pieces.3 ∷ []
  pub numerals : IsNumeral pieces.0 × IsNumeral pieces.1 × IsNumeral pieces.2 × IsNumeral pieces.3
  pub corners :
      (float pieces.0 ≡ some west)
      × (float pieces.1 ≡ some south)
      × (float pieces.2 ≡ some east)
      × (float pieces.3 ≡ some north)
  pub box : IsBox west south east north

abbrev pub IsDate : (Text → Bool) → Option Text → Type 0
IsDate is_iso_date none = Unit
IsDate is_iso_date (some date) = is_iso_date date ≡ true

-- The contract of a request.
pub record IsValidRequest (float : Text → Option Float) (is_iso_date : Text → Bool)
    (request : ExtractionRequest) : Type 0 where
  pub source :
      (request.source_dataset ≡ codes "VIIRS_SNPP_SP")
      ⊎ (request.source_dataset ≡ codes "VIIRS_SNPP_NRT")
  pub days : (1 ≤ request.day_range) × (request.day_range ≤ 5)
  pub area : (request.area ≡ codes "world") ⊎ IsArea float request.area
  pub start : IsDate is_iso_date request.start_date

or_no_float_lem : (o : Option Float) (x : Float) → or_no_float o ≡ ok x → o ≡ some x
or_no_float_lem none x h = cc
or_no_float_lem (some y) x h = cc

check_bounds-IsBox :
    (west south east north : Float)
    → (check_bounds west south east north ≡ ok tt) ↔ IsBox west south east north
unfolding check_bounds
check_bounds-IsBox west south east north = (
  λ h. record {
    west_bound = ground arith;
    longitudes = ground arith;
    east_bound = ground arith;
    south_bound = ground arith;
    latitudes = ground arith;
    north_bound = ground arith;
  },
  λ b. ground (arith, b),
)

or_iff : {P Q : Type 0} (a b : Bool) → (a ≡ true) ↔ P → (b ≡ true) ↔ Q → ((a || b) ≡ true) ↔ (P ⊎ Q)
or_iff true b p q = (λ h. inl (p.0 refl), λ h. refl)
or_iff false true p q = (λ h. inr (q.0 refl), λ h. refl)
or_iff false false p q = (λ h. cc, λ h. elim h [ inl x ↦ p.1 x | inr y ↦ q.1 y ])

is_approved_lem :
    (source : Text)
    → (is_approved source ≡ true)
      ↔ ((source ≡ codes "VIIRS_SNPP_SP") ⊎ (source ≡ codes "VIIRS_SNPP_NRT"))
is_approved_lem source =
    or_iff _ _ (text_eq_iff source (codes "VIIRS_SNPP_SP"))
      (text_eq_iff source (codes "VIIRS_SNPP_NRT"))

-- The pattern of an area of four pieces.
area-numerals :
    (area a b c d : Text)
    → split b',' area ≡ a ∷ b ∷ c ∷ d ∷ []
    → matches_area area ≡ true
    → IsNumeral a × IsNumeral b × IsNumeral c × IsNumeral d
unfolding matches_area are_numbers
area-numerals area a b c d parts pattern =
    let all : (matches_number a && matches_number b && matches_number c && matches_number d)
        ≡ true =
      rw parts at pattern in
    (
      (matches_number_lem a).0 (ground arith),
      (matches_number_lem b).0 (ground arith),
      (matches_number_lem c).0 (ground arith),
      (matches_number_lem d).0 (ground arith),
    )

numerals-area :
    (area a b c d : Text)
    → split b',' area ≡ a ∷ b ∷ c ∷ d ∷ []
    → IsNumeral a × IsNumeral b × IsNumeral c × IsNumeral d
    → matches_area area ≡ true
unfolding matches_area are_numbers
numerals-area area a b c d parts (na, nb, nc, nd) = rw parts (
    ground (
      arith,
      (matches_number_lem a).1 na,
      (matches_number_lem b).1 nb,
      (matches_number_lem c).1 nc,
      (matches_number_lem d).1 nd,
    ))

module _ (float : Text → Option Float) where
  IsArea-matches_area : (area : Text) → IsArea float area → matches_area area ≡ true
  IsArea-matches_area area a =
      numerals-area area a.pieces.0 a.pieces.1 a.pieces.2 a.pieces.3 a.parts a.numerals

  check_pieces-IsArea :
      (area : Text) (pieces : List Text)
      → split b',' area ≡ pieces
      → matches_area area ≡ true
      → check_pieces float pieces ≡ ok tt
      → IsArea float area
  unfolding check_pieces
  check_pieces-IsArea area [] parts pattern h = cc
  check_pieces-IsArea area (a ∷ []) parts pattern h = cc
  check_pieces-IsArea area (a ∷ b ∷ []) parts pattern h = cc
  check_pieces-IsArea area (a ∷ b ∷ c ∷ []) parts pattern h = cc
  check_pieces-IsArea area (a ∷ b ∷ c ∷ d ∷ []) parts pattern h =
      let (west, at_west, h1) = >>=-eq-ok (or_no_float (float a)) _ h in
      let (south, at_south, h2) = >>=-eq-ok (or_no_float (float b)) _ h1 in
      let (east, at_east, h3) = >>=-eq-ok (or_no_float (float c)) _ h2 in
      let (north, at_north, h4) = >>=-eq-ok (or_no_float (float d)) _ h3 in
      record {
        west = west;
        south = south;
        east = east;
        north = north;
        pieces = (a, b, c, d);
        parts = parts;
        numerals = area-numerals area a b c d parts pattern;
        corners = (
          or_no_float_lem (float a) west at_west,
          or_no_float_lem (float b) south at_south,
          or_no_float_lem (float c) east at_east,
          or_no_float_lem (float d) north at_north,
        );
        box = (check_bounds-IsBox west south east north).0 h4;
      }
  check_pieces-IsArea area (a ∷ b ∷ c ∷ d ∷ e ∷ rest) parts pattern h = cc

  IsArea-check_area : (area : Text) → IsArea float area → check_area float area ≡ ok tt
  IsArea-check_area area a = elim (Bool-cases (text_eq area (codes "world"))) [
    | inl world ↦ unfold check_area in (rw world)
    | inr other ↦
        let (west, south, east, north) = a.corners in
        let bounds = (check_bounds-IsBox a.west a.south a.east a.north).1 a.box in
        unfold check_area check_pieces in
        (rw (other, IsArea-matches_area area a, a.parts, west, south, east, north) bounds)
  ]

  check_area_lem :
      (area : Text) → (check_area float area ≡ ok tt) ↔ ((area ≡ codes "world") ⊎ IsArea float area)
  check_area_lem area = (
    λ h. elim (Bool-cases (text_eq area (codes "world"))) [
      | inl world ↦ inl ((text_eq_iff area (codes "world")).0 world)
      | inr other ↦
          let checked : (raise_if (not (matches_area area)) RequestError.bad_area
                >> check_pieces float (split b',' area))
              ≡ ok tt =
            unfold check_area in (rw (check_area, other) at h) in
          let (passed, pieces) =
            >>-eq-ok (raise_if (not (matches_area area)) _) (check_pieces float (split b',' area))
              checked in
          inr (check_pieces-IsArea area (split b',' area) refl (ground arith) pieces)
    ],
    λ h. elim h [
      | inl world ↦ unfold check_area in (rw ((text_eq_iff area (codes "world")).1 world))
      | inr a ↦ IsArea-check_area area a
    ],
  )

check_start_date_lem :
    (is_iso_date : Text → Bool) (date : Option Text)
    → (check_start_date is_iso_date date ≡ ok tt) ↔ IsDate is_iso_date date
check_start_date_lem is_iso_date none = (λ h. tt, λ h. refl)
check_start_date_lem is_iso_date (some date) = (λ h. ground arith, λ h. ground arith)

-- The validation returns exactly for the requests that meet the contract: an approved source, one to
-- five days, the world or four decimal numerals with commas between them, whose floats are a box of
-- longitudes from -180 to 180 and latitudes from -90 to 90 that is not empty, and a start that is a date, where there is one.
pub validate_request-IsValidRequest :
    (float : Text → Option Float) (is_iso_date : Text → Bool) (request : ExtractionRequest)
    → (validate_request float is_iso_date request ≡ ok tt)
      ↔ IsValidRequest float is_iso_date request
unfolding validate_request
validate_request-IsValidRequest float is_iso_date request = (
  λ h.
      let (sourced, h1) = >>-eq-ok (raise_if (not (is_approved request.source_dataset)) _) _ h in
      let (ranged, h2) =
        >>-eq-ok (raise_if (not (leb 1 request.day_range && leb request.day_range 5)) _) _ h1 in
      let (placed, dated) = >>-eq-ok (check_area float request.area) _ h2 in
      record {
        source = (is_approved_lem request.source_dataset).0 (ground arith);
        days = (ground arith, ground arith);
        area = (check_area_lem float request.area).0 placed;
        start = (check_start_date_lem is_iso_date request.start_date).0 dated;
      },
  λ v. ground (
    arith,
    (is_approved_lem request.source_dataset).1 v.source,
    (check_area_lem float request.area).1 v.area,
    (check_start_date_lem is_iso_date request.start_date).1 v.start,
  ),
)
