-- ===== src/Extraction/Area.antt =====
-- `AREA_PATTERN` of src/eo_event_platform/ingestion/nasa_firms/extractor.py: four numbers with commas
-- between them. No number holds a comma, so the pattern is tried on the pieces of `split(",")`.
pub mod Grammar
use nasa_earth_observation_e.Prelude.{Bool, true, false, ◌&&◌, List, [], ◌∷◌, ◌==◌, if◌then◌else◌}
use nasa_earth_observation_e.Text.{Text}
use nasa_earth_observation_e.Text.Decimals.{is_decimal, are_decimals}
use nasa_earth_observation_e.Text.Splitting.{split}

-- `(?:\.\d+)?`, up to the end.
unfoldable pub matches_fraction : Text → Bool
matches_fraction [] = true
matches_fraction (c ∷ s) = c == b'.' && are_decimals s

-- `\d*(?:\.\d+)?`, up to the end.
unfoldable pub matches_digits : Text → Bool
unfolding matches_fraction
matches_digits [] = true
matches_digits (c ∷ s) = if is_decimal c then matches_digits s else matches_fraction (c ∷ s)

-- `\d+(?:\.\d+)?`
unfoldable pub matches_unsigned : Text → Bool
matches_unsigned [] = false
matches_unsigned (c ∷ s) = is_decimal c && matches_digits s

-- `-?\d+(?:\.\d+)?`
unfoldable pub matches_number : Text → Bool
matches_number [] = false
matches_number (c ∷ s) = if c == b'-' then matches_unsigned s else matches_unsigned (c ∷ s)

unfoldable pub are_numbers : List Text → Bool
are_numbers (west ∷ south ∷ east ∷ north ∷ []) =
    matches_number west && matches_number south && matches_number east && matches_number north
are_numbers _ = false

unfoldable pub matches_area : Text → Bool
unfolding are_numbers
matches_area area = are_numbers (split b',' area)
