-- ===== src/Cache/Control.antt =====
-- `cache_bypassed` of src/eo_event_platform/api/cache.py, which reads a Cache-Control header.
use nasa_earth_observation_e.Prelude.{
  Bool, false, ◌||◌, Option, none, some, [], ◌∷◌, ◌++◌, ◌≡◌, refl, sym, any, any-append,
}
use nasa_earth_observation_e.Text.{Text, codes, text_eq, strip, lower}
use nasa_earth_observation_e.Text.Splitting.{split, before, split-append}

-- The name of a directive: what stands before a `=`, trimmed, in lower case.
pub directive : Text → Text
directive item = lower (strip (before b'=' item))

pub is_bypass : Text → Bool
is_bypass item =
    text_eq (directive item) (codes "no-cache") || text_eq (directive item) (codes "no-store")

unfoldable pub cache_bypassed : Option Text → Bool
unfolding is_bypass directive
cache_bypassed none = false
cache_bypassed (some []) = false
cache_bypassed (some header) = any is_bypass (split b',' header)

empty_header : any is_bypass (split b',' []) ≡ false
unfolding is_bypass directive split before strip lower text_eq
empty_header = refl

bypassed_lem : (header : Text) → cache_bypassed (some header) ≡ any is_bypass (split b',' header)
unfolding cache_bypassed
bypassed_lem [] = sym empty_header
bypassed_lem (c ∷ s) = refl

-- A header of two parts joined by a comma bypasses the cache exactly where one of the parts does.
cache_bypassed-append :
    (first second : Text)
    → cache_bypassed (some (first ++ b',' ∷ second))
      ≡ (cache_bypassed (some first) || cache_bypassed (some second))
cache_bypassed-append first second =
    rw
      (
        bypassed_lem (first ++ b',' ∷ second),
        bypassed_lem first,
        bypassed_lem second,
        split-append b',' first second,
      )
      (any-append is_bypass (split b',' first) (split b',' second))
