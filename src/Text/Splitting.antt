-- ===== src/Text/Splitting.antt =====
-- `str.split` with a separator of one character.
use nasa_earth_observation_e.Prelude.{
  ℕ, ◌≡◌, refl, List, [], ◌∷◌, ◌++◌, ◌==◌, if◌then◌else◌, arith, any,
}
use nasa_earth_observation_e.Text.{Text}

-- The first piece, made longer by a character.
abbrev pub extend : ℕ → List Text → List Text
extend c [] = (c ∷ []) ∷ []
extend c (piece ∷ pieces) = (c ∷ piece) ∷ pieces

unfoldable pub split : ℕ → Text → List Text
split sep [] = [] ∷ []
split sep (c ∷ s) = let rest = split sep s in if c == sep then [] ∷ rest else extend c rest

-- What stands in front of the first separator.
unfoldable pub before : ℕ → Text → Text
before sep [] = []
before sep (c ∷ s) = if c == sep then [] else c ∷ before sep s

-- What stands behind the last separator.
unfoldable pub after_last : ℕ → Text → Text
after_last sep [] = []
after_last sep (c ∷ s) =
    let rest = after_last sep s in
    if any (λ d. d == sep) (c ∷ s) then (if any (λ d. d == sep) s then rest else s) else c ∷ s

extend-append :
    (c : ℕ) (sep : ℕ) (s : Text) (more : List Text)
    → extend c (split sep s ++ more) ≡ extend c (split sep s) ++ more
unfolding split
extend-append c sep [] more = refl
extend-append c sep (d ∷ s) more = ground arith

-- Joining by the separator and splitting again.
pub split-append : (sep : ℕ) (s t : Text) → split sep (s ++ sep ∷ t) ≡ split sep s ++ split sep t
unfolding split
split-append sep [] t = ground arith
split-append sep (c ∷ s) t =
    ground (arith, split-append sep s t, extend-append c sep s (split sep t))
