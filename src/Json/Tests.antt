-- ===== src/Json/Tests.antt =====
-- A test of `dumps`.
use nasa_earth_observation_e.Prelude.{◌≡◌, refl, [], ◌∷◌}
use nasa_earth_observation_e.Text.{codes}
use nasa_earth_observation_e.Json.{dumps, text, number}

dumps_example :
    dumps (("b", number 120) ∷ ("a", text (codes "x\"y")) ∷ [])
    ≡ codes "{\"a\":\"x\\\"y\",\"b\":120}"
unfolding dumps
dumps_example = refl
