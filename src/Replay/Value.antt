-- ===== src/Replay/Value.antt =====
-- The values of a JSON object that `json.loads` returns, and Python's equality on them.
use nasa_earth_observation_e.Prelude.{
  ℕ, String, Bool, true, false, ◌&&◌, none, some, List, [], ◌∷◌, if◌then◌else◌, ◌≡◌, arith,
}
use nasa_earth_observation_e.Prelude.Int.{pos}
use nasa_earth_observation_e.Prelude.Assoc.{lookup}
use nasa_earth_observation_e.Text.{Text, text_eq}
use nasa_earth_observation_e.Text.Equality.{text_eq_refl}
use nasa_earth_observation_e.Text.Float.{Float, of_int, le}

-- An integer is a number without a fraction; a nested object is no value of an event.
pub data Value : Type 0 where
  null : Value
  boolean : Bool → Value
  number : Float → Value
  text : Text → Value
  texts : List Text → Value

abbrev pub Event : Type 0
Event = List (String × Value)

abbrev pub natural : ℕ → Value
natural n = number (of_int (pos n))

abbrev pub float_eq : Float → Float → Bool
float_eq x y = le x y && le y x

-- `True` and `False` are the numbers 1 and 0.
abbrev pub float_of : Bool → Float
float_of b = of_int (pos (if b then 1 else 0))

abbrev pub texts_eq : List Text → List Text → Bool
texts_eq [] [] = true
texts_eq [] (t ∷ ts) = false
texts_eq (s ∷ ss) [] = false
texts_eq (s ∷ ss) (t ∷ ts) = text_eq s t && texts_eq ss ts

-- `a == b`
unfoldable pub value_eq : Value → Value → Bool
value_eq null null = true
value_eq (boolean a) (boolean b) = float_eq (float_of a) (float_of b)
value_eq (boolean a) (number y) = float_eq (float_of a) y
value_eq (number x) (boolean b) = float_eq x (float_of b)
value_eq (number x) (number y) = float_eq x y
value_eq (text s) (text t) = text_eq s t
value_eq (texts s) (texts t) = texts_eq s t
value_eq _ _ = false

-- event.get(name)
unfoldable pub get : String → Event → Value
get name event = elim (lookup name event) [ none ↦ null | some v ↦ v ]

pub value_eq-text : (s : Text) → value_eq (text s) (text s) ≡ true
unfolding value_eq
value_eq-text s = text_eq_refl s

pub value_eq-natural : (n : ℕ) → value_eq (natural n) (natural n) ≡ true
unfolding value_eq le
value_eq-natural n = ground arith
