-- ===== src/Api/Base64.antt =====
-- Python's `base64.urlsafe_b64encode` and `base64.urlsafe_b64decode`, as the cursors of
-- src/eo_event_platform/api/models.py use them. A byte is a number below 256.
pub mod RoundTrip
use nasa_earth_observation_e.Prelude.{
  ℕ, zero, suc, ◌+◌, ◌-◌, ◌*◌, ◌/◌, ◌%◌, Bool, true, false, ◌&&◌, ◌||◌, Option, none, some, List,
  [], ◌∷◌, ◌++◌, leb, ltb, ◌==◌, if◌then◌else◌, length,
}
use nasa_earth_observation_e.Text.{Text, is_empty}

-- The character of six bits.
unfoldable pub character : ℕ → ℕ
character n =
    if ltb n 26
    then b'A' + n
    else if ltb n 52
    then 71 + n
    else if ltb n 62
    then n - 4
    else if n == 62
    then b'-'
    else b'_'

-- The six bits of a character; both alphabets are read, and another character is passed over.
unfoldable pub sextet : ℕ → Option ℕ
sextet c =
    if leb b'A' c && leb c b'Z'
    then some (c - b'A')
    else if leb b'a' c && leb c b'z'
    then some (c - 71)
    else if leb b'0' c && leb c b'9'
    then some (c + 4)
    else if c == b'-' || c == b'+'
    then some 62
    else if c == b'_' || c == b'/'
    then some 63
    else none

unfoldable pub urlsafe_b64encode : Text → Text
urlsafe_b64encode [] = []
urlsafe_b64encode (a ∷ []) = character (a / 4) ∷ character (a % 4 * 16) ∷ b'=' ∷ b'=' ∷ []
urlsafe_b64encode (a ∷ b ∷ []) =
    character (a / 4) ∷ character (a % 4 * 16 + b / 16) ∷ character (b % 16 * 4) ∷ b'=' ∷ []
urlsafe_b64encode (a ∷ b ∷ c ∷ s) =
    character (a / 4)
    ∷ character (a % 4 * 16 + b / 16)
    ∷ character (b % 16 * 4 + c / 64)
    ∷ character (c % 64)
    ∷ urlsafe_b64encode s

-- The characters of a group that are read, with the bits that no byte has yet.
pub data Quad : Type 0 where
  zero_read : Quad
  one_read two_read three_read : ℕ → Quad

-- Whether a `=` ends the text here, behind so many others.
abbrev pub ends : Quad → ℕ → Bool
ends zero_read pads = false
ends (one_read left) pads = false
ends (two_read left) pads = leb 1 pads
ends (three_read left) pads = true

abbrev pub padded_once : Quad → ℕ → ℕ
padded_once zero_read pads = pads
padded_once (one_read left) pads = pads
padded_once (two_read left) pads = suc pads
padded_once (three_read left) pads = suc pads

abbrev pub with_byte : ℕ → Option Text → Option Text
with_byte byte none = none
with_byte byte (some bytes) = some (byte ∷ bytes)

abbrev pub no_rest : Quad → Option Text
no_rest zero_read = some []
no_rest _ = none

-- `binascii.a2b_base64`, not strict. `none` is its error.
unfoldable pub read_base64 : Quad → ℕ → Text → Option Text
read_base64 q pads [] = no_rest q
read_base64 q pads (c ∷ s) = elim (c == b'=') [
  | true ↦ elim (ends q pads) [ true ↦ some [] | false ↦ read_base64 q (padded_once q pads) s ]
  | false ↦ elim (sextet c) [
    | none ↦ read_base64 q pads s
    | some n ↦ elim q [
      | zero_read ↦ read_base64 (one_read n) 0 s
      | one_read left ↦ with_byte (left * 4 + n / 16) (read_base64 (two_read (n % 16)) 0 s)
      | two_read left ↦ with_byte (left * 16 + n / 4) (read_base64 (three_read (n % 4)) 0 s)
      | three_read left ↦ with_byte (left * 64 + n) (read_base64 zero_read 0 s)
    ]
  ]
]

abbrev pub urlsafe_b64decode : Text → Option Text
urlsafe_b64decode s = read_base64 zero_read 0 s

-- `s.rstrip(c)`
unfoldable pub right_strip_of : ℕ → Text → Text
right_strip_of c [] = []
right_strip_of c (d ∷ s) =
    let rest = right_strip_of c s in if d == c && is_empty rest then [] else d ∷ rest

-- `"=" * n`
unfoldable pub pads_of : ℕ → Text
pads_of zero = []
pads_of (suc n) = b'=' ∷ pads_of n

-- `value + "=" * (-len(value) % 4)`
unfoldable pub repad : Text → Text
repad s = s ++ pads_of ((4 - length s % 4) % 4)
