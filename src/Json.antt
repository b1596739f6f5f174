-- ===== src/Json.antt =====
-- `json.dumps` with sorted keys, the separators "," and ":" and ASCII output, of a flat dictionary:
-- the form in which the program hashes the material of its identities.
mod Tests
pub mod Ascii
use Prim.Native.Nat.{Ordering}
use Prim.Native.String.{compare}
use nasa_earth_observation_e.Prelude.{
  ℕ, zero, suc, ◌+◌, ◌-◌, ◌*◌, ◌/◌, ◌%◌, String, Bool, true, false, ◌&&◌, ◌||◌, not, Option, none,
  some, List, [], ◌∷◌, ◌++◌, leb, ltb, ◌==◌, if◌then◌else◌, str_eq,
}
use nasa_earth_observation_e.Text.{Text, codes}

pub data Scalar : Type 0 where
  null : Scalar
  text : Text → Scalar
  number : ℕ → Scalar

abbrev pub Flat : Type 0
Flat = List (String × Scalar)

abbrev pub hex_digit : ℕ → ℕ
hex_digit n = if ltb n 10 then b'0' + n else 87 + n

-- `\uXXXX`
abbrev pub unicode_escape : ℕ → Text
unicode_escape c =
    92
    ∷ b'u'
    ∷ hex_digit (c / 4096 % 16)
    ∷ hex_digit (c / 256 % 16)
    ∷ hex_digit (c / 16 % 16)
    ∷ hex_digit (c % 16)
    ∷ []

-- A character inside a JSON text; one above 0xFFFF is written as its two surrogates.
unfoldable pub escape : ℕ → Text
escape c =
    if c == b'"'
    then 92 ∷ b'"' ∷ []
    else if c == 92
    then 92 ∷ 92 ∷ []
    else if c == 10
    then 92 ∷ b'n' ∷ []
    else if c == 13
    then 92 ∷ b'r' ∷ []
    else if c == 9
    then 92 ∷ b't' ∷ []
    else if c == 12
    then 92 ∷ b'f' ∷ []
    else if c == 8
    then 92 ∷ b'b' ∷ []
    else if leb 32 c && leb c 126
    then c ∷ []
    else if leb c 65535
    then unicode_escape c
    else unicode_escape (55296 + (c - 65536) / 1024 % 1024)
      ++ unicode_escape (56320 + (c - 65536) % 1024)

unfoldable pub escaped : Text → Text
escaped [] = []
escaped (c ∷ s) = escape c ++ escaped s

unfoldable pub quote : Text → Text
quote s = b'"' ∷ escaped s ++ b'"' ∷ []

-- The decimal digits of a number; as much fuel as the number is enough.
unfoldable pub digits_from : ℕ → ℕ → Text → Text
digits_from zero n acc = acc
digits_from (suc fuel) n acc =
    let acc' = (b'0' + n % 10) ∷ acc in
    let rest = digits_from fuel (n / 10) acc' in if ltb n 10 then acc' else rest

unfoldable pub show : ℕ → Text
unfolding digits_from
show n = digits_from (suc n) n []

unfoldable pub dump_scalar : Scalar → Text
dump_scalar null = codes "null"
dump_scalar (text s) = quote s
dump_scalar (number n) = show n

abbrev pub str_lt : String → String → Bool
str_lt s t = elim (compare s t) [ Ordering.lt ↦ true | _ ↦ false ]

unfoldable pub insert_key : String × Scalar → Flat → Flat
insert_key item [] = item ∷ []
insert_key item (other ∷ rest) =
    if str_lt item.0 other.0 then item ∷ other ∷ rest else other ∷ insert_key item rest

unfoldable pub sort_keys : Flat → Flat
sort_keys [] = []
sort_keys (item ∷ rest) = insert_key item (sort_keys rest)

abbrev pub dump_member : String × Scalar → Text
dump_member item = quote (codes item.0) ++ b':' ∷ dump_scalar item.1

unfoldable pub dump_members : Flat → Text
dump_members [] = []
dump_members (item ∷ []) = dump_member item
dump_members (item ∷ next ∷ rest) = dump_member item ++ b',' ∷ dump_members (next ∷ rest)

-- `json.dumps(value, sort_keys=True, separators=(",", ":"))`
unfoldable pub dumps : Flat → Text
unfolding sort_keys insert_key dump_members dump_scalar quote escaped escape show
dumps value = b'{' ∷ dump_members (sort_keys value) ++ b'}' ∷ []
