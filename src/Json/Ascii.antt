-- ===== src/Json/Ascii.antt =====
-- What `json.dumps` writes is ASCII.
use nasa_earth_observation_e.Prelude.{
  ℕ, zero, suc, ◌+◌, ◌-◌, ◌/◌, ◌%◌, ◌<◌, String, Bool, true, false, ◌&&◌, [], ◌∷◌, leb, ltb, ◌==◌,
  if◌then◌else◌, All, All-append, ◌≡◌, refl, arith,
}
use nasa_earth_observation_e.Text.{Text, codes}
use nasa_earth_observation_e.Json.{
  hex_digit, unicode_escape, escape, escaped, quote, Scalar, null, text, number, Flat, digits_from,
  show, dump_scalar, dump_member, dump_members, sort_keys, dumps,
}

abbrev pub IsAscii : Text → Type 0
IsAscii s = All (λ c. c < 128) s

hex_digit-lt : (n : ℕ) → hex_digit (n % 16) < 128
hex_digit-lt n = ground arith

unicode_escape-IsAscii : (c : ℕ) → IsAscii (unicode_escape c)
unicode_escape-IsAscii c = (
  omega arith,
  (
    omega arith,
    (
      hex_digit-lt (c / 4096),
      (hex_digit-lt (c / 256), (hex_digit-lt (c / 16), (hex_digit-lt c, tt))),
    ),
  ),
)

if-IsAscii :
    (b : Bool) (s t : Text) → (b ≡ true → IsAscii s) → IsAscii t → IsAscii (if b then s else t)
if-IsAscii true s t h k = h refl
if-IsAscii false s t h k = k

-- A backslash and a letter.
short :
    (c d : ℕ) (t : Text) (b : Bool)
    → c < 128
    → d < 128
    → IsAscii t
    → IsAscii (if b then c ∷ d ∷ [] else t)
short c d t b hc hd k = if-IsAscii b (c ∷ d ∷ []) t (λ h. (hc, (hd, tt))) k

escape-IsAscii : (c : ℕ) → IsAscii (escape c)
unfolding escape
escape-IsAscii c = short 92 b'"' _ (c == b'"') (omega arith) (omega arith) (
    short 92 92 _ (c == 92) (omega arith) (omega arith) (
      short 92 b'n' _ (c == 10) (omega arith) (omega arith) (
        short 92 b'r' _ (c == 13) (omega arith) (omega arith) (
          short 92 b't' _ (c == 9) (omega arith) (omega arith) (
            short 92 b'f' _ (c == 12) (omega arith) (omega arith) (
              short 92 b'b' _ (c == 8) (omega arith) (omega arith) (
                if-IsAscii (leb 32 c && leb c 126) (c ∷ []) _ (λ h. (ground (arith, h), tt))
                  (if-IsAscii (leb c 65535) (unicode_escape c) _ (λ h. unicode_escape-IsAscii c)
                    (All-append (λ d. d < 128) (unicode_escape (55296 + (c - 65536) / 1024 % 1024))
                      (unicode_escape (56320 + (c - 65536) % 1024))
                      (unicode_escape-IsAscii (55296 + (c - 65536) / 1024 % 1024))
                      (unicode_escape-IsAscii (56320 + (c - 65536) % 1024)))))))))))

escaped-IsAscii : (s : Text) → IsAscii (escaped s)
unfolding escaped
escaped-IsAscii [] = tt
escaped-IsAscii (c ∷ s) =
    All-append (λ d. d < 128) (escape c) (escaped s) (escape-IsAscii c) (escaped-IsAscii s)

quote-IsAscii : (s : Text) → IsAscii (quote s)
unfolding quote
quote-IsAscii s = (
  omega arith,
  All-append (λ d. d < 128) (escaped s) (b'"' ∷ []) (escaped-IsAscii s) (omega arith, tt),
)

digits_from-IsAscii : (fuel n : ℕ) (acc : Text) → IsAscii acc → IsAscii (digits_from fuel n acc)
unfolding digits_from
digits_from-IsAscii zero n acc h = h
digits_from-IsAscii (suc fuel) n acc h =
    let next : IsAscii ((b'0' + n % 10) ∷ acc) = (omega arith, h) in
    if-IsAscii (ltb n 10) _ _ (λ last. next)
      (digits_from-IsAscii fuel (n / 10) ((b'0' + n % 10) ∷ acc) next)

dump_scalar-IsAscii : (v : Scalar) → IsAscii (dump_scalar v)
unfolding dump_scalar show
dump_scalar-IsAscii null = (omega arith, (omega arith, (omega arith, (omega arith, tt))))
dump_scalar-IsAscii (text s) = quote-IsAscii s
dump_scalar-IsAscii (number n) = digits_from-IsAscii (suc n) n [] tt

dump_member-IsAscii : (item : String × Scalar) → IsAscii (dump_member item)
dump_member-IsAscii item =
    All-append (λ d. d < 128) (quote (codes item.0)) (b':' ∷ dump_scalar item.1)
      (quote-IsAscii (codes item.0)) (omega arith, dump_scalar-IsAscii item.1)

dump_members-IsAscii : (value : Flat) → IsAscii (dump_members value)
unfolding dump_members
dump_members-IsAscii [] = tt
dump_members-IsAscii (item ∷ []) = dump_member-IsAscii item
dump_members-IsAscii (item ∷ next ∷ rest) =
    All-append (λ d. d < 128) (dump_member item) (b',' ∷ dump_members (next ∷ rest))
      (dump_member-IsAscii item) (omega arith, dump_members-IsAscii (next ∷ rest))

pub dumps-IsAscii : (value : Flat) → IsAscii (dumps value)
unfolding dumps
dumps-IsAscii value = (
  omega arith,
  All-append (λ d. d < 128) (dump_members (sort_keys value)) (b'}' ∷ [])
      (dump_members-IsAscii (sort_keys value)) (omega arith, tt),
)
