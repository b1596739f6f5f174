-- ===== src/Api/Base64/RoundTrip.antt =====
-- Reading what base64 wrote, without its padding and with one that is made up again.
use nasa_earth_observation_e.Prelude.{
  ℕ, suc, ◌+◌, ◌-◌, ◌*◌, ◌/◌, ◌%◌, ◌<◌, true, false, Option, some, [], ◌∷◌, ◌++◌, ltb, ◌==◌, length,
  All, all, ◌≡◌, refl, ap, ◌∙◌, arith,
}
use nasa_earth_observation_e.Text.{Text}
use nasa_earth_observation_e.Api.Base64.{
  character, sextet, urlsafe_b64encode, Quad, zero_read, one_read, two_read, three_read, with_byte,
  read_base64, urlsafe_b64decode, right_strip_of, pads_of, repad,
}

character-sextet : (n : ℕ) → n < 64 → sextet (character n) ≡ some n
unfolding character sextet
character-sextet n below = ground (arith, below)

character-not_pad : (n : ℕ) → n < 64 → (character n == b'=') ≡ false
unfolding character
character-not_pad n below = ground (arith, below)

-- What `push` a character of six bits makes of what was read.
abbrev push : Quad → ℕ → Text → Option Text
push zero_read n s = read_base64 (one_read n) 0 s
push (one_read left) n s = with_byte (left * 4 + n / 16) (read_base64 (two_read (n % 16)) 0 s)
push (two_read left) n s = with_byte (left * 16 + n / 4) (read_base64 (three_read (n % 4)) 0 s)
push (three_read left) n s = with_byte (left * 64 + n) (read_base64 zero_read 0 s)

read-character :
    (q : Quad) (n : ℕ) (s : Text) → n < 64 → read_base64 q 0 (character n ∷ s) ≡ push q n s
read-character zero_read n s below =
    unfold read_base64 in
    (rw (read_base64, character-not_pad n below, character-sextet n below) refl)
read-character (one_read left) n s below =
    unfold read_base64 in
    (rw (read_base64, character-not_pad n below, character-sextet n below) refl)
read-character (two_read left) n s below =
    unfold read_base64 in
    (rw (read_base64, character-not_pad n below, character-sextet n below) refl)
read-character (three_read left) n s below =
    unfold read_base64 in
    (rw (read_base64, character-not_pad n below, character-sextet n below) refl)

-- The characters without the padding.
unpadded : Text → Text
unpadded [] = []
unpadded (a ∷ []) = character (a / 4) ∷ character (a % 4 * 16) ∷ []
unpadded (a ∷ b ∷ []) =
    character (a / 4) ∷ character (a % 4 * 16 + b / 16) ∷ character (b % 16 * 4) ∷ []
unpadded (a ∷ b ∷ c ∷ s) =
    character (a / 4)
    ∷ character (a % 4 * 16 + b / 16)
    ∷ character (b % 16 * 4 + c / 64)
    ∷ character (c % 64)
    ∷ unpadded s

-- A character that completes the byte `a` and has the bits `left` of the next.
read-second :
    (a left : ℕ) (s : Text)
    → a < 256
    → left < 16
    → read_base64 (one_read (a / 4)) 0 (character (a % 4 * 16 + left) ∷ s)
      ≡ with_byte a (read_base64 (two_read left) 0 s)
read-second a left s below bits =
    let byte : (a / 4 * 4 + (a % 4 * 16 + left) / 16) ≡ a = omega (arith, bits) in
    let over : ((a % 4 * 16 + left) % 16) ≡ left = omega (arith, bits) in
    read-character (one_read (a / 4)) (a % 4 * 16 + left) s (omega (arith, bits))
    ∙ rw (byte, over) refl

read-third :
    (b left : ℕ) (s : Text)
    → b < 256
    → left < 4
    → read_base64 (two_read (b / 16)) 0 (character (b % 16 * 4 + left) ∷ s)
      ≡ with_byte b (read_base64 (three_read left) 0 s)
read-third b left s below bits =
    let byte : (b / 16 * 16 + (b % 16 * 4 + left) / 4) ≡ b = omega (arith, bits) in
    let over : ((b % 16 * 4 + left) % 4) ≡ left = omega (arith, bits) in
    read-character (two_read (b / 16)) (b % 16 * 4 + left) s (omega (arith, bits))
    ∙ rw (byte, over) refl

read-fourth :
    (c : ℕ) (s : Text)
    → read_base64 (three_read (c / 64)) 0 (character (c % 64) ∷ s)
      ≡ with_byte c (read_base64 zero_read 0 s)
read-fourth c s =
    let byte : (c / 64 * 64 + c % 64) ≡ c = omega arith in
    read-character (three_read (c / 64)) (c % 64) s (omega arith) ∙ rw byte refl

read-group :
    (a b c : ℕ) (s : Text)
    → a < 256
    → b < 256
    → c < 256
    → read_base64 zero_read 0 (
        character (a / 4)
        ∷ character (a % 4 * 16 + b / 16)
        ∷ character (b % 16 * 4 + c / 64)
        ∷ character (c % 64)
        ∷ s)
      ≡ with_byte a (with_byte b (with_byte c (read_base64 zero_read 0 s)))
read-group a b c s ha hb hc =
    read-character zero_read (a / 4) _ (omega (arith, ha))
    ∙ read-second a (b / 16) _ ha (omega (arith, hb))
    ∙ ap (with_byte a)
        (read-third b (c / 64) _ hb (omega (arith, hc)) ∙ ap (with_byte b) (read-fourth c s))

-- The padding that the length calls for is the one that was left out.
pads : Text → Text
pads s = pads_of ((4 - length s % 4) % 4)

pads-group : (p q r t : ℕ) (s : Text) → pads (p ∷ q ∷ r ∷ t ∷ s) ≡ pads s
unfolding pads
pads-group p q r t s =
    let same : ((4 - suc (suc (suc (suc (length s)))) % 4) % 4) ≡ ((4 - length s % 4) % 4) =
      omega arith in
    ap pads_of same

abbrev pub AreBytes : Text → Type 0
AreBytes s = All (λ b. b < 256) s

read-end : read_base64 zero_read 0 [] ≡ some []
unfolding read_base64
read-end = refl

read-two : (left : ℕ) → read_base64 (two_read left) 0 (b'=' ∷ b'=' ∷ []) ≡ some []
unfolding read_base64
read-two left = refl

read-three : (left : ℕ) → read_base64 (three_read left) 0 (b'=' ∷ []) ≡ some []
unfolding read_base64
read-three left = refl

no_more : (n : ℕ) → n ≡ n + 0
no_more n = omega arith

read-unpadded :
    (s : Text) → AreBytes s → read_base64 zero_read 0 (unpadded s ++ pads (unpadded s)) ≡ some s
unfolding unpadded pads pads_of
read-unpadded [] h = read-end
read-unpadded (a ∷ []) (ha, h) =
    read-character zero_read (a / 4) _ (omega (arith, ha))
    ∙ ap (λ n. read_base64 (one_read (a / 4)) 0 (character n ∷ b'=' ∷ b'=' ∷ []))
        (no_more (a % 4 * 16))
    ∙ read-second a 0 _ ha (omega arith)
    ∙ ap (with_byte a) (read-two 0)
read-unpadded (a ∷ b ∷ []) (ha, (hb, h)) =
    read-character zero_read (a / 4) _ (omega (arith, ha))
    ∙ read-second a (b / 16) _ ha (omega (arith, hb))
    ∙ ap (λ n. with_byte a (read_base64 (two_read (b / 16)) 0 (character n ∷ b'=' ∷ [])))
        (no_more (b % 16 * 4))
    ∙ ap (with_byte a) (read-third b 0 _ hb (omega arith) ∙ ap (with_byte b) (read-three 0))
read-unpadded (a ∷ b ∷ c ∷ s) (ha, (hb, (hc, h))) =
    read-group a b c _ ha hb hc
    ∙ rw
        (
          pads-group (character (a / 4)) (character (a % 4 * 16 + b / 16))
              (character (b % 16 * 4 + c / 64)) (character (c % 64)) (unpadded s),
          read-unpadded s h,
        )
        refl

right_strip_of-keep :
    (c d : ℕ) (s : Text) → (d == c) ≡ false → right_strip_of c (d ∷ s) ≡ d ∷ right_strip_of c s
right_strip_of-keep c d s other = unfold right_strip_of in (rw other refl)

strip-character :
    (n : ℕ) (s t : Text)
    → n < 64
    → right_strip_of b'=' s ≡ t
    → right_strip_of b'=' (character n ∷ s) ≡ character n ∷ t
strip-character n s t below rest =
    right_strip_of-keep b'=' (character n) s (character-not_pad n below)
    ∙ ap (λ u. character n ∷ u) rest

strip-pads : right_strip_of b'=' (b'=' ∷ b'=' ∷ []) ≡ []
unfolding right_strip_of
strip-pads = refl

strip-pad : right_strip_of b'=' (b'=' ∷ []) ≡ []
unfolding right_strip_of
strip-pad = refl

strip-none : right_strip_of b'=' [] ≡ []
unfolding right_strip_of
strip-none = refl

-- `rstrip("=")` takes the padding away and nothing else.
strip-encode : (s : Text) → AreBytes s → right_strip_of b'=' (urlsafe_b64encode s) ≡ unpadded s
unfolding urlsafe_b64encode unpadded
strip-encode [] h = strip-none
strip-encode (a ∷ []) (ha, h) =
    strip-character (a / 4) _ _ (omega (arith, ha))
      (strip-character (a % 4 * 16) _ _ (omega arith) strip-pads)
strip-encode (a ∷ b ∷ []) (ha, (hb, h)) = strip-character (a / 4) _ _ (omega (arith, ha)) (
    strip-character (a % 4 * 16 + b / 16) _ _ (omega (arith, hb))
      (strip-character (b % 16 * 4) _ _ (omega arith) strip-pad))
strip-encode (a ∷ b ∷ c ∷ s) (ha, (hb, (hc, h))) = strip-character (a / 4) _ _ (omega (arith, ha)) (
    strip-character (a % 4 * 16 + b / 16) _ _ (omega (arith, hb)) (
      strip-character (b % 16 * 4 + c / 64) _ _ (omega (arith, hc))
        (strip-character (c % 64) _ _ (omega arith) (strip-encode s h))))

-- What is written without its padding is read again with the padding that its length calls for.
pub repad-encode :
    (s : Text)
    → AreBytes s
    → urlsafe_b64decode (repad (right_strip_of b'=' (urlsafe_b64encode s))) ≡ some s
unfolding repad pads
repad-encode s h = rw (strip-encode s h) (read-unpadded s h)

AsciiOnly : Text → Type 0
AsciiOnly s = all (λ c. ltb c 128) s ≡ true

character-lt : (n : ℕ) → n < 64 → ltb (character n) 128 ≡ true
unfolding character
character-lt n below = ground (arith, below)

unpadded-AsciiOnly : (s : Text) → AreBytes s → AsciiOnly (unpadded s)
unfolding AsciiOnly unpadded
unpadded-AsciiOnly [] h = refl
unpadded-AsciiOnly (a ∷ []) (ha, h) =
    rw (character-lt (a / 4) (omega (arith, ha)), character-lt (a % 4 * 16) (omega arith)) refl
unpadded-AsciiOnly (a ∷ b ∷ []) (ha, (hb, h)) =
    rw
      (
        character-lt (a / 4) (omega (arith, ha)),
        character-lt (a % 4 * 16 + b / 16) (omega (arith, hb)),
        character-lt (b % 16 * 4) (omega arith),
      )
      refl
unpadded-AsciiOnly (a ∷ b ∷ c ∷ s) (ha, (hb, (hc, h))) =
    rw
      (
        character-lt (a / 4) (omega (arith, ha)),
        character-lt (a % 4 * 16 + b / 16) (omega (arith, hb)),
        character-lt (b % 16 * 4 + c / 64) (omega (arith, hc)),
        character-lt (c % 64) (omega arith),
      )
      (unpadded-AsciiOnly s h)

pub encode-ascii :
    (s : Text)
    → AreBytes s
    → all (λ c. ltb c 128) (right_strip_of b'=' (urlsafe_b64encode s)) ≡ true
unfolding AsciiOnly
encode-ascii s h = rw (strip-encode s h) (unpadded-AsciiOnly s h)
