-- ===== src/Selection.antt =====
-- src/eo_event_platform/events/scale_gate_selection.py: the deterministic selection of canonical events.
-- A line is its bytes and what `json.loads` makes of them; SHA-256 of the source file is part of the
-- argument. Paths, clocks and the fields of the manifest are left out.
mod Tests
use nasa_earth_observation_e.Prelude.{
  take, drop, ◌++◌, sym, ok-injective, ℕ, zero, suc, ◌+◌, ◌≤◌, Bool, true, false, not, Option, none,
  some, List, [], ◌∷◌, length, ltb, leb, ◌==◌, if◌then◌else◌, Result, ok, raise, ◌>>=◌, ◌>>◌,
  raise_if, ◌≡◌, refl, ◌∙◌, ap, arith, >>=-eq-ok, >>-eq-ok, Option-cases, Bool-cases, inl, inr,
}
use mathlib.Core.Path.{subst}
use mathlib.Core.List.{Perm}
use mathlib.Core.List.Perm
use nasa_earth_observation_e.Text.{Text, codes, text_eq}
use nasa_earth_observation_e.Replay.Value.{Event, text, get}
use nasa_earth_observation_e.Replay.Generator.{
  Line, not_json, not_an_object, object, present_text, is_member_of, text_lt,
}

-- What the selection reads of the canonicalization's manifest.
pub record CanonicalManifest : Type 0 where
  pub status : Text
  pub is_reconciled : Bool
  pub events_sha256 : Text
  pub accepted_count : ℕ

pub data SelectionError : Type 0 where
  target_not_positive not_successful not_reconciled wrong_checksum : SelectionError
  invalid_line no_attribute no_event_id duplicate_event_id wrong_count too_few : SelectionError

abbrev pub Keyed : Type 0
Keyed = Text × Text

unfoldable pub key_line : Text → Line → List Text → Result SelectionError Keyed
key_line raw not_json seen = raise invalid_line
key_line raw not_an_object seen = raise no_attribute
key_line raw (object event) seen = elim (present_text (get "event_id" event)) [
  | none ↦ raise no_event_id
  | some event_id ↦
      if is_member_of event_id seen then raise duplicate_event_id else ok (event_id, raw)
]

unfoldable pub key_lines : List (Text × Line) → List Text → Result SelectionError (List Keyed)
key_lines [] seen = ok []
key_lines ((raw, line) ∷ lines) seen = do
  keyed ← key_line raw line seen
  rest ← key_lines lines (keyed.0 ∷ seen)
  ok (keyed ∷ rest)

unfoldable pub insert_keyed : Keyed → List Keyed → List Keyed
insert_keyed a [] = a ∷ []
insert_keyed a (b ∷ rest) = if text_lt b.0 a.0 then b ∷ insert_keyed a rest else a ∷ b ∷ rest

-- keyed_lines.sort(key=...)
unfoldable pub sort_keyed : List Keyed → List Keyed
sort_keyed [] = []
sort_keyed (a ∷ rest) = insert_keyed a (sort_keyed rest)

-- The selected lines under their identities.
unfoldable pub select_scale_gate_events :
    CanonicalManifest → Text → List (Text × Line) → ℕ → Result SelectionError (List Keyed)
select_scale_gate_events manifest source_sha256 lines target_count = do
  raise_if (leb target_count 0) target_not_positive
  raise_if (not (text_eq manifest.status (codes "SUCCEEDED"))) not_successful
  raise_if (not manifest.is_reconciled) not_reconciled
  raise_if (not (text_eq source_sha256 manifest.events_sha256)) wrong_checksum
  keyed ← key_lines lines []
  raise_if (not (manifest.accepted_count == length keyed)) wrong_count
  raise_if (ltb (length keyed) target_count) too_few
  ok (take target_count (sort_keyed keyed))

-- No line stands before one with a smaller identity.
abbrev pub IsSorted : List Keyed → Type 0
IsSorted [] = Unit
IsSorted (a ∷ []) = Unit
IsSorted (a ∷ b ∷ rest) = (text_lt b.0 a.0 ≡ false) × IsSorted (b ∷ rest)

text_lt-asym : (s t : Text) → text_lt s t ≡ true → text_lt t s ≡ false
unfolding text_lt
text_lt-asym [] [] h = refl
text_lt-asym [] (d ∷ t) h = refl
text_lt-asym (c ∷ s) [] h = cc
text_lt-asym (c ∷ s) (d ∷ t) h = ground (arith, text_lt-asym s t)

insert_keyed-IsSorted : (a : Keyed) (xs : List Keyed) → IsSorted xs → IsSorted (insert_keyed a xs)
unfolding insert_keyed
insert_keyed-IsSorted a [] h = tt
insert_keyed-IsSorted a (b ∷ []) h = elim (Bool-cases (text_lt b.0 a.0)) [
  | inl before ↦ rw before (text_lt-asym b.0 a.0 before, tt)
  | inr after ↦ rw after (after, tt)
]
insert_keyed-IsSorted a (b ∷ c ∷ rest) (h, hs) =
    let inner = insert_keyed-IsSorted a (c ∷ rest) hs in
    elim (Bool-cases (text_lt b.0 a.0)) [
      | inr after ↦ rw after (after, (h, hs))
      | inl before ↦ elim (Bool-cases (text_lt c.0 a.0)) [
        | inl further ↦ let inner' = rw further at inner in rw (before, further) (h, inner')
        | inr here ↦
            let inner' = rw here at inner in rw (before, here) (text_lt-asym b.0 a.0 before, inner')
      ]
    ]

sort_keyed-IsSorted : (xs : List Keyed) → IsSorted (sort_keyed xs)
unfolding sort_keyed
sort_keyed-IsSorted [] = tt
sort_keyed-IsSorted (a ∷ rest) =
    insert_keyed-IsSorted a (sort_keyed rest) (sort_keyed-IsSorted rest)

length-insert_keyed : (a : Keyed) (xs : List Keyed) → length (insert_keyed a xs) ≡ suc (length xs)
unfolding insert_keyed
length-insert_keyed a [] = refl
length-insert_keyed a (b ∷ rest) = ground (arith, length-insert_keyed a rest)

length-sort_keyed : (xs : List Keyed) → length (sort_keyed xs) ≡ length xs
unfolding sort_keyed
length-sort_keyed [] = refl
length-sort_keyed (a ∷ rest) =
    omega (arith, length-insert_keyed a (sort_keyed rest), length-sort_keyed rest)

length-take : (n : ℕ) (xs : List Keyed) → n ≤ length xs → length (take n xs) ≡ n
length-take zero xs h = refl
length-take (suc n) [] h = absurd (omega arith)
length-take (suc n) (x ∷ xs) h = omega (arith, length-take n xs (omega arith))

insert_keyed-Perm : (a : Keyed) (xs : List Keyed) → Perm (insert_keyed a xs) (a ∷ xs)
unfolding insert_keyed
insert_keyed-Perm a [] = Perm.rfl
insert_keyed-Perm a (b ∷ rest) = elim (Bool-cases (text_lt b.0 a.0)) [
  | inl before ↦
      rw before (Perm.trans (Perm.cons b (insert_keyed-Perm a rest)) (Perm.swap a b rest))
  | inr after ↦ rw after Perm.rfl
]

sort_keyed-Perm : (xs : List Keyed) → Perm (sort_keyed xs) xs
unfolding sort_keyed
sort_keyed-Perm [] = Perm.rfl
sort_keyed-Perm (a ∷ rest) =
    Perm.trans (insert_keyed-Perm a (sort_keyed rest)) (Perm.cons a (sort_keyed-Perm rest))

take-drop : (n : ℕ) (xs : List Keyed) → take n xs ++ drop n xs ≡ xs
take-drop zero xs = refl
take-drop (suc n) [] = refl
take-drop (suc n) (x ∷ xs) = ap (λ r. x ∷ r) (take-drop n xs)

-- The lines are objects with identities, under which they are kept in their order.
abbrev pub IsKeyed : List (Text × Line) → List Keyed → Type 0
IsKeyed [] [] = Unit
IsKeyed [] (k ∷ keyed) = ⊥
IsKeyed (line ∷ lines) [] = ⊥
IsKeyed ((raw, line) ∷ lines) (k ∷ keyed) =
    ((event : Event) × (line ≡ object event)
      × (present_text (get "event_id" event) ≡ some k.0)
      × (k.1 ≡ raw))
    × IsKeyed lines keyed

-- No two identities are the same.
abbrev pub IsDistinct : List Text → List Keyed → Type 0
IsDistinct seen [] = Unit
IsDistinct seen (k ∷ keyed) = (is_member_of k.0 seen ≡ false) × IsDistinct (k.0 ∷ seen) keyed

key_line_lem :
    (raw : Text) (line : Line) (seen : List Text) (k : Keyed)
    → key_line raw line seen ≡ ok k
    → ((event : Event) × (line ≡ object event)
        × (present_text (get "event_id" event) ≡ some k.0)
        × (k.1 ≡ raw))
      × (is_member_of k.0 seen ≡ false)
unfolding key_line
key_line_lem raw not_json seen k h = cc
key_line_lem raw not_an_object seen k h = cc
key_line_lem raw (object event) seen k h =
    elim (Option-cases (present_text (get "event_id" event))) [
      | inl missing ↦ absurd (ground (arith, missing))
      | inr (id, found) ↦ elim (Bool-cases (is_member_of id seen)) [
        | inl again ↦ absurd (ground (arith, found, again))
        | inr first ↦
            let same : (id, raw) ≡ k = ground (arith, found, first) in
            subst
              (λ (j : Keyed).
                ((event' : Event) × (object event ≡ object event')
                  × (present_text (get "event_id" event') ≡ some j.0)
                  × (j.1 ≡ raw))
                × (is_member_of j.0 seen ≡ false))
              same ((event, refl, found, refl), first)
      ]
    ]

key_lines-IsKeyed :
    (lines : List (Text × Line)) (seen : List Text) (keyed : List Keyed)
    → key_lines lines seen ≡ ok keyed
    → IsKeyed lines keyed × IsDistinct seen keyed
unfolding key_lines
key_lines-IsKeyed [] seen [] h = (tt, tt)
key_lines-IsKeyed [] seen (k ∷ keyed) h = cc
key_lines-IsKeyed ((raw, line) ∷ lines) seen keyed h =
    let (k, first, h1) = >>=-eq-ok (key_line raw line seen) _ h in
    let (rest, others, h2) = >>=-eq-ok (key_lines lines (k.0 ∷ seen)) _ h1 in
    let (lines_ok, distinct) = key_lines-IsKeyed lines (k.0 ∷ seen) rest others in
    let (line_ok, new) = key_line_lem raw line seen k first in
    subst (λ ks. IsKeyed ((raw, line) ∷ lines) ks × IsDistinct seen ks) (ok-injective h2)
      ((line_ok, lines_ok), (new, distinct))

-- The selection of so many lines: together with the other lines it is all lines under their
-- identities, and it stands in front of those in the order of the identities.
pub record IsSelection (lines : List (Text × Line)) (target_count : ℕ) (selected : List Keyed)
    : Type 0 where
  pub keyed : List Keyed
  pub others : List Keyed
  pub lines_keyed : IsKeyed lines keyed
  pub distinct : IsDistinct [] keyed
  pub all_lines : Perm (selected ++ others) keyed
  pub sorted : IsSorted (selected ++ others)
  pub size : length selected ≡ target_count

sorted-IsSelection :
    (lines : List (Text × Line)) (target_count : ℕ) (keyed : List Keyed)
    → key_lines lines [] ≡ ok keyed
    → target_count ≤ length keyed
    → IsSelection lines target_count (take target_count (sort_keyed keyed))
sorted-IsSelection lines target_count keyed loaded enough =
    let all = sort_keyed keyed in
    let whole = sym (take-drop target_count all) in
    record {
      keyed = keyed;
      others = drop target_count all;
      lines_keyed = (key_lines-IsKeyed lines [] keyed loaded).0;
      distinct = (key_lines-IsKeyed lines [] keyed loaded).1;
      all_lines = subst (λ xs. Perm xs keyed) whole (sort_keyed-Perm keyed);
      sorted = subst IsSorted whole (sort_keyed-IsSorted keyed);
      size = length-take target_count all (omega (arith, enough, length-sort_keyed keyed));
    }

-- A selection that returns has as many lines as its target, and they are the first of all lines in the
-- order of their identities, which are distinct: the selected lines and the others are together the
-- given lines, and no line stands before one with a smaller identity.
pub select-IsSelection :
    (manifest : CanonicalManifest) (source_sha256 : Text) (lines : List (Text × Line))
    (target_count : ℕ) (selected : List Keyed)
    → select_scale_gate_events manifest source_sha256 lines target_count ≡ ok selected
    → IsSelection lines target_count selected
unfolding select_scale_gate_events
select-IsSelection manifest source_sha256 lines target_count selected h =
    let (u1, h1) = >>-eq-ok (raise_if (leb target_count 0) _) _ h in
    let (u2, h2) = >>-eq-ok (raise_if (not (text_eq manifest.status (codes "SUCCEEDED"))) _) _ h1 in
    let (u3, h3) = >>-eq-ok (raise_if (not manifest.is_reconciled) _) _ h2 in
    let (u4, h4) =
      >>-eq-ok (raise_if (not (text_eq source_sha256 manifest.events_sha256)) _) _ h3 in
    let (keyed, loaded, h5) = >>=-eq-ok (key_lines lines []) _ h4 in
    let enough : target_count ≤ length keyed = ground (arith, h5) in
    let same : take target_count (sort_keyed keyed) ≡ selected = ground (arith, h5) in
    subst (IsSelection lines target_count) same
      (sorted-IsSelection lines target_count keyed loaded enough)
