-- ===== src/Replay/Checked.antt =====
-- What a line says that passes the checks of src/eo_event_platform/replay/verify.py.
use nasa_earth_observation_e.Prelude.{
  ℕ, suc, ◌+◌, ◌*◌, ◌/◌, ◌%◌, String, true, not, ◌&&◌, Option, none, some, List, [], ◌∷◌, get_elem?,
  Result, ok, raise, raise_if, ◌≡◌, refl, All, arith, >>=-eq-ok, >>-eq-ok, raise_if-not-eq-ok, inl,
  inr, ◌⊎◌, Bool-cases,
}
use nasa_earth_observation_e.Text.{Text}
use nasa_earth_observation_e.Replay.Plan.{IdentityFault, build_replay_event_id}
use nasa_earth_observation_e.Replay.Value.{Value, Event, get, value_eq}
use nasa_earth_observation_e.Replay.Generator.{Line, not_json, not_an_object, object, Original}
use nasa_earth_observation_e.Replay.Verifier.{
  no_original, expected_values, check_expected, is_overwritten, check_kept, has_fields,
  check_fields, or_bad_id, verify_event, verify_line, verify_lines,
}

-- The event has these values.
abbrev pub HasValues : Event → Event → Type 0
HasValues event expected =
    All (λ (item : String × Value). value_eq (get item.0 event) item.1 ≡ true) expected

-- The event has the values of the original's fields that no replay overwrites.
abbrev pub KeepsValues : Event → Event → Type 0
KeepsValues event original =
    All
      (λ (item : String × Value).
        (is_overwritten item.0 ≡ true) ⊎ (value_eq (get item.0 event) item.1 ≡ true))
      original

check_expected-HasValues :
    (event expected : Event) → check_expected event expected ≡ ok tt → HasValues event expected
unfolding check_expected
check_expected-HasValues event [] h = tt
check_expected-HasValues event ((name, value) ∷ rest) h =
    let (same, h1) = >>-eq-ok (raise_if (not (value_eq (get name event) value)) _) _ h in
    (
      raise_if-not-eq-ok (value_eq (get name event) value) _ same,
      check_expected-HasValues event rest h1,
    )

check_kept-KeepsValues :
    (event original : Event) → check_kept event original ≡ ok tt → KeepsValues event original
unfolding check_kept
check_kept-KeepsValues event [] h = tt
check_kept-KeepsValues event ((name, value) ∷ rest) h =
    let (same, h1) =
      >>-eq-ok (raise_if (not (is_overwritten name) && not (value_eq (get name event) value)) _) _
        h in
    (
      elim (Bool-cases (is_overwritten name)) [
        | inl over ↦ inl over
        | inr kept ↦ inr (ground (arith, kept))
      ],
      check_kept-KeepsValues event rest h1,
    )

or_bad_id-ok : (r : Result IdentityFault Text) (id : Text) → or_bad_id r ≡ ok id → r ≡ ok id
unfolding or_bad_id
or_bad_id-ok (ok a) id h = cc
or_bad_id-ok (raise e) id h = cc

module _ (sha256 : Text → Text) (run_id version : Text) (scheduled_at : ℕ → Text)
    (count interval : ℕ) (originals : List Original) where
  -- The line with this sequence number is the replay of the original at its position.
  pub record IsChecked (sequence : ℕ) (line : Line) : Type 0 where
    pub event : Event
    pub is_object : line ≡ object event
    pub original : Original
    pub position : get_elem? originals (sequence % count) ≡ some original
    pub event_id : Text
    pub identity :
        build_replay_event_id sha256 run_id original.0 (sequence / count + 1) ≡ ok event_id
    pub values : HasValues event (
        expected_values event_id original.0 run_id
          (sequence / count + 1)
          sequence
          (scheduled_at (sequence * interval))
          version)
    pub kept : KeepsValues event original.1
    pub fields : has_fields event original.1 ≡ true

  -- The lines from a sequence number on.
  abbrev pub AreChecked : ℕ → List Line → Type 0
  AreChecked sequence [] = Unit
  AreChecked sequence (line ∷ lines) = IsChecked sequence line × AreChecked (suc sequence) lines

  verify_event-IsChecked :
      (sequence : ℕ) (event : Event) (original : Original)
      → get_elem? originals (sequence % count) ≡ some original
      → verify_event sha256 run_id version original
          (sequence / count + 1)
          sequence
          (scheduled_at (sequence * interval))
          event
        ≡ ok tt
      → IsChecked sequence (object event)
  unfolding verify_event check_fields
  verify_event-IsChecked sequence event (parent, original) at h =
      let (id, named, h1) =
        >>=-eq-ok (or_bad_id (build_replay_event_id sha256 run_id parent (sequence / count + 1))) _
          h in
      let (valued, h2) =
        >>-eq-ok
          (check_expected event (
            expected_values id parent run_id (sequence / count + 1) sequence
              (scheduled_at (sequence * interval)) version))
          _ h1 in
      let (kept, h3) = >>-eq-ok (check_kept event original) _ h2 in
      record {
        event = event;
        is_object = refl;
        original = (parent, original);
        position = at;
        event_id = id;
        identity = or_bad_id-ok _ id named;
        values = check_expected-HasValues event _ valued;
        kept = check_kept-KeepsValues event original kept;
        fields = raise_if-not-eq-ok (has_fields event original) _ h3;
      }

  verify_line-IsChecked :
      (sequence : ℕ) (line : Line)
      → verify_line sha256 run_id version scheduled_at count interval originals sequence line
        ≡ ok tt
      → IsChecked sequence line
  unfolding verify_line
  verify_line-IsChecked sequence not_json h = cc
  verify_line-IsChecked sequence not_an_object h = cc
  verify_line-IsChecked sequence (object event) h =
      found (get_elem? originals (sequence % count)) refl h
    where
      found :
          (original : Option Original)
          → get_elem? originals (sequence % count) ≡ original
          → elim original [
            | none ↦ raise no_original
            | some original' ↦
                verify_event sha256 run_id version original'
                  (sequence / count + 1)
                  sequence
                  (scheduled_at (sequence * interval))
                  event
          ]
            ≡ ok tt
          → IsChecked sequence (object event)
      found none at k = cc
      found (some original) at k = verify_event-IsChecked sequence event original at k

  -- Lines that the loop accepts are checked, each one.
  pub verify_lines-AreChecked :
      (sequence : ℕ) (lines : List Line)
      → verify_lines sha256 run_id version scheduled_at count interval originals sequence lines
        ≡ ok tt
      → AreChecked sequence lines
  unfolding verify_lines
  verify_lines-AreChecked sequence [] h = tt
  verify_lines-AreChecked sequence (line ∷ lines) h =
      let (here, rest) =
        >>-eq-ok
          (verify_line sha256 run_id version scheduled_at count interval originals sequence line) _
          h in
      (verify_line-IsChecked sequence line here, verify_lines-AreChecked (suc sequence) lines rest)
