-- ===== src/Replay/Fields.antt =====
-- A replay of an original passes the field checks of src/eo_event_platform/replay/verify.py.
use nasa_earth_observation_e.Prelude.{
  ℕ, String, Bool, true, false, ◌||◌, some, List, [], ◌∷◌, any, all, All, ok, str_eq, eq_iff, ◌≡◌,
  refl, sym, ap, ◌∙◌, inl, inr, arith, Bool-cases, Option-cases,
}
use nasa_earth_observation_e.Prelude.Assoc.{lookup}
use nasa_earth_observation_e.Text.{Text, text_eq}
use nasa_earth_observation_e.Text.Float.{le}
use nasa_earth_observation_e.Replay.Value.{
  Value, Event, get, value_eq, value_eq-text, value_eq-natural,
}
use nasa_earth_observation_e.Replay.Update.{
  update, last_value, or_else, lookup-update, has, is_some, names, is_some-last_value, has-lookup,
}
use nasa_earth_observation_e.Replay.Generator.{replay_changes}
use nasa_earth_observation_e.Replay.Verifier.{
  overwritten_fields, is_overwritten, expected_values, check_expected, check_kept, has_fields,
  check_fields,
}

-- The items of an object: its keys are distinct, and no value is a NaN, which Python holds to be
-- unequal to itself.
abbrev pub AreItems : Event → Event → Type 0
AreItems d items =
    All (λ item. (lookup item.0 d ≡ some item.1) × (value_eq item.1 item.1 ≡ true)) items

-- Changes that leave each of the expected values.
abbrev Leaves : Event → Event → Type 0
Leaves changes expected =
    All (λ item. (last_value item.0 changes ≡ some item.1) × (value_eq item.1 item.1 ≡ true))
      expected

get_found : (name : String) (v : Value) (e : Event) → lookup name e ≡ some v → get name e ≡ v
unfolding get
get_found name v e h = rw (get, h)

get-update :
    (name : String) (v : Value) (d changes : Event)
    → last_value name changes ≡ some v
    → get name (update d changes) ≡ v
get-update name v d changes h =
    get_found name v (update d changes)
      (lookup-update name d changes ∙ ap (λ o. or_else o (lookup name d)) h)

check_expected-update :
    (d changes expected : Event)
    → Leaves changes expected
    → check_expected (update d changes) expected ≡ ok tt
unfolding check_expected
check_expected-update d changes [] h = refl
check_expected-update d changes ((name, v) ∷ rest) ((left, same), hs) =
    rw (get-update name v d changes left, same) (check_expected-update d changes rest hs)

-- What holds of every member holds of all.
all-members :
    (p : String → Bool) (xs zs : List String)
    → ((j : String) → any (λ k. str_eq k j) zs ≡ true → p j ≡ true)
    → ((j : String) → any (λ k. str_eq k j) xs ≡ true → any (λ k. str_eq k j) zs ≡ true)
    → all p xs ≡ true
all-members p [] zs each inside = refl
all-members p (x ∷ xs) zs each inside =
    rw (each x (inside x (ground (arith, eq_iff x x))))
      (all-members p xs zs each (λ j h. inside j (ground (arith, h))))

module _ (changes : Event)
    (covers : (name : String) → is_some (last_value name changes) ≡ is_overwritten name) where
  kept :
      (name : String) (v : Value) (d : Event)
      → is_overwritten name ≡ false
      → lookup name d ≡ some v
      → get name (update d changes) ≡ v
  kept name v d h found = elim (Option-cases (last_value name changes)) [
    | inl absent ↦
        get_found name v (update d changes)
          (lookup-update name d changes ∙ ap (λ o. or_else o (lookup name d)) absent ∙ found)
    | inr (w, there) ↦ cc (covers name, h, ap is_some there)
  ]

  check_kept-update :
      (d items : Event) → AreItems d items → check_kept (update d changes) items ≡ ok tt
  unfolding check_kept
  check_kept-update d [] h = refl
  check_kept-update d ((name, v) ∷ rest) ((found, same), hs) =
      elim (Bool-cases (is_overwritten name)) [
        | inl over ↦ rw over (check_kept-update d rest hs)
        | inr other ↦ rw (other, kept name v d other found, same) (check_kept-update d rest hs)
      ]

  has-changes :
      (name : String) (d : Event)
      → has name (update d changes) ≡ (is_overwritten name || has name d)
  has-changes name d = ground (arith, lookup-update name d changes, covers name)

  has_fields-update : (d : Event) → has_fields (update d changes) d ≡ true
  unfolding has_fields
  has_fields-update d =
      let event = update d changes in
      rw (
        all-members (λ name. is_overwritten name || has name d) (names event) (names event)
            (λ j h. sym (has-changes j d) ∙ has-lookup j event ∙ h) (λ j h. h),
        all-members (λ name. has name event) (names d) (names d)
            (λ j h. has-changes j d ∙ ground (arith, has-lookup j d, h)) (λ j h. h),
        all-members (λ name. has name event) overwritten_fields overwritten_fields
            (λ j h. has-changes j d ∙ unfold is_overwritten in (rw h)) (λ j h. h),
      )

module _ (event_id parent run_id : Text) (iteration sequence : ℕ) (scheduled version : Text) where
  abbrev pub changes : Event
  changes = replay_changes event_id parent run_id iteration sequence scheduled version

  changes-Leaves :
      Leaves changes (expected_values event_id parent run_id iteration sequence scheduled version)
  unfolding value_eq text_eq le
  changes-Leaves = (
    (refl, value_eq-text event_id),
    (
      (refl, value_eq-text parent),
      (
        (refl, refl),
        (
          (refl, refl),
          (
            (refl, value_eq-text run_id),
            (
              (refl, value_eq-natural iteration),
              (
                (refl, value_eq-natural sequence),
                (
                  (refl, value_eq-text scheduled),
                  (
                    (refl, value_eq-text version),
                    (
                      (refl, refl),
                      (
                        (refl, refl),
                        (
                          (refl, refl),
                          (
                            (refl, refl),
                            ((refl, refl), ((refl, refl), ((refl, refl), ((refl, refl), tt)))),
                          ),
                        ),
                      ),
                    ),
                  ),
                ),
              ),
            ),
          ),
        ),
      ),
    ),
  )

  is_some-changes : (name : String) → is_some (last_value name changes) ≡ is_overwritten name
  unfolding is_overwritten
  is_some-changes name = is_some-last_value name changes

  -- A replay with these changes passes the checks of its values, of the original's fields and of the
  -- field set.
  pub replay-passes :
      (d : Event)
      → AreItems d d
      → (check_expected
            (update d changes)
            (expected_values event_id parent run_id iteration sequence scheduled version)
          ≡ ok tt)
        × (check_kept (update d changes) d ≡ ok tt)
        × (check_fields (update d changes) d ≡ ok tt)
  unfolding check_fields
  replay-passes d h = (
    check_expected-update d changes
        (expected_values event_id parent run_id iteration sequence scheduled version)
        changes-Leaves,
    check_kept-update changes is_some-changes d d h,
    rw (has_fields-update changes is_some-changes d),
  )
