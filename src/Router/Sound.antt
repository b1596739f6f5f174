-- ===== src/Router/Sound.antt =====
-- The contract of the events that src/eo_event_platform/streaming/kafka/failure_router.py lets pass.
use nasa_earth_observation_e.Prelude.{
  ℕ, suc, String, Bool, true, false, not, ◌||◌, Option, none, some, List, [], ◌∷◌, ◌++◌, ok, ◌≡◌,
  refl, sym, ap, ◌∙◌, ◌↔◌, inl, inr, All, map, arith, Bool-cases, ok-injective,
}
use mathlib.Core.Path.{subst}
use nasa_earth_observation_e.Prelude.Int.{ℤ, pos, negsuc}
use nasa_earth_observation_e.Text.{Text, codes, is_empty, strip}
use nasa_earth_observation_e.Text.Equality.{text_eq_iff}
use nasa_earth_observation_e.Text.Float.{Float, of_int, le}
use nasa_earth_observation_e.Events.Canonical.{sorted_set, insert_code}
use nasa_earth_observation_e.Replay.Value.{
  Value, null, boolean, number, text, texts, Event, get, value_eq, value_eq-text,
}
use nasa_earth_observation_e.Replay.Generator.{Line, not_json, not_an_object, object}
use nasa_earth_observation_e.Router.Validation.{
  required_text_fields, is_filled, is_within, is_false, key_value, code_if, missing_codes,
  error_codes, validation_errors,
}
use nasa_earth_observation_e.Router.Attempts.{is_faulty}
use nasa_earth_observation_e.Router.Routing.{
  Message, route, expected_checked, expected_route, route_lem,
}

-- The texts that an event is to have.
abbrev pub text_fields : List String
text_fields =
    "event_id" ∷ "lineage_root_id" ∷ "source_type" ∷ "source_dataset" ∷ "source_record_id"
    ∷ "ingestion_run_id" ∷ "event_timestamp" ∷ "ingestion_timestamp" ∷ "schema_version" ∷ []

-- A text with something else than white space.
abbrev pub IsFilled : Value → Type 0
IsFilled v = (s : Text) × (v ≡ text s) × (is_empty (strip s) ≡ false)

-- A number within bounds.
abbrev pub IsWithin : ℤ → ℤ → Value → Type 0
IsWithin low high v =
    (x : Float) × (v ≡ number x) × (le (of_int low) x ≡ true) × (le x (of_int high) ≡ true)

-- The contract of an event and the key of its message.
pub record IsSound (event : Event) (key : Option Text) : Type 0 where
  pub filled : All (λ field. IsFilled (get field event)) text_fields
  pub schema : get "schema_version" event ≡ text (codes "1.0.0")
  pub source : get "source_type" event ≡ text (codes "NASA_REPLAY")
  pub original : get "is_synthetic" event ≡ boolean false
  pub latitude : IsWithin (negsuc 89) (pos 90) (get "latitude" event)
  pub longitude : IsWithin (negsuc 179) (pos 180) (get "longitude" event)
  pub lineage : (k : Text) × (key ≡ some k) × (get "lineage_root_id" event ≡ text k)

is_filled_lem : (v : Value) → (is_filled v ≡ true) ↔ IsFilled v
is_filled_lem null = (λ h. cc, λ (s, e, f). cc)
is_filled_lem (boolean b) = (λ h. cc, λ (s, e, f). cc)
is_filled_lem (number x) = (λ h. cc, λ (s, e, f). cc)
is_filled_lem (texts t) = (λ h. cc, λ (s, e, f). cc)
is_filled_lem (text s) = (
  λ h. (s, refl, ground arith),
  λ (t, e, f). subst (λ v. is_filled v ≡ true) (sym e) (ground arith),
)

is_within_lem : (low high : ℤ) (v : Value) → (is_within low high v ≡ true) ↔ IsWithin low high v
is_within_lem low high null = (λ h. cc, λ (x, e, f, g). cc)
is_within_lem low high (boolean b) = (λ h. cc, λ (x, e, f, g). cc)
is_within_lem low high (text s) = (λ h. cc, λ (x, e, f, g). cc)
is_within_lem low high (texts t) = (λ h. cc, λ (x, e, f, g). cc)
is_within_lem low high (number x) = (
  λ h. (x, refl, ground arith, ground arith),
  λ (y, e, f, g). subst (λ v. is_within low high v ≡ true) (sym e) (ground arith),
)

is_false_lem : (v : Value) → (is_false v ≡ true) ↔ (v ≡ boolean false)
is_false_lem null = (λ h. cc, λ h. cc)
is_false_lem (boolean true) = (λ h. cc, λ h. cc)
is_false_lem (boolean false) = (λ h. refl, λ h. refl)
is_false_lem (number x) = (λ h. cc, λ h. cc)
is_false_lem (text s) = (λ h. cc, λ h. cc)
is_false_lem (texts s) = (λ h. cc, λ h. cc)

value_eq-text_lem : (v : Value) (s : Text) → value_eq v (text s) ≡ true → v ≡ text s
unfolding value_eq
value_eq-text_lem null s h = cc
value_eq-text_lem (boolean b) s h = cc
value_eq-text_lem (number x) s h = cc
value_eq-text_lem (texts t) s h = cc
value_eq-text_lem (text t) s h = ap text ((text_eq_iff t s).0 h)

text-value_eq : (v : Value) (s : Text) → v ≡ text s → value_eq v (text s) ≡ true
text-value_eq v s h = rw h (value_eq-text s)

key_value-some : (key : Option Text) (s : Text) → key_value key ≡ text s → key ≡ some s
key_value-some none s h = cc
key_value-some (some k) s h = cc

-- Codes behind others are none.
code_if_lem :
    (first : List String) (b : Bool) (code : String)
    → first ++ code_if (not b) code ≡ []
    → (first ≡ []) × (b ≡ true)
code_if_lem [] true code h = (refl, refl)
code_if_lem [] false code h = cc
code_if_lem (x ∷ first) b code h = cc

code_if_both :
    (first : List String) (a b : Bool) (code : String)
    → first ++ code_if (not a || not b) code ≡ []
    → (first ≡ []) × (a ≡ true) × (b ≡ true)
code_if_both [] true true code h = (refl, refl, refl)
code_if_both [] true false code h = cc
code_if_both [] false b code h = cc
code_if_both (x ∷ first) a b code h = cc

missing_codes_lem :
    (fields : List (String × String)) (event : Event)
    → missing_codes fields event ≡ []
    → All (λ (field : String × String). is_filled (get field.0 event) ≡ true) fields
unfolding missing_codes
missing_codes_lem [] event h = tt
missing_codes_lem ((field, code) ∷ fields) event h =
    elim (Bool-cases (is_filled (get field event))) [
      | inl filled ↦ (filled, missing_codes_lem fields event (rw filled at h))
      | inr missing ↦ absurd (ground (arith, missing))
    ]

missing_codes-nil :
    (fields : List (String × String)) (event : Event)
    → All (λ (field : String × String). is_filled (get field.0 event) ≡ true) fields
    → missing_codes fields event ≡ []
unfolding missing_codes
missing_codes-nil [] event h = refl
missing_codes-nil ((field, code) ∷ fields) event (filled, h) =
    rw filled (missing_codes-nil fields event h)

filled_fields :
    (fields : List (String × String)) (event : Event)
    → All (λ (field : String × String). is_filled (get field.0 event) ≡ true) fields
    → All (λ field. IsFilled (get field event)) (map (λ (field : String × String). field.0) fields)
filled_fields [] event h = tt
filled_fields ((field, code) ∷ fields) event (filled, h) =
    ((is_filled_lem (get field event)).0 filled, filled_fields fields event h)

fields-filled :
    (fields : List (String × String)) (event : Event)
    → All (λ field. IsFilled (get field event)) (map (λ (field : String × String). field.0) fields)
    → All (λ (field : String × String). is_filled (get field.0 event) ≡ true) fields
fields-filled [] event h = tt
fields-filled ((field, code) ∷ fields) event (filled, h) =
    ((is_filled_lem (get field event)).1 filled, fields-filled fields event h)

error_codes-IsSound :
    (event : Event) (key : Option Text) → error_codes event key ≡ [] → IsSound event key
unfolding error_codes
error_codes-IsSound event key h =
    let (h1, keyed) = code_if_lem _ (value_eq (key_value key) (get "lineage_root_id" event)) _ h in
    let (h2, lon) = code_if_lem _ (is_within (negsuc 179) (pos 180) (get "longitude" event)) _ h1 in
    let (h3, lat) = code_if_lem _ (is_within (negsuc 89) (pos 90) (get "latitude" event)) _ h2 in
    let (h4, source, original) =
      code_if_both _ (value_eq (get "source_type" event) (text (codes "NASA_REPLAY")))
        (is_false (get "is_synthetic" event)) _ h3 in
    let (h5, schema) =
      code_if_lem (missing_codes required_text_fields event)
        (value_eq (get "schema_version" event) (text (codes "1.0.0"))) _ h4 in
    let filled = missing_codes_lem required_text_fields event h5 in
    let (lineage, same, full) = (is_filled_lem (get "lineage_root_id" event)).0 filled.1.0 in
    let at_key : key_value key ≡ text lineage =
      value_eq-text_lem (key_value key) lineage
        (ap (λ v. value_eq (key_value key) v) (sym same) ∙ keyed) in
    record {
      filled = filled_fields required_text_fields event filled;
      schema = value_eq-text_lem (get "schema_version" event) _ schema;
      source = value_eq-text_lem (get "source_type" event) _ source;
      original = (is_false_lem (get "is_synthetic" event)).0 original;
      latitude = (is_within_lem (negsuc 89) (pos 90) (get "latitude" event)).0 lat;
      longitude = (is_within_lem (negsuc 179) (pos 180) (get "longitude" event)).0 lon;
      lineage = (lineage, key_value-some key lineage at_key, same);
    }

insert_code-ne_nil : (code : String) (codes' : List String) → insert_code code codes' ≡ [] → ⊥
unfolding insert_code
insert_code-ne_nil code [] h = cc
insert_code-ne_nil code (other ∷ rest) h = ground arith

sorted_set-nil : (xs : List String) → sorted_set xs ≡ [] → xs ≡ []
unfolding sorted_set
sorted_set-nil [] h = refl
sorted_set-nil (x ∷ xs) h = absurd (insert_code-ne_nil x (sorted_set xs) h)

IsSound-error_codes :
    (event : Event) (key : Option Text) → IsSound event key → error_codes event key ≡ []
unfolding error_codes
IsSound-error_codes event key v =
    let (k, at_key, at_event) = v.lineage in
    let keyed : value_eq (key_value key) (get "lineage_root_id" event) ≡ true =
      ap (λ o. value_eq (key_value o) (get "lineage_root_id" event)) at_key
      ∙ ap (λ w. value_eq (text k) w) at_event
      ∙ value_eq-text k in
    ground (
      arith,
      missing_codes-nil required_text_fields event
          (fields-filled required_text_fields event v.filled),
      text-value_eq (get "schema_version" event) (codes "1.0.0") v.schema,
      text-value_eq (get "source_type" event) (codes "NASA_REPLAY") v.source,
      (is_false_lem (get "is_synthetic" event)).1 v.original,
      (is_within_lem (negsuc 89) (pos 90) (get "latitude" event)).1 v.latitude,
      (is_within_lem (negsuc 179) (pos 180) (get "longitude" event)).1 v.longitude,
      keyed,
    )

validation_errors-IsSound :
    (event : Event) (key : Option Text) → (validation_errors event key ≡ []) ↔ IsSound event key
unfolding validation_errors
validation_errors-IsSound event key = (
  λ h. error_codes-IsSound event key (sorted_set-nil (error_codes event key) h),
  λ v. unfold sorted_set in (rw (IsSound-error_codes event key v) refl),
)

-- The event fails in each attempt to process it.
abbrev pub IsFaulty : Event → Type 0
IsFaulty event = get "_test_fault_mode" event ≡ text (codes "EXHAUST_RETRIES")

sound_passes :
    (more : ℕ) (message : Message) (event : Event) (errors : List String)
    → (expected_checked (suc more) message event errors ≡ none)
      ↔ ((errors ≡ []) × (is_faulty event ≡ false))
sound_passes more message event [] = (λ h. (refl, ground arith), λ (e, f). rw f refl)
sound_passes more message event (code ∷ errors) = (λ h. cc, λ (e, f). cc)

is_faulty-IsFaulty : (event : Event) → (is_faulty event ≡ false) ↔ (IsFaulty event → ⊥)
is_faulty-IsFaulty event = (
  λ h f. cc (sym h ∙ text-value_eq (get "_test_fault_mode" event) (codes "EXHAUST_RETRIES") f),
  λ f. elim (Bool-cases (is_faulty event)) [
    | inl faulty ↦
        absurd
          (f (value_eq-text_lem (get "_test_fault_mode" event) (codes "EXHAUST_RETRIES") faulty))
    | inr sound ↦ sound
  ],
)

-- With a positive bound on the attempts a message passes, and nothing is produced for it, exactly
-- where its value is an object that meets the contract with the message's key, and that is not made
-- to fail: the nine texts are there, the schema is 1.0.0, the source is a NASA replay that is not
-- synthetic, the coordinates are numbers within their bounds, and the key is the event's lineage.
pub route-passes :
    (more : ℕ) (message : Message)
    → (route (suc more) message ≡ ok none) ↔ (
        (event : Event) × (message.value ≡ object event)
        × IsSound event message.key
        × (IsFaulty event → ⊥))
route-passes more message = (
  λ h. to message.value refl (ok-injective (sym (route_lem more message) ∙ h)),
  λ (event, same, sound, faultless).
      route_lem more message
      ∙ ap ok (
          ap (expected_route (suc more) message) same
          ∙ (sound_passes more message event (validation_errors event message.key)).1 (
            (validation_errors-IsSound event message.key).1 sound,
            (is_faulty-IsFaulty event).1 faultless,
          )),
)
  where
    to :
        (value : Line)
        → message.value ≡ value
        → expected_route (suc more) message value ≡ none
        → (event : Event) × (message.value ≡ object event)
          × IsSound event message.key
          × (IsFaulty event → ⊥)
    to not_json at h = cc
    to not_an_object at h = cc
    to (object event) at h =
        let (clean, sound) =
          (sound_passes more message event (validation_errors event message.key)).0 h in
        (
          event,
          at,
          (validation_errors-IsSound event message.key).0 clean,
          (is_faulty-IsFaulty event).0 sound,
        )
