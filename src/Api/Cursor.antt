-- ===== src/Api/Cursor.antt =====
-- The cursors of src/eo_event_platform/api/models.py. The timestamps are those of `datetime`, whose
-- `isoformat`, `fromisoformat` and `tzinfo` are parameters, as is `json.loads` of an object; a value of
-- another type than a text, a number or null in it is refused as one of those is.
pub mod RoundTrip
use nasa_earth_observation_e.Prelude.{
  ℕ, zero, suc, String, Bool, true, false, ◌&&◌, ◌||◌, not, Option, none, some, List, [], ◌∷◌, ◌++◌,
  all, ltb, if◌then◌else◌, str_eq, Result, ok, raise, ◌>>=◌, ◌>>◌, raise_if,
}
use nasa_earth_observation_e.Prelude.Assoc.{lookup}
use nasa_earth_observation_e.Text.{Text, is_empty}
use nasa_earth_observation_e.Json.{Flat, Scalar, null, text, number, dumps}
use nasa_earth_observation_e.Api.Base64.{
  urlsafe_b64encode, urlsafe_b64decode, right_strip_of, repad,
}

-- `ValueError("invalid pagination cursor")`
pub data CursorError : Type 0 where
  invalid_cursor : CursorError

abbrev pub or_invalid {ℓ} : {A : Type ℓ} → Option A → Result CursorError A
or_invalid none = raise invalid_cursor
or_invalid (some a) = ok a

abbrev pub is_known : String → Bool
is_known key = str_eq key "activity_timestamp" || str_eq key "event_id"

abbrev pub is_present {ℓ} : {A : Type ℓ} → Option A → Bool
is_present none = false
is_present (some a) = true

-- `set(payload) == {"activity_timestamp", "event_id"}`
abbrev pub has_its_keys : Flat → Bool
has_its_keys payload =
    all (λ (item : String × Scalar). is_known item.0) payload
    && is_present (lookup "activity_timestamp" payload)
    && is_present (lookup "event_id" payload)

abbrev pub text_of_scalar : Option Scalar → Option Text
text_of_scalar (some (text s)) = some s
text_of_scalar _ = none

module _ {Timestamp : Type 0} where
  abbrev pub payload_of : (Timestamp → Text) → Timestamp → Text → Flat
  payload_of isoformat activity_timestamp event_id =
      ("activity_timestamp", text (isoformat activity_timestamp)) ∷ ("event_id", text event_id) ∷ []

  unfoldable pub encode_cursor : (Timestamp → Text) → Timestamp → Text → Text
  encode_cursor isoformat activity_timestamp event_id =
      right_strip_of b'='
        (urlsafe_b64encode (dumps (payload_of isoformat activity_timestamp event_id)))

  module _ (fromisoformat : Text → Option Timestamp) (is_aware : Timestamp → Bool)
      (loads : Text → Option Flat) where
    unfoldable pub read_payload : Flat → Result CursorError (Timestamp × Text)
    read_payload payload = do
      raise_if (not (has_its_keys payload)) invalid_cursor
      iso ← or_invalid (text_of_scalar (lookup "activity_timestamp" payload))
      timestamp ← or_invalid (fromisoformat iso)
      raise_if (not (is_aware timestamp)) invalid_cursor
      event_id ← or_invalid (text_of_scalar (lookup "event_id" payload))
      raise_if (is_empty event_id) invalid_cursor
      ok (timestamp, event_id)

    unfoldable pub decode_text : Text → Result CursorError (Timestamp × Text)
    decode_text value = do
      raise_if (not (all (λ c. ltb c 128) value)) invalid_cursor
      bytes ← or_invalid (urlsafe_b64decode (repad value))
      payload ← or_invalid (loads bytes)
      read_payload payload

    unfoldable pub decode_cursor : Option Text → Result CursorError (Option (Timestamp × Text))
    decode_cursor none = ok none
    decode_cursor (some value) = do cursor ← decode_text value; ok (some cursor)
