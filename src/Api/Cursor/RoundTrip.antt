-- ===== src/Api/Cursor/RoundTrip.antt =====
-- A cursor that `encode_cursor` of src/eo_event_platform/api/models.py writes is read back.
use nasa_earth_observation_e.Prelude.{
  Bool, true, false, Option, some, [], ◌∷◌, ok, ◌≡◌, refl, arith,
}
use nasa_earth_observation_e.Prelude.Assoc.{lookup}
use nasa_earth_observation_e.Text.{Text, is_empty}
use nasa_earth_observation_e.Json.{Flat, dumps}
use nasa_earth_observation_e.Json.Ascii.{IsAscii, dumps-IsAscii}
use nasa_earth_observation_e.Api.Base64.RoundTrip.{AreBytes, repad-encode, encode-ascii}
use nasa_earth_observation_e.Api.Cursor.{
  payload_of, encode_cursor, read_payload, decode_text, decode_cursor,
}

bytes-IsAscii : (s : Text) → IsAscii s → AreBytes s
bytes-IsAscii [] h = tt
bytes-IsAscii (c ∷ s) (small, h) = (omega (arith, small), bytes-IsAscii s h)

module _ {Timestamp : Type 0} (isoformat : Timestamp → Text)
    (fromisoformat : Text → Option Timestamp) (is_aware : Timestamp → Bool)
    (loads : Text → Option Flat) where
  read_payload-payload :
      (timestamp : Timestamp) (event_id : Text)
      → fromisoformat (isoformat timestamp) ≡ some timestamp
      → is_aware timestamp ≡ true
      → is_empty event_id ≡ false
      → read_payload fromisoformat is_aware loads (payload_of isoformat timestamp event_id)
        ≡ ok (timestamp, event_id)
  unfolding read_payload lookup
  read_payload-payload timestamp event_id iso aware filled = rw (iso, aware, filled) refl

  -- Where `fromisoformat` reads what `isoformat` wrote and `json.loads` what `json.dumps` wrote, a
  -- cursor that was made of a timestamp with a timezone and an event's identity that is not empty is
  -- decoded to the two of them.
  pub decode_cursor-encode_cursor :
      (timestamp : Timestamp) (event_id : Text)
      → fromisoformat (isoformat timestamp) ≡ some timestamp
      → loads (dumps (payload_of isoformat timestamp event_id))
        ≡ some (payload_of isoformat timestamp event_id)
      → is_aware timestamp ≡ true
      → is_empty event_id ≡ false
      → decode_cursor fromisoformat is_aware loads
          (some (encode_cursor isoformat timestamp event_id))
        ≡ ok (some (timestamp, event_id))
  decode_cursor-encode_cursor timestamp event_id iso json aware filled =
      let payload = payload_of isoformat timestamp event_id in
      let bytes = bytes-IsAscii (dumps payload) (dumps-IsAscii payload) in
      unfold decode_cursor decode_text encode_cursor in
      (rw
        (
          encode-ascii (dumps payload) bytes,
          repad-encode (dumps payload) bytes,
          json,
          read_payload-payload timestamp event_id iso aware filled,
        )
        refl)
