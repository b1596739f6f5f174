-- ===== src/Api/Tests.antt =====
-- Tests of the API: three events in pages of two, and a cached aggregate.
use nasa_earth_observation_e.Prelude.{
  ℕ, suc, ◌+◌, ◌-◌, String, Bool, true, Option, none, some, List, [], ◌∷◌, length, map, take, ltb,
  if◌then◌else◌, Result, ok, ◌≡◌, refl, ◌⊎◌, arith,
}
use nasa_earth_observation_e.Prelude.Int.{pos}
use nasa_earth_observation_e.Text.{Text, codes, text_eq}
use nasa_earth_observation_e.Text.Float.{of_int}
use nasa_earth_observation_e.Json.{Flat, dumps}
use nasa_earth_observation_e.Cache.{Cache, make}
use nasa_earth_observation_e.Cache.Bounds.{IsBounded}
use nasa_earth_observation_e.Api.Cursor.{payload_of, encode_cursor, decode_cursor}
use nasa_earth_observation_e.Api.Cursor.RoundTrip.{decode_cursor-encode_cursor}
use nasa_earth_observation_e.Api.Pages.{DatabaseError, EventRow, key_of, feature_of}
use nasa_earth_observation_e.Api.Pages.Cuts.{later_rows}
use nasa_earth_observation_e.Api.Pages.Following.{
  IsDecodable, IsTable, follow, bbox_page, lineage_page, follow-AllRows,
}
use nasa_earth_observation_e.Api.Aggregate.{Request}
use nasa_earth_observation_e.Api.Aggregate.Fresh.{IsRecent, served_after, cached_aggregate-IsFresh}

abbrev row : ℕ → EventRow ℕ
row t = record {
  activity_timestamp = t;
  event_id = codes "e";
  longitude = of_int (pos 1);
  latitude = of_int (pos 2);
}

abbrev rows : List (EventRow ℕ)
rows = row 1 ∷ row 2 ∷ row 3 ∷ []

abbrev iso : ℕ → Text
iso t = (b'0' + t) ∷ []

abbrev from_iso : Text → Option ℕ
from_iso [] = none
from_iso (c ∷ s) = some (c - b'0')

abbrev is_aware : ℕ → Bool
is_aware t = true

abbrev json_of : ℕ → Text
json_of t = dumps (payload_of iso t (codes "e"))

-- Reads the three payloads.
abbrev loads : Text → Option Flat
loads s =
    if text_eq s (json_of 1)
    then some (payload_of iso 1 (codes "e"))
    else if text_eq s (json_of 2)
    then some (payload_of iso 2 (codes "e"))
    else if text_eq s (json_of 3)
    then some (payload_of iso 3 (codes "e"))
    else none

loads_2 : loads (json_of 2) ≡ some (payload_of iso 2 (codes "e"))
unfolding dumps text_eq
loads_2 = refl

decode_cursor-encode_cursor_example :
    decode_cursor from_iso is_aware loads (some (encode_cursor iso 2 (codes "e")))
    ≡ ok (some (2, codes "e"))
decode_cursor-encode_cursor_example =
    decode_cursor-encode_cursor iso from_iso is_aware loads 2 (codes "e") refl loads_2 refl refl

abbrev is_after : ℕ × Text → EventRow ℕ → Bool
is_after key r = ltb key.0 r.activity_timestamp

abbrev select_events : Option (ℕ × Text) → ℕ → Result DatabaseError (List (EventRow ℕ))
select_events cursor n = ok (take n (later_rows key_of is_after cursor rows))

decodable :
    (t : ℕ)
    → from_iso (iso t) ≡ some t
    → loads (json_of t) ≡ some (payload_of iso t (codes "e"))
    → IsDecodable iso from_iso is_aware loads is_after (row t)
decodable t read parsed = record { iso = read; json = parsed; aware = refl; filled = refl }

loads_1 : loads (json_of 1) ≡ some (payload_of iso 1 (codes "e"))
unfolding dumps text_eq
loads_1 = refl

loads_3 : loads (json_of 3) ≡ some (payload_of iso 3 (codes "e"))
unfolding dumps text_eq
loads_3 = refl

table : IsTable iso from_iso is_aware loads is_after select_events rows
table = record {
  ordered = (
    (refl, (refl, tt)),
    refl,
    (refl, (refl, tt)),
    ((refl, tt), refl, (refl, tt), (tt, refl, tt, tt)),
  );
  selected = λ cursor n. refl;
  decodable =
      (decodable 1 refl loads_1, (decodable 2 refl loads_2, (decodable 3 refl loads_3, tt)));
}

abbrev summary : Result DatabaseError (Option ℕ)
summary = ok (some 3)

follow-AllRows_example :
    (follow (bbox_page iso from_iso is_aware loads select_events 2) (suc (length rows)) none
      ≡ some (map feature_of rows))
    × (follow
          (lineage_page iso from_iso is_aware loads select_events 2 summary)
          (suc (length rows))
          none
        ≡ some rows)
follow-AllRows_example =
    follow-AllRows iso from_iso is_aware loads select_events 2 is_after rows summary 3 table refl
      (omega arith)

abbrev hash : Text → String
hash s = "h"

abbrev dump : Text → List ℕ
dump v = v

abbrev read : List ℕ → Option Text
read v = some v

abbrev request : ℕ → Text → Request Text Text
request now v = record {
  cache_control = none;
  namespace = "daily";
  filters = [];
  read_at = now;
  written_at = now;
  loaded = ok v;
}

abbrev cache : Cache
cache = record {
  max_entries = 2;
  max_entry_bytes = 8;
  max_total_bytes = 16;
  entries = [];
  total_bytes = 0;
  hits = 0;
  misses = 0;
  expirations = 0;
  evictions = 0;
  rejected_entries = 0;
}

made : make (pos 2) (pos 8) (pos 16) ≡ ok cache
unfolding make
made = refl

cached_aggregate-IsFresh_example :
    (((served_after hash dump read 9 (request 1 (codes "a") ∷ []) (request 5 (codes "b")) cache).0
        ≡ ok (codes "b"))
      ⊎ IsRecent hash dump read 9
          (request 1 (codes "a") ∷ [])
          (request 5 (codes "b"))
          (served_after hash dump read 9
            (request 1 (codes "a") ∷ [])
            (request 5 (codes "b"))
            cache).0)
    × IsBounded
        (served_after hash dump read 9 (request 1 (codes "a") ∷ []) (request 5 (codes "b")) cache).1
cached_aggregate-IsFresh_example =
    cached_aggregate-IsFresh hash dump read 9 (pos 2) (pos 8) (pos 16) cache
      (request 1 (codes "a") ∷ []) (request 5 (codes "b")) made (λ v. refl)
