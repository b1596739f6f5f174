-- ===== src/Cache/Tests.antt =====
-- Runs of the cache, and its theorems at concrete inputs.
use nasa_earth_observation_e.Prelude.{
  inr, ℕ, ◌≡◌, refl, ◌↔◌, true, Option, none, some, List, [], ◌∷◌, arith, ok, raise, ltb,
  if◌then◌else◌,
}
use nasa_earth_observation_e.Prelude.Assoc.{lookup, insert, erase}
use nasa_earth_observation_e.Prelude.Int.{pos}
use nasa_earth_observation_e.Text.{codes, text_eq, strip, lower}
use nasa_earth_observation_e.Text.Splitting.{split, before}
use nasa_earth_observation_e.Cache.{
  Cache, Call, get_call, set_call, bytes, not_bytes, make, remove, move_to_end, get, evict,
  remove_existing, store, set_bytes, set, after, value_not_bytes, snapshot,
}
use nasa_earth_observation_e.Cache.Eviction.{dropped, MakesRoom, evict-MakesRoom}
use nasa_earth_observation_e.Cache.Bounds.{IsBounded, make-IsBounded}
use nasa_earth_observation_e.Cache.Setting.{IsStored, set_bytes-IsStored}
use nasa_earth_observation_e.Cache.Contents.{
  get-IsBounded, set_error, run, run-IsBounded, get-set, result_of, IsRefused,
}
use nasa_earth_observation_e.Cache.Control.{cache_bypassed}

cache : Unit {0}
unfolding make remove move_to_end get evict remove_existing store set_bytes set after snapshot
    lookup insert erase
cache = tt

-- An empty cache for two entries.
abbrev small : Cache
small = record {
  max_entries = 2;
  max_entry_bytes = 4;
  max_total_bytes = 6;
  entries = [];
  total_bytes = 0;
  hits = 0;
  misses = 0;
  expirations = 0;
  evictions = 0;
  rejected_entries = 0;
}

make-small : make (pos 2) (pos 4) (pos 6) ≡ ok small
unfolding cache
make-small = refl

small-IsBounded : IsBounded small
small-IsBounded = make-IsBounded (pos 2) (pos 4) (pos 6) small make-small

abbrev calls : List Call
calls =
    set_call "a" (bytes (1 ∷ 2 ∷ [])) (pos 10) 0
    ∷ set_call "b" (bytes (3 ∷ [])) (pos 10) 1
    ∷ get_call "a" 2
    ∷ set_call "c" (bytes (4 ∷ 5 ∷ 6 ∷ [])) (pos 10) 3
    ∷ get_call "c" 13
    ∷ set_call "d" not_bytes (pos 1) 14
    ∷ []

-- "b" is the least recently used of the two when "c" comes, and "c" has expired when it is read.
calls_lem : snapshot (run small calls) ≡ record {
  entries = 1;
  total_bytes = 2;
  hits = 1;
  misses = 1;
  expirations = 1;
  evictions = 1;
  rejected_entries = 0;
}
unfolding cache
calls_lem = refl

run-IsBounded_example : IsBounded (run small calls)
run-IsBounded_example = run-IsBounded (pos 2) (pos 4) (pos 6) small calls make-small

set_bytes-IsStored_example :
    (c' : Cache) × (set_bytes "a" (1 ∷ 2 ∷ []) 10 5 small ≡ ok (true, c'))
    × IsStored "a" (1 ∷ 2 ∷ []) 15 small c'
set_bytes-IsStored_example =
    set_bytes-IsStored "a" (1 ∷ 2 ∷ []) 10 5 small small-IsBounded (omega arith)

get-set_example :
    (c' : Cache) × (set "a" (bytes (1 ∷ 2 ∷ [])) (pos 10) 5 small ≡ ok (true, c'))
    × (result_of (get "a" 14 c') ≡ ok (if ltb 14 15 then some (1 ∷ 2 ∷ []) else none))
get-set_example = get-set "a" (1 ∷ 2 ∷ []) 9 5 14 small small-IsBounded (omega arith)

abbrev filled : Cache
filled = record small {
  entries = ("a", record { value = 1 ∷ 2 ∷ []; expires_at = 15 }) ∷ [];
  total_bytes = 2;
}

set_error_example :
    (set "a" not_bytes (pos 3) 0 small ≡ raise value_not_bytes)
    ↔ IsRefused not_bytes (pos 3) value_not_bytes
set_error_example = set_error "a" not_bytes (pos 3) 0 small value_not_bytes small-IsBounded

set_not_bytes : set "a" not_bytes (pos 3) 0 small ≡ raise value_not_bytes
set_not_bytes = set_error_example.1 (inr (refl, refl, refl))

get-IsBounded_example : (r : Option (List ℕ) × Cache) × (get "a" 3 small ≡ ok r) × IsBounded r.1
get-IsBounded_example = get-IsBounded "a" 3 small small-IsBounded

evict-MakesRoom_example :
    (n : ℕ) × (evict 2 5 filled ≡ ok (dropped filled n)) × MakesRoom filled 5 n
evict-MakesRoom_example = evict-MakesRoom filled 5 2 refl (omega arith) (omega arith) (omega arith)

bypassed : cache_bypassed (some (codes "max-age=0, No-Cache")) ≡ true
unfolding cache_bypassed split before strip lower text_eq
bypassed = refl
