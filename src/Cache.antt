-- ===== src/Cache.antt =====
-- src/eo_event_platform/api/cache.py: the bounded LRU cache with a time to live. A method runs
-- under the lock from its first to its last line, so it is one step of the state; the clock's
-- reading in that step is an argument. Times are counted in ticks of the clock.
pub mod Items
pub mod Bounds
pub mod Setting
mod Eviction
pub mod Contents
pub mod Kept
pub mod Control
mod Tests
use nasa_earth_observation_e.Prelude.{
  ℕ, zero, suc, ◌+◌, ◌-◌, String, Bool, true, false, ◌&&◌, ◌||◌, not, Option, none, some, List, [],
  ◌∷◌, ◌++◌, ltb, leb, if◌then◌else◌, length, Result, ok, raise, ◌>>=◌, ◌>>◌, raise_if,
}
use nasa_earth_observation_e.Prelude.Assoc.{lookup, insert, erase}
use nasa_earth_observation_e.Prelude.Int.{ℤ, pos, negsuc, leb_ℤ}

-- A value that a caller hands to the cache: `bytes`, or an object of another type.
pub data Payload : Type 0 where
  bytes : List ℕ → Payload
  not_bytes : Payload

pub record Entry : Type 0 where
  pub value : List ℕ
  pub expires_at : ℕ

pub data CacheError : Type 0 where
  bounds_not_positive entry_exceeds_total ttl_not_positive value_not_bytes key_error : CacheError
  -- The fuel of the eviction loop ran out: no behaviour of the program.
  out_of_fuel : CacheError

-- `entries` is an `OrderedDict`, the least recently used item first.
pub record Cache : Type 0 where
  pub max_entries : ℕ
  pub max_entry_bytes : ℕ
  pub max_total_bytes : ℕ
  pub entries : List (String × Entry)
  pub total_bytes : ℕ
  pub hits : ℕ
  pub misses : ℕ
  pub expirations : ℕ
  pub evictions : ℕ
  pub rejected_entries : ℕ

pub record CacheSnapshot : Type 0 where
  pub entries : ℕ
  pub total_bytes : ℕ
  pub hits : ℕ
  pub misses : ℕ
  pub expirations : ℕ
  pub evictions : ℕ
  pub rejected_entries : ℕ

abbrev pub is_positive : ℤ → Bool
is_positive n = not (leb_ℤ n (pos 0))

abbrev pub to_ℕ : ℤ → ℕ
to_ℕ (pos n) = n
to_ℕ (negsuc n) = 0

-- The constructor. The three bounds are positive where it returns, so they are kept in ℕ.
unfoldable pub make : ℤ → ℤ → ℤ → Result CacheError Cache
make max_entries max_entry_bytes max_total_bytes = do
  raise_if
      (not (is_positive max_entries && is_positive max_entry_bytes && is_positive max_total_bytes))
      bounds_not_positive
  raise_if (not (leb_ℤ max_entry_bytes max_total_bytes)) entry_exceeds_total
  ok (record {
    max_entries = to_ℕ max_entries;
    max_entry_bytes = to_ℕ max_entry_bytes;
    max_total_bytes = to_ℕ max_total_bytes;
    entries = [];
    total_bytes = 0;
    hits = 0;
    misses = 0;
    expirations = 0;
    evictions = 0;
    rejected_entries = 0;
  })

-- `_remove`: `pop` raises where the key is not there.
pub remove : String → Cache → Result CacheError Cache
remove key c = elim (lookup key c.entries) [
  | none ↦ raise key_error
  | some entry ↦
      ok (record c {
        entries = erase key c.entries;
        total_bytes = c.total_bytes - length entry.value;
      })
]

-- `OrderedDict.move_to_end`
pub move_to_end : String → List (String × Entry) → Result CacheError (List (String × Entry))
move_to_end key entries = elim (lookup key entries) [
  | none ↦ raise key_error
  | some entry ↦ ok (erase key entries ++ (key, entry) ∷ [])
]

pub get : String → ℕ → Cache → Result CacheError (Option (List ℕ) × Cache)
get key now c = elim (lookup key c.entries) [
  | none ↦ ok (none, record c { misses = c.misses + 1 })
  | some entry ↦
      if leb entry.expires_at now
      then (do
        c' ← remove key c
        ok (none, record c' { expirations = c'.expirations + 1; misses = c'.misses + 1 }))
      else (do
        entries ← move_to_end key c.entries
        ok (some entry.value, record c { entries = entries; hits = c.hits + 1 }))
]

-- The test of the eviction loop.
abbrev pub is_over : ℕ → Cache → Bool
is_over size c =
    leb c.max_entries (length c.entries) || ltb c.max_total_bytes (c.total_bytes + size)

-- The eviction loop. A round drops one item, so one round more than there are items is enough.
pub evict : ℕ → ℕ → Cache → Result CacheError Cache
evict zero size c = raise out_of_fuel
evict (suc fuel) size c = elim c.entries [
  | [] ↦ ok c
  | oldest ∷ rest ↦ elim (is_over size c) [
    | true ↦ (do
      c' ← remove oldest.0 c
      evict fuel size (record c' { evictions = c'.evictions + 1 }))
    | false ↦ ok c
  ]
]

-- The item is dropped where it is there already.
pub remove_existing : String → Cache → Result CacheError Cache
remove_existing key c = elim (lookup key c.entries) [ none ↦ ok c | some entry ↦ remove key c ]

-- The last lines of `set`.
pub store : String → List ℕ → ℕ → Cache → Cache
store key value expires_at c = record c {
  entries = insert key (record { value = value; expires_at = expires_at }) c.entries;
  total_bytes = c.total_bytes + length value;
}

-- `set` below its checks of the arguments.
pub set_bytes : String → List ℕ → ℕ → ℕ → Cache → Result CacheError (Bool × Cache)
set_bytes key value ttl now c =
    if ltb c.max_entry_bytes (length value) || ltb c.max_total_bytes (length value)
    then ok (false, record c { rejected_entries = c.rejected_entries + 1 })
    else (do
      c' ← remove_existing key c
      c'' ← evict (suc (length c'.entries)) (length value) c'
      ok (true, store key value (now + ttl) c''))

pub set : String → Payload → ℤ → ℕ → Cache → Result CacheError (Bool × Cache)
set key (bytes value) ttl now c = do
  raise_if (not (is_positive ttl)) ttl_not_positive
  set_bytes key value (to_ℕ ttl) now c
set key not_bytes ttl now c = do
  raise_if (not (is_positive ttl)) ttl_not_positive
  raise value_not_bytes

pub snapshot : Cache → CacheSnapshot
snapshot c = record {
  entries = length c.entries;
  total_bytes = c.total_bytes;
  hits = c.hits;
  misses = c.misses;
  expirations = c.expirations;
  evictions = c.evictions;
  rejected_entries = c.rejected_entries;
}

-- A call of the cache, with the clock's reading.
pub data Call : Type 0 where
  get_call : String → ℕ → Call
  set_call : String → Payload → ℤ → ℕ → Call

-- What one call leaves behind. An error of a call leaves the cache as it was.
pub after : Cache → Call → Cache
after c (get_call key now) = elim (get key now c) [ ok r ↦ r.1 | raise e ↦ c ]
after c (set_call key value ttl now) = elim (set key value ttl now c) [ ok r ↦ r.1 | raise e ↦ c ]
