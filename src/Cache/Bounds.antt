-- ===== src/Cache/Bounds.antt =====
-- The bounds of the cache of src/eo_event_platform/api/cache.py: what every call keeps.
use nasa_earth_observation_e.Prelude.{
  ℕ, ◌+◌, ◌-◌, ◌≤◌, ◌<◌, String, ◌≡◌, true, false, none, some, [], ◌∷◌, ◌++◌, arith, length, ok,
  leb,
}
use nasa_earth_observation_e.Prelude.Assoc.{lookup, erase}
use nasa_earth_observation_e.Prelude.Int.{ℤ, pos, negsuc}
use nasa_earth_observation_e.Cache.{Entry, Cache, make, remove, move_to_end, get}
use nasa_earth_observation_e.Cache.Items.{
  size_of, HasDistinctKeys, Fits, IsFresh-erase_self, HasDistinctKeys-erase, Fits-erase,
  size_of-erase, Fits-lookup, HasDistinctKeys-snoc, Fits-snoc, size_of_snoc,
}

pub record IsBounded (c : Cache) : Type 0 where
  pub entries_positive : 0 < c.max_entries
  pub entry_le_total : c.max_entry_bytes ≤ c.max_total_bytes
  pub distinct : HasDistinctKeys c.entries
  pub total : c.total_bytes ≡ size_of c.entries
  pub count_le : length c.entries ≤ c.max_entries
  pub total_le : c.total_bytes ≤ c.max_total_bytes
  pub fits : Fits c.max_entry_bytes c.entries

-- A cache that the constructor returns is bounded.
pub make-IsBounded :
    (entries entry_bytes total_bytes : ℤ) (c : Cache)
    → make entries entry_bytes total_bytes ≡ ok c
    → IsBounded c
unfolding make
make-IsBounded (pos a) (pos b) (pos d) c h = ground arith
make-IsBounded (negsuc a) b d c h = ground arith
make-IsBounded (pos a) (negsuc b) d c h = ground arith
make-IsBounded (pos a) (pos b) (negsuc d) c h = ground arith

-- `remove` of a key that is there.
pub remove_found :
    (k : String) (c : Cache) (e : Entry)
    → lookup k c.entries ≡ some e
    → remove k c
      ≡ ok (record c { entries = erase k c.entries; total_bytes = c.total_bytes - length e.value })
unfolding remove
remove_found k c e h = ground arith

-- The items without one key: still distinct, smaller and fitting.
abbrev pub without : String → Entry → Cache → Cache
without k e c = record c {
  entries = erase k c.entries;
  total_bytes = c.total_bytes - length e.value;
}

pub without-IsBounded :
    (k : String) (e : Entry) (c : Cache)
    → IsBounded c
    → lookup k c.entries ≡ some e
    → IsBounded (without k e c)
without-IsBounded k e c b found =
    let sizes = size_of-erase k c.entries e found in
    record {
      entries_positive = b.entries_positive;
      entry_le_total = b.entry_le_total;
      distinct = HasDistinctKeys-erase k c.entries b.distinct;
      total = omega arith;
      count_le = omega arith;
      total_le = omega arith;
      fits = Fits-erase c.max_entry_bytes k c.entries b.fits;
    }

-- The item of a key, put at the end of the others.
abbrev pub touched : String → Entry → Cache → Cache
touched k e c = record c { entries = erase k c.entries ++ (k, e) ∷ [] }

pub touched-IsBounded :
    (k : String) (e : Entry) (c : Cache)
    → IsBounded c
    → lookup k c.entries ≡ some e
    → IsBounded (touched k e c)
touched-IsBounded k e c b found =
    let sizes = size_of-erase k c.entries e found in
    let ends = size_of_snoc k e (erase k c.entries) in
    let rest = HasDistinctKeys-erase k c.entries b.distinct in
    record {
      entries_positive = b.entries_positive;
      entry_le_total = b.entry_le_total;
      distinct =
          HasDistinctKeys-snoc k e (erase k c.entries) rest
            (IsFresh-erase_self k c.entries b.distinct);
      total = omega arith;
      count_le = omega arith;
      total_le = b.total_le;
      fits =
          Fits-snoc c.max_entry_bytes k e (erase k c.entries)
            (Fits-erase c.max_entry_bytes k c.entries b.fits)
            (Fits-lookup c.max_entry_bytes k c.entries e b.fits found);
    }

-- What `get` does in each of its three cases.
pub get_missing :
    (k : String) (now : ℕ) (c : Cache)
    → lookup k c.entries ≡ none
    → get k now c ≡ ok (none, record c { misses = c.misses + 1 })
unfolding get
get_missing k now c h = ground arith

pub get_expired :
    (k : String) (now : ℕ) (c : Cache) (e : Entry)
    → lookup k c.entries ≡ some e
    → leb e.expires_at now ≡ true
    → get k now c
      ≡ ok (none, record (without k e c) { expirations = c.expirations + 1; misses = c.misses + 1 })
unfolding get
get_expired k now c e found old = ground (arith, remove_found k c e found)

pub get_hit :
    (k : String) (now : ℕ) (c : Cache) (e : Entry)
    → lookup k c.entries ≡ some e
    → leb e.expires_at now ≡ false
    → get k now c ≡ ok (some e.value, record (touched k e c) { hits = c.hits + 1 })
unfolding get move_to_end
get_hit k now c e found fresh = ground arith
