-- ===== src/Cache/Setting.antt =====
-- `set` of the cache of src/eo_event_platform/api/cache.py: what an accepted value leaves behind.
use nasa_earth_observation_e.Prelude.{
  ℕ, suc, ◌+◌, ◌≤◌, ◌<◌, String, ◌≡◌, refl, sym, ap, ◌∙◌, true, false, List, [], ◌∷◌, ◌++◌, arith,
  length, drop, ok, Option-cases, inl, inr, ◌⊎◌,
}
use nasa_earth_observation_e.Prelude.Assoc.{lookup, erase}
use nasa_earth_observation_e.Cache.{Entry, Cache, evict, is_over, remove_existing, store, set_bytes}
use nasa_earth_observation_e.Cache.Items.{
  size_of, IsFresh, IsFresh-erase_self, IsFresh-of_lookup, insert_fresh, HasDistinctKeys-snoc,
  Fits-snoc, size_of_snoc, erase_missing, IsFresh-drop, HasDistinctKeys-drop, Fits-drop,
}
use nasa_earth_observation_e.Cache.Eviction.{dropped, MakesRoom, evict-MakesRoom}
use nasa_earth_observation_e.Cache.Bounds.{IsBounded, without, without-IsBounded, remove_found}

-- The cache `c'` is the bounded cache `c` without the item of the key `k`.
pub record IsCleared (k : String) (c : Cache) (c' : Cache) : Type 0 where
  pub done : remove_existing k c ≡ ok c'
  pub bounded : IsBounded c'
  pub items : c'.entries ≡ erase k c.entries
  pub fresh : IsFresh k c'.entries
  pub evictions : c'.evictions ≡ c.evictions
  pub max_entries : c'.max_entries ≡ c.max_entries
  pub max_total_bytes : c'.max_total_bytes ≡ c.max_total_bytes
  pub max_entry_bytes : c'.max_entry_bytes ≡ c.max_entry_bytes

pub remove_existing-IsCleared :
    (k : String) (c : Cache) → IsBounded c → (c' : Cache) × IsCleared k c c'
remove_existing-IsCleared k c b = elim (Option-cases (lookup k c.entries)) [
  | inl missing ↦ (
    c,
    record {
      done = unfold remove_existing in ground arith;
      bounded = b;
      items = sym (erase_missing k c.entries missing);
      fresh = IsFresh-of_lookup k c.entries missing;
      evictions = refl;
      max_entries = refl;
      max_total_bytes = refl;
      max_entry_bytes = refl;
    },
  )
  | inr (e, found) ↦ (
    without k e c,
    record {
      done = unfold remove_existing in ground (arith, remove_found k c e found);
      bounded = without-IsBounded k e c b found;
      items = refl;
      fresh = IsFresh-erase_self k c.entries b.distinct;
      evictions = refl;
      max_entries = refl;
      max_total_bytes = refl;
      max_entry_bytes = refl;
    },
  )
]

-- Storing under a fresh key, where there is room.
pub store-IsBounded :
    (k : String) (value : List ℕ) (expires_at n : ℕ) (c : Cache)
    → IsBounded c
    → IsFresh k c.entries
    → length value ≤ c.max_entry_bytes
    → MakesRoom c (length value) n
    → IsBounded (store k value expires_at (dropped c n))
      × ((store k value expires_at (dropped c n)).entries
          ≡ drop n c.entries ++ (k, record { value = value; expires_at = expires_at }) ∷ [])
unfolding store
store-IsBounded k value expires_at n c b fresh small room =
    let e : Entry = record { value = value; expires_at = expires_at } in
    let rest = IsFresh-drop k n c.entries fresh in
    let placed = insert_fresh k e (drop n c.entries) rest in
    let sizes = size_of_snoc k e (drop n c.entries) in
    (
      record {
        entries_positive = b.entries_positive;
        entry_le_total = b.entry_le_total;
        distinct =
            rw placed
              (HasDistinctKeys-snoc k e _ (HasDistinctKeys-drop n c.entries b.distinct) rest);
        total = rw placed (omega arith);
        count_le = rw placed (ground (arith, room.1, sizes));
        total_le = ground (arith, room.1);
        fits = rw placed (Fits-snoc _ k e _ (Fits-drop _ n c.entries b.fits) small);
      },
      placed,
    )

-- The cache after a value of that size was accepted under the key.
pub record IsStored (k : String) (value : List ℕ) (expires_at : ℕ) (c c' : Cache) : Type 0 where
  pub evicted : ℕ
  pub items :
      c'.entries
      ≡ drop evicted (erase k c.entries)
        ++ (k, record { value = value; expires_at = expires_at }) ∷ []
  pub counted : c'.evictions ≡ c.evictions + evicted
  pub room : (length c'.entries ≤ c.max_entries) × (size_of c'.entries ≤ c.max_total_bytes)
  pub least :
      (m : ℕ)
      → m < evicted
      → (c.max_entries < length (drop m (erase k c.entries)) + 1)
        ⊎ (c.max_total_bytes < size_of (drop m (erase k c.entries)) + length value)
  pub bounded : IsBounded c'

over_cases :
    (size : ℕ) (c : Cache)
    → is_over size c ≡ true
    → (c.max_entries < length c.entries + 1) ⊎ (c.max_total_bytes < c.total_bytes + size)
over_cases size c h = ground arith

least-cleared :
    (k : String) (c c' : Cache) (size m : ℕ)
    → IsCleared k c c'
    → is_over size (dropped c' m) ≡ true
    → (c.max_entries < length (drop m (erase k c.entries)) + 1)
      ⊎ (c.max_total_bytes < size_of (drop m (erase k c.entries)) + size)
least-cleared k c c' size m clear over =
    let counts = ap (λ d. length (drop m d)) clear.items in
    let sizes = ap (λ d. size_of (drop m d)) clear.items in
    elim (over_cases size (dropped c' m) over) [
      | inl many ↦ inl (omega (arith, clear.max_entries))
      | inr large ↦ inr (omega (arith, clear.max_total_bytes))
    ]

store-IsStored :
    (k : String) (value : List ℕ) (expires_at n : ℕ) (c c' : Cache)
    → IsCleared k c c'
    → length value ≤ c.max_entry_bytes
    → MakesRoom c' (length value) n
    → IsStored k value expires_at c (store k value expires_at (dropped c' n))
unfolding store
store-IsStored k value expires_at n c c' clear small spec =
    let small' : length value ≤ c'.max_entry_bytes = omega (arith, clear.max_entry_bytes) in
    let (bounded, items) =
      store-IsBounded k value expires_at n c' clear.bounded clear.fresh small' spec in
    let e : Entry = record { value = value; expires_at = expires_at } in
    record {
      evicted = n;
      items = items ∙ ap (λ d. drop n d ++ (k, e) ∷ []) clear.items;
      counted = omega (arith, clear.evictions);
      room = (
        omega (arith, clear.max_entries, bounded.count_le),
        omega (arith, clear.max_total_bytes, bounded.total, bounded.total_le),
      );
      least = λ m h. least-cleared k c c' (length value) m clear (spec.2 m h);
      bounded = bounded;
    }

set_bytes_run :
    (k : String) (value : List ℕ) (ttl now : ℕ) (c c' c'' : Cache)
    → length value ≤ c.max_entry_bytes
    → length value ≤ c.max_total_bytes
    → remove_existing k c ≡ ok c'
    → evict (suc (length c'.entries)) (length value) c' ≡ ok c''
    → set_bytes k value ttl now c ≡ ok (true, store k value (now + ttl) c'')
unfolding set_bytes
set_bytes_run k value ttl now c c' c'' small fit cleared evicted = ground arith

-- On a bounded cache, a value within the entry bound is stored as the newest item, with its time to
-- live from now, after the item of its key and the fewest possible oldest items are dropped; the
-- evictions are counted, and the result is bounded.
pub set_bytes-IsStored :
    (k : String) (value : List ℕ) (ttl now : ℕ) (c : Cache)
    → IsBounded c
    → length value ≤ c.max_entry_bytes
    → (c' : Cache) × (set_bytes k value ttl now c ≡ ok (true, c'))
      × IsStored k value (now + ttl) c c'
set_bytes-IsStored k value ttl now c b small =
    let (c', clear) = remove_existing-IsCleared k c b in
    let fit : length value ≤ c'.max_total_bytes =
      omega (arith, clear.max_total_bytes, b.entry_le_total) in
    let (n, done, spec) =
      evict-MakesRoom c' (length value) (suc (length c'.entries)) clear.bounded.total
        clear.bounded.entries_positive fit (omega arith) in
    (
      store k value (now + ttl) (dropped c' n),
      set_bytes_run k value ttl now c c' (dropped c' n) small (omega (arith, b.entry_le_total))
          clear.done done,
      store-IsStored k value (now + ttl) n c c' clear small spec,
    )

-- A value that is larger than a bound changes a counter only.
pub set_bytes_rejected :
    (k : String) (value : List ℕ) (ttl now : ℕ) (c : Cache)
    → IsBounded c
    → c.max_entry_bytes < length value
    → set_bytes k value ttl now c
      ≡ ok (false, record c { rejected_entries = c.rejected_entries + 1 })
unfolding set_bytes
set_bytes_rejected k value ttl now c b large = ground arith
