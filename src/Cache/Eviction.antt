-- ===== src/Cache/Eviction.antt =====
-- The eviction loop of `set` in src/eo_event_platform/api/cache.py.
use native.Mathlib.Nat.{add-zero}
use nasa_earth_observation_e.Prelude.{
  ℕ, zero, suc, ◌+◌, ◌≤◌, ◌<◌, String, ◌≡◌, ap, ◌∙◌, true, false, List, [], ◌∷◌, arith, eq_iff,
  length, drop, ok, Bool-cases, inl, inr,
}
use nasa_earth_observation_e.Prelude.Assoc.{lookup, erase}
use nasa_earth_observation_e.Cache.{Entry, Cache, remove, evict, is_over}
use nasa_earth_observation_e.Cache.Items.{size_of}

-- The cache with the items `d`, and with `v` evictions counted.
abbrev pub holding : Cache → List (String × Entry) → ℕ → Cache
holding c d v = record c { entries = d; total_bytes = size_of d; evictions = v }

-- What is left after the `n` oldest items are dropped.
abbrev pub dropped : Cache → ℕ → Cache
dropped c n = holding c (drop n c.entries) (c.evictions + n)

remove_oldest :
    (c : Cache) (k : String) (e : Entry) (d : List (String × Entry)) (v : ℕ)
    → remove k (holding c ((k, e) ∷ d) v) ≡ ok (holding c d v)
unfolding remove lookup erase
remove_oldest c k e d v = ground (arith, eq_iff k k)

-- One round of the loop.
evict_round :
    (c : Cache) (k : String) (e : Entry) (d : List (String × Entry)) (v size fuel : ℕ)
    → is_over size (holding c ((k, e) ∷ d) v) ≡ true
    → evict (suc fuel) size (holding c ((k, e) ∷ d) v) ≡ evict fuel size (holding c d (v + 1))
unfolding evict
evict_round c k e d v size fuel h = ground (arith, remove_oldest c k e d v)

-- What the loop is to do: drop the fewest of the oldest items that make room.
abbrev pub MakesRoom : Cache → ℕ → ℕ → Type 0
MakesRoom c size n =
    (n ≤ length c.entries)
    × (is_over size (dropped c n) ≡ false)
    × ((m : ℕ) → m < n → is_over size (dropped c m) ≡ true)

evict-holding :
    (c : Cache) (d : List (String × Entry)) (v size fuel : ℕ)
    → 0 < c.max_entries
    → size ≤ c.max_total_bytes
    → length d < fuel
    → (n : ℕ) × (evict fuel size (holding c d v) ≡ ok (holding c (drop n d) (v + n)))
      × MakesRoom (holding c d v) size n
evict-holding c d v size zero pos fits enough = elim enough [ ]
evict-holding c [] v size (suc fuel) pos fits enough =
    (0, unfold evict in rw add-zero, (omega arith, ground arith, λ m h. absurd (omega arith)))
evict-holding c ((k, e) ∷ d) v size (suc fuel) pos fits enough =
    elim (Bool-cases (is_over size (holding c ((k, e) ∷ d) v))) [
      | inr room ↦ (
        0,
        unfold evict in ground arith,
        (omega arith, ground arith, λ m h. absurd (omega arith)),
      )
      | inl over ↦
          let (n, done, spec) = evict-holding c d (v + 1) size fuel pos fits (omega arith) in
          let (bound, room, least) = spec in
          (
            suc n,
            evict_round c k e d v size fuel over
                ∙ done
                ∙ ap (λ (t : ℕ). ok (holding c (drop n d) t)) (omega arith),
            (omega arith, room, least_suc c k e d v size n over least),
          )
    ]
  where
    least_suc :
        (c : Cache) (k : String) (e : Entry) (d : List (String × Entry)) (v size n : ℕ)
        → is_over size (holding c ((k, e) ∷ d) v) ≡ true
        → ((m : ℕ) → m < n → is_over size (dropped (holding c d (v + 1)) m) ≡ true)
        → (m : ℕ) → m < suc n
        → is_over size (dropped (holding c ((k, e) ∷ d) v) m) ≡ true
    least_suc c k e d v size n over least zero h = over
    least_suc c k e d v size n over least (suc m) h = least m (omega arith)

-- The loop ends with the fuel that `set` gives it, raises nothing, and drops the oldest items, as
-- few as make room: one less would not.
pub evict-MakesRoom :
    (c : Cache) (size fuel : ℕ)
    → c.total_bytes ≡ size_of c.entries
    → 0 < c.max_entries
    → size ≤ c.max_total_bytes
    → length c.entries < fuel
    → (n : ℕ) × (evict fuel size c ≡ ok (dropped c n)) × MakesRoom c size n
evict-MakesRoom c size fuel total pos fits enough =
    let (n, done, spec) = evict-holding c c.entries c.evictions size fuel pos fits enough in
    (n, ap (λ (t : ℕ). evict fuel size (record c { total_bytes = t })) total ∙ done, spec)
