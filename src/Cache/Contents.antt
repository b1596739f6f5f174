-- ===== src/Cache/Contents.antt =====
-- What the calls of the cache of src/eo_event_platform/api/cache.py return, and what every sequence
-- of calls keeps.
use nasa_earth_observation_e.Prelude.{
  ℕ, zero, suc, ◌+◌, ◌≤◌, ◌<◌, String, ◌≡◌, refl, ap, ◌∙◌, Bool, true, false, Option, none, some,
  List, [], ◌∷◌, ◌++◌, arith, eq_iff, length, drop, Result, ok, raise, ltb, leb, if◌then◌else◌,
  Bool-cases, Option-cases, inl, inr, ◌⊎◌, ◌↔◌,
}
use nasa_earth_observation_e.Prelude.Assoc.{lookup, erase}
use nasa_earth_observation_e.Prelude.Int.{ℤ, pos, negsuc}
use nasa_earth_observation_e.Cache.{
  Entry, Cache, CacheError, Call, get_call, set_call, Payload, bytes, not_bytes, make,
  ttl_not_positive, value_not_bytes, get, set_bytes, set, after, is_positive,
}
use nasa_earth_observation_e.Cache.Items.{IsFresh, IsFresh-drop, IsFresh-erase_self}
use nasa_earth_observation_e.Cache.Bounds.{
  IsBounded, make-IsBounded, touched, without-IsBounded, touched-IsBounded, get_missing,
  get_expired, get_hit,
}
use nasa_earth_observation_e.Cache.Setting.{set_bytes-IsStored, set_bytes_rejected}

-- `get` on a bounded cache raises nothing and leaves a bounded cache.
pub get-IsBounded :
    (k : String) (now : ℕ) (c : Cache)
    → IsBounded c
    → (r : Option (List ℕ) × Cache) × (get k now c ≡ ok r) × IsBounded r.1
get-IsBounded k now c b = elim (Option-cases (lookup k c.entries)) [
  | inl missing ↦ (_, get_missing k now c missing, ground (arith, b))
  | inr (e, found) ↦ elim (Bool-cases (leb e.expires_at now)) [
    | inl old ↦
        (_, get_expired k now c e found old, ground (arith, without-IsBounded k e c b found))
    | inr fresh ↦
        (_, get_hit k now c e found fresh, ground (arith, touched-IsBounded k e c b found))
  ]
]

-- With a positive time to live the argument checks pass.
pub set_positive :
    (k : String) (value : List ℕ) (ttl now : ℕ) (c : Cache)
    → set k (bytes value) (pos (suc ttl)) now c ≡ set_bytes k value (suc ttl) now c
unfolding set
set_positive k value ttl now c = ground arith

set-IsBounded :
    (k : String) (value : List ℕ) (ttl now : ℕ) (c : Cache)
    → IsBounded c
    → (r : Bool × Cache) × (set k (bytes value) (pos (suc ttl)) now c ≡ ok r) × IsBounded r.1
set-IsBounded k value ttl now c b = elim (Bool-cases (ltb c.max_entry_bytes (length value))) [
  | inl large ↦ (
    (false, record c { rejected_entries = c.rejected_entries + 1 }),
    set_positive k value ttl now c ∙ set_bytes_rejected k value (suc ttl) now c b (ground arith),
    ground (arith, b),
  )
  | inr small ↦
      let (c', done, stored) = set_bytes-IsStored k value (suc ttl) now c b (ground arith) in
      ((true, c'), set_positive k value ttl now c ∙ done, stored.bounded)
]

-- The checks of the arguments of `set`: the time to live is positive, and the value is bytes.
abbrev pub IsRefused : Payload → ℤ → CacheError → Type 0
IsRefused value ttl e =
    ((is_positive ttl ≡ false) × (e ≡ ttl_not_positive))
    ⊎ ((is_positive ttl ≡ true) × (value ≡ not_bytes) × (e ≡ value_not_bytes))

set-error :
    (k : String) (value : Payload) (ttl : ℤ) (now : ℕ) (c : Cache) (e : CacheError)
    → IsBounded c
    → set k value ttl now c ≡ raise e
    → IsRefused value ttl e
unfolding set
set-error k (bytes value) (pos (suc ttl)) now c e b h =
    let (r, done, bounded) = set-IsBounded k value ttl now c b in cc done
set-error k (bytes value) (pos zero) now c e b h = inl (refl, ground arith)
set-error k (bytes value) (negsuc n) now c e b h = inl (refl, ground arith)
set-error k not_bytes (pos (suc ttl)) now c e b h = inr (ground arith, refl, ground arith)
set-error k not_bytes (pos zero) now c e b h = inl (refl, ground arith)
set-error k not_bytes (negsuc n) now c e b h = inl (refl, ground arith)

error-set :
    (k : String) (value : Payload) (ttl : ℤ) (now : ℕ) (c : Cache) (e : CacheError)
    → IsRefused value ttl e
    → set k value ttl now c ≡ raise e
unfolding set
error-set k (bytes value) ttl now c e (inl (bad, same)) = ground arith
error-set k not_bytes ttl now c e (inl (bad, same)) = ground arith
error-set k (bytes value) ttl now c e (inr (good, same, kind)) = absurd (ground arith)
error-set k not_bytes ttl now c e (inr (good, same, kind)) = ground arith

-- On a bounded cache `set` raises an error exactly where one of its two checks of the arguments fails,
-- the one on the time to live first: neither a missing key nor an endless eviction shows.
pub set_error :
    (k : String) (value : Payload) (ttl : ℤ) (now : ℕ) (c : Cache) (e : CacheError)
    → IsBounded c
    → (set k value ttl now c ≡ raise e) ↔ IsRefused value ttl e
set_error k value ttl now c e b = (set-error k value ttl now c e b, error-set k value ttl now c e)

after-get :
    (k : String) (now : ℕ) (c : Cache) (r : Option (List ℕ) × Cache)
    → get k now c ≡ ok r
    → after c (get_call k now) ≡ r.1
unfolding after
after-get k now c r h = ground arith

after-set :
    (k : String) (value : Payload) (ttl : ℤ) (now : ℕ) (c : Cache) (r : Bool × Cache)
    → set k value ttl now c ≡ ok r
    → after c (set_call k value ttl now) ≡ r.1
unfolding after
after-set k value ttl now c r h = ground arith

-- Every call keeps the bounds: a call that raises leaves the cache as it was.
pub after-IsBounded : (c : Cache) (call : Call) → IsBounded c → IsBounded (after c call)
after-IsBounded c (get_call k now) b =
    let (r, done, bounded) = get-IsBounded k now c b in rw (after-get k now c r done) bounded
after-IsBounded c (set_call k (bytes value) (pos (suc ttl)) now) b =
    let (r, done, bounded) = set-IsBounded k value ttl now c b in
    rw (after-set k (bytes value) (pos (suc ttl)) now c r done) bounded
after-IsBounded c (set_call k (bytes value) (pos zero) now) b = unfold after set in b
after-IsBounded c (set_call k (bytes value) (negsuc n) now) b = unfold after set in b
after-IsBounded c (set_call k not_bytes (pos zero) now) b = unfold after set in b
after-IsBounded c (set_call k not_bytes (pos (suc n)) now) b = unfold after set in ground (arith, b)
after-IsBounded c (set_call k not_bytes (negsuc n) now) b = unfold after set in b

-- The cache after a sequence of calls, by any threads in any order.
abbrev pub run : Cache → List Call → Cache
run c [] = c
run c (call ∷ calls) = run (after c call) calls

run_keeps : (c : Cache) (calls : List Call) → IsBounded c → IsBounded (run c calls)
run_keeps c [] b = b
run_keeps c (call ∷ calls) b = run_keeps (after c call) calls (after-IsBounded c call b)

-- A cache that the constructor returned stays within its bounds through every sequence of calls.
pub run-IsBounded :
    (entries entry_bytes total_bytes : ℤ) (c : Cache) (calls : List Call)
    → make entries entry_bytes total_bytes ≡ ok c
    → IsBounded (run c calls)
run-IsBounded entries entry_bytes total_bytes c calls h =
    run_keeps c calls (make-IsBounded entries entry_bytes total_bytes c h)

lookup-snoc :
    (k : String) (e : Entry) (d : List (String × Entry))
    → IsFresh k d
    → lookup k (d ++ (k, e) ∷ []) ≡ some e
unfolding lookup
lookup-snoc k e [] h = ground (arith, eq_iff k k)
lookup-snoc k e ((i, w) ∷ d) h = ground (arith, eq_iff i k, lookup-snoc k e d h.1)

-- The value that a call of `get` returns.
abbrev pub result_of :
    Result CacheError (Option (List ℕ) × Cache) → Result CacheError (Option (List ℕ))
result_of (ok r) = ok r.0
result_of (raise e) = raise e

-- A value that was stored is read back up to its time to live, and never from then on.
pub get-set :
    (k : String) (value : List ℕ) (ttl now later : ℕ) (c : Cache)
    → IsBounded c
    → length value ≤ c.max_entry_bytes
    → (c' : Cache) × (set k (bytes value) (pos (suc ttl)) now c ≡ ok (true, c'))
      × (result_of (get k later c') ≡ ok (if ltb later (now + suc ttl) then some value else none))
get-set k value ttl now later c b small =
    let (c', done, stored) = set_bytes-IsStored k value (suc ttl) now c b small in
    let fresh =
      IsFresh-drop k stored.evicted (erase k c.entries)
        (IsFresh-erase_self k c.entries b.distinct) in
    let e : Entry = record { value = value; expires_at = now + suc ttl } in
    let found : lookup k c'.entries ≡ some e =
      ap (lookup k) stored.items
      ∙ lookup-snoc k e (drop stored.evicted (erase k c.entries)) fresh in
    (
      c',
      set_positive k value ttl now c ∙ done,
      elim (Bool-cases (leb e.expires_at later)) [
        | inl old ↦ rw (get_expired k later c' e found old) (ground arith)
        | inr live ↦ rw (get_hit k later c' e found live) (ground arith)
      ],
    )

-- A value that `get` returns is that of an item of its key whose time has not come.
pub get_live :
    (k : String) (now : ℕ) (c c' : Cache) (value : List ℕ)
    → get k now c ≡ ok (some value, c')
    → (e : Entry) × (lookup k c.entries ≡ some e)
      × (e.value ≡ value)
      × (now < e.expires_at)
      × (c' ≡ record (touched k e c) { hits = c.hits + 1 })
get_live k now c c' value h = elim (Option-cases (lookup k c.entries)) [
  | inl missing ↦ cc (get_missing k now c missing)
  | inr (e, found) ↦ elim (Bool-cases (leb e.expires_at now)) [
    | inl old ↦ cc (get_expired k now c e found old)
    | inr fresh ↦
        let hit = get_hit k now c e found fresh in (e, found, cc hit, ground arith, cc hit)
  ]
]
