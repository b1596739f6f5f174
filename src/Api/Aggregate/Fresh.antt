-- ===== src/Api/Aggregate/Fresh.antt =====
-- What the cached aggregates of src/eo_event_platform/api/app.py give.
use mathlib.Core.Path.{subst}
use mathlib.Core.Option.{some-injective}
use mathlib.Core.List.{append-nil, append_assoc}
use nasa_earth_observation_e.Prelude.{
  ℕ, zero, suc, ◌+◌, ◌<◌, String, false, Option, none, some, List, [], ◌∷◌, ◌++◌, All, length,
  get_elem?, Result, ok, raise, ◌≡◌, refl, sym, ap, ◌∙◌, ◌⊎◌, inl, inr, Bool-cases,
  get_elem?-append, arith,
}
use nasa_earth_observation_e.Prelude.Int.{ℤ, pos}
use nasa_earth_observation_e.Text.{Text}
use nasa_earth_observation_e.Cache.{Cache, Entry, make, get}
use nasa_earth_observation_e.Cache.Bounds.{IsBounded, make-IsBounded}
use nasa_earth_observation_e.Cache.Contents.{get-IsBounded, get_live}
use nasa_earth_observation_e.Cache.Kept.{All-lookup, get-All, set-All, make-entries}
use nasa_earth_observation_e.Cache.Control.{cache_bypassed}
use nasa_earth_observation_e.Api.Aggregate.{
  Request, key_of, read_cached, validated, write_cached, keep_loaded, or_load, cached_aggregate,
  serve_all,
}

get_elem?-more :
    {B : Type 0} (xs ys : List B) (i : ℕ) (x : B)
    → get_elem? xs i ≡ some x
    → get_elem? (xs ++ ys) i ≡ some x
get_elem?-more [] ys i x h = cc
get_elem?-more (y ∷ xs) ys zero x h = h
get_elem?-more (y ∷ xs) ys (suc i) x h = get_elem?-more xs ys i x h

module _ {E A : Type 0} (sha256 : Text → String) (dump_json : A → List ℕ)
    (validate_json : List ℕ → Option A) (ttl : ℕ) where
  -- An item of the cache that one of the requests wrote.
  record IsWritten (history : List (Request E A)) (item : String × Entry) : Type 0 where
    pub position : ℕ
    pub writer : Request E A
    pub result : A
    pub there : get_elem? history position ≡ some writer
    pub cached : cache_bypassed writer.cache_control ≡ false
    pub key : key_of sha256 writer ≡ item.0
    pub loaded : writer.loaded ≡ ok result
    pub value : item.1.value ≡ dump_json result
    pub expiry : item.1.expires_at ≡ writer.written_at + suc ttl

  -- The result of an earlier request of the same key, written less than a time to live ago.
  pub record IsRecent (history : List (Request E A)) (request : Request E A) (response : Result E A)
      : Type 0 where
    pub position : ℕ
    pub writer : Request E A
    pub there : get_elem? history position ≡ some writer
    pub cached : cache_bypassed writer.cache_control ≡ false
    pub key : key_of sha256 writer ≡ key_of sha256 request
    pub same : response ≡ writer.loaded
    pub succeeded : (result : A) × (writer.loaded ≡ ok result)
    pub live : request.read_at < writer.written_at + suc ttl
    pub asked : cache_bypassed request.cache_control ≡ false

  record IsKept (history : List (Request E A)) (cache : Cache) : Type 0 where
    pub bounded : IsBounded cache
    pub items : All (IsWritten history) cache.entries

  later :
      (history : List (Request E A)) (request : Request E A) (items : List (String × Entry))
      → All (IsWritten history) items
      → All (IsWritten (history ++ request ∷ [])) items
  later history request [] h = tt
  later history request (item ∷ items) (w, h) = (
    record {
      position = w.position;
      writer = w.writer;
      result = w.result;
      there = get_elem?-more history (request ∷ []) w.position w.writer w.there;
      cached = w.cached;
      key = w.key;
      loaded = w.loaded;
      value = w.value;
      expiry = w.expiry;
    },
    later history request items h,
  )

  -- The history grows by a request.
  extended :
      (history : List (Request E A)) (request : Request E A) (cache : Cache)
      → IsKept history cache
      → IsKept (history ++ request ∷ []) cache
  extended history request cache kept = record {
    bounded = kept.bounded;
    items = later history request cache.entries kept.items;
  }

  -- What a cached value was written for.
  Found : List (Request E A) → Request E A → Option A → Type 0
  Found history request none = Unit
  Found history request (some result) = IsRecent history request (ok result)

  recent :
      (history : List (Request E A)) (request : Request E A) (e : Entry) (cached : List ℕ)
      (result : A)
      → ((v : A) → validate_json (dump_json v) ≡ some v)
      → cache_bypassed request.cache_control ≡ false
      → IsWritten history (key_of sha256 request, e)
      → e.value ≡ cached
      → request.read_at < e.expires_at
      → validate_json cached ≡ some result
      → IsRecent history request (ok result)
  recent history request e cached result reads asked w same live valid =
      let stored : some result ≡ some w.result =
        sym valid ∙ ap validate_json (sym same ∙ w.value) ∙ reads w.result in
      record {
        position = w.position;
        writer = w.writer;
        there = w.there;
        cached = w.cached;
        key = w.key;
        same = ap ok (some-injective _ _ stored) ∙ sym w.loaded;
        succeeded = (w.result, w.loaded);
        live = omega (arith, live, w.expiry);
        asked = asked;
      }

  valid-Found :
      (history : List (Request E A)) (request : Request E A) (e : Entry) (cached : List ℕ)
      (result : Option A)
      → ((v : A) → validate_json (dump_json v) ≡ some v)
      → cache_bypassed request.cache_control ≡ false
      → IsWritten history (key_of sha256 request, e)
      → e.value ≡ cached
      → request.read_at < e.expires_at
      → validate_json cached ≡ result
      → Found history request result
  unfolding Found
  valid-Found history request e cached none reads asked w same live valid = tt
  valid-Found history request e cached (some result) reads asked w same live valid =
      recent history request e cached result reads asked w same live valid

  cached-Found :
      (history : List (Request E A)) (request : Request E A) (cache cache' : Cache)
      (cached : Option (List ℕ))
      → ((v : A) → validate_json (dump_json v) ≡ some v)
      → cache_bypassed request.cache_control ≡ false
      → IsKept history cache
      → get (key_of sha256 request) request.read_at cache ≡ ok (cached, cache')
      → Found history request (validated validate_json cached)
  unfolding Found
  cached-Found history request cache cache' none reads asked kept h = tt
  cached-Found history request cache cache' (some b) reads asked kept h =
      let (e, held, value, live, left) =
        get_live (key_of sha256 request) request.read_at cache cache' b h in
      valid-Found history request e b (validate_json b) reads asked
        (All-lookup (IsWritten history) (key_of sha256 request) cache.entries e kept.items held)
        value live refl

  -- What a request leaves, and what it answers.
  Serves : List (Request E A) → Request E A → Result E A × Cache → Type 0
  Serves history request served =
      ((served.0 ≡ request.loaded) ⊎ IsRecent history request served.0)
      × IsKept (history ++ request ∷ []) served.1

  written_item :
      (history : List (Request E A)) (request : Request E A) (result : A)
      → cache_bypassed request.cache_control ≡ false
      → request.loaded ≡ ok result
      → IsWritten (history ++ request ∷ []) (
        key_of sha256 request,
        record { value = dump_json result; expires_at = request.written_at + suc ttl },
      )
  written_item history request result asked loaded = record {
    position = length history;
    writer = request;
    result = result;
    there = get_elem?-append history request [];
    cached = asked;
    key = refl;
    loaded = loaded;
    value = refl;
    expiry = refl;
  }

  keep_loaded-Serves :
      (history : List (Request E A)) (request : Request E A) (outcome : Result E A) (cache : Cache)
      → cache_bypassed request.cache_control ≡ false
      → request.loaded ≡ outcome
      → IsKept history cache
      → Serves history request
          (keep_loaded sha256 dump_json validate_json (pos (suc ttl)) request outcome cache)
  unfolding Serves
  keep_loaded-Serves history request (raise e) cache asked loaded kept =
      (inl (sym loaded), extended history request cache kept)
  keep_loaded-Serves history request (ok result) cache asked loaded kept =
      let more = extended history request cache kept in
      let (r, done, bounded, items) =
        set-All (IsWritten (history ++ request ∷ [])) (key_of sha256 request) (dump_json result) ttl
          request.written_at cache more.bounded more.items
          (written_item history request result asked loaded) in
      unfold write_cached in
      (rw (write_cached, done) (inl (sym loaded), record { bounded = bounded; items = items }))

  or_load-Serves :
      (history : List (Request E A)) (request : Request E A) (hit : Option A) (cache : Cache)
      → cache_bypassed request.cache_control ≡ false
      → Found history request hit
      → IsKept history cache
      → Serves history request
          (or_load sha256 dump_json validate_json (pos (suc ttl)) request (hit, cache))
  unfolding Serves Found
  or_load-Serves history request none cache asked found kept =
      keep_loaded-Serves history request request.loaded cache asked refl kept
  or_load-Serves history request (some result) cache asked found kept =
      (inr found, extended history request cache kept)

  cached_aggregate-Serves :
      (history : List (Request E A)) (request : Request E A) (cache : Cache)
      → ((v : A) → validate_json (dump_json v) ≡ some v)
      → IsKept history cache
      → Serves history request
          (cached_aggregate sha256 dump_json validate_json (pos (suc ttl)) request cache)
  cached_aggregate-Serves history request cache reads kept =
      elim (Bool-cases (cache_bypassed request.cache_control)) [
        | inl bypassed ↦
            unfold cached_aggregate Serves in
            (rw (cached_aggregate, bypassed) (inl refl, extended history request cache kept))
        | inr asked ↦
            let ((cached, cache'), done, bounded) =
              get-IsBounded (key_of sha256 request) request.read_at cache kept.bounded in
            let items =
              get-All (IsWritten history) (key_of sha256 request) request.read_at cache
                (cached, cache') done kept.items in
            let found = cached-Found history request cache cache' cached reads asked kept done in
            unfold cached_aggregate read_cached in
            (rw (cached_aggregate, asked, read_cached, done)
              (or_load-Serves history request (validated validate_json cached) cache' asked found
                (record { bounded = bounded; items = items })))
      ]

  serve_all-IsKept :
      (history requests : List (Request E A)) (cache : Cache)
      → ((v : A) → validate_json (dump_json v) ≡ some v)
      → IsKept history cache
      → IsKept
          (history ++ requests)
          (serve_all sha256 dump_json validate_json (pos (suc ttl)) requests cache)
  unfolding serve_all Serves
  serve_all-IsKept history [] cache reads kept = rw (append-nil history) kept
  serve_all-IsKept history (request ∷ requests) cache reads kept =
      let next = cached_aggregate-Serves history request cache reads kept in
      subst
        (λ h.
          IsKept h
            (serve_all sha256 dump_json validate_json (pos (suc ttl)) (request ∷ requests) cache))
        (append_assoc history (request ∷ []) requests)
        (serve_all-IsKept (history ++ request ∷ []) requests
          (cached_aggregate sha256 dump_json validate_json (pos (suc ttl)) request cache).1 reads
          next.1)

  -- The answer to a request after others.
  abbrev pub served_after : List (Request E A) → Request E A → Cache → Result E A × Cache
  served_after earlier request cache =
      cached_aggregate sha256 dump_json validate_json (pos (suc ttl)) request
        (serve_all sha256 dump_json validate_json (pos (suc ttl)) earlier cache)

  -- Behind a cache that the constructor returned, and where the model reads back the JSON that was
  -- written of its results: after any requests, the next is answered with what the database gives it
  -- now, an error included, or with the result of one of those requests, of the same key and not
  -- bypassing the cache, that was written less than a time to live before. The cache is bounded.
  pub cached_aggregate-IsFresh :
      (entries entry_bytes total_bytes : ℤ) (cache : Cache) (earlier : List (Request E A))
      (request : Request E A)
      → make entries entry_bytes total_bytes ≡ ok cache
      → ((v : A) → validate_json (dump_json v) ≡ some v)
      → (((served_after earlier request cache).0 ≡ request.loaded)
          ⊎ IsRecent earlier request (served_after earlier request cache).0)
        × IsBounded (served_after earlier request cache).1
  unfolding Serves
  cached_aggregate-IsFresh entries entry_bytes total_bytes cache earlier request made reads =
      let empty : IsKept [] cache = record {
        bounded = make-IsBounded entries entry_bytes total_bytes cache made;
        items =
            subst (All (IsWritten []))
              (sym (make-entries entries entry_bytes total_bytes cache made)) tt;
      } in
      let kept = serve_all-IsKept [] earlier cache reads empty in
      let (answer, rest) =
        cached_aggregate-Serves earlier request
          (serve_all sha256 dump_json validate_json (pos (suc ttl)) earlier cache) reads kept in
      (answer, rest.bounded)
