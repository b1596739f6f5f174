-- ===== src/Api/Aggregate.antt =====
-- `cached_aggregate` of src/eo_event_platform/api/app.py, over the cache of
-- src/eo_event_platform/api/cache.py, and the key of a request there. SHA-256 and the model's JSON are
-- parameters; what the loader and the model's validation give is part of a request.
pub mod Fresh
use nasa_earth_observation_e.Prelude.{
  ℕ, ◌+◌, String, Bool, true, false, Option, none, some, List, [], ◌∷◌, if◌then◌else◌, Result, ok,
  raise,
}
use Prim.Native.String.{◌++◌}
use nasa_earth_observation_e.Prelude.Int.{ℤ}
use nasa_earth_observation_e.Text.{Text}
use nasa_earth_observation_e.Json.{Flat, dumps}
use nasa_earth_observation_e.Cache.{Cache, bytes, get, set}
use nasa_earth_observation_e.Cache.Control.{cache_bypassed}

unfoldable pub deterministic_cache_key : (Text → String) → String → Flat → String
deterministic_cache_key sha256 namespace query =
    "astrayan-api:v1:" ++ namespace ++ ":" ++ sha256 (dumps query)

-- A request for an aggregate, with the clock's readings at its read and its write of the cache, and with
-- what the database gives it, validated.
pub record Request (E A : Type 0) : Type 0 where
  pub cache_control : Option Text
  pub namespace : String
  pub filters : Flat
  pub read_at : ℕ
  pub written_at : ℕ
  pub loaded : Result E A

abbrev pub key_of : {E A : Type 0} → (Text → String) → Request E A → String
key_of sha256 request = deterministic_cache_key sha256 request.namespace request.filters

module _ {A : Type 0} (validate_json : List ℕ → Option A) where
  -- `model_validate_json` of what was cached.
  abbrev pub validated : Option (List ℕ) → Option A
  validated none = none
  validated (some cached) = validate_json cached

  -- The first `try`: an error, of the cache or of the validation, is logged and nothing is found.
  unfoldable pub read_cached : String → ℕ → Cache → Option A × Cache
  read_cached key now cache = elim (get key now cache) [
    | raise e ↦ (none, cache)
    | ok r ↦ (validated r.0, r.1)
  ]

-- The second `try`: an error is logged.
unfoldable pub write_cached : {A : Type 0} → (A → List ℕ) → ℤ → String → ℕ → A → Cache → Cache
write_cached dump_json ttl key now result cache =
    elim (set key (bytes (dump_json result)) ttl now cache) [ raise e ↦ cache | ok r ↦ r.1 ]

module _ {E A : Type 0} (sha256 : Text → String) (dump_json : A → List ℕ)
    (validate_json : List ℕ → Option A) (ttl : ℤ) where
  -- What follows the loader and the validation of what it gives.
  abbrev pub keep_loaded : Request E A → Result E A → Cache → Result E A × Cache
  keep_loaded request (raise e) cache = (raise e, cache)
  keep_loaded request (ok result) cache = (
    ok result,
    write_cached dump_json ttl (key_of sha256 request) request.written_at result cache,
  )

  abbrev pub or_load : Request E A → Option A × Cache → Result E A × Cache
  or_load request (none, cache) = keep_loaded request request.loaded cache
  or_load request (some result, cache) = (ok result, cache)

  unfoldable pub cached_aggregate : Request E A → Cache → Result E A × Cache
  cached_aggregate request cache =
      if cache_bypassed request.cache_control
      then (request.loaded, cache)
      else or_load request (read_cached validate_json (key_of sha256 request) request.read_at cache)

  -- The cache after requests.
  unfoldable pub serve_all : List (Request E A) → Cache → Cache
  serve_all [] cache = cache
  serve_all (request ∷ requests) cache = serve_all requests (cached_aggregate request cache).1
