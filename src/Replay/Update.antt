-- ===== src/Replay/Update.antt =====
-- `dict.update`: what a key holds afterwards, and which keys are there.
use nasa_earth_observation_e.Prelude.{
  String, Bool, true, false, ◌||◌, Option, none, some, List, [], ◌∷◌, if◌then◌else◌, ◌≡◌, refl,
  arith, str_eq, any,
}
use nasa_earth_observation_e.Prelude.Assoc.{lookup, insert, lookup-insert}

module _ {ℓ} {V : Type ℓ} where
  -- d.update(changes)
  unfoldable pub update : List (String × V) → List (String × V) → List (String × V)
  update d [] = d
  update d ((k, v) ∷ changes) = update (insert k v d) changes

  -- What the changes leave at a key: the last of its values.
  abbrev pub last_value : String → List (String × V) → Option V
  last_value j [] = none
  last_value j ((k, v) ∷ changes) = elim (last_value j changes) [
    | some w ↦ some w
    | none ↦ if str_eq k j then some v else none
  ]

  abbrev pub or_else : Option V → Option V → Option V
  or_else (some v) other = some v
  or_else none other = other

  pub lookup-update :
      (j : String) (d changes : List (String × V))
      → lookup j (update d changes) ≡ or_else (last_value j changes) (lookup j d)
  unfolding update
  lookup-update j d [] = refl
  lookup-update j d ((k, v) ∷ changes) =
      ground (arith, lookup-update j (insert k v d) changes, lookup-insert k j v d)

  -- key in d
  abbrev pub has : String → List (String × V) → Bool
  has k d = elim (lookup k d) [ none ↦ false | some v ↦ true ]

  abbrev pub is_some : Option V → Bool
  is_some none = false
  is_some (some v) = true

  abbrev pub names : List (String × V) → List String
  names [] = []
  names ((k, v) ∷ d) = k ∷ names d

  pub is_some-last_value :
      (j : String) (changes : List (String × V))
      → is_some (last_value j changes) ≡ any (λ k. str_eq k j) (names changes)
  is_some-last_value j [] = refl
  is_some-last_value j ((k, v) ∷ changes) = ground (arith, is_some-last_value j changes)

  pub has-lookup : (j : String) (d : List (String × V)) → has j d ≡ any (λ k. str_eq k j) (names d)
  unfolding lookup
  has-lookup j [] = refl
  has-lookup j ((k, v) ∷ d) = ground (arith, has-lookup j d)

  -- Exactly the keys of the object and those of the changes are there.
  pub has-update :
      (j : String) (d changes : List (String × V))
      → has j (update d changes) ≡ (any (λ k. str_eq k j) (names changes) || has j d)
  has-update j d changes = ground (arith, lookup-update j d changes, is_some-last_value j changes)
