-- ===== src/Cache/Kept.antt =====
-- A property of every item of the cache of src/eo_event_platform/api/cache.py, through its calls.
use nasa_earth_observation_e.Prelude.{
  ℕ, zero, suc, ◌+◌, String, ◌≡◌, sym, ◌∙◌, Bool, true, false, Option, some, List, [], ◌∷◌, length,
  drop, All, All-append, ltb, leb, ok, Bool-cases, Option-cases, inl, inr, arith, eq_iff, str_eq,
  ok-injective,
}
use mathlib.Core.Path.{subst}
use nasa_earth_observation_e.Prelude.Assoc.{lookup, erase}
use nasa_earth_observation_e.Prelude.Int.{ℤ, pos}
use nasa_earth_observation_e.Cache.{Entry, Cache, bytes, make, get, set}
use nasa_earth_observation_e.Cache.Bounds.{IsBounded, get_missing, get_expired, get_hit}
use nasa_earth_observation_e.Cache.Setting.{set_bytes-IsStored, set_bytes_rejected}
use nasa_earth_observation_e.Cache.Contents.{set_positive}

module _ {ℓ} (Q : String × Entry → Type ℓ) where
  All-erase : (k : String) (d : List (String × Entry)) → All Q d → All Q (erase k d)
  unfolding erase
  All-erase k [] h = tt
  All-erase k ((j, e) ∷ d) (first, h) = elim (Bool-cases (str_eq j k)) [
    | inl same ↦ rw (erase, same) h
    | inr other ↦ rw (erase, other) (first, All-erase k d h)
  ]

  All-drop : (n : ℕ) (d : List (String × Entry)) → All Q d → All Q (drop n d)
  All-drop zero d h = h
  All-drop (suc n) [] h = tt
  All-drop (suc n) (item ∷ d) (first, h) = All-drop n d h

  pub All-lookup :
      (k : String) (d : List (String × Entry)) (e : Entry)
      → All Q d
      → lookup k d ≡ some e
      → Q (k, e)
  unfolding lookup
  All-lookup k [] e h found = cc
  All-lookup k ((j, w) ∷ d) e (first, h) found = elim (Bool-cases (str_eq j k)) [
    | inl same ↦ subst Q (ground (arith, same, eq_iff j k, found)) first
    | inr other ↦ All-lookup k d e h (ground (arith, other, found))
  ]

  -- `get` keeps a property of the items.
  pub get-All :
      (k : String) (now : ℕ) (c : Cache) (r : Option (List ℕ) × Cache)
      → get k now c ≡ ok r
      → All Q c.entries
      → All Q r.1.entries
  get-All k now c r h kept = elim (Option-cases (lookup k c.entries)) [
    | inl missing ↦
        subst (λ s. All Q s.1.entries) (ok-injective (sym (get_missing k now c missing) ∙ h)) kept
    | inr (e, found) ↦ elim (Bool-cases (leb e.expires_at now)) [
      | inl old ↦
          subst (λ s. All Q s.1.entries) (ok-injective (sym (get_expired k now c e found old) ∙ h))
            (All-erase k c.entries kept)
      | inr fresh ↦
          subst (λ s. All Q s.1.entries) (ok-injective (sym (get_hit k now c e found fresh) ∙ h))
            (All-append Q (erase k c.entries) ((k, e) ∷ []) (All-erase k c.entries kept)
              (All-lookup k c.entries e kept found, tt))
    ]
  ]

  -- So does `set`, where the new item has it.
  pub set-All :
      (k : String) (value : List ℕ) (ttl now : ℕ) (c : Cache)
      → IsBounded c
      → All Q c.entries
      → Q (k, record { value = value; expires_at = now + suc ttl })
      → (r : Bool × Cache) × (set k (bytes value) (pos (suc ttl)) now c ≡ ok r)
        × IsBounded r.1
        × All Q r.1.entries
  set-All k value ttl now c b kept new = elim (Bool-cases (ltb c.max_entry_bytes (length value))) [
    | inl large ↦ (
      (false, record c { rejected_entries = c.rejected_entries + 1 }),
      set_positive k value ttl now c
          ∙ set_bytes_rejected k value (suc ttl) now c b (ground (arith, large)),
      ground (arith, b),
      kept,
    )
    | inr small ↦
        let (c', done, stored) =
          set_bytes-IsStored k value (suc ttl) now c b (ground (arith, small)) in
        (
          (true, c'),
          set_positive k value ttl now c ∙ done,
          stored.bounded,
          subst (All Q) (sym stored.items) (
              All-append Q (drop stored.evicted (erase k c.entries)) _
                (All-drop stored.evicted (erase k c.entries) (All-erase k c.entries kept))
                (new, tt)),
        )
  ]

-- A new cache has no items.
pub make-entries :
    (entries entry_bytes total_bytes : ℤ) (c : Cache)
    → make entries entry_bytes total_bytes ≡ ok c
    → c.entries ≡ []
unfolding make
make-entries entries entry_bytes total_bytes c h = ground arith
