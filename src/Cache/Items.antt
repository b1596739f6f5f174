-- ===== src/Cache/Items.antt =====
-- The items of the cache (the `OrderedDict` of src/eo_event_platform/api/cache.py): distinct keys,
-- and what the items hold in bytes.
use nasa_earth_observation_e.Prelude.{
  ℕ, zero, suc, ◌+◌, ◌≤◌, String, ◌≡◌, refl, sym, ◌≢◌, none, some, List, [], ◌∷◌, ◌++◌, arith,
  eq_iff, All, length, drop,
}
use nasa_earth_observation_e.Prelude.Assoc.{lookup, insert, erase}
use nasa_earth_observation_e.Cache.{Entry}

abbrev pub size_of : List (String × Entry) → ℕ
size_of [] = 0
size_of ((k, e) ∷ d) = length e.value + size_of d

-- The key is not among the items.
abbrev pub IsFresh : String → List (String × Entry) → Type 0
IsFresh k d = All (λ item. item.0 ≢ k) d

abbrev pub HasDistinctKeys : List (String × Entry) → Type 0
HasDistinctKeys [] = Unit
HasDistinctKeys ((k, e) ∷ d) = IsFresh k d × HasDistinctKeys d

abbrev pub Fits : ℕ → List (String × Entry) → Type 0
Fits bound d = All (λ item. length item.1.value ≤ bound) d

pub IsFresh-erase : (j k : String) (d : List (String × Entry)) → IsFresh j d → IsFresh j (erase k d)
unfolding erase
IsFresh-erase j k [] h = tt
IsFresh-erase j k ((i, e) ∷ d) h = ground (arith, IsFresh-erase j k d h.1)

pub HasDistinctKeys-erase :
    (k : String) (d : List (String × Entry)) → HasDistinctKeys d → HasDistinctKeys (erase k d)
unfolding erase
HasDistinctKeys-erase k [] h = tt
HasDistinctKeys-erase k ((i, e) ∷ d) h =
    ground (arith, HasDistinctKeys-erase k d h.1, IsFresh-erase i k d h.0)

pub Fits-erase :
    (bound : ℕ) (k : String) (d : List (String × Entry)) → Fits bound d → Fits bound (erase k d)
unfolding erase
Fits-erase bound k [] h = tt
Fits-erase bound k ((i, e) ∷ d) h = ground (arith, Fits-erase bound k d h.1)

pub IsFresh-erase_self :
    (k : String) (d : List (String × Entry)) → HasDistinctKeys d → IsFresh k (erase k d)
unfolding erase
IsFresh-erase_self k [] h = tt
IsFresh-erase_self k ((i, e) ∷ d) h = ground (arith, IsFresh-erase_self k d h.1, eq_iff i k)

pub IsFresh-of_lookup : (k : String) (d : List (String × Entry)) → lookup k d ≡ none → IsFresh k d
unfolding lookup
IsFresh-of_lookup k [] h = tt
IsFresh-of_lookup k ((i, e) ∷ d) h = ground (arith, IsFresh-of_lookup k d, eq_iff i k)

pub lookup_of_IsFresh : (k : String) (d : List (String × Entry)) → IsFresh k d → lookup k d ≡ none
unfolding lookup
lookup_of_IsFresh k [] h = refl
lookup_of_IsFresh k ((i, e) ∷ d) h = ground (arith, lookup_of_IsFresh k d h.1, eq_iff i k)

pub size_of-erase :
    (k : String) (d : List (String × Entry)) (e : Entry)
    → lookup k d ≡ some e
    → (size_of (erase k d) + length e.value ≡ size_of d) × (length (erase k d) + 1 ≡ length d)
unfolding lookup erase
size_of-erase k ((i, w) ∷ d) e h = ground (arith, size_of-erase k d e)
size_of-erase k [] e h = ground arith

pub Fits-lookup :
    (bound : ℕ) (k : String) (d : List (String × Entry)) (e : Entry)
    → Fits bound d
    → lookup k d ≡ some e
    → length e.value ≤ bound
unfolding lookup
Fits-lookup bound k ((i, w) ∷ d) e f h = ground (arith, Fits-lookup bound k d e f.1)
Fits-lookup bound k [] e f h = ground arith

-- A fresh key is put at the end.
pub insert_fresh :
    (k : String) (e : Entry) (d : List (String × Entry))
    → IsFresh k d
    → insert k e d ≡ d ++ (k, e) ∷ []
unfolding insert
insert_fresh k e [] h = refl
insert_fresh k e ((i, w) ∷ d) h = ground (arith, insert_fresh k e d h.1, eq_iff i k)

IsFresh-snoc :
    (j k : String) (e : Entry) (d : List (String × Entry))
    → k ≢ j
    → IsFresh j d
    → IsFresh j (d ++ (k, e) ∷ [])
IsFresh-snoc j k e [] ne h = (ne, tt)
IsFresh-snoc j k e ((i, w) ∷ d) ne h = (h.0, IsFresh-snoc j k e d ne h.1)

pub HasDistinctKeys-snoc :
    (k : String) (e : Entry) (d : List (String × Entry))
    → HasDistinctKeys d
    → IsFresh k d
    → HasDistinctKeys (d ++ (k, e) ∷ [])
HasDistinctKeys-snoc k e [] h f = (tt, tt)
HasDistinctKeys-snoc k e ((i, w) ∷ d) h f =
    (IsFresh-snoc i k e d (λ p. f.0 (sym p)) h.0, HasDistinctKeys-snoc k e d h.1 f.1)

pub Fits-snoc :
    (bound : ℕ) (k : String) (e : Entry) (d : List (String × Entry))
    → Fits bound d
    → length e.value ≤ bound
    → Fits bound (d ++ (k, e) ∷ [])
Fits-snoc bound k e [] h f = (f, tt)
Fits-snoc bound k e ((i, w) ∷ d) h f = (h.0, Fits-snoc bound k e d h.1 f)

pub size_of_snoc :
    (k : String) (e : Entry) (d : List (String × Entry))
    → (size_of (d ++ (k, e) ∷ []) ≡ size_of d + length e.value)
      × (length (d ++ (k, e) ∷ []) ≡ length d + 1)
size_of_snoc k e [] = omega arith
size_of_snoc k e ((i, w) ∷ d) = omega (arith, size_of_snoc k e d)

pub erase_missing : (k : String) (d : List (String × Entry)) → lookup k d ≡ none → erase k d ≡ d
unfolding lookup erase
erase_missing k [] h = refl
erase_missing k ((i, w) ∷ d) h = ground (arith, erase_missing k d)

pub IsFresh-drop :
    (k : String) (n : ℕ) (d : List (String × Entry)) → IsFresh k d → IsFresh k (drop n d)
IsFresh-drop k zero d h = h
IsFresh-drop k (suc n) [] h = tt
IsFresh-drop k (suc n) (x ∷ d) h = IsFresh-drop k n d h.1

pub HasDistinctKeys-drop :
    (n : ℕ) (d : List (String × Entry)) → HasDistinctKeys d → HasDistinctKeys (drop n d)
HasDistinctKeys-drop zero d h = h
HasDistinctKeys-drop (suc n) [] h = tt
HasDistinctKeys-drop (suc n) ((k, e) ∷ d) h = HasDistinctKeys-drop n d h.1

pub Fits-drop : (bound n : ℕ) (d : List (String × Entry)) → Fits bound d → Fits bound (drop n d)
Fits-drop bound zero d h = h
Fits-drop bound (suc n) [] h = tt
Fits-drop bound (suc n) (x ∷ d) h = Fits-drop bound n d h.1
