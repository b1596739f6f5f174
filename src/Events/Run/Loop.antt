-- ===== src/Events/Run/Loop.antt =====
-- The loop over the rows of a canonicalization run.
use nasa_earth_observation_e.Prelude.{
  ℕ, suc, ◌+◌, true, false, ◌||◌, List, [], ◌∷◌, ◌++◌, length, length-append, ◌≡◌, refl, sym, ap,
  ◌∙◌, arith, All, All-append, Bool-cases, inl, inr, map,
}
use nasa_earth_observation_e.Text.{Text, text_eq}
use nasa_earth_observation_e.Text.Equality.{text_eq_comm}
use nasa_earth_observation_e.Events.Canonical.{
  Lineage, CanonicalEvent, RowOutcome, rejected, accepted,
}
use nasa_earth_observation_e.Events.Run.{Duplicate, Batches, duplicate_of, is_seen, place}

-- The rows that were placed.
abbrev pub placed : Batches → ℕ
placed b = length b.accepted_events + length b.rejected_rows + length b.duplicates

pub place-placed :
    (lineage : Lineage) (n : ℕ) (outcome : RowOutcome) (b : Batches)
    → placed (place lineage n outcome b) ≡ suc (placed b)
unfolding place
place-placed lineage n (rejected r) b = omega (arith, length-append b.rejected_rows (r ∷ []))
place-placed lineage n (accepted e) b = ground (
  arith,
  length-append b.accepted_events (e ∷ []),
  length-append b.duplicates (duplicate_of lineage n e ∷ []),
)

-- No text twice.
abbrev pub IsDistinct : List Text → Type 0
IsDistinct [] = Unit
IsDistinct (id ∷ ids) = (is_seen id ids ≡ false) × IsDistinct ids

abbrev pub ids : List CanonicalEvent → List Text
ids events = map (λ e. e.event_id) events

is_seen_snoc :
    (id other : Text) (xs : List Text)
    → is_seen id (xs ++ other ∷ []) ≡ (is_seen id xs || text_eq other id)
is_seen_snoc id other [] = ground arith
is_seen_snoc id other (x ∷ xs) = ground (arith, is_seen_snoc id other xs)

IsDistinct-snoc :
    (xs : List Text) (id : Text)
    → IsDistinct xs
    → is_seen id xs ≡ false
    → IsDistinct (xs ++ id ∷ [])
IsDistinct-snoc [] id h new = (refl, tt)
IsDistinct-snoc (x ∷ xs) id h new = (
  rw (is_seen_snoc x id xs) (ground (arith, text_eq_comm x id)),
  IsDistinct-snoc xs id h.1 (ground arith),
)

ids_snoc :
    (es : List CanonicalEvent) (e : CanonicalEvent) → ids (es ++ e ∷ []) ≡ ids es ++ e.event_id ∷ []
ids_snoc [] e = refl
ids_snoc (x ∷ es) e = ap (λ l. x.event_id ∷ l) (ids_snoc es e)

-- The invariant of the loop: the set holds the accepted identities, which are distinct, and a
-- duplicate repeats one of them.
pub record IsDeduplicated (b : Batches) : Type 0 where
  pub seen : (id : Text) → is_seen id b.seen_event_ids ≡ is_seen id (ids b.accepted_events)
  pub distinct : IsDistinct (ids b.accepted_events)
  pub repeated : All (λ d. is_seen d.event_id (ids b.accepted_events) ≡ true) b.duplicates

still_repeated :
    (ds : List Duplicate) (xs : List Text) (id : Text)
    → All (λ d. is_seen d.event_id xs ≡ true) ds
    → All (λ d. is_seen d.event_id (xs ++ id ∷ []) ≡ true) ds
still_repeated [] xs id h = tt
still_repeated (d ∷ ds) xs id h =
    (rw (is_seen_snoc d.event_id id xs) (ground arith), still_repeated ds xs id h.1)

place_new :
    (lineage : Lineage) (n : ℕ) (e : CanonicalEvent) (b : Batches)
    → is_seen e.event_id b.seen_event_ids ≡ false
    → place lineage n (accepted e) b ≡ record b {
      seen_event_ids = e.event_id ∷ b.seen_event_ids;
      accepted_events = b.accepted_events ++ e ∷ [];
    }
unfolding place
place_new lineage n e b h = rw h

place_old :
    (lineage : Lineage) (n : ℕ) (e : CanonicalEvent) (b : Batches)
    → is_seen e.event_id b.seen_event_ids ≡ true
    → place lineage n (accepted e) b
      ≡ record b { duplicates = b.duplicates ++ duplicate_of lineage n e ∷ [] }
unfolding place
place_old lineage n e b h = rw h

pub place-IsDeduplicated :
    (lineage : Lineage) (n : ℕ) (outcome : RowOutcome) (b : Batches)
    → IsDeduplicated b
    → IsDeduplicated (place lineage n outcome b)
place-IsDeduplicated lineage n (rejected r) b i =
    unfold place in record { seen = i.seen; distinct = i.distinct; repeated = i.repeated }
place-IsDeduplicated lineage n (accepted e) b i =
    elim (Bool-cases (is_seen e.event_id b.seen_event_ids)) [
      | inl old ↦ rw (place_old lineage n e b old) (record {
        seen = i.seen;
        distinct = i.distinct;
        repeated =
            All-append _ b.duplicates (duplicate_of lineage n e ∷ []) i.repeated
              (sym (i.seen e.event_id) ∙ old, tt);
      })
      | inr new ↦ rw (place_new lineage n e b new) (record {
        seen = λ id.
            rw
              (
                ids_snoc b.accepted_events e,
                is_seen_snoc id e.event_id (ids b.accepted_events),
                ← i.seen id,
              )
              (ground arith);
        distinct = rw (ids_snoc b.accepted_events e) (
            IsDistinct-snoc (ids b.accepted_events) e.event_id i.distinct
              (sym (i.seen e.event_id) ∙ new));
        repeated =
            rw (ids_snoc b.accepted_events e)
              (still_repeated b.duplicates (ids b.accepted_events) e.event_id i.repeated);
      })
    ]
