-- ===== src/Serving/Rows.antt =====
-- What a load of src/eo_event_platform/serving/postgres_loader.py does to the rows of the table.
use mathlib.Core.Path.{subst}
use mathlib.Core.List.{append-nil, append_assoc}
use nasa_earth_observation_e.Prelude.{
  ℕ, suc, ◌+◌, true, false, ◌⊎◌, List, [], ◌∷◌, ◌++◌, length, any, any-append, All, ◌≡◌, refl, sym,
  ◌∙◌, inl, inr, arith, Bool-cases,
}
use nasa_earth_observation_e.Text.{Text, text_eq}
use nasa_earth_observation_e.Text.Equality.{text_eq_iff, text_eq_refl}
use nasa_earth_observation_e.Serving.{
  Staged, EventDetail, has_id, is_conflict, has_conflict, row_of, insert_events,
}

-- A row that a staged row gives.
abbrev pub IsRowOf : List Staged → EventDetail → Type 0
IsRowOf [] e = ⊥
IsRowOf (s ∷ staged) e = (e ≡ row_of s) ⊎ IsRowOf staged e

-- What the rows of a load have added to the table.
pub record IsInserted (staged : List Staged) (events : List EventDetail) (n : ℕ)
    (r : List EventDetail × ℕ) : Type 0 where
  pub new : List EventDetail
  pub kept : r.0 ≡ events ++ new
  pub count : r.1 ≡ n + length new
  pub rows : All (IsRowOf staged) new
  pub absent : All (λ (e : EventDetail). has_id e.event_id events ≡ false) new
  pub present : All (λ (s : Staged). has_id s.event_id r.0 ≡ true) staged

has_id-append :
    (id : Text) (xs ys : List EventDetail) → has_id id xs ≡ true → has_id id (xs ++ ys) ≡ true
has_id-append id xs ys h = rw (any-append (λ e. text_eq e.event_id id) xs ys, h) refl

has_id-append_false :
    (id : Text) (xs ys : List EventDetail) → has_id id (xs ++ ys) ≡ false → has_id id xs ≡ false
has_id-append_false id xs ys h = ground (arith, h, any-append (λ e. text_eq e.event_id id) xs ys)

weaken-rows :
    (s : Staged) (staged : List Staged) (new : List EventDetail)
    → All (IsRowOf staged) new
    → All (IsRowOf (s ∷ staged)) new
weaken-rows s staged [] h = tt
weaken-rows s staged (e ∷ new) (from, h) = (inr from, weaken-rows s staged new h)

weaken-absent :
    (events more new : List EventDetail)
    → All (λ (e : EventDetail). has_id e.event_id (events ++ more) ≡ false) new
    → All (λ (e : EventDetail). has_id e.event_id events ≡ false) new
weaken-absent events more [] h = tt
weaken-absent events more (e ∷ new) (away, h) =
    (has_id-append_false e.event_id events more away, weaken-absent events more new h)

already-IsInserted :
    (s : Staged) (staged : List Staged) (events : List EventDetail) (n : ℕ)
    (r : List EventDetail × ℕ)
    → has_id s.event_id events ≡ true
    → IsInserted staged events n r
    → IsInserted (s ∷ staged) events n r
already-IsInserted s staged events n r there i = record {
  new = i.new;
  kept = i.kept;
  count = i.count;
  rows = weaken-rows s staged i.new i.rows;
  absent = i.absent;
  present = (
    subst (λ rows. has_id s.event_id rows ≡ true) (sym i.kept)
        (has_id-append s.event_id events i.new there),
    i.present,
  );
}

new-IsInserted :
    (s : Staged) (staged : List Staged) (events : List EventDetail) (n : ℕ)
    (r : List EventDetail × ℕ)
    → has_id s.event_id events ≡ false
    → IsInserted staged (events ++ row_of s ∷ []) (suc n) r
    → IsInserted (s ∷ staged) events n r
new-IsInserted s staged events n r away i =
    let there : has_id s.event_id (events ++ row_of s ∷ []) ≡ true = ground (
      arith,
      any-append (λ e. text_eq e.event_id s.event_id) events (row_of s ∷ []),
      text_eq_refl s.event_id,
    ) in
    record {
      new = row_of s ∷ i.new;
      kept = i.kept ∙ append_assoc events (row_of s ∷ []) i.new;
      count = omega (arith, i.count);
      rows = (inl refl, weaken-rows s staged i.new i.rows);
      absent = (away, weaken-absent events (row_of s ∷ []) i.new i.absent);
      present = (
        subst (λ rows. has_id s.event_id rows ≡ true) (sym i.kept)
            (has_id-append s.event_id (events ++ row_of s ∷ []) i.new there),
        i.present,
      );
    }

pub insert_events-IsInserted :
    (staged : List Staged) (events : List EventDetail) (n : ℕ)
    → IsInserted staged events n (insert_events staged events n)
unfolding insert_events
insert_events-IsInserted [] events n = record {
  new = [];
  kept = sym (append-nil events);
  count = omega arith;
  rows = tt;
  absent = tt;
  present = tt;
}
insert_events-IsInserted (s ∷ staged) events n = elim (Bool-cases (has_id s.event_id events)) [
  | inl there ↦
      rw (insert_events, there)
        (already-IsInserted s staged events n _ there (insert_events-IsInserted staged events n))
  | inr absent ↦
      rw (insert_events, absent)
        (new-IsInserted s staged events n _ absent
          (insert_events-IsInserted staged (events ++ row_of s ∷ []) (suc n)))
]

-- No row of the table has the identity of a staged row and another hash.
abbrev pub Agrees : List EventDetail → Staged → Type 0
Agrees events s =
    All
      (λ (e : EventDetail).
        e.event_id ≡ s.event_id → e.governed_content_hash ≡ s.governed_content_hash)
      events

any-conflict :
    (s : Staged) (events : List EventDetail) → any (is_conflict s) events ≡ false → Agrees events s
any-conflict s [] h = tt
any-conflict s (e ∷ events) h = (
  λ same. ground (
    arith,
    h,
    same,
    text_eq_iff e.event_id s.event_id,
    text_eq_iff e.governed_content_hash s.governed_content_hash,
  ),
  any-conflict s events (ground (arith, h)),
)

pub has_conflict_lem :
    (staged : List Staged) (events : List EventDetail)
    → has_conflict staged events ≡ false
    → All (Agrees events) staged
has_conflict_lem [] events h = tt
has_conflict_lem (s ∷ staged) events h =
    (any-conflict s events (ground (arith, h)), has_conflict_lem staged events (ground (arith, h)))
