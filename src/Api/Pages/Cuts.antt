-- ===== src/Api/Pages/Cuts.antt =====
-- Rows in an order, and how `lineage` and `bbox` of src/eo_event_platform/api/repository.py cut a page off.
use nasa_earth_observation_e.Prelude.{
  ℕ, ◌+◌, ◌-◌, ◌≤◌, Bool, true, false, Option, none, some, List, [], ◌∷◌, ◌++◌, length, take,
  filter, ltb, All, ◌≡◌, refl, ap, ◌∙◌, arith, length-append, take-all, take-append,
  get_elem?-append,
}
use nasa_earth_observation_e.Text.{Text}
use nasa_earth_observation_e.Api.Cursor.{encode_cursor}
use nasa_earth_observation_e.Api.Pages.{EventRow, cut_page}

pub at_member {ℓ κ} :
    {A : Type ℓ} (P : A → Type κ) (xs : List A) (r : A) (ys : List A) → All P (xs ++ r ∷ ys) → P r
at_member P [] r ys (h, k) = h
at_member P (x ∷ xs) r ys (h, k) = at_member P xs r ys k

two : (n : ℕ) → n + 1 + 1 ≡ n + 2
two n = omega arith

-- Rows in the order of a test: each is after those before it, and none is after itself or a later one.
module _ {ℓ} {K : Type 0} {A : Type ℓ} (key : A → K) (is_after : K → A → Bool) where
  abbrev pub IsOrdered : List A → Type ℓ
  IsOrdered [] = Unit
  IsOrdered (x ∷ xs) =
      All (λ y. is_after (key x) y ≡ true) xs
      × (is_after (key x) x ≡ false)
      × All (λ y. is_after (key y) x ≡ false) xs
      × IsOrdered xs

  abbrev pub later_rows : Option K → List A → List A
  later_rows none xs = xs
  later_rows (some k) xs = filter (is_after k) xs

  filter-all :
      (k : K) (xs : List A) → All (λ y. is_after k y ≡ true) xs → filter (is_after k) xs ≡ xs
  filter-all k [] h = refl
  filter-all k (x ∷ xs) (first, h) = rw (first, filter-all k xs h) refl

  -- What is after a row of the list is what stands behind it.
  pub filter-behind :
      (xs : List A) (r : A) (ys : List A)
      → IsOrdered (xs ++ r ∷ ys)
      → filter (is_after (key r)) (xs ++ r ∷ ys) ≡ ys
  filter-behind [] r ys (behind, itself, before, h) = rw itself (filter-all (key r) ys behind)
  filter-behind (x ∷ xs) r ys (behind, itself, before, h) =
      rw (at_member (λ y. is_after (key y) x ≡ false) xs r ys before) (filter-behind xs r ys h)

module _ {Timestamp : Type 0} (isoformat : Timestamp → Text) where
  pub cut_page-last :
      (limit : ℕ) (rows : List (EventRow Timestamp))
      → length rows ≤ limit
      → cut_page isoformat limit (take (limit + 1) rows) ≡ (rows, none)
  cut_page-last limit rows few =
      let whole = take-all (limit + 1) rows (omega (arith, few)) in
      let fits : ltb limit (length rows) ≡ false = ground (arith, few) in
      unfold cut_page in (rw (whole, fits) refl)

  pub cut_page-more :
      (front : List (EventRow Timestamp)) (row : EventRow Timestamp) (next : EventRow Timestamp)
      (back : List (EventRow Timestamp))
      → cut_page isoformat
          (length front + 1)
          (take (length front + 1 + 1) (front ++ row ∷ next ∷ back))
        ≡ (front ++ row ∷ [], some (encode_cursor isoformat row.activity_timestamp row.event_id))
  cut_page-more front row next back =
      let read : take (length front + 1 + 1) (front ++ row ∷ next ∷ back)
          ≡ front ++ row ∷ next ∷ [] =
        ap (λ n. take n (front ++ row ∷ next ∷ back)) (two (length front))
        ∙ take-append front (row ∷ next ∷ back) 2 in
      let size = length-append front (row ∷ next ∷ []) in
      let more : ltb (length front + 1) (length (front ++ row ∷ next ∷ [])) ≡ true =
        ground (arith, size) in
      let cut : take (length front + 1) (front ++ row ∷ next ∷ []) ≡ front ++ row ∷ [] =
        take-append front (row ∷ next ∷ []) 1 in
      let last : (length front + 1 - 1) ≡ length front = omega arith in
      unfold cut_page in (rw (read, more, cut, last, get_elem?-append front row (next ∷ [])) refl)
