-- ===== src/Api/Pages/Following.antt =====
-- A client that follows the cursors of src/eo_event_platform/api/repository.py from page to page.
use mathlib.Core.Path.{subst}
use mathlib.Core.List.{append_assoc, map-append}
use nasa_earth_observation_e.Prelude.{
  ℕ, zero, suc, ◌+◌, ◌-◌, ◌≤◌, ◌<◌, Bool, true, false, Option, none, some, List, [], ◌∷◌, ◌++◌,
  length, take, filter, map, ltb, Result, ok, raise, All, ◌≡◌, refl, sym, ap, ◌∙◌, inl, inr, arith,
  length-append, item_at, Bool-cases,
}
use nasa_earth_observation_e.Text.{Text, is_empty}
use nasa_earth_observation_e.Json.{Flat, dumps}
use nasa_earth_observation_e.Api.Cursor.{payload_of, encode_cursor, decode_cursor}
use nasa_earth_observation_e.Api.Cursor.RoundTrip.{decode_cursor-encode_cursor}
use nasa_earth_observation_e.Api.Pages.{
  DatabaseError, RepositoryError, EventRow, FeatureCollection, Feature, LineageResult, key_of,
  feature_of, cut_page, fetch_page, bbox, lineage,
}
use nasa_earth_observation_e.Api.Pages.Cuts.{
  at_member, IsOrdered, later_rows, filter-behind, cut_page-last, cut_page-more,
}

-- A client reads the pages until there is no further cursor, or `none` where a page is refused or
-- after so many pages.
pub follow {ℓ} :
    {B : Type ℓ}
    → (Option Text → Result RepositoryError (List B × Option Text))
    → ℕ
    → Option Text
    → Option (List B)
follow step zero cursor = none
follow step (suc fuel) cursor = elim (step cursor) [
  | raise e ↦ none
  | ok page ↦ elim page.1 [
    | none ↦ some page.0
    | some next ↦ elim (follow step fuel (some next)) [
      | none ↦ none
      | some later ↦ some (page.0 ++ later)
    ]
  ]
]

append_behind {ℓ} :
    {A : Type ℓ} (front : List A) (x : A) (back : List A)
    → (front ++ x ∷ []) ++ back ≡ front ++ x ∷ back
append_behind [] x back = refl
append_behind (y ∷ front) x back = ap (λ rest. y ∷ rest) (append_behind front x back)

follow-last {ℓ} :
    {B : Type ℓ} (step : Option Text → Result RepositoryError (List B × Option Text)) (fuel : ℕ)
    (cursor : Option Text) (bs : List B)
    → step cursor ≡ ok (bs, none)
    → follow step (suc fuel) cursor ≡ some bs
unfolding follow
follow-last step fuel cursor bs read = rw (follow, read) refl

follow-more {ℓ} :
    {B : Type ℓ} (step : Option Text → Result RepositoryError (List B × Option Text)) (fuel : ℕ)
    (cursor : Option Text) (bs later : List B) (next : Text)
    → step cursor ≡ ok (bs, some next)
    → follow step fuel (some next) ≡ some later
    → follow step (suc fuel) cursor ≡ some (bs ++ later)
unfolding follow
follow-more step fuel cursor bs later next read rest = rw (follow, read, rest) refl

module _ {Timestamp : Type 0} (isoformat : Timestamp → Text)
    (fromisoformat : Text → Option Timestamp) (is_aware : Timestamp → Bool)
    (loads : Text → Option Flat) (is_after : Timestamp × Text → EventRow Timestamp → Bool) where
  -- The cursor of a row can be read.
  pub record IsDecodable (row : EventRow Timestamp) : Type 0 where
    pub iso : fromisoformat (isoformat row.activity_timestamp) ≡ some row.activity_timestamp
    pub json :
        loads (dumps (payload_of isoformat row.activity_timestamp row.event_id))
        ≡ some (payload_of isoformat row.activity_timestamp row.event_id)
    pub aware : is_aware row.activity_timestamp ≡ true
    pub filled : is_empty row.event_id ≡ false

  -- What the query for a page answers of rows that have an order: the first of those behind the cursor.
  pub record IsTable
      (select_events : Option (Timestamp × Text)
        → ℕ
        → Result DatabaseError (List (EventRow Timestamp)))
      (rows : List (EventRow Timestamp)) : Type 0 where
    pub ordered : IsOrdered key_of is_after rows
    pub selected :
        (cursor : Option (Timestamp × Text)) (n : ℕ)
        → select_events cursor n ≡ ok (take n (later_rows key_of is_after cursor rows))
    pub decodable : All IsDecodable rows

  module _
      (select_events : Option (Timestamp × Text)
        → ℕ
        → Result DatabaseError (List (EventRow Timestamp)))
      (rows : List (EventRow Timestamp)) (table : IsTable select_events rows) {B : Type 0}
      (out : EventRow Timestamp → B) (limit : ℕ)
      (step : Option Text → Result RepositoryError (List B × Option Text))
      (agrees : (cursor : Option Text) (key : Option (Timestamp × Text))
          (page : List (EventRow Timestamp) × Option Text)
        → decode_cursor fromisoformat is_aware loads cursor ≡ ok key
        → fetch_page isoformat fromisoformat is_aware loads select_events key limit ≡ ok page
        → step cursor ≡ ok (map out page.0, page.1)) where
    decode-row :
        (row : EventRow Timestamp)
        → IsDecodable row
        → decode_cursor fromisoformat is_aware loads
            (some (encode_cursor isoformat row.activity_timestamp row.event_id))
          ≡ ok (some (key_of row))
    decode-row row h =
        decode_cursor-encode_cursor isoformat fromisoformat is_aware loads row.activity_timestamp
          row.event_id h.iso h.json h.aware h.filled

    step-page :
        (cursor : Option Text) (key : Option (Timestamp × Text)) (rest : List (EventRow Timestamp))
        (page : List (EventRow Timestamp) × Option Text)
        → decode_cursor fromisoformat is_aware loads cursor ≡ ok key
        → later_rows key_of is_after key rows ≡ rest
        → cut_page isoformat limit (take (limit + 1) rest) ≡ page
        → step cursor ≡ ok (map out page.0, page.1)
    step-page cursor key rest page decoded later cut =
        agrees cursor key page decoded (rw (table.selected key (limit + 1), later, cut) refl)

    -- A page that is not the last.
    follow-split :
        (fuel : ℕ) (seen front : List (EventRow Timestamp)) (row : EventRow Timestamp)
        (back : List (EventRow Timestamp)) (cursor : Option Text) (key : Option (Timestamp × Text))
        → rows ≡ seen ++ (front ++ row ∷ back)
        → limit ≡ length front + 1
        → limit < length (front ++ row ∷ back)
        → decode_cursor fromisoformat is_aware loads cursor ≡ ok key
        → later_rows key_of is_after key rows ≡ front ++ row ∷ back
        → (rows ≡ (seen ++ front ++ row ∷ []) ++ back
            → decode_cursor fromisoformat is_aware loads
                (some (encode_cursor isoformat row.activity_timestamp row.event_id))
              ≡ ok (some (key_of row))
            → later_rows key_of is_after (some (key_of row)) rows ≡ back
            → follow step fuel (some (encode_cursor isoformat row.activity_timestamp row.event_id))
              ≡ some (map out back))
        → follow step (suc fuel) cursor ≡ some (map out (front ++ row ∷ back))
    follow-split fuel seen front row [] cursor key place size many decoded later again =
        ground (arith, size, many, length-append front (row ∷ []))
    follow-split fuel seen front row (next ∷ back) cursor key place size many decoded later again =
        let cut =
          subst
            (λ n. cut_page isoformat n (take (n + 1) (front ++ row ∷ next ∷ back)) ≡ (
              front ++ row ∷ [],
              some (encode_cursor isoformat row.activity_timestamp row.event_id),
            ))
            (sym size) (cut_page-more isoformat front row next back) in
        let at : rows ≡ (seen ++ front) ++ row ∷ next ∷ back =
          place ∙ sym (append_assoc seen front (row ∷ next ∷ back)) in
        let decodable =
          at_member IsDecodable (seen ++ front) row (next ∷ back)
            (subst (All IsDecodable) at table.decodable) in
        let behind =
          ap (filter (is_after (key_of row))) at
          ∙ filter-behind key_of is_after (seen ++ front) row (next ∷ back)
              (subst (IsOrdered key_of is_after) at table.ordered) in
        let rest =
          again (at ∙ sym (append_behind (seen ++ front) row (next ∷ back)))
            (decode-row row decodable) behind in
        follow-more step fuel cursor (map out (front ++ row ∷ [])) (map out (next ∷ back))
          (encode_cursor isoformat row.activity_timestamp row.event_id)
          (step-page cursor key (front ++ row ∷ next ∷ back) _ decoded later cut) rest
        ∙ ap some (
            sym (map-append out (front ++ row ∷ []) (next ∷ back))
            ∙ ap (map out) (append_behind front row (next ∷ back)))

    follow-rest :
        (fuel : ℕ) (seen rest : List (EventRow Timestamp)) (cursor : Option Text)
        (key : Option (Timestamp × Text))
        → rows ≡ seen ++ rest
        → decode_cursor fromisoformat is_aware loads cursor ≡ ok key
        → later_rows key_of is_after key rows ≡ rest
        → 1 ≤ limit
        → length rest < fuel
        → follow step fuel cursor ≡ some (map out rest)
    follow-rest zero seen rest cursor key place decoded later positive enough =
        ground (arith, enough)
    follow-rest (suc fuel) seen rest cursor key place decoded later positive enough =
        elim (Bool-cases (ltb limit (length rest))) [
          | inr few ↦ follow-last step fuel cursor (map out rest) (
              step-page cursor key rest (rest, none) decoded later
                (cut_page-last isoformat limit rest (ground (arith, few))))
          | inl many ↦
              let (front, row, back, same, size) =
                item_at (limit - 1) rest (ground (arith, many, positive)) in
              let now = ap length same in
              subst (λ r. follow step (suc fuel) cursor ≡ some (map out r)) (sym same)
                (follow-split fuel seen front row back cursor key
                  (subst (λ r. rows ≡ seen ++ r) same place) (omega (arith, size, positive))
                  (ground (arith, many, now)) decoded (later ∙ same)
                  (λ place' decoded' later'.
                    follow-rest fuel (seen ++ front ++ row ∷ []) back
                      (some (encode_cursor isoformat row.activity_timestamp row.event_id))
                      (some (key_of row)) place' decoded' later' positive
                      (omega (arith, now, length-append front (row ∷ back), enough))))
        ]

map_same {ℓ} : {A : Type ℓ} (xs : List A) → map (λ x. x) xs ≡ xs
map_same [] = refl
map_same (x ∷ xs) = ap (λ rest. x ∷ rest) (map_same xs)

abbrev pub features_page :
    {Timestamp : Type 0}
    → Result RepositoryError (FeatureCollection Timestamp)
    → Result RepositoryError (List (Feature Timestamp) × Option Text)
features_page (raise e) = raise e
features_page (ok page) = ok (page.features, page.next_cursor)

abbrev pub events_page :
    {Timestamp Summary : Type 0}
    → Result RepositoryError (Option (LineageResult Timestamp Summary))
    → Result RepositoryError (List (EventRow Timestamp) × Option Text)
events_page (raise e) = raise e
events_page (ok none) = ok ([], none)
events_page (ok (some page)) = ok (page.events, page.next_cursor)

module _ {Timestamp : Type 0} (isoformat : Timestamp → Text)
    (fromisoformat : Text → Option Timestamp) (is_aware : Timestamp → Bool)
    (loads : Text → Option Flat)
    (select_events : Option (Timestamp × Text)
      → ℕ
      → Result DatabaseError (List (EventRow Timestamp)))
    (limit : ℕ) where
  abbrev pub bbox_page :
      Option Text → Result RepositoryError (List (Feature Timestamp) × Option Text)
  bbox_page cursor = features_page (
      bbox isoformat fromisoformat is_aware loads select_events
        (record { limit = limit; cursor = cursor }))

  abbrev pub lineage_page :
      {Summary : Type 0}
      → Result DatabaseError (Option Summary)
      → Option Text
      → Result RepositoryError (List (EventRow Timestamp) × Option Text)
  lineage_page select_summary cursor = events_page (
      lineage isoformat fromisoformat is_aware loads select_events select_summary
        (record { limit = limit; cursor = cursor }))

  -- Where the query answers with the first rows behind the cursor in an order of the rows, and the
  -- cursors of the rows can be read: a client that asks for pages of a positive limit, from the first
  -- and then with every `next_cursor`, comes to an end, and has every row of a bounding box, and of a
  -- lineage that has a summary, once and in order.
  pub follow-AllRows :
      {Summary : Type 0} (is_after : Timestamp × Text → EventRow Timestamp → Bool)
      (rows : List (EventRow Timestamp)) (select_summary : Result DatabaseError (Option Summary))
      (summary : Summary)
      → IsTable isoformat fromisoformat is_aware loads is_after select_events rows
      → select_summary ≡ ok (some summary)
      → 1 ≤ limit
      → (follow bbox_page (suc (length rows)) none ≡ some (map feature_of rows))
        × (follow (lineage_page select_summary) (suc (length rows)) none ≡ some rows)
  follow-AllRows is_after rows select_summary summary table summed positive = (
    follow-rest isoformat fromisoformat is_aware loads is_after select_events rows table feature_of
        limit bbox_page
        (λ cursor key page decoded read. unfold bbox in (rw (bbox, decoded, read) refl))
        (suc (length rows)) [] rows none none refl (unfold decode_cursor in refl) refl positive
        (omega arith),
    follow-rest isoformat fromisoformat is_aware loads is_after select_events rows table
          (λ row. row) limit (lineage_page select_summary)
          (λ cursor key page decoded read.
            unfold lineage in (rw (lineage, decoded, summed, read, map_same page.0) refl))
          (suc (length rows)) [] rows none none refl (unfold decode_cursor in refl) refl positive
          (omega arith)
        ∙ ap some (map_same rows),
  )
