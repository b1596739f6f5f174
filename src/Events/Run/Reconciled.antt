-- ===== src/Events/Run/Reconciled.antt =====
-- What a canonicalization run that succeeds has established.
use nasa_earth_observation_e.Prelude.{
  ℕ, suc, ◌+◌, String, ◌&&◌, Option, some, List, [], ◌∷◌, ◌++◌, if◌then◌else◌, length, ◌≡◌, refl,
  sym, ap, ◌∙◌, arith, leb, ltb, ◌==◌, Option-cases, inl, inr, Result, ok, Result-cases,
}
use mathlib.Core.Path.{subst}
use mathlib.Core.Option.{some-injective}
use nasa_earth_observation_e.Events.Clean.{Reading-cases}
use nasa_earth_observation_e.Prelude.Assoc.{lookup}
use nasa_earth_observation_e.Text.{Text}
use nasa_earth_observation_e.Text.Equality.{text_eq_iff}
use nasa_earth_observation_e.Text.Float.{Float}
use nasa_earth_observation_e.Json.{Flat}
use nasa_earth_observation_e.Events.Row.{Row}
use nasa_earth_observation_e.Events.Canonical.{
  Lineage, RejectedRow, CanonicalEvent, RowOutcome, rejected, accepted, Measured,
}
use nasa_earth_observation_e.Events.RowOutcome.{canonicalize_row, measure, decide, identify}
use nasa_earth_observation_e.Events.Run.{
  Duplicate, Batches, empty_batches, duplicate_of, place, canonicalize_rows, Counts,
  CanonicalizationError, Artifact, transform, process, canonicalize, as_number,
  load_and_validate_source_manifest, lineage_of, counts_of, as_text, success_manifest, events_file,
  rejected_file, duplicates_file,
}
use nasa_earth_observation_e.Events.Run.Loop.{
  placed, place-placed, IsDeduplicated, place-IsDeduplicated,
}

abbrev pub row_number : RowOutcome → ℕ
row_number (rejected r) = r.raw_row_number
row_number (accepted e) = e.raw_row_number

-- How often a row number stands in a list.
abbrev pub occurs {ℓ} : {A : Type ℓ} → (A → ℕ) → ℕ → List A → ℕ
occurs number k [] = 0
occurs number k (x ∷ xs) = (if number x == k then 1 else 0) + occurs number k xs

occurs-append {ℓ} :
    {A : Type ℓ} (number : A → ℕ) (k : ℕ) (xs ys : List A)
    → occurs number k (xs ++ ys) ≡ occurs number k xs + occurs number k ys
occurs-append number k [] ys = omega arith
occurs-append number k (x ∷ xs) ys = omega (arith, occurs-append number k xs ys)

-- In the three lists together.
abbrev pub occurrences : ℕ → Batches → ℕ
occurrences k b =
    occurs (λ e. e.raw_row_number) k b.accepted_events
    + occurs (λ r. r.raw_row_number) k b.rejected_rows
    + occurs (λ d. d.raw_row_number) k b.duplicates

place-occurrences :
    (lineage : Lineage) (n k : ℕ) (outcome : RowOutcome) (b : Batches)
    → row_number outcome ≡ n
    → occurrences k (place lineage n outcome b) ≡ occurrences k b + (if n == k then 1 else 0)
unfolding place
place-occurrences lineage n k (rejected r) b h =
    ground (arith, occurs-append (λ (x : RejectedRow). x.raw_row_number) k b.rejected_rows (r ∷ []))
place-occurrences lineage n k (accepted e) b h = ground (
  arith,
  occurs-append (λ (x : CanonicalEvent). x.raw_row_number) k b.accepted_events (e ∷ []),
  occurs-append (λ (x : Duplicate). x.raw_row_number) k b.duplicates
      (duplicate_of lineage n e ∷ []),
)

-- 1 for the number of one of `count` rows from `n` on, and else 0.
abbrev pub in_rows : ℕ → ℕ → ℕ → ℕ
in_rows n count k = if leb n k && ltb k (n + count) then 1 else 0

in_rows-suc :
    (n count k : ℕ) → (if n == k then 1 else 0) + in_rows (suc n) count k ≡ in_rows n (suc count) k
in_rows-suc n count k = ground arith

module _ (float : Text → Option Float) (sha256 : Text → Text) where
  identify-row_number :
      (row : Row) (lineage : Lineage) (n : ℕ) (m : Measured) (outcome : RowOutcome)
      → identify float sha256 row lineage n m ≡ some outcome
      → row_number outcome ≡ n
  unfolding identify
  identify-row_number row lineage n m (rejected r) h = ground arith
  identify-row_number row lineage n m (accepted e) h = ground arith

  decide-row_number :
      (row : Row) (lineage : Lineage) (n : ℕ) (m : Measured) (errors : List String)
      (outcome : RowOutcome)
      → decide float sha256 row lineage n m errors ≡ some outcome
      → row_number outcome ≡ n
  decide-row_number row lineage n m [] outcome h = identify-row_number row lineage n m outcome h
  decide-row_number row lineage n m (code ∷ more) (rejected r) h = ground arith
  decide-row_number row lineage n m (code ∷ more) (accepted e) h = cc

  canonicalize_row-row_number :
      (row : Row) (lineage : Lineage) (n : ℕ) (outcome : RowOutcome)
      → canonicalize_row float sha256 row lineage n ≡ some outcome
      → row_number outcome ≡ n
  canonicalize_row-row_number row lineage n outcome h =
      elim (Reading-cases (measure float sha256 row [])) [
        | inl faulty ↦ absurd (unfold canonicalize_row in ground (arith, faulty))
        | inr (m, errors, done) ↦
            decide-row_number row lineage n m errors outcome
              (unfold canonicalize_row in (rw (done, canonicalize_row) at h))
      ]

  next_row :
      (lineage : Lineage) (n : ℕ) (row : Row) (rows : List Row) (b b' : Batches)
      → canonicalize_rows float sha256 lineage n (row ∷ rows) b ≡ some b'
      → (outcome : RowOutcome) × (canonicalize_row float sha256 row lineage n ≡ some outcome)
        × (canonicalize_rows float sha256 lineage (suc n) rows (place lineage n outcome b)
            ≡ some b')
  next_row lineage n row rows b b' h =
      elim (Option-cases (canonicalize_row float sha256 row lineage n)) [
        | inl escaped ↦ absurd (unfold canonicalize_rows in ground (arith, escaped))
        | inr (outcome, found) ↦ (outcome, found, unfold canonicalize_rows in ground (arith, found))
      ]

  pub rows-placed :
      (lineage : Lineage) (n : ℕ) (rows : List Row) (b b' : Batches)
      → canonicalize_rows float sha256 lineage n rows b ≡ some b'
      → placed b' ≡ placed b + length rows
  rows-placed lineage n [] b b' h = unfold canonicalize_rows in ground arith
  rows-placed lineage n (row ∷ rows) b b' h =
      let (outcome, found, rest) = next_row lineage n row rows b b' h in
      omega (
        arith,
        rows-placed lineage (suc n) rows (place lineage n outcome b) b' rest,
        place-placed lineage n outcome b,
      )

  rows-IsDeduplicated :
      (lineage : Lineage) (n : ℕ) (rows : List Row) (b b' : Batches)
      → IsDeduplicated b
      → canonicalize_rows float sha256 lineage n rows b ≡ some b'
      → IsDeduplicated b'
  rows-IsDeduplicated lineage n [] b b' i h =
      let same : b ≡ b' = some-injective _ _ (unfold canonicalize_rows in h) in
      subst IsDeduplicated same i
  rows-IsDeduplicated lineage n (row ∷ rows) b b' i h =
      let (outcome, found, rest) = next_row lineage n row rows b b' h in
      rows-IsDeduplicated lineage (suc n) rows (place lineage n outcome b) b'
        (place-IsDeduplicated lineage n outcome b i) rest

  rows-occurrences :
      (lineage : Lineage) (n : ℕ) (rows : List Row) (b b' : Batches) (k : ℕ)
      → canonicalize_rows float sha256 lineage n rows b ≡ some b'
      → occurrences k b' ≡ occurrences k b + in_rows n (length rows) k
  rows-occurrences lineage n [] b b' k h =
      let same : b ≡ b' = some-injective _ _ (unfold canonicalize_rows in h) in
      rw (← same) (ground arith)
  rows-occurrences lineage n (row ∷ rows) b b' k h =
      let (outcome, found, rest) = next_row lineage n row rows b b' h in
      let later = rows-occurrences lineage (suc n) rows (place lineage n outcome b) b' k rest in
      let here =
        place-occurrences lineage n k outcome b
          (canonicalize_row-row_number row lineage n outcome found) in
      omega (arith, later, here, in_rows-suc n (length rows) k)

-- What a run that succeeded has of the rows of its raw file.
pub record IsReconciled (rows : List Row) (counts : Counts) (files : List Artifact) : Type 0 where
  pub batches : Batches
  -- The counts add up to the rows, and are those of the files.
  pub total : counts.input_count ≡ length rows
  pub sum :
      counts.input_count ≡ counts.accepted_count + counts.rejected_count + counts.duplicate_count
  pub written :
      files
      ≡ events_file batches.accepted_events
        ∷ rejected_file batches.rejected_rows
        ∷ duplicates_file batches.duplicates
        ∷ success_manifest counts
        ∷ []
  -- Every row number from 2 on stands in the three lists once, and no other does.
  pub once : (k : ℕ) → occurrences k batches ≡ in_rows 2 (length rows) k
  pub deduplicated : IsDeduplicated batches

module _ (float : Text → Option Float) (sha256 : Text → Text) (read_rows : Text → List Row)
    (normalize_utc_timestamp : Text → Option Text) where
  abbrev run :
      Option Flat → Option Text → Text → Result CanonicalizationError Counts × List Artifact
  run = canonicalize float sha256 read_rows normalize_utc_timestamp

  pub process-rows :
      (content pipeline_version : Text) (manifest : Flat) (b : Batches)
      → process float sha256 read_rows normalize_utc_timestamp content pipeline_version manifest
        ≡ ok b
      → (lineage : Lineage) × (canonicalize_rows float sha256 lineage 2
            (read_rows content)
            empty_batches
          ≡ some b)
  unfolding process
  process-rows content pipeline_version manifest b h =
      elim (Option-cases (normalize_utc_timestamp (as_text (lookup "completed_at" manifest)))) [
        | inl naive ↦ absurd (ground (arith, naive))
        | inr (timestamp, zoned) ↦
            (lineage_of manifest timestamp pipeline_version, ground (arith, zoned))
      ]

  transform-process :
      (source : Option Flat) (raw : Option Text) (pipeline_version : Text) (b : Batches)
      → transform float sha256 read_rows normalize_utc_timestamp source raw pipeline_version ≡ ok b
      → (manifest : Flat) × (content : Text) × (load_and_validate_source_manifest source
          ≡ ok manifest)
        × (raw ≡ some content)
        × (sha256 content ≡ as_text (lookup "sha256" manifest))
        × (process float sha256 read_rows normalize_utc_timestamp content pipeline_version manifest
            ≡ ok b)
        × ((counts_of b).input_count ≡ as_number (lookup "record_count" manifest))
  unfolding transform
  transform-process source raw pipeline_version b h =
      elim (Result-cases (load_and_validate_source_manifest source)) [
        | inl (e, refused) ↦ absurd (ground (arith, refused))
        | inr (manifest, loaded) ↦ elim (Option-cases raw) [
          | inl missing ↦ absurd (ground (arith, loaded, missing))
          | inr (content, there) ↦
              let made =
                process float sha256 read_rows normalize_utc_timestamp content pipeline_version
                  manifest in
              let hash = text_eq_iff (sha256 content) (as_text (lookup "sha256" manifest)) in
              elim (Result-cases made) [
                | inl (e, failed) ↦ absurd (ground (arith, loaded, there, failed))
                | inr (b', done) ↦ (
                  manifest,
                  content,
                  loaded,
                  there,
                  ground (arith, loaded, there, done, hash),
                  ground (arith, loaded, there, done, hash),
                  ground (arith, loaded, there, done, hash),
                )
              ]
        ]
      ]

  canonicalize-transform :
      (source : Option Flat) (raw : Option Text) (pipeline_version : Text) (counts : Counts)
      → (run source raw pipeline_version).0 ≡ ok counts
      → (b : Batches) × (transform float sha256 read_rows normalize_utc_timestamp source raw
            pipeline_version
          ≡ ok b)
        × (counts_of b ≡ counts)
        × ((run source raw pipeline_version).1
            ≡ events_file b.accepted_events
              ∷ rejected_file b.rejected_rows
              ∷ duplicates_file b.duplicates
              ∷ success_manifest (counts_of b)
              ∷ [])
  unfolding canonicalize
  canonicalize-transform source raw pipeline_version counts h =
      elim (Result-cases
        (transform float sha256 read_rows normalize_utc_timestamp source raw pipeline_version)) [
          | inl (e, failed) ↦ absurd (ground (arith, failed))
          | inr (b, done) ↦ (b, done, ground (arith, done), ground (arith, done))
        ]

  -- A run that returns has read a raw file with the checksum of its manifest; its counts add up to the
  -- rows of that file and to the manifest's record count; every row number stands in exactly one of
  -- the accepted, rejected and duplicate lists, which are what it wrote, followed by its manifest; the
  -- accepted identities are distinct, and each duplicate repeats one of them.
  pub canonicalize-IsReconciled :
      (source : Option Flat) (raw : Option Text) (pipeline_version : Text) (counts : Counts)
      → (run source raw pipeline_version).0 ≡ ok counts
      → (manifest : Flat) × (content : Text) × (load_and_validate_source_manifest source
          ≡ ok manifest)
        × (raw ≡ some content)
        × (sha256 content ≡ as_text (lookup "sha256" manifest))
        × (counts.input_count ≡ as_number (lookup "record_count" manifest))
        × IsReconciled (read_rows content) counts (run source raw pipeline_version).1
  canonicalize-IsReconciled source raw pipeline_version counts h =
      let (b, done, same, files) = canonicalize-transform source raw pipeline_version counts h in
      let (manifest, content, loaded, there, hash, processed, count) =
        transform-process source raw pipeline_version b done in
      let (lineage, rows) = process-rows content pipeline_version manifest b processed in
      let total = rows-placed float sha256 lineage 2 (read_rows content) empty_batches b rows in
      (
        manifest,
        content,
        loaded,
        there,
        hash,
        ap (λ (c : Counts). c.input_count) (sym same) ∙ count,
        record {
          batches = b;
          total = ap (λ (c : Counts). c.input_count) (sym same) ∙ total ∙ (omega arith);
          sum =
              subst
                (λ (c : Counts).
                  c.input_count ≡ c.accepted_count + c.rejected_count + c.duplicate_count)
                same refl;
          written =
              files
              ∙ ap
                  (λ c.
                    events_file b.accepted_events
                    ∷ rejected_file b.rejected_rows
                    ∷ duplicates_file b.duplicates
                    ∷ success_manifest c
                    ∷ [])
                  same;
          once = λ k.
              rows-occurrences float sha256 lineage 2 (read_rows content) empty_batches b k rows
              ∙ (omega arith);
          deduplicated =
              rows-IsDeduplicated float sha256 lineage 2 (read_rows content) empty_batches b
                (record { seen = λ id. refl; distinct = tt; repeated = tt }) rows;
        },
      )
