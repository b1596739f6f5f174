-- ===== src/Extraction/Csv.antt =====
-- `validate_firms_csv` of src/eo_event_platform/ingestion/nasa_firms/extractor.py. The decoding as UTF-8
-- and `csv.DictReader` are parameters: the reader gives the column names, or a `csv.Error` there, and
-- the rows up to the first that it cannot read.
use mathlib.Core.Path.{subst}
use nasa_earth_observation_e.Prelude.{
  ok-injective, raise_if-not-eq-ok, ℕ, suc, ◌+◌, Bool, true, false, not, Option, none, some, List,
  [], ◌∷◌, length, All, any, all, Result, ok, raise, ◌>>=◌, ◌>>◌, raise_if, >>=-eq-ok, >>-eq-ok,
  ◌≡◌, refl, arith,
}
use nasa_earth_observation_e.Text.{Text, codes, text_eq}

-- A row, with whether it has more cells than there are columns, or a `csv.Error`.
pub data CsvRow : Type 0 where
  row : (has_more_cells : Bool) → CsvRow
  csv_error : CsvRow

pub record CsvFile : Type 0 where
  pub header : Option (List Text)
  pub rows : List CsvRow

pub data CsvError : Type 0 where
  not_utf8 header_error missing_columns malformed_row malformed_csv : CsvError

-- `REQUIRED_COLUMNS`
abbrev pub required_columns : List Text
required_columns =
    codes "latitude"
    ∷ codes "longitude"
    ∷ codes "bright_ti4"
    ∷ codes "scan"
    ∷ codes "track"
    ∷ codes "acq_date"
    ∷ codes "acq_time"
    ∷ codes "satellite"
    ∷ codes "instrument"
    ∷ codes "confidence"
    ∷ codes "version"
    ∷ codes "bright_ti5"
    ∷ codes "frp"
    ∷ codes "daynight"
    ∷ []

abbrev pub or_error {ℓ} : {A : Type ℓ} → CsvError → Option A → Result CsvError A
or_error e none = raise e
or_error e (some a) = ok a

abbrev pub is_column : List Text → Text → Bool
is_column columns name = any (λ column. text_eq column name) columns

-- The loop over the rows.
unfoldable pub count_rows : ℕ → List CsvRow → Result CsvError ℕ
count_rows record_count [] = ok record_count
count_rows record_count (csv_error ∷ rows) = raise malformed_csv
count_rows record_count (row true ∷ rows) = raise malformed_row
count_rows record_count (row false ∷ rows) = count_rows (suc record_count) rows

module _ (decode : Text → Option Text) (dict_reader : Text → CsvFile) where
  unfoldable pub validate_firms_csv : Text → Result CsvError (List Text × ℕ)
  validate_firms_csv body = do
    text ← or_error not_utf8 (decode body)
    columns ← or_error header_error (dict_reader text).header
    raise_if (not (all (is_column columns) required_columns)) missing_columns
    record_count ← count_rows 0 (dict_reader text).rows
    ok (columns, record_count)

-- A body that the checks accept, with its columns and the number of its rows.
pub record IsReadable (decode : Text → Option Text) (dict_reader : Text → CsvFile) (body : Text)
    (columns : List Text) (count : ℕ) : Type 0 where
  pub content : Text
  pub decoded : decode body ≡ some content
  pub named : (dict_reader content).header ≡ some columns
  pub complete : all (is_column columns) required_columns ≡ true
  pub plain : All (λ r. r ≡ row false) (dict_reader content).rows
  pub counted : count ≡ length (dict_reader content).rows

or_error_lem {ℓ} :
    {A : Type ℓ} (e : CsvError) (o : Option A) (a : A) → or_error e o ≡ ok a → o ≡ some a
or_error_lem e none a h = cc
or_error_lem e (some b) a h = cc

count_rows_lem :
    (n : ℕ) (rows : List CsvRow) (count : ℕ)
    → count_rows n rows ≡ ok count
    → All (λ r. r ≡ row false) rows × (count ≡ n + length rows)
unfolding count_rows
count_rows_lem n [] count h = (tt, ground arith)
count_rows_lem n (csv_error ∷ rows) count h = cc
count_rows_lem n (row true ∷ rows) count h = cc
count_rows_lem n (row false ∷ rows) count h =
    let (plain, counted) = count_rows_lem (suc n) rows count h in
    ((refl, plain), omega (arith, counted))

pub validate_firms_csv-IsReadable :
    (decode : Text → Option Text) (dict_reader : Text → CsvFile) (body : Text) (columns : List Text)
    (count : ℕ)
    → validate_firms_csv decode dict_reader body ≡ ok (columns, count)
    → IsReadable decode dict_reader body columns count
unfolding validate_firms_csv
validate_firms_csv-IsReadable decode dict_reader body columns count h =
    let (text, decoded, h1) = >>=-eq-ok (or_error not_utf8 (decode body)) _ h in
    let (names, named, h2) = >>=-eq-ok (or_error header_error (dict_reader text).header) _ h1 in
    let (present, h3) =
      >>-eq-ok (raise_if (not (all (is_column names) required_columns)) missing_columns) _ h2 in
    let (n, done, h4) = >>=-eq-ok (count_rows 0 (dict_reader text).rows) _ h3 in
    let (plain, counted) = count_rows_lem 0 (dict_reader text).rows n done in
    subst (λ (p : List Text × ℕ). IsReadable decode dict_reader body p.0 p.1) (ok-injective h4)
      (record {
        content = text;
        decoded = or_error_lem not_utf8 (decode body) text decoded;
        named = or_error_lem header_error (dict_reader text).header names named;
        complete =
            raise_if-not-eq-ok (all (is_column names) required_columns) missing_columns present;
        plain = plain;
        counted = omega (arith, counted);
      })
