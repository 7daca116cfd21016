-- ===== src/Airports/Laws.antt =====
-- What the loaders of src/AirportsLoader.cpp leave in the database, on every way that they end.
use mathlib.Core.Option
use osmpgsqlimport.Prelude.{
  ℕ, ap₂, ◌==◌, ◌||◌, sym, append-nil, append_assoc, ◌≡◌, refl, ap, ◌∙◌, inl, inr, Bool, true,
  false, List, [], ◌∷◌, ◌++◌, ltb, map, if◌then◌else◌, length, Bool-cases, Option-cases, Option,
  none, some, Bytes,
}
use osmpgsqlimport.Csv.{parse_csv_line}
use osmpgsqlimport.Wkb.Decode.Laws.{All}
use osmpgsqlimport.Csv.Laws.{Field, text, csv_line, parse_csv_line-csv_line}
use osmpgsqlimport.Airports.{
  Row, Loaded, and_row, newline, lines_from, get_lines, read_rows, read_lines, read_table,
}
use osmpgsqlimport.Airports.Tables.{Table, Tables, add_to, Run, ◌then_load◌, firsts, all_tags}
use osmpgsqlimport.Airports.Load.{copy_into, load_rows, load_entries}

-- The records with enough fields.
unfoldable pub long_enough : ℕ → List (List Bytes) → List (List Bytes)
long_enough columns [] = []
long_enough columns (v ∷ vs) =
    if ltb (length v) columns then long_enough columns vs else v ∷ long_enough columns vs

-- All values, if there is one for each.
unfoldable pub all_of {ℓ} : {A : Type ℓ} → List (Option A) → Option (List A)
all_of [] = some []
all_of (none ∷ os) = none
all_of (some a ∷ os) = elim (all_of os) [ none ↦ none | some rest ↦ some (a ∷ rest) ]

-- The rows that a file is to give: one for each record with enough fields.
abbrev pub wanted {ℓ} :
    {A : Type ℓ} → ℕ → (List Bytes → Option A) → List (List Bytes) → Option (List A)
wanted columns row_of records = all_of (map row_of (long_enough columns records))

abbrev pub loaded {ℓ} : {A : Type ℓ} → Option (List A) → Loaded A
loaded none = Loaded.throws
loaded (some rs) = Loaded.rows rs

-- The records below the first line.
abbrev pub records_below : List Bytes → List (List Bytes)
records_below [] = []
records_below (header ∷ lines) = map parse_csv_line lines

abbrev pub records_of : Bytes → List (List Bytes)
records_of file = records_below (get_lines file)

-- The file of some lines: each ends with a line break.
unfoldable pub file_of : List Bytes → Bytes
file_of [] = []
file_of (line ∷ lines) = line ++ newline ∷ file_of lines

unfoldable pub has_break : Bytes → Bool
has_break [] = false
has_break (c ∷ s) = c == newline || has_break s

lines-line :
    (s line rest : Bytes)
    → has_break s ≡ false
    → lines_from line (s ++ newline ∷ rest) ≡ (line ++ s) ∷ lines_from [] rest
unfolding lines_from has_break
lines-line [] line rest h = ap (λ l. l ∷ lines_from [] rest) (sym (append-nil line))
lines-line (c ∷ s) line rest h =
    let tests : ((c == newline) ≡ false) × (has_break s ≡ false) =
      both (c == newline) (has_break s) h in
    rw tests.0 (
      lines-line s (line ++ c ∷ []) rest tests.1
      ∙ ap (λ l. l ∷ lines_from [] rest) (append_assoc line (c ∷ []) s))
  where
    both : (a b : Bool) → (a || b) ≡ false → (a ≡ false) × (b ≡ false)
    both true b e = cc e
    both false b e = (refl, e)

-- Lines without line breaks are read back from their file.
get_lines-file_of :
    (lines : List Bytes)
    → All (λ line. has_break line ≡ false) lines
    → get_lines (file_of lines) ≡ lines
unfolding lines_from file_of
get_lines-file_of [] h = refl
get_lines-file_of (line ∷ lines) h =
    lines-line line [] (file_of lines) h.0 ∙ ap (λ ls. line ∷ ls) (get_lines-file_of lines h.1)

and_row-loaded {ℓ} :
    {A : Type ℓ} (r : A) (o : Option (List A))
    → and_row r (loaded o) ≡ loaded (elim o [ none ↦ none | some rest ↦ some (r ∷ rest) ])
and_row-loaded r none = refl
and_row-loaded r (some rest) = refl

module _ {ℓ} {A : Type ℓ} (columns : ℕ) (row_of : List Bytes → Option A) where
  read_rows-wanted :
      (lines : List Bytes)
      → read_rows columns row_of lines ≡ loaded (wanted columns row_of (map parse_csv_line lines))
  unfolding read_rows long_enough all_of
  read_rows-wanted [] = refl
  read_rows-wanted (line ∷ lines) = elim (Bool-cases (ltb (length (parse_csv_line line)) columns)) [
    | inl l ↦ rw l (read_rows-wanted lines)
    | inr l ↦ rw l (elim (Option-cases (row_of (parse_csv_line line))) [
      | inl e ↦ rw e refl
      | inr (r, e) ↦ rw e (ap (and_row r) (read_rows-wanted lines) ∙ and_row-loaded r _)
    ])
  ]

  read_lines-wanted :
      (lines : List Bytes)
      → read_lines columns row_of lines ≡ loaded (wanted columns row_of (records_below lines))
  unfolding read_lines long_enough all_of
  read_lines-wanted [] = refl
  read_lines-wanted (header ∷ lines) = read_rows-wanted lines

  pub read_table-wanted :
      (file : Bytes)
      → read_table columns row_of file ≡ loaded (wanted columns row_of (records_of file))
  unfolding read_table
  read_table-wanted file = read_lines-wanted (get_lines file)

  records-written :
      (rs : List (Field × List Field))
      → map parse_csv_line (map (λ (r : Field × List Field). csv_line r.0 r.1) rs)
        ≡ map (λ (r : Field × List Field). text r.0 ∷ map text r.1) rs
  records-written [] = refl
  records-written ((f, fs) ∷ rs) = ap₂ ◌∷◌ (parse_csv_line-csv_line f fs) (records-written rs)

  -- A loader makes of a file that a CSV writer wrote one row for each record with enough fields, in their
  -- order, or throws if one of them has no row. Quotes and commas in the fields change nothing. No line of
  -- the file, and so no field, may hold a line break, not even between quotes.
  pub read_table-csv :
      (header : Bytes) (rs : List (Field × List Field))
      → All
          (λ line. has_break line ≡ false)
          (header ∷ map (λ (r : Field × List Field). csv_line r.0 r.1) rs)
      → read_table columns row_of
          (file_of (header ∷ map (λ (r : Field × List Field). csv_line r.0 r.1) rs))
        ≡ loaded
            (wanted columns row_of (map (λ (r : Field × List Field). text r.0 ∷ map text r.1) rs))
  read_table-csv header rs h =
      read_table-wanted (file_of (header ∷ map (λ (r : Field × List Field). csv_line r.0 r.1) rs))
      ∙ ap (λ ls. loaded (wanted columns row_of (records_below ls)))
          (get_lines-file_of (header ∷ map (λ (r : Field × List Field). csv_line r.0 r.1) rs) h)
      ∙ ap (λ vs. loaded (wanted columns row_of vs)) (records-written rs)

-- A COPY that is due: a table with its rows, `none` if the file has a record without a row.
abbrev pub Copy : Type 0
Copy = Table × Option (List Row)

abbrev pub entry_copies : Table → Option (List (Row × List Row)) → List Copy
entry_copies table o = (table, Option.map firsts o) ∷ (Table.tags, Option.map all_tags o) ∷ []

-- A load makes some copies in order, each whole, and ends before the first that cannot be made.
module _ (accepts : Table → List Row → List Row → Bool) where
  pub data Prefix : List Copy → Tables → Run → Type 0 where
    complete : {t : Tables} → Prefix [] t (Run.goes_on t)
    unreadable :
        {table : Table} {rest : List Copy} {t : Tables}
        → Prefix ((table, none) ∷ rest) t (Run.stops t)
    refused :
        {table : Table} {rs : List Row} {rest : List Copy} {t : Tables}
        → accepts table (t table) rs ≡ false
        → Prefix ((table, some rs) ∷ rest) t (Run.stops t)
    copied :
        {table : Table} {rs : List Row} {rest : List Copy} {t : Tables} {r : Run}
        → accepts table (t table) rs ≡ true
        → Prefix rest (add_to table rs t) r
        → Prefix ((table, some rs) ∷ rest) t r

  -- Two loads one after the other.
  pub Prefix-append :
      {xs ys : List Copy} {t : Tables} {r : Run} (f : Tables → Run)
      → Prefix xs t r
      → ((u : Tables) → Prefix ys u (f u))
      → Prefix (xs ++ ys) t (r then_load f)
  Prefix-append f complete h = h _
  Prefix-append f unreadable h = unreadable
  Prefix-append f (refused e) h = refused e
  Prefix-append f (copied e p) h = copied e (Prefix-append f p h)

  copy_into-Prefix :
      (table : Table) (rs : List Row) (t : Tables)
      → Prefix ((table, some rs) ∷ []) t (copy_into accepts table rs t)
  unfolding copy_into
  copy_into-Prefix table rs t = elim (Bool-cases (accepts table (t table) rs)) [
    | inl e ↦ rw e (copied e complete)
    | inr e ↦ rw e (refused e)
  ]

  pub load_rows-Prefix :
      (table : Table) (o : Option (List Row)) (t : Tables)
      → Prefix ((table, o) ∷ []) t (load_rows accepts table (loaded o) t)
  unfolding load_rows
  load_rows-Prefix table none t = unreadable
  load_rows-Prefix table (some rs) t = copy_into-Prefix table rs t

  pub load_entries-Prefix :
      (table : Table) (o : Option (List (Row × List Row))) (t : Tables)
      → Prefix (entry_copies table o) t (load_entries accepts table (loaded o) t)
  unfolding load_entries
  load_entries-Prefix table none t = unreadable
  load_entries-Prefix table (some rs) t =
      Prefix-append (copy_into accepts Table.tags (all_tags rs))
        (copy_into-Prefix table (firsts rs) t) (copy_into-Prefix Table.tags (all_tags rs))
