-- ===== src/Airports.antt =====
-- The loaders of the OurAirports tables of src/AirportsLoader.cpp: from the bytes of a file to the rows of a
-- table.
pub mod Tables
pub mod Load
pub mod Complete
pub mod Laws
use osmpgsqlimport.Prelude.{
  ℕ, ◌==◌, Bool, true, false, ◌||◌, List, [], ◌∷◌, ◌++◌, ltb, if◌then◌else◌, length, is_empty,
  get_or, Option, none, some, String, Bytes, codes, ℕ_discrete,
}
use osmpgsqlimport.Prelude.Double.{Double, Point}
use osmpgsqlimport.Wkb.{write_double}
use osmpgsqlimport.Delta.Geometry.{to_hex_lower}
use osmpgsqlimport.Csv.{parse_csv_line}

-- A value of a column. An `int` is its 32-bit pattern.
pub data Value : Type 0 where
  null : Value
  int : ℕ → Value
  double : Double → Value
  text : Bytes → Value
  bool : Bool → Value

abbrev pub Row : Type 0
Row = List Value

abbrev pub same_bytes : Bytes → Bytes → Bool
same_bytes [] [] = true
same_bytes [] (d ∷ ds) = false
same_bytes (c ∷ cs) [] = false
same_bytes (c ∷ cs) (d ∷ ds) = if c == d then same_bytes cs ds else false

abbrev pub of_option {ℓ} : {A : Type ℓ} → (A → Value) → Option A → Value
of_option f none = Value.null
of_option f (some a) = f a

-- `pointWKBAP`: a point without an SRID.
unfoldable pub point_wkb_ap : Point → Bytes
point_wkb_ap p = to_hex_lower (write_double (write_double (1 ∷ 1 ∷ 0 ∷ 0 ∷ 0 ∷ []) p.0) p.1)

-- `optStr`
unfoldable pub opt_str : Bytes → Option Bytes
opt_str s = if is_empty s then none else some s

-- `parseBool`
unfoldable pub parse_bool : Bytes → Bool
parse_bool s = same_bytes s (codes "1") || same_bytes s (codes "yes") || same_bytes s (codes "true")

-- `v[i]`, of a line with enough fields.
abbrev pub field : List Bytes → ℕ → Bytes
field v i = get_or v i []

abbrev pub text_at : List Bytes → ℕ → Value
text_at v i = of_option Value.text (opt_str (field v i))

-- What a pass over a file comes to: the rows, or an exception.
pub data Loaded {ℓ} (A : Type ℓ) : Type ℓ where
  rows : List A → Loaded A
  throws : Loaded A

abbrev pub and_row {ℓ} : {A : Type ℓ} → A → Loaded A → Loaded A
and_row r (Loaded.rows rs) = Loaded.rows (r ∷ rs)
and_row r Loaded.throws = Loaded.throws

-- The loop over the lines after the first. A line with fewer than `columns` fields is left out, and one
-- whose row throws ends the loop.
unfoldable pub read_rows {ℓ} : {A : Type ℓ} → ℕ → (List Bytes → Option A) → List Bytes → Loaded A
read_rows columns row_of [] = Loaded.rows []
read_rows columns row_of (line ∷ lines) =
    let v = parse_csv_line line in
    let rest = read_rows columns row_of lines in
    if ltb (length v) columns
    then rest
    else elim (row_of v) [ none ↦ Loaded.throws | some r ↦ and_row r rest ]

abbrev pub newline : ℕ
newline = 10

-- The lines that `std::getline` gives, one after the other. A line ends at a line break, also at one between
-- quotes, and the bytes after the last line break are a line if there are any.
unfoldable pub lines_from : Bytes → Bytes → List Bytes
lines_from line [] = if is_empty line then [] else line ∷ []
lines_from line (c ∷ s) =
    if c == newline then line ∷ lines_from [] s else lines_from (line ++ c ∷ []) s

abbrev pub get_lines : Bytes → List Bytes
get_lines file = lines_from [] file

unfoldable pub read_lines {ℓ} : {A : Type ℓ} → ℕ → (List Bytes → Option A) → List Bytes → Loaded A
unfolding read_rows
read_lines columns row_of [] = Loaded.rows []
read_lines columns row_of (header ∷ lines) = read_rows columns row_of lines

-- `std::getline(f, line)` for the header, and the loop, over the bytes of the file.
unfoldable pub read_table {ℓ} : {A : Type ℓ} → ℕ → (List Bytes → Option A) → Bytes → Loaded A
unfolding read_lines
read_table columns row_of file = read_lines columns row_of (get_lines file)

-- `std::stoi`, `std::stod` (`none` where they throw), and PROJ's transformation.
module _ (stoi : Bytes → Option ℕ) (stod : Bytes → Option Double)
    (to_mercator : Double → Double → Point) where
  -- `optInt` and `optDouble`
  unfoldable pub opt_int : Bytes → Option ℕ
  opt_int s = if is_empty s then none else stoi s

  unfoldable pub opt_double : Bytes → Option Double
  opt_double s = if is_empty s then none else stod s

  abbrev pub int_at : List Bytes → ℕ → Value
  int_at v i = of_option Value.int (opt_int (field v i))

  abbrev pub double_at : List Bytes → ℕ → Value
  double_at v i = of_option Value.double (opt_double (field v i))

  -- `if (lat && lon)`: the projected point.
  unfoldable pub place : Bytes → Bytes → Option Point
  place lat lon = elim (opt_double lat) [
    | none ↦ none
    | some y ↦ elim (opt_double lon) [ none ↦ none | some x ↦ some (to_mercator x y) ]
  ]

  abbrev pub lat_of : Option Point → Value
  lat_of p = of_option (λ (q : Point). Value.double q.1) p

  abbrev pub lon_of : Option Point → Value
  lon_of p = of_option (λ (q : Point). Value.double q.0) p

  abbrev pub geog_of : Option Point → Value
  geog_of p = of_option (λ (q : Point). Value.text (point_wkb_ap q)) p

  -- A row whose first value is `std::stoi(v[0])`.
  abbrev pub with_id : List Bytes → Row → Option Row
  with_id v values = elim (stoi (field v 0)) [ none ↦ none | some i ↦ some (Value.int i ∷ values) ]
