-- ===== src/Airports/Tables.antt =====
-- The rows of each table, and the load of all tables, of src/AirportsLoader.cpp.
use osmpgsqlimport.Prelude.{
  ℕ, Bool, true, false, List, [], ◌∷◌, ◌++◌, ltb, ◌&&◌, not, if◌then◌else◌, length, is_empty,
  Option, none, some, Bytes, codes,
}
use osmpgsqlimport.Prelude.Double.{Double, Point}
use osmpgsqlimport.Airports.{
  Value, Row, parse_bool, field, text_at, int_at, double_at, place, lat_of, lon_of, geog_of,
  with_id,
}

-- `TagRow`: a row of the tag table.
unfoldable pub tag_row : Bytes → Bytes → Bytes → Bytes → Row
tag_row ident entity_type key val =
    Value.text ident ∷ Value.text entity_type ∷ Value.text key ∷ Value.text val ∷ []

-- The loop over the tag columns of a line.
unfoldable pub tag_rows : Bytes → Bytes → List (ℕ × Bytes) → List Bytes → List Row
unfolding tag_row
tag_rows ident entity_type [] v = []
tag_rows ident entity_type ((col, key) ∷ cols) v =
    let rest = tag_rows ident entity_type cols v in
    if ltb col (length v) && not (is_empty (field v col))
    then tag_row ident entity_type key (field v col) ∷ rest
    else rest

abbrev pub airport_tag_cols : List (ℕ × Bytes)
airport_tag_cols =
    (16, codes "home_link") ∷ (17, codes "wikipedia_link") ∷ (18, codes "keywords") ∷ []

abbrev pub navaid_tag_cols : List (ℕ × Bytes)
navaid_tag_cols =
    (1, codes "filename")
    ∷ (15, codes "slaved_variation_deg")
    ∷ (16, codes "magnetic_variation_deg")
    ∷ []

pub data Table : Type 0 where
  countries regions airports frequencies runways navaids tags : Table

abbrev pub table_eq : Table → Table → Bool
table_eq Table.countries Table.countries = true
table_eq Table.regions Table.regions = true
table_eq Table.airports Table.airports = true
table_eq Table.frequencies Table.frequencies = true
table_eq Table.runways Table.runways = true
table_eq Table.navaids Table.navaids = true
table_eq Table.tags Table.tags = true
table_eq _ _ = false

-- The rows in the database.
abbrev pub Tables : Type 0
Tables = Table → List Row

abbrev pub add_to : Table → List Row → Tables → Tables
add_to table rs t other = if table_eq table other then t other ++ rs else t other

-- A loader returns, or an exception leaves `loadAirportsData`.
pub data Run : Type 0 where
  goes_on stops : Tables → Run

infixl 5 ◌then_load◌
abbrev pub ◌then_load◌ : Run → (Tables → Run) → Run
(Run.goes_on t) then_load f = f t
(Run.stops t) then_load f = Run.stops t

abbrev pub firsts : List (Row × List Row) → List Row
firsts [] = []
firsts ((r, ts) ∷ rest) = r ∷ firsts rest

abbrev pub all_tags : List (Row × List Row) → List Row
all_tags [] = []
all_tags ((r, ts) ∷ rest) = ts ++ all_tags rest

module _ (stoi : Bytes → Option ℕ) (stod : Bytes → Option Double)
    (to_mercator : Double → Double → Point) where
  abbrev row : List Bytes → Row → Option Row
  row = with_id stoi stod to_mercator

  unfoldable pub country_row : List Bytes → Option Row
  country_row v = row v (text_at v 1 ∷ text_at v 2 ∷ text_at v 3 ∷ [])

  unfoldable pub region_row : List Bytes → Option Row
  region_row v = row v (text_at v 1 ∷ text_at v 2 ∷ text_at v 3 ∷ text_at v 4 ∷ text_at v 5 ∷ [])

  -- In the order of the columns of `write_values`.
  unfoldable pub airport_row : List Bytes → Option Row
  airport_row v =
      let at = place stoi stod to_mercator (field v 4) (field v 5) in
      row v (
        text_at v 1
        ∷ text_at v 2
        ∷ text_at v 3
        ∷ lat_of stoi stod to_mercator at
        ∷ lon_of stoi stod to_mercator at
        ∷ int_at stoi stod to_mercator v 6
        ∷ text_at v 7
        ∷ text_at v 8
        ∷ text_at v 9
        ∷ text_at v 10
        ∷ Value.bool (parse_bool (field v 11))
        ∷ text_at v 12
        ∷ text_at v 13
        ∷ text_at v 14
        ∷ text_at v 15
        ∷ geog_of stoi stod to_mercator at
        ∷ [])

  -- The row of an airport, with the rows of its tags.
  unfoldable pub airport_entry : List Bytes → Option (Row × List Row)
  airport_entry v = elim (airport_row v) [
    | none ↦ none
    | some r ↦ some (r, tag_rows (field v 1) (codes "airport") airport_tag_cols v)
  ]

  unfoldable pub frequency_row : List Bytes → Option Row
  frequency_row v = row v (
      int_at stoi stod to_mercator v 1
      ∷ text_at v 2
      ∷ text_at v 3
      ∷ text_at v 4
      ∷ double_at stoi stod to_mercator v 5
      ∷ [])

  unfoldable pub runway_row : List Bytes → Option Row
  runway_row v =
      let le = place stoi stod to_mercator (field v 9) (field v 10) in
      let he = place stoi stod to_mercator (field v 15) (field v 16) in
      row v (
        int_at stoi stod to_mercator v 1
        ∷ text_at v 2
        ∷ int_at stoi stod to_mercator v 3
        ∷ int_at stoi stod to_mercator v 4
        ∷ text_at v 5
        ∷ Value.bool (parse_bool (field v 6))
        ∷ Value.bool (parse_bool (field v 7))
        ∷ text_at v 8
        ∷ lat_of stoi stod to_mercator le
        ∷ lon_of stoi stod to_mercator le
        ∷ int_at stoi stod to_mercator v 11
        ∷ double_at stoi stod to_mercator v 12
        ∷ int_at stoi stod to_mercator v 13
        ∷ geog_of stoi stod to_mercator le
        ∷ text_at v 14
        ∷ lat_of stoi stod to_mercator he
        ∷ lon_of stoi stod to_mercator he
        ∷ int_at stoi stod to_mercator v 17
        ∷ double_at stoi stod to_mercator v 18
        ∷ int_at stoi stod to_mercator v 19
        ∷ geog_of stoi stod to_mercator he
        ∷ [])

  unfoldable pub navaid_row : List Bytes → Option Row
  navaid_row v =
      let at = place stoi stod to_mercator (field v 6) (field v 7) in
      let dme = place stoi stod to_mercator (field v 12) (field v 13) in
      row v (
        text_at v 2
        ∷ text_at v 3
        ∷ text_at v 4
        ∷ double_at stoi stod to_mercator v 5
        ∷ lat_of stoi stod to_mercator at
        ∷ lon_of stoi stod to_mercator at
        ∷ int_at stoi stod to_mercator v 8
        ∷ text_at v 9
        ∷ double_at stoi stod to_mercator v 10
        ∷ text_at v 11
        ∷ lat_of stoi stod to_mercator dme
        ∷ lon_of stoi stod to_mercator dme
        ∷ int_at stoi stod to_mercator v 14
        ∷ double_at stoi stod to_mercator v 15
        ∷ double_at stoi stod to_mercator v 16
        ∷ text_at v 17
        ∷ text_at v 18
        ∷ text_at v 19
        ∷ geog_of stoi stod to_mercator at
        ∷ [])

  -- The row of a navaid, with the rows of its tags, which name its associated airport.
  unfoldable pub navaid_entry : List Bytes → Option (Row × List Row)
  navaid_entry v = elim (navaid_row v) [
    | none ↦ none
    | some r ↦ some (r, tag_rows (field v 19) (codes "navaid") navaid_tag_cols v)
  ]
