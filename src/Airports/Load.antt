-- ===== src/Airports/Load.antt =====
-- The loaders and `loadAirportsData` of src/AirportsLoader.cpp.
use osmpgsqlimport.Prelude.{
  ℕ, is_some, Bool, true, List, [], ◌∷◌, ◌&&◌, if◌then◌else◌, Option, none, some, Bytes,
}
use osmpgsqlimport.Prelude.Double.{Double, Point}
use osmpgsqlimport.Airports.{Row, Loaded, read_table}
use osmpgsqlimport.Airports.Tables.{
  Table, Tables, add_to, Run, ◌then_load◌, firsts, all_tags, country_row, region_row, airport_entry,
  frequency_row, runway_row, navaid_entry,
}

-- `files`
abbrev pub files : List Table
files =
    Table.countries ∷ Table.regions ∷ Table.airports ∷ Table.frequencies ∷ Table.runways
    ∷ Table.navaids ∷ []

unfoldable pub downloads : (Table → Option Bytes) → List Table → Bool
downloads file [] = true
downloads file (table ∷ rest) = is_some (file table) && downloads file rest

unfoldable pub contents_of : Option Bytes → Bytes
contents_of none = []
contents_of (some file) = file

-- PostgreSQL: whether it takes a COPY of rows into a table with these rows. One transaction is one COPY.
module _ (accepts : Table → List Row → List Row → Bool) where
  unfoldable pub copy_into : Table → List Row → Tables → Run
  copy_into table rs t =
      if accepts table (t table) rs then Run.goes_on (add_to table rs t) else Run.stops t

  -- A loader with one stream: an exception while it reads leaves its transaction without a commit.
  unfoldable pub load_rows : Table → Loaded Row → Tables → Run
  load_rows table (Loaded.rows rs) t = copy_into table rs t
  load_rows table Loaded.throws t = Run.stops t

  -- A loader that reads the file first, then copies the rows, then their tags.
  unfoldable pub load_entries : Table → Loaded (Row × List Row) → Tables → Run
  load_entries table (Loaded.rows rs) t =
      copy_into table (firsts rs) t then_load copy_into Table.tags (all_tags rs)
  load_entries table Loaded.throws t = Run.stops t

  module _ (stoi : Bytes → Option ℕ) (stod : Bytes → Option Double)
      (to_mercator : Double → Double → Point) where
    unfoldable pub load_countries : Bytes → Tables → Run
    load_countries file =
        load_rows Table.countries (read_table 4 (country_row stoi stod to_mercator) file)

    unfoldable pub load_regions : Bytes → Tables → Run
    load_regions file =
        load_rows Table.regions (read_table 6 (region_row stoi stod to_mercator) file)

    unfoldable pub load_airports : Bytes → Tables → Run
    load_airports file =
        load_entries Table.airports (read_table 19 (airport_entry stoi stod to_mercator) file)

    unfoldable pub load_frequencies : Bytes → Tables → Run
    load_frequencies file =
        load_rows Table.frequencies (read_table 6 (frequency_row stoi stod to_mercator) file)

    unfoldable pub load_runways : Bytes → Tables → Run
    load_runways file =
        load_rows Table.runways (read_table 20 (runway_row stoi stod to_mercator) file)

    unfoldable pub load_navaids : Bytes → Tables → Run
    load_navaids file =
        load_entries Table.navaids (read_table 20 (navaid_entry stoi stod to_mercator) file)

    -- The loaders of `loadAirportsData`, once the files are there.
    unfoldable pub load_tables : (Table → Bytes) → Tables → Run
    load_tables contents t =
        load_countries (contents Table.countries) t
        then_load load_regions (contents Table.regions)
        then_load load_airports (contents Table.airports)
        then_load load_frequencies (contents Table.frequencies)
        then_load load_runways (contents Table.runways)
        then_load load_navaids (contents Table.navaids)

    -- `loadAirportsData`: the bytes of each file, `none` if it cannot be downloaded. A failed download ends
    -- the load before it begins.
    unfoldable pub load_airports_data : (Table → Option Bytes) → Tables → Run
    unfolding downloads contents_of
    load_airports_data file t =
        if downloads file files
        then load_tables (λ table. contents_of (file table)) t
        else Run.goes_on t
