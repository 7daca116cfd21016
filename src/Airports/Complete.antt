-- ===== src/Airports/Complete.antt =====
-- `loadAirportsData` of src/AirportsLoader.cpp as a whole.
use osmpgsqlimport.Prelude.{
  arith, ℕ, ◌≡◌, ◌≢◌, ◌⊎◌, inl, inr, none, some, is_some, Bool-cases, Option-cases, refl, Bool,
  true, false, List, [], ◌∷◌, ◌++◌, Option, Bytes,
}
use osmpgsqlimport.Prelude.Double.{Double, Point}
use osmpgsqlimport.Airports.{Row, read_table}
use osmpgsqlimport.Airports.Tables.{
  Table, Tables, Run, country_row, region_row, airport_entry, frequency_row, runway_row,
  navaid_entry,
}
use osmpgsqlimport.Airports.Load.{
  files, downloads, contents_of, load_rows, load_entries, load_countries, load_regions,
  load_airports, load_frequencies, load_runways, load_navaids, load_tables, load_airports_data,
}
use osmpgsqlimport.Airports.Laws.{
  wanted, records_of, read_table-wanted, Copy, Prefix, Prefix-append, entry_copies,
  load_rows-Prefix, load_entries-Prefix,
}

abbrev row_copy : Table → ℕ → (List Bytes → Option Row) → Bytes → Copy
row_copy table columns row_of file = (table, wanted columns row_of (records_of file))

present : (o : Option Bytes) → is_some o ≡ true → o ≡ some (contents_of o)
unfolding contents_of
present none h = cc h
present (some s) h = refl

-- Whether all files are downloaded, said of each file.
each_downloads :
    (file : Table → Option Bytes)
    → downloads file files ≡ true
    → (table : Table) → table ≢ Table.tags
    → file table ≡ some (contents_of (file table))
unfolding downloads contents_of
each_downloads file d Table.countries n = present (file Table.countries) (ground (arith, d))
each_downloads file d Table.regions n = present (file Table.regions) (ground (arith, d))
each_downloads file d Table.airports n = present (file Table.airports) (ground (arith, d))
each_downloads file d Table.frequencies n = present (file Table.frequencies) (ground (arith, d))
each_downloads file d Table.runways n = present (file Table.runways) (ground (arith, d))
each_downloads file d Table.navaids n = present (file Table.navaids) (ground (arith, d))
each_downloads file d Table.tags n = elim (n refl) [ ]

one_missing :
    (file : Table → Option Bytes)
    → downloads file files ≡ false
    → (table : Table) × (table ≢ Table.tags) × (file table ≡ none)
unfolding downloads
one_missing file d = elim (Option-cases (file Table.countries)) [
  | inl e ↦ (Table.countries, λ q. cc q, e)
  | inr (_, a) ↦ elim (Option-cases (file Table.regions)) [
    | inl e ↦ (Table.regions, λ q. cc q, e)
    | inr (_, b) ↦ elim (Option-cases (file Table.airports)) [
      | inl e ↦ (Table.airports, λ q. cc q, e)
      | inr (_, c) ↦ elim (Option-cases (file Table.frequencies)) [
        | inl e ↦ (Table.frequencies, λ q. cc q, e)
        | inr (_, f) ↦ elim (Option-cases (file Table.runways)) [
          | inl e ↦ (Table.runways, λ q. cc q, e)
          | inr (_, g) ↦ elim (Option-cases (file Table.navaids)) [
            | inl e ↦ (Table.navaids, λ q. cc q, e)
            | inr (_, h) ↦ cc (d, all_there a b c f g h)
          ]
        ]
      ]
    ]
  ]
]
  where
    all_there :
        {a b c f g h : Bytes}
        → file Table.countries ≡ some a
        → file Table.regions ≡ some b
        → file Table.airports ≡ some c
        → file Table.frequencies ≡ some f
        → file Table.runways ≡ some g
        → file Table.navaids ≡ some h
        → downloads file files ≡ true
    all_there a b c f g h = unfold downloads in rw (a, b, c, f, g, h) refl

module _ (accepts : Table → List Row → List Row → Bool) (stoi : Bytes → Option ℕ)
    (stod : Bytes → Option Double) (to_mercator : Double → Double → Point) where
  -- The copies of a whole load.
  unfoldable pub copies : (Table → Bytes) → List Copy
  copies contents =
      (row_copy Table.countries 4 (country_row stoi stod to_mercator) (contents Table.countries)
        ∷ row_copy Table.regions 6 (region_row stoi stod to_mercator) (contents Table.regions)
        ∷ entry_copies Table.airports (
            wanted 19 (airport_entry stoi stod to_mercator) (records_of (contents Table.airports))))
      ++ row_copy Table.frequencies 6 (frequency_row stoi stod to_mercator)
          (contents Table.frequencies)
        ∷ row_copy Table.runways 20 (runway_row stoi stod to_mercator) (contents Table.runways)
        ∷ entry_copies Table.navaids
            (wanted 20 (navaid_entry stoi stod to_mercator) (records_of (contents Table.navaids)))

  rows_loader :
      (table : Table) (columns : ℕ) (row_of : List Bytes → Option Row) (file : Bytes) (t : Tables)
      → Prefix accepts
          ((table, wanted columns row_of (records_of file)) ∷ [])
          t
          (load_rows accepts table (read_table columns row_of file) t)
  rows_loader table columns row_of file t =
      rw (read_table-wanted columns row_of file)
        (load_rows-Prefix accepts table (wanted columns row_of (records_of file)) t)

  entries_loader :
      (table : Table) (columns : ℕ) (entry_of : List Bytes → Option (Row × List Row)) (file : Bytes)
      (t : Tables)
      → Prefix accepts
          (entry_copies table (wanted columns entry_of (records_of file)))
          t
          (load_entries accepts table (read_table columns entry_of file) t)
  entries_loader table columns entry_of file t =
      rw (read_table-wanted columns entry_of file)
        (load_entries-Prefix accepts table (wanted columns entry_of (records_of file)) t)

  load_tables-Prefix :
      (contents : Table → Bytes) (t : Tables)
      → Prefix accepts (copies contents) t (load_tables accepts stoi stod to_mercator contents t)
  unfolding copies load_tables load_countries load_regions load_airports load_frequencies
      load_runways load_navaids
  load_tables-Prefix contents t =
      Prefix-append accepts _
        (Prefix-append accepts _
          (Prefix-append accepts _
            (Prefix-append accepts _
              (Prefix-append accepts _
                (rows_loader Table.countries 4 _ (contents Table.countries) t)
                (rows_loader Table.regions 6 _ (contents Table.regions)))
              (entries_loader Table.airports 19 _ (contents Table.airports)))
            (rows_loader Table.frequencies 6 _ (contents Table.frequencies)))
          (rows_loader Table.runways 20 _ (contents Table.runways)))
        (entries_loader Table.navaids 20 _ (contents Table.navaids))

  -- `loadAirportsData` changes nothing if one of the six files cannot be downloaded. Otherwise it copies the
  -- rows of the tables in their order, each table's all or none: it stops before the first copy that PostgreSQL
  -- refuses or whose file has a record with enough fields and no readable id, and returns if there is none.
  pub load_airports_data-Prefix :
      (file : Table → Option Bytes) (t : Tables)
      → ((table : Table) × (table ≢ Table.tags)
          × (file table ≡ none)
          × (load_airports_data accepts stoi stod to_mercator file t ≡ Run.goes_on t))
        ⊎ ((contents : Table → Bytes) × ((table : Table)
              → table ≢ Table.tags
              → file table ≡ some (contents table))
            × Prefix accepts
                (copies contents)
                t
                (load_airports_data accepts stoi stod to_mercator file t))
  unfolding load_airports_data
  load_airports_data-Prefix file t = elim (Bool-cases (downloads file files)) [
    | inl d ↦ inr (
      λ table. contents_of (file table),
      each_downloads file d,
      rw d (load_tables-Prefix (λ table. contents_of (file table)) t),
    )
    | inr d ↦
        let (table, named, missing) = one_missing file d in inl (table, named, missing, rw d refl)
  ]
