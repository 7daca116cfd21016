-- ===== src/Main/Rules.antt =====
-- The rules of a bulk load, which the course of an import in src/main.cpp is checked against: what a database
-- does at each step, and what an interrupted import can have left.
use osmpgsqlimport.Prelude.{
  ℕ, ◌≡◌, Bool, true, false, ◌||◌, List, [], ◌∷◌, ◌++◌, ◌==◌, ◌&&◌, if◌then◌else◌, Option, none,
  some,
}
use osmpgsqlimport.CommandLine.{Phase}
use osmpgsqlimport.Producer.{phase_eq}
use osmpgsqlimport.Main.{Table, Step, schema_tables, vacuum_tables, truncated_tables}

abbrev pub number : Table → ℕ
number Table.nodes = 0
number Table.ways = 1
number Table.areas = 2
number Table.roads = 3
number Table.relations = 4
number Table.node_tags = 5
number Table.way_tags = 6
number Table.area_tags = 7
number Table.road_tags = 8
number Table.relation_tags = 9
number Table.airports = 10
number Table.runways = 11
number Table.navaids = 12
number Table.frequencies = 13
number Table.tags = 14
number Table.countries = 15
number Table.regions = 16

abbrev pub is_in : Table → List Table → Bool
is_in t [] = false
is_in t (u ∷ us) = number t == number u || is_in t us

-- The rows of a table, in two parts: those that come from relations, which in `areas` have negative ids, and
-- the others.
pub record Part : Type 0 where
  pub table : Table
  pub of_relations : Bool

abbrev pub plain : Table → Part
plain t = record { table = t; of_relations = false }

abbrev pub related : Table → Part
related t = record { table = t; of_relations = true }

-- Whether autovacuum is on, which parts have rows, and which tables got rows after their last vacuum.
pub record Database : Type 0 where
  pub autovacuum : Bool
  pub has_rows : Part → Bool
  pub unvacuumed : Table → Bool

-- The parts that the worker threads fill in a run that resumes at a phase.
unfoldable pub file_parts : Phase → List Part
file_parts phase =
    (if phase_eq phase Phase.nodes || phase_eq phase Phase.reindexing
      then plain Table.nodes ∷ plain Table.node_tags ∷ []
      else [])
    ++ (if phase_eq phase Phase.relations
        then []
        else plain Table.ways
          ∷ plain Table.way_tags
          ∷ plain Table.areas
          ∷ plain Table.area_tags
          ∷ [])
    ++ related Table.areas
      ∷ related Table.area_tags
      ∷ related Table.relations
      ∷ related Table.relation_tags
      ∷ related Table.roads
      ∷ related Table.road_tags
      ∷ []

unfoldable pub airport_parts : List Part
airport_parts =
    plain Table.countries
    ∷ plain Table.regions
    ∷ plain Table.airports
    ∷ plain Table.tags
    ∷ plain Table.frequencies
    ∷ plain Table.runways
    ∷ plain Table.navaids
    ∷ []

abbrev pub emptied : List Table → Database → Database
emptied tables d = record d { has_rows = λ p. if is_in p.table tables then false else d.has_rows p }

abbrev pub any_rows : List Part → Database → Bool
any_rows [] d = false
any_rows (p ∷ ps) d = d.has_rows p || any_rows ps d

abbrev pub part_eq : Part → Part → Bool
part_eq p q = number p.table == number q.table && flag p.of_relations == flag q.of_relations
  where
    flag : Bool → ℕ
    flag true = 1
    flag false = 0

-- Rows are put into empty parts, while autovacuum is off.
abbrev pub loaded : List Part → Database → Option Database
loaded ps d = if d.autovacuum || any_rows ps d then none else some (filled ps d)
  where
    filled : List Part → Database → Database
    filled [] d = d
    filled (p ∷ ps) d =
        let e = filled ps d in
        record e {
          has_rows = λ q. part_eq q p || e.has_rows q;
          unvacuumed = λ t. number t == number p.table || e.unvacuumed t;
        }

-- A step, where it keeps the rules.
abbrev pub obeys : Step → Database → Option Database
obeys Step.initialize_schema d = some (emptied schema_tables d)
obeys (Step.set_autovacuum on) d = some (record d { autovacuum = on })
obeys (Step.truncate_for_resume phase) d = some (emptied (truncated_tables phase) d)
obeys (Step.read_file phase) d = loaded (file_parts phase) d
obeys Step.load_airports d = loaded airport_parts d
obeys Step.vacuum_analyze d =
    some (record d { unvacuumed = λ t. if is_in t vacuum_tables then false else d.unvacuumed t })
obeys _ d = some d

unfoldable pub obey : List Step → Database → Option Database
obey [] d = some d
obey (s ∷ ss) d = elim (obeys s d) [ none ↦ none | some e ↦ obey ss e ]

-- At the end autovacuum is on, and no table waits for a vacuum.
abbrev pub IsDone : Option Database → Type 0
IsDone none = ⊥
IsDone (some d) = (d.autovacuum ≡ true) × ((t : Table) → d.unvacuumed t ≡ false)

-- What an import that was interrupted in a phase has left, where it is resumed at that phase. The relation phase
-- must have stored no multipolygon.
abbrev pub may_have_rows : Phase → Part → Bool
may_have_rows Phase.nodes p = false
may_have_rows Phase.reindexing p = false
may_have_rows Phase.done p = false
may_have_rows Phase.merging p = is_in p.table (Table.nodes ∷ Table.node_tags ∷ [])
may_have_rows Phase.ways p = is_in p.table (
    Table.nodes ∷ Table.node_tags ∷ Table.ways ∷ Table.way_tags ∷ Table.areas ∷ Table.area_tags
    ∷ [])
may_have_rows Phase.relations p =
    if p.of_relations
    then is_in p.table (Table.relations ∷ Table.relation_tags ∷ Table.roads ∷ Table.road_tags ∷ [])
    else is_in p.table (
        Table.nodes ∷ Table.node_tags ∷ Table.ways ∷ Table.way_tags ∷ Table.areas ∷ Table.area_tags
        ∷ [])
may_have_rows _ p = true
