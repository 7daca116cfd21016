-- ===== src/Main.antt =====
-- The course of `main` in src/main.cpp around its reader loop, with the tables that `truncateForResume`,
-- `vacuumAnalyze` and `initializeSchema` of src/NavDB.cpp name, and the start of the poll mode in `runDelta`.
pub mod Rules
pub mod Course
use osmpgsqlimport.Prelude.{
  ℕ, Bool, true, false, not, ◌||◌, List, [], ◌∷◌, ◌++◌, if◌then◌else◌, Option, none, some, String,
  str_eq,
}
use osmpgsqlimport.Prelude.Word.{is_neg}
use osmpgsqlimport.CommandLine.{Phase, Args}
use osmpgsqlimport.Producer.{phase_eq, skip_nodes}
use osmpgsqlimport.Replication.Poll.{Granularity, Poller, Round, poll}

-- The tables that an import fills.
pub data Table : Type 0 where
  nodes ways areas roads relations node_tags way_tags area_tags road_tags relation_tags airports
        runways navaids frequencies tags countries regions :
      Table

-- The `DROP TABLE` statements of `initializeSchema`, less that of `osm_replication_state`.
abbrev pub schema_tables : List Table
schema_tables =
    Table.node_tags ∷ Table.way_tags ∷ Table.area_tags ∷ Table.road_tags ∷ Table.relation_tags
    ∷ Table.nodes ∷ Table.ways ∷ Table.areas ∷ Table.roads ∷ Table.relations ∷ Table.tags
    ∷ Table.runways ∷ Table.frequencies ∷ Table.navaids ∷ Table.airports ∷ Table.regions
    ∷ Table.countries ∷ []

-- The tables of `vacuumAnalyze`.
abbrev pub vacuum_tables : List Table
vacuum_tables =
    Table.nodes ∷ Table.ways ∷ Table.areas ∷ Table.roads ∷ Table.relations ∷ Table.node_tags
    ∷ Table.way_tags ∷ Table.area_tags ∷ Table.road_tags ∷ Table.relation_tags ∷ Table.airports
    ∷ Table.runways ∷ Table.navaids ∷ Table.frequencies ∷ Table.tags ∷ Table.countries
    ∷ Table.regions ∷ []

-- What `truncateForResume` empties. Another text than these three does nothing.
unfoldable pub truncated_tables : String → List Table
truncated_tables phase =
    if str_eq phase "ways"
    then Table.ways ∷ Table.areas ∷ Table.way_tags ∷ Table.area_tags ∷ []
    else if str_eq phase "relations"
    then Table.relations ∷ Table.roads ∷ Table.relation_tags ∷ Table.road_tags ∷ []
    else if str_eq phase "airports"
    then Table.countries ∷ Table.regions ∷ Table.airports ∷ Table.tags ∷ Table.frequencies
      ∷ Table.runways ∷ Table.navaids ∷ []
    else []

-- What `main` does, in order. A worker that is started is joined later; what the workers and the reader loop
-- do is in other modules.
pub data Step : Type 0 where
  initialize_schema create_gist_indexes load_airports vacuum_analyze create_file start_node_threads
        shut_down_node_queues set_random_access_hint join_node_threads shut_down_way_queue
        join_way_threads exit :
      Step
  set_autovacuum : Bool → Step
  truncate_for_resume : String → Step
  open_store : Bool → Step
  start_way_threads : Bool → Step
  advance_phase : Phase → Phase → Step
  read_file : Phase → Step

-- The airports and the vacuum, at the end of each import.
unfoldable pub resumed_airports : List Step
resumed_airports = Step.truncate_for_resume "airports" ∷ Step.load_airports ∷ []

unfoldable pub vacuum_steps : List Step
vacuum_steps = Step.vacuum_analyze ∷ Step.set_autovacuum true ∷ []

-- The branch of `-R indexing`, `-R airports` and `-R vacuum`.
unfoldable pub late_steps : Phase → List Step
late_steps phase =
    (if phase_eq phase Phase.indexing then Step.create_gist_indexes ∷ [] else [])
    ++ (if phase_eq phase Phase.indexing || phase_eq phase Phase.airports_loading
        then resumed_airports
        else [])
    ++ vacuum_steps
    ++ Step.exit ∷ []

-- The tables that are emptied before the way threads start.
unfoldable pub truncate_steps : Phase → List Step
truncate_steps Phase.ways = Step.truncate_for_resume "ways" ∷ []
truncate_steps Phase.relations = Step.truncate_for_resume "relations" ∷ []
truncate_steps _ = []

-- The node threads, or the end of their queues.
unfoldable pub node_steps : Phase → List Step
node_steps phase =
    let target = if phase_eq phase Phase.relations then Phase.relations else Phase.ways in
    if skip_nodes phase 1
    then Step.shut_down_node_queues
      ∷ Step.set_random_access_hint
      ∷ Step.advance_phase target target
      ∷ []
    else Step.start_node_threads ∷ []

-- From the store to the join of the threads.
unfoldable pub worker_steps : Phase → List Step
worker_steps phase =
    (if phase_eq phase Phase.nodes then Step.create_file ∷ [] else [])
    ++ Step.open_store (phase_eq phase Phase.nodes) ∷ truncate_steps phase
    ++ Step.start_way_threads (phase_eq phase Phase.relations) ∷ node_steps phase
    ++ Step.read_file phase
      ∷ Step.shut_down_node_queues
      ∷ Step.join_node_threads
      ∷ Step.shut_down_way_queue
      ∷ Step.join_way_threads
      ∷ []

unfoldable pub last_steps : List Step
last_steps =
    Step.advance_phase Phase.relations Phase.indexing
      ∷ Step.create_gist_indexes
      ∷ Step.advance_phase Phase.indexing Phase.airports_loading
      ∷ Step.load_airports
      ∷ Step.advance_phase Phase.airports_loading Phase.vacuuming
      ∷ vacuum_steps
    ++ Step.advance_phase Phase.vacuuming Phase.done ∷ Step.exit ∷ []

-- `main` in the import mode: its course when nothing throws. At `-R reindex` with nodes in the file this is not
-- its course: no shard is open for writing, and the first node's insert throws.
unfoldable pub import_steps : Bool → Phase → List Step
import_steps init_schema phase =
    (if init_schema then Step.initialize_schema ∷ [] else [])
    ++ Step.set_autovacuum false
      ∷ (if phase_eq phase Phase.indexing
            || phase_eq phase Phase.airports_loading
            || phase_eq phase Phase.vacuuming
          then late_steps phase
          else worker_steps phase ++ last_steps)

-- `args.replication`
unfoldable pub granularity_of : String → Granularity
granularity_of replication =
    if str_eq replication "day"
    then Granularity.day
    else if str_eq replication "hour"
    then Granularity.hour
    else Granularity.minute

-- The poll mode of `runDelta`: `-S` stores a number first. `downloads` depends on the base address.
module _ {ℓ} {S : Type ℓ} (stoll : List ℕ → Option ℕ) (download : Granularity → ℕ → Bool)
    (apply_file : ℕ → S → S × Bool) (stopped : ℕ → Bool) where
  unfoldable pub set_start : ℕ → Poller S → Poller S
  set_start sequence p = if is_neg sequence then p else record p { sequence = some sequence }

  unfoldable pub run_poll : Args → List Round → Poller S → Poller S
  run_poll a rounds p =
      poll stoll (download (granularity_of a.replication)) apply_file stopped rounds
        (set_start a.sequence p)
