-- ===== src/CommandLine.antt =====
-- `parseArgs` of src/main.cpp, its options with their defaults, and the files that keep the offsets at
-- which an import can resume.
pub mod Laws
use Prim.Native.String.{◌++◌ as ◌<>◌}
use osmpgsqlimport.Prelude.{
  ℕ, ◌-◌, ◌^◌, Bool, true, false, not, ◌||◌, ◌&&◌, List, [], ◌∷◌, if◌then◌else◌, Option, none, some,
  String, str_eq,
}

-- `Phase`
pub data Phase : Type 0 where
  nodes merging ways reindexing indexing relations airports_loading vacuuming done : Phase

pub data Mode : Type 0 where
  import delta poll : Mode

-- `Args`. An `int` is its 32-bit pattern, an `int64_t` its 64-bit pattern.
pub record Args : Type 0 where
  pub infile : String
  pub server : String
  pub database : String
  pub user : String
  pub log_file : String
  pub nodes_file : String
  pub shard_dir : String
  pub max_node_id : ℕ
  pub verbose : Bool
  pub init_schema : Bool
  pub use_mercator : Bool
  pub queue_size : ℕ
  pub node_threads : ℕ
  pub way_threads : ℕ
  pub mode : Mode
  pub osc_file : String
  pub replication : String
  pub sequence : ℕ
  pub poll_interval : ℕ
  pub resume_phase : Phase

abbrev pub default_args : Args
default_args = record {
  infile = "";
  server = "";
  database = "";
  user = "";
  log_file = "osm_import.log";
  nodes_file = "nodes.dat";
  shard_dir = ".";
  max_node_id = 20000000000;
  verbose = false;
  init_schema = false;
  use_mercator = true;
  queue_size = 10000;
  node_threads = 1;
  way_threads = 6;
  mode = Mode.import;
  osc_file = "";
  replication = "minute";
  sequence = 2 ^ 64 - 1;
  poll_interval = 60;
  resume_phase = Phase.nodes;
}

-- `parseArgs` returns, or `_exit` is called with a status.
pub data Parsed : Type 0 where
  parsed : Args → Parsed
  exits : ℕ → Parsed

infixl 5 ◌and_then◌
abbrev pub ◌and_then◌ : Parsed → (Args → Parsed) → Parsed
(Parsed.parsed a) and_then f = f a
(Parsed.exits status) and_then f = Parsed.exits status

-- The tests of the chain, in its order.
pub data Flag : Type 0 where
  infile server database user nodes_file shard_dir max_node_id log_file queue_size node_threads
        way_threads verbose init wgs84 mode osc_file replication sequence poll_interval resume help
        other :
      Flag

unfoldable pub flag_of : String → Flag
flag_of arg =
    let is = λ (long : String) (short : String). str_eq arg long || str_eq arg short in
    if is "--infile" "-i"
    then Flag.infile
    else if is "--server" "-s"
    then Flag.server
    else if is "--database" "-d"
    then Flag.database
    else if is "--user" "-u"
    then Flag.user
    else if is "--nodes-file" "-f"
    then Flag.nodes_file
    else if is "--shard-dir" "-S"
    then Flag.shard_dir
    else if is "--max-node-id" "-n"
    then Flag.max_node_id
    else if is "--log-file" "-l"
    then Flag.log_file
    else if is "--queue-size" "-q"
    then Flag.queue_size
    else if is "--node-threads" "-t"
    then Flag.node_threads
    else if is "--way-threads" "-w"
    then Flag.way_threads
    else if is "--verbose" "-v"
    then Flag.verbose
    else if is "--init" "-I"
    then Flag.init
    else if is "--wgs84" "-L"
    then Flag.wgs84
    else if is "--mode" "-m"
    then Flag.mode
    else if is "--osc-file" "-o"
    then Flag.osc_file
    else if is "--replication" "-r"
    then Flag.replication
    else if is "--sequence" "-Q"
    then Flag.sequence
    else if is "--poll-interval" "-p"
    then Flag.poll_interval
    else if is "--resume" "-R"
    then Flag.resume
    else if is "--help" "-h"
    then Flag.help
    else Flag.other

-- The tests with `&& i+1 < argc`.
unfoldable pub takes_value : Flag → Bool
takes_value Flag.verbose = false
takes_value Flag.init = false
takes_value Flag.wgs84 = false
takes_value Flag.help = false
takes_value Flag.other = false
takes_value _ = true

unfoldable pub mode_of : String → Option Mode
mode_of m =
    if str_eq m "import"
    then some Mode.import
    else if str_eq m "delta"
    then some Mode.delta
    else if str_eq m "poll"
    then some Mode.poll
    else none

unfoldable pub phase_of : String → Option Phase
phase_of ph =
    if str_eq ph "nodes"
    then some Phase.nodes
    else if str_eq ph "merge"
    then some Phase.merging
    else if str_eq ph "ways"
    then some Phase.ways
    else if str_eq ph "reindex"
    then some Phase.reindexing
    else if str_eq ph "relations"
    then some Phase.relations
    else if str_eq ph "indexing"
    then some Phase.indexing
    else if str_eq ph "airports"
    then some Phase.airports_loading
    else if str_eq ph "vacuum"
    then some Phase.vacuuming
    else none

-- A value that is not understood ends the program with status 1.
abbrev pub or_exit {ℓ} : {A : Type ℓ} → Option A → (A → Args) → Parsed
or_exit none f = Parsed.exits 1
or_exit (some v) f = Parsed.parsed (f v)

-- The branches of a flag without a value. One that is not known, or whose value is missing, does nothing.
unfoldable pub without_value : Flag → Args → Parsed
without_value Flag.verbose a = Parsed.parsed (record a { verbose = true })
without_value Flag.init a = Parsed.parsed (record a { init_schema = true })
without_value Flag.wgs84 a = Parsed.parsed (record a { use_mercator = false })
without_value Flag.help a = Parsed.exits 0
without_value _ a = Parsed.parsed a

-- `std::stoi` and `std::stoll`, `none` where they throw. `safeInt` and `safeInt64` exit then.
module _ (stoi stoll : String → Option ℕ) where
  unfoldable pub with_value : Flag → String → Args → Parsed
  with_value Flag.infile v a = Parsed.parsed (record a { infile = v })
  with_value Flag.server v a = Parsed.parsed (record a { server = v })
  with_value Flag.database v a = Parsed.parsed (record a { database = v })
  with_value Flag.user v a = Parsed.parsed (record a { user = v })
  with_value Flag.nodes_file v a = Parsed.parsed (record a { nodes_file = v })
  with_value Flag.shard_dir v a = Parsed.parsed (record a { shard_dir = v })
  with_value Flag.max_node_id v a = or_exit (stoll v) (λ n. record a { max_node_id = n })
  with_value Flag.log_file v a = Parsed.parsed (record a { log_file = v })
  with_value Flag.queue_size v a = or_exit (stoi v) (λ n. record a { queue_size = n })
  with_value Flag.node_threads v a = or_exit (stoi v) (λ n. record a { node_threads = n })
  with_value Flag.way_threads v a = or_exit (stoi v) (λ n. record a { way_threads = n })
  with_value Flag.mode v a = or_exit (mode_of v) (λ m. record a { mode = m })
  with_value Flag.osc_file v a = Parsed.parsed (record a { osc_file = v; mode = Mode.delta })
  with_value Flag.replication v a = Parsed.parsed (record a { replication = v })
  with_value Flag.sequence v a = or_exit (stoll v) (λ n. record a { sequence = n })
  with_value Flag.poll_interval v a = or_exit (stoi v) (λ n. record a { poll_interval = n })
  with_value Flag.resume v a = or_exit (phase_of v) (λ p. record a { resume_phase = p })
  with_value _ v a = Parsed.parsed a

  -- The loop over `argv`.
  unfoldable pub parse_loop : List String → Args → Parsed
  parse_loop [] a = Parsed.parsed a
  parse_loop (arg ∷ []) a = without_value (flag_of arg) a
  parse_loop (arg ∷ val ∷ rest) a = elim (takes_value (flag_of arg)) [
    | true ↦ with_value (flag_of arg) val a and_then parse_loop rest
    | false ↦ without_value (flag_of arg) a and_then parse_loop (val ∷ rest)
  ]

abbrev pub mode_eq : Mode → Mode → Bool
mode_eq Mode.import Mode.import = true
mode_eq Mode.delta Mode.delta = true
mode_eq Mode.poll Mode.poll = true
mode_eq _ _ = false

-- The checks after the loop.
unfoldable pub check_args : Args → Parsed
check_args a =
    if str_eq a.server "" || str_eq a.database "" || str_eq a.user ""
    then Parsed.exits 1
    else if mode_eq a.mode Mode.import && str_eq a.infile ""
    then Parsed.exits 1
    else if mode_eq a.mode Mode.delta && str_eq a.osc_file ""
    then Parsed.exits 1
    else Parsed.parsed a

-- `parseArgs`, without the name of the program.
unfoldable pub parse_args : (stoi stoll : String → Option ℕ) → List String → Parsed
parse_args stoi stoll argv = parse_loop stoi stoll argv default_args and_then check_args

-- `offsetFilePath` and `relationsOffsetFilePath`
unfoldable pub offset_file_path : Args → String
offset_file_path a = a.nodes_file <> ".offset"

unfoldable pub relations_offset_file_path : Args → String
relations_offset_file_path a = a.nodes_file <> ".relations_offset"
