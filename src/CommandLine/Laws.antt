-- ===== src/CommandLine/Laws.antt =====
-- `parseArgs` of src/main.cpp against a writer of command lines.
use osmpgsqlimport.CommandLine.{
  or_exit, Phase, Mode, Args, Parsed, ◌and_then◌, parse_loop, check_args, parse_args, mode_eq,
  flag_of, takes_value, with_value, without_value, mode_of, phase_of,
}
use osmpgsqlimport.Prelude.{
  ap, eq_iff, arith, ◌≢◌, ◌<◌, ◌^◌, ℕ, ◌≡◌, refl, ◌∙◌, Bool, true, false, not, List, [], ◌∷◌,
  Option, some, String,
}

abbrev pub mode_name : Mode → String
mode_name Mode.import = "import"
mode_name Mode.delta = "delta"
mode_name Mode.poll = "poll"

-- `done` has no name on the command line.
abbrev pub phase_arg : Phase → String
phase_arg Phase.nodes = "nodes"
phase_arg Phase.merging = "merge"
phase_arg Phase.ways = "ways"
phase_arg Phase.reindexing = "reindex"
phase_arg Phase.indexing = "indexing"
phase_arg Phase.relations = "relations"
phase_arg Phase.airports_loading = "airports"
phase_arg Phase.vacuuming = "vacuum"
phase_arg Phase.done = ""

abbrev pub switch : String → Bool → List String → List String
switch flag true rest = flag ∷ rest
switch flag false rest = rest

-- The command line that gives each option its value. `-o` sets the mode too, so `-m` comes after it.
module _ (show show64 : ℕ → String) where
  unfoldable pub to_argv : Args → List String
  to_argv a =
      "-i"
      ∷ a.infile
      ∷ "--server"
      ∷ a.server
      ∷ "-d"
      ∷ a.database
      ∷ "--user"
      ∷ a.user
      ∷ "-l"
      ∷ a.log_file
      ∷ "--nodes-file"
      ∷ a.nodes_file
      ∷ "-S"
      ∷ a.shard_dir
      ∷ "--max-node-id"
      ∷ show64 a.max_node_id
      ∷ "-q"
      ∷ show a.queue_size
      ∷ "--node-threads"
      ∷ show a.node_threads
      ∷ "-w"
      ∷ show a.way_threads
      ∷ "--osc-file"
      ∷ a.osc_file
      ∷ "-m"
      ∷ mode_name a.mode
      ∷ "--replication"
      ∷ a.replication
      ∷ "-Q"
      ∷ show64 a.sequence
      ∷ "--poll-interval"
      ∷ show a.poll_interval
      ∷ "-R"
      ∷ phase_arg a.resume_phase
      ∷ switch "-v" a.verbose (switch "--init" a.init_schema (switch "-L" (not a.use_mercator) []))

phase_of-phase_arg : (p : Phase) → p ≢ Phase.done → phase_of (phase_arg p) ≡ some p
unfolding phase_of
phase_of-phase_arg Phase.nodes h = refl
phase_of-phase_arg Phase.merging h = refl
phase_of-phase_arg Phase.ways h = refl
phase_of-phase_arg Phase.reindexing h = refl
phase_of-phase_arg Phase.indexing h = refl
phase_of-phase_arg Phase.relations h = refl
phase_of-phase_arg Phase.airports_loading h = refl
phase_of-phase_arg Phase.vacuuming h = refl
phase_of-phase_arg Phase.done h = absurd (h refl)

or_exit-some {ℓ} :
    {A : Type ℓ} {o : Option A} {v : A} (f : A → Args)
    → o ≡ some v
    → or_exit o f ≡ Parsed.parsed (f v)
or_exit-some f e = ap (λ o. or_exit o f) e

mode_of-mode_name : (m : Mode) → mode_of (mode_name m) ≡ some m
unfolding mode_of
mode_of-mode_name Mode.import = refl
mode_of-mode_name Mode.delta = refl
mode_of-mode_name Mode.poll = refl

-- What `parseArgs` demands.
abbrev pub IsComplete : Args → Type 0
IsComplete a =
    (a.server ≢ "")
    × (a.database ≢ "")
    × (a.user ≢ "")
    × (a.mode ≡ Mode.import → a.infile ≢ "")
    × (a.mode ≡ Mode.delta → a.osc_file ≢ "")

-- The numbers are patterns of `int` and of `int64_t`.
pub record FitTypes (a : Args) : Type 0 where
  pub queue_size : a.queue_size < 2 ^ 32
  pub node_threads : a.node_threads < 2 ^ 32
  pub way_threads : a.way_threads < 2 ^ 32
  pub poll_interval : a.poll_interval < 2 ^ 32
  pub max_node_id : a.max_node_id < 2 ^ 64
  pub sequence : a.sequence < 2 ^ 64

mode_eq→≡ : (m n : Mode) → mode_eq m n ≡ true → m ≡ n
mode_eq→≡ Mode.import Mode.import h = refl
mode_eq→≡ Mode.delta Mode.delta h = refl
mode_eq→≡ Mode.poll Mode.poll h = refl
mode_eq→≡ _ _ h = cc h

check_args_complete : (a : Args) → IsComplete a → check_args a ≡ Parsed.parsed a
unfolding check_args
check_args_complete a h = ground (
  arith,
  eq_iff a.server "",
  eq_iff a.database "",
  eq_iff a.user "",
  eq_iff a.infile "",
  eq_iff a.osc_file "",
  mode_eq→≡ a.mode Mode.import,
  mode_eq→≡ a.mode Mode.delta,
  h.3,
  h.4,
)

module _ (stoi stoll : String → Option ℕ) where
  -- One option with its value.
  loop-option :
      (flag val : String) (rest : List String) (a : Args) {b : Args}
      → takes_value (flag_of flag) ≡ true
      → with_value stoi stoll (flag_of flag) val a ≡ Parsed.parsed b
      → parse_loop stoi stoll (flag ∷ val ∷ rest) a ≡ parse_loop stoi stoll rest b
  unfolding parse_loop
  loop-option flag val rest a t w = rw (t, w, parse_loop)

  -- The switches at the end.
  loop-switches :
      (v i m : Bool) (a : Args)
      → parse_loop stoi stoll
          (switch "-v" v (switch "--init" i (switch "-L" (not m) [])))
          (record a { verbose = false; init_schema = false; use_mercator = true })
        ≡ Parsed.parsed (record a { verbose = v; init_schema = i; use_mercator = m })
  unfolding parse_loop flag_of takes_value without_value
  loop-switches true true true a = refl
  loop-switches true true false a = refl
  loop-switches true false true a = refl
  loop-switches true false false a = refl
  loop-switches false true true a = refl
  loop-switches false true false a = refl
  loop-switches false false true a = refl
  loop-switches false false false a = refl

  module _ (show show64 : ℕ → String) (reads : (n : ℕ) → n < 2 ^ 32 → stoi (show n) ≡ some n)
      (reads64 : (n : ℕ) → n < 2 ^ 64 → stoll (show64 n) ≡ some n) where
    -- A command line that gives every option its value is read as these options, if the program accepts
    -- them and its numbers fit their types, whatever their defaults are. `show` and `show64` print the 32-bit
    -- and the 64-bit patterns so that `std::stoi` and `std::stoll` read them back.
    pub parse_args-to_argv :
        (a : Args)
        → IsComplete a
        → FitTypes a
        → a.resume_phase ≢ Phase.done
        → parse_args stoi stoll (to_argv show show64 a) ≡ Parsed.parsed a
    unfolding parse_args to_argv flag_of takes_value with_value
    parse_args-to_argv a h fit p =
        ap (λ r. r and_then check_args)
          (loop-option "-i" a.infile _ _ refl refl
            ∙ loop-option "--server" a.server _ _ refl refl
            ∙ loop-option "-d" a.database _ _ refl refl
            ∙ loop-option "--user" a.user _ _ refl refl
            ∙ loop-option "-l" a.log_file _ _ refl refl
            ∙ loop-option "--nodes-file" a.nodes_file _ _ refl refl
            ∙ loop-option "-S" a.shard_dir _ _ refl refl
            ∙ loop-option "--max-node-id" _ _ _ refl
                (or_exit-some _ (reads64 a.max_node_id fit.max_node_id))
            ∙ loop-option "-q" _ _ _ refl (or_exit-some _ (reads a.queue_size fit.queue_size))
            ∙ loop-option "--node-threads" _ _ _ refl
                (or_exit-some _ (reads a.node_threads fit.node_threads))
            ∙ loop-option "-w" _ _ _ refl (or_exit-some _ (reads a.way_threads fit.way_threads))
            ∙ loop-option "--osc-file" a.osc_file _ _ refl refl
            ∙ loop-option "-m" _ _ _ refl (or_exit-some _ (mode_of-mode_name a.mode))
            ∙ loop-option "--replication" a.replication _ _ refl refl
            ∙ loop-option "-Q" _ _ _ refl (or_exit-some _ (reads64 a.sequence fit.sequence))
            ∙ loop-option "--poll-interval" _ _ _ refl
                (or_exit-some _ (reads a.poll_interval fit.poll_interval))
            ∙ loop-option "-R" _ _ _ refl (or_exit-some _ (phase_of-phase_arg a.resume_phase p))
            ∙ loop-switches a.verbose a.init_schema a.use_mercator a)
        ∙ check_args_complete a h
