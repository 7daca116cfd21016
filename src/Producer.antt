-- ===== src/Producer.antt =====
-- The loop of `main` in src/main.cpp that reads the file and hands its entries to the worker threads, and
-- where it starts when an import resumes.
pub mod Actions
pub mod Laws
pub mod Phases
pub mod Kinds
pub mod RelationsOffset
pub mod Resume
use osmpgsqlimport.Prelude.{
  ℕ, ◌+◌, ◌%◌, Bool, true, false, not, ◌||◌, ◌&&◌, List, [], ◌∷◌, ◌++◌, ◌==◌, if◌then◌else◌, Option,
  none, some,
}
use osmpgsqlimport.Pbf.{OsmEntry}
use osmpgsqlimport.CommandLine.{Phase}

-- A block of the file: the entries that `OSMReader::next` gives for it, and `getPosition()` after it.
pub record Block : Type 0 where
  pub entries : List OsmEntry
  pub end_position : ℕ

-- What the loop does to the queues and the offset files, in its order.
pub data Action : Type 0 where
  to_node_queue : ℕ → OsmEntry → Action
  end_node_queues : Action
  save_offset : ℕ → Action
  await_merge : Action
  save_relations_offset : ℕ → Action
  to_way_queue : OsmEntry → Action

-- `rr`, `node_phase` and `relations_offset_written`, with the actions so far.
pub record Producer : Type 0 where
  pub rr : ℕ
  pub node_phase : Bool
  pub relations_offset_written : Bool
  pub actions : List Action

abbrev pub phase_eq : Phase → Phase → Bool
phase_eq Phase.nodes Phase.nodes = true
phase_eq Phase.merging Phase.merging = true
phase_eq Phase.ways Phase.ways = true
phase_eq Phase.reindexing Phase.reindexing = true
phase_eq Phase.indexing Phase.indexing = true
phase_eq Phase.relations Phase.relations = true
phase_eq Phase.airports_loading Phase.airports_loading = true
phase_eq Phase.vacuuming Phase.vacuuming = true
phase_eq Phase.done Phase.done = true
phase_eq _ _ = false

-- `std::holds_alternative`
abbrev pub is_node : OsmEntry → Bool
is_node (OsmEntry.node_entry n) = true
is_node _ = false

abbrev pub is_way : OsmEntry → Bool
is_way (OsmEntry.way_entry w) = true
is_way _ = false

abbrev pub is_relation : OsmEntry → Bool
is_relation (OsmEntry.relation_entry r) = true
is_relation _ = false

abbrev pub does : List Action → Producer → Producer
does more p = record p { actions = p.actions ++ more }

-- `resume_phase`, and `node_threads`, which is not 0.
module _ (resume_phase : Phase) (node_threads : ℕ) where
  -- `skip_nodes`
  unfoldable pub skip_nodes : Bool
  skip_nodes = phase_eq resume_phase Phase.ways || phase_eq resume_phase Phase.relations

  unfoldable pub start_producer : Producer
  unfolding skip_nodes
  start_producer = record {
    rr = 0;
    node_phase = not skip_nodes;
    relations_offset_written = false;
    actions = [];
  }

  -- A node in the node phase.
  unfoldable pub emit_node : OsmEntry → Producer → Producer
  emit_node e p =
      if phase_eq resume_phase Phase.merging
      then p
      else does (Action.to_node_queue (p.rr % node_threads) e ∷ []) (record p { rr = p.rr + 1 })

  -- The first entry that is no node.
  unfoldable pub end_node_phase : ℕ → Producer → Producer
  end_node_phase blob_start p =
      if p.node_phase
      then does (Action.end_node_queues ∷ Action.save_offset blob_start ∷ Action.await_merge ∷ [])
          (record p { node_phase = false })
      else p

  -- The first relation.
  unfoldable pub note_relation : ℕ → OsmEntry → Producer → Producer
  note_relation blob_start e p =
      if is_relation e && not p.relations_offset_written
      then does (Action.save_relations_offset blob_start ∷ [])
          (record p { relations_offset_written = true })
      else p

  -- All other entries.
  unfoldable pub emit_other : ℕ → OsmEntry → Producer → Producer
  emit_other blob_start e p =
      if phase_eq resume_phase Phase.relations && is_way e
      then end_node_phase blob_start p
      else does (Action.to_way_queue e ∷ [])
          (note_relation blob_start e (end_node_phase blob_start p))

  unfoldable pub emit_entry : ℕ → OsmEntry → Producer → Producer
  emit_entry blob_start e p =
      if p.node_phase && is_node e then emit_node e p else emit_other blob_start e p

  unfoldable pub emit_entries : ℕ → List OsmEntry → Producer → Producer
  emit_entries blob_start [] p = p
  emit_entries blob_start (e ∷ es) p = emit_entries blob_start es (emit_entry blob_start e p)

  -- `while (reader.next(batch))`. A block starts where the one before it ends.
  unfoldable pub read_blocks : ℕ → List Block → Producer → Producer
  read_blocks blob_start [] p = p
  read_blocks blob_start (b ∷ bs) p =
      read_blocks b.end_position bs (emit_entries blob_start b.entries p)

-- `seekTo(offset)`: the blocks from there on. The offsets that are used are starts of blocks.
unfoldable pub seek_to : ℕ → ℕ → List Block → List Block
seek_to offset start [] = []
seek_to offset start (b ∷ bs) = if start == offset then b ∷ bs else seek_to offset b.end_position bs

-- The offset that a resumed import seeks to: what `readResumeOffset` and `readRelationsResumeOffset` give.
unfoldable pub resume_offset : Phase → Option ℕ → Option ℕ → Option ℕ
resume_offset Phase.relations offset (some relations_offset) = some relations_offset
resume_offset Phase.relations offset none = offset
resume_offset Phase.merging offset relations_offset = offset
resume_offset Phase.ways offset relations_offset = offset
resume_offset _ offset relations_offset = none

-- A run from an offset, or from the start of the file where there is none.
unfoldable pub run_from : Phase → ℕ → Option ℕ → ℕ → List Block → Producer
run_from phase n none start bs = read_blocks phase n start bs (start_producer phase n)
run_from phase n (some o) start bs =
    read_blocks phase n o (seek_to o start bs) (start_producer phase n)

-- The reader loop of a run with `node_threads` node threads, on a file whose blocks begin at `start`, with
-- what the two offset files hold.
unfoldable pub read_file : Phase → ℕ → Option ℕ → Option ℕ → ℕ → List Block → Producer
read_file phase node_threads offset relations_offset =
    run_from phase node_threads (resume_offset phase offset relations_offset)
