-- ===== src/Tests/RunCases.antt =====
-- The command line, the reader loop, the blobs and the OurAirports loaders at concrete inputs.
use osmpgsqlimport.Prelude.{
  ℕ, str_eq, eq_iff, ◌+◌, ◌≡◌, ◌≢◌, ◌⊎◌, refl, inr, Bool, true, false, List, [], ◌∷◌, ◌++◌, map,
  length, Option, none, some, String, Bytes, codes, arith,
}
use osmpgsqlimport.Prelude.Double.{Double, Point}
use osmpgsqlimport.Tests.ImportCases.{strokes, read_strokes, read_strokes-strokes}
use osmpgsqlimport.Pbf.{OsmEntry}
use osmpgsqlimport.Pbf.Block.{PrimitiveBlock, parse_primitive_block, parse_groups}
use osmpgsqlimport.Pbf.Blobs.{BlobHeader, Blob, entries_of_block, blob_bytes, read_all}
use osmpgsqlimport.Pbf.Blobs.Frames.{be_bytes, Frame, frame_bytes, file_bytes}
use osmpgsqlimport.Pbf.Blobs.Reading.{Framed, read_all-Framed, read_all_total}
use osmpgsqlimport.CommandLine.{Phase, Args, default_args, Parsed, parse_args}
use osmpgsqlimport.CommandLine.Laws.{IsComplete, FitTypes, to_argv, parse_args-to_argv}
use osmpgsqlimport.Producer.{Block, start_producer, read_blocks, read_file, is_relation, is_way}
use osmpgsqlimport.Producer.Actions.{way_pushes, node_pushes, offset_after, Stage, stage_after}
use osmpgsqlimport.Producer.Laws.{placed_entries, entries_of}
use osmpgsqlimport.Producer.Phases.{
  is_other, head_nodes, from_other, in_turn, first_start, end_stage, read_blocks-nodes,
}
use osmpgsqlimport.Producer.Kinds.{only}
use osmpgsqlimport.Producer.RelationsOffset.{relations_offset_after}
use osmpgsqlimport.Producer.Resume.{read_file-resumed, read_file-relations}
use osmpgsqlimport.Wkb.Decode.Laws.{All}
use osmpgsqlimport.Csv.Laws.{Field, text, csv_line, field_text, escaped}
use osmpgsqlimport.Airports.{Row, read_table}
use osmpgsqlimport.Airports.Tables.{Table, Run, country_row}
use osmpgsqlimport.Airports.Load.{load_airports_data}
use osmpgsqlimport.Airports.Laws.{file_of, has_break, wanted, loaded, Prefix, read_table-csv}
use osmpgsqlimport.Airports.Complete.{copies, load_airports_data-Prefix}

abbrev given : Args
given = record default_args {
  infile = "berlin.osm.pbf";
  server = "localhost";
  database = "osm";
  user = "importer";
  max_node_id = 9;
  queue_size = 5;
  way_threads = 2;
  sequence = 1;
  poll_interval = 3;
  verbose = true;
  resume_phase = Phase.ways;
}

not_blank : (s : String) → str_eq s "" ≡ false → s ≢ ""
not_blank s n e = ground (arith, eq_iff s "")

given-IsComplete : IsComplete given
given-IsComplete = (
  not_blank "localhost" refl,
  not_blank "osm" refl,
  not_blank "importer" refl,
  λ m. not_blank "berlin.osm.pbf" refl,
  λ m. cc m,
)

given-FitTypes : FitTypes given
given-FitTypes = record {
  queue_size = omega arith;
  node_threads = omega arith;
  way_threads = omega arith;
  poll_interval = omega arith;
  max_node_id = omega arith;
  sequence = omega arith;
}

ways_not_done : Phase.ways ≢ Phase.done
ways_not_done = λ e. cc e

parse_args-to_argv_example :
    parse_args read_strokes read_strokes (to_argv strokes strokes given) ≡ Parsed.parsed given
parse_args-to_argv_example =
    parse_args-to_argv read_strokes read_strokes strokes strokes (λ n _. read_strokes-strokes n)
      (λ n _. read_strokes-strokes n) given given-IsComplete given-FitTypes ways_not_done

abbrev node : ℕ → OsmEntry
node i = OsmEntry.node_entry (record { id = i; name = ""; lon = 0; lat = 0; tags = [] })

abbrev way : ℕ → OsmEntry
way i = OsmEntry.way_entry (record { id = i; name = ""; node_refs = i ∷ []; tags = [] })

abbrev rel : ℕ → OsmEntry
rel i = OsmEntry.relation_entry (record { id = i; name = ""; way_members = []; tags = [] })

abbrev blocks : List Block
blocks =
    record { entries = node 1 ∷ node 2 ∷ []; end_position = 40 }
    ∷ record { entries = node 3 ∷ way 4 ∷ []; end_position = 70 }
    ∷ record { entries = rel 5 ∷ []; end_position = 90 }
    ∷ []

read_blocks-nodes_example :
    let q = read_blocks Phase.nodes 2 8 blocks (start_producer Phase.nodes 2) in
    let es = entries_of (placed_entries 8 blocks) in
    (head_nodes es ++ from_other es ≡ es)
    × (node_pushes q.actions ≡ in_turn 2 0 (head_nodes es))
    × (way_pushes q.actions ≡ from_other es)
    × (stage_after Stage.filling q.actions ≡ some (end_stage (from_other es)))
    × ((o : Option ℕ) → offset_after o q.actions ≡ first_start is_other o (placed_entries 8 blocks))
read_blocks-nodes_example = read_blocks-nodes 2 8 blocks

read_file-resumed_example :
    let q = read_file Phase.nodes 2 none none 8 blocks in
    let r = read_file Phase.ways 1 (offset_after none q.actions) none 8 blocks in
    (only is_other (way_pushes r.actions) ≡ only is_other (way_pushes q.actions))
    × (node_pushes r.actions ≡ [])
read_file-resumed_example = read_file-resumed Phase.ways 2 1 8 blocks none (inr refl)

read_file-relations_example :
    let q = read_file Phase.nodes 2 none none 8 blocks in
    let r =
      read_file Phase.relations 1
        (offset_after none q.actions)
        (relations_offset_after none q.actions)
        8
        blocks in
    (only is_relation (way_pushes r.actions) ≡ only is_relation (way_pushes q.actions))
    × (only is_way (way_pushes r.actions) ≡ [])
read_file-relations_example =
    read_file-relations 2 1 8 blocks
      (relations_offset_after none (read_file Phase.nodes 2 none none 8 blocks).actions) (inr refl)

-- A header of one byte that says how long its blob is, and blobs as they are.
abbrev header_of : Bytes → Option BlobHeader
header_of [] = none
header_of (n ∷ s) = some (record { blob_type = "OSMData"; datasize = n })

abbrev raw_blob : Bytes → Option Blob
raw_blob s = some (record { zlib_data = none; raw_size = none; raw = some s })

abbrev no_zlib : ℕ → Bytes → Option Bytes
no_zlib n s = none

abbrev no_groups : Bytes → Option PrimitiveBlock
no_groups s =
    some (record { granularity = 100; lat_offset = 0; lon_offset = 0; strtable = []; groups = [] })

abbrev frames : List Frame
frames = record { header = 0 ∷ []; body = [] } ∷ record { header = 2 ∷ []; body = 7 ∷ 9 ∷ [] } ∷ []

frames-Framed :
    Framed header_of raw_blob no_zlib no_groups
      (λ n. n)
      0
      frames
      (record { entries = []; end_position = 12 } ∷ [])
unfolding blob_bytes entries_of_block parse_primitive_block parse_groups frame_bytes be_bytes
frames-Framed =
    Framed.skipped {h = record { blob_type = "OSMData"; datasize = 0 }}
      {b = record { zlib_data = none; raw_size = none; raw = some [] }}
      (record {
        short = omega arith;
        has_header = refl;
        sized = refl;
        no_neg = omega arith;
        has_blob = refl;
      })
      refl
      (Framed.block {h = record { blob_type = "OSMData"; datasize = 2 }}
        {b = record { zlib_data = none; raw_size = none; raw = some (7 ∷ 9 ∷ []) }}
        (record {
          short = omega arith;
          has_header = refl;
          sized = refl;
          no_neg = omega arith;
          has_blob = refl;
        })
        refl refl Framed.nothing)

frames_size : ◌≡◌ {A = ℕ} 12 (0 + length (file_bytes frames))
unfolding file_bytes frame_bytes be_bytes
frames_size = refl

read_all-Framed_example :
    read_all header_of raw_blob no_zlib no_groups (λ n. n) 2 12 (file_bytes frames)
    ≡ some (record { entries = []; end_position = 12 } ∷ [], false)
read_all-Framed_example =
    read_all-Framed header_of raw_blob no_zlib no_groups (λ n. n) 2 12 0 frames
      (record { entries = []; end_position = 12 } ∷ []) (omega arith) frames_size frames-Framed

read_all_total_example :
    (bs : List Block) × (thrown : Bool) × (read_all header_of raw_blob no_zlib no_groups
        (λ n. n)
        5
        4
        (0 ∷ 0 ∷ 0 ∷ 1 ∷ [])
      ≡ some (bs, thrown))
read_all_total_example =
    read_all_total header_of raw_blob no_zlib no_groups (λ n. n) 5 4 (0 ∷ 0 ∷ 0 ∷ 1 ∷ [])
      (omega arith)

abbrev count_of : Bytes → Option ℕ
count_of [] = none
count_of (c ∷ s) = some (length s)

abbrev place_at : Double → Double → Point
place_at x y = (x, y)

abbrev country : List (Field × List Field)
country =
    (
      Field.quoted (codes "1"),
      Field.quoted (codes "AD") ∷ Field.quoted (codes "Andorra, \"el\"") ∷ Field.quoted [] ∷ [],
    )
    ∷ (Field.quoted (codes "2"), [])
    ∷ []

country-has_break :
    All
      (λ line. has_break line ≡ false)
      (codes "id,code" ∷ map (λ (r : Field × List Field). csv_line r.0 r.1) country)
unfolding has_break csv_line field_text escaped
country-has_break = (refl, (refl, (refl, tt)))

read_table-csv_example :
    read_table 4
      (country_row count_of count_of place_at)
      (file_of (codes "id,code" ∷ map (λ (r : Field × List Field). csv_line r.0 r.1) country))
    ≡ loaded (
        wanted 4
          (country_row count_of count_of place_at)
          (map (λ (r : Field × List Field). text r.0 ∷ map text r.1) country))
read_table-csv_example =
    read_table-csv 4 (country_row count_of count_of place_at) (codes "id,code") country
      country-has_break

abbrev taken : Table → List Row → List Row → Bool
taken Table.regions old new = false
taken _ old new = true

abbrev csv_file : Table → Option Bytes
csv_file table = some (file_of (codes "id,code" ∷ codes "1,AD,Andorra,EU" ∷ codes "2" ∷ []))

load_airports_data-Prefix_example :
    ((table : Table) × (table ≢ Table.tags)
      × (csv_file table ≡ none)
      × (load_airports_data taken count_of count_of place_at csv_file (λ _. [])
          ≡ Run.goes_on (λ _. [])))
    ⊎ ((contents : Table → Bytes) × ((table : Table)
          → table ≢ Table.tags
          → csv_file table ≡ some (contents table))
        × Prefix taken
            (copies taken count_of count_of place_at contents)
            (λ _. [])
            (load_airports_data taken count_of count_of place_at csv_file (λ _. [])))
load_airports_data-Prefix_example =
    load_airports_data-Prefix taken count_of count_of place_at csv_file (λ _. [])
