-- ===== src/Tests/MainCases.antt =====
-- Polling, the course of an import, the phase log and the node threads at concrete inputs.
use osmpgsqlimport.Prelude.{
  ℕ, ◌%◌, ◌^◌, ◌≡◌, refl, sym, ap, append_assoc, Bool, true, false, List, [], ◌∷◌, ◌++◌, map,
  Option, none, some, String, Bytes, codes,
}
use osmpgsqlimport.Prelude.Double.{Double, Point}
use osmpgsqlimport.Pbf.{OsmEntry}
use osmpgsqlimport.CommandLine.{Phase}
use osmpgsqlimport.Replication.Poll.{Poller, Round, poll}
use osmpgsqlimport.Replication.Poll.Laws.{Applied, poll-Applied}
use osmpgsqlimport.Osc.{initial_state}
use osmpgsqlimport.Osc.Written.{XmlEvent}
use osmpgsqlimport.Osc.Parse.{parse, handled}
use osmpgsqlimport.Osc.Parse.Laws.{outcome, parse-whole}
use osmpgsqlimport.Main.Rules.{Database, may_have_rows}
use osmpgsqlimport.Main.{Table as DbTable}
use osmpgsqlimport.Status.{Counter, Event, start_status, run_events}
use osmpgsqlimport.Status.Laws.{report, how_many, run_events-report}
use osmpgsqlimport.Prelude.Word.{le_bytes}
use osmpgsqlimport.Store.Bitmap.{bitmap_set}
use osmpgsqlimport.Store.Shard.{rec_bytes, ok, ShardWriter, insert_shard, grow_bitmap, append_rec}
use osmpgsqlimport.Store.NodeStore.{NodeStore, insert}
use osmpgsqlimport.Store.NodeStore.NodePhase.{run_inserts}
use osmpgsqlimport.Db.Nav.{Kind, Server, new_nav}
use osmpgsqlimport.Db.Nav.Inserts.{stored}
use osmpgsqlimport.Db.Nav.Nodes.{node_tags}
use osmpgsqlimport.Delta.{NodeEntry, Applier, create_node, modify_node}
use osmpgsqlimport.Delta.Laws.{Stored, create_node-select}
use osmpgsqlimport.Import.{NodeWorker, NodeWorked, project, node_thread}
use osmpgsqlimport.Import.Nodes.{inserts_of, rows_of, tags_of, node_thread-stored}

abbrev state_txt : Round
state_txt = record {
  interrupted = false;
  state_file = some (codes "#a comment" ∷ codes "sequenceNumber=7" ∷ []);
}

abbrev unreachable : Round
unreachable = record { interrupted = false; state_file = none }

abbrev poller : Poller (List ℕ)
poller = record { sequence = some 5; state = [] }

abbrev seven : Bytes → Option ℕ
seven digits = some 7

abbrev all_there : ℕ → Bool
all_there seq = true

abbrev note_number : ℕ → List ℕ → List ℕ × Bool
note_number seq done = (done ++ seq ∷ [], true)

abbrev never : ℕ → Bool
never seq = false

poll-Applied_example :
    Applied seven all_there note_number never 5 []
      (poll seven all_there note_number never (unreachable ∷ state_txt ∷ []) poller)
poll-Applied_example =
    poll-Applied seven all_there note_number never (unreachable ∷ state_txt ∷ []) poller 5 refl

abbrev half_done : Database
half_done = record {
  autovacuum = true;
  has_rows = may_have_rows Phase.ways;
  unvacuumed = λ _. true;
}

abbrev thousandths : ℕ → Double
thousandths us = us

abbrev two_ways : List (Event thousandths)
two_ways =
    Event.counted Counter.nodes
    ∷ Event.advanced Phase.nodes Phase.merging 7
    ∷ Event.counted Counter.ways
    ∷ Event.counted Counter.areas
    ∷ Event.advanced Phase.ways Phase.relations 9
    ∷ []

run_events-report_example :
    ((run_events thousandths two_ways (start_status 3)).phase_log ≡ report thousandths 3 0 two_ways)
    × ((c : Counter)
        → (run_events thousandths two_ways (start_status 3)).counts c
          ≡ how_many thousandths c two_ways % 2 ^ 64)
    × ((run_events thousandths two_ways (start_status 3)).totals
        ≡ (run_events thousandths two_ways (start_status 3)).counts)
run_events-report_example = run_events-report thousandths two_ways 3 refl (refl, (refl, tt))

abbrev taking : Server
taking = record { copy = λ _ _ _. none; copy_tags = λ _ _ _. none }

abbrev any_text : String → Bool
any_text s = true

abbrev open_shard : ShardWriter
open_shard = record {
  is_open = true;
  file = some [];
  bmp_exists = true;
  inbuf = [];
  bm = 0 ∷ [];
  chunks_since_sync = 0;
}

abbrev one_shard : NodeStore
one_shard = record {
  shards = open_shard ∷ [];
  merged = record { slots = []; bm = [] };
  max_id = 7;
  merge_progress = 0;
  merge_total = 0;
}

abbrev swapped : Double → Double → Point
swapped lon lat = (lat, lon)

abbrev cafe : NodeEntry
cafe = record { id = 2; name = "cafe"; lon = 3; lat = 4; tags = ("amenity", "cafe") ∷ [] }

abbrev corner : NodeEntry
corner = record { id = 5; name = ""; lon = 6; lat = 7; tags = [] }

abbrev after_two : NodeStore
after_two = record one_shard {
  shards =
      record open_shard {
        inbuf =
            rec_bytes (record { id = 2; lon_m = 4; lat_m = 3 })
            ++ rec_bytes (record { id = 5; lon_m = 7; lat_m = 6 });
        bm = bitmap_set (bitmap_set (0 ∷ []) 2) 5;
      }
      ∷ [];
}

abbrev node_worker : NodeWorker
node_worker = record { store = one_shard; nav = new_nav 0 (λ _. []) (λ _. []); forwarded = [] }

both_put :
    run_inserts one_shard (inserts_of taking any_text 3857 0 true swapped (cafe ∷ corner ∷ []))
    ≡ ok after_two
unfolding run_inserts insert insert_shard grow_bitmap append_rec rec_bytes le_bytes inserts_of
    project bitmap_set
both_put = refl

node_thread-stored_example :
    (v : NodeWorker) × (node_thread taking any_text 3857 0 true swapped
        (map OsmEntry.node_entry (cafe ∷ corner ∷ []))
        node_worker
      ≡ NodeWorked.runs v)
    × (v.store ≡ after_two)
    × (v.nav.bufs Kind.node ≡ [])
    × (v.nav.tables Kind.node
        ≡ stored Kind.node node_worker.nav
          ++ rows_of taking any_text 3857 0 true swapped (cafe ∷ corner ∷ []))
    × (v.nav.tag_buf ≡ [])
    × (v.nav.tag_tables Kind.node
        ≡ node_tags node_worker.nav
          ++ tags_of taking any_text 3857 0 true swapped (cafe ∷ corner ∷ []))
node_thread-stored_example =
    node_thread-stored taking any_text 3857 0 true swapped (cafe ∷ corner ∷ []) node_worker
      after_two both_put (λ _ _ _. refl) (λ _ _ _. refl)

abbrev applier : Applier
applier = record {
  store = one_shard;
  nav = new_nav 0 (λ _. []) (λ _. []);
  created = 0;
  modified = 0;
  deleted = 0;
}

create_node-select_example :
    Stored taking any_text 3857 swapped cafe applier 2
      (create_node taking any_text 3857 swapped cafe applier)
    × Stored taking any_text 3857 swapped cafe applier 2
        (modify_node taking any_text 3857 swapped cafe applier)
create_node-select_example = create_node-select taking any_text 3857 swapped cafe applier 2

abbrev a_start : ℕ → XmlEvent
a_start c = XmlEvent.start "osmChange" []

-- It reports everything with the last piece.
abbrev late_parse : Bytes → Bytes → Bool → Bytes × List XmlEvent × Bool
late_parse seen piece true = (seen ++ piece, map a_start (seen ++ piece), true)
late_parse seen piece false = (seen ++ piece, [], true)

abbrev no_number : String → Option ℕ
no_number text = none

parse-whole_example :
    parse late_parse no_number no_number [] (codes "<osm/>")
    ≡ some (
        outcome late_parse no_number no_number (
          handled late_parse no_number no_number
            (late_parse [] (codes "<osm/>") true)
            initial_state))
parse-whole_example =
    parse-whole late_parse no_number no_number [] (codes "<osm/>")
      (λ x a b. ap (λ (f : Bytes). (f, map a_start f, true)) (sym (append_assoc x a b)))
