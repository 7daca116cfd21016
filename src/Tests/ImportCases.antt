-- ===== src/Tests/ImportCases.antt =====
-- The readers, the worker threads and the delta mode at concrete inputs.
use osmpgsqlimport.Osc.{ParseState, initial_state}
use osmpgsqlimport.Osc.Written.{XmlEvent, run_events, Written, IsPrintable, file_events, changes_of}
use osmpgsqlimport.Osc.Laws.{run_events-file_events}
use osmpgsqlimport.Prelude.{
  zero, suc, ap, ℕ, ◌<◌, ◌^◌, ◌/◌, ◌%◌, ◌&&◌, not, ◌-◌, ◌≡◌, refl, Bool, true, false, List, [], ◌∷◌,
  ◌++◌, ◌==◌, is_empty, if◌then◌else◌, Option, none, some, String, arith,
}
use osmpgsqlimport.Prelude.Double.{Double, Point, is_zero, same_point}
use osmpgsqlimport.Tags.Area.{is_area}
use osmpgsqlimport.Store.Bitmap.{bitmap_get, test_bit}
use osmpgsqlimport.Store.Merge.Slots.{select, IsValid}
use osmpgsqlimport.Store.NodeStore.{NodeStore}
use osmpgsqlimport.Wkb.{write_points, write_double, write_uint32}
use osmpgsqlimport.Wkb.Way.{build_way_geom, back_of}
use osmpgsqlimport.Pbf.{PbfNode, parse_dense, parse_nodes}
use osmpgsqlimport.Pbf.Laws.{IsPairs, AreNodes, to_dense, parse_dense-to_dense}
use osmpgsqlimport.Replication.{Replica, poll_round}
use osmpgsqlimport.Replication.Laws.{Outcome, poll_round-Outcome}
use osmpgsqlimport.Db.Nav.{
  Kind, kind_eq, Nav, Server, Called, geom_row, new_nav, find_row, flush_via_temp,
}
use osmpgsqlimport.Db.Nav.Inserts.{stored}
use osmpgsqlimport.Delta.{
  NodeEntry, WayEntry, RelationEntry, ChangeType, Applier, Applied, way_coords, modify_way,
  delete_node,
}
use osmpgsqlimport.Delta.Geometry.{delta_way_geom, build_line_wkb, to_hex_lower, ends_meet}
use osmpgsqlimport.Delta.Laws.{modify_way-find_row, delete_node-select}
use osmpgsqlimport.Import.{
  Worker, Worked, way_thread, import_way, visit_entries, ensure_way_phase, end_way_phase,
}
use osmpgsqlimport.Import.Laws.{way_thread-arrivals, import_way-stored}

abbrev pbf_nodes : List PbfNode
pbf_nodes =
    record { id = 9; lat = 100; lon = 200; keys = 1 ∷ []; vals = 2 ∷ [] }
    ∷ record { id = 4; lat = 90; lon = 210; keys = []; vals = [] }
    ∷ []

abbrev strings : List String
strings = "" ∷ "amenity" ∷ "bench" ∷ []

abbrev same : ℕ → Double
same x = x

parse_dense-to_dense_example :
    parse_dense strings same same (to_dense pbf_nodes) ≡ parse_nodes strings same same pbf_nodes
parse_dense-to_dense_example = parse_dense-to_dense strings same same pbf_nodes (
    AreNodes.cons (omega arith) (omega arith) (omega arith) (IsPairs.cons refl IsPairs.nil)
      (AreNodes.cons (omega arith) (omega arith) (omega arith) IsPairs.nil AreNodes.nil))

abbrev available : ℕ → Bool
available seq = true

abbrev apply_number : ℕ → List ℕ → List ℕ × Bool
apply_number seq done = (done ++ seq ∷ [], true)

abbrev never : ℕ → Bool
never seq = false

abbrev replica : Replica (List ℕ)
replica = record { sequence = 5; state = [] }

poll_round-Outcome_example :
    Outcome available apply_number never
      (8 - 5)
      replica
      (poll_round available apply_number never 8 replica)
poll_round-Outcome_example = poll_round-Outcome available apply_number never 8 replica

abbrev taking : Server
taking = record { copy = λ _ _ _. none; copy_tags = λ _ _ _. none }

abbrev start : Nav
start = new_nav 0 (λ _. []) (λ _. [])

abbrev any : String → Bool
any s = true

abbrev store : NodeStore
store = record {
  shards = [];
  merged = record { slots = (1, 2) ∷ (3, 4) ∷ []; bm = 3 ∷ [] };
  max_id = 1;
  merge_progress = 0;
  merge_total = 0;
}

abbrev no_coords : Nav → ℕ → Option (List Point)
no_coords n i = none

abbrev lane : WayEntry
lane = record { id = 7; name = "lane"; node_refs = 0 ∷ 1 ∷ []; tags = ("highway", "track") ∷ [] }

abbrev route : RelationEntry
route = record { id = 8; name = "A1"; way_members = []; tags = ("route", "road") ∷ [] }

import_way-stored_example :
    (t : Nav) × (import_way taking any 3857 no_coords store lane start ≡ Called.returned t)
    × ((l : Kind)
        → stored l t
          ≡ stored l start
            ++ (let (geog, closed) = build_way_geom 3857 (way_coords store lane.node_refs) false in
                if is_empty geog
                then []
                else if kind_eq (if is_area closed lane.tags then Kind.area else Kind.way) l
                then geom_row lane.id lane.name geog ∷ []
                else []))
import_way-stored_example =
    import_way-stored taking any 3857 no_coords store lane start (λ _ _ _. refl) (λ _ _ _. refl)

abbrev worker : Worker
worker = record { nav = start; way_phase_done = true; arrivals = 1 }

no_entries : way_thread taking any 3857 no_coords store false [] start ≡ Worked.goes_on worker
unfolding way_thread visit_entries ensure_way_phase end_way_phase flush_via_temp new_nav
no_entries = refl

way_thread-arrivals_example : worker.arrivals ≡ 1
way_thread-arrivals_example =
    way_thread-arrivals taking any 3857 no_coords store false [] start worker no_entries

abbrev applier : Applier
applier = record { store = store; nav = start; created = 0; modified = 0; deleted = 0 }

abbrev project : Double → Double → Point
project x y = (x, y)

abbrev bench : NodeEntry
bench = record { id = 1; name = ""; lon = 5; lat = 6; tags = ("amenity", "bench") ∷ [] }

store-IsValid : IsValid store.merged
store-IsValid = record { bytes = (omega arith, tt); covers = refl; few = omega arith }

delete_node-select_example :
    (b : Applier) × (delete_node taking any 3857 project 1 applier ≡ Applied.done b)
    × (select b.store.merged 1 ≡ (if 1 == 1 then none else select applier.store.merged 1))
    × (find_row 1 (b.nav.tables Kind.node)
        ≡ (if 1 == 1 then none else find_row 1 (applier.nav.tables Kind.node)))
delete_node-select_example =
    delete_node-select taking any 3857 project 1 applier 1 store-IsValid (omega arith) (omega arith)

lane_has_geometry : is_empty (delta_way_geom 3857 (way_coords store lane.node_refs)).0 ≡ false
unfolding delta_way_geom way_coords select bitmap_get test_bit build_line_wkb to_hex_lower
    write_points write_double ends_meet same_point back_of write_uint32
lane_has_geometry = refl

modify_way-find_row_example :
    (b : Applier) × (modify_way taking any 3857 project lane applier ≡ Applied.done b)
    × (find_row lane.id (b.nav.tables Kind.way) ≡ none)
    × (find_row lane.id (b.nav.tables Kind.area) ≡ none)
modify_way-find_row_example =
    modify_way-find_row taking any 3857 project lane applier lane_has_geometry

-- Numbers in strokes.
pub strokes : ℕ → String
strokes zero = ""
strokes (suc n) = String.◌∷◌ "1" (strokes n)

tally : String → ℕ
tally String.[] = 0
tally (String.◌∷◌ c s) = suc (tally s)

pub read_strokes : String → Option ℕ
read_strokes s = some (tally s)

pub read_strokes-strokes : (i : ℕ) → read_strokes (strokes i) ≡ some i
unfolding read_strokes strokes tally
read_strokes-strokes i = ap some (on i)
  where
    on : (n : ℕ) → tally (strokes n) ≡ n
    on zero = refl
    on (suc n) = ap suc (on n)

abbrev written : List Written
written =
    Written.node ChangeType.create 3 0x4014000000000000 0x4018000000000000 (("name", "Bank") ∷ [])
    ∷ Written.way ChangeType.modify 7 (3 ∷ 0 ∷ 4 ∷ []) []
    ∷ []

printable :
    (x : Double)
    → x < 2 ^ 64
    → (x / 2 ^ 52 % 2 ^ 11 == 2047) ≡ false
    → (x / 2 ^ 52 % 2 ^ 11 == 0 && not (is_zero x)) ≡ false
    → IsPrintable x
printable x h f n = record { fits = h; finite = f; normal = n }

run_events-file_events_example :
    (s : ParseState) × (run_events read_strokes read_strokes
        (XmlEvent.start "osmChange" [] ∷ file_events strokes strokes written)
        initial_state
      ≡ some s)
    × (s.changes ≡ changes_of written)
run_events-file_events_example =
    run_events-file_events read_strokes read_strokes strokes (λ i _. read_strokes-strokes i) strokes
      (λ x _. read_strokes-strokes x) written
      (
        (
          omega arith,
          printable 0x4014000000000000 (omega arith) refl refl,
          printable 0x4018000000000000 (omega arith) refl refl,
        ),
        ((omega arith, (omega arith, (omega arith, (omega arith, tt)))), tt),
      )
