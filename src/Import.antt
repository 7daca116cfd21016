-- ===== src/Import.antt =====
-- `nodeThread` and `wayThread` of src/main.cpp: what the worker threads of an import do with the entries
-- that they take from their queues. The counters of `Status` are left out.
pub mod Laws
pub mod Nodes
use osmpgsqlimport.Prelude.{
  ℕ, ◌+◌, Bool, true, false, ◌||◌, List, [], ◌∷◌, if◌then◌else◌, is_empty, Option, none, some,
  String, str_eq, Bytes,
}
use osmpgsqlimport.Prelude.Word.{neg64}
use osmpgsqlimport.Prelude.Double.{Double, Point}
use osmpgsqlimport.Tags.{Tags, lookup}
use osmpgsqlimport.Tags.Area.{is_area}
use osmpgsqlimport.Store.Shard.{Rec, ok, err}
use osmpgsqlimport.Store.NodeStore.{NodeStore, insert}
use osmpgsqlimport.Wkb.Way.{point_wkb, build_way_geom}
use osmpgsqlimport.Wkb.Lines.{merge_way_geoms}
use osmpgsqlimport.Rings.Multipolygon.{RelationMember, build_multipolygon}
use osmpgsqlimport.Db.Nav.{
  Kind, Nav, Server, Called, ◌then_do◌, insert_node, insert_way, insert_area, insert_road,
  insert_relation, flush_nodes, flush_via_temp, finalize_tags, finalize_ways,
}
use osmpgsqlimport.Delta.{NodeEntry, WayEntry, RelationEntry, way_coords, member_geoms, is_road}
use osmpgsqlimport.Pbf.{OsmEntry}

-- `type=multipolygon` or `type=boundary`.
unfoldable pub is_multipolygon : Tags → Bool
is_multipolygon tags = elim (lookup "type" tags) [
  | none ↦ false
  | some v ↦ str_eq v "multipolygon" || str_eq v "boundary"
]

-- A way thread: its connection, `way_phase_done`, and how often it has arrived at `way_barrier`.
pub record Worker : Type 0 where
  pub nav : Nav
  pub way_phase_done : Bool
  pub arrivals : ℕ

pub data Worked : Type 0 where
  goes_on dies : Worker → Worked

infixl 5 ◌next◌
abbrev pub ◌next◌ : Worked → (Worker → Worked) → Worked
(Worked.goes_on w) next f = f w
(Worked.dies w) next f = Worked.dies w

-- A call on the connection. An exception ends the thread.
abbrev pub with_called : Worker → Called → Worked
with_called w (Called.returned n) = Worked.goes_on (record w { nav = n })
with_called w (Called.raised n) = Worked.dies (record w { nav = n })

abbrev pub call : (Nav → Called) → Worker → Worked
call f w = with_called w (f w.nav)

-- PostgreSQL, the text test and PostGIS's decoding of the stored ways (`getWayCoordsMap`) are
-- parameters, and `g_srid` and the merged node store.
module _ (server : Server) (al : String → Bool) (srid : ℕ)
    (coords_of : Nav → ℕ → Option (List Point)) (store : NodeStore) where
  -- The way branch.
  unfoldable pub import_way : WayEntry → Nav → Called
  import_way w n =
      let (geog, closed) = build_way_geom srid (way_coords store w.node_refs) false in
      if is_empty geog
      then Called.returned n
      else if is_area closed w.tags
      then insert_area server al w.id w.name w.tags geog n
      else insert_way server al w.id w.name w.tags geog n

  -- `geoms.empty() ? "" : mergeWayGeoms(geoms)`
  unfoldable pub relation_text : Nav → RelationEntry → Bytes
  relation_text n r =
      let geoms = member_geoms n r.way_members in
      if is_empty geoms then [] else merge_way_geoms srid geoms

  -- The relation branch, after the barrier. A multipolygon is stored under the negative id.
  unfoldable pub import_multipolygon : RelationEntry → Nav → Called
  import_multipolygon r n =
      let geog = build_multipolygon srid (coords_of n) r.way_members in
      if is_empty geog
      then Called.returned n
      else insert_area server al (neg64 r.id) r.name r.tags geog n

  unfoldable pub import_lines : RelationEntry → Nav → Called
  import_lines r n =
      let geog = relation_text n r in
      insert_relation server al r.id r.name r.tags geog n then_do λ m.
      if is_empty geog
      then Called.returned m
      else if is_road r.tags
      then insert_road server al r.id r.name r.tags geog m
      else Called.returned m

  unfoldable pub import_relation : RelationEntry → Nav → Called
  import_relation r n = if is_multipolygon r.tags then import_multipolygon r n else import_lines r n

  -- The flush of the ways and `way_barrier.arrive_and_wait()`.
  unfoldable pub end_way_phase : Worker → Worked
  end_way_phase w = call (finalize_ways server) w next λ v.
      Worked.goes_on (record v { way_phase_done = true; arrivals = v.arrivals + 1 })

  unfoldable pub ensure_way_phase : Worker → Worked
  ensure_way_phase w = if w.way_phase_done then Worked.goes_on w else end_way_phase w

  -- The visitor of one entry.
  unfoldable pub visit_entry : Bool → OsmEntry → Worker → Worked
  visit_entry skip_ways (OsmEntry.node_entry n) w = Worked.goes_on w
  visit_entry skip_ways (OsmEntry.way_entry e) w =
      if skip_ways then Worked.goes_on w else call (import_way e) w
  visit_entry skip_ways (OsmEntry.relation_entry r) w =
      ensure_way_phase w next call (import_relation r)

  -- The loop over the entries that the queue gives.
  unfoldable pub visit_entries : Bool → List OsmEntry → Worker → Worked
  visit_entries skip_ways [] w = Worked.goes_on w
  visit_entries skip_ways (e ∷ es) w =
      visit_entry skip_ways e w
      next call (flush_via_temp server Kind.road)
      next visit_entries skip_ways es

  -- `wayThread`
  unfoldable pub way_thread : Bool → List OsmEntry → Nav → Worked
  way_thread skip_ways es n =
      visit_entries skip_ways es (record { nav = n; way_phase_done = skip_ways; arrivals = 0 })
      next ensure_way_phase
      next call (flush_via_temp server Kind.relation)

-- `nodeThread`: a shard of the store, and the entries up to the first that is no node, which goes to the
-- queue of the way threads.
pub record NodeWorker : Type 0 where
  pub store : NodeStore
  pub nav : Nav
  pub forwarded : List OsmEntry

pub data NodeWorked : Type 0 where
  runs fails : NodeWorker → NodeWorked

infixl 5 ◌andthen◌
abbrev pub ◌andthen◌ : NodeWorked → (NodeWorker → NodeWorked) → NodeWorked
(NodeWorked.runs w) andthen f = f w
(NodeWorked.fails w) andthen f = NodeWorked.fails w

abbrev pub with_nodes : NodeWorker → Called → NodeWorked
with_nodes w (Called.returned n) = NodeWorked.runs (record w { nav = n })
with_nodes w (Called.raised n) = NodeWorked.fails (record w { nav = n })

module _ (server : Server) (al : String → Bool) (srid : ℕ) (tid : ℕ) (use_mercator : Bool)
    (to_mercator : Double → Double → Point) where
  -- The projection: Mercator, or the degrees as they are.
  unfoldable pub project : NodeEntry → Point
  project n = if use_mercator then to_mercator n.lon n.lat else (n.lon, n.lat)

  unfoldable pub import_node : NodeEntry → NodeWorker → NodeWorked
  import_node n w =
      let (x, y) = project n in
      elim (insert w.store tid (record { id = n.id; lon_m = x; lat_m = y })) [
        | ok st ↦
            with_nodes (record w { store = st })
              (insert_node server al n.id n.name (x, y) n.tags (point_wkb srid x y) w.nav)
        | err e ↦ NodeWorked.fails w
      ]

  unfoldable pub import_nodes : List OsmEntry → NodeWorker → NodeWorked
  import_nodes [] w = NodeWorked.runs w
  import_nodes (OsmEntry.node_entry n ∷ es) w = import_node n w andthen import_nodes es
  import_nodes (e ∷ es) w = NodeWorked.runs (record w { forwarded = e ∷ [] })

  unfoldable pub node_thread : List OsmEntry → NodeWorker → NodeWorked
  node_thread es w =
      import_nodes es w
      andthen (λ v. with_nodes v (flush_nodes server v.nav))
      andthen (λ v. with_nodes v (finalize_tags server Kind.node v.nav))
