-- ===== src/Delta.antt =====
-- `DeltaApplier` of src/DeltaApplier.cpp: the changes of an OsmChange file, on the node store and the
-- database.
pub mod Geometry
pub mod Laws
use osmpgsqlimport.Prelude.{
  ℕ, ◌+◌, ◌-◌, Bool, true, false, ◌||◌, List, [], ◌∷◌, if◌then◌else◌, is_empty, Option, none, some,
  String, str_eq, Bytes,
}
use osmpgsqlimport.Prelude.Double.{Double, Point}
use osmpgsqlimport.Tags.{Tags, lookup}
use osmpgsqlimport.Store.Shard.{Rec, Result, ok, err}
use osmpgsqlimport.Store.Merge.Slots.{select, remove}
use osmpgsqlimport.Store.NodeStore.{NodeStore, insert}
use osmpgsqlimport.Wkb.Way.{point_wkb, build_way_geom}
use osmpgsqlimport.Rings.Multipolygon.{RelationMember}
use osmpgsqlimport.Db.Nav.{
  Kind, Row, Nav, Server, Called, geom_row, relation_geog, insert_node, insert_way, insert_area,
  insert_road, insert_relation, delete_entity, update_entity, get_way, flush_via_temp,
  finalize_ways, ◌then_do◌,
}
use osmpgsqlimport.Delta.Geometry.{delta_way_geom, merge_linestrings}

-- `NodeEntry`, `WayEntry` and `RelationEntry` of include/OSMReader.h, less the fields that no operation
-- here reads.
pub record NodeEntry : Type 0 where
  pub id : ℕ
  pub name : String
  pub lon : Double
  pub lat : Double
  pub tags : Tags

pub record WayEntry : Type 0 where
  pub id : ℕ
  pub name : String
  pub node_refs : List ℕ
  pub tags : Tags

pub record RelationEntry : Type 0 where
  pub id : ℕ
  pub name : String
  pub way_members : List RelationMember
  pub tags : Tags

-- `ChangeType` and `OSCChange` of include/OSCReader.h.
pub data ChangeType : Type 0 where
  create modify delete : ChangeType

pub data OscChange : Type 0 where
  node_change : ChangeType → NodeEntry → OscChange
  way_change : ChangeType → WayEntry → OscChange
  relation_change : ChangeType → RelationEntry → OscChange

pub record Applier : Type 0 where
  pub store : NodeStore
  pub nav : Nav
  pub created : ℕ
  pub modified : ℕ
  pub deleted : ℕ

-- A method returns, or throws with what it has changed so far.
pub data Applied : Type 0 where
  done thrown : Applier → Applied

infixl 5 ◌and_then◌
abbrev pub ◌and_then◌ : Applied → (Applier → Applied) → Applied
(Applied.done a) and_then f = f a
(Applied.thrown a) and_then f = Applied.thrown a

-- A call on the database.
abbrev pub with_db : Applier → Called → Applied
with_db a (Called.returned n) = Applied.done (record a { nav = n })
with_db a (Called.raised n) = Applied.thrown (record a { nav = n })

abbrev pub on_db : (Nav → Called) → Applier → Applied
on_db f a = with_db a (f a.nav)

-- A change of it that cannot throw.
abbrev pub db_do : (Nav → Nav) → Applier → Applied
db_do f a = Applied.done (record a { nav = f a.nav })

-- `osmmap_.insert(0, …)`
unfoldable pub store_node : Rec → Applier → Applied
store_node r a = elim (insert a.store 0 r) [
  | ok st ↦ Applied.done (record a { store = st })
  | err e ↦ Applied.thrown a
]

-- The loop over the node references, which leaves out the nodes that the store does not have.
unfoldable pub way_coords : NodeStore → List ℕ → List Point
way_coords st [] = []
way_coords st (ref ∷ refs) =
    let rest = way_coords st refs in elim (select st.merged ref) [ none ↦ rest | some p ↦ p ∷ rest ]

-- `DeltaApplier::buildRelationGeom` and the same loop of `wayThread`: the texts of the member ways.
unfoldable pub member_geoms : Nav → List RelationMember → List Bytes
member_geoms n [] = []
member_geoms n (m ∷ ms) =
    let rest = member_geoms n ms in let g = get_way m.id n in if is_empty g then rest else g ∷ rest

-- `route=road` or any `highway`.
unfoldable pub is_road : Tags → Bool
is_road tags =
    elim (lookup "route" tags) [ none ↦ false | some v ↦ str_eq v "road" ]
    || elim (lookup "highway" tags) [ none ↦ false | some v ↦ true ]

-- `toMercator` calculates with floating-point functions of the C library. It, PostgreSQL and the text
-- test are parameters, and the process-wide `g_srid`.
module _ (server : Server) (al : String → Bool) (srid : ℕ)
    (to_mercator : Double → Double → Point) where
  unfoldable pub create_node : NodeEntry → Applier → Applied
  create_node n a =
      let (mx, my) = to_mercator n.lon n.lat in
      store_node (record { id = n.id; lon_m = mx; lat_m = my }) a
      and_then on_db
          (insert_node server al n.id n.name (mx, my) n.tags (point_wkb srid n.lon n.lat))

  unfoldable pub modify_node : NodeEntry → Applier → Applied
  modify_node n a =
      let (mx, my) = to_mercator n.lon n.lat in
      let row : Row = record {
        id = n.id;
        name = n.name;
        geog = some (point_wkb srid n.lon n.lat);
        at = some (mx, my);
      } in
      store_node (record { id = n.id; lon_m = mx; lat_m = my }) a
      and_then db_do (update_entity Kind.node row n.tags)

  unfoldable pub delete_node : ℕ → Applier → Applied
  delete_node i a =
      db_do (delete_entity Kind.node i)
        (record a { store = record a.store { merged = remove a.store.merged i } })

  unfoldable pub create_way : WayEntry → Applier → Applied
  create_way w a =
      let (geom, closed) = delta_way_geom srid (way_coords a.store w.node_refs) in
      if is_empty geom
      then Applied.done a
      else if closed
      then on_db (insert_area server al w.id w.name w.tags geom) a
      else on_db (insert_way server al w.id w.name w.tags geom) a

  unfoldable pub modify_way : WayEntry → Applier → Applied
  modify_way w a =
      let (geom, closed) = delta_way_geom srid (way_coords a.store w.node_refs) in
      let row : Row = geom_row w.id w.name geom in
      if is_empty geom
      then Applied.done a
      else (db_do (delete_entity Kind.way w.id) a
          and_then db_do (delete_entity Kind.area w.id)
          and_then db_do (update_entity (if closed then Kind.area else Kind.way) row w.tags))

  unfoldable pub delete_way : ℕ → Applier → Applied
  delete_way i a = db_do (delete_entity Kind.way i) a and_then db_do (delete_entity Kind.area i)

  -- What `createRelation` and `modifyRelation` end with.
  unfoldable pub add_road : RelationEntry → Bytes → Applier → Applied
  add_road r geom a =
      if is_road r.tags
      then if is_empty geom
        then Applied.done a
        else on_db (insert_road server al r.id r.name r.tags geom) a
      else Applied.done a

  unfoldable pub create_relation : RelationEntry → Applier → Applied
  create_relation r a =
      let geom = merge_linestrings srid (member_geoms a.nav r.way_members) in
      on_db (insert_relation server al r.id r.name r.tags geom) a and_then add_road r geom

  unfoldable pub modify_relation : RelationEntry → Applier → Applied
  modify_relation r a =
      let geom = merge_linestrings srid (member_geoms a.nav r.way_members) in
      let row : Row = record { id = r.id; name = r.name; geog = relation_geog geom; at = none } in
      db_do (update_entity Kind.relation row r.tags) a
      and_then db_do (delete_entity Kind.road r.id)
      and_then add_road r geom

  unfoldable pub delete_relation : ℕ → Applier → Applied
  delete_relation i a =
      db_do (delete_entity Kind.relation i) a and_then db_do (delete_entity Kind.road i)

  -- The counters of `apply`.
  abbrev pub count : ChangeType → Applier → Applied
  count ChangeType.create a = Applied.done (record a { created = a.created + 1 })
  count ChangeType.modify a = Applied.done (record a { modified = a.modified + 1 })
  count ChangeType.delete a = Applied.done (record a { deleted = a.deleted + 1 })

  -- The method that `apply` calls.
  unfoldable pub dispatch : OscChange → Applier → Applied
  dispatch (OscChange.node_change ChangeType.create n) = create_node n
  dispatch (OscChange.node_change ChangeType.modify n) = modify_node n
  dispatch (OscChange.node_change ChangeType.delete n) = delete_node n.id
  dispatch (OscChange.way_change ChangeType.create w) = create_way w
  dispatch (OscChange.way_change ChangeType.modify w) = modify_way w
  dispatch (OscChange.way_change ChangeType.delete w) = delete_way w.id
  dispatch (OscChange.relation_change ChangeType.create r) = create_relation r
  dispatch (OscChange.relation_change ChangeType.modify r) = modify_relation r
  dispatch (OscChange.relation_change ChangeType.delete r) = delete_relation r.id

  abbrev pub type_of : OscChange → ChangeType
  type_of (OscChange.node_change t n) = t
  type_of (OscChange.way_change t w) = t
  type_of (OscChange.relation_change t r) = t

  -- `apply`
  unfoldable pub apply : OscChange → Applier → Applied
  apply c a = dispatch c a and_then count (type_of c)

  -- `OSCReader::parse` calls `apply` on each change, and then `flush` follows.
  unfoldable pub apply_all : List OscChange → Applier → Applied
  apply_all [] a = Applied.done a
  apply_all (c ∷ cs) a = apply c a and_then apply_all cs

  unfoldable pub flush : Applier → Applied
  flush a =
      on_db (finalize_ways server) a
      and_then on_db (flush_via_temp server Kind.road)
      and_then on_db (flush_via_temp server Kind.relation)
