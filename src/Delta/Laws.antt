-- ===== src/Delta/Laws.antt =====
-- What the changes that src/DeltaApplier.cpp applies do to the node store and to the tables.
use osmpgsqlimport.Prelude.{
  ℕ, ◌<◌, ◌≡◌, ◌⊎◌, refl, ap, ◌∙◌, inl, inr, Bool, true, false, List, ◌==◌, if◌then◌else◌, is_empty,
  Option-cases, get_elem?, none, some, String, Bytes, arith,
}
use osmpgsqlimport.Prelude.Double.{Double, Point}
use osmpgsqlimport.Tags.{Tags}
use osmpgsqlimport.Store.Shard.{Rec, Fault, Result, ok, err, insert_shard, Result-cases}
use osmpgsqlimport.Store.Merge.Slots.{select, IsValid, max_ids, select-remove}
use osmpgsqlimport.Store.NodeStore.{NodeStore, insert}
use osmpgsqlimport.Wkb.Way.{point_wkb}
use osmpgsqlimport.Db.Nav.{
  Kind, Row, Nav, Server, Called, geom_row, delete_entity, update_entity, find_row, delete_rows,
  update_rows, insert_node,
}
use osmpgsqlimport.Db.Nav.Updates.{find_row-delete, find_row-update, delete_entity-find_row}
use osmpgsqlimport.Delta.Geometry.{delta_way_geom}
use osmpgsqlimport.Delta.{
  NodeEntry, WayEntry, Applier, Applied, with_db, ◌and_then◌, on_db, db_do, store_node, way_coords,
  create_node, modify_node, delete_node, modify_way,
}

-- What a method leaves, whether it returns or throws.
abbrev pub left_by : Applied → Applier
left_by (Applied.done a) = a
left_by (Applied.thrown a) = a

insert-merged :
    (st : NodeStore) (i : ℕ) (r : Rec) (st' : NodeStore)
    → insert st i r ≡ ok st'
    → st'.merged ≡ st.merged
unfolding insert
insert-merged st i r st' h = elim (Option-cases (get_elem? st.shards i)) [
  | inl e ↦ ground (arith, h, e)
  | inr (s, e) ↦ elim (Result-cases (insert_shard s r)) [
    | inl (t, q) ↦ ground (arith, h, e, q)
    | inr (f, q) ↦ ground (arith, h, e, q)
  ]
]

store_node-merged :
    (r : Rec) (a : Applier) → (left_by (store_node r a)).store.merged ≡ a.store.merged
unfolding store_node
store_node-merged r a = elim (Result-cases (insert a.store 0 r)) [
  | inl (st, e) ↦ rw (e, left_by) (insert-merged a.store 0 r st e)
  | inr (f, e) ↦ rw (e, left_by) refl
]

with_db-store : (a : Applier) (c : Called) → (left_by (with_db a c)).store ≡ a.store
with_db-store a (Called.returned n) = refl
with_db-store a (Called.raised n) = refl

and_then-store :
    (m : Applied) (f : Applier → Applied)
    → ((a : Applier) → (left_by (f a)).store ≡ a.store)
    → (left_by (m and_then f)).store ≡ (left_by m).store
and_then-store (Applied.done a) f h = h a
and_then-store (Applied.thrown a) f h = refl

gone : (u : Row) (rows : List Row) → find_row u.id (delete_rows u.id rows) ≡ none
gone u rows = find_row-delete u.id u.id rows ∙ ground arith

gone_updated :
    (u : Row) (rows : List Row) → find_row u.id (update_rows u (delete_rows u.id rows)) ≡ none
gone_updated u rows =
    find_row-update u u.id (delete_rows u.id rows) ∙ rw (gone u rows) (ground arith)

-- After both deletes no update finds a row.
abbrev RowAfter : Bool → Row → Tags → Nav → Kind → Type 0
RowAfter closed u tags n k =
    find_row u.id (
      (update_entity (if closed then Kind.area else Kind.way) u tags
          (delete_entity Kind.area u.id (delete_entity Kind.way u.id n))).tables
        k)
    ≡ none

no_row :
    (closed : Bool) (u : Row) (tags : Tags) (n : Nav)
    → RowAfter closed u tags n Kind.way × RowAfter closed u tags n Kind.area
unfolding delete_entity update_entity
no_row true u tags n = (gone u (n.tables Kind.way), gone_updated u (n.tables Kind.area))
no_row false u tags n = (gone_updated u (n.tables Kind.way), gone u (n.tables Kind.area))

-- The record of a node.
abbrev pub node_rec : (Double → Double → Point) → NodeEntry → Rec
node_rec to_mercator n =
    let at = to_mercator n.lon n.lat in record { id = n.id; lon_m = at.0; lat_m = at.1 }

store_node-insert :
    (r : Rec) (a : Applier) (f : Applier → Applied)
    → ((c : Applier) → (left_by (f c)).store ≡ c.store)
    → ((st : NodeStore) × (insert a.store 0 r ≡ ok st)
        × ((left_by (store_node r a and_then f)).store ≡ st))
      ⊎ ((e : Fault) × (insert a.store 0 r ≡ err e)
          × ((store_node r a and_then f) ≡ Applied.thrown a))
unfolding store_node
store_node-insert r a f h = on (insert a.store 0 r) refl
  where
    on :
        (o : Result NodeStore) (e : insert a.store 0 r ≡ o)
        → ((st : NodeStore) × (insert a.store 0 r ≡ ok st)
            × ((left_by (store_node r a and_then f)).store ≡ st))
          ⊎ ((x : Fault) × (insert a.store 0 r ≡ err x)
              × ((store_node r a and_then f) ≡ Applied.thrown a))
    on (ok st) e = inl (st, e, rw (e, store_node) (h (record a { store = st })))
    on (err x) e = inr (x, e, rw (e, store_node) refl)

module _ (server : Server) (al : String → Bool) (srid : ℕ)
    (to_mercator : Double → Double → Point) where
  -- What a method leaves that stores a node.
  abbrev pub Stored : NodeEntry → Applier → ℕ → Applied → Type 0
  Stored n a i m =
      (((st : NodeStore) × (insert a.store 0 (node_rec to_mercator n) ≡ ok st)
          × ((left_by m).store ≡ st))
        ⊎ ((e : Fault) × (insert a.store 0 (node_rec to_mercator n) ≡ err e)
            × (m ≡ Applied.thrown a)))
      × (select (left_by m).store.merged i ≡ select a.store.merged i)

  -- A node that an OsmChange file creates or modifies goes to a shard file alone. The store is left as the
  -- append of its record to shard 0 leaves it, or as it was if the append throws, and then the method throws
  -- and nothing else changes. In both cases `select` gives for every id what it gave before.
  pub create_node-select :
      (n : NodeEntry) (a : Applier) (i : ℕ)
      → Stored n a i (create_node server al srid to_mercator n a)
        × Stored n a i (modify_node server al srid to_mercator n a)
  unfolding create_node modify_node
  create_node-select n a i =
      let (mx, my) = to_mercator n.lon n.lat in
      let geog : Bytes = point_wkb srid n.lon n.lat in
      let row : Row = record { id = n.id; name = n.name; geog = some geog; at = some (mx, my) } in
      let put : Nav → Called = insert_node server al n.id n.name (mx, my) n.tags geog in
      (
        stored (on_db put) (λ b. with_db-store b (put b.nav)),
        stored (db_do (update_entity Kind.node row n.tags)) (λ b. refl),
      )
    where
      r : Rec
      r = node_rec to_mercator n

      stored :
          (f : Applier → Applied)
          → ((c : Applier) → (left_by (f c)).store ≡ c.store)
          → Stored n a i (store_node r a and_then f)
      stored f h = (
        store_node-insert r a f h,
        ap (λ s. select s i)
            (ap (λ s. s.merged) (and_then-store (store_node r a) f h) ∙ store_node-merged r a),
      )

  -- A way that an OsmChange file modifies, with two of its nodes in the store, is in neither table
  -- afterwards: both rows are deleted, and an UPDATE adds none.
  pub modify_way-find_row :
      (w : WayEntry) (a : Applier)
      → is_empty (delta_way_geom srid (way_coords a.store w.node_refs)).0 ≡ false
      → (b : Applier) × (modify_way server al srid to_mercator w a ≡ Applied.done b)
        × (find_row w.id (b.nav.tables Kind.way) ≡ none)
        × (find_row w.id (b.nav.tables Kind.area) ≡ none)
  unfolding modify_way
  modify_way-find_row w a h =
      let (geom, closed) = delta_way_geom srid (way_coords a.store w.node_refs) in
      let row : Row = geom_row w.id w.name geom in
      let cleared : Nav = delete_entity Kind.area w.id (delete_entity Kind.way w.id a.nav) in
      (
        record a {
          nav = update_entity (if closed then Kind.area else Kind.way) row w.tags cleared;
        },
        rw h refl,
        (no_row closed row w.tags a.nav).0,
        (no_row closed row w.tags a.nav).1,
      )

  -- Deleting a node takes it out of the store and out of the table `nodes`, and leaves every other node.
  pub delete_node-select :
      (i : ℕ) (a : Applier) (j : ℕ)
      → IsValid a.store.merged
      → i < max_ids
      → j < max_ids
      → (b : Applier) × (delete_node server al srid to_mercator i a ≡ Applied.done b)
        × (select b.store.merged j ≡ (if i == j then none else select a.store.merged j))
        × (find_row j (b.nav.tables Kind.node)
            ≡ (if i == j then none else find_row j (a.nav.tables Kind.node)))
  unfolding delete_node
  delete_node-select i a j v h k = (
    _,
    refl,
    select-remove a.store.merged i j v h k,
    (delete_entity-find_row Kind.node i a.nav Kind.node j "" "").0,
  )
