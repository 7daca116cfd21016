-- ===== src/Db/Nav.antt =====
-- The state of a `NavDB` of src/NavDB.cpp with the tables of the database, and its operations: the
-- buffered inserts, the flushes, and the updates and deletes of the delta mode. A statement other than
-- COPY is taken to succeed.
pub mod Flushes
pub mod Updates
pub mod Inserts
pub mod Nodes
use osmpgsqlimport.Prelude.{
  refl, ◌≡◌, ℕ, ◌+◌, ◌*◌, ◌&&◌, Bool, true, false, List, [], ◌∷◌, ◌++◌, ◌==◌, leb, ltb,
  if◌then◌else◌, is_empty, length, Option, none, some, String, Bytes,
}
use osmpgsqlimport.Prelude.Double.{Double, Point}
use osmpgsqlimport.Tags.{Tags}
use osmpgsqlimport.Db.Copy.{Copied, written, gave_up, threw, try_copy_batch}
use osmpgsqlimport.Db.TagTable.{TagRecord, diff_tags}

-- The entities, by the `type` texts of `deleteEntity`: each has a main table and a tag table.
pub data Kind : Type 0 where
  node way area road relation : Kind

abbrev pub kind_eq : Kind → Kind → Bool
kind_eq Kind.node Kind.node = true
kind_eq Kind.way Kind.way = true
kind_eq Kind.area Kind.area = true
kind_eq Kind.road Kind.road = true
kind_eq Kind.relation Kind.relation = true
kind_eq _ _ = false

-- `NodeRecord`, `GeomRecord` and `RelationRecord`, and a row of their tables. Only a node has the
-- columns `longitude_m` and `latitude_m`. `geog` is NULL where it is `none`.
pub record Row : Type 0 where
  pub id : ℕ
  pub name : String
  pub geog : Option Bytes
  pub at : Option Point

pub record Nav : Type 0 where
  pub tables : Kind → List Row
  pub tag_tables : Kind → List TagRecord
  pub bufs : Kind → List Row
  pub tag_buf : List TagRecord
  pub way_tag_buf : List TagRecord
  pub area_tag_buf : List TagRecord
  pub way_buffer_size : ℕ

-- PostgreSQL: the error text of a COPY of rows into a table with these rows, `none` if it succeeds.
pub record Server : Type 0 where
  pub copy : Kind → List Row → List Row → Option Bytes
  pub copy_tags : Kind → List TagRecord → List TagRecord → Option Bytes

-- A call returns or throws. What was committed or buffered before it threw stays.
pub data Called : Type 0 where
  returned raised : Nav → Called

infixl 5 ◌then_do◌
abbrev pub ◌then_do◌ : Called → (Nav → Called) → Called
(Called.returned s) then_do f = f s
(Called.raised s) then_do f = Called.raised s

-- A table or a buffer written.
abbrev pub put {ℓ} : {A : Type ℓ} → (Kind → A) → Kind → A → Kind → A
put f k v j = if kind_eq k j then v else f j

abbrev pub node_buffer_size : ℕ
node_buffer_size = 20000

-- The constructor: thread N flushes at `WAY_BUFFER_SIZE + N*137`.
unfoldable pub new_nav : ℕ → (Kind → List Row) → (Kind → List TagRecord) → Nav
new_nav thread_id tables tag_tables = record {
  tables = tables;
  tag_tables = tag_tables;
  bufs = λ _. [];
  tag_buf = [];
  way_tag_buf = [];
  area_tag_buf = [];
  way_buffer_size = 10000 + thread_id * 137;
}

module _ (all_alpha_num : String → Bool) where
  -- The loop of `addTags`, `addWayTags` and `addAreaTags`: the records that they append.
  unfoldable pub tag_records : ℕ → Tags → List TagRecord
  tag_records i [] = []
  tag_records i ((k, v) ∷ tags) =
      let rest = tag_records i tags in
      if all_alpha_num k && all_alpha_num v
      then record { id = i; key = k; value = v } ∷ rest
      else rest

-- The buffer that `finalize_tags_locked` takes for a table. Nodes, roads and relations share `tag_buf_`.
unfoldable pub tag_buf_of : Kind → Nav → List TagRecord
tag_buf_of Kind.way s = s.way_tag_buf
tag_buf_of Kind.area s = s.area_tag_buf
tag_buf_of _ s = s.tag_buf

unfoldable pub set_tag_buf : Kind → List TagRecord → Nav → Nav
set_tag_buf Kind.way b s = record s { way_tag_buf = b }
set_tag_buf Kind.area b s = record s { area_tag_buf = b }
set_tag_buf _ b s = record s { tag_buf = b }

-- `buf.clear()`
abbrev pub clear_buf : Kind → Nav → Called
clear_buf k s = Called.returned (record s { bufs = put s.bufs k [] })

abbrev pub add_rows : Kind → List Row → Nav → Nav
add_rows k rows s = record s { tables = put s.tables k (s.tables k ++ rows) }

abbrev pub push_row : Kind → Row → Nav → Nav
push_row k r s = record s { bufs = put s.bufs k (s.bufs k ++ r ∷ []) }

-- `insertWay` flushes from `way_buffer_size_` rows on, the others above it.
unfoldable pub is_full : Kind → ℕ → ℕ → Bool
is_full Kind.way limit n = leb limit n
is_full _ limit n = ltb limit n

abbrev pub geom_row : ℕ → String → Bytes → Row
geom_row i name geog = record { id = i; name = name; geog = some geog; at = none }

-- An empty geometry text is stored as NULL.
unfoldable pub relation_geog : Bytes → Option Bytes
relation_geog geog = if is_empty geog then none else some geog

module _ (all_alpha_num : String → Bool) where
  -- `addTags`, `addWayTags` and `addAreaTags`, by the kind of the entity.
  abbrev pub add_tags : Kind → ℕ → Tags → Nav → Nav
  add_tags k i tags s = set_tag_buf k (tag_buf_of k s ++ tag_records all_alpha_num i tags) s

module _ (server : Server) where
  -- `finalize_tags_locked`
  unfoldable pub finalize_tags : Kind → Nav → Called
  finalize_tags k s =
      let buf = tag_buf_of k s in
      if is_empty buf then Called.returned s else elim (server.copy_tags k (s.tag_tables k) buf) [
        | none ↦ Called.returned (
            set_tag_buf k [] (record s { tag_tables = put s.tag_tables k (s.tag_tables k ++ buf) }))
        | some e ↦ Called.raised s
      ]

  -- `flushNodes`: a failed COPY is thrown again.
  unfoldable pub flush_nodes : Nav → Called
  flush_nodes s =
      let buf = s.bufs Kind.node in
      if is_empty buf
      then Called.returned s
      else elim (server.copy Kind.node (s.tables Kind.node) buf) [
        | none ↦ finalize_tags Kind.node (add_rows Kind.node buf s) then_do clear_buf Kind.node
        | some e ↦ Called.raised s
      ]

  -- The handler of `flushViaTemp` and `flushRelations`: the retries without the bad rows.
  unfoldable pub retry : Kind → List Row → Nav → Called
  retry k buf s = elim (try_copy_batch (server.copy k (s.tables k)) (length buf + 1) buf) [
    | written rows ↦ Called.returned (add_rows k rows s)
    | gave_up rows ↦ Called.returned s
    | threw rows ↦ Called.raised (record s { bufs = put s.bufs k rows })
  ]

  -- Their one COPY of all rows, and the handler.
  unfoldable pub copy_rows : Kind → List Row → Nav → Called
  copy_rows k buf s = elim (server.copy k (s.tables k) buf) [
    | none ↦ Called.returned (add_rows k buf s)
    | some e ↦ retry k buf s
  ]

  -- `flushViaTemp` and `flushRelations`
  unfoldable pub flush_via_temp : Kind → Nav → Called
  flush_via_temp k s =
      if is_empty (s.bufs k)
      then Called.returned s
      else (copy_rows k (s.bufs k) s then_do finalize_tags k then_do clear_buf k)

  abbrev pub finalize_ways : Nav → Called
  finalize_ways s = flush_via_temp Kind.way s then_do flush_via_temp Kind.area

  module _ (all_alpha_num : String → Bool) where
    -- `insertNode`
    unfoldable pub insert_node : ℕ → String → Point → Tags → Bytes → Nav → Called
    insert_node i name p tags geog s =
        let t =
          push_row Kind.node (record { id = i; name = name; geog = some geog; at = some p })
            (add_tags all_alpha_num Kind.node i tags s) in
        if is_empty tags
        then Called.returned s
        else if leb node_buffer_size (length (t.bufs Kind.node))
        then flush_nodes t
        else Called.returned t

    -- `insertWay`, `insertArea`, `insertRoad` and `insertRelation` put a row and its tags in the buffers.
    unfoldable pub insert_row : Kind → Row → Tags → Nav → Called
    insert_row k r tags s =
        let t = push_row k r (add_tags all_alpha_num k r.id tags s) in
        if is_full k t.way_buffer_size (length (t.bufs k))
        then flush_via_temp k t
        else Called.returned t

    unfoldable pub insert_way : ℕ → String → Tags → Bytes → Nav → Called
    insert_way i name tags geog = insert_row Kind.way (geom_row i name geog) tags

    unfoldable pub insert_area : ℕ → String → Tags → Bytes → Nav → Called
    insert_area i name tags geog = insert_row Kind.area (geom_row i name geog) tags

    unfoldable pub insert_road : ℕ → String → Tags → Bytes → Nav → Called
    insert_road i name tags geog = insert_row Kind.road (geom_row i name geog) tags

    unfoldable pub insert_relation : ℕ → String → Tags → Bytes → Nav → Called
    insert_relation i name tags geog =
        insert_row Kind.relation
          (record { id = i; name = name; geog = relation_geog geog; at = none }) tags

-- `DELETE FROM` and `UPDATE` of a main table, `WHERE id=$1`.
unfoldable pub delete_rows : ℕ → List Row → List Row
delete_rows i [] = []
delete_rows i (r ∷ rows) = if r.id == i then delete_rows i rows else r ∷ delete_rows i rows

unfoldable pub delete_tags : ℕ → List TagRecord → List TagRecord
delete_tags i [] = []
delete_tags i (r ∷ rows) = if r.id == i then delete_tags i rows else r ∷ delete_tags i rows

unfoldable pub update_rows : Row → List Row → List Row
update_rows u [] = []
update_rows u (r ∷ rows) = (if r.id == u.id then u else r) ∷ update_rows u rows

-- `deleteEntity`
unfoldable pub delete_entity : Kind → ℕ → Nav → Nav
delete_entity k i s = record s {
  tables = put s.tables k (delete_rows i (s.tables k));
  tag_tables = put s.tag_tables k (delete_tags i (s.tag_tables k));
}

-- `updateNode`, `updateWay`, `updateArea` and `updateRelation`: UPDATE of the row, then `diffTags`.
unfoldable pub update_entity : Kind → Row → Tags → Nav → Nav
update_entity k u tags s = record s {
  tables = put s.tables k (update_rows u (s.tables k));
  tag_tables = put s.tag_tables k (diff_tags u.id tags (s.tag_tables k));
}

-- `getWay`: the first row of `ways`, then of `areas`; an empty text for no row or a NULL.
unfoldable pub find_row : ℕ → List Row → Option Row
find_row i [] = none
find_row i (r ∷ rows) = if r.id == i then some r else find_row i rows

unfoldable pub get_way : ℕ → Nav → Bytes
get_way i s = elim (find_row i (s.tables Kind.way ++ s.tables Kind.area)) [
  | none ↦ []
  | some r ↦ elim r.geog [ none ↦ [] | some g ↦ g ]
]

pub kind_eq→≡ : (k l : Kind) → kind_eq k l ≡ true → k ≡ l
kind_eq→≡ Kind.node Kind.node h = refl
kind_eq→≡ Kind.way Kind.way h = refl
kind_eq→≡ Kind.area Kind.area h = refl
kind_eq→≡ Kind.road Kind.road h = refl
kind_eq→≡ Kind.relation Kind.relation h = refl
kind_eq→≡ _ _ h = cc h

pub kind_eq_refl : (k : Kind) → kind_eq k k ≡ true
kind_eq_refl Kind.node = refl
kind_eq_refl Kind.way = refl
kind_eq_refl Kind.area = refl
kind_eq_refl Kind.road = refl
kind_eq_refl Kind.relation = refl
