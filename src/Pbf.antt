-- ===== src/Pbf.antt =====
-- `OSMReader::parsePrimitiveBlock` of src/OSMReader.cpp: the entries of a block that the protocol buffer
-- library has parsed. Ids and coordinates are 64-bit words.
pub mod Laws
pub mod Block
pub mod Blobs
use osmpgsqlimport.Prelude.{
  ℕ, ◌*◌, ◌%◌, ◌^◌, Bool, true, false, List, [], ◌∷◌, ◌==◌, if◌then◌else◌, get_elem?, Option, none,
  some, String,
}
use osmpgsqlimport.Prelude.Word.{add64}
use osmpgsqlimport.Prelude.Double.{Double}
use osmpgsqlimport.Tags.{Tags, lookup, insert}
use osmpgsqlimport.Rings.Multipolygon.{RelationMember}
use osmpgsqlimport.Delta.{NodeEntry, WayEntry, RelationEntry}

infixl 5 ◌>>=◌
abbrev pub ◌>>=◌ {ℓ κ} : {A : Type ℓ} {B : Type κ} → Option A → (A → Option B) → Option B
none >>= f = none
some a >>= f = f a

-- The fields of `DenseNodes`, `Node`, `Way` and `Relation` of the OSM PBF schema that the code reads, as
-- the generated classes hand them out.
pub record DenseNodes : Type 0 where
  pub ids : List ℕ
  pub lats : List ℕ
  pub lons : List ℕ
  pub keys_vals : List ℕ

pub record PbfNode : Type 0 where
  pub id : ℕ
  pub lat : ℕ
  pub lon : ℕ
  pub keys : List ℕ
  pub vals : List ℕ

pub record PbfWay : Type 0 where
  pub id : ℕ
  pub keys : List ℕ
  pub vals : List ℕ
  pub refs : List ℕ

pub record PbfRelation : Type 0 where
  pub id : ℕ
  pub keys : List ℕ
  pub vals : List ℕ
  pub memids : List ℕ
  pub types : List ℕ
  pub roles_sid : List ℕ

-- `Relation::WAY`
abbrev pub way_type : ℕ
way_type = 1

pub data OsmEntry : Type 0 where
  node_entry : NodeEntry → OsmEntry
  way_entry : WayEntry → OsmEntry
  relation_entry : RelationEntry → OsmEntry

-- The loops `cur += delta; …`.
unfoldable pub running_sums : ℕ → List ℕ → List ℕ
running_sums cur [] = []
running_sums cur (d ∷ ds) = add64 cur d ∷ running_sums (add64 cur d) ds

-- `tags.count("name")`
unfoldable pub name_of : Tags → String
name_of tags = elim (lookup "name" tags) [ none ↦ "" | some v ↦ v ]

-- The string table. An index out of its range is `none`: the library does not check it.
module _ (strtable : List String) where
  -- `getTags`, after the tags read so far.
  unfoldable pub get_tags_from : Tags → List ℕ → List ℕ → Option Tags
  get_tags_from tags [] vals = some tags
  get_tags_from tags (k ∷ keys) [] = none
  get_tags_from tags (k ∷ keys) (v ∷ vals) = do
    key ← get_elem? strtable k
    value ← get_elem? strtable v
    get_tags_from (insert key value tags) keys vals

  unfoldable pub get_tags : List ℕ → List ℕ → Option Tags
  get_tags = get_tags_from []

  -- The loop over `keys_vals` up to the delimiter 0: the tags, and what follows it.
  unfoldable pub dense_tags : Tags → List ℕ → Option (Tags × List ℕ)
  dense_tags tags [] = some (tags, [])
  dense_tags tags (k ∷ []) = if k == 0 then some (tags, []) else none
  dense_tags tags (k ∷ v ∷ kv) =
      let rest = λ (t : Tags). dense_tags t kv in
      if k == 0
      then some (tags, v ∷ kv)
      else do key ← get_elem? strtable k; value ← get_elem? strtable v; rest (insert key value tags)

  -- `(offset + granularity * cur) * 1e-9`, by the axis: floating-point, so a parameter.
  module _ (lat_of lon_of : ℕ → Double) where
    -- The loop over the dense nodes. The arrays are as long as `id`.
    unfoldable pub dense_nodes :
        ℕ → ℕ → ℕ → List ℕ → List ℕ → List ℕ → List ℕ → Option (List NodeEntry)
    dense_nodes cur_id cur_lat cur_lon [] lats lons kv = some []
    dense_nodes cur_id cur_lat cur_lon (i ∷ ids) [] lons kv = none
    dense_nodes cur_id cur_lat cur_lon (i ∷ ids) (a ∷ lats) [] kv = none
    dense_nodes cur_id cur_lat cur_lon (i ∷ ids) (a ∷ lats) (o ∷ lons) kv = do
      (tags, kv') ← dense_tags [] kv
      let node : NodeEntry = record {
        id = add64 cur_id i;
        name = name_of tags;
        lon = lon_of (add64 cur_lon o);
        lat = lat_of (add64 cur_lat a);
        tags = tags;
      }
      rest ← dense_nodes (add64 cur_id i) (add64 cur_lat a) (add64 cur_lon o) ids lats lons kv'
      some (node ∷ rest)

    unfoldable pub parse_dense : DenseNodes → Option (List NodeEntry)
    parse_dense d = dense_nodes 0 0 0 d.ids d.lats d.lons d.keys_vals

    unfoldable pub parse_node : PbfNode → Option NodeEntry
    parse_node n = do
      tags ← get_tags n.keys n.vals
      some (record {
        id = n.id;
        name = name_of tags;
        lon = lon_of n.lon;
        lat = lat_of n.lat;
        tags = tags;
      })

    -- The loop over `group.nodes()`.
    unfoldable pub parse_nodes : List PbfNode → Option (List NodeEntry)
    parse_nodes [] = some []
    parse_nodes (n ∷ ns) = do node ← parse_node n; rest ← parse_nodes ns; some (node ∷ rest)

  unfoldable pub parse_way : PbfWay → Option WayEntry
  parse_way w = do
    tags ← get_tags w.keys w.vals
    some (record { id = w.id; name = name_of tags; node_refs = running_sums 0 w.refs; tags = tags })

  -- The loop over the members: only ways are kept, and a role out of the table is empty.
  unfoldable pub way_members : ℕ → List ℕ → List ℕ → List ℕ → Option (List RelationMember)
  way_members cur [] types roles = some []
  way_members cur (m ∷ ms) [] roles = none
  way_members cur (m ∷ ms) (t ∷ types) [] = none
  way_members cur (m ∷ ms) (t ∷ types) (r ∷ roles) = do
    rest ← way_members (add64 cur m) ms types roles
    let role : String = elim (get_elem? strtable r) [ none ↦ "" | some s ↦ s ]
    some (if t == way_type then record { id = add64 cur m; role = role } ∷ rest else rest)

  unfoldable pub parse_relation : PbfRelation → Option RelationEntry
  parse_relation r = do
    tags ← get_tags r.keys r.vals
    members ← way_members 0 r.memids r.types r.roles_sid
    some (record { id = r.id; name = name_of tags; way_members = members; tags = tags })
