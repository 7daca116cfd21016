-- ===== src/Pbf/Block.antt =====
-- `OSMReader::parsePrimitiveBlock` of src/OSMReader.cpp as a whole: the groups of a block.
use osmpgsqlimport.Prelude.{ℕ, ◌*◌, ◌%◌, ◌^◌, List, [], ◌∷◌, ◌++◌, map, Option, none, some, String}
use osmpgsqlimport.Prelude.Word.{add64}
use osmpgsqlimport.Prelude.Double.{Double}
use osmpgsqlimport.Delta.{NodeEntry}
use osmpgsqlimport.Pbf.{
  DenseNodes, PbfNode, PbfWay, PbfRelation, OsmEntry, parse_dense, parse_nodes, parse_way,
  parse_relation, ◌>>=◌,
}

pub record PrimitiveGroup : Type 0 where
  pub dense : Option DenseNodes
  pub nodes : List PbfNode
  pub ways : List PbfWay
  pub relations : List PbfRelation

-- The granularity and the offsets are 64-bit patterns.
pub record PrimitiveBlock : Type 0 where
  pub granularity : ℕ
  pub lat_offset : ℕ
  pub lon_offset : ℕ
  pub strtable : List String
  pub groups : List PrimitiveGroup

-- `offset + granularity * v`
unfoldable pub nanodegrees : ℕ → ℕ → ℕ → ℕ
nanodegrees offset granularity v = add64 offset (granularity * v % 2 ^ 64)

unfoldable pub parse_each {ℓ κ} :
    {A : Type ℓ} {B : Type κ} → (A → Option B) → List A → Option (List B)
parse_each f [] = some []
parse_each f (a ∷ more) = do b ← f a; rest ← parse_each f more; some (b ∷ rest)

-- The conversion of nanodegrees into a double is a parameter.
module _ (degrees : ℕ → Double) (pb : PrimitiveBlock) where
  abbrev lat_of : ℕ → Double
  lat_of v = degrees (nanodegrees pb.lat_offset pb.granularity v)

  abbrev lon_of : ℕ → Double
  lon_of v = degrees (nanodegrees pb.lon_offset pb.granularity v)

  abbrev dense_part : Option DenseNodes → Option (List NodeEntry)
  dense_part none = some []
  dense_part (some d) = parse_dense pb.strtable lat_of lon_of d

  -- The body of the loop over the groups.
  unfoldable pub parse_group : PrimitiveGroup → Option (List OsmEntry)
  parse_group g = do
    dense ← dense_part g.dense
    nodes ← parse_nodes pb.strtable lat_of lon_of g.nodes
    ways ← parse_each (parse_way pb.strtable) g.ways
    relations ← parse_each (parse_relation pb.strtable) g.relations
    some (
        map OsmEntry.node_entry dense
        ++ map OsmEntry.node_entry nodes
        ++ map OsmEntry.way_entry ways
        ++ map OsmEntry.relation_entry relations)

  unfoldable pub parse_groups : List PrimitiveGroup → Option (List OsmEntry)
  parse_groups [] = some []
  parse_groups (g ∷ gs) = do es ← parse_group g; rest ← parse_groups gs; some (es ++ rest)

-- `parsePrimitiveBlock`, after the library has parsed the bytes.
unfoldable pub parse_primitive_block : (ℕ → Double) → PrimitiveBlock → Option (List OsmEntry)
parse_primitive_block degrees pb = parse_groups degrees pb pb.groups
