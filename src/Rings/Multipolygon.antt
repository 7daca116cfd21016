-- ===== src/Rings/Multipolygon.antt =====
-- `buildMultipolygon` of src/main.cpp, with its WKB writers. The coordinates of the member ways come
-- from the database by one query, which is an argument.
pub mod Roles
pub mod Within
pub mod Polygons
pub mod Laws
use osmpgsqlimport.Prelude.{
  ℕ, zero, suc, ◌+◌, ◌%◌, ◌/◌, ◌^◌, Bool, true, false, ◌&&◌, List, [], ◌∷◌, ◌++◌, map, leb, ltb,
  if◌then◌else◌, length, Bytes, Option, none, some, String, str_eq, is_empty,
}
use osmpgsqlimport.Prelude.Double.{Double, Point, double_le, double_min, double_max}
use osmpgsqlimport.Wkb.{write_uint32, size32}
use osmpgsqlimport.Wkb.Hex.{to_hex}
use osmpgsqlimport.Rings.{Ring, Segment, stitch_rings}

-- A member way of a relation.
pub record RelationMember : Type 0 where
  pub id : ℕ
  pub role : String

-- `wf64`: the bytes of the word by shifts.
unfoldable pub f64_bytes : Double → Bytes
f64_bytes u =
    (u % 2 ^ 8)
    ∷ (u / 2 ^ 8 % 2 ^ 8)
    ∷ (u / 2 ^ 16 % 2 ^ 8)
    ∷ (u / 2 ^ 24 % 2 ^ 8)
    ∷ (u / 2 ^ 32 % 2 ^ 8)
    ∷ (u / 2 ^ 40 % 2 ^ 8)
    ∷ (u / 2 ^ 48 % 2 ^ 8)
    ∷ (u / 2 ^ 56 % 2 ^ 8)
    ∷ []

unfoldable pub write_f64 : Bytes → Double → Bytes
write_f64 buf u = buf ++ f64_bytes u

unfoldable pub write_ring_points : Bytes → Ring → Bytes
write_ring_points buf [] = buf
write_ring_points buf ((x, y) ∷ ps) = write_ring_points (write_f64 (write_f64 buf x) y) ps

-- `writeWkbRing`
unfoldable pub write_wkb_ring : Bytes → Ring → Bytes
write_wkb_ring buf ring = write_ring_points (write_uint32 buf (size32 ring)) ring

unfoldable pub write_wkb_rings : Bytes → List Ring → Bytes
write_wkb_rings buf [] = buf
write_wkb_rings buf (r ∷ rs) = write_wkb_rings (write_wkb_ring buf r) rs

-- `writeWkbPolygon`
unfoldable pub write_wkb_polygon : ℕ → Bytes → Ring → List Ring → Bytes
write_wkb_polygon srid buf outer inners =
    let buf1 = write_uint32 (buf ++ 1 ∷ []) 0x20000003 in
    let buf2 = write_uint32 (write_uint32 buf1 srid) ((1 + length inners) % 2 ^ 32) in
    write_wkb_rings (write_wkb_ring buf2 outer) inners

-- The bounding box of a ring: its least and greatest coordinates.
pub record Box : Type 0 where
  pub x0 : Double
  pub x1 : Double
  pub y0 : Double
  pub y1 : Double

unfoldable pub grow_box : Box → List Point → Box
grow_box b [] = b
grow_box b ((x, y) ∷ ps) =
    grow_box
      (record {
        x0 = double_min b.x0 x;
        x1 = double_max b.x1 x;
        y0 = double_min b.y0 y;
        y1 = double_max b.y1 y;
      })
      ps

-- The box starts at `outer[0]`. A ring is never empty where this is called.
unfoldable pub box_of : Ring → Option Box
box_of [] = none
box_of (p ∷ ps) = some (grow_box (record { x0 = p.0; x1 = p.0; y0 = p.1; y1 = p.1 }) (p ∷ ps))

-- The test of an inner ring's first point against the box of an outer ring.
unfoldable pub in_box : Option Box → Ring → Bool
in_box none ring = false
in_box (some b) [] = false
in_box (some b) (p ∷ ps) =
    double_le b.x0 p.0 && double_le p.0 b.x1 && double_le b.y0 p.1 && double_le p.1 b.y1

unfoldable pub matched_inners : Option Box → List Ring → List Ring
matched_inners b [] = []
matched_inners b (r ∷ rs) = let rest = matched_inners b rs in if in_box b r then r ∷ rest else rest

unfoldable pub write_parts : ℕ → List Ring → Bytes → List Ring → Bytes
write_parts srid inners buf [] = buf
write_parts srid inners buf (outer ∷ outers) =
    write_parts srid inners
      (write_wkb_polygon srid buf outer (matched_inners (box_of outer) inners)) outers

-- The bytes for the stitched rings: one polygon, or one for each outer ring.
unfoldable pub multipolygon_bytes : ℕ → List Ring → List Ring → Bytes
multipolygon_bytes srid [] inners = []
multipolygon_bytes srid (outer ∷ []) inners = write_wkb_polygon srid [] outer inners
multipolygon_bytes srid (outer ∷ other ∷ outers) inners =
    let buf = write_uint32 (write_uint32 (1 ∷ []) 0x20000006) srid in
    write_parts srid inners (write_uint32 buf (size32 (outer ∷ other ∷ outers)))
      (outer ∷ other ∷ outers)

-- The loop that separates the members by role. A member without coordinates is skipped.
unfoldable pub split_roles :
    (ℕ → Option (List Point)) → List RelationMember → List Segment × List Segment
split_roles coords [] = ([], [])
split_roles coords (m ∷ ms) =
    let (outers, inners) = split_roles coords ms in
    elim (coords m.id) [
      | none ↦ (outers, inners)
      | some seg ↦
          if is_empty seg
          then (outers, inners)
          else if str_eq m.role "inner"
          then (outers, seg ∷ inners)
          else (seg ∷ outers, inners)
    ]

-- `buildMultipolygon`
unfoldable pub build_multipolygon : ℕ → (ℕ → Option (List Point)) → List RelationMember → Bytes
build_multipolygon srid coords members =
    let (outers, inners) = split_roles coords members in
    let outer_rings = stitch_rings outers in
    let inner_rings = stitch_rings inners in
    if is_empty outers
    then []
    else if is_empty outer_rings
    then []
    else to_hex (multipolygon_bytes srid outer_rings inner_rings)
