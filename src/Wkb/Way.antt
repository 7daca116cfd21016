-- ===== src/Wkb/Way.antt =====
-- Ways and points: `buildWayGeom` of src/main.cpp and `pointWKB` of src/OSMReader.cpp. The process-wide
-- `g_srid` is an argument.
pub mod Laws
use osmpgsqlimport.Prelude.{
  ℕ, ◌%◌, ◌^◌, Bool, true, false, ◌&&◌, List, [], ◌∷◌, leb, ltb, if◌then◌else◌, length, Bytes,
}
use osmpgsqlimport.Prelude.Double.{Double, Point, same_point}
use osmpgsqlimport.Wkb.{write_uint32, write_double, write_points, size32}
use osmpgsqlimport.Wkb.Hex.{to_hex}

-- `pointWKB`
unfoldable pub point_wkb : ℕ → Double → Double → Bytes
point_wkb srid lon lat =
    let buf1 = write_uint32 (0x01 ∷ []) 0x20000001 in
    let buf2 = write_uint32 buf1 srid in to_hex (write_double (write_double buf2 lon) lat)

-- `v.back()` of a vector that begins with `p`.
unfoldable pub back_of : Point → List Point → Point
back_of p [] = p
back_of p (q ∷ ps) = back_of q ps

-- `coords.size() >= 4` and the first point equal to the last.
unfoldable pub is_closed_way : List Point → Bool
unfolding back_of
is_closed_way [] = false
is_closed_way (p ∷ ps) = leb 4 (length (p ∷ ps)) && same_point p (back_of p ps)

-- The bytes that `buildWayGeom` puts in `buf`.
unfoldable pub way_bytes : ℕ → List Point → Bool → Bytes
way_bytes srid coords closed =
    let buf =
      if closed
      then write_uint32 (write_uint32 (write_uint32 (0x01 ∷ []) 0x20000003) srid) 1
      else write_uint32 (write_uint32 (0x01 ∷ []) 0x20000002) srid in
    write_points (write_uint32 buf (size32 coords)) coords

-- `buildWayGeom`: the text and the new value of `is_closed`, which the early return leaves alone.
unfoldable pub build_way_geom : ℕ → List Point → Bool → Bytes × Bool
unfolding way_bytes
build_way_geom srid coords was_closed =
    let closed = is_closed_way coords in
    if ltb (length coords) 2
    then ([], was_closed)
    else (to_hex (way_bytes srid coords closed), closed)
