-- ===== src/Wkb/Lines.antt =====
-- `mergeWayGeoms` of src/main.cpp: the geometries of a relation's ways in one text.
pub mod Laws
use osmpgsqlimport.Prelude.{
  ℕ, ◌*◌, ◌%◌, ◌^◌, bit_and, bit_or, Bool, true, false, ◌||◌, List, [], ◌∷◌, ◌++◌, ltb, ◌==◌,
  if◌then◌else◌, length, get_or, Bytes, is_empty,
}
use osmpgsqlimport.Wkb.{write_uint32, size32}
use osmpgsqlimport.Wkb.Hex.{to_hex, from_hex}

-- The geometry type without its flags: the low 16 bits of bytes 1 to 4.
unfoldable pub geometry_type : Bytes → ℕ
geometry_type b =
    bit_and
      (bit_or (bit_or (bit_or (get_or b 1 0) (get_or b 2 0 * 2 ^ 8)) (get_or b 3 0 * 2 ^ 16))
        (get_or b 4 0 * 2 ^ 24))
      0xFFFF

-- The lambda `isLinear`.
unfoldable pub is_linear : Bytes → Bool
is_linear b =
    let gtype = geometry_type b in if ltb (length b) 5 then false else gtype == 2 || gtype == 5

-- The loop that collects the parts.
unfoldable pub linear_parts : List Bytes → List Bytes
linear_parts [] = []
linear_parts (h ∷ hs) =
    let rest = linear_parts hs in
    let b = from_hex h in if is_empty h then rest else if is_linear b then b ∷ rest else rest

unfoldable pub write_all_parts : Bytes → List Bytes → Bytes
write_all_parts buf [] = buf
write_all_parts buf (p ∷ ps) = write_all_parts (buf ++ p) ps

-- `mergeWayGeoms`
unfoldable pub merge_way_geoms : ℕ → List Bytes → Bytes
merge_way_geoms srid hexes =
    let parts = linear_parts hexes in
    let buf = write_uint32 (write_uint32 (1 ∷ []) 0x20000005) srid in
    if is_empty parts then [] else to_hex (write_all_parts (write_uint32 buf (size32 parts)) parts)
