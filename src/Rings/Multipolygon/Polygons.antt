-- ===== src/Rings/Multipolygon/Polygons.antt =====
-- The bytes that the writers of `buildMultipolygon` in src/main.cpp make, and the polygons that they stand for.
use osmpgsqlimport.Prelude.{
  ℕ, ◌+◌, ◌%◌, ◌^◌, ◌≤◌, ◌<◌, ◌≡◌, sym, List, [], ◌∷◌, ◌++◌, map, arith, length, append_assoc,
  append-nil, Bytes, Option, some,
}
use osmpgsqlimport.Prelude.Word.{le_bytes}
use osmpgsqlimport.Store.Bitmap.{AllBytes}
use osmpgsqlimport.Wkb.{u32_bytes, size32, write_uint32}
use osmpgsqlimport.Wkb.Decode.{read_part, read_ring}
use osmpgsqlimport.Wkb.Decode.Laws.{
  all_bytes, All, point_bytes, IsRing, ring_bytes, read_counted-all_bytes, read_ring-ring_bytes,
}
use osmpgsqlimport.Wkb.Way.Laws.{
  head_bytes, head_bytes-AllBytes, read_head-head_bytes, AllBytes-append, u32_bytes-AllBytes,
  all_bytes-AllBytes, ring_bytes-AllBytes,
}
use osmpgsqlimport.Rings.{Ring}
use osmpgsqlimport.Rings.Multipolygon.Within.{StartsAtNumbers, polygon_of, polygons_of}
use osmpgsqlimport.Rings.Multipolygon.{
  Box, f64_bytes, write_f64, write_ring_points, write_wkb_ring, write_wkb_rings, write_wkb_polygon,
  box_of, matched_inners, write_parts,
}

pub f64_bytes-le_bytes : (u : ℕ) → f64_bytes u ≡ le_bytes 8 u
unfolding f64_bytes le_bytes
f64_bytes-le_bytes u = ground arith

pub write_ring_points-all_bytes :
    (ps : Ring) (buf : Bytes) → write_ring_points buf ps ≡ buf ++ all_bytes point_bytes ps
unfolding write_ring_points write_f64 all_bytes
write_ring_points-all_bytes [] buf = sym (append-nil buf)
write_ring_points-all_bytes ((x, y) ∷ ps) buf =
    simp (f64_bytes-le_bytes, write_ring_points-all_bytes ps, append_assoc)

pub write_wkb_ring-ring_bytes :
    (r : Ring) (buf : Bytes) → write_wkb_ring buf r ≡ buf ++ ring_bytes r
unfolding write_wkb_ring write_uint32
write_wkb_ring-ring_bytes r buf = simp (write_ring_points-all_bytes, append_assoc)

pub write_wkb_rings-all_bytes :
    (rs : List Ring) (buf : Bytes) → write_wkb_rings buf rs ≡ buf ++ all_bytes ring_bytes rs
unfolding write_wkb_rings all_bytes
write_wkb_rings-all_bytes [] buf = sym (append-nil buf)
write_wkb_rings-all_bytes (r ∷ rs) buf =
    rw (write_wkb_ring-ring_bytes r buf, write_wkb_rings-all_bytes rs (buf ++ ring_bytes r))
      (append_assoc buf (ring_bytes r) (all_bytes ring_bytes rs))

-- The bytes of a polygon, from its rings.
abbrev pub polygon_bytes : ℕ → List Ring → Bytes
polygon_bytes srid rs =
    head_bytes 0x20000003 srid (u32_bytes (size32 rs) ++ all_bytes ring_bytes rs)

pub count_rings :
    (outer : Ring) (inners : List Ring) → (1 + length inners) % 2 ^ 32 ≡ size32 (outer ∷ inners)
count_rings outer inners = omega arith

pub write_wkb_polygon-bytes :
    (srid : ℕ) (buf : Bytes) (outer : Ring) (inners : List Ring)
    → write_wkb_polygon srid buf outer inners ≡ buf ++ polygon_bytes srid (outer ∷ inners)
unfolding write_wkb_polygon write_uint32 all_bytes
write_wkb_polygon-bytes srid buf outer inners =
    rw (count_rings outer inners)
      (simp (write_wkb_ring-ring_bytes, write_wkb_rings-all_bytes, append_assoc))

-- The polygon that the loop over the outer rings makes of one of them.
pub part_of : List Ring → Ring → List Ring
part_of inners outer = outer ∷ matched_inners (box_of outer) inners

pub write_parts-bytes :
    (srid : ℕ) (inners outers : List Ring) (buf : Bytes)
    → write_parts srid inners buf outers
      ≡ buf ++ all_bytes (polygon_bytes srid) (map (part_of inners) outers)
unfolding write_parts all_bytes part_of
write_parts-bytes srid inners [] buf = sym (append-nil buf)
write_parts-bytes srid inners (outer ∷ outers) buf =
    rw
      (
        write_wkb_polygon-bytes srid buf outer (matched_inners (box_of outer) inners),
        write_parts-bytes srid inners outers
            (buf ++ polygon_bytes srid (outer ∷ matched_inners (box_of outer) inners)),
      )
      (append_assoc buf (polygon_bytes srid (outer ∷ matched_inners (box_of outer) inners)) _)

-- Counts and coordinates that fit their fields.
abbrev pub Fits : List Ring → Type 0
Fits rs = (length rs < 2 ^ 32) × All IsRing rs

pub read_part-polygon_bytes :
    (srid : ℕ)
    → srid < 2 ^ 32
    → (rs : List Ring) (rest : Bytes) → Fits rs
    → read_part (polygon_bytes srid rs ++ rest) ≡ some (rs, rest)
unfolding read_part
read_part-polygon_bytes srid h rs rest f =
    let body = u32_bytes (size32 rs) ++ (all_bytes ring_bytes rs ++ rest) in
    let same : polygon_bytes srid rs ++ rest ≡ head_bytes 0x20000003 srid body =
      simp append_assoc in
    rw (same, read_head-head_bytes 0x20000003 srid body (omega arith) h)
      (read_counted-all_bytes read_ring ring_bytes IsRing read_ring-ring_bytes rs rest f.0 f.1)

pub matched_inners-All :
    (b : Option Box) (rs : List Ring)
    → All IsRing rs
    → All IsRing (matched_inners b rs) × (length (matched_inners b rs) ≤ length rs)
unfolding matched_inners
matched_inners-All b [] h = (tt, omega arith)
matched_inners-All b (r ∷ rs) h = ground (arith, matched_inners-All b rs h.1, h.0)

pub parts-Fits :
    (inners outers : List Ring)
    → 1 + length inners < 2 ^ 32
    → All IsRing inners
    → All IsRing outers
    → All Fits (map (part_of inners) outers)
unfolding part_of
parts-Fits inners [] n h k = tt
parts-Fits inners (o ∷ os) n h k =
    let m = matched_inners-All (box_of o) inners h in
    ((omega (arith, m.1), (k.0, m.0)), parts-Fits inners os n h k.1)

pub polygon_bytes-AllBytes : (srid : ℕ) (rs : List Ring) → AllBytes (polygon_bytes srid rs)
polygon_bytes-AllBytes srid rs =
    head_bytes-AllBytes 0x20000003 srid (u32_bytes (size32 rs) ++ all_bytes ring_bytes rs) (
      AllBytes-append (u32_bytes (size32 rs)) (all_bytes ring_bytes rs)
        (u32_bytes-AllBytes (size32 rs)) (all_bytes-AllBytes ring_bytes ring_bytes-AllBytes rs))

pub part_of-polygon_of :
    (inners outers : List Ring)
    → All StartsAtNumbers outers
    → map (part_of inners) outers ≡ map (polygon_of inners) outers
unfolding part_of
part_of-polygon_of inners outers h = polygons_of inners outers h
