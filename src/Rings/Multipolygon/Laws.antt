-- ===== src/Rings/Multipolygon/Laws.antt =====
-- What the text of `buildMultipolygon` stands for.
use osmpgsqlimport.Prelude.{
  is_empty→nil, subst, ℕ, ◌+◌, ◌%◌, ◌^◌, ◌<◌, ◌≡◌, ◌≢◌, refl, sym, ap, ◌∙◌, false, List, [], ◌∷◌,
  ◌++◌, map, arith, length, length-map, append_assoc, append-nil, Bytes, Option, none, some,
  Bool-cases, inl, inr, ◌⊎◌, is_empty,
}
use osmpgsqlimport.Prelude.Double.{Point}
use osmpgsqlimport.Store.Bitmap.{AllBytes}
use osmpgsqlimport.Wkb.{u32_bytes, size32, write_uint32}
use osmpgsqlimport.Wkb.Hex.{to_hex, from_hex, from_hex-to_hex}
use osmpgsqlimport.Wkb.Decode.{
  Geometry, polygon, multi_polygon, decode, read_part, read_body, ◌>>=◌, whole,
}
use osmpgsqlimport.Wkb.Decode.Laws.{all_bytes, All, IsRing, ring_bytes, read_counted-all_bytes}
use osmpgsqlimport.Wkb.Way.Laws.{
  head_bytes, head_bytes-AllBytes, decode-head_bytes, decode-polygon, AllBytes-append,
  u32_bytes-AllBytes, all_bytes-AllBytes,
}
use osmpgsqlimport.Rings.{stitch, Ring, stitch_rings}
use osmpgsqlimport.Rings.Multipolygon.{
  write_parts, multipolygon_bytes, build_multipolygon, RelationMember,
}
use osmpgsqlimport.Rings.Multipolygon.Roles.{inner_ways, outer_ways, split_roles-ways}
use osmpgsqlimport.Rings.Multipolygon.Within.{StartsAtNumbers, polygon_of}
use osmpgsqlimport.Rings.Multipolygon.Polygons.{
  polygon_bytes, write_wkb_polygon-bytes, part_of, part_of-polygon_of, write_parts-bytes, Fits,
  read_part-polygon_bytes, parts-Fits, polygon_bytes-AllBytes,
}

-- What the stitched rings stand for: with one outer ring the polygon with all inner rings as holes,
-- and with more of them a multipolygon in which each has the inner rings that start within it.
pub geometry_of : ℕ → List Ring → List Ring → Option Geometry
geometry_of srid [] inners = none
geometry_of srid (outer ∷ []) inners = some (polygon srid (outer ∷ inners))
geometry_of srid (outer ∷ other ∷ outers) inners =
    some (multi_polygon srid (map (polygon_of inners) (outer ∷ other ∷ outers)))

single-decode :
    (srid : ℕ) (rs : List Ring)
    → srid < 2 ^ 32
    → Fits rs
    → decode (polygon_bytes srid rs) ≡ some (polygon srid rs)
single-decode srid rs h f =
    ap (λ b. decode (head_bytes 0x20000003 srid (u32_bytes (size32 rs) ++ b)))
      (sym (append-nil (all_bytes ring_bytes rs)))
    ∙ decode-polygon srid rs h f.0 f.1

multi_bytes : ℕ → List (List Ring) → Bytes
multi_bytes srid parts =
    head_bytes 0x20000006 srid (u32_bytes (size32 parts) ++ all_bytes (polygon_bytes srid) parts)

multi_decode :
    (srid : ℕ) (parts : List (List Ring))
    → srid < 2 ^ 32
    → length parts < 2 ^ 32
    → All Fits parts
    → decode (multi_bytes srid parts) ≡ some (multi_polygon srid parts)
unfolding multi_bytes
multi_decode srid parts h n f =
    decode-head_bytes 0x20000006 srid
      (u32_bytes (size32 parts) ++ all_bytes (polygon_bytes srid) parts) (omega arith) h
    ∙ ap (λ b. read_body 0x20000006 srid (u32_bytes (size32 parts) ++ b) >>= whole)
        (sym (append-nil (all_bytes (polygon_bytes srid) parts)))
    ∙ body
  where
    body :
        (read_body 0x20000006 srid
            (u32_bytes (size32 parts) ++ (all_bytes (polygon_bytes srid) parts ++ []))
          >>= whole)
        ≡ some (multi_polygon srid parts)
    body =
        unfold read_body in
        rw (
          read_counted-all_bytes read_part (polygon_bytes srid) Fits
            (read_part-polygon_bytes srid h) parts [] n f)

size_parts : (inners outers : List Ring) → size32 outers ≡ size32 (map (part_of inners) outers)
size_parts inners outers = ap (λ n. n % 2 ^ 32) (sym (length-map outers (part_of inners)))

write_parts-multi_bytes :
    (srid : ℕ) (inners outers : List Ring)
    → write_parts srid inners
        (write_uint32 (write_uint32 (write_uint32 (1 ∷ []) 0x20000006) srid) (size32 outers))
        outers
      ≡ multi_bytes srid (map (part_of inners) outers)
unfolding multi_bytes write_uint32
write_parts-multi_bytes srid inners outers =
    write_parts-bytes srid inners outers _ ∙ rw (size_parts inners outers) (simp append_assoc)

multi_bytes-AllBytes : (srid : ℕ) (parts : List (List Ring)) → AllBytes (multi_bytes srid parts)
unfolding multi_bytes
multi_bytes-AllBytes srid parts =
    head_bytes-AllBytes 0x20000006 srid
      (u32_bytes (size32 parts) ++ all_bytes (polygon_bytes srid) parts)
      (AllBytes-append (u32_bytes (size32 parts)) (all_bytes (polygon_bytes srid) parts)
        (u32_bytes-AllBytes (size32 parts))
        (all_bytes-AllBytes (polygon_bytes srid) (polygon_bytes-AllBytes srid) parts))

multipolygon_bytes-decode :
    (srid : ℕ) (outers inners : List Ring)
    → srid < 2 ^ 32
    → length outers < 2 ^ 32
    → 1 + length inners < 2 ^ 32
    → All IsRing outers
    → All IsRing inners
    → All StartsAtNumbers outers
    → (outers ≡ [])
      ⊎ (AllBytes (multipolygon_bytes srid outers inners)
          × (decode (multipolygon_bytes srid outers inners) ≡ geometry_of srid outers inners))
unfolding multipolygon_bytes geometry_of
multipolygon_bytes-decode srid [] inners h n k o i at = inl refl
multipolygon_bytes-decode srid (outer ∷ []) inners h n k o i at =
    rw (write_wkb_polygon-bytes srid [] outer inners) (
      inr (
        polygon_bytes-AllBytes srid (outer ∷ inners),
        single-decode srid (outer ∷ inners) h (omega arith, (o.0, i)),
      ))
multipolygon_bytes-decode srid (outer ∷ other ∷ outers) inners h n k o i at =
    let all = outer ∷ other ∷ outers in
    let parts = map (part_of inners) all in
    inr (
      subst AllBytes (sym (write_parts-multi_bytes srid inners all))
          (multi_bytes-AllBytes srid parts),
      ap decode (write_parts-multi_bytes srid inners all)
          ∙ multi_decode srid parts h (rw (length-map all (part_of inners)) n)
              (parts-Fits inners all k i o)
          ∙ ap (λ ps. some (multi_polygon srid ps)) (part_of-polygon_of inners all at),
    )

text-decode :
    (srid : ℕ) (outers inners : List Ring)
    → srid < 2 ^ 32
    → length outers < 2 ^ 32
    → 1 + length inners < 2 ^ 32
    → All IsRing outers
    → All IsRing inners
    → All StartsAtNumbers outers
    → is_empty outers ≡ false
    → decode (from_hex (to_hex (multipolygon_bytes srid outers inners)))
      ≡ geometry_of srid outers inners
text-decode srid outers inners h n k o i at full =
    elim (multipolygon_bytes-decode srid outers inners h n k o i at) [
      | inl e ↦ cc (full, ap is_empty e)
      | inr d ↦ ap decode (from_hex-to_hex (multipolygon_bytes srid outers inners) d.0) ∙ d.1
    ]

-- The rings of the members with the role `inner`, and of all others, whose ways have a point.
abbrev pub outer_rings : (ℕ → Option (List Point)) → List RelationMember → List Ring
outer_rings coords members = stitch_rings (outer_ways coords members)

abbrev pub inner_rings : (ℕ → Option (List Point)) → List RelationMember → List Ring
inner_rings coords members = stitch_rings (inner_ways coords members)

-- The text of `buildMultipolygon` is empty exactly when no outer ring could be stitched. Otherwise it
-- stands for the stitched rings: with one outer ring a polygon with every inner ring as a hole, and
-- with several a multipolygon in which each has the inner rings whose first points lie, in both coordinates,
-- between or level with points of it. The rings are those that `stitchRings` makes of the members with the role
-- `inner` and of the others, without the ways that are unknown or empty. They have to be few and short
-- enough for the 32-bit counts of the format, and no outer ring may start at a NaN.
pub build_multipolygon-decode :
    (srid : ℕ) (coords : ℕ → Option (List Point)) (members : List RelationMember)
    → srid < 2 ^ 32
    → length (outer_rings coords members) < 2 ^ 32
    → 1 + length (inner_rings coords members) < 2 ^ 32
    → All IsRing (outer_rings coords members)
    → All IsRing (inner_rings coords members)
    → All StartsAtNumbers (outer_rings coords members)
    → ((outer_rings coords members ≡ []) × (build_multipolygon srid coords members ≡ []))
      ⊎ ((outer_rings coords members ≢ [])
          × (decode (from_hex (build_multipolygon srid coords members))
              ≡ geometry_of srid (outer_rings coords members) (inner_rings coords members)))
unfolding build_multipolygon
build_multipolygon-decode srid coords members h n k o i at =
    let ways = outer_ways coords members in
    let outers = stitch_rings ways in
    let inners = stitch_rings (inner_ways coords members) in
    let roles = split_roles-ways coords members in
    elim (Bool-cases (is_empty ways)) [
      | inl bare ↦
          rw (roles, bare) (inl (ap stitch_rings (is_empty→nil ways bare) ∙ no_rings, refl))
      | inr given ↦ elim (Bool-cases (is_empty outers)) [
        | inl empty ↦ rw (roles, given, empty) (inl (is_empty→nil outers empty, refl))
        | inr full ↦
            rw (roles, given, full)
              (inr
                ((λ e. cc (full, ap is_empty e)), text-decode srid outers inners h n k o i at full))
      ]
    ]
  where
    no_rings : stitch_rings [] ≡ []
    no_rings = unfold stitch_rings stitch in refl
