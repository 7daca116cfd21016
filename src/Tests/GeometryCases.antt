-- ===== src/Tests/GeometryCases.antt =====
-- The geometries of src/main.cpp, src/OSMReader.cpp and src/DeltaApplier.cpp at concrete inputs.
use osmpgsqlimport.Prelude.{
  ℕ, ◌+◌, ◌<◌, ◌^◌, ◌≡◌, ◌≢◌, ◌↔◌, refl, sym, ap, ◌∙◌, subst, ◌==◌, ◌⊎◌, true, false, List, [], ◌∷◌,
  ◌++◌, map, is_empty, if◌then◌else◌, ltb, length, Option, some, arith,
}
use osmpgsqlimport.Prelude.Double.{Point, same_point, double_eq, is_nan, is_zero}
use osmpgsqlimport.Tags.{Tags}
use osmpgsqlimport.Tags.Area.{is_area, IsArea, is_area_iff}
use osmpgsqlimport.Wkb.Hex.{from_hex}
use osmpgsqlimport.Wkb.Decode.{Geometry, decode}
use osmpgsqlimport.Wkb.Decode.Laws.{All, IsRing}
use osmpgsqlimport.Wkb.Way.{point_wkb, is_closed_way, build_way_geom}
use osmpgsqlimport.Wkb.Way.Laws.{build_way_geom-decode, point_wkb-decode}
use osmpgsqlimport.Wkb.Lines.{merge_way_geoms}
use osmpgsqlimport.Wkb.Lines.Laws.{open_ways, way_text, merge_way_geoms-decode}
use osmpgsqlimport.Rings.{
  Ring, Segment, close_ring, extend, stitch, front?, back?, meets, is_done, stitch_rings,
}
use osmpgsqlimport.Rings.Stitch.{Assembly, stitch_rings-Assembly}
use osmpgsqlimport.Rings.Ends.{stitch_rings-open}
use osmpgsqlimport.Rings.Multipolygon.Within.{StartsAtNumbers}
use osmpgsqlimport.Rings.Multipolygon.Roles.{keep, known}
use osmpgsqlimport.Rings.Multipolygon.{RelationMember, build_multipolygon}
use osmpgsqlimport.Rings.Multipolygon.Laws.{
  geometry_of, outer_rings, inner_rings, build_multipolygon-decode,
}

point_wkb-decode_example :
    decode (from_hex (point_wkb 3857 7 8)) ≡ some (Geometry.point 3857 (7, 8))
point_wkb-decode_example = point_wkb-decode 3857 7 8 (omega arith) (omega arith, omega arith)

abbrev two_points : List Point
two_points = (1, 2) ∷ (3, 4) ∷ []

two_points-IsRing : IsRing two_points
two_points-IsRing = (omega arith, ((omega arith, omega arith), ((omega arith, omega arith), tt)))

build_way_geom-decode_example :
    let (text, closed) = build_way_geom 3857 two_points false in
    if ltb 2 2
    then (text ≡ []) × (closed ≡ false)
    else (closed ≡ is_closed_way two_points)
      × (decode (from_hex text)
          ≡ some (
              if closed
              then Geometry.polygon 3857 (two_points ∷ [])
              else Geometry.line_string 3857 two_points))
build_way_geom-decode_example =
    build_way_geom-decode 3857 two_points false (omega arith) two_points-IsRing

abbrev ways : List (List Point)
ways = two_points ∷ []

ways_open : open_ways ways ≡ ways
unfolding open_ways is_closed_way
ways_open = refl

merge_way_geoms-decode_example :
    let text = merge_way_geoms 3857 (map (way_text 3857) ways) in
    if is_empty (open_ways ways)
    then text ≡ []
    else decode (from_hex text) ≡ some (Geometry.multi_line 3857 (open_ways ways))
merge_way_geoms-decode_example =
    merge_way_geoms-decode 3857 ways (omega arith)
      (subst (λ ws. length ws < 2 ^ 32) (sym ways_open) (omega arith))
      (subst (All IsRing) (sym ways_open) (two_points-IsRing, tt))

abbrev halves : List Segment
halves = ((0, 0) ∷ (1, 0) ∷ (1, 1) ∷ []) ∷ ((0, 0) ∷ (0, 1) ∷ (1, 1) ∷ []) ∷ []

stitch_rings-Assembly_example : Assembly halves (stitch_rings halves)
stitch_rings-Assembly_example = stitch_rings-Assembly halves

abbrev bent : Segment
bent = (0, 0) ∷ (1, 0) ∷ (1, 1) ∷ []

bent_open : meets (front? bent) (back? bent) ≡ false
unfolding meets front? back? same_point double_eq is_nan is_zero
bent_open = refl

stitch_rings-open_example :
    (p : Point) × (front? bent ≡ some p) × (stitch_rings (bent ∷ []) ≡ (bent ++ p ∷ []) ∷ [])
stitch_rings-open_example = stitch_rings-open bent (omega arith) bent_open

abbrev house : Tags
house = ("building", "yes") ∷ []

is_area_iff_example : (is_area true house ≡ true) ↔ ((true ≡ true) × IsArea house)
is_area_iff_example = is_area_iff true house

-- A triangle that is closed, from a lower left to an upper right corner.
abbrev loop : ℕ → ℕ → Ring
loop a b = (a, a) ∷ (b, a) ∷ (b, b) ∷ (a, a) ∷ []

loop-IsRing : (a b : ℕ) → a < 2 ^ 64 → b < 2 ^ 64 → IsRing (loop a b)
loop-IsRing a b h k = (omega arith, ((h, h), ((k, h), ((k, k), ((h, h), tt)))))

loop-StartsAtNumbers : (a b : ℕ) → is_nan a ≡ false → StartsAtNumbers (loop a b)
loop-StartsAtNumbers a b h p ps e =
    let same : p ≡ (a, a) = sym (cc e) in
    (ap (λ (q : Point). is_nan q.0) same ∙ h, ap (λ (q : Point). is_nan q.1) same ∙ h)

abbrev coords : ℕ → Option (List Point)
coords i = if i == 1 then some (loop 0 9) else if i == 2 then some (loop 20 30) else some (loop 3 4)

abbrev members : List RelationMember
members =
    record { id = 1; role = "outer" }
    ∷ record { id = 2; role = "outer" }
    ∷ record { id = 3; role = "inner" }
    ∷ []

two_outers : outer_rings coords members ≡ loop 0 9 ∷ loop 20 30 ∷ []
unfolding keep known stitch_rings stitch close_ring extend meets front? back? same_point is_done
two_outers = refl

one_inner : inner_rings coords members ≡ loop 3 4 ∷ []
unfolding keep known stitch_rings stitch close_ring extend meets front? back? same_point is_done
one_inner = refl

loops_are_numbers : (is_nan 0 ≡ false) × (is_nan 20 ≡ false)
unfolding is_nan
loops_are_numbers = (refl, refl)

build_multipolygon-decode_example :
    ((outer_rings coords members ≡ []) × (build_multipolygon 3857 coords members ≡ []))
    ⊎ ((outer_rings coords members ≢ [])
        × (decode (from_hex (build_multipolygon 3857 coords members))
            ≡ geometry_of 3857 (outer_rings coords members) (inner_rings coords members)))
build_multipolygon-decode_example =
    build_multipolygon-decode 3857 coords members (omega arith)
      (subst (λ rs. length rs < 2 ^ 32) (sym two_outers) (omega arith))
      (subst (λ rs. 1 + length rs < 2 ^ 32) (sym one_inner) (omega arith))
      (subst (All IsRing) (sym two_outers) (
        loop-IsRing 0 9 (omega arith) (omega arith),
        (loop-IsRing 20 30 (omega arith) (omega arith), tt),
      ))
      (subst (All IsRing) (sym one_inner) (loop-IsRing 3 4 (omega arith) (omega arith), tt))
      (subst (All StartsAtNumbers) (sym two_outers) (
        loop-StartsAtNumbers 0 9 loops_are_numbers.0,
        (loop-StartsAtNumbers 20 30 loops_are_numbers.1, tt),
      ))
