-- ===== src/Rings.antt =====
-- Multipolygon assembly of src/main.cpp: `stitchRings`.
pub mod Touching
pub mod Stitch
pub mod Ends
pub mod Multipolygon
use osmpgsqlimport.Prelude.{
  ℕ, zero, suc, ◌+◌, ◌-◌, ◌≤◌, Bool, true, false, not, ◌&&◌, List, [], ◌∷◌, ◌++◌, reverse, leb,
  if◌then◌else◌, length, Option, none, some,
}
use osmpgsqlimport.Prelude.Double.{Point, same_point}
use osmpgsqlimport.Wkb.Way.{back_of}

abbrev pub Ring : Type 0
Ring = List Point

abbrev pub Segment : Type 0
Segment = List Point

-- `front()` and `back()`. Both are undefined on an empty vector, which the caller never makes.
unfoldable pub front? : List Point → Option Point
front? [] = none
front? (p ∷ ps) = some p

unfoldable pub back? : List Point → Option Point
unfolding back_of
back? [] = none
back? (p ∷ ps) = some (back_of p ps)

-- Whether both ends are there and have equal coordinates.
unfoldable pub meets : Option Point → Option Point → Bool
meets none q = false
meets (some p) none = false
meets (some p) (some q) = same_point p q

abbrev pub tail : List Point → List Point
tail [] = []
tail (p ∷ ps) = ps

-- `ring.size() >= 4` and the front equal to the back: the inner loop's `break`.
unfoldable pub is_done : Ring → Bool
is_done ring = leb 4 (length ring) && meets (front? ring) (back? ring)

abbrev pub push_front : Segment → Option (Ring × List Segment) → Option (Ring × List Segment)
push_front seg none = none
push_front seg (some (ring, segs)) = some (ring, seg ∷ segs)

-- The `for` loop: the first segment that fits is appended, forward or reversed, and erased.
unfoldable pub attach : Ring → List Segment → Option (Ring × List Segment)
attach ring [] = none
attach ring (seg ∷ segs) =
    let later = push_front seg (attach ring segs) in
    if meets (front? seg) (back? ring)
    then some (ring ++ tail seg, segs)
    else if meets (back? seg) (back? ring)
    then some (ring ++ tail (reverse seg), segs)
    else later

-- `while (progress)`. A turn that goes on erases a segment, so as many turns as segments suffice.
unfoldable pub extend : ℕ → Ring → List Segment → Ring × List Segment
extend zero ring segs = (ring, segs)
extend (suc f) ring segs = if is_done ring then (ring, segs) else elim (attach ring segs) [
  | none ↦ (ring, segs)
  | some (ring', segs') ↦ extend f ring' segs'
]

-- "Ensure ring is closed"
unfoldable pub close_ring : Ring → Ring
close_ring [] = []
close_ring (p ∷ ps) =
    if meets (front? (p ∷ ps)) (back? (p ∷ ps)) then p ∷ ps else (p ∷ ps) ++ p ∷ []

abbrev pub keep_ring : Ring → List Ring → List Ring
keep_ring ring rings = if leb 4 (length ring) then ring ∷ rings else rings

-- `while (!segs.empty())`
unfoldable pub stitch : ℕ → List Segment → List Ring
stitch zero segs = []
stitch (suc f) [] = []
stitch (suc f) (seg ∷ segs) =
    let (ring, segs') = extend (length segs) seg segs in
    keep_ring (close_ring ring) (stitch f segs')

-- `stitchRings`. The fuel is the number of segments.
unfoldable pub stitch_rings : List Segment → List Ring
stitch_rings segs = stitch (length segs) segs
