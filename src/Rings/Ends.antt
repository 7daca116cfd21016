-- ===== src/Rings/Ends.antt =====
-- Every ring that `stitchRings` returns is closed and has at least four points.
use osmpgsqlimport.Prelude.{
  ℕ, zero, suc, ◌≤◌, ◌≡◌, refl, sym, ap, ◌⊎◌, inl, inr, true, false, List, [], ◌∷◌, ◌++◌, arith,
  leb, length, length-append, some, Bool-cases,
}
use osmpgsqlimport.Prelude.Double.{Point}
use osmpgsqlimport.Wkb.Way.{back_of}
use osmpgsqlimport.Wkb.Decode.Laws.{All}
use osmpgsqlimport.Rings.{
  Ring, Segment, front?, back?, meets, attach, extend, close_ring, keep_ring, stitch, stitch_rings,
}

-- The last point is the first, or has equal coordinates; a NaN is equal to no other number, so it has
-- to be the same point then.
pub record IsClosed (r : Ring) : Type 0 where
  pub long : 4 ≤ length r
  pub ends : (front? r ≡ back? r) ⊎ (meets (front? r) (back? r) ≡ true)

back_of-concat : (p q : Point) (ps : List Point) → back_of p (ps ++ q ∷ []) ≡ q
unfolding back_of
back_of-concat p q [] = refl
back_of-concat p q (x ∷ ps) = back_of-concat x q ps

close_ring_ends :
    (r : Ring)
    → (front? (close_ring r) ≡ back? (close_ring r))
      ⊎ (meets (front? (close_ring r)) (back? (close_ring r)) ≡ true)
unfolding close_ring
close_ring_ends [] = inl (unfold front? back? in refl)
close_ring_ends (p ∷ ps) = elim (Bool-cases (meets (front? (p ∷ ps)) (back? (p ∷ ps)))) [
  | inl h ↦ rw h (inr h)
  | inr h ↦ rw h (inl (unfold front? back? in ap some (sym (back_of-concat p p ps))))
]

keep_ring-All :
    (r : Ring) (rs : List Ring) → All IsClosed rs → All IsClosed (keep_ring (close_ring r) rs)
keep_ring-All r rs h = elim (Bool-cases (leb 4 (length (close_ring r)))) [
  | inl long ↦ rw long (record { long = ground arith; ends = close_ring_ends r }, h)
  | inr short ↦ rw short h
]

stitch-All : (f : ℕ) (segs : List Segment) → All IsClosed (stitch f segs)
unfolding stitch
stitch-All zero segs = tt
stitch-All (suc f) [] = tt
stitch-All (suc f) (seg ∷ segs) =
    keep_ring-All (extend (length segs) seg segs).0 (stitch f (extend (length segs) seg segs).1)
      (stitch-All f (extend (length segs) seg segs).1)

-- Every ring has at least four points, and its last point is its first.
pub stitch_rings-IsClosed : (segs : List Segment) → All IsClosed (stitch_rings segs)
unfolding stitch_rings
stitch_rings-IsClosed segs = stitch-All (length segs) segs

-- A single way that is no ring, with at least three points, still becomes one: it is closed by force,
-- with its first point added at the end, and not given up as disconnected.
pub stitch_rings-open :
    (seg : Segment)
    → 3 ≤ length seg
    → meets (front? seg) (back? seg) ≡ false
    → (p : Point) × (front? seg ≡ some p) × (stitch_rings (seg ∷ []) ≡ (seg ++ p ∷ []) ∷ [])
unfolding stitch_rings stitch extend attach close_ring
stitch_rings-open [] h k = absurd (omega arith)
stitch_rings-open (p ∷ ps) h k =
    (p, unfold front? in refl, ground (arith, length-append (p ∷ ps) (p ∷ []), k))
