-- ===== src/Rings/Touching.antt =====
-- When segments and rings touch, said by their first and last points, for `stitchRings` of src/main.cpp.
use osmpgsqlimport.Prelude.{
  ◌≤◌, ◌<◌, ◌≡◌, refl, sym, ap, ◌∙◌, ◌⊎◌, inl, inr, Bool, true, false, List, [], ◌∷◌, ◌++◌, length,
  reverse, reverse-append, Option, none, some, arith, ◌&&◌, leb, if◌then◌else◌, subst, Bool-cases,
}
use osmpgsqlimport.Prelude.Double.{Point, double_eq, same_point}
use osmpgsqlimport.Wkb.Way.{back_of}
use osmpgsqlimport.Wkb.Decode.Laws.{All}
use osmpgsqlimport.Rings.{
  Ring, Segment, front?, back?, meets, tail, is_done, close_ring, keep_ring, attach, push_front,
}

-- A point list from `p` on, and one up to `p`.
abbrev pub Starts : Point → List Point → Type 0
Starts p ps = (rest : List Point) × (ps ≡ p ∷ rest)

abbrev pub Ends : Point → List Point → Type 0
Ends p ps = (init : List Point) × (ps ≡ init ++ p ∷ [])

-- Equal coordinates.
abbrev pub Same : Point → Point → Type 0
Same p q = (double_eq p.0 q.0 ≡ true) × (double_eq p.1 q.1 ≡ true)

-- A ring of at least four points that ends where it starts.
abbrev pub IsLoop : Ring → Type 0
IsLoop ring =
    (4 ≤ length ring) × ((p : Point) × (q : Point) × Starts p ring × Ends q ring × Same p q)

-- Neither end of a segment is at the end of a ring.
abbrev pub Apart : Ring → Segment → Type 0
Apart ring seg = (p q : Point) → Ends p ring → Starts q seg ⊎ Ends q seg → Same q p → ⊥

same_of : {p q : Point} → some p ≡ some q → p ≡ q
same_of h = cc h

both : (b c : Bool) → (b && c) ≡ true → (b ≡ true) × (c ≡ true)
both true true h = (refl, refl)
both true false h = cc h
both false c h = cc h

same_point-Same : (p q : Point) → same_point p q ≡ true → Same p q
unfolding same_point
same_point-Same p q h = both (double_eq p.0 q.0) (double_eq p.1 q.1) h

Same-same_point : (p q : Point) → Same p q → same_point p q ≡ true
unfolding same_point
Same-same_point p q h = rw (h.0, h.1) refl

pub front-Starts : (ps : List Point) (p : Point) → front? ps ≡ some p → Starts p ps
unfolding front?
front-Starts [] p h = cc h
front-Starts (q ∷ ps) p h = (ps, ap (λ r. r ∷ ps) (same_of h))

pub Starts-front : (ps : List Point) (p : Point) → Starts p ps → front? ps ≡ some p
unfolding front?
Starts-front ps p (rest, e) = ap front? e

back_of-Ends : (q : Point) (ps : List Point) → Ends (back_of q ps) (q ∷ ps)
unfolding back_of
back_of-Ends q [] = ([], refl)
back_of-Ends q (x ∷ ps) = let (init, e) = back_of-Ends x ps in (q ∷ init, ap (λ l. q ∷ l) e)

pub back_of_last : (p q : Point) (ps : List Point) → back_of p (ps ++ q ∷ []) ≡ q
unfolding back_of
back_of_last p q [] = refl
back_of_last p q (x ∷ ps) = back_of_last x q ps

pub back-Ends : (ps : List Point) (p : Point) → back? ps ≡ some p → Ends p ps
unfolding back?
back-Ends [] p h = cc h
back-Ends (q ∷ ps) p h = subst (λ r. Ends r (q ∷ ps)) (same_of h) (back_of-Ends q ps)

pub Ends-back : (ps : List Point) (p : Point) → Ends p ps → back? ps ≡ some p
unfolding back?
Ends-back ps p (init, e) = ap back? e ∙ on init
  where
    on : (l : List Point) → back? (l ++ p ∷ []) ≡ some p
    on [] = refl
    on (q ∷ l) = ap some (back_of_last q p l)

pub meets-Same :
    (o u : Option Point)
    → meets o u ≡ true
    → (p : Point) × (q : Point) × (o ≡ some p) × (u ≡ some q) × Same p q
unfolding meets
meets-Same none u h = cc h
meets-Same (some p) none h = cc h
meets-Same (some p) (some q) h = (p, q, refl, refl, same_point-Same p q h)

pub Same-meets :
    (o u : Option Point) (p q : Point) → o ≡ some p → u ≡ some q → Same p q → meets o u ≡ true
unfolding meets
Same-meets o u p q e f h = rw (e, f) (Same-same_point p q h)

meets-Apart :
    (ring : Ring) (seg : Segment)
    → meets (front? seg) (back? ring) ≡ false
    → meets (back? seg) (back? ring) ≡ false
    → Apart ring seg
meets-Apart ring seg h k p q e (inl f) s =
    cc (h, Same-meets (front? seg) (back? ring) q p (Starts-front seg q f) (Ends-back ring p e) s)
meets-Apart ring seg h k p q e (inr f) s =
    cc (k, Same-meets (back? seg) (back? ring) q p (Ends-back seg q f) (Ends-back ring p e) s)

pub is_done-IsLoop : (ring : Ring) → is_done ring ≡ true → IsLoop ring
unfolding is_done
is_done-IsLoop ring h =
    let (long, meet) = both (leb 4 (length ring)) (meets (front? ring) (back? ring)) h in
    let (p, q, e, f, s) = meets-Same (front? ring) (back? ring) meet in
    (ground (arith, long), (p, q, front-Starts ring p e, back-Ends ring q f, s))

-- `ring` becomes `ring'` by one more segment, which starts or ends where the ring ends. The point is not
-- repeated.
pub data Joins (ring : Ring) : Segment → Ring → Type 0 where
  forward :
      {p q : Point} {rest : Segment} → Ends p ring → Same q p → Joins ring (q ∷ rest) (ring ++ rest)
  backward :
      {p : Point} (q : Point) (init : Segment)
      → Ends p ring
      → Same q p
      → Joins ring (init ++ q ∷ []) (ring ++ reverse init)

pub meets-forward :
    (ring : Ring) (seg : Segment)
    → meets (front? seg) (back? ring) ≡ true
    → Joins ring seg (ring ++ tail seg)
meets-forward ring seg h =
    let (q, p, e, f, s) = meets-Same (front? seg) (back? ring) h in
    let (rest, starts) = front-Starts seg q e in
    subst (λ l. Joins ring l (ring ++ tail l)) (sym starts) (forward (back-Ends ring p f) s)

pub meets-backward :
    (ring : Ring) (seg : Segment)
    → meets (back? seg) (back? ring) ≡ true
    → Joins ring seg (ring ++ tail (reverse seg))
meets-backward ring seg h =
    let (q, p, e, f, s) = meets-Same (back? seg) (back? ring) h in
    let (init, ends) = back-Ends seg q e in
    subst (λ l. Joins ring l (ring ++ tail (reverse l))) (sym ends)
      (subst (λ l. Joins ring (init ++ q ∷ []) (ring ++ tail l))
        (sym (reverse-append init (q ∷ []))) (backward q init (back-Ends ring p f) s))

-- What a ring is closed to: itself if its ends have equal coordinates, or else with its first point again.
pub data Closes : Ring → Ring → Type 0 where
  nothing : Closes [] []
  already : {r : Ring} {p q : Point} → Starts p r → Ends q r → Same p q → Closes r r
  forced :
      {r : Ring} {p q : Point} → Starts p r → Ends q r → (Same p q → ⊥) → Closes r (r ++ p ∷ [])

pub close_ring-Closes : (r : Ring) → Closes r (close_ring r)
unfolding close_ring front? back?
close_ring-Closes [] = nothing
close_ring-Closes (p ∷ ps) =
    let ends = back_of-Ends p ps in
    elim (Bool-cases (meets (front? (p ∷ ps)) (back? (p ∷ ps)))) [
      | inl h ↦
          let (a, b, e, f, s) = meets-Same (front? (p ∷ ps)) (back? (p ∷ ps)) h in
          rw h (already (front-Starts (p ∷ ps) a e) (back-Ends (p ∷ ps) b f) s)
      | inr h ↦ rw h (
          forced (ps, refl) ends
            (λ s.
              cc (h, Same-meets (front? (p ∷ ps)) (back? (p ∷ ps)) p (back_of p ps) refl refl s)))
    ]

-- A closed ring is kept if it has at least four points.
pub data Keeps : Ring → List Ring → List Ring → Type 0 where
  kept : {r : Ring} {rings : List Ring} → 4 ≤ length r → Keeps r rings (r ∷ rings)
  dropped : {r : Ring} {rings : List Ring} → length r < 4 → Keeps r rings rings

pub keep_ring-Keeps : (r : Ring) (rings : List Ring) → Keeps r rings (keep_ring r rings)
keep_ring-Keeps r rings = elim (Bool-cases (leb 4 (length r))) [
  | inl h ↦ rw h (kept (ground (arith, h)))
  | inr h ↦ rw h (dropped (ground (arith, h)))
]

pub attach-Apart :
    (ring : Ring) (segs : List Segment) → attach ring segs ≡ none → All (Apart ring) segs
unfolding attach
attach-Apart ring [] h = tt
attach-Apart ring (seg ∷ segs) h =
    on (meets (front? seg) (back? ring)) (meets (back? seg) (back? ring)) refl refl
      (attach ring segs) refl h (attach-Apart ring segs)
  where
    on :
        (b c : Bool)
        → meets (front? seg) (back? ring) ≡ b
        → meets (back? seg) (back? ring) ≡ c
        → (o : Option (Ring × List Segment)) → attach ring segs ≡ o
        → (if b
            then some (ring ++ tail seg, segs)
            else if c
            then some (ring ++ tail (reverse seg), segs)
            else push_front seg o)
          ≡ none
        → (attach ring segs ≡ none → All (Apart ring) segs)
        → All (Apart ring) (seg ∷ segs)
    on true c e f o g k later = cc k
    on false true e f o g k later = cc k
    on false false e f none g k later = (meets-Apart ring seg e f, later g)
    on false false e f (some (r, rest)) g k later = cc k
