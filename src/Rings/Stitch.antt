-- ===== src/Rings/Stitch.antt =====
-- How `stitchRings` uses its segments: each of them in one ring, end to end.
use mathlib.Core.List.{Perm, perm_middle}
use mathlib.Core.List.Perm
use osmpgsqlimport.Prelude.{
  ℕ, zero, suc, ◌≤◌, ◌≡◌, refl, ap, ◌⊎◌, inl, inr, false, List, [], ◌∷◌, ◌++◌, arith, length,
  Option, none, some, Bool-cases,
}
use osmpgsqlimport.Wkb.Decode.Laws.{All}
use osmpgsqlimport.Rings.Touching.{
  Joins, IsLoop, Apart, Closes, Keeps, meets-forward, meets-backward, is_done-IsLoop, attach-Apart,
  close_ring-Closes, keep_ring-Keeps,
}
use osmpgsqlimport.Rings.{
  Ring, Segment, front?, back?, meets, is_done, push_front, attach, extend, close_ring, stitch,
  stitch_rings,
}

-- A ring built from segments, the last one first.
pub data Chain : Ring → List Segment → Type 0 where
  start : {seg : Segment} → Chain seg (seg ∷ [])
  join :
      {ring ring' : Ring} {used : List Segment} (seg : Segment)
      → Chain ring used
      → Joins ring seg ring'
      → Chain ring' (seg ∷ used)

-- What the `for` loop finds.
pub record Found (ring : Ring) (segs : List Segment) (ring' : Ring) (segs' : List Segment)
    : Type 0 where
  pub seg : Segment
  pub joins : Joins ring seg ring'
  pub perm : Perm segs (seg ∷ segs')
  pub fewer : length segs ≡ suc (length segs')

abbrev FoundBy : Ring → List Segment → Option (Ring × List Segment) → Type 0
FoundBy ring segs none = Unit
FoundBy ring segs (some (ring', segs')) = Found ring segs ring' segs'

push_front-FoundBy :
    (ring : Ring) (seg : Segment) (segs : List Segment) (o : Option (Ring × List Segment))
    → FoundBy ring segs o
    → FoundBy ring (seg ∷ segs) (push_front seg o)
push_front-FoundBy ring seg segs none f = tt
push_front-FoundBy ring seg segs (some (ring', segs')) f = record {
  seg = f.seg;
  joins = f.joins;
  perm = Perm.trans (Perm.cons seg f.perm) (Perm.swap f.seg seg segs');
  fewer = ap suc f.fewer;
}

attach-FoundBy : (ring : Ring) (segs : List Segment) → FoundBy ring segs (attach ring segs)
unfolding attach
attach-FoundBy ring [] = tt
attach-FoundBy ring (seg ∷ segs) = elim (Bool-cases (meets (front? seg) (back? ring))) [
  | inl h ↦ rw h (record {
    seg = seg;
    joins = meets-forward ring seg h;
    perm = Perm.refl (seg ∷ segs);
    fewer = refl;
  })
  | inr h ↦ rw h (elim (Bool-cases (meets (back? seg) (back? ring))) [
    | inl k ↦ rw k (record {
      seg = seg;
      joins = meets-backward ring seg k;
      perm = Perm.refl (seg ∷ segs);
      fewer = refl;
    })
    | inr k ↦ rw k (push_front-FoundBy ring seg segs (attach ring segs) (attach-FoundBy ring segs))
  ])
]

-- The inner loop has ended by one of its own tests: the ring is closed, or nothing that is left
-- touches its end.
abbrev pub IsFinished : Ring → List Segment → Type 0
IsFinished ring rest = IsLoop ring ⊎ All (Apart ring) rest

-- A run of the inner loop, from the segments used so far.
record Extended (used segs : List Segment) (ring' : Ring) (rest : List Segment) : Type 0 where
  used' : List Segment
  chain : Chain ring' used'
  perm : Perm (used ++ segs) (used' ++ rest)
  finished : IsFinished ring' rest
  fewer : length rest ≤ length segs

Found-Extended :
    (f : ℕ) (used : List Segment) (ring : Ring) (segs : List Segment)
    (o : Option (Ring × List Segment))
    → attach ring segs ≡ o
    → FoundBy ring segs o
    → Chain ring used
    → is_done ring ≡ false
    → length segs ≤ suc f
    → ((used : List Segment) (ring : Ring) (segs : List Segment)
        → Chain ring used
        → length segs ≤ f
        → Extended used segs (extend f ring segs).0 (extend f ring segs).1)
    → Extended used segs (extend (suc f) ring segs).0 (extend (suc f) ring segs).1
unfolding extend
Found-Extended f used ring segs none e found chain more h ih =
    rw (more, e)
      (record {
        used' = used;
        chain = chain;
        perm = Perm.refl (used ++ segs);
        finished = inr (attach-Apart ring segs e);
        fewer = omega arith;
      })
Found-Extended f used ring segs (some (ring', segs')) e found chain more h ih =
    let next =
      ih (found.seg ∷ used) ring' segs' (join found.seg chain found.joins)
        (omega (arith, found.fewer)) in
    rw (more, e)
      (record {
        used' = next.used';
        chain = next.chain;
        perm =
            Perm.trans (Perm.append_left used found.perm)
              (Perm.trans (perm_middle used segs') next.perm);
        finished = next.finished;
        fewer = omega (arith, next.fewer, found.fewer);
      })

extend-Extended :
    (f : ℕ) (used : List Segment) (ring : Ring) (segs : List Segment)
    → Chain ring used
    → length segs ≤ f
    → Extended used segs (extend f ring segs).0 (extend f ring segs).1
unfolding extend
extend-Extended zero used ring [] chain h = record {
  used' = used;
  chain = chain;
  perm = Perm.refl (used ++ []);
  finished = inr tt;
  fewer = omega arith;
}
extend-Extended zero used ring (seg ∷ segs) chain h = absurd (omega arith)
extend-Extended (suc f) used ring segs chain h = elim (Bool-cases (is_done ring)) [
  | inl done ↦ rw done (record {
    used' = used;
    chain = chain;
    perm = Perm.refl (used ++ segs);
    finished = inl (is_done-IsLoop ring done);
    fewer = omega arith;
  })
  | inr more ↦
      Found-Extended f used ring segs (attach ring segs) refl (attach-FoundBy ring segs) chain more
        h (extend-Extended f)
]

-- The rings made from a collection of segments: each ring uses up some of them, end to end, and ends
-- when it is closed or when none of the others touches its end; what is left goes into other rings.
-- The ring is then closed, and kept if it has at least four points.
pub data Assembly : List Segment → List Ring → Type 0 where
  done : Assembly [] []
  ring :
      {segs : List Segment} {rings rings' : List Ring} (r r' : Ring) (used rest : List Segment)
      → Chain r used
      → Perm segs (used ++ rest)
      → IsFinished r rest
      → Closes r r'
      → Keeps r' rings rings'
      → Assembly rest rings
      → Assembly segs rings'

stitch-Assembly : (f : ℕ) (segs : List Segment) → length segs ≤ f → Assembly segs (stitch f segs)
unfolding stitch
stitch-Assembly zero [] h = done
stitch-Assembly zero (seg ∷ segs) h = absurd (omega arith)
stitch-Assembly (suc f) [] h = done
stitch-Assembly (suc f) (seg ∷ segs) h =
    let ran = extend-Extended (length segs) (seg ∷ []) seg segs start (omega arith) in
    let (r, rest) = extend (length segs) seg segs in
    ring r (close_ring r) ran.used' rest ran.chain ran.perm ran.finished (close_ring-Closes r)
      (keep_ring-Keeps (close_ring r) (stitch f rest))
      (stitch-Assembly f (extend (length segs) seg segs).1 (omega (arith, ran.fewer)))

-- `stitchRings` uses every segment in exactly one ring, forward or reversed, each of them starting at a point
-- with the coordinates of the end of the ring so far, and gives a ring up only when it is closed with at least
-- four points or when neither end of any segment that is left has these coordinates. A ring whose ends differ
-- then gets its first point again, and it is kept if it has at least four points. The fuel never runs out.
pub stitch_rings-Assembly : (segs : List Segment) → Assembly segs (stitch_rings segs)
unfolding stitch_rings
stitch_rings-Assembly segs = stitch-Assembly (length segs) segs (omega arith)
