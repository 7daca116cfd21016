-- ===== src/Rings/Multipolygon/Within.antt =====
-- Bounding boxes for `buildMultipolygon` of src/main.cpp, said without the loop that grows them.
use osmpgsqlimport.Prelude.{
  ℕ, ◌≡◌, refl, ap, ap₂, ◌∙◌, inl, inr, Bool, true, false, not, ◌&&◌, ◌||◌, List, [], ◌∷◌, leb, ltb,
  Bool-cases, map, arith,
}
use osmpgsqlimport.Prelude.Double.{
  Double, Point, is_nan, order_key, double_le, double_lt, double_min, double_max,
}
use osmpgsqlimport.Wkb.Decode.Laws.{All}
use osmpgsqlimport.Rings.{Ring}
use osmpgsqlimport.Rings.Multipolygon.Roles.{keep}
use osmpgsqlimport.Rings.Multipolygon.{Box, grow_box, box_of, in_box, matched_inners}

-- Whether a list has a point of a kind.
unfoldable pub has_point : (Point → Bool) → List Point → Bool
has_point f [] = false
has_point f (p ∷ ps) = f p || has_point f ps

-- A point is in the bounding box of a ring: some point of the ring is not right of it, some not left of it,
-- some not above it and some not below it.
unfoldable pub is_within : Ring → Point → Bool
is_within ring p =
    has_point (λ q. double_le q.0 p.0) ring
    && has_point (λ q. double_le p.0 q.0) ring
    && has_point (λ q. double_le q.1 p.1) ring
    && has_point (λ q. double_le p.1 q.1) ring

unfoldable pub starts_within : Ring → Ring → Bool
starts_within outer [] = false
starts_within outer (p ∷ ps) = is_within outer p

-- The holes of an outer ring among several.
abbrev pub holes_of : List Ring → Ring → List Ring
holes_of inners outer = keep (starts_within outer) inners

-- The comparisons over keys: `na` and `ka` are of the first number, `nx` and `kx` of the second.
abbrev le_key : Bool → Bool → ℕ → ℕ → Bool
le_key na nb ka kb = not na && not nb && leb ka kb

abbrev lt_key : Bool → Bool → ℕ → ℕ → Bool
lt_key na nb ka kb = not na && not nb && ltb ka kb

min_new :
    (na nx nv : Bool) (ka kx kv : ℕ)
    → lt_key nx na kx ka ≡ true
    → (nx ≡ false) × (le_key nx nv kx kv ≡ (le_key na nv ka kv || le_key nx nv kx kv))
min_new na nx nv ka kx kv t = ground (arith, t)

min_old :
    (na nx nv : Bool) (ka kx kv : ℕ)
    → na ≡ false
    → lt_key nx na kx ka ≡ false
    → le_key na nv ka kv ≡ (le_key na nv ka kv || le_key nx nv kx kv)
min_old na nx nv ka kx kv h t = ground (arith, h, t)

max_new :
    (na nx nv : Bool) (ka kx kv : ℕ)
    → lt_key na nx ka kx ≡ true
    → (nx ≡ false) × (le_key nv nx kv kx ≡ (le_key nv na kv ka || le_key nv nx kv kx))
max_new na nx nv ka kx kv t = ground (arith, t)

max_old :
    (na nx nv : Bool) (ka kx kv : ℕ)
    → na ≡ false
    → lt_key na nx ka kx ≡ false
    → le_key nv na kv ka ≡ (le_key nv na kv ka || le_key nv nx kv kx)
max_old na nx nv ka kx kv h t = ground (arith, h, t)

double_le-min :
    (a x v : Double)
    → is_nan a ≡ false
    → (is_nan (double_min a x) ≡ false)
      × (double_le (double_min a x) v ≡ (double_le a v || double_le x v))
unfolding double_min double_le double_lt
double_le-min a x v h = elim (Bool-cases (double_lt x a)) [
  | inl t ↦
      rw t (min_new (is_nan a) (is_nan x) (is_nan v) (order_key a) (order_key x) (order_key v) t)
  | inr t ↦
      rw t
        (h, min_old (is_nan a) (is_nan x) (is_nan v) (order_key a) (order_key x) (order_key v) h t)
]

double_le-max :
    (a x v : Double)
    → is_nan a ≡ false
    → (is_nan (double_max a x) ≡ false)
      × (double_le v (double_max a x) ≡ (double_le v a || double_le v x))
unfolding double_max double_le double_lt
double_le-max a x v h = elim (Bool-cases (double_lt a x)) [
  | inl t ↦
      rw t (max_new (is_nan a) (is_nan x) (is_nan v) (order_key a) (order_key x) (order_key v) t)
  | inr t ↦
      rw t
        (h, max_old (is_nan a) (is_nan x) (is_nan v) (order_key a) (order_key x) (order_key v) h t)
]

-- The first point of a ring has numbers for coordinates.
abbrev pub StartsAtNumbers : Ring → Type 0
StartsAtNumbers ring =
    (p : Point) (ps : List Point) → ring ≡ p ∷ ps → (is_nan p.0 ≡ false) × (is_nan p.1 ≡ false)

or_false : (b : Bool) → b ≡ (b || false)
or_false true = refl
or_false false = refl

or_assoc : (a b c : Bool) → ((a || b) || c) ≡ (a || (b || c))
or_assoc true b c = refl
or_assoc false b c = refl

or_twice : (a b : Bool) → (a || (a || b)) ≡ (a || b)
or_twice true b = refl
or_twice false b = refl

-- The coordinates of a grown box against a number.
grow_box-x0 :
    (ps : List Point) (b : Box) (v : Double)
    → is_nan b.x0 ≡ false
    → double_le (grow_box b ps).x0 v ≡ (double_le b.x0 v || has_point (λ q. double_le q.0 v) ps)
unfolding grow_box has_point
grow_box-x0 [] b v h = or_false (double_le b.x0 v)
grow_box-x0 ((x, y) ∷ ps) b v h =
    grow_box-x0 ps _ v (double_le-min b.x0 x v h).0
    ∙ ap (λ c. c || has_point (λ q. double_le q.0 v) ps) (double_le-min b.x0 x v h).1
    ∙ or_assoc (double_le b.x0 v) (double_le x v) _

grow_box-y0 :
    (ps : List Point) (b : Box) (v : Double)
    → is_nan b.y0 ≡ false
    → double_le (grow_box b ps).y0 v ≡ (double_le b.y0 v || has_point (λ q. double_le q.1 v) ps)
unfolding grow_box has_point
grow_box-y0 [] b v h = or_false (double_le b.y0 v)
grow_box-y0 ((x, y) ∷ ps) b v h =
    grow_box-y0 ps _ v (double_le-min b.y0 y v h).0
    ∙ ap (λ c. c || has_point (λ q. double_le q.1 v) ps) (double_le-min b.y0 y v h).1
    ∙ or_assoc (double_le b.y0 v) (double_le y v) _

grow_box-x1 :
    (ps : List Point) (b : Box) (v : Double)
    → is_nan b.x1 ≡ false
    → double_le v (grow_box b ps).x1 ≡ (double_le v b.x1 || has_point (λ q. double_le v q.0) ps)
unfolding grow_box has_point
grow_box-x1 [] b v h = or_false (double_le v b.x1)
grow_box-x1 ((x, y) ∷ ps) b v h =
    grow_box-x1 ps _ v (double_le-max b.x1 x v h).0
    ∙ ap (λ c. c || has_point (λ q. double_le v q.0) ps) (double_le-max b.x1 x v h).1
    ∙ or_assoc (double_le v b.x1) (double_le v x) _

grow_box-y1 :
    (ps : List Point) (b : Box) (v : Double)
    → is_nan b.y1 ≡ false
    → double_le v (grow_box b ps).y1 ≡ (double_le v b.y1 || has_point (λ q. double_le v q.1) ps)
unfolding grow_box has_point
grow_box-y1 [] b v h = or_false (double_le v b.y1)
grow_box-y1 ((x, y) ∷ ps) b v h =
    grow_box-y1 ps _ v (double_le-max b.y1 y v h).0
    ∙ ap (λ c. c || has_point (λ q. double_le v q.1) ps) (double_le-max b.y1 y v h).1
    ∙ or_assoc (double_le v b.y1) (double_le v y) _

-- The box that the loop over a ring grows holds the points that are within the ring.
in_box-box_of :
    (outer ring : Ring)
    → StartsAtNumbers outer
    → in_box (box_of outer) ring ≡ starts_within outer ring
unfolding in_box box_of starts_within is_within has_point
in_box-box_of [] [] h = refl
in_box-box_of [] (r ∷ rs) h = refl
in_box-box_of (p ∷ ps) [] h = refl
in_box-box_of (p ∷ ps) (r ∷ rs) h =
    let (nx, ny) = h p ps refl in
    let b : Box = record { x0 = p.0; x1 = p.0; y0 = p.1; y1 = p.1 } in
    ap₂ ◌&&◌
      (ap₂ ◌&&◌
        (ap₂ ◌&&◌ (grow_box-x0 (p ∷ ps) b r.0 nx ∙ or_twice (double_le p.0 r.0) _)
          (grow_box-x1 (p ∷ ps) b r.0 nx ∙ or_twice (double_le r.0 p.0) _))
        (grow_box-y0 (p ∷ ps) b r.1 ny ∙ or_twice (double_le p.1 r.1) _))
      (grow_box-y1 (p ∷ ps) b r.1 ny ∙ or_twice (double_le r.1 p.1) _)

matched_inners-holes_of :
    (inners : List Ring) (outer : Ring)
    → StartsAtNumbers outer
    → matched_inners (box_of outer) inners ≡ holes_of inners outer
unfolding matched_inners keep
matched_inners-holes_of [] outer h = refl
matched_inners-holes_of (r ∷ rs) outer h =
    rw (in_box-box_of outer r h, matched_inners-holes_of rs outer h) refl

-- An outer ring with its holes.
abbrev pub polygon_of : List Ring → Ring → List Ring
polygon_of inners outer = outer ∷ holes_of inners outer

pub polygons_of :
    (inners outers : List Ring)
    → All StartsAtNumbers outers
    → map (λ outer. outer ∷ matched_inners (box_of outer) inners) outers
      ≡ map (polygon_of inners) outers
polygons_of inners [] h = refl
polygons_of inners (o ∷ os) h =
    ap₂ ◌∷◌ (ap (λ hs. o ∷ hs) (matched_inners-holes_of inners o h.0)) (polygons_of inners os h.1)
