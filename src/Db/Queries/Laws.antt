-- ===== src/Db/Queries/Laws.antt =====
-- The one query of `getWayCoordsMap` in src/NavDB.cpp against a `getWayCoords` of each way.
use osmpgsqlimport.Prelude.{
  ℕ, ◌≡◌, refl, sym, ap, ap₂, ◌∙◌, ◌⊎◌, inl, inr, Bool, true, false, List, [], ◌∷◌, ◌++◌, ◌==◌,
  ==_refl, append-nil, append_assoc, if◌then◌else◌, Bool-cases, Option-cases, Option, none, Bytes,
  arith, subst,
}
use mathlib.Core.List.{filter_map, Perm}
use mathlib.Core.List.Perm
use osmpgsqlimport.Prelude.Double.{Double, Point}
use osmpgsqlimport.Db.Nav.{Kind, Row, Nav}
use osmpgsqlimport.Db.Queries.{
  Dumped, point_of, append_coord, append_coords, coords_at, with_ids, dump_row, dump_table,
  dump_both, get_way_coords, is_any, get_way_coords_map,
}

-- The point of a row of the result, if it is one of this way.
unfoldable point_at : ℕ → Dumped → Option Point
point_at i d = if d.id == i then point_of d else none

coords_at-append_coord :
    (i j : ℕ) (p : Point) (out : List (ℕ × List Point))
    → coords_at i (append_coord j p out) ≡ coords_at i out ++ (if j == i then p ∷ [] else [])
unfolding coords_at append_coord
coords_at-append_coord i j p [] = refl
coords_at-append_coord i j p ((k, ps) ∷ out) = elim (Bool-cases (k == j)) [
  | inl e ↦
      subst
        (λ l.
          coords_at i (append_coord l p ((k, ps) ∷ out))
          ≡ coords_at i ((k, ps) ∷ out) ++ (if l == i then p ∷ [] else []))
        (equal e) (rw (==_refl k, append_coord, coords_at) (same (Bool-cases (k == i))))
  | inr e ↦ elim (Bool-cases (k == i)) [
    | inl q ↦ rw (e, coords_at, q, other e q) (sym (append-nil ps))
    | inr q ↦ rw (e, coords_at, q) (coords_at-append_coord i j p out)
  ]
]
  where
    same :
        ((k == i) ≡ true) ⊎ ((k == i) ≡ false)
        → (if k == i then ps ++ p ∷ [] else coords_at i out)
          ≡ (if k == i then ps else coords_at i out) ++ (if k == i then p ∷ [] else [])
    same (inl q) = rw q refl
    same (inr q) = rw q (sym (append-nil (coords_at i out)))

    equal : (k == j) ≡ true → k ≡ j
    equal e = ground (arith, e)

    other : (k == j) ≡ false → (k == i) ≡ true → (j == i) ≡ false
    other e q = ground (arith, e, q)

coords_at-append_coords :
    (i : ℕ) (ds : List Dumped) (out : List (ℕ × List Point))
    → coords_at i (append_coords ds out) ≡ coords_at i out ++ filter_map (point_at i) ds
unfolding append_coords filter_map point_at
coords_at-append_coords i [] out = sym (append-nil (coords_at i out))
coords_at-append_coords i (d ∷ ds) out = elim (Bool-cases (d.id == i)) [
  | inl e ↦ elim (Option-cases (point_of d)) [
    | inl n ↦ rw (n, e, append_coords) (coords_at-append_coords i ds out)
    | inr (p, n) ↦
        rw (n, e, append_coords)
          (coords_at-append_coords i ds (append_coord d.id p out)
            ∙ rw (coords_at-append_coord i d.id p out, e)
                (append_assoc (coords_at i out) (p ∷ []) (filter_map (point_at i) ds)))
  ]
  | inr e ↦ elim (Option-cases (point_of d)) [
    | inl n ↦ rw (n, e, append_coords) (coords_at-append_coords i ds out)
    | inr (p, n) ↦
        rw (n, e, append_coords)
          (coords_at-append_coords i ds (append_coord d.id p out)
            ∙ rw (coords_at-append_coord i d.id p out, e)
                (ap (λ c. c ++ filter_map (point_at i) ds) (append-nil (coords_at i out))))
  ]
]

filter_map-append :
    (f : Dumped → Option Point) (xs ys : List Dumped)
    → filter_map f (xs ++ ys) ≡ filter_map f xs ++ filter_map f ys
unfolding filter_map
filter_map-append f [] ys = refl
filter_map-append f (x ∷ xs) ys = elim (Option-cases (f x)) [
  | inl n ↦ rw n (filter_map-append f xs ys)
  | inr (p, n) ↦ rw n (ap (λ ps. p ∷ ps) (filter_map-append f xs ys))
]

module _ (dump_points : Bytes → List (Option Double × Option Double)) where
  -- The points of one geometry, if it is that of this way.
  with_ids-point_at :
      (i j : ℕ) (ps : List (Option Double × Option Double))
      → filter_map (point_at i) (with_ids dump_points j ps)
        ≡ (if j == i then filter_map point_of (with_ids dump_points j ps) else [])
  unfolding with_ids filter_map point_at
  with_ids-point_at i j [] = elim (Bool-cases (j == i)) [ inl e ↦ rw e refl | inr e ↦ rw e refl ]
  with_ids-point_at i j ((x, y) ∷ ps) =
      let d : Dumped = record { id = j; x = x; y = y } in
      let ih = with_ids-point_at i j ps in
      elim (Bool-cases (j == i)) [ inl e ↦ rw (ih, e) refl | inr e ↦ rw (ih, e) refl ]

  dump_row-point_at :
      (i : ℕ) (r : Row)
      → filter_map (point_at i) (dump_row dump_points r)
        ≡ (if r.id == i then filter_map point_of (dump_row dump_points r) else [])
  unfolding dump_row filter_map with_ids
  dump_row-point_at i r = elim (Option-cases r.geog) [
    | inl n ↦ rw (n, dump_row) (with_ids-point_at i r.id [])
    | inr (g, n) ↦ rw (n, dump_row) (with_ids-point_at i r.id (dump_points g))
  ]

  dump_table-point_at :
      (i : ℕ) (wanted : ℕ → Bool) (rows : List Row)
      → wanted i ≡ true
      → filter_map (point_at i) (dump_table dump_points wanted rows)
        ≡ filter_map point_of (dump_table dump_points (λ j. j == i) rows)
  unfolding dump_table filter_map
  dump_table-point_at i wanted [] h = refl
  dump_table-point_at i wanted (r ∷ rows) h =
      let ih = dump_table-point_at i wanted rows h in
      let at_row = dump_row-point_at i r in
      elim (Bool-cases (r.id == i)) [
        | inl e ↦
            let q : r.id ≡ i = ground (arith, e) in
            rw (ap wanted q ∙ h, e)
              (filter_map-append (point_at i) (dump_row dump_points r)
                  (dump_table dump_points wanted rows)
                ∙ rw (at_row, e)
                    (ap (λ ps. filter_map point_of (dump_row dump_points r) ++ ps) ih
                      ∙ sym (
                          filter_map-append point_of (dump_row dump_points r)
                            (dump_table dump_points (λ j. j == i) rows))))
        | inr e ↦ elim (Bool-cases (wanted r.id)) [
          | inl w ↦
              rw (e, w)
                (filter_map-append (point_at i) (dump_row dump_points r)
                    (dump_table dump_points wanted rows)
                  ∙ rw (at_row, e) ih)
          | inr w ↦ rw (e, w) ih
        ]
      ]

  dump_both-point_at :
      (i : ℕ) (wanted : ℕ → Bool) (s : Nav)
      → wanted i ≡ true
      → filter_map (point_at i) (dump_both dump_points wanted s) ≡ get_way_coords dump_points i s
  unfolding dump_both get_way_coords
  dump_both-point_at i wanted s h =
      filter_map-append (point_at i) (dump_table dump_points wanted (s.tables Kind.way))
        (dump_table dump_points wanted (s.tables Kind.area))
      ∙ ap₂ ◌++◌ (dump_table-point_at i wanted (s.tables Kind.way) h)
          (dump_table-point_at i wanted (s.tables Kind.area) h)
      ∙ sym (
          filter_map-append point_of (dump_table dump_points (λ j. j == i) (s.tables Kind.way))
            (dump_table dump_points (λ j. j == i) (s.tables Kind.area)))

  -- In whatever order the database gives the rows of its result, for each of the ids the map of
  -- `getWayCoordsMap` has the points that `getWayCoords` gives for it, each as often, in some order. ORDER BY
  -- sorts by the id alone and so fixes no order of the points of one way.
  pub get_way_coords_map-Perm :
      (order_by_id : List Dumped → List Dumped) (ids : List ℕ) (s : Nav) (i : ℕ)
      → ((ds : List Dumped) → Perm (order_by_id ds) ds)
      → is_any dump_points ids i ≡ true
      → Perm
          (coords_at i (get_way_coords_map dump_points order_by_id ids s))
          (get_way_coords dump_points i s)
  unfolding get_way_coords_map is_any coords_at
  get_way_coords_map-Perm order_by_id [] s i p h = cc h
  get_way_coords_map-Perm order_by_id (j ∷ ids) s i p h =
      let ds = dump_both dump_points (is_any dump_points (j ∷ ids)) s in
      subst (Perm _) (dump_both-point_at i (is_any dump_points (j ∷ ids)) s h)
        (rw (coords_at-append_coords i (order_by_id ds) []) (Perm.filter_map (point_at i) (p ds)))
