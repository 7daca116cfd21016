-- ===== src/Db/Queries.antt =====
-- `getWayCoords` and `getWayCoordsMap` of src/NavDB.cpp: the points of stored ways, one by one or all in one query.
pub mod Laws
use osmpgsqlimport.Prelude.{
  ℕ, Bool, true, false, ◌||◌, List, [], ◌∷◌, ◌++◌, ◌==◌, if◌then◌else◌, is_empty, Option, none,
  some, Bytes,
}
use mathlib.Core.List.{filter_map}
use osmpgsqlimport.Prelude.Double.{Double, Point}
use osmpgsqlimport.Db.Nav.{Kind, Row, Nav}

-- A row of the result: ST_X and ST_Y of a point of a geometry, which can be NULL.
pub record Dumped : Type 0 where
  pub id : ℕ
  pub x : Option Double
  pub y : Option Double

unfoldable pub point_of : Dumped → Option Point
point_of d = elim d.x [ none ↦ none | some x ↦ elim d.y [ none ↦ none | some y ↦ some (x, y) ] ]

-- `out[id].emplace_back(point)`
unfoldable pub append_coord : ℕ → Point → List (ℕ × List Point) → List (ℕ × List Point)
append_coord i p [] = (i, p ∷ []) ∷ []
append_coord i p ((j, ps) ∷ out) =
    let rest = append_coord i p out in if j == i then (j, ps ++ p ∷ []) ∷ out else (j, ps) ∷ rest

unfoldable pub append_coords : List Dumped → List (ℕ × List Point) → List (ℕ × List Point)
append_coords [] out = out
append_coords (d ∷ ds) out = elim (point_of d) [
  | none ↦ append_coords ds out
  | some p ↦ append_coords ds (append_coord d.id p out)
]

-- What `buildMultipolygon` sees for an id: no points where there is no entry.
unfoldable pub coords_at : ℕ → List (ℕ × List Point) → List Point
coords_at i [] = []
coords_at i ((j, ps) ∷ out) = if j == i then ps else coords_at i out

-- PostGIS's `ST_DumpPoints` is a parameter.
module _ (dump_points : Bytes → List (Option Double × Option Double)) where
  unfoldable pub with_ids : ℕ → List (Option Double × Option Double) → List Dumped
  with_ids i [] = []
  with_ids i ((x, y) ∷ ps) = record { id = i; x = x; y = y } ∷ with_ids i ps

  -- The points of a row.
  unfoldable pub dump_row : Row → List Dumped
  dump_row r = elim r.geog [ none ↦ [] | some g ↦ with_ids r.id (dump_points g) ]

  unfoldable pub dump_table : (ℕ → Bool) → List Row → List Dumped
  dump_table wanted [] = []
  dump_table wanted (r ∷ rows) =
      let rest = dump_table wanted rows in if wanted r.id then dump_row r ++ rest else rest

  -- `UNION ALL` of the two tables.
  unfoldable pub dump_both : (ℕ → Bool) → Nav → List Dumped
  dump_both wanted s =
      dump_table wanted (s.tables Kind.way) ++ dump_table wanted (s.tables Kind.area)

  unfoldable pub get_way_coords : ℕ → Nav → List Point
  get_way_coords i s = filter_map point_of (dump_both (λ j. j == i) s)

  -- `id = ANY(ids)`
  unfoldable pub is_any : List ℕ → ℕ → Bool
  is_any [] j = false
  is_any (i ∷ ids) j = j == i || is_any ids j

  -- `ORDER BY id` is a parameter.
  unfoldable pub get_way_coords_map :
      (List Dumped → List Dumped) → List ℕ → Nav → List (ℕ × List Point)
  get_way_coords_map order_by_id ids s =
      if is_empty ids then [] else append_coords (order_by_id (dump_both (is_any ids) s)) []
