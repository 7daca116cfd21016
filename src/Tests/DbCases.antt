-- ===== src/Tests/DbCases.antt =====
-- The database of src/NavDB.cpp at concrete inputs.
use osmpgsqlimport.Prelude.{
  ℕ, suc, ◌<◌, ◌^◌, ◌≡◌, refl, Bool, true, false, ◌&&◌, List, [], ◌∷◌, ◌++◌, ◌==◌, is_empty,
  if◌then◌else◌, length, Bytes, codes, Option, none, some, String, str_eq, eq_iff, arith,
}
use mathlib.Core.List.{Perm}
use mathlib.Core.List.Perm
use osmpgsqlimport.Prelude.Double.{Double}
use osmpgsqlimport.Tags.{Tags, lookup}
use osmpgsqlimport.Db.Copy.{Line, error_line, try_copy_batch}
use osmpgsqlimport.Db.Copy.Message.{copy_message, has_comma, Follows, error_line-copy_message}
use osmpgsqlimport.Db.Copy.Laws.{
  good_rows, first_bad, first_bad-lt, settled, IsCopy, try_copy_batch-good_rows,
}
use osmpgsqlimport.Db.TagTable.{TagRecord, diff_tags}
use osmpgsqlimport.Db.TagTable.Rows.{IsMap, IsFunctional, has_row}
use osmpgsqlimport.Db.TagTable.Laws.{diff_tags-has_row}
use osmpgsqlimport.Db.Nav.{
  Kind, kind_eq, Row, Nav, Server, Called, ◌then_do◌, geom_row, new_nav, push_row, flush_via_temp,
  update_entity, find_row,
}
use osmpgsqlimport.Db.Queries.{Dumped, coords_at, get_way_coords, is_any, get_way_coords_map}
use osmpgsqlimport.Db.Queries.Laws.{get_way_coords_map-Perm}
use osmpgsqlimport.Db.Nav.Flushes.{Flushed, flush_via_temp-Flushed}
use osmpgsqlimport.Db.Nav.Inserts.{Insert, run_inserts, rows_for, run_inserts-flush}
use osmpgsqlimport.Db.Nav.Updates.{update_entity-find_row}

-- A table that refuses the number 0.
abbrev is_zero_row : List ℕ → ℕ → Bool
is_zero_row taken r = r == 0

abbrev message : ℕ → Bytes
message i = copy_message (codes "COPY numbers") (suc i) (codes ", column n")

-- Its COPY, with an error text as PostgreSQL writes it.
abbrev error_at : Option ℕ → Option Bytes
error_at none = none
error_at (some i) = some (message i)

abbrev copy_numbers : List ℕ → Option Bytes
copy_numbers rows = error_at (first_bad is_zero_row [] rows)

abbrev table_name : Bytes
table_name = codes "COPY numbers"

no_comma : has_comma table_name ≡ false
unfolding has_comma
no_comma = refl

copy_numbers-IsCopy : IsCopy is_zero_row copy_numbers
copy_numbers-IsCopy rows w = on (first_bad is_zero_row [] rows) refl
  where
    on : (o : Option ℕ) → first_bad is_zero_row [] rows ≡ o → elim o as (λ _. Type 0) [
      | none ↦ error_at o ≡ none
      | some i ↦
          (msg : Bytes) × (error_at o ≡ some msg) × (error_line msg ≡ some (Line.line (suc i)))
    ]
    on none e = refl
    on (some i) e = (
      message i,
      refl,
      error_line-copy_message table_name (suc i) (codes ", column n") no_comma (omega arith)
          (omega (arith, w, first_bad-lt is_zero_row [] rows i e)) (Follows.other refl),
    )

try_copy_batch-good_rows_example :
    try_copy_batch copy_numbers 4 (0 ∷ 5 ∷ 0 ∷ [])
    ≡ settled is_zero_row (good_rows is_zero_row [] (0 ∷ 5 ∷ 0 ∷ []))
try_copy_batch-good_rows_example =
    try_copy_batch-good_rows is_zero_row copy_numbers 4 (0 ∷ 5 ∷ 0 ∷ []) copy_numbers-IsCopy
      (omega arith) (omega arith)

-- A database that takes everything.
abbrev taking : Server
taking = record { copy = λ _ _ _. none; copy_tags = λ _ _ _. none }

abbrev start : Nav
start = new_nav 0 (λ _. []) (λ _. [])

abbrev calls : List Insert
calls =
    Insert.way_of 7 "lane" (("highway", "track") ∷ []) (1 ∷ [])
    ∷ Insert.road_of 8 "A1" [] (2 ∷ [])
    ∷ []

abbrev any : String → Bool
any s = true

run_inserts-flush_example :
    (t : Nav) × ((run_inserts taking any calls start then_do flush_via_temp taking Kind.way)
      ≡ Called.returned t)
    × (t.bufs Kind.way ≡ [])
    × (t.tables Kind.way ≡ start.tables Kind.way ++ start.bufs Kind.way ++ rows_for Kind.way calls)
run_inserts-flush_example =
    run_inserts-flush taking any Kind.way calls start (λ _ _ _. refl) (λ _ _ _. refl)

abbrev waiting : Nav
waiting = push_row Kind.road (geom_row 8 "A1" (2 ∷ [])) start

abbrev never : List Row → Row → Bool
never taken r = false

none_bad : (taken rows : List Row) → first_bad never taken rows ≡ none
unfolding first_bad
none_bad taken [] = refl
none_bad taken (r ∷ rows) = rw (none_bad (taken ++ r ∷ []) rows) refl

taking-IsCopy : IsCopy never (taking.copy Kind.road (waiting.tables Kind.road))
taking-IsCopy rows w = rw (none_bad [] rows) refl

road_waits : is_empty (waiting.bufs Kind.road) ≡ false
unfolding new_nav
road_waits = refl

few_rows : length (waiting.bufs Kind.road) < 2 ^ 31
unfolding new_nav
few_rows = omega arith

flush_via_temp-Flushed_example :
    (t : Nav) × (flush_via_temp taking Kind.road waiting ≡ Called.returned t)
    × Flushed Kind.road waiting (good_rows never [] (waiting.bufs Kind.road)) t
flush_via_temp-Flushed_example =
    flush_via_temp-Flushed taking Kind.road waiting never taking-IsCopy (λ _ _ _. refl) road_waits
      few_rows

abbrev old_rows : List TagRecord
old_rows = (record { id = 7; key = "highway"; value = "path" }) ∷ []

abbrev new_tags : Tags
new_tags = ("highway", "track") ∷ []

new_tags-IsMap : IsMap new_tags
unfolding lookup
new_tags-IsMap = IsMap.more refl IsMap.empty

old_rows-IsFunctional : IsFunctional 7 old_rows
unfolding has_row
old_rows-IsFunctional k v w h g = ground (arith, h, g, eq_iff "path" v, eq_iff "path" w)

diff_tags-has_row_example : has_row 7 "highway" "track" (diff_tags 7 new_tags old_rows) ≡ (
    if 7 == 7
    then elim (lookup "highway" new_tags) [ none ↦ false | some v ↦ str_eq v "track" ]
    else has_row 7 "highway" "track" old_rows)
diff_tags-has_row_example =
    diff_tags-has_row 7 new_tags old_rows new_tags-IsMap old_rows-IsFunctional 7 "highway" "track"

abbrev old_nav : Nav
old_nav = record start { tables = λ _. geom_row 7 "lane" (1 ∷ []) ∷ []; tag_tables = λ _. old_rows }

abbrev new_row : Row
new_row = geom_row 7 "lane" (3 ∷ [])

update_entity-find_row_example :
    (find_row 7 ((update_entity Kind.way new_row new_tags old_nav).tables Kind.way) ≡ (
      if kind_eq Kind.way Kind.way && (7 == 7)
      then elim (find_row 7 (old_nav.tables Kind.way)) [ none ↦ none | some r ↦ some new_row ]
      else find_row 7 (old_nav.tables Kind.way)))
    × (has_row 7 "highway" "track"
          ((update_entity Kind.way new_row new_tags old_nav).tag_tables Kind.way)
        ≡ (if kind_eq Kind.way Kind.way && (7 == 7)
            then elim (lookup "highway" new_tags) [ none ↦ false | some v ↦ str_eq v "track" ]
            else has_row 7 "highway" "track" (old_nav.tag_tables Kind.way)))
update_entity-find_row_example =
    update_entity-find_row Kind.way new_row new_tags old_nav new_tags-IsMap old_rows-IsFunctional
      Kind.way 7 "highway" "track"

abbrev stored_ways : Nav
stored_ways = record start {
  tables = λ k.
      if kind_eq Kind.way k
      then geom_row 7 "lane" (1 ∷ []) ∷ geom_row 9 "path" (2 ∷ []) ∷ []
      else [];
}

-- Two points, and one without a y.
abbrev three_points : Bytes → List (Option Double × Option Double)
three_points geog = (some 1, some 2) ∷ (some 3, none) ∷ (some 5, some 6) ∷ []

abbrev as_found : List Dumped → List Dumped
as_found ds = ds

is_wanted : is_any three_points (9 ∷ 8 ∷ 7 ∷ []) 9 ≡ true
unfolding is_any
is_wanted = refl

get_way_coords_map-Perm_example :
    Perm
      (coords_at 9 (get_way_coords_map three_points as_found (9 ∷ 8 ∷ 7 ∷ []) stored_ways))
      (get_way_coords three_points 9 stored_ways)
get_way_coords_map-Perm_example =
    get_way_coords_map-Perm three_points as_found (9 ∷ 8 ∷ 7 ∷ []) stored_ways 9 Perm.refl is_wanted
