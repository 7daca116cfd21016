-- ===== src/Import/Laws.antt =====
-- The worker threads of src/main.cpp: the barrier at the end of the way phase, and the tables that ways
-- and relations go to.
use osmpgsqlimport.Prelude.{
  subst, ℕ, ◌+◌, ◌≡◌, refl, sym, ap, ◌∙◌, inl, inr, Bool, true, false, List, [], ◌∷◌, ◌++◌, subst,
  append-nil, if◌then◌else◌, is_empty, Bool-cases, Option, none, String, arith,
}
use osmpgsqlimport.Prelude.Double.{Point}
use osmpgsqlimport.Tags.Area.{is_area}
use osmpgsqlimport.Store.NodeStore.{NodeStore}
use osmpgsqlimport.Wkb.Way.{build_way_geom}
use osmpgsqlimport.Db.Nav.{
  Kind, kind_eq, Row, Nav, Server, Called, geom_row, relation_geog, insert_way, insert_area,
  insert_road, insert_relation, finalize_ways,
}
use osmpgsqlimport.Db.Nav.Flushes.{TakesTags}
use osmpgsqlimport.Db.Nav.Inserts.{TakesRows, stored, insert_row-stored}
use osmpgsqlimport.Delta.{WayEntry, RelationEntry, way_coords, is_road}
use osmpgsqlimport.Pbf.{OsmEntry}
use osmpgsqlimport.Import.{
  Worker, Worked, ◌next◌, with_called, import_way, relation_text, import_lines, end_way_phase,
  ensure_way_phase, visit_entry, visit_entries, way_thread,
}

-- Where the thread goes on, its state is like this.
pub data Holds (p : Worker → Type 0) : Worked → Type 0 where
  goes : {w : Worker} → p w → Holds p (Worked.goes_on w)
  dead : {w : Worker} → Holds p (Worked.dies w)

next-Holds :
    {p q : Worker → Type 0} {m : Worked} {f : Worker → Worked}
    → Holds p m
    → ((w : Worker) → p w → Holds q (f w))
    → Holds q (m next f)
next-Holds (Holds.goes {w} h) k = k w h
next-Holds Holds.dead k = Holds.dead

-- The arrivals that the thread has made or owes.
abbrev Owes : ℕ → Worker → Type 0
Owes c w = w.arrivals + (if w.way_phase_done then 0 else 1) ≡ c

abbrev Passed : ℕ → Worker → Type 0
Passed c w = (w.arrivals ≡ c) × (w.way_phase_done ≡ true)

with_called-Owes : {c : ℕ} (w : Worker) (m : Called) → Owes c w → Holds (Owes c) (with_called w m)
with_called-Owes w (Called.returned n) h = Holds.goes h
with_called-Owes w (Called.raised n) h = Holds.dead

with_called-Passed :
    {c : ℕ} (w : Worker) (m : Called) → Passed c w → Holds (Passed c) (with_called w m)
with_called-Passed w (Called.returned n) h = Holds.goes h
with_called-Passed w (Called.raised n) h = Holds.dead

module _ (server : Server) (al : String → Bool) (srid : ℕ)
    (coords_of : Nav → ℕ → Option (List Point)) (store : NodeStore) where
  ensure_way_phase-Passed :
      {c : ℕ} (w : Worker)
      → Owes c w
      → Holds (Passed c) (ensure_way_phase server al srid coords_of store w)
  unfolding ensure_way_phase end_way_phase
  ensure_way_phase-Passed {c} w h = on_flag w.way_phase_done refl
    where
      on :
          (m : Called)
          → w.arrivals + 1 ≡ c
          → Holds (Passed c) (
              with_called w m next λ v.
              Worked.goes_on (record v { way_phase_done = true; arrivals = v.arrivals + 1 }))
      on (Called.returned n) q = Holds.goes (q, refl)
      on (Called.raised n) q = Holds.dead

      on_flag :
          (b : Bool)
          → w.way_phase_done ≡ b
          → Holds
              (Passed c)
              (if b then Worked.goes_on w else end_way_phase server al srid coords_of store w)
      on_flag true e = Holds.goes (ground (arith, h, e), e)
      on_flag false e = on (finalize_ways server w.nav) (ground (arith, h, e))

  Passed→Owes : {c : ℕ} (w : Worker) → Passed c w → Owes c w
  Passed→Owes w h = ground (arith, h)

  visit_entry-Owes :
      {c : ℕ} (skip : Bool) (e : OsmEntry) (w : Worker)
      → Owes c w
      → Holds (Owes c) (visit_entry server al srid coords_of store skip e w)
  unfolding visit_entry
  visit_entry-Owes skip (OsmEntry.node_entry n) w h = Holds.goes h
  visit_entry-Owes true (OsmEntry.way_entry e) w h = Holds.goes h
  visit_entry-Owes false (OsmEntry.way_entry e) w h = with_called-Owes w _ h
  visit_entry-Owes skip (OsmEntry.relation_entry r) w h =
      next-Holds (ensure_way_phase-Passed w h) (λ v p. with_called-Owes v _ (Passed→Owes v p))

  visit_entries-Owes :
      {c : ℕ} (skip : Bool) (es : List OsmEntry) (w : Worker)
      → Owes c w
      → Holds (Owes c) (visit_entries server al srid coords_of store skip es w)
  unfolding visit_entries
  visit_entries-Owes skip [] w h = Holds.goes h
  visit_entries-Owes skip (e ∷ es) w h =
      next-Holds (next-Holds (visit_entry-Owes skip e w h) (λ v p. with_called-Owes v _ p))
        (λ v p. visit_entries-Owes skip es v p)

  -- A way thread that ends without an exception has arrived at the barrier exactly once, whatever entries
  -- it was given and in whatever order, and not at all when it resumes after the ways.
  pub way_thread-arrivals :
      (skip : Bool) (es : List OsmEntry) (n : Nav) (w : Worker)
      → way_thread server al srid coords_of store skip es n ≡ Worked.goes_on w
      → w.arrivals ≡ (if skip then 0 else 1)
  unfolding way_thread
  way_thread-arrivals skip es n w h = on (subst (Holds (Passed (if skip then 0 else 1))) h all)
    where
      start : Worker
      start = record { nav = n; way_phase_done = skip; arrivals = 0 }

      all :
          Holds
            (Passed (if skip then 0 else 1))
            (way_thread server al srid coords_of store skip es n)
      all =
          next-Holds
            (next-Holds (visit_entries-Owes skip es start (omega arith))
              (λ v p. ensure_way_phase-Passed v p))
            (λ v p. with_called-Passed v _ p)

      on :
          Holds (Passed (if skip then 0 else 1)) (Worked.goes_on w)
          → w.arrivals ≡ (if skip then 0 else 1)
      on (Holds.goes p) = p.0

  -- Against a database that takes every row, a way with a geometry is stored once: in `areas` if it is an
  -- area, in `ways` otherwise. A way without one is stored nowhere.
  pub import_way-stored :
      (w : WayEntry) (n : Nav)
      → TakesRows server
      → TakesTags server
      → (t : Nav) × (import_way server al srid coords_of store w n ≡ Called.returned t)
        × ((l : Kind)
            → stored l t
              ≡ stored l n
                ++ (let (geog, closed) = build_way_geom srid (way_coords store w.node_refs) false in
                    if is_empty geog
                    then []
                    else if kind_eq (if is_area closed w.tags then Kind.area else Kind.way) l
                    then geom_row w.id w.name geog ∷ []
                    else []))
  unfolding import_way insert_way insert_area
  import_way-stored w n h g =
      let (geog, closed) = build_way_geom srid (way_coords store w.node_refs) false in
      elim (Bool-cases (is_empty geog)) [
        | inl e ↦ (n, rw e refl, λ l. rw e (sym (append-nil (stored l n))))
        | inr e ↦ elim (Bool-cases (is_area closed w.tags)) [
          | inl a ↦
              let (t, r, k) =
                insert_row-stored server al Kind.area (geom_row w.id w.name geog) w.tags n h g in
              (t, rw (e, a) r, λ l. rw (e, a) (k l))
          | inr a ↦
              let (t, r, k) =
                insert_row-stored server al Kind.way (geom_row w.id w.name geog) w.tags n h g in
              (t, rw (e, a) r, λ l. rw (e, a) (k l))
        ]
      ]

  -- The row of a relation that is no multipolygon.
  abbrev pub relation_row : Nav → RelationEntry → Row
  relation_row n r = record {
    id = r.id;
    name = r.name;
    geog = relation_geog (relation_text server al srid coords_of store n r);
    at = none;
  }

  -- Against such a database, a relation that is no multipolygon is stored once in `relations`, with NULL
  -- for the geometry if no member way has a line. With a geometry, and `route=road` or a `highway` tag, it
  -- is stored once in `roads` too.
  pub import_lines-stored :
      (r : RelationEntry) (n : Nav)
      → TakesRows server
      → TakesTags server
      → (t : Nav) × (import_lines server al srid coords_of store r n ≡ Called.returned t)
        × ((l : Kind)
            → stored l t
              ≡ stored l n
                ++ (if kind_eq Kind.relation l then relation_row n r ∷ [] else [])
                ++ (let geog = relation_text server al srid coords_of store n r in
                    let road = if kind_eq Kind.road l then geom_row r.id r.name geog ∷ [] else [] in
                    if is_empty geog then [] else if is_road r.tags then road else []))
  unfolding import_lines insert_relation insert_road
  import_lines-stored r n h g =
      let geog = relation_text server al srid coords_of store n r in
      let (t, q, k) = insert_row-stored server al Kind.relation (relation_row n r) r.tags n h g in
      elim (Bool-cases (is_empty geog)) [
        | inl e ↦ (t, rw (q, e) refl, λ l. k l ∙ rw e (sym (append-nil _)))
        | inr e ↦ elim (Bool-cases (is_road r.tags)) [
          | inl a ↦
              let (u, p, m) =
                insert_row-stored server al Kind.road (geom_row r.id r.name geog) r.tags t h g in
              (
                u,
                rw (q, e) (rw a p),
                λ l.
                    rw (e, a)
                      (m l
                        ∙ ap
                            (λ rows.
                              rows
                              ++ (if kind_eq Kind.road l
                                  then geom_row r.id r.name geog ∷ []
                                  else []))
                            (k l)),
              )
          | inr a ↦ (t, rw (q, e) (rw a refl), λ l. k l ∙ rw (e, a) (sym (append-nil _)))
        ]
      ]
