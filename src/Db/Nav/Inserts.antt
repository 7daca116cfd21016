-- ===== src/Db/Nav/Inserts.antt =====
-- Runs of the buffered inserts of src/NavDB.cpp against a database that takes every row.
use osmpgsqlimport.Prelude.{
  subst, ℕ, ◌≡◌, refl, sym, ap, ap₂, ◌∙◌, inl, inr, Bool, List, [], ◌∷◌, ◌++◌, append-nil,
  append_assoc, length, is_empty, is_empty→nil, if◌then◌else◌, Bool-cases, none, String, Bytes,
}
use osmpgsqlimport.Tags.{Tags}
use osmpgsqlimport.Db.Nav.{
  Kind, kind_eq, kind_eq→≡, Row, Nav, Server, Called, ◌then_do◌, set_tag_buf, copy_rows, add_rows,
  flush_via_temp, add_tags, push_row, is_full, geom_row, relation_geog, insert_row, insert_way,
  insert_area, insert_road, insert_relation,
}
use osmpgsqlimport.Db.Nav.Flushes.{TakesTags, Flushed, add_rows-Copies, flush_copied-Flushed}

-- Every COPY succeeds.
abbrev pub TakesRows : Server → Type 0
TakesRows server = (k : Kind) (old new : List Row) → server.copy k old new ≡ none

-- A call of one of the four insert methods.
pub data Insert : Type 0 where
  way_of area_of road_of relation_of : ℕ → String → Tags → Bytes → Insert

unfoldable pub run_insert : Server → (String → Bool) → Insert → Nav → Called
run_insert server al (Insert.way_of i name tags geog) = insert_way server al i name tags geog
run_insert server al (Insert.area_of i name tags geog) = insert_area server al i name tags geog
run_insert server al (Insert.road_of i name tags geog) = insert_road server al i name tags geog
run_insert server al (Insert.relation_of i name tags geog) =
    insert_relation server al i name tags geog

unfoldable pub run_inserts : Server → (String → Bool) → List Insert → Nav → Called
run_inserts server al [] s = Called.returned s
run_inserts server al (x ∷ xs) s = run_insert server al x s then_do run_inserts server al xs

-- The rows that these calls mean for one table.
unfoldable pub rows_for : Kind → List Insert → List Row
rows_for k [] = []
rows_for k (Insert.way_of i name tags geog ∷ xs) =
    let rest = rows_for k xs in if kind_eq Kind.way k then geom_row i name geog ∷ rest else rest
rows_for k (Insert.area_of i name tags geog ∷ xs) =
    let rest = rows_for k xs in if kind_eq Kind.area k then geom_row i name geog ∷ rest else rest
rows_for k (Insert.road_of i name tags geog ∷ xs) =
    let rest = rows_for k xs in if kind_eq Kind.road k then geom_row i name geog ∷ rest else rest
rows_for k (Insert.relation_of i name tags geog ∷ xs) =
    let rest = rows_for k xs in
    if kind_eq Kind.relation k
    then record { id = i; name = name; geog = relation_geog geog; at = none } ∷ rest
    else rest

-- What is in the table or waits for it.
abbrev pub stored : Kind → Nav → List Row
stored k s = s.tables k ++ s.bufs k

-- A flush moves rows from the buffer to the table.
pub flush_via_temp-stored :
    (server : Server) (k : Kind) (s : Nav)
    → TakesRows server
    → TakesTags server
    → (t : Nav) × (flush_via_temp server k s ≡ Called.returned t)
      × (t.bufs k ≡ [])
      × ((l : Kind) → stored l t ≡ stored l s)
unfolding flush_via_temp copy_rows
flush_via_temp-stored server k s h g = elim (Bool-cases (is_empty (s.bufs k))) [
  | inl e ↦ (s, rw e refl, is_empty→nil (s.bufs k) e, λ l. refl)
  | inr e ↦
      let (t, r, f) =
        flush_copied-Flushed server k s (add_rows k (s.bufs k) s) (s.bufs k)
          (rw (h k (s.tables k) (s.bufs k), copy_rows) refl) (add_rows-Copies k (s.bufs k) s) g e in
      (t, r, f.1, kept t f)
]
  where
    kept : (t : Nav) → Flushed k s (s.bufs k) t → (l : Kind) → stored l t ≡ stored l s
    kept t (tables, bufs, _, _, others) l = elim (Bool-cases (kind_eq k l)) [
      | inl q ↦
          subst (λ m. stored m t ≡ stored m s) (kind_eq→≡ k l q)
            (ap₂ ◌++◌ tables bufs ∙ append-nil (s.tables k ++ s.bufs k))
      | inr q ↦ ap₂ ◌++◌ (others l q).0 (others l q).2
    ]

stored-add_tags :
    (al : String → Bool) (k l : Kind) (i : ℕ) (tags : Tags) (s : Nav)
    → stored l (add_tags al k i tags s) ≡ stored l s
unfolding set_tag_buf
stored-add_tags al Kind.node l i tags s = refl
stored-add_tags al Kind.way l i tags s = refl
stored-add_tags al Kind.area l i tags s = refl
stored-add_tags al Kind.road l i tags s = refl
stored-add_tags al Kind.relation l i tags s = refl

stored-push_row :
    (k l : Kind) (r : Row) (s : Nav)
    → stored l (push_row k r s) ≡ stored l s ++ (if kind_eq k l then r ∷ [] else [])
stored-push_row k l r s = elim (Bool-cases (kind_eq k l)) [
  | inl q ↦ rw q (
      ap (λ m. s.tables l ++ (s.bufs m ++ r ∷ [])) (kind_eq→≡ k l q)
      ∙ sym (append_assoc (s.tables l) (s.bufs l) (r ∷ [])))
  | inr q ↦ rw q (sym (append-nil (stored l s)))
]

pub insert_row-stored :
    (server : Server) (al : String → Bool) (k : Kind) (r : Row) (tags : Tags) (s : Nav)
    → TakesRows server
    → TakesTags server
    → (t : Nav) × (insert_row server al k r tags s ≡ Called.returned t)
      × ((l : Kind) → stored l t ≡ stored l s ++ (if kind_eq k l then r ∷ [] else []))
unfolding insert_row
insert_row-stored server al k r tags s h g =
    elim (Bool-cases (is_full k pushed.way_buffer_size (length (pushed.bufs k)))) [
      | inl e ↦
          let (t, done, _, same) = flush_via_temp-stored server k pushed h g in
          (t, rw e done, λ l. same l ∙ added l)
      | inr e ↦ (pushed, rw e refl, added)
    ]
  where
    pushed : Nav
    pushed = push_row k r (add_tags al k r.id tags s)

    added : (l : Kind) → stored l pushed ≡ stored l s ++ (if kind_eq k l then r ∷ [] else [])
    added l =
        stored-push_row k l r (add_tags al k r.id tags s)
        ∙ ap (λ rows. rows ++ (if kind_eq k l then r ∷ [] else []))
            (stored-add_tags al k l r.id tags s)

next :
    (l k : Kind) (r : Row) (t s : Nav) (rest : List Row)
    → stored l t ≡ stored l s ++ (if kind_eq k l then r ∷ [] else [])
    → stored l t ++ rest ≡ stored l s ++ (if kind_eq k l then r ∷ rest else rest)
next l k r t s rest e = elim (Bool-cases (kind_eq k l)) [
  | inl q ↦
      rw q (ap (λ rows. rows ++ rest) (e ∙ rw q refl) ∙ append_assoc (stored l s) (r ∷ []) rest)
  | inr q ↦ rw q (ap (λ rows. rows ++ rest) (e ∙ rw q (append-nil (stored l s))))
]

-- The part of `rows_for` of one call.
rows_for-insert :
    (server : Server) (al : String → Bool) (x : Insert) (xs : List Insert) (s : Nav)
    → TakesRows server
    → TakesTags server
    → (t : Nav) × (run_insert server al x s ≡ Called.returned t)
      × ((l : Kind) → stored l t ++ rows_for l xs ≡ stored l s ++ rows_for l (x ∷ xs))
unfolding run_insert rows_for insert_way insert_area insert_road insert_relation
rows_for-insert server al (Insert.way_of i name tags geog) xs s h g =
    let (t, r, e) = insert_row-stored server al Kind.way (geom_row i name geog) tags s h g in
    (t, r, λ l. next l Kind.way (geom_row i name geog) t s (rows_for l xs) (e l))
rows_for-insert server al (Insert.area_of i name tags geog) xs s h g =
    let (t, r, e) = insert_row-stored server al Kind.area (geom_row i name geog) tags s h g in
    (t, r, λ l. next l Kind.area (geom_row i name geog) t s (rows_for l xs) (e l))
rows_for-insert server al (Insert.road_of i name tags geog) xs s h g =
    let (t, r, e) = insert_row-stored server al Kind.road (geom_row i name geog) tags s h g in
    (t, r, λ l. next l Kind.road (geom_row i name geog) t s (rows_for l xs) (e l))
rows_for-insert server al (Insert.relation_of i name tags geog) xs s h g =
    let row : Row = record { id = i; name = name; geog = relation_geog geog; at = none } in
    let (t, r, e) = insert_row-stored server al Kind.relation row tags s h g in
    (t, r, λ l. next l Kind.relation row t s (rows_for l xs) (e l))

-- With a database that takes every row and tag, any calls of `insertWay`, `insertArea`, `insertRoad` and
-- `insertRelation` followed by the flush of a kind return, and the kind's table has gained the rows that
-- were waiting and the rows of these calls, once each and in their order, whenever the buffers filled up
-- in between. The kind's buffer is empty.
pub run_inserts-flush :
    (server : Server) (al : String → Bool) (k : Kind) (xs : List Insert) (s : Nav)
    → TakesRows server
    → TakesTags server
    → (t : Nav) × ((run_inserts server al xs s then_do flush_via_temp server k) ≡ Called.returned t)
      × (t.bufs k ≡ [])
      × (t.tables k ≡ s.tables k ++ s.bufs k ++ rows_for k xs)
unfolding run_inserts rows_for
run_inserts-flush server al k [] s h g =
    let (t, r, empty, same) = flush_via_temp-stored server k s h g in
    (
      t,
      r,
      empty,
      sym (append-nil (t.tables k))
          ∙ ap (λ b. t.tables k ++ b) (sym empty)
          ∙ same k
          ∙ sym (append-nil (stored k s)),
    )
run_inserts-flush server al k (x ∷ xs) s h g =
    let (t, r, e) = rows_for-insert server al x xs s h g in
    let (u, q, empty, rows) = run_inserts-flush server al k xs t h g in
    (u, rw r q, empty, rows ∙ e k)
