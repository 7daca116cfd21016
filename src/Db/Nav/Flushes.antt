-- ===== src/Db/Nav/Flushes.antt =====
-- The buffered inserts of src/NavDB.cpp lose no row and no tag, and what a flush does where rows are bad.
use osmpgsqlimport.Prelude.{
  ℕ, ◌+◌, ◌<◌, ◌^◌, ◌≡◌, refl, sym, ap, ap₂, subst, suc, ◌∙◌, inl, inr, Bool, false, List, [], ◌∷◌,
  ◌++◌, append-nil, length, is_empty, is_empty→nil, Bool-cases, Option, none, some, Bytes, arith,
}
use osmpgsqlimport.Db.Copy.{Line, error_line, try_copy_batch}
use osmpgsqlimport.Db.Copy.Laws.{
  IsCopy, good_rows, first_bad, first_bad-none, settled, try_copy_batch-good_rows,
}
use osmpgsqlimport.Db.TagTable.{TagRecord}
use osmpgsqlimport.Db.Nav.{
  Kind, kind_eq, kind_eq_refl, Row, Nav, Server, Called, put, tag_buf_of, set_tag_buf,
  finalize_tags, add_rows, retry, copy_rows, flush_via_temp,
}

-- The tag tables take all tags.
abbrev pub TakesTags : Server → Type 0
TakesTags server = (k : Kind) (old new : List TagRecord) → server.copy_tags k old new ≡ none

-- The table has gained these rows and the tag table these tags, and the buffers are empty.
abbrev pub Flushed : Kind → Nav → List Row → Nav → Type 0
Flushed k s rows t =
    (t.tables k ≡ s.tables k ++ rows)
    × (t.bufs k ≡ [])
    × (t.tag_tables k ≡ s.tag_tables k ++ tag_buf_of k s)
    × (tag_buf_of k t ≡ [])
    × ((l : Kind)
        → kind_eq k l ≡ false
        → (t.tables l ≡ s.tables l) × (t.tag_tables l ≡ s.tag_tables l) × (t.bufs l ≡ s.bufs l))

pub finalize_tags-all :
    (server : Server) (k : Kind) (s : Nav)
    → TakesTags server
    → (t : Nav) × (finalize_tags server k s ≡ Called.returned t)
      × (t.tables ≡ s.tables)
      × (t.bufs ≡ s.bufs)
      × (t.tag_tables k ≡ s.tag_tables k ++ tag_buf_of k s)
      × (tag_buf_of k t ≡ [])
      × ((l : Kind) → kind_eq k l ≡ false → t.tag_tables l ≡ s.tag_tables l)
unfolding finalize_tags set_tag_buf tag_buf_of
finalize_tags-all server k s h = elim (Bool-cases (is_empty (tag_buf_of k s))) [
  | inl e ↦
      let nil = is_empty→nil (tag_buf_of k s) e in
      (s, rw e refl, refl, refl, sym (rw nil (append-nil (s.tag_tables k))), nil, λ l _. refl)
  | inr e ↦ (
    after k,
    rw (e, h k (s.tag_tables k) (tag_buf_of k s)) refl,
    (here k).0,
    (here k).1,
    ap (λ f. f k) (here k).2 ∙ rw (kind_eq_refl k) refl,
    (here k).3,
    λ l n. ap (λ f. f l) (here k).2 ∙ rw n refl,
  )
]
  where
    full : Kind → Nav
    full j = record s { tag_tables = put s.tag_tables k (s.tag_tables k ++ tag_buf_of k s) }

    after : Kind → Nav
    after j = set_tag_buf j [] (full j)

    here :
        (j : Kind)
        → ((after j).tables ≡ s.tables)
          × ((after j).bufs ≡ s.bufs)
          × ((after j).tag_tables ≡ put s.tag_tables k (s.tag_tables k ++ tag_buf_of k s))
          × (tag_buf_of j (after j) ≡ [])
    here Kind.node = (refl, refl, refl, refl)
    here Kind.way = (refl, refl, refl, refl)
    here Kind.area = (refl, refl, refl, refl)
    here Kind.road = (refl, refl, refl, refl)
    here Kind.relation = (refl, refl, refl, refl)

-- What the COPY of a batch, with its retries, leaves.
abbrev pub Copies : Kind → Nav → List Row → Nav → Type 0
Copies k s rows t =
    (t.tables k ≡ s.tables k ++ rows)
    × (t.tag_tables ≡ s.tag_tables)
    × (t.bufs ≡ s.bufs)
    × (tag_buf_of k t ≡ tag_buf_of k s)
    × ((l : Kind) → kind_eq k l ≡ false → t.tables l ≡ s.tables l)

tag_buf_of-add_rows :
    (k j : Kind) (rows : List Row) (s : Nav) → tag_buf_of j (add_rows k rows s) ≡ tag_buf_of j s
unfolding tag_buf_of
tag_buf_of-add_rows k Kind.node rows s = refl
tag_buf_of-add_rows k Kind.way rows s = refl
tag_buf_of-add_rows k Kind.area rows s = refl
tag_buf_of-add_rows k Kind.road rows s = refl
tag_buf_of-add_rows k Kind.relation rows s = refl

pub add_rows-Copies : (k : Kind) (rows : List Row) (s : Nav) → Copies k s rows (add_rows k rows s)
add_rows-Copies k rows s =
    (rw (kind_eq_refl k) refl, refl, refl, tag_buf_of-add_rows k k rows s, λ l n. rw n refl)

copy_rows-Copies :
    (server : Server) (k : Kind) (s : Nav) (is_bad : List Row → Row → Bool) (buf : List Row)
    → IsCopy is_bad (server.copy k (s.tables k))
    → length buf < 2 ^ 31
    → (t : Nav) × (copy_rows server k buf s ≡ Called.returned t)
      × Copies k s (good_rows is_bad [] buf) t
unfolding copy_rows retry settled
copy_rows-Copies server k s is_bad buf h w = on (first_bad is_bad [] buf) refl (h buf w)
  where
    copy : List Row → Option Bytes
    copy = server.copy k (s.tables k)

    retried :
        (rows : List Row)
        → try_copy_batch copy (length buf + 1) buf ≡ settled is_bad rows
        → (t : Nav) × (retry server k buf s ≡ Called.returned t) × Copies k s rows t
    retried [] e =
        (s, rw (e, retry) refl, (sym (append-nil (s.tables k)), refl, refl, refl, λ l n. refl))
    retried (r ∷ rows) e =
        (add_rows k (r ∷ rows) s, rw (e, retry) refl, add_rows-Copies k (r ∷ rows) s)

    on :
        (o : Option ℕ)
        → first_bad is_bad [] buf ≡ o
        → (elim o as (λ _. Type 0) [
          | none ↦ copy buf ≡ none
          | some i ↦
              (msg : Bytes) × (copy buf ≡ some msg) × (error_line msg ≡ some (Line.line (suc i)))
        ])
        → (t : Nav) × (copy_rows server k buf s ≡ Called.returned t)
          × Copies k s (good_rows is_bad [] buf) t
    on none e c = (
      add_rows k buf s,
      rw (c, copy_rows) refl,
      subst (λ rows. Copies k s rows (add_rows k buf s)) (sym (first_bad-none is_bad [] buf e))
          (add_rows-Copies k buf s),
    )
    on (some i) e (msg, c, l) =
        let (t, r, cs) =
          retried (good_rows is_bad [] buf)
            (try_copy_batch-good_rows is_bad copy (length buf + 1) buf h w (omega arith)) in
        (t, rw (c, copy_rows) r, cs)

-- The flush after a COPY that wrote these rows.
pub flush_copied-Flushed :
    (server : Server) (k : Kind) (s t : Nav) (rows : List Row)
    → copy_rows server k (s.bufs k) s ≡ Called.returned t
    → Copies k s rows t
    → TakesTags server
    → is_empty (s.bufs k) ≡ false
    → (u : Nav) × (flush_via_temp server k s ≡ Called.returned u) × Flushed k s rows u
unfolding flush_via_temp tag_buf_of
flush_copied-Flushed server k s t new copied (rows, tags, bufs, tag, others) g ne =
    let (u, done, tables, bufs', tags', tag', others') = finalize_tags-all server k t g in
    (
      record u { bufs = put u.bufs k [] },
      rw (ne, copied) (rw done refl),
      (
        ap (λ f. f k) tables ∙ rows,
        rw (kind_eq_refl k) refl,
        tags' ∙ ap₂ (λ f b. f k ++ b) tags tag,
        cleared k u tag',
        λ l n. (
          ap (λ f. f l) tables ∙ others l n,
          others' l n ∙ ap (λ f. f l) tags,
          rw n (ap (λ f. f l) bufs' ∙ ap (λ f. f l) bufs),
        ),
      ),
    )
  where
    cleared :
        (j : Kind) (u : Nav)
        → tag_buf_of j u ≡ []
        → tag_buf_of j (record u { bufs = put u.bufs k [] }) ≡ []
    cleared Kind.node u e = e
    cleared Kind.way u e = e
    cleared Kind.area u e = e
    cleared Kind.road u e = e
    cleared Kind.relation u e = e

-- A flush of buffered rows writes the rows that PostgreSQL takes and drops the others, writes every tag
-- record of the buffer that the kind uses to the kind's tag table, and empties both buffers. Nodes, roads
-- and relations have one tag buffer, so a flush of roads writes the tags of waiting relations to the tag
-- table of the roads. COPY is as documented, the tag tables take all tags, and rows are waiting, fewer than
-- 2 ^ 31.
pub flush_via_temp-Flushed :
    (server : Server) (k : Kind) (s : Nav) (is_bad : List Row → Row → Bool)
    → IsCopy is_bad (server.copy k (s.tables k))
    → TakesTags server
    → is_empty (s.bufs k) ≡ false
    → length (s.bufs k) < 2 ^ 31
    → (t : Nav) × (flush_via_temp server k s ≡ Called.returned t)
      × Flushed k s (good_rows is_bad [] (s.bufs k)) t
flush_via_temp-Flushed server k s is_bad h g ne w =
    let (t, copied, cs) = copy_rows-Copies server k s is_bad (s.bufs k) h w in
    flush_copied-Flushed server k s t (good_rows is_bad [] (s.bufs k)) copied cs g ne
