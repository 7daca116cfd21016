-- ===== src/Db/Nav/Nodes.antt =====
-- `insertNode` and `flushNodes` of src/NavDB.cpp against a database that takes every row.
use osmpgsqlimport.Prelude.{
  ℕ, ◌≡◌, refl, sym, ap, ap₂, ◌∙◌, inl, inr, Bool, List, [], ◌∷◌, ◌++◌, append-nil, append_assoc,
  length, is_empty, is_empty→nil, if◌then◌else◌, Bool-cases, some, String, Bytes, leb,
}
use osmpgsqlimport.Prelude.Double.{Point}
use osmpgsqlimport.Tags.{Tags}
use osmpgsqlimport.Db.TagTable.{TagRecord}
use osmpgsqlimport.Db.Nav.{
  Kind, Row, Nav, Server, Called, put, node_buffer_size, tag_records, tag_buf_of, set_tag_buf,
  add_tags, push_row, add_rows, flush_nodes, insert_node,
}
use osmpgsqlimport.Db.Nav.Flushes.{TakesTags, finalize_tags-all}
use osmpgsqlimport.Db.Nav.Inserts.{TakesRows, stored}

-- The tags in the tag table of the nodes and those that wait.
abbrev pub node_tags : Nav → List TagRecord
node_tags s = s.tag_tables Kind.node ++ s.tag_buf

abbrev pub node_row : ℕ → String → Point → Bytes → Row
node_row i name p geog = record { id = i; name = name; geog = some geog; at = some p }

-- The row of a node: only one with tags has one.
abbrev pub node_rows_of : ℕ → String → Point → Tags → Bytes → List Row
node_rows_of i name p tags geog = if is_empty tags then [] else node_row i name p geog ∷ []

pub flush_nodes-stored :
    (server : Server) (s : Nav)
    → TakesRows server
    → TakesTags server
    → (t : Nav) × (flush_nodes server s ≡ Called.returned t)
      × (t.bufs Kind.node ≡ [])
      × (stored Kind.node t ≡ stored Kind.node s)
      × (node_tags t ≡ node_tags s)
unfolding flush_nodes tag_buf_of
flush_nodes-stored server s h g = elim (Bool-cases (is_empty (s.bufs Kind.node))) [
  | inl e ↦ (s, rw e refl, is_empty→nil (s.bufs Kind.node) e, refl, refl)
  | inr e ↦
      let (u, done, tables, bufs, tags, tag, _) =
        finalize_tags-all server Kind.node (add_rows Kind.node (s.bufs Kind.node) s) g in
      (
        record u { bufs = put u.bufs Kind.node [] },
        rw (e, h Kind.node (s.tables Kind.node) (s.bufs Kind.node)) (rw done refl),
        refl,
        append-nil (u.tables Kind.node) ∙ ap (λ f. f Kind.node) tables,
        ap₂ ◌++◌ tags tag ∙ append-nil (node_tags s),
      )
]

module _ (server : Server) (al : String → Bool) where
  pub insert_node-stored :
      (i : ℕ) (name : String) (p : Point) (tags : Tags) (geog : Bytes) (s : Nav)
      → TakesRows server
      → TakesTags server
      → (t : Nav) × (insert_node server al i name p tags geog s ≡ Called.returned t)
        × (stored Kind.node t ≡ stored Kind.node s ++ node_rows_of i name p tags geog)
        × (node_tags t ≡ node_tags s ++ tag_records al i tags)
  unfolding insert_node tag_records set_tag_buf tag_buf_of
  insert_node-stored i name p [] geog s h g =
      (s, refl, sym (append-nil (stored Kind.node s)), sym (append-nil (node_tags s)))
  insert_node-stored i name p (tag ∷ tags) geog s h g =
      elim (Bool-cases (leb node_buffer_size (length (pushed.bufs Kind.node)))) [
        | inl e ↦
            let (t, done, _, rows, kept) = flush_nodes-stored server pushed h g in
            (t, rw e done, rows ∙ added, kept ∙ tagged)
        | inr e ↦ (pushed, rw e refl, added, tagged)
      ]
    where
      pushed : Nav
      pushed = push_row Kind.node (node_row i name p geog) (add_tags al Kind.node i (tag ∷ tags) s)

      added : stored Kind.node pushed ≡ stored Kind.node s ++ node_row i name p geog ∷ []
      added =
          sym (append_assoc (s.tables Kind.node) (s.bufs Kind.node) (node_row i name p geog ∷ []))

      tagged : node_tags pushed ≡ node_tags s ++ tag_records al i (tag ∷ tags)
      tagged = sym (append_assoc (s.tag_tables Kind.node) s.tag_buf (tag_records al i (tag ∷ tags)))
