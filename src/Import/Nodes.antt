-- ===== src/Import/Nodes.antt =====
-- A node thread of src/main.cpp over the nodes of its queue: what it puts into the node store and into the tables.
use osmpgsqlimport.Prelude.{
  ℕ, ◌≡◌, refl, sym, ap, ◌∙◌, inl, inr, Bool, List, [], ◌∷◌, ◌++◌, map, append-nil, append_assoc,
  String,
}
use osmpgsqlimport.Prelude.Double.{Double, Point}
use osmpgsqlimport.Store.Shard.{Fault, Rec, ◌>>=◌, Result, Result-cases, ok, err}
use osmpgsqlimport.Store.NodeStore.{NodeStore, insert}
use osmpgsqlimport.Store.NodeStore.NodePhase.{run_inserts}
use osmpgsqlimport.Wkb.Way.{point_wkb}
use osmpgsqlimport.Db.TagTable.{TagRecord}
use osmpgsqlimport.Db.Nav.{Kind, Row, Nav, Server, tag_records, tag_buf_of}
use osmpgsqlimport.Db.Nav.Flushes.{TakesTags, finalize_tags-all}
use osmpgsqlimport.Db.Nav.Inserts.{TakesRows, stored}
use osmpgsqlimport.Db.Nav.Nodes.{node_tags, node_rows_of, flush_nodes-stored, insert_node-stored}
use osmpgsqlimport.Delta.{NodeEntry}
use osmpgsqlimport.Pbf.{OsmEntry}
use osmpgsqlimport.Import.{NodeWorker, NodeWorked, project, import_node, import_nodes, node_thread}

ok_injective : {s t : NodeStore} → ok s ≡ ok t → s ≡ t
ok_injective e = cc e

no_store : {f : Fault} {t : NodeStore} → err f ≡ ok t → ⊥
no_store e = cc e

module _ (server : Server) (al : String → Bool) (srid : ℕ) (tid : ℕ) (use_mercator : Bool)
    (to_mercator : Double → Double → Point) where
  abbrev at : NodeEntry → Point
  at n = project server al srid tid use_mercator to_mercator n

  -- What these nodes mean for the store and for the tables.
  unfoldable pub inserts_of : List NodeEntry → List (ℕ × Rec)
  inserts_of [] = []
  inserts_of (n ∷ ns) =
      (tid, record { id = n.id; lon_m = (at n).0; lat_m = (at n).1 }) ∷ inserts_of ns

  unfoldable pub rows_of : List NodeEntry → List Row
  rows_of [] = []
  rows_of (n ∷ ns) =
      node_rows_of n.id n.name (at n) n.tags (point_wkb srid (at n).0 (at n).1) ++ rows_of ns

  unfoldable pub tags_of : List NodeEntry → List TagRecord
  tags_of [] = []
  tags_of (n ∷ ns) = tag_records al n.id n.tags ++ tags_of ns

  import_node-stored :
      (n : NodeEntry) (w : NodeWorker) (st : NodeStore)
      → insert w.store tid (record { id = n.id; lon_m = (at n).0; lat_m = (at n).1 }) ≡ ok st
      → TakesRows server
      → TakesTags server
      → (t : Nav) × (import_node server al srid tid use_mercator to_mercator n w
          ≡ NodeWorked.runs (record w { store = st; nav = t }))
        × (stored Kind.node t
            ≡ stored Kind.node w.nav
              ++ node_rows_of n.id n.name (at n) n.tags (point_wkb srid (at n).0 (at n).1))
        × (node_tags t ≡ node_tags w.nav ++ tag_records al n.id n.tags)
  unfolding import_node
  import_node-stored n w st i h g =
      let (t, done, rows, tags) =
        insert_node-stored server al n.id n.name (at n) n.tags (point_wkb srid (at n).0 (at n).1)
          w.nav h g in
      (t, rw (i, done, import_node) refl, rows, tags)

  import_nodes-stored :
      (ns : List NodeEntry) (w : NodeWorker) (st : NodeStore)
      → run_inserts w.store (inserts_of ns) ≡ ok st
      → TakesRows server
      → TakesTags server
      → (v : NodeWorker) × (import_nodes server al srid tid use_mercator to_mercator
            (map OsmEntry.node_entry ns)
            w
          ≡ NodeWorked.runs v)
        × (v.store ≡ st)
        × (v.forwarded ≡ w.forwarded)
        × (stored Kind.node v.nav ≡ stored Kind.node w.nav ++ rows_of ns)
        × (node_tags v.nav ≡ node_tags w.nav ++ tags_of ns)
  unfolding import_nodes inserts_of rows_of tags_of run_inserts
  import_nodes-stored [] w st e h g =
      (w, refl, ok_injective e, refl, sym (append-nil _), sym (append-nil _))
  import_nodes-stored (n ∷ ns) w st e h g =
      elim (Result-cases
        (insert w.store tid (record { id = n.id; lon_m = (at n).0; lat_m = (at n).1 }))) [
          | inl (st', i) ↦
              let (t, done, rows, tags) = import_node-stored n w st' i h g in
              let (v, all, store, forwarded, more_rows, more_tags) =
                import_nodes-stored ns (record w { store = st'; nav = t }) st
                  (step (ok st') (sym i)) h g in
              (
                v,
                rw done all,
                store,
                forwarded,
                more_rows ∙ ap (λ rs. rs ++ rows_of ns) rows ∙ append_assoc _ _ (rows_of ns),
                more_tags ∙ ap (λ ts. ts ++ tags_of ns) tags ∙ append_assoc _ _ (tags_of ns),
              )
          | inr (f, i) ↦ elim (no_store (step (err f) (sym i))) [ ]
        ]
    where
      step :
          (m : Result NodeStore)
          → m ≡ insert w.store tid (record { id = n.id; lon_m = (at n).0; lat_m = (at n).1 })
          → (m >>= λ u. run_inserts u (inserts_of ns)) ≡ ok st
      step m q = ap (λ o. o >>= λ u. run_inserts u (inserts_of ns)) q ∙ e

  -- A node thread on a queue of nodes, against a database that takes every row and tag, ends. It puts each node,
  -- projected, into its shard of the store in the order of the queue, and stores the row and the tag records of
  -- each node that has tags once and in this order, behind what was there. Its buffers are empty then. The
  -- inserts into its shard must be possible.
  pub node_thread-stored :
      (ns : List NodeEntry) (w : NodeWorker) (st : NodeStore)
      → run_inserts w.store (inserts_of ns) ≡ ok st
      → TakesRows server
      → TakesTags server
      → (v : NodeWorker) × (node_thread server al srid tid use_mercator to_mercator
            (map OsmEntry.node_entry ns)
            w
          ≡ NodeWorked.runs v)
        × (v.store ≡ st)
        × (v.nav.bufs Kind.node ≡ [])
        × (v.nav.tables Kind.node ≡ stored Kind.node w.nav ++ rows_of ns)
        × (v.nav.tag_buf ≡ [])
        × (v.nav.tag_tables Kind.node ≡ node_tags w.nav ++ tags_of ns)
  unfolding node_thread tag_buf_of
  node_thread-stored ns w st e h g =
      let (v, all, store, _, rows, tags) = import_nodes-stored ns w st e h g in
      let (t, flushed, empty, same_rows, same_tags) = flush_nodes-stored server v.nav h g in
      let (u, done, tables, bufs, tag_table, no_tags, _) = finalize_tags-all server Kind.node t g in
      (
        record v { nav = u },
        rw all (rw flushed (rw done refl)),
        store,
        ap (λ f. f Kind.node) bufs ∙ empty,
        ap (λ f. f Kind.node) tables
            ∙ sym (append-nil (t.tables Kind.node))
            ∙ ap (λ b. t.tables Kind.node ++ b) (sym empty)
            ∙ same_rows
            ∙ rows,
        no_tags,
        tag_table ∙ same_tags ∙ tags,
      )
