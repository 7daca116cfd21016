-- ===== src/Producer/Phases.antt =====
-- The phases of the reader loop of `main` in src/main.cpp.
use osmpgsqlimport.Prelude.{
  ℕ, ◌+◌, ◌%◌, ◌≡◌, refl, sym, ap, ◌∙◌, inl, inr, Bool, true, false, not, List, [], ◌∷◌, ◌++◌,
  append-nil, append_assoc, if◌then◌else◌, Bool-cases, Option, some,
}
use osmpgsqlimport.Pbf.{OsmEntry}
use osmpgsqlimport.Delta.{NodeEntry}
use osmpgsqlimport.CommandLine.{Phase}
use osmpgsqlimport.Producer.{
  Block, Action, Producer, skip_nodes, phase_eq, is_node, does, start_producer, emit_node,
  end_node_phase, emit_other, emit_entry, read_blocks,
}
use osmpgsqlimport.Producer.Actions.{
  way_pushes, node_pushes, offset_after, Stage, stage_after, way_pushes-append, node_pushes-append,
  offset_after-append, stage_after-append,
}
use osmpgsqlimport.Producer.Laws.{
  placed_entries, entries_of, emit_placed, read_blocks-placed, kept, emit_placed-Fed,
}

-- The nodes at the head of a file, and the rest from the first entry that is no node.
unfoldable pub head_nodes : List OsmEntry → List OsmEntry
head_nodes [] = []
head_nodes (e ∷ es) = if is_node e then e ∷ head_nodes es else []

unfoldable pub from_other : List OsmEntry → List OsmEntry
from_other [] = []
from_other (e ∷ es) = if is_node e then from_other es else e ∷ es

abbrev pub is_other : OsmEntry → Bool
is_other e = not (is_node e)

-- The start of the block of the first entry of a kind, or else `o`.
unfoldable pub first_start : (OsmEntry → Bool) → Option ℕ → List (ℕ × OsmEntry) → Option ℕ
first_start kind o [] = o
first_start kind o ((start, e) ∷ xs) = if kind e then some start else first_start kind o xs

abbrev pub end_stage : List OsmEntry → Stage
end_stage [] = Stage.filling
end_stage (e ∷ es) = Stage.feeding

head_nodes-from_other : (es : List OsmEntry) → head_nodes es ++ from_other es ≡ es
unfolding head_nodes from_other
head_nodes-from_other [] = refl
head_nodes-from_other (e ∷ es) = elim (Bool-cases (is_node e)) [
  | inl n ↦ rw n (ap (◌∷◌ e) (head_nodes-from_other es))
  | inr n ↦ rw n refl
]

pub kept_nodes : (es : List OsmEntry) → kept Phase.nodes es ≡ es
unfolding kept
kept_nodes [] = refl
kept_nodes (e ∷ es) = ap (◌∷◌ e) (kept_nodes es)

-- The node queues take the nodes in turn.
unfoldable pub in_turn : ℕ → ℕ → List OsmEntry → List (ℕ × OsmEntry)
in_turn n i [] = []
in_turn n i (e ∷ es) = (i % n, e) ∷ in_turn n (i + 1) es

module _ (phase : Phase) (node_threads : ℕ) where
  pub record Filled (p q : Producer) (xs : List (ℕ × OsmEntry)) : Type 0 where
    pub ways :
        way_pushes q.actions ≡ way_pushes p.actions ++ kept phase (from_other (entries_of xs))
    pub nodes :
        phase_eq phase Phase.merging ≡ false
        → node_pushes q.actions
          ≡ node_pushes p.actions ++ in_turn node_threads p.rr (head_nodes (entries_of xs))
    pub none_sent :
        phase_eq phase Phase.merging ≡ true → node_pushes q.actions ≡ node_pushes p.actions
    pub stage : stage_after Stage.filling q.actions ≡ some (end_stage (from_other (entries_of xs)))
    pub offset :
        (o : Option ℕ)
        → offset_after o p.actions ≡ o
        → offset_after o q.actions ≡ first_start is_other o xs

  end_node_phase_lem :
      (o : ℕ) (p : Producer)
      → p.node_phase ≡ true
      → ((end_node_phase phase node_threads o p).node_phase ≡ false)
        × ((end_node_phase phase node_threads o p).actions
            ≡ p.actions ++ Action.end_node_queues ∷ Action.save_offset o ∷ Action.await_merge ∷ [])
  unfolding end_node_phase
  end_node_phase_lem o p h = rw h (refl, refl)

  -- At the first entry that is no node the loop goes on as if the node phase had been ended before it.
  emit_placed-end :
      (o : ℕ) (e : OsmEntry) (xs : List (ℕ × OsmEntry)) (p : Producer)
      → is_node e ≡ false
      → p.node_phase ≡ true
      → emit_placed phase node_threads ((o, e) ∷ xs) p
        ≡ emit_placed phase node_threads ((o, e) ∷ xs) (end_node_phase phase node_threads o p)
  unfolding emit_placed emit_entry emit_other end_node_phase
  emit_placed-end o e xs p n h = rw (n, h) refl

  -- The state after such an entry, and all entries behind it.
  record Ended (p q : Producer) (o : ℕ) (es : List OsmEntry) : Type 0 where
    ways : way_pushes q.actions ≡ way_pushes p.actions ++ kept phase es
    nodes : node_pushes q.actions ≡ node_pushes p.actions
    stage : stage_after Stage.filling q.actions ≡ some Stage.feeding
    offset : (x : Option ℕ) → offset_after x q.actions ≡ some o

  emit_placed-Ended :
      (o : ℕ) (e : OsmEntry) (xs : List (ℕ × OsmEntry)) (p : Producer)
      → is_node e ≡ false
      → p.node_phase ≡ true
      → stage_after Stage.filling p.actions ≡ some Stage.filling
      → Ended p (emit_placed phase node_threads ((o, e) ∷ xs) p) o (e ∷ entries_of xs)
  unfolding entries_of way_pushes node_pushes stage_after offset_after
  emit_placed-Ended o e xs p n h s =
      let p' = end_node_phase phase node_threads o p in
      let new = Action.end_node_queues ∷ Action.save_offset o ∷ Action.await_merge ∷ [] in
      let (over, same) = end_node_phase_lem o p h in
      let f = emit_placed-Fed phase node_threads ((o, e) ∷ xs) p' over in
      let start =
        λ (x : Option ℕ). ap (offset_after x) same ∙ offset_after-append x p.actions new in
      rw (emit_placed-end o e xs p n h) (record {
        ways =
            f.ways
            ∙ ap (λ ws. ws ++ kept phase (e ∷ entries_of xs))
                (ap way_pushes same
                  ∙ way_pushes-append p.actions new
                  ∙ append-nil (way_pushes p.actions));
        nodes =
            f.nodes
            ∙ ap node_pushes same
            ∙ node_pushes-append p.actions new
            ∙ append-nil (node_pushes p.actions);
        stage = f.stage Stage.filling (
            ap (stage_after Stage.filling) same
            ∙ stage_after-append Stage.filling Stage.filling p.actions new s);
        offset = λ x. f.offset x ∙ start x;
      })

  emit_entry-node :
      (o : ℕ) (n : NodeEntry) (p : Producer)
      → p.node_phase ≡ true
      → emit_entry phase node_threads o (OsmEntry.node_entry n) p
        ≡ emit_node phase node_threads (OsmEntry.node_entry n) p
  unfolding emit_entry
  emit_entry-node o n p h = rw h refl

  emit_node-sent :
      (e : OsmEntry) (p : Producer)
      → phase_eq phase Phase.merging ≡ false
      → emit_node phase node_threads e p
        ≡ does (Action.to_node_queue (p.rr % node_threads) e ∷ []) (record p { rr = p.rr + 1 })
  unfolding emit_node
  emit_node-sent e p m = rw m refl

  emit_node-dropped :
      (e : OsmEntry) (p : Producer)
      → phase_eq phase Phase.merging ≡ true
      → emit_node phase node_threads e p ≡ p
  unfolding emit_node
  emit_node-dropped e p m = rw m refl

  Ended-Filled :
      {p q : Producer} {o : ℕ} {e : OsmEntry} {xs : List (ℕ × OsmEntry)}
      → Ended p q o (e ∷ entries_of xs)
      → is_node e ≡ false
      → Filled p q ((o, e) ∷ xs)
  unfolding entries_of from_other head_nodes in_turn first_start
  Ended-Filled d n = record {
    ways = rw n d.ways;
    nodes = λ _. rw n (d.nodes ∙ sym (append-nil _));
    none_sent = λ _. d.nodes;
    stage = rw n d.stage;
    offset = λ x _. rw n (d.offset x);
  }

  emit_placed-Filled :
      (xs : List (ℕ × OsmEntry)) (p : Producer)
      → p.node_phase ≡ true
      → stage_after Stage.filling p.actions ≡ some Stage.filling
      → Filled p (emit_placed phase node_threads xs p) xs
  unfolding emit_placed entries_of from_other head_nodes in_turn first_start kept node_pushes
      way_pushes stage_after offset_after
  emit_placed-Filled [] p h s = record {
    ways = sym (append-nil _);
    nodes = λ _. sym (append-nil _);
    none_sent = λ _. refl;
    stage = s;
    offset = λ o e. e;
  }
  emit_placed-Filled ((o, OsmEntry.node_entry n) ∷ xs) p h s =
      rw (emit_entry-node o n p h) (elim (Bool-cases (phase_eq phase Phase.merging)) [
        | inl m ↦
            let ih = emit_placed-Filled xs p h s in
            rw (emit_node-dropped (OsmEntry.node_entry n) p m) (record {
              ways = ih.ways;
              nodes = λ f. cc (m, f);
              none_sent = ih.none_sent;
              stage = ih.stage;
              offset = ih.offset;
            })
        | inr m ↦
            let new = Action.to_node_queue (p.rr % node_threads) (OsmEntry.node_entry n) ∷ [] in
            let p' = does new (record p { rr = p.rr + 1 }) in
            let ih =
              emit_placed-Filled xs p' h
                (stage_after-append Stage.filling Stage.filling p.actions new s) in
            rw (emit_node-sent (OsmEntry.node_entry n) p m) (record {
              ways =
                  ih.ways
                  ∙ ap (λ ws. ws ++ kept phase (from_other (entries_of xs)))
                      (way_pushes-append p.actions new ∙ append-nil (way_pushes p.actions));
              nodes = λ f.
                  ih.nodes f
                  ∙ ap (λ ns. ns ++ in_turn node_threads (p.rr + 1) (head_nodes (entries_of xs)))
                      (node_pushes-append p.actions new)
                  ∙ append_assoc (node_pushes p.actions) _ _;
              none_sent = λ f. cc (m, f);
              stage = ih.stage;
              offset = λ x e. ih.offset x (offset_after-append x p.actions new ∙ e);
            })
      ])
  emit_placed-Filled ((o, OsmEntry.way_entry w) ∷ xs) p h s =
      Ended-Filled (emit_placed-Ended o (OsmEntry.way_entry w) xs p refl h s) refl
  emit_placed-Filled ((o, OsmEntry.relation_entry r) ∷ xs) p h s =
      Ended-Filled (emit_placed-Ended o (OsmEntry.relation_entry r) xs p refl h s) refl

  -- A run from the start of a file, if it does not skip the nodes.
  pub read_blocks-Filled :
      (start : ℕ) (bs : List Block)
      → skip_nodes phase node_threads ≡ false
      → Filled
          (start_producer phase node_threads)
          (read_blocks phase node_threads start bs (start_producer phase node_threads))
          (placed_entries start bs)
  unfolding start_producer stage_after
  read_blocks-Filled start bs skip =
      rw (read_blocks-placed phase node_threads start bs (start_producer phase node_threads)) (
        emit_placed-Filled (placed_entries start bs) (start_producer phase node_threads)
          (ap not skip) refl)

-- The reader of a new import gives the nodes at the head of the file to the node queues in turn, in their
-- order, and all entries from the first that is no node to the way queue, in their order. It fills no
-- node queue after that entry, and feeds the way queue only once the node queues are closed and the merge
-- is done. It saves the start of the block of that entry as the offset to resume at.
pub read_blocks-nodes :
    (node_threads start : ℕ) (bs : List Block)
    → let q =
        read_blocks Phase.nodes node_threads start bs (start_producer Phase.nodes node_threads) in
      let es = entries_of (placed_entries start bs) in
      (head_nodes es ++ from_other es ≡ es)
      × (node_pushes q.actions ≡ in_turn node_threads 0 (head_nodes es))
      × (way_pushes q.actions ≡ from_other es)
      × (stage_after Stage.filling q.actions ≡ some (end_stage (from_other es)))
      × ((o : Option ℕ)
          → offset_after o q.actions ≡ first_start is_other o (placed_entries start bs))
unfolding start_producer skip_nodes way_pushes node_pushes offset_after
read_blocks-nodes node_threads start bs =
    let f = read_blocks-Filled Phase.nodes node_threads start bs refl in
    let es = entries_of (placed_entries start bs) in
    (
      head_nodes-from_other es,
      f.nodes refl,
      f.ways ∙ kept_nodes (from_other es),
      f.stage,
      λ o. f.offset o refl,
    )
