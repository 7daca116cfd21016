-- ===== src/Producer/Laws.antt =====
-- What the reader loop of `main` in src/main.cpp gives to the queues, and in which order.
use osmpgsqlimport.Prelude.{
  ℕ, ◌≡◌, refl, sym, ap, ◌∙◌, inl, inr, Bool, false, not, ◌&&◌, List, [], ◌∷◌, ◌++◌, append-nil,
  append_assoc, if◌then◌else◌, Bool-cases, Option, some,
}
use osmpgsqlimport.Pbf.{OsmEntry}
use osmpgsqlimport.CommandLine.{Phase}
use osmpgsqlimport.Producer.{
  Block, Action, Producer, phase_eq, is_way, is_relation, end_node_phase, note_relation, emit_other,
  emit_entry, emit_entries, read_blocks,
}
use osmpgsqlimport.Producer.Actions.{
  way_pushes, node_pushes, offset_after, Stage, stage_after, way_pushes-append, node_pushes-append,
  offset_after-append, stage_after-append,
}

-- The entries of a file, each with the start of its block.
unfoldable pub placed : ℕ → List OsmEntry → List (ℕ × OsmEntry)
placed start [] = []
placed start (e ∷ es) = (start, e) ∷ placed start es

unfoldable pub placed_entries : ℕ → List Block → List (ℕ × OsmEntry)
placed_entries start [] = []
placed_entries start (b ∷ bs) = placed start b.entries ++ placed_entries b.end_position bs

unfoldable pub entries_of : List (ℕ × OsmEntry) → List OsmEntry
entries_of [] = []
entries_of ((o, e) ∷ xs) = e ∷ entries_of xs

module _ (phase : Phase) where
  -- The entries that a run gives to the way threads: a resumed relation phase drops the ways.
  unfoldable pub kept : List OsmEntry → List OsmEntry
  kept [] = []
  kept (e ∷ es) = if phase_eq phase Phase.relations && is_way e then kept es else e ∷ kept es

module _ (phase : Phase) (node_threads : ℕ) where
  unfoldable pub emit_placed : List (ℕ × OsmEntry) → Producer → Producer
  emit_placed [] p = p
  emit_placed ((o, e) ∷ xs) p = emit_placed xs (emit_entry phase node_threads o e p)

  emit_placed-append :
      (xs ys : List (ℕ × OsmEntry)) (p : Producer)
      → emit_placed (xs ++ ys) p ≡ emit_placed ys (emit_placed xs p)
  unfolding emit_placed
  emit_placed-append [] ys p = refl
  emit_placed-append ((o, e) ∷ xs) ys p =
      emit_placed-append xs ys (emit_entry phase node_threads o e p)

  emit_entries-placed :
      (start : ℕ) (es : List OsmEntry) (p : Producer)
      → emit_entries phase node_threads start es p ≡ emit_placed (placed start es) p
  unfolding emit_entries emit_placed placed
  emit_entries-placed start [] p = refl
  emit_entries-placed start (e ∷ es) p =
      emit_entries-placed start es (emit_entry phase node_threads start e p)

  pub read_blocks-placed :
      (start : ℕ) (bs : List Block) (p : Producer)
      → read_blocks phase node_threads start bs p ≡ emit_placed (placed_entries start bs) p
  unfolding read_blocks emit_placed placed_entries
  read_blocks-placed start [] p = refl
  read_blocks-placed start (b ∷ bs) p =
      read_blocks-placed b.end_position bs (emit_entries phase node_threads start b.entries p)
      ∙ ap (emit_placed (placed_entries b.end_position bs)) (emit_entries-placed start b.entries p)
      ∙ sym (emit_placed-append (placed start b.entries) (placed_entries b.end_position bs) p)

  -- What is done with an entry after the node phase.
  fed : ℕ → OsmEntry → Bool → List Action
  fed o e written =
      if phase_eq phase Phase.relations && is_way e
      then []
      else if is_relation e && not written
      then Action.save_relations_offset o ∷ Action.to_way_queue e ∷ []
      else Action.to_way_queue e ∷ []

  emit_entry-fed :
      (o : ℕ) (e : OsmEntry) (p : Producer)
      → p.node_phase ≡ false
      → ((emit_entry phase node_threads o e p).node_phase ≡ false)
        × ((emit_entry phase node_threads o e p).actions
            ≡ p.actions ++ fed o e p.relations_offset_written)
  unfolding emit_entry emit_other end_node_phase note_relation fed
  emit_entry-fed o e p h = elim (Bool-cases (phase_eq phase Phase.relations && is_way e)) [
    | inl w ↦ rw (h, w) (refl, sym (append-nil p.actions))
    | inr w ↦ elim (Bool-cases (is_relation e && not p.relations_offset_written)) [
      | inl r ↦ rw (h, w, r) (refl, append_assoc p.actions _ _)
      | inr r ↦ rw (h, w, r) (refl, refl)
    ]
  ]

  fed_lem :
      (o : ℕ) (e : OsmEntry) (written : Bool)
      → (way_pushes (fed o e written) ≡ kept phase (e ∷ []))
        × (node_pushes (fed o e written) ≡ [])
        × (stage_after Stage.feeding (fed o e written) ≡ some Stage.feeding)
        × ((x : Option ℕ) → offset_after x (fed o e written) ≡ x)
  unfolding fed kept way_pushes node_pushes stage_after offset_after
  fed_lem o e written = elim (Bool-cases (phase_eq phase Phase.relations && is_way e)) [
    | inl w ↦ rw w (refl, refl, refl, λ x. refl)
    | inr w ↦ elim (Bool-cases (is_relation e && not written)) [
      | inl r ↦ rw (w, r) (refl, refl, refl, λ x. refl)
      | inr r ↦ rw (w, r) (refl, refl, refl, λ x. refl)
    ]
  ]

  kept-cons :
      (e : OsmEntry) (es : List OsmEntry)
      → kept phase (e ∷ es) ≡ kept phase (e ∷ []) ++ kept phase es
  unfolding kept
  kept-cons e es = elim (Bool-cases (phase_eq phase Phase.relations && is_way e)) [
    | inl w ↦ rw w refl
    | inr w ↦ rw w refl
  ]

  -- After the node phase all entries that are kept phase go to the way threads, and nothing else happens.
  pub record Fed (p q : Producer) (es : List OsmEntry) : Type 0 where
    pub over : q.node_phase ≡ false
    pub ways : way_pushes q.actions ≡ way_pushes p.actions ++ kept phase es
    pub nodes : node_pushes q.actions ≡ node_pushes p.actions
    pub stage :
        (s : Stage)
        → stage_after s p.actions ≡ some Stage.feeding
        → stage_after s q.actions ≡ some Stage.feeding
    pub offset : (x : Option ℕ) → offset_after x q.actions ≡ offset_after x p.actions

  pub emit_placed-Fed :
      (xs : List (ℕ × OsmEntry)) (p : Producer)
      → p.node_phase ≡ false
      → Fed p (emit_placed xs p) (entries_of xs)
  unfolding emit_placed entries_of kept
  emit_placed-Fed [] p h = record {
    over = h;
    ways = sym (append-nil (way_pushes p.actions));
    nodes = refl;
    stage = λ s e. e;
    offset = λ x. refl;
  }
  emit_placed-Fed ((o, e) ∷ xs) p h =
      let (over, same) = emit_entry-fed o e p h in
      let new = fed o e p.relations_offset_written in
      let (w, n, s, off) = fed_lem o e p.relations_offset_written in
      let later = emit_placed-Fed xs (emit_entry phase node_threads o e p) over in
      record {
        over = later.over;
        ways =
            later.ways
            ∙ ap (λ as'. way_pushes as' ++ kept phase (entries_of xs)) same
            ∙ ap (λ ws. ws ++ kept phase (entries_of xs)) (way_pushes-append p.actions new)
            ∙ append_assoc (way_pushes p.actions) (way_pushes new) (kept phase (entries_of xs))
            ∙ ap (λ ws. way_pushes p.actions ++ ws)
                (ap (λ ws. ws ++ kept phase (entries_of xs)) w ∙ sym (kept-cons e (entries_of xs)));
        nodes =
            later.nodes
            ∙ ap node_pushes same
            ∙ node_pushes-append p.actions new
            ∙ ap (λ ns. node_pushes p.actions ++ ns) n
            ∙ append-nil (node_pushes p.actions);
        stage = λ st q.
            later.stage st
              (ap (stage_after st) same ∙ stage_after-append st Stage.feeding p.actions new q ∙ s);
        offset = λ x.
            later.offset x
            ∙ ap (offset_after x) same
            ∙ offset_after-append x p.actions new
            ∙ off (offset_after x p.actions);
      }
