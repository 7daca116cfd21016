-- ===== src/Producer/Resume.antt =====
-- Resumed imports of src/main.cpp: with the offsets that an earlier run has saved they give the way threads
-- the same work.
use osmpgsqlimport.Prelude.{
  ℕ, ◌≡◌, refl, sym, ap, ◌∙◌, inl, inr, ◌⊎◌, Bool, true, false, not, List, [], ◌∷◌, Bool-cases,
  Option, none, some,
}
use osmpgsqlimport.Pbf.{OsmEntry}
use osmpgsqlimport.CommandLine.{Phase}
use osmpgsqlimport.Producer.{
  Block, Producer, skip_nodes, phase_eq, is_way, is_relation, start_producer, read_blocks, seek_to,
  resume_offset, run_from, read_file,
}
use osmpgsqlimport.Producer.Actions.{way_pushes, node_pushes, offset_after}
use osmpgsqlimport.Producer.Laws.{
  placed_entries, entries_of, read_blocks-placed, kept, emit_placed-Fed,
}
use osmpgsqlimport.Producer.Kinds.{
  only, only_relations-others, only_relations-kept, only_ways-others, only_ways-kept, only_self,
  only-seek_to,
}
use osmpgsqlimport.Producer.RelationsOffset.{relations_offset_after, noted}
use osmpgsqlimport.Producer.Phases.{
  from_other, is_other, first_start, kept_nodes, read_blocks-Filled, read_blocks-nodes,
}

only_others-kept :
    (phase : Phase) (es : List OsmEntry)
    → only is_other (kept phase (from_other es)) ≡ only is_other (kept phase es)
unfolding only kept from_other
only_others-kept phase [] = refl
only_others-kept phase (OsmEntry.node_entry n ∷ es) =
    elim (Bool-cases (phase_eq phase Phase.relations)) [
      | inl p ↦ rw p (only_others-kept phase es)
      | inr p ↦ rw p (only_others-kept phase es)
    ]
only_others-kept phase (OsmEntry.way_entry w ∷ es) = refl
only_others-kept phase (OsmEntry.relation_entry r ∷ es) = refl

module _ (phase : Phase) (n : ℕ) where
  skipping : skip_nodes phase n ≡ true → (start_producer phase n).node_phase ≡ false
  unfolding start_producer
  skipping s = ap not s

  -- What the way threads get to see of a run: they leave nodes alone.
  run-others :
      (start : ℕ) (bs : List Block)
      → only is_other (way_pushes (read_blocks phase n start bs (start_producer phase n)).actions)
        ≡ only is_other (kept phase (entries_of (placed_entries start bs)))
  unfolding kept way_pushes entries_of start_producer
  run-others start bs = elim (Bool-cases (skip_nodes phase n)) [
    | inl s ↦ rw (read_blocks-placed phase n start bs (start_producer phase n)) (
        ap (only is_other)
          (emit_placed-Fed phase n (placed_entries start bs) (start_producer phase n)
            (skipping s)).ways)
    | inr s ↦
        ap (only is_other) (read_blocks-Filled phase n start bs s).ways
        ∙ only_others-kept phase (entries_of (placed_entries start bs))
  ]

kept_all :
    (phase : Phase) (es : List OsmEntry)
    → phase_eq phase Phase.relations ≡ false
    → kept phase es ≡ es
unfolding kept
kept_all phase [] h = refl
kept_all phase (e ∷ es) h = rw h (ap (◌∷◌ e) (kept_all phase es h))

read_blocks-no_nodes :
    (phase : Phase) (n start : ℕ) (bs : List Block)
    → (skip_nodes phase n ≡ true)
      ⊎ ((skip_nodes phase n ≡ false) × (phase_eq phase Phase.merging ≡ true))
    → node_pushes (read_blocks phase n start bs (start_producer phase n)).actions ≡ []
unfolding node_pushes start_producer
read_blocks-no_nodes phase n start bs (inl s) =
    rw (read_blocks-placed phase n start bs (start_producer phase n))
      (emit_placed-Fed phase n (placed_entries start bs) (start_producer phase n)
        (skipping phase n s)).nodes
read_blocks-no_nodes phase n start bs (inr (s, m)) =
    (read_blocks-Filled phase n start bs s).none_sent m

module _ (start : ℕ) (bs : List Block) where
  run_from-others :
      (kind : OsmEntry → Bool) (phase : Phase) (n : ℕ) (o : Option ℕ)
      → first_start kind none (placed_entries start bs) ≡ o
      → (es : List OsmEntry) × (only is_other (way_pushes (run_from phase n o start bs).actions)
          ≡ only is_other (kept phase es))
        × (only kind es ≡ only kind (entries_of (placed_entries start bs)))
  unfolding run_from
  run_from-others kind phase n none h =
      (entries_of (placed_entries start bs), run-others phase n start bs, refl)
  run_from-others kind phase n (some o) h = (
    entries_of (placed_entries o (seek_to o start bs)),
    run-others phase n o (seek_to o start bs),
    only-seek_to kind o start bs h,
  )

  run_from-relations :
      (kind : OsmEntry → Bool) (n : ℕ) (o : Option ℕ)
      → first_start kind none (placed_entries start bs) ≡ o
      → ((es : List OsmEntry) → only is_relation (only kind es) ≡ only is_relation es)
      → only is_relation (way_pushes (run_from Phase.relations n o start bs).actions)
        ≡ only is_relation (entries_of (placed_entries start bs))
  run_from-relations kind n o h includes =
      let (es, seen, same) = run_from-others kind Phase.relations n o h in
      sym (only_relations-others (way_pushes (run_from Phase.relations n o start bs).actions))
      ∙ ap (only is_relation) seen
      ∙ only_relations-others (kept Phase.relations es)
      ∙ only_relations-kept Phase.relations es
      ∙ sym (includes es)
      ∙ ap (only is_relation) same
      ∙ includes (entries_of (placed_entries start bs))

  run_from-node_pushes :
      (phase : Phase) (n : ℕ) (o : Option ℕ)
      → (skip_nodes phase n ≡ true)
        ⊎ ((skip_nodes phase n ≡ false) × (phase_eq phase Phase.merging ≡ true))
      → node_pushes (run_from phase n o start bs).actions ≡ []
  unfolding run_from
  run_from-node_pushes phase n none h = read_blocks-no_nodes phase n start bs h
  run_from-node_pushes phase n (some o) h = read_blocks-no_nodes phase n o (seek_to o start bs) h

  -- The new import, and the offsets that it saves.
  new_import-others :
      (n : ℕ)
      → only is_other (way_pushes (run_from Phase.nodes n none start bs).actions)
        ≡ only is_other (entries_of (placed_entries start bs))
  unfolding run_from
  new_import-others n =
      run-others Phase.nodes n start bs
      ∙ ap (only is_other) (kept_nodes (entries_of (placed_entries start bs)))

  new_import-offset :
      (n : ℕ)
      → first_start is_other none (placed_entries start bs)
        ≡ offset_after none (run_from Phase.nodes n none start bs).actions
  unfolding run_from
  new_import-offset n = sym ((read_blocks-nodes n start bs).4 none)

  new_import-relations_offset :
      (n : ℕ)
      → first_start is_relation none (placed_entries start bs)
        ≡ relations_offset_after none (run_from Phase.nodes n none start bs).actions
  unfolding start_producer relations_offset_after run_from
  new_import-relations_offset n = sym (
      ap (λ (p : Producer). relations_offset_after none p.actions)
        (read_blocks-placed Phase.nodes n start bs (start_producer Phase.nodes n))
      ∙ noted n (placed_entries start bs) (start_producer Phase.nodes n))

  resumed_at :
      (phase : Phase) (n m : ℕ)
      → phase_eq phase Phase.relations ≡ false
      → (skip_nodes phase m ≡ true)
        ⊎ ((skip_nodes phase m ≡ false) × (phase_eq phase Phase.merging ≡ true))
      → let q = run_from Phase.nodes n none start bs in
        let r = run_from phase m (offset_after none q.actions) start bs in
        (only is_other (way_pushes r.actions) ≡ only is_other (way_pushes q.actions))
        × (node_pushes r.actions ≡ [])
  resumed_at phase n m no_relations skips =
      let o = offset_after none (run_from Phase.nodes n none start bs).actions in
      let (es, seen, same) = run_from-others is_other phase m o (new_import-offset n) in
      (
        seen
            ∙ ap (only is_other) (kept_all phase es no_relations)
            ∙ same
            ∙ sym (new_import-others n),
        run_from-node_pushes phase m o skips,
      )

  new_import-relations :
      (n : ℕ)
      → only is_relation (way_pushes (run_from Phase.nodes n none start bs).actions)
        ≡ only is_relation (entries_of (placed_entries start bs))
  new_import-relations n =
      sym (only_relations-others (way_pushes (run_from Phase.nodes n none start bs).actions))
      ∙ ap (only is_relation) (new_import-others n)
      ∙ only_relations-others (entries_of (placed_entries start bs))

  relations_at :
      (kind : OsmEntry → Bool) (n m : ℕ) (o : Option ℕ)
      → first_start kind none (placed_entries start bs) ≡ o
      → ((es : List OsmEntry) → only is_relation (only kind es) ≡ only is_relation es)
      → let q = run_from Phase.nodes n none start bs in
        let r = run_from Phase.relations m o start bs in
        (only is_relation (way_pushes r.actions) ≡ only is_relation (way_pushes q.actions))
        × (only is_way (way_pushes r.actions) ≡ [])
  relations_at kind n m o h includes =
      let (es, seen, same) = run_from-others kind Phase.relations m o h in
      (
        run_from-relations kind m o h includes ∙ sym (new_import-relations n),
        sym (only_ways-others (way_pushes (run_from Phase.relations m o start bs).actions))
            ∙ ap (only is_way) seen
            ∙ only_ways-others (kept Phase.relations es)
            ∙ only_ways-kept es,
      )

  relations_run :
      (n m : ℕ) (relations_offset : Option ℕ)
      → (relations_offset ≡ none)
        ⊎ (first_start is_relation none (placed_entries start bs) ≡ relations_offset)
      → let q = run_from Phase.nodes n none start bs in
        let o = resume_offset Phase.relations (offset_after none q.actions) relations_offset in
        let r = run_from Phase.relations m o start bs in
        (only is_relation (way_pushes r.actions) ≡ only is_relation (way_pushes q.actions))
        × (only is_way (way_pushes r.actions) ≡ [])
  unfolding resume_offset
  relations_run n m none h = relations_at is_other n m _ (new_import-offset n) only_relations-others
  relations_run n m (some o) (inl e) = cc e
  relations_run n m (some o) (inr f) =
      relations_at is_relation n m (some o) f (only_self is_relation)

-- An import resumed at the merge or at the ways, with the offset that a new import of the file has saved
-- before, gives the way threads the same ways and relations in the same order as the new import, and gives
-- no node thread an entry. So it is with any number of node threads.
pub read_file-resumed :
    (phase : Phase) (n m start : ℕ) (bs : List Block) (relations_offset : Option ℕ)
    → (phase ≡ Phase.merging) ⊎ (phase ≡ Phase.ways)
    → let q = read_file Phase.nodes n none none start bs in
      let r = read_file phase m (offset_after none q.actions) relations_offset start bs in
      (only is_other (way_pushes r.actions) ≡ only is_other (way_pushes q.actions))
      × (node_pushes r.actions ≡ [])
unfolding read_file resume_offset skip_nodes
read_file-resumed phase n m start bs relations_offset (inl e) =
    rw e (resumed_at start bs Phase.merging n m refl (inr (refl, refl)))
read_file-resumed phase n m start bs relations_offset (inr e) =
    rw e (resumed_at start bs Phase.ways n m refl (inl refl))

-- An import resumed at the relations gives the way threads the same relations in the same order as the new
-- import of the file that has saved the offsets, also if the file of the relations offset is missing. It
-- gives them no way.
pub read_file-relations :
    (n m start : ℕ) (bs : List Block) (relations_offset : Option ℕ)
    → let q = read_file Phase.nodes n none none start bs in
      (relations_offset ≡ none) ⊎ (relations_offset ≡ relations_offset_after none q.actions)
      → let r =
          read_file Phase.relations m (offset_after none q.actions) relations_offset start bs in
        (only is_relation (way_pushes r.actions) ≡ only is_relation (way_pushes q.actions))
        × (only is_way (way_pushes r.actions) ≡ [])
unfolding read_file resume_offset
read_file-relations n m start bs relations_offset (inl e) =
    relations_run start bs n m relations_offset (inl e)
read_file-relations n m start bs relations_offset (inr e) =
    relations_run start bs n m relations_offset
      (inr (new_import-relations_offset start bs n ∙ sym e))
