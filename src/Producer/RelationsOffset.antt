-- ===== src/Producer/RelationsOffset.antt =====
-- The relations offset that the reader loop of src/main.cpp saves: the start of the first relation's block.
use osmpgsqlimport.Prelude.{
  ℕ, ◌≡◌, refl, ap, ◌∙◌, inl, inr, Bool, true, false, not, ◌&&◌, ◌||◌, List, [], ◌∷◌, ◌++◌,
  if◌then◌else◌, Bool-cases, Option, none, some,
}
use osmpgsqlimport.Pbf.{OsmEntry}
use osmpgsqlimport.CommandLine.{Phase}
use osmpgsqlimport.Producer.{
  note_relation, end_node_phase, emit_other, emit_node, emit_entry, Action, Producer, is_relation,
}
use osmpgsqlimport.Producer.Laws.{emit_placed}
use osmpgsqlimport.Producer.Phases.{first_start}

-- What the file of the relations offset holds after some actions.
unfoldable pub relations_offset_after : Option ℕ → List Action → Option ℕ
relations_offset_after o [] = o
relations_offset_after o (Action.save_relations_offset n ∷ more) =
    relations_offset_after (some n) more
relations_offset_after o (_ ∷ more) = relations_offset_after o more

relations_offset_after-append :
    (o : Option ℕ) (xs ys : List Action)
    → relations_offset_after o (xs ++ ys) ≡ relations_offset_after (relations_offset_after o xs) ys
unfolding relations_offset_after
relations_offset_after-append o [] ys = refl
relations_offset_after-append o (Action.save_relations_offset n ∷ xs) ys =
    relations_offset_after-append (some n) xs ys
relations_offset_after-append o (_ ∷ xs) ys = relations_offset_after-append o xs ys

module _ (n : ℕ) where
  -- One entry of a new import.
  emit_entry-noted :
      (start : ℕ) (e : OsmEntry) (p : Producer)
      → let q = emit_entry Phase.nodes n start e p in
        (q.relations_offset_written ≡ p.relations_offset_written || is_relation e)
        × (relations_offset_after none q.actions ≡ (
            if is_relation e && not p.relations_offset_written
            then some start
            else relations_offset_after none p.actions))
  unfolding emit_entry emit_node emit_other end_node_phase note_relation relations_offset_after
  emit_entry-noted start e p = at e p.node_phase p.relations_offset_written p.rr p.actions
    where
      two :
          (xs ys zs : List Action)
          → relations_offset_after none ((xs ++ ys) ++ zs)
            ≡ relations_offset_after (relations_offset_after (relations_offset_after none xs) ys) zs
      two xs ys zs =
          relations_offset_after-append none (xs ++ ys) zs
          ∙ ap (λ o. relations_offset_after o zs) (relations_offset_after-append none xs ys)

      at :
          (e : OsmEntry) (phase written : Bool) (rr : ℕ) (done : List Action)
          → let p : Producer = record {
            rr = rr;
            node_phase = phase;
            relations_offset_written = written;
            actions = done;
          } in
            let q = emit_entry Phase.nodes n start e p in
            (q.relations_offset_written ≡ written || is_relation e)
            × (relations_offset_after none q.actions ≡ (
                if is_relation e && not written
                then some start
                else relations_offset_after none done))
      at (OsmEntry.node_entry x) true true rr done =
          (refl, relations_offset_after-append none done _)
      at (OsmEntry.node_entry x) true false rr done =
          (refl, relations_offset_after-append none done _)
      at (OsmEntry.node_entry x) false true rr done =
          (refl, relations_offset_after-append none done _)
      at (OsmEntry.node_entry x) false false rr done =
          (refl, relations_offset_after-append none done _)
      at (OsmEntry.way_entry x) true true rr done = (refl, two done _ _)
      at (OsmEntry.way_entry x) true false rr done = (refl, two done _ _)
      at (OsmEntry.way_entry x) false true rr done =
          (refl, relations_offset_after-append none done _)
      at (OsmEntry.way_entry x) false false rr done =
          (refl, relations_offset_after-append none done _)
      at (OsmEntry.relation_entry x) true true rr done = (refl, two done _ _)
      at (OsmEntry.relation_entry x) true false rr done =
          (refl, relations_offset_after-append none ((done ++ _) ++ _) _ ∙ two done _ _)
      at (OsmEntry.relation_entry x) false true rr done =
          (refl, relations_offset_after-append none done _)
      at (OsmEntry.relation_entry x) false false rr done = (refl, two done _ _)

  pub noted :
      (xs : List (ℕ × OsmEntry)) (p : Producer)
      → relations_offset_after none (emit_placed Phase.nodes n xs p).actions ≡ (
          if p.relations_offset_written
          then relations_offset_after none p.actions
          else first_start is_relation (relations_offset_after none p.actions) xs)
  unfolding emit_placed first_start
  noted [] p = elim (Bool-cases p.relations_offset_written) [
    | inl w ↦ rw w refl
    | inr w ↦ rw w refl
  ]
  noted ((start, e) ∷ xs) p =
      let (w, o) = emit_entry-noted start e p in
      noted xs (emit_entry Phase.nodes n start e p)
      ∙ rw (w, o) (cases p.relations_offset_written (is_relation e))
    where
      cases :
          (written rel : Bool)
          → (if written || rel
              then if rel && not written then some start else relations_offset_after none p.actions
              else first_start is_relation
                  (if rel && not written then some start else relations_offset_after none p.actions)
                  xs)
            ≡ (if written
                then relations_offset_after none p.actions
                else if rel
                then some start
                else first_start is_relation (relations_offset_after none p.actions) xs)
      cases true true = refl
      cases true false = refl
      cases false true = refl
      cases false false = refl
