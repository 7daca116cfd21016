-- ===== src/Producer/Kinds.antt =====
-- The entries of a kind in a file of src/main.cpp's reader loop, and the blocks before the first of them.
use osmpgsqlimport.Prelude.{
  ℕ, ◌≡◌, refl, sym, ap, ◌∙◌, inl, inr, ◌⊎◌, Bool, List, [], ◌∷◌, ◌++◌, if◌then◌else◌, ◌==◌, ==_iff,
  Bool-cases, none, some, arith,
}
use osmpgsqlimport.Pbf.{OsmEntry}
use osmpgsqlimport.CommandLine.{Phase}
use osmpgsqlimport.Producer.{Block, phase_eq, is_way, is_relation, seek_to}
use osmpgsqlimport.Producer.Laws.{placed, placed_entries, entries_of, kept}
use osmpgsqlimport.Producer.Phases.{from_other, is_other, first_start}

-- The entries of a kind.
unfoldable pub only : (OsmEntry → Bool) → List OsmEntry → List OsmEntry
only kind [] = []
only kind (e ∷ es) = if kind e then e ∷ only kind es else only kind es

pub only-append :
    (kind : OsmEntry → Bool) (xs ys : List OsmEntry)
    → only kind (xs ++ ys) ≡ only kind xs ++ only kind ys
unfolding only
only-append kind [] ys = refl
only-append kind (e ∷ xs) ys = elim (Bool-cases (kind e)) [
  | inl k ↦ rw k (ap (◌∷◌ e) (only-append kind xs ys))
  | inr k ↦ rw k (only-append kind xs ys)
]

pub only-from_other : (es : List OsmEntry) → only is_other (from_other es) ≡ only is_other es
unfolding only from_other
only-from_other [] = refl
only-from_other (OsmEntry.node_entry n ∷ es) = only-from_other es
only-from_other (OsmEntry.way_entry w ∷ es) = refl
only-from_other (OsmEntry.relation_entry r ∷ es) = refl

pub only_relations-others :
    (es : List OsmEntry) → only is_relation (only is_other es) ≡ only is_relation es
unfolding only
only_relations-others [] = refl
only_relations-others (OsmEntry.node_entry n ∷ es) = only_relations-others es
only_relations-others (OsmEntry.way_entry w ∷ es) = only_relations-others es
only_relations-others (OsmEntry.relation_entry r ∷ es) =
    ap (◌∷◌ (OsmEntry.relation_entry r)) (only_relations-others es)

pub only_ways-others : (es : List OsmEntry) → only is_way (only is_other es) ≡ only is_way es
unfolding only
only_ways-others [] = refl
only_ways-others (OsmEntry.node_entry n ∷ es) = only_ways-others es
only_ways-others (OsmEntry.way_entry w ∷ es) = ap (◌∷◌ (OsmEntry.way_entry w)) (only_ways-others es)
only_ways-others (OsmEntry.relation_entry r ∷ es) = only_ways-others es

pub only_ways-kept : (es : List OsmEntry) → only is_way (kept Phase.relations es) ≡ []
unfolding only kept
only_ways-kept [] = refl
only_ways-kept (OsmEntry.node_entry n ∷ es) = only_ways-kept es
only_ways-kept (OsmEntry.way_entry w ∷ es) = only_ways-kept es
only_ways-kept (OsmEntry.relation_entry r ∷ es) = only_ways-kept es

pub only_self :
    (kind : OsmEntry → Bool) (es : List OsmEntry) → only kind (only kind es) ≡ only kind es
unfolding only
only_self kind [] = refl
only_self kind (e ∷ es) = elim (Bool-cases (kind e)) [
  | inl k ↦ rw (k, k) (ap (◌∷◌ e) (only_self kind es))
  | inr k ↦ rw k (only_self kind es)
]

pub only_relations-kept :
    (phase : Phase) (es : List OsmEntry) → only is_relation (kept phase es) ≡ only is_relation es
unfolding only kept
only_relations-kept phase [] = refl
only_relations-kept phase (OsmEntry.node_entry n ∷ es) =
    elim (Bool-cases (phase_eq phase Phase.relations)) [
      | inl p ↦ rw p (only_relations-kept phase es)
      | inr p ↦ rw p (only_relations-kept phase es)
    ]
only_relations-kept phase (OsmEntry.way_entry w ∷ es) =
    elim (Bool-cases (phase_eq phase Phase.relations)) [
      | inl p ↦ rw p (only_relations-kept phase es)
      | inr p ↦ rw p (only_relations-kept phase es)
    ]
only_relations-kept phase (OsmEntry.relation_entry r ∷ es) =
    elim (Bool-cases (phase_eq phase Phase.relations)) [
      | inl p ↦ rw p (ap (◌∷◌ (OsmEntry.relation_entry r)) (only_relations-kept phase es))
      | inr p ↦ rw p (ap (◌∷◌ (OsmEntry.relation_entry r)) (only_relations-kept phase es))
    ]

pub entries_of-append :
    (xs ys : List (ℕ × OsmEntry)) → entries_of (xs ++ ys) ≡ entries_of xs ++ entries_of ys
unfolding entries_of
entries_of-append [] ys = refl
entries_of-append ((o, e) ∷ xs) ys = ap (◌∷◌ e) (entries_of-append xs ys)

pub entries_of-placed : (start : ℕ) (es : List OsmEntry) → entries_of (placed start es) ≡ es
unfolding entries_of placed
entries_of-placed start [] = refl
entries_of-placed start (e ∷ es) = ap (◌∷◌ e) (entries_of-placed start es)

pub entries_of-block :
    (start : ℕ) (b : Block) (bs : List Block)
    → entries_of (placed_entries start (b ∷ bs))
      ≡ b.entries ++ entries_of (placed_entries b.end_position bs)
unfolding placed_entries
entries_of-block start b bs =
    entries_of-append (placed start b.entries) _
    ∙ ap (λ es. es ++ entries_of (placed_entries b.end_position bs))
        (entries_of-placed start b.entries)

-- A block has the first entry of a kind, or has none of them.
pub first_start-placed :
    (kind : OsmEntry → Bool) (start : ℕ) (es : List OsmEntry) (ys : List (ℕ × OsmEntry))
    → (first_start kind none (placed start es ++ ys) ≡ some start)
      ⊎ ((only kind es ≡ [])
          × (first_start kind none (placed start es ++ ys) ≡ first_start kind none ys))
unfolding first_start only placed
first_start-placed kind start [] ys = inr (refl, refl)
first_start-placed kind start (e ∷ es) ys = elim (Bool-cases (kind e)) [
  | inl k ↦ rw k (inl refl)
  | inr k ↦ rw k (first_start-placed kind start es ys)
]

-- The blocks before the first entry of a kind have none of them.
pub only-seek_to :
    (kind : OsmEntry → Bool) (o start : ℕ) (bs : List Block)
    → first_start kind none (placed_entries start bs) ≡ some o
    → only kind (entries_of (placed_entries o (seek_to o start bs)))
      ≡ only kind (entries_of (placed_entries start bs))
unfolding seek_to placed_entries first_start
only-seek_to kind o start [] h = cc h
only-seek_to kind o start (b ∷ bs) h = elim (Bool-cases (start == o)) [
  | inl e ↦
      let same : start ≡ o = (==_iff start o).0 e in
      rw e (ap (only kind) (entries_of-block o b bs ∙ sym (entries_of-block start b bs)))
  | inr e ↦
      rw e (elim (first_start-placed kind start b.entries (placed_entries b.end_position bs)) [
        | inl f ↦ let same : some start ≡ some o = sym f ∙ h in absurd (ground (arith, e, same))
        | inr (absent, f) ↦
            only-seek_to kind o b.end_position bs (sym f ∙ h)
            ∙ sym (
                ap (only kind) (entries_of-block start b bs)
                ∙ only-append kind b.entries (entries_of (placed_entries b.end_position bs))
                ∙ ap (λ es. es ++ only kind (entries_of (placed_entries b.end_position bs))) absent)
      ])
]
