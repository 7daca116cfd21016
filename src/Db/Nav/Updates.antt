-- ===== src/Db/Nav/Updates.antt =====
-- `deleteEntity` and the updates of src/NavDB.cpp on the tables.
use osmpgsqlimport.Prelude.{
  ℕ, ◌≡◌, refl, ap, ◌∙◌, subst, inl, inr, false, ◌&&◌, List, [], ◌∷◌, ◌==◌, if◌then◌else◌,
  Bool-cases, none, some, String, str_eq, arith,
}
use osmpgsqlimport.Tags.{Tags, lookup}
use osmpgsqlimport.Db.TagTable.{TagRecord}
use osmpgsqlimport.Db.TagTable.Rows.{IsMap, IsFunctional, has_row}
use osmpgsqlimport.Db.TagTable.Laws.{diff_tags-has_row}
use osmpgsqlimport.Db.Nav.{
  Kind, kind_eq, kind_eq→≡, kind_eq_refl, Row, Nav, delete_rows, delete_tags, update_rows,
  delete_entity, update_entity, find_row,
}

pub find_row-delete :
    (i j : ℕ) (rows : List Row)
    → find_row j (delete_rows i rows) ≡ (if i == j then none else find_row j rows)
unfolding find_row delete_rows
find_row-delete i j [] = ground arith
find_row-delete i j (r ∷ rows) = ground (arith, find_row-delete i j rows)

has_row-delete_tags :
    (i j : ℕ) (k w : String) (rows : List TagRecord)
    → has_row j k w (delete_tags i rows) ≡ (if i == j then false else has_row j k w rows)
unfolding has_row delete_tags
has_row-delete_tags i j k w [] = ground arith
has_row-delete_tags i j k w (r ∷ rows) = ground (arith, has_row-delete_tags i j k w rows)

pub find_row-update :
    (u : Row) (j : ℕ) (rows : List Row)
    → find_row j (update_rows u rows) ≡ (
        if u.id == j
        then elim (find_row j rows) [ none ↦ none | some r ↦ some u ]
        else find_row j rows)
unfolding find_row update_rows
find_row-update u j [] = ground arith
find_row-update u j (r ∷ rows) = ground (arith, find_row-update u j rows)

-- `deleteEntity` takes the rows of one entity out of its main table and its tag table, and leaves every
-- other row of every table.
pub delete_entity-find_row :
    (k : Kind) (i : ℕ) (s : Nav) (l : Kind) (j : ℕ) (a w : String)
    → (find_row j ((delete_entity k i s).tables l)
        ≡ (if kind_eq k l && (i == j) then none else find_row j (s.tables l)))
      × (has_row j a w ((delete_entity k i s).tag_tables l)
          ≡ (if kind_eq k l && (i == j) then false else has_row j a w (s.tag_tables l)))
unfolding delete_entity
delete_entity-find_row k i s l j a w = elim (Bool-cases (kind_eq k l)) [
  | inl q ↦ rw q (
    ap (λ m. find_row j (delete_rows i (s.tables m))) (kind_eq→≡ k l q)
        ∙ find_row-delete i j (s.tables l),
    ap (λ m. has_row j a w (delete_tags i (s.tag_tables m))) (kind_eq→≡ k l q)
        ∙ has_row-delete_tags i j a w (s.tag_tables l),
  )
  | inr q ↦ rw q (refl, refl)
]

-- An update of an entity replaces its row where there is one, adds none where there is not, makes its
-- tags the new ones, and leaves every other row of every table. The new tags have distinct keys, and the
-- tag table had no two rows of the entity with one key and different values.
pub update_entity-find_row :
    (k : Kind) (u : Row) (tags : Tags) (s : Nav)
    → IsMap tags
    → IsFunctional u.id (s.tag_tables k)
    → (l : Kind) (j : ℕ) (a w : String)
    → (find_row j ((update_entity k u tags s).tables l) ≡ (
        if kind_eq k l && (u.id == j)
        then elim (find_row j (s.tables l)) [ none ↦ none | some r ↦ some u ]
        else find_row j (s.tables l)))
      × (has_row j a w ((update_entity k u tags s).tag_tables l) ≡ (
          if kind_eq k l && (u.id == j)
          then elim (lookup a tags) [ none ↦ false | some v ↦ str_eq v w ]
          else has_row j a w (s.tag_tables l)))
unfolding update_entity
update_entity-find_row k u tags s t f l j a w = elim (Bool-cases (kind_eq k l)) [
  | inl q ↦
      subst
        (λ m.
          (find_row j ((update_entity k u tags s).tables m) ≡ (
            if kind_eq k m && (u.id == j)
            then elim (find_row j (s.tables m)) [ none ↦ none | some r ↦ some u ]
            else find_row j (s.tables m)))
          × (has_row j a w ((update_entity k u tags s).tag_tables m) ≡ (
              if kind_eq k m && (u.id == j)
              then elim (lookup a tags) [ none ↦ false | some v ↦ str_eq v w ]
              else has_row j a w (s.tag_tables m))))
        (kind_eq→≡ k l q)
        (rw (kind_eq_refl k) (
          find_row-update u j (s.tables k),
          diff_tags-has_row u.id tags (s.tag_tables k) t f j a w,
        ))
  | inr q ↦ rw q (refl, refl)
]
