-- ===== src/Db/TagTable/Rows.antt =====
-- The rows of a tag table of src/NavDB.cpp, after each statement, and the map that `diffTags` loads.
use osmpgsqlimport.Prelude.{
  ℕ, ◌≡◌, refl, sym, ap, ◌∙◌, ◌↔◌, ◌⊎◌, inl, inr, Bool, true, false, ◌&&◌, ◌||◌, List, [], ◌∷◌,
  ◌==◌, if◌then◌else◌, Bool-cases, Option-cases, none, some, is_some, String, str_eq, eq_iff, arith,
}
use osmpgsqlimport.Tags.{Tags, lookup, insert, erase, lookup-insert}
use osmpgsqlimport.Db.TagTable.{TagRecord, is_row, load, sql_insert, sql_update, sql_delete}

-- The keys are distinct, as in the hash map.
pub data IsMap : Tags → Type 0 where
  empty : IsMap []
  more : {k v : String} {m : Tags} → lookup k m ≡ none → IsMap m → IsMap ((k, v) ∷ m)

-- The table has a row of this entity, key and value.
unfoldable pub has_row : ℕ → String → String → List TagRecord → Bool
has_row j k w [] = false
has_row j k w (r ∷ rows) = (is_row j k r && str_eq r.value w) || has_row j k w rows

-- It has a row of this entity and key.
unfoldable pub has_key : ℕ → String → List TagRecord → Bool
has_key j k [] = false
has_key j k (r ∷ rows) = is_row j k r || has_key j k rows

-- No two rows of the entity have one key and different values.
abbrev pub IsFunctional : ℕ → List TagRecord → Type 0
IsFunctional i rows =
    (k v w : String) → has_row i k v rows ≡ true → has_row i k w rows ≡ true → v ≡ w

pub has_row-insert :
    (i j : ℕ) (a k v w : String) (rows : List TagRecord)
    → has_row j k w (sql_insert i a v rows)
      ≡ (has_row j k w rows || ((i == j) && str_eq a k && str_eq v w))
unfolding has_row
has_row-insert i j a k v w [] = ground arith
has_row-insert i j a k v w (r ∷ rows) = ground (arith, has_row-insert i j a k v w rows)

pub has_row-update :
    (i j : ℕ) (a k v w : String) (rows : List TagRecord)
    → has_row j k w (sql_update i a v rows)
      ≡ (if (i == j) && str_eq a k then has_key i a rows && str_eq v w else has_row j k w rows)
unfolding has_row has_key sql_update
has_row-update i j a k v w [] = ground arith
has_row-update i j a k v w (r ∷ rows) =
    ground (arith, eq_iff a k, eq_iff r.key k, eq_iff r.key a, has_row-update i j a k v w rows)

pub has_row-delete :
    (i j : ℕ) (a k w : String) (rows : List TagRecord)
    → has_row j k w (sql_delete i a rows)
      ≡ (if (i == j) && str_eq a k then false else has_row j k w rows)
unfolding has_row sql_delete
has_row-delete i j a k w [] = ground arith
has_row-delete i j a k w (r ∷ rows) =
    ground (arith, eq_iff a k, eq_iff r.key k, eq_iff r.key a, has_row-delete i j a k w rows)

pub has_row-has_key :
    (i : ℕ) (k w : String) (rows : List TagRecord)
    → has_row i k w rows ≡ true
    → has_key i k rows ≡ true
unfolding has_row has_key
has_row-has_key i k w [] h = cc
has_row-has_key i k w (r ∷ rows) h = ground (arith, has_row-has_key i k w rows)

pub lookup-erase_self : (k : String) (m : Tags) → IsMap m → lookup k (erase k m) ≡ none
unfolding lookup erase
lookup-erase_self k [] h = refl
lookup-erase_self k ((j, w) ∷ m) (IsMap.more e h) = elim (Bool-cases (str_eq j k)) [
  | inl q ↦ rw q (ap (λ x. lookup x m) (sym ((eq_iff j k).0 q)) ∙ e)
  | inr q ↦ rw q (rw q (lookup-erase_self k m h))
]

pub lookup-erase_other :
    (k j : String) (m : Tags) → str_eq k j ≡ false → lookup j (erase k m) ≡ lookup j m
unfolding lookup erase
lookup-erase_other k j [] n = refl
lookup-erase_other k j ((a, w) ∷ m) n =
    ground (arith, eq_iff a k, eq_iff a j, eq_iff k j, lookup-erase_other k j m n)

pub erase-IsMap : {m : Tags} (k : String) → IsMap m → IsMap (erase k m)
unfolding erase
erase-IsMap k IsMap.empty = IsMap.empty
erase-IsMap k (IsMap.more {k = j} {v = w} {m = m} e h) = elim (Bool-cases (str_eq j k)) [
  | inl q ↦ rw q h
  | inr q ↦ rw q (
      IsMap.more (lookup-erase_other k j m (ground (arith, q, eq_iff j k, eq_iff k j)) ∙ e)
        (erase-IsMap k h))
]

insert-IsMap : {m : Tags} (k v : String) → IsMap m → IsMap (insert k v m)
unfolding insert lookup
insert-IsMap k v IsMap.empty = IsMap.more refl IsMap.empty
insert-IsMap k v (IsMap.more {k = j} {v = w} {m = m} e h) = elim (Bool-cases (str_eq j k)) [
  | inl q ↦ rw q (IsMap.more (ap (λ x. lookup x m) (sym ((eq_iff j k).0 q)) ∙ e) h)
  | inr q ↦ rw q (
      IsMap.more (lookup-insert k j v m ∙ ground (arith, q, e, eq_iff j k, eq_iff k j))
        (insert-IsMap k v h))
]

pub load-IsMap : (i : ℕ) (rows : List TagRecord) {m : Tags} → IsMap m → IsMap (load i rows m)
unfolding load
load-IsMap i [] h = h
load-IsMap i (r ∷ rows) h = elim (Bool-cases (r.id == i)) [
  | inl q ↦ rw q (load-IsMap i rows (insert-IsMap r.key r.value h))
  | inr q ↦ rw q (load-IsMap i rows h)
]

is_some-load :
    (i : ℕ) (k : String) (rows : List TagRecord) (m : Tags)
    → is_some (lookup k (load i rows m)) ≡ (has_key i k rows || is_some (lookup k m))
unfolding load has_key
is_some-load i k [] m = refl
is_some-load i k (r ∷ rows) m = elim (Bool-cases (r.id == i)) [
  | inl q ↦ rw q (
      is_some-load i k rows (insert r.key r.value m)
      ∙ ap (λ o. has_key i k rows || is_some o) (lookup-insert r.key k r.value m)
      ∙ ground arith)
  | inr q ↦ rw q (is_some-load i k rows m)
]

load-has_row :
    (i : ℕ) (k w : String) (rows : List TagRecord) (m : Tags)
    → lookup k (load i rows m) ≡ some w
    → (has_row i k w rows ≡ true) ⊎ (lookup k m ≡ some w)
unfolding load has_row
load-has_row i k w [] m h = inr h
load-has_row i k w (r ∷ rows) m h =
    on (load-has_row i k w rows (if r.id == i then insert r.key r.value m else m) h)
  where
    on :
        (has_row i k w rows ≡ true)
          ⊎ (lookup k (if r.id == i then insert r.key r.value m else m) ≡ some w)
        → (has_row i k w (r ∷ rows) ≡ true) ⊎ (lookup k m ≡ some w)
    on (inl p) = inl (ground (arith, p))
    on (inr p) = elim (Bool-cases (r.id == i)) [
      | inl q ↦
          let at : (if str_eq r.key k then some r.value else lookup k m) ≡ some w =
            sym (lookup-insert r.key k r.value m)
            ∙ ap (λ b. lookup k (if b then insert r.key r.value m else m)) (sym q)
            ∙ p in
          ground (arith, at, q, eq_iff r.value w)
      | inr q ↦ inr (ap (λ b. lookup k (if b then insert r.key r.value m else m)) (sym q) ∙ p)
    ]

-- What `existing` holds is what the table has for the entity.
pub load-nil :
    (i : ℕ) (k w : String) (rows : List TagRecord)
    → IsFunctional i rows
    → (has_row i k w rows ≡ true) ↔ (lookup k (load i rows []) ≡ some w)
unfolding lookup
load-nil i k w rows f = (to, from w)
  where
    from : (u : String) → lookup k (load i rows []) ≡ some u → has_row i k u rows ≡ true
    from u h = elim (load-has_row i k u rows [] h) [ inl p ↦ p | inr p ↦ cc p ]

    to : has_row i k w rows ≡ true → lookup k (load i rows []) ≡ some w
    to h = elim (Option-cases (lookup k (load i rows []))) [
      | inl e ↦ ground (arith, ap is_some e, is_some-load i k rows [], has_row-has_key i k w rows h)
      | inr (u, e) ↦ e ∙ ap some (f k u w (from u e) h)
    ]
