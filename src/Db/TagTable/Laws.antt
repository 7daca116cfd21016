-- ===== src/Db/TagTable/Laws.antt =====
-- `diffTags` of src/NavDB.cpp makes the rows of an entity its new tags, and leaves the others.
use osmpgsqlimport.Prelude.{
  ℕ, ◌≡◌, refl, sym, ap, ◌∙◌, ◌↔◌, inl, inr, Bool, true, false, ◌&&◌, List, [], ◌∷◌, ◌==◌,
  if◌then◌else◌, Bool-cases, Option, none, some, is_some, String, str_eq, eq_iff, eq_refl, arith,
}
use osmpgsqlimport.Tags.{Tags, lookup, erase}
use osmpgsqlimport.Db.TagTable.{
  TagRecord, load, sql_delete, put_tag, put_tags, delete_keys, diff_tags,
}
use osmpgsqlimport.Db.TagTable.Rows.{
  IsFunctional, IsMap, has_row, has_row-insert, has_row-update, has_row-delete, has_row-has_key,
  lookup-erase_self, lookup-erase_other, erase-IsMap, load-IsMap, load-nil,
}

-- One new tag, where `existing` holds what the table has under its key.
has_row-put_tag :
    (i : ℕ) (k v : String) (o : Option String) (rows : List TagRecord)
    → ((u : String) → (has_row i k u rows ≡ true) ↔ (o ≡ some u))
    → (j : ℕ) (a w : String)
    → has_row j a w (put_tag i k v o rows)
      ≡ (if (i == j) && str_eq k a then str_eq v w else has_row j a w rows)
unfolding put_tag
has_row-put_tag i k v none rows h j a w =
    has_row-insert i j k a v w rows ∙ ground (arith, eq_iff k a, h w)
has_row-put_tag i k v (some u) rows h j a w = elim (Bool-cases (str_eq u v)) [
  | inl q ↦ rw q (ground (arith, eq_iff k a, eq_iff u v, eq_iff v w, h w))
  | inr q ↦
      rw q (
        has_row-update i j k a v w rows ∙ ground (arith, has_row-has_key i k u rows ((h u).1 refl)))
]

-- `existing` tells what the table has under the keys of the new tags.
abbrev pub Tells : ℕ → Tags → Tags → List TagRecord → Type 0
Tells i tags m rows =
    (k u : String)
    → is_some (lookup k tags) ≡ true
    → (has_row i k u rows ≡ true) ↔ (lookup k m ≡ some u)

Tells-next :
    (i : ℕ) (k v : String) (tags m : Tags) (rows : List TagRecord)
    → lookup k tags ≡ none
    → Tells i ((k, v) ∷ tags) m rows
    → Tells i tags (erase k m) (put_tag i k v (lookup k m) rows)
unfolding lookup
Tells-next i k v tags m rows e h b u s =
    rw
      (
        has_row-put_tag i k v (lookup k m) rows (λ x. h k x (ground (arith, eq_refl k))) i b u,
        lookup-erase_other k b m ne,
      )
      (rw ne (ground (arith, h b u (rw ne s))))
  where
    ne : str_eq k b ≡ false
    ne = elim (Bool-cases (str_eq k b)) [ inl q ↦ cc (s, e, (eq_iff k b).0 q) | inr q ↦ q ]

-- The table after the loop over the tags.
put_tags-has_row :
    (i : ℕ) (tags m : Tags) (rows : List TagRecord)
    → IsMap tags
    → Tells i tags m rows
    → (j : ℕ) (a w : String)
    → has_row j a w (put_tags i tags m rows).0 ≡ (
        if i == j
        then elim (lookup a tags) [ none ↦ has_row j a w rows | some v ↦ str_eq v w ]
        else has_row j a w rows)
unfolding put_tags lookup
put_tags-has_row i [] m rows t h j a w = ground arith
put_tags-has_row i ((k, v) ∷ tags) m rows (IsMap.more e t) h j a w =
    put_tags-has_row i tags (erase k m) (put_tag i k v (lookup k m) rows) t
      (Tells-next i k v tags m rows e h) j a w
    ∙ elim (Bool-cases (str_eq k a)) [
      | inl q ↦
          rw (q, ap (λ x. lookup x tags) (sym ((eq_iff k a).0 q)) ∙ e) (rw (here, q) (ground arith))
      | inr q ↦
          let same : has_row j a w (put_tag i k v (lookup k m) rows) ≡ has_row j a w rows =
            here ∙ rw q (ground arith) in
          rw q (
            ap
              (λ b.
                if i == j
                then elim (lookup a tags) as (λ _. Bool) [ none ↦ b | some u ↦ str_eq u w ]
                else b)
              same)
    ]
  where
    here :
        has_row j a w (put_tag i k v (lookup k m) rows)
        ≡ (if (i == j) && str_eq k a then str_eq v w else has_row j a w rows)
    here = has_row-put_tag i k v (lookup k m) rows (λ x. h k x (ground (arith, eq_refl k))) j a w

-- What the loop leaves of `existing`.
put_tags-lookup :
    (i : ℕ) (tags m : Tags) (rows : List TagRecord) (a : String)
    → IsMap tags
    → IsMap m
    → lookup a (put_tags i tags m rows).1
      ≡ elim (lookup a tags) [ none ↦ lookup a m | some v ↦ none ]
unfolding put_tags lookup
put_tags-lookup i [] m rows a t d = refl
put_tags-lookup i ((k, v) ∷ tags) m rows a (IsMap.more e t) d =
    put_tags-lookup i tags (erase k m) (put_tag i k v (lookup k m) rows) a t (erase-IsMap k d)
    ∙ elim (Bool-cases (str_eq k a)) [
      | inl q ↦
          rw (q, ap (λ x. lookup x tags) (sym ((eq_iff k a).0 q)) ∙ e)
            (ap (λ x. lookup x (erase k m)) (sym ((eq_iff k a).0 q)) ∙ lookup-erase_self k m d)
      | inr q ↦ rw q (
          ap (λ o. elim (lookup a tags) as (λ _. Option String) [ none ↦ o | some u ↦ none ])
            (lookup-erase_other k a m q))
    ]

delete_keys-has_row :
    (i j : ℕ) (a w : String) (m : Tags) (rows : List TagRecord)
    → has_row j a w (delete_keys i m rows)
      ≡ (if (i == j) && is_some (lookup a m) then false else has_row j a w rows)
unfolding delete_keys lookup
delete_keys-has_row i j a w [] rows = ground arith
delete_keys-has_row i j a w ((k, v) ∷ m) rows =
    delete_keys-has_row i j a w m (sql_delete i k rows)
    ∙ rw (has_row-delete i j k a w rows) (ground arith)

-- After `diffTags` an entity's rows are its new tags, each key with its value, and the rows of the other
-- entities are as they were. The new tags have distinct keys, and the table had no two rows of the
-- entity with one key and different values.
pub diff_tags-has_row :
    (i : ℕ) (tags : Tags) (rows : List TagRecord)
    → IsMap tags
    → IsFunctional i rows
    → (j : ℕ) (k w : String)
    → has_row j k w (diff_tags i tags rows) ≡ (
        if i == j
        then elim (lookup k tags) [ none ↦ false | some v ↦ str_eq v w ]
        else has_row j k w rows)
unfolding diff_tags
diff_tags-has_row i tags rows t f j k w =
    delete_keys-has_row i j k w (put_tags i tags m rows).1 (put_tags i tags m rows).0
    ∙ rw
        (
          put_tags-lookup i tags m rows k t (load-IsMap i rows IsMap.empty),
          put_tags-has_row i tags m rows t (λ a u _. load-nil i a u rows f) j k w,
        )
        (on (lookup k tags))
  where
    m : Tags
    m = load i rows []

    on :
        (o : Option String)
        → (if (i == j) && is_some (elim o [ none ↦ lookup k m | some v ↦ none ])
            then false
            else if i == j
            then elim o [ none ↦ has_row j k w rows | some v ↦ str_eq v w ]
            else has_row j k w rows)
          ≡ (if i == j then elim o [ none ↦ false | some v ↦ str_eq v w ] else has_row j k w rows)
    on none = ground (arith, load-nil i k w rows f)
    on (some v) = ground arith
