-- ===== src/Db/Copy/Laws.antt =====
-- The retries of `tryCopyBatch` of src/NavDB.cpp write the rows that PostgreSQL accepts.
use osmpgsqlimport.Prelude.{
  ℕ, zero, suc, ◌-◌, ◌^◌, ◌<◌, ◌≡◌, refl, sym, ap, ◌∙◌, Bool, List, [], ◌∷◌, ◌++◌, length,
  if◌then◌else◌, Bool-cases, Option-cases, inl, inr, subst, lt→ltb, Option, none, some, Bytes,
  arith,
}
use osmpgsqlimport.Db.Copy.{Line, error_line, Copied, erase_at, try_copy_batch}

-- PostgreSQL takes the rows one by one. `is_bad` says that it refuses a row after those that it took.
module _ {ℓ} {R : Type ℓ} (is_bad : List R → R → Bool) where
  -- The rows that are taken if the refused ones are left out.
  unfoldable pub good_rows : List R → List R → List R
  good_rows taken [] = []
  good_rows taken (r ∷ rows) =
      if is_bad taken r then good_rows taken rows else r ∷ good_rows (taken ++ r ∷ []) rows

  -- The place of the first refused row.
  unfoldable pub first_bad : List R → List R → Option ℕ
  first_bad taken [] = none
  first_bad taken (r ∷ rows) =
      if is_bad taken r
      then some 0
      else elim (first_bad (taken ++ r ∷ []) rows) [ none ↦ none | some i ↦ some (suc i) ]

  -- The documented behaviour of COPY: it stores all rows or none, and its error text tells the line of
  -- the first refused row, counted from 1. The code counts rows as `int`.
  abbrev pub IsCopy : (List R → Option Bytes) → Type ℓ
  IsCopy copy = (rows : List R) → length rows < 2 ^ 31 → elim (first_bad [] rows) as (λ _. Type 0) [
    | none ↦ copy rows ≡ none
    | some i ↦ (msg : Bytes) × (copy rows ≡ some msg) × (error_line msg ≡ some (Line.line (suc i)))
  ]

  pub first_bad-none :
      (taken rows : List R) → first_bad taken rows ≡ none → good_rows taken rows ≡ rows
  unfolding first_bad good_rows
  first_bad-none taken [] h = refl
  first_bad-none taken (r ∷ rows) h = elim (Bool-cases (is_bad taken r)) [
    | inl q ↦ ground (arith, h, q)
    | inr q ↦ elim (Option-cases (first_bad (taken ++ r ∷ []) rows)) [
      | inl e ↦ rw q (ap (◌∷◌ r) (first_bad-none (taken ++ r ∷ []) rows e))
      | inr (i, e) ↦ ground (arith, h, q, e)
    ]
  ]

  first_bad-some :
      (taken rows : List R) (i : ℕ)
      → first_bad taken rows ≡ some i
      → (suc (length (erase_at i rows)) ≡ length rows)
        × (good_rows taken (erase_at i rows) ≡ good_rows taken rows)
  unfolding first_bad good_rows
  first_bad-some taken [] i h = cc h
  first_bad-some taken (r ∷ rows) i h = elim (Bool-cases (is_bad taken r)) [
    | inl q ↦
        let z : 0 ≡ i = ground (arith, h, q) in
        subst
          (λ n.
            (suc (length (erase_at n (r ∷ rows))) ≡ length (r ∷ rows))
            × (good_rows taken (erase_at n (r ∷ rows)) ≡ good_rows taken (r ∷ rows)))
          z (refl, rw q refl)
    | inr q ↦ elim (Option-cases (first_bad (taken ++ r ∷ []) rows)) [
      | inl e ↦ ground (arith, h, q, e)
      | inr (n, e) ↦
          let z : suc n ≡ i = ground (arith, h, q, e) in
          let (len, same) = first_bad-some (taken ++ r ∷ []) rows n e in
          subst
            (λ m.
              (suc (length (erase_at m (r ∷ rows))) ≡ length (r ∷ rows))
              × (good_rows taken (erase_at m (r ∷ rows)) ≡ good_rows taken (r ∷ rows)))
            z (ap suc len, rw q (ap (◌∷◌ r) same))
    ]
  ]

  pub first_bad-lt : (taken rows : List R) (i : ℕ) → first_bad taken rows ≡ some i → i < length rows
  unfolding first_bad
  first_bad-lt taken [] i h = cc h
  first_bad-lt taken (r ∷ rows) i h = elim (Option-cases (first_bad (taken ++ r ∷ []) rows)) [
    | inl e ↦ ground (arith, h, e)
    | inr (n, e) ↦ ground (arith, h, e, first_bad-lt (taken ++ r ∷ []) rows n e)
  ]

  -- How the batch ends: with nothing left to write, or with rows written.
  unfoldable pub settled : List R → Copied R
  settled [] = Copied.gave_up []
  settled (r ∷ rows) = Copied.written (r ∷ rows)

  -- With a COPY as PostgreSQL documents it, fewer than 2 ^ 31 rows and one round more than rows, the retries end without an
  -- exception, and the rows that they write are those that PostgreSQL takes once the refused ones are left
  -- out: no good row is lost, whatever rows are bad.
  pub try_copy_batch-good_rows :
      (copy : List R → Option Bytes) (fuel : ℕ) (rows : List R)
      → IsCopy copy
      → length rows < 2 ^ 31
      → length rows < fuel
      → try_copy_batch copy fuel rows ≡ settled (good_rows [] rows)
  unfolding try_copy_batch settled
  try_copy_batch-good_rows copy zero rows h w f = elim f [ ]
  try_copy_batch-good_rows copy (suc fuel) [] h w f = unfold good_rows in refl
  try_copy_batch-good_rows copy (suc fuel) (r ∷ rest) h w f =
      on (λ xs. try_copy_batch-good_rows copy fuel xs h) (first_bad [] rows) refl (h rows w)
    where
      rows : List R
      rows = r ∷ rest

      less : (n : ℕ) → suc n - 1 ≡ n
      less n = omega arith

      on :
          ((xs : List R)
            → length xs < 2 ^ 31
            → length xs < fuel
            → try_copy_batch copy fuel xs ≡ settled (good_rows [] xs))
          → (o : Option ℕ) → first_bad [] rows ≡ o
          → (elim o as (λ _. Type 0) [
            | none ↦ copy rows ≡ none
            | some i ↦
                (msg : Bytes) × (copy rows ≡ some msg) × (error_line msg ≡ some (Line.line (suc i)))
          ])
          → try_copy_batch copy (suc fuel) rows ≡ settled (good_rows [] rows)
      on again none e c = rw c (sym (ap settled (first_bad-none [] rows e)))
      on again (some i) e (msg, c, l) =
          rw
            (
              c,
              l,
              lt→ltb (suc i - 1) (length rows) (omega (arith, first_bad-lt [] rows i e)),
              less i,
            )
            (again (erase_at i rows) (omega (arith, (first_bad-some [] rows i e).0, w))
                (omega (arith, (first_bad-some [] rows i e).0))
              ∙ ap settled (first_bad-some [] rows i e).1)
