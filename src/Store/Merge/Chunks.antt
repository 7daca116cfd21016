-- ===== src/Store/Merge/Chunks.antt =====
-- The pieces in which a file is decompressed do not matter to `merge`.
use osmpgsqlimport.Prelude.{
  ap₂, drop-length, ℕ, zero, suc, ◌-◌, ◌≤◌, ◌<◌, ◌≡◌, refl, sym, ap, ◌∙◌, inl, inr, true, List, [],
  ◌∷◌, ◌++◌, arith, ltb, leb, Bool-cases, length, length-append, length-take, length-drop, take,
  drop, take_append, drop_append, take-append-drop, Bytes, flatten, append-nil, append_assoc,
}
use osmpgsqlimport.Store.Shard.{Rec}
use osmpgsqlimport.Store.Merge.{read_rec, full_records, feed, feed_all}

module _ {ℓ} {S : Type ℓ} (write : S → Rec → S) where
  -- With enough rounds their number does not matter.
  pub full_records_fuel :
      (f g : ℕ) (m : S) (p : Bytes)
      → length p ≤ f
      → length p ≤ g
      → full_records write f m p ≡ full_records write g m p
  unfolding full_records
  full_records_fuel zero zero m p hf hg = refl
  full_records_fuel zero (suc g) m p hf hg = ground arith
  full_records_fuel (suc f) zero m p hf hg = ground arith
  full_records_fuel (suc f) (suc g) m p hf hg = elim (Bool-cases (leb 24 (length p))) [
    | inl more ↦ rw more (
        full_records_fuel f g (write m (read_rec p)) (drop 24 p) (ground (arith, length-drop 24 p))
          (ground (arith, length-drop 24 p)))
    | inr done ↦ rw done
  ]

  -- The specification: the records of one run of bytes, and the bytes that remain.
  abbrev pub records : S → Bytes → S × Bytes
  records m p = full_records write (length p) m p

  pub records_short : (m : S) (p : Bytes) → length p < 24 → records m p ≡ (m, p)
  unfolding full_records
  records_short m p h = on (length p) refl
    where
      on : (n : ℕ) → length p ≡ n → full_records write n m p ≡ (m, p)
      on zero e = refl
      on (suc n) e = ground arith

  pub records_step :
      (m : S) (p : Bytes) → 24 ≤ length p → records m p ≡ records (write m (read_rec p)) (drop 24 p)
  unfolding full_records
  records_step m p h = on (length p) refl
    where
      on :
          (n : ℕ)
          → length p ≡ n
          → full_records write n m p ≡ records (write m (read_rec p)) (drop 24 p)
      on zero e = absurd (omega arith)
      on (suc n) e =
          let more : leb 24 (length p) ≡ true = ground arith in
          rw more (
            full_records_fuel n (length (drop 24 p)) (write m (read_rec p)) (drop 24 p)
              (omega (arith, length-drop 24 p)) (omega arith))

pub read_rec_append : (p q : Bytes) → 24 ≤ length p → read_rec (p ++ q) ≡ read_rec p
unfolding read_rec
read_rec_append p q h = rw (
  take_append 8 p q (omega arith),
  drop_append 8 p q (omega arith),
  drop_append 16 p q (omega arith),
  take_append 8 (drop 8 p) q (omega (arith, length-drop 8 p)),
  take_append 8 (drop 16 p) q (omega (arith, length-drop 16 p)),
)

module _ {ℓ} {S : Type ℓ} (write : S → Rec → S) where
  records_append :
      (n : ℕ) (m : S) (a b : Bytes)
      → length a ≤ n
      → records write m (a ++ b) ≡ records write (records write m a).0 ((records write m a).1 ++ b)
  records_append zero m a b h = rw (records_short write m a (omega arith))
  records_append (suc n) m a b h = elim (Bool-cases (leb 24 (length a))) [
    | inl more ↦
        let long : 24 ≤ length a = ground arith in
        records_step write m (a ++ b) (omega (arith, length-append a b))
        ∙ ap₂ (records write) (ap (write m) (read_rec_append a b long)) (drop_append 24 a b long)
        ∙ records_append n (write m (read_rec a)) (drop 24 a) b (omega (arith, length-drop 24 a))
        ∙ ap (λ r. records write r.0 (r.1 ++ b)) (sym (records_step write m a long))
    | inr short ↦ rw (records_short write m a (ground arith))
  ]

  rest-lt : (n : ℕ) (m : S) (a : Bytes) → length a ≤ n → length (records write m a).1 < 24
  rest-lt zero m a h = rw (records_short write m a (omega arith)) (omega arith)
  rest-lt (suc n) m a h = elim (Bool-cases (leb 24 (length a))) [
    | inl more ↦
        rw (records_step write m a (ground arith))
          (rest-lt n (write m (read_rec a)) (drop 24 a) (omega (arith, length-drop 24 a)))
    | inr short ↦ rw (records_short write m a (ground arith)) (ground arith)
  ]

  -- Completing a carried record is the same as reading it from the joined bytes.
  carried-records :
      (m : S) (partial out : Bytes)
      → length partial < 24
      → 24 - length partial ≤ length out
      → records write
          (write m (read_rec (partial ++ take (24 - length partial) out)))
          (drop (24 - length partial) out)
        ≡ records write m (partial ++ out)
  carried-records m partial out h k =
      let need = 24 - length partial in
      let first = partial ++ take need out in
      let whole : first ++ drop need out ≡ partial ++ out =
        append_assoc partial (take need out) (drop need out)
        ∙ ap (◌++◌ partial) (take-append-drop need out) in
      let size : length first ≡ 24 =
        omega (arith, length-append partial (take need out), length-take need out) in
      let long : 24 ≤ length first = omega arith in
      let gone : drop 24 (first ++ drop need out) ≡ drop need out =
        rw size at (drop-length first (drop need out)) in
      sym (
        ap (records write m) (sym whole)
        ∙ records_step write m (first ++ drop need out)
            (omega (arith, length-append first (drop need out)))
        ∙ ap₂ (records write) (ap (write m) (read_rec_append first (drop need out) long)) gone)

  feed-records :
      (m : S) (partial out : Bytes)
      → length partial < 24
      → feed write (m, partial) out ≡ records write m (partial ++ out)
  unfolding feed
  feed-records m [] out h = refl
  feed-records m (b ∷ bs) out h = elim (Bool-cases (ltb (length out) (24 - length (b ∷ bs)))) [
    | inl short ↦
        rw short (
          sym
            (records_short write m ((b ∷ bs) ++ out) (ground (arith, length-append (b ∷ bs) out))))
    | inr full ↦ rw full (
        full_records_fuel write (length out) (length (drop (24 - length (b ∷ bs)) out)) _ _
          (omega (arith, length-drop (24 - length (b ∷ bs)) out)) (omega arith)
        ∙ carried-records m (b ∷ bs) out h (ground arith))
  ]

  -- However the decompressed bytes of a file are cut into pieces, also in the middle of a record, and
  -- whatever partial record is carried, `merge` writes the records of the one run of bytes, in order, and
  -- carries what remains of it.
  pub feed_all-records :
      (cs : List Bytes) (m : S) (partial : Bytes)
      → length partial < 24
      → feed_all write (m, partial) cs ≡ records write m (partial ++ flatten cs)
  unfolding feed_all flatten
  feed_all-records [] m partial h = sym (
      records_short write m (partial ++ []) (rw append-nil h)
      ∙ ap (λ p. (m, p)) (append-nil partial))
  feed_all-records (c ∷ cs) m partial h = rw (feed-records m partial c h) (
      feed_all-records cs (records write m (partial ++ c)).0 (records write m (partial ++ c)).1
        (rest-lt (length (partial ++ c)) m (partial ++ c) (omega arith))
      ∙ sym (records_append (length (partial ++ c)) m (partial ++ c) (flatten cs) (omega arith))
      ∙ ap (records write m) (append_assoc partial c (flatten cs)))
