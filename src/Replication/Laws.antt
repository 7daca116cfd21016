-- ===== src/Replication/Laws.antt =====
-- `Replicator` of src/Replicator.cpp applies the files one after the other, without a gap.
use osmpgsqlimport.Prelude.{
  ℕ, zero, suc, ◌+◌, ◌-◌, ◌/◌, ◌%◌, ◌*◌, ◌<◌, ◌≡◌, refl, ap, ap₂, ◌∙◌, ◌⊎◌, inl, inr, Bool, true,
  false, [], ◌∷◌, leb, leb→le, lt→ltb, Bool-cases, Option, none, some, Bytes, arith,
}
use osmpgsqlimport.Replication.{
  pad3, sequence_to_path, Replica, download_and_apply, apply_pending, poll_round,
}

-- A reader of such a path: three groups of three digits.
unfoldable pub read_path : Bytes → Option ℕ
read_path (a ∷ b ∷ c ∷ s ∷ d ∷ e ∷ f ∷ t ∷ g ∷ h ∷ i ∷ []) = some (
    ((a - 48) * 100 + (b - 48) * 10 + (c - 48)) * 1000000
    + ((d - 48) * 100 + (e - 48) * 10 + (f - 48)) * 1000
    + ((g - 48) * 100 + (h - 48) * 10 + (i - 48)))
read_path _ = none

group :
    (n : ℕ)
    → n < 1000
    → (48 + n / 100 - 48) * 100 + (48 + n / 10 % 10 - 48) * 10 + (48 + n % 10 - 48) ≡ n
group n h = omega arith

-- A sequence number below 10 ^ 9 can be read back from its path, so two numbers never share a path.
pub read_path-sequence_to_path :
    (seq : ℕ) → seq < 1000000000 → read_path (sequence_to_path seq) ≡ some seq
unfolding read_path sequence_to_path pad3
read_path-sequence_to_path seq h =
    rw
      (
        lt→ltb (seq / 1000000) 1000 (omega arith),
        lt→ltb (seq / 1000 % 1000) 1000 (omega arith),
        lt→ltb (seq % 1000) 1000 (omega arith),
      )
      (ap some (
        ap₂ ◌+◌
          (ap₂ (λ a b. a * 1000000 + b * 1000) (group (seq / 1000000) (omega arith))
            (group (seq / 1000 % 1000) (omega arith)))
          (group (seq % 1000) (omega arith))
        ∙ omega arith))

module _ {ℓ} {S : Type ℓ} (download : ℕ → Bool) (apply_file : ℕ → S → S × Bool)
    (stopped : ℕ → Bool) where
  -- The files after `from` up to `to` were downloaded and applied, in order and none left out.
  pub data InOrder : ℕ → S → ℕ → S → Type ℓ where
    nothing : {from : ℕ} {s : S} → InOrder from s from s
    file :
        {from to : ℕ} {s t u : S}
        → download (from + 1) ≡ true
        → apply_file (from + 1) s ≡ (t, true)
        → InOrder (from + 1) t to u
        → InOrder from s to u

  -- How far the loop got, and why it ended.
  pub data Outcome (left : ℕ) (r : Replica S) : Replica S × Bool → Type ℓ where
    finished :
        {t : Replica S}
        → InOrder r.sequence r.state t.sequence t.state
        → (t.sequence ≡ r.sequence + left) ⊎ (stopped (t.sequence + 1) ≡ true)
        → Outcome left r (t, true)
    failed :
        {t : Replica S} {s : S}
        → InOrder r.sequence r.state t.sequence s
        → ((download (t.sequence + 1) ≡ false) × (t.state ≡ s))
          ⊎ ((download (t.sequence + 1) ≡ true)
              × (apply_file (t.sequence + 1) s ≡ (t.state, false)))
        → Outcome left r (t, false)

  later :
      (left seq : ℕ) (s t : S) (o : Replica S × Bool)
      → download (seq + 1) ≡ true
      → apply_file (seq + 1) s ≡ (t, true)
      → Outcome left (record { sequence = seq + 1; state = t }) o
      → Outcome (suc left) (record { sequence = seq; state = s }) o
  later left seq s t (u, true) d e (Outcome.finished i (inl q)) =
      Outcome.finished (InOrder.file d e i) (inl (omega (arith, q)))
  later left seq s t (u, true) d e (Outcome.finished i (inr q)) =
      Outcome.finished (InOrder.file d e i) (inr q)
  later left seq s t (u, false) d e (Outcome.failed i q) = Outcome.failed (InOrder.file d e i) q

  apply_pending-Outcome :
      (left : ℕ) (r : Replica S)
      → Outcome left r (apply_pending download apply_file stopped left (r.sequence + 1) r)
  unfolding apply_pending download_and_apply
  apply_pending-Outcome zero r = Outcome.finished InOrder.nothing (inl (omega arith))
  apply_pending-Outcome (suc left) r =
      on (λ t. apply_pending-Outcome left (record { sequence = r.sequence + 1; state = t }))
        (apply_file (r.sequence + 1) r.state) refl
    where
      by_flag :
          (b : Bool) (t : S)
          → apply_file (r.sequence + 1) r.state ≡ (t, b)
          → stopped (r.sequence + 1) ≡ false
          → download (r.sequence + 1) ≡ true
          → Outcome left
              (record { sequence = r.sequence + 1; state = t })
              (apply_pending download apply_file stopped left
                (r.sequence + 1 + 1)
                (record { sequence = r.sequence + 1; state = t }))
          → Outcome
              (suc left)
              r
              (apply_pending download apply_file stopped (suc left) (r.sequence + 1) r)
      by_flag true t e q d o = rw (q, d, e) (later left r.sequence r.state t _ d e o)
      by_flag false t e q d o = rw (q, d, e) (Outcome.failed InOrder.nothing (inr (d, e)))

      on :
          ((t : S)
            → Outcome left
                (record { sequence = r.sequence + 1; state = t })
                (apply_pending download apply_file stopped left
                  (r.sequence + 1 + 1)
                  (record { sequence = r.sequence + 1; state = t })))
          → (x : S × Bool) → apply_file (r.sequence + 1) r.state ≡ x
          → Outcome
              (suc left)
              r
              (apply_pending download apply_file stopped (suc left) (r.sequence + 1) r)
      on ih (t, b) e = elim (Bool-cases (stopped (r.sequence + 1))) [
        | inl q ↦ rw q (Outcome.finished InOrder.nothing (inr q))
        | inr q ↦ elim (Bool-cases (download (r.sequence + 1))) [
          | inl d ↦ by_flag b t e q d (ih t)
          | inr d ↦ rw (q, d) (Outcome.failed InOrder.nothing (inl (d, refl)))
        ]
      ]

  -- One round of `poll` applies the files after the stored sequence number one by one. It ends with the
  -- remote number stored, or Ctrl+C, or an error at the file after the stored number: the stored number
  -- never passes a file that was not applied, and no file is applied out of order.
  pub poll_round-Outcome :
      (remote : ℕ) (r : Replica S)
      → Outcome (remote - r.sequence) r (poll_round download apply_file stopped remote r)
  unfolding poll_round
  poll_round-Outcome remote r = elim (Bool-cases (leb remote r.sequence)) [
    | inl e ↦
        rw e (Outcome.finished InOrder.nothing (inl (omega (arith, leb→le remote r.sequence e))))
    | inr e ↦ rw e (apply_pending-Outcome (remote - r.sequence) r)
  ]
