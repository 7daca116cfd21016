-- ===== src/Replication/Poll/Laws.antt =====
-- `Replicator::poll` of src/Replicator.cpp over all its rounds, and the number that `remoteSequence` reads.
use osmpgsqlimport.Prelude.{
  ℕ, ==_refl, ◌+◌, ◌≡◌, refl, inl, inr, Bool, true, false, List, [], ◌∷◌, ◌++◌, ◌&&◌, leb,
  Bool-cases, Option-cases, Option, none, some, Bytes,
}
use osmpgsqlimport.Db.Copy.{strip_prefix}
use osmpgsqlimport.Replication.{Replica}
use osmpgsqlimport.Replication.Laws.{InOrder, Outcome, poll_round-Outcome}
use osmpgsqlimport.Replication.Poll.{
  sequence_key, find_sequence, remote_sequence, Poller, Round, stored, caught_up, poll,
}

module _ {ℓ} {S : Type ℓ} (stoll : Bytes → Option ℕ) (download : ℕ → Bool)
    (apply_file : ℕ → S → S × Bool) (stopped : ℕ → Bool) where
  abbrev In : ℕ → S → ℕ → S → Type ℓ
  In = InOrder download apply_file stopped

  InOrder-trans : {a b c : ℕ} {s t u : S} → In a s b t → In b t c u → In a s c u
  InOrder-trans InOrder.nothing q = q
  InOrder-trans (InOrder.file d e p) q = InOrder.file d e (InOrder-trans p q)

  -- From a stored number and a state to those that are left: all files up to the number that is stored then
  -- are applied, and perhaps a part of the next one, which failed.
  pub data Applied (n : ℕ) (s : S) : Poller S → Type ℓ where
    applied : {q : Poller S} (m : ℕ) → q.sequence ≡ some m → In n s m q.state → Applied n s q
    broken :
        {q : Poller S} (m : ℕ) {t : S}
        → q.sequence ≡ some m
        → In n s m t
        → download (m + 1) ≡ true
        → apply_file (m + 1) t ≡ (q.state, false)
        → Applied n s q

  Applied-trans : {a b : ℕ} {s t : S} {q : Poller S} → In a s b t → Applied b t q → Applied a s q
  Applied-trans i (applied m e j) = applied m e (InOrder-trans i j)
  Applied-trans i (broken m e j d f) = broken m e (InOrder-trans i j) d f

  -- What one round comes to.
  data Reached (n : ℕ) (s : S) : Poller S × Bool → Type ℓ where
    on :
        {q : Poller S} {goes_on : Bool} (m : ℕ)
        → q.sequence ≡ some m
        → In n s m q.state
        → Reached n s (q, goes_on)
    off : {q : Poller S} → Applied n s q → Reached n s (q, false)

  Outcome-Reached :
      {left n : ℕ} (remote : ℕ) {s : S} {o : Replica S × Bool}
      → Outcome download apply_file stopped left (record { sequence = n; state = s }) o
      → Reached n s (stored stoll download apply_file stopped o.0, o.1 && leb remote o.0.sequence)
  Outcome-Reached remote (Outcome.finished {t = t} i e) = on t.sequence refl i
  Outcome-Reached remote (Outcome.failed {t = t} i (inl (d, e))) =
      off (applied t.sequence refl (rw e i))
  Outcome-Reached remote (Outcome.failed {t = t} i (inr (d, e))) =
      off (broken t.sequence refl i d e)

  caught_up-Reached :
      (remote local : ℕ) (s : S)
      → Reached local s (caught_up stoll download apply_file stopped remote local s)
  unfolding caught_up
  caught_up-Reached remote local s = Outcome-Reached remote (
      poll_round-Outcome download apply_file stopped remote
        (record { sequence = local; state = s }))

  -- However many rounds `poll` makes, whatever the server answers and whenever Ctrl+C comes: every file after
  -- the number that was stored at its start, up to the number that is stored at its end, is downloaded and
  -- applied once and in order. Beyond these it has at most begun the next file, whose error ended it.
  pub poll-Applied :
      (rounds : List Round) (p : Poller S) (n : ℕ)
      → p.sequence ≡ some n
      → Applied n p.state (poll stoll download apply_file stopped rounds p)
  unfolding poll
  poll-Applied [] p n e = applied n e InOrder.nothing
  poll-Applied (r ∷ rounds) p n e = elim (Bool-cases r.interrupted) [
    | inl i ↦ rw i (applied n e InOrder.nothing)
    | inr i ↦ elim (Option-cases (remote_sequence stoll r.state_file)) [
      | inl f ↦ rw (i, f) (poll-Applied rounds p n e)
      | inr (remote, f) ↦
          rw (i, f, e) (after (caught_up-Reached remote n p.state) (λ q m. poll-Applied rounds q m))
    ]
  ]
    where
      after :
          {o : Poller S × Bool}
          → Reached n p.state o
          → ((q : Poller S) (m : ℕ)
              → q.sequence ≡ some m
              → Applied m q.state (poll stoll download apply_file stopped rounds q))
          → Applied n p.state
              (elim o.1 [ true ↦ poll stoll download apply_file stopped rounds o.0 | false ↦ o.0 ])
      after (on {goes_on = true} m q i) ih = Applied-trans i (ih _ m q)
      after (on {goes_on = false} m q i) ih = applied m q i
      after (off a) ih = a

abbrev NoKey : List Bytes → Type 0
NoKey [] = Unit {0}
NoKey (line ∷ lines) = (strip_prefix sequence_key line ≡ none) × NoKey lines

strip_prefix-append : (p s : Bytes) → strip_prefix p (p ++ s) ≡ some s
unfolding strip_prefix
strip_prefix-append [] s = refl
strip_prefix-append (c ∷ p) s = rw (==_refl c) (strip_prefix-append p s)

-- `remoteSequence` reads the number from the first line that begins with its key.
find_sequence-append :
    (stoll : Bytes → Option ℕ) (above below : List Bytes) (number : Bytes)
    → NoKey above
    → find_sequence stoll (above ++ (sequence_key ++ number) ∷ below) ≡ stoll number
unfolding find_sequence
find_sequence-append stoll [] below number h =
    rw (strip_prefix-append sequence_key number, find_sequence) refl
find_sequence-append stoll (line ∷ above) below number h =
    rw (h.0, find_sequence) (find_sequence-append stoll above below number h.1)
