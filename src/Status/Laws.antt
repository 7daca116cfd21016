-- ===== src/Status/Laws.antt =====
-- The phase log of `Status` in src/main.cpp against a report by segments between two transitions.
use osmpgsqlimport.Prelude.{
  ℕ, ◌+◌, ◌%◌, ◌^◌, ◌<◌, ◌≡◌, refl, sym, ap, ◌∙◌, true, Bool-cases, inl, inr, List, [], ◌∷◌, ◌++◌,
  if◌then◌else◌, arith, append_assoc, append-nil,
}
use osmpgsqlimport.Prelude.Word.{add64, sub64, add64-lt}
use osmpgsqlimport.Prelude.Double.{Double}
use osmpgsqlimport.CommandLine.{Phase}
use osmpgsqlimport.Status.{
  PhaseStats, Counter, Status, start_status, total, bump, counter_eq, count_one, is_positive,
  record_phase, advance_phase, Event, run_events,
}

total-count_one : (c : Counter) (s : Status) → total (count_one c s) ≡ add64 (total s) 1
unfolding total count_one add64
total-count_one Counter.nodes s = omega arith
total-count_one Counter.areas s = omega arith
total-count_one Counter.ways s = omega arith
total-count_one Counter.relations s = omega arith

total-lt : (s : Status) → total s < 2 ^ 64
unfolding total
total-lt s = add64-lt _ _

module _ (seconds : ℕ → Double) where
  -- The clock is positive whenever it is read.
  abbrev pub Ticks : List (Event seconds) → Type 0
  Ticks [] = Unit {0}
  Ticks (Event.counted c ∷ es) = Ticks es
  Ticks (Event.advanced f n now ∷ es) = (is_positive now ≡ true) × Ticks es

  -- From a transition at `start`, with `k` entities counted since.
  unfoldable pub report : ℕ → ℕ → List (Event seconds) → List PhaseStats
  report start k [] = []
  report start k (Event.counted c ∷ es) = report start (k + 1) es
  report start k (Event.advanced f n now ∷ es) =
      record { phase = f; elapsed_sec = seconds (sub64 now start); count = k % 2 ^ 64 }
      ∷ report now 0 es

  unfoldable pub how_many : Counter → List (Event seconds) → ℕ
  how_many c [] = 0
  how_many c (Event.counted d ∷ es) =
      let more = how_many c es in if counter_eq d c then more + 1 else more
  how_many c (Event.advanced f n now ∷ es) = how_many c es

  count_step :
      (t p k : ℕ)
      → sub64 t p ≡ k % 2 ^ 64
      → t < 2 ^ 64
      → p < 2 ^ 64
      → sub64 (add64 t 1) p ≡ (k + 1) % 2 ^ 64
  unfolding add64 sub64
  count_step t p k e ht hp = omega arith

  sub64_self : (t : ℕ) → t < 2 ^ 64 → sub64 t t ≡ 0
  unfolding sub64
  sub64_self t h = omega arith

  advance_phase-phase_log :
      (f n : Phase) (now : ℕ) (s : Status)
      → is_positive s.phase_start_us ≡ true
      → (advance_phase seconds f n now s).phase_log
        ≡ s.phase_log
          ++ record {
            phase = f;
            elapsed_sec = seconds (sub64 now s.phase_start_us);
            count = sub64 (total s) s.phase_count_at_start;
          }
            ∷ []
  unfolding advance_phase record_phase
  advance_phase-phase_log f n now s h = rw h

  total-advance_phase :
      (f n : Phase) (now : ℕ) (s : Status)
      → is_positive s.phase_start_us ≡ true
      → total (advance_phase seconds f n now s) ≡ total s
  unfolding advance_phase record_phase total
  total-advance_phase f n now s h = rw h

  advance_phase-start :
      (f n : Phase) (now : ℕ) (s : Status) → (advance_phase seconds f n now s).phase_start_us ≡ now
  unfolding advance_phase
  advance_phase-start f n now s = refl

  advance_phase-count_at_start :
      (f n : Phase) (now : ℕ) (s : Status)
      → (advance_phase seconds f n now s).phase_count_at_start ≡ total s
  unfolding advance_phase
  advance_phase-count_at_start f n now s = refl

  run_events-log :
      (es : List (Event seconds)) (s : Status) (k : ℕ)
      → Ticks es
      → is_positive s.phase_start_us ≡ true
      → s.phase_count_at_start < 2 ^ 64
      → sub64 (total s) s.phase_count_at_start ≡ k % 2 ^ 64
      → (run_events seconds es s).phase_log ≡ s.phase_log ++ report s.phase_start_us k es
  unfolding run_events report count_one
  run_events-log [] s k t h b e = sym (append-nil s.phase_log)
  run_events-log (Event.counted c ∷ es) s k t h b e =
      run_events-log es (count_one c s) (k + 1) t h b (
        ap (λ x. sub64 x s.phase_count_at_start) (total-count_one c s)
        ∙ count_step (total s) s.phase_count_at_start k e (total-lt s) b)
  run_events-log (Event.advanced f n now ∷ es) s k t h b e =
      let s' = advance_phase seconds f n now s in
      let p = advance_phase-start f n now s in
      let c = advance_phase-count_at_start f n now s in
      let same = total-advance_phase f n now s h in
      run_events-log es s' 0 t.1 (rw p t.0) (rw c (total-lt s)) (
        ap (λ x. sub64 x s'.phase_count_at_start) same
        ∙ ap (sub64 (total s)) c
        ∙ sub64_self (total s) (total-lt s))
      ∙ rw (p, advance_phase-phase_log f n now s h, e, append_assoc s.phase_log) refl

  advance_phase-counts :
      (f n : Phase) (now : ℕ) (s : Status)
      → ((advance_phase seconds f n now s).counts ≡ s.counts)
        × ((advance_phase seconds f n now s).totals ≡ s.totals)
  unfolding advance_phase record_phase
  advance_phase-counts f n now s = elim (Bool-cases (is_positive s.phase_start_us)) [
    | inl h ↦ (rw h, rw h)
    | inr h ↦ (rw h, rw h)
  ]

  run_events-counts :
      (c : Counter) (es : List (Event seconds)) (s : Status)
      → s.counts c < 2 ^ 64
      → (run_events seconds es s).counts c ≡ (s.counts c + how_many c es) % 2 ^ 64
  unfolding run_events how_many count_one add64
  run_events-counts c [] s b = omega arith
  run_events-counts c (Event.counted d ∷ es) s b = elim (Bool-cases (counter_eq d c)) [
    | inl h ↦ run_events-counts c es (count_one d s) (rw h (omega arith)) ∙ rw h (omega arith)
    | inr h ↦ run_events-counts c es (count_one d s) (rw h b) ∙ rw h refl
  ]
  run_events-counts c (Event.advanced f n now ∷ es) s b =
      let same = ap (λ (g : Counter → ℕ). g c) (advance_phase-counts f n now s).0 in
      run_events-counts c es (advance_phase seconds f n now s) (rw same b) ∙ rw same refl

  run_events-totals :
      (es : List (Event seconds)) (s : Status)
      → s.totals ≡ s.counts
      → (run_events seconds es s).totals ≡ (run_events seconds es s).counts
  unfolding run_events count_one
  run_events-totals [] s e = e
  run_events-totals (Event.counted d ∷ es) s e =
      run_events-totals es (count_one d s) (ap (bump d) e)
  run_events-totals (Event.advanced f n now ∷ es) s e =
      let same = advance_phase-counts f n now s in
      run_events-totals es (advance_phase seconds f n now s) (same.1 ∙ e ∙ sym same.0)

  -- However the worker threads count entities between the transitions, and whatever positive times the clock
  -- gives: the log has one entry for each transition in order, with the phase that ended, the time and the
  -- number of entities since the transition before. Each counter is the number of its entities since the
  -- start, modulo 2 ^ 64, and equals its running total: no transition resets it.
  pub run_events-report :
      (es : List (Event seconds)) (t : ℕ)
      → is_positive t ≡ true
      → Ticks es
      → ((run_events seconds es (start_status t)).phase_log ≡ report t 0 es)
        × ((c : Counter)
            → (run_events seconds es (start_status t)).counts c ≡ how_many c es % 2 ^ 64)
        × ((run_events seconds es (start_status t)).totals
            ≡ (run_events seconds es (start_status t)).counts)
  unfolding start_status total sub64 add64
  run_events-report es t h ticks = (
    run_events-log es (start_status t) 0 ticks h (omega arith) refl,
    λ c. run_events-counts c es (start_status t) (omega arith) ∙ omega arith,
    run_events-totals es (start_status t) refl,
  )
