-- ===== src/Queue/Runs.antt =====
-- The runs of the blocking queue of src/main.cpp: any interleaving of the calls of its threads.
use osmpgsqlimport.Prelude.{
  ℕ, zero, suc, ◌+◌, ◌≤◌, ◌<◌, ◌≡◌, refl, sym, ap, ◌∙◌, inl, inr, Bool, true, false, ◌||◌, List, [],
  ◌∷◌, ◌++◌, append-nil, append_assoc, length, length-append, Bool-cases, some, arith,
}
use osmpgsqlimport.Queue.{Queue, empty_queue, has_room, push, PopResult, pop, shutdown, size, drain}

-- A call that returned.
pub data Event {ℓ} (A : Type ℓ) : Type ℓ where
  pushed popped : A → Event A
  pop_ended shut_down : Event A

module _ {ℓ} {A : Type ℓ} where
  -- One call returns. A call that waits has no step.
  pub data Step (max_size : ℕ) : Event A → Queue A → Queue A → Type ℓ where
    on_push :
        {x : A} {s t : Queue A} → push max_size x s ≡ some t → Step max_size (Event.pushed x) s t
    on_pop :
        {x : A} {s t : Queue A} → pop s ≡ PopResult.got x t → Step max_size (Event.popped x) s t
    on_end : {s : Queue A} → pop s ≡ PopResult.ended → Step max_size Event.pop_ended s s
    on_shutdown : {s : Queue A} → Step max_size Event.shut_down s (shutdown s)

  pub data Run (max_size : ℕ) : List (Event A) → Queue A → Queue A → Type ℓ where
    start : {s : Queue A} → Run max_size [] s s
    next :
        {e : Event A} {es : List (Event A)} {s t u : Queue A}
        → Step max_size e s t
        → Run max_size es t u
        → Run max_size (e ∷ es) s u

  -- The items that went in and that came out, in the order of the calls.
  unfoldable pub pushes : List (Event A) → List A
  pushes [] = []
  pushes (Event.pushed x ∷ es) = x ∷ pushes es
  pushes (_ ∷ es) = pushes es

  unfoldable pub pops : List (Event A) → List A
  pops [] = []
  pops (Event.popped x ∷ es) = x ∷ pops es
  pops (_ ∷ es) = pops es

  unfoldable pub was_shut_down : List (Event A) → Bool
  was_shut_down [] = false
  was_shut_down (Event.shut_down ∷ es) = true
  was_shut_down (_ ∷ es) = was_shut_down es

  pub push-inv :
      (max_size : ℕ) (x : A) (s t : Queue A)
      → push max_size x s ≡ some t
      → (has_room max_size s ≡ true) × (t.q ≡ s.q ++ x ∷ []) × (t.stop ≡ s.stop)
  unfolding push
  push-inv max_size x s t h = elim (Bool-cases (has_room max_size s)) [
    | inl e ↦
        let k : record s { q = s.q ++ x ∷ [] } ≡ t = ground (arith, h, e) in
        (e, sym (ap (λ r. r.q) k), sym (ap (λ r. r.stop) k))
    | inr e ↦ ground (arith, h, e)
  ]

  pub pop-inv :
      (x : A) (s t : Queue A) → pop s ≡ PopResult.got x t → (s.q ≡ x ∷ t.q) × (s.stop ≡ t.stop)
  unfolding pop
  pop-inv x s t h = on s.q s.stop h
    where
      on :
          (l : List A) (b : Bool)
          → pop (record { q = l; stop = b }) ≡ PopResult.got x t
          → (l ≡ x ∷ t.q) × (b ≡ t.stop)
      on [] true e = cc
      on [] false e = cc
      on (y ∷ ys) b e = (cc, cc)

  pub ended-inv : (s : Queue A) → pop s ≡ PopResult.ended → (s.q ≡ []) × (s.stop ≡ true)
  unfolding pop
  ended-inv s h = on s.q s.stop h
    where
      on :
          (l : List A) (b : Bool)
          → pop (record { q = l; stop = b }) ≡ PopResult.ended
          → (l ≡ []) × (b ≡ true)
      on [] true e = (refl, refl)
      on [] false e = cc
      on (y ∷ ys) b e = cc

  fifo :
      {max_size : ℕ} {es : List (Event A)} {s t : Queue A}
      → Run max_size es s t
      → s.q ++ pushes es ≡ pops es ++ t.q
  unfolding pushes pops shutdown
  fifo {s = s} Run.start = append-nil s.q
  fifo {s = s} (Run.next {es = es} {t = t} (Step.on_push {x} h) r) =
      sym (append_assoc s.q (x ∷ []) (pushes es))
      ∙ ap (λ l. l ++ pushes es) (sym (push-inv _ x s t h).1)
      ∙ fifo r
  fifo {s = s} (Run.next {es = es} {t = t} (Step.on_pop {x} h) r) =
      ap (λ l. l ++ pushes es) (pop-inv x s t h).0 ∙ ap (◌∷◌ x) (fifo r)
  fifo (Run.next (Step.on_end h) r) = fifo r
  fifo (Run.next Step.on_shutdown r) = fifo r

  -- In any interleaving of calls on a new queue, the items popped so far followed by the items in the
  -- queue are the items pushed, in the order of the pushes: no item is lost, doubled or overtaken.
  pub run-fifo :
      {max_size : ℕ} {es : List (Event A)} {t : Queue A}
      → Run max_size es empty_queue t
      → pushes es ≡ pops es ++ t.q
  run-fifo r = fifo r

  stopped :
      {max_size : ℕ} {es : List (Event A)} {s t : Queue A}
      → Run max_size es s t
      → t.stop ≡ (s.stop || was_shut_down es)
  unfolding was_shut_down shutdown
  stopped {s = s} Run.start = ground arith
  stopped {s = s} (Run.next {t = t} (Step.on_push {x} h) r) =
      ground (arith, stopped r, push-inv _ x s t h)
  stopped {s = s} (Run.next {t = t} (Step.on_pop {x} h) r) =
      ground (arith, stopped r, pop-inv x s t h)
  stopped (Run.next (Step.on_end h) r) = stopped r
  stopped {s = s} (Run.next Step.on_shutdown r) = stopped r ∙ ground arith

  bounded :
      {max_size : ℕ} {es : List (Event A)} {s t : Queue A}
      → Run max_size es s t
      → length s.q ≤ max_size
      → t.stop ≡ false
      → length t.q ≤ max_size
  unfolding has_room shutdown
  bounded Run.start b h = b
  bounded {max_size} {s = s} (Run.next {t = t} (Step.on_push {x} h) r) b n =
      let (room, grown, _) = push-inv max_size x s t h in
      bounded r (rw (grown, length-append s.q (x ∷ [])) (room_for room)) n
    where
      unstopped : s.stop ≡ false
      unstopped = ground (arith, stopped r, n, (push-inv max_size x s t h).2)

      room_for : has_room max_size s ≡ true → length s.q + 1 ≤ max_size
      room_for e = ground (arith, unstopped)
  bounded {max_size} {s = s} (Run.next {t = t} (Step.on_pop {x} h) r) b n =
      bounded r (omega (arith, ap length (pop-inv x s t h).0)) n
  bounded (Run.next (Step.on_end h) r) b n = bounded r b n
  bounded (Run.next Step.on_shutdown r) b n = bounded r b n

  -- As long as the queue is not shut down, it holds at most `max_size` items in every interleaving of
  -- calls on a new queue.
  pub run-bounded :
      {max_size : ℕ} {es : List (Event A)} {t : Queue A}
      → Run max_size es empty_queue t
      → was_shut_down es ≡ false
      → size t ≤ max_size
  unfolding size
  run-bounded r h = bounded r (omega arith) (stopped r ∙ h)

  -- A call of `pop` returns false only after `shutdown`, when the items pushed have all been popped.
  pub run-ended :
      {max_size : ℕ} {es : List (Event A)} {t : Queue A}
      → Run max_size es empty_queue t
      → pop t ≡ PopResult.ended
      → (was_shut_down es ≡ true) × (pops es ≡ pushes es)
  run-ended {es = es} {t = t} r h =
      let (nil, stop) = ended-inv t h in
      (
        sym (stopped r) ∙ stop,
        sym (append-nil (pops es)) ∙ ap (λ l. pops es ++ l) (sym nil) ∙ sym (run-fifo r),
      )

  -- After `shutdown` a worker's loop takes the items that are left, in order, and ends.
  pub drain-shutdown :
      (s : Queue A) (fuel : ℕ) → size s < fuel → drain fuel (shutdown s) ≡ (s.q, true)
  unfolding drain shutdown size pop
  drain-shutdown s fuel h = on fuel s.q s.stop h
    where
      on :
          (n : ℕ) (l : List A) (b : Bool)
          → length l < n
          → drain n (record { q = l; stop = true }) ≡ (l, true)
      on zero l b e = elim e [ ]
      on (suc n) [] b e = refl
      on (suc n) (y ∷ ys) b e = rw (on n ys b (omega arith)) refl
