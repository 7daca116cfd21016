-- ===== src/Queue/Waiting/Laws.antt =====
-- No thread that waits in `BlockingQueue` of src/main.cpp is forgotten.
use osmpgsqlimport.Prelude.{
  ℕ, suc, ◌+◌, ◌≤◌, ◌<◌, ◌≡◌, refl, ap, sym, ◌∙◌, ◌⊎◌, inl, inr, Bool, true, false, List, [], ◌∷◌,
  length, length-append, Bool-cases, ltb, none, arith,
}
use osmpgsqlimport.Queue.{Queue, has_room, push, PopResult, pop, shutdown}
use osmpgsqlimport.Queue.Runs.{push-inv, pop-inv, ended-inv}
use osmpgsqlimport.Queue.Waiting.{
  Threads, notify_not_empty, notify_not_full, notify_all, Step, Reachable,
}

module _ {ℓ} {A : Type ℓ} where
  -- A thread sleeps only while enough threads are awake for what the queue offers.
  record IsAwake (max_size : ℕ) (w : Threads A) : Type 0 where
    for_items : 0 < w.idle_poppers → length w.queue.q ≤ w.poppers
    for_room : 0 < w.idle_pushers → max_size ≤ length w.queue.q + w.pushers
    for_stop : w.queue.stop ≡ true → 0 < w.idle_poppers + w.idle_pushers → 0 < w.notifying

  waits-inv : (q : Queue A) → pop q ≡ PopResult.waits → (length q.q ≡ 0) × (q.stop ≡ false)
  unfolding pop
  waits-inv q h = on q.q q.stop h
    where
      on :
          (l : List A) (b : Bool)
          → pop (record { q = l; stop = b }) ≡ PopResult.waits
          → (length l ≡ 0) × (b ≡ false)
      on [] true e = cc e
      on [] false e = (refl, refl)
      on (y ∷ ys) b e = cc e

  full-inv :
      (max_size : ℕ) (x : A) (q : Queue A)
      → push max_size x q ≡ none
      → (max_size ≤ length q.q) × (q.stop ≡ false)
  unfolding push has_room
  full-inv max_size x q h = elim (Bool-cases (has_room max_size q)) [
    | inl e ↦ ground (arith, h, e)
    | inr e ↦ ground (arith, e)
  ]

  step-IsAwake :
      {max_size : ℕ} {w v : Threads A} → IsAwake max_size w → Step max_size w v → IsAwake max_size v
  unfolding notify_not_empty notify_not_full notify_all shutdown
  step-IsAwake {w = w} h Step.call_pop = record {
    for_items = λ e. omega (arith, h.for_items e);
    for_room = h.for_room;
    for_stop = h.for_stop;
  }
  step-IsAwake {w = w} h Step.call_push = record {
    for_items = h.for_items;
    for_room = λ e. omega (arith, h.for_room e);
    for_stop = h.for_stop;
  }
  step-IsAwake {w = w} h (Step.pop_waits {n = n} e p) =
      let (empty, going) = waits-inv w.queue p in
      record {
        for_items = λ _. omega (arith, empty);
        for_room = h.for_room;
        for_stop = λ s. cc (s, going);
      }
  step-IsAwake {w = w} h (Step.pop_ends {n = n} e p) =
      let none_left : length w.queue.q ≡ 0 = ap length (ended-inv w.queue p).0 in
      record {
        for_items = λ _. omega (arith, none_left);
        for_room = h.for_room;
        for_stop = h.for_stop;
      }
  step-IsAwake {w = w} h (Step.pops x {n = n} {q} e p) =
      let (taken, same) = pop-inv x w.queue q p in
      let shorter : length w.queue.q ≡ suc (length q.q) = ap length taken in
      record {
        for_items = λ i. omega (arith, shorter, e, h.for_items i);
        for_room = λ i. ground (arith, shorter, i, h.for_room);
        for_stop = λ s i. h.for_stop (same ∙ s) (omega (arith, i));
      }
  step-IsAwake {max_size} {w = w} h (Step.push_waits x {n = n} e p) =
      let (full, going) = full-inv max_size x w.queue p in
      record {
        for_items = h.for_items;
        for_room = λ _. omega (arith, full);
        for_stop = λ s. cc (s, going);
      }
  step-IsAwake {max_size} {w = w} h (Step.pushes x {n = n} {q} e p) =
      let (room, grown, same) = push-inv max_size x w.queue q p in
      let longer : length q.q ≡ length w.queue.q + 1 =
        ap length grown ∙ length-append w.queue.q (x ∷ []) in
      record {
        for_items = λ i. ground (arith, longer, i, h.for_items);
        for_room = λ i. omega (arith, longer, e, h.for_room i);
        for_stop = λ s i. h.for_stop (sym same ∙ s) (omega (arith, i));
      }
  step-IsAwake {w = w} h Step.sets_stop = record {
    for_items = h.for_items;
    for_room = h.for_room;
    for_stop = λ _ _. omega arith;
  }
  step-IsAwake {w = w} h (Step.notifies e) = record {
    for_items = λ i. omega (arith, i);
    for_room = λ i. omega (arith, i);
    for_stop = λ _ i. omega (arith, i);
  }
  step-IsAwake {w = w} h (Step.popper_wakes {n = n} e) = record {
    for_items = λ i. omega (arith, h.for_items (omega (arith, e)));
    for_room = h.for_room;
    for_stop = λ s i. h.for_stop s (omega (arith, e));
  }
  step-IsAwake {w = w} h (Step.pusher_wakes {n = n} e) = record {
    for_items = h.for_items;
    for_room = λ i. omega (arith, h.for_room (omega (arith, e)));
    for_stop = λ s i. h.for_stop s (omega (arith, e));
  }

  Reachable-IsAwake : {max_size : ℕ} {w : Threads A} → Reachable max_size w → IsAwake max_size w
  Reachable-IsAwake Reachable.new = record {
    for_items = λ i. omega (arith, i);
    for_room = λ i. omega (arith, i);
    for_stop = λ s i. omega (arith, i);
  }
  Reachable-IsAwake (Reachable.then_step r s) = step-IsAwake (Reachable-IsAwake r) s

  -- No wake-up is lost and the two sides never wait for each other: in a queue with room for one item at
  -- least, whatever the order of the threads' steps, when every thread in a call of `push` or `pop` is asleep
  -- and no `shutdown` is about to notify, either none is asleep, or the queue is not shut down and only
  -- calls of `pop` sleep, on an empty queue, or only calls of `push`, on a full one.
  pub no_deadlock :
      {max_size : ℕ} {w : Threads A}
      → Reachable max_size w
      → 0 < max_size
      → w.poppers ≡ 0
      → w.pushers ≡ 0
      → w.notifying ≡ 0
      → (w.idle_poppers + w.idle_pushers ≡ 0)
        ⊎ ((w.queue.stop ≡ false)
            × (((length w.queue.q ≡ 0) × (w.idle_pushers ≡ 0))
                ⊎ ((max_size ≤ length w.queue.q) × (w.idle_poppers ≡ 0))))
  no_deadlock {max_size} {w} r room no_poppers no_pushers quiet =
      let h = Reachable-IsAwake r in
      elim (Bool-cases (ltb 0 (w.idle_poppers + w.idle_pushers))) [
        | inr none_asleep ↦ inl (ground (arith, none_asleep))
        | inl asleep ↦ inr (
          going (h.for_stop) (ground (arith, asleep)),
          sides h.for_items h.for_room (ground (arith, asleep)),
        )
      ]
    where
      going :
          (w.queue.stop ≡ true → 0 < w.idle_poppers + w.idle_pushers → 0 < w.notifying)
          → 0 < w.idle_poppers + w.idle_pushers
          → w.queue.stop ≡ false
      going f i = elim (Bool-cases w.queue.stop) [
        | inl s ↦ absurd (omega (arith, f s i, quiet))
        | inr s ↦ s
      ]

      sides :
          (0 < w.idle_poppers → length w.queue.q ≤ w.poppers)
          → (0 < w.idle_pushers → max_size ≤ length w.queue.q + w.pushers)
          → 0 < w.idle_poppers + w.idle_pushers
          → ((length w.queue.q ≡ 0) × (w.idle_pushers ≡ 0))
            ⊎ ((max_size ≤ length w.queue.q) × (w.idle_poppers ≡ 0))
      sides f g i = ground (arith, f, g, i, room, no_poppers, no_pushers)
