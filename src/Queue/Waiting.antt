-- ===== src/Queue/Waiting.antt =====
-- The condition variables of `BlockingQueue` in src/main.cpp: which threads sleep in `push` and in `pop`, and who
-- wakes them.
pub mod Laws
use osmpgsqlimport.Prelude.{ℕ, suc, ◌+◌, ◌-◌, ◌≡◌, ◌==◌, if◌then◌else◌, none, some}
use osmpgsqlimport.Queue.{Queue, empty_queue, push, PopResult, pop, shutdown}

-- The queue with the number of threads in each call: those that are about to test the predicate of their
-- wait, and those asleep on `cv_not_empty_` and on `cv_not_full_`. `notifying` counts the calls of `shutdown`
-- that have set `stop_` and not yet notified.
pub record Threads {ℓ} (A : Type ℓ) : Type ℓ where
  pub queue : Queue A
  pub poppers : ℕ
  pub pushers : ℕ
  pub idle_poppers : ℕ
  pub idle_pushers : ℕ
  pub notifying : ℕ

module _ {ℓ} {A : Type ℓ} where
  -- The queue is new and no thread has called it.
  abbrev pub no_threads : Threads A
  no_threads = record {
    queue = empty_queue;
    poppers = 0;
    pushers = 0;
    idle_poppers = 0;
    idle_pushers = 0;
    notifying = 0;
  }

  -- `cv_not_empty_.notify_one()`
  unfoldable pub notify_not_empty : Threads A → Threads A
  notify_not_empty w = record w {
    idle_poppers = w.idle_poppers - 1;
    poppers = if w.idle_poppers == 0 then w.poppers else w.poppers + 1;
  }

  -- `cv_not_full_.notify_one()`
  unfoldable pub notify_not_full : Threads A → Threads A
  notify_not_full w = record w {
    idle_pushers = w.idle_pushers - 1;
    pushers = if w.idle_pushers == 0 then w.pushers else w.pushers + 1;
  }

  -- The two `notify_all` of `shutdown`.
  unfoldable pub notify_all : Threads A → Threads A
  notify_all w = record w {
    poppers = w.poppers + w.idle_poppers;
    idle_poppers = 0;
    pushers = w.pushers + w.idle_pushers;
    idle_pushers = 0;
  }

  -- One step of one thread. What a call does under the mutex is one step, from the test of the predicate on. A
  -- sleeping thread may also wake for no reason.
  pub data Step (max_size : ℕ) : Threads A → Threads A → Type ℓ where
    call_pop : {w : Threads A} → Step max_size w (record w { poppers = w.poppers + 1 })
    call_push : {w : Threads A} → Step max_size w (record w { pushers = w.pushers + 1 })
    pop_waits :
        {w : Threads A} {n : ℕ}
        → w.poppers ≡ suc n
        → pop w.queue ≡ PopResult.waits
        → Step max_size w (record w { poppers = n; idle_poppers = w.idle_poppers + 1 })
    pop_ends :
        {w : Threads A} {n : ℕ}
        → w.poppers ≡ suc n
        → pop w.queue ≡ PopResult.ended
        → Step max_size w (record w { poppers = n })
    pops :
        (x : A) {w : Threads A} {n : ℕ} {q : Queue A}
        → w.poppers ≡ suc n
        → pop w.queue ≡ PopResult.got x q
        → Step max_size w (notify_not_full (record w { poppers = n; queue = q }))
    push_waits :
        (x : A) {w : Threads A} {n : ℕ}
        → w.pushers ≡ suc n
        → push max_size x w.queue ≡ none
        → Step max_size w (record w { pushers = n; idle_pushers = w.idle_pushers + 1 })
    pushes :
        (x : A) {w : Threads A} {n : ℕ} {q : Queue A}
        → w.pushers ≡ suc n
        → push max_size x w.queue ≡ some q
        → Step max_size w (notify_not_empty (record w { pushers = n; queue = q }))
    sets_stop :
        {w : Threads A}
        → Step max_size w (record w { queue = shutdown w.queue; notifying = w.notifying + 1 })
    notifies :
        {w : Threads A} {n : ℕ}
        → w.notifying ≡ suc n
        → Step max_size w (notify_all (record w { notifying = n }))
    popper_wakes :
        {w : Threads A} {n : ℕ}
        → w.idle_poppers ≡ suc n
        → Step max_size w (record w { idle_poppers = n; poppers = w.poppers + 1 })
    pusher_wakes :
        {w : Threads A} {n : ℕ}
        → w.idle_pushers ≡ suc n
        → Step max_size w (record w { idle_pushers = n; pushers = w.pushers + 1 })

  pub data Reachable (max_size : ℕ) : Threads A → Type ℓ where
    new : Reachable max_size no_threads
    then_step : {w v : Threads A} → Reachable max_size w → Step max_size w v → Reachable max_size v
