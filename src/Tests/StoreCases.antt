-- ===== src/Tests/StoreCases.antt =====
-- The node store of src/OSMMMap.cpp and the queue of src/main.cpp at concrete inputs.
use osmpgsqlimport.Prelude.{
  ℕ, ◌+◌, ◌/◌, ◌<◌, ◌≤◌, ◌≡◌, refl, ◌⊎◌, true, false, List, [], ◌∷◌, ◌++◌, length, replicate,
  flatten, Bytes, some, arith,
}
use osmpgsqlimport.Prelude.Word.{le_bytes}
use osmpgsqlimport.Store.Bitmap.{bitmap_set}
use osmpgsqlimport.Store.Shard.{
  Rec, rec_bytes, ok, ◌>>=◌, ShardWriter, insert_shard, grow_bitmap, append_rec, content,
}
use osmpgsqlimport.Store.Shard.Append.{insert_shard-content}
use osmpgsqlimport.Store.Merge.{Merged, Decompress, feed_all}
use osmpgsqlimport.Store.Merge.Chunks.{records, feed_all-records}
use osmpgsqlimport.Store.Merge.Slots.{select, IsValid}
use osmpgsqlimport.Store.NodeStore.{NodeStore, open_store, create_file, merge}
use osmpgsqlimport.Store.NodeStore.NodePhase.{run_inserts, last_for, logs_of}
use osmpgsqlimport.Store.NodeStore.EndToEnd.{select-merge-inserts}
use osmpgsqlimport.Queue.{Queue, empty_queue, push, PopResult, pop, shutdown, size}
use osmpgsqlimport.Queue.Waiting.{Threads, no_threads, Reachable}
use osmpgsqlimport.Queue.Waiting.Laws.{no_deadlock}
use osmpgsqlimport.Queue.Waiting.{Step as WaitStep}
use osmpgsqlimport.Queue.Runs.{Event, Run, Step, pushes, pops, was_shut_down, run-fifo, run-bounded}

-- Each chunk of the frame in one piece.
abbrev whole : Decompress
whole frame = frame

abbrev log : List (ℕ × Rec)
log =
    (0, record { id = 3; lon_m = 10; lat_m = 20 })
    ∷ (1, record { id = 5; lon_m = 30; lat_m = 40 })
    ∷ (0, record { id = 3; lon_m = 11; lat_m = 21 })
    ∷ []

select-merge-inserts_example :
    (st : NodeStore) × ((do opened ← open_store (create_file 7 2) 7 2 true; run_inserts opened log)
      ≡ ok st)
    × (select (merge whole st).merged 3 ≡ last_for 3 (flatten (logs_of (replicate 2 []) log)))
select-merge-inserts_example =
    select-merge-inserts whole 7 2 log 3 (λ frame. refl) (omega arith)
      (
        omega arith,
        (omega arith, omega arith, omega arith),
        (
          omega arith,
          (omega arith, omega arith, omega arith),
          (omega arith, (omega arith, omega arith, omega arith), tt),
        ),
      )
      (omega arith)

-- What `merge` writes, as a list.
abbrev write : List Rec → Rec → List Rec
write rs r = rs ++ r ∷ []

abbrev pieces : List Bytes
pieces = replicate 10 1 ∷ replicate 20 2 ∷ []

feed_all-records_example :
    feed_all write ([], 7 ∷ []) pieces ≡ records write [] ((7 ∷ []) ++ flatten pieces)
feed_all-records_example = feed_all-records write pieces [] (7 ∷ []) (omega arith)

abbrev two_slots : Merged
two_slots = record { slots = (0, 0) ∷ (5, 6) ∷ []; bm = 2 ∷ [] }

two_slots-IsValid : IsValid two_slots
two_slots-IsValid = record { bytes = (omega arith, tt); covers = refl; few = omega arith }

abbrev first_rec : Rec
first_rec = record { id = 0; lon_m = 8; lat_m = 9 }

abbrev shard : ShardWriter
shard = record {
  is_open = true;
  file = some [];
  bmp_exists = true;
  inbuf = [];
  bm = 0 ∷ [];
  chunks_since_sync = 0;
}

abbrev grown : ShardWriter
grown = record shard { inbuf = rec_bytes first_rec; bm = bitmap_set (0 ∷ []) 0 }

insert_first : insert_shard shard first_rec ≡ ok grown
unfolding insert_shard grow_bitmap append_rec rec_bytes le_bytes
insert_first = refl

insert_shard-content_example :
    (content grown ≡ content shard ++ rec_bytes first_rec)
    × (0 / 8 < length grown.bm)
    × (grown.is_open ≡ shard.is_open)
insert_shard-content_example = insert_shard-content shard grown first_rec insert_first

-- A queue of one place: a push, a pop, the shutdown and the end.
abbrev events : List (Event ℕ)
events = Event.pushed 4 ∷ Event.popped 4 ∷ Event.shut_down ∷ Event.pop_ended ∷ []

abbrev stopped_queue : Queue ℕ
stopped_queue = record { q = []; stop = true }

events-Run : Run 1 events empty_queue stopped_queue
unfolding push pop shutdown
events-Run = Run.next (Step.on_push refl) (
    Run.next (Step.on_pop refl) (Run.next Step.on_shutdown (Run.next (Step.on_end refl) Run.start)))

run-fifo_example : pushes events ≡ pops events ++ []
run-fifo_example = run-fifo events-Run

ended : pop stopped_queue ≡ PopResult.ended
unfolding pop
ended = refl

abbrev one_push : List (Event ℕ)
one_push = Event.pushed 4 ∷ []

one_push-Run : Run 1 one_push empty_queue (record { q = 4 ∷ []; stop = false })
unfolding push
one_push-Run = Run.next (Step.on_push refl) Run.start

not_shut : was_shut_down one_push ≡ false
unfolding was_shut_down
not_shut = refl

run-bounded_example : size {A = ℕ} (record { q = 4 ∷ []; stop = false }) ≤ 1
run-bounded_example = run-bounded one_push-Run not_shut

-- A thread calls `pop` on the new queue and falls asleep.
abbrev one_sleeps : Threads ℕ
one_sleeps = record no_threads { idle_poppers = 1 }

one_sleeps-Reachable : Reachable 2 one_sleeps
unfolding pop
one_sleeps-Reachable =
    Reachable.then_step (Reachable.then_step Reachable.new WaitStep.call_pop)
      (WaitStep.pop_waits refl refl)

no_deadlock_example :
    (one_sleeps.idle_poppers + one_sleeps.idle_pushers ≡ 0)
    ⊎ ((one_sleeps.queue.stop ≡ false)
        × (((length one_sleeps.queue.q ≡ 0) × (one_sleeps.idle_pushers ≡ 0))
            ⊎ ((2 ≤ length one_sleeps.queue.q) × (one_sleeps.idle_poppers ≡ 0))))
no_deadlock_example = no_deadlock one_sleeps-Reachable (omega arith) refl refl refl

two_items : size {A = ℕ} (record { q = 4 ∷ 5 ∷ []; stop = false }) < 3
unfolding size
two_items = omega arith
