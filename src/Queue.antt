-- ===== src/Queue.antt =====
-- `BlockingQueue` of src/main.cpp, the bounded queue between the reader and the worker threads. The
-- mutex makes each call one step once the predicate of its wait holds; the waits and the notifications of the
-- condition variables are in Waiting. `max_size_` is the parameter of the operations.
pub mod Runs
pub mod Waiting
use osmpgsqlimport.Prelude.{
  ℕ, zero, suc, Bool, true, false, ◌||◌, List, [], ◌∷◌, ◌++◌, ltb, if◌then◌else◌, length, Option,
  none, some,
}

pub record Queue {ℓ} (A : Type ℓ) : Type ℓ where
  pub q : List A
  pub stop : Bool

-- What a call of `pop` comes to: it waits, it returns false, or it returns true with the item.
pub data PopResult {ℓ} (A : Type ℓ) : Type ℓ where
  waits ended : PopResult A
  got : A → Queue A → PopResult A

module _ {ℓ} {A : Type ℓ} where
  -- The constructor.
  abbrev pub empty_queue : Queue A
  empty_queue = record { q = []; stop = false }

  -- The predicate that `push` waits for.
  unfoldable pub has_room : ℕ → Queue A → Bool
  has_room max_size s = ltb (length s.q) max_size || s.stop

  -- `push`, `none` while it waits.
  unfoldable pub push : ℕ → A → Queue A → Option (Queue A)
  unfolding has_room
  push max_size item s =
      if has_room max_size s then some (record s { q = s.q ++ item ∷ [] }) else none

  -- `pop`
  unfoldable pub pop : Queue A → PopResult A
  pop s = elim s.q [
    | [] ↦ if s.stop then PopResult.ended else PopResult.waits
    | out ∷ rest ↦ PopResult.got out (record s { q = rest })
  ]

  -- `shutdown`
  unfoldable pub shutdown : Queue A → Queue A
  shutdown s = record s { stop = true }

  -- `size`
  unfoldable pub size : Queue A → ℕ
  size s = length s.q

  -- A worker's loop `while (queue.pop(item))`, with no other thread left to run: the items that it takes
  -- and whether it has ended. Each round takes an item, so one more round than items is enough fuel.
  unfoldable pub drain : ℕ → Queue A → List A × Bool
  drain zero s = ([], false)
  drain (suc fuel) s = elim (pop s) [
    | waits ↦ ([], false)
    | ended ↦ ([], true)
    | got item rest ↦ let (items, done) = drain fuel rest in (item ∷ items, done)
  ]
