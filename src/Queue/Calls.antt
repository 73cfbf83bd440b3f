-- ===== src/Queue/Calls.antt =====
-- mpmc_queue.h, the operations that call `push` and `pop` in a loop: `push_keep_n`, `consume`, the
-- destructor, and the convenience names.
pub mod KeepN
pub mod Consume
use lockfree_mpmc_queue.Base.{
  ℕ, zero, suc, ◌+◌, Bool, true, false, Option, none, some, if◌then◌else◌,
}
use lockfree_mpmc_queue.Base.Word.{cast}
use lockfree_mpmc_queue.Base.Loop.{◌>>=◌}
use lockfree_mpmc_queue.Queue.{Queue}
use lockfree_mpmc_queue.Queue.Push.{push, push_index}
use lockfree_mpmc_queue.Queue.Pop.{pop, pop_index}

-- `enqueue(d)` and `dequeue(d)`
abbrev pub enqueue : ℕ → Queue → ℕ → Option (Bool × Queue)
enqueue = push

abbrev pub dequeue : ℕ → Queue → Option (Option ℕ × Queue)
dequeue = pop

-- `push_keep_n(d)`: each round pushes, and where the push is refused drops the oldest element.
-- `inner` is the fuel of the loops inside `push` and `pop`.
unfoldable pub push_keep_n : ℕ → ℕ → Queue → ℕ → Option (Bool × Queue)
push_keep_n inner zero q d = none
push_keep_n inner (suc fuel) q d = do
  (done, q') ← push inner q d
  elim done [
    | true ↦ some (true, q')
    | false ↦ do (lost, q'') ← pop inner q'; push_keep_n inner fuel q'' d
  ]

-- `push_keep_n(d, i)`: the result is what the call stores in `i`.
unfoldable pub push_keep_n_index : ℕ → ℕ → Queue → ℕ → Option (ℕ × Queue)
push_keep_n_index inner zero q d = none
push_keep_n_index inner (suc fuel) q d = do
  (done, q') ← push_index inner q d
  elim done [
    | some i ↦ some (i, q')
    | none ↦ do (lost, q'') ← pop inner q'; push_keep_n_index inner fuel q'' d
  ]

-- `consume(f)`: `stop` is the result of the functor; `r` counts in a `uint64_t`.
unfoldable pub consume_from : ℕ → ℕ → (ℕ → ℕ → Bool) → Queue → ℕ → Option (ℕ × Queue)
consume_from inner zero stop q r = none
consume_from inner (suc fuel) stop q r = do
  (got, q') ← pop_index inner q
  elim got [
    | none ↦ some (r, q')
    | some (v, i) ↦ elim (stop v i) [
      | true ↦ some (cast 64 (r + 1), q')
      | false ↦ consume_from inner fuel stop q' (cast 64 (r + 1))
    ]
  ]

unfoldable pub consume : ℕ → ℕ → (ℕ → ℕ → Bool) → Queue → Option (ℕ × Queue)
consume inner fuel stop q = consume_from inner fuel stop q 0

-- `~mpmc_queue()`: pops until the queue is empty.
unfoldable pub destroy : ℕ → ℕ → Queue → Option Queue
destroy inner zero q = none
destroy inner (suc fuel) q = do
  (got, q') ← pop inner q
  elim got [ none ↦ some q' | some v ↦ destroy inner fuel q' ]
