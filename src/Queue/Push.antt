-- ===== src/Queue/Push.antt =====
-- mpmc_queue.h, the producer's operations. Each `while (true)` is a loop on fuel over one pass of
-- its body.
pub mod Cases
pub mod Current
pub mod Result
pub mod Overloads
use lockfree_mpmc_queue.Base.{
  ℕ, zero, suc, ◌+◌, ◌*◌, Bool, true, false, ◌||◌, Option, none, some, ◌==◌, if◌then◌else◌,
}
use lockfree_mpmc_queue.Base.Word.{cast}
use lockfree_mpmc_queue.Base.Loop.{Pass, again, return, forever}
use lockfree_mpmc_queue.Queue.{
  Config, Queue, Entry, entry_of, entry_of_seq, slot, compare_exchange, advance_write, empty_seq,
  full_seq,
}

-- What `push` does next, by the sequence that it read from the slot of `wr`.
pub data PushCase : Type 0 where
  insert : PushCase  -- the slot is free for this write
  help : PushCase  -- the write is done and the index lags
  refuse : PushCase  -- the slot holds the element of one turn before: the queue is full
  reload : PushCase

unfoldable pub push_case : Config → ℕ → ℕ → PushCase
push_case c wr seq =
    if seq == empty_seq c wr
    then insert
    else if seq == full_seq c wr || seq == empty_seq c (wr + c.size)
    then help
    else if cast c.bits (seq + c.size * 2) == full_seq c wr
    then refuse
    else reload

-- The exchange of a free slot for a filled one.
unfoldable pub fill : Queue → ℕ → ℕ → Bool × Queue
fill q wr d =
    compare_exchange q wr (entry_of_seq (empty_seq q.config wr)) (entry_of (full_seq q.config wr) d)

-- `if constexpr (!lazy_push)`
unfoldable pub settle_write : Queue → ℕ → Queue
settle_write q wr = if q.lazy_push then q else advance_write q wr

unfoldable pub push_pass : ℕ → Queue → Pass Bool × Queue
push_pass d q =
    let wr = q.write_index in
    let seq = (slot q wr).seq in
    elim (push_case q.config wr seq) [
      | insert ↦
          let (won, q') = fill q wr d in
          if won then (return true, settle_write q' wr) else (again, q')
      | help ↦ (again, advance_write q wr)
      | refuse ↦ (return false, q)
      | reload ↦ (again, q)
    ]

-- `push(d)`; `none` means that the fuel ran out.
unfoldable pub push : ℕ → Queue → ℕ → Option (Bool × Queue)
push fuel q d = forever fuel (push_pass d) q

-- `push(d, i)`: the result is what the call stores in `i`, if it returns true.
unfoldable pub push_index_pass : ℕ → Queue → Pass (Option ℕ) × Queue
push_index_pass d q =
    let wr = q.write_index in
    let seq = (slot q wr).seq in
    elim (push_case q.config wr seq) [
      | insert ↦
          let (won, q') = fill q wr d in
          if won then (return (some wr), settle_write q' wr) else (again, q')
      | help ↦ (again, advance_write q wr)
      | refuse ↦ (return none, q)
      | reload ↦ (again, q)
    ]

unfoldable pub push_index : ℕ → Queue → ℕ → Option (Option ℕ × Queue)
push_index fuel q d = forever fuel (push_index_pass d) q
