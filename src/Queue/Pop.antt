-- ===== src/Queue/Pop.antt =====
-- mpmc_queue.h, the consumer's operations that remove an element.
pub mod Cases
pub mod Current
pub mod Result
pub mod Overloads
use lockfree_mpmc_queue.Base.{
  ℕ, ◌+◌, Bool, true, false, Option, none, some, ◌==◌, if◌then◌else◌, bit_or,
}
use lockfree_mpmc_queue.Base.Word.{cast}
use lockfree_mpmc_queue.Base.Loop.{Pass, again, return, forever}
use lockfree_mpmc_queue.Queue.{
  Config, Queue, Entry, entry_of_seq, slot, compare_exchange, advance_read, empty_seq, full_seq,
}

-- What a consumer does next, by the sequence that it read from the slot of `rd`.
pub data PopCase : Type 0 where
  take : PopCase  -- the slot holds the element of this read
  help : PopCase  -- the read is done and the index lags
  refuse : PopCase  -- the slot waits for this write: the queue is empty
  reload : PopCase

unfoldable pub pop_case : Config → ℕ → ℕ → PopCase
pop_case c rd seq =
    if seq == full_seq c rd
    then take
    else if cast c.bits (bit_or seq 1) == full_seq c (rd + c.size)
    then help
    else if seq == empty_seq c rd
    then refuse
    else reload

-- The exchange of the entry that was read for one that waits for the write a turn later.
unfoldable pub drain : Queue → ℕ → Entry → Bool × Queue
drain q rd e = compare_exchange q rd e (entry_of_seq (empty_seq q.config (rd + q.size)))

-- `if constexpr (!lazy_pop)`
unfoldable pub settle_read : Queue → ℕ → Queue
settle_read q rd = if q.lazy_pop then q else advance_read q rd

-- `pop(d)` loads the index before its loop and at the end of each round.
unfoldable pub pop_pass : ℕ × Queue → Pass (Option ℕ) × (ℕ × Queue)
pop_pass (rd, q) =
    let e = slot q rd in
    elim (pop_case q.config rd e.seq) [
      | take ↦
          let (won, q') = drain q rd e in
          if won
          then (return (some e.item), (rd, settle_read q' rd))
          else (again, (q'.read_index, q'))
      | help ↦ let q' = advance_read q rd in (again, (q'.read_index, q'))
      | refuse ↦ (return none, (rd, q))
      | reload ↦ (again, (q.read_index, q))
    ]

-- What the loop leaves for the caller; its index is a local variable.
abbrev pub drop_local : Option (Option ℕ × (ℕ × Queue)) → Option (Option ℕ × Queue)
drop_local none = none
drop_local (some (d, (rd, q))) = some (d, q)

unfoldable pub pop : ℕ → Queue → Option (Option ℕ × Queue)
pop fuel q = drop_local (forever fuel pop_pass (q.read_index, q))

-- `pop(d, i)`: the result is what the call stores in `d` and `i`, if it returns true.
unfoldable pub pop_index_pass : Queue → Pass (Option (ℕ × ℕ)) × Queue
pop_index_pass q =
    let rd = q.read_index in
    let e = slot q rd in
    elim (pop_case q.config rd e.seq) [
      | take ↦
          let (won, q') = drain q rd e in
          if won then (return (some (e.item, rd)), settle_read q' rd) else (again, q')
      | help ↦ (again, advance_read q rd)
      | refuse ↦ (return none, q)
      | reload ↦ (again, q)
    ]

unfoldable pub pop_index : ℕ → Queue → Option (Option (ℕ × ℕ) × Queue)
pop_index fuel q = forever fuel pop_index_pass q
