-- ===== src/Queue/Peek.antt =====
-- mpmc_queue.h, the consumer's operations that look at the oldest element first: `peek`, `pop_if`.
pub mod Cases
pub mod Result
pub mod Stuck
pub mod Overloads
use lockfree_mpmc_queue.Base.{
  ℕ, ◌+◌, ◌/◌, Bool, true, false, Option, none, some, ◌==◌, if◌then◌else◌,
}
use lockfree_mpmc_queue.Base.Word.{cast}
use lockfree_mpmc_queue.Base.Loop.{Pass, again, return, forever}
use lockfree_mpmc_queue.Queue.{Config, Queue, slot, advance_read, empty_seq, full_seq}
use lockfree_mpmc_queue.Queue.Pop.{PopCase, take, help, refuse, reload, drain, settle_read}

-- What `peek` does next. Unlike `pop` it compares the halves of the sequences: `e.get_seq() >> 1`
-- with `rd_index + size`.
unfoldable pub peek_case : Config → ℕ → ℕ → PopCase
peek_case c rd seq =
    if seq == empty_seq c rd
    then refuse
    else if seq == full_seq c rd
    then take
    else if cast c.bits (seq / 2) == cast c.bits (rd + c.size)
    then help
    else reload

-- `peek(d)`
unfoldable pub peek_pass : Queue → Pass (Option ℕ) × Queue
peek_pass q =
    let rd = q.read_index in
    let e = slot q rd in
    elim (peek_case q.config rd e.seq) [
      | take ↦ (return (some e.item), q)
      | help ↦ (again, advance_read q rd)
      | refuse ↦ (return none, q)
      | reload ↦ (again, q)
    ]

unfoldable pub peek : ℕ → Queue → Option (Option ℕ × Queue)
peek fuel q = forever fuel peek_pass q

-- `peek(d, i)` stores the sequence of the entry in `i`.
unfoldable pub peek_index_pass : Queue → Pass (Option (ℕ × ℕ)) × Queue
peek_index_pass q =
    let rd = q.read_index in
    let e = slot q rd in
    elim (peek_case q.config rd e.seq) [
      | take ↦ (return (some (e.item, e.seq)), q)
      | help ↦ (again, advance_read q rd)
      | refuse ↦ (return none, q)
      | reload ↦ (again, q)
    ]

unfoldable pub peek_index : ℕ → Queue → Option (Option (ℕ × ℕ) × Queue)
peek_index fuel q = forever fuel peek_index_pass q

-- `pop_if(f, d)`: the condition is given the element and the sequence of its entry.
unfoldable pub pop_if_pass : (ℕ → ℕ → Bool) → Queue → Pass (Option ℕ) × Queue
pop_if_pass f q =
    let rd = q.read_index in
    let e = slot q rd in
    elim (peek_case q.config rd e.seq) [
      | take ↦
          let (won, q') = drain q rd e in
          if f e.item e.seq
          then (if won then (return (some e.item), settle_read q' rd) else (again, q'))
          else (return none, q)
      | help ↦ (again, advance_read q rd)
      | refuse ↦ (return none, q)
      | reload ↦ (again, q)
    ]

unfoldable pub pop_if : ℕ → (ℕ → ℕ → Bool) → Queue → Option (Option ℕ × Queue)
pop_if fuel f q = forever fuel (pop_if_pass f) q
