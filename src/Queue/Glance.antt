-- ===== src/Queue/Glance.antt =====
-- mpmc_queue.h, the operations of a single access: `exchange`, `empty`, `size`, `capacity`,
-- and the numbers that `dump_state` prints.
pub mod Size
pub mod Exchange
pub mod Counted
use lockfree_mpmc_queue.Base.{
  ℕ, ◌+◌, ◌-◌, ◌^◌, ◌%◌, Bool, true, false, List, [], ◌∷◌, bit_and, ◌==◌, leb, if◌then◌else◌,
}
use lockfree_mpmc_queue.Base.Word.{cast}
use lockfree_mpmc_queue.Queue.{
  Config, Entry, Queue, entry_of, slot, compare_exchange, empty_seq, full_seq,
}

-- `exchange(i, old_value, new_value)`
unfoldable pub exchange : Queue → ℕ → ℕ → ℕ → Bool × Queue
exchange q i old_value new_value =
    compare_exchange q i (entry_of (full_seq q.config i) old_value)
      (entry_of (full_seq q.config i) new_value)

unfoldable pub is_empty : Queue → Bool
is_empty q = let rd = q.read_index in (slot q rd).seq == empty_seq q.config rd

-- The differences are taken in `size_t`, of 64 bits.
unfoldable pub size_now : Queue → ℕ
size_now q =
    if is_empty q
    then 0
    else if leb q.read_index q.write_index
    then q.write_index - q.read_index
    else cast 64 (q.write_index + q.size + 2 ^ 64 - q.read_index)

abbrev pub capacity : Queue → ℕ
capacity q = q.size

-- `data_entries_count`: the entries whose sequence is odd, in `unsigned`.
abbrev pub odd_entries : List Entry → ℕ
odd_entries [] = 0
odd_entries (e ∷ entries) = bit_and e.seq 1 + odd_entries entries

unfoldable pub data_entries_count : Queue → ℕ
data_entries_count q = cast 32 (odd_entries q.array)

-- `index & ~(1UL << (bits_in_index() - 1))`: an index without its top bit.
abbrev pub effective_index : Config → ℕ → ℕ
effective_index c i = i % 2 ^ (c.bits - 1)

-- `indexdiff`, an `index_type`
unfoldable pub index_difference : Queue → ℕ
index_difference q =
    let wr = effective_index q.config q.write_index in
    let rd = effective_index q.config q.read_index in
    if leb rd wr then wr - rd else cast q.bits (wr + q.size + 2 ^ q.bits - rd)
