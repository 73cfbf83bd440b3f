-- ===== src/Queue.antt =====
-- mpmc_queue.h, the data: entries, the array of slots, the two indexes, and the atomic operations
-- on them. A value of `value_type` is its bit pattern, a number; zero is the cleared pattern.
pub mod Shape
pub mod Atomic
pub mod Serves
pub mod Push
pub mod Pop
pub mod Init
pub mod Peek
pub mod Calls
pub mod Glance
pub mod Client
pub mod Words
use lockfree_mpmc_queue.Base.{
  ℕ, ◌+◌, ◌-◌, ◌*◌, Bool, true, false, ◌&&◌, List, ◌==◌, if◌then◌else◌, get_or, set, bit_and,
  bit_or,
}
use lockfree_mpmc_queue.Base.Word.{cast}
use lockfree_mpmc_queue.Base.Loop.{Pass, again, return}

-- The template parameters, with the size that the constructor fixes: `bits` is `bits_in_index()`.
pub record Config : Type 0 where
  pub bits : ℕ
  pub size : ℕ
  pub lazy_push : Bool
  pub lazy_pop : Bool

-- `entry::entry_data`
pub record Entry : Type 0 where
  pub item : ℕ
  pub seq : ℕ

-- `entry()`, `entry(s)` and `entry(s, d)`: all clear the whole value first.
abbrev pub cleared : Entry
cleared = record { item = 0; seq = 0 }

abbrev pub entry_of_seq : ℕ → Entry
entry_of_seq s = record cleared { seq = s }

abbrev pub entry_of : ℕ → ℕ → Entry
entry_of s d = record cleared { item = d; seq = s }

-- `entry::is_full`
unfoldable pub is_full : Entry → Bool
is_full e = elim (bit_and e.seq 1 == 0) [ true ↦ false | false ↦ true ]

-- Entries are compared as one machine value: data and sequence together.
abbrev pub same_entry : Entry → Entry → Bool
same_entry e f = e.item == f.item && e.seq == f.seq

pub record Queue : Type 0 where
  pub config : Config
  pub open config use *
  pub write_index : ℕ
  pub read_index : ℕ
  pub array : List Entry

-- `_array[index]`: the mask keeps the access inside an array whose size is a power of two.
abbrev pub slot_index : Config → ℕ → ℕ
slot_index c i = bit_and i (c.size - 1)

-- `_array[index].load()`
unfoldable pub slot : Queue → ℕ → Entry
slot q i = get_or q.array (slot_index q.config i) cleared

-- `_array[index].compare_exchange(expected, new_value)`
unfoldable pub compare_exchange : Queue → ℕ → Entry → Entry → Bool × Queue
unfolding slot
compare_exchange q i expected new_value =
    if same_entry (slot q i) expected
    then (true, record q { array = set q.array (slot_index q.config i) new_value })
    else (false, q)

-- `_write_index.compare_exchange_strong(wr_index, wr_index + 1)`
unfoldable pub advance_write : Queue → ℕ → Queue
advance_write q wr =
    if q.write_index == wr then record q { write_index = cast q.bits (wr + 1) } else q

-- `_read_index.compare_exchange_strong(rd_index, rd_index + 1)`
unfoldable pub advance_read : Queue → ℕ → Queue
advance_read q rd = if q.read_index == rd then record q { read_index = cast q.bits (rd + 1) } else q

-- `static_cast<index_type>(i << 1)`: the sequence of an empty entry, waiting for write `i`
abbrev pub empty_seq : Config → ℕ → ℕ
empty_seq c i = cast c.bits (i * 2)

-- `static_cast<index_type>((i << 1) | 1U)`: the sequence of the entry that write `i` filled
abbrev pub full_seq : Config → ℕ → ℕ
full_seq c i = cast c.bits (bit_or (i * 2) 1)
