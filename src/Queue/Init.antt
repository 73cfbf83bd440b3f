-- ===== src/Queue/Init.antt =====
-- mpmc_queue.h, the constructor: its checks of the size, and the loop that numbers the slots.
pub mod Widths
pub mod Fresh
use lockfree_mpmc_queue.Base.{
  ℕ, zero, suc, ◌+◌, ◌-◌, ◌/◌, ◌^◌, Bool, true, false, ◌||◌, List, Option, none, some, ◌==◌, ltb,
  leb, if◌then◌else◌, set, bit_and, replicate,
}
use lockfree_mpmc_queue.Base.Word.{cast}
use lockfree_mpmc_queue.Queue.{Config, Queue, Entry, cleared, entry_of_seq, empty_seq, slot_index}

-- `while (n != 0) { b++; n >>= 1U; }`; `none` means that the fuel ran out.
unfoldable pub bits_loop : ℕ → ℕ → ℕ → Option ℕ
bits_loop zero n b = none
bits_loop (suc fuel) n b =
    let rest = bits_loop fuel (n / 2) (b + 1) in if n == 0 then some b else rest

-- `bits_for_value(unsigned n)`: the call narrows its argument to 32 bits, and a round halves it.
unfoldable pub bits_for_value : ℕ → Option ℕ
bits_for_value n = bits_loop 33 (cast 32 n) 0

-- `n & (n - 1)` on a `uint64_t`
abbrev pub clear_lowest : ℕ → ℕ
clear_lowest n = bit_and n (cast 64 (n + 2 ^ 64 - 1))

-- The check of the constructor's argument where the size is not a template parameter.
unfoldable pub bad_size : ℕ → ℕ → Option Bool
bad_size bits n = elim (bits_for_value n) [
  | none ↦ none
  | some b ↦ some ((if clear_lowest n == 0 then false else true) || leb bits b)
]

-- `for (index_type i = 0; i < _array.size(); ++i) _array[i].set_seq(i << 1);`
unfoldable pub number_slots : ℕ → Config → ℕ → List Entry → Option (List Entry)
number_slots zero c i array = none
number_slots (suc fuel) c i array =
    let rest =
      number_slots fuel c (cast c.bits (i + 1))
        (set array (slot_index c i) (entry_of_seq (empty_seq c i))) in
    if ltb i c.size then rest else some array

pub data Construction : Type 0 where
  throws : Construction
  builds : Queue → Construction

-- The member initialisers, with an array of default entries, and the loop.
unfoldable pub build : ℕ → Config → Option Construction
build fuel c = elim (number_slots fuel c 0 (replicate c.size cleared)) [
  | none ↦ none
  | some array ↦
      some (builds (record { config = c; write_index = 0; read_index = 0; array = array }))
]

-- `mpmc_queue(n)` with the template's size `template_size`, which is 0 if the size is set at run
-- time. `none` means that the fuel ran out.
unfoldable pub construct : ℕ → ℕ → Config → Option Construction
construct fuel template_size c =
    if template_size == 0
    then elim (bad_size c.bits c.size) [
      | none ↦ none
      | some true ↦ some throws
      | some false ↦ build fuel c
    ]
    else (if c.size == template_size then build fuel c else some throws)
