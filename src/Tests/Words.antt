-- ===== src/Tests/Words.antt =====
-- Entries as machine words.
use lockfree_mpmc_queue.Base.{◌≡◌, arith, ◌==◌}
use lockfree_mpmc_queue.Queue.{entry_of, same_entry}
use lockfree_mpmc_queue.Queue.Words.{Packing, entry_in, word_of, word_of-same_entry}

-- A value of three bytes, a byte of padding, and an index of four.
abbrev three_bytes : Packing
three_bytes = record { data_bits = 24; gap = 8; seq_bits = 32 }

word_of-same_entry_example :
    ((word_of three_bytes (entry_of 7 255) == word_of three_bytes (entry_of 9 255))
      ≡ same_entry (entry_of 7 255) (entry_of 9 255))
    × (entry_in three_bytes (word_of three_bytes (entry_of 7 255)) ≡ entry_of 7 255)
word_of-same_entry_example =
    word_of-same_entry three_bytes (entry_of 7 255) (entry_of 9 255) (omega arith, omega arith)
      (omega arith, omega arith)
