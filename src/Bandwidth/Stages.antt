-- ===== src/Bandwidth/Stages.antt =====
-- How far a thread of a run has come, and what it has counted.
use lockfree_mpmc_queue.Base.{ℕ}
use lockfree_mpmc_queue.Bandwidth.{
  Writer, Reader, Main, clearing, gathering, gathering_producers, opening, closing,
  awaiting_producers, finishing, awaiting_consumers, adding, done, aborted,
}

abbrev pub writer_stage : Writer → ℕ
writer_stage Writer.starting = 0
writer_stage Writer.waiting = 1
writer_stage (Writer.testing c) = 2
writer_stage (Writer.pushing c) = 2
writer_stage (Writer.storing c) = 2
writer_stage Writer.leaving = 3
writer_stage Writer.ended = 4

-- What a writer has pushed, by its own count or by what it stored.
abbrev pub made : Writer → ℕ → ℕ
made Writer.starting k = 0
made Writer.waiting k = 0
made (Writer.testing c) k = c
made (Writer.pushing c) k = c
made (Writer.storing c) k = c
made Writer.leaving k = k
made Writer.ended k = k

abbrev pub writer_there : Writer → ℕ → ℕ
writer_there Writer.starting k = 0
writer_there Writer.ended k = 0
writer_there other k = 1

abbrev pub reader_stage : Reader → ℕ
reader_stage Reader.starting = 0
reader_stage Reader.waiting = 1
reader_stage (Reader.asking_state c) = 2
reader_stage (Reader.popping c) = 2
reader_stage (Reader.asking_producers c) = 3
reader_stage (Reader.asking_queue c) = 4
reader_stage (Reader.storing c) = 5
reader_stage Reader.leaving = 5
reader_stage Reader.ended = 6

abbrev pub taken : Reader → ℕ → ℕ
taken Reader.starting k = 0
taken Reader.waiting k = 0
taken (Reader.asking_state c) k = c
taken (Reader.popping c) k = c
taken (Reader.asking_producers c) k = c
taken (Reader.asking_queue c) k = c
taken (Reader.storing c) k = c
taken Reader.leaving k = k
taken Reader.ended k = k

abbrev pub reader_there : Reader → ℕ → ℕ
reader_there Reader.starting k = 0
reader_there Reader.ended k = 0
reader_there other k = 1

abbrev pub phase : Main → ℕ
phase clearing = 0
phase gathering = 1
phase gathering_producers = 2
phase opening = 3
phase closing = 4
phase awaiting_producers = 5
phase finishing = 6
phase awaiting_consumers = 7
phase adding = 8
phase (done a b) = 9
phase aborted = 7

-- `_state` in each phase.
abbrev pub state_at : Main → ℕ
state_at closing = 1
state_at awaiting_producers = 2
state_at finishing = 2
state_at awaiting_consumers = 4
state_at adding = 4
state_at (done a b) = 4
state_at aborted = 4
state_at early = 0
