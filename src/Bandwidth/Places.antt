-- ===== src/Bandwidth/Places.antt =====
-- What the places of a writer and of a reader say of its count.
use lockfree_mpmc_queue.Base.{ℕ, ◌≤◌, ◌≡◌, refl, arith}
use lockfree_mpmc_queue.Bandwidth.{Writer, Reader}
use lockfree_mpmc_queue.Bandwidth.Stages.{
  writer_stage, made, writer_there, reader_stage, taken, reader_there,
}

-- One thread counts at most once.
pub writer_there_one : (p : Writer) (k : ℕ) → writer_there p k ≤ 1
writer_there_one Writer.starting k = omega arith
writer_there_one Writer.waiting k = omega arith
writer_there_one (Writer.testing c) k = omega arith
writer_there_one (Writer.pushing c) k = omega arith
writer_there_one (Writer.storing c) k = omega arith
writer_there_one Writer.leaving k = omega arith
writer_there_one Writer.ended k = omega arith

pub reader_there_one : (p : Reader) (k : ℕ) → reader_there p k ≤ 1
reader_there_one Reader.starting k = omega arith
reader_there_one Reader.waiting k = omega arith
reader_there_one (Reader.asking_state c) k = omega arith
reader_there_one (Reader.popping c) k = omega arith
reader_there_one (Reader.asking_producers c) k = omega arith
reader_there_one (Reader.asking_queue c) k = omega arith
reader_there_one (Reader.storing c) k = omega arith
reader_there_one Reader.leaving k = omega arith
reader_there_one Reader.ended k = omega arith

-- A thread that is counted has come, and one that has come and is not counted has ended.
pub writer_came : (p : Writer) (k : ℕ) → writer_there p k ≡ 1 → 1 ≤ writer_stage p
writer_came Writer.starting k e = absurd (omega arith)
writer_came Writer.waiting k e = omega arith
writer_came (Writer.testing c) k e = omega arith
writer_came (Writer.pushing c) k e = omega arith
writer_came (Writer.storing c) k e = omega arith
writer_came Writer.leaving k e = omega arith
writer_came Writer.ended k e = omega arith

pub writer_gone :
    (p : Writer) (k : ℕ) → writer_there p k ≡ 0 → 1 ≤ writer_stage p → writer_stage p ≡ 4
writer_gone Writer.starting k e h = absurd (omega arith)
writer_gone Writer.waiting k e h = absurd (omega arith)
writer_gone (Writer.testing c) k e h = absurd (omega arith)
writer_gone (Writer.pushing c) k e h = absurd (omega arith)
writer_gone (Writer.storing c) k e h = absurd (omega arith)
writer_gone Writer.leaving k e h = absurd (omega arith)
writer_gone Writer.ended k e h = refl

pub reader_came : (p : Reader) (k : ℕ) → reader_there p k ≡ 1 → 1 ≤ reader_stage p
reader_came Reader.starting k e = absurd (omega arith)
reader_came Reader.waiting k e = omega arith
reader_came (Reader.asking_state c) k e = omega arith
reader_came (Reader.popping c) k e = omega arith
reader_came (Reader.asking_producers c) k e = omega arith
reader_came (Reader.asking_queue c) k e = omega arith
reader_came (Reader.storing c) k e = omega arith
reader_came Reader.leaving k e = omega arith
reader_came Reader.ended k e = omega arith

pub reader_gone :
    (p : Reader) (k : ℕ) → reader_there p k ≡ 0 → 1 ≤ reader_stage p → reader_stage p ≡ 6
reader_gone Reader.starting k e h = absurd (omega arith)
reader_gone Reader.waiting k e h = absurd (omega arith)
reader_gone (Reader.asking_state c) k e h = absurd (omega arith)
reader_gone (Reader.popping c) k e h = absurd (omega arith)
reader_gone (Reader.asking_producers c) k e h = absurd (omega arith)
reader_gone (Reader.asking_queue c) k e h = absurd (omega arith)
reader_gone (Reader.storing c) k e h = absurd (omega arith)
reader_gone Reader.leaving k e h = absurd (omega arith)
reader_gone Reader.ended k e h = refl

-- Before the start nothing is counted, and at the end each thread's count is what it stored.
pub made_early : (p : Writer) (k : ℕ) → writer_stage p ≤ 1 → made p k ≡ 0
made_early Writer.starting k h = refl
made_early Writer.waiting k h = refl
made_early (Writer.testing c) k h = absurd (omega arith)
made_early (Writer.pushing c) k h = absurd (omega arith)
made_early (Writer.storing c) k h = absurd (omega arith)
made_early Writer.leaving k h = absurd (omega arith)
made_early Writer.ended k h = absurd (omega arith)

pub taken_early : (p : Reader) (k : ℕ) → reader_stage p ≤ 1 → taken p k ≡ 0
taken_early Reader.starting k h = refl
taken_early Reader.waiting k h = refl
taken_early (Reader.asking_state c) k h = absurd (omega arith)
taken_early (Reader.popping c) k h = absurd (omega arith)
taken_early (Reader.asking_producers c) k h = absurd (omega arith)
taken_early (Reader.asking_queue c) k h = absurd (omega arith)
taken_early (Reader.storing c) k h = absurd (omega arith)
taken_early Reader.leaving k h = absurd (omega arith)
taken_early Reader.ended k h = absurd (omega arith)

pub made_stored : (p : Writer) (k : ℕ) → writer_stage p ≡ 4 → made p k ≡ k
made_stored Writer.starting k h = absurd (omega arith)
made_stored Writer.waiting k h = absurd (omega arith)
made_stored (Writer.testing c) k h = absurd (omega arith)
made_stored (Writer.pushing c) k h = absurd (omega arith)
made_stored (Writer.storing c) k h = absurd (omega arith)
made_stored Writer.leaving k h = refl
made_stored Writer.ended k h = refl

pub taken_stored : (p : Reader) (k : ℕ) → reader_stage p ≡ 6 → taken p k ≡ k
taken_stored Reader.starting k h = absurd (omega arith)
taken_stored Reader.waiting k h = absurd (omega arith)
taken_stored (Reader.asking_state c) k h = absurd (omega arith)
taken_stored (Reader.popping c) k h = absurd (omega arith)
taken_stored (Reader.asking_producers c) k h = absurd (omega arith)
taken_stored (Reader.asking_queue c) k h = absurd (omega arith)
taken_stored (Reader.storing c) k h = absurd (omega arith)
taken_stored Reader.leaving k h = absurd (omega arith)
taken_stored Reader.ended k h = refl

-- Whether a thread is counted does not hang on the vectors.
pub writer_there_any : (p : Writer) (k l : ℕ) → writer_there p k ≡ writer_there p l
writer_there_any Writer.starting k l = refl
writer_there_any Writer.waiting k l = refl
writer_there_any (Writer.testing c) k l = refl
writer_there_any (Writer.pushing c) k l = refl
writer_there_any (Writer.storing c) k l = refl
writer_there_any Writer.leaving k l = refl
writer_there_any Writer.ended k l = refl

pub reader_there_any : (p : Reader) (k l : ℕ) → reader_there p k ≡ reader_there p l
reader_there_any Reader.starting k l = refl
reader_there_any Reader.waiting k l = refl
reader_there_any (Reader.asking_state c) k l = refl
reader_there_any (Reader.popping c) k l = refl
reader_there_any (Reader.asking_producers c) k l = refl
reader_there_any (Reader.asking_queue c) k l = refl
reader_there_any (Reader.storing c) k l = refl
reader_there_any Reader.leaving k l = refl
reader_there_any Reader.ended k l = refl
