-- ===== src/Gtest/InOut.antt =====
-- src/gtest_mpmc_queue.cpp, the test HashInputOutput: a writer hashes the numbers that it pushes, and a
-- reader those that it pops, over a queue that keeps their order. A call of the queue is one step.
pub mod Kept
pub mod Result
use lockfree_mpmc_queue.Base.{
  ℕ, ◌+◌, Bool, true, false, Option, none, some, List, [], ◌∷◌, if◌then◌else◌, ltb,
}
use lockfree_mpmc_queue.Base.Word.{cast}
use lockfree_mpmc_queue.Hash.{Signature, make_signature, add_value}
use lockfree_mpmc_queue.Service.Lines.{Line}

-- Where `qwrite` stands, with `i`.
pub data Writer : Type 0 where
  hashing : ℕ → Writer  -- at the head of the loop
  pushing : ℕ → Writer  -- in `while (!qut.push(i))`
  wrote : Writer

-- Where `qread` stands, with `i` and `v`.
pub data Reader : Type 0 where
  popping : ℕ → Reader  -- at the head of the loop, or in `while (!qut.pop(v))`
  adding : ℕ → ℕ → Reader  -- before `h_out(v)`
  ended : Reader

pub record InOut (L : Line) : Type 0 where
  pub queue : L.State
  pub h_in : Signature
  pub h_out : Signature
  pub writer : Writer
  pub reader : Reader

-- The scheduler's choice.
pub data Turn : Type 0 where
  writes : Turn
  reads : Turn

module _ (L : Line) (loops : ℕ) where
  unfoldable pub writer_step : InOut L → Writer → InOut L
  writer_step b (hashing i) =
      if ltb i loops
      then record b { h_in = add_value b.h_in i; writer = pushing i }
      else record b { writer = wrote }
  writer_step b (pushing i) = elim (L.push b.queue i) [
    | none ↦ b
    | some (false, q) ↦ record b { queue = q }
    | some (true, q) ↦ record b { queue = q; writer = hashing (cast 64 (i + 1)) }
  ]
  writer_step b wrote = b

  -- The inner `while` is tried again; the outer loop has been tested before.
  unfoldable pub reader_step : InOut L → Reader → InOut L
  reader_step b (popping i) =
      if ltb i loops
      then elim (L.pop b.queue) [
        | none ↦ b
        | some (none, q) ↦ record b { queue = q }
        | some (some v, q) ↦ record b { queue = q; reader = adding i v }
      ]
      else record b { reader = ended }
  reader_step b (adding i v) = record b {
    h_out = add_value b.h_out v;
    reader = popping (cast 32 (i + 1));
  }
  reader_step b ended = b

  unfoldable pub take_turn : InOut L → Turn → InOut L
  take_turn b writes = writer_step b b.writer
  take_turn b reads = reader_step b b.reader

  unfoldable pub take_turns : InOut L → List Turn → InOut L
  take_turns b [] = b
  take_turns b (t ∷ turns) = take_turns (take_turn b t) turns

unfoldable pub begin : {L : Line} → L.State → InOut L
begin q = record {
  queue = q;
  h_in = make_signature 1;
  h_out = make_signature 1;
  writer = hashing 0;
  reader = popping 0;
}
