-- ===== src/Timing.antt =====
-- src/mpmc_queue_timing.h, `QTiming::run`: a few rounds of pushes and pops by one thread, then a writer
-- that pushes stamps of the clock and a reader that stores how long each was in the queue.
pub mod WarmUp
pub mod Bounds
use lockfree_mpmc_queue.Base.{
  ℕ, zero, suc, ◌+◌, ◌-◌, ◌^◌, Bool, true, false, List, [], ◌∷◌, Option, none, some, ltb, ◌==◌, set,
  length, if◌then◌else◌,
}
use lockfree_mpmc_queue.Base.Word.{cast}
use lockfree_mpmc_queue.Base.Loop.{◌>>=◌}
use lockfree_mpmc_queue.Service.{Service}

-- `_q_depth`, and the bits of `Q::value_type`
pub record Gauge : Type 0 where
  pub depth : ℕ
  pub value_bits : ℕ

-- Where the writer stands, with its `i`.
pub data Writer : Type 0 where
  stamping : ℕ → Writer
  closing : Writer  -- before it pushes 0
  ended : Writer

-- Where the reader stands, with its `n`.
pub data Reader : Type 0 where
  reading : ℕ → Reader
  reporting : ℕ → Reader
  overran : Reader  -- it has written past the end of `diffs`

pub record Watch (S : Service) : Type 0 where
  pub queue : S.State
  pub diffs : List ℕ
  pub writer : Writer
  pub reader : Reader

-- A store to an array; `none` out of range.
abbrev pub store : List ℕ → ℕ → ℕ → Option (List ℕ)
store xs n x = if ltb n (length xs) then some (set xs n x) else none

module _ (S : Service) where
  -- The loops of the first thread, which ignore what the calls return.
  unfoldable pub push_all : S.State → ℕ → ℕ → Option S.State
  push_all s d zero = some s
  push_all s d (suc n) = do (pushed, t) ← S.push s 0 d; push_all t d n

  unfoldable pub pop_all : S.State → ℕ → Option S.State
  pop_all s zero = some s
  pop_all s (suc n) = do (got, t) ← S.pop s 0; pop_all t n

  unfoldable pub warm_up : Gauge → S.State → ℕ → Option S.State
  warm_up u s zero = some s
  warm_up u s (suc loops) = do
    t ← push_all s (cast u.value_bits 17) u.depth
    r ← pop_all t u.depth
    warm_up u r loops

  -- The reader and the writer start; `new uint64_t[_q_depth + 1]` sets no value.
  unfoldable pub start : Gauge → S.State → List ℕ → Watch S
  start u s diffs = record { queue = s; diffs = diffs; writer = stamping 0; reader = reading 0 }

  -- One attempt of the writer to push, with what the clock says now.
  unfoldable pub writer_step : Gauge → Watch S → ℕ → Writer → Watch S
  writer_step u b now (stamping i) =
      if ltb i u.depth
      then elim (S.push b.queue 1 (cast u.value_bits now)) [
        | none ↦ b
        | some (pushed, q) ↦ record b {
          queue = q;
          writer = if pushed then stamping (cast 32 (i + 1)) else stamping i;
        }
      ]
      else record b { writer = closing }
  writer_step u b now closing = elim (S.push b.queue 1 0) [
    | none ↦ b
    | some (pushed, q) ↦ record b { queue = q; writer = if pushed then ended else closing }
  ]
  writer_step u b now ended = b

  -- One attempt of the reader to pop.
  unfoldable pub reader_step : Watch S → ℕ → Reader → Watch S
  reader_step b now (reading n) = elim (S.pop b.queue 2) [
    | none ↦ b
    | some (none, q) ↦ record b { queue = q }
    | some (some x, q) ↦ elim (store b.diffs n (cast 64 (now + 2 ^ 64 - x))) [
      | none ↦ record b { queue = q; reader = overran }
      | some diffs ↦ record b {
        queue = q;
        diffs = diffs;
        reader = if x == 0 then reporting (cast 32 (n + 1)) else reading (cast 32 (n + 1));
      }
    ]
  ]
  reader_step b now p = b

-- The scheduler's choice, with what the clock says.
pub data Turn : Type 0 where
  writes : ℕ → Turn
  reads : ℕ → Turn

module _ (S : Service) where
  unfoldable pub take_turn : Gauge → Watch S → Turn → Watch S
  take_turn u b (writes now) = writer_step S u b now b.writer
  take_turn u b (reads now) = reader_step S b now b.reader

  unfoldable pub take_turns : Gauge → Watch S → List Turn → Watch S
  take_turns u b [] = b
  take_turns u b (t ∷ turns) = take_turns u (take_turn u b t) turns

  -- `QTiming::run`, with what memory holds in the new array.
  unfoldable pub run : Gauge → S.State → List ℕ → List Turn → Option (Watch S)
  run u s diffs turns = do t ← warm_up S u s 4; some (take_turns u (start S u t diffs) turns)
