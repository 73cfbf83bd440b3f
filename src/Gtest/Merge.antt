-- ===== src/Gtest/Merge.antt =====
-- src/gtest_mpmc_queue.cpp, the test hash2: producers hash and push numbers, and one consumer hashes the
-- numbers of each producer as they come out of a queue that keeps their order. A call of the queue is one
-- step, and so is every other access to what the threads share.
pub mod Kept
pub mod Sinks
pub mod Result
use lockfree_mpmc_queue.Base.{
  ℕ, zero, suc, ◌+◌, ◌-◌, ◌*◌, ◌/◌, ◌%◌, ◌^◌, Bool, true, false, Option, none, some, List, [], ◌∷◌,
  if◌then◌else◌, ltb, ◌&&◌, update,
}
use lockfree_mpmc_queue.Base.Word.{cast}
use lockfree_mpmc_queue.Hash.{Signature, make_signature, add_value, same_signature}
use lockfree_mpmc_queue.Service.Lines.{Line}
use lockfree_mpmc_queue.Gtest.Streams.{Plan, Maker, hashing, pushing, leaving, made}

-- `Data2`: the value and the producer, in the order of the struct.
abbrev pub data2 : ℕ → ℕ → ℕ
data2 v id = v + id * 2 ^ 64

abbrev pub v_of : ℕ → ℕ
v_of d = d % 2 ^ 64

abbrev pub hindex_of : ℕ → ℕ
hindex_of d = d / 2 ^ 64

-- Where the consumer stands; the test has one.
pub data Sink : Type 0 where
  looking : Sink  -- before `!qut.empty()`
  asking : Sink  -- before `producers_count > 0`
  popping : Sink
  locking : ℕ → Sink  -- with `d`
  adding : ℕ → Sink  -- holds the lock
  unlocking : ℕ → Sink  -- the guard's destructor
  finished : Sink

pub record Merge (L : Line) : Type 0 where
  pub queue : L.State
  pub producers_count : ℕ
  pub started : Bool  -- the main thread has seen an element, and started the consumer
  pub hin : ℕ → Signature
  pub hout : ℕ → Signature
  pub locks : ℕ → Bool
  pub maker : ℕ → Maker
  pub sink : Sink

-- The scheduler's choice.
pub data Turn : Type 0 where
  waits : Turn
  makes : ℕ → Turn
  takes : Turn

module _ (L : Line) where
  unfoldable pub begin : Plan → L.State → Merge L
  begin u q = record {
    queue = q;
    producers_count = u.producers;
    started = false;
    hin = λ p. make_signature 0;
    hout = λ p. make_signature 0;
    locks = λ p. false;
    maker = λ p. hashing 0;
    sink = looking;
  }

  -- `id` is the producer's number as a `uint8_t`.
  unfoldable pub source_step : Plan → Merge L → ℕ → ℕ → Maker → Merge L
  source_step u b p id (hashing i) =
      if ltb i u.loops
      then record b {
        hin = update b.hin id (add_value (b.hin id) i);
        maker = update b.maker p (pushing i);
      }
      else record b { maker = update b.maker p leaving }
  source_step u b p id (pushing i) = elim (L.push b.queue (data2 i id)) [
    | none ↦ b
    | some (false, q) ↦ record b { queue = q }
    | some (true, q) ↦ record b { queue = q; maker = update b.maker p (hashing (cast 64 (i + 1))) }
  ]
  source_step u b p id leaving = record b {
    producers_count = cast 32 (b.producers_count + 2 ^ 32 - 1);
    maker = update b.maker p made;
  }
  source_step u b p id made = b

  unfoldable pub sink_step : Merge L → Sink → Merge L
  sink_step b looking = record b { sink = if L.is_empty b.queue then asking else popping }
  sink_step b asking = record b { sink = if ltb 0 b.producers_count then popping else finished }
  sink_step b popping = elim (L.pop b.queue) [
    | none ↦ b
    | some (none, q) ↦ record b { queue = q; sink = looking }
    | some (some d, q) ↦ record b { queue = q; sink = locking d }
  ]
  sink_step b (locking d) =
      if b.locks (hindex_of d)
      then b
      else record b { locks = update b.locks (hindex_of d) true; sink = adding d }
  sink_step b (adding d) = record b {
    hout = update b.hout (hindex_of d) (add_value (b.hout (hindex_of d)) (v_of d));
    sink = unlocking d;
  }
  sink_step b (unlocking d) = record b {
    locks = update b.locks (hindex_of d) false;
    sink = looking;
  }
  sink_step b finished = b

  -- The main thread's `while (qut.empty())` comes first.
  unfoldable pub take_turn : Plan → Merge L → Turn → Merge L
  take_turn u b waits = if L.is_empty b.queue then b else record b { started = true }
  take_turn u b (makes p) =
      if ltb p u.producers then source_step u b p (cast 8 p) (b.maker p) else b
  take_turn u b takes = if b.started then sink_step b b.sink else b

  unfoldable pub take_turns : Plan → Merge L → List Turn → Merge L
  take_turns u b [] = b
  take_turns u b (t ∷ turns) = take_turns u (take_turn u b t) turns

  -- `same &= (hin_a[i] == hout_a[i])` over all producers
  unfoldable pub all_equal : ℕ → Merge L → Bool
  all_equal zero b = true
  all_equal (suc n) b = all_equal n b && same_signature (b.hin n) (b.hout n)
