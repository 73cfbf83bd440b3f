-- ===== src/Gtest/Streams.antt =====
-- src/gtest_mpmc_queue.cpp, the test hash3: producers hash and push numbered values, and consumers put the
-- values of each producer in order again, under a lock, and hash them. A call of the queue is one step,
-- and so is every other access to what the threads share.
pub mod Kept
pub mod Makers
pub mod Changes
pub mod Takers
pub mod Result
use lockfree_mpmc_queue.Base.{
  ℕ, zero, suc, ◌+◌, ◌-◌, ◌*◌, ◌/◌, ◌%◌, ◌^◌, Bool, true, false, Option, none, some, List, [], ◌∷◌,
  if◌then◌else◌, ltb, ◌==◌, ◌&&◌, update,
}
use lockfree_mpmc_queue.Base.Word.{cast}
use lockfree_mpmc_queue.Hash.{Signature, make_signature, add_value, same_signature}
use lockfree_mpmc_queue.Service.{Service}

-- `Data3`, nine bytes: the value, the number and the producer, in the order of the struct.
abbrev pub data3 : ℕ → ℕ → ℕ → ℕ
data3 v seq id = v + seq * 2 ^ 32 + id * 2 ^ 64

abbrev pub value_of : ℕ → ℕ
value_of d = d % 2 ^ 32

abbrev pub seq_of : ℕ → ℕ
seq_of d = d / 2 ^ 32 % 2 ^ 32

abbrev pub id_of : ℕ → ℕ
id_of d = d / 2 ^ 64

-- `PRODUCERS`, `CONSUMERS` and `loops`
pub record Plan : Type 0 where
  pub producers : ℕ
  pub consumers : ℕ
  pub loops : ℕ

-- Where a producer stands.
pub data Maker : Type 0 where
  hashing : ℕ → Maker  -- at the head of the loop, with `i`
  pushing : ℕ → Maker  -- in `while (!qut.push(…))`
  leaving : Maker  -- before `producers_count--`
  made : Maker

-- Where a consumer stands.
pub data Taker : Type 0 where
  looking : Taker  -- before `!qut.empty()`
  asking : Taker  -- before `producers_count > 0`
  popping : Taker
  locking : ℕ → Taker  -- with `d`, at the head of `while (true)`
  checking : ℕ → Taker  -- holds the lock
  adding : ℕ → Taker  -- the number is the count of the signature
  retreating : ℕ → Taker  -- unlocks, and goes round
  unlocking : ℕ → Taker  -- unlocks after the value is added
  finished : Taker

pub record HashTest (S : Service) : Type 0 where
  pub queue : S.State
  pub producers_count : ℕ
  pub started : Bool  -- the main thread has seen an element, and started the consumers
  pub hin : ℕ → Signature
  pub hout : ℕ → Signature
  pub locks : ℕ → Bool
  pub maker : ℕ → Maker
  pub taker : ℕ → Taker

module _ (S : Service) where
  unfoldable pub begin : Plan → S.State → HashTest S
  begin u q = record {
    queue = q;
    producers_count = u.producers;
    started = false;
    hin = λ p. make_signature 0;
    hout = λ p. make_signature 0;
    locks = λ p. false;
    maker = λ p. hashing 0;
    taker = λ j. looking;
  }

  -- The main thread's `while (qut.empty())`.
  unfoldable pub main_step : HashTest S → HashTest S
  main_step b = if S.is_empty b.queue then b else record b { started = true }

  -- `id` is the producer's number as a `uint8_t`.
  unfoldable pub maker_step : Plan → HashTest S → ℕ → ℕ → Maker → HashTest S
  maker_step u b p id (hashing i) =
      if ltb i u.loops
      then record b {
        hin = update b.hin id (add_value (b.hin id) (cast 32 (i * i)));
        maker = update b.maker p (pushing i);
      }
      else record b { maker = update b.maker p leaving }
  maker_step u b p id (pushing i) = elim (S.push b.queue p (data3 (cast 32 (i * i)) i id)) [
    | none ↦ b
    | some (false, q) ↦ record b { queue = q }
    | some (true, q) ↦ record b { queue = q; maker = update b.maker p (hashing (cast 32 (i + 1))) }
  ]
  maker_step u b p id leaving = record b {
    producers_count = cast 32 (b.producers_count + 2 ^ 32 - 1);
    maker = update b.maker p made;
  }
  maker_step u b p id made = b

  unfoldable pub taker_step : HashTest S → ℕ → Taker → HashTest S
  taker_step b j looking = record b {
    taker = update b.taker j (if S.is_empty b.queue then asking else popping);
  }
  taker_step b j asking = record b {
    taker = update b.taker j (if ltb 0 b.producers_count then popping else finished);
  }
  taker_step b j popping = elim (S.pop b.queue j) [
    | none ↦ b
    | some (none, q) ↦ record b { queue = q; taker = update b.taker j looking }
    | some (some d, q) ↦ record b { queue = q; taker = update b.taker j (locking d) }
  ]
  taker_step b j (locking d) =
      if b.locks (id_of d)
      then b
      else record b { locks = update b.locks (id_of d) true; taker = update b.taker j (checking d) }
  taker_step b j (checking d) = record b {
    taker =
        update b.taker j (if seq_of d == (b.hout (id_of d)).count then adding d else retreating d);
  }
  taker_step b j (adding d) = record b {
    hout = update b.hout (id_of d) (add_value (b.hout (id_of d)) (value_of d));
    taker = update b.taker j (unlocking d);
  }
  taker_step b j (retreating d) = record b {
    locks = update b.locks (id_of d) false;
    taker = update b.taker j (locking d);
  }
  taker_step b j (unlocking d) = record b {
    locks = update b.locks (id_of d) false;
    taker = update b.taker j looking;
  }
  taker_step b j finished = b

-- The scheduler's choice.
pub data Turn : Type 0 where
  waits : Turn
  makes : ℕ → Turn
  takes : ℕ → Turn

module _ (S : Service) where
  unfoldable pub take_turn : Plan → HashTest S → Turn → HashTest S
  take_turn u b waits = main_step S b
  take_turn u b (makes p) =
      if ltb p u.producers then maker_step S u b p (cast 8 p) (b.maker p) else b
  take_turn u b (takes j) =
      if b.started && ltb j u.consumers then taker_step S b j (b.taker j) else b

  unfoldable pub take_turns : Plan → HashTest S → List Turn → HashTest S
  take_turns u b [] = b
  take_turns u b (t ∷ turns) = take_turns u (take_turn u b t) turns

  -- `same &= (hin_a[i] == hout_a[i])` over all producers
  unfoldable pub all_same : ℕ → HashTest S → Bool
  all_same zero b = true
  all_same (suc n) b = all_same n b && same_signature (b.hin n) (b.hout n)
