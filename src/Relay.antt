-- ===== src/Relay.antt =====
-- src/example2.cpp: as many producers as consumers, each with a fixed number of rounds, compare the sum
-- of what they pushed with the sum of what they popped.
pub mod Kept
pub mod Steps
pub mod Sums
use lockfree_mpmc_queue.Base.{
  ℕ, zero, suc, ◌+◌, Bool, true, false, List, [], ◌∷◌, Option, none, some, ltb, update,
  if◌then◌else◌,
}
use lockfree_mpmc_queue.Base.Word.{cast}
use lockfree_mpmc_queue.Service.{Service}

-- `P` and `N`
pub record Plan : Type 0 where
  pub threads : ℕ
  pub rounds : ℕ

-- Where a thread of either kind stands, with `x` and `m`.
pub data Place : Type 0 where
  working : ℕ → ℕ → Place  -- at the head of the loop, or of the inner `while`
  reporting : ℕ → Place  -- before `prod_sum += m`, `cons_sum += m`
  ended : Place

pub record Race (S : Service) : Type 0 where
  pub queue : S.State
  pub prod_sum : ℕ
  pub cons_sum : ℕ
  pub producer : ℕ → Place
  pub consumer : ℕ → Place

-- What a step leaves: the queue, the thread's place, and the sum of its kind.
pub record Moved (S : Service) : Type 0 where
  pub queue : S.State
  pub place : Place
  pub sum : ℕ

module _ (S : Service) where
  unfoldable pub begin : S.State → Race S
  begin q = record {
    queue = q;
    prod_sum = 0;
    cons_sum = 0;
    producer = λ i. working 0 0;
    consumer = λ i. working 0 0;
  }

  unfoldable pub producer_step : Plan → S.State → ℕ → ℕ → Place → Moved S
  producer_step u q sum i (working x m) =
      if ltb x u.rounds
      then elim (S.push q i x) [
        | none ↦ record { queue = q; place = working x m; sum = sum }
        | some (pushed, q') ↦ record {
          queue = q';
          place = if pushed then working (cast 32 (x + 1)) (cast 64 (m + x)) else working x m;
          sum = sum;
        }
      ]
      else record { queue = q; place = reporting m; sum = sum }
  producer_step u q sum i (reporting m) = record {
    queue = q;
    place = ended;
    sum = cast 64 (sum + m);
  }
  producer_step u q sum i ended = record { queue = q; place = ended; sum = sum }

  unfoldable pub consumer_step : Plan → S.State → ℕ → ℕ → Place → Moved S
  consumer_step u q sum i (working x m) =
      if ltb x u.rounds
      then elim (S.pop q i) [
        | none ↦ record { queue = q; place = working x m; sum = sum }
        | some (none, q') ↦ record { queue = q'; place = working x m; sum = sum }
        | some (some v, q') ↦ record {
          queue = q';
          place = working (cast 32 (x + 1)) (cast 64 (m + v));
          sum = sum;
        }
      ]
      else record { queue = q; place = reporting m; sum = sum }
  consumer_step u q sum i (reporting m) = record {
    queue = q;
    place = ended;
    sum = cast 64 (sum + m);
  }
  consumer_step u q sum i ended = record { queue = q; place = ended; sum = sum }

-- The scheduler's choice.
pub data Turn : Type 0 where
  produces : ℕ → Turn
  consumes : ℕ → Turn

module _ (S : Service) where
  unfoldable pub take_turn : Plan → Race S → Turn → Race S
  take_turn u b (produces i) =
      let t = producer_step S u b.queue b.prod_sum i (b.producer i) in
      let moved : Race S = record b {
        queue = t.queue;
        prod_sum = t.sum;
        producer = update b.producer i t.place;
      } in
      if ltb i u.threads then moved else b
  take_turn u b (consumes i) =
      let t = consumer_step S u b.queue b.cons_sum i (b.consumer i) in
      let moved : Race S = record b {
        queue = t.queue;
        cons_sum = t.sum;
        consumer = update b.consumer i t.place;
      } in
      if ltb i u.threads then moved else b

  unfoldable pub take_turns : Plan → Race S → List Turn → Race S
  take_turns u b [] = b
  take_turns u b (t ∷ turns) = take_turns u (take_turn u b t) turns
