-- ===== src/Pack/Whole.antt =====
-- A new pack with its threads, and any sequence of their calls.
use native.Mathlib.Nat.{mod-lt}
use lockfree_mpmc_queue.Base.{
  ℕ, ◌<◌, ◌^◌, ◌≡◌, sym, ◌∙◌, true, false, List, [], Option, none, some, subst,
}
use lockfree_mpmc_queue.Fifo.{empty}
use lockfree_mpmc_queue.Queue.{Config, Queue}
use lockfree_mpmc_queue.Queue.Shape.{IsShape}
use lockfree_mpmc_queue.Pack.{Pack, make_producer, make_consumer, make_pack, make_queues}
use lockfree_mpmc_queue.Pack.Served.{IsServed}
use lockfree_mpmc_queue.Pack.Starts.{make_pack-IsServed}
use lockfree_mpmc_queue.Pack.Shared.{
  Crowd, Keeps, crowd_push, crowd_pop, crowd_push-Keeps, crowd_pop-Keeps, weigh-all_items,
}
use lockfree_mpmc_queue.Service.{Service, Same}
use lockfree_mpmc_queue.Service.Totals.{total_zero}
use lockfree_mpmc_queue.Service.Calls.{Call, Balances, make_calls-Balances}

pub never_empty : (c : Config) (s : Crowd) (xs : List ℕ) → Keeps c s xs → false ≡ true → Same xs []
never_empty c s xs v e = absurd cc

-- `pack_benchmark.cpp` does not ask a pack whether it is empty.
abbrev pub pack_service : Config → Service
pack_service c = record {
  State = Crowd;
  push = crowd_push;
  pop = crowd_pop;
  is_empty = λ s. false;
  Holds = Keeps c;
  push_law = crowd_push-Keeps c;
  pop_law = crowd_pop-Keeps c;
  is_empty_law = never_empty c;
}

-- The threads of a new pack: the thread `i` has the producer and the consumer that come `i`-th.
unfoldable pub crowd_of : Pack → Crowd
crowd_of p = record {
  pack = p;
  producer = λ i. (make_producer (record p { writers_count = i })).0;
  consumer = λ i. (make_consumer (record p { readers_count = i })).0;
}

pub crowd_of-Keeps :
    {p : Pack} {c : Config}
    → IsServed p c (λ k. empty)
    → 0 < p.period
    → p.period < 2 ^ 32
    → Keeps c (crowd_of p) []
unfolding crowd_of make_producer make_consumer
crowd_of-Keeps {p} {c} v often few = record {
  lists = λ k. empty;
  served = v;
  few = few;
  producers_stand = λ i. mod-lt i v.some_group;
  consumers_stand = λ i. (mod-lt i v.some_group, often);
  same = λ w. sym (weigh-all_items w (λ k. empty) p.groups ∙ total_zero p.groups);
}

make_pack-period :
    (fuel groups period : ℕ) (c : Config) (p : Pack)
    → make_pack fuel groups period c ≡ some (some p)
    → p.period ≡ period
unfolding make_pack
make_pack-period fuel groups period c p = go (make_queues fuel c groups)
  where
    go :
        (made : Option (Option (List Queue)))
        → (elim made [
          | none ↦ none
          | some none ↦ some none
          | some (some qs) ↦ some (
              some (record {
                groups = groups;
                period = period;
                writers_count = 0;
                readers_count = 0;
                queues = qs;
              }))
        ])
          ≡ some (some p)
        → p.period ≡ period
    go none e = absurd cc
    go (some none) e = absurd cc
    go (some (some qs)) e = cc

-- With at least one and fewer than 2^32 queues, of a size that the queue's constructor accepts, and K
-- positive and below 2^32: the pack is built, and whatever its producers and consumers call, in any
-- order, every call returns, and the elements that the pack took in are those that it gave out and
-- those that are left, each as often.
pub pack_calls-Balances :
    (c : Config) (fuel groups period : ℕ) (calls : List Call)
    → IsShape c
    → c.size < 2 ^ 32
    → c.size < fuel
    → 0 < groups
    → groups < 2 ^ 32
    → 0 < period
    → period < 2 ^ 32
    → (p : Pack) × (make_pack fuel groups period c ≡ some (some p))
      × Balances (pack_service c) (crowd_of p) [] calls
pack_calls-Balances c fuel groups period calls shape small enough pos few often seldom =
    let (p, made, served) = make_pack-IsServed c fuel groups period shape small enough pos few in
    (
      p,
      made,
      make_calls-Balances (pack_service c) (crowd_of p) [] calls (
          crowd_of-Keeps served
            (subst (λ n. 0 < n) (sym (make_pack-period fuel groups period c p made)) often)
            (subst (λ n. n < 2 ^ 32) (sym (make_pack-period fuel groups period c p made)) seldom)),
    )
