-- ===== src/Tests/Packs.antt =====
-- A pack of two queues.
use lockfree_mpmc_queue.Base.{ℕ, zero, suc, ◌≡◌, ◌<◌, refl, [], ◌∷◌, some, arith, get?}
use lockfree_mpmc_queue.Fifo.{empty}
use lockfree_mpmc_queue.Queue.{Queue}
use lockfree_mpmc_queue.Pack.{Pack, Consumer, make_pack}
use lockfree_mpmc_queue.Pack.Served.{IsServed}
use lockfree_mpmc_queue.Pack.Takes.{Takes, consumer_pop-Taken}
use lockfree_mpmc_queue.Pack.Whole.{pack_service, crowd_of, pack_calls-Balances}
use lockfree_mpmc_queue.Service.Calls.{Balances, pushing, popping}
use lockfree_mpmc_queue.Tests.{two_slots, fresh_queue, fresh-Serves, Serves}

abbrev pair : Pack
pair = record {
  groups = 2;
  period = 3;
  writers_count = 0;
  readers_count = 1;
  queues = fresh_queue ∷ fresh_queue ∷ [];
}

pair-IsServed : IsServed pair two_slots (λ k. empty)
pair-IsServed = record { some_group = omega arith; few_groups = omega arith; serves = each }
  where
    each : (k : ℕ) → k < 2 → (q : Queue) × (get? pair.queues k ≡ some q) × Serves two_slots q empty
    each zero in_range = (fresh_queue, refl, fresh-Serves)
    each (suc zero) in_range = (fresh_queue, refl, fresh-Serves)
    each (suc (suc k)) in_range = absurd (omega arith)

abbrev reader : Consumer
reader = record { read_queue_index = 1; pop_count = 2 }

consumer_pop-Taken_example : Takes 2 two_slots pair (λ k. empty) reader
consumer_pop-Taken_example =
    consumer_pop-Taken 0 reader pair-IsServed (omega arith) (omega arith, omega arith)

pack_calls-Balances_example :
    (p : Pack) × (make_pack 3 2 3 two_slots ≡ some (some p))
    × Balances
        (pack_service two_slots)
        (crowd_of p)
        []
        (pushing 0 5 ∷ pushing 1 6 ∷ popping 1 ∷ popping 1 ∷ popping 0 ∷ [])
pack_calls-Balances_example =
    pack_calls-Balances two_slots 3 2 3
      (pushing 0 5 ∷ pushing 1 6 ∷ popping 1 ∷ popping 1 ∷ popping 0 ∷ [])
      (record { log_size = 1; power = refl; wide = omega arith }) (omega arith) (omega arith)
      (omega arith) (omega arith) (omega arith) (omega arith)
