-- ===== src/Tests/Runs.antt =====
-- A run of the benchmark with one writer and one reader.
use lockfree_mpmc_queue.Base.{ℕ, ◌≡◌, refl, List, [], ◌∷◌, arith}
use lockfree_mpmc_queue.Base.Loop.{forever}
use lockfree_mpmc_queue.Service.Queues.{queue_service, Contains}
use lockfree_mpmc_queue.Bandwidth.{
  Setup, Turn, writes, reads, leads, begin, take_turn, take_turns, done, writer_step, reader_step,
  main_step,
}
use lockfree_mpmc_queue.Bandwidth.Result.{take_turns-balanced}
use lockfree_mpmc_queue.Queue.{slot, compare_exchange, advance_write, advance_read, is_full}
use lockfree_mpmc_queue.Queue.Push.{push, push_pass, push_case, fill, settle_write}
use lockfree_mpmc_queue.Queue.Pop.{pop, pop_pass, pop_case, drain, settle_read}
use lockfree_mpmc_queue.Queue.Glance.{is_empty}
use lockfree_mpmc_queue.Tests.{two_slots, fresh_queue, fresh-Serves}

abbrev one_each : Setup
one_each = record { producers = 1; consumers = 1; value_bits = 64 }

abbrev turns : List Turn
turns =
    leads
    ∷ writes 0
    ∷ reads 0
    ∷ leads
    ∷ leads
    ∷ leads
    ∷ writes 0
    ∷ reads 0
    ∷ writes 0
    ∷ writes 0
    ∷ leads
    ∷ writes 0
    ∷ writes 0
    ∷ reads 0
    ∷ reads 0
    ∷ writes 0
    ∷ leads
    ∷ leads
    ∷ reads 0
    ∷ reads 0
    ∷ reads 0
    ∷ reads 0
    ∷ reads 0
    ∷ reads 0
    ∷ leads
    ∷ leads
    ∷ []

reaches_end :
    (take_turns
      (queue_service two_slots)
      one_each
      (begin (queue_service two_slots) fresh_queue)
      turns).main
    ≡ done 1 1
unfolding take_turns take_turn begin writer_step reader_step main_step push push_pass push_case fill
    settle_write advance_write pop pop_pass pop_case drain settle_read advance_read slot
    compare_exchange forever is_empty is_full
reaches_end = refl

take_turns-balanced_example :
    (◌≡◌ {A = ℕ} 1 1)
    × Contains two_slots
        (take_turns
          (queue_service two_slots)
          one_each
          (begin (queue_service two_slots) fresh_queue)
          turns).queue
        []
take_turns-balanced_example =
    take_turns-balanced (queue_service two_slots) one_each fresh_queue turns 1 1
      (record {
        few_producers = omega arith;
        few_consumers = omega arith;
        some_consumer = omega arith;
      })
      (0, fresh-Serves) refl reaches_end
