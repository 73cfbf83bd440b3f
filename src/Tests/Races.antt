-- ===== src/Tests/Races.antt =====
-- A race of one producer and one consumer, and runs of the benchmark of packs.
use lockfree_mpmc_queue.Base.{ℕ, zero, suc, ◌≡◌, ◌<◌, refl, some, List, [], ◌∷◌, arith, true}
use lockfree_mpmc_queue.Base.Loop.{forever}
use lockfree_mpmc_queue.Service.Queues.{queue_service}
use lockfree_mpmc_queue.Queue.{slot, compare_exchange, advance_write, advance_read, is_full}
use lockfree_mpmc_queue.Queue.Push.{push, push_pass, push_case, fill, settle_write}
use lockfree_mpmc_queue.Queue.Pop.{pop, pop_pass, pop_case, drain, settle_read}
use lockfree_mpmc_queue.Relay
use lockfree_mpmc_queue.Relay.{produces, consumes}
use lockfree_mpmc_queue.Relay.Sums
use lockfree_mpmc_queue.Relay.Sums.{take_turns-sums}
use lockfree_mpmc_queue.PackBench
use lockfree_mpmc_queue.PackBench.{writes, reads, leads}
use lockfree_mpmc_queue.PackBench.Sums.{take_turns-Adds, Adds, AllEnded}
use lockfree_mpmc_queue.PackBench.Stuck.{take_turns-IsStuck}
use lockfree_mpmc_queue.PackBench.Late.{IsStuck, is_looping}
use lockfree_mpmc_queue.Timing
use lockfree_mpmc_queue.Timing.Bounds.{IsWithin, run-IsWithin}
use lockfree_mpmc_queue.Tests.{two_slots, fresh_queue, fresh-Serves}

abbrev one_round : Relay.Plan
one_round = record { threads = 1; rounds = 2 }

abbrev race : List Relay.Turn
race =
    produces 0
    ∷ consumes 0
    ∷ consumes 0
    ∷ produces 0
    ∷ produces 0
    ∷ produces 0
    ∷ consumes 0
    ∷ consumes 0
    ∷ consumes 0
    ∷ []

race_over : Relay.Sums.AllEnded one_round (
    Relay.take_turns
      (queue_service two_slots)
      one_round
      (Relay.begin (queue_service two_slots) fresh_queue)
      race)
unfolding Relay.take_turns Relay.take_turn Relay.begin Relay.producer_step Relay.consumer_step push
    push_pass push_case fill settle_write advance_write pop pop_pass pop_case drain settle_read
    advance_read slot compare_exchange forever is_full
race_over zero within = (refl, refl)
race_over (suc i) within = absurd (omega arith)

take_turns-sums_example : Relay.Sums.IsWon one_round (
    Relay.take_turns
      (queue_service two_slots)
      one_round
      (Relay.begin (queue_service two_slots) fresh_queue)
      race)
take_turns-sums_example =
    take_turns-sums (queue_service two_slots) one_round fresh_queue race (omega arith)
      (0, fresh-Serves) race_over

abbrev two_rounds : PackBench.Plan
two_rounds = record { producers = 1; consumers = 1; rounds = 2; value_bits = 32 }

-- The consumer finds nothing; the producer then pushes both elements and leaves; the consumer sees that
-- no producer is active.
abbrev too_late : List PackBench.Turn
too_late =
    writes 0
    ∷ leads
    ∷ reads 0
    ∷ leads
    ∷ writes 0
    ∷ leads
    ∷ reads 0
    ∷ writes 0
    ∷ writes 0
    ∷ writes 0
    ∷ writes 0
    ∷ writes 0
    ∷ reads 0
    ∷ reads 0
    ∷ reads 0
    ∷ reads 0
    ∷ leads
    ∷ []

late_over : AllEnded two_rounds (
    PackBench.take_turns
      (queue_service two_slots)
      two_rounds
      (PackBench.begin (queue_service two_slots) fresh_queue)
      too_late)
unfolding PackBench.take_turns PackBench.take_turn PackBench.begin PackBench.writer_step
    PackBench.reader_step PackBench.main_step push push_pass push_case fill settle_write
    advance_write pop pop_pass pop_case drain settle_read advance_read slot compare_exchange forever
    is_full
late_over = (producers, consumers)
  where
    producers :
        (i : ℕ)
        → i < 1
        → (PackBench.take_turns
              (queue_service two_slots)
              two_rounds
              (PackBench.begin (queue_service two_slots) fresh_queue)
              too_late).writer
            i
          ≡ PackBench.Writer.ended
    producers zero within = refl
    producers (suc i) within = absurd (omega arith)

    consumers :
        (i : ℕ)
        → i < 1
        → (PackBench.take_turns
              (queue_service two_slots)
              two_rounds
              (PackBench.begin (queue_service two_slots) fresh_queue)
              too_late).reader
            i
          ≡ PackBench.Reader.ended
    consumers zero within = refl
    consumers (suc i) within = absurd (omega arith)

take_turns-Adds_example : Adds (
    PackBench.take_turns
      (queue_service two_slots)
      two_rounds
      (PackBench.begin (queue_service two_slots) fresh_queue)
      too_late)
take_turns-Adds_example =
    take_turns-Adds (queue_service two_slots) two_rounds fresh_queue too_late (0, fresh-Serves)
      late_over

-- The main thread sets the state before the producer tests it.
abbrev too_soon : List PackBench.Turn
too_soon = writes 0 ∷ leads ∷ reads 0 ∷ leads ∷ leads ∷ []

abbrev held_bench : PackBench.Bench (queue_service two_slots)
held_bench =
    PackBench.take_turns (queue_service two_slots) two_rounds
      (PackBench.begin (queue_service two_slots) fresh_queue) too_soon

held-IsStuck : IsStuck two_rounds 0 held_bench
unfolding PackBench.take_turns PackBench.take_turn PackBench.begin PackBench.writer_step
    PackBench.reader_step PackBench.main_step
held-IsStuck = record {
  exists = omega arith;
  few = omega arith;
  waits = refl;
  set = refl;
  begun = refl;
  counted = refl;
  looping = loops;
  consuming = omega arith;
}
  where
    loops : (j : ℕ) → j < 1 → is_looping (held_bench.reader j) ≡ true
    loops zero within = refl
    loops (suc j) within = absurd (omega arith)

take_turns-IsStuck_example :
    IsStuck two_rounds 0
      (PackBench.take_turns (queue_service two_slots) two_rounds held_bench too_late)
take_turns-IsStuck_example =
    take_turns-IsStuck (queue_service two_slots) two_rounds 0 too_late held_bench held-IsStuck

abbrev gauge : Timing.Gauge
gauge = record { depth = 2; value_bits = 32 }

abbrev clock : List Timing.Turn
clock =
    Timing.writes 5
    ∷ Timing.reads 9
    ∷ Timing.writes 10
    ∷ Timing.writes 11
    ∷ Timing.reads 12
    ∷ Timing.writes 13
    ∷ Timing.reads 14
    ∷ []

run-IsWithin_example :
    (b : Timing.Watch (queue_service two_slots)) × (Timing.run
        (queue_service two_slots)
        gauge
        fresh_queue
        (7 ∷ 7 ∷ 7 ∷ [])
        clock
      ≡ some b)
    × IsWithin gauge b
run-IsWithin_example =
    run-IsWithin (queue_service two_slots) gauge fresh_queue (7 ∷ 7 ∷ 7 ∷ []) clock (omega arith)
      refl (0, fresh-Serves)
