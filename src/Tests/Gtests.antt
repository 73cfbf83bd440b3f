-- ===== src/Tests/Gtests.antt =====
-- Runs of the tests of src/gtest_mpmc_queue.cpp.
use lockfree_mpmc_queue.Base.{ℕ, zero, suc, ◌≡◌, ◌<◌, refl, true, false, some, List, [], ◌∷◌, arith}
use lockfree_mpmc_queue.Service.Queues.{queue_service}
use lockfree_mpmc_queue.Base.Loop.{forever}
use lockfree_mpmc_queue.Queue.{slot, compare_exchange, advance_write, advance_read, is_full}
use lockfree_mpmc_queue.Queue.Push.{push, push_pass, push_case, fill, settle_write}
use lockfree_mpmc_queue.Queue.Pop.{pop, pop_pass, pop_case, drain, settle_read}
use lockfree_mpmc_queue.Queue.Glance.{is_empty}
use lockfree_mpmc_queue.Hash.{make_signature, add_value, thicken, popcount, same_signature}
use lockfree_mpmc_queue.Gtest.{fill_empty, fill_empty_index, fill_keep_n}
use lockfree_mpmc_queue.Gtest.Sizes.{fill_tests-pass}
use lockfree_mpmc_queue.Gtest.Streams.{
  Plan, HashTest, made, finished, begin, main_step, maker_step, taker_step, Turn, waits, makes,
  takes, take_turn, take_turns, all_same,
}
use lockfree_mpmc_queue.Gtest.Streams.Result.{AllEnded, IsHashed, take_turns-hashes}
use lockfree_mpmc_queue.Service.Lines.{queue_line}
use lockfree_mpmc_queue.Gtest.Merge
use lockfree_mpmc_queue.Gtest.Merge.Result.{AllOver, IsMerged, take_turns-IsMerged}
use lockfree_mpmc_queue.Gtest.InOut
use lockfree_mpmc_queue.Gtest.InOut.{writes, reads}
use lockfree_mpmc_queue.Gtest.InOut.Result.{IsEchoed, take_turns-IsEchoed}
use lockfree_mpmc_queue.Tests.{two_slots, fresh_queue, fresh-Serves}

fill_tests-pass_example :
    (fill_empty 2 2049 2048 ≡ some true)
    × (fill_empty_index 2 2049 2048 ≡ some true)
    × (fill_keep_n 2 2049 2048 ≡ some true)
fill_tests-pass_example = fill_tests-pass 0 2049 2048 (omega arith) (omega arith)

abbrev two_values : Plan
two_values = record { producers = 1; consumers = 1; loops = 2 }

abbrev after : List Turn → HashTest (queue_service two_slots)
after =
    take_turns (queue_service two_slots) two_values
      (begin (queue_service two_slots) two_values fresh_queue)

-- The consumer finds the queue empty; the producer pushes its last value and leaves; the consumer then
-- sees that no producer is left.
abbrev too_early : List Turn
too_early =
    makes 0
    ∷ makes 0
    ∷ waits
    ∷ takes 0
    ∷ takes 0
    ∷ takes 0
    ∷ takes 0
    ∷ takes 0
    ∷ takes 0
    ∷ makes 0
    ∷ takes 0
    ∷ makes 0
    ∷ makes 0
    ∷ makes 0
    ∷ takes 0
    ∷ []

too_early_over : AllEnded two_values (after too_early)
unfolding take_turns take_turn begin main_step maker_step taker_step push push_pass push_case fill
    settle_write advance_write pop pop_pass pop_case drain settle_read advance_read slot
    compare_exchange forever is_full is_empty make_signature add_value
too_early_over = (makers, takers)
  where
    makers : (p : ℕ) → p < 1 → (after too_early).maker p ≡ made
    makers zero within = refl
    makers (suc p) within = absurd (omega arith)

    takers : (j : ℕ) → j < 1 → (after too_early).taker j ≡ finished
    takers zero within = refl
    takers (suc j) within = absurd (omega arith)

-- The test fails although the queue lost nothing.
too_early-all_same : all_same (queue_service two_slots) 1 (after too_early) ≡ false
unfolding take_turns take_turn begin main_step maker_step taker_step push push_pass push_case fill
    settle_write advance_write pop pop_pass pop_case drain settle_read advance_read slot
    compare_exchange forever is_full is_empty make_signature add_value thicken popcount all_same
    same_signature
too_early-all_same = refl

take_turns-hashes_example : IsHashed two_values (after too_early) 0
take_turns-hashes_example =
    take_turns-hashes (queue_service two_slots) two_values fresh_queue too_early (omega arith)
      (omega arith) (0, fresh-Serves) too_early_over 0 (omega arith)

abbrev echoing : List InOut.Turn
echoing = writes ∷ writes ∷ reads ∷ writes ∷ reads ∷ writes ∷ reads ∷ writes ∷ reads ∷ reads ∷ []

take_turns-IsEchoed_example :
    IsEchoed 2 (InOut.take_turns (queue_line two_slots) 2 (InOut.begin fresh_queue) echoing)
unfolding InOut.take_turns InOut.take_turn InOut.begin InOut.writer_step InOut.reader_step push
    push_pass push_case fill settle_write advance_write pop pop_pass pop_case drain settle_read
    advance_read slot compare_exchange forever is_full
take_turns-IsEchoed_example =
    take_turns-IsEchoed (queue_line two_slots) 2 fresh_queue echoing (omega arith) (0, fresh-Serves)
      refl refl

-- The consumer hashes the first number, finds the queue empty, and ends after the producer has pushed
-- the second and left.
abbrev left_behind : List Merge.Turn
left_behind =
    Merge.makes 0
    ∷ Merge.makes 0
    ∷ Merge.waits
    ∷ Merge.takes
    ∷ Merge.takes
    ∷ Merge.takes
    ∷ Merge.takes
    ∷ Merge.takes
    ∷ Merge.makes 0
    ∷ Merge.takes
    ∷ Merge.makes 0
    ∷ Merge.makes 0
    ∷ Merge.makes 0
    ∷ Merge.takes
    ∷ []

abbrev merged : Merge.Merge (queue_line two_slots)
merged =
    Merge.take_turns (queue_line two_slots) two_values
      (Merge.begin (queue_line two_slots) two_values fresh_queue) left_behind

left_behind_over : AllOver two_values merged
unfolding Merge.take_turns Merge.take_turn Merge.begin Merge.source_step Merge.sink_step push
    push_pass push_case fill settle_write advance_write pop pop_pass pop_case drain settle_read
    advance_read slot compare_exchange forever is_full is_empty make_signature add_value
left_behind_over = (makers, refl)
  where
    makers : (p : ℕ) → p < 1 → merged.maker p ≡ made
    makers zero within = refl
    makers (suc p) within = absurd (omega arith)

take_turns-IsMerged_example : IsMerged two_values merged 0
take_turns-IsMerged_example =
    take_turns-IsMerged (queue_line two_slots) two_values fresh_queue left_behind (omega arith)
      (omega arith) (0, fresh-Serves) left_behind_over 0 (omega arith)
