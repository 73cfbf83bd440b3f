-- ===== src/Gtest/FullEmpty.antt =====
-- src/gtest_mpmc_queue.cpp: the tests that fill a queue, empty it and count.
use native.Mathlib.Nat.{pow-le-pow_right}
use lockfree_mpmc_queue.Base.{
  ℕ, suc, ◌+◌, ◌-◌, ◌*◌, ◌≤◌, ◌<◌, ◌^◌, ◌≡◌, refl, sym, Bool, true, Option, some, [], arith, ◌==◌,
  ==_of_eq, ◌&&◌,
}
use lockfree_mpmc_queue.Fifo.{empty}
use lockfree_mpmc_queue.Queue.{Config, Queue}
use lockfree_mpmc_queue.Queue.Serves.{Serves}
use lockfree_mpmc_queue.Queue.Glance.{capacity}
use lockfree_mpmc_queue.Gtest.{test_full_empty, test_size, test_full_empty_index}
use lockfree_mpmc_queue.Gtest.Counting.{numbers}
use lockfree_mpmc_queue.Gtest.Rounds.{ServesFrom}
use lockfree_mpmc_queue.Gtest.Fills.{
  capacity-Serves, push_round-fills, push_index_round-fills, pop_round-drains, take_round-drains,
}

-- What the tests of a filled and emptied queue expect.
pub counted :
    (c : Config) {q : Queue}
    → capacity q ≡ c.size
    → ◌≡◌ {A = Option (Bool × Queue)}
        (some (c.size == c.size && c.size == capacity q, q))
        (some (true, q))
counted c {q} e = rw (==_of_eq c.size c.size refl, ==_of_eq c.size (capacity q) (sym e)) refl

-- A test returns with its expectations met, and leaves the queue empty.
abbrev pub Passes : Config → (Queue → Option (Bool × Queue)) → Queue → ℕ → Type 0
Passes c test q h = (q' : Queue) × (test q ≡ some (true, q')) × ServesFrom c q' h []

module _ (c : Config) (inner fuel : ℕ) (q : Queue) (enough : c.size < fuel)
    (start : Serves c q empty) where
  -- On a queue that serves the empty list, with a size below 2^31, `testFullEmpty1` passes.
  pub test_full_empty-Passes :
      c.size * 2 < 2 ^ 32 → Passes c (test_full_empty (suc (suc inner)) fuel) q (c.size * 2)
  unfolding test_full_empty
  test_full_empty-Passes small =
      let (q1, ran1, full1) =
        push_round-fills inner 0 0 c.size (omega arith) (omega arith) fuel q enough start in
      let (q2, ran2, empty2) =
        pop_round-drains inner 0 c.size 0 (omega arith) (omega arith) fuel 0 q1 enough refl full1 in
      let (q3, ran3, full3) =
        push_round-fills inner c.size c.size (c.size * 2) (omega arith) (omega arith) fuel q2 enough
          empty2 in
      let (q4, ran4, empty4) =
        pop_round-drains inner c.size (c.size * 2) c.size (omega arith) (omega arith) fuel
          (capacity q3) q3 enough (capacity-Serves full3) full3 in
      (q4, rw ran1 (rw ran2 (rw ran3 (rw ran4 (counted c (capacity-Serves empty4))))), empty4)

  -- On a queue that serves the empty list, with a size below 2^32 - 1, the test of a size passes: as
  -- many pushes succeed as the capacity says.
  pub test_size-Fills :
      c.size + 1 < 2 ^ 32
      → (q' : Queue) × (test_size (suc (suc inner)) fuel q ≡ some (true, q'))
        × ServesFrom c q' 0 (numbers 0 c.size)
  unfolding test_size
  test_size-Fills small =
      let (q', ran, full) =
        push_round-fills inner 0 0 c.size (omega arith) (omega arith) fuel q enough start in
      (q', rw ran (rw (==_of_eq c.size (capacity q') (sym (capacity-Serves full))) refl), full)

  -- On a queue that serves the empty list, with a size of which thrice is at most half the range of an
  -- index and below 2^32, `testFullEmptyIndex` passes.
  pub test_full_empty_index-Passes :
      c.size * 3 ≤ 2 ^ (c.bits - 1)
      → c.size * 3 < 2 ^ 32
      → Passes c (test_full_empty_index (suc (suc inner)) fuel) q (c.size * 2)
  unfolding test_full_empty_index
  test_full_empty_index-Passes low small =
      let wide =
        pow-le-pow_right {n = 2} (omega arith) {i = c.bits - 1} {j = c.bits} (omega arith) in
      let (q1, ran1, full1) =
        push_index_round-fills inner 0 0 c.size (omega arith) (omega arith) fuel 0 q enough refl
          (omega (arith, wide)) start in
      let (q2, ran2, empty2) =
        take_round-drains inner 0 c.size 0 (omega arith) (omega arith) fuel 0 0 q1 enough refl refl
          (omega arith) full1 in
      let (q3, ran3, full3) =
        push_index_round-fills inner c.size c.size (c.size * 2) (omega arith) (omega arith) fuel
          (capacity q2) q2 enough (capacity-Serves empty2) (omega (arith, wide)) empty2 in
      let (q4, ran4, empty4) =
        take_round-drains inner c.size (c.size * 2) c.size (omega arith) (omega arith) fuel
          (capacity q3) (capacity q3) q3 enough (capacity-Serves full3) (capacity-Serves full3)
          (omega arith) full3 in
      (q4, rw ran1 (rw ran2 (rw ran3 (rw ran4 (counted c (capacity-Serves empty4))))), empty4)
