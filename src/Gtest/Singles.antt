-- ===== src/Gtest/Singles.antt =====
-- src/gtest_mpmc_queue.cpp: the tests that push and pop a few values, and that exchange one.
use native.Mathlib.Nat.{mod-eq_of_lt, pow-le-pow_right}
use lockfree_mpmc_queue.Base.{
  ℕ, suc, ◌+◌, ◌≤◌, ◌<◌, ◌^◌, ◌≡◌, refl, ◌∙◌, List, [], ◌∷◌, arith, ==_of_eq, subst, ap,
}
use lockfree_mpmc_queue.Base.Word.{cast}
use lockfree_mpmc_queue.Fifo.{empty}
use lockfree_mpmc_queue.Queue.{Config, Queue}
use lockfree_mpmc_queue.Queue.Serves.{Serves}
use lockfree_mpmc_queue.Queue.Shape.{size_pos}
use lockfree_mpmc_queue.Queue.Calls.KeepN.{pop-Pops}
use lockfree_mpmc_queue.Queue.Glance.Exchange.{exchange-Exchanges}
use lockfree_mpmc_queue.Gtest.{numbered_trip, trip, test_push_pop, test_push_pop_one, test_exchange}
use lockfree_mpmc_queue.Gtest.Rounds.{ServesFrom, push_index-room, push-room, and_pop-next}
use lockfree_mpmc_queue.Gtest.FullEmpty.{Passes}

pub Serves-size_pos :
    {c : Config} {q : Queue} {h : ℕ} {xs : List ℕ} → ServesFrom c q h xs → 0 < c.size
Serves-size_pos s = subst (λ (c : Config). 0 < c.size) s.config_is (size_pos s.holds.shape)

pub Serves-wide :
    {c : Config} {q : Queue} {h : ℕ} {xs : List ℕ} → ServesFrom c q h xs → 4 ≤ 2 ^ c.bits
Serves-wide s =
    subst (λ (c : Config). 4 ≤ 2 ^ c.bits) s.config_is
      (pow-le-pow_right {n = 2} (omega arith) {i = 2} (omega (arith, s.holds.shape.wide)))

module _ {c : Config} {q : Queue} (inner h d : ℕ) (s : ServesFrom c q h []) where
  -- One value goes in and comes out, with its number.
  numbered_trip-Passes :
      (i : ℕ) → cast c.bits h ≡ i → Passes c (numbered_trip (suc (suc inner)) d i) q (h + 1)
  unfolding numbered_trip
  numbered_trip-Passes i number =
      let (q1, pushed, held) = push_index-room inner h [] d s (Serves-size_pos s) in
      let (q2, got, left) = and_pop-next inner h d i d [] held refl number in
      let first : cast c.bits (h + 0) ≡ i = ap (cast c.bits) (omega arith) ∙ number in
      (q2, rw (pushed, ==_of_eq (cast c.bits (h + 0)) i first) got, left)

  trip-Passes : Passes c (trip (suc (suc inner)) d) q (h + 1)
  unfolding trip
  trip-Passes =
      let (q1, pushed, held) = push-room inner h [] d s (Serves-size_pos s) in
      let (q2, got, left) = pop-Pops _ inner held in
      (q2, rw pushed (rw got (rw (==_of_eq d d refl) refl)), left)

module _ (c : Config) (inner : ℕ) (q : Queue) (start : Serves c q empty) where
  -- On a queue that serves the empty list, `testPushPopOne` passes.
  pub test_push_pop_one-Passes : Passes c (test_push_pop_one (suc (suc inner))) q 5
  unfolding test_push_pop_one
  test_push_pop_one-Passes =
      let wide = Serves-wide start in
      let (q1, ran1, s1) =
        numbered_trip-Passes inner 0 11 start 0 (mod-eq_of_lt (omega (arith, wide))) in
      let (q2, ran2, s2) =
        numbered_trip-Passes inner 1 22 s1 1 (mod-eq_of_lt (omega (arith, wide))) in
      let (q3, ran3, s3) = trip-Passes inner 2 33 s2 in
      let (q4, ran4, s4) = trip-Passes inner 3 44 s3 in
      let (q5, ran5, s5) = trip-Passes inner 4 55 s4 in
      (q5, rw ran1 (rw ran2 (rw ran3 (rw ran4 (rw ran5 refl)))), s5)

  -- On a queue that serves the empty list, `testPushPop` passes.
  pub test_push_pop-Passes : Passes c (test_push_pop (suc (suc inner))) q 2
  unfolding test_push_pop
  test_push_pop-Passes =
      let (q1, ran1, s1) = push-room inner 0 [] 199 start (Serves-size_pos start) in
      let (q2, ran2, s2) = pop-Pops _ inner s1 in
      let (q3, ran3, s3) = push-room inner 1 [] 199 s2 (Serves-size_pos start) in
      let (q4, ran4, s4) = pop-Pops _ inner s3 in
      (q4, rw ran1 (rw ran2 (rw ran3 (rw ran4 refl))), s4)

  -- On a queue that serves the empty list, with at least four slots, `Exchange32` and `Exchange64` pass:
  -- the first exchange of the third element finds its old value, the second does not.
  pub test_exchange-Passes : 4 ≤ c.size → Passes c (test_exchange (suc (suc inner))) q 4
  unfolding test_exchange
  test_exchange-Passes room =
      let (q1, ran1, s1) = push-room inner 0 [] 1 start (omega arith) in
      let (q2, ran2, s2) = push-room inner 0 (1 ∷ []) 2 s1 (omega arith) in
      let (q3, ran3, s3) = push_index-room inner 0 (1 ∷ 2 ∷ []) 3 s2 (omega arith) in
      let (q4, ran4, s4) = push-room inner 0 (1 ∷ 2 ∷ 3 ∷ []) 4 s3 (omega arith) in
      let (q5, ran5, s5) = exchange-Exchanges _ 2 3 17 s4 (omega arith) in
      let (q6, ran6, s6) = exchange-Exchanges _ 2 3 99 s5 (omega arith) in
      let (q7, ran7, s7) = pop-Pops _ inner s6 in
      let (q8, ran8, s8) = pop-Pops _ inner s7 in
      let (q9, ran9, s9) = pop-Pops _ inner s8 in
      let (q10, ran10, s10) = pop-Pops _ inner s9 in
      (
        q10,
        rw ran1 (
            rw ran2 (
              rw ran3 (rw ran4 (rw ran5 (rw ran6 (rw ran7 (rw ran8 (rw ran9 (rw ran10 refl))))))))),
        s10,
      )
