-- ===== src/Relay/Steps.antt =====
-- src/example2.cpp: what the steps of a thread of the race do to its sums.
use native.Mathlib.Nat.{mod-eq_of_lt, mod-lt}
use lockfree_mpmc_queue.Base.{
  ℕ, suc, ◌+◌, ◌^◌, ◌≤◌, ◌<◌, ◌≡◌, refl, ap, ◌∙◌, subst, inl, inr, Bool-cases, arith, ltb,
}
use lockfree_mpmc_queue.Base.Word.{cast}
use lockfree_mpmc_queue.Service.{Service}
use lockfree_mpmc_queue.Relay.{
  Plan, Place, working, reporting, ended, Race, producer_step, consumer_step,
}
use lockfree_mpmc_queue.Relay.Kept.{triangle, IsPlace, Kept, ProducerKeeps, ConsumerKeeps}

cast-lt : (n : ℕ) → cast 64 n < 2 ^ 64
cast-lt n = mod-lt n (omega arith)

module _ {S : Service} {u : Plan} {b : Race S} (few : u.rounds < 2 ^ 32) (v : Kept u b)
    (i : ℕ) where
  pub ProducerKeeps-step :
      (p : Place) → b.producer i ≡ p → ProducerKeeps v i (producer_step S u b.queue b.prod_sum i p)
  unfolding producer_step
  ProducerKeeps-step (working x m) e = elim (Bool-cases (ltb x u.rounds)) [
    | inr over ↦ rw over (record {
      rest = v.held;
      still_holds = v.holds;
      counted = rw e (ground (arith, over, at_place));
      summed = rw e refl;
      made =
          rw e (ap (λ k. cast 64 (b.prod_sum + m + triangle k)) (ground (arith, over, at_place)));
      stands = tt;
      in_word = v.in_words.0;
    })
    | inl more ↦
        let next : cast 32 (x + 1) ≡ suc x = mod-eq_of_lt (ground (arith, more)) ∙ omega arith in
        let (q', ys, holds, outcome) = S.push_law b.queue v.held i x v.holds in
        elim outcome [
          | inl (pushed, same) ↦ rw more (
              rw (pushed, producer_step)
                (rw next (record {
                  rest = ys;
                  still_holds = holds;
                  counted = rw e (omega (arith, same (λ x. 1)));
                  summed = rw e (omega (arith, same (λ x. x)));
                  made = rw e (omega arith);
                  stands = ground (arith, more);
                  in_word = v.in_words.0;
                })))
          | inr (refused, same) ↦ rw more (
              rw (refused, producer_step)
                (record {
                  rest = ys;
                  still_holds = holds;
                  counted = rw e (omega (arith, same (λ x. 1)));
                  summed = rw e (omega (arith, same (λ x. x)));
                  made = rw e refl;
                  stands = at_place;
                  in_word = v.in_words.0;
                }))
        ]
  ]
    where
      at_place : x ≤ u.rounds
      at_place = subst (IsPlace u.rounds) e (v.producers_at i)
  ProducerKeeps-step (reporting m) e = record {
    rest = v.held;
    still_holds = v.holds;
    counted = rw e refl;
    summed = rw e (omega arith);
    made = rw e (omega arith);
    stands = tt;
    in_word = cast-lt (b.prod_sum + m);
  }
  ProducerKeeps-step ended e = record {
    rest = v.held;
    still_holds = v.holds;
    counted = rw e refl;
    summed = rw e refl;
    made = rw e refl;
    stands = tt;
    in_word = v.in_words.0;
  }

  pub ConsumerKeeps-step :
      (p : Place) → b.consumer i ≡ p → ConsumerKeeps v i (consumer_step S u b.queue b.cons_sum i p)
  unfolding consumer_step
  ConsumerKeeps-step (working x m) e = elim (Bool-cases (ltb x u.rounds)) [
    | inr over ↦ rw over (record {
      rest = v.held;
      still_holds = v.holds;
      counted = rw e (ground (arith, over, at_place));
      summed = rw e refl;
      stands = tt;
      in_word = v.in_words.1;
    })
    | inl more ↦
        let next : cast 32 (x + 1) ≡ suc x = mod-eq_of_lt (ground (arith, more)) ∙ omega arith in
        let (q', ys, holds, outcome) = S.pop_law b.queue v.held i v.holds in
        elim outcome [
          | inl (y, popped, same) ↦ rw more (
              rw (popped, consumer_step)
                (rw next (record {
                  rest = ys;
                  still_holds = holds;
                  counted = rw e (omega (arith, same (λ x. 1)));
                  summed = rw e (omega (arith, same (λ x. x)));
                  stands = ground (arith, more);
                  in_word = v.in_words.1;
                })))
          | inr (nothing, same, gone) ↦ rw more (
              rw (nothing, consumer_step)
                (record {
                  rest = ys;
                  still_holds = holds;
                  counted = rw e (omega (arith, same (λ x. 1), gone (λ x. 1)));
                  summed = rw e (omega (arith, same (λ x. x), gone (λ x. x)));
                  stands = at_place;
                  in_word = v.in_words.1;
                }))
        ]
  ]
    where
      at_place : x ≤ u.rounds
      at_place = subst (IsPlace u.rounds) e (v.consumers_at i)
  ConsumerKeeps-step (reporting m) e = record {
    rest = v.held;
    still_holds = v.holds;
    counted = rw e refl;
    summed = rw e (omega arith);
    stands = tt;
    in_word = cast-lt (b.cons_sum + m);
  }
  ConsumerKeeps-step ended e = record {
    rest = v.held;
    still_holds = v.holds;
    counted = rw e refl;
    summed = rw e refl;
    stands = tt;
    in_word = v.in_words.1;
  }
