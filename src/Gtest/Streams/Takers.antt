-- ===== src/Gtest/Streams/Takers.antt =====
-- src/gtest_mpmc_queue.cpp, the test hash3: the steps of a consumer.
use lockfree_mpmc_queue.Base.{
  ℕ, suc, ◌+◌, ◌*◌, ◌≤◌, ◌<◌, ◌≡◌, ◌^◌, refl, sym, ap, ◌∙◌, subst, ap₂, inl, inr, true, false,
  Bool-cases, ltb, ◌==◌, update, update_self, update_ne, arith, ==_of_eq, eq_of_==,
}
use native.Mathlib.Decide.{ℕ_discrete}
use native.Mathlib.Nat.{mod-eq_of_lt}
use lockfree_mpmc_queue.Base.Word.{cast}
use lockfree_mpmc_queue.Hash.{Signature, add_value}
use lockfree_mpmc_queue.Service.{Service}
use lockfree_mpmc_queue.Service.Totals.{total, total_part}
use lockfree_mpmc_queue.Gtest.Streams.{
  value_of, seq_of, id_of, Plan, Taker, looking, asking, popping, finished, locking, checking,
  adding, retreating, unlocking, HashTest, taker_step,
}
use lockfree_mpmc_queue.Gtest.Streams.Kept.{
  chain, chain-count, update-each, of, bad, inside, faults, IsMatched, Kept, Moved, Kept-moved,
}
use lockfree_mpmc_queue.Gtest.Streams.Changes.{
  stepped, switched, popped, bit-taken, bit-freed, pushed-loops, bad-known, bad-value,
}

module _ {S : Service} {u : Plan} {b : HashTest S} (few : u.loops < 2 ^ 32) (v : Kept u b) (j : ℕ)
    (within : j < u.consumers) where
  -- Who holds an element's lock finds it locked.
  lock-taken :
      (d : ℕ) (t : Taker) → b.taker j ≡ t → inside (id_of d) t ≡ 1 → b.locks (id_of d) ≡ true
  lock-taken d t e one = elim (Bool-cases (b.locks (id_of d))) [
    | inl taken ↦ taken
    | inr free ↦
        let p = id_of d in
        let none_in : total u.consumers (λ k. inside p (b.taker k)) ≡ 0 =
          v.locked p ∙ rw free refl in
        let in_one : inside p (b.taker j) ≡ 1 = ap (inside p) e ∙ one in
        absurd (
          omega
            (arith, none_in, in_one, total_part u.consumers (λ k. inside p (b.taker k)) j within))
  ]

  of_self : (d : ℕ) → of (id_of d) d ≡ 1
  of_self d = rw (==_of_eq (id_of d) (id_of d) refl) refl

  done-loops : (p : ℕ) → p < u.producers → v.done p ≤ u.loops
  done-loops p known = omega (arith, v.counts p known, pushed-loops u (b.maker p) (v.makers p))

  -- The number that the count asks for is the next of the producer.
  due :
      (d : ℕ)
      → bad u d ≡ 0
      → (seq_of d == (b.hout (id_of d)).count) ≡ true
      → seq_of d ≡ v.done (id_of d)
  due d sound next =
      let p = id_of d in
      eq_of_== _ _ next
      ∙ ap (λ (s : Signature). s.count) (v.hout_is p)
      ∙ chain-count (v.done p)
      ∙ mod-eq_of_lt (omega (arith, few, done-loops p (bad-known u d sound)))

  abbrev added : (d : ℕ) → b.taker j ≡ adding d → Moved v j
  added d e = record {
    queue = b.queue;
    hout = update b.hout (id_of d) (add_value (b.hout (id_of d)) (value_of d));
    locks = b.locks;
    place = unlocking d;
    rest = v.held;
    done' = more;
    still_holds = v.holds;
    still_good = v.good;
    same_count = λ p. rw e (omega (arith, grown p));
    same_locked = λ p. rw e refl;
    still_hout =
        update-each (λ p s. s ≡ chain (more p)) b.hout (id_of d) _ next
          (λ p ne. v.hout_is p ∙ ap chain (sym (update_ne v.done (id_of d) p _ ne)));
    no_fault = refl;
    is_matched = tt;
    others = λ p. elim (ℕ_discrete p (id_of d)) [
      | yes here ↦ inr (rw (e, here) (of_self d))
      | no ne ↦ inl (update_ne v.done (id_of d) p _ ne)
    ];
  }
    where
      more : ℕ → ℕ
      more = update v.done (id_of d) (suc (v.done (id_of d)))

      grown : (p : ℕ) → more p ≡ of p d + v.done p
      grown p = elim (ℕ_discrete p (id_of d)) [
        | yes here ↦
            rw
              (
                here,
                update_self v.done (id_of d) (suc (v.done (id_of d))),
                ==_of_eq (id_of d) (id_of d) refl,
              )
              (omega arith)
        | no ne ↦ rw (update_ne v.done (id_of d) p (suc (v.done (id_of d))) ne) (ground (arith, ne))
      ]

      seq_is : seq_of d ≡ v.done (id_of d)
      seq_is = subst (IsMatched v.done) e (v.matched j within)

      next : add_value (b.hout (id_of d)) (value_of d) ≡ chain (more (id_of d))
      next =
          ap₂ add_value (v.hout_is (id_of d)) (
            bad-value u d (subst (λ t. faults u t ≡ 0) e (v.takers j))
            ∙ ap (λ k. cast 32 (k * k)) seq_is)
          ∙ ap chain (sym (update_self v.done (id_of d) (suc (v.done (id_of d)))))

  pub Kept-taker : (t : Taker) → b.taker j ≡ t → Kept u (taker_step S b j t)
  unfolding taker_step
  Kept-taker looking e = elim (Bool-cases (S.is_empty b.queue)) [
    | inl empty ↦
        rw empty
          (Kept-moved v j within (stepped v j asking (λ p. rw e refl) (λ p. rw e refl) refl tt))
    | inr not_empty ↦
        rw not_empty
          (Kept-moved v j within (stepped v j popping (λ p. rw e refl) (λ p. rw e refl) refl tt))
  ]
  Kept-taker asking e = elim (Bool-cases (ltb 0 b.producers_count)) [
    | inl some_left ↦
        rw some_left
          (Kept-moved v j within (stepped v j popping (λ p. rw e refl) (λ p. rw e refl) refl tt))
    | inr none_left ↦
        rw none_left
          (Kept-moved v j within (stepped v j finished (λ p. rw e refl) (λ p. rw e refl) refl tt))
  ]
  Kept-taker popping e =
      let (q, ys, holds, outcome) = S.pop_law b.queue v.held j v.holds in
      elim outcome [
        | inl (d, got, same) ↦
            rw (got, taker_step)
              (Kept-moved v j within (
                popped v j q ys (locking d) holds (omega (arith, same (bad u), v.good))
                  (λ p. rw e (omega (arith, same (of p)))) (λ p. rw e refl)
                  (omega (arith, same (bad u), v.good)) tt))
        | inr (nothing, same, gone) ↦
            rw (nothing, taker_step)
              (Kept-moved v j within (
                popped v j q ys looking holds (omega (arith, gone (bad u)))
                  (λ p. rw e (omega (arith, same (of p), gone (of p)))) (λ p. rw e refl) refl tt))
      ]
  Kept-taker (locking d) e = elim (Bool-cases (b.locks (id_of d))) [
    | inl taken ↦ rw taken v
    | inr free ↦ rw free (
        Kept-moved v j within (
          switched v j d (checking d) true (λ p. rw e refl)
            (λ p. rw e (omega (arith, bit-taken v j d p free)))
            (subst (λ t. faults u t ≡ 0) e (v.takers j)) tt))
  ]
  Kept-taker (checking d) e =
      let sound : bad u d ≡ 0 = subst (λ t. faults u t ≡ 0) e (v.takers j) in
      elim (Bool-cases (seq_of d == (b.hout (id_of d)).count)) [
        | inl next ↦ rw next (
            Kept-moved v j within
              (stepped v j (adding d) (λ p. rw e refl) (λ p. rw e refl) sound (due d sound next)))
        | inr early ↦ rw early (
            Kept-moved v j within
              (stepped v j (retreating d) (λ p. rw e refl) (λ p. rw e refl) sound tt))
      ]
  Kept-taker (adding d) e = Kept-moved v j within (added d e)
  Kept-taker (retreating d) e = Kept-moved v j within (
      switched v j d (locking d) false (λ p. rw e refl)
        (λ p. rw e (omega (arith, bit-freed v j d p (lock-taken d (retreating d) e (of_self d)))))
        (subst (λ t. faults u t ≡ 0) e (v.takers j)) tt)
  Kept-taker (unlocking d) e = Kept-moved v j within (
      switched v j d looking false (λ p. rw e refl)
        (λ p. rw e (omega (arith, bit-freed v j d p (lock-taken d (unlocking d) e (of_self d)))))
        refl tt)
  Kept-taker finished e = v
