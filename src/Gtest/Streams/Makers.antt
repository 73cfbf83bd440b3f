-- ===== src/Gtest/Streams/Makers.antt =====
-- src/gtest_mpmc_queue.cpp, the test hash3: the steps of a producer.
use native.Mathlib.Nat.{mod-eq_of_lt, mod-lt}
use lockfree_mpmc_queue.Base.{
  ℕ, suc, ◌+◌, ◌*◌, ◌≤◌, ◌<◌, ◌≡◌, ◌≢◌, ◌^◌, refl, ap, ◌∙◌, subst, inl, inr, Bool-cases, List, ltb,
  update, update_self, update_ne, arith, ltb_of_lt, ==_of_eq, ◌==◌, if◌then◌else◌,
}
use lockfree_mpmc_queue.Base.Word.{cast}
use lockfree_mpmc_queue.Hash.{Signature, add_value}
use lockfree_mpmc_queue.Service.{Service, weigh}
use lockfree_mpmc_queue.Service.Totals.{total}
use lockfree_mpmc_queue.Gtest.Streams.{
  data3, value_of, seq_of, id_of, Plan, Maker, hashing, pushing, leaving, made, HashTest,
  maker_step,
}
use lockfree_mpmc_queue.Gtest.Streams.Kept.{
  chain, carries, of, bad, pushed, hashed, IsMaker, Kept, update-each,
}

-- The fields of a `Data3` that was put together.
value_of-data3 : (v seq id : ℕ) → v < 2 ^ 32 → value_of (data3 v seq id) ≡ v
value_of-data3 v seq id small = omega arith

seq_of-data3 : (v seq id : ℕ) → v < 2 ^ 32 → seq < 2 ^ 32 → seq_of (data3 v seq id) ≡ seq
seq_of-data3 v seq id small few = omega arith

id_of-data3 : (v seq id : ℕ) → v < 2 ^ 32 → seq < 2 ^ 32 → id_of (data3 v seq id) ≡ id
id_of-data3 v seq id small few = omega arith

module _ {S : Service} {u : Plan} {b : HashTest S} (v : Kept u b) (p : ℕ)
    (known : p < u.producers) where
  -- The producer moves: what its step owes to the invariant.
  Kept-maker_moved :
      (q : S.State) (n : ℕ) (hin : ℕ → Signature) (m : Maker) (rest : List ℕ)
      → S.Holds q rest
      → weigh (bad u) rest ≡ 0
      → (weigh (of p) rest + pushed u (b.maker p) ≡ weigh (of p) v.held + pushed u m)
      → ((r : ℕ) → r ≢ p → weigh (of r) rest ≡ weigh (of r) v.held)
      → hin p ≡ chain (hashed u m)
      → ((r : ℕ) → r ≢ p → hin r ≡ b.hin r)
      → IsMaker u m
      → Kept u (record b { queue = q; producers_count = n; hin = hin; maker = update b.maker p m })
  Kept-maker_moved q n hin m rest holds good mine theirs hashed_here hashed_elsewhere at = record {
    held = rest;
    done = v.done;
    holds = holds;
    good = good;
    counts =
        update-each
          (λ r m.
            r < u.producers
            → weigh (of r) rest + total u.consumers (λ j. carries r (b.taker j)) + v.done r
              ≡ pushed u m)
          b.maker p m (λ k. omega (arith, v.counts p known, mine))
          (λ r ne also. omega (arith, v.counts r also, theirs r ne));
    locked = v.locked;
    hin_is =
        update-each (λ r m. r < u.producers → hin r ≡ chain (hashed u m)) b.maker p m
          (λ k. hashed_here) (λ r ne also. hashed_elsewhere r ne ∙ v.hin_is r also);
    hout_is = v.hout_is;
    makers = update-each (λ r m. IsMaker u m) b.maker p m at (λ r ne. v.makers r);
    takers = v.takers;
    matched = v.matched;
  }

  -- The queue changes, and the producer stays where it is.
  Kept-refused :
      (q : S.State) (rest : List ℕ)
      → S.Holds q rest
      → ((w : ℕ → ℕ) → weigh w rest ≡ weigh w v.held)
      → Kept u (record b { queue = q })
  Kept-refused q rest holds same = record {
    held = rest;
    done = v.done;
    holds = holds;
    good = same (bad u) ∙ v.good;
    counts = λ r also. omega (arith, v.counts r also, same (of r));
    locked = v.locked;
    hin_is = v.hin_is;
    hout_is = v.hout_is;
    makers = v.makers;
    takers = v.takers;
    matched = v.matched;
  }

  -- An element that the test pushes.
  bad-data3 : (i : ℕ) → i < 2 ^ 32 → bad u (data3 (cast 32 (i * i)) i p) ≡ 0
  bad-data3 i few =
      let small = mod-lt (i * i) {m = 2 ^ 32} (omega arith) in
      rw
        (
          id_of-data3 (cast 32 (i * i)) i p small few,
          seq_of-data3 (cast 32 (i * i)) i p small few,
          value_of-data3 (cast 32 (i * i)) i p small,
          ltb_of_lt p u.producers known,
          ==_of_eq (cast 32 (i * i)) (cast 32 (i * i)) refl,
        )
        refl

  of-data3 : (i r : ℕ) → i < 2 ^ 32 → of r (data3 (cast 32 (i * i)) i p) ≡ (if p == r then 1 else 0)
  of-data3 i r few =
      rw (id_of-data3 (cast 32 (i * i)) i p (mod-lt (i * i) {m = 2 ^ 32} (omega arith)) few) refl

  pub Kept-maker : u.loops < 2 ^ 32 → (m : Maker) → b.maker p ≡ m → Kept u (maker_step S u b p p m)
  unfolding maker_step
  Kept-maker few (hashing i) e = elim (Bool-cases (ltb i u.loops)) [
    | inl more ↦ rw more (
        Kept-maker_moved b.queue b.producers_count _ (pushing i) v.held v.holds v.good (rw e refl)
          (λ r ne. refl)
          (update_self b.hin p _
            ∙ ap (λ s. add_value s (cast 32 (i * i))) (v.hin_is p known ∙ rw e refl))
          (λ r ne. update_ne b.hin p r _ ne) (ground (arith, more)))
    | inr over ↦
        let at : i ≤ u.loops = subst (IsMaker u) e (v.makers p) in
        let all : i ≡ u.loops = ground (arith, over, at) in
        rw over (
          Kept-maker_moved b.queue b.producers_count b.hin leaving v.held v.holds v.good
            (rw e (omega (arith, all))) (λ r ne. refl) (v.hin_is p known ∙ rw e (ap chain all))
            (λ r ne. refl) tt)
  ]
  Kept-maker few (pushing i) e =
      let d = data3 (cast 32 (i * i)) i p in
      let at : i < u.loops = subst (IsMaker u) e (v.makers p) in
      let (q, ys, holds, outcome) = S.push_law b.queue v.held p d v.holds in
      elim outcome [
        | inl (took, same) ↦
            let next : cast 32 (i + 1) ≡ suc i =
              mod-eq_of_lt (omega (arith, few, at)) ∙ omega arith in
            rw (took, maker_step)
              (rw next (
                Kept-maker_moved q b.producers_count b.hin (hashing (suc i)) ys holds
                  (omega (arith, same (bad u), bad-data3 i (omega (arith, few, at)), v.good))
                  (rw e (ground (arith, same (of p), of-data3 i p (omega (arith, few, at)))))
                  (λ r ne. ground (arith, same (of r), of-data3 i r (omega (arith, few, at)), ne))
                  (v.hin_is p known ∙ rw e refl) (λ r ne. refl) at))
        | inr (refused, same) ↦ rw (refused, maker_step) (Kept-refused q ys holds same)
      ]
  Kept-maker few leaving e =
      Kept-maker_moved b.queue _ b.hin made v.held v.holds v.good (rw e refl) (λ r ne. refl)
        (v.hin_is p known ∙ rw e refl) (λ r ne. refl) tt
  Kept-maker few made e = v
