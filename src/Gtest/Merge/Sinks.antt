-- ===== src/Gtest/Merge/Sinks.antt =====
-- src/gtest_mpmc_queue.cpp, the test hash2: the steps of the consumer.
use lockfree_mpmc_queue.Base.{
  ℕ, zero, suc, ◌^◌, ◌<◌, ◌≡◌, refl, sym, ap, ap₂, ◌∙◌, subst, inl, inr, Bool, Bool-cases, List, [],
  ◌∷◌, ◌++◌, ltb, ◌==◌, update, update_ne, arith, ==_of_eq, eq_of_==,
}
use lockfree_mpmc_queue.Hash.{add_value}
use lockfree_mpmc_queue.Service.Lines.{Line}
use lockfree_mpmc_queue.Gtest.Streams.{Plan}
use lockfree_mpmc_queue.Gtest.Streams.Changes.{pushed-loops}
use lockfree_mpmc_queue.Gtest.Merge.{
  data2, v_of, hindex_of, Sink, looking, asking, popping, locking, adding, unlocking, finished,
  Merge, sink_step,
}
use lockfree_mpmc_queue.Gtest.Merge.Kept.{only, stream, hand, Flow, Kept, v_of-data2}

-- The first of the elements that a producer pushes from `k` on.
first :
    (p d : ℕ) (xs : List ℕ) (k n : ℕ)
    → d ∷ xs ≡ stream p k n
    → (m : ℕ) × (n ≡ suc m) × (d ≡ data2 k p) × (xs ≡ stream p (suc k) m)
first p d xs k zero e = absurd (cc e)
first p d xs k (suc m) e = (m, refl, cc e, cc e)

module _ {L : Line} {u : Plan} {b : Merge L} (few : u.loops < 2 ^ 64) (v : Kept u b) where
  -- What is on its way stays the same.
  Kept-carried :
      (q : L.State) (ys : List ℕ) (locks : ℕ → Bool) (s : Sink)
      → L.Holds q ys
      → hand s ++ ys ≡ hand b.sink ++ v.held
      → Kept u (record b { queue = q; locks = locks; sink = s })
  Kept-carried q ys locks s holds same = record {
    held = ys;
    holds = holds;
    flows = λ p known.
        subst (λ xs. Flow u p (b.maker p) xs (b.hin p) (b.hout p)) (sym same) (v.flows p known);
  }

  -- The element of the consumer is the next of its producer, and is hashed.
  Flow-added :
      (d p : ℕ)
      → p < u.producers
      → b.sink ≡ adding d
      → Flow u p
          (b.maker p)
          v.held
          (b.hin p)
          (update b.hout (hindex_of d) (add_value (b.hout (hindex_of d)) (v_of d)) p)
  Flow-added d p known e =
      let f = v.flows p known in
      let order : only p (d ∷ v.held) ≡ stream p f.done f.left =
        ap (λ s. only p (hand s ++ v.held)) (sym e) ∙ f.order in
      elim (Bool-cases (hindex_of d == p)) [
        | inl mine ↦
            let (n, more, next, rest) =
              first p d (only p v.held) f.done f.left (rw mine at order) in
            let here : hindex_of d ≡ p = eq_of_== _ _ mine in
            let small : f.done < 2 ^ 64 =
              omega (arith, few, f.total, more, pushed-loops u (b.maker p) f.at) in
            record {
              done = suc f.done;
              left = n;
              total = omega (arith, f.total, more);
              order = rest;
              in_is = f.in_is;
              out_is =
                  rw (here, ==_of_eq p p refl)
                    (ap₂ add_value f.out_is (ap v_of next ∙ v_of-data2 f.done p small));
              at = f.at;
            }
        | inr other ↦ record {
          done = f.done;
          left = f.left;
          total = f.total;
          order = rw other at order;
          in_is = f.in_is;
          out_is = update_ne b.hout (hindex_of d) p _ (ground (arith, other)) ∙ f.out_is;
          at = f.at;
        }
      ]

  pub Kept-sink : (s : Sink) → b.sink ≡ s → Kept u (sink_step L b s)
  unfolding sink_step
  Kept-sink looking e = elim (Bool-cases (L.is_empty b.queue)) [
    | inl empty ↦ rw empty (Kept-carried b.queue v.held b.locks asking v.holds (rw e refl))
    | inr not_empty ↦ rw not_empty (Kept-carried b.queue v.held b.locks popping v.holds (rw e refl))
  ]
  Kept-sink asking e = elim (Bool-cases (ltb 0 b.producers_count)) [
    | inl some_left ↦ rw some_left (Kept-carried b.queue v.held b.locks popping v.holds (rw e refl))
    | inr none_left ↦
        rw none_left (Kept-carried b.queue v.held b.locks finished v.holds (rw e refl))
  ]
  Kept-sink popping e = popped v.held refl
    where
      popped : (xs : List ℕ) → xs ≡ v.held → Kept u (sink_step L b popping)
      popped [] none_held =
          let (q, nothing, holds) =
            L.pop_none_law b.queue (subst (L.Holds b.queue) (sym none_held) v.holds) in
          rw (nothing, sink_step) (Kept-carried q [] b.locks looking holds (none_held ∙ rw e refl))
      popped (d ∷ xs) some_held =
          let (q, got, holds) =
            L.pop_law b.queue d xs (subst (L.Holds b.queue) (sym some_held) v.holds) in
          rw (got, sink_step) (Kept-carried q xs b.locks (locking d) holds (some_held ∙ rw e refl))
  Kept-sink (locking d) e = elim (Bool-cases (b.locks (hindex_of d))) [
    | inl taken ↦ rw taken v
    | inr free ↦ rw free (Kept-carried b.queue v.held _ (adding d) v.holds (rw e refl))
  ]
  Kept-sink (adding d) e = record {
    held = v.held;
    holds = v.holds;
    flows = λ p known. Flow-added d p known e;
  }
  Kept-sink (unlocking d) e = Kept-carried b.queue v.held _ looking v.holds (rw e refl)
  Kept-sink finished e = v
