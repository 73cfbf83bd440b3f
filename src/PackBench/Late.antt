-- ===== src/PackBench/Late.antt =====
-- src/pack_benchmark.cpp: a producer that is late for the start, and how the producers count themselves.
use native.Mathlib.Nat.{mod-eq_of_lt}
use lockfree_mpmc_queue.Base.{
  ℕ, ◌+◌, ◌^◌, ◌≤◌, ◌<◌, ◌≡◌, ◌≢◌, refl, ap, inl, inr, Bool, true, false, Bool-cases, Option, none,
  some, arith, ltb, ◌==◌, if◌then◌else◌,
}
use lockfree_mpmc_queue.Base.Word.{cast}
use lockfree_mpmc_queue.Service.{Service}
use lockfree_mpmc_queue.Service.Totals.{total, total_part, total_bound}
use lockfree_mpmc_queue.PackBench.{
  Plan, Writer, Reader, Bench, Moved, writer_step, awaiting_end, value_of,
}

abbrev pub writer_there : Writer → ℕ → ℕ
writer_there Writer.joining k = 0
writer_there Writer.ended k = 0
writer_there other k = 1

abbrev pub is_looping : Reader → Bool
is_looping (Reader.popping m n) = true
is_looping (Reader.asking m n) = true
is_looping other = false

-- The main thread has set the state and waits; the producer `i` has not passed the test; every consumer
-- is in its loop.
pub record IsStuck {S : Service} (u : Plan) (i : ℕ) (b : Bench S) : Type 0 where
  pub exists : i < u.producers
  pub few : u.producers + 1 < 2 ^ 64
  pub waits : b.writer i ≡ Writer.held_back
  pub set : b.benchmark_state ≡ 1
  pub begun : b.main ≡ awaiting_end
  pub counted : b.active_producers ≡ total u.producers (λ j. writer_there (b.writer j) 0)
  pub looping : (j : ℕ) → j < u.consumers → is_looping (b.reader j) ≡ true
  pub consuming : b.active_consumers ≢ 0

one_each : (p : Writer) → writer_there p 0 ≤ 1
one_each Writer.joining = omega arith
one_each Writer.held_back = omega arith
one_each (Writer.pushing x m) = omega arith
one_each (Writer.reporting m) = omega arith
one_each Writer.leaving = omega arith
one_each Writer.ended = omega arith

module _ {S : Service} {u : Plan} {i : ℕ} {b : Bench S} (v : IsStuck u i b) where
  pub some_active : 1 ≤ b.active_producers
  some_active = omega (
    arith,
    v.counted,
    total_part u.producers (λ j. writer_there (b.writer j) 0) i v.exists,
    ap (λ p. writer_there p 0) v.waits,
  )

  few_active : b.active_producers ≤ u.producers
  few_active = omega (
    arith,
    v.counted,
    total_bound u.producers (λ j. writer_there (b.writer j) 0) (λ j. one_each (b.writer j)),
  )

  -- A writer's step counts itself in or out.
  pub counts_itself :
      (j : ℕ) (p : Writer)
      → b.writer j ≡ p
      → (writer_step S u b j p).active + writer_there (b.writer j) 0
        ≡ b.active_producers + writer_there (writer_step S u b j p).place 0
  unfolding writer_step
  counts_itself j Writer.joining e = rw e (
      omega (
        arith,
        few_active,
        v.few,
        mod-eq_of_lt {n = b.active_producers + 1} {m = 2 ^ 64} (omega (arith, few_active, v.few)),
      ))
  counts_itself j Writer.held_back e = elim (Bool-cases (b.benchmark_state == 0)) [
    | inl free ↦ rw (e, free) refl
    | inr held ↦ rw (e, held) refl
  ]
  counts_itself j (Writer.pushing x m) e = elim (Bool-cases (ltb x u.rounds)) [
    | inr over ↦ rw (e, over) refl
    | inl more ↦ rw (e, more) (go (S.push b.queue j (value_of u j x)))
  ]
    where
      go :
          (o : Option (Bool × S.State))
          → let t : Moved S Writer = (elim o [
            | none ↦ record {
              queue = b.queue;
              place = Writer.pushing x m;
              sum = b.prod_sum;
              active = b.active_producers;
              stored = 0;
            }
            | some (pushed, q) ↦ record {
              queue = q;
              place =
                  if pushed
                  then Writer.pushing (cast 32 (x + 1)) (cast 64 (m + value_of u j x))
                  else Writer.pushing x m;
              sum = b.prod_sum;
              active = b.active_producers;
              stored = 0;
            }
          ]) in
            t.active + 1 ≡ b.active_producers + writer_there t.place 0
      go none = refl
      go (some (true, q)) = refl
      go (some (false, q)) = refl
  counts_itself j (Writer.reporting m) e = rw e refl
  counts_itself j Writer.leaving e = rw e (omega (arith, some_active, few_active, v.few))
  counts_itself j Writer.ended e = rw e refl
