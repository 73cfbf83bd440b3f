-- ===== src/Bandwidth/Writes.antt =====
-- The steps of a writer and the invariant of a run.
use lockfree_mpmc_queue.Base.{
  ℕ, ◌+◌, ◌^◌, ◌≤◌, ◌<◌, ◌≡◌, ◌≢◌, inl, inr, refl, sym, ap, subst, Bool-cases, arith, ltb, ◌==◌,
}
use lockfree_mpmc_queue.Base.Word.{cast}
use native.Mathlib.Nat.{mod-eq_of_lt}
use lockfree_mpmc_queue.Service.{Service}
use lockfree_mpmc_queue.Service.Totals.{total_part, total_bound}
use lockfree_mpmc_queue.Bandwidth.{Setup, Writer, Bench, writer_stays, writer_step}
use lockfree_mpmc_queue.Bandwidth.Fair.{Fair, WriterKeeps}
use lockfree_mpmc_queue.Bandwidth.Stages.{writer_stage, made, writer_there, phase}
use lockfree_mpmc_queue.Service.Totals.{count}
use lockfree_mpmc_queue.Bandwidth.Places.{writer_there_one}
use lockfree_mpmc_queue.Bandwidth.Phases.{IsFit, state_at_early}

module _ {S : Service} {u : Setup} {b : Bench S} (fit : IsFit u) (v : Fair u b) (i : ℕ) where
  -- A writer that only goes on to another place.
  writer_goes :
      (p' : Writer)
      → made p' (b.push_counter i) ≡ made (b.writer i) (b.push_counter i)
      → writer_there p' (b.push_counter i) ≡ writer_there (b.writer i) (b.push_counter i)
      → (phase b.main ≤ 3 → writer_stage p' ≤ 1)
      → 1 ≤ writer_stage p'
      → writer_stage (b.writer i) ≢ 4
      → WriterKeeps v i (writer_stays S b i p')
  writer_goes p' e f early begun unended = record {
    rest = v.held;
    still_holds = v.holds;
    even = ap (λ t. cast 64 (t + count v.held)) e;
    there = ap (λ t. b.producers_counter + t) (sym f);
    waits = early;
    came = λ h. begun;
    left = λ h. absurd (unended h);
    unmoved = λ over. refl;
  }

  writers_few : b.producers_counter ≤ u.producers
  writers_few = omega (
    arith,
    v.writers_there,
    total_bound u.producers (λ j. writer_there (b.writer j) (b.push_counter j))
        (λ j. writer_there_one (b.writer j) (b.push_counter j)),
  )

  writer_counts :
      i < u.producers → writer_there (b.writer i) (b.push_counter i) ≡ 1 → 1 ≤ b.producers_counter
  writer_counts within e = omega (
    arith,
    v.writers_there,
    e,
    total_part u.producers (λ j. writer_there (b.writer j) (b.push_counter j)) i within,
  )

  -- A writer in its loop has seen the start, and the end has not come.
  not_early : 2 ≤ writer_stage (b.writer i) → phase b.main ≤ 3 → (n : ℕ) → n ≤ 1
  not_early h early n = absurd (omega (arith, v.writers_wait early i))

  not_over : {c : ℕ} → i < u.producers → b.writer i ≡ Writer.pushing c → ¬ (6 ≤ phase b.main)
  not_over within e over =
      let h : ◌≡◌ {A = ℕ} 2 4 = subst (λ p. writer_stage p ≡ 4) e (v.writers_left over i within) in
      absurd (omega arith)

  pub WriterKeeps-writer_step :
      i < u.producers → (p : Writer) → b.writer i ≡ p → WriterKeeps v i (writer_step S u b i p)
  unfolding writer_step
  WriterKeeps-writer_step within Writer.starting e = record {
    rest = v.held;
    still_holds = v.holds;
    even = rw e refl;
    there = rw e (
        omega (
          arith,
          mod-eq_of_lt {n = b.producers_counter + 1} {m = 2 ^ 32}
              (omega (arith, writers_few, fit.few_producers)),
        ));
    waits = λ early. omega arith;
    came = λ h. omega arith;
    left = rw e (λ h. absurd (omega arith));
    unmoved = λ over. refl;
  }
  WriterKeeps-writer_step within Writer.waiting e = elim (Bool-cases (ltb b.state 1)) [
    | inl yet ↦ rw yet (
        writer_goes Writer.waiting (rw e refl) (rw e refl) (λ early. omega arith) (omega arith)
          (rw e (λ h. absurd (omega arith))))
    | inr open_now ↦ rw open_now (
        writer_goes (Writer.testing 0) (rw e refl) (rw e refl)
          (λ early. absurd (ground (arith, open_now, v.state_is, state_at_early b.main early)))
          (omega arith) (rw e (λ h. absurd (omega arith))))
  ]
  WriterKeeps-writer_step within (Writer.testing c) e = elim (Bool-cases (b.state == 1)) [
    | inl on ↦ rw on (
        writer_goes (Writer.pushing c) (rw e refl) (rw e refl)
          (λ early. not_early (rw e (omega arith)) early 2) (omega arith)
          (rw e (λ h. absurd (omega arith))))
    | inr off ↦ rw off (
        writer_goes (Writer.storing c) (rw e refl) (rw e refl)
          (λ early. not_early (rw e (omega arith)) early 2) (omega arith)
          (rw e (λ h. absurd (omega arith))))
  ]
  WriterKeeps-writer_step within (Writer.pushing c) e =
      let (q', ys, holds, outcome) = S.push_law b.queue v.held i (cast u.value_bits c) v.holds in
      elim outcome [
        | inl (pushed, same) ↦
            rw (pushed, writer_step)
              (record {
                rest = ys;
                still_holds = holds;
                even = rw e (omega (arith, same (λ x. 1)));
                there = rw e refl;
                waits = λ early. not_early (rw e (omega arith)) early 2;
                came = λ h. omega arith;
                left = rw e (λ h. absurd (omega arith));
                unmoved = λ over. absurd (not_over within e over);
              })
        | inr (refused, same) ↦
            rw (refused, writer_step)
              (record {
                rest = ys;
                still_holds = holds;
                even = rw e (omega (arith, same (λ x. 1)));
                there = rw e refl;
                waits = λ early. not_early (rw e (omega arith)) early 2;
                came = λ h. omega arith;
                left = rw e (λ h. absurd (omega arith));
                unmoved = λ over. same (λ x. 1);
              })
      ]
  WriterKeeps-writer_step within (Writer.storing c) e = record {
    rest = v.held;
    still_holds = v.holds;
    even = rw e refl;
    there = rw e refl;
    waits = λ early. not_early (rw e (omega arith)) early 3;
    came = λ h. omega arith;
    left = rw e (λ h. absurd (omega arith));
    unmoved = λ over. refl;
  }
  WriterKeeps-writer_step within Writer.leaving e = record {
    rest = v.held;
    still_holds = v.holds;
    even = rw e refl;
    there =
        let one = writer_counts within (rw e refl) in
        rw e (omega (arith, one, writers_few, fit.few_producers));
    waits = λ early. not_early (rw e (omega arith)) early 4;
    came = λ h. omega arith;
    left = λ h. refl;
    unmoved = λ over. refl;
  }
  WriterKeeps-writer_step within Writer.ended e = record {
    rest = v.held;
    still_holds = v.holds;
    even = rw e refl;
    there = rw e refl;
    waits = λ early. not_early (rw e (omega arith)) early 4;
    came = λ h. omega arith;
    left = λ h. refl;
    unmoved = λ over. refl;
  }
