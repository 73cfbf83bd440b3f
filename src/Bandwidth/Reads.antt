-- ===== src/Bandwidth/Reads.antt =====
-- The steps of a reader and the invariant of a run.
use lockfree_mpmc_queue.Base.{
  ℕ, ◌+◌, ◌^◌, ◌≤◌, ◌<◌, ◌≡◌, ◌≢◌, inl, inr, refl, sym, ap, Bool-cases, arith, ltb,
}
use lockfree_mpmc_queue.Base.Word.{cast}
use native.Mathlib.Nat.{mod-eq_of_lt}
use lockfree_mpmc_queue.Service.{Service}
use lockfree_mpmc_queue.Service.Totals.{total_part, total_bound}
use lockfree_mpmc_queue.Bandwidth.{Setup, Reader, Bench, reader_stays, reader_step}
use lockfree_mpmc_queue.Bandwidth.Fair.{Fair, ReaderKeeps}
use lockfree_mpmc_queue.Bandwidth.Stages.{reader_stage, taken, reader_there, phase}
use lockfree_mpmc_queue.Service.Totals.{count}
use lockfree_mpmc_queue.Bandwidth.Places.{reader_there_one}
use lockfree_mpmc_queue.Bandwidth.Phases.{IsFit, state_at_early, state_at_late}

module _ {S : Service} {u : Setup} {b : Bench S} (fit : IsFit u) (v : Fair u b) (i : ℕ) where
  -- A reader that only goes on to another place, before the end.
  reader_goes :
      (p' : Reader)
      → taken p' (b.pop_counter i) ≡ taken (b.reader i) (b.pop_counter i)
      → reader_there p' (b.pop_counter i) ≡ reader_there (b.reader i) (b.pop_counter i)
      → (phase b.main ≤ 3 → reader_stage p' ≤ 1)
      → 1 ≤ reader_stage p'
      → reader_stage (b.reader i) ≢ 6
      → (3 ≤ reader_stage p' → 7 ≤ phase b.main)
      → (5 ≤ reader_stage p' → count v.held ≡ 0)
      → ReaderKeeps v i (reader_stays S b i p')
  reader_goes p' e f early begun unended late gone = record {
    rest = v.held;
    still_holds = v.holds;
    even = ap (λ t. cast 64 (t + count v.held)) e;
    there = ap (λ t. b.consumers_counter + t) (sym f);
    waits = early;
    came = λ h. begun;
    left = λ h. absurd (unended h);
    comes_late = late;
    sees_empty = gone;
    smaller = λ h. h;
  }

  readers_few : b.consumers_counter ≤ u.consumers
  readers_few = omega (
    arith,
    v.readers_there,
    total_bound u.consumers (λ j. reader_there (b.reader j) (b.pop_counter j))
        (λ j. reader_there_one (b.reader j) (b.pop_counter j)),
  )

  reader_counts :
      i < u.consumers → reader_there (b.reader i) (b.pop_counter i) ≡ 1 → 1 ≤ b.consumers_counter
  reader_counts within e = omega (
    arith,
    v.readers_there,
    e,
    total_part u.consumers (λ j. reader_there (b.reader j) (b.pop_counter j)) i within,
  )

  reader_not_early : 2 ≤ reader_stage (b.reader i) → phase b.main ≤ 3 → (n : ℕ) → n ≤ 1
  reader_not_early h early n = absurd (omega (arith, v.readers_wait early i))

  pub ReaderKeeps-reader_step :
      i < u.consumers → (p : Reader) → b.reader i ≡ p → ReaderKeeps v i (reader_step S b i p)
  unfolding reader_step
  ReaderKeeps-reader_step within Reader.starting e = record {
    rest = v.held;
    still_holds = v.holds;
    even = rw e refl;
    there = rw e (
        omega (
          arith,
          mod-eq_of_lt {n = b.consumers_counter + 1} {m = 2 ^ 32}
              (omega (arith, readers_few, fit.few_consumers)),
        ));
    waits = λ early. omega arith;
    came = λ h. omega arith;
    left = rw e (λ h. absurd (omega arith));
    comes_late = λ h. absurd (omega arith);
    sees_empty = λ h. absurd (omega arith);
    smaller = λ h. h;
  }
  ReaderKeeps-reader_step within Reader.waiting e = elim (Bool-cases (ltb b.state 1)) [
    | inl yet ↦ rw yet (
        reader_goes Reader.waiting (rw e refl) (rw e refl) (λ early. omega arith) (omega arith)
          (rw e (λ h. absurd (omega arith))) (λ h. absurd (omega arith))
          (λ h. absurd (omega arith)))
    | inr open_now ↦ rw open_now (
        reader_goes (Reader.asking_state 0) (rw e refl) (rw e refl)
          (λ early. absurd (ground (arith, open_now, v.state_is, state_at_early b.main early)))
          (omega arith) (rw e (λ h. absurd (omega arith))) (λ h. absurd (omega arith))
          (λ h. absurd (omega arith)))
  ]
  ReaderKeeps-reader_step within (Reader.asking_state c) e = elim (Bool-cases (ltb b.state 3)) [
    | inl soon ↦ rw soon (
        reader_goes (Reader.popping c) (rw e refl) (rw e refl)
          (λ early. reader_not_early (rw e (omega arith)) early 2) (omega arith)
          (rw e (λ h. absurd (omega arith))) (λ h. absurd (omega arith))
          (λ h. absurd (omega arith)))
    | inr over ↦ rw over (
        reader_goes (Reader.asking_producers c) (rw e refl) (rw e refl)
          (λ early. reader_not_early (rw e (omega arith)) early 3) (omega arith)
          (rw e (λ h. absurd (omega arith)))
          (λ h. state_at_late b.main (ground (arith, over, v.state_is)))
          (λ h. absurd (omega arith)))
  ]
  ReaderKeeps-reader_step within (Reader.asking_producers c) e =
      elim (Bool-cases (ltb 0 b.producers_counter)) [
        | inl left ↦ rw left (
            reader_goes (Reader.popping c) (rw e refl) (rw e refl)
              (λ early. reader_not_early (rw e (omega arith)) early 2) (omega arith)
              (rw e (λ h. absurd (omega arith))) (λ h. absurd (omega arith))
              (λ h. absurd (omega arith)))
        | inr none_left ↦ rw none_left (
            reader_goes (Reader.asking_queue c) (rw e refl) (rw e refl)
              (λ early. reader_not_early (rw e (omega arith)) early 4) (omega arith)
              (rw e (λ h. absurd (omega arith))) (λ h. v.late i (rw e (omega arith)))
              (λ h. absurd (omega arith)))
      ]
  ReaderKeeps-reader_step within (Reader.asking_queue c) e =
      elim (Bool-cases (S.is_empty b.queue)) [
        | inl gone ↦ rw gone (
            reader_goes (Reader.storing c) (rw e refl) (rw e refl)
              (λ early. reader_not_early (rw e (omega arith)) early 5) (omega arith)
              (rw e (λ h. absurd (omega arith))) (λ h. v.late i (rw e (omega arith)))
              (λ h. S.is_empty_law b.queue v.held v.holds gone (λ x. 1)))
        | inr more ↦ rw more (
            reader_goes (Reader.popping c) (rw e refl) (rw e refl)
              (λ early. reader_not_early (rw e (omega arith)) early 2) (omega arith)
              (rw e (λ h. absurd (omega arith))) (λ h. absurd (omega arith))
              (λ h. absurd (omega arith)))
      ]
  ReaderKeeps-reader_step within (Reader.popping c) e =
      let (q', ys, holds, outcome) = S.pop_law b.queue v.held i v.holds in
      elim outcome [
        | inl (x, popped, same) ↦
            rw (popped, reader_step)
              (record {
                rest = ys;
                still_holds = holds;
                even = rw e (omega (arith, same (λ x. 1)));
                there = rw e refl;
                waits = λ early. reader_not_early (rw e (omega arith)) early 2;
                came = λ h. omega arith;
                left = rw e (λ h. absurd (omega arith));
                comes_late = λ h. absurd (omega arith);
                sees_empty = λ h. absurd (omega arith);
                smaller = λ h. omega (arith, same (λ x. 1));
              })
        | inr (nothing, same, gone) ↦
            rw (nothing, reader_step)
              (record {
                rest = ys;
                still_holds = holds;
                even = rw e (omega (arith, same (λ x. 1), gone (λ x. 1)));
                there = rw e refl;
                waits = λ early. reader_not_early (rw e (omega arith)) early 2;
                came = λ h. omega arith;
                left = rw e (λ h. absurd (omega arith));
                comes_late = λ h. absurd (omega arith);
                sees_empty = λ h. absurd (omega arith);
                smaller = λ h. gone (λ x. 1);
              })
      ]
  ReaderKeeps-reader_step within (Reader.storing c) e = record {
    rest = v.held;
    still_holds = v.holds;
    even = rw e refl;
    there = rw e refl;
    waits = λ early. reader_not_early (rw e (omega arith)) early 5;
    came = λ h. omega arith;
    left = rw e (λ h. absurd (omega arith));
    comes_late = λ h. v.late i (rw e (omega arith));
    sees_empty = λ h. v.emptied i (rw e (omega arith));
    smaller = λ h. h;
  }
  ReaderKeeps-reader_step within Reader.leaving e = record {
    rest = v.held;
    still_holds = v.holds;
    even = rw e refl;
    there =
        let one = reader_counts within (rw e refl) in
        rw e (omega (arith, one, readers_few, fit.few_consumers));
    waits = λ early. reader_not_early (rw e (omega arith)) early 6;
    came = λ h. omega arith;
    left = λ h. refl;
    comes_late = λ h. v.late i (rw e (omega arith));
    sees_empty = λ h. v.emptied i (rw e (omega arith));
    smaller = λ h. h;
  }
  ReaderKeeps-reader_step within Reader.ended e = record {
    rest = v.held;
    still_holds = v.holds;
    even = rw e refl;
    there = rw e refl;
    waits = λ early. reader_not_early (rw e (omega arith)) early 6;
    came = λ h. omega arith;
    left = λ h. refl;
    comes_late = λ h. v.late i (rw e (omega arith));
    sees_empty = λ h. v.emptied i (rw e (omega arith));
    smaller = λ h. h;
  }
