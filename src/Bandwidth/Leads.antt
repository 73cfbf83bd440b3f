-- ===== src/Bandwidth/Leads.antt =====
-- The steps of the main thread and the invariant of a run.
use lockfree_mpmc_queue.Base.{
  ℕ, ◌≤◌, ◌<◌, ◌≡◌, refl, sym, ap, ◌∙◌, Bool-cases, inl, inr, arith, ltb,
}
use lockfree_mpmc_queue.Base.Word.{cast}
use lockfree_mpmc_queue.Service.{Service}
use lockfree_mpmc_queue.Service.Totals.{total_same, total_none, total_full, add_up, add_up-total}
use lockfree_mpmc_queue.Bandwidth.{
  Setup, Main, Bench, clearing, gathering, gathering_producers, opening, closing,
  awaiting_producers, finishing, awaiting_consumers, adding, done, aborted, main_step,
}
use lockfree_mpmc_queue.Bandwidth.Fair.{Fair}
use lockfree_mpmc_queue.Bandwidth.Stages.{
  writer_stage, writer_there, reader_stage, taken, reader_there, phase, state_at,
}
use lockfree_mpmc_queue.Service.Totals.{count}
use lockfree_mpmc_queue.Bandwidth.Phases.{IsFit}
use lockfree_mpmc_queue.Bandwidth.Places.{
  writer_there_one, reader_there_one, writer_came, writer_gone, reader_came, reader_gone,
  made_stored, taken_stored,
}
use lockfree_mpmc_queue.Bandwidth.Moves.{Fair-leads, Fair-clears}

module _ {S : Service} {u : Setup} {b : Bench S} (fit : IsFit u) (v : Fair u b) where
  -- Everyone has come once the counters say so, and everyone has ended once they are 0 again.
  all_readers_in :
      u.consumers ≤ b.consumers_counter → (i : ℕ) → i < u.consumers → 1 ≤ reader_stage (b.reader i)
  all_readers_in full i within = reader_came (b.reader i) (b.pop_counter i) (
      total_full u.consumers (λ j. reader_there (b.reader j) (b.pop_counter j))
        (λ j. reader_there_one (b.reader j) (b.pop_counter j)) (omega (arith, v.readers_there)) i
        within)

  all_writers_in :
      u.producers ≤ b.producers_counter → (i : ℕ) → i < u.producers → 1 ≤ writer_stage (b.writer i)
  all_writers_in full i within = writer_came (b.writer i) (b.push_counter i) (
      total_full u.producers (λ j. writer_there (b.writer j) (b.push_counter j))
        (λ j. writer_there_one (b.writer j) (b.push_counter j)) (omega (arith, v.writers_there)) i
        within)

  all_writers_out :
      3 ≤ phase b.main
      → b.producers_counter ≡ 0
      → (i : ℕ) → i < u.producers
      → writer_stage (b.writer i) ≡ 4
  all_writers_out begun e i within =
      writer_gone (b.writer i) (b.push_counter i)
        (total_none u.producers (λ j. writer_there (b.writer j) (b.push_counter j))
          (sym v.writers_there ∙ e) i within)
        (v.writers_came begun i within)

  all_readers_out :
      2 ≤ phase b.main
      → b.consumers_counter ≡ 0
      → (i : ℕ) → i < u.consumers
      → reader_stage (b.reader i) ≡ 6
  all_readers_out begun e i within =
      reader_gone (b.reader i) (b.pop_counter i)
        (total_none u.consumers (λ j. reader_there (b.reader j) (b.pop_counter j))
          (sym v.readers_there ∙ e) i within)
        (v.readers_came begun i within)

  none_left : 8 ≤ phase b.main → count v.held ≡ 0
  none_left over = v.emptied 0 (omega (arith, v.readers_left over 0 fit.some_consumer))

  -- At the end the sums are those of all that was pushed and popped.
  sums_agree :
      8 ≤ phase b.main → add_up u.producers b.push_counter ≡ add_up u.consumers b.pop_counter
  sums_agree over =
      add_up-total u.producers b.push_counter
      ∙ ap (cast 64) (
          sym (
            total_same u.producers _ _ (λ i p.
              made_stored (b.writer i) (b.push_counter i) (v.writers_left (omega arith) i p))))
      ∙ v.balance
      ∙ ap (cast 64) (
          omega (
            arith,
            none_left over,
            total_same u.consumers (λ i. taken (b.reader i) (b.pop_counter i)) b.pop_counter
                (λ i p. taken_stored (b.reader i) (b.pop_counter i) (v.readers_left over i p)),
          ))
      ∙ sym (add_up-total u.consumers b.pop_counter)

  pub Fair-main_step : (m : Main) → b.main ≡ m → Fair u (main_step S u b m)
  unfolding main_step
  Fair-main_step clearing e = Fair-clears v e
  Fair-main_step gathering e = elim (Bool-cases (ltb b.consumers_counter u.consumers)) [
    | inl few ↦ rw few v
    | inr full ↦ rw full (
        Fair-leads v b.state gathering_producers (record {
          state_now = v.state_is ∙ ap state_at e;
          stays_early = rw e (λ h. omega arith);
          stays_late = rw e (λ h. absurd (omega arith));
          readers_in = λ h. all_readers_in (ground (arith, full));
          writers_in = λ h. absurd (omega arith);
          writers_out = λ h. absurd (omega arith);
          readers_out = λ h. absurd (omega arith);
          outcome = λ m n h. cc h;
        }))
  ]
  Fair-main_step gathering_producers e = elim (Bool-cases (ltb b.producers_counter u.producers)) [
    | inl few ↦ rw few (
        Fair-leads v (b.state) gathering (record {
          state_now = v.state_is ∙ ap state_at e;
          stays_early = λ h. omega (arith, ap phase e);
          stays_late = λ h. absurd (omega (arith, ap phase e));
          readers_in = λ h. absurd (omega arith);
          writers_in = λ h. absurd (omega arith);
          writers_out = λ h. absurd (omega arith);
          readers_out = λ h. absurd (omega arith);
          outcome = λ m n h. cc h;
        }))
    | inr full ↦ rw full (
        Fair-leads v (b.state) opening (record {
          state_now = v.state_is ∙ ap state_at e;
          stays_early = λ h. omega (arith, ap phase e);
          stays_late = λ h. absurd (omega (arith, ap phase e));
          readers_in = λ h. v.readers_came (omega (arith, ap phase e));
          writers_in = λ h. all_writers_in (ground (arith, full));
          writers_out = λ h. absurd (omega arith);
          readers_out = λ h. absurd (omega arith);
          outcome = λ m n h. cc h;
        }))
  ]
  Fair-main_step opening e = Fair-leads v (1) closing (record {
    state_now = refl;
    stays_early = λ h. absurd (omega arith);
    stays_late = λ h. absurd (omega (arith, ap phase e));
    readers_in = λ h. v.readers_came (omega (arith, ap phase e));
    writers_in = λ h. v.writers_came (omega (arith, ap phase e));
    writers_out = λ h. absurd (omega arith);
    readers_out = λ h. absurd (omega arith);
    outcome = λ m n h. cc h;
  })
  Fair-main_step closing e = Fair-leads v (2) awaiting_producers (record {
    state_now = refl;
    stays_early = λ h. absurd (omega arith);
    stays_late = λ h. absurd (omega (arith, ap phase e));
    readers_in = λ h. v.readers_came (omega (arith, ap phase e));
    writers_in = λ h. v.writers_came (omega (arith, ap phase e));
    writers_out = λ h. absurd (omega arith);
    readers_out = λ h. absurd (omega arith);
    outcome = λ m n h. cc h;
  })
  Fair-main_step awaiting_producers e = elim (Bool-cases (ltb 0 b.producers_counter)) [
    | inl more ↦ rw more v
    | inr gone ↦ rw gone (
        Fair-leads v (b.state) finishing (record {
          state_now = v.state_is ∙ ap state_at e;
          stays_early = λ h. absurd (omega arith);
          stays_late = λ h. absurd (omega (arith, ap phase e));
          readers_in = λ h. v.readers_came (omega (arith, ap phase e));
          writers_in = λ h. v.writers_came (omega (arith, ap phase e));
          writers_out = λ h. all_writers_out (omega (arith, ap phase e)) (ground (arith, gone));
          readers_out = λ h. absurd (omega arith);
          outcome = λ m n h. cc h;
        }))
  ]
  Fair-main_step finishing e = Fair-leads v (4) awaiting_consumers (record {
    state_now = refl;
    stays_early = λ h. absurd (omega arith);
    stays_late = λ h. omega arith;
    readers_in = λ h. v.readers_came (omega (arith, ap phase e));
    writers_in = λ h. v.writers_came (omega (arith, ap phase e));
    writers_out = λ h. v.writers_left (omega (arith, ap phase e));
    readers_out = λ h. absurd (omega arith);
    outcome = λ m n h. cc h;
  })
  Fair-main_step awaiting_consumers e = elim (Bool-cases (ltb 0 b.consumers_counter)) [
    | inl more ↦ rw more v
    | inr gone ↦ rw gone (
        Fair-leads v (b.state) adding (record {
          state_now = v.state_is ∙ ap state_at e;
          stays_early = λ h. absurd (omega arith);
          stays_late = λ h. omega arith;
          readers_in = λ h. v.readers_came (omega (arith, ap phase e));
          writers_in = λ h. v.writers_came (omega (arith, ap phase e));
          writers_out = λ h. v.writers_left (omega (arith, ap phase e));
          readers_out = λ h. all_readers_out (omega (arith, ap phase e)) (ground (arith, gone));
          outcome = λ m n h. cc h;
        }))
  ]
  Fair-main_step adding e =
      Fair-leads v (b.state)
        (done (add_up u.producers b.push_counter) (add_up u.consumers b.pop_counter))
        (record {
          state_now = v.state_is ∙ ap state_at e;
          stays_early = λ h. absurd (omega arith);
          stays_late = λ h. omega arith;
          readers_in = λ h. v.readers_came (omega (arith, ap phase e));
          writers_in = λ h. v.writers_came (omega (arith, ap phase e));
          writers_out = λ h. v.writers_left (omega (arith, ap phase e));
          readers_out = λ h. v.readers_left (omega (arith, ap phase e));
          outcome = λ m n h. (
            cc (h, sums_agree (omega (arith, ap phase e))),
            none_left (omega (arith, ap phase e)),
          );
        })
  Fair-main_step (done x y) e = v
  Fair-main_step aborted e = v
