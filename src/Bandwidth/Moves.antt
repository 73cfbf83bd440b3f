-- ===== src/Bandwidth/Moves.antt =====
-- What a step of the main thread must keep to.
use lockfree_mpmc_queue.Base.{ℕ, ◌+◌, ◌≤◌, ◌<◌, ◌≡◌, sym, ap, ◌∙◌, subst, arith}
use lockfree_mpmc_queue.Base.Word.{cast}
use lockfree_mpmc_queue.Service.{Service}
use lockfree_mpmc_queue.Service.Totals.{total_same}
use lockfree_mpmc_queue.Bandwidth.{Setup, Main, Bench, clearing, gathering, done}
use lockfree_mpmc_queue.Bandwidth.Fair.{Fair}
use lockfree_mpmc_queue.Bandwidth.Stages.{writer_stage, reader_stage, phase, state_at}
use lockfree_mpmc_queue.Service.Totals.{count}
use lockfree_mpmc_queue.Bandwidth.Places.{
  made_early, taken_early, writer_there_any, reader_there_any,
}

-- What the main thread may find when it goes on.
pub record LeadKeeps {S : Service} {u : Setup} {b : Bench S} (v : Fair u b) (s' : ℕ) (m' : Main)
    : Type 0 where
  pub state_now : s' ≡ state_at m'
  pub stays_early : phase m' ≤ 3 → phase b.main ≤ 3
  pub stays_late : 7 ≤ phase b.main → 7 ≤ phase m'
  pub readers_in : 2 ≤ phase m' → (i : ℕ) → i < u.consumers → 1 ≤ reader_stage (b.reader i)
  pub writers_in : 3 ≤ phase m' → (i : ℕ) → i < u.producers → 1 ≤ writer_stage (b.writer i)
  pub writers_out : 6 ≤ phase m' → (i : ℕ) → i < u.producers → writer_stage (b.writer i) ≡ 4
  pub readers_out : 8 ≤ phase m' → (i : ℕ) → i < u.consumers → reader_stage (b.reader i) ≡ 6
  pub outcome : (m n : ℕ) → m' ≡ done m n → (m ≡ n) × (count v.held ≡ 0)

module _ {S : Service} {u : Setup} {b : Bench S} (v : Fair u b) where
  pub Fair-leads :
      (s' : ℕ) (m' : Main) → LeadKeeps v s' m' → Fair u (record b { state = s'; main = m' })
  Fair-leads s' m' k = record {
    held = v.held;
    holds = v.holds;
    balance = v.balance;
    writers_there = v.writers_there;
    readers_there = v.readers_there;
    state_is = k.state_now;
    writers_wait = λ early. v.writers_wait (k.stays_early early);
    readers_wait = λ early. v.readers_wait (k.stays_early early);
    readers_came = k.readers_in;
    writers_came = k.writers_in;
    writers_left = k.writers_out;
    late = λ i h. k.stays_late (v.late i h);
    emptied = v.emptied;
    readers_left = k.readers_out;
    result = k.outcome;
  }

  -- The counters are cleared while nothing is counted.
  pub Fair-clears :
      b.main ≡ clearing
      → Fair u (record b { push_counter = λ i. 0; pop_counter = λ i. 0; main = gathering })
  Fair-clears e = record {
    held = v.held;
    holds = v.holds;
    balance =
        ap (cast 64) (
          total_same u.producers _ _ (λ i p.
            made_early (b.writer i) 0 (v.writers_wait early i)
            ∙ sym (made_early (b.writer i) (b.push_counter i) (v.writers_wait early i))))
        ∙ v.balance
        ∙ ap (λ t. cast 64 (t + count v.held))
            (total_same u.consumers _ _ (λ i p.
              taken_early (b.reader i) (b.pop_counter i) (v.readers_wait early i)
              ∙ sym (taken_early (b.reader i) 0 (v.readers_wait early i))));
    writers_there =
        v.writers_there
        ∙ total_same u.producers _ _ (λ i p. writer_there_any (b.writer i) (b.push_counter i) 0);
    readers_there =
        v.readers_there
        ∙ total_same u.consumers _ _ (λ i p. reader_there_any (b.reader i) (b.pop_counter i) 0);
    state_is = v.state_is ∙ ap state_at e;
    writers_wait = λ h. v.writers_wait early;
    readers_wait = λ h. v.readers_wait early;
    readers_came = λ h. absurd (omega arith);
    writers_came = λ h. absurd (omega arith);
    writers_left = λ h. absurd (omega arith);
    late = λ i h. absurd (omega (arith, v.readers_wait early i));
    emptied = v.emptied;
    readers_left = λ h. absurd (omega arith);
    result = λ m n h. cc h;
  }
    where
      early : phase b.main ≤ 3
      early = subst (λ m. phase m ≤ 3) (sym e) (omega arith)
