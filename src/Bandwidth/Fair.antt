-- ===== src/Bandwidth/Fair.antt =====
-- The invariant of a run: what has been pushed is what has been popped and what the queue holds, and
-- the threads' places agree with the phase of the main thread.
use lockfree_mpmc_queue.Base.{
  ℕ, ◌+◌, ◌≤◌, ◌<◌, ◌≡◌, sym, ap, ◌∙◌, subst, List, arith, update, update_self, update_ne,
}
use lockfree_mpmc_queue.Base.Word.{cast}
use lockfree_mpmc_queue.Service.{Service}
use lockfree_mpmc_queue.Service.Totals.{total, total-update}
use lockfree_mpmc_queue.Bandwidth.{Setup, Writer, Reader, Bench, Moved, done}
use native.Mathlib.Decide.{ℕ_discrete}
use lockfree_mpmc_queue.Bandwidth.Stages.{
  writer_stage, made, writer_there, reader_stage, taken, reader_there, phase, state_at,
}
use lockfree_mpmc_queue.Service.Totals.{count}

pub record Fair {S : Service} (u : Setup) (b : Bench S) : Type 0 where
  pub held : List ℕ
  pub holds : S.Holds b.queue held
  pub balance :
      cast 64 (total u.producers (λ i. made (b.writer i) (b.push_counter i)))
      ≡ cast 64 (total u.consumers (λ i. taken (b.reader i) (b.pop_counter i)) + count held)
  pub writers_there :
      b.producers_counter ≡ total u.producers (λ i. writer_there (b.writer i) (b.push_counter i))
  pub readers_there :
      b.consumers_counter ≡ total u.consumers (λ i. reader_there (b.reader i) (b.pop_counter i))
  pub state_is : b.state ≡ state_at b.main
  pub writers_wait : phase b.main ≤ 3 → (i : ℕ) → writer_stage (b.writer i) ≤ 1
  pub readers_wait : phase b.main ≤ 3 → (i : ℕ) → reader_stage (b.reader i) ≤ 1
  pub readers_came : 2 ≤ phase b.main → (i : ℕ) → i < u.consumers → 1 ≤ reader_stage (b.reader i)
  pub writers_came : 3 ≤ phase b.main → (i : ℕ) → i < u.producers → 1 ≤ writer_stage (b.writer i)
  pub writers_left : 6 ≤ phase b.main → (i : ℕ) → i < u.producers → writer_stage (b.writer i) ≡ 4
  pub late : (i : ℕ) → 3 ≤ reader_stage (b.reader i) → 7 ≤ phase b.main
  pub emptied : (i : ℕ) → 5 ≤ reader_stage (b.reader i) → count held ≡ 0
  pub readers_left : 8 ≤ phase b.main → (i : ℕ) → i < u.consumers → reader_stage (b.reader i) ≡ 6
  pub result : (m n : ℕ) → b.main ≡ done m n → (m ≡ n) × (count held ≡ 0)

-- A property of every thread, after one of them has moved.
pub update_each {ℓ} :
    {A : Type ℓ} (P : ℕ → A → Type 0) (w : ℕ → A) (i : ℕ) (p : A)
    → P i p
    → ((j : ℕ) → P j (w j))
    → (j : ℕ) → P j (update w i p j)
update_each P w i p here others j = elim (ℕ_discrete j i) [
  | yes e ↦
      subst (P j) (sym (ap (update w i p) e ∙ update_self w i p)) (subst (λ k. P k p) (sym e) here)
  | no ne ↦ subst (P j) (sym (update_ne w i j p ne)) (others j)
]

-- What a writer's step must keep to.
pub record WriterKeeps {S : Service} {u : Setup} {b : Bench S} (v : Fair u b) (i : ℕ)
    (m : Moved S Writer) : Type 0 where
  pub rest : List ℕ
  pub still_holds : S.Holds m.queue rest
  pub even :
      cast 64 (made m.place m.counted + count v.held)
      ≡ cast 64 (made (b.writer i) (b.push_counter i) + count rest)
  pub there :
      m.present + writer_there (b.writer i) (b.push_counter i)
      ≡ b.producers_counter + writer_there m.place m.counted
  pub waits : phase b.main ≤ 3 → writer_stage m.place ≤ 1
  pub came : 1 ≤ writer_stage (b.writer i) → 1 ≤ writer_stage m.place
  pub left : writer_stage (b.writer i) ≡ 4 → writer_stage m.place ≡ 4
  pub unmoved : 6 ≤ phase b.main → count rest ≡ count v.held

pub record ReaderKeeps {S : Service} {u : Setup} {b : Bench S} (v : Fair u b) (i : ℕ)
    (m : Moved S Reader) : Type 0 where
  pub rest : List ℕ
  pub still_holds : S.Holds m.queue rest
  pub even :
      cast 64 (taken m.place m.counted + count rest)
      ≡ cast 64 (taken (b.reader i) (b.pop_counter i) + count v.held)
  pub there :
      m.present + reader_there (b.reader i) (b.pop_counter i)
      ≡ b.consumers_counter + reader_there m.place m.counted
  pub waits : phase b.main ≤ 3 → reader_stage m.place ≤ 1
  pub came : 1 ≤ reader_stage (b.reader i) → 1 ≤ reader_stage m.place
  pub left : reader_stage (b.reader i) ≡ 6 → reader_stage m.place ≡ 6
  pub comes_late : 3 ≤ reader_stage m.place → 7 ≤ phase b.main
  pub sees_empty : 5 ≤ reader_stage m.place → count rest ≡ 0
  pub smaller : count v.held ≡ 0 → count rest ≡ 0

module _ {S : Service} {u : Setup} {b : Bench S} (v : Fair u b) (i : ℕ) where
  pub Fair-writer :
      i < u.producers
      → (m : Moved S Writer) → WriterKeeps v i m
      → Fair u (record b {
        queue = m.queue;
        push_counter = update b.push_counter i m.counted;
        producers_counter = m.present;
        writer = update b.writer i m.place;
      })
  Fair-writer within m k = record {
    held = k.rest;
    holds = k.still_holds;
    balance = omega (
      arith,
      total-update made b.writer b.push_counter u.producers i m.place m.counted within,
      k.even,
      v.balance,
    );
    writers_there = omega (
      arith,
      total-update writer_there b.writer b.push_counter u.producers i m.place m.counted within,
      k.there,
      v.writers_there,
    );
    readers_there = v.readers_there;
    state_is = v.state_is;
    writers_wait = λ early.
        update_each (λ j p. writer_stage p ≤ 1) b.writer i m.place (k.waits early)
          (v.writers_wait early);
    readers_wait = v.readers_wait;
    readers_came = v.readers_came;
    writers_came = λ begun.
        update_each (λ j p. j < u.producers → 1 ≤ writer_stage p) b.writer i m.place
          (λ q. k.came (v.writers_came begun i within)) (v.writers_came begun);
    writers_left = λ over.
        update_each (λ j p. j < u.producers → writer_stage p ≡ 4) b.writer i m.place
          (λ q. k.left (v.writers_left over i within)) (v.writers_left over);
    late = v.late;
    emptied = λ j gone. k.unmoved (omega (arith, v.late j (omega arith))) ∙ v.emptied j gone;
    readers_left = v.readers_left;
    result = λ s t e.
        let (same, none_left) = v.result s t e in
        (same, k.unmoved (subst (λ a. 6 ≤ phase a) (sym e) (omega arith)) ∙ none_left);
  }

  pub Fair-reader :
      i < u.consumers
      → (m : Moved S Reader) → ReaderKeeps v i m
      → Fair u (record b {
        queue = m.queue;
        pop_counter = update b.pop_counter i m.counted;
        consumers_counter = m.present;
        reader = update b.reader i m.place;
      })
  Fair-reader within m k = record {
    held = k.rest;
    holds = k.still_holds;
    balance = omega (
      arith,
      total-update taken b.reader b.pop_counter u.consumers i m.place m.counted within,
      k.even,
      v.balance,
    );
    writers_there = v.writers_there;
    readers_there = omega (
      arith,
      total-update reader_there b.reader b.pop_counter u.consumers i m.place m.counted within,
      k.there,
      v.readers_there,
    );
    state_is = v.state_is;
    writers_wait = v.writers_wait;
    readers_wait = λ early.
        update_each (λ j p. reader_stage p ≤ 1) b.reader i m.place (k.waits early)
          (v.readers_wait early);
    readers_came = λ begun.
        update_each (λ j p. j < u.consumers → 1 ≤ reader_stage p) b.reader i m.place
          (λ q. k.came (v.readers_came begun i within)) (v.readers_came begun);
    writers_came = v.writers_came;
    writers_left = v.writers_left;
    late =
        update_each (λ j p. 3 ≤ reader_stage p → 7 ≤ phase b.main) b.reader i m.place k.comes_late
          v.late;
    emptied =
        update_each (λ j p. 5 ≤ reader_stage p → count k.rest ≡ 0) b.reader i m.place k.sees_empty
          (λ j gone. k.smaller (v.emptied j gone));
    readers_left = λ over.
        update_each (λ j p. j < u.consumers → reader_stage p ≡ 6) b.reader i m.place
          (λ q. k.left (v.readers_left over i within)) (v.readers_left over);
    result = λ s t e. let (same, none_left) = v.result s t e in (same, k.smaller none_left);
  }
