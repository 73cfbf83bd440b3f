-- ===== src/PackBench/Sums.antt =====
-- src/pack_benchmark.cpp: the two sums at the end.
use lockfree_mpmc_queue.Base.{
  ℕ, ◌+◌, ◌<◌, ◌≡◌, refl, ap, inl, inr, Bool-cases, List, [], ◌∷◌, arith, ltb, ◌==◌, update,
}
use lockfree_mpmc_queue.Base.Word.{cast}
use lockfree_mpmc_queue.Service.{Service}
use lockfree_mpmc_queue.Service.Totals.{total_same, total_zero, total-update}
use lockfree_mpmc_queue.PackBench.{
  Plan, Writer, Reader, Main, Bench, Moved, begin, writer_step, reader_step, main_step, Turn,
  writes, reads, leads, take_turn, take_turns, has_consumers, awaiting_producers,
  awaiting_consumers, setting, awaiting_end, finished,
}
use lockfree_mpmc_queue.PackBench.Kept.{
  writer_sum, reader_sum, sum_of, Sums, WriterKeeps, ReaderKeeps, WriterKeeps-writer_step,
  ReaderKeeps-reader_step,
}

module _ {S : Service} {u : Plan} {b : Bench S} (v : Sums u b) (i : ℕ) where
  Sums-writer :
      i < u.producers
      → (t : Moved S Writer) → WriterKeeps v i t
      → Sums u (record b {
        queue = t.queue;
        prod_sum = t.sum;
        active_producers = t.active;
        writer = update b.writer i t.place;
      })
  Sums-writer within t k = record {
    held = k.rest;
    holds = k.still_holds;
    balance = omega (
      arith,
      v.balance,
      k.even,
      total-update (λ p k. writer_sum p 0) b.writer (λ j. 0) u.producers i t.place 0 within,
    );
    in_words = (k.in_word, v.in_words.1);
  }

  Sums-reader :
      i < u.consumers
      → (t : Moved S Reader) → ReaderKeeps v i t
      → Sums u (record b {
        queue = t.queue;
        cons_sum = t.sum;
        active_consumers = t.active;
        consumers_pops = update b.consumers_pops i t.stored;
        reader = update b.reader i t.place;
      })
  Sums-reader within t k = record {
    held = k.rest;
    holds = k.still_holds;
    balance = omega (
      arith,
      v.balance,
      k.even,
      total-update (λ p k. reader_sum p 0) b.reader (λ j. 0) u.consumers i t.place 0 within,
    );
    in_words = (v.in_words.0, k.in_word);
  }

Sums-main :
    {S : Service} {u : Plan} {b : Bench S}
    → Sums u b
    → (s : ℕ) (m : Main) → Sums u (record b { benchmark_state = s; main = m })
Sums-main v s m = record {
  held = v.held;
  holds = v.holds;
  balance = v.balance;
  in_words = v.in_words;
}

Sums-main_step :
    {S : Service} {u : Plan} {b : Bench S} → Sums u b → (m : Main) → Sums u (main_step S u b m)
unfolding main_step
Sums-main_step {u = u} {b = b} v awaiting_producers =
    elim (Bool-cases (b.active_producers == u.producers)) [
      | inl all ↦ rw all (Sums-main v b.benchmark_state awaiting_consumers)
      | inr few ↦ rw few v
    ]
Sums-main_step {u = u} {b = b} v awaiting_consumers =
    elim (Bool-cases (b.active_consumers == u.consumers)) [
      | inl all ↦ rw all (Sums-main v b.benchmark_state setting)
      | inr few ↦ rw few v
    ]
Sums-main_step v setting = Sums-main v 1 awaiting_end
Sums-main_step {b = b} v awaiting_end = elim (Bool-cases (b.active_consumers == 0)) [
  | inl gone ↦ rw gone (Sums-main v b.benchmark_state finished)
  | inr more ↦ rw more v
]
Sums-main_step v finished = v

Sums-begin : {S : Service} (u : Plan) (q : S.State) → S.Holds q [] → Sums u (begin S q)
unfolding begin
Sums-begin u q h = record {
  held = [];
  holds = h;
  balance = ap (cast 64) (omega (arith, total_zero u.producers, total_zero u.consumers));
  in_words = (omega arith, omega arith);
}

Sums-take_turns :
    {S : Service} {u : Plan} (turns : List Turn) (b : Bench S)
    → Sums u b
    → Sums u (take_turns S u b turns)
unfolding take_turns take_turn
Sums-take_turns [] b v = v
Sums-take_turns {S} {u} (writes i ∷ turns) b v = elim (Bool-cases (ltb i u.producers)) [
  | inl within ↦ rw within (
      Sums-take_turns turns _ (
        Sums-writer v i (ground (arith, within)) (writer_step S u b i (b.writer i))
          (WriterKeeps-writer_step v i (b.writer i) refl)))
  | inr beyond ↦ rw beyond (Sums-take_turns turns b v)
]
Sums-take_turns {S} {u} (reads i ∷ turns) b v = elim (Bool-cases (ltb i u.consumers)) [
  | inl within ↦ rw within (elim (Bool-cases (has_consumers b.main)) [
    | inl started ↦ rw started (
        Sums-take_turns turns _ (
          Sums-reader v i (ground (arith, within)) (reader_step S b i (b.reader i))
            (ReaderKeeps-reader_step v i (b.reader i) refl)))
    | inr unborn ↦ rw unborn (Sums-take_turns turns b v)
  ])
  | inr beyond ↦ rw beyond (Sums-take_turns turns b v)
]
Sums-take_turns {S} {u} (leads ∷ turns) b v = Sums-take_turns turns _ (Sums-main_step v b.main)

-- Every thread has ended.
abbrev pub AllEnded : {S : Service} → Plan → Bench S → Type 0
AllEnded u b =
    ((i : ℕ) → i < u.producers → b.writer i ≡ Writer.ended)
    × ((i : ℕ) → i < u.consumers → b.reader i ≡ Reader.ended)

-- The sum pushed is the sum popped and what the service holds.
abbrev pub Adds : {S : Service} → Bench S → Type 0
Adds {S} b =
    (held : List ℕ) × S.Holds b.queue held × (b.prod_sum ≡ cast 64 (b.cons_sum + sum_of held))

-- From a service that holds nothing, in every order of the threads' steps: once every thread has ended,
-- `prod_sum` is `cons_sum` and the sum of what the service still holds, as 64-bit words.
pub take_turns-Adds :
    (S : Service) (u : Plan) (q : S.State) (turns : List Turn)
    → S.Holds q []
    → AllEnded u (take_turns S u (begin S q) turns)
    → Adds (take_turns S u (begin S q) turns)
take_turns-Adds S u q turns h (writers_over, readers_over) =
    let b = take_turns S u (begin S q) turns in
    let v = Sums-take_turns turns (begin S q) (Sums-begin u q h) in
    (
      v.held,
      v.holds,
      omega (
        arith,
        v.balance,
        v.in_words,
        total_zero u.producers,
        total_zero u.consumers,
        total_same u.producers (λ i. writer_sum (b.writer i) 0) (λ i. 0)
            (λ i within. ap (λ p. writer_sum p 0) (writers_over i within)),
        total_same u.consumers (λ i. reader_sum (b.reader i) 0) (λ i. 0)
            (λ i within. ap (λ p. reader_sum p 0) (readers_over i within)),
      ),
    )
