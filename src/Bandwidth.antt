-- ===== src/Bandwidth.antt =====
-- src/mpmc_queue_timing.h, `QBandwidth::run`: writers push until the main thread says stop, readers pop
-- until nothing is left, and the main thread compares the sums. A step is one access to what the
-- threads share, or one call of the queue.
pub mod Stages
pub mod Fair
pub mod Phases
pub mod Places
pub mod Writes
pub mod Reads
pub mod Moves
pub mod Leads
pub mod Result
use lockfree_mpmc_queue.Base.{
  ℕ, zero, suc, ◌+◌, ◌-◌, ◌^◌, ◌≤◌, Bool, true, false, not, ◌&&◌, List, [], ◌∷◌, Option, none, some,
  ◌==◌, update, ltb, if◌then◌else◌,
}
use lockfree_mpmc_queue.Base.Word.{cast}
use lockfree_mpmc_queue.Service.{Service}
use lockfree_mpmc_queue.Service.Totals.{add_up}

-- The sizes of `_producers` and `_consumers`, and the bits of `Q::value_type`.
pub record Setup : Type 0 where
  pub producers : ℕ
  pub consumers : ℕ
  pub value_bits : ℕ

-- Where a writer stands, with its local `counter`.
pub data Writer : Type 0 where
  starting : Writer  -- before `++_producers_counter`
  waiting : Writer  -- `while (_state < 1)`
  testing : ℕ → Writer  -- `while (_state == 1)`
  pushing : ℕ → Writer
  storing : ℕ → Writer  -- before `_push_counter[writer_id] = counter`
  leaving : Writer  -- before `--_producers_counter`
  ended : Writer

-- Where a reader stands. Its loop's condition makes three accesses.
pub data Reader : Type 0 where
  starting : Reader
  waiting : Reader
  asking_state : ℕ → Reader  -- `_state < 3`
  asking_producers : ℕ → Reader  -- `_producers_counter > 0`
  asking_queue : ℕ → Reader  -- `!_q.empty()`
  popping : ℕ → Reader
  storing : ℕ → Reader
  leaving : Reader
  ended : Reader

-- Where the main thread stands, once it has started the others.
pub data Main : Type 0 where
  clearing : Main  -- the counters are set to 0 again
  gathering : Main  -- `_consumers_counter < _consumers.size()`
  gathering_producers : Main  -- `_producers_counter < _producers.size()`
  opening : Main  -- before `_state = 1`
  closing : Main  -- before `_state = 2`
  awaiting_producers : Main
  finishing : Main  -- before `_state = 4`
  awaiting_consumers : Main
  adding : Main
  done : ℕ → ℕ → Main  -- the sums that it prints
  aborted : Main

pub record Bench (S : Service) : Type 0 where
  pub queue : S.State
  pub push_counter : ℕ → ℕ
  pub pop_counter : ℕ → ℕ
  pub producers_counter : ℕ
  pub consumers_counter : ℕ
  pub state : ℕ
  pub writer : ℕ → Writer
  pub reader : ℕ → Reader
  pub main : Main

-- What a step of one thread leaves: the queue, where the thread stands, its place in the vector of
-- counts, and the number of threads of its kind that are there.
pub record Moved (S : Service) (T : Type 0) : Type 0 where
  pub queue : S.State
  pub place : T
  pub counted : ℕ
  pub present : ℕ

module _ (S : Service) where
  -- The queue before the threads start; every vector and counter is 0.
  unfoldable pub begin : S.State → Bench S
  begin q = record {
    queue = q;
    push_counter = λ i. 0;
    pop_counter = λ i. 0;
    producers_counter = 0;
    consumers_counter = 0;
    state = 0;
    writer = λ i. starting;
    reader = λ i. starting;
    main = clearing;
  }

  abbrev pub writer_stays : Bench S → ℕ → Writer → Moved S Writer
  writer_stays b i p = record {
    queue = b.queue;
    place = p;
    counted = b.push_counter i;
    present = b.producers_counter;
  }

  -- A step of the writer `i`.
  unfoldable pub writer_step : Setup → Bench S → ℕ → Writer → Moved S Writer
  writer_step u b i starting = record (writer_stays b i waiting) {
    present = cast 32 (b.producers_counter + 1);
  }
  writer_step u b i waiting = writer_stays b i (if ltb b.state 1 then waiting else testing 0)
  writer_step u b i (testing c) = writer_stays b i (if b.state == 1 then pushing c else storing c)
  writer_step u b i (pushing c) = elim (S.push b.queue i (cast u.value_bits c)) [
    | none ↦ writer_stays b i (pushing c)
    | some (pushed, q) ↦
        record (writer_stays b i (testing (if pushed then cast 64 (c + 1) else c))) { queue = q }
  ]
  writer_step u b i (storing c) = record (writer_stays b i leaving) { counted = c }
  writer_step u b i leaving = record (writer_stays b i ended) {
    present = cast 32 (b.producers_counter + 2 ^ 32 - 1);
  }
  writer_step u b i ended = writer_stays b i ended

  abbrev pub reader_stays : Bench S → ℕ → Reader → Moved S Reader
  reader_stays b i p = record {
    queue = b.queue;
    place = p;
    counted = b.pop_counter i;
    present = b.consumers_counter;
  }

  -- A step of the reader `i`.
  unfoldable pub reader_step : Bench S → ℕ → Reader → Moved S Reader
  reader_step b i starting = record (reader_stays b i waiting) {
    present = cast 32 (b.consumers_counter + 1);
  }
  reader_step b i waiting = reader_stays b i (if ltb b.state 1 then waiting else asking_state 0)
  reader_step b i (asking_state c) =
      reader_stays b i (if ltb b.state 3 then popping c else asking_producers c)
  reader_step b i (asking_producers c) =
      reader_stays b i (if ltb 0 b.producers_counter then popping c else asking_queue c)
  reader_step b i (asking_queue c) =
      reader_stays b i (if S.is_empty b.queue then storing c else popping c)
  reader_step b i (popping c) = elim (S.pop b.queue i) [
    | none ↦ reader_stays b i (popping c)
    | some (none, q) ↦ record (reader_stays b i (asking_state c)) { queue = q }
    | some (some x, q) ↦ record (reader_stays b i (popping (cast 64 (c + 1)))) { queue = q }
  ]
  reader_step b i (storing c) = record (reader_stays b i leaving) { counted = c }
  reader_step b i leaving = record (reader_stays b i ended) {
    present = cast 32 (b.consumers_counter + 2 ^ 32 - 1);
  }
  reader_step b i ended = reader_stays b i ended

  -- A step of the main thread.
  unfoldable pub main_step : Setup → Bench S → Main → Bench S
  main_step u b clearing = record b {
    push_counter = λ i. 0;
    pop_counter = λ i. 0;
    main = gathering;
  }
  main_step u b gathering =
      if ltb b.consumers_counter u.consumers then b else record b { main = gathering_producers }
  main_step u b gathering_producers = record b {
    main = if ltb b.producers_counter u.producers then gathering else opening;
  }
  main_step u b opening = record b { state = 1; main = closing }
  main_step u b closing = record b { state = 2; main = awaiting_producers }
  main_step u b awaiting_producers =
      if ltb 0 b.producers_counter then b else record b { main = finishing }
  main_step u b finishing = record b { state = 4; main = awaiting_consumers }
  main_step u b awaiting_consumers =
      if ltb 0 b.consumers_counter then b else record b { main = adding }
  main_step u b adding = record b {
    main = done (add_up u.producers b.push_counter) (add_up u.consumers b.pop_counter);
  }
  main_step u b other = b

-- The scheduler's choice. `gives_up`: the main thread finds that it has waited too long.
pub data Turn : Type 0 where
  writes : ℕ → Turn
  reads : ℕ → Turn
  leads : Turn
  gives_up : Turn

module _ (S : Service) where
  unfoldable pub give_up : Bench S → Bench S
  give_up b = elim b.main [
    | awaiting_producers ↦ record b { main = finishing }
    | awaiting_consumers ↦ record b { main = aborted }
    | other ↦ b
  ]

  unfoldable pub take_turn : Setup → Bench S → Turn → Bench S
  take_turn u b (writes i) =
      let m = writer_step S u b i (b.writer i) in
      let moved = record b {
        queue = m.queue;
        push_counter = update b.push_counter i m.counted;
        producers_counter = m.present;
        writer = update b.writer i m.place;
      } in
      if ltb i u.producers then moved else b
  take_turn u b (reads i) =
      let m = reader_step S b i (b.reader i) in
      let moved = record b {
        queue = m.queue;
        pop_counter = update b.pop_counter i m.counted;
        consumers_counter = m.present;
        reader = update b.reader i m.place;
      } in
      if ltb i u.consumers then moved else b
  take_turn u b leads = main_step S u b b.main
  take_turn u b gives_up = give_up b

  unfoldable pub take_turns : Setup → Bench S → List Turn → Bench S
  take_turns u b [] = b
  take_turns u b (t ∷ turns) = take_turns u (take_turn u b t) turns
