-- ===== src/PackBench.antt =====
-- src/pack_benchmark.cpp, `bw_benchmark`: producers push numbers of their own, consumers pop until no
-- producer is active, and the sums are compared. The queue is a service: a queue or a pack.
pub mod Kept
pub mod Sums
pub mod Late
pub mod Stuck
use lockfree_mpmc_queue.Base.{
  ℕ, zero, suc, ◌+◌, ◌-◌, ◌*◌, ◌^◌, Bool, true, false, List, [], ◌∷◌, Option, none, some, ltb, ◌==◌,
  update, if◌then◌else◌,
}
use lockfree_mpmc_queue.Base.Word.{cast}
use lockfree_mpmc_queue.Service.{Service}

-- `P`, `C`, `N`, and the bits of `value_type`
pub record Plan : Type 0 where
  pub producers : ℕ
  pub consumers : ℕ
  pub rounds : ℕ
  pub value_bits : ℕ

pub data Writer : Type 0 where
  joining : Writer  -- before `++active_producers`
  held_back : Writer  -- `while (benchmark_state)`
  pushing : ℕ → ℕ → Writer  -- at the head of a loop, with `x` and `m`
  reporting : ℕ → Writer  -- before `prod_sum += m`
  leaving : Writer  -- before `--active_producers`
  ended : Writer

pub data Reader : Type 0 where
  joining : Reader  -- before `++active_consumers`
  popping : ℕ → ℕ → Reader  -- with `m` and `n`
  asking : ℕ → ℕ → Reader  -- `while (active_producers)`
  reporting : ℕ → ℕ → Reader  -- before `cons_sum += m`
  storing : ℕ → Reader  -- before `consumers_pops[consumer_id] = n`
  leaving : Reader  -- before `--active_consumers`
  ended : Reader

-- The main thread starts the consumers once it has seen every producer.
pub data Main : Type 0 where
  awaiting_producers : Main  -- `while (active_producers != P)`
  awaiting_consumers : Main  -- `while (active_consumers != C)`
  setting : Main  -- before `benchmark_state = 1`
  awaiting_end : Main  -- `while (active_consumers != 0)`
  finished : Main

pub record Bench (S : Service) : Type 0 where
  pub queue : S.State
  pub prod_sum : ℕ
  pub cons_sum : ℕ
  pub active_producers : ℕ
  pub active_consumers : ℕ
  pub benchmark_state : ℕ
  pub consumers_pops : ℕ → ℕ
  pub writer : ℕ → Writer
  pub reader : ℕ → Reader
  pub main : Main

-- What a step of a thread leaves: the queue, its place, the sum of its kind, how many of its kind are
-- active, and for a consumer its count.
pub record Moved (S : Service) (T : Type 0) : Type 0 where
  pub queue : S.State
  pub place : T
  pub sum : ℕ
  pub active : ℕ
  pub stored : ℕ

-- `x + 10 * N * producer_id` in `unsigned`, as a value
abbrev pub value_of : Plan → ℕ → ℕ → ℕ
value_of u i x = cast u.value_bits (cast 32 (x + 10 * u.rounds * i))

abbrev pub has_consumers : Main → Bool
has_consumers awaiting_producers = false
has_consumers started = true

module _ (S : Service) where
  unfoldable pub begin : S.State → Bench S
  begin q = record {
    queue = q;
    prod_sum = 0;
    cons_sum = 0;
    active_producers = 0;
    active_consumers = 0;
    benchmark_state = 0;
    consumers_pops = λ i. 0;
    writer = λ i. joining;
    reader = λ i. joining;
    main = awaiting_producers;
  }

  abbrev pub writer_stays : Bench S → Writer → Moved S Writer
  writer_stays b p = record {
    queue = b.queue;
    place = p;
    sum = b.prod_sum;
    active = b.active_producers;
    stored = 0;
  }

  unfoldable pub writer_step : Plan → Bench S → ℕ → Writer → Moved S Writer
  writer_step u b i joining = record (writer_stays b held_back) {
    active = cast 64 (b.active_producers + 1);
  }
  writer_step u b i held_back =
      writer_stays b (if b.benchmark_state == 0 then pushing 0 0 else held_back)
  writer_step u b i (pushing x m) =
      if ltb x u.rounds
      then elim (S.push b.queue i (value_of u i x)) [
        | none ↦ writer_stays b (pushing x m)
        | some (pushed, q) ↦
            record (writer_stays b (
              if pushed
              then pushing (cast 32 (x + 1)) (cast 64 (m + value_of u i x))
              else pushing x m)) { queue = q }
      ]
      else writer_stays b (reporting m)
  writer_step u b i (reporting m) = record (writer_stays b leaving) {
    sum = cast 64 (b.prod_sum + m);
  }
  writer_step u b i leaving = record (writer_stays b ended) {
    active = cast 64 (b.active_producers + 2 ^ 64 - 1);
  }
  writer_step u b i ended = writer_stays b ended

  abbrev pub reader_stays : Bench S → ℕ → Reader → Moved S Reader
  reader_stays b i p = record {
    queue = b.queue;
    place = p;
    sum = b.cons_sum;
    active = b.active_consumers;
    stored = b.consumers_pops i;
  }

  unfoldable pub reader_step : Bench S → ℕ → Reader → Moved S Reader
  reader_step b i joining = record (reader_stays b i (popping 0 0)) {
    active = cast 64 (b.active_consumers + 1);
  }
  reader_step b i (popping m n) = elim (S.pop b.queue i) [
    | none ↦ reader_stays b i (popping m n)
    | some (none, q) ↦ record (reader_stays b i (asking m n)) { queue = q }
    | some (some v, q) ↦ record (reader_stays b i (popping (cast 64 (m + v)) (cast 64 (n + 1)))) {
      queue = q;
    }
  ]
  reader_step b i (asking m n) =
      reader_stays b i (if b.active_producers == 0 then reporting m n else popping m n)
  reader_step b i (reporting m n) = record (reader_stays b i (storing n)) {
    sum = cast 64 (b.cons_sum + m);
  }
  reader_step b i (storing n) = record (reader_stays b i leaving) { stored = n }
  reader_step b i leaving = record (reader_stays b i ended) {
    active = cast 64 (b.active_consumers + 2 ^ 64 - 1);
  }
  reader_step b i ended = reader_stays b i ended

  unfoldable pub main_step : Plan → Bench S → Main → Bench S
  main_step u b awaiting_producers =
      if b.active_producers == u.producers then record b { main = awaiting_consumers } else b
  main_step u b awaiting_consumers =
      if b.active_consumers == u.consumers then record b { main = setting } else b
  main_step u b setting = record b { benchmark_state = 1; main = awaiting_end }
  main_step u b awaiting_end = if b.active_consumers == 0 then record b { main = finished } else b
  main_step u b finished = b

-- The scheduler's choice.
pub data Turn : Type 0 where
  writes : ℕ → Turn
  reads : ℕ → Turn
  leads : Turn

module _ (S : Service) where
  unfoldable pub take_turn : Plan → Bench S → Turn → Bench S
  take_turn u b (writes i) =
      let t = writer_step S u b i (b.writer i) in
      let moved : Bench S = record b {
        queue = t.queue;
        prod_sum = t.sum;
        active_producers = t.active;
        writer = update b.writer i t.place;
      } in
      if ltb i u.producers then moved else b
  take_turn u b (reads i) =
      let t = reader_step S b i (b.reader i) in
      let moved : Bench S = record b {
        queue = t.queue;
        cons_sum = t.sum;
        active_consumers = t.active;
        consumers_pops = update b.consumers_pops i t.stored;
        reader = update b.reader i t.place;
      } in
      let started : Bench S = if has_consumers b.main then moved else b in
      if ltb i u.consumers then started else b
  take_turn u b leads = main_step S u b b.main

  unfoldable pub take_turns : Plan → Bench S → List Turn → Bench S
  take_turns u b [] = b
  take_turns u b (t ∷ turns) = take_turns u (take_turn u b t) turns
