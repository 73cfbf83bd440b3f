-- ===== src/PackBench/Kept.antt =====
-- src/pack_benchmark.cpp: what a step of a thread does to the sums.
use native.Mathlib.Nat.{mod-lt}
use lockfree_mpmc_queue.Base.{
  ℕ, ◌+◌, ◌-◌, ◌^◌, ◌<◌, ◌≡◌, refl, ap, inl, inr, Bool-cases, List, arith, ltb, ◌==◌,
}
use lockfree_mpmc_queue.Base.Word.{cast}
use lockfree_mpmc_queue.Service.{Service, weigh}
use lockfree_mpmc_queue.Service.Totals.{total}
use lockfree_mpmc_queue.PackBench.{
  Plan, Writer, Reader, Bench, Moved, writer_step, reader_step, value_of,
}

-- What a thread has summed and not reported.
abbrev pub writer_sum : Writer → ℕ → ℕ
writer_sum (Writer.pushing x m) k = m
writer_sum (Writer.reporting m) k = m
writer_sum other k = 0

abbrev pub reader_sum : Reader → ℕ → ℕ
reader_sum (Reader.popping m n) k = m
reader_sum (Reader.asking m n) k = m
reader_sum (Reader.reporting m n) k = m
reader_sum other k = 0

abbrev pub sum_of : List ℕ → ℕ
sum_of = weigh (λ x. x)

-- All that was pushed has been popped or is held, by its sum.
pub record Sums {S : Service} (u : Plan) (b : Bench S) : Type 0 where
  pub held : List ℕ
  pub holds : S.Holds b.queue held
  pub balance :
      cast 64 (b.prod_sum + total u.producers (λ i. writer_sum (b.writer i) 0))
      ≡ cast 64 (b.cons_sum + total u.consumers (λ i. reader_sum (b.reader i) 0) + sum_of held)
  pub in_words : (b.prod_sum < 2 ^ 64) × (b.cons_sum < 2 ^ 64)

-- What a step of a writer must keep to, and of a reader.
pub record WriterKeeps {S : Service} {u : Plan} {b : Bench S} (v : Sums u b) (i : ℕ)
    (t : Moved S Writer) : Type 0 where
  pub rest : List ℕ
  pub still_holds : S.Holds t.queue rest
  pub even :
      cast 64 (t.sum + writer_sum t.place 0 + sum_of v.held)
      ≡ cast 64 (b.prod_sum + writer_sum (b.writer i) 0 + sum_of rest)
  pub in_word : t.sum < 2 ^ 64

pub record ReaderKeeps {S : Service} {u : Plan} {b : Bench S} (v : Sums u b) (i : ℕ)
    (t : Moved S Reader) : Type 0 where
  pub rest : List ℕ
  pub still_holds : S.Holds t.queue rest
  pub even :
      cast 64 (t.sum + reader_sum t.place 0 + sum_of rest)
      ≡ cast 64 (b.cons_sum + reader_sum (b.reader i) 0 + sum_of v.held)
  pub in_word : t.sum < 2 ^ 64

word-lt : (n : ℕ) → cast 64 n < 2 ^ 64
word-lt n = mod-lt n (omega arith)

module _ {S : Service} {u : Plan} {b : Bench S} (v : Sums u b) (i : ℕ) where
  writer_goes :
      (p : Writer) (a : ℕ)
      → writer_sum p 0 ≡ writer_sum (b.writer i) 0
      → WriterKeeps v i
          (record { queue = b.queue; place = p; sum = b.prod_sum; active = a; stored = 0 })
  writer_goes p a e = record {
    rest = v.held;
    still_holds = v.holds;
    even = ap (λ t. cast 64 (b.prod_sum + t + sum_of v.held)) e;
    in_word = v.in_words.0;
  }

  pub WriterKeeps-writer_step :
      (p : Writer) → b.writer i ≡ p → WriterKeeps v i (writer_step S u b i p)
  unfolding writer_step
  WriterKeeps-writer_step Writer.joining e =
      writer_goes Writer.held_back (cast 64 (b.active_producers + 1)) (rw e refl)
  WriterKeeps-writer_step Writer.held_back e = elim (Bool-cases (b.benchmark_state == 0)) [
    | inl free ↦ rw free (writer_goes (Writer.pushing 0 0) b.active_producers (rw e refl))
    | inr held ↦ rw held (writer_goes Writer.held_back b.active_producers (rw e refl))
  ]
  WriterKeeps-writer_step (Writer.pushing x m) e = elim (Bool-cases (ltb x u.rounds)) [
    | inr over ↦ rw over (writer_goes (Writer.reporting m) b.active_producers (rw e refl))
    | inl more ↦
        let (q, ys, holds, outcome) = S.push_law b.queue v.held i (value_of u i x) v.holds in
        elim outcome [
          | inl (pushed, same) ↦ rw more (
              rw (pushed, writer_step)
                (record {
                  rest = ys;
                  still_holds = holds;
                  even = rw e (omega (arith, same (λ x. x)));
                  in_word = v.in_words.0;
                }))
          | inr (refused, same) ↦ rw more (
              rw (refused, writer_step)
                (record {
                  rest = ys;
                  still_holds = holds;
                  even = rw e (omega (arith, same (λ x. x)));
                  in_word = v.in_words.0;
                }))
        ]
  ]
  WriterKeeps-writer_step (Writer.reporting m) e = record {
    rest = v.held;
    still_holds = v.holds;
    even = rw e (omega arith);
    in_word = word-lt (b.prod_sum + m);
  }
  WriterKeeps-writer_step Writer.leaving e =
      writer_goes Writer.ended (cast 64 (b.active_producers + 2 ^ 64 - 1)) (rw e refl)
  WriterKeeps-writer_step Writer.ended e = writer_goes Writer.ended b.active_producers (rw e refl)

  reader_goes :
      (p : Reader) (a s : ℕ)
      → reader_sum p 0 ≡ reader_sum (b.reader i) 0
      → ReaderKeeps v i
          (record { queue = b.queue; place = p; sum = b.cons_sum; active = a; stored = s })
  reader_goes p a s e = record {
    rest = v.held;
    still_holds = v.holds;
    even = ap (λ t. cast 64 (b.cons_sum + t + sum_of v.held)) e;
    in_word = v.in_words.1;
  }

  pub ReaderKeeps-reader_step :
      (p : Reader) → b.reader i ≡ p → ReaderKeeps v i (reader_step S b i p)
  unfolding reader_step
  ReaderKeeps-reader_step Reader.joining e =
      reader_goes (Reader.popping 0 0) (cast 64 (b.active_consumers + 1)) (b.consumers_pops i)
        (rw e refl)
  ReaderKeeps-reader_step (Reader.popping m n) e =
      let (q, ys, holds, outcome) = S.pop_law b.queue v.held i v.holds in
      elim outcome [
        | inl (x, popped, same) ↦
            rw (popped, reader_step)
              (record {
                rest = ys;
                still_holds = holds;
                even = rw e (omega (arith, same (λ x. x)));
                in_word = v.in_words.1;
              })
        | inr (nothing, same, gone) ↦
            rw (nothing, reader_step)
              (record {
                rest = ys;
                still_holds = holds;
                even = rw e (omega (arith, same (λ x. x), gone (λ x. x)));
                in_word = v.in_words.1;
              })
      ]
  ReaderKeeps-reader_step (Reader.asking m n) e = elim (Bool-cases (b.active_producers == 0)) [
    | inl none_there ↦
        rw none_there
          (reader_goes (Reader.reporting m n) b.active_consumers (b.consumers_pops i) (rw e refl))
    | inr more ↦
        rw more
          (reader_goes (Reader.popping m n) b.active_consumers (b.consumers_pops i) (rw e refl))
  ]
  ReaderKeeps-reader_step (Reader.reporting m n) e = record {
    rest = v.held;
    still_holds = v.holds;
    even = rw e (omega arith);
    in_word = word-lt (b.cons_sum + m);
  }
  ReaderKeeps-reader_step (Reader.storing n) e =
      reader_goes Reader.leaving b.active_consumers n (rw e refl)
  ReaderKeeps-reader_step Reader.leaving e =
      reader_goes Reader.ended (cast 64 (b.active_consumers + 2 ^ 64 - 1)) (b.consumers_pops i)
        (rw e refl)
  ReaderKeeps-reader_step Reader.ended e =
      reader_goes Reader.ended b.active_consumers (b.consumers_pops i) (rw e refl)
