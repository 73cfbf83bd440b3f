-- ===== src/PackBench/Stuck.antt =====
-- src/pack_benchmark.cpp: the steps after a producer was late for the start.
use native.Mathlib.Decide.{ℕ_discrete}
use lockfree_mpmc_queue.Base.{
  ℕ, ◌+◌, ◌≡◌, ◌≢◌, refl, sym, ap, ◌∙◌, subst, inl, inr, true, Bool-cases, List, [], ◌∷◌, Option,
  none, some, arith, ltb, ==_of_ne, update, update_self, update_ne,
}
use lockfree_mpmc_queue.Base.Word.{cast}
use lockfree_mpmc_queue.Service.{Service}
use lockfree_mpmc_queue.Service.Totals.{total-update}
use lockfree_mpmc_queue.PackBench.{
  Plan, Writer, Reader, Bench, Moved, writer_step, reader_step, main_step, Turn, writes, reads,
  leads, take_turn, take_turns, has_consumers,
}
use lockfree_mpmc_queue.PackBench.Late.{
  writer_there, is_looping, IsStuck, some_active, counts_itself,
}

module _ {S : Service} {u : Plan} {i : ℕ} {b : Bench S} (v : IsStuck u i b) where
  held_step : (j : ℕ) → (writer_step S u b j Writer.held_back).place ≡ Writer.held_back
  unfolding writer_step
  held_step j = rw (==_of_ne b.benchmark_state 0 (λ e. absurd (omega (arith, v.set, e)))) refl

  IsStuck-writes : (j : ℕ) → IsStuck u i (take_turn S u b (writes j))
  unfolding take_turn
  IsStuck-writes j = elim (Bool-cases (ltb j u.producers)) [
    | inr beyond ↦ rw beyond v
    | inl within ↦ rw within (record {
      exists = v.exists;
      few = v.few;
      waits = elim (ℕ_discrete i j) [
        | yes e ↦
            subst
              (λ k. update b.writer k (writer_step S u b k (b.writer k)).place i ≡ Writer.held_back)
              e
              (update_self b.writer i (writer_step S u b i (b.writer i)).place
                ∙ ap (λ p. (writer_step S u b i p).place) v.waits
                ∙ held_step i)
        | no ne ↦ update_ne b.writer j i (writer_step S u b j (b.writer j)).place ne ∙ v.waits
      ];
      set = v.set;
      begun = v.begun;
      counted = omega (
        arith,
        v.counted,
        counts_itself v j (b.writer j) refl,
        total-update (λ p k. writer_there p 0) b.writer (λ k. 0) u.producers j
            (writer_step S u b j (b.writer j)).place 0 (ground (arith, within)),
      );
      looping = v.looping;
      consuming = v.consuming;
    })
  ]

  IsStuck-leads : IsStuck u i (take_turn S u b leads)
  unfolding take_turn main_step
  IsStuck-leads =
      subst (λ m. IsStuck u i (main_step S u b m)) (sym v.begun)
        (rw (==_of_ne b.active_consumers 0 v.consuming) v)

  -- A consumer in its loop stays there while a producer is active.
  loops_on :
      (j : ℕ) (p : Reader)
      → is_looping p ≡ true
      → (is_looping (reader_step S b j p).place ≡ true)
        × ((reader_step S b j p).active ≡ b.active_consumers)
  unfolding reader_step
  loops_on j Reader.joining e = cc e
  loops_on j (Reader.popping m n) e = go (S.pop b.queue j)
    where
      go :
          (o : Option (Option ℕ × S.State))
          → let t : Moved S Reader = (elim o [
            | none ↦ record {
              queue = b.queue;
              place = Reader.popping m n;
              sum = b.cons_sum;
              active = b.active_consumers;
              stored = b.consumers_pops j;
            }
            | some (none, q) ↦ record {
              queue = q;
              place = Reader.asking m n;
              sum = b.cons_sum;
              active = b.active_consumers;
              stored = b.consumers_pops j;
            }
            | some (some x, q) ↦ record {
              queue = q;
              place = Reader.popping (cast 64 (m + x)) (cast 64 (n + 1));
              sum = b.cons_sum;
              active = b.active_consumers;
              stored = b.consumers_pops j;
            }
          ]) in
            (is_looping t.place ≡ true) × (t.active ≡ b.active_consumers)
      go none = (refl, refl)
      go (some (none, q)) = (refl, refl)
      go (some (some x, q)) = (refl, refl)
  loops_on j (Reader.asking m n) e =
      rw (==_of_ne b.active_producers 0 (λ e. absurd (omega (arith, some_active v, e))))
        (refl, refl)
  loops_on j (Reader.reporting m n) e = cc e
  loops_on j (Reader.storing n) e = cc e
  loops_on j Reader.leaving e = cc e
  loops_on j Reader.ended e = cc e

  IsStuck-reads : (j : ℕ) → IsStuck u i (take_turn S u b (reads j))
  unfolding take_turn
  IsStuck-reads j = elim (Bool-cases (ltb j u.consumers)) [
    | inr beyond ↦ rw beyond v
    | inl within ↦ rw within (elim (Bool-cases (has_consumers b.main)) [
      | inr unborn ↦ rw unborn v
      | inl started ↦
          let (on, same) = loops_on j (b.reader j) (v.looping j (ground (arith, within))) in
          rw started (record {
            exists = v.exists;
            few = v.few;
            waits = v.waits;
            set = v.set;
            begun = v.begun;
            counted = v.counted;
            looping = λ k inside. elim (ℕ_discrete k j) [
              | yes e ↦
                  ap (λ m. is_looping (update b.reader j (reader_step S b j (b.reader j)).place m))
                    e
                  ∙ ap is_looping (update_self b.reader j (reader_step S b j (b.reader j)).place)
                  ∙ on
              | no ne ↦
                  ap is_looping (update_ne b.reader j k (reader_step S b j (b.reader j)).place ne)
                  ∙ v.looping k inside
            ];
            consuming = subst (λ n. n ≢ 0) (sym same) v.consuming;
          })
    ])
  ]

-- Once the main thread has set `benchmark_state` while a producer stands before its test of it, with
-- fewer than 2^64 - 1 producers and every consumer in its loop, no order of steps changes that: the
-- producer never pushes, no consumer leaves its loop, and the main thread never finishes.
pub take_turns-IsStuck :
    (S : Service) (u : Plan) (i : ℕ) (turns : List Turn) (b : Bench S)
    → IsStuck u i b
    → IsStuck u i (take_turns S u b turns)
unfolding take_turns
take_turns-IsStuck S u i [] b v = v
take_turns-IsStuck S u i (writes j ∷ turns) b v =
    take_turns-IsStuck S u i turns (take_turn S u b (writes j)) (IsStuck-writes v j)
take_turns-IsStuck S u i (reads j ∷ turns) b v =
    take_turns-IsStuck S u i turns (take_turn S u b (reads j)) (IsStuck-reads v j)
take_turns-IsStuck S u i (leads ∷ turns) b v =
    take_turns-IsStuck S u i turns (take_turn S u b leads) (IsStuck-leads v)
