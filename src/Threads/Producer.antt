-- ===== src/Threads/Producer.antt =====
-- The steps of a thread in `push` keep the invariant.
use native.Mathlib.Decide.{ℕ_discrete}
use lockfree_mpmc_queue.Base.Word.{mod_close}
use lockfree_mpmc_queue.Fifo.{has_room}
use lockfree_mpmc_queue.Base.{
  length-append, Bool, [], ◌∷◌, ◌++◌, sym, true, false, ltb_of_le, ltb_of_lt, ◌≢◌,
}
use lockfree_mpmc_queue.Queue.{advance_write}
use lockfree_mpmc_queue.Queue.Push.{fill}
use lockfree_mpmc_queue.Queue.Push.Result.{fill-free}
use lockfree_mpmc_queue.Queue.Shape.{empty_seq-cast}
use lockfree_mpmc_queue.Queue.Serves.{config-advance_write}
use lockfree_mpmc_queue.Queue.Atomic.{
  compare_exchange-lose, advance_write-lose, advance_write-Holds, filled, Holds-filled,
}
use lockfree_mpmc_queue.Base.{
  ℕ, ◌+◌, ◌*◌, ◌^◌, ◌≤◌, ◌<◌, ◌≡◌, refl, ap, ◌∙◌, length, if◌then◌else◌, arith, ltb_of_le,
}
use lockfree_mpmc_queue.Base.Word.{cast}
use lockfree_mpmc_queue.Fifo.{Fifo, next}
use lockfree_mpmc_queue.Queue.{Queue, slot}
use lockfree_mpmc_queue.Queue.Shape.{Holds, size_pos, size_small}
use lockfree_mpmc_queue.Queue.Push.{PushCase, insert, help, refuse, reload, push_case}
use lockfree_mpmc_queue.Queue.Push.Cases.{push_choice, push_case-cast}
use lockfree_mpmc_queue.Threads.{
  Pc, push_load, push_read, push_swap, push_help, push_settle, pushed, push_refused, push_fails,
  Step, silently, thread_step,
}
use lockfree_mpmc_queue.Threads.Fresh.{
  IsRead, IsFresh, IsNear, Kept, Kept-silently, cell_number, Sight, sight,
}

-- What `push` does after it has read the slot, by the case that it is in.
abbrev pub after_read : Queue → ℕ → ℕ → PushCase → Step
after_read q d w k = elim k [
  | insert ↦ silently q (push_swap d w)
  | help ↦ silently q (push_help d w)
  | refuse ↦ record { queue = q; pc = push_refused; event = push_fails }
  | reload ↦ silently q (push_load d)
]

module _ {q : Queue} {f : Fifo} {base wr rd : ℕ} (v : Holds q f.read f.items wr rd)
    (near : IsNear q.config base f) where
  push_case-Sight :
      {w l : ℕ}
      → IsRead q.config base wr w l
      → (s : Sight q f.read f.items l)
      → push_case q.config w (slot q w).seq ≡ push_choice q.size l (cell_number f.read f.items s.at)
  push_case-Sight {w} {l} r s =
      let pos = size_pos v.shape in
      let small = size_small v.shape in
      ap (λ t. push_case q.config t (slot q t).seq) r.word
      ∙ rw s.seq (
          push_case-cast l (cell_number f.read f.items s.at) v.shape
            (ground (arith, r.since, s.below, v.room))
            (ground (arith, r.passed, s.from, v.write_reached)))

  Kept-after_read :
      {w l : ℕ} (d : ℕ)
      → IsRead q.config base wr w l
      → (s : Sight q f.read f.items l) → (k : PushCase)
      → push_choice q.size l (cell_number f.read f.items s.at) ≡ k
      → Kept q.config base wr rd f (after_read q d w k)
  Kept-after_read {w} {l} d r s insert e = Kept-silently v (push_swap d w) (l, r)
  Kept-after_read {w} {l} d r s help e =
      Kept-silently v (push_help d w) (l, r, ground (arith, s.from, s.below))
  Kept-after_read {w} {l} d r s refuse e = record {
    wr' = wr;
    rd' = rd;
    wr_grows = omega arith;
    rd_grows = omega arith;
    config_is = refl;
    permits = ltb_of_le _ _ (ground (arith, s.from, s.below, r.passed));
    holds = v;
    fresh = tt;
  }
  Kept-after_read {w} {l} d r s reload e = Kept-silently v (push_load d) tt

  pub Kept-push_read :
      (d w : ℕ)
      → IsFresh q.config base wr rd f (push_read d w)
      → Kept q.config base wr rd f (thread_step q (push_read d w))
  unfolding thread_step
  Kept-push_read d w (l, r) =
      let s = sight v l in
      Kept-after_read d r s (push_case q.config w (slot q w).seq) (sym (push_case-Sight r s))

  -- The exchange of a slot whose index is no longer the next write fails.
  fill-stale :
      {w l : ℕ} (d : ℕ)
      → IsRead q.config base wr w l
      → (s : Sight q f.read f.items l) → cell_number f.read f.items s.at ≢ l * 2
      → fill q w d ≡ (false, q)
  unfolding fill
  fill-stale {w} {l} d r s ne =
      compare_exchange-lose q w _ _ (rw (r.word, s.seq, empty_seq-cast) different)
    where
      different : cast q.bits (cell_number f.read f.items s.at) ≢ cast q.bits (l * 2)
      different e = ground (
        arith,
        size_small v.shape,
        r.since,
        r.passed,
        s.from,
        s.below,
        mod_close (2 ^ q.bits) (cell_number f.read f.items s.at) (l * 2),
        mod_close (2 ^ q.bits) (l * 2) (cell_number f.read f.items s.at),
      )

  Kept-filled :
      {w l : ℕ} (d : ℕ)
      → IsRead q.config base wr w l
      → l ≡ next f
      → length f.items < q.size
      → Kept q.config base wr rd f (thread_step q (push_swap d w))
  unfolding thread_step
  Kept-filled {w} {l} d r e room =
      rw (wins, thread_step)
        (record {
          wr' = wr;
          rd' = rd;
          wr_grows = omega arith;
          rd_grows = omega arith;
          config_is = refl;
          permits = (has_room_now, r.word ∙ ap (cast q.bits) e);
          holds = rw has_room_now (Holds-filled d v room reached);
          fresh = rw has_room_now (either q.lazy_push);
        })
    where
      reached : wr ≡ next f
      reached = omega (arith, r.passed, v.write_reached)

      wins : fill q w d ≡ (true, filled q wr d)
      wins =
          ap (λ t. fill q t d) (r.word ∙ ap (cast q.bits) (omega (arith, reached, e)))
          ∙ fill-free v d reached room

      has_room_now : has_room q.size f ≡ true
      has_room_now = ltb_of_lt (length f.items) q.size room

      either :
          (lazy : Bool)
          → IsFresh q.config base wr rd
              (record f { items = f.items ++ d ∷ [] })
              (if lazy then pushed w else push_settle d w)
      either true = tt
      either false = (l, r, omega (arith, length-append f.items (d ∷ [])))

  pub Kept-push_swap :
      (d w : ℕ)
      → IsFresh q.config base wr rd f (push_swap d w)
      → Kept q.config base wr rd f (thread_step q (push_swap d w))
  unfolding thread_step
  Kept-push_swap d w (l, r) = elim (ℕ_discrete (cell_number f.read f.items s.at) (l * 2)) [
    | yes e ↦
        Kept-filled d r (ground (arith, r.passed, s.from, s.below))
          (ground (arith, r.passed, s.from, s.below))
    | no ne ↦ lost ne
  ]
    where
      s : Sight q f.read f.items l
      s = sight v l

      lost :
          cell_number f.read f.items s.at ≢ l * 2
          → Kept q.config base wr rd f (thread_step q (push_swap d w))
      lost ne = rw (fill-stale d r s ne, thread_step) (Kept-silently v (push_load d) tt)

  Kept-advance_write :
      {w l : ℕ} (p : Pc)
      → IsRead q.config base wr w l
      → l < next f
      → ((wr' : ℕ) → IsFresh q.config base wr' rd f p)
      → Kept q.config base wr rd f (silently (advance_write q w) p)
  Kept-advance_write {w} {l} p r done fresh = elim (ℕ_discrete l wr) [
    | yes e ↦
        rw (r.word, e)
          (record {
            wr' = wr + 1;
            rd' = rd;
            wr_grows = omega arith;
            rd_grows = omega arith;
            config_is = config-advance_write q (cast q.bits wr);
            permits = tt;
            holds = advance_write-Holds v (rw (← e) done);
            fresh = fresh (wr + 1);
          })
    | no ne ↦ rw (advance_write-lose q w (moved ne)) (Kept-silently v p (fresh wr))
  ]
    where
      moved : l ≢ wr → q.write_index ≢ w
      moved ne same = ne (
          mod_close (2 ^ q.bits) l wr r.passed (omega (arith, r.since))
            (sym r.word ∙ sym same ∙ v.write_word))

  -- A thread in `push` keeps the invariant by each of its steps.
  pub Kept-push_help :
      (d w : ℕ)
      → IsFresh q.config base wr rd f (push_help d w)
      → Kept q.config base wr rd f (thread_step q (push_help d w))
  unfolding thread_step
  Kept-push_help d w (l, r, done) = Kept-advance_write (push_load d) r done (λ _. tt)

  pub Kept-push_settle :
      (d w : ℕ)
      → IsFresh q.config base wr rd f (push_settle d w)
      → Kept q.config base wr rd f (thread_step q (push_settle d w))
  unfolding thread_step
  Kept-push_settle d w (l, r, done) = Kept-advance_write (pushed w) r done (λ _. tt)

  pub Kept-push_load :
      (d : ℕ) → base ≤ wr → Kept q.config base wr rd f (thread_step q (push_load d))
  unfolding thread_step
  Kept-push_load d since =
      Kept-silently v (push_read d q.write_index)
        (wr, record { word = v.write_word; since = since; passed = omega arith })
