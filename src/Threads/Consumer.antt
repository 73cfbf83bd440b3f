-- ===== src/Threads/Consumer.antt =====
-- The steps of a thread in `pop` keep the invariant.
use native.Mathlib.Decide.{ℕ_discrete}
use lockfree_mpmc_queue.Base.{
  ℕ, ◌+◌, ◌*◌, ◌^◌, ◌≤◌, ◌<◌, ◌≡◌, ◌≢◌, refl, sym, ap, ◌∙◌, subst, List, [], ◌∷◌, length,
  if◌then◌else◌, arith, Bool, true, false, none, inl, inr, Bool-cases,
}
use lockfree_mpmc_queue.Base.Word.{cast, mod_close, mod_near}
use lockfree_mpmc_queue.Fifo.{Fifo, head?}
use lockfree_mpmc_queue.Queue.{Queue, Entry, same_entry, slot, advance_read, compare_exchange}
use lockfree_mpmc_queue.Queue.Shape.{Holds, size_pos, size_small}
use lockfree_mpmc_queue.Queue.Atomic.{
  compare_exchange-differs, advance_read-lose, advance_read-Holds, Holds-drained,
}
use lockfree_mpmc_queue.Queue.Serves.{config-advance_read}
use lockfree_mpmc_queue.Queue.Pop.{PopCase, take, help, refuse, reload, pop_case, drain}
use lockfree_mpmc_queue.Queue.Pop.Cases.{pop_choice, pop_case-cast}
use lockfree_mpmc_queue.Queue.Pop.Result.{slot-oldest, drain-oldest}
use lockfree_mpmc_queue.Threads.{
  Pc, pop_load, pop_read, pop_swap, pop_help, pop_settle, popped, pop_refused, pop_fails, Step,
  silently, thread_step,
}
use lockfree_mpmc_queue.Threads.Fresh.{
  IsRead, IsFresh, IsNear, Kept, Kept-silently, cell_number, Sight, sight,
}

-- What `pop` does after it has read the slot, by the case that it is in.
abbrev pub after_read : Queue → ℕ → Entry → PopCase → Step
after_read q w e k = elim k [
  | take ↦ silently q (pop_swap w e)
  | help ↦ silently q (pop_help w)
  | refuse ↦ record { queue = q; pc = pop_refused; event = pop_fails }
  | reload ↦ silently q pop_load
]

pub head?-empty : (f : Fifo) → length f.items ≡ 0 → head? f ≡ none
head?-empty f e = go f.items e
  where
    go : (xs : List ℕ) → length xs ≡ 0 → head? (record { read = f.read; items = xs }) ≡ none
    go [] h = refl
    go (x ∷ xs) h = absurd (omega arith)

pub same_entry-eq : (e g : Entry) → same_entry e g ≡ true → e ≡ g
same_entry-eq e g h = ground arith

-- An exchange that is lost leaves the queue.
pub drain-lost : (q : Queue) (w : ℕ) (e : Entry) → (drain q w e).0 ≡ false → (drain q w e).1 ≡ q
unfolding drain compare_exchange
drain-lost q w x e = ground arith

module _ {q : Queue} {f : Fifo} {base wr rd : ℕ} (v : Holds q f.read f.items wr rd)
    (near : IsNear q.config base f) where
  pop_case-Sight :
      {w l : ℕ}
      → IsRead q.config base rd w l
      → (s : Sight q f.read f.items l)
      → pop_case q.config w (slot q w).seq ≡ pop_choice q.size l (cell_number f.read f.items s.at)
  pop_case-Sight {w} {l} r s =
      let pos = size_pos v.shape in
      let small = size_small v.shape in
      ap (λ t. pop_case q.config t (slot q t).seq) r.word
      ∙ rw s.seq (
          pop_case-cast l (cell_number f.read f.items s.at) v.shape
            (ground (arith, r.since, s.below, v.room))
            (ground (arith, r.passed, s.from, v.read_reached)))

  Kept-after_read :
      {w l : ℕ}
      → IsRead q.config base rd w l
      → (s : Sight q f.read f.items l) (k : PopCase)
      → pop_choice q.size l (cell_number f.read f.items s.at) ≡ k
      → Kept q.config base wr rd f (after_read q w (slot q w) k)
  Kept-after_read {w} {l} r s take e =
      Kept-silently v (pop_swap w (slot q w))
        (l, r, ap (λ t. (slot q t).seq) r.word ∙ s.seq ∙ ap (cast q.bits) (ground arith))
  Kept-after_read {w} {l} r s help e =
      Kept-silently v (pop_help w) (l, r, ground (arith, s.from, s.below))
  Kept-after_read {w} {l} r s refuse e = record {
    wr' = wr;
    rd' = rd;
    wr_grows = omega arith;
    rd_grows = omega arith;
    config_is = refl;
    permits = head?-empty f (ground (arith, s.from, s.below, r.passed, v.read_reached));
    holds = v;
    fresh = tt;
  }
  Kept-after_read r s reload e = Kept-silently v pop_load tt

  pub Kept-pop_read :
      (w : ℕ)
      → IsFresh q.config base wr rd f (pop_read w)
      → Kept q.config base wr rd f (thread_step q (pop_read w))
  unfolding thread_step
  Kept-pop_read w (l, r) =
      let s = sight v l in
      Kept-after_read r s (pop_case q.config w (slot q w).seq) (sym (pop_case-Sight r s))

  -- An exchange that succeeds finds the element of the index that the thread has read.
  pub index-current :
      {w l : ℕ}
      → IsRead q.config base rd w l
      → (slot q w).seq ≡ cast q.bits (l * 2 + 1)
      → (l ≡ f.read) × (0 < length f.items)
  index-current {w} {l} r e =
      let s = sight v l in
      let number : cell_number f.read f.items s.at ≡ l * 2 + 1 =
        mod_near (2 ^ q.bits) (cell_number f.read f.items s.at) (l * 2 + 1)
          (ground (arith, r.since, s.below, size_pos v.shape))
          (ground (arith, r.passed, s.from, v.read_reached, size_small v.shape, size_pos v.shape))
          (sym s.seq ∙ ap (λ t. (slot q t).seq) (sym r.word) ∙ e) in
      (
        ground (arith, s.from, r.passed, v.read_reached),
        ground (arith, s.from, s.below, r.passed, v.read_reached),
      )

  pub Kept-advance_read :
      {w l : ℕ} (p : Pc)
      → IsRead q.config base rd w l
      → l < f.read
      → ((rd' : ℕ) → IsFresh q.config base wr rd' f p)
      → Kept q.config base wr rd f (silently (advance_read q w) p)
  Kept-advance_read {w} {l} p r done fresh = elim (ℕ_discrete l rd) [
    | yes e ↦
        rw (r.word, e)
          (record {
            wr' = wr;
            rd' = rd + 1;
            wr_grows = omega arith;
            rd_grows = omega arith;
            config_is = config-advance_read q (cast q.bits rd);
            permits = tt;
            holds = advance_read-Holds v (rw (← e) done);
            fresh = fresh (rd + 1);
          })
    | no ne ↦ rw (advance_read-lose q w (moved ne)) (Kept-silently v p (fresh rd))
  ]
    where
      moved : l ≢ rd → q.read_index ≢ w
      moved ne same = ne (
          mod_close (2 ^ q.bits) l rd r.passed
            (omega (arith, r.since, v.read_reached, size_small v.shape, size_pos v.shape))
            (sym r.word ∙ sym same ∙ v.read_word))

  pub Kept-pop_help :
      (w : ℕ)
      → IsFresh q.config base wr rd f (pop_help w)
      → Kept q.config base wr rd f (thread_step q (pop_help w))
  unfolding thread_step
  Kept-pop_help w (l, r, done) = Kept-advance_read pop_load r done (λ _. tt)

  pub Kept-pop_settle :
      (w x : ℕ)
      → IsFresh q.config base wr rd f (pop_settle w x)
      → Kept q.config base wr rd f (thread_step q (pop_settle w x))
  unfolding thread_step
  Kept-pop_settle w x (l, r, done) = Kept-advance_read (popped x w) r done (λ _. tt)

  pub Kept-pop_load : base ≤ rd → Kept q.config base wr rd f (thread_step q pop_load)
  unfolding thread_step
  Kept-pop_load since =
      Kept-silently v (pop_read q.read_index)
        (rd, record { word = v.read_word; since = since; passed = omega arith })

-- The exchange that removes the oldest element.
Kept-drained :
    {q : Queue} {h base wr rd w l : ℕ} (xs : List ℕ)
    → Holds q h xs wr rd
    → IsRead q.config base rd w l
    → (l ≡ h) × (0 < length xs)
    → Kept q.config base wr rd
        (record { read = h; items = xs })
        (thread_step q (pop_swap w (slot q w)))
unfolding thread_step
Kept-drained [] v r now = absurd (omega arith)
Kept-drained {q} {h} {base} {wr} {rd} {w} {l} (x ∷ xs) v r (e, _) =
    rw (at, drain-oldest v current, slot-oldest v current, thread_step)
      (record {
        wr' = wr;
        rd' = rd;
        wr_grows = omega arith;
        rd_grows = omega arith;
        config_is = refl;
        permits = (refl, ap (cast q.bits) current);
        holds = Holds-drained v current;
        fresh = either q.lazy_pop;
      })
  where
    current : rd ≡ h
    current = omega (arith, r.passed, v.read_reached)

    at : w ≡ cast q.bits rd
    at = r.word ∙ ap (cast q.bits) (omega (arith, e, current))

    either :
        (lazy : Bool)
        → IsFresh q.config base wr rd
            (record { read = h + 1; items = xs })
            (if lazy then popped x (cast q.bits rd) else pop_settle (cast q.bits rd) x)
    either true = tt
    either false = (
      rd,
      record { word = refl; since = omega (arith, r.since, r.passed); passed = omega arith },
      omega arith,
    )

pub Kept-pop_swap :
    {q : Queue} {f : Fifo} {base wr rd : ℕ} (w : ℕ) (e : Entry)
    → Holds q f.read f.items wr rd
    → IsNear q.config base f
    → IsFresh q.config base wr rd f (pop_swap w e)
    → Kept q.config base wr rd f (thread_step q (pop_swap w e))
unfolding thread_step drain
Kept-pop_swap {q} {f} {base} {wr} {rd} w e v near (l, r, seq_is) =
    elim (Bool-cases (same_entry (slot q w) e)) [
      | inl same ↦
          subst (λ g. Kept q.config base wr rd f (thread_step q (pop_swap w g)))
            (same_entry-eq (slot q w) e same)
            (Kept-drained f.items v r (
              index-current v near r
                (ap (λ (g : Entry). g.seq) (same_entry-eq (slot q w) e same) ∙ seq_is)))
      | inr other ↦
          rw (compare_exchange-differs q w e _ other, thread_step) (Kept-silently v pop_load tt)
    ]
