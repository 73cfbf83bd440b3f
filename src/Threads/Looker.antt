-- ===== src/Threads/Looker.antt =====
-- The steps of a thread in `peek`, `pop_if` and `empty`, and the invariant.
use lockfree_mpmc_queue.Base.{
  ℕ, ◌+◌, ◌*◌, ◌≤◌, ◌≡◌, refl, sym, ap, ◌∙◌, subst, arith, Bool, true, false, inl, inr, Bool-cases,
  ◌==◌, eq_of_==, ==_of_eq, List, [], ◌∷◌, none,
}
use lockfree_mpmc_queue.Base.Word.{cast}
use lockfree_mpmc_queue.Fifo.{Fifo, head?}
use lockfree_mpmc_queue.Queue.{Queue, Entry, slot, full_seq, empty_seq}
use lockfree_mpmc_queue.Queue.Shape.{Holds, slot-cell, size_pos, empty_seq-cast, full_seq-cast}
use lockfree_mpmc_queue.Queue.Pop.{PopCase, take, help, refuse, reload, drain}
use lockfree_mpmc_queue.Queue.Peek.{peek_case}
use lockfree_mpmc_queue.Threads.{
  Pc, Look, peeking, popping_if, look_load, look_read, look_help, pop_if_swap, look_refused,
  empty_load, empty_read, answered, Step, silently, thread_step, after_sight, sees_none, pops,
  pops_if, peeked, Event, sees, declines, not_empty,
}
use lockfree_mpmc_queue.Threads.History.{after, Permits}
use lockfree_mpmc_queue.Threads.Fresh.{IsRead, IsFresh, IsNear, Kept, Kept-silently}
use lockfree_mpmc_queue.Threads.Consumer.{
  drain-lost, index-current, Kept-advance_read, Kept-pop_swap,
}
use lockfree_mpmc_queue.Threads.Sights.{look-help, look-take, look-none, look-refuse, oldest}

-- Where the look at the slot leads.
abbrev pub after_look : Queue → Look → ℕ → PopCase → Step
after_look q k w take = after_sight q k w (slot q w)
after_look q k w help = silently q (look_help k w)
after_look q k w refuse = record { queue = q; pc = look_refused; event = sees_none }
after_look q k w reload = silently q (look_load k)

pub look_read-after_look :
    (q : Queue) (k : Look) (w : ℕ) (p : PopCase)
    → peek_case q.config w (slot q w).seq ≡ p
    → thread_step q (look_read k w) ≡ after_look q k w p
unfolding thread_step
look_read-after_look q k w take e = rw (e, thread_step) refl
look_read-after_look q k w help e = rw (e, thread_step) refl
look_read-after_look q k w refuse e = rw (e, thread_step) refl
look_read-after_look q k w reload e = rw (e, thread_step) refl

module _ {q : Queue} {f : Fifo} {wr rd : ℕ} (v : Holds q f.read f.items wr rd) where
  -- The slot of the next pop is free on the empty list.
  free-none :
      (xs : List ℕ)
      → f.items ≡ xs
      → head? (record f { items = xs }) ≡ none
      → (slot q (cast q.bits f.read)).seq ≡ cast q.bits (f.read * 2)
  free-none [] gone e =
      let here = slot-cell v f.read f.read (omega arith) (omega (arith, size_pos v.shape)) refl in
      ap (λ (e : Entry). e.seq) here ∙ rw gone (ground arith)
  free-none (x ∷ xs) gone e = absurd (cc e)

  denied :
      (w : ℕ) → ((slot q w).seq == empty_seq q.config w) ≡ false → Permits q.config f (not_empty w)
  denied w other (gone, current) =
      let free : (slot q w).seq ≡ empty_seq q.config w =
        ap (λ w. (slot q w).seq) current
        ∙ free-none f.items refl gone
        ∙ sym (ap (empty_seq q.config) current ∙ empty_seq-cast q.config f.read) in
      absurd (cc (==_of_eq _ _ free, other))

module _ {q : Queue} {f : Fifo} {base wr rd : ℕ} (v : Holds q f.read f.items wr rd)
    (near : IsNear q.config base f) where
  -- An event that leaves the queue and the list as they are.
  Kept-seen :
      (p : Pc) (e : Event)
      → after q.config f e ≡ f
      → Permits q.config f e
      → ((g : Fifo) → IsFresh q.config base wr rd g p)
      → Kept q.config base wr rd f (record { queue = q; pc = p; event = e })
  Kept-seen p e same permits fresh = record {
    wr' = wr;
    rd' = rd;
    wr_grows = omega arith;
    rd_grows = omega arith;
    config_is = refl;
    permits = permits;
    holds = subst (λ (g : Fifo). Holds q g.read g.items wr rd) (sym same) v;
    fresh = fresh (after q.config f e);
  }

  Kept-after_sight :
      {w l : ℕ} (k : Look)
      → IsRead q.config base rd w l
      → (slot q w).seq ≡ cast q.bits (l * 2 + 1)
      → Kept q.config base wr rd f (after_sight q k w (slot q w))
  Kept-after_sight {w} peeking r seq_is =
      let (found, numbered) = oldest f.items v r (index-current v near r seq_is) in
      Kept-seen (peeked (slot q w).item (slot q w).seq) (sees (slot q w).item (slot q w).seq) refl
        (found, numbered) (λ g. tt)
  Kept-after_sight {w} {l} (popping_if g) r seq_is =
      let (found, numbered) = oldest f.items v r (index-current v near r seq_is) in
      elim (Bool-cases (g (slot q w).item (slot q w).seq)) [
        | inl wanted ↦
            rw wanted (Kept-silently v (pop_if_swap g w (slot q w)) (l, r, seq_is, wanted))
        | inr not_wanted ↦ rw not_wanted (
            Kept-seen look_refused (declines g (slot q w).item (slot q w).seq) refl
              (found, numbered, not_wanted) (λ g. tt))
      ]

  Kept-after_look :
      {w l : ℕ} (k : Look) (p : PopCase)
      → IsRead q.config base rd w l
      → peek_case q.config w (slot q w).seq ≡ p
      → Kept q.config base wr rd f (after_look q k w p)
  Kept-after_look k take r e = Kept-after_sight k r (look-take v near r e)
  Kept-after_look {w} {l} k help r e = Kept-silently v (look_help k w) (l, r, look-help v near r e)
  Kept-after_look k refuse r e =
      Kept-seen look_refused sees_none refl (look-refuse v near r e) (λ g. tt)
  Kept-after_look k reload r e = Kept-silently v (look_load k) tt

  pub Kept-look_load :
      (k : Look) → base ≤ rd → Kept q.config base wr rd f (thread_step q (look_load k))
  unfolding thread_step
  Kept-look_load k since =
      Kept-silently v (look_read k q.read_index)
        (rd, record { word = v.read_word; since = since; passed = omega arith })

  pub Kept-look_read :
      (k : Look) (w : ℕ)
      → IsFresh q.config base wr rd f (look_read k w)
      → Kept q.config base wr rd f (thread_step q (look_read k w))
  unfolding thread_step
  Kept-look_read k w (l, r) =
      let p = peek_case q.config w (slot q w).seq in
      subst (λ (t : Step). Kept q.config base wr rd f t) (sym (look_read-after_look q k w p refl))
        (Kept-after_look k p r refl)

  pub Kept-look_help :
      (k : Look) (w : ℕ)
      → IsFresh q.config base wr rd f (look_help k w)
      → Kept q.config base wr rd f (thread_step q (look_help k w))
  unfolding thread_step
  Kept-look_help k w (l, r, done) = Kept-advance_read v near (look_load k) r done (λ _. tt)

  pub Kept-empty_load : base ≤ rd → Kept q.config base wr rd f (thread_step q empty_load)
  unfolding thread_step
  Kept-empty_load since =
      Kept-silently v (empty_read q.read_index)
        (rd, record { word = v.read_word; since = since; passed = omega arith })

  pub Kept-empty_read :
      (w : ℕ)
      → IsFresh q.config base wr rd f (empty_read w)
      → Kept q.config base wr rd f (thread_step q (empty_read w))
  unfolding thread_step
  Kept-empty_read w (l, r) = elim (Bool-cases ((slot q w).seq == empty_seq q.config w)) [
    | inl waits ↦ rw waits (
        Kept-seen (answered true) sees_none refl
          (look-none v near r
            (eq_of_== _ _ waits ∙ ap (empty_seq q.config) r.word ∙ empty_seq-cast q.config l))
          (λ g. tt))
    | inr other ↦
        rw other (Kept-seen (answered false) (not_empty w) refl (denied v w other) (λ g. tt))
  ]

  -- The exchange of `pop_if` is that of `pop`, with an event that names the condition.
  Kept-conditional :
      (q' : Queue) (p : Pc) (g : ℕ → ℕ → Bool) (x i : ℕ)
      → g x (full_seq q.config i) ≡ true
      → Kept q.config base wr rd f (record { queue = q'; pc = p; event = pops x i })
      → Kept q.config base wr rd f (record { queue = q'; pc = p; event = pops_if g x i })
  Kept-conditional q' p g x i wanted k = record {
    wr' = k.wr';
    rd' = k.rd';
    wr_grows = k.wr_grows;
    rd_grows = k.rd_grows;
    config_is = k.config_is;
    permits = (k.permits.0, k.permits.1, wanted);
    holds = k.holds;
    fresh = k.fresh;
  }

  full_seq-word :
      {w l : ℕ} → IsRead q.config base rd w l → full_seq q.config w ≡ cast q.bits (l * 2 + 1)
  full_seq-word {w} {l} r = ap (full_seq q.config) r.word ∙ full_seq-cast q.config l

  pub Kept-pop_if_swap :
      (g : ℕ → ℕ → Bool) (w : ℕ) (e : Entry)
      → IsFresh q.config base wr rd f (pop_if_swap g w e)
      → Kept q.config base wr rd f (thread_step q (pop_if_swap g w e))
  unfolding thread_step
  Kept-pop_if_swap g w e (l, r, seq_is, wanted) =
      let k = Kept-pop_swap w e v near (l, r, seq_is) in
      elim (Bool-cases (drain q w e).0) [
        | inl won ↦ rw won (
            Kept-conditional _ _ g e.item w (ap (g e.item) (full_seq-word r ∙ sym seq_is) ∙ wanted)
              (rw won at k))
        | inr lost ↦
            rw (lost, drain-lost q w e lost) (Kept-silently v (look_load (popping_if g)) tt)
      ]
