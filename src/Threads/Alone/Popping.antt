-- ===== src/Threads/Alone/Popping.antt =====
-- A thread alone inside `pop`.
use native.Mathlib.Decide.{dec_lt}
use lockfree_mpmc_queue.Base.{
  ℕ, suc, ◌≡◌, refl, ap, ◌∙◌, subst, sym, Bool, true, false, Bool-cases, inl, inr, List, [], ◌∷◌,
  arith,
}
use lockfree_mpmc_queue.Fifo.{Fifo}
use lockfree_mpmc_queue.Queue.{Queue, Entry, slot, advance_read}
use lockfree_mpmc_queue.Queue.Shape.{Holds}
use lockfree_mpmc_queue.Queue.Atomic.{advance_read-Holds}
use lockfree_mpmc_queue.Queue.Pop.{PopCase, take, help, refuse, reload, pop_case, drain}
use lockfree_mpmc_queue.Queue.Pop.Result.{drain-oldest}
use lockfree_mpmc_queue.Queue.Pop.Current.{case_lagging, case_full, case_empty}
use lockfree_mpmc_queue.Threads.{
  pop_load, pop_read, pop_swap, pop_help, pop_settle, popped, thread_step, silently, pop_refused,
  Step, pop_fails,
}
use lockfree_mpmc_queue.Threads.Fresh.{IsFresh, IsNear, Kept}
use lockfree_mpmc_queue.Threads.Consumer.{drain-lost, Kept-pop_read, Kept-pop_help}
use lockfree_mpmc_queue.Threads.Alone.{alone, stays, stepping, after_seven}

-- Before the index is advanced there is one step left.
pub settling : (n : ℕ) (q : Queue) (w x : ℕ) → alone (suc n) q (pop_settle w x) ≡ true
unfolding thread_step
settling n q w x = stays n (advance_read q w) (popped x w) refl

-- The exchange is won, and at most the index is left; or it is lost, and the loop goes round.
swapping_on :
    (n : ℕ) (q : Queue) (w : ℕ) (e : Entry)
    → ((drain q w e).0 ≡ false → alone (suc n) q pop_load ≡ true)
    → alone (suc (suc n)) q (pop_swap w e) ≡ true
unfolding thread_step
swapping_on n q w e lost = elim (Bool-cases (drain q w e).0) [
  | inl won ↦ rw won (elim (Bool-cases q.lazy_pop) [
    | inl lazy ↦ rw lazy (stays (suc n) _ (popped e.item w) refl)
    | inr eager ↦ rw eager (settling n _ w e.item)
  ])
  | inr other ↦ rw (other, drain-lost q w e other) (lost other)
]

-- Where the look at the slot leads.
abbrev after_reading : Queue → ℕ → PopCase → Step
after_reading q w take = silently q (pop_swap w (slot q w))
after_reading q w help = silently q (pop_help w)
after_reading q w refuse = record { queue = q; pc = pop_refused; event = pop_fails }
after_reading q w reload = silently q pop_load

-- The step that looks at the slot, in each case.
reading :
    (q : Queue) (w : ℕ) (k : PopCase)
    → pop_case q.config w (slot q w).seq ≡ k
    → thread_step q (pop_read w) ≡ after_reading q w k
unfolding thread_step
reading q w take e = rw (e, thread_step) refl
reading q w help e = rw (e, thread_step) refl
reading q w refuse e = rw (e, thread_step) refl
reading q w reload e = rw (e, thread_step) refl

reaching :
    {q : Queue} {h wr rd : ℕ} (xs : List ℕ)
    → Holds q h xs wr rd
    → (n : ℕ) → rd ≡ h
    → alone (suc (suc (suc (suc n)))) q pop_load ≡ true
unfolding thread_step
reaching {q} [] v n e =
    stepping (suc (suc n)) q (pop_read q.read_index) (after_reading q q.read_index refuse)
      (reading q q.read_index refuse (case_empty v e refl)) (stays (suc (suc n)) q pop_refused refl)
reaching {q} (x ∷ xs) v n e =
    stepping (suc (suc n)) q (pop_read q.read_index) (after_reading q q.read_index take)
      (reading q q.read_index take (case_full v e (omega arith)))
      (swapping_on n q q.read_index (slot q q.read_index) (λ lost. absurd (won lost)))
  where
    won : ¬ ((drain q q.read_index (slot q q.read_index)).0 ≡ false)
    won lost =
        let both : true ≡ false =
          sym (ap (λ (r : Bool × Queue). r.0) (drain-oldest v e))
          ∙ ap (λ w. (drain q w (slot q w)).0) (sym v.read_word)
          ∙ lost in
        absurd cc

module _ {q : Queue} {h wr rd : ℕ} {xs : List ℕ} (v : Holds q h xs wr rd) (n : ℕ) where
  -- From the head of the loop, seven steps are enough.
  pub loading : alone (after_seven n) q pop_load ≡ true
  unfolding thread_step
  loading = elim (dec_lt rd h) [
    | yes lags ↦
        stepping (suc (suc (suc (suc (suc n))))) q (pop_read q.read_index)
          (after_reading q q.read_index help) (reading q q.read_index help (case_lagging v lags))
          (subst (λ w. alone (suc (suc (suc (suc n)))) (advance_read q w) pop_load ≡ true)
            (sym v.read_word)
            (reaching xs (advance_read-Holds v lags) n (omega (arith, v.read_lag))))
    | no reached ↦ reaching xs v (suc (suc (suc n))) (omega (arith, v.read_reached))
  ]

module _ {q : Queue} {f : Fifo} {base wr rd : ℕ} (v : Holds q f.read f.items wr rd)
    (near : IsNear q.config base f) (n w : ℕ) where
  pub helping :
      IsFresh q.config base wr rd f (pop_help w) → alone (suc (after_seven n)) q (pop_help w) ≡ true
  unfolding thread_step
  helping fresh = loading (Kept-pop_help v near w fresh).holds n

module _ {q : Queue} {h wr rd : ℕ} {xs : List ℕ} (v : Holds q h xs wr rd) (n w : ℕ)
    (e : Entry) where
  pub swapping : alone (suc (after_seven n)) q (pop_swap w e) ≡ true
  swapping = swapping_on (suc (suc (suc (suc (suc (suc n)))))) q w e (λ lost. loading v n)

module _ {q : Queue} {f : Fifo} {base wr rd : ℕ} (v : Holds q f.read f.items wr rd)
    (near : IsNear q.config base f) (n w : ℕ)
    (fresh : IsFresh q.config base wr rd f (pop_read w)) where
  -- What the thread has read may be out of date.
  pub looking : alone (suc (suc (after_seven n))) q (pop_read w) ≡ true
  looking = go (pop_case q.config w (slot q w).seq) refl
    where
      go :
          (k : PopCase)
          → pop_case q.config w (slot q w).seq ≡ k
          → alone (suc (suc (after_seven n))) q (pop_read w) ≡ true
      go take e =
          stepping (suc (after_seven n)) q (pop_read w) (after_reading q w take)
            (reading q w take e) (swapping v n w (slot q w))
      go help e =
          let k =
            subst (λ (t : Step). Kept q.config base wr rd f t) (reading q w help e)
              (Kept-pop_read v near w fresh) in
          stepping (suc (after_seven n)) q (pop_read w) (after_reading q w help)
            (reading q w help e) (helping k.holds near n w k.fresh)
      go refuse e =
          stepping (suc (after_seven n)) q (pop_read w) (after_reading q w refuse)
            (reading q w refuse e) (stays (suc (after_seven n)) q pop_refused refl)
      go reload e =
          stepping (suc (after_seven n)) q (pop_read w) (after_reading q w reload)
            (reading q w reload e) (loading v (suc n))
