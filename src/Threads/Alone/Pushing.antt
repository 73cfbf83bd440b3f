-- ===== src/Threads/Alone/Pushing.antt =====
-- A thread alone inside `push`.
use native.Mathlib.Decide.{dec_lt}
use lockfree_mpmc_queue.Base.{
  ℕ, suc, ◌+◌, ◌<◌, ◌≡◌, refl, ap, ◌∙◌, subst, sym, Bool, true, false, Bool-cases, inl, inr, List,
  length, arith,
}
use lockfree_mpmc_queue.Fifo.{Fifo}
use lockfree_mpmc_queue.Queue.{Queue, slot, advance_write, compare_exchange}
use lockfree_mpmc_queue.Queue.Shape.{Holds}
use lockfree_mpmc_queue.Queue.Atomic.{advance_write-Holds}
use lockfree_mpmc_queue.Queue.Push.{PushCase, insert, help, refuse, reload, push_case, fill}
use lockfree_mpmc_queue.Queue.Push.Result.{fill-free}
use lockfree_mpmc_queue.Queue.Push.Current.{case_lagging, case_free, case_full}
use lockfree_mpmc_queue.Threads.{
  push_load, push_read, push_swap, push_help, push_settle, pushed, thread_step, silently,
  push_refused, Step, push_fails,
}
use lockfree_mpmc_queue.Threads.Fresh.{IsFresh, IsNear, Kept}
use lockfree_mpmc_queue.Threads.Producer.{Kept-push_read, Kept-push_help}
use lockfree_mpmc_queue.Threads.Alone.{alone, stays, stepping, after_seven}

-- Before the index is advanced there is one step left.
pub settling : (n : ℕ) (q : Queue) (d w : ℕ) → alone (suc n) q (push_settle d w) ≡ true
unfolding thread_step
settling n q d w = stays n (advance_write q w) (pushed w) refl

-- An exchange that is lost leaves the queue.
fill-lost : (q : Queue) (w d : ℕ) → (fill q w d).0 ≡ false → (fill q w d).1 ≡ q
unfolding fill compare_exchange
fill-lost q w d e = ground arith

-- The exchange is won, and at most the index is left; or it is lost, and the loop goes round.
swapping_on :
    (n : ℕ) (q : Queue) (d w : ℕ)
    → ((fill q w d).0 ≡ false → alone (suc n) q (push_load d) ≡ true)
    → alone (suc (suc n)) q (push_swap d w) ≡ true
unfolding thread_step
swapping_on n q d w lost = elim (Bool-cases (fill q w d).0) [
  | inl won ↦ rw won (elim (Bool-cases q.lazy_push) [
    | inl lazy ↦ rw lazy (stays (suc n) _ (pushed w) refl)
    | inr eager ↦ rw eager (settling n _ d w)
  ])
  | inr other ↦ rw (other, fill-lost q w d other) (lost other)
]

-- Where the look at the slot leads.
abbrev after_reading : Queue → ℕ → ℕ → PushCase → Step
after_reading q d w insert = silently q (push_swap d w)
after_reading q d w help = silently q (push_help d w)
after_reading q d w refuse = record { queue = q; pc = push_refused; event = push_fails }
after_reading q d w reload = silently q (push_load d)

-- The step that looks at the slot, in each case.
reading :
    (q : Queue) (d w : ℕ) (k : PushCase)
    → push_case q.config w (slot q w).seq ≡ k
    → thread_step q (push_read d w) ≡ after_reading q d w k
unfolding thread_step
reading q d w insert e = rw (e, thread_step) refl
reading q d w help e = rw (e, thread_step) refl
reading q d w refuse e = rw (e, thread_step) refl
reading q d w reload e = rw (e, thread_step) refl

module _ {q : Queue} {h wr rd : ℕ} {xs : List ℕ} (v : Holds q h xs wr rd) (n d : ℕ) where
  reaching : wr ≡ h + length xs → alone (suc (suc (suc (suc n)))) q (push_load d) ≡ true
  unfolding thread_step
  reaching e = elim (dec_lt (length xs) q.size) [
    | yes room ↦
        stepping (suc (suc n)) q (push_read d q.write_index)
          (after_reading q d q.write_index insert)
          (reading q d q.write_index insert (case_free v e room))
          (swapping_on n q d q.write_index (λ lost. absurd (won room lost)))
    | no full ↦
        stepping (suc (suc n)) q (push_read d q.write_index)
          (after_reading q d q.write_index refuse)
          (reading q d q.write_index refuse (case_full v e (omega (arith, v.room))))
          (stays (suc (suc n)) q push_refused refl)
  ]
    where
      won : length xs < q.size → ¬ ((fill q q.write_index d).0 ≡ false)
      won room lost =
          let e2 : true ≡ false =
            sym (ap (λ (r : Bool × Queue). r.0) (fill-free v d e room))
            ∙ ap (λ w. (fill q w d).0) (sym v.write_word)
            ∙ lost in
          absurd cc

module _ {q : Queue} {h wr rd : ℕ} {xs : List ℕ} (v : Holds q h xs wr rd) (n d : ℕ) where
  -- From the head of the loop, seven steps are enough.
  pub loading : alone (after_seven n) q (push_load d) ≡ true
  unfolding thread_step
  loading = elim (dec_lt wr (h + length xs)) [
    | yes lags ↦
        stepping (suc (suc (suc (suc (suc n))))) q (push_read d q.write_index)
          (after_reading q d q.write_index help)
          (reading q d q.write_index help (case_lagging v lags))
          (subst (λ w. alone (suc (suc (suc (suc n)))) (advance_write q w) (push_load d) ≡ true)
            (sym v.write_word)
            (reaching (advance_write-Holds v lags) n d (omega (arith, v.write_lag))))
    | no reached ↦ reaching v (suc (suc (suc n))) d (omega (arith, v.write_reached))
  ]

module _ {q : Queue} {f : Fifo} {base wr rd : ℕ} (v : Holds q f.read f.items wr rd)
    (near : IsNear q.config base f) (n d w : ℕ) where
  pub helping :
      IsFresh q.config base wr rd f (push_help d w)
      → alone (suc (after_seven n)) q (push_help d w) ≡ true
  unfolding thread_step
  helping fresh = loading (Kept-push_help v near d w fresh).holds n d

module _ {q : Queue} {h wr rd : ℕ} {xs : List ℕ} (v : Holds q h xs wr rd) (n d w : ℕ) where
  pub swapping : alone (suc (after_seven n)) q (push_swap d w) ≡ true
  swapping = swapping_on (suc (suc (suc (suc (suc (suc n)))))) q d w (λ lost. loading v n d)

module _ {q : Queue} {f : Fifo} {base wr rd : ℕ} (v : Holds q f.read f.items wr rd)
    (near : IsNear q.config base f) (n d w : ℕ)
    (fresh : IsFresh q.config base wr rd f (push_read d w)) where
  -- What the thread has read may be out of date.
  pub looking : alone (suc (suc (after_seven n))) q (push_read d w) ≡ true
  looking = go (push_case q.config w (slot q w).seq) refl
    where
      go :
          (k : PushCase)
          → push_case q.config w (slot q w).seq ≡ k
          → alone (suc (suc (after_seven n))) q (push_read d w) ≡ true
      go insert e =
          stepping (suc (after_seven n)) q (push_read d w) (after_reading q d w insert)
            (reading q d w insert e) (swapping v n d w)
      go help e =
          let k =
            subst (λ (t : Step). Kept q.config base wr rd f t) (reading q d w help e)
              (Kept-push_read v near d w fresh) in
          stepping (suc (after_seven n)) q (push_read d w) (after_reading q d w help)
            (reading q d w help e) (helping k.holds near n d w k.fresh)
      go refuse e =
          stepping (suc (after_seven n)) q (push_read d w) (after_reading q d w refuse)
            (reading q d w refuse e) (stays (suc (after_seven n)) q push_refused refl)
      go reload e =
          stepping (suc (after_seven n)) q (push_read d w) (after_reading q d w reload)
            (reading q d w reload e) (loading v (suc n) d)
