-- ===== src/Queue/Pop/Result.antt =====
-- The result of `pop` on a queue that holds a list, with no other thread at work.
use native.Mathlib.Decide.{dec_lt}
use lockfree_mpmc_queue.Base.{
  ℕ, suc, ◌+◌, ◌-◌, ◌*◌, ◌<◌, ◌≡◌, refl, ap, ap₂, ◌∙◌, subst, Bool, true, false, List, [], ◌∷◌,
  length, set, arith, Option, none, some, if◌then◌else◌,
}
use lockfree_mpmc_queue.Base.Word.{cast}
use lockfree_mpmc_queue.Base.Loop.{again, return, forever-return, forever-again}
use lockfree_mpmc_queue.Fifo
use lockfree_mpmc_queue.Fifo.{Fifo}
use lockfree_mpmc_queue.Queue.{Config, entry_of, entry_of_seq, Queue, slot, advance_read}
use lockfree_mpmc_queue.Queue.Shape.{
  Holds, slot-cell, slot_index-cast, size_pos, empty_seq-cast-add,
}
use lockfree_mpmc_queue.Queue.Atomic.{
  compare_exchange-win, drained, Holds-drained, advance_read-Holds,
}
use lockfree_mpmc_queue.Queue.Serves.{config-advance_read, Serves, Serves-refl, Serves-advance_read}
use lockfree_mpmc_queue.Queue.Pop.{drain, settle_read, pop_index_pass, pop_index}
use lockfree_mpmc_queue.Queue.Pop.Current.{case_lagging, case_full, case_empty}

module _ {q : Queue} {h wr rd x : ℕ} {xs : List ℕ} (v : Holds q h (x ∷ xs) wr rd) where
  -- The oldest element's entry is in the slot of the read index.
  pub slot-oldest : rd ≡ h → slot q (cast q.bits rd) ≡ entry_of (cast q.bits (rd * 2 + 1)) x
  slot-oldest e =
      let pos = size_pos v.shape in
      let first : rd - h ≡ 0 = omega arith in
      slot-cell v rd rd (omega arith) (omega arith) refl ∙ rw first (ground arith)

  pub drain-oldest :
      rd ≡ h → drain q (cast q.bits rd) (slot q (cast q.bits rd)) ≡ (true, drained q rd)
  unfolding drain
  drain-oldest e =
      compare_exchange-win q (cast q.bits rd) _ _ refl
      ∙ ap₂ (λ i s. (true, record q { array = set q.array i (entry_of_seq s) }))
          (slot_index-cast v.shape rd) (empty_seq-cast-add q.config rd q.size)

  pass-oldest :
      rd ≡ h
      → pop_index_pass q
        ≡ (return (some (x, cast q.bits rd)), settle_read (drained q rd) (cast q.bits rd))
  unfolding pop_index_pass
  pass-oldest e =
      rw (case_full v e (omega arith), pop_index_pass)
        (ground (arith, drain-oldest e, slot-oldest e, v.read_word))

module _ {q : Queue} {h wr rd : ℕ} {xs : List ℕ} (v : Holds q h xs wr rd) where
  -- The index lags: the pass advances it, and the loop goes round.
  pass-lagging : rd < h → pop_index_pass q ≡ (again, advance_read q (cast q.bits rd))
  unfolding pop_index_pass
  pass-lagging lags =
      rw (case_lagging v lags, pop_index_pass) (ap (λ w. (again, advance_read q w)) v.read_word)

  pass-empty : rd ≡ h → length xs ≡ 0 → pop_index_pass q ≡ (return none, q)
  unfolding pop_index_pass
  pass-empty e none_left = rw (case_empty v e none_left, pop_index_pass)

pub settle_read-Serves :
    {q : Queue} {wr rd : ℕ} (f : Fifo)
    → Holds q f.read f.items wr rd
    → rd < f.read
    → Serves q.config (settle_read q (cast q.bits rd)) f
unfolding settle_read
settle_read-Serves {q} {rd = rd} f v lags = either q.lazy_pop
  where
    either : (lazy : Bool) → Serves q.config (if lazy then q else advance_read q (cast q.bits rd)) f
    either true = Serves-refl f v
    either false = Serves-advance_read f v lags

-- What `pop(d, i)` returns, by the list that the queue serves: the oldest element with its number
-- as an index word, or a refusal.
abbrev pub pop_reply : Config → Fifo → Option (ℕ × ℕ)
pop_reply c f = elim f.items [ [] ↦ none | x ∷ xs ↦ some (x, cast c.bits f.read) ]

abbrev pub Pops : ℕ → Config → Queue → Fifo → Type 0
Pops fuel c q f =
    (q' : Queue) × (pop_index fuel q ≡ some (pop_reply c f, q')) × Serves c q' (Fifo.pop f)

pop_current :
    {q : Queue} {h wr rd : ℕ} (xs : List ℕ) (fuel : ℕ)
    → Holds q h xs wr rd
    → rd ≡ h
    → Pops (suc fuel) q.config q (record { read = h; items = xs })
unfolding pop_index
pop_current {q} {h} [] fuel v e = (
  q,
  forever-return fuel _ q _ _ (pass-empty v e refl),
  Serves-refl (record { read = h; items = [] }) v,
)
pop_current {q} {h} {wr} {rd} (x ∷ xs) fuel v e = (
  settle_read (drained q rd) (cast q.bits rd),
  forever-return fuel _ q _ _ (pass-oldest v e) ∙ rw e,
  settle_read-Serves (record { read = h + 1; items = xs }) (Holds-drained v e) (omega arith),
)

module _ {q : Queue} {wr rd : ℕ} (f : Fifo) (fuel : ℕ) (v : Holds q f.read f.items wr rd) where
  pop_behind : rd < f.read → Pops (suc (suc fuel)) q.config q f
  unfolding pop_index
  pop_behind lags =
      let (q', returns, serves) =
        subst (λ c. Pops (suc fuel) c (advance_read q (cast q.bits rd)) f)
          (config-advance_read q (cast q.bits rd))
          (pop_current f.items fuel (advance_read-Holds v lags) (omega (arith, v.read_lag))) in
      (q', forever-again (suc fuel) _ q _ (pass-lagging v lags) ∙ returns, serves)

  pop_reached : Pops (suc (suc fuel)) q.config q f
  pop_reached = elim (dec_lt rd f.read) [
    | yes lags ↦ pop_behind lags
    | no reached ↦ pop_current f.items (suc fuel) v (omega (arith, v.read_reached))
  ]

-- On a queue that serves a list, `pop(d, i)` returns within two rounds. It refuses exactly when the
-- list is empty, and otherwise removes the oldest element and stores it in `d` and its number in `i`.
pub pop_index-Pops :
    {c : Config} {q : Queue} (f : Fifo) (fuel : ℕ) → Serves c q f → Pops (suc (suc fuel)) c q f
pop_index-Pops {q = q} f fuel s =
    subst (λ c. Pops (suc (suc fuel)) c q f) s.config_is (pop_reached f fuel s.holds)
