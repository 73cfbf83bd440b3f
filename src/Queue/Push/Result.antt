-- ===== src/Queue/Push/Result.antt =====
-- The result of `push` on a queue that holds a list, with no other thread at work.
use lockfree_mpmc_queue.Fifo
use lockfree_mpmc_queue.Fifo.{Fifo, next, has_room}
use lockfree_mpmc_queue.Queue.Serves.{
  config-advance_write, Serves, Serves-refl, Serves-advance_write,
}
use native.Mathlib.Decide.{dec_lt}
use lockfree_mpmc_queue.Base.{
  ℕ, suc, ◌+◌, ◌<◌, ◌≡◌, refl, ap, ◌∙◌, Bool, true, false, List, [], ◌∷◌, ◌++◌, length, arith,
  Option, some, if◌then◌else◌, ap₂, set, none, ltb_of_lt, length-append, ltb_of_le, subst,
}
use lockfree_mpmc_queue.Base.Word.{cast}
use lockfree_mpmc_queue.Base.Loop.{again, return, forever-return, forever-again}
use lockfree_mpmc_queue.Queue.{
  Config, entry_of, entry_of_seq, empty_seq, Queue, slot, advance_write,
}
use lockfree_mpmc_queue.Queue.Shape.{
  Holds, slot-cell, slot_index-cast, empty_seq-cast, full_seq-cast,
}
use lockfree_mpmc_queue.Queue.Atomic.{
  compare_exchange-win, filled, Holds-filled, advance_write-Holds,
}
use lockfree_mpmc_queue.Queue.Push.{fill, settle_write, push_index_pass, push_index}
use lockfree_mpmc_queue.Queue.Push.Current.{case_lagging, case_free, case_full}

module _ {q : Queue} {h wr rd : ℕ} {xs : List ℕ} (v : Holds q h xs wr rd) (d : ℕ) where
  pub fill-free :
      wr ≡ h + length xs → length xs < q.size → fill q (cast q.bits wr) d ≡ (true, filled q wr d)
  unfolding fill
  fill-free e room =
      compare_exchange-win q (cast q.bits wr) _ _ free
      ∙ ap₂ (λ i s. (true, record q { array = set q.array i (entry_of s d) }))
          (slot_index-cast v.shape wr) (full_seq-cast q.config wr)
    where
      free : slot q (cast q.bits wr) ≡ entry_of_seq (empty_seq q.config (cast q.bits wr))
      free = slot-cell v wr wr (omega arith) (omega arith) refl ∙ rw (empty_seq-cast) (ground arith)

  -- The index lags: the pass advances it, and the loop goes round.
  pass-lagging :
      wr < h + length xs → push_index_pass d q ≡ (again, advance_write q (cast q.bits wr))
  unfolding push_index_pass
  pass-lagging lags =
      rw (case_lagging v lags, push_index_pass) (ap (λ w. (again, advance_write q w)) v.write_word)

  pass-full : wr ≡ h + length xs → length xs ≡ q.size → push_index_pass d q ≡ (return none, q)
  unfolding push_index_pass
  pass-full e full = rw (case_full v e full, push_index_pass)

  pass-free :
      wr ≡ h + length xs
      → length xs < q.size
      → push_index_pass d q
        ≡ (return (some (cast q.bits wr)), settle_write (filled q wr d) (cast q.bits wr))
  unfolding push_index_pass
  pass-free e room =
      rw (case_free v e room, push_index_pass) (ground (arith, fill-free e room, v.write_word))

settle_write-Serves :
    {q : Queue} {wr rd : ℕ} (f : Fifo)
    → Holds q f.read f.items wr rd
    → wr < next f
    → Serves q.config (settle_write q (cast q.bits wr)) f
unfolding settle_write
settle_write-Serves {q} {wr} f v lags = either q.lazy_push
  where
    either :
        (lazy : Bool) → Serves q.config (if lazy then q else advance_write q (cast q.bits wr)) f
    either true = Serves-refl f v
    either false = Serves-advance_write f v lags

-- What `push(d, i)` returns and leaves behind, by the list that the queue serves: the number of the
-- element as an index word, or a refusal.
abbrev pub push_reply : Config → Fifo → Option ℕ
push_reply c f = if has_room c.size f then some (cast c.bits (next f)) else none

abbrev pub Pushes : ℕ → Config → Queue → Fifo → ℕ → Type 0
Pushes fuel c q f d =
    (q' : Queue) × (push_index fuel q d ≡ some (push_reply c f, q'))
    × Serves c q' (Fifo.push c.size f d)

module _ {q : Queue} {wr rd : ℕ} (f : Fifo) (fuel d : ℕ) (v : Holds q f.read f.items wr rd) where
  push_current : wr ≡ next f → Pushes (suc fuel) q.config q f d
  unfolding push_index
  push_current e = elim (dec_lt (length f.items) q.size) [
    | yes room ↦ rw (ltb_of_lt _ _ room) (
      settle_write (filled q wr d) (cast q.bits wr),
      forever-return fuel _ q _ _ (pass-free v d e room) ∙ rw e,
      settle_write-Serves (record f { items = f.items ++ d ∷ [] }) (Holds-filled d v room e)
          (omega (arith, length-append f.items (d ∷ []))),
    )
    | no full ↦
        rw (ltb_of_le (length f.items) q.size (omega arith)) (
          q,
          forever-return fuel _ q _ _ (pass-full v d e (omega (arith, v.room))),
          Serves-refl f v,
        )
  ]

module _ {q : Queue} {wr rd : ℕ} (f : Fifo) (fuel d : ℕ) (v : Holds q f.read f.items wr rd) where
  push_behind : wr < next f → Pushes (suc (suc fuel)) q.config q f d
  unfolding push_index
  push_behind lags =
      let (q', returns, serves) =
        subst (λ c. Pushes (suc fuel) c (advance_write q (cast q.bits wr)) f d)
          (config-advance_write q (cast q.bits wr))
          (push_current f fuel d (advance_write-Holds v lags) (omega (arith, v.write_lag))) in
      (q', forever-again (suc fuel) _ q _ (pass-lagging v d lags) ∙ returns, serves)

  push_reached : Pushes (suc (suc fuel)) q.config q f d
  push_reached = elim (dec_lt wr (next f)) [
    | yes lags ↦ push_behind lags
    | no reached ↦ push_current f (suc fuel) d v (omega (arith, v.write_reached))
  ]

-- On a queue that serves a list, `push(d, i)` returns within two rounds. It refuses exactly when
-- the list is full, and otherwise appends `d` and stores its number in `i`.
pub push_index-Pushes :
    {c : Config} {q : Queue} (f : Fifo) (fuel d : ℕ)
    → Serves c q f
    → Pushes (suc (suc fuel)) c q f d
push_index-Pushes {q = q} f fuel d s =
    subst (λ c. Pushes (suc (suc fuel)) c q f d) s.config_is (push_reached f fuel d s.holds)
