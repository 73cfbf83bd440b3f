-- ===== src/Queue/Peek/Result.antt =====
-- The results of `peek` and `pop_if` on a queue that holds a list, with no other thread at work and
-- where the comparison of halves finds a lagging index.
use native.Mathlib.Decide.{dec_lt}
use lockfree_mpmc_queue.Base.{
  ℕ, suc, ◌+◌, ◌*◌, ◌<◌, ◌≡◌, refl, ap, ◌∙◌, subst, Bool, List, [], ◌∷◌, arith, Option, none, some,
  if◌then◌else◌, Bool-cases, inl, inr,
}
use lockfree_mpmc_queue.Base.Word.{cast}
use lockfree_mpmc_queue.Base.Loop.{again, forever-return, forever-again}
use lockfree_mpmc_queue.Fifo.{Fifo}
use lockfree_mpmc_queue.Queue.{Config, Queue, advance_read}
use lockfree_mpmc_queue.Queue.Shape.{Holds}
use lockfree_mpmc_queue.Queue.Atomic.{drained, Holds-drained, advance_read-Holds}
use lockfree_mpmc_queue.Queue.Serves.{config-advance_read, Serves, Serves-refl}
use lockfree_mpmc_queue.Queue.Pop.{settle_read}
use lockfree_mpmc_queue.Queue.Pop.Result.{slot-oldest, drain-oldest, settle_read-Serves}
use lockfree_mpmc_queue.Queue.Peek.{peek_index_pass, peek_index, pop_if_pass, pop_if}
use lockfree_mpmc_queue.Queue.Peek.Cases.{HalfClear, peek_full, peek_empty, peek_help}

-- What `peek(d, i)` returns: the oldest element, and in `i` the sequence word of its entry.
abbrev pub peek_reply : Config → Fifo → Option (ℕ × ℕ)
peek_reply c f = elim f.items [ [] ↦ none | x ∷ xs ↦ some (x, cast c.bits (f.read * 2 + 1)) ]

abbrev pub Peeks : ℕ → Config → Queue → Fifo → Type 0
Peeks fuel c q f = (q' : Queue) × (peek_index fuel q ≡ some (peek_reply c f, q')) × Serves c q' f

-- What `pop_if` returns and leaves: the oldest element, if the condition holds of it and of its
-- entry's sequence.
abbrev pub pop_if_reply : Config → (ℕ → ℕ → Bool) → Fifo → Option ℕ × Fifo
pop_if_reply c cond f = elim f.items [
  | [] ↦ (none, f)
  | x ∷ xs ↦
      if cond x (cast c.bits (f.read * 2 + 1))
      then (some x, record { read = f.read + 1; items = xs })
      else (none, f)
]

abbrev pub PopsIf : ℕ → (ℕ → ℕ → Bool) → Config → Queue → Fifo → Type 0
PopsIf fuel cond c q f =
    (q' : Queue) × (pop_if fuel cond q ≡ some ((pop_if_reply c cond f).0, q'))
    × Serves c q' (pop_if_reply c cond f).1

module _ {q : Queue} {h wr rd : ℕ} where
  peek_current :
      (xs : List ℕ) (fuel : ℕ)
      → Holds q h xs wr rd
      → rd ≡ h
      → Peeks (suc fuel) q.config q (record { read = h; items = xs })
  unfolding peek_index peek_index_pass
  peek_current [] fuel v e = (
    q,
    forever-return fuel _ q _ _ (rw (peek_empty v e refl, peek_index_pass)),
    Serves-refl (record { read = h; items = [] }) v,
  )
  peek_current (x ∷ xs) fuel v e = (
    q,
    forever-return fuel _ q q (some (x, cast q.bits (rd * 2 + 1))) (
          rw (peek_full v e (omega arith), peek_index_pass)
            (ground (arith, v.read_word, slot-oldest v e)))
        ∙ rw e,
    Serves-refl (record { read = h; items = x ∷ xs }) v,
  )

  pop_if_taken :
      (x : ℕ) (xs : List ℕ) (fuel : ℕ) (cond : ℕ → ℕ → Bool)
      → Holds q h (x ∷ xs) wr rd
      → rd ≡ h
      → PopsIf (suc fuel) cond q.config q (record { read = h; items = x ∷ xs })
  unfolding pop_if pop_if_pass
  pop_if_taken x xs fuel cond v e = elim (Bool-cases (cond x (cast q.bits (h * 2 + 1)))) [
    | inl holds ↦ rw holds (
      settle_read (drained q rd) (cast q.bits rd),
      forever-return fuel _ q (settle_read (drained q rd) (cast q.bits rd)) (some x) (
          rw (peek_full v e (omega arith), pop_if_pass)
            (ground (arith, v.read_word, slot-oldest v e, drain-oldest v e, e, holds))),
      settle_read-Serves (record { read = h + 1; items = xs }) (Holds-drained v e) (omega arith),
    )
    | inr fails ↦ rw fails (
      q,
      forever-return fuel _ q q none (
          rw (peek_full v e (omega arith), pop_if_pass)
            (ground (arith, v.read_word, slot-oldest v e, drain-oldest v e, e, fails))),
      Serves-refl (record { read = h; items = x ∷ xs }) v,
    )
  ]

  pop_if_current :
      (xs : List ℕ) (fuel : ℕ) (cond : ℕ → ℕ → Bool)
      → Holds q h xs wr rd
      → rd ≡ h
      → PopsIf (suc fuel) cond q.config q (record { read = h; items = xs })
  unfolding pop_if pop_if_pass
  pop_if_current [] fuel cond v e = (
    q,
    forever-return fuel _ q _ _ (rw (peek_empty v e refl, pop_if_pass)),
    Serves-refl (record { read = h; items = [] }) v,
  )
  pop_if_current (x ∷ xs) fuel cond v e = pop_if_taken x xs fuel cond v e

-- A lagging index that the comparison of halves can see.
abbrev pub CanHelp : Config → ℕ → ℕ → Type 0
CanHelp c h rd = rd < h → HalfClear c rd

module _ {q : Queue} {wr rd : ℕ} (f : Fifo) (fuel : ℕ) (v : Holds q f.read f.items wr rd) where
  next-Holds : rd < f.read → Holds (advance_read q (cast q.bits rd)) f.read f.items wr (rd + 1)
  next-Holds lags = advance_read-Holds v lags

  peek_reached : CanHelp q.config f.read rd → Peeks (suc (suc fuel)) q.config q f
  unfolding peek_index peek_index_pass
  peek_reached can = elim (dec_lt rd f.read) [
    | yes lags ↦
        let (q', returns, serves) =
          subst (λ c. Peeks (suc fuel) c (advance_read q (cast q.bits rd)) f)
            (config-advance_read q (cast q.bits rd))
            (peek_current f.items fuel (next-Holds lags) (omega (arith, v.read_lag))) in
        (
          q',
          forever-again (suc fuel) _ q (advance_read q (cast q.bits rd)) (
                rw (peek_help v lags (can lags), peek_index_pass)
                  (ap (λ w. (again, advance_read q w)) v.read_word))
              ∙ returns,
          serves,
        )
    | no reached ↦ peek_current f.items (suc fuel) v (omega (arith, v.read_reached))
  ]

  pop_if_reached :
      (cond : ℕ → ℕ → Bool) → CanHelp q.config f.read rd → PopsIf (suc (suc fuel)) cond q.config q f
  unfolding pop_if pop_if_pass
  pop_if_reached cond can = elim (dec_lt rd f.read) [
    | yes lags ↦
        let (q', returns, serves) =
          subst (λ c. PopsIf (suc fuel) cond c (advance_read q (cast q.bits rd)) f)
            (config-advance_read q (cast q.bits rd))
            (pop_if_current f.items fuel cond (next-Holds lags) (omega (arith, v.read_lag))) in
        (
          q',
          forever-again (suc fuel) _ q (advance_read q (cast q.bits rd)) (
                rw (peek_help v lags (can lags), pop_if_pass)
                  (ap (λ w. (again, advance_read q w)) v.read_word))
              ∙ returns,
          serves,
        )
    | no reached ↦ pop_if_current f.items (suc fuel) cond v (omega (arith, v.read_reached))
  ]

-- On a queue that serves a list, unless the index lags with the top bit of `rd_index + size` set,
-- `peek(d, i)` returns within two rounds: the oldest element and the sequence of its entry, or a refusal of the empty list.
pub peek_index-Peeks :
    {c : Config} {q : Queue} (f : Fifo) (fuel : ℕ)
    → (s : Serves c q f) → CanHelp c f.read s.rd
    → Peeks (suc (suc fuel)) c q f
peek_index-Peeks {q = q} f fuel s =
    subst (λ c. CanHelp c f.read s.rd → Peeks (suc (suc fuel)) c q f) s.config_is
      (peek_reached f fuel s.holds)

-- On a queue that serves a list, unless the index lags with the top bit of `rd_index + size` set,
-- `pop_if` returns within two rounds. It removes and returns the oldest element if there is one and the condition holds of it
-- and of its entry's sequence, and otherwise refuses and leaves the list.
pub pop_if-PopsIf :
    {c : Config} {q : Queue} (f : Fifo) (cond : ℕ → ℕ → Bool) (fuel : ℕ)
    → (s : Serves c q f) → CanHelp c f.read s.rd
    → PopsIf (suc (suc fuel)) cond c q f
pop_if-PopsIf {q = q} f cond fuel s =
    subst (λ c. CanHelp c f.read s.rd → PopsIf (suc (suc fuel)) cond c q f) s.config_is
      (pop_if_reached f fuel s.holds cond)
