-- ===== src/Threads/Alone/Looking.antt =====
-- A thread alone inside `peek`, `pop_if` or `empty`.
use native.Mathlib.Decide.{dec_lt}
use lockfree_mpmc_queue.Base.{
  ℕ, suc, ◌<◌, ◌≡◌, refl, ap, ◌∙◌, subst, sym, Bool, true, false, Bool-cases, inl, inr, List, [],
  ◌∷◌, arith, ◌==◌,
}
use lockfree_mpmc_queue.Fifo.{Fifo}
use lockfree_mpmc_queue.Queue.{Queue, Entry, slot, advance_read, empty_seq}
use lockfree_mpmc_queue.Queue.Shape.{Holds}
use lockfree_mpmc_queue.Queue.Atomic.{advance_read-Holds}
use lockfree_mpmc_queue.Queue.Pop.{PopCase, take, help, refuse, reload, drain}
use lockfree_mpmc_queue.Queue.Pop.Result.{drain-oldest}
use lockfree_mpmc_queue.Queue.Peek.{peek_case}
use lockfree_mpmc_queue.Queue.Peek.Cases.{HalfClear, peek_full, peek_empty, peek_help}
use lockfree_mpmc_queue.Threads.{
  Pc, Look, peeking, popping_if, look_load, look_read, look_help, pop_if_swap, look_refused,
  empty_load, empty_read, answered, peeked, popped, after_sight, thread_step,
}
use lockfree_mpmc_queue.Threads.Fresh.{IsFresh, IsNear}
use lockfree_mpmc_queue.Threads.Consumer.{drain-lost}
use lockfree_mpmc_queue.Threads.Looker.{after_look, look_read-after_look, Kept-look_help}
use lockfree_mpmc_queue.Threads.Sights.{look-help}
use lockfree_mpmc_queue.Threads.Alone.{alone, stays, stepping, after_seven}
use lockfree_mpmc_queue.Threads.Alone.Popping.{settling}

-- The places in `peek` and `pop_if` from which the thread may come to compare halves of sequences.
abbrev pub is_looking : Pc → Bool
is_looking (look_load _) = true
is_looking (look_read _ _) = true
is_looking (look_help _ _) = true
is_looking (pop_if_swap _ _ _) = true
is_looking _ = false

-- As Popping.swapping_on, for the exchange of `pop_if`.
swapping_on :
    (n : ℕ) (q : Queue) (g : ℕ → ℕ → Bool) (w : ℕ) (e : Entry)
    → ((drain q w e).0 ≡ false → alone (suc n) q (look_load (popping_if g)) ≡ true)
    → alone (suc (suc n)) q (pop_if_swap g w e) ≡ true
unfolding thread_step
swapping_on n q g w e lost = elim (Bool-cases (drain q w e).0) [
  | inl won ↦ rw won (elim (Bool-cases q.lazy_pop) [
    | inl lazy ↦ rw lazy (stays (suc n) _ (popped e.item w) refl)
    | inr eager ↦ rw eager (settling n _ w e.item)
  ])
  | inr other ↦ rw (other, drain-lost q w e other) (lost other)
]

-- After the look only an exchange can be left.
sighting :
    (n : ℕ) (q : Queue) (k : Look) (w : ℕ) (e : Entry)
    → ((g : ℕ → ℕ → Bool)
        → (drain q w e).0 ≡ false
        → alone (suc n) q (look_load (popping_if g)) ≡ true)
    → alone (suc (suc n)) (after_sight q k w e).queue (after_sight q k w e).pc ≡ true
sighting n q peeking w e lost = stays (suc (suc n)) q (peeked e.item e.seq) refl
sighting n q (popping_if g) w e lost = elim (Bool-cases (g e.item e.seq)) [
  | inl wanted ↦ rw wanted (swapping_on n q g w e (lost g))
  | inr declined ↦ rw declined (stays (suc (suc n)) q look_refused refl)
]

-- The step that looks at the slot, then the rest.
looking_on :
    (n : ℕ) (q : Queue) (k : Look) (w : ℕ) (p : PopCase)
    → peek_case q.config w (slot q w).seq ≡ p
    → alone n (after_look q k w p).queue (after_look q k w p).pc ≡ true
    → alone (suc n) q (look_read k w) ≡ true
looking_on n q k w p e rest =
    stepping n q (look_read k w) (after_look q k w p) (look_read-after_look q k w p e) rest

reaching :
    {q : Queue} {h wr rd : ℕ} (xs : List ℕ)
    → Holds q h xs wr rd
    → (k : Look) (n : ℕ) → rd ≡ h
    → alone (suc (suc (suc (suc n)))) q (look_load k) ≡ true
unfolding thread_step
reaching {q} [] v k n e =
    looking_on (suc (suc n)) q k q.read_index refuse (peek_empty v e refl)
      (stays (suc (suc n)) q look_refused refl)
reaching {q} (x ∷ xs) v k n e =
    looking_on (suc (suc n)) q k q.read_index take (peek_full v e (omega arith))
      (sighting n q k q.read_index (slot q q.read_index) (λ g lost. absurd (won lost)))
  where
    won : ¬ ((drain q q.read_index (slot q q.read_index)).0 ≡ false)
    won lost =
        let both : true ≡ false =
          sym (ap (λ (r : Bool × Queue). r.0) (drain-oldest v e))
          ∙ ap (λ w. (drain q w (slot q w)).0) (sym v.read_word)
          ∙ lost in
        absurd cc

module _ {q : Queue} {h wr rd : ℕ} {xs : List ℕ} (v : Holds q h xs wr rd)
    (clear : rd < h → HalfClear q.config rd) (k : Look) (n : ℕ) where
  -- From the head of the loop, seven steps are enough.
  pub loading : alone (after_seven n) q (look_load k) ≡ true
  unfolding thread_step
  loading = elim (dec_lt rd h) [
    | yes lags ↦
        looking_on (suc (suc (suc (suc (suc n))))) q k q.read_index help
          (peek_help v lags (clear lags))
          (subst (λ w. alone (suc (suc (suc (suc n)))) (advance_read q w) (look_load k) ≡ true)
            (sym v.read_word)
            (reaching xs (advance_read-Holds v lags) k n (omega (arith, v.read_lag))))
    | no reached ↦ reaching xs v k (suc (suc (suc n))) (omega (arith, v.read_reached))
  ]

module _ {q : Queue} {f : Fifo} {base wr rd : ℕ} (v : Holds q f.read f.items wr rd)
    (near : IsNear q.config base f) (clear : rd < f.read → HalfClear q.config rd) (n w : ℕ) where
  pub helping :
      (k : Look)
      → IsFresh q.config base wr rd f (look_help k w)
      → alone (suc (after_seven n)) q (look_help k w) ≡ true
  unfolding thread_step
  helping k fresh =
      let kept = Kept-look_help v near k w fresh in
      loading kept.holds
        (λ lags.
          subst (λ c. HalfClear c kept.rd') (sym kept.config_is)
            (subst (HalfClear q.config) (omega (arith, lags, v.read_lag, kept.rd_grows))
              (clear (omega (arith, lags, kept.rd_grows)))))
        k n

module _ {q : Queue} {h wr rd : ℕ} {xs : List ℕ} (v : Holds q h xs wr rd)
    (clear : rd < h → HalfClear q.config rd) (n w : ℕ) where
  pub swapping :
      (g : ℕ → ℕ → Bool) (e : Entry) → alone (suc (after_seven n)) q (pop_if_swap g w e) ≡ true
  swapping g e =
      swapping_on (suc (suc (suc (suc (suc (suc n)))))) q g w e
        (λ lost. loading v clear (popping_if g) n)

module _ {q : Queue} {f : Fifo} {base wr rd : ℕ} (v : Holds q f.read f.items wr rd)
    (near : IsNear q.config base f) (clear : rd < f.read → HalfClear q.config rd) (n w : ℕ) where
  -- What the thread has read may be out of date.
  pub looking :
      (k : Look)
      → IsFresh q.config base wr rd f (look_read k w)
      → alone (suc (suc (after_seven n))) q (look_read k w) ≡ true
  looking k fresh = go (peek_case q.config w (slot q w).seq) refl
    where
      go :
          (p : PopCase)
          → peek_case q.config w (slot q w).seq ≡ p
          → alone (suc (suc (after_seven n))) q (look_read k w) ≡ true
      go take e = looking_on (suc (after_seven n)) q k w take e (
          sighting (suc (suc (suc (suc (suc (suc n)))))) q k w (slot q w)
            (λ g lost. loading v clear (popping_if g) n))
      go help e =
          looking_on (suc (after_seven n)) q k w help e
            (helping v near clear n w k (fresh.0, fresh.1, look-help v near fresh.1 e))
      go refuse e =
          looking_on (suc (after_seven n)) q k w refuse e
            (stays (suc (after_seven n)) q look_refused refl)
      go reload e = looking_on (suc (after_seven n)) q k w reload e (loading v clear k (suc n))

-- `empty` has no loop.
pub answering : (n : ℕ) (q : Queue) (w : ℕ) → alone (suc n) q (empty_read w) ≡ true
unfolding thread_step
answering n q w = elim (Bool-cases ((slot q w).seq == empty_seq q.config w)) [
  | inl waits ↦ rw waits (stays n q (answered true) refl)
  | inr other ↦ rw other (stays n q (answered false) refl)
]

pub asking : (n : ℕ) (q : Queue) → alone (suc (suc n)) q empty_load ≡ true
unfolding thread_step
asking n q = answering n q q.read_index
