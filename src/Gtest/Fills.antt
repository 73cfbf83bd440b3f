-- ===== src/Gtest/Fills.antt =====
-- src/gtest_mpmc_queue.cpp: the loops that fill a queue and that empty it.
use native.Mathlib.Nat.{mod-eq_of_lt, pow-le-pow_right}
use lockfree_mpmc_queue.Base.{
  ℕ, suc, ◌+◌, ◌-◌, ◌*◌, ◌≤◌, ◌<◌, ◌^◌, ◌≡◌, refl, ap, ◌∙◌, sym, subst, some, List, [], ◌∷◌, length,
  arith, ◌++◌,
}
use lockfree_mpmc_queue.Base.Word.{cast}
use lockfree_mpmc_queue.Queue.{Config, Queue}
use lockfree_mpmc_queue.Queue.Glance.{capacity}
use lockfree_mpmc_queue.Gtest.{count_while, push_round, pop_round, push_index_round, take_round}
use lockfree_mpmc_queue.Gtest.Counting.{
  count_while-reaches, numbers, length-numbers, numbers-snoc, numbers-cons,
}
use lockfree_mpmc_queue.Gtest.Rounds.{
  ServesFrom, push_round-room, push_round-full, push_index_round-room, push_index_round-full,
  pop_round-next, pop_round-none, take_round-next, take_round-none,
}

-- Where a list starts, and its numbers, by other names.
abbrev pub renamed :
    {c : Config} {q : Queue} {h h' a a' m m' : ℕ}
    → ServesFrom c q h (numbers a m)
    → h ≡ h'
    → a ≡ a'
    → m ≡ m'
    → ServesFrom c q h' (numbers a' m')
renamed s e f g = rw (e, f, g) at s

-- The queue holds the numbers from `a` on, and `w` is the next.
abbrev pub Filled : Config → ℕ → ℕ → ℕ → Queue × ℕ → Type 0
Filled c h a n s = ServesFrom c s.0 h (numbers a n) × (s.1 ≡ a + n)

-- The first `n` of `m` numbers from `a` on are gone.
abbrev pub Drained : Config → ℕ → ℕ → ℕ → ℕ → Queue → Type 0
Drained c h a m n q = ServesFrom c q (h + n) (numbers (a + n) (m - n))

pub capacity-Serves :
    {c : Config} {q : Queue} {h : ℕ} {xs : List ℕ} → ServesFrom c q h xs → capacity q ≡ c.size
capacity-Serves s = ap (λ (d : Config). d.size) s.config_is

module _ {c : Config} {q : Queue} (inner h a n w : ℕ) (f : Filled c h a n (q, w)) where
  pub w-is_next : w ≡ a + n
  w-is_next = f.1

  -- Another number has been pushed.
  pub Filled-more :
      (q' : Queue)
      → a + n + 1 < 2 ^ 32
      → ServesFrom c q' h (numbers a n ++ w ∷ [])
      → Filled c h a (n + 1) (q', cast 32 (w + 1))
  Filled-more q' small serves = (
    subst (λ xs. ServesFrom c q' h xs)
        (ap (λ b. numbers a n ++ b ∷ []) f.1 ∙ sym (numbers-snoc a n)) serves,
    mod-eq_of_lt (omega (arith, f.1)) ∙ omega (arith, f.1),
  )

-- `w` is what the loop's rounds made of it.
named :
    {A : Type 0} {q : Queue} {w b : ℕ} {P : Queue → Type 0} (r : Queue × ℕ → A)
    → P q
    → {x : A} → x ≡ r (q, w)
    → w ≡ b
    → (q' : Queue) × (x ≡ r (q', b)) × P q'
named {q = q} r p e f = (q, e ∙ ap (λ v. r (q, v)) f, p)

module _ {c : Config} (inner h a b : ℕ) (end : b ≡ a + c.size) (small : b < 2 ^ 32) where
  -- `for (wloop = 0; qut.push(w); wloop++) w++`
  pub push_round-fills :
      (fuel : ℕ) (q : Queue)
      → c.size < fuel
      → ServesFrom c q h []
      → (q' : Queue) × (count_while (push_round (suc (suc inner))) fuel 0 (q, a)
          ≡ some (c.size, (q', b)))
        × ServesFrom c q' h (numbers a c.size)
  push_round-fills fuel q enough start =
      let (s, ran, (serves, w_is)) =
        count_while-reaches (push_round (suc (suc inner))) (Filled c h a) (λ n. Filled c h a c.size)
          c.size (omega arith)
          (λ n s before f.
            let (q', ran, serves) =
              push_round-room inner n s.1 h (numbers a n) f.0 (omega (arith, length-numbers a n)) in
            ((q', cast 32 (s.1 + 1)), ran, Filled-more inner h a n s.1 f q' (omega arith) serves))
          (λ s f.
            let (q', ran, serves) =
              push_round-full inner c.size s.1 h (numbers a c.size) f.0
                (omega (arith, length-numbers a c.size)) in
            ((q', s.1), ran, (serves, f.1)))
          fuel 0 (q, a) (omega arith) (omega arith) (start, omega arith) in
      named {P = λ q'. ServesFrom c q' h (numbers a c.size)} (λ s. some (c.size, s)) serves ran
        (w_is ∙ sym end)

  -- `for (wloop = 0; qut.push(w, wi) && wi == wloop + k; wloop++) w++`
  pub push_index_round-fills :
      (fuel k : ℕ) (q : Queue)
      → c.size < fuel
      → k ≡ h
      → h + c.size ≤ 2 ^ c.bits
      → ServesFrom c q h []
      → (q' : Queue) × (count_while (push_index_round (suc (suc inner)) k) fuel 0 (q, a)
          ≡ some (c.size, (q', b)))
        × ServesFrom c q' h (numbers a c.size)
  push_index_round-fills fuel k q enough at room start =
      let (s, ran, (serves, w_is)) =
        count_while-reaches (push_index_round (suc (suc inner)) k) (Filled c h a)
          (λ n. Filled c h a c.size) c.size (omega arith)
          (λ n s before f.
            let number : cast c.bits (h + length (numbers a n)) ≡ n + k =
              mod-eq_of_lt (omega (arith, length-numbers a n))
              ∙ omega (arith, length-numbers a n) in
            let (q', ran, serves) =
              push_index_round-room inner n s.1 h (numbers a n) f.0 k
                (omega (arith, length-numbers a n)) number in
            ((q', cast 32 (s.1 + 1)), ran, Filled-more inner h a n s.1 f q' (omega arith) serves))
          (λ s f.
            let (q', ran, serves) =
              push_index_round-full inner c.size s.1 h (numbers a c.size) f.0 k
                (omega (arith, length-numbers a c.size)) in
            ((q', s.1), ran, (serves, f.1)))
          fuel 0 (q, a) (omega arith) (omega arith) (start, omega arith) in
      named {P = λ q'. ServesFrom c q' h (numbers a c.size)} (λ s. some (c.size, s)) serves ran
        (w_is ∙ sym end)

module _ {c : Config} (h a m n : ℕ) where
  -- The oldest number, and what is behind it.
  pub Drained-next :
      {q : Queue}
      → n < m
      → Drained c h a m n q
      → ServesFrom c q (h + n) ((a + n) ∷ numbers (a + n + 1) (m - n - 1))
  Drained-next {q} before d =
      subst (λ xs. ServesFrom c q (h + n) xs) (numbers-cons (a + n) (m - n) (omega arith)) d

  pub Drained-more :
      (q' : Queue)
      → ServesFrom c q' (h + n + 1) (numbers (a + n + 1) (m - n - 1))
      → Drained c h a m (n + 1) q'
  Drained-more q' d = renamed d (omega arith) (omega arith) (omega arith)

-- All of them are gone.
pub Drained-all :
    {c : Config} (h h' a m : ℕ) {q : Queue}
    → h' ≡ h + m
    → Drained c h a m m q
    → ServesFrom c q h' []
Drained-all h h' a m e d = renamed {m' = 0} d (sym e) refl (omega arith)

module _ {c : Config} (inner h h' a : ℕ) (end : h' ≡ h + c.size) (small : a + c.size < 2 ^ 32) where
  -- `for (rloop = 0; qut.pop(r) && r == rloop + k; rloop++)`
  pub pop_round-drains :
      (fuel k : ℕ) (q : Queue)
      → c.size < fuel
      → k ≡ a
      → ServesFrom c q h (numbers a c.size)
      → (q' : Queue) × (count_while (pop_round (suc (suc inner)) k) fuel 0 q ≡ some (c.size, q'))
        × ServesFrom c q' h' []
  pop_round-drains fuel k q enough at start =
      count_while-reaches (pop_round (suc (suc inner)) k) (Drained c h a c.size)
        (λ n q'. ServesFrom c q' h' []) c.size (omega arith)
        (λ n s before d.
          let (q', ran, left) =
            pop_round-next inner k n (h + n) (a + n) _ (Drained-next h a c.size n before d)
              (sym (mod-eq_of_lt (omega arith) ∙ omega arith)) in
          (q', ran, Drained-more h a c.size n q' left))
        (λ s d. pop_round-none inner k c.size h' (Drained-all h h' a c.size end d)) fuel 0 q
        (omega arith) (omega arith) (renamed start (omega arith) (omega arith) (omega arith))

  -- `for (rloop = 0; qut.peek(r) && r == rloop + z && qut.pop(r, ri) && r == rloop + z && ri == rloop + k;
  -- rloop++)`
  pub take_round-drains :
      (fuel z k : ℕ) (q : Queue)
      → c.size < fuel
      → z ≡ a
      → k ≡ h
      → h + c.size * 2 ≤ 2 ^ (c.bits - 1)
      → ServesFrom c q h (numbers a c.size)
      → (q' : Queue) × (count_while (take_round (suc (suc inner)) z k) fuel 0 q ≡ some (c.size, q'))
        × ServesFrom c q' h' []
  take_round-drains fuel z k q enough from at low start =
      let wide =
        pow-le-pow_right {n = 2} (omega arith) {i = c.bits - 1} {j = c.bits} (omega arith) in
      count_while-reaches (take_round (suc (suc inner)) z k) (Drained c h a c.size)
        (λ n q'. ServesFrom c q' h' []) c.size (omega arith)
        (λ n s before d.
          let (q', ran, left) =
            take_round-next inner z k n (h + n) (omega arith) (a + n) _
              (Drained-next h a c.size n before d) (sym (mod-eq_of_lt (omega arith) ∙ omega arith))
              (mod-eq_of_lt (omega (arith, wide)) ∙ omega arith) in
          (q', ran, Drained-more h a c.size n q' left))
        (λ s d. take_round-none inner z k c.size h' (omega arith) (Drained-all h h' a c.size end d))
        fuel 0 q (omega arith) (omega arith)
        (renamed start (omega arith) (omega arith) (omega arith))
