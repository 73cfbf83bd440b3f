-- ===== src/Gtest/KeepsN.antt =====
-- src/gtest_mpmc_queue.cpp: a full queue that `push_keep_n` fills again, `testFullEmptyKeepN`.
use native.Mathlib.Nat.{mod-eq_of_lt, pow-le-pow_right}
use lockfree_mpmc_queue.Base.{
  ap₂, ℕ, suc, ◌+◌, ◌-◌, ◌*◌, ◌≤◌, ◌<◌, ◌^◌, ◌≡◌, refl, ap, ◌∙◌, sym, subst, true, false, some,
  List, [], ◌∷◌, ◌++◌, length, arith, ltb_of_lt, ltb_of_le, ==_of_eq, length-append, ltb,
}
use mathlib.Core.List.{append-nil, append_assoc}
use lockfree_mpmc_queue.Base.Word.{cast}
use lockfree_mpmc_queue.Fifo.{empty}
use lockfree_mpmc_queue.Queue.{Config, Queue}
use lockfree_mpmc_queue.Queue.Serves.{Serves}
use lockfree_mpmc_queue.Queue.Glance.{capacity}
use lockfree_mpmc_queue.Queue.Calls.KeepN.{push_keep_n_index-Keeps}
use lockfree_mpmc_queue.Gtest.{count_while, keep_round, take_kept_round, test_full_empty_keep_n}
use lockfree_mpmc_queue.Gtest.Counting.{
  count_while-reaches, numbers, length-numbers, numbers-snoc, numbers-cons,
}
use lockfree_mpmc_queue.Gtest.Rounds.{ServesFrom, take_round-next}
use lockfree_mpmc_queue.Gtest.Fills.{
  Drained, Drained-next, Drained-more, Drained-all, renamed, capacity-Serves,
  push_index_round-fills,
}
use lockfree_mpmc_queue.Gtest.FullEmpty.{Passes, counted}

-- Of `m` numbers the first `n` have given way to numbers from `z` on, and `w` is the next of these.
abbrev Renewed : Config → ℕ → ℕ → ℕ → Queue × ℕ → Type 0
Renewed c z m n s = ServesFrom c s.0 n (numbers n (m - n) ++ numbers z n) × (s.1 ≡ z + n)

-- The oldest number goes, and the next comes in behind.
renewed :
    (z n m : ℕ)
    → n < m
    → (numbers (n + 1) (m - n - 1) ++ numbers z n) ++ (z + n) ∷ []
      ≡ numbers (n + 1) (m - (n + 1)) ++ numbers z (n + 1)
renewed z n m before =
    append_assoc (numbers (n + 1) (m - n - 1)) (numbers z n) ((z + n) ∷ [])
    ∙ ap₂ (λ k ys. numbers (n + 1) k ++ ys) (omega arith) (sym (numbers-snoc z n))

length-renewed : (z n m : ℕ) → n < m → length (numbers (n + 1) (m - n - 1) ++ numbers z n) + 1 ≡ m
length-renewed z n m before = omega (
  arith,
  length-append (numbers (n + 1) (m - n - 1)) (numbers z n),
  length-numbers (n + 1) (m - n - 1),
  length-numbers z n,
)

module _ {c : Config} (inner z n w : ℕ) (q : Queue) (before : n < c.size) where
  keep_round-next :
      z + n + 1 < 2 ^ 32
      → n + c.size < 2 ^ c.bits
      → Renewed c z c.size n (q, w)
      → (s : Queue × ℕ) × (keep_round (suc (suc inner)) n (q, w) ≡ some (true, s))
        × Renewed c z c.size (n + 1) s
  unfolding keep_round
  keep_round-next small number (serves, at) =
      let rest = numbers (n + 1) (c.size - n - 1) ++ numbers z n in
      let long = length-renewed z n c.size before in
      let full : ServesFrom c q n (n ∷ rest) =
        subst (λ xs. ServesFrom c q n (xs ++ numbers z n))
          (numbers-cons n (c.size - n) (omega arith)) serves in
      let (q', kept, left) = push_keep_n_index-Keeps _ inner inner w full in
      let room = capacity-Serves full in
      let count : cast c.bits (n + length (n ∷ rest)) ≡ n + capacity q =
        mod-eq_of_lt (omega (arith, long)) ∙ omega (arith, long, room) in
      (
        (q', cast 32 (w + 1)),
        rw (ltb_of_lt n (capacity q) (omega (arith, room)), keep_round)
            (rw kept
              (rw (==_of_eq (cast c.bits (n + length (n ∷ rest))) (n + capacity q) count) refl)),
        (
          subst (λ xs. ServesFrom c q' (n + 1) xs)
              (ap (λ d. rest ++ d ∷ []) at ∙ renewed z n c.size before)
              (rw (ltb_of_le (length (n ∷ rest)) c.size (omega (arith, long))) at left),
          mod-eq_of_lt (omega (arith, at)) ∙ omega (arith, at),
        ),
      )

-- A round beyond the capacity is refused by its guard.
beyond :
    {c : Config} {q : Queue} {h : ℕ} {xs : List ℕ}
    → ServesFrom c q h xs
    → ltb c.size (capacity q) ≡ false
beyond {c} {q} s = ltb_of_le c.size (capacity q) (omega (arith, capacity-Serves s))

module _ {c : Config} (inner z : ℕ) (small : z + c.size < 2 ^ 32)
    (wide : c.size * 2 ≤ 2 ^ c.bits) where
  -- `for (wloop = 0; wloop < qut.capacity() && qut.push_keep_n(w, wi) && wi == …; wloop++) w++`
  keep_round-renews :
      (fuel : ℕ) (q : Queue)
      → c.size < fuel
      → ServesFrom c q 0 (numbers 0 c.size)
      → (s : Queue × ℕ) × (count_while (keep_round (suc (suc inner))) fuel 0 (q, z)
          ≡ some (c.size, s))
        × ServesFrom c s.0 c.size (numbers z c.size)
  unfolding keep_round
  keep_round-renews fuel q enough start =
      count_while-reaches (keep_round (suc (suc inner))) (Renewed c z c.size)
        (λ n s. ServesFrom c s.0 c.size (numbers z c.size)) c.size (omega arith)
        (λ n s before f. keep_round-next inner z n s.1 s.0 before (omega arith) (omega arith) f)
        (λ s f. (
          s,
          rw (beyond f.0, keep_round) refl,
          subst (λ k. ServesFrom c s.0 c.size (numbers c.size k ++ numbers z c.size)) {y = 0}
              (omega arith) f.0,
        ))
        fuel 0 (q, z) (omega arith) (omega arith)
        (
          subst (λ xs. ServesFrom c q 0 xs) (sym (append-nil (numbers 0 (c.size - 0))))
              (renamed start refl refl (omega arith)),
          omega arith,
        )

module _ {c : Config} (inner z : ℕ) (small : z + c.size < 2 ^ 32)
    (low : c.size * 3 ≤ 2 ^ (c.bits - 1)) where
  -- `for (rloop = 0; rloop < qut.capacity() && qut.peek(r) && …; rloop++)`, with 93 for `z`
  take_kept_round-drains :
      (fuel : ℕ) (q : Queue)
      → z ≡ 93
      → c.size < fuel
      → ServesFrom c q c.size (numbers z c.size)
      → (q' : Queue) × (count_while (take_kept_round (suc (suc inner))) fuel 0 q
          ≡ some (c.size, q'))
        × ServesFrom c q' (c.size * 2) []
  unfolding take_kept_round
  take_kept_round-drains fuel q named enough start =
      let wide =
        pow-le-pow_right {n = 2} (omega arith) {i = c.bits - 1} {j = c.bits} (omega arith) in
      count_while-reaches (take_kept_round (suc (suc inner))) (Drained c c.size z c.size)
        (λ n q'. ServesFrom c q' (c.size * 2) []) c.size (omega arith)
        (λ n s before d.
          let room = capacity-Serves d in
          let (q', ran, left) =
            take_round-next inner 93 (capacity s) n (c.size + n) (omega arith) (z + n) _
              (Drained-next c.size z c.size n before d)
              (sym (mod-eq_of_lt (omega (arith, named)) ∙ omega (arith, named)))
              (mod-eq_of_lt (omega (arith, wide)) ∙ omega (arith, room)) in
          (
            q',
            rw (ltb_of_lt n (capacity s) (omega (arith, room)), take_kept_round) ran,
            Drained-more c.size z c.size n q' left,
          ))
        (λ s d. (
          s,
          rw (beyond d, take_kept_round) refl,
          Drained-all c.size (c.size * 2) z c.size (omega arith) d,
        ))
        fuel 0 q (omega arith) (omega arith)
        (renamed start (omega arith) (omega arith) (omega arith))

-- On a queue that serves the empty list, with a size of which thrice is at most half the range of an
-- index and, with 93 more, below 2^32, `testFullEmptyKeepN` passes.
pub test_full_empty_keep_n-Passes :
    (c : Config) (inner fuel : ℕ) (q : Queue)
    → c.size < fuel
    → Serves c q empty
    → c.size * 3 ≤ 2 ^ (c.bits - 1)
    → c.size * 3 + 93 < 2 ^ 32
    → Passes c (test_full_empty_keep_n (suc (suc inner)) fuel) q (c.size * 2)
unfolding test_full_empty_keep_n
test_full_empty_keep_n-Passes c inner fuel q enough start low small =
    let wide = pow-le-pow_right {n = 2} (omega arith) {i = c.bits - 1} {j = c.bits} (omega arith) in
    let (q1, ran1, full1) =
      push_index_round-fills inner 0 0 c.size (omega arith) (omega arith) fuel 0 q enough refl
        (omega (arith, wide)) start in
    let (s2, ran2, full2) =
      keep_round-renews inner 93 (omega arith) (omega (arith, wide)) fuel q1 enough full1 in
    let (q3, ran3, empty3) =
      take_kept_round-drains inner 93 (omega arith) low fuel s2.0 refl enough full2 in
    (q3, rw ran1 (rw ran2 (rw ran3 (counted c (capacity-Serves empty3)))), empty3)
