-- ===== src/Gtest/Counting.antt =====
-- src/gtest_mpmc_queue.cpp: how far a counting loop goes, and the lists of consecutive numbers that the
-- tests push.
use native.Mathlib.Decide.{dec_lt}
use native.Mathlib.Nat.{mod-eq_of_lt}
use lockfree_mpmc_queue.Base.{
  ℕ, zero, suc, ◌+◌, ◌≤◌, ◌<◌, ◌^◌, ◌≡◌, refl, ap, ◌∙◌, Bool, true, false, Option, some, List, [],
  ◌∷◌, ◌++◌, length, arith, ◌-◌, subst,
}
use lockfree_mpmc_queue.Base.Word.{cast}
use lockfree_mpmc_queue.Gtest.{count_while}

module _ {ℓ κ} {S : Type ℓ} (round : ℕ → S → Option (Bool × S)) (Inv Post : ℕ → S → Type κ) (m : ℕ)
    (within : m < 2 ^ 32)
    (go_on : (n : ℕ) (s : S)
      → n < m
      → Inv n s
      → (t : S) × (round n s ≡ some (true, t)) × Inv (n + 1) t)
    (stop : (s : S) → Inv m s → (t : S) × (round m s ≡ some (false, t)) × Post m t) where
  stops :
      (fuel : ℕ) (s : S)
      → Inv m s
      → (t : S) × (count_while round (suc fuel) m s ≡ some (m, t)) × Post m t
  unfolding count_while
  stops fuel s i = let (t, ran, post) = stop s i in (t, rw (ran, count_while) refl, post)

  -- A loop whose rounds succeed up to `m`, and there fails, counts to `m`.
  pub count_while-reaches :
      (fuel n : ℕ) (s : S)
      → n ≤ m
      → m < n + fuel
      → Inv n s
      → (t : S) × (count_while round fuel n s ≡ some (m, t)) × Post m t
  unfolding count_while
  count_while-reaches zero n s lo enough i = absurd (omega arith)
  count_while-reaches (suc fuel) n s lo enough i = elim (dec_lt n m) [
    | yes before ↦
        let (t, ran, j) = go_on n s before i in
        let (u, rest, post) = count_while-reaches fuel (n + 1) t (omega arith) (omega arith) j in
        let next : cast 32 (n + 1) ≡ n + 1 = mod-eq_of_lt (omega arith) in
        (u, rw (ran, count_while) (rw next rest), post)
    | no reached ↦
        subst (λ k. (t : S) × (count_while round (suc fuel) k s ≡ some (m, t)) × Post m t) {x = m}
          (omega arith) (stops fuel s (subst (λ k. Inv k s) {y = m} (omega arith) i))
  ]

-- `n` numbers from `a` on.
abbrev pub numbers : ℕ → ℕ → List ℕ
numbers a zero = []
numbers a (suc n) = a ∷ numbers (a + 1) n

pub length-numbers : (a n : ℕ) → length (numbers a n) ≡ n
length-numbers a zero = refl
length-numbers a (suc n) = omega (arith, length-numbers (a + 1) n)

pub numbers-snoc : (a n : ℕ) → numbers a (n + 1) ≡ numbers a n ++ (a + n) ∷ []
numbers-snoc a n = ap (numbers a) {y = suc n} (omega arith) ∙ go a n
  where
    go : (a n : ℕ) → numbers a (suc n) ≡ numbers a n ++ (a + n) ∷ []
    go a zero = ap (λ b. b ∷ []) {y = a + 0} (omega arith)
    go a (suc n) =
        ap (λ xs. a ∷ xs)
          (go (a + 1) n ∙ ap (λ b. numbers (a + 1) n ++ b ∷ []) {y = a + suc n} (omega arith))

pub numbers-cons : (a n : ℕ) → 0 < n → numbers a n ≡ a ∷ numbers (a + 1) (n - 1)
numbers-cons a zero pos = absurd (omega arith)
numbers-cons a (suc n) pos = ap (λ k. a ∷ numbers (a + 1) k) {y = suc n - 1} (omega arith)
