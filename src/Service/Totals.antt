-- ===== src/Service/Totals.antt =====
-- Sums over the threads of a program.
use lockfree_mpmc_queue.Base.{
  ℕ, zero, suc, ◌+◌, ◌≤◌, ◌<◌, ◌≡◌, ◌≢◌, refl, sym, ap, ◌∙◌, arith, ◌^◌, update, ap₂, update_ne,
  update_self, List, [], ◌∷◌,
}
use lockfree_mpmc_queue.Service.{weigh}
use native.Mathlib.Decide.{ℕ_discrete}
use native.Mathlib.Nat.{mod-add-mod}
use lockfree_mpmc_queue.Base.Word.{cast}

abbrev pub total : ℕ → (ℕ → ℕ) → ℕ
total zero f = 0
total (suc n) f = total n f + f n

-- A sum in a `uint64_t`.
abbrev pub add_up : ℕ → (ℕ → ℕ) → ℕ
add_up zero f = 0
add_up (suc n) f = cast 64 (add_up n f + f n)

pub add_up-total : (n : ℕ) (f : ℕ → ℕ) → add_up n f ≡ cast 64 (total n f)
add_up-total zero f = refl
add_up-total (suc n) f =
    ap (λ t. cast 64 (t + f n)) (add_up-total n f) ∙ mod-add-mod (total n f) (2 ^ 64) (f n)

pub total_same : (n : ℕ) (f g : ℕ → ℕ) → ((i : ℕ) → i < n → f i ≡ g i) → total n f ≡ total n g
total_same zero f g e = refl
total_same (suc n) f g e =
    omega (arith, total_same n f g (λ i p. e i (omega arith)), e n (omega arith))

-- One thread moves.
pub total_change :
    (n i : ℕ) (f g : ℕ → ℕ)
    → i < n
    → ((j : ℕ) → j ≢ i → g j ≡ f j)
    → total n g + f i ≡ total n f + g i
total_change zero i f g p e = absurd (omega arith)
total_change (suc n) i f g p e = elim (ℕ_discrete i n) [
  | yes last ↦ rw last (omega (arith, total_same n g f (λ j q. e j (λ s. absurd (omega arith)))))
  | no other ↦ omega (arith, total_change n i f g (omega arith) e, e n (λ s. other (sym s)))
]

-- Nothing in all is nothing each.
pub total_none : (n : ℕ) (f : ℕ → ℕ) → total n f ≡ 0 → (i : ℕ) → i < n → f i ≡ 0
total_none zero f e i p = absurd (omega arith)
total_none (suc n) f e i p = elim (ℕ_discrete i n) [
  | yes last ↦ rw last (omega arith)
  | no other ↦ total_none n f (omega arith) i (omega arith)
]

pub total_bound : (n : ℕ) (f : ℕ → ℕ) → ((i : ℕ) → f i ≤ 1) → total n f ≤ n
total_bound zero f each = omega arith
total_bound (suc n) f each = omega (arith, total_bound n f each, each n)

-- All of them in all is one each.
pub total_full :
    (n : ℕ) (f : ℕ → ℕ) → ((i : ℕ) → f i ≤ 1) → n ≤ total n f → (i : ℕ) → i < n → f i ≡ 1
total_full zero f each e i p = absurd (omega arith)
total_full (suc n) f each e i p = elim (ℕ_discrete i n) [
  | yes last ↦ rw last (omega (arith, total_bound n f each, each n))
  | no other ↦ total_full n f each (omega (arith, each n)) i (omega arith)
]

-- The thread `i` moves, and writes to its place of a vector.
pub total-update {ℓ} :
    {A : Type ℓ} (f : A → ℕ → ℕ) (w : ℕ → A) (k : ℕ → ℕ) (n i : ℕ) (p : A) (c : ℕ)
    → i < n
    → total n (λ j. f (update w i p j) (update k i c j)) + f (w i) (k i)
      ≡ total n (λ j. f (w j) (k j)) + f p c
total-update f w k n i p c within =
    total_change n i (λ j. f (w j) (k j)) (λ j. f (update w i p j) (update k i c j)) within
      (λ j other. ap₂ f (update_ne w i j p other) (update_ne k i j c other))
    ∙ ap (λ t. total n (λ j. f (w j) (k j)) + t) (ap₂ f (update_self w i p) (update_self k i c))

pub total_part : (n : ℕ) (f : ℕ → ℕ) (i : ℕ) → i < n → f i ≤ total n f
total_part zero f i p = absurd (omega arith)
total_part (suc n) f i p = elim (ℕ_discrete i n) [
  | yes last ↦ rw last (omega arith)
  | no other ↦ omega (arith, total_part n f i (omega arith))
]

pub total_zero : (n : ℕ) → total n (λ i. 0) ≡ 0
total_zero zero = refl
total_zero (suc n) = omega (arith, total_zero n)

abbrev pub count : List ℕ → ℕ
count = weigh (λ x. 1)

pub none_of_count : (xs : List ℕ) → count xs ≡ 0 → xs ≡ []
none_of_count [] e = refl
none_of_count (x ∷ xs) e = absurd (omega arith)
