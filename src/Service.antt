-- ===== src/Service.antt =====
-- What the benchmarks and examples use of a queue: calls of numbered threads that push and pop. Each
-- call is one step here; Threads is about calls that overlap.
pub mod Totals
pub mod Queues
pub mod Calls
pub mod Lines
use lockfree_mpmc_queue.Base.{
  ℕ, zero, suc, ◌+◌, ◌≡◌, ◌⊎◌, Bool, true, false, List, [], ◌∷◌, Option, none, some,
}

-- The weight of a list, for a weight of its elements.
abbrev pub weigh : (ℕ → ℕ) → List ℕ → ℕ
weigh w [] = 0
weigh w (x ∷ xs) = w x + weigh w xs

-- Two lists of the same elements, in any order: no weight tells them apart.
abbrev pub Same : List ℕ → List ℕ → Type 0
Same xs ys = (w : ℕ → ℕ) → weigh w xs ≡ weigh w ys

pub record Service : Type 1 where
  pub State : Type 0
  pub push : State → ℕ → ℕ → Option (Bool × State)  -- the thread, and the element
  pub pop : State → ℕ → Option (Option ℕ × State)
  pub is_empty : State → Bool
  pub Holds : State → List ℕ → Type 0
  pub push_law :
      (s : State) (xs : List ℕ) (i d : ℕ)
      → Holds s xs
      → (s' : State) × (ys : List ℕ) × Holds s' ys
        × (((push s i d ≡ some (true, s')) × Same ys (d ∷ xs))
            ⊎ ((push s i d ≡ some (false, s')) × Same ys xs))
  pub pop_law :
      (s : State) (xs : List ℕ) (i : ℕ)
      → Holds s xs
      → (s' : State) × (ys : List ℕ) × Holds s' ys
        × (((x : ℕ) × (pop s i ≡ some (some x, s')) × Same xs (x ∷ ys))
            ⊎ ((pop s i ≡ some (none, s')) × Same xs [] × Same ys []))
  pub is_empty_law : (s : State) (xs : List ℕ) → Holds s xs → is_empty s ≡ true → Same xs []
