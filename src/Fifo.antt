-- ===== src/Fifo.antt =====
-- What a queue promises: a first-in first-out list of bounded length, oldest first, in which each
-- element is numbered by the order of its push. `read` is the number of the oldest element.
use lockfree_mpmc_queue.Base.{
  ℕ, ◌+◌, Bool, List, [], ◌∷◌, ◌++◌, Option, none, some, length, ltb, if◌then◌else◌,
}

pub record Fifo : Type 0 where
  pub read : ℕ
  pub items : List ℕ

abbrev pub empty : Fifo
empty = record { read = 0; items = [] }

-- The number that the next push gets.
abbrev pub next : Fifo → ℕ
next f = f.read + length f.items

abbrev pub has_room : ℕ → Fifo → Bool
has_room n f = ltb (length f.items) n

-- A push to a full list leaves it alone.
abbrev pub push : ℕ → Fifo → ℕ → Fifo
push n f d = if has_room n f then record f { items = f.items ++ d ∷ [] } else f

abbrev pub head? : Fifo → Option ℕ
head? f = elim f.items [ [] ↦ none | x ∷ xs ↦ some x ]

abbrev pub pop : Fifo → Fifo
pop f = elim f.items [ [] ↦ f | x ∷ xs ↦ record { read = f.read + 1; items = xs } ]
