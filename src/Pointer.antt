-- ===== src/Pointer.antt =====
-- pointer_mpmc_queue.h: a queue of owning pointers over mpmc_queue.h. A `unique_ptr` is the address
-- that it holds, 0 for none; what an operation deletes is a result of its model.
pub mod Owned
use lockfree_mpmc_queue.Base.{
  ℕ, zero, suc, Bool, true, false, List, [], ◌∷◌, ◌++◌, Option, none, some, ◌==◌, if◌then◌else◌,
}
use lockfree_mpmc_queue.Base.Loop.{◌>>=◌}
use lockfree_mpmc_queue.Queue.{Queue}
use lockfree_mpmc_queue.Queue.Push.{push, push_index}
use lockfree_mpmc_queue.Queue.Pop.{pop, pop_index}
use lockfree_mpmc_queue.Queue.Glance.{is_empty, size_now, capacity}

-- The end of a `unique_ptr` that holds `v`: a null pointer owns nothing.
abbrev pub deleted : ℕ → List ℕ
deleted v = if v == 0 then [] else v ∷ []

-- `push(v)`: the result, and the address that `v` holds afterwards.
unfoldable pub pointer_push : ℕ → Queue → ℕ → Option (Bool × (ℕ × Queue))
pointer_push fuel q v = do
  (done, q') ← push fuel q v
  elim done [ true ↦ some (true, (0, q')) | false ↦ some (false, (v, q')) ]

-- `push(v, i)`: the number in place of `true`.
unfoldable pub pointer_push_index : ℕ → Queue → ℕ → Option (Option ℕ × (ℕ × Queue))
pointer_push_index fuel q v = do
  (done, q') ← push_index fuel q v
  elim done [ some i ↦ some (some i, (0, q')) | none ↦ some (none, (v, q')) ]

-- `pop(v)`: the result, the address that `v` holds afterwards, and what `reset` deletes.
unfoldable pub pointer_pop : ℕ → Queue → ℕ → Option (Bool × (ℕ × (List ℕ × Queue)))
pointer_pop fuel q v = do
  (got, q') ← pop fuel q
  elim got [ some nv ↦ some (true, (nv, (deleted v, q'))) | none ↦ some (false, (v, ([], q'))) ]

-- `pop(v, i)`
unfoldable pub pointer_pop_index : ℕ → Queue → ℕ → Option (Option ℕ × (ℕ × (List ℕ × Queue)))
pointer_pop_index fuel q v = do
  (got, q') ← pop_index fuel q
  elim got [
    | some (nv, i) ↦ some (some i, (nv, (deleted v, q')))
    | none ↦ some (none, (v, ([], q')))
  ]

-- The loop of the destructor, and what it deletes.
unfoldable pub pointer_destroy : ℕ → ℕ → Queue → Option (List ℕ × Queue)
pointer_destroy inner zero q = none
pointer_destroy inner (suc fuel) q = do
  (got, q') ← pop inner q
  elim got [
    | none ↦ some ([], q')
    | some nv ↦ do (others, last) ← pointer_destroy inner fuel q'; some (deleted nv ++ others, last)
  ]

-- `empty()`, `size()` and `capacity()` are those of the queue.
abbrev pub pointer_is_empty : Queue → Bool
pointer_is_empty = is_empty

abbrev pub pointer_size : Queue → ℕ
pointer_size = size_now

abbrev pub pointer_capacity : Queue → ℕ
pointer_capacity = capacity
