-- ===== src/Threads/History.antt =====
-- What the events of concurrent calls must say: they are those of one bounded first-in first-out
-- list, in the order in which they happened.
use lockfree_mpmc_queue.Base.{ℕ, ◌≡◌, true, false, List, [], ◌∷◌, none, some}
use lockfree_mpmc_queue.Base.Word.{cast}
use lockfree_mpmc_queue.Fifo
use lockfree_mpmc_queue.Fifo.{Fifo, next, has_room, head?}
use lockfree_mpmc_queue.Queue.{Config, full_seq}
use lockfree_mpmc_queue.Threads.{
  Event, silent, pushes, push_fails, pops, pop_fails, sees, sees_none, declines, pops_if, not_empty,
}

-- The list after an event.
abbrev pub after : Config → Fifo → Event → Fifo
after c f silent = f
after c f (pushes d i) = Fifo.push c.size f d
after c f push_fails = f
after c f (pops x i) = Fifo.pop f
after c f pop_fails = f
after c f (sees x s) = f
after c f sees_none = f
after c f (declines g x s) = f
after c f (pops_if g x i) = Fifo.pop f
after c f (not_empty w) = f

-- A push reports the next number, and fails only on a full list; a pop takes the oldest element and
-- reports its number, and fails only on the empty list. A look finds the oldest element, with the
-- sequence of its entry, or the empty list; the condition of `pop_if` decides about that
-- element. `empty` may deny that the list is empty only where it holds an element or the index that was
-- loaded is not the number of the next pop.
abbrev pub Permits : Config → Fifo → Event → Type 0
Permits c f silent = Unit {0}
Permits c f (pushes d i) = (has_room c.size f ≡ true) × (i ≡ cast c.bits (next f))
Permits c f push_fails = has_room c.size f ≡ false
Permits c f (pops x i) = (head? f ≡ some x) × (i ≡ cast c.bits f.read)
Permits c f pop_fails = head? f ≡ none
Permits c f (sees x s) = (head? f ≡ some x) × (s ≡ full_seq c (cast c.bits f.read))
Permits c f sees_none = head? f ≡ none
Permits c f (declines g x s) =
    (head? f ≡ some x) × (s ≡ full_seq c (cast c.bits f.read)) × (g x s ≡ false)
Permits c f (pops_if g x i) =
    (head? f ≡ some x) × (i ≡ cast c.bits f.read) × (g x (full_seq c i) ≡ true)
Permits c f (not_empty w) = ¬ ((head? f ≡ none) × (w ≡ cast c.bits f.read))

abbrev pub IsLegal : Config → Fifo → List Event → Type 0
IsLegal c f [] = Unit {0}
IsLegal c f (e ∷ events) = Permits c f e × IsLegal c (after c f e) events

abbrev pub after_all : Config → Fifo → List Event → Fifo
after_all c f [] = f
after_all c f (e ∷ events) = after_all c (after c f e) events

-- The elements that a history pushes and pops, in order.
abbrev pub pushed_items : List Event → List ℕ
pushed_items [] = []
pushed_items (pushes d i ∷ events) = d ∷ pushed_items events
pushed_items (_ ∷ events) = pushed_items events

abbrev pub popped_items : List Event → List ℕ
popped_items [] = []
popped_items (pops x i ∷ events) = x ∷ popped_items events
popped_items (pops_if g x i ∷ events) = x ∷ popped_items events
popped_items (_ ∷ events) = popped_items events
