-- ===== src/Queue/Pop/Overloads.antt =====
-- The overloads `pop(d)` and `pop(d, i)` do the same to the queue. The first keeps the index in a
-- local variable; with no other thread at work it is always the current one.
use lockfree_mpmc_queue.Base.{ℕ, zero, suc, ◌≡◌, refl, Option, none, some, arith}
use lockfree_mpmc_queue.Base.Loop.{Pass, again, return, resume, forever}
use lockfree_mpmc_queue.Queue.{Queue}
use lockfree_mpmc_queue.Queue.Pop.{pop_pass, pop, pop_index_pass, pop_index, drop_local}

abbrev pub forget_number : Option (Option (ℕ × ℕ) × Queue) → Option (Option ℕ × Queue)
forget_number none = none
forget_number (some (none, q)) = some (none, q)
forget_number (some (some (d, i), q)) = some (some d, q)

-- The pass of `pop(d)` that goes with one of `pop(d, i)`: the index is loaded anew to go round.
with_local : ℕ → Pass (Option (ℕ × ℕ)) × Queue → Pass (Option ℕ) × (ℕ × Queue)
with_local rd (again, q) = (again, (q.read_index, q))
with_local rd (return none, q) = (return none, (rd, q))
with_local rd (return (some (d, i)), q) = (return (some d), (rd, q))

pop_pass-with_local :
    (q : Queue) → pop_pass (q.read_index, q) ≡ with_local q.read_index (pop_index_pass q)
unfolding pop_pass pop_index_pass with_local
pop_pass-with_local q = ground arith

-- `pop(d)` returns the element that `pop(d, i)` does, and leaves the same queue.
pub pop-pop_index : (fuel : ℕ) (q : Queue) → pop fuel q ≡ forget_number (pop_index fuel q)
unfolding pop pop_index forever with_local
pop-pop_index zero q = refl
pop-pop_index (suc fuel) q =
    rw (pop_pass-with_local q) (go (pop_index_pass q) (λ r. pop-pop_index fuel r))
  where
    go :
        (p : Pass (Option (ℕ × ℕ)) × Queue)
        → ((r : Queue) → pop fuel r ≡ forget_number (pop_index fuel r))
        → drop_local
            (let (pass, t) = with_local q.read_index p in resume pass t (forever fuel pop_pass))
          ≡ forget_number (let (pass, t) = p in resume pass t (forever fuel pop_index_pass))
    go (again, r) ih = ih r
    go (return none, r) ih = refl
    go (return (some (d, i)), r) ih = refl
