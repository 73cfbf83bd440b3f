-- ===== src/Queue/Push/Overloads.antt =====
-- The overloads `push(d)` and `push(d, i)` do the same to the queue.
use lockfree_mpmc_queue.Base.{ℕ, zero, suc, ◌≡◌, refl, Bool, true, false, Option, none, some, arith}
use lockfree_mpmc_queue.Base.Loop.{Pass, again, return, resume, forever}
use lockfree_mpmc_queue.Queue.{Queue}
use lockfree_mpmc_queue.Queue.Push.{push_pass, push, push_index_pass, push_index}

-- The two overloads take the same steps; `push(d)` only does not report the number.
abbrev pub forget_index : Option (Option ℕ × Queue) → Option (Bool × Queue)
forget_index none = none
forget_index (some (none, q)) = some (false, q)
forget_index (some (some i, q)) = some (true, q)

forget_pass : Pass (Option ℕ) × Queue → Pass Bool × Queue
forget_pass (again, q) = (again, q)
forget_pass (return none, q) = (return false, q)
forget_pass (return (some i), q) = (return true, q)

push_pass-forget : (d : ℕ) (q : Queue) → push_pass d q ≡ forget_pass (push_index_pass d q)
unfolding push_pass push_index_pass forget_pass
push_pass-forget d q = ground arith

-- `push(d)` returns true exactly when `push(d, i)` does, and leaves the same queue.
pub push-push_index :
    (fuel : ℕ) (q : Queue) (d : ℕ) → push fuel q d ≡ forget_index (push_index fuel q d)
unfolding push push_index forever forget_pass
push-push_index zero q d = refl
push-push_index (suc fuel) q d =
    rw (push_pass-forget d q) (go (push_index_pass d q) (λ r. push-push_index fuel r d))
  where
    go :
        (p : Pass (Option ℕ) × Queue)
        → ((r : Queue) → push fuel r d ≡ forget_index (push_index fuel r d))
        → (let (pass, t) = forget_pass p in resume pass t (forever fuel (push_pass d)))
          ≡ forget_index (let (pass, t) = p in resume pass t (forever fuel (push_index_pass d)))
    go (again, r) ih = ih r
    go (return none, r) ih = refl
    go (return (some i), r) ih = refl
