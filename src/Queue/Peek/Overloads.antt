-- ===== src/Queue/Peek/Overloads.antt =====
-- The overloads `peek(d)` and `peek(d, i)` of mpmc_queue.h.
use lockfree_mpmc_queue.Base.{ℕ, zero, suc, ◌≡◌, refl, Option, none, some, arith}
use lockfree_mpmc_queue.Base.Loop.{Pass, again, return, forever, resume}
use lockfree_mpmc_queue.Queue.{Queue}
use lockfree_mpmc_queue.Queue.Peek.{peek_pass, peek, peek_index_pass, peek_index}

-- `peek(d)` only does not report the sequence.
abbrev pub forget_seq : Option (Option (ℕ × ℕ) × Queue) → Option (Option ℕ × Queue)
forget_seq none = none
forget_seq (some (none, q)) = some (none, q)
forget_seq (some (some (x, s), q)) = some (some x, q)

forget_pass : Pass (Option (ℕ × ℕ)) × Queue → Pass (Option ℕ) × Queue
forget_pass (again, q) = (again, q)
forget_pass (return none, q) = (return none, q)
forget_pass (return (some (x, s)), q) = (return (some x), q)

peek_pass-forget : (q : Queue) → peek_pass q ≡ forget_pass (peek_index_pass q)
unfolding peek_pass peek_index_pass forget_pass
peek_pass-forget q = ground arith

-- `peek(d)` returns the element that `peek(d, i)` does, and leaves the same queue.
pub peek-peek_index : (fuel : ℕ) (q : Queue) → peek fuel q ≡ forget_seq (peek_index fuel q)
unfolding peek peek_index forever forget_pass
peek-peek_index zero q = refl
peek-peek_index (suc fuel) q =
    rw (peek_pass-forget q) (go (peek_index_pass q) (λ r. peek-peek_index fuel r))
  where
    go :
        (p : Pass (Option (ℕ × ℕ)) × Queue)
        → ((r : Queue) → peek fuel r ≡ forget_seq (peek_index fuel r))
        → (let (pass, t) = forget_pass p in resume pass t (forever fuel peek_pass))
          ≡ forget_seq (let (pass, t) = p in resume pass t (forever fuel peek_index_pass))
    go (again, r) ih = ih r
    go (return none, r) ih = refl
    go (return (some (x, s)), r) ih = refl
