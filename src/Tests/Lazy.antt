-- ===== src/Tests/Lazy.antt =====
-- A queue whose read index lags in the upper half of its range.
use lockfree_mpmc_queue.Base.{◌≡◌, true, none, arith}
use lockfree_mpmc_queue.Queue.Peek.{peek, pop_if}
use lockfree_mpmc_queue.Queue.Peek.Stuck.{peek-none, pop_if-none}
use lockfree_mpmc_queue.Tests.{lagging_queue, lagging-Holds}

peek-none_example : peek 1000 lagging_queue ≡ none
peek-none_example = peek-none lagging-Holds (omega arith) (omega arith) 1000

pop_if-none_example : pop_if 1000 (λ x s. true) lagging_queue ≡ none
pop_if-none_example = pop_if-none lagging-Holds (omega arith) (omega arith) (λ x s. true) 1000
