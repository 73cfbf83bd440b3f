-- ===== src/Queue/Peek/Stuck.antt =====
-- Where `peek` and `pop_if` go round for ever: a read index that lags while `rd_index + size` has
-- its top bit set. With `lazy_pop` every pop leaves the index lagging.
use lockfree_mpmc_queue.Base.{ℕ, ◌+◌, ◌-◌, ◌^◌, ◌≤◌, ◌<◌, ◌≡◌, Bool, List, none}
use lockfree_mpmc_queue.Base.Word.{cast}
use lockfree_mpmc_queue.Base.Loop.{forever-stuck}
use lockfree_mpmc_queue.Queue.{Queue}
use lockfree_mpmc_queue.Queue.Shape.{Holds}
use lockfree_mpmc_queue.Queue.Peek.{peek_pass, peek, pop_if_pass, pop_if}
use lockfree_mpmc_queue.Queue.Peek.Cases.{peek_reload}

module _ {q : Queue} {h wr rd : ℕ} {xs : List ℕ} (v : Holds q h xs wr rd) (lags : rd < h)
    (top : 2 ^ (q.bits - 1) ≤ cast q.bits (rd + q.size)) where
  -- On a queue that holds a list, with a lagging read index and the top bit of `rd_index + size` set,
  -- and with no other thread at work, `peek(d)` returns for no number of rounds.
  pub peek-none : (fuel : ℕ) → peek fuel q ≡ none
  unfolding peek peek_pass
  peek-none fuel = forever-stuck fuel _ q (rw (peek_reload v lags top, peek_pass))

  -- On a queue that holds a list, with a lagging read index and the top bit of `rd_index + size` set,
  -- and with no other thread at work, `pop_if` returns for no number of rounds and no condition.
  pub pop_if-none : (cond : ℕ → ℕ → Bool) (fuel : ℕ) → pop_if fuel cond q ≡ none
  unfolding pop_if pop_if_pass
  pop_if-none cond fuel = forever-stuck fuel _ q (rw (peek_reload v lags top, pop_if_pass))
