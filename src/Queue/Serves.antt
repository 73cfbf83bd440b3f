-- ===== src/Queue/Serves.antt =====
-- A queue that serves a bounded first-in first-out list: the relation between the two states.
use lockfree_mpmc_queue.Base.{ℕ, ◌+◌, ◌<◌, ◌≡◌, refl, length, arith}
use lockfree_mpmc_queue.Base.Word.{cast}
use lockfree_mpmc_queue.Fifo.{Fifo}
use lockfree_mpmc_queue.Queue.{Config, Queue, advance_write, advance_read}
use lockfree_mpmc_queue.Queue.Shape.{Holds}
use lockfree_mpmc_queue.Queue.Atomic.{advance_write-Holds, advance_read-Holds}

-- `q` holds the list of `f` under the configuration `c`, each index within one step of its place.
pub record Serves (c : Config) (q : Queue) (f : Fifo) : Type 0 where
  pub wr : ℕ
  pub rd : ℕ
  pub config_is : q.config ≡ c
  pub holds : Holds q f.read f.items wr rd

pub config-advance_write : (q : Queue) (i : ℕ) → (advance_write q i).config ≡ q.config
unfolding advance_write
config-advance_write q i = ground arith

pub config-advance_read : (q : Queue) (i : ℕ) → (advance_read q i).config ≡ q.config
unfolding advance_read
config-advance_read q i = ground arith

module _ {q : Queue} {wr rd : ℕ} (f : Fifo) (v : Holds q f.read f.items wr rd) where
  pub Serves-refl : Serves q.config q f
  Serves-refl = record { wr = wr; rd = rd; config_is = refl; holds = v }

  pub Serves-advance_write :
      wr < f.read + length f.items → Serves q.config (advance_write q (cast q.bits wr)) f
  Serves-advance_write lags = record {
    wr = wr + 1;
    rd = rd;
    config_is = config-advance_write q (cast q.bits wr);
    holds = advance_write-Holds v lags;
  }

  pub Serves-advance_read : rd < f.read → Serves q.config (advance_read q (cast q.bits rd)) f
  Serves-advance_read lags = record {
    wr = wr;
    rd = rd + 1;
    config_is = config-advance_read q (cast q.bits rd);
    holds = advance_read-Holds v lags;
  }
