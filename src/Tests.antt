-- ===== src/Tests.antt =====
-- Concrete queues, and each theorem at one of them.
mod Calls
mod Lazy
mod Build
mod Schedules
mod Gtests
mod Packs
mod Owners
mod Hashes
mod Files
mod Exchanges
mod Runs
mod Apps
mod Races
mod Words
use native.Mathlib.Decide.{ℕ_discrete}
use lockfree_mpmc_queue.Base.{
  ℕ, ◌+◌, ◌-◌, ◌^◌, ◌<◌, ◌≡◌, refl, Bool, true, false, List, [], ◌∷◌, arith,
}
use lockfree_mpmc_queue.Fifo.{Fifo, empty}
use lockfree_mpmc_queue.Queue.{Config, Queue, entry_of_seq}
use lockfree_mpmc_queue.Queue.Shape.{IsShape, Holds, Cells}
use lockfree_mpmc_queue.Queue.Serves.{Serves}

-- `mpmc_queue<DataT, 0, uint32_t> q(2)`
abbrev pub two_slots : Config
two_slots = record { bits = 32; size = 2; lazy_push = false; lazy_pop = false }

abbrev pub fresh_queue : Queue
fresh_queue = record {
  config = two_slots;
  write_index = 0;
  read_index = 0;
  array = entry_of_seq 0 ∷ entry_of_seq 2 ∷ [];
}

fresh-Cells : Cells two_slots fresh_queue.array 0 []
fresh-Cells i lo hi = elim (ℕ_discrete i 0) [
  | yes e ↦ rw e refl
  | no ne ↦ let e : i ≡ 1 = omega arith in rw e refl
]

pub fresh-Holds : Holds fresh_queue 0 [] 0 0
fresh-Holds = record {
  shape = record { log_size = 1; power = refl; wide = omega arith };
  slots = refl;
  room = omega arith;
  cells = fresh-Cells;
  write_word = refl;
  write_reached = omega arith;
  write_lag = omega arith;
  read_word = refl;
  read_reached = omega arith;
  read_lag = omega arith;
}

abbrev pub fresh-Serves : Serves two_slots fresh_queue empty
fresh-Serves = record { wr = 0; rd = 0; config_is = refl; holds = fresh-Holds }

-- With both lazy flags: 2^31 - 1 elements have come and gone, and the last push and the last pop
-- have left their index behind.
abbrev pub lazy_slots : Config
lazy_slots = record { bits = 32; size = 2; lazy_push = true; lazy_pop = true }

abbrev pub lagging_queue : Queue
lagging_queue = record {
  config = lazy_slots;
  write_index = 2 ^ 31 - 2;
  read_index = 2 ^ 31 - 2;
  array = entry_of_seq 0 ∷ entry_of_seq (2 ^ 32 - 2) ∷ [];
}

lagging-Cells : Cells lazy_slots lagging_queue.array (2 ^ 31 - 1) []
lagging-Cells i lo hi = elim (ℕ_discrete i (2 ^ 31)) [
  | yes e ↦ rw e refl
  | no ne ↦ let e : i ≡ 2 ^ 31 - 1 = omega arith in rw e refl
]

pub lagging-Holds : Holds lagging_queue (2 ^ 31 - 1) [] (2 ^ 31 - 2) (2 ^ 31 - 2)
lagging-Holds = record {
  shape = record { log_size = 1; power = refl; wide = omega arith };
  slots = refl;
  room = omega arith;
  cells = lagging-Cells;
  write_word = refl;
  write_reached = omega arith;
  write_lag = omega arith;
  read_word = refl;
  read_reached = omega arith;
  read_lag = omega arith;
}
