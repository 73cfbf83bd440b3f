-- ===== src/Tests/Exchanges.antt =====
-- A queue of one element, whose push has not moved the write index yet.
use lockfree_mpmc_queue.Base.{[], ◌∷◌, arith, refl, ◌≡◌}
use lockfree_mpmc_queue.Fifo.{Fifo}
use lockfree_mpmc_queue.Queue.{Queue}
use lockfree_mpmc_queue.Queue.Atomic.{filled, Holds-filled}
use lockfree_mpmc_queue.Queue.Serves.{Serves, Serves-refl}
use lockfree_mpmc_queue.Queue.Glance.Exchange.{Exchanges, exchange-Exchanges}
use lockfree_mpmc_queue.Queue.Glance.{data_entries_count}
use lockfree_mpmc_queue.Queue.Glance.Counted.{data_entries_count-length}
use lockfree_mpmc_queue.Tests.{two_slots, fresh_queue, fresh-Holds}

abbrev seven : Fifo
seven = record { read = 0; items = 7 ∷ [] }

abbrev occupied_queue : Queue
occupied_queue = filled fresh_queue 0 7

occupied-Serves : Serves two_slots occupied_queue seven
occupied-Serves = Serves-refl seven (Holds-filled 7 fresh-Holds (omega arith) refl)

exchange-Exchanges_example : Exchanges two_slots occupied_queue seven 0 7 9
exchange-Exchanges_example = exchange-Exchanges seven 0 7 9 occupied-Serves (omega arith)

data_entries_count-length_example : data_entries_count occupied_queue ≡ 1
data_entries_count-length_example = data_entries_count-length seven occupied-Serves (omega arith)
