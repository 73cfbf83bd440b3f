-- ===== src/Tests/Build.antt =====
-- The constructor at a good and at a bad size.
use lockfree_mpmc_queue.Base.{◌≡◌, refl, some, arith}
use lockfree_mpmc_queue.Fifo.{empty}
use lockfree_mpmc_queue.Queue.{Config, Queue}
use lockfree_mpmc_queue.Queue.Shape.{IsShape}
use lockfree_mpmc_queue.Queue.Serves.{Serves}
use lockfree_mpmc_queue.Queue.Init.{bits_loop, bits_for_value, bad_size, construct, builds, throws}
use lockfree_mpmc_queue.Queue.Init.Widths.{bad_size-IsShape}
use lockfree_mpmc_queue.Queue.Init.Fresh.{construct-Serves, construct-throws}
use lockfree_mpmc_queue.Tests.{two_slots}

construct-Serves_example :
    (q : Queue) × (construct 3 0 two_slots ≡ some (builds q)) × Serves two_slots q empty
construct-Serves_example =
    construct-Serves two_slots 3 (record { log_size = 1; power = refl; wide = omega arith })
      (omega arith) (omega arith)

abbrev six_slots : Config
six_slots = record two_slots { size = 6 }

not-IsShape-six : ¬ (IsShape six_slots)
unfolding bad_size bits_for_value bits_loop
not-IsShape-six s = cc (bad_size-IsShape six_slots s (omega arith))

construct-throws_example : construct 3 0 six_slots ≡ some throws
construct-throws_example = construct-throws six_slots 3 (omega arith) (omega arith) not-IsShape-six
