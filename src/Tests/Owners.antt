-- ===== src/Tests/Owners.antt =====
-- A queue of pointers.
use lockfree_mpmc_queue.Base.{◌≡◌, [], some, arith}
use lockfree_mpmc_queue.Fifo.{empty}
use lockfree_mpmc_queue.Queue.{Queue}
use lockfree_mpmc_queue.Queue.Serves.{Serves}
use lockfree_mpmc_queue.Pointer.{pointer_destroy}
use lockfree_mpmc_queue.Pointer.Owned.{
  PushOwns, PopOwns, pointer_push-PushOwns, pointer_pop-PopOwns, pointer_destroy-objects,
}
use lockfree_mpmc_queue.Tests.{two_slots, fresh_queue, fresh-Serves}

pointer_push-PushOwns_example : PushOwns 2 two_slots fresh_queue empty 4096
pointer_push-PushOwns_example = pointer_push-PushOwns empty 0 4096 fresh-Serves

pointer_pop-PopOwns_example : PopOwns 2 two_slots fresh_queue empty 4096
pointer_pop-PopOwns_example = pointer_pop-PopOwns empty 0 4096 fresh-Serves

pointer_destroy-objects_example :
    (q' : Queue) × (pointer_destroy 2 1 fresh_queue ≡ some ([], q')) × Serves two_slots q' empty
pointer_destroy-objects_example = pointer_destroy-objects empty 0 1 fresh-Serves (omega arith)
