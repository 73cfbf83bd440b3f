-- ===== src/Shared/Mapped.antt =====
-- shared_mpmc_queue.h: the file that processes map, a header and the queue behind it, and what a producer
-- and a consumer do with it, one call at a time.
use lockfree_mpmc_queue.Base.{ℕ, Option, none, some, List, [], ◌∷◌}
use lockfree_mpmc_queue.Base.Loop.{◌>>=◌}
use lockfree_mpmc_queue.Queue.{Config, Queue}
use lockfree_mpmc_queue.Queue.Init
use lockfree_mpmc_queue.Queue.Init.{construct, Construction, builds}
use lockfree_mpmc_queue.Queue.Push.{push_index}
use lockfree_mpmc_queue.Queue.Pop.{pop_index}
use lockfree_mpmc_queue.Queue.Calls.{push_keep_n_index}
use lockfree_mpmc_queue.Shared.{
  Header, Layout, Answers, exits, throws, creates, attaches, open_shared, Visit, visit,
}

-- What `_header` and `_qp` point to.
pub record Mapped : Type 0 where
  pub header : Header
  pub queue : Queue

-- `shared_mpmc_queue(fname)`, where `stored` stands at the queue's place in the file: `some none` is an
-- exit or an exception, `none` that the fuel of the queue's constructor ran out.
unfoldable pub open_mapped : ℕ → Config → Layout → Answers → Queue → Option (Option Mapped)
open_mapped fuel c l a stored = elim (open_shared l a) [
  | exits ↦ some none
  | throws ↦ some none
  | creates h ↦ elim (construct fuel l.elements c) [
    | none ↦ none
    | some Init.throws ↦ some none
    | some (builds q) ↦ some (some (record { header = h; queue = q }))
  ]
  | attaches h ↦ some (some (record { header = h; queue = stored }))
]

-- What a process asks of the file.
pub data Request : Type 0 where
  visits_it : Visit → Request
  pushes : ℕ → Request
  keeps : ℕ → Request
  pops : Request

pub data Answer : Type 0 where
  visited : Answer
  pushed : Option ℕ → Answer
  kept : ℕ → Answer
  popped : Option (ℕ × ℕ) → Answer

-- `producer::push(d, i)`, `producer::push_keep_n(d, i)` and `consumer::pop(d, i)` pass the call on.
unfoldable pub handle : ℕ → Mapped → Request → Option (Answer × Mapped)
handle fuel m (visits_it v) = some (visited, record m { header = visit m.header v })
handle fuel m (pushes d) = do
  (i, q) ← push_index fuel m.queue d
  some (pushed i, record m { queue = q })
handle fuel m (keeps d) = do
  (i, q) ← push_keep_n_index fuel fuel m.queue d
  some (kept i, record m { queue = q })
handle fuel m pops = do (got, q) ← pop_index fuel m.queue; some (popped got, record m { queue = q })

unfoldable pub handle_all : ℕ → Mapped → List Request → Option (List Answer × Mapped)
handle_all fuel m [] = some ([], m)
handle_all fuel m (r ∷ rs) = do
  (answer, m') ← handle fuel m r
  (answers, m'') ← handle_all fuel m' rs
  some (answer ∷ answers, m'')
