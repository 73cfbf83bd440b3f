-- ===== src/Queue/Client.antt =====
-- Any sequence of calls by one client, against the same calls of a bounded first-in first-out list.
use lockfree_mpmc_queue.Base.{ℕ, suc, ◌≡◌, refl, List, [], ◌∷◌, Option, some}
use lockfree_mpmc_queue.Base.Loop.{◌>>=◌}
use lockfree_mpmc_queue.Fifo
use lockfree_mpmc_queue.Fifo.{Fifo}
use lockfree_mpmc_queue.Queue.{Config, Queue}
use lockfree_mpmc_queue.Queue.Serves.{Serves}
use lockfree_mpmc_queue.Queue.Push.{push_index}
use lockfree_mpmc_queue.Queue.Push.Result.{push_reply, push_index-Pushes}
use lockfree_mpmc_queue.Queue.Pop.{pop_index}
use lockfree_mpmc_queue.Queue.Pop.Result.{pop_reply, pop_index-Pops}

pub data Call : Type 0 where
  put : ℕ → Call
  get : Call

-- What a call returns: the number of the element, or the element and its number, or a refusal.
pub data Reply : Type 0 where
  put_reply : Option ℕ → Reply
  get_reply : Option (ℕ × ℕ) → Reply

-- `push(d, i)` and `pop(d, i)` in the order of the list, each loop with the same fuel.
unfoldable pub run : ℕ → Queue → List Call → Option (List Reply)
run fuel q [] = some []
run fuel q (put d ∷ calls) = do
  (r, q') ← push_index fuel q d
  replies ← run fuel q' calls
  some (put_reply r ∷ replies)
run fuel q (get ∷ calls) = do
  (r, q') ← pop_index fuel q
  replies ← run fuel q' calls
  some (get_reply r ∷ replies)

-- The replies of the list itself.
abbrev pub answers : Config → Fifo → List Call → List Reply
answers c f [] = []
answers c f (put d ∷ calls) = put_reply (push_reply c f) ∷ answers c (Fifo.push c.size f d) calls
answers c f (get ∷ calls) = get_reply (pop_reply c f) ∷ answers c (Fifo.pop f) calls

-- No sequence of calls tells the queue from the list, with fuel for two rounds of each loop: for
-- every width of the index, every size, lazy or not, and from wherever the indexes stand.
pub run-answers :
    {c : Config} (fuel : ℕ) (calls : List Call) {q : Queue} (f : Fifo)
    → Serves c q f
    → run (suc (suc fuel)) q calls ≡ some (answers c f calls)
unfolding run
run-answers fuel [] f s = refl
run-answers {c} fuel (put d ∷ calls) f s =
    let (q', returns, serves) = push_index-Pushes f fuel d s in
    rw returns (rw (run-answers fuel calls (Fifo.push c.size f d) serves) refl)
run-answers {c} fuel (get ∷ calls) f s =
    let (q', returns, serves) = pop_index-Pops f fuel s in
    rw returns (rw (run-answers fuel calls (Fifo.pop f) serves) refl)
