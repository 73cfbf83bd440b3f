-- ===== src/Tests/Calls.antt =====
-- The theorems on the calls of one client.
use lockfree_mpmc_queue.Base.{ℕ, ◌≤◌, ◌≡◌, ◌↔◌, Bool, true, List, [], ◌∷◌, some, arith, ◌==◌}
use lockfree_mpmc_queue.Fifo.{empty}
use lockfree_mpmc_queue.Queue.{Queue}
use lockfree_mpmc_queue.Queue.Serves.{Serves}
use lockfree_mpmc_queue.Queue.Push.Result.{Pushes, push_index-Pushes}
use lockfree_mpmc_queue.Queue.Pop.Result.{Pops, pop_index-Pops}
use lockfree_mpmc_queue.Queue.Peek.Result.{Peeks, peek_index-Peeks, PopsIf, pop_if-PopsIf}
use lockfree_mpmc_queue.Queue.Calls.{consume}
use lockfree_mpmc_queue.Queue.Calls.KeepN.{Keeps, push_keep_n_index-Keeps}
use lockfree_mpmc_queue.Queue.Calls.Consume.{consume-Consumes}
use lockfree_mpmc_queue.Queue.Client.{Call, put, get, run, answers, run-answers}
use lockfree_mpmc_queue.Queue.Glance.{is_empty, size_now}
use lockfree_mpmc_queue.Queue.Glance.Size.{size_now_iff, is_empty_iff}
use lockfree_mpmc_queue.Tests.{two_slots, fresh_queue, fresh-Serves}

push_index-Pushes_example : Pushes 2 two_slots fresh_queue empty 7
push_index-Pushes_example = push_index-Pushes empty 0 7 fresh-Serves

pop_index-Pops_example : Pops 2 two_slots fresh_queue empty
pop_index-Pops_example = pop_index-Pops empty 0 fresh-Serves

abbrev calls : List Call
calls = put 7 ∷ put 8 ∷ put 9 ∷ get ∷ get ∷ get ∷ []

run-answers_example : run 2 fresh_queue calls ≡ some (answers two_slots empty calls)
run-answers_example = run-answers 0 calls empty fresh-Serves

push_keep_n_index-Keeps_example :
    Keeps 2 2 two_slots fresh_queue 7 0 (record { read = 0; items = 7 ∷ [] })
push_keep_n_index-Keeps_example = push_keep_n_index-Keeps empty 0 0 7 fresh-Serves

abbrev stop_at_eight : ℕ → ℕ → Bool
stop_at_eight v i = v == 8

consume-Consumes_example :
    (q' : Queue) × (consume 2 1 stop_at_eight fresh_queue ≡ some (0, q'))
    × Serves two_slots q' empty
consume-Consumes_example = consume-Consumes empty stop_at_eight 0 1 fresh-Serves (omega arith)

peek_index-Peeks_example : Peeks 2 two_slots fresh_queue empty
peek_index-Peeks_example = peek_index-Peeks empty 0 fresh-Serves (omega arith)

pop_if-PopsIf_example : PopsIf 2 stop_at_eight two_slots fresh_queue empty
pop_if-PopsIf_example = pop_if-PopsIf empty stop_at_eight 0 fresh-Serves (omega arith)

size_now_iff_example : (size_now fresh_queue ≡ 0) ↔ (0 ≤ 0)
size_now_iff_example = size_now_iff fresh-Serves (omega arith) (omega arith)

is_empty_iff_example : (is_empty fresh_queue ≡ true) ↔ ((◌≡◌ {A = ℕ} 0 0) × (◌≡◌ {A = ℕ} 0 0))
is_empty_iff_example = is_empty_iff fresh-Serves
