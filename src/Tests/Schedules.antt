-- ===== src/Tests/Schedules.antt =====
-- Two threads on the queue of two slots: their steps interleave, and a pop helps a push along.
use lockfree_mpmc_queue.Base.{ℕ, refl, ◌==◌, true, ◌≡◌, List, [], ◌∷◌, ◌++◌, arith}
use lockfree_mpmc_queue.Fifo.{empty}
use lockfree_mpmc_queue.Queue.{slot, advance_write, advance_read, compare_exchange}
use lockfree_mpmc_queue.Queue.Push.{push_case, fill}
use lockfree_mpmc_queue.Queue.Pop.{pop_case, drain}
use lockfree_mpmc_queue.Queue.Peek.{peek_case}
use lockfree_mpmc_queue.Queue.Serves.{Serves}
use lockfree_mpmc_queue.Threads.{
  System, Action, turn, call_push, call_pop, call_peek, call_pop_if, call_empty, silent, pushes,
  sees, pops_if, not_empty, execute, perform, between_calls, start_call, thread_step,
}
use lockfree_mpmc_queue.Threads.History.{IsLegal, after_all, pushed_items, popped_items}
use lockfree_mpmc_queue.Threads.Returns.{
  Call, called, called_all, own, accepted, taken, placed, in_hand, told,
}
use lockfree_mpmc_queue.Threads.Honest.{IsHonest}
use lockfree_mpmc_queue.Threads.Safe.{Performed, perform-Safe}
use lockfree_mpmc_queue.Threads.Linear.{
  all_resting, execute-IsLegal, execute-order, Serves-Safe, no_calls,
}
use lockfree_mpmc_queue.Threads.Alone.Result.{turns_of, execute-finishes}
use lockfree_mpmc_queue.Tests.{two_slots, fresh_queue, fresh-Serves}

abbrev schedule : List Action
schedule =
    call_push 0 7
    ∷ call_push 1 8
    ∷ turn 0
    ∷ turn 1
    ∷ turn 0
    ∷ turn 1
    ∷ turn 0
    ∷ turn 1
    ∷ call_pop 2
    ∷ turn 2
    ∷ turn 2
    ∷ turn 2
    ∷ turn 1
    ∷ turn 1
    ∷ turn 1
    ∷ turn 1
    ∷ turn 1
    ∷ turn 0
    ∷ []

execute-order_example :
    let (t, events) = execute (all_resting fresh_queue) schedule in
    let left = (after_all two_slots empty events).items in
    Serves two_slots t.queue (after_all two_slots empty events)
    × ([] ++ pushed_items events ≡ popped_items events ++ left)
    × ((i : ℕ)
        → (accepted i (all_resting fresh_queue) schedule no_calls ++ placed (t.pc i)
            ≡ pushed_items (own i schedule events))
          × (taken i (all_resting fresh_queue) schedule no_calls ++ in_hand (t.pc i)
              ≡ popped_items (own i schedule events)))
execute-order_example = execute-order empty schedule fresh-Serves (omega arith)

-- The first producer was told, the second tries again, and the consumer is about to return the element.
schedule_told :
    (accepted 0 (all_resting fresh_queue) schedule no_calls ≡ 7 ∷ [])
    × (accepted 1 (all_resting fresh_queue) schedule no_calls ≡ [])
    × (in_hand ((execute (all_resting fresh_queue) schedule).0.pc 2) ≡ 7 ∷ [])
unfolding told execute perform start_call thread_step slot advance_write advance_read
    compare_exchange push_case fill pop_case drain peek_case
schedule_told = (refl, refl, refl)

abbrev asked : System
asked = (perform (all_resting fresh_queue) (call_push 0 7)).0

abbrev asked_calls : ℕ → Call
asked_calls = called (all_resting fresh_queue) (call_push 0 7) no_calls

asked-Safe :
    Performed two_slots 0 empty (perform (all_resting fresh_queue) (call_push 0 7))
    × IsHonest asked asked_calls
asked-Safe =
    perform-Safe (call_push 0 7) no_calls (Serves-Safe fresh-Serves) (omega arith) (λ i. refl)

perform-Safe_example :
    Performed two_slots 0 empty (perform asked (turn 0))
    × IsHonest (perform asked (turn 0)).0 (called asked (turn 0) asked_calls)
unfolding perform
perform-Safe_example = perform-Safe (turn 0) asked_calls asked-Safe.0.1 (omega arith) asked-Safe.1

-- A consumer looks at the oldest element while another takes it, and asks for it on a condition.
abbrev looking_on : List Action
looking_on =
    call_push 0 7
    ∷ turn 0
    ∷ turn 0
    ∷ turn 0
    ∷ call_peek 1
    ∷ turn 1
    ∷ turn 1
    ∷ turn 0
    ∷ call_pop_if 2 (λ x s. x == 7)
    ∷ turn 2
    ∷ turn 2
    ∷ call_empty 3
    ∷ turn 3
    ∷ turn 3
    ∷ turn 2
    ∷ call_empty 3
    ∷ turn 3
    ∷ call_peek 1
    ∷ turn 1
    ∷ turn 1
    ∷ []

looking_on_events : (execute (all_resting fresh_queue) looking_on).1 ≡ (
    silent
    ∷ silent
    ∷ silent
    ∷ pushes 7 0
    ∷ silent
    ∷ silent
    ∷ sees 7 1
    ∷ silent
    ∷ silent
    ∷ silent
    ∷ silent
    ∷ silent
    ∷ silent
    ∷ not_empty 0
    ∷ pops_if (λ x s. x == 7) 7 0
    ∷ silent
    ∷ silent
    ∷ silent
    ∷ silent
    ∷ silent
    ∷ [])
unfolding execute perform start_call thread_step slot advance_write advance_read compare_exchange
    push_case fill pop_case drain peek_case
looking_on_events = refl

-- Thread 1 is in the loop of `peek`, thread 2 emptied the slot and did not advance the index.
execute-finishes_example :
    between_calls ((execute (execute (all_resting fresh_queue) looking_on).0 (turns_of 1 9)).0.pc 1)
    ≡ true
unfolding execute perform start_call thread_step slot advance_write advance_read compare_exchange
    push_case fill pop_case drain peek_case
execute-finishes_example =
    execute-finishes empty looking_on 1 fresh-Serves (omega arith) (λ _. omega arith)

execute-IsLegal_example :
    let (t, events) = execute (all_resting fresh_queue) looking_on in
    IsLegal two_slots empty events
    × Serves two_slots t.queue (after_all two_slots empty events)
    × IsHonest t (called_all (all_resting fresh_queue) looking_on no_calls)
execute-IsLegal_example = execute-IsLegal empty looking_on fresh-Serves (omega arith)
