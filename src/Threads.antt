-- ===== src/Threads.antt =====
-- mpmc_queue.h under concurrent use: threads that run `push`, `pop`, `peek`, `pop_if` and `empty` on one
-- queue, one access to shared memory at a time, in any order. The steps are those of Queue.Push,
-- Queue.Pop and Queue.Peek.
pub mod History
pub mod Fresh
pub mod Producer
pub mod Consumer
pub mod Sights
pub mod Looker
pub mod Returns
pub mod Honest
pub mod Told
pub mod Safe
pub mod Linear
pub mod Alone
use mathlib.Core.Logic.{ite}
use lockfree_mpmc_queue.Base.{ℕ, Bool, true, false, List, [], ◌∷◌, update, if◌then◌else◌, ◌==◌}
use lockfree_mpmc_queue.Queue.{Config, Entry, Queue, slot, advance_write, advance_read, empty_seq}
use lockfree_mpmc_queue.Queue.Push.{PushCase, insert, help, refuse, reload, push_case, fill}
use lockfree_mpmc_queue.Queue.Pop.{PopCase, take, pop_case, drain}
use lockfree_mpmc_queue.Queue.Peek.{peek_case}

-- What the loop that looks at the oldest element is for: `peek`, or `pop_if` with its condition.
pub data Look : Type 0 where
  peeking : Look
  popping_if : (ℕ → ℕ → Bool) → Look

-- Where a thread stands, with the local variables that are live there.
pub data Pc : Type 0 where
  resting : Pc  -- no call is running
  push_load : ℕ → Pc  -- head of the loop of `push(d)`
  push_read : ℕ → ℕ → Pc  -- `wr_index` is loaded, the slot is not
  push_swap : ℕ → ℕ → Pc  -- before the exchange of the slot
  push_help : ℕ → ℕ → Pc  -- before the index is advanced for another thread
  push_settle : ℕ → ℕ → Pc  -- the slot is filled, before the index is advanced
  pushed : ℕ → Pc  -- returned true, with the number in `i`
  push_refused : Pc  -- returned false
  pop_load : Pc  -- head of the loop of `pop(d)`
  pop_read : ℕ → Pc  -- `rd_index` is loaded, the slot is not
  pop_swap : ℕ → Entry → Pc  -- before the exchange of the slot for an empty one
  pop_help : ℕ → Pc
  pop_settle : ℕ → ℕ → Pc  -- the slot is emptied, before the index is advanced
  popped : ℕ → ℕ → Pc  -- returned true, with the element and its number
  pop_refused : Pc  -- returned false
  look_load : Look → Pc  -- head of the loop of `peek` or `pop_if`
  look_read : Look → ℕ → Pc  -- `rd_index` is loaded, the slot is not
  look_help : Look → ℕ → Pc
  pop_if_swap : (ℕ → ℕ → Bool) → ℕ → Entry → Pc  -- the condition holds, before the exchange
  peeked : ℕ → ℕ → Pc  -- `peek` returned true, with the element and the sequence
  look_refused : Pc  -- `peek` or `pop_if` returned false
  empty_load : Pc  -- head of `empty`
  empty_read : ℕ → Pc  -- `rd_index` is loaded, the slot is not
  answered : Bool → Pc  -- `empty` returned

-- What a step settles about the call that it belongs to.
pub data Event : Type 0 where
  silent : Event
  pushes : ℕ → ℕ → Event  -- the element, and the number that the call will report
  push_fails : Event
  pops : ℕ → ℕ → Event
  pop_fails : Event
  sees : ℕ → ℕ → Event  -- the oldest element, and the sequence of its entry
  sees_none : Event
  declines : (ℕ → ℕ → Bool) → ℕ → ℕ → Event  -- the condition of `pop_if` does not hold
  pops_if : (ℕ → ℕ → Bool) → ℕ → ℕ → Event  -- the element, and its number
  not_empty : ℕ → Event  -- `empty` finds no free slot at the index that it loaded

pub record Step : Type 0 where
  pub queue : Queue
  pub pc : Pc
  pub event : Event

abbrev silently : Queue → Pc → Step
silently q p = record { queue = q; pc = p; event = silent }

-- What `peek` and `pop_if` do with the entry of the oldest element.
abbrev pub after_sight : Queue → Look → ℕ → Entry → Step
after_sight q peeking rd e = record {
  queue = q;
  pc = peeked e.item e.seq;
  event = sees e.item e.seq;
}
after_sight q (popping_if g) rd e =
    if g e.item e.seq
    then silently q (pop_if_swap g rd e)
    else record { queue = q; pc = look_refused; event = declines g e.item e.seq }

-- One step of a thread that stands at the given place.
unfoldable pub thread_step : Queue → Pc → Step
thread_step q (push_load d) = silently q (push_read d q.write_index)
thread_step q (push_read d wr) = elim (push_case q.config wr (slot q wr).seq) [
  | insert ↦ silently q (push_swap d wr)
  | help ↦ silently q (push_help d wr)
  | refuse ↦ record { queue = q; pc = push_refused; event = push_fails }
  | reload ↦ silently q (push_load d)
]
thread_step q (push_swap d wr) =
    let (won, q') = fill q wr d in
    if won
    then record {
      queue = q';
      pc = if q.lazy_push then pushed wr else push_settle d wr;
      event = pushes d wr;
    }
    else silently q' (push_load d)
thread_step q (push_help d wr) = silently (advance_write q wr) (push_load d)
thread_step q (push_settle d wr) = silently (advance_write q wr) (pushed wr)
thread_step q pop_load = silently q (pop_read q.read_index)
thread_step q (pop_read rd) =
    let e = slot q rd in
    elim (pop_case q.config rd e.seq) [
      | take ↦ silently q (pop_swap rd e)
      | PopCase.help ↦ silently q (pop_help rd)
      | PopCase.refuse ↦ record { queue = q; pc = pop_refused; event = pop_fails }
      | PopCase.reload ↦ silently q pop_load
    ]
thread_step q (pop_swap rd e) =
    let (won, q') = drain q rd e in
    if won
    then record {
      queue = q';
      pc = if q.lazy_pop then popped e.item rd else pop_settle rd e.item;
      event = pops e.item rd;
    }
    else silently q' pop_load
thread_step q (pop_help rd) = silently (advance_read q rd) pop_load
thread_step q (pop_settle rd x) = silently (advance_read q rd) (popped x rd)
thread_step q (look_load k) = silently q (look_read k q.read_index)
thread_step q (look_read k rd) =
    let e = slot q rd in
    elim (peek_case q.config rd e.seq) [
      | take ↦ after_sight q k rd e
      | PopCase.help ↦ silently q (look_help k rd)
      | PopCase.refuse ↦ record { queue = q; pc = look_refused; event = sees_none }
      | PopCase.reload ↦ silently q (look_load k)
    ]
thread_step q (look_help k rd) = silently (advance_read q rd) (look_load k)
thread_step q (pop_if_swap g rd e) =
    let (won, q') = drain q rd e in
    if won
    then record {
      queue = q';
      pc = if q.lazy_pop then popped e.item rd else pop_settle rd e.item;
      event = pops_if g e.item rd;
    }
    else silently q' (look_load (popping_if g))
thread_step q empty_load = silently q (empty_read q.read_index)
thread_step q (empty_read rd) =
    if (slot q rd).seq == empty_seq q.config rd
    then record { queue = q; pc = answered true; event = sees_none }
    else record { queue = q; pc = answered false; event = not_empty rd }
thread_step q p = silently q p

pub record System : Type 0 where
  pub queue : Queue
  pub pc : ℕ → Pc

-- The scheduler's choice: a thread takes a step, or starts its next call.
pub data Action : Type 0 where
  turn : ℕ → Action
  call_push : ℕ → ℕ → Action
  call_pop : ℕ → Action
  call_peek : ℕ → Action
  call_pop_if : ℕ → (ℕ → ℕ → Bool) → Action
  call_empty : ℕ → Action

-- A thread starts a call only between calls.
abbrev pub between_calls : Pc → Bool
between_calls resting = true
between_calls (pushed _) = true
between_calls push_refused = true
between_calls (popped _ _) = true
between_calls pop_refused = true
between_calls (peeked _ _) = true
between_calls look_refused = true
between_calls (answered _) = true
between_calls _ = false

unfoldable pub start_call : System → ℕ → Pc → System
start_call s i p = if between_calls (s.pc i) then record s { pc = update s.pc i p } else s

unfoldable pub perform : System → Action → System × Event
perform s (turn i) =
    let t = thread_step s.queue (s.pc i) in
    (record { queue = t.queue; pc = update s.pc i t.pc }, t.event)
perform s (call_push i d) = (start_call s i (push_load d), silent)
perform s (call_pop i) = (start_call s i pop_load, silent)
perform s (call_peek i) = (start_call s i (look_load peeking), silent)
perform s (call_pop_if i g) = (start_call s i (look_load (popping_if g)), silent)
perform s (call_empty i) = (start_call s i empty_load, silent)

-- The system after a schedule, and what its steps settled, in order.
unfoldable pub execute : System → List Action → System × List Event
execute s [] = (s, [])
execute s (a ∷ rest) =
    let (t, e) = perform s a in let (u, events) = execute t rest in (u, e ∷ events)
