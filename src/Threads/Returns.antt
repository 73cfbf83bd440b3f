-- ===== src/Threads/Returns.antt =====
-- What the callers of concurrent calls are told: each call, with what its own steps have settled, and
-- what it returned.
use lockfree_mpmc_queue.Base.{
  ℕ, ◌≡◌, ◌⊎◌, Bool, true, false, List, [], ◌∷◌, ◌++◌, Option, none, some, update, if◌then◌else◌,
  ◌==◌,
}
use lockfree_mpmc_queue.Threads.{
  Look, peeking, popping_if, Pc, resting, push_load, push_read, push_swap, push_help, push_settle,
  pushed, push_refused, pop_load, pop_read, pop_swap, pop_help, pop_settle, popped, pop_refused,
  look_load, look_read, look_help, pop_if_swap, peeked, look_refused, empty_load, empty_read,
  answered, Event, silent, pushes, push_fails, pops, pop_fails, sees, sees_none, declines, pops_if,
  not_empty, System, Action, turn, call_push, call_pop, call_peek, call_pop_if, call_empty,
  between_calls, perform,
}

-- What a caller asks for.
pub data Query : Type 0 where
  asks_push : ℕ → Query
  asks_pop : Query
  asks_look : Look → Query
  asks_empty : Query

-- A thread's last call, and what its steps have settled so far, in order.
pub record Call : Type 0 where
  pub query : Option Query
  pub settled : List Event

abbrev pub no_call : Call
no_call = record { query = none; settled = [] }

-- A step that settles nothing is left out.
abbrev pub settle : Call → Event → Call
settle k silent = k
settle k e = record k { settled = k.settled ++ e ∷ [] }

-- A call begins only between calls.
abbrev pub ask : System → ℕ → Query → (ℕ → Call) → ℕ → Call
ask s i r calls =
    if between_calls (s.pc i)
    then update calls i (record { query = some r; settled = [] })
    else calls

-- The calls after an action on the system `s`.
abbrev pub called : System → Action → (ℕ → Call) → ℕ → Call
called s (turn i) calls = update calls i (settle (calls i) (perform s (turn i)).1)
called s (call_push i d) calls = ask s i (asks_push d) calls
called s (call_pop i) calls = ask s i asks_pop calls
called s (call_peek i) calls = ask s i (asks_look peeking) calls
called s (call_pop_if i g) calls = ask s i (asks_look (popping_if g)) calls
called s (call_empty i) calls = ask s i asks_empty calls

abbrev pub called_all : System → List Action → (ℕ → Call) → ℕ → Call
called_all s [] calls = calls
called_all s (a ∷ rest) calls = called_all (perform s a).0 rest (called s a calls)

abbrev call_of : Query → List Event → Call
call_of r events = record { query = some r; settled = events }

-- The thread has taken the element `x` of number `w`, by `pop` or by `pop_if`.
abbrev pub IsTaken : ℕ → ℕ → Call → Type 0
IsTaken x w k =
    (k ≡ call_of asks_pop (pops x w ∷ []))
    ⊎ ((g : ℕ → ℕ → Bool) × (k ≡ call_of (asks_look (popping_if g)) (pops_if g x w ∷ [])))

-- What a thread that stands here has settled: nothing while it looks for its moment, and then exactly
-- what it returns. A push that returned true has pushed its argument, under the number that it reports; a
-- pop has taken the element and the number that it reports, and so on.
abbrev pub IsAnswered : Pc → Call → Type 0
IsAnswered resting k = k ≡ no_call
IsAnswered (push_load d) k = k ≡ call_of (asks_push d) []
IsAnswered (push_read d w) k = k ≡ call_of (asks_push d) []
IsAnswered (push_swap d w) k = k ≡ call_of (asks_push d) []
IsAnswered (push_help d w) k = k ≡ call_of (asks_push d) []
IsAnswered (push_settle d w) k = k ≡ call_of (asks_push d) (pushes d w ∷ [])
IsAnswered (pushed w) k = (d : ℕ) × (k ≡ call_of (asks_push d) (pushes d w ∷ []))
IsAnswered push_refused k = (d : ℕ) × (k ≡ call_of (asks_push d) (push_fails ∷ []))
IsAnswered pop_load k = k ≡ call_of asks_pop []
IsAnswered (pop_read w) k = k ≡ call_of asks_pop []
IsAnswered (pop_swap w e) k = k ≡ call_of asks_pop []
IsAnswered (pop_help w) k = k ≡ call_of asks_pop []
IsAnswered (pop_settle w x) k = IsTaken x w k
IsAnswered (popped x w) k = IsTaken x w k
IsAnswered pop_refused k = k ≡ call_of asks_pop (pop_fails ∷ [])
IsAnswered (look_load l) k = k ≡ call_of (asks_look l) []
IsAnswered (look_read l w) k = k ≡ call_of (asks_look l) []
IsAnswered (look_help l w) k = k ≡ call_of (asks_look l) []
IsAnswered (pop_if_swap g w e) k = k ≡ call_of (asks_look (popping_if g)) []
IsAnswered (peeked x s) k = k ≡ call_of (asks_look peeking) (sees x s ∷ [])
IsAnswered look_refused k =
    ((l : Look) × (k ≡ call_of (asks_look l) (sees_none ∷ [])))
    ⊎ ((g : ℕ → ℕ → Bool) × (x : ℕ) × (s : ℕ) × (k
          ≡ call_of (asks_look (popping_if g)) (declines g x s ∷ [])))
IsAnswered empty_load k = k ≡ call_of asks_empty []
IsAnswered (empty_read w) k = k ≡ call_of asks_empty []
IsAnswered (answered true) k = k ≡ call_of asks_empty (sees_none ∷ [])
IsAnswered (answered false) k = (w : ℕ) × (k ≡ call_of asks_empty (not_empty w ∷ []))

-- What a return tells the caller: the argument of a push that returned true, or the element of a pop.
abbrev pub argument : Option Query → List ℕ
argument (some (asks_push d)) = d ∷ []
argument _ = []

abbrev pub accepted_at : Call → Pc → List ℕ
accepted_at k (pushed w) = argument k.query
accepted_at k _ = []

abbrev pub taken_at : Call → Pc → List ℕ
taken_at k (popped x w) = x ∷ []
taken_at k _ = []

-- What a thread is told by an action, if it is in a call before it.
abbrev pub newly : (Call → Pc → List ℕ) → ℕ → System → Action → (ℕ → Call) → List ℕ
newly at i s a calls = if between_calls (s.pc i) then [] else at (calls i) ((perform s a).0.pc i)

-- What it is told over a schedule, in order.
unfoldable pub told : (Call → Pc → List ℕ) → ℕ → System → List Action → (ℕ → Call) → List ℕ
told at i s [] calls = []
told at i s (a ∷ rest) calls =
    newly at i s a calls ++ told at i (perform s a).0 rest (called s a calls)

-- The arguments of the pushes that returned true, and the elements that the pops returned.
abbrev pub accepted : ℕ → System → List Action → (ℕ → Call) → List ℕ
accepted i s schedule calls = told accepted_at i s schedule calls

abbrev pub taken : ℕ → System → List Action → (ℕ → Call) → List ℕ
taken i s schedule calls = told taken_at i s schedule calls

-- What a thread has pushed or popped in a call that has not returned.
abbrev pub placed : Pc → List ℕ
placed (push_settle d w) = d ∷ []
placed _ = []

abbrev pub in_hand : Pc → List ℕ
in_hand (pop_settle w x) = x ∷ []
in_hand _ = []

-- The events of one thread.
abbrev pub own_event : ℕ → Action → Event → List Event
own_event i (turn j) e = if j == i then e ∷ [] else []
own_event i _ e = []

abbrev pub own : ℕ → List Action → List Event → List Event
own i (a ∷ schedule) (e ∷ events) = own_event i a e ++ own i schedule events
own i _ _ = []
