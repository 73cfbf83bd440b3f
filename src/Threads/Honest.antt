-- ===== src/Threads/Honest.antt =====
-- Every call of every thread returns what its own steps settled.
use lockfree_mpmc_queue.Base.{
  ℕ, refl, sym, subst, inl, inr, Bool, true, false, Bool-cases, [], some, update, if◌then◌else◌,
  ◌==◌,
}
use lockfree_mpmc_queue.Queue.{Queue, Entry, slot, empty_seq}
use lockfree_mpmc_queue.Queue.Push.{PushCase, insert, help, refuse, reload, push_case, fill}
use lockfree_mpmc_queue.Queue.Pop.{PopCase, take, pop_case, drain}
use lockfree_mpmc_queue.Queue.Peek.{peek_case}
use lockfree_mpmc_queue.Threads.{
  Look, peeking, popping_if, Pc, resting, push_load, push_read, push_swap, push_help, push_settle,
  pushed, push_refused, pop_load, pop_read, pop_swap, pop_help, pop_settle, popped, pop_refused,
  look_load, look_read, look_help, pop_if_swap, peeked, look_refused, empty_load, empty_read,
  answered, Step, thread_step, System, Action, turn, call_push, call_pop, call_peek, call_pop_if,
  call_empty, between_calls, perform, start_call,
}
use lockfree_mpmc_queue.Threads.Producer
use lockfree_mpmc_queue.Threads.Consumer
use lockfree_mpmc_queue.Threads.Looker.{after_look, look_read-after_look}
use lockfree_mpmc_queue.Threads.Returns.{
  Query, asks_push, asks_pop, asks_look, asks_empty, Call, settle, ask, called, IsAnswered,
}

-- What a step leaves of the call.
abbrev StepIsAnswered : Step → Call → Type 0
StepIsAnswered t k = IsAnswered t.pc (settle k t.event)

module _ (q : Queue) (k : Call) where
  push_read-IsAnswered :
      (d w : ℕ) (c : PushCase)
      → IsAnswered (push_read d w) k
      → StepIsAnswered (Producer.after_read q d w c) k
  push_read-IsAnswered d w insert h = h
  push_read-IsAnswered d w help h = h
  push_read-IsAnswered d w refuse h = (d, rw h refl)
  push_read-IsAnswered d w reload h = h

  pop_read-IsAnswered :
      (w : ℕ) (e : Entry) (c : PopCase)
      → IsAnswered (pop_read w) k
      → StepIsAnswered (Consumer.after_read q w e c) k
  pop_read-IsAnswered w e take h = h
  pop_read-IsAnswered w e PopCase.help h = h
  pop_read-IsAnswered w e PopCase.refuse h = rw h refl
  pop_read-IsAnswered w e PopCase.reload h = h

  look_read-IsAnswered :
      (l : Look) (w : ℕ) (c : PopCase)
      → IsAnswered (look_read l w) k
      → StepIsAnswered (after_look q l w c) k
  look_read-IsAnswered peeking w take h = rw h refl
  look_read-IsAnswered (popping_if g) w take h =
      elim (Bool-cases (g (slot q w).item (slot q w).seq)) [
        | inl wanted ↦ rw wanted h
        | inr not_wanted ↦ rw not_wanted (inr (g, (slot q w).item, (slot q w).seq, rw h refl))
      ]
  look_read-IsAnswered l w PopCase.help h = h
  look_read-IsAnswered l w PopCase.refuse h = inl (l, rw h refl)
  look_read-IsAnswered l w PopCase.reload h = h

  step-IsAnswered : (p : Pc) → IsAnswered p k → StepIsAnswered (thread_step q p) k
  unfolding thread_step
  step-IsAnswered resting h = h
  step-IsAnswered (push_load d) h = h
  step-IsAnswered (push_read d w) h =
      push_read-IsAnswered d w (push_case q.config w (slot q w).seq) h
  step-IsAnswered (push_swap d w) h = elim (Bool-cases (fill q w d).0) [
    | inl won ↦ elim (Bool-cases q.lazy_push) [
      | inl lazy ↦ rw (won, lazy) (d, rw h refl)
      | inr eager ↦ rw (won, eager) (rw h refl)
    ]
    | inr lost ↦ rw lost h
  ]
  step-IsAnswered (push_help d w) h = h
  step-IsAnswered (push_settle d w) h = (d, h)
  step-IsAnswered (pushed w) h = h
  step-IsAnswered push_refused h = h
  step-IsAnswered pop_load h = h
  step-IsAnswered (pop_read w) h =
      pop_read-IsAnswered w (slot q w) (pop_case q.config w (slot q w).seq) h
  step-IsAnswered (pop_swap w e) h = elim (Bool-cases (drain q w e).0) [
    | inl won ↦ elim (Bool-cases q.lazy_pop) [
      | inl lazy ↦ rw (won, lazy) (inl (rw h refl))
      | inr eager ↦ rw (won, eager) (inl (rw h refl))
    ]
    | inr lost ↦ rw lost h
  ]
  step-IsAnswered (pop_help w) h = h
  step-IsAnswered (pop_settle w x) h = h
  step-IsAnswered (popped x w) h = h
  step-IsAnswered pop_refused h = h
  step-IsAnswered (look_load l) h = h
  step-IsAnswered (look_read l w) h =
      let c = peek_case q.config w (slot q w).seq in
      subst (λ t. StepIsAnswered t k) (sym (look_read-after_look q l w c refl))
        (look_read-IsAnswered l w c h)
  step-IsAnswered (look_help l w) h = h
  step-IsAnswered (pop_if_swap g w e) h = elim (Bool-cases (drain q w e).0) [
    | inl won ↦ elim (Bool-cases q.lazy_pop) [
      | inl lazy ↦ rw (won, lazy) (inr (g, rw h refl))
      | inr eager ↦ rw (won, eager) (inr (g, rw h refl))
    ]
    | inr lost ↦ rw lost h
  ]
  step-IsAnswered (peeked x s) h = h
  step-IsAnswered look_refused h = h
  step-IsAnswered empty_load h = h
  step-IsAnswered (empty_read w) h = elim (Bool-cases ((slot q w).seq == empty_seq q.config w)) [
    | inl waits ↦ rw waits (rw h refl)
    | inr other ↦ rw other (w, rw h refl)
  ]
  step-IsAnswered (answered true) h = h
  step-IsAnswered (answered false) h = h

-- Every thread's place and its call.
abbrev pub IsHonest : System → (ℕ → Call) → Type 0
IsHonest s calls = (i : ℕ) → IsAnswered (s.pc i) (calls i)

module _ (s : System) (calls : ℕ → Call) (h : IsHonest s calls) where
  ask-IsHonest :
      (i : ℕ) (p : Pc) (r : Query)
      → IsAnswered p (record { query = some r; settled = [] })
      → IsHonest (start_call s i p) (ask s i r calls)
  unfolding start_call
  ask-IsHonest i p r first = either (between_calls (s.pc i))
    where
      either :
          (free : Bool) (j : ℕ)
          → IsAnswered
              ((if free then record s { pc = update s.pc i p } else s).pc j)
              ((if free then update calls i (record { query = some r; settled = [] }) else calls) j)
      either false j = h j
      either true j = elim (Bool-cases (i == j)) [
        | inl same ↦ rw same first
        | inr other ↦ rw other (h j)
      ]

  -- Whatever the scheduler chooses.
  pub perform-IsHonest : (a : Action) → IsHonest (perform s a).0 (called s a calls)
  unfolding perform
  perform-IsHonest (turn i) j = elim (Bool-cases (i == j)) [
    | inl same ↦ rw same (step-IsAnswered s.queue (calls i) (s.pc i) (h i))
    | inr other ↦ rw other (h j)
  ]
  perform-IsHonest (call_push i d) j = ask-IsHonest i (push_load d) (asks_push d) refl j
  perform-IsHonest (call_pop i) j = ask-IsHonest i pop_load asks_pop refl j
  perform-IsHonest (call_peek i) j = ask-IsHonest i (look_load peeking) (asks_look peeking) refl j
  perform-IsHonest (call_pop_if i g) j =
      ask-IsHonest i (look_load (popping_if g)) (asks_look (popping_if g)) refl j
  perform-IsHonest (call_empty i) j = ask-IsHonest i empty_load asks_empty refl j
