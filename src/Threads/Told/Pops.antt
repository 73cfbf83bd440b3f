-- ===== src/Threads/Told/Pops.antt =====
-- What a thread's callers are told of their pops.
use lockfree_mpmc_queue.Base.{
  ℕ, ◌≡◌, refl, sym, ap, ◌∙◌, subst, inl, inr, true, false, Bool-cases, List, [], ◌∷◌, ◌++◌,
  if◌then◌else◌, ◌==◌,
}
use lockfree_mpmc_queue.Queue.{Queue, Entry, slot, empty_seq}
use lockfree_mpmc_queue.Queue.Push.{PushCase, insert, help, refuse, reload, push_case, fill}
use lockfree_mpmc_queue.Queue.Pop.{PopCase, take, pop_case, drain}
use lockfree_mpmc_queue.Queue.Peek.{peek_case}
use lockfree_mpmc_queue.Threads.{
  Look, peeking, popping_if, Pc, resting, push_load, push_read, push_swap, push_help, push_settle,
  pushed, push_refused, pop_load, pop_read, pop_swap, pop_help, pop_settle, popped, pop_refused,
  look_load, look_read, look_help, pop_if_swap, peeked, look_refused, empty_load, empty_read,
  answered, Event, silent, pushes, push_fails, pops, pop_fails, sees, sees_none, declines, pops_if,
  not_empty, Step, thread_step, System, Action, between_calls, execute,
}
use lockfree_mpmc_queue.Threads.History.{popped_items}
use lockfree_mpmc_queue.Threads.Producer
use lockfree_mpmc_queue.Threads.Consumer
use lockfree_mpmc_queue.Threads.Looker.{after_look, look_read-after_look}
use lockfree_mpmc_queue.Threads.Returns.{Call, IsAnswered, taken_at, taken, in_hand, own}
use lockfree_mpmc_queue.Threads.Honest.{IsHonest}
use lockfree_mpmc_queue.Threads.Told.{Reading, is_first, told-items}

popped_items-append :
    (es events : List Event) → popped_items (es ++ events) ≡ popped_items es ++ popped_items events
popped_items-append [] events = refl
popped_items-append (silent ∷ es) events = popped_items-append es events
popped_items-append (pushes d i ∷ es) events = popped_items-append es events
popped_items-append (push_fails ∷ es) events = popped_items-append es events
popped_items-append (pops x i ∷ es) events = ap (λ xs. x ∷ xs) (popped_items-append es events)
popped_items-append (pop_fails ∷ es) events = popped_items-append es events
popped_items-append (sees x s ∷ es) events = popped_items-append es events
popped_items-append (sees_none ∷ es) events = popped_items-append es events
popped_items-append (declines g x s ∷ es) events = popped_items-append es events
popped_items-append (pops_if g x i ∷ es) events = ap (λ xs. x ∷ xs) (popped_items-append es events)
popped_items-append (not_empty w ∷ es) events = popped_items-append es events

abbrev StepsPop : Pc → Step → Call → Type 0
StepsPop p t k =
    (if between_calls p then [] else taken_at k t.pc) ++ in_hand t.pc
    ≡ in_hand p ++ popped_items (t.event ∷ [])

pop_after_look :
    (q : Queue) (k : Call) (l : Look) (w : ℕ) (c : PopCase)
    → StepsPop (look_read l w) (after_look q l w c) k
pop_after_look q k peeking w take = refl
pop_after_look q k (popping_if g) w take = elim (Bool-cases (g (slot q w).item (slot q w).seq)) [
  | inl wanted ↦ rw wanted refl
  | inr not_wanted ↦ rw not_wanted refl
]
pop_after_look q k l w PopCase.help = refl
pop_after_look q k l w PopCase.refuse = refl
pop_after_look q k l w PopCase.reload = refl

pop_after_push :
    (q : Queue) (k : Call) (d w : ℕ) (c : PushCase)
    → StepsPop (push_read d w) (Producer.after_read q d w c) k
pop_after_push q k d w insert = refl
pop_after_push q k d w help = refl
pop_after_push q k d w refuse = refl
pop_after_push q k d w reload = refl

pop_after_pop :
    (q : Queue) (k : Call) (w : ℕ) (e : Entry) (c : PopCase)
    → StepsPop (pop_read w) (Consumer.after_read q w e c) k
pop_after_pop q k w e take = refl
pop_after_pop q k w e PopCase.help = refl
pop_after_pop q k w e PopCase.refuse = refl
pop_after_pop q k w e PopCase.reload = refl

pop_steps : (q : Queue) (k : Call) (p : Pc) → IsAnswered p k → StepsPop p (thread_step q p) k
unfolding thread_step
pop_steps q k resting h = refl
pop_steps q k (push_load d) h = refl
pop_steps q k (push_read d w) h = pop_after_push q k d w (push_case q.config w (slot q w).seq)
pop_steps q k (push_swap d w) h = elim (Bool-cases (fill q w d).0) [
  | inl won ↦ elim (Bool-cases q.lazy_push) [
    | inl lazy ↦ rw (won, lazy) refl
    | inr eager ↦ rw (won, eager) refl
  ]
  | inr lost ↦ rw lost refl
]
pop_steps q k (push_help d w) h = refl
pop_steps q k (push_settle d w) h = refl
pop_steps q k (pushed w) h = refl
pop_steps q k push_refused h = refl
pop_steps q k pop_load h = refl
pop_steps q k (pop_read w) h = pop_after_pop q k w (slot q w) (pop_case q.config w (slot q w).seq)
pop_steps q k (pop_swap w e) h = elim (Bool-cases (drain q w e).0) [
  | inl won ↦ elim (Bool-cases q.lazy_pop) [
    | inl lazy ↦ rw (won, lazy) refl
    | inr eager ↦ rw (won, eager) refl
  ]
  | inr lost ↦ rw lost refl
]
pop_steps q k (pop_help w) h = refl
pop_steps q k (pop_settle w x) h = refl
pop_steps q k (popped x w) h = refl
pop_steps q k pop_refused h = refl
pop_steps q k (look_load l) h = refl
pop_steps q k (look_read l w) h =
    let c = peek_case q.config w (slot q w).seq in
    subst (λ t. StepsPop (look_read l w) t k) (sym (look_read-after_look q l w c refl))
      (pop_after_look q k l w c)
pop_steps q k (look_help l w) h = refl
pop_steps q k (pop_if_swap g w e) h = elim (Bool-cases (drain q w e).0) [
  | inl won ↦ elim (Bool-cases q.lazy_pop) [
    | inl lazy ↦ rw (won, lazy) refl
    | inr eager ↦ rw (won, eager) refl
  ]
  | inr lost ↦ rw lost refl
]
pop_steps q k (peeked x s) h = refl
pop_steps q k look_refused h = refl
pop_steps q k empty_load h = refl
pop_steps q k (empty_read w) h = elim (Bool-cases ((slot q w).seq == empty_seq q.config w)) [
  | inl waits ↦ rw waits refl
  | inr other ↦ rw other refl
]
pop_steps q k (answered b) h = refl

taken_at-rests : (k : Call) (p : Pc) → between_calls p ≡ false → taken_at k p ≡ []
taken_at-rests k (popped x w) busy = absurd (cc busy)
taken_at-rests k p busy = refl

in_hand-starts : (p : Pc) → between_calls p ≡ true → in_hand p ≡ []
in_hand-starts (pop_settle w x) free = absurd (cc free)
in_hand-starts p free = refl

in_hand-begins : (p : Pc) → is_first p ≡ true → in_hand p ≡ []
in_hand-begins (pop_settle w x) first = absurd (cc first)
in_hand-begins p first = refl

abbrev pop_reading : Reading
pop_reading = record {
  at = taken_at;
  holding = in_hand;
  items = popped_items;
  items-append = popped_items-append;
  items-nil = refl;
  begins = in_hand-begins;
  rests = taken_at-rests;
  starts = in_hand-starts;
  steps = pop_steps;
}

-- What a thread's steps have popped is what its calls returned, and what one is about to.
pub taken-popped_items :
    (i : ℕ) (schedule : List Action) (s : System) (calls : ℕ → Call)
    → IsHonest s calls
    → in_hand (s.pc i) ≡ []
    → let (t, events) = execute s schedule in
      taken i s schedule calls ++ in_hand (t.pc i) ≡ popped_items (own i schedule events)
taken-popped_items i schedule s calls h clear =
    told-items pop_reading i schedule s calls h
    ∙ ap (λ xs. xs ++ popped_items (own i schedule (execute s schedule).1)) clear
