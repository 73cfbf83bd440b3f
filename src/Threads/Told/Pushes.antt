-- ===== src/Threads/Told/Pushes.antt =====
-- What a thread's callers are told of their pushes.
use lockfree_mpmc_queue.Base.{
  ℕ, ◌≡◌, refl, sym, ap, ◌∙◌, subst, inl, inr, true, false, Bool-cases, List, [], ◌∷◌, ◌++◌,
  if◌then◌else◌, ◌==◌,
}
use lockfree_mpmc_queue.Queue.{Queue, Entry, slot, empty_seq}
use lockfree_mpmc_queue.Queue.Push.{PushCase, insert, help, refuse, reload, push_case, fill}
use lockfree_mpmc_queue.Queue.Pop.{PopCase, take, pop_case, drain}
use lockfree_mpmc_queue.Queue.Peek.{peek_case}
use lockfree_mpmc_queue.Threads.{
  Look, peeking, popping_if, Pc, resting, push_load, push_read, push_swap, push_help, push_settle,
  pushed, push_refused, pop_load, pop_read, pop_swap, pop_help, pop_settle, popped, pop_refused,
  look_load, look_read, look_help, pop_if_swap, peeked, look_refused, empty_load, empty_read,
  answered, Event, silent, pushes, push_fails, pops, pop_fails, sees, sees_none, declines, pops_if,
  not_empty, Step, thread_step, System, Action, between_calls, execute,
}
use lockfree_mpmc_queue.Threads.History.{pushed_items}
use lockfree_mpmc_queue.Threads.Producer
use lockfree_mpmc_queue.Threads.Consumer
use lockfree_mpmc_queue.Threads.Looker.{after_look, look_read-after_look}
use lockfree_mpmc_queue.Threads.Returns.{Call, IsAnswered, accepted_at, accepted, placed, own}
use lockfree_mpmc_queue.Threads.Honest.{IsHonest}
use lockfree_mpmc_queue.Threads.Told.{Reading, is_first, told-items}

pushed_items-append :
    (es events : List Event) → pushed_items (es ++ events) ≡ pushed_items es ++ pushed_items events
pushed_items-append [] events = refl
pushed_items-append (silent ∷ es) events = pushed_items-append es events
pushed_items-append (pushes d i ∷ es) events = ap (λ xs. d ∷ xs) (pushed_items-append es events)
pushed_items-append (push_fails ∷ es) events = pushed_items-append es events
pushed_items-append (pops x i ∷ es) events = pushed_items-append es events
pushed_items-append (pop_fails ∷ es) events = pushed_items-append es events
pushed_items-append (sees x s ∷ es) events = pushed_items-append es events
pushed_items-append (sees_none ∷ es) events = pushed_items-append es events
pushed_items-append (declines g x s ∷ es) events = pushed_items-append es events
pushed_items-append (pops_if g x i ∷ es) events = pushed_items-append es events
pushed_items-append (not_empty w ∷ es) events = pushed_items-append es events

abbrev StepsPush : Pc → Step → Call → Type 0
StepsPush p t k =
    (if between_calls p then [] else accepted_at k t.pc) ++ placed t.pc
    ≡ placed p ++ pushed_items (t.event ∷ [])

push_after_look :
    (q : Queue) (k : Call) (l : Look) (w : ℕ) (c : PopCase)
    → StepsPush (look_read l w) (after_look q l w c) k
push_after_look q k peeking w take = refl
push_after_look q k (popping_if g) w take = elim (Bool-cases (g (slot q w).item (slot q w).seq)) [
  | inl wanted ↦ rw wanted refl
  | inr not_wanted ↦ rw not_wanted refl
]
push_after_look q k l w PopCase.help = refl
push_after_look q k l w PopCase.refuse = refl
push_after_look q k l w PopCase.reload = refl

push_after_push :
    (q : Queue) (k : Call) (d w : ℕ) (c : PushCase)
    → StepsPush (push_read d w) (Producer.after_read q d w c) k
push_after_push q k d w insert = refl
push_after_push q k d w help = refl
push_after_push q k d w refuse = refl
push_after_push q k d w reload = refl

push_after_pop :
    (q : Queue) (k : Call) (w : ℕ) (e : Entry) (c : PopCase)
    → StepsPush (pop_read w) (Consumer.after_read q w e c) k
push_after_pop q k w e take = refl
push_after_pop q k w e PopCase.help = refl
push_after_pop q k w e PopCase.refuse = refl
push_after_pop q k w e PopCase.reload = refl

push_steps : (q : Queue) (k : Call) (p : Pc) → IsAnswered p k → StepsPush p (thread_step q p) k
unfolding thread_step
push_steps q k resting h = refl
push_steps q k (push_load d) h = refl
push_steps q k (push_read d w) h = push_after_push q k d w (push_case q.config w (slot q w).seq)
push_steps q k (push_swap d w) h = elim (Bool-cases (fill q w d).0) [
  | inl won ↦ elim (Bool-cases q.lazy_push) [
    | inl lazy ↦ rw (won, lazy) (rw h refl)
    | inr eager ↦ rw (won, eager) refl
  ]
  | inr lost ↦ rw lost refl
]
push_steps q k (push_help d w) h = refl
push_steps q k (push_settle d w) h = rw h refl
push_steps q k (pushed w) h = refl
push_steps q k push_refused h = refl
push_steps q k pop_load h = refl
push_steps q k (pop_read w) h = push_after_pop q k w (slot q w) (pop_case q.config w (slot q w).seq)
push_steps q k (pop_swap w e) h = elim (Bool-cases (drain q w e).0) [
  | inl won ↦ elim (Bool-cases q.lazy_pop) [
    | inl lazy ↦ rw (won, lazy) refl
    | inr eager ↦ rw (won, eager) refl
  ]
  | inr lost ↦ rw lost refl
]
push_steps q k (pop_help w) h = refl
push_steps q k (pop_settle w x) h = refl
push_steps q k (popped x w) h = refl
push_steps q k pop_refused h = refl
push_steps q k (look_load l) h = refl
push_steps q k (look_read l w) h =
    let c = peek_case q.config w (slot q w).seq in
    subst (λ t. StepsPush (look_read l w) t k) (sym (look_read-after_look q l w c refl))
      (push_after_look q k l w c)
push_steps q k (look_help l w) h = refl
push_steps q k (pop_if_swap g w e) h = elim (Bool-cases (drain q w e).0) [
  | inl won ↦ elim (Bool-cases q.lazy_pop) [
    | inl lazy ↦ rw (won, lazy) refl
    | inr eager ↦ rw (won, eager) refl
  ]
  | inr lost ↦ rw lost refl
]
push_steps q k (peeked x s) h = refl
push_steps q k look_refused h = refl
push_steps q k empty_load h = refl
push_steps q k (empty_read w) h = elim (Bool-cases ((slot q w).seq == empty_seq q.config w)) [
  | inl waits ↦ rw waits refl
  | inr other ↦ rw other refl
]
push_steps q k (answered b) h = refl

accepted_at-rests : (k : Call) (p : Pc) → between_calls p ≡ false → accepted_at k p ≡ []
accepted_at-rests k (pushed w) busy = absurd (cc busy)
accepted_at-rests k p busy = refl

placed-starts : (p : Pc) → between_calls p ≡ true → placed p ≡ []
placed-starts (push_settle d w) free = absurd (cc free)
placed-starts p free = refl

placed-begins : (p : Pc) → is_first p ≡ true → placed p ≡ []
placed-begins (push_settle d w) first = absurd (cc first)
placed-begins p first = refl

abbrev push_reading : Reading
push_reading = record {
  at = accepted_at;
  holding = placed;
  items = pushed_items;
  items-append = pushed_items-append;
  items-nil = refl;
  begins = placed-begins;
  rests = accepted_at-rests;
  starts = placed-starts;
  steps = push_steps;
}

-- What a thread's steps have pushed is what its calls of push were told, and what one is about to be.
pub accepted-pushed_items :
    (i : ℕ) (schedule : List Action) (s : System) (calls : ℕ → Call)
    → IsHonest s calls
    → placed (s.pc i) ≡ []
    → let (t, events) = execute s schedule in
      accepted i s schedule calls ++ placed (t.pc i) ≡ pushed_items (own i schedule events)
accepted-pushed_items i schedule s calls h clear =
    told-items push_reading i schedule s calls h
    ∙ ap (λ xs. xs ++ pushed_items (own i schedule (execute s schedule).1)) clear
