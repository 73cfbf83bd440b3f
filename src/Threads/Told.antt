-- ===== src/Threads/Told.antt =====
-- What a thread's callers are told, against what its steps have pushed and popped.
pub mod Pushes
pub mod Pops
use mathlib.Core.List.{append-nil, append_assoc}
use lockfree_mpmc_queue.Base.{
  ℕ, ◌≡◌, refl, sym, ap, ◌∙◌, subst, inl, inr, Bool, true, false, Bool-cases, List, [], ◌∷◌, ◌++◌,
  Option, none, some, update, if◌then◌else◌, ◌==◌, ==_of_eq, eq_of_==, arith,
}
use lockfree_mpmc_queue.Queue.{Queue, Entry, slot, empty_seq}
use lockfree_mpmc_queue.Queue.Push.{PushCase, insert, help, refuse, reload, push_case, fill}
use lockfree_mpmc_queue.Queue.Pop.{PopCase, take, pop_case, drain}
use lockfree_mpmc_queue.Queue.Peek.{peek_case}
use lockfree_mpmc_queue.Threads.{
  Look, peeking, popping_if, Pc, resting, push_load, push_read, push_swap, push_help, push_settle,
  pushed, push_refused, pop_load, pop_read, pop_swap, pop_help, pop_settle, popped, pop_refused,
  look_load, look_read, look_help, pop_if_swap, peeked, look_refused, empty_load, empty_read,
  answered, Event, silent, pushes, push_fails, pops, pop_fails, sees, sees_none, declines, pops_if,
  not_empty, Step, thread_step, System, Action, turn, call_push, call_pop, call_peek, call_pop_if,
  call_empty, between_calls, perform, start_call, execute,
}
use lockfree_mpmc_queue.Threads.History.{pushed_items, popped_items}
use lockfree_mpmc_queue.Threads.Producer
use lockfree_mpmc_queue.Threads.Consumer
use lockfree_mpmc_queue.Threads.Looker.{after_look, look_read-after_look}
use lockfree_mpmc_queue.Threads.Returns.{
  Call, called, IsAnswered, argument, accepted_at, taken_at, newly, told, accepted, taken, placed,
  in_hand, own_event, own,
}
use lockfree_mpmc_queue.Threads.Honest.{IsHonest, perform-IsHonest}

-- The places where calls begin.
abbrev is_first : Pc → Bool
is_first (push_load d) = true
is_first pop_load = true
is_first (look_load l) = true
is_first empty_load = true
is_first _ = false

-- A way to read the events of a thread: what it is told at a return, what a running call holds, and what
-- the events say.
record Reading : Type 0 where
  at : Call → Pc → List ℕ
  holding : Pc → List ℕ
  items : List Event → List ℕ
  items-append : (es events : List Event) → items (es ++ events) ≡ items es ++ items events
  items-nil : items [] ≡ []
  begins : (p : Pc) → is_first p ≡ true → holding p ≡ []
  rests : (k : Call) (p : Pc) → between_calls p ≡ false → at k p ≡ []
  starts : (p : Pc) → between_calls p ≡ true → holding p ≡ []
  steps :
      (q : Queue) (k : Call) (p : Pc)
      → IsAnswered p k
      → let t = thread_step q p in
        (if between_calls p then [] else at k t.pc) ++ holding t.pc
        ≡ holding p ++ items (t.event ∷ [])

module _ (r : Reading) (i : ℕ) (s : System) (calls : ℕ → Call) (h : IsHonest s calls) where
  unchanged :
      (if between_calls (s.pc i) then [] else r.at (calls i) (s.pc i)) ++ r.holding (s.pc i)
      ≡ r.holding (s.pc i) ++ r.items []
  unchanged = elim (Bool-cases (between_calls (s.pc i))) [
    | inl free ↦ rw (free, r.items-nil) (sym (append-nil (r.holding (s.pc i))))
    | inr busy ↦
        rw (busy, r.rests (calls i) (s.pc i) busy, r.items-nil)
          (sym (append-nil (r.holding (s.pc i))))
  ]

  -- A call that starts, or that does not since another runs.
  at_start :
      (j : ℕ) (p : Pc)
      → r.holding p ≡ []
      → (if between_calls (s.pc i) then [] else r.at (calls i) ((start_call s j p).pc i))
          ++ r.holding ((start_call s j p).pc i)
        ≡ r.holding (s.pc i) ++ r.items []
  unfolding start_call
  at_start j p first = elim (Bool-cases (between_calls (s.pc j))) [
    | inr busy ↦ rw busy unchanged
    | inl free ↦ elim (Bool-cases (j == i)) [
      | inr other ↦ rw (free, other) unchanged
      | inl same ↦
          let here : between_calls (s.pc i) ≡ true =
            subst (λ j. between_calls (s.pc j) ≡ true) (eq_of_== j i same) free in
          rw (free, same, here, first, r.items-nil, r.starts (s.pc i) here) refl
    ]
  ]

  newly-items :
      (a : Action)
      → newly r.at i s a calls ++ r.holding ((perform s a).0.pc i)
        ≡ r.holding (s.pc i) ++ r.items (own_event i a (perform s a).1)
  unfolding perform
  newly-items (turn j) = elim (Bool-cases (j == i)) [
    | inr other ↦ rw other unchanged
    | inl same ↦
        rw (eq_of_== j i same, ==_of_eq i i refl) (r.steps s.queue (calls i) (s.pc i) (h i))
  ]
  newly-items (call_push j d) = at_start j (push_load d) (r.begins (push_load d) refl)
  newly-items (call_pop j) = at_start j pop_load (r.begins pop_load refl)
  newly-items (call_peek j) = at_start j (look_load peeking) (r.begins (look_load peeking) refl)
  newly-items (call_pop_if j g) =
      at_start j (look_load (popping_if g)) (r.begins (look_load (popping_if g)) refl)
  newly-items (call_empty j) = at_start j empty_load (r.begins empty_load refl)

-- Over a schedule.
told-items :
    (r : Reading) (i : ℕ) (schedule : List Action) (s : System) (calls : ℕ → Call)
    → IsHonest s calls
    → let (t, events) = execute s schedule in
      told r.at i s schedule calls ++ r.holding (t.pc i)
      ≡ r.holding (s.pc i) ++ r.items (own i schedule events)
unfolding told execute
told-items r i [] s calls h = rw r.items-nil (sym (append-nil (r.holding (s.pc i))))
told-items r i (a ∷ rest) s calls h =
    let now = newly r.at i s a calls in
    let s' = (perform s a).0 in
    let calls' = called s a calls in
    let first = newly-items r i s calls h a in
    let later = told-items r i rest s' calls' (perform-IsHonest s calls h a) in
    append_assoc now (told r.at i s' rest calls') _
    ∙ ap (λ xs. now ++ xs) later
    ∙ sym (append_assoc now (r.holding (s'.pc i)) _)
    ∙ ap (λ xs. xs ++ r.items (own i rest (execute s' rest).1)) first
    ∙ append_assoc (r.holding (s.pc i)) _ _
    ∙ ap (λ xs. r.holding (s.pc i) ++ xs) (sym (r.items-append (own_event i a (perform s a).1) _))
