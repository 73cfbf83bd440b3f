-- ===== src/Threads/Linear.antt =====
-- Schedules of threads and the histories that they give.
use mathlib.Core.List.{append-nil, append_assoc}
use lockfree_mpmc_queue.Base.{
  refl, ℕ, ◌+◌, ◌-◌, ◌*◌, ◌^◌, ◌≤◌, ◌≡◌, ◌∙◌, sym, ap, List, [], ◌∷◌, ◌++◌, length, arith, some,
}
use lockfree_mpmc_queue.Fifo
use lockfree_mpmc_queue.Fifo.{Fifo, next, has_room, head?}
use lockfree_mpmc_queue.Queue.{Config, Queue}
use lockfree_mpmc_queue.Queue.Serves.{Serves}
use lockfree_mpmc_queue.Threads.{
  System, Action, Event, silent, pushes, push_fails, pops, pop_fails, sees, sees_none, declines,
  pops_if, not_empty, resting, perform, execute,
}
use lockfree_mpmc_queue.Threads.History.{IsLegal, after_all, pushed_items, popped_items}
use lockfree_mpmc_queue.Threads.Returns.{
  Call, no_call, called, called_all, own, accepted, taken, placed, in_hand,
}
use lockfree_mpmc_queue.Threads.Honest.{IsHonest}
use lockfree_mpmc_queue.Threads.Told.Pushes.{accepted-pushed_items}
use lockfree_mpmc_queue.Threads.Told.Pops.{taken-popped_items}
use lockfree_mpmc_queue.Threads.Safe.{Safe, perform-Safe, after-grows}

-- The indexes that a thread may still go by differ by less than half the range of a word, over a
-- schedule of `n` actions from the list `f`.
abbrev pub HasRange : Config → ℕ → Fifo → ℕ → Type 0
HasRange c base f n = (next f + n) * 2 + c.size * 4 ≤ base * 2 + 2 ^ c.bits

execute-Safe :
    {c : Config} {base : ℕ} (schedule : List Action) {f : Fifo} {s : System} (calls : ℕ → Call)
    → Safe c base s f
    → HasRange c base f (length schedule)
    → IsHonest s calls
    → let (t, events) = execute s schedule in
      IsLegal c f events
      × Safe c base t (after_all c f events)
      × IsHonest t (called_all s schedule calls)
unfolding execute
execute-Safe [] calls v range h = (tt, v, h)
execute-Safe {c} {base} (a ∷ rest) {f} {s} calls v range h =
    let ((permits, safe), honest) = perform-Safe a calls v (omega arith) h in
    let (legal, end, honest') =
      execute-Safe rest (called s a calls) safe (omega (arith, after-grows c f (perform s a).1))
        honest in
    ((permits, legal), end, honest')

-- A queue with no call running.
abbrev pub all_resting : Queue → System
all_resting q = record { queue = q; pc = λ _. resting }

pub Serves-Safe :
    {c : Config} {q : Queue} {f : Fifo} → Serves c q f → Safe c (f.read - 1) (all_resting q) f
Serves-Safe s = record {
  wr = s.wr;
  rd = s.rd;
  config_is = s.config_is;
  holds = s.holds;
  since_wr = omega (arith, s.holds.write_lag);
  since_rd = omega (arith, s.holds.read_lag);
  fresh = λ i. tt;
}

-- No thread has called anything yet.
abbrev pub no_calls : ℕ → Call
no_calls i = no_call

-- From a queue that serves a list, every schedule of threads in `push`, `pop`, `peek`, `pop_if` and
-- `empty` gives a legal history of that list, memory serves the list at its end, and every thread's
-- call is answered by the history: one that has returned has settled exactly one event since it began,
-- with the arguments it was given and the result that it returned, and one that has not has settled none,
-- or the event of the result that it is about to return. An empty() that returns false says no more than
-- that the list holds an element or that the read index that it loaded is not the number of the next pop.
-- The schedule is shorter than half the range of an index, less the size twice and the elements at hand.
pub execute-IsLegal :
    {c : Config} {q : Queue} (f : Fifo) (schedule : List Action)
    → Serves c q f
    → (length f.items + length schedule + 1) * 2 + c.size * 4 ≤ 2 ^ c.bits
    → let (t, events) = execute (all_resting q) schedule in
      IsLegal c f events
      × Serves c t.queue (after_all c f events)
      × IsHonest t (called_all (all_resting q) schedule no_calls)
execute-IsLegal {c} {q} f schedule s range =
    let (legal, safe, honest) =
      execute-Safe schedule no_calls (Serves-Safe s) (omega arith) (λ i. refl) in
    (
      legal,
      record { wr = safe.wr; rd = safe.rd; config_is = safe.config_is; holds = safe.holds },
      honest,
    )

head?-items :
    (h : ℕ) (xs : List ℕ) (x : ℕ)
    → head? (record { read = h; items = xs }) ≡ some x
    → xs ≡ x ∷ (Fifo.pop (record { read = h; items = xs })).items
head?-items h [] x e = cc
head?-items h (y ∷ ys) x e = cc

-- In a legal history the elements come out in the order in which they went in, each once: those at
-- hand and those pushed are those popped, followed by those left.
IsLegal-order :
    (c : Config) (events : List Event) (f : Fifo)
    → IsLegal c f events
    → f.items ++ pushed_items events ≡ popped_items events ++ (after_all c f events).items
IsLegal-order c [] f legal = append-nil f.items
IsLegal-order c (silent ∷ events) f (p, legal) = IsLegal-order c events f legal
IsLegal-order c (pushes d i ∷ events) f (p, legal) =
    sym (append_assoc f.items (d ∷ []) (pushed_items events))
    ∙ ap (λ (g : Fifo). g.items ++ pushed_items events) (sym grown)
    ∙ IsLegal-order c events (Fifo.push c.size f d) legal
  where
    grown : Fifo.push c.size f d ≡ record f { items = f.items ++ d ∷ [] }
    grown = rw p.0
IsLegal-order c (push_fails ∷ events) f (p, legal) = IsLegal-order c events f legal
IsLegal-order c (pops x i ∷ events) f (p, legal) =
    ap (λ xs. xs ++ pushed_items events) (head?-items f.read f.items x p.0)
    ∙ ap (λ xs. x ∷ xs) (IsLegal-order c events (Fifo.pop f) legal)
IsLegal-order c (pop_fails ∷ events) f (p, legal) = IsLegal-order c events f legal
IsLegal-order c (sees x s ∷ events) f (p, legal) = IsLegal-order c events f legal
IsLegal-order c (sees_none ∷ events) f (p, legal) = IsLegal-order c events f legal
IsLegal-order c (declines g x s ∷ events) f (p, legal) = IsLegal-order c events f legal
IsLegal-order c (not_empty w ∷ events) f (p, legal) = IsLegal-order c events f legal
IsLegal-order c (pops_if g x i ∷ events) f (p, legal) =
    ap (λ xs. xs ++ pushed_items events) (head?-items f.read f.items x p.0)
    ∙ ap (λ xs. x ∷ xs) (IsLegal-order c events (Fifo.pop f) legal)

-- From a queue that serves a list, under a schedule shorter than half the range of an index, less the size
-- twice and the elements at hand: the elements at hand and those pushed, in order, are those popped, in
-- order, followed by those left in memory. For each thread, what it has pushed is the arguments of its
-- calls of push that returned true, in order, and of the one that is about to; and what it has popped is
-- the elements that its calls of pop and pop_if returned, in order, and the one that it is about to
-- return. So no element is lost, repeated or overtaken.
pub execute-order :
    {c : Config} {q : Queue} (f : Fifo) (schedule : List Action)
    → Serves c q f
    → (length f.items + length schedule + 1) * 2 + c.size * 4 ≤ 2 ^ c.bits
    → let (t, events) = execute (all_resting q) schedule in
      let left = (after_all c f events).items in
      Serves c t.queue (after_all c f events)
      × (f.items ++ pushed_items events ≡ popped_items events ++ left)
      × ((i : ℕ)
          → (accepted i (all_resting q) schedule no_calls ++ placed (t.pc i)
              ≡ pushed_items (own i schedule events))
            × (taken i (all_resting q) schedule no_calls ++ in_hand (t.pc i)
                ≡ popped_items (own i schedule events)))
execute-order {c} {q} f schedule s range =
    let (legal, serves, honest) = execute-IsLegal f schedule s range in
    (
      serves,
      IsLegal-order c (execute (all_resting q) schedule).1 f legal,
      λ i. (
        accepted-pushed_items i schedule (all_resting q) no_calls (λ j. refl) refl,
        taken-popped_items i schedule (all_resting q) no_calls (λ j. refl) refl,
      ),
    )
