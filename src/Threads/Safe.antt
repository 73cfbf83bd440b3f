-- ===== src/Threads/Safe.antt =====
-- The invariant of all threads, and the actions of the scheduler.
use lockfree_mpmc_queue.Base.{
  ℕ, ◌+◌, ◌≤◌, ◌≡◌, subst, Bool, true, false, List, [], ◌∷◌, length, ◌==◌, if◌then◌else◌, arith,
  length-append, Bool-cases, inl, inr, update,
}
use lockfree_mpmc_queue.Fifo
use lockfree_mpmc_queue.Fifo.{Fifo, next}
use lockfree_mpmc_queue.Queue.{Config, Queue}
use lockfree_mpmc_queue.Queue.Shape.{Holds}
use lockfree_mpmc_queue.Threads.{
  Pc, push_load, push_read, push_swap, push_help, push_settle, pop_load, pop_read, pop_swap,
  pop_help, pop_settle, look_load, look_read, look_help, pop_if_swap, empty_load, empty_read,
  peeking, popping_if, sees, sees_none, declines, pops_if, not_empty, call_peek, call_pop_if,
  call_empty, Event, silent, pushes, push_fails, pops, pop_fails, thread_step, System, Action, turn,
  call_push, call_pop, start_call, perform, between_calls,
}
use lockfree_mpmc_queue.Threads.History.{after, Permits}
use lockfree_mpmc_queue.Threads.Returns.{Call, called}
use lockfree_mpmc_queue.Threads.Honest.{IsHonest, perform-IsHonest}
use lockfree_mpmc_queue.Threads.Fresh.{IsRead, IsFresh, IsNear, Kept, Kept-silently}
use lockfree_mpmc_queue.Threads.Producer.{
  Kept-push_load, Kept-push_read, Kept-push_swap, Kept-push_help, Kept-push_settle,
}
use lockfree_mpmc_queue.Threads.Looker.{
  Kept-look_load, Kept-look_read, Kept-look_help, Kept-pop_if_swap, Kept-empty_load,
  Kept-empty_read,
}
use lockfree_mpmc_queue.Threads.Consumer.{
  Kept-pop_load, Kept-pop_read, Kept-pop_swap, Kept-pop_help, Kept-pop_settle,
}

-- The memory serves the list `f`, and every thread's locals are fresh.
pub record Safe (c : Config) (base : ℕ) (s : System) (f : Fifo) : Type 0 where
  pub wr : ℕ
  pub rd : ℕ
  pub config_is : s.queue.config ≡ c
  pub holds : Holds s.queue f.read f.items wr rd
  pub since_wr : base ≤ wr
  pub since_rd : base ≤ rd
  pub fresh : (i : ℕ) → IsFresh c base wr rd f (s.pc i)

-- A step of a thread from any place.
Kept-thread_step :
    {q : Queue} {f : Fifo} {base wr rd : ℕ} (p : Pc)
    → Holds q f.read f.items wr rd
    → IsNear q.config base f
    → base ≤ wr
    → base ≤ rd
    → IsFresh q.config base wr rd f p
    → Kept q.config base wr rd f (thread_step q p)
unfolding thread_step
Kept-thread_step (push_load d) v near bw br fresh = Kept-push_load v near d bw
Kept-thread_step (push_read d w) v near bw br fresh = Kept-push_read v near d w fresh
Kept-thread_step (push_swap d w) v near bw br fresh = Kept-push_swap v near d w fresh
Kept-thread_step (push_help d w) v near bw br fresh = Kept-push_help v near d w fresh
Kept-thread_step (push_settle d w) v near bw br fresh = Kept-push_settle v near d w fresh
Kept-thread_step pop_load v near bw br fresh = Kept-pop_load v near br
Kept-thread_step (pop_read w) v near bw br fresh = Kept-pop_read v near w fresh
Kept-thread_step (pop_swap w e) v near bw br fresh = Kept-pop_swap w e v near fresh
Kept-thread_step (pop_help w) v near bw br fresh = Kept-pop_help v near w fresh
Kept-thread_step (pop_settle w x) v near bw br fresh = Kept-pop_settle v near w x fresh
Kept-thread_step (look_load k) v near bw br fresh = Kept-look_load v near k br
Kept-thread_step (look_read k w) v near bw br fresh = Kept-look_read v near k w fresh
Kept-thread_step (look_help k w) v near bw br fresh = Kept-look_help v near k w fresh
Kept-thread_step (pop_if_swap g w e) v near bw br fresh = Kept-pop_if_swap v near g w e fresh
Kept-thread_step empty_load v near bw br fresh = Kept-empty_load v near br
Kept-thread_step (empty_read w) v near bw br fresh = Kept-empty_read v near w fresh
Kept-thread_step p v near bw br fresh = Kept-silently v p fresh

-- Indexes and lists only move on.
record Grows (wr rd wr' rd' : ℕ) (f g : Fifo) : Type 0 where
  writes : wr ≤ wr'
  reads : rd ≤ rd'
  last : next f ≤ next g
  first : f.read ≤ g.read

later :
    {c : Config} {base top top' w l : ℕ}
    → top ≤ top'
    → IsRead c base top w l
    → IsRead c base top' w l
later h r = record { word = r.word; since = r.since; passed = omega (arith, r.passed) }

IsFresh-Grows :
    (c : Config) (base : ℕ) {wr rd wr' rd' : ℕ} {f g : Fifo}
    → Grows wr rd wr' rd' f g
    → (p : Pc) → IsFresh c base wr rd f p
    → IsFresh c base wr' rd' g p
IsFresh-Grows c base m (push_read d w) (l, r) = (l, later m.writes r)
IsFresh-Grows c base m (push_swap d w) (l, r) = (l, later m.writes r)
IsFresh-Grows c base m (push_help d w) (l, r, h) = (l, later m.writes r, omega (arith, m.last))
IsFresh-Grows c base m (push_settle d w) (l, r, h) = (l, later m.writes r, omega (arith, m.last))
IsFresh-Grows c base m (pop_read w) (l, r) = (l, later m.reads r)
IsFresh-Grows c base m (pop_swap w e) (l, r, h) = (l, later m.reads r, h)
IsFresh-Grows c base m (pop_help w) (l, r, h) = (l, later m.reads r, omega (arith, m.first))
IsFresh-Grows c base m (pop_settle w x) (l, r, h) = (l, later m.reads r, omega (arith, m.first))
IsFresh-Grows c base m (look_read k w) (l, r) = (l, later m.reads r)
IsFresh-Grows c base m (look_help k w) (l, r, h) = (l, later m.reads r, omega (arith, m.first))
IsFresh-Grows c base m (pop_if_swap g w e) (l, r, h, p) = (l, later m.reads r, h, p)
IsFresh-Grows c base m (empty_read w) (l, r) = (l, later m.reads r)
IsFresh-Grows c base m p fresh = fresh

pop-grows :
    (h : ℕ) (xs : List ℕ)
    → let f = Fifo.pop (record { read = h; items = xs }) in
      (h ≤ f.read) × (h + length xs ≤ next f) × (next f ≤ h + length xs + 1)
pop-grows h [] = omega arith
pop-grows h (x ∷ xs) = omega arith

-- An event adds at most one number.
pub after-grows :
    (c : Config) (f : Fifo) (e : Event)
    → (f.read ≤ (after c f e).read)
      × (next f ≤ next (after c f e))
      × (next (after c f e) ≤ next f + 1)
after-grows c f silent = omega arith
after-grows c f (pushes d i) = ground (arith, length-append f.items (d ∷ []))
after-grows c f push_fails = omega arith
after-grows c f (pops x i) = pop-grows f.read f.items
after-grows c f pop_fails = omega arith
after-grows c f (sees x s) = omega arith
after-grows c f sees_none = omega arith
after-grows c f (declines g x s) = omega arith
after-grows c f (pops_if g x i) = pop-grows f.read f.items
after-grows c f (not_empty w) = omega arith

abbrev pub Performed : Config → ℕ → Fifo → System × Event → Type 0
Performed c base f (t, e) = Permits c f e × Safe c base t (after c f e)

module _ {base : ℕ} {s : System} {f : Fifo} (v : Safe s.queue.config base s f)
    (near : IsNear s.queue.config base f) where
  Safe-turn : (i : ℕ) → Performed s.queue.config base f (perform s (turn i))
  unfolding perform
  Safe-turn i = (
    k.permits,
    record {
      wr = k.wr';
      rd = k.rd';
      config_is = k.config_is;
      holds = k.holds;
      since_wr = omega (arith, v.since_wr, k.wr_grows);
      since_rd = omega (arith, v.since_rd, k.rd_grows);
      fresh = λ j. elim (Bool-cases (i == j)) [
        | inl same ↦ rw same k.fresh
        | inr other ↦ rw other (IsFresh-Grows s.queue.config base grown (s.pc j) (v.fresh j))
      ];
    },
  )
    where
      k : Kept s.queue.config base v.wr v.rd f (thread_step s.queue (s.pc i))
      k = Kept-thread_step (s.pc i) v.holds near v.since_wr v.since_rd (v.fresh i)

      grown :
          Grows v.wr v.rd k.wr' k.rd' f
            (after s.queue.config f (thread_step s.queue (s.pc i)).event)
      grown =
          let (first, last, _) =
            after-grows s.queue.config f (thread_step s.queue (s.pc i)).event in
          record { writes = k.wr_grows; reads = k.rd_grows; last = last; first = first }

  Safe-start_call :
      (i : ℕ) (p : Pc)
      → IsFresh s.queue.config base v.wr v.rd f p
      → Safe s.queue.config base (start_call s i p) f
  unfolding start_call
  Safe-start_call i p fresh = either (between_calls (s.pc i))
    where
      started : Safe s.queue.config base (record s { pc = update s.pc i p }) f
      started = record {
        wr = v.wr;
        rd = v.rd;
        config_is = v.config_is;
        holds = v.holds;
        since_wr = v.since_wr;
        since_rd = v.since_rd;
        fresh = λ j. elim (Bool-cases (i == j)) [
          | inl same ↦ rw same fresh
          | inr other ↦ rw other (v.fresh j)
        ];
      }

      either :
          (free : Bool)
          → Safe s.queue.config base (if free then record s { pc = update s.pc i p } else s) f
      either true = started
      either false = v

  Safe-perform : (a : Action) → Performed s.queue.config base f (perform s a)
  unfolding perform
  Safe-perform (turn i) = Safe-turn i
  Safe-perform (call_push i d) = (tt, Safe-start_call i (push_load d) tt)
  Safe-perform (call_pop i) = (tt, Safe-start_call i pop_load tt)
  Safe-perform (call_peek i) = (tt, Safe-start_call i (look_load peeking) tt)
  Safe-perform (call_pop_if i g) = (tt, Safe-start_call i (look_load (popping_if g)) tt)
  Safe-perform (call_empty i) = (tt, Safe-start_call i empty_load tt)

pub perform_list-Safe :
    {c : Config} {base : ℕ} {s : System} {f : Fifo} (a : Action)
    → Safe c base s f
    → IsNear c base f
    → Performed c base f (perform s a)
perform_list-Safe {c} {base} {s} {f} a v near =
    subst (λ c. Safe c base s f → IsNear c base f → Performed c base f (perform s a)) v.config_is
      (λ v near. Safe-perform v near a) v near

-- From a system in the invariant whose calls are answered by what they settled, near enough to the number
-- from which the threads' loads are counted: what an action settles is permitted by the list, the
-- action keeps the invariant with the list after it, and every call that has returned then, with true,
-- false or an element, has settled exactly what it returned, and one that is still looking nothing.
pub perform-Safe :
    {c : Config} {base : ℕ} {s : System} {f : Fifo} (a : Action) (calls : ℕ → Call)
    → Safe c base s f
    → IsNear c base f
    → IsHonest s calls
    → Performed c base f (perform s a) × IsHonest (perform s a).0 (called s a calls)
perform-Safe {s = s} a calls v near h = (perform_list-Safe a v near, perform-IsHonest s calls h a)
