-- ===== src/Threads/Alone/Result.antt =====
-- The steps of a thread alone, from any place in a call and after any schedule.
use lockfree_mpmc_queue.Base.{
  ℕ, zero, suc, ◌+◌, ◌*◌, ◌^◌, ◌≤◌, ◌≡◌, refl, sym, ap, ◌∙◌, subst, true, List, [], ◌∷◌, length,
  arith, update, update_self, ◌<◌, ◌-◌,
}
use lockfree_mpmc_queue.Fifo.{Fifo}
use lockfree_mpmc_queue.Queue.{Config, Queue}
use lockfree_mpmc_queue.Queue.Shape.{Holds}
use lockfree_mpmc_queue.Queue.Serves.{Serves}
use lockfree_mpmc_queue.Threads.{
  Pc, push_load, push_read, push_swap, push_help, push_settle, pop_load, pop_read, pop_swap,
  pop_help, pop_settle, look_load, look_read, look_help, pop_if_swap, empty_load, empty_read,
  thread_step, System, Action, turn, perform, execute, between_calls,
}
use lockfree_mpmc_queue.Threads.Fresh.{IsFresh, IsNear}
use lockfree_mpmc_queue.Threads.Safe.{Safe, perform_list-Safe, after-grows}
use lockfree_mpmc_queue.Threads.Linear.{HasRange, Serves-Safe, all_resting}
use lockfree_mpmc_queue.Threads.Alone.{alone, stays, after_seven}
use lockfree_mpmc_queue.Threads.Alone.Pushing
use lockfree_mpmc_queue.Threads.Alone.Popping
use lockfree_mpmc_queue.Threads.Alone.Looking
use lockfree_mpmc_queue.Threads.Alone.Looking.{is_looking}
use lockfree_mpmc_queue.Queue.Peek.Cases.{HalfClear}
use lockfree_mpmc_queue.Base.Word.{cast}
use native.Mathlib.Nat.{mod-add-mod}

-- A thread takes so many turns in a row.
abbrev pub turns_of : ℕ → ℕ → List Action
turns_of i zero = []
turns_of i (suc n) = turn i ∷ turns_of i n

-- Nine steps are enough from every place, if a thread in `peek` or `pop_if` can find a lagging index.
nine_enough :
    {q : Queue} {f : Fifo} {wr rd : ℕ} (base : ℕ) (p : Pc)
    → Holds q f.read f.items wr rd
    → IsNear q.config base f
    → IsFresh q.config base wr rd f p
    → (is_looking p ≡ true → rd < f.read → HalfClear q.config rd)
    → alone (suc (suc (after_seven 0))) q p ≡ true
nine_enough base (push_load d) v near fresh clear = Pushing.loading v 2 d
nine_enough base (push_read d w) v near fresh clear = Pushing.looking v near 0 d w fresh
nine_enough base (push_swap d w) v near fresh clear = Pushing.swapping v 1 d w
nine_enough base (push_help d w) v near fresh clear = Pushing.helping v near 1 d w fresh
nine_enough {q} base (push_settle d w) v near fresh clear = Pushing.settling 8 q d w
nine_enough base pop_load v near fresh clear = Popping.loading v 2
nine_enough base (pop_read w) v near fresh clear = Popping.looking v near 0 w fresh
nine_enough base (pop_swap w e) v near fresh clear = Popping.swapping v 1 w e
nine_enough base (pop_help w) v near fresh clear = Popping.helping v near 1 w fresh
nine_enough {q} base (pop_settle w x) v near fresh clear = Popping.settling 8 q w x
nine_enough base (look_load k) v near fresh clear = Looking.loading v (clear refl) k 2
nine_enough base (look_read k w) v near fresh clear =
    Looking.looking v near (clear refl) 0 w k fresh
nine_enough base (look_help k w) v near fresh clear =
    Looking.helping v near (clear refl) 1 w k fresh
nine_enough base (pop_if_swap g w e) v near fresh clear = Looking.swapping v (clear refl) 1 w g e
nine_enough {q} base empty_load v near fresh clear = Looking.asking 7 q
nine_enough {q} base (empty_read w) v near fresh clear = Looking.answering 8 q w
nine_enough {q} base p v near fresh clear = stays 9 q p refl

execute-alone :
    (n i : ℕ) (s : System)
    → between_calls ((execute s (turns_of i n)).0.pc i) ≡ alone n s.queue (s.pc i)
unfolding execute perform
execute-alone zero i s = refl
execute-alone (suc n) i s =
    let t = thread_step s.queue (s.pc i) in
    execute-alone n i (record { queue = t.queue; pc = update s.pc i t.pc })
    ∙ ap (alone n t.queue) (update_self s.pc i t.pc)

-- A thread in `peek` or `pop_if` has the top bit of `rd_index + size` clear, as these calls need when
-- the index lags.
abbrev pub CanFinish : Config → System → ℕ → Type 0
CanFinish c s i =
    is_looking (s.pc i) ≡ true → cast c.bits (s.queue.read_index + c.size) < 2 ^ (c.bits - 1)

Safe-finishes :
    {c : Config} {base : ℕ} {f : Fifo} {s : System} (i : ℕ)
    → Safe c base s f
    → IsNear c base f
    → CanFinish c s i
    → between_calls ((execute s (turns_of i 9)).0.pc i) ≡ true
Safe-finishes {c} {base} {f} {s} i v near can =
    execute-alone 9 i s
    ∙ nine_enough base (s.pc i) v.holds (subst (λ d. IsNear d base f) (sym v.config_is) near)
        (subst (λ d. IsFresh d base v.wr v.rd f (s.pc i)) (sym v.config_is) (v.fresh i))
        (λ looks lags. subst (λ d. HalfClear d v.rd) (sym v.config_is) (clear looks))
  where
    clear : is_looking (s.pc i) ≡ true → HalfClear c v.rd
    clear looks =
        subst (λ w. w < 2 ^ (c.bits - 1))
          (ap (λ w. cast c.bits (w + c.size))
              (v.holds.read_word ∙ ap (λ (d : Config). cast d.bits v.rd) v.config_is)
            ∙ mod-add-mod v.rd (2 ^ c.bits) c.size)
          (can looks)

schedule-finishes :
    {c : Config} {base : ℕ} (schedule : List Action) {f : Fifo} {s : System} (i : ℕ)
    → Safe c base s f
    → HasRange c base f (length schedule)
    → CanFinish c (execute s schedule).0 i
    → between_calls ((execute (execute s schedule).0 (turns_of i 9)).0.pc i) ≡ true
unfolding execute
schedule-finishes [] i v range can = Safe-finishes i v (omega arith) can
schedule-finishes {c} {base} (a ∷ rest) {f} {s} i v range can =
    let (permits, safe) = perform_list-Safe a v (omega arith) in
    schedule-finishes rest i safe (omega (arith, after-grows c f (perform s a).1)) can

-- From a queue that serves a list, after any schedule of threads in `push`, `pop`, `peek`, `pop_if`
-- and `empty` that is shorter than half the range of an index, less the size twice and the elements
-- at hand: a thread that then takes nine steps with no other thread between them has returned from
-- its call. A thread in the loop of `peek` or `pop_if` must start these steps with the top bit of
-- `rd_index + size` clear.
pub execute-finishes :
    {c : Config} {q : Queue} (f : Fifo) (schedule : List Action) (i : ℕ)
    → Serves c q f
    → (length f.items + length schedule + 1) * 2 + c.size * 4 ≤ 2 ^ c.bits
    → CanFinish c (execute (all_resting q) schedule).0 i
    → between_calls ((execute (execute (all_resting q) schedule).0 (turns_of i 9)).0.pc i) ≡ true
execute-finishes {c} {q} f schedule i s range can =
    schedule-finishes schedule i (Serves-Safe s) (omega arith) can
