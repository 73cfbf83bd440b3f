-- ===== src/Threads/Alone.antt =====
-- mpmc_queue.h: a thread that takes its turns with no other thread between them.
pub mod Pushing
pub mod Popping
pub mod Looking
pub mod Result
use lockfree_mpmc_queue.Base.{
  ℕ, zero, suc, ◌+◌, ◌≡◌, refl, Bool, true, false, Bool-cases, inl, inr, List, [], ◌∷◌, subst, sym,
}
use lockfree_mpmc_queue.Queue.{Queue}
use lockfree_mpmc_queue.Threads.{
  Pc, Step, silent, resting, pushed, push_refused, popped, pop_refused, push_load, push_read,
  push_swap, push_help, push_settle, pop_load, pop_read, pop_swap, pop_help, pop_settle, peeked,
  look_refused, answered, look_load, look_read, look_help, pop_if_swap, empty_load, empty_read,
  thread_step, between_calls,
}

-- After `n` steps of a thread alone it stands between calls.
abbrev pub alone : ℕ → Queue → Pc → Bool
alone zero q p = between_calls p
alone (suc n) q p = alone n (thread_step q p).queue (thread_step q p).pc

idle :
    (q : Queue) (p : Pc)
    → between_calls p ≡ true
    → thread_step q p ≡ record { queue = q; pc = p; event = silent }
unfolding thread_step
idle q resting e = refl
idle q (pushed _) e = refl
idle q push_refused e = refl
idle q (popped _ _) e = refl
idle q pop_refused e = refl
idle q (push_load _) e = absurd cc
idle q (push_read _ _) e = absurd cc
idle q (push_swap _ _) e = absurd cc
idle q (push_help _ _) e = absurd cc
idle q (push_settle _ _) e = absurd cc
idle q pop_load e = absurd cc
idle q (pop_read _) e = absurd cc
idle q (pop_swap _ _) e = absurd cc
idle q (pop_help _) e = absurd cc
idle q (pop_settle _ _) e = absurd cc
idle q (peeked _ _) e = refl
idle q look_refused e = refl
idle q (answered _) e = refl
idle q (look_load _) e = absurd cc
idle q (look_read _ _) e = absurd cc
idle q (look_help _ _) e = absurd cc
idle q (pop_if_swap _ _ _) e = absurd cc
idle q empty_load e = absurd cc
idle q (empty_read _) e = absurd cc

-- Between calls nothing more happens.
pub stays : (n : ℕ) (q : Queue) (p : Pc) → between_calls p ≡ true → alone n q p ≡ true
stays zero q p e = e
stays (suc n) q p e = rw (idle q p e) (stays n q p e)

pub more : (n : ℕ) (q : Queue) (p : Pc) → alone n q p ≡ true → alone (suc n) q p ≡ true
more zero q p e = stays 1 q p e
more (suc n) q p e = more n (thread_step q p).queue (thread_step q p).pc e

-- One step, then the rest.
pub stepping :
    (n : ℕ) (q : Queue) (p : Pc) (t : Step)
    → thread_step q p ≡ t
    → alone n t.queue t.pc ≡ true
    → alone (suc n) q p ≡ true
stepping n q p t e rest = subst (λ (s : Step). alone n s.queue s.pc ≡ true) (sym e) rest

abbrev pub after_seven : ℕ → ℕ
after_seven n = suc (suc (suc (suc (suc (suc (suc n))))))
