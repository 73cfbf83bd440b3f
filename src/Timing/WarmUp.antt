-- ===== src/Timing/WarmUp.antt =====
-- What the first rounds of `QTiming::run` leave in the queue.
use lockfree_mpmc_queue.Base.{
  ℕ, zero, suc, ◌+◌, ◌-◌, ◌≤◌, ◌≡◌, refl, subst, inl, inr, List, [], Option, some, arith,
}
use lockfree_mpmc_queue.Base.Word.{cast}
use lockfree_mpmc_queue.Service.{Service}
use lockfree_mpmc_queue.Service.Totals.{count, none_of_count}
use lockfree_mpmc_queue.Timing.{Gauge, push_all, pop_all, warm_up}

-- What is held after a loop, of at most so many elements.
abbrev HoldsFew : (S : Service) → Option S.State → ℕ → Type 0
HoldsFew S r n = (t : S.State) × (ys : List ℕ) × (r ≡ some t) × S.Holds t ys × (count ys ≤ n)

push_all-HoldsFew :
    (S : Service) (s : S.State) (xs : List ℕ) (d n : ℕ)
    → S.Holds s xs
    → HoldsFew S (push_all S s d n) (count xs + n)
unfolding push_all
push_all-HoldsFew S s xs d zero h = (s, xs, refl, h, omega arith)
push_all-HoldsFew S s xs d (suc n) h =
    let (t, ys, holds, outcome) = S.push_law s xs 0 d h in
    let (r, zs, ran, rests, few) = push_all-HoldsFew S t ys d n holds in
    elim outcome [
      | inl (pushed, same) ↦
          (r, zs, rw (pushed, push_all) ran, rests, omega (arith, few, same (λ x. 1)))
      | inr (refused, same) ↦
          (r, zs, rw (refused, push_all) ran, rests, omega (arith, few, same (λ x. 1)))
    ]

pop_all-HoldsFew :
    (S : Service) (s : S.State) (xs : List ℕ) (n : ℕ)
    → S.Holds s xs
    → HoldsFew S (pop_all S s n) (count xs - n)
unfolding pop_all
pop_all-HoldsFew S s xs zero h = (s, xs, refl, h, omega arith)
pop_all-HoldsFew S s xs (suc n) h =
    let (t, ys, holds, outcome) = S.pop_law s xs 0 h in
    let (r, zs, ran, rests, few) = pop_all-HoldsFew S t ys n holds in
    elim outcome [
      | inl (x, popped, same) ↦
          (r, zs, rw (popped, pop_all) ran, rests, omega (arith, few, same (λ x. 1)))
      | inr (nothing, same, gone) ↦
          (r, zs, rw (nothing, pop_all) ran, rests, omega (arith, few, gone (λ x. 1)))
    ]

pub warm_up-HoldsFew :
    (S : Service) (u : Gauge) (s : S.State) (loops : ℕ)
    → S.Holds s []
    → HoldsFew S (warm_up S u s loops) 0
unfolding warm_up
warm_up-HoldsFew S u s zero h = (s, [], refl, h, omega arith)
warm_up-HoldsFew S u s (suc loops) h =
    let (t, ys, filled, holds, some_held) =
      push_all-HoldsFew S s [] (cast u.value_bits 17) u.depth h in
    let (r, zs, drained, rests, few) = pop_all-HoldsFew S t ys u.depth holds in
    let (e, ws, warmed, ends, nothing) =
      warm_up-HoldsFew S u r loops
        (subst (λ xs. S.Holds r xs) (none_of_count zs (omega arith)) rests) in
    (e, ws, rw (filled, warm_up) (rw (drained, warm_up) warmed), ends, nothing)
