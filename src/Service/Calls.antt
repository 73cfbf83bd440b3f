-- ===== src/Service/Calls.antt =====
-- Any sequence of calls of threads on a service.
use lockfree_mpmc_queue.Base.{
  ℕ, ◌+◌, ◌≡◌, refl, inl, inr, Bool, true, List, [], ◌∷◌, Option, none, some, arith, if◌then◌else◌,
}
use lockfree_mpmc_queue.Base.Loop.{◌>>=◌}
use lockfree_mpmc_queue.Service.{Service, weigh}

pub data Call : Type 0 where
  pushing : ℕ → ℕ → Call
  popping : ℕ → Call

-- What a sequence of calls leaves: the state, the elements that it took in, and those that it gave out.
pub record Ran (S : Service) : Type 0 where
  pub state : S.State
  pub taken_in : List ℕ
  pub given_out : List ℕ

module _ (S : Service) where
  abbrev pub after_push : ℕ → Bool → Ran S → Ran S
  after_push d pushed r = if pushed then record r { taken_in = d ∷ r.taken_in } else r

  abbrev pub after_pop : Option ℕ → Ran S → Ran S
  after_pop none r = r
  after_pop (some x) r = record r { given_out = x ∷ r.given_out }

  unfoldable pub make_calls : S.State → List Call → Option (Ran S)
  make_calls s [] = some (record { state = s; taken_in = []; given_out = [] })
  make_calls s (pushing i d ∷ calls) = do
    (pushed, t) ← S.push s i d
    r ← make_calls t calls
    some (after_push d pushed r)
  make_calls s (popping i ∷ calls) = do
    (got, t) ← S.pop s i
    r ← make_calls t calls
    some (after_pop got r)

-- The calls return, and what was held with what they took in is what they gave out with what is held,
-- whatever the weight of each element.
abbrev pub Balances : (S : Service) → S.State → List ℕ → List Call → Type 0
Balances S s xs calls =
    (r : Ran S) × (ys : List ℕ) × (make_calls S s calls ≡ some r)
    × S.Holds r.state ys
    × ((w : ℕ → ℕ) → weigh w xs + weigh w r.taken_in ≡ weigh w r.given_out + weigh w ys)

pub make_calls-Balances :
    (S : Service) (s : S.State) (xs : List ℕ) (calls : List Call)
    → S.Holds s xs
    → Balances S s xs calls
unfolding make_calls
make_calls-Balances S s xs [] h =
    (record { state = s; taken_in = []; given_out = [] }, xs, refl, h, λ w. omega arith)
make_calls-Balances S s xs (pushing i d ∷ calls) h =
    let (t, ys, holds, outcome) = S.push_law s xs i d h in
    let (r, zs, ran, rests, even) = make_calls-Balances S t ys calls holds in
    elim outcome [
      | inl (pushed, same) ↦ (
        after_push S d true r,
        zs,
        rw (pushed, make_calls) (rw (ran, make_calls) refl),
        rests,
        λ w. omega (arith, even w, same w),
      )
      | inr (refused, same) ↦ (
        r,
        zs,
        rw (refused, make_calls) (rw (ran, make_calls) refl),
        rests,
        λ w. omega (arith, even w, same w),
      )
    ]
make_calls-Balances S s xs (popping i ∷ calls) h =
    let (t, ys, holds, outcome) = S.pop_law s xs i h in
    let (r, zs, ran, rests, even) = make_calls-Balances S t ys calls holds in
    elim outcome [
      | inl (x, popped, same) ↦ (
        after_pop S (some x) r,
        zs,
        rw (popped, make_calls) (rw (ran, make_calls) refl),
        rests,
        λ w. omega (arith, even w, same w),
      )
      | inr (nothing, same, gone) ↦ (
        r,
        zs,
        rw (nothing, make_calls) (rw (ran, make_calls) refl),
        rests,
        λ w. omega (arith, even w, same w, gone w),
      )
    ]
