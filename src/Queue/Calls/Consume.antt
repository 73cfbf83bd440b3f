-- ===== src/Queue/Calls/Consume.antt =====
-- `consume` hands the elements to its functor in order until the functor says stop or none is left;
-- the destructor removes them all.
use lockfree_mpmc_queue.Base.{
  ℕ, zero, suc, ◌+◌, ◌<◌, ◌≡◌, refl, ◌∙◌, ap, Bool, List, [], ◌∷◌, length, arith, some, Bool-cases,
  inl, inr, if◌then◌else◌, subst,
}
use lockfree_mpmc_queue.Base.Word.{cast, cast-suc}
use lockfree_mpmc_queue.Fifo.{Fifo, next}
use lockfree_mpmc_queue.Queue.{Config, Queue}
use lockfree_mpmc_queue.Queue.Serves.{Serves}
use lockfree_mpmc_queue.Queue.Pop.Result.{pop_index-Pops}
use lockfree_mpmc_queue.Queue.Calls.{consume_from, consume, destroy}
use lockfree_mpmc_queue.Queue.Calls.KeepN.{pop-Pops}

-- How many elements of the list the functor is given: all up to the first on which it says stop.
abbrev pub given : Config → (ℕ → ℕ → Bool) → ℕ → List ℕ → ℕ
given c stop h [] = 0
given c stop h (x ∷ xs) = if stop x (cast c.bits h) then 1 else suc (given c stop (h + 1) xs)

-- The list after its first `n` elements.
abbrev pub after_first : ℕ → ℕ → List ℕ → Fifo
after_first zero h xs = record { read = h; items = xs }
after_first (suc n) h [] = record { read = h; items = [] }
after_first (suc n) h (x ∷ xs) = after_first n (h + 1) xs

abbrev pub Consumes : ℕ → ℕ → (ℕ → ℕ → Bool) → Config → Queue → ℕ → List ℕ → ℕ → Type 0
Consumes inner fuel stop c q h xs r =
    (q' : Queue) × (consume_from inner fuel stop q (cast 64 r)
      ≡ some (cast 64 (r + given c stop h xs), q'))
    × Serves c q' (after_first (given c stop h xs) h xs)

consume_from-Consumes :
    {c : Config} (stop : ℕ → ℕ → Bool) (inner : ℕ) (xs : List ℕ) (fuel : ℕ) {q : Queue} (h r : ℕ)
    → Serves c q (record { read = h; items = xs })
    → length xs < fuel
    → Consumes (suc (suc inner)) fuel stop c q h xs r
unfolding consume_from
consume_from-Consumes stop inner xs zero h r s enough = absurd (omega arith)
consume_from-Consumes {c} stop inner [] (suc fuel) {q} h r s enough =
    let (q', none_left, serves) = pop_index-Pops (record { read = h; items = [] }) inner s in
    (q', rw none_left (ap (λ n. some (cast 64 n, q')) (omega arith)), serves)
consume_from-Consumes {c} stop inner (x ∷ xs) (suc fuel) {q} h r s enough =
    let (q', popped, serves) = pop_index-Pops (record { read = h; items = x ∷ xs }) inner s in
    elim (Bool-cases (stop x (cast c.bits h))) [
      | inl stops ↦
          rw stops (q', rw popped (rw stops (ap (λ n. some (n, q')) (cast-suc 64 r))), serves)
      | inr goes_on ↦ rw goes_on (
          let (last, rest, holds) =
            consume_from-Consumes stop inner xs fuel (h + 1) (r + 1) serves (omega arith) in
          let first : consume_from (suc (suc inner)) (suc fuel) stop q (cast 64 r)
              ≡ consume_from (suc (suc inner)) fuel stop q' (cast 64 (r + 1)) =
            rw popped (rw goes_on (rw (cast-suc 64 r) refl)) in
          let total : r + 1 + given c stop (h + 1) xs ≡ r + suc (given c stop (h + 1) xs) =
            omega arith in
          (last, first ∙ rest ∙ ap (λ n. some (cast 64 n, last)) total, holds))
    ]

-- On a queue that serves a list, `consume(f)` returns, with fuel beyond the length of the list, the number of elements up to the
-- first on which the functor says stop, as a 64-bit word, and leaves the elements behind them.
pub consume-Consumes :
    {c : Config} {q : Queue} (f : Fifo) (stop : ℕ → ℕ → Bool) (inner fuel : ℕ)
    → Serves c q f
    → length f.items < fuel
    → let n = given c stop f.read f.items in
      (q' : Queue) × (consume (suc (suc inner)) fuel stop q ≡ some (cast 64 n, q'))
      × Serves c q' (after_first n f.read f.items)
unfolding consume
consume-Consumes {c} {q} f stop inner fuel s enough =
    let (q', returns, serves) = consume_from-Consumes stop inner f.items fuel f.read 0 s enough in
    (q', returns ∙ ap (λ n. some (cast 64 n, q')) (omega arith), serves)

destroy_items :
    {c : Config} (inner : ℕ) (xs : List ℕ) (fuel : ℕ) {q : Queue} (h : ℕ)
    → Serves c q (record { read = h; items = xs })
    → length xs < fuel
    → (q' : Queue) × (destroy (suc (suc inner)) fuel q ≡ some q')
      × Serves c q' (record { read = h + length xs; items = [] })
unfolding destroy
destroy_items inner xs zero h s enough = absurd (omega arith)
destroy_items {c} inner [] (suc fuel) {q} h s enough =
    let (q', none_left, serves) = pop-Pops (record { read = h; items = [] }) inner s in
    (
      q',
      rw none_left refl,
      subst (λ n. Serves c q' (record { read = n; items = [] })) (omega arith) serves,
    )
destroy_items {c} inner (x ∷ xs) (suc fuel) {q} h s enough =
    let (q', popped, serves) = pop-Pops (record { read = h; items = x ∷ xs }) inner s in
    let (last, rest, holds) = destroy_items inner xs fuel (h + 1) serves (omega arith) in
    (
      last,
      rw popped rest,
      subst (λ n. Serves c last (record { read = n; items = [] })) (omega arith) holds,
    )

-- On a queue that serves a list, the destructor's loop ends, with fuel beyond the length of the list,
-- and leaves no element.
destroy-Serves :
    {c : Config} {q : Queue} (f : Fifo) (inner fuel : ℕ)
    → Serves c q f
    → length f.items < fuel
    → (q' : Queue) × (destroy (suc (suc inner)) fuel q ≡ some q')
      × Serves c q' (record { read = next f; items = [] })
destroy-Serves f inner fuel s enough = destroy_items inner f.items fuel f.read s enough
