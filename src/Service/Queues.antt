-- ===== src/Service/Queues.antt =====
-- The queue of mpmc_queue.h as a service.
use lockfree_mpmc_queue.Base.{
  ℕ, ◌+◌, ◌≡◌, refl, ◌∙◌, subst, ◌⊎◌, inl, inr, true, false, Bool-cases, List, [], ◌∷◌, ◌++◌, none,
  some, arith,
}
use lockfree_mpmc_queue.Fifo.{Fifo, has_room}
use lockfree_mpmc_queue.Queue.{Config, Queue}
use lockfree_mpmc_queue.Queue.Push.{push}
use lockfree_mpmc_queue.Queue.Pop.{pop}
use lockfree_mpmc_queue.Queue.Serves.{Serves}
use lockfree_mpmc_queue.Queue.Push.Result.{push_index-Pushes}
use lockfree_mpmc_queue.Queue.Push.Overloads.{push-push_index}
use lockfree_mpmc_queue.Queue.Calls.KeepN.{pop-Pops}
use lockfree_mpmc_queue.Queue.Glance.{is_empty}
use lockfree_mpmc_queue.Queue.Glance.Size.{is_empty_iff}
use lockfree_mpmc_queue.Service.{Service, weigh, Same}

weigh-snoc : (w : ℕ → ℕ) (xs : List ℕ) (d : ℕ) → weigh w (xs ++ d ∷ []) ≡ w d + weigh w xs
weigh-snoc w [] d = refl
weigh-snoc w (x ∷ xs) d = omega (arith, weigh-snoc w xs d)

-- A queue that serves a list of these elements.
abbrev pub Contains : Config → Queue → List ℕ → Type 0
Contains c q xs = (h : ℕ) × Serves c q (record { read = h; items = xs })

pub push-Contains :
    (c : Config) (q : Queue) (xs : List ℕ) (i d : ℕ)
    → Contains c q xs
    → (q' : Queue) × (ys : List ℕ) × Contains c q' ys
      × (((push 2 q d ≡ some (true, q')) × Same ys (d ∷ xs))
          ⊎ ((push 2 q d ≡ some (false, q')) × Same ys xs))
push-Contains c q xs i d (h, s) =
    let f : Fifo = record { read = h; items = xs } in
    let (q', pushed, serves) = push_index-Pushes f 0 d s in
    elim (Bool-cases (has_room c.size f)) [
      | inl room ↦ (
        q',
        xs ++ d ∷ [],
        (h, subst (λ g. Serves c q' g) (rw room refl) serves),
        inl (push-push_index 2 q d ∙ rw pushed (rw room refl), λ w. weigh-snoc w xs d),
      )
      | inr full ↦ (
        q',
        xs,
        (h, subst (λ g. Serves c q' g) (rw full refl) serves),
        inr (push-push_index 2 q d ∙ rw pushed (rw full refl), λ w. refl),
      )
    ]

pub pop-Contains :
    (c : Config) (q : Queue) (xs : List ℕ) (i : ℕ)
    → Contains c q xs
    → (q' : Queue) × (ys : List ℕ) × Contains c q' ys
      × (((x : ℕ) × (pop 2 q ≡ some (some x, q')) × Same xs (x ∷ ys))
          ⊎ ((pop 2 q ≡ some (none, q')) × Same xs [] × Same ys []))
pop-Contains c q [] i (h, s) =
    let (q', popped, serves) = pop-Pops (record { read = h; items = [] }) 0 s in
    (q', [], (h, serves), inr (popped, λ w. refl, λ w. refl))
pop-Contains c q (x ∷ xs) i (h, s) =
    let (q', popped, serves) = pop-Pops (record { read = h; items = x ∷ xs }) 0 s in
    (q', xs, (h + 1, serves), inl (x, popped, λ w. refl))

pub is_empty-Contains :
    (c : Config) (q : Queue) (xs : List ℕ) → Contains c q xs → is_empty q ≡ true → Same xs []
is_empty-Contains c q [] (h, s) e = λ w. refl
is_empty-Contains c q (x ∷ xs) (h, s) e =
    let (current, none_left) = (is_empty_iff s).0 e in absurd (omega (arith, none_left))

abbrev pub queue_service : Config → Service
queue_service c = record {
  State = Queue;
  push = λ q i d. push 2 q d;
  pop = λ q i. pop 2 q;
  is_empty = is_empty;
  Holds = Contains c;
  push_law = push-Contains c;
  pop_law = pop-Contains c;
  is_empty_law = is_empty-Contains c;
}
