-- ===== src/Service/Lines.antt =====
-- What a program uses of a queue when it relies on the order: the elements come out as they went in.
-- The queue of mpmc_queue.h is one such, a call a step.
use lockfree_mpmc_queue.Base.{
  ℕ, ◌≡◌, refl, ◌∙◌, ◌⊎◌, inl, inr, Bool, true, false, Bool-cases, List, [], ◌∷◌, ◌++◌, Option,
  none, some, arith, ◌+◌,
}
use lockfree_mpmc_queue.Fifo.{Fifo, has_room}
use lockfree_mpmc_queue.Queue.{Config, Queue}
use lockfree_mpmc_queue.Queue.Push.{push}
use lockfree_mpmc_queue.Queue.Pop.{pop}
use lockfree_mpmc_queue.Queue.Push.Result.{push_index-Pushes}
use lockfree_mpmc_queue.Queue.Push.Overloads.{push-push_index}
use lockfree_mpmc_queue.Queue.Calls.KeepN.{pop-Pops}
use lockfree_mpmc_queue.Queue.Glance.{is_empty}
use lockfree_mpmc_queue.Queue.Glance.Size.{is_empty_iff}
use lockfree_mpmc_queue.Service.Queues.{Contains}

pub record Line : Type 1 where
  pub State : Type 0
  pub push : State → ℕ → Option (Bool × State)
  pub pop : State → Option (Option ℕ × State)
  pub is_empty : State → Bool
  pub Holds : State → List ℕ → Type 0
  pub push_law :
      (s : State) (xs : List ℕ) (d : ℕ)
      → Holds s xs
      → (s' : State) × (((push s d ≡ some (true, s')) × Holds s' (xs ++ d ∷ []))
          ⊎ ((push s d ≡ some (false, s')) × Holds s' xs))
  pub pop_law :
      (s : State) (x : ℕ) (xs : List ℕ)
      → Holds s (x ∷ xs)
      → (s' : State) × (pop s ≡ some (some x, s')) × Holds s' xs
  pub pop_none_law :
      (s : State) → Holds s [] → (s' : State) × (pop s ≡ some (none, s')) × Holds s' []
  pub is_empty_law : (s : State) (xs : List ℕ) → Holds s xs → is_empty s ≡ true → xs ≡ []

pub push-line :
    (c : Config) (q : Queue) (xs : List ℕ) (d : ℕ)
    → Contains c q xs
    → (q' : Queue) × (((push 2 q d ≡ some (true, q')) × Contains c q' (xs ++ d ∷ []))
        ⊎ ((push 2 q d ≡ some (false, q')) × Contains c q' xs))
push-line c q xs d (h, s) =
    let f : Fifo = record { read = h; items = xs } in
    let (q', pushed, serves) = push_index-Pushes f 0 d s in
    elim (Bool-cases (has_room c.size f)) [
      | inl room ↦
          (q', inl (push-push_index 2 q d ∙ rw pushed (rw room refl), (h, rw room at serves)))
      | inr full ↦
          (q', inr (push-push_index 2 q d ∙ rw pushed (rw full refl), (h, rw full at serves)))
    ]

pub pop-line :
    (c : Config) (q : Queue) (x : ℕ) (xs : List ℕ)
    → Contains c q (x ∷ xs)
    → (q' : Queue) × (pop 2 q ≡ some (some x, q')) × Contains c q' xs
pop-line c q x xs (h, s) =
    let (q', popped, serves) = pop-Pops (record { read = h; items = x ∷ xs }) 0 s in
    (q', popped, (h + 1, serves))

pub pop-line_none :
    (c : Config) (q : Queue)
    → Contains c q []
    → (q' : Queue) × (pop 2 q ≡ some (none, q')) × Contains c q' []
pop-line_none c q (h, s) =
    let (q', popped, serves) = pop-Pops (record { read = h; items = [] }) 0 s in
    (q', popped, (h, serves))

pub is_empty-line :
    (c : Config) (q : Queue) (xs : List ℕ) → Contains c q xs → is_empty q ≡ true → xs ≡ []
is_empty-line c q [] (h, s) e = refl
is_empty-line c q (x ∷ xs) (h, s) e =
    let (current, none_left) = (is_empty_iff s).0 e in absurd (omega (arith, none_left))

abbrev pub queue_line : Config → Line
queue_line c = record {
  State = Queue;
  push = push 2;
  pop = pop 2;
  is_empty = is_empty;
  Holds = Contains c;
  push_law = push-line c;
  pop_law = pop-line c;
  pop_none_law = pop-line_none c;
  is_empty_law = is_empty-line c;
}
