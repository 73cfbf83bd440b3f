-- ===== src/Pointer/Owned.antt =====
-- Every object has one owner: the caller's pointer, or the queue until it is popped or destroyed.
use lockfree_mpmc_queue.Base.{
  ℕ, zero, suc, ◌+◌, ◌<◌, ◌≡◌, refl, ap, ◌∙◌, Bool, true, false, List, [], ◌∷◌, ◌++◌, length, some,
  arith, Bool-cases, inl, inr, ◌==◌, subst,
}
use lockfree_mpmc_queue.Fifo
use lockfree_mpmc_queue.Fifo.{Fifo, has_room, next}
use lockfree_mpmc_queue.Queue.{Config, Queue}
use lockfree_mpmc_queue.Queue.Serves.{Serves}
use lockfree_mpmc_queue.Queue.Push.Result.{push_index-Pushes}
use lockfree_mpmc_queue.Queue.Push.Overloads.{push-push_index}
use lockfree_mpmc_queue.Queue.Calls.KeepN.{pop-Pops}
use lockfree_mpmc_queue.Pointer.{deleted, pointer_push, pointer_pop, pointer_destroy}

-- The objects among the addresses of a list.
abbrev pub objects : List ℕ → List ℕ
objects [] = []
objects (v ∷ vs) = deleted v ++ objects vs

objects-append : (xs ys : List ℕ) → objects (xs ++ ys) ≡ objects xs ++ objects ys
objects-append [] ys = refl
objects-append (x ∷ xs) ys =
    ap (λ zs. deleted x ++ zs) (objects-append xs ys) ∙ split x (objects xs) (objects ys)
  where
    split : (x : ℕ) (us vs : List ℕ) → deleted x ++ (us ++ vs) ≡ (deleted x ++ us) ++ vs
    split x us vs = elim (Bool-cases (x == 0)) [
      | inl null ↦ rw null refl
      | inr owned ↦ rw owned refl
    ]

append_none : (xs : List ℕ) → xs ++ [] ≡ xs
append_none [] = refl
append_none (x ∷ xs) = ap (λ ys. x ∷ ys) (append_none xs)

-- A null pointer adds no object.
objects-null : (xs : List ℕ) → objects (xs ++ 0 ∷ []) ≡ objects xs
objects-null xs = objects-append xs (0 ∷ []) ∙ append_none (objects xs)

-- `push(v)` returns, and the queue or the caller's pointer owns the object, but not both.
abbrev pub PushOwns : ℕ → Config → Queue → Fifo → ℕ → Type 0
PushOwns fuel c q f v =
    (v' : ℕ) × (q' : Queue) × (pointer_push fuel q v ≡ some (has_room c.size f, (v', q')))
    × Serves c q' (Fifo.push c.size f v)
    × (objects ((Fifo.push c.size f v).items ++ v' ∷ []) ≡ objects (f.items ++ v ∷ []))

-- On a queue that serves a list, `push(v)` of a pointer returns within two rounds, true exactly if the
-- list has room, and the objects of the list and the caller's pointer are the same, in order.
pub pointer_push-PushOwns :
    {c : Config} {q : Queue} (f : Fifo) (fuel v : ℕ)
    → Serves c q f
    → PushOwns (suc (suc fuel)) c q f v
unfolding pointer_push
pointer_push-PushOwns {c} {q} f fuel v s =
    let (q', pushed, serves) = push_index-Pushes f fuel v s in
    elim (Bool-cases (has_room c.size f)) [
      | inl room ↦ (
        0,
        q',
        rw (push-push_index (suc (suc fuel)) q v) (rw pushed (rw room refl)),
        serves,
        rw room (objects-null (f.items ++ v ∷ [])),
      )
      | inr full ↦ (
        v,
        q',
        rw (push-push_index (suc (suc fuel)) q v) (rw pushed (rw full refl)),
        serves,
        rw full refl,
      )
    ]

-- `pop(v)` returns, and every object is still owned or has been deleted.
abbrev pub PopOwns : ℕ → Config → Queue → Fifo → ℕ → Type 0
PopOwns fuel c q f v =
    (done : Bool) × (v' : ℕ) × (gone : List ℕ) × (q' : Queue) × (pointer_pop fuel q v
      ≡ some (done, (v', (gone, q'))))
    × Serves c q' (Fifo.pop f)
    × (gone ++ objects (v' ∷ (Fifo.pop f).items) ≡ objects (v ∷ f.items))

pop_items :
    {c : Config} {q : Queue} (h : ℕ) (xs : List ℕ) (fuel v : ℕ)
    → Serves c q (record { read = h; items = xs })
    → PopOwns (suc (suc fuel)) c q (record { read = h; items = xs }) v
unfolding pointer_pop
pop_items h [] fuel v s =
    let (q', popped, serves) = pop-Pops (record { read = h; items = [] }) fuel s in
    (false, v, [], q', rw popped refl, serves, refl)
pop_items h (x ∷ xs) fuel v s =
    let (q', popped, serves) = pop-Pops (record { read = h; items = x ∷ xs }) fuel s in
    (true, x, deleted v, q', rw popped refl, serves, refl)

-- On a queue that serves a list, `pop(v)` into a pointer returns within two rounds: what it deletes,
-- and the objects of the caller's pointer and the list after it, are those before it, in order.
pub pointer_pop-PopOwns :
    {c : Config} {q : Queue} (f : Fifo) (fuel v : ℕ)
    → Serves c q f
    → PopOwns (suc (suc fuel)) c q f v
pointer_pop-PopOwns f fuel v s = pop_items f.read f.items fuel v s

destroy_objects :
    {c : Config} (inner h : ℕ) (xs : List ℕ) (fuel : ℕ) {q : Queue}
    → Serves c q (record { read = h; items = xs })
    → length xs < fuel
    → (q' : Queue) × (pointer_destroy (suc (suc inner)) fuel q ≡ some (objects xs, q'))
      × Serves c q' (record { read = h + length xs; items = [] })
unfolding pointer_destroy
destroy_objects inner h xs zero s enough = absurd (omega arith)
destroy_objects {c} inner h [] (suc fuel) s enough =
    let (q', popped, serves) = pop-Pops (record { read = h; items = [] }) inner s in
    (
      q',
      rw popped refl,
      subst (λ n. Serves c q' (record { read = n; items = [] })) (omega arith) serves,
    )
destroy_objects {c} inner h (x ∷ xs) (suc fuel) s enough =
    let (q', popped, serves) = pop-Pops (record { read = h; items = x ∷ xs }) inner s in
    let (last, rest, holds) = destroy_objects inner (h + 1) xs fuel serves (omega arith) in
    (
      last,
      rw popped (rw rest refl),
      subst (λ n. Serves c last (record { read = n; items = [] })) (omega arith) holds,
    )

-- On a queue that serves a list, the destructor's loop ends, with fuel beyond the length of the list,
-- and deletes every object of the list once, oldest first.
pub pointer_destroy-objects :
    {c : Config} {q : Queue} (f : Fifo) (inner fuel : ℕ)
    → Serves c q f
    → length f.items < fuel
    → (q' : Queue) × (pointer_destroy (suc (suc inner)) fuel q ≡ some (objects f.items, q'))
      × Serves c q' (record { read = next f; items = [] })
pointer_destroy-objects f inner fuel s enough = destroy_objects inner f.read f.items fuel s enough
