-- ===== src/Queue/Calls/KeepN.antt =====
-- `push_keep_n` always places its element: on a full queue it drops the oldest first.
use lockfree_mpmc_queue.Base.{
  ℕ, zero, suc, ◌+◌, ◌<◌, ◌≤◌, ◌≡◌, refl, ◌∙◌, ap, true, false, List, [], ◌∷◌, ◌++◌, length, arith,
  Option, none, some, Bool-cases, inl, inr, ltb_of_lt, if◌then◌else◌, subst,
}
use lockfree_mpmc_queue.Base.Word.{cast}
use lockfree_mpmc_queue.Base.Loop.{◌>>=◌}
use lockfree_mpmc_queue.Fifo
use lockfree_mpmc_queue.Fifo.{Fifo, next, has_room}
use lockfree_mpmc_queue.Queue.{Config, Queue}
use lockfree_mpmc_queue.Queue.Serves.{Serves}
use lockfree_mpmc_queue.Queue.Shape.{size_pos}
use lockfree_mpmc_queue.Queue.Push.{push_index}
use lockfree_mpmc_queue.Queue.Push.Result.{push_index-Pushes}
use lockfree_mpmc_queue.Queue.Push.Overloads.{forget_index, push-push_index}
use lockfree_mpmc_queue.Queue.Pop.{pop}
use lockfree_mpmc_queue.Queue.Pop.Result.{pop_reply, pop_index-Pops}
use lockfree_mpmc_queue.Queue.Pop.Overloads.{forget_number, pop-pop_index}
use lockfree_mpmc_queue.Queue.Calls.{push_keep_n, push_keep_n_index}

-- The list without its oldest element, where it is full.
abbrev pub make_room : ℕ → Fifo → Fifo
make_room n f = if has_room n f then f else Fifo.pop f

-- What `pop(d)` returns.
abbrev pub pop_value : Option (ℕ × ℕ) → Option ℕ
pop_value none = none
pop_value (some (x, i)) = some x

pub pop-Pops :
    {c : Config} {q : Queue} (f : Fifo) (fuel : ℕ)
    → Serves c q f
    → (q' : Queue) × (pop (suc (suc fuel)) q ≡ some (pop_value (pop_reply c f), q'))
      × Serves c q' (Fifo.pop f)
pop-Pops {c} {q} f fuel s =
    let (q', returns, serves) = pop_index-Pops f fuel s in
    (q', pop-pop_index (suc (suc fuel)) q ∙ rw returns (forget (pop_reply c f) q'), serves)
  where
    forget : (r : Option (ℕ × ℕ)) (t : Queue) → forget_number (some (r, t)) ≡ some (pop_value r, t)
    forget none t = refl
    forget (some (x, i)) t = refl

room_after_pop :
    (n h : ℕ) (xs : List ℕ)
    → 0 < n
    → length xs ≤ n
    → has_room n (Fifo.pop (record { read = h; items = xs })) ≡ true
room_after_pop n h [] pos fits = ltb_of_lt _ _ pos
room_after_pop n h (x ∷ xs) pos fits = ltb_of_lt _ _ (omega arith)

next-pop :
    (h : ℕ) (xs : List ℕ)
    → 0 < length xs
    → next (Fifo.pop (record { read = h; items = xs })) ≡ h + length xs
next-pop h [] more = absurd (omega arith)
next-pop h (x ∷ xs) more = omega arith

-- The list with `d` appended, whatever its length.
abbrev pub snoc : Fifo → ℕ → Fifo
snoc f d = record f { items = f.items ++ d ∷ [] }

abbrev pub Keeps : ℕ → ℕ → Config → Queue → ℕ → ℕ → Fifo → Type 0
Keeps inner fuel c q d i g =
    (q' : Queue) × (push_keep_n_index inner fuel q d ≡ some (cast c.bits i, q')) × Serves c q' g

module _ {c : Config} {q : Queue} (f : Fifo) (inner fuel d : ℕ) (s : Serves c q f) where
  keep_at_once :
      has_room c.size f ≡ true → Keeps (suc (suc inner)) (suc fuel) c q d (next f) (snoc f d)
  unfolding push_keep_n_index
  keep_at_once room =
      let (q', returns, serves) = push_index-Pushes f inner d s in
      (q', rw returns (rw room refl), subst (λ g. Serves c q' g) (rw room) serves)

module _ {c : Config} {q : Queue} (f : Fifo) (inner fuel d : ℕ) (s : Serves c q f) where
  sizes : (0 < c.size) × (length f.items ≤ c.size)
  sizes =
      let e = ap (λ (k : Config). k.size) s.config_is in
      (omega (arith, e, size_pos s.holds.shape), omega (arith, e, s.holds.room))

  keep_dropping :
      has_room c.size f ≡ false
      → Keeps (suc (suc inner)) (suc (suc fuel)) c q d (next f) (snoc (Fifo.pop f) d)
  unfolding push_keep_n_index
  keep_dropping full =
      let (q', refused, serves) = push_index-Pushes f inner d s in
      let same : Serves c q' f = subst (λ g. Serves c q' g) (rw full) serves in
      let (q'', popped, less) = pop-Pops f inner same in
      let more : 0 < length f.items = ground (arith, sizes) in
      let (last, placed, holds) =
        keep_at_once (Fifo.pop f) inner fuel d less
          (room_after_pop c.size f.read f.items sizes.0 sizes.1) in
      (
        last,
        rw refused (rw full (rw popped placed))
            ∙ ap (λ n. some (cast c.bits n, last)) (next-pop f.read f.items more),
        holds,
      )

-- On a queue that serves a list, `push_keep_n(d, i)` returns within two rounds. It appends `d` under the next number, after dropping
-- the oldest element if the list was full.
pub push_keep_n_index-Keeps :
    {c : Config} {q : Queue} (f : Fifo) (inner fuel d : ℕ)
    → Serves c q f
    → Keeps (suc (suc inner)) (suc (suc fuel)) c q d (next f) (snoc (make_room c.size f) d)
push_keep_n_index-Keeps {c} {q} f inner fuel d s = elim (Bool-cases (has_room c.size f)) [
  | inl room ↦ rw room (keep_at_once f inner (suc fuel) d s room)
  | inr full ↦ rw full (keep_dropping f inner fuel d s full)
]

-- `push_keep_n(d)` does to the queue what `push_keep_n(d, i)` does, and returns true when that returns.
pub push_keep_n-push_keep_n_index :
    (inner fuel : ℕ) (q : Queue) (d : ℕ)
    → push_keep_n inner fuel q d ≡ (push_keep_n_index inner fuel q d >>= λ (i, q'). some (true, q'))
unfolding push_keep_n push_keep_n_index
push_keep_n-push_keep_n_index inner zero q d = refl
push_keep_n-push_keep_n_index inner (suc fuel) q d =
    rw (push-push_index inner q d)
      (go (push_index inner q d) (λ t. push_keep_n-push_keep_n_index inner fuel t d))
  where
    go :
        (r : Option (Option ℕ × Queue))
        → ((t : Queue)
            → push_keep_n inner fuel t d
              ≡ (push_keep_n_index inner fuel t d >>= λ (i, q'). some (true, q')))
        → (do
          (done, q') ← forget_index r
          elim done [
            | true ↦ some (true, q')
            | false ↦ do (lost, q'') ← pop inner q'; push_keep_n inner fuel q'' d
          ])
          ≡ ((do
            (done, q') ← r
            elim done [
              | some i ↦ some (i, q')
              | none ↦ do (lost, q'') ← pop inner q'; push_keep_n_index inner fuel q'' d
            ])
              >>= λ (i, q'). some (true, q'))
    go none ih = refl
    go (some (none, t)) ih = next_round (pop inner t)
      where
        next_round :
            (r : Option (Option ℕ × Queue))
            → (r >>= λ x. push_keep_n inner fuel x.1 d)
              ≡ ((r >>= λ x. push_keep_n_index inner fuel x.1 d) >>= λ (i, q'). some (true, q'))
        next_round none = refl
        next_round (some x) = ih x.1
    go (some (some i, t)) ih = refl
