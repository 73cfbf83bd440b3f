-- ===== src/Pack/Shared.antt =====
-- A pack between numbered threads, each with a producer and a consumer of its own: the service that
-- the pack's benchmark uses.
use lockfree_mpmc_queue.Base.{
  ℕ, zero, suc, ◌+◌, ◌<◌, ◌^◌, ◌≡◌, refl, ap, ◌∙◌, ◌⊎◌, inl, inr, Bool, true, false, Bool-cases,
  List, [], ◌∷◌, ◌++◌, Option, none, some, arith, update, ◌==◌,
}
use lockfree_mpmc_queue.Base.Loop.{◌>>=◌}
use lockfree_mpmc_queue.Fifo
use lockfree_mpmc_queue.Fifo.{Fifo, has_room, head?, empty}
use lockfree_mpmc_queue.Queue.{Config}
use lockfree_mpmc_queue.Pack.{Pack, Producer, Consumer, producer_push, consumer_pop, Queue}
use lockfree_mpmc_queue.Pack.Served.{IsServed, replace, with_queues}
use lockfree_mpmc_queue.Pack.Takes.{IsConsumer, Taken, consumer_pop-Taken}
use lockfree_mpmc_queue.Pack.Starts.{producer_push-IsServed}
use lockfree_mpmc_queue.Service.{weigh, Same}
use lockfree_mpmc_queue.Service.Totals.{total, total_change, total_same, total_zero}

pub record Crowd : Type 0 where
  pub pack : Pack
  pub producer : ℕ → Producer
  pub consumer : ℕ → Consumer

unfoldable pub crowd_push : Crowd → ℕ → ℕ → Option (Bool × Crowd)
crowd_push s i d = do
  (pushed, p) ← producer_push 2 s.pack (s.producer i) d
  some (pushed, record s { pack = p })

unfoldable pub crowd_pop : Crowd → ℕ → Option (Option ℕ × Crowd)
crowd_pop s i = do
  (got, (c, p)) ← consumer_pop 2 s.pack (s.consumer i)
  some (got, record s { pack = p; consumer = update s.consumer i c })

-- The elements of all lists, one list after another.
abbrev pub all_items : (ℕ → Fifo) → ℕ → List ℕ
all_items fs zero = []
all_items fs (suc n) = (fs n).items ++ all_items fs n

-- The pack serves lists of these elements, and every thread stands at one of its queues.
pub record Keeps (c : Config) (s : Crowd) (xs : List ℕ) : Type 0 where
  pub lists : ℕ → Fifo
  pub served : IsServed s.pack c lists
  pub few : s.pack.period < 2 ^ 32
  pub producers_stand : (i : ℕ) → (s.producer i).queue_index < s.pack.groups
  pub consumers_stand : (i : ℕ) → IsConsumer s.pack (s.consumer i)
  pub same : Same xs (all_items lists s.pack.groups)

weigh-append : (w : ℕ → ℕ) (xs ys : List ℕ) → weigh w (xs ++ ys) ≡ weigh w xs + weigh w ys
weigh-append w [] ys = omega arith
weigh-append w (x ∷ xs) ys = omega (arith, weigh-append w xs ys)

-- The weight of all lists is that of each.
pub weigh-all_items :
    (w : ℕ → ℕ) (fs : ℕ → Fifo) (n : ℕ)
    → weigh w (all_items fs n) ≡ total n (λ k. weigh w (fs k).items)
weigh-all_items w fs zero = refl
weigh-all_items w fs (suc n) =
    omega (arith, weigh-append w (fs n).items (all_items fs n), weigh-all_items w fs n)

-- One list is replaced.
weigh-replace :
    (w : ℕ → ℕ) (fs : ℕ → Fifo) (n k : ℕ) (f : Fifo)
    → k < n
    → weigh w (all_items (replace fs k f) n) + weigh w (fs k).items
      ≡ weigh w (all_items fs n) + weigh w f.items
weigh-replace w fs n k f within = omega (
  arith,
  weigh-all_items w fs n,
  weigh-all_items w (replace fs k f) n,
  here,
  total_change n k (λ j. weigh w (fs j).items) (λ j. weigh w (replace fs k f j).items) within
      (λ j other. ground (arith, other)),
)
  where
    here : weigh w (replace fs k f k).items ≡ weigh w f.items
    here = ground arith

module _ (w : ℕ → ℕ) (n : ℕ) (f : Fifo) where
  weigh-push :
      (d : ℕ) → has_room n f ≡ true → weigh w (Fifo.push n f d).items ≡ weigh w f.items + w d
  weigh-push d room = rw room (omega (arith, weigh-append w f.items (d ∷ [])))

  weigh-push_full :
      (d : ℕ) → has_room n f ≡ false → weigh w (Fifo.push n f d).items ≡ weigh w f.items
  weigh-push_full d full = rw full refl

weigh-pop :
    (w : ℕ → ℕ) (f : Fifo) (x : ℕ)
    → head? f ≡ some x
    → weigh w f.items ≡ w x + weigh w (Fifo.pop f).items
weigh-pop w f x = go f.read f.items
  where
    go :
        (h : ℕ) (xs : List ℕ)
        → head? (record { read = h; items = xs }) ≡ some x
        → weigh w xs ≡ w x + weigh w (Fifo.pop (record { read = h; items = xs })).items
    go h [] e = absurd cc
    go h (y ∷ ys) e = ap (λ z. w z + weigh w ys) cc

weigh-none : (w : ℕ → ℕ) (f : Fifo) → head? f ≡ none → weigh w f.items ≡ 0
weigh-none w f = go f.read f.items
  where
    go : (h : ℕ) (xs : List ℕ) → head? (record { read = h; items = xs }) ≡ none → weigh w xs ≡ 0
    go h [] e = refl
    go h (y ∷ ys) e = absurd cc

pub crowd_push-Keeps :
    (c : Config) (s : Crowd) (xs : List ℕ) (i d : ℕ)
    → Keeps c s xs
    → (s' : Crowd) × (ys : List ℕ) × Keeps c s' ys
      × (((crowd_push s i d ≡ some (true, s')) × Same ys (d ∷ xs))
          ⊎ ((crowd_push s i d ≡ some (false, s')) × Same ys xs))
unfolding crowd_push
crowd_push-Keeps c s xs i d v =
    let k = (s.producer i).queue_index in
    let fs = v.lists in
    let (qs, pushed, served) =
      producer_push-IsServed 0 d (s.producer i) v.served (v.producers_stand i) in
    let after = replace fs k (Fifo.push c.size (fs k) d) in
    let changed = λ (w : ℕ → ℕ).
      weigh-replace w fs s.pack.groups k (Fifo.push c.size (fs k) d) (v.producers_stand i) in
    (
      record s { pack = with_queues s.pack qs },
      all_items after s.pack.groups,
      record {
        lists = after;
        served = served;
        few = v.few;
        producers_stand = v.producers_stand;
        consumers_stand = v.consumers_stand;
        same = λ w. refl;
      },
      elim (Bool-cases (has_room c.size (fs k))) [
        | inl room ↦ inl (
          rw pushed (rw room refl),
          λ w. omega (arith, changed w, v.same w, weigh-push w c.size (fs k) d room),
        )
        | inr full ↦ inr (
          rw pushed (rw full refl),
          λ w. omega (arith, changed w, v.same w, weigh-push_full w c.size (fs k) d full),
        )
      ],
    )

-- What `crowd_pop` leaves, by the result.
abbrev pub Popped : Config → Crowd → ℕ → List ℕ → Type 0
Popped c s i xs =
    (s' : Crowd) × (ys : List ℕ) × Keeps c s' ys
    × (((x : ℕ) × (crowd_pop s i ≡ some (some x, s')) × Same xs (x ∷ ys))
        ⊎ ((crowd_pop s i ≡ some (none, s')) × Same xs [] × Same ys []))

pub crowd_pop-Keeps :
    (c : Config) (s : Crowd) (xs : List ℕ) (i : ℕ) → Keeps c s xs → Popped c s i xs
unfolding crowd_pop
crowd_pop-Keeps c s xs i v =
    let (got, place, qs, popped, stands, taken) =
      consumer_pop-Taken 0 (s.consumer i) v.served v.few (v.consumers_stand i) in
    go got place qs popped stands taken
  where
    all_stand :
        (place : Consumer)
        → IsConsumer s.pack place
        → (j : ℕ) → IsConsumer s.pack (update s.consumer i place j)
    all_stand place stands j = elim (Bool-cases (i == j)) [
      | inl same ↦ rw same stands
      | inr other ↦ rw other (v.consumers_stand j)
    ]

    left : Consumer → List Queue → Crowd
    left place qs = record s { pack = with_queues s.pack qs; consumer = update s.consumer i place }

    keeping :
        (place : Consumer) (qs : List Queue) (fs : ℕ → Fifo)
        → IsConsumer s.pack place
        → IsServed (with_queues s.pack qs) c fs
        → Keeps c (left place qs) (all_items fs s.pack.groups)
    keeping place qs fs stands served = record {
      lists = fs;
      served = served;
      few = v.few;
      producers_stand = v.producers_stand;
      consumers_stand = all_stand place stands;
      same = λ w. refl;
    }

    go :
        (got : Option ℕ) (place : Consumer) (qs : List Queue)
        → consumer_pop 2 s.pack (s.consumer i) ≡ some (got, (place, with_queues s.pack qs))
        → IsConsumer s.pack place
        → Taken c (with_queues s.pack qs) v.lists got
        → Popped c s i xs
    go none place qs popped stands (empties, served) =
        let gone : (w : ℕ → ℕ) → weigh w (all_items v.lists s.pack.groups) ≡ 0 = λ w.
          weigh-all_items w v.lists s.pack.groups
          ∙ total_same s.pack.groups (λ k. weigh w (v.lists k).items) (λ k. 0)
              (λ k within. weigh-none w (v.lists k) (empties k within))
          ∙ total_zero s.pack.groups in
        (
          left place qs,
          all_items v.lists s.pack.groups,
          keeping place qs v.lists stands served,
          inr (rw (popped, crowd_pop) refl, λ w. v.same w ∙ gone w, gone),
        )
    go (some x) place qs popped stands (k, within, found, served) =
        let after = replace v.lists k (Fifo.pop (v.lists k)) in
        (
          left place qs,
          all_items after s.pack.groups,
          keeping place qs after stands served,
          inl (
            x,
            rw (popped, crowd_pop) refl,
            λ w. omega (
              arith,
              v.same w,
              weigh-pop w (v.lists k) x found,
              weigh-replace w v.lists s.pack.groups k (Fifo.pop (v.lists k)) within,
            ),
          ),
        )
