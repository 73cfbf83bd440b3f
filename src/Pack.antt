-- ===== src/Pack.antt =====
-- mpmc_queue_pack.h: a pack of queues, of which a producer fills one and a consumer drains one after
-- another. The queues are those of mpmc_queue.h.
pub mod Served
pub mod Takes
pub mod Starts
pub mod Overloads
pub mod Shared
pub mod Whole
use lockfree_mpmc_queue.Base.{
  ℕ, zero, suc, ◌+◌, ◌-◌, ◌%◌, Bool, true, false, List, [], ◌∷◌, Option, none, some, get?, set, leb,
  if◌then◌else◌,
}
use lockfree_mpmc_queue.Base.Word.{cast}
use lockfree_mpmc_queue.Base.Loop.{◌>>=◌}
use lockfree_mpmc_queue.Queue.{Config, Queue}
use lockfree_mpmc_queue.Queue.Push
use lockfree_mpmc_queue.Queue.Pop
use lockfree_mpmc_queue.Queue.Init.{construct, throws, builds}

-- `groups` and `period` are the template parameters G and K.
pub record Pack : Type 0 where
  pub groups : ℕ
  pub period : ℕ
  pub writers_count : ℕ
  pub readers_count : ℕ
  pub queues : List Queue

pub record Producer : Type 0 where
  pub queue_index : ℕ

-- `_read_queue` always points to the queue at `read_queue_index`.
pub record Consumer : Type 0 where
  pub read_queue_index : ℕ
  pub pop_count : ℕ

-- One queue after another is built; `some none` if a constructor throws, `none` without fuel.
unfoldable pub make_queues : ℕ → Config → ℕ → Option (Option (List Queue))
make_queues fuel c zero = some (some [])
make_queues fuel c (suc n) =
    let rest = make_queues fuel c n in
    elim (construct fuel 0 c) [
      | none ↦ none
      | some throws ↦ some none
      | some (builds q) ↦ elim rest [
        | none ↦ none
        | some none ↦ some none
        | some (some qs) ↦ some (some (q ∷ qs))
      ]
    ]

unfoldable pub make_pack : ℕ → ℕ → ℕ → Config → Option (Option Pack)
make_pack fuel groups period c = elim (make_queues fuel c groups) [
  | none ↦ none
  | some none ↦ some none
  | some (some qs) ↦ some (
      some (record {
        groups = groups;
        period = period;
        writers_count = 0;
        readers_count = 0;
        queues = qs;
      }))
]

-- `producer(qp)` and `consumer(qp)` take the counter's next value, modulo the number of queues.
unfoldable pub make_producer : Pack → Producer × Pack
make_producer p = (
  record { queue_index = p.writers_count % p.groups },
  record p { writers_count = cast 64 (p.writers_count + 1) },
)

unfoldable pub make_consumer : Pack → Consumer × Pack
make_consumer p = (
  record { read_queue_index = p.readers_count % p.groups; pop_count = 0 },
  record p { readers_count = cast 64 (p.readers_count + 1) },
)

-- A call on the queue at `k`; an index out of range gives `none`.
unfoldable pub push_at : ℕ → Pack → ℕ → ℕ → Option (Bool × Pack)
push_at fuel p k d = elim (get? p.queues k) [
  | none ↦ none
  | some q ↦ do
    (done, q') ← Push.push fuel q d
    some (done, record p { queues = set p.queues k q' })
]

unfoldable pub pop_at : ℕ → Pack → ℕ → Option (Option ℕ × Pack)
pop_at fuel p k = elim (get? p.queues k) [
  | none ↦ none
  | some q ↦ do (got, q') ← Pop.pop fuel q; some (got, record p { queues = set p.queues k q' })
]

-- `producer::push`
unfoldable pub producer_push : ℕ → Pack → Producer → ℕ → Option (Bool × Pack)
producer_push fuel p s d = push_at fuel p s.queue_index d

-- `producer::push(d, ir)`: the result is what the call stores in `ir`.
unfoldable pub producer_push_index : ℕ → Pack → Producer → ℕ → Option (Option ℕ × Pack)
producer_push_index fuel p s d = elim (get? p.queues s.queue_index) [
  | none ↦ none
  | some q ↦ do
    (done, q') ← Push.push_index fuel q d
    some (done, record p { queues = set p.queues s.queue_index q' })
]

-- `(_read_queue_index + 1) % G`, in `unsigned`
abbrev pub turn_to_next : Pack → ℕ → ℕ
turn_to_next p i = cast 32 (i + 1) % p.groups

-- The loop of `consumer::pop` over the other queues, with the number of them that are left.
unfoldable pub scan : ℕ → ℕ → Pack → ℕ → Option (Option ℕ × (ℕ × Pack))
scan fuel zero p i = some (none, (i, p))
scan fuel (suc n) p i = do
  (got, p') ← pop_at fuel p (turn_to_next p i)
  elim got [
    | none ↦ scan fuel n p' (turn_to_next p i)
    | some x ↦ some (some x, (turn_to_next p i, p'))
  ]

-- After an element from its own queue: the consumer moves on once it has taken K.
unfoldable pub count_pop : Pack → Consumer → Consumer
count_pop p s =
    let n = cast 32 (s.pop_count + 1) in
    if leb p.period n
    then record { read_queue_index = turn_to_next p s.read_queue_index; pop_count = 0 }
    else record s { pop_count = n }

-- `consumer::pop`
unfoldable pub consumer_pop : ℕ → Pack → Consumer → Option (Option ℕ × (Consumer × Pack))
consumer_pop fuel p s = do
  (got, p') ← pop_at fuel p s.read_queue_index
  elim got [
    | some x ↦ some (some x, (count_pop p s, p'))
    | none ↦ do
      (other, (i, p'')) ← scan fuel (p.groups - 1) p' s.read_queue_index
      some (other, (record { read_queue_index = i; pop_count = 0 }, p''))
  ]
