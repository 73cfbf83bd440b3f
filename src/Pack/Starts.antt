-- ===== src/Pack/Starts.antt =====
-- A pack that its constructor builds, the producers and consumers it hands out, and `producer::push`.
use native.Mathlib.Nat.{mod-lt}
use lockfree_mpmc_queue.Base.{ℕ, zero, suc, ◌<◌, ◌^◌, ◌≡◌, refl, List, [], ◌∷◌, some, arith, get?}
use lockfree_mpmc_queue.Fifo
use lockfree_mpmc_queue.Fifo.{Fifo, empty, has_room}
use lockfree_mpmc_queue.Queue.{Config, Queue}
use lockfree_mpmc_queue.Queue.Shape.{IsShape}
use lockfree_mpmc_queue.Queue.Serves.{Serves}
use lockfree_mpmc_queue.Queue.Init.Fresh.{construct-Serves}
use lockfree_mpmc_queue.Pack.{
  Pack, Producer, make_queues, make_pack, make_producer, make_consumer, producer_push,
}
use lockfree_mpmc_queue.Pack.Served.{IsServed, push_at-IsServed, replace, with_queues}
use lockfree_mpmc_queue.Pack.Takes.{IsConsumer}

make_queues-Serves :
    (c : Config) (fuel n : ℕ)
    → IsShape c
    → c.size < 2 ^ 32
    → c.size < fuel
    → (qs : List Queue) × (make_queues fuel c n ≡ some (some qs))
      × ((k : ℕ) → k < n → (q : Queue) × (get? qs k ≡ some q) × Serves c q empty)
unfolding make_queues
make_queues-Serves c fuel zero shape small enough = ([], refl, λ k in_range. absurd (omega arith))
make_queues-Serves c fuel (suc n) shape small enough =
    let (q, built, serves) = construct-Serves c fuel shape small enough in
    let (qs, others, each) = make_queues-Serves c fuel n shape small enough in
    (q ∷ qs, rw (built, make_queues) (rw others refl), at q serves qs each)
  where
    at :
        (q : Queue)
        → Serves c q empty
        → (qs : List Queue)
        → ((k : ℕ) → k < n → (q : Queue) × (get? qs k ≡ some q) × Serves c q empty)
        → (k : ℕ) → k < suc n
        → (r : Queue) × (get? (q ∷ qs) k ≡ some r) × Serves c r empty
    at q serves qs each zero in_range = (q, refl, serves)
    at q serves qs each (suc k) in_range = each k (omega arith)

-- With at least one and fewer than 2^32 queues, of a size that the queue's constructor accepts,
-- `mpmc_queue_pack(qsz)` returns a pack of which every queue serves the empty list.
pub make_pack-IsServed :
    (c : Config) (fuel groups period : ℕ)
    → IsShape c
    → c.size < 2 ^ 32
    → c.size < fuel
    → 0 < groups
    → groups < 2 ^ 32
    → (p : Pack) × (make_pack fuel groups period c ≡ some (some p)) × IsServed p c (λ k. empty)
unfolding make_pack
make_pack-IsServed c fuel groups period shape small enough pos few =
    let (qs, built, each) = make_queues-Serves c fuel groups shape small enough in
    (
      record {
        groups = groups;
        period = period;
        writers_count = 0;
        readers_count = 0;
        queues = qs;
      },
      rw (built, make_pack) refl,
      record { some_group = pos; few_groups = few; serves = each },
    )

-- `producer::push` returns, with two rounds for the loop: it appends to the producer's own list
-- exactly if that has room, and leaves the others.
pub producer_push-IsServed :
    {p : Pack} {c : Config} {fs : ℕ → Fifo} (fuel d : ℕ) (s : Producer)
    → IsServed p c fs
    → s.queue_index < p.groups
    → let k = s.queue_index in
      (qs : List Queue) × (producer_push (suc (suc fuel)) p s d
        ≡ some (has_room c.size (fs k), with_queues p qs))
      × IsServed (with_queues p qs) c (replace fs k (Fifo.push c.size (fs k) d))
unfolding producer_push
producer_push-IsServed fuel d s v there = push_at-IsServed v fuel s.queue_index d there

-- On a pack whose queues each serve a list, with a positive K, a new producer and a new consumer stand
-- at a queue of the pack, which serves the same lists.
pub make_producer-IsServed :
    {p : Pack} {c : Config} {fs : ℕ → Fifo}
    → IsServed p c fs
    → 0 < p.period
    → ((make_producer p).0.queue_index < p.groups)
      × IsServed (make_producer p).1 c fs
      × IsConsumer p (make_consumer p).0
      × IsServed (make_consumer p).1 c fs
unfolding make_producer make_consumer
make_producer-IsServed {p} {c} {fs} v often = (
  mod-lt p.writers_count v.some_group,
  record { some_group = v.some_group; few_groups = v.few_groups; serves = v.serves },
  (mod-lt p.readers_count v.some_group, often),
  record { some_group = v.some_group; few_groups = v.few_groups; serves = v.serves },
)
