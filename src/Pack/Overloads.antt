-- ===== src/Pack/Overloads.antt =====
-- mpmc_queue_pack.h: the overloads of `producer::push`.
use lockfree_mpmc_queue.Base.{ℕ, ◌≡◌, refl, true, false, Option, none, some, get?, set, Bool}
use lockfree_mpmc_queue.Base.Loop.{◌>>=◌}
use lockfree_mpmc_queue.Queue.{Queue}
use lockfree_mpmc_queue.Queue.Push
use lockfree_mpmc_queue.Queue.Push.Overloads.{forget_index, push-push_index}
use lockfree_mpmc_queue.Pack.{Pack, Producer, push_at, producer_push, producer_push_index}

abbrev forget_number : Option (Option ℕ × Pack) → Option (Bool × Pack)
forget_number none = none
forget_number (some (none, p)) = some (false, p)
forget_number (some (some i, p)) = some (true, p)

-- `producer::push(d)` returns true exactly when `producer::push(d, ir)` does, and leaves the same pack.
producer_push-producer_push_index :
    (fuel : ℕ) (p : Pack) (s : Producer) (d : ℕ)
    → producer_push fuel p s d ≡ forget_number (producer_push_index fuel p s d)
unfolding producer_push producer_push_index push_at
producer_push-producer_push_index fuel p s d = at (get? p.queues s.queue_index)
  where
    after :
        (r : Option (Option ℕ × Queue))
        → (forget_index r >>= λ (done, q).
            some (done, record p { queues = set p.queues s.queue_index q }))
          ≡ forget_number
              (r >>= λ (done, q). some (done, record p { queues = set p.queues s.queue_index q }))
    after none = refl
    after (some (none, q)) = refl
    after (some (some i, q)) = refl

    at :
        (o : Option Queue)
        → elim o [
          | none ↦ none
          | some q ↦ Push.push fuel q d >>= λ (done, q').
              some (done, record p { queues = set p.queues s.queue_index q' })
        ]
          ≡ forget_number (elim o [
            | none ↦ none
            | some q ↦ Push.push_index fuel q d >>= λ (done, q').
                some (done, record p { queues = set p.queues s.queue_index q' })
          ])
    at none = refl
    at (some q) = rw (push-push_index fuel q d) (after (Push.push_index fuel q d))
