-- ===== src/Relay/Kept.antt =====
-- src/example2.cpp: the invariant of a race, of the rounds made, the elements and the sums.
use native.Mathlib.Decide.{ℕ_discrete}
use lockfree_mpmc_queue.Base.{
  ℕ, ◌+◌, ◌^◌, ◌≤◌, ◌<◌, ◌≡◌, sym, ap, ◌∙◌, subst, List, arith, update, update_self, update_ne,
}
use lockfree_mpmc_queue.Base.Word.{cast}
use lockfree_mpmc_queue.Service.{Service, weigh}
use lockfree_mpmc_queue.Service.Totals.{total, total-update}
use lockfree_mpmc_queue.Relay.{Plan, Place, working, reporting, ended, Race, Moved}

-- The rounds that a thread has made.
abbrev pub rounds_made : ℕ → Place → ℕ → ℕ
rounds_made n (working x m) k = x
rounds_made n (reporting m) k = n
rounds_made n ended k = n

-- What it has summed and not reported.
abbrev pub unreported : Place → ℕ → ℕ
unreported (working x m) k = m
unreported (reporting m) k = m
unreported ended k = 0

-- The sum of 0 to `n - 1`.
abbrev pub triangle : ℕ → ℕ
triangle n = total n (λ x. x)

-- What a producer has pushed in all, as a number without bound.
abbrev pub pushed_sum : ℕ → Place → ℕ → ℕ
pushed_sum n (working x m) k = triangle x
pushed_sum n (reporting m) k = triangle n
pushed_sum n ended k = triangle n

abbrev pub IsPlace : ℕ → Place → Type 0
IsPlace n (working x m) = x ≤ n
IsPlace n (reporting m) = Unit {0}
IsPlace n ended = Unit {0}

pub record Kept {S : Service} (u : Plan) (b : Race S) : Type 0 where
  pub held : List ℕ
  pub holds : S.Holds b.queue held
  pub counts :
      total u.threads (λ i. rounds_made u.rounds (b.producer i) 0)
      ≡ total u.threads (λ i. rounds_made u.rounds (b.consumer i) 0) + weigh (λ x. 1) held
  pub sums :
      cast 64 (b.prod_sum + total u.threads (λ i. unreported (b.producer i) 0))
      ≡ cast 64
          (b.cons_sum + total u.threads (λ i. unreported (b.consumer i) 0) + weigh (λ x. x) held)
  pub pushed :
      cast 64 (b.prod_sum + total u.threads (λ i. unreported (b.producer i) 0))
      ≡ cast 64 (total u.threads (λ i. pushed_sum u.rounds (b.producer i) 0))
  pub producers_at : (i : ℕ) → IsPlace u.rounds (b.producer i)
  pub consumers_at : (i : ℕ) → IsPlace u.rounds (b.consumer i)
  pub in_words : (b.prod_sum < 2 ^ 64) × (b.cons_sum < 2 ^ 64)

-- The change of one thread's share in a sum over all.
pub share :
    (f : Place → ℕ → ℕ) (w : ℕ → Place) (n i : ℕ) (p : Place)
    → i < n
    → total n (λ j. f (update w i p j) 0) + f (w i) 0 ≡ total n (λ j. f (w j) 0) + f p 0
share f w n i p within = go
  where
    go : total n (λ j. f (update w i p j) 0) + f (w i) 0 ≡ total n (λ j. f (w j) 0) + f p 0
    go = total-update (λ p k. f p 0) w (λ k. 0) n i p 0 within

pub place_each :
    (P : Place → Type 0) (w : ℕ → Place) (i : ℕ) (p : Place)
    → P p
    → ((j : ℕ) → P (w j))
    → (j : ℕ) → P (update w i p j)
place_each P w i p here others j = elim (ℕ_discrete j i) [
  | yes e ↦ subst P (sym (ap (update w i p) e ∙ update_self w i p)) here
  | no ne ↦ subst P (sym (update_ne w i j p ne)) (others j)
]

-- What a producer's step must keep to.
pub record ProducerKeeps {S : Service} {u : Plan} {b : Race S} (v : Kept u b) (i : ℕ) (t : Moved S)
    : Type 0 where
  pub rest : List ℕ
  pub still_holds : S.Holds t.queue rest
  pub counted :
      rounds_made u.rounds t.place 0 + weigh (λ x. 1) v.held
      ≡ rounds_made u.rounds (b.producer i) 0 + weigh (λ x. 1) rest
  pub summed :
      cast 64 (t.sum + unreported t.place 0 + weigh (λ x. x) v.held)
      ≡ cast 64 (b.prod_sum + unreported (b.producer i) 0 + weigh (λ x. x) rest)
  pub made :
      cast 64 (t.sum + unreported t.place 0 + pushed_sum u.rounds (b.producer i) 0)
      ≡ cast 64 (b.prod_sum + unreported (b.producer i) 0 + pushed_sum u.rounds t.place 0)
  pub stands : IsPlace u.rounds t.place
  pub in_word : t.sum < 2 ^ 64

pub record ConsumerKeeps {S : Service} {u : Plan} {b : Race S} (v : Kept u b) (i : ℕ) (t : Moved S)
    : Type 0 where
  pub rest : List ℕ
  pub still_holds : S.Holds t.queue rest
  pub counted :
      rounds_made u.rounds t.place 0 + weigh (λ x. 1) rest
      ≡ rounds_made u.rounds (b.consumer i) 0 + weigh (λ x. 1) v.held
  pub summed :
      cast 64 (t.sum + unreported t.place 0 + weigh (λ x. x) rest)
      ≡ cast 64 (b.cons_sum + unreported (b.consumer i) 0 + weigh (λ x. x) v.held)
  pub stands : IsPlace u.rounds t.place
  pub in_word : t.sum < 2 ^ 64

module _ {S : Service} {u : Plan} {b : Race S} (v : Kept u b) (i : ℕ) (within : i < u.threads)
    (t : Moved S) where
  pub Kept-producer :
      ProducerKeeps v i t
      → Kept u
          (record b { queue = t.queue; prod_sum = t.sum; producer = update b.producer i t.place })
  Kept-producer k = record {
    held = k.rest;
    holds = k.still_holds;
    counts = omega (
      arith,
      v.counts,
      k.counted,
      share (rounds_made u.rounds) b.producer u.threads i t.place within,
    );
    sums = omega (arith, v.sums, k.summed, share unreported b.producer u.threads i t.place within);
    pushed = omega (
      arith,
      v.pushed,
      k.made,
      share unreported b.producer u.threads i t.place within,
      share (pushed_sum u.rounds) b.producer u.threads i t.place within,
    );
    producers_at = place_each (IsPlace u.rounds) b.producer i t.place k.stands v.producers_at;
    consumers_at = v.consumers_at;
    in_words = (k.in_word, v.in_words.1);
  }

  pub Kept-consumer :
      ConsumerKeeps v i t
      → Kept u
          (record b { queue = t.queue; cons_sum = t.sum; consumer = update b.consumer i t.place })
  Kept-consumer k = record {
    held = k.rest;
    holds = k.still_holds;
    counts = omega (
      arith,
      v.counts,
      k.counted,
      share (rounds_made u.rounds) b.consumer u.threads i t.place within,
    );
    sums = omega (arith, v.sums, k.summed, share unreported b.consumer u.threads i t.place within);
    pushed = v.pushed;
    producers_at = v.producers_at;
    consumers_at = place_each (IsPlace u.rounds) b.consumer i t.place k.stands v.consumers_at;
    in_words = (v.in_words.0, k.in_word);
  }
