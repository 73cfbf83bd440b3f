-- ===== src/Relay/Sums.antt =====
-- src/example2.cpp: the two sums when all have ended.
use lockfree_mpmc_queue.Base.{
  ℕ, ◌^◌, ◌<◌, ◌≡◌, refl, ap, subst, inl, inr, Bool-cases, List, [], ◌∷◌, arith, ltb,
}
use lockfree_mpmc_queue.Base.Word.{cast}
use lockfree_mpmc_queue.Service.{Service, weigh}
use lockfree_mpmc_queue.Service.Totals.{total, total_same, total_zero}
use lockfree_mpmc_queue.Service.Totals.{none_of_count}
use lockfree_mpmc_queue.Relay.{
  Plan, Place, ended, Race, begin, producer_step, consumer_step, Turn, produces, consumes,
  take_turn, take_turns,
}
use lockfree_mpmc_queue.Relay.Kept.{
  rounds_made, unreported, triangle, pushed_sum, Kept, Kept-producer, Kept-consumer,
}
use lockfree_mpmc_queue.Relay.Steps.{ProducerKeeps-step, ConsumerKeeps-step}

Kept-begin : {S : Service} (u : Plan) (q : S.State) → S.Holds q [] → Kept u (begin S q)
unfolding begin
Kept-begin u q h = record {
  held = [];
  holds = h;
  counts = omega arith;
  sums = ap (cast 64) (omega arith);
  pushed = ap (cast 64) (omega arith);
  producers_at = λ i. omega arith;
  consumers_at = λ i. omega arith;
  in_words = (omega arith, omega arith);
}

Kept-take_turns :
    {S : Service} {u : Plan} (few : u.rounds < 2 ^ 32) (turns : List Turn) (b : Race S)
    → Kept u b
    → Kept u (take_turns S u b turns)
unfolding take_turns take_turn
Kept-take_turns few [] b v = v
Kept-take_turns {S} {u} few (produces i ∷ turns) b v = elim (Bool-cases (ltb i u.threads)) [
  | inl within ↦ rw within (
      Kept-take_turns few turns _ (
        Kept-producer v i (ground (arith, within))
          (producer_step S u b.queue b.prod_sum i (b.producer i))
          (ProducerKeeps-step few v i (b.producer i) refl)))
  | inr beyond ↦ rw beyond (Kept-take_turns few turns b v)
]
Kept-take_turns {S} {u} few (consumes i ∷ turns) b v = elim (Bool-cases (ltb i u.threads)) [
  | inl within ↦ rw within (
      Kept-take_turns few turns _ (
        Kept-consumer v i (ground (arith, within))
          (consumer_step S u b.queue b.cons_sum i (b.consumer i))
          (ConsumerKeeps-step few v i (b.consumer i) refl)))
  | inr beyond ↦ rw beyond (Kept-take_turns few turns b v)
]

-- Every thread has ended.
abbrev pub AllEnded : {S : Service} → Plan → Race S → Type 0
AllEnded u b = (i : ℕ) → i < u.threads → (b.producer i ≡ ended) × (b.consumer i ≡ ended)

-- The sums of a race that is over.
abbrev pub IsWon : {S : Service} → Plan → Race S → Type 0
IsWon {S} u b =
    (b.prod_sum ≡ cast 64 (total u.threads (λ i. triangle u.rounds)))
    × (b.cons_sum ≡ b.prod_sum)
    × S.Holds b.queue []

module _ {S : Service} {u : Plan} {b : Race S} (v : Kept u b) (over : AllEnded u b) where
  of_producers :
      (f : Place → ℕ → ℕ)
      → total u.threads (λ i. f (b.producer i) 0) ≡ total u.threads (λ i. f ended 0)
  of_producers f = total_same u.threads _ _ (λ i within. ap (λ p. f p 0) (over i within).0)

  of_consumers :
      (f : Place → ℕ → ℕ)
      → total u.threads (λ i. f (b.consumer i) 0) ≡ total u.threads (λ i. f ended 0)
  of_consumers f = total_same u.threads _ _ (λ i within. ap (λ p. f p 0) (over i within).1)

  none_left : v.held ≡ []
  none_left = none_of_count v.held (
      omega
        (arith, v.counts, of_producers (rounds_made u.rounds), of_consumers (rounds_made u.rounds)))

  Kept-IsWon : IsWon u b
  Kept-IsWon =
      let gone : weigh (λ x. x) v.held ≡ 0 = ap (weigh (λ x. x)) none_left in
      (
        omega (
          arith,
          v.pushed,
          v.in_words,
          of_producers unreported,
          of_producers (pushed_sum u.rounds),
          total_zero u.threads,
        ),
        omega (
          arith,
          v.sums,
          v.in_words,
          gone,
          of_producers unreported,
          of_consumers unreported,
          total_zero u.threads,
        ),
        subst (S.Holds b.queue) none_left v.holds,
      )

-- From a service that holds nothing, with fewer than 2^32 rounds, in every order of the threads' steps:
-- once every thread has ended, `prod_sum` and `cons_sum` are both the sum of the numbers of the rounds of
-- all producers, as 64-bit words, and the service holds nothing again.
pub take_turns-sums :
    (S : Service) (u : Plan) (q : S.State) (turns : List Turn)
    → u.rounds < 2 ^ 32
    → S.Holds q []
    → AllEnded u (take_turns S u (begin S q) turns)
    → IsWon u (take_turns S u (begin S q) turns)
take_turns-sums S u q turns few h over =
    Kept-IsWon (Kept-take_turns few turns (begin S q) (Kept-begin u q h)) over
