-- ===== src/Pack/Takes.antt =====
-- mpmc_queue_pack.h: `consumer::pop` and the lists of a pack.
use native.Mathlib.Decide.{ℕ_discrete, dec_lt}
use native.Mathlib.Nat.{mod-lt, mod-eq_of_lt, mod-add-mod, add-mod_right}
use lockfree_mpmc_queue.Base.{
  ℕ, zero, suc, ◌+◌, ◌-◌, ◌%◌, ◌<◌, ◌^◌, ◌≡◌, refl, sym, ap, ◌∙◌, subst, List, [], ◌∷◌, Option,
  none, some, arith, leb, Bool-cases, inl, inr, ◌⊎◌,
}
use lockfree_mpmc_queue.Base.Word.{cast}
use lockfree_mpmc_queue.Fifo
use lockfree_mpmc_queue.Fifo.{Fifo, head?}
use lockfree_mpmc_queue.Queue.{Config, Queue}
use lockfree_mpmc_queue.Pack.{Pack, Consumer, turn_to_next, scan, count_pop, consumer_pop, pop_at}
use lockfree_mpmc_queue.Pack.Served.{IsServed, IsServed-same, pop_at-IsServed, replace, with_queues}

-- The result of taking an element from some list: `none` only if every list is empty.
abbrev pub Taken : Config → Pack → (ℕ → Fifo) → Option ℕ → Type 0
Taken c p fs none = ((k : ℕ) → k < p.groups → head? (fs k) ≡ none) × IsServed p c fs
Taken c p fs (some x) =
    (k : ℕ) × (k < p.groups)
    × (head? (fs k) ≡ some x)
    × IsServed p c (replace fs k (Fifo.pop (fs k)))

-- From `start`, every index is at a distance below the modulus.
distance : (m start k : ℕ) → start < m → k < m → (j : ℕ) × (j < m) × ((start + j) % m ≡ k)
distance m start k p q = elim (dec_lt k start) [
  | yes before ↦ (
    k + m - start,
    omega arith,
    ap (λ n. n % m) (omega arith) ∙ add-mod_right k m ∙ mod-eq_of_lt q,
  )
  | no after ↦ (k - start, omega arith, ap (λ n. n % m) (omega arith) ∙ mod-eq_of_lt q)
]

turn_to_next-lt : (p : Pack) (i : ℕ) → 0 < p.groups → turn_to_next p i < p.groups
turn_to_next-lt p i pos = mod-lt (cast 32 (i + 1)) pos

-- The turn of an index at a distance `n` from `start`.
turn_to_next-add :
    (p : Pack) (start n i : ℕ)
    → p.groups < 2 ^ 32
    → i < p.groups
    → i ≡ (start + n) % p.groups
    → turn_to_next p i ≡ (start + suc n) % p.groups
turn_to_next-add p start n i few in_range e =
    ap (λ x. x % p.groups) (mod-eq_of_lt (omega arith))
    ∙ ap (λ x. (x + 1) % p.groups) e
    ∙ mod-add-mod (start + n) p.groups 1
    ∙ ap (λ x. x % p.groups) (omega arith)

pop-none : (f : Fifo) → head? f ≡ none → Fifo.pop f ≡ f
pop-none f = go f.read f.items
  where
    go :
        (h : ℕ) (xs : List ℕ)
        → head? (record { read = h; items = xs }) ≡ none
        → Fifo.pop (record { read = h; items = xs }) ≡ record { read = h; items = xs }
    go h [] e = refl
    go h (x ∷ xs) e = cc e

-- Taking nothing leaves every list as it is.
replace-none :
    (fs : ℕ → Fifo) (k : ℕ)
    → head? (fs k) ≡ none
    → (j : ℕ) → fs j ≡ replace fs k (Fifo.pop (fs k)) j
replace-none fs k nothing j = elim (ℕ_discrete j k) [
  | yes e ↦ rw (e, pop-none (fs k) nothing) (ground arith)
  | no ne ↦ ground arith
]

-- `pop` on one queue of the pack: either it takes, or nothing changes.
pop_at-Taken :
    {p : Pack} {c : Config} {fs : ℕ → Fifo} (v : IsServed p c fs) (fuel k : ℕ)
    → k < p.groups
    → (qs : List Queue) × (pop_at (suc (suc fuel)) p k ≡ some (head? (fs k), with_queues p qs))
      × (((head? (fs k) ≡ none) × IsServed (with_queues p qs) c fs)
          ⊎ ((x : ℕ) × (head? (fs k) ≡ some x) × Taken c (with_queues p qs) fs (some x)))
pop_at-Taken {p} {c} {fs} v fuel k in_range =
    let (qs, popped, served) = pop_at-IsServed v fuel k in_range in
    (
      qs,
      popped,
      elim (Option-cases (head? (fs k))) [
        | inl nothing ↦ inl (nothing, IsServed-same served (λ j. sym (replace-none fs k nothing j)))
        | inr (x, found) ↦ inr (x, found, (k, in_range, found, served))
      ],
    )
  where
    Option-cases : (o : Option ℕ) → (o ≡ none) ⊎ ((x : ℕ) × (o ≡ some x))
    Option-cases none = inl refl
    Option-cases (some x) = inr (x, refl)

-- The scan has seen empty lists at the distances up to `seen` from `start`, and has `n` to go.
scan-Taken :
    {p : Pack} {c : Config} {fs : ℕ → Fifo} (fuel n seen start i : ℕ)
    → IsServed p c fs
    → start < p.groups
    → i < p.groups
    → seen + n + 1 ≡ p.groups
    → i ≡ (start + seen) % p.groups
    → ((j : ℕ) → j < suc seen → head? (fs ((start + j) % p.groups)) ≡ none)
    → (got : Option ℕ) × (i' : ℕ) × (qs : List Queue) × (scan (suc (suc fuel)) n p i
        ≡ some (got, (i', with_queues p qs)))
      × (i' < p.groups)
      × Taken c (with_queues p qs) fs got
unfolding scan
scan-Taken {p} {c} {fs} fuel zero seen start i v start_in in_range count at empties =
    (none, i, p.queues, refl, in_range, (all_empty, v))
  where
    all_empty : (k : ℕ) → k < p.groups → head? (fs k) ≡ none
    all_empty k k_in =
        let (j, near, e) = distance p.groups start k start_in k_in in
        subst (λ k. head? (fs k) ≡ none) e (empties j (omega arith))
scan-Taken {p} {c} {fs} fuel (suc n) seen start i v start_in in_range count at empties =
    let k = turn_to_next p i in
    let k_in = turn_to_next-lt p i v.some_group in
    let (qs, popped, outcome) = pop_at-Taken v fuel k k_in in
    elim outcome [
      | inl (nothing, served) ↦
          let place = turn_to_next-add p start seen i v.few_groups in_range at in
          let (got, i', rs, scanned, there, taken) =
            scan-Taken {p = with_queues p qs} fuel n (suc seen) start k served start_in k_in
              (omega arith) place (grow place nothing) in
          (got, i', rs, rw popped (rw nothing scanned), there, taken)
      | inr (x, found, taken) ↦ (some x, k, qs, rw popped (rw found refl), k_in, taken)
    ]
  where
    grow :
        {k : ℕ}
        → k ≡ (start + suc seen) % p.groups
        → head? (fs k) ≡ none
        → (j : ℕ) → j < suc (suc seen)
        → head? (fs ((start + j) % p.groups)) ≡ none
    grow place nothing j near = elim (dec_lt j (suc seen)) [
      | yes before ↦ empties j before
      | no at_last ↦
          let e : j ≡ suc seen = omega arith in
          subst (λ k. head? (fs k) ≡ none) (place ∙ ap (λ j. (start + j) % p.groups) (sym e))
            nothing
    ]

-- Where a consumer stands: at a queue of the pack, with fewer than K elements taken in a row.
abbrev pub IsConsumer : Pack → Consumer → Type 0
IsConsumer p s = (s.read_queue_index < p.groups) × (s.pop_count < p.period)

count_pop-IsConsumer :
    (p : Pack) (s : Consumer)
    → 0 < p.groups
    → p.period < 2 ^ 32
    → IsConsumer p s
    → IsConsumer p (count_pop p s)
unfolding count_pop
count_pop-IsConsumer p s pos small (there, few) =
    let e : cast 32 (s.pop_count + 1) ≡ s.pop_count + 1 = mod-eq_of_lt (omega arith) in
    elim (Bool-cases (leb p.period (cast 32 (s.pop_count + 1)))) [
      | inl enough ↦ rw enough (turn_to_next-lt p s.read_queue_index pos, omega arith)
      | inr more ↦ rw more (there, ground (arith, e))
    ]

-- `consumer::pop` returns, and takes from a list if there is anything to take.
abbrev pub Takes : ℕ → Config → Pack → (ℕ → Fifo) → Consumer → Type 0
Takes fuel c p fs s =
    (got : Option ℕ) × (s' : Consumer) × (qs : List Queue) × (consumer_pop fuel p s
      ≡ some (got, (s', with_queues p qs)))
    × IsConsumer p s'
    × Taken c (with_queues p qs) fs got

-- On a pack whose queues each serve a list, with K below 2^32, and for a consumer that stands at one of
-- its queues, `consumer::pop` returns, with two rounds for each loop. It
-- refuses only if every list is empty, and otherwise takes the oldest element of one list and leaves
-- the others; the consumer stands at a queue of the pack again.
pub consumer_pop-Taken :
    {p : Pack} {c : Config} {fs : ℕ → Fifo} (fuel : ℕ) (s : Consumer)
    → IsServed p c fs
    → p.period < 2 ^ 32
    → IsConsumer p s
    → Takes (suc (suc fuel)) c p fs s
unfolding consumer_pop
consumer_pop-Taken {p} {c} {fs} fuel s v small (there, few) =
    let (qs, popped, outcome) = pop_at-Taken v fuel s.read_queue_index there in
    elim outcome [
      | inl (nothing, served) ↦
          let (got, i, rs, scanned, i_in, taken) =
            scan-Taken {p = with_queues p qs} fuel (p.groups - 1) 0 s.read_queue_index
              s.read_queue_index served there there (omega (arith, v.some_group))
              (sym (at_start 0 refl)) (λ j near. at_start_empty j near nothing) in
          (
            got,
            record { read_queue_index = i; pop_count = 0 },
            rs,
            rw popped (rw nothing (rw scanned refl)),
            (i_in, omega arith),
            taken,
          )
      | inr (x, found, taken) ↦ (
        some x,
        count_pop p s,
        qs,
        rw popped (rw found refl),
        count_pop-IsConsumer p s v.some_group small (there, few),
        taken,
      )
    ]
  where
    at_start : (j : ℕ) → j ≡ 0 → (s.read_queue_index + j) % p.groups ≡ s.read_queue_index
    at_start j e = ap (λ n. n % p.groups) (omega arith) ∙ mod-eq_of_lt there

    at_start_empty :
        (j : ℕ)
        → j < 1
        → head? (fs s.read_queue_index) ≡ none
        → head? (fs ((s.read_queue_index + j) % p.groups)) ≡ none
    at_start_empty j near nothing =
        subst (λ k. head? (fs k) ≡ none) (sym (at_start j (omega arith))) nothing
