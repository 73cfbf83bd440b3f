-- ===== src/Gtest/Streams/Kept.antt =====
-- src/gtest_mpmc_queue.cpp, the test hash3: what every step keeps.
use native.Mathlib.Decide.{ℕ_discrete}
use native.Mathlib.Nat.{mod-add-mod}
use lockfree_mpmc_queue.Base.{
  ℕ, zero, suc, ◌+◌, ◌*◌, ◌^◌, ◌≤◌, ◌<◌, ◌≡◌, ◌≢◌, refl, sym, ap, ◌∙◌, subst, ◌⊎◌, inl, inr, Bool,
  List, if◌then◌else◌, ltb, ◌==◌, ◌&&◌, update, update_self, update_ne, arith, ==_of_eq,
}
use lockfree_mpmc_queue.Base.Word.{cast}
use lockfree_mpmc_queue.Hash.{Signature, make_signature, add_value}
use lockfree_mpmc_queue.Service.{Service, weigh}
use lockfree_mpmc_queue.Service.Totals.{total, total_change, total_part}
use lockfree_mpmc_queue.Gtest.Streams.{
  value_of, seq_of, id_of, Plan, Maker, hashing, pushing, leaving, made, Taker, locking, checking,
  adding, retreating, unlocking, HashTest,
}

-- The signature of the first `k` values of a producer.
abbrev pub chain : ℕ → Signature
chain zero = make_signature 0
chain (suc k) = add_value (chain k) (cast 32 (k * k))

pub chain-count : (k : ℕ) → (chain k).count ≡ cast 64 k
unfolding make_signature add_value
chain-count zero = refl
chain-count (suc k) =
    ap (λ n. cast 64 (n + 1)) (chain-count k)
    ∙ mod-add-mod k (2 ^ 64) 1
    ∙ ap (cast 64) {y = suc k} (omega arith)

-- An element is of a producer.
abbrev pub of : ℕ → ℕ → ℕ
of p d = if id_of d == p then 1 else 0

-- An element is of no producer, or has not the value of its number.
abbrev pub bad : Plan → ℕ → ℕ
bad u d = if ltb (id_of d) u.producers && value_of d == cast 32 (seq_of d * seq_of d) then 0 else 1

-- How many elements of a producer a consumer has popped and not hashed.
abbrev pub carries : ℕ → Taker → ℕ
carries p (locking d) = of p d
carries p (checking d) = of p d
carries p (adding d) = of p d
carries p (retreating d) = of p d
carries p _ = 0

-- A consumer holds the lock of a producer.
abbrev pub inside : ℕ → Taker → ℕ
inside p (checking d) = of p d
inside p (adding d) = of p d
inside p (retreating d) = of p d
inside p (unlocking d) = of p d
inside p _ = 0

abbrev pub faults : Plan → Taker → ℕ
faults u (locking d) = bad u d
faults u (checking d) = bad u d
faults u (adding d) = bad u d
faults u (retreating d) = bad u d
faults u _ = 0

-- A consumer that is about to hash holds the next value of its producer.
abbrev pub IsMatched : (ℕ → ℕ) → Taker → Type 0
IsMatched done (adding d) = seq_of d ≡ done (id_of d)
IsMatched done _ = Unit {0}

-- How many values a producer has pushed, and hashed.
abbrev pub pushed : Plan → Maker → ℕ
pushed u (hashing i) = i
pushed u (pushing i) = i
pushed u leaving = u.loops
pushed u made = u.loops

abbrev pub hashed : Plan → Maker → ℕ
hashed u (hashing i) = i
hashed u (pushing i) = suc i
hashed u leaving = u.loops
hashed u made = u.loops

abbrev pub IsMaker : Plan → Maker → Type 0
IsMaker u (hashing i) = i ≤ u.loops
IsMaker u (pushing i) = i < u.loops
IsMaker u _ = Unit {0}

abbrev pub bit : Bool → ℕ
bit locked = if locked then 1 else 0

pub record Kept {S : Service} (u : Plan) (b : HashTest S) : Type 0 where
  pub held : List ℕ
  pub done : ℕ → ℕ
  pub holds : S.Holds b.queue held
  pub good : weigh (bad u) held ≡ 0
  pub counts :
      (p : ℕ)
      → p < u.producers
      → weigh (of p) held + total u.consumers (λ j. carries p (b.taker j)) + done p
        ≡ pushed u (b.maker p)
  pub locked : (p : ℕ) → total u.consumers (λ j. inside p (b.taker j)) ≡ bit (b.locks p)
  pub hin_is : (p : ℕ) → p < u.producers → b.hin p ≡ chain (hashed u (b.maker p))
  pub hout_is : (p : ℕ) → b.hout p ≡ chain (done p)
  pub makers : (p : ℕ) → IsMaker u (b.maker p)
  pub takers : (j : ℕ) → faults u (b.taker j) ≡ 0
  pub matched : (j : ℕ) → j < u.consumers → IsMatched done (b.taker j)

-- What holds of each place holds of each after one has changed.
pub update-each {ℓ} :
    {A : Type ℓ} (P : ℕ → A → Type 0) (f : ℕ → A) (i : ℕ) (a : A)
    → P i a
    → ((j : ℕ) → j ≢ i → P j (f j))
    → (j : ℕ) → P j (update f i a j)
update-each P f i a here elsewhere j = elim (ℕ_discrete j i) [
  | yes e ↦ subst (λ k. P k (update f i a k)) (sym e) (subst (P i) (sym (update_self f i a)) here)
  | no ne ↦ subst (P j) (sym (update_ne f i j a ne)) (elsewhere j ne)
]

pub total-move :
    (n j : ℕ) (f : Taker → ℕ) (w : ℕ → Taker) (t : Taker)
    → j < n
    → total n (λ k. f (update w j t k)) + f (w j) ≡ total n (λ k. f (w k)) + f t
total-move n j f w t within =
    total_change n j (λ k. f (w k)) (λ k. f (update w j t k)) within
      (λ k other. ap f (update_ne w j k t other))
    ∙ ap (λ x. total n (λ k. f (w k)) + f x) (update_self w j t)

total_two : (n : ℕ) (f : ℕ → ℕ) (i j : ℕ) → i < n → j < n → i ≢ j → f i + f j ≤ total n f
total_two zero f i j p q ne = absurd (omega arith)
total_two (suc n) f i j p q ne = elim (ℕ_discrete i n) [
  | yes last ↦ rw last (omega (arith, total_part n f j (omega (arith, ne, last))))
  | no other ↦ elim (ℕ_discrete j n) [
    | yes last ↦ rw last (omega (arith, total_part n f i (omega arith)))
    | no neither ↦ omega (arith, total_two n f i j (omega arith) (omega arith) ne)
  ]
]

module _ {S : Service} {u : Plan} {b : HashTest S} (v : Kept u b) (j : ℕ)
    (within : j < u.consumers) where
  -- While a consumer holds the lock of a producer, no other is about to hash a value of it.
  IsMatched-still :
      (done' : ℕ → ℕ) (k : ℕ)
      → k < u.consumers
      → k ≢ j
      → ((p : ℕ) → (done' p ≡ v.done p) ⊎ (inside p (b.taker j) ≡ 1))
      → (t : Taker) → b.taker k ≡ t
      → IsMatched v.done t
      → IsMatched done' t
  IsMatched-still done' k also ne others (adding d) e m = elim (others (id_of d)) [
    | inl same ↦ m ∙ sym same
    | inr holds ↦
        let p = id_of d in
        let mine : inside p (b.taker k) ≡ 1 = ap (inside p) e ∙ rw (==_of_eq p p refl) refl in
        absurd (
          ground (
            arith,
            total_two u.consumers (λ i. inside p (b.taker i)) k j also within ne,
            v.locked p,
            mine,
            holds,
          ))
  ]
  IsMatched-still done' k also ne others t e m = tt

-- What a consumer's step leaves, and what it owes to the invariant.
pub record Moved {S : Service} {u : Plan} {b : HashTest S} (v : Kept u b) (j : ℕ) : Type 0 where
  pub queue : S.State
  pub hout : ℕ → Signature
  pub locks : ℕ → Bool
  pub place : Taker
  pub rest : List ℕ
  pub done' : ℕ → ℕ
  pub still_holds : S.Holds queue rest
  pub still_good : weigh (bad u) rest ≡ 0
  pub same_count :
      (p : ℕ)
      → weigh (of p) rest + carries p place + done' p
        ≡ weigh (of p) v.held + carries p (b.taker j) + v.done p
  pub same_locked :
      (p : ℕ) → inside p place + bit (b.locks p) ≡ inside p (b.taker j) + bit (locks p)
  pub still_hout : (p : ℕ) → hout p ≡ chain (done' p)
  pub no_fault : faults u place ≡ 0
  pub is_matched : IsMatched done' place
  pub others : (p : ℕ) → (done' p ≡ v.done p) ⊎ (inside p (b.taker j) ≡ 1)

abbrev pub moved :
    {S : Service} {u : Plan} {b : HashTest S} {v : Kept u b} {j : ℕ} → Moved v j → HashTest S
moved {b = b} {j = j} m = record b {
  queue = m.queue;
  hout = m.hout;
  locks = m.locks;
  taker = update b.taker j m.place;
}

pub Kept-moved :
    {S : Service} {u : Plan} {b : HashTest S} (v : Kept u b) (j : ℕ)
    → j < u.consumers
    → (m : Moved v j) → Kept u (moved m)
Kept-moved {u = u} {b = b} v j within m = record {
  held = m.rest;
  done = m.done';
  holds = m.still_holds;
  good = m.still_good;
  counts = λ p known. omega (
    arith,
    v.counts p known,
    m.same_count p,
    total-move u.consumers j (carries p) b.taker m.place within,
  );
  locked = λ p. omega (
    arith,
    v.locked p,
    m.same_locked p,
    total-move u.consumers j (inside p) b.taker m.place within,
  );
  hin_is = v.hin_is;
  hout_is = m.still_hout;
  makers = v.makers;
  takers = update-each (λ k t. faults u t ≡ 0) b.taker j m.place m.no_fault (λ k ne. v.takers k);
  matched =
      update-each (λ k t. k < u.consumers → IsMatched m.done' t) b.taker j m.place
        (λ p. m.is_matched)
        (λ k ne also.
          IsMatched-still v j within m.done' k also ne m.others (b.taker k) refl
            (v.matched k also));
}
