-- ===== src/Gtest/Streams/Result.antt =====
-- src/gtest_mpmc_queue.cpp, the test hash3: the signatures when all threads have ended.
use native.Mathlib.Nat.{mod-eq_of_lt}
use lockfree_mpmc_queue.Base.{
  ℕ, zero, suc, ◌+◌, ◌-◌, ◌≤◌, ◌<◌, ◌≡◌, ◌^◌, refl, sym, ap, ◌∙◌, inl, inr, true, Bool-cases, List,
  [], ◌∷◌, ltb, arith, ◌&&◌, ==_of_eq,
}
use lockfree_mpmc_queue.Base.Word.{cast}
use lockfree_mpmc_queue.Hash.{same_signature}
use lockfree_mpmc_queue.Service.{Service, weigh}
use lockfree_mpmc_queue.Service.Totals.{total, total_same, total_zero}
use lockfree_mpmc_queue.Gtest.Streams.{
  Plan, made, finished, HashTest, begin, main_step, Turn, waits, makes, takes, take_turn,
  take_turns, all_same,
}
use lockfree_mpmc_queue.Gtest.Streams.Kept.{chain, of, carries, pushed, hashed, Kept}
use lockfree_mpmc_queue.Gtest.Streams.Makers.{Kept-maker}
use lockfree_mpmc_queue.Gtest.Streams.Takers.{Kept-taker}

Kept-begin : {S : Service} (u : Plan) (q : S.State) → S.Holds q [] → Kept u (begin S u q)
unfolding begin
Kept-begin u q h = record {
  held = [];
  done = λ p. 0;
  holds = h;
  good = refl;
  counts = λ p known. omega (arith, total_zero u.consumers);
  locked = λ p. total_zero u.consumers;
  hin_is = λ p known. refl;
  hout_is = λ p. refl;
  makers = λ p. omega arith;
  takers = λ j. refl;
  matched = λ j within. tt;
}

Kept-started :
    {S : Service} {u : Plan} {b : HashTest S} → Kept u b → Kept u (record b { started = true })
Kept-started v = record {
  held = v.held;
  done = v.done;
  holds = v.holds;
  good = v.good;
  counts = v.counts;
  locked = v.locked;
  hin_is = v.hin_is;
  hout_is = v.hout_is;
  makers = v.makers;
  takers = v.takers;
  matched = v.matched;
}

module _ {S : Service} {u : Plan} (few : u.loops < 2 ^ 32) (told_apart : u.producers ≤ 2 ^ 8) where
  Kept-take_turn : (b : HashTest S) (t : Turn) → Kept u b → Kept u (take_turn S u b t)
  unfolding take_turn main_step
  Kept-take_turn b waits v = elim (Bool-cases (S.is_empty b.queue)) [
    | inl empty ↦ rw empty v
    | inr not_empty ↦ rw not_empty (Kept-started v)
  ]
  Kept-take_turn b (makes p) v = elim (Bool-cases (ltb p u.producers)) [
    | inl known ↦
        let small : p < u.producers = ground (arith, known) in
        let id : cast 8 p ≡ p = mod-eq_of_lt (omega arith) in
        rw (known, id) (Kept-maker v p small few (b.maker p) refl)
    | inr unknown ↦ rw unknown v
  ]
  Kept-take_turn b (takes j) v = elim (Bool-cases (b.started && ltb j u.consumers)) [
    | inl within ↦ rw within (Kept-taker few v j (ground (arith, within)) (b.taker j) refl)
    | inr beyond ↦ rw beyond v
  ]

  Kept-take_turns :
      (turns : List Turn) (b : HashTest S) → Kept u b → Kept u (take_turns S u b turns)
  unfolding take_turns
  Kept-take_turns [] b v = v
  Kept-take_turns (t ∷ turns) b v = Kept-take_turns turns (take_turn S u b t) (Kept-take_turn b t v)

-- Every thread has ended.
abbrev pub AllEnded : {S : Service} → Plan → HashTest S → Type 0
AllEnded u b =
    ((p : ℕ) → p < u.producers → b.maker p ≡ made)
    × ((j : ℕ) → j < u.consumers → b.taker j ≡ finished)

-- For the elements that the queue still holds: `hin_a` of a producer is the signature of all its values
-- in order, and `hout_a` that of the first of them, all but as many as are left.
abbrev pub IsHashed : {S : Service} → Plan → HashTest S → ℕ → Type 0
IsHashed {S} u b p =
    (left : List ℕ) × S.Holds b.queue left
    × (b.hin p ≡ chain u.loops)
    × (b.hout p ≡ chain (u.loops - weigh (of p) left))

module _ {S : Service} {u : Plan} {b : HashTest S} (v : Kept u b) (over : AllEnded u b) where
  all_done : (p : ℕ) → p < u.producers → weigh (of p) v.held + v.done p ≡ u.loops
  all_done p known =
      let idle : total u.consumers (λ j. carries p (b.taker j)) ≡ 0 =
        total_same u.consumers _ _ (λ j within. ap (carries p) (over.1 j within))
        ∙ total_zero u.consumers in
      omega (arith, idle, v.counts p known, ap (pushed u) (over.0 p known))

  all_hashed : (p : ℕ) → p < u.producers → b.hin p ≡ chain u.loops
  all_hashed p known = v.hin_is p known ∙ ap (λ m. chain (hashed u m)) (over.0 p known)

  Kept-IsHashed : (p : ℕ) → p < u.producers → IsHashed u b p
  Kept-IsHashed p known = (
    v.held,
    v.holds,
    all_hashed p known,
    v.hout_is p ∙ ap chain (omega (arith, all_done p known)),
  )

  Kept-all_same :
      ((p : ℕ) → weigh (of p) v.held ≡ 0) → (n : ℕ) → n ≤ u.producers → all_same S n b ≡ true
  unfolding all_same same_signature
  Kept-all_same gone zero known = refl
  Kept-all_same gone (suc n) known =
      let same : b.hin n ≡ b.hout n =
        all_hashed n known
        ∙ ap chain (omega (arith, all_done n known, gone n))
        ∙ sym (v.hout_is n) in
      rw
        (
          Kept-all_same gone n (omega arith),
          same,
          ==_of_eq (b.hout n).state (b.hout n).state refl,
          ==_of_eq (b.hout n).count (b.hout n).count refl,
        )
        refl

module _ (S : Service) (u : Plan) (q : S.State) (turns : List Turn) (few : u.loops < 2 ^ 32)
    (told_apart : u.producers ≤ 2 ^ 8) (start : S.Holds q [])
    (over : AllEnded u (take_turns S u (begin S u q) turns)) where
  ended-Kept : Kept u (take_turns S u (begin S u q) turns)
  ended-Kept = Kept-take_turns few told_apart turns (begin S u q) (Kept-begin u q start)

  -- From a service that holds nothing, with fewer than 2^32 loops and at most 256 producers, in every
  -- order of the threads' steps: once every thread has ended, a producer's signature `hin_a` is that of
  -- all its values, and `hout_a` is that of its first values in their order, all but as many as are
  -- left in the queue.
  pub take_turns-hashes :
      (p : ℕ) → p < u.producers → IsHashed u (take_turns S u (begin S u q) turns) p
  take_turns-hashes p known = Kept-IsHashed ended-Kept over p known

  -- From a service that holds nothing, with fewer than 2^32 loops and at most 256 producers, in every
  -- order of the threads' steps: once every thread has ended, and if the queue is then empty, the test's
  -- comparison of all signatures is true.
  take_turns-all_same :
      S.is_empty (take_turns S u (begin S u q) turns).queue ≡ true
      → all_same S u.producers (take_turns S u (begin S u q) turns) ≡ true
  take_turns-all_same empty =
      let v = ended-Kept in
      Kept-all_same v over (λ p. S.is_empty_law _ v.held v.holds empty (of p)) u.producers
        (omega arith)
