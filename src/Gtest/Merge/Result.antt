-- ===== src/Gtest/Merge/Result.antt =====
-- src/gtest_mpmc_queue.cpp, the test hash2: the signatures when all threads have ended.
use native.Mathlib.Nat.{mod-eq_of_lt}
use lockfree_mpmc_queue.Base.{
  ℕ, zero, suc, ◌+◌, ◌≤◌, ◌<◌, ◌≡◌, ◌^◌, refl, sym, ap, ◌∙◌, inl, inr, true, Bool-cases, List, [],
  ◌∷◌, ltb, arith, ==_of_eq, subst, if◌then◌else◌, ◌++◌,
}
use lockfree_mpmc_queue.Base.Word.{cast}
use lockfree_mpmc_queue.Hash.{same_signature}
use lockfree_mpmc_queue.Service.Lines.{Line}
use lockfree_mpmc_queue.Gtest.Streams.{Plan, made}
use lockfree_mpmc_queue.Gtest.Streams.Kept.{pushed, hashed}
use lockfree_mpmc_queue.Gtest.Merge.{
  Merge, finished, sink_step, begin, Turn, waits, makes, takes, take_turn, take_turns, all_equal,
}
use lockfree_mpmc_queue.Gtest.Merge.Kept.{chain, only, stream, hand, Kept, Kept-source}
use lockfree_mpmc_queue.Gtest.Merge.Sinks.{Kept-sink}

Kept-begin : {L : Line} (u : Plan) (q : L.State) → L.Holds q [] → Kept u (begin L u q)
unfolding begin
Kept-begin u q h = record {
  held = [];
  holds = h;
  flows = λ p known. record {
    done = 0;
    left = 0;
    total = refl;
    order = refl;
    in_is = refl;
    out_is = refl;
    at = omega arith;
  };
}

Kept-started : {L : Line} {u : Plan} {b : Merge L} → Kept u b → Kept u (record b { started = true })
Kept-started v = record { held = v.held; holds = v.holds; flows = v.flows }

module _ {L : Line} {u : Plan} (few : u.loops < 2 ^ 64) (told_apart : u.producers ≤ 2 ^ 8) where
  Kept-take_turn : (b : Merge L) (t : Turn) → Kept u b → Kept u (take_turn L u b t)
  unfolding take_turn
  Kept-take_turn b waits v = elim (Bool-cases (L.is_empty b.queue)) [
    | inl empty ↦ rw empty v
    | inr not_empty ↦ rw not_empty (Kept-started v)
  ]
  Kept-take_turn b (makes p) v = elim (Bool-cases (ltb p u.producers)) [
    | inl known ↦
        let small : p < u.producers = ground (arith, known) in
        let id : cast 8 p ≡ p = mod-eq_of_lt (omega arith) in
        rw (known, id) (Kept-source few v p small (b.maker p) refl)
    | inr unknown ↦ rw unknown v
  ]
  Kept-take_turn b takes v = elim (Bool-cases b.started) [
    | inl on ↦
        subst (λ s. Kept u (if s then sink_step L b b.sink else b)) (sym on)
          (Kept-sink few v b.sink refl)
    | inr off ↦ subst (λ s. Kept u (if s then sink_step L b b.sink else b)) (sym off) v
  ]

  Kept-take_turns : (turns : List Turn) (b : Merge L) → Kept u b → Kept u (take_turns L u b turns)
  unfolding take_turns
  Kept-take_turns [] b v = v
  Kept-take_turns (t ∷ turns) b v = Kept-take_turns turns (take_turn L u b t) (Kept-take_turn b t v)

-- Every thread has ended.
abbrev pub AllOver : {L : Line} → Plan → Merge L → Type 0
AllOver u b = ((p : ℕ) → p < u.producers → b.maker p ≡ made) × (b.sink ≡ finished)

-- For the elements that the queue still holds: `hin_a` of a producer is the signature of all its numbers
-- in order, `hout_a` that of the first `done` of them, and the elements of the producer are its other
-- numbers in order.
abbrev pub IsMerged : {L : Line} → Plan → Merge L → ℕ → Type 0
IsMerged {L} u b p =
    (left : List ℕ) × L.Holds b.queue left
    × ((done : ℕ) × (n : ℕ) × (done + n ≡ u.loops)
        × (b.hin p ≡ chain u.loops)
        × (b.hout p ≡ chain done)
        × (only p left ≡ stream p done n))

module _ {L : Line} {u : Plan} {b : Merge L} (v : Kept u b) (over : AllOver u b) where
  Kept-IsMerged : (p : ℕ) → p < u.producers → IsMerged u b p
  Kept-IsMerged p known =
      let f = v.flows p known in
      (
        v.held,
        v.holds,
        (
          f.done,
          f.left,
          f.total ∙ ap (pushed u) (over.0 p known),
          f.in_is ∙ ap (λ m. chain (hashed u m)) (over.0 p known),
          f.out_is,
          ap (λ s. only p (hand s ++ v.held)) (sym over.1) ∙ f.order,
        ),
      )

  all_out : (p : ℕ) → p < u.producers → v.held ≡ [] → b.hin p ≡ b.hout p
  all_out p known gone =
      let f = v.flows p known in
      let total : f.done + f.left ≡ u.loops = f.total ∙ ap (pushed u) (over.0 p known) in
      let none_left : f.left ≡ 0 =
        stream-none p f.done f.left
          (ap (only p) (sym gone) ∙ ap (λ s. only p (hand s ++ v.held)) (sym over.1) ∙ f.order) in
      f.in_is
      ∙ ap (λ m. chain (hashed u m)) (over.0 p known)
      ∙ ap chain (omega (arith, total, none_left))
      ∙ sym f.out_is
    where
      stream-none : (p k n : ℕ) → [] ≡ stream p k n → n ≡ 0
      stream-none p k zero e = refl
      stream-none p k (suc n) e = absurd (cc e)

  Kept-all_equal : v.held ≡ [] → (n : ℕ) → n ≤ u.producers → all_equal L n b ≡ true
  unfolding all_equal same_signature
  Kept-all_equal gone zero known = refl
  Kept-all_equal gone (suc n) known =
      rw
        (
          Kept-all_equal gone n (omega arith),
          all_out n (omega arith) gone,
          ==_of_eq (b.hout n).state (b.hout n).state refl,
          ==_of_eq (b.hout n).count (b.hout n).count refl,
        )
        refl

module _ (L : Line) (u : Plan) (q : L.State) (turns : List Turn) (few : u.loops < 2 ^ 64)
    (told_apart : u.producers ≤ 2 ^ 8) (start : L.Holds q [])
    (over : AllOver u (take_turns L u (begin L u q) turns)) where
  over-Kept : Kept u (take_turns L u (begin L u q) turns)
  over-Kept = Kept-take_turns few told_apart turns (begin L u q) (Kept-begin u q start)

  -- Over a queue that keeps the order and holds nothing at the start, with fewer than 2^64 loops and at
  -- most 256 producers, in every order of the threads' steps: once every thread has ended, the queue
  -- holds some elements, and for each producer hin_a is the signature of all its numbers in order,
  -- hout_a that of the first of them, and the elements of the producer that are left in the queue are
  -- exactly its other numbers, in order.
  pub take_turns-IsMerged :
      (p : ℕ) → p < u.producers → IsMerged u (take_turns L u (begin L u q) turns) p
  take_turns-IsMerged p known = Kept-IsMerged over-Kept over p known

  -- Under the same conditions: once every thread has ended, and if the queue is then empty, the test's
  -- comparison of all signatures is true.
  take_turns-all_equal :
      L.is_empty (take_turns L u (begin L u q) turns).queue ≡ true
      → all_equal L u.producers (take_turns L u (begin L u q) turns) ≡ true
  take_turns-all_equal empty =
      let v = over-Kept in
      Kept-all_equal v over (L.is_empty_law _ v.held v.holds empty) u.producers (omega arith)
