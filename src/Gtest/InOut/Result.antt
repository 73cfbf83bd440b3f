-- ===== src/Gtest/InOut/Result.antt =====
-- src/gtest_mpmc_queue.cpp, the test HashInputOutput: the signatures at the end.
use lockfree_mpmc_queue.Base.{
  ℕ, ◌+◌, ◌<◌, ◌^◌, ◌≡◌, refl, sym, ap, ◌∙◌, subst, true, List, [], ◌∷◌, arith, ==_of_eq,
}
use lockfree_mpmc_queue.Hash.{same_signature}
use lockfree_mpmc_queue.Service.Lines.{Line}
use lockfree_mpmc_queue.Gtest.Counting.{numbers}
use lockfree_mpmc_queue.Gtest.InOut.{
  wrote, ended, InOut, Turn, writes, reads, take_turn, take_turns, begin,
}
use lockfree_mpmc_queue.Gtest.InOut.Kept.{chain, pushed, taken, Kept, Kept-writer, Kept-reader}

Kept-take_turns :
    {L : Line} {loops : ℕ} (few : loops < 2 ^ 32) (turns : List Turn) (b : InOut L)
    → Kept loops b
    → Kept loops (take_turns L loops b turns)
unfolding take_turns take_turn
Kept-take_turns few [] b v = v
Kept-take_turns few (writes ∷ turns) b v =
    Kept-take_turns few turns _ (Kept-writer few v b.writer refl)
Kept-take_turns few (reads ∷ turns) b v =
    Kept-take_turns few turns _ (Kept-reader few v b.reader refl)

Kept-begin : {L : Line} (loops : ℕ) (q : L.State) → L.Holds q [] → Kept loops (begin {L = L} q)
unfolding begin
Kept-begin loops q h = record {
  count = 0;
  total = refl;
  holds = h;
  in_is = refl;
  out_is = refl;
  at_writer = omega arith;
  at_reader = omega arith;
}

-- Both signatures are those of all numbers, and the queue is empty again.
abbrev pub IsEchoed : {L : Line} → ℕ → InOut L → Type 0
IsEchoed {L} loops b =
    L.Holds b.queue [] × (b.h_in ≡ chain loops) × (same_signature b.h_in b.h_out ≡ true)

-- Over a queue that keeps the order and holds nothing, with fewer than 2^32 loops, in every order of the
-- steps of the two threads: once both have ended, `h_in` is the signature of all numbers in order, the
-- test's comparison with `h_out` is true, and the queue holds nothing again.
pub take_turns-IsEchoed :
    (L : Line) (loops : ℕ) (q : L.State) (turns : List Turn)
    → loops < 2 ^ 32
    → L.Holds q []
    → (take_turns L loops (begin q) turns).writer ≡ wrote
    → (take_turns L loops (begin q) turns).reader ≡ ended
    → IsEchoed loops (take_turns L loops (begin q) turns)
unfolding same_signature
take_turns-IsEchoed L loops q turns few start over over' =
    let b = take_turns L loops (begin q) turns in
    let v = Kept-take_turns few turns (begin q) (Kept-begin loops q start) in
    let all_out : b.h_out ≡ chain loops = v.out_is ∙ rw over' refl in
    let all_in : b.h_in ≡ chain loops = v.in_is ∙ rw over refl in
    let sum : loops + v.count ≡ loops =
      ap (λ r. taken loops r + v.count) (sym over') ∙ v.total ∙ ap (pushed loops) over in
    let none_left : v.count ≡ 0 = omega (arith, sum) in
    (
      subst (λ k. L.Holds b.queue (numbers (taken loops b.reader) k)) none_left v.holds,
      all_in,
      rw
          (
            all_in,
            all_out,
            ==_of_eq (chain loops).state (chain loops).state refl,
            ==_of_eq (chain loops).count (chain loops).count refl,
          )
          refl,
    )
