-- ===== src/Bandwidth/Result.antt =====
-- A run of the benchmark and its end.
use lockfree_mpmc_queue.Base.{
  ℕ, ◌≡◌, refl, sym, ap, subst, Bool, true, false, Bool-cases, inl, inr, List, [], ◌∷◌, arith, ltb,
}
use lockfree_mpmc_queue.Base.Word.{cast}
use lockfree_mpmc_queue.Service.{Service}
use lockfree_mpmc_queue.Service.Totals.{total_zero}
use lockfree_mpmc_queue.Service.Totals.{none_of_count}
use lockfree_mpmc_queue.Bandwidth.{
  Setup, Bench, Turn, writes, reads, leads, gives_up, begin, take_turn, take_turns, done,
  writer_step, reader_step,
}
use lockfree_mpmc_queue.Bandwidth.Fair.{Fair, Fair-writer, Fair-reader}
use lockfree_mpmc_queue.Bandwidth.Phases.{IsFit}
use lockfree_mpmc_queue.Bandwidth.Writes.{WriterKeeps-writer_step}
use lockfree_mpmc_queue.Bandwidth.Reads.{ReaderKeeps-reader_step}
use lockfree_mpmc_queue.Bandwidth.Leads.{Fair-main_step}

-- The main thread never finds that it has waited too long.
abbrev pub is_patient : List Turn → Bool
is_patient [] = true
is_patient (gives_up ∷ turns) = false
is_patient (_ ∷ turns) = is_patient turns

Fair-begin : {S : Service} (u : Setup) (q : S.State) → S.Holds q [] → Fair u (begin S q)
unfolding begin
Fair-begin {S} u q h = record {
  held = [];
  holds = h;
  balance = ap (cast 64) (omega (arith, total_zero u.producers, total_zero u.consumers));
  writers_there = sym (total_zero u.producers);
  readers_there = sym (total_zero u.consumers);
  state_is = refl;
  writers_wait = λ h i. omega arith;
  readers_wait = λ h i. omega arith;
  readers_came = λ h. absurd (omega arith);
  writers_came = λ h. absurd (omega arith);
  writers_left = λ h. absurd (omega arith);
  late = λ i h. absurd (omega arith);
  emptied = λ i h. refl;
  readers_left = λ h. absurd (omega arith);
  result = λ m n h. cc h;
}

module _ {S : Service} {u : Setup} (fit : IsFit u) where
  Fair-take_turns :
      (turns : List Turn) (b : Bench S)
      → is_patient turns ≡ true
      → Fair u b
      → Fair u (take_turns S u b turns)
  unfolding take_turns take_turn
  Fair-take_turns [] b patient v = v
  Fair-take_turns (writes i ∷ turns) b patient v = elim (Bool-cases (ltb i u.producers)) [
    | inl within ↦ rw within (
        Fair-take_turns turns _ patient (
          Fair-writer v i (ground (arith, within)) (writer_step S u b i (b.writer i))
            (WriterKeeps-writer_step fit v i (ground (arith, within)) (b.writer i) refl)))
    | inr beyond ↦ rw beyond (Fair-take_turns turns b patient v)
  ]
  Fair-take_turns (reads i ∷ turns) b patient v = elim (Bool-cases (ltb i u.consumers)) [
    | inl within ↦ rw within (
        Fair-take_turns turns _ patient (
          Fair-reader v i (ground (arith, within)) (reader_step S b i (b.reader i))
            (ReaderKeeps-reader_step fit v i (ground (arith, within)) (b.reader i) refl)))
    | inr beyond ↦ rw beyond (Fair-take_turns turns b patient v)
  ]
  Fair-take_turns (leads ∷ turns) b patient v =
      Fair-take_turns turns _ patient (Fair-main_step fit v b.main refl)
  Fair-take_turns (gives_up ∷ turns) b patient v = cc patient

-- From a service that holds nothing, with at least one reader, fewer than 2^32 - 1 threads of each kind,
-- and a main thread that never gives up waiting: in every order of the threads' steps, when the run
-- reaches its end the sum of what was pushed is the sum of what was popped, in 64-bit words, and the
-- service holds nothing again.
pub take_turns-balanced :
    (S : Service) (u : Setup) (q : S.State) (turns : List Turn) (pushes pops : ℕ)
    → IsFit u
    → S.Holds q []
    → is_patient turns ≡ true
    → (take_turns S u (begin S q) turns).main ≡ done pushes pops
    → (pushes ≡ pops) × S.Holds (take_turns S u (begin S q) turns).queue []
take_turns-balanced S u q turns pushes pops fit h patient e =
    let v = Fair-take_turns fit turns (begin S q) patient (Fair-begin u q h) in
    let (same, gone) = v.result pushes pops e in
    (
      same,
      subst (λ xs. S.Holds (take_turns S u (begin S q) turns).queue xs) (none_of_count v.held gone)
          v.holds,
    )
