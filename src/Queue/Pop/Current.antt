-- ===== src/Queue/Pop/Current.antt =====
-- The case that `pop` takes at the current read index of a queue that holds a list.
use native.Mathlib.Nat.{add-mod_right}
use native.Mathlib.Decide.{dec_lt}
use lockfree_mpmc_queue.Base.{
  ℕ, ◌+◌, ◌*◌, ◌%◌, ◌^◌, ◌≤◌, ◌<◌, ◌≡◌, ap, refl, ◌∙◌, List, length, arith,
}
use lockfree_mpmc_queue.Base.Word.{cast}
use lockfree_mpmc_queue.Queue.{Queue, slot}
use lockfree_mpmc_queue.Queue.Shape.{Holds, cell, slot-cell, size_pos, size_small}
use lockfree_mpmc_queue.Queue.Pop.{PopCase, take, help, refuse, pop_case}
use lockfree_mpmc_queue.Queue.Pop.Cases.{pop_choice, pop_case-cast}

module _ {q : Queue} {h wr rd : ℕ} {xs : List ℕ} (v : Holds q h xs wr rd) where
  abbrev case_now : PopCase
  case_now = pop_case q.config q.read_index (slot q q.read_index).seq

  -- The slot of the current read index serves write `j`.
  case_of_cell :
      (j s : ℕ)
      → h ≤ j
      → j < h + q.size
      → j % q.size ≡ rd % q.size
      → (cell q.config h xs j).seq ≡ cast q.bits s
      → s < rd * 2 + 2 ^ q.bits
      → (rd + q.size) * 2 + 1 < s + 2 ^ q.bits
      → case_now ≡ pop_choice q.size rd s
  case_of_cell j s lo hi e f near far =
      ap (λ w. pop_case q.config w (slot q w).seq) v.read_word
      ∙ rw (slot-cell v rd j lo hi e, f) (pop_case-cast rd s v.shape near far)

  pub case_lagging : rd < h → case_now ≡ help
  case_lagging lags =
      let pos = size_pos v.shape in
      let small = size_small v.shape in
      elim (dec_lt (rd + q.size) (h + length xs)) [
        | yes p ↦
            case_of_cell (rd + q.size) ((rd + q.size) * 2 + 1) (omega arith) (omega arith)
              (add-mod_right rd q.size) (ground arith) (omega arith) (omega arith)
            ∙ ground arith
        | no p ↦
            case_of_cell (rd + q.size) ((rd + q.size) * 2) (omega arith) (omega arith)
              (add-mod_right rd q.size) (ground arith) (omega arith) (omega arith)
            ∙ ground arith
      ]

  pub case_full : rd ≡ h → 0 < length xs → case_now ≡ take
  case_full e some_left =
      let pos = size_pos v.shape in
      let small = size_small v.shape in
      case_of_cell rd (rd * 2 + 1) (omega arith) (omega arith) refl (ground arith) (omega arith)
        (omega arith)
      ∙ ground arith

  pub case_empty : rd ≡ h → length xs ≡ 0 → case_now ≡ refuse
  case_empty e none_left =
      let pos = size_pos v.shape in
      let small = size_small v.shape in
      case_of_cell rd (rd * 2) (omega arith) (omega arith) refl (ground arith) (omega arith)
        (omega arith)
      ∙ ground arith
