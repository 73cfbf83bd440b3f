-- ===== src/Queue/Push/Current.antt =====
-- One pass of the loop of `push`, in each situation of a queue that holds a list.
use native.Mathlib.Nat.{add-mod_right}
use native.Mathlib.Decide.{dec_le}
use lockfree_mpmc_queue.Base.{
  ℕ, ◌+◌, ◌*◌, ◌%◌, ◌≤◌, ◌<◌, ◌≡◌, refl, List, length, arith, sym, ◌^◌, ◌∙◌, ap,
}
use lockfree_mpmc_queue.Base.Word.{cast}
use lockfree_mpmc_queue.Queue.{Queue, slot}
use lockfree_mpmc_queue.Queue.Shape.{Holds, cell, slot-cell, size_pos, size_small}
use lockfree_mpmc_queue.Queue.Push.{PushCase, insert, help, refuse, push_case}
use lockfree_mpmc_queue.Queue.Push.Cases.{push_choice, push_case-cast}

module _ {q : Queue} {h wr rd : ℕ} {xs : List ℕ} (v : Holds q h xs wr rd) where
  -- The case that `push` takes at the current write index.
  abbrev case_now : PushCase
  case_now = push_case q.config q.write_index (slot q q.write_index).seq

  -- The slot of the current write index serves write `j`.
  case_of_cell :
      (j s : ℕ)
      → h ≤ j
      → j < h + q.size
      → j % q.size ≡ wr % q.size
      → (cell q.config h xs j).seq ≡ cast q.bits s
      → s + q.size * 2 ≤ wr * 2 + 2 ^ q.bits
      → (wr + q.size) * 2 < s + 2 ^ q.bits
      → case_now ≡ push_choice q.size wr s
  case_of_cell j s lo hi e f near far =
      ap (λ w. push_case q.config w (slot q w).seq) v.write_word
      ∙ rw (slot-cell v wr j lo hi e, f) (push_case-cast wr s v.shape near far)

  pub case_lagging : wr < h + length xs → case_now ≡ help
  case_lagging lags =
      let pos = size_pos v.shape in
      let small = size_small v.shape in
      elim (dec_le h wr) [
        | yes p ↦
            case_of_cell wr (wr * 2 + 1) p (omega arith) refl (ground arith) (omega arith)
              (omega arith)
            ∙ ground arith
        | no p ↦
            case_of_cell (wr + q.size) ((wr + q.size) * 2) (omega arith) (omega arith)
              (add-mod_right wr q.size) (ground arith) (omega arith) (omega arith)
            ∙ ground arith
      ]

  pub case_free : wr ≡ h + length xs → length xs < q.size → case_now ≡ insert
  case_free e room =
      let small = size_small v.shape in
      case_of_cell wr (wr * 2) (omega arith) (omega arith) refl (ground arith) (omega arith)
        (omega arith)
      ∙ ground arith

  pub case_full : wr ≡ h + length xs → length xs ≡ q.size → case_now ≡ refuse
  case_full e full =
      let pos = size_pos v.shape in
      let small = size_small v.shape in
      case_of_cell h (h * 2 + 1) (omega arith) (omega arith)
        (sym (add-mod_right h q.size) ∙ ap (λ t. t % q.size) (omega arith)) (ground arith)
        (omega arith) (omega arith)
      ∙ ground arith
