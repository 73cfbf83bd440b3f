-- ===== src/Queue/Glance/Size.antt =====
-- What `empty` and `size` say of a queue that holds a list.
use native.Mathlib.Nat.{one-le-pow, pow-le-pow_right}
use lockfree_mpmc_queue.Base.Word.{mod-add-cases}
use lockfree_mpmc_queue.Base.{◌⊎◌, ◌↔◌}
use lockfree_mpmc_queue.Fifo.{Fifo, next}
use lockfree_mpmc_queue.Queue.Serves.{Serves}
use native.Mathlib.Decide.{dec_lt}
use native.Mathlib.Nat.{add-mod_right, mod-lt}
use lockfree_mpmc_queue.Base.{
  ℕ, ◌+◌, ◌-◌, ◌*◌, ◌%◌, ◌^◌, ◌≤◌, ◌<◌, ◌≡◌, refl, ap, ◌∙◌, true, false, List, length, arith, ◌==◌,
  ◌↔◌,
}
use lockfree_mpmc_queue.Base.Word.{cast, cast-==}
use lockfree_mpmc_queue.Queue.{Config, Queue, slot, empty_seq}
use lockfree_mpmc_queue.Queue.Shape.{Holds, cell, slot-cell, size_pos, size_small, empty_seq-cast}
use lockfree_mpmc_queue.Queue.Glance.{is_empty, size_now}

module _ {q : Queue} {h wr rd : ℕ} {xs : List ℕ} (v : Holds q h xs wr rd) where
  is_empty_of_cell :
      (j s : ℕ)
      → h ≤ j
      → j < h + q.size
      → j % q.size ≡ rd % q.size
      → (cell q.config h xs j).seq ≡ cast q.bits s
      → s < rd * 2 + 2 ^ q.bits
      → rd * 2 < s + 2 ^ q.bits
      → is_empty q ≡ (s == rd * 2)
  unfolding is_empty
  is_empty_of_cell j s lo hi e f near far =
      ap (λ w. (slot q w).seq == empty_seq q.config w) v.read_word
      ∙ rw (slot-cell v rd j lo hi e, f, empty_seq-cast) (cast-== q.bits s (rd * 2) near far)

  pub is_empty-lagging : rd < h → is_empty q ≡ false
  is_empty-lagging lags =
      let pos = size_pos v.shape in
      let small = size_small v.shape in
      elim (dec_lt (rd + q.size) (h + length xs)) [
        | yes p ↦
            is_empty_of_cell (rd + q.size) ((rd + q.size) * 2 + 1) (omega arith) (omega arith)
              (add-mod_right rd q.size) (ground arith) (omega arith) (omega arith)
            ∙ ground arith
        | no p ↦
            is_empty_of_cell (rd + q.size) ((rd + q.size) * 2) (omega arith) (omega arith)
              (add-mod_right rd q.size) (ground arith) (omega arith) (omega arith)
            ∙ ground arith
      ]

  pub is_empty-none : rd ≡ h → length xs ≡ 0 → is_empty q ≡ true
  is_empty-none e none_left =
      let pos = size_pos v.shape in
      let small = size_small v.shape in
      is_empty_of_cell rd (rd * 2) (omega arith) (omega arith) refl (ground arith) (omega arith)
        (omega arith)
      ∙ ground arith

  pub is_empty-some : rd ≡ h → 0 < length xs → is_empty q ≡ false
  is_empty-some e some_left =
      let pos = size_pos v.shape in
      let small = size_small v.shape in
      is_empty_of_cell rd (rd * 2 + 1) (omega arith) (omega arith) refl (ground arith) (omega arith)
        (omega arith)
      ∙ ground arith

-- On a queue that serves a list, `empty()` is true exactly when the list is empty and the read index does not lag: a lagging index,
-- such as each `pop` leaves under `lazy_pop`, makes an empty queue look occupied.
pub is_empty_iff :
    {c : Config} {q : Queue} {f : Fifo} (s : Serves c q f)
    → (is_empty q ≡ true) ↔ ((s.rd ≡ f.read) × (length f.items ≡ 0))
is_empty_iff {c} {q} {f} s = (to, λ (e, none_left). is_empty-none s.holds e none_left)
  where
    to : is_empty q ≡ true → (s.rd ≡ f.read) × (length f.items ≡ 0)
    to yes_empty = elim (dec_lt s.rd f.read) [
      | yes lags ↦ cc (is_empty-lagging s.holds lags)
      | no reached ↦ elim (dec_lt 0 (length f.items)) [
        | yes more ↦ cc (is_empty-some s.holds (omega (arith, s.holds.read_reached)) more)
        | no none_left ↦ (omega (arith, s.holds.read_reached), omega arith)
      ]
    ]

-- The indexes stand where the list does, as they do without `lazy_push` and `lazy_pop` between calls.
abbrev pub IsSettled : {c : Config} {q : Queue} {f : Fifo} → Serves c q f → Type 0
IsSettled {f = f} s = (s.wr ≡ next f) × (s.rd ≡ f.read)

module _ {q : Queue} {h wr rd : ℕ} {xs : List ℕ} (v : Holds q h xs wr rd)
    (at_end : wr ≡ h + length xs) (at_start : rd ≡ h) where
  -- The write word is the read word and the length, less the range of an index if it wrapped.
  write_word_sum :
      ((q.read_index + length xs < 2 ^ q.bits) × (q.write_index ≡ q.read_index + length xs))
      ⊎ ((2 ^ q.bits ≤ q.read_index + length xs)
          × (q.write_index + 2 ^ q.bits ≡ q.read_index + length xs))
  write_word_sum =
      rw (v.write_word, v.read_word, at_end, at_start)
        (mod-add-cases (2 ^ q.bits) h (length xs)
          (omega (arith, size_small v.shape, size_pos v.shape, v.room)))

  read_word_lt : q.read_index < 2 ^ q.bits
  read_word_lt = rw v.read_word (mod-lt rd (one-le-pow q.bits 2 (omega arith)))

  -- While neither index word has wrapped past the other, `size()` is the number of elements.
  size_now-length : q.read_index ≤ q.write_index → size_now q ≡ length xs
  unfolding size_now
  size_now-length order = elim (dec_lt 0 (length xs)) [
    | yes more ↦ ground (
      arith,
      is_empty-some v at_start more,
      write_word_sum,
      size_small v.shape,
      size_pos v.shape,
      v.room,
    )
    | no none_left ↦ ground (arith, is_empty-none v at_start (omega arith))
  ]

  size_now-wrapped :
      q.write_index < q.read_index
      → 2 ^ q.bits ≤ 2 ^ 63
      → size_now q ≡ length xs + q.size + 2 ^ 64 - 2 ^ q.bits
  unfolding size_now
  size_now-wrapped order range = ground (
    arith,
    is_empty-some v at_start (omega (arith, write_word_sum)),
    write_word_sum,
    size_small v.shape,
    size_pos v.shape,
    v.room,
  )

-- Between calls without lazy indexes, and for an index narrower than `size_t`, `size()` is the number
-- of elements exactly while the write index word has not wrapped below the read index word: the
-- source then adds the array's size where the range of an index would be right.
pub size_now_iff :
    {c : Config} {q : Queue} {f : Fifo} (s : Serves c q f)
    → IsSettled s
    → q.bits < 64
    → (size_now q ≡ length f.items) ↔ (q.read_index ≤ q.write_index)
size_now_iff {c} {q} {f} s (at_end, at_start) narrow =
    (to, λ order. size_now-length s.holds at_end at_start order)
  where
    range : 2 ^ q.bits ≤ 2 ^ 63
    range = pow-le-pow_right {n = 2} (omega arith) {i = q.bits} {j = 63} (omega arith)

    to : size_now q ≡ length f.items → q.read_index ≤ q.write_index
    to right = elim (dec_lt q.write_index q.read_index) [
      | yes wrapped ↦
          absurd
            (omega (arith, right, range, size_now-wrapped s.holds at_end at_start wrapped range))
      | no order ↦ omega arith
    ]
