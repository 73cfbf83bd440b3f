-- ===== src/Queue/Peek/Cases.antt =====
-- The case that `peek` and `pop_if` take at the current read index of a queue that holds a list.
use lockfree_mpmc_queue.Base.{
  ℕ, ◌+◌, ◌-◌, ◌*◌, ◌%◌, ◌^◌, ◌≤◌, ◌<◌, ◌≡◌, ap, sym, refl, ◌∙◌, List, length, arith, ◌==◌,
  ==_of_eq, ==_of_ne, if◌then◌else◌, true, false,
}
use native.Mathlib.Nat.{mod-eq_of_lt}
use native.Mathlib.Numerals.{sub-one}
use lockfree_mpmc_queue.Base.{zero, suc, true, false}
use lockfree_mpmc_queue.Queue.{Entry}
use native.Mathlib.Nat.{add-mod_right, mod-add-mod, mod-lt, one-le-pow, pow-suc}
use native.Mathlib.Decide.{dec_lt}
use lockfree_mpmc_queue.Base.Word.{cast, cast-==, half-double, mod_pow-mod_pow}
use lockfree_mpmc_queue.Queue.{Config, Queue, slot}
use lockfree_mpmc_queue.Queue.Shape.{
  IsShape, Holds, cell, slot-cell, size_pos, size_small, empty_seq-cast, full_seq-cast,
}
use lockfree_mpmc_queue.Queue.Pop.{PopCase, take, help, refuse, reload}
use lockfree_mpmc_queue.Queue.Peek.{peek_case}

-- The two first tests, on numbers that do not wrap, and the third as the code makes it.
peek_case-cast :
    {c : Config} (l j b : ℕ)
    → IsShape c
    → b < 2
    → l ≤ j
    → j ≤ l + c.size
    → peek_case c (cast c.bits l) (cast c.bits (j * 2 + b)) ≡ (
        if j * 2 + b == l * 2
        then refuse
        else if j * 2 + b == l * 2 + 1
        then take
        else if cast c.bits (cast (c.bits - 1) j) == cast c.bits (l + c.size)
        then help
        else reload)
unfolding peek_case
peek_case-cast {c} l j b shape bit lo hi =
    let pos = size_pos shape in
    let small = size_small shape in
    rw (
      empty_seq-cast,
      full_seq-cast,
      mod-add-mod,
      half-double c.bits j b (omega arith) bit,
      cast-== c.bits (j * 2 + b) (l * 2) (omega arith) (omega arith),
      cast-== c.bits (j * 2 + b) (l * 2 + 1) (omega arith) (omega arith),
    )

-- The third test finds that the index lags only while `rd_index + size` has its top bit clear.
abbrev pub HalfClear : Config → ℕ → Type 0
HalfClear c l = cast c.bits (l + c.size) < 2 ^ (c.bits - 1)

pub pow-pred : (w : ℕ) → 0 < w → 2 ^ w ≡ 2 ^ (w - 1) * 2
pow-pred zero h = absurd (omega arith)
pow-pred (suc w) h = rw sub-one (pow-suc 2 w)

-- Half a sequence keeps all but the top bit of its index.
pub half-cast :
    {c : Config} (x : ℕ)
    → IsShape c
    → (cast c.bits (cast (c.bits - 1) x) ≡ cast (c.bits - 1) x)
      × (cast (c.bits - 1) x ≡ cast (c.bits - 1) (cast c.bits x))
      × (cast (c.bits - 1) x < 2 ^ (c.bits - 1))
half-cast {c} x shape =
    let pos = one-le-pow (c.bits - 1) 2 (omega arith) in
    let below = mod-lt x {m = 2 ^ (c.bits - 1)} (omega arith) in
    (
      mod-eq_of_lt (omega (arith, pow-pred c.bits (omega (arith, shape.wide)))),
      sym (mod_pow-mod_pow (c.bits - 1) c.bits x (omega arith)),
      below,
    )

half-clear :
    {c : Config} (l : ℕ)
    → IsShape c
    → HalfClear c l
    → (cast c.bits (cast (c.bits - 1) (l + c.size)) == cast c.bits (l + c.size)) ≡ true
half-clear {c} l shape clear =
    let (a, b, below) = half-cast {c = c} (l + c.size) shape in
    ==_of_eq _ _ (a ∙ b ∙ mod-eq_of_lt clear)

half-set :
    {c : Config} (l : ℕ)
    → IsShape c
    → 2 ^ (c.bits - 1) ≤ cast c.bits (l + c.size)
    → (cast c.bits (cast (c.bits - 1) (l + c.size)) == cast c.bits (l + c.size)) ≡ false
half-set {c} l shape set =
    let (a, b, below) = half-cast {c = c} (l + c.size) shape in
    ==_of_ne _ _ (λ same. omega (arith, a, below, same))

module _ {q : Queue} {h wr rd : ℕ} {xs : List ℕ} (v : Holds q h xs wr rd) where
  abbrev peek_now : PopCase
  peek_now = peek_case q.config q.read_index (slot q q.read_index).seq

  peek_of_cell :
      (j b : ℕ)
      → b < 2
      → h ≤ j
      → j < h + q.size
      → j ≤ rd + q.size
      → j % q.size ≡ rd % q.size
      → (cell q.config h xs j).seq ≡ cast q.bits (j * 2 + b)
      → peek_now ≡ peek_case q.config (cast q.bits rd) (cast q.bits (j * 2 + b))
  peek_of_cell j b bit lo hi in_reach e f =
      ap (λ w. peek_case q.config w (slot q w).seq) v.read_word
      ∙ ap (λ (s : ℕ). peek_case q.config (cast q.bits rd) s)
          (ap (λ (e : Entry). e.seq) (slot-cell v rd j lo hi e) ∙ f)

  pub peek_full : rd ≡ h → 0 < length xs → peek_now ≡ take
  peek_full e some_left =
      let pos = size_pos v.shape in
      peek_of_cell rd 1 (omega arith) (omega arith) (omega arith) (omega arith) refl (ground arith)
      ∙ peek_case-cast rd rd 1 v.shape (omega arith) (omega arith) (omega arith)
      ∙ ground arith

  pub peek_empty : rd ≡ h → length xs ≡ 0 → peek_now ≡ refuse
  peek_empty e none_left =
      let pos = size_pos v.shape in
      peek_of_cell rd 0 (omega arith) (omega arith) (omega arith) (omega arith) refl (ground arith)
      ∙ peek_case-cast rd rd 0 v.shape (omega arith) (omega arith) (omega arith)
      ∙ ground arith

  -- The slot of a lagging index serves the write one turn later, done or not.
  peek_lagging :
      (b : ℕ)
      → b < 2
      → rd < h
      → (cell q.config h xs (rd + q.size)).seq ≡ cast q.bits ((rd + q.size) * 2 + b)
      → peek_now ≡ (
          if cast q.bits (cast (q.bits - 1) (rd + q.size)) == cast q.bits (rd + q.size)
          then help
          else reload)
  peek_lagging b bit lags f =
      let pos = size_pos v.shape in
      peek_of_cell (rd + q.size) b bit (omega arith) (omega arith) (omega arith)
        (add-mod_right rd q.size) f
      ∙ peek_case-cast rd (rd + q.size) b v.shape bit (omega arith) (omega arith)
      ∙ ground arith

  lagging_seq :
      rd < h
      → (b : ℕ) × (b < 2)
        × ((cell q.config h xs (rd + q.size)).seq ≡ cast q.bits ((rd + q.size) * 2 + b))
  lagging_seq lags = elim (dec_lt (rd + q.size) (h + length xs)) [
    | yes done ↦ (1, omega arith, ground arith)
    | no open_slot ↦ (0, omega arith, ground arith)
  ]

  pub peek_help : rd < h → HalfClear q.config rd → peek_now ≡ help
  peek_help lags clear =
      let (b, bit, f) = lagging_seq lags in
      peek_lagging b bit lags f ∙ rw (half-clear {c = q.config} rd v.shape clear)

  pub peek_reload : rd < h → 2 ^ (q.bits - 1) ≤ cast q.bits (rd + q.size) → peek_now ≡ reload
  peek_reload lags set =
      let (b, bit, f) = lagging_seq lags in
      peek_lagging b bit lags f ∙ rw (half-set {c = q.config} rd v.shape set)
