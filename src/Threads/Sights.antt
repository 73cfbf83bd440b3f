-- ===== src/Threads/Sights.antt =====
-- The tests of `peek`, `pop_if` and `empty` on an index that a thread has read some time ago.
use native.Mathlib.Nat.{mod-mod, mod-add-mod}
use lockfree_mpmc_queue.Base.{
  ℕ, ◌+◌, ◌-◌, ◌*◌, ◌/◌, ◌^◌, ◌≤◌, ◌<◌, ◌≡◌, sym, ap, ◌∙◌, List, [], ◌∷◌, length, if◌then◌else◌,
  arith, none, some, ◌==◌, ◌%◌,
}
use lockfree_mpmc_queue.Base.Word.{cast, cast-==, mod_near, half-double}
use lockfree_mpmc_queue.Fifo.{Fifo, head?}
use lockfree_mpmc_queue.Queue.{Config, Queue, Entry, slot, full_seq, entry_of}
use lockfree_mpmc_queue.Queue.Shape.{
  IsShape, Holds, size_pos, size_small, empty_seq-cast, full_seq-cast,
}
use lockfree_mpmc_queue.Queue.Pop.{take, help, refuse, reload}
use lockfree_mpmc_queue.Queue.Pop.Result.{slot-oldest}
use lockfree_mpmc_queue.Queue.Peek.{peek_case}
use lockfree_mpmc_queue.Queue.Peek.Cases.{half-cast, pow-pred}
use lockfree_mpmc_queue.Threads.Fresh.{IsRead, IsNear, cell_number, Sight, sight}
use lockfree_mpmc_queue.Threads.Consumer.{head?-empty}

-- Halves of sequences that are nearer to one another than half the range of a word.
half-near :
    {c : Config} (l s : ℕ)
    → IsShape c
    → s < l * 2 + 2 ^ c.bits
    → l * 2 ≤ s
    → cast c.bits (cast c.bits s / 2) ≡ cast c.bits (l + c.size)
    → s / 2 ≡ l + c.size
half-near {c} l s shape near far e =
    let pos = size_pos shape in
    let small = size_small shape in
    let half : cast c.bits s / 2 ≡ cast (c.bits - 1) (s / 2) =
      ap (λ t. cast c.bits t / 2) (omega arith)
      ∙ half-double c.bits (s / 2) (s % 2) (omega (arith, shape.wide)) (omega arith) in
    let (whole, _, _) = half-cast {c = c} (s / 2) shape in
    let (_, low, _) = half-cast {c = c} (l + c.size) shape in
    let double = pow-pred c.bits (omega (arith, shape.wide)) in
    mod_near (2 ^ (c.bits - 1)) (s / 2) (l + c.size) (omega arith) (omega arith) (
      sym (mod-mod (s / 2) (2 ^ (c.bits - 1)))
      ∙ ap (cast (c.bits - 1)) (sym whole ∙ ap (cast c.bits) (sym half) ∙ e)
      ∙ sym low)

-- The tests of `peek` on the number behind the sequence.
peek_case-cast :
    {c : Config} (l s : ℕ)
    → IsShape c
    → s < l * 2 + 2 ^ c.bits
    → l * 2 ≤ s
    → peek_case c (cast c.bits l) (cast c.bits s) ≡ (
        if s == l * 2
        then refuse
        else if s == l * 2 + 1
        then take
        else if cast c.bits (cast c.bits s / 2) == cast c.bits (l + c.size)
        then help
        else reload)
unfolding peek_case
peek_case-cast {c} l s shape near far =
    let pos = size_pos shape in
    let small = size_small shape in
    rw (
      empty_seq-cast,
      full_seq-cast,
      mod-add-mod,
      cast-== c.bits s (l * 2) (omega arith) (omega arith),
      cast-== c.bits s (l * 2 + 1) (omega arith) (omega arith),
    )

module _ {q : Queue} {f : Fifo} {base wr rd : ℕ} (v : Holds q f.read f.items wr rd)
    (near : IsNear q.config base f) where
  -- The number of what a thread sees is near the index that it has read.
  number-near :
      {w l : ℕ}
      → IsRead q.config base rd w l
      → (s : Sight q f.read f.items l)
      → (cell_number f.read f.items s.at < l * 2 + 2 ^ q.bits)
        × (l * 2 ≤ cell_number f.read f.items s.at)
  number-near r s =
      (ground (arith, r.since, s.below, v.room), ground (arith, r.passed, s.from, v.read_reached))

  peek_case-Sight :
      {w l : ℕ}
      → IsRead q.config base rd w l
      → (s : Sight q f.read f.items l)
      → let n = cell_number f.read f.items s.at in
        peek_case q.config w (slot q w).seq ≡ (
          if n == l * 2
          then refuse
          else if n == l * 2 + 1
          then take
          else if cast q.bits (cast q.bits n / 2) == cast q.bits (l + q.size)
          then help
          else reload)
  peek_case-Sight {w} {l} r s =
      let (below, above) = number-near r s in
      ap (λ t. peek_case q.config t (slot q t).seq) r.word
      ∙ rw s.seq (peek_case-cast l (cell_number f.read f.items s.at) v.shape below above)

  -- What an index that a thread has read, and the slot that it sees, say of the list.
  pub look-help :
      {w l : ℕ}
      → IsRead q.config base rd w l
      → peek_case q.config w (slot q w).seq ≡ help
      → l < f.read
  look-help {w} {l} r e =
      let s = sight v l in
      let n = cell_number f.read f.items s.at in
      let (below, above) = number-near r s in
      let same : cast q.bits (cast q.bits n / 2) ≡ cast q.bits (l + q.size) =
        ground (arith, e, peek_case-Sight r s) in
      let half : n / 2 ≡ l + q.size = half-near l n v.shape below above same in
      ground (arith, half, s.from, s.below)

  pub look-take :
      {w l : ℕ}
      → IsRead q.config base rd w l
      → peek_case q.config w (slot q w).seq ≡ take
      → (slot q w).seq ≡ cast q.bits (l * 2 + 1)
  look-take {w} {l} r e =
      let s = sight v l in
      let n = cell_number f.read f.items s.at in
      let number : n ≡ l * 2 + 1 = ground (arith, e, peek_case-Sight r s) in
      ap (λ t. (slot q t).seq) r.word ∙ s.seq ∙ ap (cast q.bits) number

  -- A slot that waits for the write of the index shows the empty list.
  pub look-none :
      {w l : ℕ}
      → IsRead q.config base rd w l
      → (slot q w).seq ≡ cast q.bits (l * 2)
      → head? f ≡ none
  look-none {w} {l} r e =
      let s = sight v l in
      let n = cell_number f.read f.items s.at in
      let (below, above) = number-near r s in
      let number : n ≡ l * 2 =
        mod_near (2 ^ q.bits) n (l * 2) below
          (omega (arith, above, size_small v.shape, size_pos v.shape))
          (sym s.seq ∙ ap (λ t. (slot q t).seq) (sym r.word) ∙ e) in
      head?-empty f (ground (arith, number, s.from, s.below, r.passed, v.read_reached))

  pub look-refuse :
      {w l : ℕ}
      → IsRead q.config base rd w l
      → peek_case q.config w (slot q w).seq ≡ refuse
      → head? f ≡ none
  look-refuse {w} {l} r e =
      let s = sight v l in
      let n = cell_number f.read f.items s.at in
      let number : n ≡ l * 2 = ground (arith, e, peek_case-Sight r s) in
      look-none r (ap (λ t. (slot q t).seq) r.word ∙ s.seq ∙ ap (cast q.bits) number)

-- The entry of the oldest element, when the index that a thread has read is its number.
pub oldest :
    {q : Queue} {h base wr rd w l : ℕ} (xs : List ℕ)
    → Holds q h xs wr rd
    → IsRead q.config base rd w l
    → (l ≡ h) × (0 < length xs)
    → (head? (record { read = h; items = xs }) ≡ some (slot q w).item)
      × ((slot q w).seq ≡ full_seq q.config (cast q.bits h))
oldest [] v r now = absurd (omega arith)
oldest {q} {h} {base} {wr} {rd} {w} {l} (x ∷ xs) v r (e, _) =
    let current : rd ≡ h = omega (arith, r.passed, v.read_reached) in
    let seen : slot q w ≡ entry_of (cast q.bits (rd * 2 + 1)) x =
      ap (slot q) (r.word ∙ ap (cast q.bits) (omega (arith, e, current))) ∙ slot-oldest v current in
    (
      ap (λ (e : Entry). some e.item) (sym seen),
      ap (λ (e : Entry). e.seq) seen
          ∙ ap (λ n. cast q.bits (n * 2 + 1)) current
          ∙ sym (full_seq-cast q.config h),
    )
