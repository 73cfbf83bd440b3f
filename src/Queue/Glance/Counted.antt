-- ===== src/Queue/Glance/Counted.antt =====
-- mpmc_queue.h, `data_entries_count`: the full entries of the array.
use native.Mathlib.Decide.{dec_lt}
use lockfree_mpmc_queue.Base.Bits.{bit_and-one}
use native.Mathlib.Nat.{mod-eq_of_lt, add-mod_right}
use lockfree_mpmc_queue.Base.{
  ℕ, zero, suc, ◌+◌, ◌*◌, ◌%◌, ◌≤◌, ◌<◌, ◌^◌, ◌≡◌, refl, sym, ap, ◌∙◌, List, [], ◌∷◌, length, arith,
  bit_and, if◌then◌else◌, ltb, get_or, ltb_of_lt, ltb_of_le,
}
use lockfree_mpmc_queue.Base.Word.{cast, mod_pow-mod_pow}
use lockfree_mpmc_queue.Fifo.{Fifo}
use lockfree_mpmc_queue.Service.Totals.{total, total_same}
use lockfree_mpmc_queue.Queue.{Config, Entry, Queue, cleared}
use lockfree_mpmc_queue.Queue.Shape.{Holds, cell, size_pos}
use lockfree_mpmc_queue.Queue.Serves.{Serves}
use lockfree_mpmc_queue.Queue.Glance.{odd_entries, data_entries_count}

total_cons : (n : ℕ) (f : ℕ → ℕ) → total (suc n) f ≡ f 0 + total n (λ k. f (suc k))
total_cons zero f = omega arith
total_cons (suc n) f = omega (arith, total_cons n f)

-- A window of the length of a turn sees every place once, wherever it starts.
total_turn : (n h : ℕ) (f : ℕ → ℕ) → 0 < n → total n (λ j. f ((h + j) % n)) ≡ total n f
total_turn n zero f pos =
    total_same n _ f
      (λ j within. ap f (ap (λ i. i % n) {y = j} (omega arith) ∙ mod-eq_of_lt within))
total_turn n (suc h) f pos = omega (
  arith,
  total_cons n (λ j. f ((h + j) % n)),
  total_same n (λ j. f ((suc h + j) % n)) (λ j. f ((h + suc j) % n))
      (λ j within. ap (λ i. f (i % n)) (omega arith)),
  ap f (add-mod_right h n),
  ap (λ i. f (i % n)) {x = h + 0} {y = h} (omega arith),
  total_turn n h f pos,
)

total_first : (n m : ℕ) → m ≤ n → total n (λ j. if ltb j m then 1 else 0) ≡ m
total_first zero m few = omega arith
total_first (suc n) m few = elim (dec_lt n m) [
  | yes last ↦ omega (
    arith,
    total_same n (λ j. if ltb j m then 1 else 0) (λ j. if ltb j n then 1 else 0)
        (λ j within. rw (ltb_of_lt j m (omega arith), ltb_of_lt j n within) refl),
    total_first n n (omega arith),
    ap {B = ℕ} (λ b. if b then 1 else 0) (ltb_of_lt n m last),
  )
  | no beyond ↦ omega (
    arith,
    total_first n m (omega arith),
    ap {B = ℕ} (λ b. if b then 1 else 0) (ltb_of_le n m (omega arith)),
  )
]

odd_entries-total :
    (entries : List Entry)
    → odd_entries entries ≡ total (length entries) (λ k. bit_and (get_or entries k cleared).seq 1)
odd_entries-total [] = refl
odd_entries-total (e ∷ entries) =
    ap (λ n. bit_and e.seq 1 + n) (odd_entries-total entries)
    ∙ sym (total_cons (length entries) (λ k. bit_and (get_or (e ∷ entries) k cleared).seq 1))

-- The mark of a full entry, in the slot of logical write `i`.
odd-cell :
    (c : Config) (h i : ℕ) (xs : List ℕ)
    → 0 < c.bits
    → bit_and (cell c h xs i).seq 1 ≡ (if ltb i (h + length xs) then 1 else 0)
odd-cell c h i xs wide = elim (dec_lt i (h + length xs)) [
  | yes full ↦ rw (ltb_of_lt i (h + length xs) full) (
      bit_and-one (cast c.bits (i * 2 + 1))
      ∙ mod_pow-mod_pow 1 c.bits (i * 2 + 1) (omega arith)
      ∙ omega arith)
  | no free ↦ rw (ltb_of_le i (h + length xs) (omega arith)) (
      bit_and-one (cast c.bits (i * 2))
      ∙ mod_pow-mod_pow 1 c.bits (i * 2) (omega arith)
      ∙ omega arith)
]

Holds-odd_entries :
    {q : Queue} {h wr rd : ℕ} (xs : List ℕ) → Holds q h xs wr rd → odd_entries q.array ≡ length xs
Holds-odd_entries {q} {h} xs v =
    let n = q.size in
    let seen : ℕ → ℕ = λ k. bit_and (get_or q.array k cleared).seq 1 in
    odd_entries-total q.array
    ∙ ap (λ m. total m seen) v.slots
    ∙ sym (total_turn n h seen (size_pos v.shape))
    ∙ total_same n (λ j. seen ((h + j) % n)) (λ j. if ltb j (length xs) then 1 else 0)
        (λ j within.
          ap (λ (e : Entry). bit_and e.seq 1) (v.cells (h + j) (omega arith) (omega arith))
          ∙ odd-cell q.config h (h + j) xs (omega (arith, v.shape.wide))
          ∙ ground arith)
    ∙ total_first n (length xs) v.room

-- On a queue that serves a list, with a size below 2^32, `data_entries_count` is the number of its
-- elements, wherever the indexes stand.
pub data_entries_count-length :
    {c : Config} {q : Queue} (f : Fifo)
    → Serves c q f
    → c.size < 2 ^ 32
    → data_entries_count q ≡ length f.items
unfolding data_entries_count
data_entries_count-length f s small =
    ap (cast 32) (Holds-odd_entries f.items s.holds)
    ∙ mod-eq_of_lt (omega (arith, small, s.holds.room, ap (λ (d : Config). d.size) s.config_is))
