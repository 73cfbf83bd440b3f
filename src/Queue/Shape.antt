-- ===== src/Queue/Shape.antt =====
-- What a queue's memory says: which logical writes its slots hold, and where the indexes stand.
use lockfree_mpmc_queue.Base.{
  ℕ, ◌+◌, ◌-◌, ◌*◌, ◌%◌, ◌^◌, ◌≤◌, ◌<◌, ◌≡◌, ◌∙◌, ap, List, [], ◌∷◌, ◌++◌, length, set,
  length-append, get_or-set_self, get_or-set_ne, get_or-snoc_lt, get_or-snoc_last, get_or, ltb,
  if◌then◌else◌, arith, ◌≢◌, suc, sym,
}
use lockfree_mpmc_queue.Base.Bits.{bit_and_mask, bit_or-one}
use lockfree_mpmc_queue.Base.Word.{
  cast, mod_pow-mod_pow, mod-double, mod-double-add, mod-affine, pow-split, mod_close,
}
use native.Mathlib.Decide.{ℕ_discrete}
use native.Mathlib.Nat.{mod-add-mod, add-mod_right, one-le-pow, pow-le-pow_right, mod-lt}
use lockfree_mpmc_queue.Queue.{
  Config, Entry, entry_of, entry_of_seq, cleared, Queue, slot, slot_index, empty_seq, full_seq,
}

-- The size is a power of two, and an index has at least two bits more than a slot number.
pub record IsShape (c : Config) : Type 0 where
  pub log_size : ℕ
  pub power : c.size ≡ 2 ^ log_size
  pub wide : log_size + 2 ≤ c.bits

pub size_pos : {c : Config} → IsShape c → 0 < c.size
size_pos s = omega (arith, s.power, one-le-pow s.log_size 2)

pub size_small : {c : Config} → IsShape c → c.size * 4 ≤ 2 ^ c.bits
size_small {c} s = ground (
  arith,
  pow-split s.log_size 2,
  pow-le-pow_right {n = 2} (omega arith) {i = s.log_size + 2} {j = c.bits} s.wide,
)

pub slot_index-cast : {c : Config} → IsShape c → (i : ℕ) → slot_index c (cast c.bits i) ≡ i % c.size
slot_index-cast {c} s i =
    rw (s.power, bit_and_mask s.log_size (cast c.bits i))
      (mod_pow-mod_pow s.log_size c.bits i (omega (arith, s.wide)))

-- The casts that the code applies to an index word, in terms of the number behind the word.
pub empty_seq-cast : (c : Config) (i : ℕ) → empty_seq c (cast c.bits i) ≡ cast c.bits (i * 2)
empty_seq-cast c i = mod-double (2 ^ c.bits) i

pub empty_seq-cast-add :
    (c : Config) (i a : ℕ) → empty_seq c (cast c.bits i + a) ≡ cast c.bits ((i + a) * 2)
empty_seq-cast-add c i a =
    sym (mod-double (2 ^ c.bits) (cast c.bits i + a))
    ∙ ap (λ t. t * 2 % 2 ^ c.bits) (mod-add-mod i (2 ^ c.bits) a)
    ∙ mod-double (2 ^ c.bits) (i + a)

pub full_seq-cast : (c : Config) (i : ℕ) → full_seq c (cast c.bits i) ≡ cast c.bits (i * 2 + 1)
full_seq-cast c i =
    ap (cast c.bits) (omega (arith, bit_or-one (cast c.bits i * 2)))
    ∙ mod-double-add (2 ^ c.bits) i 1

pub full_seq-cast-add :
    (c : Config) (i a : ℕ) → full_seq c (cast c.bits i + a) ≡ cast c.bits ((i + a) * 2 + 1)
full_seq-cast-add c i a =
    ap (cast c.bits) (omega (arith, bit_or-one ((cast c.bits i + a) * 2)))
    ∙ mod-affine (2 ^ c.bits) i a 1

-- The entry of the slot that serves logical write `i`, while `xs` is queued from logical index `h` on.
abbrev pub cell : Config → ℕ → List ℕ → ℕ → Entry
cell c h xs i =
    if ltb i (h + length xs)
    then entry_of (cast c.bits (i * 2 + 1)) (get_or xs (i - h) 0)
    else entry_of_seq (cast c.bits (i * 2))

-- The array serves the logical writes `h` to `h + size - 1`, each at its index modulo the size.
abbrev pub Cells : Config → List Entry → ℕ → List ℕ → Type 0
Cells c array h xs =
    (i : ℕ) → h ≤ i → i < h + c.size → get_or array (i % c.size) cleared ≡ cell c h xs i

-- `q` holds `xs`, oldest first, from logical read index `h` on. The word `write_index` stands for
-- `wr`, which may lag one behind the next write, and `read_index` for `rd`, likewise.
pub record Holds (q : Queue) (h : ℕ) (xs : List ℕ) (wr rd : ℕ) : Type 0 where
  pub shape : IsShape q.config
  pub slots : length q.array ≡ q.size
  pub room : length xs ≤ q.size
  pub cells : Cells q.config q.array h xs
  pub write_word : q.write_index ≡ cast q.bits wr
  pub write_reached : wr ≤ h + length xs
  pub write_lag : h + length xs ≤ wr + 1
  pub read_word : q.read_index ≡ cast q.bits rd
  pub read_reached : rd ≤ h
  pub read_lag : h ≤ rd + 1

-- The slot that index `l` maps to is the one that serves logical write `j`, if they agree modulo
-- the size.
pub slot-cell :
    {q : Queue} {h wr rd : ℕ} {xs : List ℕ}
    → Holds q h xs wr rd
    → (l j : ℕ) → h ≤ j
    → j < h + q.size
    → j % q.size ≡ l % q.size
    → slot q (cast q.bits l) ≡ cell q.config h xs j
unfolding slot
slot-cell {q} v l j lo hi e = rw (slot_index-cast v.shape l, ← e) (v.cells j lo hi)

-- The slots other than the one written keep their cells.
module _ (c : Config) (h i : ℕ) where
  cell-snoc_ne :
      (xs : List ℕ) (d : ℕ) → h ≤ i → i ≢ h + length xs → cell c h (xs ++ d ∷ []) i ≡ cell c h xs i
  cell-snoc_ne xs d lo ne = ground (arith, length-append xs (d ∷ []), get_or-snoc_lt xs (i - h) d 0)

  cell-snoc_last :
      (xs : List ℕ) (d : ℕ)
      → i ≡ h + length xs
      → cell c h (xs ++ d ∷ []) i ≡ entry_of (cast c.bits (i * 2 + 1)) d
  cell-snoc_last xs d e = ground (arith, length-append xs (d ∷ []), get_or-snoc_last xs (i - h) d 0)

  cell-tail : (x : ℕ) (xs : List ℕ) → h + 1 ≤ i → cell c h (x ∷ xs) i ≡ cell c (h + 1) xs i
  cell-tail x xs lo = let e : i - h ≡ suc (i - (h + 1)) = omega arith in rw e (ground arith)

module _ (c : Config) (array : List Entry) (h : ℕ) where
  pub mod-ne : (i j : ℕ) → i ≢ j → i < j + c.size → j < i + c.size → i % c.size ≢ j % c.size
  mod-ne i j ne lo hi e = ground (arith, mod_close c.size i j, mod_close c.size j i)

  -- Filling the slot of the next write appends an element.
  pub Cells-push :
      (xs : List ℕ) (d : ℕ)
      → 0 < c.size
      → length array ≡ c.size
      → length xs < c.size
      → Cells c array h xs
      → let t = h + length xs in
        Cells c (set array (t % c.size) (entry_of (cast c.bits (t * 2 + 1)) d)) h (xs ++ d ∷ [])
  Cells-push xs d pos len room cells i lo hi = elim (ℕ_discrete i (h + length xs)) [
    | yes e ↦
        rw (cell-snoc_last c h i xs d e, e)
          (get_or-set_self array ((h + length xs) % c.size) _ cleared (rw len (mod-lt _ pos)))
    | no ne ↦ rw (cell-snoc_ne c h i xs d lo ne) (
        get_or-set_ne array _ _ _ cleared
          (mod-ne (h + length xs) i (λ e. ne (sym e)) (omega arith) (omega arith))
        ∙ cells i lo hi)
  ]

  -- Emptying the slot of the oldest element, for the write one turn later, removes it.
  pub Cells-pop :
      (x : ℕ) (xs : List ℕ)
      → 0 < c.size
      → length array ≡ c.size
      → length xs < c.size
      → Cells c array h (x ∷ xs)
      → Cells c (set array (h % c.size) (entry_of_seq (cast c.bits ((h + c.size) * 2)))) (h + 1) xs
  Cells-pop x xs pos len room cells i lo hi = elim (ℕ_discrete i (h + c.size)) [
    | yes e ↦
        rw (e, add-mod_right h c.size)
          (get_or-set_self array (h % c.size) _ cleared (rw len (mod-lt _ pos)) ∙ ground arith)
    | no ne ↦ rw (← cell-tail c h i x xs lo) (
        get_or-set_ne array _ _ _ cleared (mod-ne h i (omega arith) (omega arith) (omega arith))
        ∙ cells i (omega arith) (omega arith))
  ]
