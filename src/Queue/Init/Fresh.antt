-- ===== src/Queue/Init/Fresh.antt =====
-- A queue that the constructor builds serves the empty list.
use native.Mathlib.Nat.{mod-eq_of_lt}
use native.Mathlib.Decide.{dec_lt, ℕ_discrete}
use lockfree_mpmc_queue.Fifo.{empty}
use lockfree_mpmc_queue.Queue.Serves.{Serves, Serves-refl}
use lockfree_mpmc_queue.Queue.Init.{throws, bad_size}
use lockfree_mpmc_queue.Queue.Init.Widths.{bad_size-IsShape, IsShape-bad_size, bits_for_value_total}
use lockfree_mpmc_queue.Base.{
  ℕ, zero, suc, ◌+◌, ◌*◌, ◌^◌, ◌≤◌, ◌<◌, ◌≡◌, refl, ap, ◌∙◌, false, List, [], some, arith, get_or,
  set, length, length-set, get_or-set_self, get_or-set_ne, replicate, length-replicate, ltb_of_lt,
  ltb_of_le, sym, subst,
}
use lockfree_mpmc_queue.Base.Word.{cast}
use lockfree_mpmc_queue.Queue.{Config, Queue, Entry, cleared, entry_of_seq, empty_seq, slot_index}
use lockfree_mpmc_queue.Queue.Shape.{IsShape, Holds, Cells, size_small, slot_index-cast}
use lockfree_mpmc_queue.Queue.Init.{number_slots, build, construct, builds}

module _ {c : Config} (s : IsShape c) where
  -- The slots below `i` are numbered.
  Numbered : ℕ → List Entry → Type 0
  Numbered i array =
      (length array ≡ c.size)
      × ((j : ℕ) → j < i → j < c.size → get_or array j cleared ≡ entry_of_seq (cast c.bits (j * 2)))

  below : (i : ℕ) → i < c.size → cast c.bits i ≡ i
  below i h = mod-eq_of_lt (omega (arith, size_small s))

  write : ℕ → List Entry → List Entry
  write i array = set array (slot_index c i) (entry_of_seq (empty_seq c i))

  slot_index-below : (i : ℕ) → i < c.size → slot_index c i ≡ i
  slot_index-below i h = ap (slot_index c) (sym (below i h)) ∙ slot_index-cast s i ∙ mod-eq_of_lt h

  write-Numbered :
      (i : ℕ) (array : List Entry)
      → i < c.size
      → Numbered i array
      → Numbered (i + 1) (write i array)
  unfolding Numbered write
  write-Numbered i array h (len, done) = rw (slot_index-below i h) (
    length-set array i _ ∙ len,
    λ j below_i in_range. elim (ℕ_discrete i j) [
      | yes e ↦ rw (← e) (get_or-set_self array i _ cleared (rw len h))
      | no ne ↦ get_or-set_ne array i j _ cleared ne ∙ done j (omega arith) in_range
    ],
  )

  number_slots-Numbered :
      (fuel i : ℕ) (array : List Entry)
      → i ≤ c.size
      → c.size < fuel + i
      → Numbered i array
      → (array' : List Entry) × (number_slots fuel c i array ≡ some array') × Numbered c.size array'
  unfolding number_slots write
  number_slots-Numbered zero i array h k done = absurd (omega arith)
  number_slots-Numbered (suc fuel) i array h k done = elim (dec_lt i c.size) [
    | yes more ↦
        let next : cast c.bits (i + 1) ≡ i + 1 = mod-eq_of_lt (omega (arith, size_small s)) in
        rw (ltb_of_lt i c.size more, next)
          (number_slots-Numbered fuel (i + 1) _ (omega arith) (omega arith)
            (write-Numbered i array more done))
    | no end ↦
        let e : i ≡ c.size = omega arith in
        rw (ltb_of_le i c.size (omega arith)) (array, refl, subst (λ t. Numbered t array) e done)
  ]

  fresh : List Entry → Queue
  fresh array = record { config = c; write_index = 0; read_index = 0; array = array }

  Numbered-Cells : (array : List Entry) → Numbered c.size array → Cells c array 0 []
  unfolding Numbered
  Numbered-Cells array (len, done) i lo hi =
      let in_range : i < c.size = omega arith in
      rw (mod-eq_of_lt in_range) (done i in_range in_range ∙ ground arith)

  fresh-Holds : (array : List Entry) → Numbered c.size array → Holds (fresh array) 0 [] 0 0
  unfolding fresh Numbered
  fresh-Holds array n = record {
    shape = s;
    slots = n.0;
    room = omega arith;
    cells = Numbered-Cells array n;
    write_word = omega arith;
    write_reached = omega arith;
    write_lag = omega arith;
    read_word = omega arith;
    read_reached = omega arith;
    read_lag = omega arith;
  }

  -- With the size fixed, the constructor's loop ends and leaves a queue that serves the empty list.
  pub build-Serves :
      (fuel : ℕ) → c.size < fuel → (q : Queue) × (build fuel c ≡ some (builds q)) × Serves c q empty
  unfolding build fresh Numbered
  build-Serves fuel enough =
      let (array, done, numbered) =
        number_slots-Numbered fuel 0 (replicate c.size cleared) (omega arith) (omega arith)
          (length-replicate c.size cleared, λ j below_zero in_range. absurd (omega arith)) in
      (fresh array, rw (done, build), Serves-refl empty (fresh-Holds array numbered))

-- A size set at run time: `mpmc_queue(n)` builds a queue that serves the empty list for every power
-- of two below 2^32 that leaves the index two bits more than a slot number.
pub construct-Serves :
    (c : Config) (fuel : ℕ)
    → IsShape c
    → c.size < 2 ^ 32
    → c.size < fuel
    → (q : Queue) × (construct fuel 0 c ≡ some (builds q)) × Serves c q empty
unfolding construct
construct-Serves c fuel s small enough =
    let (q, built, serves) = build-Serves s fuel enough in
    (q, rw (bad_size-IsShape c s small, construct) built, serves)

-- The constructor throws on every size between 0 and 2^32 that is no power of two or that leaves the
-- index less than two bits more than a slot number.
pub construct-throws :
    (c : Config) (fuel : ℕ)
    → 0 < c.size
    → c.size < 2 ^ 32
    → ¬ (IsShape c)
    → construct fuel 0 c ≡ some throws
unfolding construct bad_size
construct-throws c fuel p small bad =
    let (b, counted) = bits_for_value_total c.size in
    ground (
      arith,
      counted,
      λ (h : bad_size c.bits c.size ≡ some false). bad (IsShape-bad_size c p small h),
    )
