-- ===== src/Queue/Glance/Exchange.antt =====
-- `exchange` replaces an element where it stands.
use native.Mathlib.Decide.{ℕ_discrete}
use native.Mathlib.Nat.{mod-lt}
use lockfree_mpmc_queue.Base.{
  ℕ, ◌+◌, ◌-◌, ◌*◌, ◌%◌, ◌<◌, ◌≡◌, ◌≢◌, refl, sym, ap, ◌∙◌, subst, true, false, List, length,
  get_or, set, length-set, get_or-set_self, get_or-set_ne, arith, ◌==◌, if◌then◌else◌, Bool-cases,
  inl, inr, ◌≤◌,
}
use lockfree_mpmc_queue.Base.Word.{cast}
use lockfree_mpmc_queue.Fifo.{Fifo}
use lockfree_mpmc_queue.Queue.{Config, Entry, entry_of, cleared, Queue, slot, full_seq}
use lockfree_mpmc_queue.Queue.Shape.{
  Holds, Cells, cell, slot-cell, slot_index-cast, full_seq-cast, mod-ne,
}
use lockfree_mpmc_queue.Queue.Atomic.{compare_exchange-win, compare_exchange-differs}
use lockfree_mpmc_queue.Queue.Serves.{Serves, Serves-refl}
use lockfree_mpmc_queue.Queue.Glance.{exchange}

-- The list with its `k`th element replaced, if that is `old_value`.
abbrev pub exchanged : Fifo → ℕ → ℕ → ℕ → Fifo
exchanged f k old_value new_value =
    if get_or f.items k 0 == old_value then record f { items = set f.items k new_value } else f

abbrev pub Exchanges : Config → Queue → Fifo → ℕ → ℕ → ℕ → Type 0
Exchanges c q f k old_value new_value =
    (q' : Queue) × (exchange q (cast c.bits (f.read + k)) old_value new_value
      ≡ (get_or f.items k 0 == old_value, q'))
    × Serves c q' (exchanged f k old_value new_value)

module _ (c : Config) (h k : ℕ) (xs : List ℕ) (within : k < length xs) where
  cell-within : cell c h xs (h + k) ≡ entry_of (cast c.bits ((h + k) * 2 + 1)) (get_or xs k 0)
  cell-within = let e : h + k - h ≡ k = omega arith in ground (arith, ap (λ i. get_or xs i 0) e)

  cell-set_ne : (i v : ℕ) → h ≤ i → i ≢ h + k → cell c h (set xs k v) i ≡ cell c h xs i
  cell-set_ne i v lo ne =
      ground (arith, length-set xs k v, get_or-set_ne xs k (i - h) v 0 (λ e. ne (omega arith)))

module _ (c : Config) (array : List Entry) (h : ℕ) (xs : List ℕ) where
  Cells-set :
      (k v : ℕ)
      → k < length xs
      → length xs ≤ c.size
      → length array ≡ c.size
      → Cells c array h xs
      → Cells c
          (set array ((h + k) % c.size) (entry_of (cast c.bits ((h + k) * 2 + 1)) v))
          h
          (set xs k v)
  Cells-set k v within room len cells i lo hi = elim (ℕ_discrete i (h + k)) [
    | yes e ↦ rw e (
        get_or-set_self array ((h + k) % c.size) _ cleared (rw len (mod-lt _ (omega arith)))
        ∙ sym (
            cell-within c h k (set xs k v) (omega (arith, length-set xs k v))
            ∙ ap (λ x. entry_of (cast c.bits ((h + k) * 2 + 1)) x)
                (get_or-set_self xs k v 0 within)))
    | no ne ↦
        get_or-set_ne array _ _ _ cleared
          (mod-ne c array h (h + k) i (λ e. ne (sym e)) (omega arith) (omega arith))
        ∙ cells i lo hi
        ∙ sym (cell-set_ne c h k xs within i v lo ne)
  ]

module _ {q : Queue} {h wr rd : ℕ} {xs : List ℕ} (v : Holds q h xs wr rd) (k : ℕ)
    (within : k < length xs) where
  slot-within :
      slot q (cast q.bits (h + k))
      ≡ entry_of (full_seq q.config (cast q.bits (h + k))) (get_or xs k 0)
  slot-within =
      slot-cell v (h + k) (h + k) (omega arith) (omega (arith, v.room)) refl
      ∙ cell-within q.config h k xs within
      ∙ ap (λ s. entry_of s (get_or xs k 0)) (sym (full_seq-cast q.config (h + k)))

  -- `q` with the element at `k` replaced.
  abbrev overwritten : ℕ → Queue
  overwritten new_value = record q {
    array = set q.array ((h + k) % q.size) (entry_of (cast q.bits ((h + k) * 2 + 1)) new_value);
  }

  Holds-overwritten : (new_value : ℕ) → Holds (overwritten new_value) h (set xs k new_value) wr rd
  Holds-overwritten new_value = record {
    shape = v.shape;
    slots = length-set q.array ((h + k) % q.size) _ ∙ v.slots;
    room = omega (arith, v.room, length-set xs k new_value);
    cells = Cells-set q.config q.array h xs k new_value within v.room v.slots v.cells;
    write_word = v.write_word;
    write_reached = omega (arith, v.write_reached, length-set xs k new_value);
    write_lag = omega (arith, v.write_lag, length-set xs k new_value);
    read_word = v.read_word;
    read_reached = v.read_reached;
    read_lag = v.read_lag;
  }

  exchange-present :
      (old_value new_value : ℕ)
      → (get_or xs k 0 == old_value) ≡ true
      → exchange q (cast q.bits (h + k)) old_value new_value ≡ (true, overwritten new_value)
  unfolding exchange
  exchange-present old_value new_value same =
      compare_exchange-win q (cast q.bits (h + k)) _ _ (
        slot-within
        ∙ ap (λ x. entry_of (full_seq q.config (cast q.bits (h + k))) x) (ground (arith, same)))
      ∙ ap
          (λ (i : ℕ). (
            true,
            record q {
              array = set q.array i (entry_of (full_seq q.config (cast q.bits (h + k))) new_value);
            },
          ))
          (slot_index-cast v.shape (h + k))
      ∙ ap (λ s. (true, record q { array = set q.array ((h + k) % q.size) (entry_of s new_value) }))
          (full_seq-cast q.config (h + k))

  exchange-absent :
      (old_value new_value : ℕ)
      → (get_or xs k 0 == old_value) ≡ false
      → exchange q (cast q.bits (h + k)) old_value new_value ≡ (false, q)
  unfolding exchange
  exchange-absent old_value new_value other =
      compare_exchange-differs q (cast q.bits (h + k)) _ _ (rw slot-within (rw other refl))

  exchange_held :
      (old_value new_value : ℕ)
      → Exchanges q.config q (record { read = h; items = xs }) k old_value new_value
  exchange_held old_value new_value = elim (Bool-cases (get_or xs k 0 == old_value)) [
    | inl same ↦ rw same (
      overwritten new_value,
      exchange-present old_value new_value same,
      Serves-refl (record { read = h; items = set xs k new_value }) (Holds-overwritten new_value),
    )
    | inr other ↦ rw other (
      q,
      exchange-absent old_value new_value other,
      Serves-refl (record { read = h; items = xs }) v,
    )
  ]

-- On a queue that serves a list, `exchange(i, old_value, new_value)` at the number of an element returns
-- true exactly if the element is `old_value`; it then replaces it by `new_value` in place, and otherwise
-- leaves the queue serving the same list.
pub exchange-Exchanges :
    {c : Config} {q : Queue} (f : Fifo) (k old_value new_value : ℕ)
    → Serves c q f
    → k < length f.items
    → Exchanges c q f k old_value new_value
exchange-Exchanges {q = q} f k old_value new_value s within =
    subst (λ c. Exchanges c q f k old_value new_value) s.config_is
      (exchange_held s.holds k within old_value new_value)
