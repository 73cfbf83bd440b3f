-- ===== src/Queue/Atomic.antt =====
-- What each atomic operation does to a queue that holds a list.
use lockfree_mpmc_queue.Base.{
  ℕ, ◌+◌, ◌*◌, ◌%◌, ◌<◌, ◌≡◌, refl, ◌≢◌, true, false, List, [], ◌∷◌, ◌++◌, length, set, length-set,
  length-append, arith, ◌∙◌, ==_of_eq, ap,
}
use lockfree_mpmc_queue.Base.Word.{cast, cast-suc}
use lockfree_mpmc_queue.Queue.{
  same_entry, Entry, entry_of, entry_of_seq, Queue, slot, slot_index, compare_exchange,
  advance_write, advance_read,
}
use lockfree_mpmc_queue.Queue.Shape.{Holds, Cells-push, Cells-pop, size_pos}

pub compare_exchange-win :
    (q : Queue) (i : ℕ) (expected new_value : Entry)
    → slot q i ≡ expected
    → compare_exchange q i expected new_value
      ≡ (true, record q { array = set q.array (slot_index q.config i) new_value })
unfolding compare_exchange
compare_exchange-win q i e f h = rw h (ground arith)

pub compare_exchange-lose :
    (q : Queue) (i : ℕ) (expected new_value : Entry)
    → (slot q i).seq ≢ expected.seq
    → compare_exchange q i expected new_value ≡ (false, q)
unfolding compare_exchange
compare_exchange-lose q i e f h = ground arith

pub compare_exchange-differs :
    (q : Queue) (i : ℕ) (expected new_value : Entry)
    → same_entry (slot q i) expected ≡ false
    → compare_exchange q i expected new_value ≡ (false, q)
unfolding compare_exchange
compare_exchange-differs q i e f h = rw h

-- An index that has not moved since it was read is advanced; one that has is left alone.
pub advance_write-win :
    (q : Queue) (l : ℕ)
    → q.write_index ≡ cast q.bits l
    → advance_write q (cast q.bits l) ≡ record q { write_index = cast q.bits (l + 1) }
unfolding advance_write
advance_write-win q l e =
    rw (==_of_eq q.write_index (cast q.bits l) e)
      (ap (λ t. record q { write_index = t }) (cast-suc q.bits l))

pub advance_read-win :
    (q : Queue) (l : ℕ)
    → q.read_index ≡ cast q.bits l
    → advance_read q (cast q.bits l) ≡ record q { read_index = cast q.bits (l + 1) }
unfolding advance_read
advance_read-win q l e =
    rw (==_of_eq q.read_index (cast q.bits l) e)
      (ap (λ t. record q { read_index = t }) (cast-suc q.bits l))

pub advance_write-lose : (q : Queue) (i : ℕ) → q.write_index ≢ i → advance_write q i ≡ q
unfolding advance_write
advance_write-lose q i h = ground arith

pub advance_read-lose : (q : Queue) (i : ℕ) → q.read_index ≢ i → advance_read q i ≡ q
unfolding advance_read
advance_read-lose q i h = ground arith

-- `q` with the slot of write `t` filled by `d`.
abbrev pub filled : Queue → ℕ → ℕ → Queue
filled q t d = record q { array = set q.array (t % q.size) (entry_of (cast q.bits (t * 2 + 1)) d) }

-- `q` with the slot of write `t` emptied for the write one turn later.
abbrev pub drained : Queue → ℕ → Queue
drained q t = record q {
  array = set q.array (t % q.size) (entry_of_seq (cast q.bits ((t + q.size) * 2)));
}

module _ {q : Queue} {h wr rd : ℕ} where
  pub Holds-filled :
      {xs : List ℕ} (d : ℕ)
      → Holds q h xs wr rd
      → length xs < q.size
      → wr ≡ h + length xs
      → Holds (filled q wr d) h (xs ++ d ∷ []) wr rd
  Holds-filled {xs} d v room e = record {
    shape = v.shape;
    slots = length-set q.array (wr % q.size) _ ∙ v.slots;
    room = omega (arith, length-append xs (d ∷ []));
    cells = rw e (Cells-push q.config q.array h xs d (size_pos v.shape) v.slots room v.cells);
    write_word = v.write_word;
    write_reached = omega (arith, length-append xs (d ∷ []));
    write_lag = omega (arith, length-append xs (d ∷ []));
    read_word = v.read_word;
    read_reached = v.read_reached;
    read_lag = v.read_lag;
  }

  pub Holds-drained :
      {x : ℕ} {xs : List ℕ}
      → Holds q h (x ∷ xs) wr rd
      → rd ≡ h
      → Holds (drained q rd) (h + 1) xs wr rd
  Holds-drained {x} {xs} v e = record {
    shape = v.shape;
    slots = length-set q.array (rd % q.size) _ ∙ v.slots;
    room = omega (arith, v.room);
    cells = rw e (Cells-pop q.config q.array h x xs (size_pos v.shape) v.slots v.room v.cells);
    write_word = v.write_word;
    write_reached = omega (arith, v.write_reached);
    write_lag = omega (arith, v.write_lag);
    read_word = v.read_word;
    read_reached = omega (arith, v.read_reached);
    read_lag = omega (arith, v.read_reached);
  }

  pub advance_write-Holds :
      {xs : List ℕ}
      → Holds q h xs wr rd
      → wr < h + length xs
      → Holds (advance_write q (cast q.bits wr)) h xs (wr + 1) rd
  advance_write-Holds {xs} v lags = rw (advance_write-win q wr v.write_word) (record {
    shape = v.shape;
    slots = v.slots;
    room = v.room;
    cells = v.cells;
    write_word = refl;
    write_reached = omega (arith, lags);
    write_lag = omega (arith, v.write_lag);
    read_word = v.read_word;
    read_reached = v.read_reached;
    read_lag = v.read_lag;
  })

  pub advance_read-Holds :
      {xs : List ℕ}
      → Holds q h xs wr rd
      → rd < h
      → Holds (advance_read q (cast q.bits rd)) h xs wr (rd + 1)
  advance_read-Holds {xs} v lags = rw (advance_read-win q rd v.read_word) (record {
    shape = v.shape;
    slots = v.slots;
    room = v.room;
    cells = v.cells;
    write_word = v.write_word;
    write_reached = v.write_reached;
    write_lag = v.write_lag;
    read_word = refl;
    read_reached = omega (arith, lags);
    read_lag = omega (arith, v.read_lag);
  })
