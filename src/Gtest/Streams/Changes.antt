-- ===== src/Gtest/Streams/Changes.antt =====
-- src/gtest_mpmc_queue.cpp, the test hash3: what a consumer's step may change.
use lockfree_mpmc_queue.Base.{
  ℕ, ◌+◌, ◌*◌, ◌≤◌, ◌<◌, ◌≡◌, refl, inl, Bool, true, false, List, update, update_self, update_ne,
  arith, ==_of_eq,
}
use native.Mathlib.Decide.{ℕ_discrete}
use lockfree_mpmc_queue.Base.Word.{cast}
use lockfree_mpmc_queue.Service.{Service, weigh}
use lockfree_mpmc_queue.Gtest.Streams.{
  value_of, seq_of, id_of, Plan, Maker, hashing, pushing, leaving, made, Taker, HashTest,
}
use lockfree_mpmc_queue.Gtest.Streams.Kept.{
  IsMaker, of, bad, carries, inside, faults, IsMatched, pushed, bit, Kept, Moved,
}

pub pushed-loops : (u : Plan) (m : Maker) → IsMaker u m → pushed u m ≤ u.loops
pushed-loops u (hashing i) at = omega arith
pushed-loops u (pushing i) at = omega arith
pushed-loops u leaving at = omega arith
pushed-loops u made at = omega arith

-- An element that is not bad is of a producer, and has the value of its number.
pub bad-known : (u : Plan) (d : ℕ) → bad u d ≡ 0 → id_of d < u.producers
bad-known u d sound = ground arith

pub bad-value : (u : Plan) (d : ℕ) → bad u d ≡ 0 → value_of d ≡ cast 32 (seq_of d * seq_of d)
bad-value u d sound = ground arith

module _ {S : Service} {u : Plan} {b : HashTest S} (v : Kept u b) (j : ℕ) where
  -- A step that changes nothing but where the consumer stands, with the same element if any.
  abbrev pub stepped :
      (t : Taker)
      → ((p : ℕ) → carries p t ≡ carries p (b.taker j))
      → ((p : ℕ) → inside p t ≡ inside p (b.taker j))
      → faults u t ≡ 0
      → IsMatched v.done t
      → Moved v j
  stepped t carried held fault match = record {
    queue = b.queue;
    hout = b.hout;
    locks = b.locks;
    place = t;
    rest = v.held;
    done' = v.done;
    still_holds = v.holds;
    still_good = v.good;
    same_count = λ p. omega (arith, carried p);
    same_locked = λ p. omega (arith, held p);
    still_hout = v.hout_is;
    no_fault = fault;
    is_matched = match;
    others = λ p. inl refl;
  }

  -- The lock of an element's producer is taken or given back.
  abbrev pub switched :
      (d : ℕ) (t : Taker) (on : Bool)
      → ((p : ℕ) → carries p t ≡ carries p (b.taker j))
      → ((p : ℕ)
          → inside p t + bit (b.locks p)
            ≡ inside p (b.taker j) + bit (update b.locks (id_of d) on p))
      → faults u t ≡ 0
      → IsMatched v.done t
      → Moved v j
  switched d t on carried held fault match = record {
    queue = b.queue;
    hout = b.hout;
    locks = update b.locks (id_of d) on;
    place = t;
    rest = v.held;
    done' = v.done;
    still_holds = v.holds;
    still_good = v.good;
    same_count = λ p. omega (arith, carried p);
    same_locked = held;
    still_hout = v.hout_is;
    no_fault = fault;
    is_matched = match;
    others = λ p. inl refl;
  }

  -- The call of `pop` leaves these elements.
  abbrev pub popped :
      (q : S.State) (ys : List ℕ) (t : Taker)
      → S.Holds q ys
      → weigh (bad u) ys ≡ 0
      → ((p : ℕ) → weigh (of p) ys + carries p t ≡ weigh (of p) v.held + carries p (b.taker j))
      → ((p : ℕ) → inside p t ≡ inside p (b.taker j))
      → faults u t ≡ 0
      → IsMatched v.done t
      → Moved v j
  popped q ys t holds good carried held fault match = record {
    queue = q;
    hout = b.hout;
    locks = b.locks;
    place = t;
    rest = ys;
    done' = v.done;
    still_holds = holds;
    still_good = good;
    same_count = λ p. omega (arith, carried p);
    same_locked = λ p. omega (arith, held p);
    still_hout = v.hout_is;
    no_fault = fault;
    is_matched = match;
    others = λ p. inl refl;
  }

  -- Taking a lock that is free, giving back one that is held.
  pub bit-taken :
      (d p : ℕ)
      → b.locks (id_of d) ≡ false
      → of p d + bit (b.locks p) ≡ bit (update b.locks (id_of d) true p)
  bit-taken d p free = elim (ℕ_discrete p (id_of d)) [
    | yes e ↦
        rw (e, update_self b.locks (id_of d) true, free, ==_of_eq (id_of d) (id_of d) refl) refl
    | no ne ↦ rw (update_ne b.locks (id_of d) p true ne) (ground (arith, ne))
  ]

  pub bit-freed :
      (d p : ℕ)
      → b.locks (id_of d) ≡ true
      → bit (b.locks p) ≡ of p d + bit (update b.locks (id_of d) false p)
  bit-freed d p taken = elim (ℕ_discrete p (id_of d)) [
    | yes e ↦
        rw (e, update_self b.locks (id_of d) false, taken, ==_of_eq (id_of d) (id_of d) refl) refl
    | no ne ↦ rw (update_ne b.locks (id_of d) p false ne) (ground (arith, ne))
  ]
