-- ===== src/Timing/Bounds.antt =====
-- Where the reader of `QTiming::run` stores.
use native.Mathlib.Nat.{mod-eq_of_lt}
use lockfree_mpmc_queue.Base.{
  ℕ, ◌+◌, ◌^◌, ◌≤◌, ◌<◌, ◌≡◌, refl, ◌∙◌, ap, subst, sym, ◌⊎◌, inl, inr, Bool-cases, List, [], ◌∷◌,
  some, ltb, ◌==◌, set, length, arith, ltb_of_lt, length-set,
}
use lockfree_mpmc_queue.Base.Word.{cast}
use lockfree_mpmc_queue.Service.{Service}
use lockfree_mpmc_queue.Timing.{
  Gauge, Writer, Reader, Watch, start, writer_step, reader_step, Turn, writes, reads, take_turn,
  take_turns, run, stamping, closing, ended, reading, reporting, overran,
}
use lockfree_mpmc_queue.Timing.WarmUp.{warm_up-HoldsFew}
use lockfree_mpmc_queue.Service.Totals.{count}

-- How many pushes the writer has made.
abbrev sent : ℕ → Writer → ℕ
sent depth (stamping i) = i
sent depth closing = depth
sent depth ended = depth + 1

-- How many elements the reader has stored; past the end of its array, more than there is room for.
abbrev got : ℕ → Reader → ℕ
got room (reading n) = n
got room (reporting n) = n
got room overran = room + 1

abbrev IsLow : ℕ → Writer → Type 0
IsLow depth (stamping i) = i ≤ depth
IsLow depth other = Unit {0}

-- Each element is stored or held, and the array has a place for each.
record Fits {S : Service} (u : Gauge) (b : Watch S) : Type 0 where
  held : List ℕ
  holds : S.Holds b.queue held
  room : length b.diffs ≡ u.depth + 1
  all_sent : got (u.depth + 1) b.reader + count held ≤ sent u.depth b.writer
  within : sent u.depth b.writer ≤ u.depth + 1
  low : IsLow u.depth b.writer

module _ {S : Service} {u : Gauge} {b : Watch S} (v : Fits u b) (fit : u.depth + 1 < 2 ^ 32)
    (now : ℕ) where
  Fits-pushed :
      (p : Writer) (q : S.State) (ys : List ℕ)
      → S.Holds q ys
      → count ys + sent u.depth b.writer ≤ count v.held + sent u.depth p
      → sent u.depth p ≤ u.depth + 1
      → IsLow u.depth p
      → Fits u (record b { queue = q; writer = p })
  Fits-pushed p q ys h more top lower = record {
    held = ys;
    holds = h;
    room = v.room;
    all_sent = omega (arith, v.all_sent);
    within = top;
    low = lower;
  }

  word : (i : ℕ) → i < u.depth + 1 → cast 32 (i + 1) ≡ i + 1
  word i less = mod-eq_of_lt (omega (arith, fit))

  Fits-writer : (p : Writer) → b.writer ≡ p → Fits u (writer_step S u b now p)
  unfolding writer_step
  Fits-writer (stamping i) e =
      let at : sent u.depth b.writer ≡ i = ap (sent u.depth) e in
      let the_low : i ≤ u.depth = subst (λ p. IsLow u.depth p) e v.low in
      elim (Bool-cases (ltb i u.depth)) [
        | inr over ↦
            rw over
              (Fits-pushed closing b.queue v.held v.holds (omega (arith, at)) (omega arith) tt)
        | inl more ↦
            let (q, ys, holds, outcome) =
              S.push_law b.queue v.held 1 (cast u.value_bits now) v.holds in
            elim outcome [
              | inl (pushed, same) ↦ rw more (
                  rw (pushed, writer_step)
                    (Fits-pushed (stamping (cast 32 (i + 1))) q ys holds
                      (omega (arith, at, same (λ x. 1), word i (ground (arith, more))))
                      (omega (arith, word i (ground (arith, more)), the_low))
                      (subst (λ n. n ≤ u.depth) (sym (word i (ground (arith, more))))
                        (ground (arith, more)))))
              | inr (refused, same) ↦ rw more (
                  rw (refused, writer_step)
                    (Fits-pushed (stamping i) q ys holds (omega (arith, at, same (λ x. 1)))
                      (omega (arith, the_low)) the_low))
            ]
      ]
  Fits-writer closing e =
      let at : sent u.depth b.writer ≡ u.depth = ap (sent u.depth) e in
      let (q, ys, holds, outcome) = S.push_law b.queue v.held 1 0 v.holds in
      elim outcome [
        | inl (pushed, same) ↦
            rw (pushed, writer_step)
              (Fits-pushed ended q ys holds (omega (arith, at, same (λ x. 1))) (omega arith) tt)
        | inr (refused, same) ↦
            rw (refused, writer_step)
              (Fits-pushed closing q ys holds (omega (arith, at, same (λ x. 1))) (omega arith) tt)
      ]
  Fits-writer ended e = v

  -- An element goes from the queue to the next place of the array.
  Fits-stored :
      (n : ℕ) (x : ℕ) (q : S.State) (ys : List ℕ) (p : Reader)
      → S.Holds q ys
      → got (u.depth + 1) b.reader ≡ n
      → count v.held ≡ 1 + count ys
      → got (u.depth + 1) p ≡ cast 32 (n + 1)
      → Fits u (record b { queue = q; diffs = set b.diffs n x; reader = p })
  Fits-stored n x q ys p h at same goes = record {
    held = ys;
    holds = h;
    room = length-set b.diffs n x ∙ v.room;
    all_sent =
        omega (
          arith,
          v.all_sent,
          at,
          same,
          goes,
          word n (omega (arith, at, v.all_sent, v.within, same)),
        );
    within = v.within;
    low = v.low;
  }

  Fits-reader : (p : Reader) → b.reader ≡ p → Fits u (reader_step S b now p)
  unfolding reader_step
  Fits-reader (reading n) e =
      let at : got (u.depth + 1) b.reader ≡ n = ap (got (u.depth + 1)) e in
      let (q, ys, holds, outcome) = S.pop_law b.queue v.held 2 v.holds in
      elim outcome [
        | inr (nothing, same, gone) ↦
            rw (nothing, reader_step)
              (record {
                held = ys;
                holds = holds;
                room = v.room;
                all_sent = omega (arith, v.all_sent, gone (λ x. 1));
                within = v.within;
                low = v.low;
              })
        | inl (x, popped, same) ↦
            let fits : n < u.depth + 1 = omega (arith, at, v.all_sent, v.within, same (λ x. 1)) in
            rw (popped, reader_step)
              (rw (ltb_of_lt n (length b.diffs) (omega (arith, v.room)))
                (elim (Bool-cases (x == 0)) [
                  | inl zeroed ↦ rw zeroed (
                      Fits-stored n _ q ys (reporting (cast 32 (n + 1))) holds at (same (λ x. 1))
                        refl)
                  | inr other ↦ rw other (
                      Fits-stored n _ q ys (reading (cast 32 (n + 1))) holds at (same (λ x. 1))
                        refl)
                ]))
      ]
  Fits-reader (reporting n) e = v
  Fits-reader overran e = v

Fits-take_turns :
    {S : Service} {u : Gauge} (turns : List Turn) (b : Watch S)
    → u.depth + 1 < 2 ^ 32
    → Fits u b
    → Fits u (take_turns S u b turns)
unfolding take_turns take_turn
Fits-take_turns [] b fit v = v
Fits-take_turns (writes now ∷ turns) b fit v =
    Fits-take_turns turns _ fit (Fits-writer v fit now b.writer refl)
Fits-take_turns (reads now ∷ turns) b fit v =
    Fits-take_turns turns _ fit (Fits-reader v fit now b.reader refl)

-- The reader has stored at most as many differences as the array has places.
abbrev pub IsWithin : {S : Service} → Gauge → Watch S → Type 0
IsWithin u b = (n : ℕ) × ((b.reader ≡ reading n) ⊎ (b.reader ≡ reporting n)) × (n ≤ u.depth + 1)

Fits-IsWithin : {S : Service} {u : Gauge} {b : Watch S} → Fits u b → IsWithin u b
Fits-IsWithin {S} {u} {b} v = go b.reader refl
  where
    go : (p : Reader) → b.reader ≡ p → IsWithin u b
    go (reading n) e = (n, inl e, omega (arith, v.all_sent, v.within, ap (got (u.depth + 1)) e))
    go (reporting n) e = (n, inr e, omega (arith, v.all_sent, v.within, ap (got (u.depth + 1)) e))
    go overran e = absurd (omega (arith, v.all_sent, v.within, ap (got (u.depth + 1)) e))

-- On a service that holds nothing, with a depth below 2^32 - 1, `QTiming::run` returns from its first
-- rounds, and then, in every order of the writer's and the reader's steps and whatever the clock says,
-- the reader stores within its array of one place more than the depth.
pub run-IsWithin :
    (S : Service) (u : Gauge) (s : S.State) (diffs : List ℕ) (turns : List Turn)
    → u.depth + 1 < 2 ^ 32
    → length diffs ≡ cast 32 (u.depth + 1)
    → S.Holds s []
    → (b : Watch S) × (run S u s diffs turns ≡ some b) × IsWithin u b
unfolding run start
run-IsWithin S u s diffs turns fit room h =
    let (t, ys, warmed, holds, few) = warm_up-HoldsFew S u s 4 h in
    let b = start S u t diffs in
    (
      take_turns S u b turns,
      rw (warmed, run) refl,
      Fits-IsWithin (
          Fits-take_turns turns b fit (record {
            held = ys;
            holds = holds;
            room = room ∙ mod-eq_of_lt fit;
            all_sent = omega (arith, few);
            within = omega arith;
            low = omega arith;
          })),
    )
