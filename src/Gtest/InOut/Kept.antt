-- ===== src/Gtest/InOut/Kept.antt =====
-- src/gtest_mpmc_queue.cpp, the test HashInputOutput: what every step keeps.
use native.Mathlib.Nat.{mod-eq_of_lt}
use lockfree_mpmc_queue.Base.{
  ℕ, zero, suc, ◌+◌, ◌≤◌, ◌<◌, ◌^◌, ◌≡◌, refl, sym, ap, ◌∙◌, subst, inl, inr, Bool-cases, [], ◌∷◌,
  ◌++◌, ltb, ltb_of_lt, arith, ap₂,
}
use lockfree_mpmc_queue.Base.Word.{cast}
use lockfree_mpmc_queue.Hash.{Signature, make_signature, add_value}
use lockfree_mpmc_queue.Service.Lines.{Line}
use lockfree_mpmc_queue.Gtest.Counting.{numbers, numbers-snoc}
use lockfree_mpmc_queue.Gtest.InOut.{
  Writer, hashing, pushing, wrote, Reader, popping, adding, ended, InOut, writer_step, reader_step,
}

-- The signature of the numbers below `k`.
abbrev pub chain : ℕ → Signature
chain zero = make_signature 1
chain (suc k) = add_value (chain k) k

abbrev pub pushed : ℕ → Writer → ℕ
pushed loops (hashing i) = i
pushed loops (pushing i) = i
pushed loops wrote = loops

abbrev pub hashed : ℕ → Writer → ℕ
hashed loops (hashing i) = i
hashed loops (pushing i) = suc i
hashed loops wrote = loops

-- How many numbers the reader has hashed.
abbrev pub done : ℕ → Reader → ℕ
done loops (popping i) = i
done loops (adding i v) = i
done loops ended = loops

-- How many it has popped.
abbrev pub taken : ℕ → Reader → ℕ
taken loops (popping i) = i
taken loops (adding i v) = suc i
taken loops ended = loops

abbrev pub IsWriter : ℕ → Writer → Type 0
IsWriter loops (hashing i) = i ≤ loops
IsWriter loops (pushing i) = i < loops
IsWriter loops wrote = Unit {0}

-- What the reader has in its hand is the next number.
abbrev pub IsReader : ℕ → Reader → Type 0
IsReader loops (popping i) = i ≤ loops
IsReader loops (adding i v) = (i < loops) × (v ≡ i)
IsReader loops ended = Unit {0}

pub record Kept {L : Line} (loops : ℕ) (b : InOut L) : Type 0 where
  pub count : ℕ
  pub total : taken loops b.reader + count ≡ pushed loops b.writer
  pub holds : L.Holds b.queue (numbers (taken loops b.reader) count)
  pub in_is : b.h_in ≡ chain (hashed loops b.writer)
  pub out_is : b.h_out ≡ chain (done loops b.reader)
  pub at_writer : IsWriter loops b.writer
  pub at_reader : IsReader loops b.reader

module _ {L : Line} {loops : ℕ} (few : loops < 2 ^ 32) {b : InOut L} (v : Kept loops b) where
  pub Kept-writer : (w : Writer) → b.writer ≡ w → Kept loops (writer_step L loops b w)
  unfolding writer_step
  Kept-writer (hashing i) e = elim (Bool-cases (ltb i loops)) [
    | inl more ↦ rw more (record {
      count = v.count;
      total = v.total ∙ rw e refl;
      holds = v.holds;
      in_is = ap (λ s. add_value s i) (v.in_is ∙ rw e refl);
      out_is = v.out_is;
      at_writer = ground (arith, more);
      at_reader = v.at_reader;
    })
    | inr over ↦
        let at : i ≤ loops = subst (IsWriter loops) e v.at_writer in
        let all : i ≡ loops = ground (arith, over, at) in
        rw over (record {
          count = v.count;
          total = v.total ∙ rw e all;
          holds = v.holds;
          in_is = v.in_is ∙ rw e (ap chain all);
          out_is = v.out_is;
          at_writer = tt;
          at_reader = v.at_reader;
        })
  ]
  Kept-writer (pushing i) e =
      let at : i < loops = subst (IsWriter loops) e v.at_writer in
      let (q, outcome) = L.push_law b.queue (numbers (taken loops b.reader) v.count) i v.holds in
      elim outcome [
        | inl (took, holds) ↦
            let next : cast 64 (i + 1) ≡ suc i = mod-eq_of_lt (omega arith) ∙ omega arith in
            let last : taken loops b.reader + v.count ≡ i = v.total ∙ rw e refl in
            rw (took, writer_step)
              (rw next (record {
                count = v.count + 1;
                total = omega (arith, last);
                holds =
                    subst (λ xs. L.Holds q xs)
                      (ap (λ k. numbers (taken loops b.reader) v.count ++ k ∷ []) (sym last)
                        ∙ sym (numbers-snoc (taken loops b.reader) v.count))
                      holds;
                in_is = v.in_is ∙ rw e refl;
                out_is = v.out_is;
                at_writer = at;
                at_reader = v.at_reader;
              }))
        | inr (refused, holds) ↦
            rw (refused, writer_step)
              (record {
                count = v.count;
                total = v.total;
                holds = holds;
                in_is = v.in_is;
                out_is = v.out_is;
                at_writer = v.at_writer;
                at_reader = v.at_reader;
              })
      ]
  Kept-writer wrote e = v

  Kept-popping :
      (i count : ℕ)
      → i < loops
      → b.reader ≡ popping i
      → i + count ≡ pushed loops b.writer
      → L.Holds b.queue (numbers i count)
      → Kept loops (reader_step L loops b (popping i))
  unfolding reader_step
  Kept-popping i zero more e total holds =
      let (q, nothing, left) = L.pop_none_law b.queue holds in
      rw (ltb_of_lt i loops more, nothing, reader_step)
        (record {
          count = 0;
          total = rw e total;
          holds = left;
          in_is = v.in_is;
          out_is = v.out_is;
          at_writer = v.at_writer;
          at_reader = v.at_reader;
        })
  Kept-popping i (suc count) more e total holds =
      let (q, got, left) = L.pop_law b.queue i (numbers (i + 1) count) holds in
      let next : i + 1 ≡ suc i = omega arith in
      rw (ltb_of_lt i loops more, got, reader_step)
        (record {
          count = count;
          total = omega (arith, total);
          holds = rw next at left;
          in_is = v.in_is;
          out_is = v.out_is ∙ rw e refl;
          at_writer = v.at_writer;
          at_reader = (more, refl);
        })

  pub Kept-reader : (r : Reader) → b.reader ≡ r → Kept loops (reader_step L loops b r)
  unfolding reader_step
  Kept-reader (popping i) e = elim (Bool-cases (ltb i loops)) [
    | inl more ↦
        Kept-popping i v.count (ground (arith, more)) e
          (ap (λ r. taken loops r + v.count) (sym e) ∙ v.total)
          (subst (λ r. L.Holds b.queue (numbers (taken loops r) v.count)) e v.holds)
    | inr over ↦
        let at : i ≤ loops = subst (IsReader loops) e v.at_reader in
        let all : i ≡ loops = ground (arith, over, at) in
        rw over (record {
          count = v.count;
          total = ap (λ k. k + v.count) (sym all ∙ ap (taken loops) (sym e)) ∙ v.total;
          holds =
              subst (λ k. L.Holds b.queue (numbers k v.count)) (ap (taken loops) e ∙ all) v.holds;
          in_is = v.in_is;
          out_is = v.out_is ∙ rw e (ap chain all);
          at_writer = v.at_writer;
          at_reader = tt;
        })
  ]
  Kept-reader (adding i x) e =
      let (more, same) = subst (IsReader loops) e v.at_reader in
      let next : cast 32 (i + 1) ≡ suc i = mod-eq_of_lt (omega arith) ∙ omega arith in
      rw next (record {
        count = v.count;
        total = ap (λ r. taken loops r + v.count) (sym e) ∙ v.total;
        holds = subst (λ r. L.Holds b.queue (numbers (taken loops r) v.count)) e v.holds;
        in_is = v.in_is;
        out_is = ap₂ add_value (v.out_is ∙ rw e refl) same;
        at_writer = v.at_writer;
        at_reader = more;
      })
  Kept-reader ended e = v
