-- ===== src/Gtest/Merge/Kept.antt =====
-- src/gtest_mpmc_queue.cpp, the test hash2: what every step keeps.
use native.Mathlib.Nat.{mod-eq_of_lt}
use mathlib.Core.List.{append-nil, append_assoc}
use lockfree_mpmc_queue.Base.{
  ℕ, zero, suc, ◌+◌, ◌^◌, ◌≤◌, ◌<◌, ◌≡◌, ◌≢◌, refl, sym, ap, ap₂, ◌∙◌, subst, inl, inr, Bool-cases,
  List, [], ◌∷◌, ◌++◌, if◌then◌else◌, ltb, ◌==◌, update, update_self, update_ne, arith, ==_of_eq,
  ==_of_ne,
}
use lockfree_mpmc_queue.Base.Word.{cast}
use lockfree_mpmc_queue.Hash.{Signature, make_signature, add_value}
use lockfree_mpmc_queue.Service.Lines.{Line}
use lockfree_mpmc_queue.Gtest.Streams.{Plan, Maker, hashing, pushing, leaving, made}
use lockfree_mpmc_queue.Gtest.Streams.Kept.{pushed, hashed, IsMaker, update-each}
use lockfree_mpmc_queue.Gtest.Merge.{
  data2, v_of, hindex_of, Sink, locking, adding, Merge, source_step,
}

-- The signature of the numbers below `k`.
abbrev pub chain : ℕ → Signature
chain zero = make_signature 0
chain (suc k) = add_value (chain k) k

-- The elements of a producer, in order.
abbrev pub only : ℕ → List ℕ → List ℕ
only p [] = []
only p (d ∷ xs) = if hindex_of d == p then d ∷ only p xs else only p xs

-- The elements that a producer pushes from `k` on.
abbrev pub stream : ℕ → ℕ → ℕ → List ℕ
stream p k zero = []
stream p k (suc n) = data2 k p ∷ stream p (suc k) n

-- What the consumer has popped and not hashed.
abbrev pub hand : Sink → List ℕ
hand (locking d) = d ∷ []
hand (adding d) = d ∷ []
hand _ = []

-- What a producer has pushed has been hashed in its order, or is on its way in its order.
pub record Flow (u : Plan) (p : ℕ) (m : Maker) (line : List ℕ) (hin hout : Signature) : Type 0 where
  pub done : ℕ
  pub left : ℕ
  pub total : done + left ≡ pushed u m
  pub order : only p line ≡ stream p done left
  pub in_is : hin ≡ chain (hashed u m)
  pub out_is : hout ≡ chain done
  pub at : IsMaker u m

pub record Kept {L : Line} (u : Plan) (b : Merge L) : Type 0 where
  pub held : List ℕ
  pub holds : L.Holds b.queue held
  pub flows :
      (p : ℕ) → p < u.producers → Flow u p (b.maker p) (hand b.sink ++ held) (b.hin p) (b.hout p)

only-append : (p : ℕ) (xs ys : List ℕ) → only p (xs ++ ys) ≡ only p xs ++ only p ys
only-append p [] ys = refl
only-append p (d ∷ xs) ys = elim (Bool-cases (hindex_of d == p)) [
  | inl mine ↦ rw mine (ap (λ zs. d ∷ zs) (only-append p xs ys))
  | inr other ↦ rw other (only-append p xs ys)
]

stream-snoc : (p k n : ℕ) → stream p k (suc n) ≡ stream p k n ++ data2 (k + n) p ∷ []
stream-snoc p k zero = ap (λ i. data2 i p ∷ []) {y = k + 0} (omega arith)
stream-snoc p k (suc n) =
    ap (λ xs. data2 k p ∷ xs)
      (stream-snoc p (suc k) n
        ∙ ap (λ i. stream p (suc k) n ++ data2 i p ∷ []) {y = k + suc n} (omega arith))

hindex_of-data2 : (v id : ℕ) → v < 2 ^ 64 → hindex_of (data2 v id) ≡ id
hindex_of-data2 v id small = omega arith

pub v_of-data2 : (v id : ℕ) → v < 2 ^ 64 → v_of (data2 v id) ≡ v
v_of-data2 v id small = omega arith

-- What a producer's element adds to the elements of one.
only-mine : (i p : ℕ) → i < 2 ^ 64 → only p (data2 i p ∷ []) ≡ data2 i p ∷ []
only-mine i p small = rw (hindex_of-data2 i p small, ==_of_eq p p refl) refl

only-other : (i p r : ℕ) → i < 2 ^ 64 → r ≢ p → only r (data2 i p ∷ []) ≡ []
only-other i p r small ne = rw (hindex_of-data2 i p small, ==_of_ne p r (λ e. ne (sym e))) refl

module _ {L : Line} {u : Plan} {b : Merge L} (few : u.loops < 2 ^ 64) (v : Kept u b) (p : ℕ)
    (known : p < u.producers) where
  -- Another place of the producer, with as many pushed, changes nothing of the other producers.
  Kept-source_moved :
      (q : L.State) (n : ℕ) (hin : ℕ → Signature) (m : Maker)
      → L.Holds q v.held
      → pushed u m ≡ pushed u (b.maker p)
      → hin p ≡ chain (hashed u m)
      → ((r : ℕ) → r ≢ p → hin r ≡ b.hin r)
      → IsMaker u m
      → Kept u (record b { queue = q; producers_count = n; hin = hin; maker = update b.maker p m })
  Kept-source_moved q n hin m holds same mine others at = record {
    held = v.held;
    holds = holds;
    flows =
        update-each (λ r k. r < u.producers → Flow u r k (hand b.sink ++ v.held) (hin r) (b.hout r))
          b.maker p m
          (λ k.
            let f = v.flows p known in
            record {
              done = f.done;
              left = f.left;
              total = f.total ∙ sym same;
              order = f.order;
              in_is = mine;
              out_is = f.out_is;
              at = at;
            })
          (λ r ne also.
            let f = v.flows r also in
            record {
              done = f.done;
              left = f.left;
              total = f.total;
              order = f.order;
              in_is = others r ne ∙ f.in_is;
              out_is = f.out_is;
              at = f.at;
            });
  }

  Kept-refused : (q : L.State) → L.Holds q v.held → Kept u (record b { queue = q })
  Kept-refused q holds = record { held = v.held; holds = holds; flows = v.flows }

  Kept-pushed :
      (i : ℕ) (q : L.State)
      → i < u.loops
      → b.maker p ≡ pushing i
      → L.Holds q (v.held ++ data2 i p ∷ [])
      → Kept u (record b { queue = q; maker = update b.maker p (hashing (suc i)) })
  Kept-pushed i q more e holds = record {
    held = v.held ++ data2 i p ∷ [];
    holds = holds;
    flows =
        update-each (λ r m. r < u.producers → Flow u r m line (b.hin r) (b.hout r)) b.maker p
          (hashing (suc i)) mine others;
  }
    where
      line : List ℕ
      line = hand b.sink ++ (v.held ++ data2 i p ∷ [])

      longer : (r : ℕ) → only r line ≡ only r (hand b.sink ++ v.held) ++ only r (data2 i p ∷ [])
      longer r =
          ap (only r) (sym (append_assoc (hand b.sink) v.held (data2 i p ∷ [])))
          ∙ only-append r (hand b.sink ++ v.held) (data2 i p ∷ [])

      mine : p < u.producers → Flow u p (hashing (suc i)) line (b.hin p) (b.hout p)
      mine k =
          let f = v.flows p known in
          let last : f.done + f.left ≡ i = f.total ∙ rw e refl in
          record {
            done = f.done;
            left = suc f.left;
            total = omega (arith, last);
            order =
                longer p
                ∙ ap₂ (λ xs ys. xs ++ ys) f.order (only-mine i p (omega arith))
                ∙ ap (λ k. stream p f.done f.left ++ data2 k p ∷ []) (sym last)
                ∙ sym (stream-snoc p f.done f.left);
            in_is = f.in_is ∙ rw e refl;
            out_is = f.out_is;
            at = more;
          }

      others : (r : ℕ) → r ≢ p → r < u.producers → Flow u r (b.maker r) line (b.hin r) (b.hout r)
      others r ne also =
          let f = v.flows r also in
          record {
            done = f.done;
            left = f.left;
            total = f.total;
            in_is = f.in_is;
            out_is = f.out_is;
            at = f.at;
            order =
                longer r
                ∙ ap (λ ys. only r (hand b.sink ++ v.held) ++ ys)
                    (only-other i p r (omega arith) ne)
                ∙ append-nil (only r (hand b.sink ++ v.held))
                ∙ f.order;
          }

  pub Kept-source : (m : Maker) → b.maker p ≡ m → Kept u (source_step L u b p p m)
  unfolding source_step
  Kept-source (hashing i) e =
      let f = v.flows p known in
      elim (Bool-cases (ltb i u.loops)) [
        | inl more ↦ rw more (
            Kept-source_moved b.queue b.producers_count _ (pushing i) v.holds (rw e refl)
              (update_self b.hin p _ ∙ ap (λ s. add_value s i) (f.in_is ∙ rw e refl))
              (λ r ne. update_ne b.hin p r _ ne) (ground (arith, more)))
        | inr over ↦
            let at : i ≤ u.loops = subst (IsMaker u) e f.at in
            let all : i ≡ u.loops = ground (arith, over, at) in
            rw over (
              Kept-source_moved b.queue b.producers_count b.hin leaving v.holds (rw e (sym all))
                (f.in_is ∙ rw e (ap chain all)) (λ r ne. refl) tt)
      ]
  Kept-source (pushing i) e =
      let at : i < u.loops = subst (IsMaker u) e (v.flows p known).at in
      let (q, outcome) = L.push_law b.queue v.held (data2 i p) v.holds in
      elim outcome [
        | inl (took, holds) ↦
            let next : cast 64 (i + 1) ≡ suc i =
              mod-eq_of_lt (omega (arith, few, at)) ∙ omega arith in
            rw (took, source_step) (rw next (Kept-pushed i q at e holds))
        | inr (refused, holds) ↦ rw (refused, source_step) (Kept-refused q holds)
      ]
  Kept-source leaving e =
      let f = v.flows p known in
      Kept-source_moved b.queue _ b.hin made v.holds (rw e refl) (f.in_is ∙ rw e refl)
        (λ r ne. refl) tt
  Kept-source made e = v
