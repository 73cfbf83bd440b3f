-- ===== src/Gtest/Sizes.antt =====
-- src/gtest_mpmc_queue.cpp: the tests that go through all sizes, FillEmpty, FillEmptyIndex and FillKeepN.
use native.Mathlib.Decide.{dec_lt}
use native.Mathlib.Nat.{mod-eq_of_lt, pow-le-pow_right, one-le-pow, pow-suc}
use lockfree_mpmc_queue.Base.{
  ℕ, zero, suc, ◌+◌, ◌*◌, ◌≤◌, ◌<◌, ◌^◌, ◌≡◌, refl, Bool, true, false, Option, some, List, [], ◌∷◌,
  arith, ltb_of_lt, ltb_of_le,
}
use lockfree_mpmc_queue.Base.Word.{cast}
use lockfree_mpmc_queue.Fifo.{empty}
use lockfree_mpmc_queue.Queue.{Queue}
use lockfree_mpmc_queue.Queue.Serves.{Serves}
use lockfree_mpmc_queue.Queue.Shape.{IsShape}
use lockfree_mpmc_queue.Queue.Init.Fresh.{construct-Serves}
use lockfree_mpmc_queue.Gtest.{
  on_new_queue, sized, four_queues, for_sizes, test_full_empty, test_full_empty_index,
  test_full_empty_keep_n, fill_empty, fill_empty_index, fill_keep_n, push_one, try_size,
  different_sizes, test_push_pop_one,
}
use lockfree_mpmc_queue.Gtest.FullEmpty.{
  test_full_empty-Passes, test_full_empty_index-Passes, test_size-Fills,
}
use lockfree_mpmc_queue.Gtest.Singles.{test_push_pop_one-Passes}
use lockfree_mpmc_queue.Gtest.KeepsN.{test_full_empty_keep_n-Passes}

-- Every queue of this size, lazy or not, passes the test.
abbrev AllPass : (Queue → Option (Bool × Queue)) → ℕ → Type 0
AllPass test s =
    (push pop : Bool) (q : Queue)
    → Serves (sized s push pop) q empty
    → (q' : Queue) × (test q ≡ some (true, q'))

returned :
    {x : Option (Bool × Queue)} {P : Queue → Type 0}
    → ((q' : Queue) × (x ≡ some (true, q')) × P q')
    → (q' : Queue) × (x ≡ some (true, q'))
returned (q', ran, left) = (q', ran)

sized-IsShape : (k s : ℕ) (push pop : Bool) → s ≡ 2 ^ k → s < 2 ^ 29 → IsShape (sized s push pop)
sized-IsShape k s push pop e small = record {
  log_size = k;
  power = e;
  wide = elim (dec_lt k 29) [
    | yes below ↦ omega arith
    | no above ↦
        absurd
          (omega (arith, pow-le-pow_right {n = 2} (omega arith) {i = 29} {j = k} (omega arith)))
  ];
}

below : (k : ℕ) → k < 29 → 2 ^ k < 2 ^ 29
below k few = omega (
  arith,
  pow-le-pow_right {n = 2} (omega arith) {i = suc k} {j = 29} (omega arith),
  pow-suc 2 k,
  one-le-pow k 2 (omega arith),
)

module _ (fuel : ℕ) (test : Queue → Option (Bool × Queue)) (k s : ℕ) (e : s ≡ 2 ^ k)
    (small : s < 2 ^ 29) (enough : s < fuel) (all : AllPass test s) where
  on_new_queue-passes : (push pop : Bool) → on_new_queue fuel test (sized s push pop) ≡ some true
  unfolding on_new_queue
  on_new_queue-passes push pop =
      let (q, made, serves) =
        construct-Serves (sized s push pop) fuel (sized-IsShape k s push pop e small) (omega arith)
          enough in
      let (q', ran) = all push pop q serves in rw (made) (rw ran refl)

  four_queues-pass : four_queues fuel test s ≡ some true
  unfolding four_queues
  four_queues-pass = rw (on_new_queue-passes false false) (
      rw (on_new_queue-passes false true)
        (rw (on_new_queue-passes true false) (rw (on_new_queue-passes true true) refl)))

module _ (fuel limit : ℕ) (test : Queue → Option (Bool × Queue)) (small : limit ≤ 2 ^ 29)
    (enough : limit < fuel) (all : (s : ℕ) → 0 < s → s < limit → AllPass test s) where
  for_sizes-passes :
      (n k s : ℕ)
      → s ≡ 2 ^ k
      → 0 < n
      → limit < s + n
      → for_sizes (four_queues fuel test) limit n s ≡ some true
  unfolding for_sizes
  for_sizes-passes zero k s e more reach = absurd (omega arith)
  for_sizes-passes (suc n) k s e more reach = elim (dec_lt s limit) [
    | yes below ↦
        let pos = one-le-pow k 2 (omega arith) in
        let next : cast 32 (s * 2) ≡ s * 2 = mod-eq_of_lt (omega arith) in
        rw (ltb_of_lt s limit below, for_sizes)
          (rw
            (four_queues-pass fuel test k s e (omega arith) (omega arith)
              (all s (omega arith) below))
            (rw next (
              rw
                (for_sizes-passes n (suc k) (s * 2) (omega (arith, pow-suc 2 k)) (omega arith)
                  (omega arith))
                refl)))
    | no reached ↦ rw (ltb_of_le s limit (omega arith), for_sizes) refl
  ]

-- The tests FillEmpty, FillEmptyIndex and FillKeepN pass, with any limit up to 2^28 in place of their
-- 2048, two rounds for each loop of the queue and fuel beyond the limit: their three loops return, and every expectation is met on every queue.
pub fill_tests-pass :
    (inner fuel limit : ℕ)
    → limit ≤ 2 ^ 28
    → limit < fuel
    → (fill_empty (suc (suc inner)) fuel limit ≡ some true)
      × (fill_empty_index (suc (suc inner)) fuel limit ≡ some true)
      × (fill_keep_n (suc (suc inner)) fuel limit ≡ some true)
unfolding fill_empty fill_empty_index fill_keep_n
fill_tests-pass inner fuel limit small enough = (
  for_sizes-passes fuel limit (test_full_empty (suc (suc inner)) fuel) (omega arith) enough
      (λ s pos below push pop q serves.
        returned (
          test_full_empty-Passes (sized s push pop) inner fuel q (omega arith) serves
            (omega arith)))
      fuel 0 1 (omega arith) (omega arith) (omega arith),
  for_sizes-passes fuel limit (test_full_empty_index (suc (suc inner)) fuel) (omega arith) enough
      (λ s pos below push pop q serves. returned (
        test_full_empty_index-Passes (sized s push pop) inner fuel q (omega arith) serves
          (omega arith) (omega arith)))
      fuel 0 1 (omega arith) (omega arith) (omega arith),
  for_sizes-passes fuel limit (test_full_empty_keep_n (suc (suc inner)) fuel) (omega arith) enough
      (λ s pos below push pop q serves. returned (
        test_full_empty_keep_n-Passes (sized s push pop) inner fuel q (omega arith) serves
          (omega arith) (omega arith)))
      fuel 0 1 (omega arith) (omega arith) (omega arith),
)

-- The tests PushOne of four queues pass, with any size 2^k below 2^29 in place of their 8, two rounds for
-- each loop of the queue and fuel beyond the size.
pub push_one-passes :
    (inner fuel k : ℕ) → k < 29 → 2 ^ k < fuel → push_one (suc (suc inner)) fuel (2 ^ k) ≡ some true
unfolding push_one
push_one-passes inner fuel k few enough =
    four_queues-pass fuel (test_push_pop_one (suc (suc inner))) k (2 ^ k) refl (below k few) enough
      (λ push pop q serves.
        returned (test_push_pop_one-Passes (sized (2 ^ k) push pop) inner q serves))

-- Powers of two that are sizes, with fuel for each.
abbrev pub AreSizes : ℕ → List ℕ → Type 0
AreSizes fuel [] = Unit {0}
AreSizes fuel (k ∷ ks) = (k < 29) × (2 ^ k < fuel) × AreSizes fuel ks

abbrev pub powers : List ℕ → List ℕ
powers [] = []
powers (k ∷ ks) = 2 ^ k ∷ powers ks

-- The test different_sizes passes for every list of powers of two below 2^29, with two rounds for each
-- loop of the queue and fuel beyond each size.
pub different_sizes-pass :
    (inner fuel : ℕ) (ks : List ℕ)
    → AreSizes fuel ks
    → different_sizes (suc (suc inner)) fuel (powers ks) ≡ some true
unfolding different_sizes try_size
different_sizes-pass inner fuel [] sizes = refl
different_sizes-pass inner fuel (k ∷ ks) (few, enough, sizes) =
    let c = sized (2 ^ k) false false in
    let (q, made, serves) =
      construct-Serves c fuel (sized-IsShape k (2 ^ k) false false refl (below k few))
        (omega (arith, below k few)) enough in
    let (q', ran, full) =
      test_size-Fills c inner fuel q enough serves (omega (arith, below k few)) in
    rw (made, try_size) (rw ran (rw (different_sizes-pass inner fuel ks sizes) refl))
