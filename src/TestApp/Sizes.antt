-- ===== src/TestApp/Sizes.antt =====
-- Which widths and depths the program runs, and which it refuses.
use lockfree_mpmc_queue.Base.{
  ℕ, ◌-◌, ◌^◌, ◌≤◌, ◌<◌, ◌≡◌, ◌≢◌, ◌⊎◌, inl, inr, refl, ap, ◌∙◌, subst, Bool, true, false,
  Bool-cases, List, [], ◌∷◌, if◌then◌else◌, ◌&&◌, ◌||◌, some, arith, ◌==◌, bit_and, eq_of_==,
  ==_of_eq,
}
use lockfree_mpmc_queue.Base.Bits.{power_of_bit_and, bit_and-power}
use lockfree_mpmc_queue.Queue.{Config, Queue}
use lockfree_mpmc_queue.Queue.Shape.{IsShape}
use lockfree_mpmc_queue.Queue.Init.{builds, construct}
use lockfree_mpmc_queue.Queue.Init.Widths.{lt_of_power-lt}
use lockfree_mpmc_queue.Queue.Init.Fresh.{construct-Serves, construct-throws, build-Serves}
use lockfree_mpmc_queue.TestApp.{
  App, Machine, QueueRun, Ending, aborts, exits, finishes, run_of, four_runs, make_runs,
  test_bandwidth, run_sized, template_of, run_app,
}

-- The widths of data, in bytes, that the program offers with an index of so many bytes.
abbrev pub is_offered : ℕ → ℕ → Bool
is_offered index_bytes data_bytes =
    (index_bytes == 4
      && (data_bytes == 1
          || data_bytes == 2
          || data_bytes == 4
          || data_bytes == 8
          || data_bytes == 12))
    || (index_bytes == 8
        && (data_bytes == 1 || data_bytes == 2 || data_bytes == 4 || data_bytes == 8))

pub run_sized-offered :
    (fuel : ℕ) (m : Machine) (template_size : ℕ) (a : App)
    → is_offered a.index_bytes a.data_bytes ≡ true
    → run_sized fuel m template_size a
      ≡ test_bandwidth fuel m template_size a.data_bytes a.index_bytes a
unfolding run_sized
run_sized-offered fuel m template_size a e = ground arith

pub run_sized-refused :
    (fuel : ℕ) (m : Machine) (template_size : ℕ) (a : App)
    → is_offered a.index_bytes a.data_bytes ≡ false
    → run_sized fuel m template_size a ≡ some (exits 1)
unfolding run_sized
run_sized-refused fuel m template_size a e = ground arith

abbrev pub IsPower : ℕ → Type 0
IsPower n = (k : ℕ) × (n ≡ 2 ^ k)

IsPower-cases : (n : ℕ) → 0 < n → IsPower n ⊎ (¬ IsPower n)
IsPower-cases n pos = elim (Bool-cases (bit_and n (n - 1) == 0)) [
  | inl clear ↦ inl (power_of_bit_and n pos (eq_of_== (bit_and n (n - 1)) 0 clear))
  | inr more ↦ inr (λ (k, e). absurd (ne_of_== more (rw e (bit_and-power k))))
]
  where
    ne_of_== : {m : ℕ} → (m == 0) ≡ false → m ≢ 0
    ne_of_== e f = ground arith

-- With an index of four bytes or more, every power of two below 2^31 is a size for the queue.
pub IsShape-power : (c : Config) → 32 ≤ c.bits → c.size < 2 ^ 31 → IsPower c.size → IsShape c
IsShape-power c wide small (k, e) =
    let lt : k < 31 = lt_of_power-lt k 31 (subst (λ n. n < 2 ^ 31) e small) in
    record { log_size = k; power = e; wide = omega arith }

-- The template's size agrees with the depth, where it is not 0.
pub template_cases :
    (a : App) → (template_of a ≡ 0) ⊎ ((template_of a ≡ a.q_depth) × IsPower a.q_depth)
template_cases a = elim (Bool-cases a.inplace) [
  | inr no_place ↦ inl (rw no_place refl)
  | inl place ↦ elim (Bool-cases (a.q_depth == 1)) [
    | inl e ↦ inr (ground arith, (0, ground arith))
    | inr n1 ↦ elim (Bool-cases (a.q_depth == 2)) [
      | inl e ↦ inr (ground arith, (1, ground arith))
      | inr n2 ↦ elim (Bool-cases (a.q_depth == 16)) [
        | inl e ↦ inr (ground arith, (4, ground arith))
        | inr n16 ↦ elim (Bool-cases (a.q_depth == 64)) [
          | inl e ↦ inr (ground arith, (6, ground arith))
          | inr n64 ↦ inl (ground arith)
        ]
      ]
    ]
  ]
]

-- What the runs come to, once their queues are built: each is made, up to the first that aborts.
abbrev pub measured : Machine → List QueueRun → List QueueRun → Ending
measured m made [] = finishes made
measured m made (r ∷ runs) = if m.gives_up r then aborts r else measured m made runs

-- Every queue is built.
abbrev AllBuilt : ℕ → List QueueRun → Type 0
AllBuilt fuel [] = Unit {0}
AllBuilt fuel (r ∷ runs) =
    ((q : Queue) × (construct fuel r.template_size r.config ≡ some (builds q))) × AllBuilt fuel runs

make_runs-measured :
    (fuel : ℕ) (m : Machine) (made runs : List QueueRun)
    → AllBuilt fuel runs
    → make_runs fuel m made runs ≡ some (measured m made runs)
unfolding make_runs
make_runs-measured fuel m made [] h = refl
make_runs-measured fuel m made (r ∷ runs) ((q, built), rest) = elim (Bool-cases (m.gives_up r)) [
  | inl gives ↦ rw (built, make_runs) (rw gives refl)
  | inr keeps ↦ rw (built, make_runs) (rw keeps (make_runs-measured fuel m made runs rest))
]

module _ (fuel : ℕ) (a : App) (pos : 0 < a.q_depth) (small : a.q_depth < 2 ^ 31)
    (enough : a.q_depth < fuel) where
  -- The constructor is given the size of its template, or one that it accepts.
  run_builds :
      (template_size data_bytes index_bytes : ℕ) (lazy_push lazy_pop : Bool)
      → 4 ≤ index_bytes
      → IsPower a.q_depth
      → (template_size ≡ 0) ⊎ (template_size ≡ a.q_depth)
      → (q : Queue) × (construct fuel template_size
            (run_of template_size data_bytes index_bytes a lazy_push lazy_pop).config
          ≡ some (builds q))
  unfolding construct
  run_builds template_size data_bytes index_bytes lazy_push lazy_pop wide power fits =
      let c : Config = (run_of template_size data_bytes index_bytes a lazy_push lazy_pop).config in
      let shape : IsShape c = IsShape-power c (omega arith) small power in
      elim fits [
        | inl free ↦
            let (q, built, serves) = construct-Serves c fuel shape (omega arith) enough in
            (q, rw free built)
        | inr same ↦
            let (q, built, serves) = build-Serves shape fuel enough in
            (q, rw same (ground (arith, built)))
      ]

  pub test_bandwidth-measures :
      (m : Machine) (template_size data_bytes index_bytes : ℕ)
      → a.boost_q_flag ≡ false
      → 4 ≤ index_bytes
      → IsPower a.q_depth
      → (template_size ≡ 0) ⊎ (template_size ≡ a.q_depth)
      → let runs = four_runs template_size data_bytes index_bytes a in
        test_bandwidth fuel m template_size data_bytes index_bytes a ≡ some (measured m runs runs)
  unfolding test_bandwidth
  test_bandwidth-measures m template_size data_bytes index_bytes plain wide power fits =
      let runs = four_runs template_size data_bytes index_bytes a in
      rw plain (
        make_runs-measured fuel m runs runs (
          run_builds template_size data_bytes index_bytes false false wide power fits,
          (
            run_builds template_size data_bytes index_bytes false true wide power fits,
            (
              run_builds template_size data_bytes index_bytes true false wide power fits,
              (run_builds template_size data_bytes index_bytes true true wide power fits, tt),
            ),
          ),
        ))

  test_bandwidth-refused :
      (m : Machine) (data_bytes index_bytes : ℕ)
      → a.boost_q_flag ≡ false
      → ¬ (IsPower a.q_depth)
      → test_bandwidth fuel m 0 data_bytes index_bytes a ≡ some (exits 1)
  unfolding test_bandwidth make_runs
  test_bandwidth-refused with_boost data_bytes index_bytes plain bad = rw plain (
      rw
        (
          construct-throws (run_of 0 data_bytes index_bytes a false false).config fuel pos
              (omega arith) (λ s. bad (s.log_size, s.power)),
          make_runs,
        )
        refl)

pub run_app-untested :
    (fuel : ℕ) (m : Machine) (a : App)
    → a.test ≡ 0
    → run_app fuel m a ≡ run_sized fuel m (template_of a) a
unfolding run_app
run_app-untested fuel m a e = rw (==_of_eq a.test 0 e) refl

-- How the program ends with these members: it makes the four runs, up to one that aborts, or it exits
-- with 1.
abbrev pub Ends : ℕ → Machine → App → Type 0
Ends fuel m a =
    ((is_offered a.index_bytes a.data_bytes ≡ true)
      × IsPower a.q_depth
      × (run_app fuel m a ≡ (
          let runs = four_runs (template_of a) a.data_bytes a.index_bytes a in
          some (measured m runs runs))))
    ⊎ (((is_offered a.index_bytes a.data_bytes ≡ false) ⊎ (¬ IsPower a.q_depth))
        × (run_app fuel m a ≡ some (exits 1)))

-- Without a numbered test and without boost's queue, at a depth between 0 and 2^31 and with fuel beyond
-- it, `TestApp::run` builds and measures the four queues, of lazy indexes or not, up to the first whose run
-- aborts if one does, exactly if the widths of index and data are offered and the depth is a power of two; otherwise the program exits with 1. The
-- size of a template never disagrees with the depth that its constructor is given.
pub run_app-Ends :
    (fuel : ℕ) (m : Machine) (a : App)
    → a.test ≡ 0
    → a.boost_q_flag ≡ false
    → 0 < a.q_depth
    → a.q_depth < 2 ^ 31
    → a.q_depth < fuel
    → Ends fuel m a
run_app-Ends fuel m a untested plain pos small enough =
    elim (Bool-cases (is_offered a.index_bytes a.data_bytes)) [
      | inr other ↦ inr (
        inl other,
        run_app-untested fuel m a untested ∙ run_sized-refused fuel m (template_of a) a other,
      )
      | inl offered ↦ elim (IsPower-cases a.q_depth pos) [
        | inl power ↦ inl (
          offered,
          power,
          run_app-untested fuel m a untested
              ∙ (run_sized-offered fuel m (template_of a) a offered
                  ∙ test_bandwidth-measures fuel a pos small enough m (template_of a) a.data_bytes
                      a.index_bytes plain (ground (arith, offered)) power (fits power)),
        )
        | inr bad ↦ inr (
          inr bad,
          run_app-untested fuel m a untested
              ∙ (run_sized-offered fuel m (template_of a) a offered
                  ∙ ap (λ n. test_bandwidth fuel m n a.data_bytes a.index_bytes a) (free bad)
                  ∙ test_bandwidth-refused fuel a pos small enough m a.data_bytes a.index_bytes
                      plain bad),
        )
      ]
    ]
  where
    fits : IsPower a.q_depth → (template_of a ≡ 0) ⊎ (template_of a ≡ a.q_depth)
    fits power = elim (template_cases a) [ inl e ↦ inl e | inr (e, p) ↦ inr e ]

    free : ¬ (IsPower a.q_depth) → template_of a ≡ 0
    free bad = elim (template_cases a) [ inl e ↦ e | inr (e, p) ↦ absurd (bad p) ]
