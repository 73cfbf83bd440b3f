-- ===== src/TestApp/Endings.antt =====
-- src/q_bandwidth.cpp: how the program ends, by its command line.
use lockfree_mpmc_queue.Base.{
  zero, suc, get?, subst, sym, ℕ, ◌≤◌, ◌<◌, ◌^◌, ◌≡◌, ◌⊎◌, refl, ◌∙◌, Bool, true, false, Bool-cases,
  inl, inr, List, [], ◌∷◌, Option, none, some, arith, ltb, ◌==◌,
}
use lockfree_mpmc_queue.Queue.Shape.{IsShape}
use lockfree_mpmc_queue.TestApp.{
  App, default_app, table_app, Opt, exits_with, goes_on, Ending, exits, compares_boost, Machine,
  QueueRun, run_of, four_runs, test_bandwidth, run_sized, template_of, run_app, main_program,
}
use lockfree_mpmc_queue.TestApp.Options.{
  HasDepth, IsParsed, args-IsParsed, stopped, settings, parsed_as, args-settings,
}
use lockfree_mpmc_queue.TestApp.Sizes.{
  is_offered, IsPower, IsShape-power, template_cases, test_bandwidth-measures, measured,
  run_sized-offered, run_sized-refused, run_app-untested, run_app-Ends,
}
use lockfree_mpmc_queue.TestApp.Expected.{
  AllAccepted, NoneAborts, IsEnd, EndsTested, EndsUntested, EndsAs, EndsBy, EndsWell,
}

four_runs-AllAccepted :
    (template_size data_bytes index_bytes : ℕ) (a : App)
    → 4 ≤ index_bytes
    → a.q_depth < 2 ^ 31
    → IsPower a.q_depth
    → (template_size ≡ 0) ⊎ (template_size ≡ a.q_depth)
    → AllAccepted (four_runs template_size data_bytes index_bytes a)
four_runs-AllAccepted template_size data_bytes index_bytes a wide small power fits = (
  shape false false,
  fits,
  (shape false true, fits, (shape true false, fits, (shape true true, fits, tt))),
)
  where
    shape :
        (lazy_push lazy_pop : Bool)
        → IsShape (run_of template_size data_bytes index_bytes a lazy_push lazy_pop).config
    shape lazy_push lazy_pop =
        IsShape-power (run_of template_size data_bytes index_bytes a lazy_push lazy_pop).config
          (omega arith) small power

measured-IsEnd :
    (m : Machine) (made runs : List QueueRun)
    → AllAccepted made
    → (NoneAborts m runs → NoneAborts m made)
    → IsEnd m (measured m made runs)
measured-IsEnd m made [] accepted before = (accepted, before tt)
measured-IsEnd m made (r ∷ runs) accepted before = elim (Bool-cases (m.gives_up r)) [
  | inl gives ↦ rw gives gives
  | inr keeps ↦ rw keeps (measured-IsEnd m made runs accepted (λ rest. before (keeps, rest)))
]

abbrev Runs : ℕ → Machine → App → Type 0
Runs fuel m a = (e : Ending) × (run_app fuel m a ≡ some e) × IsEnd m e × EndsAs m a a.test e

module _ (fuel : ℕ) (m : Machine) (enough : 2 ^ 31 ≤ fuel) where
  -- With boost's flag.
  compares :
      (a : App)
      → a.boost_q_flag ≡ true
      → (e : Ending) × (run_sized fuel m (template_of a) a ≡ some e)
        × IsEnd m e
        × EndsUntested m a true e
  unfolding test_bandwidth
  compares a flag = elim (Bool-cases (is_offered a.index_bytes a.data_bytes)) [
    | inr other ↦
        (exits 1, run_sized-refused fuel m (template_of a) a other, omega arith, rw other refl)
    | inl offered ↦ elim (Bool-cases m.with_boost) [
      | inl built ↦ (
        compares_boost,
        run_sized-offered fuel m (template_of a) a offered ∙ rw flag (rw built refl),
        built,
        rw (offered, built) refl,
      )
      | inr plain ↦ (
        exits 1,
        run_sized-offered fuel m (template_of a) a offered ∙ rw flag (rw plain refl),
        omega arith,
        rw (offered, plain) refl,
      )
    ]
  ]

  untested :
      (a : App)
      → HasDepth a
      → a.test ≡ 0
      → (e : Ending) × (run_app fuel m a ≡ some e) × IsEnd m e × EndsUntested m a a.boost_q_flag e
  untested a (pos, small) e = elim (Bool-cases a.boost_q_flag) [
    | inl flag ↦
        let (end, ends, good, is) = compares a flag in
        (
          end,
          run_app-untested fuel m a e ∙ ends,
          good,
          subst (λ b. EndsUntested m a b end) (sym flag) is,
        )
    | inr plain ↦ elim (run_app-Ends fuel m a e plain pos small (omega arith)) [
      | inl (offered, power, ends) ↦
          let runs = four_runs (template_of a) a.data_bytes a.index_bytes a in
          (
            measured m runs runs,
            ends,
            measured-IsEnd m runs runs
                (four_runs-AllAccepted (template_of a) a.data_bytes a.index_bytes a
                  (ground (arith, offered)) small power (fits (template_cases a)))
                (λ none. none),
            subst (λ b. EndsUntested m a b (measured m runs runs)) (sym plain)
                (inl (offered, power, refl)),
          )
      | inr (why, ends) ↦ (
        exits 1,
        ends,
        omega arith,
        subst (λ b. EndsUntested m a b (exits 1)) (sym plain) (inr (why, refl)),
      )
    ]
  ]
    where
      fits :
          (template_of a ≡ 0) ⊎ ((template_of a ≡ a.q_depth) × IsPower a.q_depth)
          → (template_of a ≡ 0) ⊎ (template_of a ≡ a.q_depth)
      fits (inl e) = inl e
      fits (inr (e, p)) = inr e

  -- The tests that have a name.
  measures :
      (bytes : ℕ)
      → let runs = four_runs 32 bytes 4 table_app in
        (test_bandwidth fuel m 32 bytes 4 table_app ≡ some (measured m runs runs))
        × IsEnd m (measured m runs runs)
  measures bytes =
      let runs = four_runs 32 bytes 4 table_app in
      (
        test_bandwidth-measures fuel table_app (omega arith) (omega arith) (omega arith) m 32 bytes
            4 refl (omega arith) (5, refl) (inr refl),
        measured-IsEnd m runs runs
            (four_runs-AllAccepted 32 bytes 4 table_app (omega arith) (omega arith) (5, refl)
              (inr refl))
            (λ none. none),
      )

  -- Which test, if any.
  numbered :
      (a : App) (n : ℕ)
      → a.test ≡ suc n
      → (e : Ending) × (run_app fuel m a ≡ some e)
        × IsEnd m e
        × EndsTested m (get? (4 ∷ 8 ∷ 12 ∷ []) n) e
  unfolding run_app
  numbered a zero e = let (ran, good) = measures 4 in (_, rw e ran, good, refl)
  numbered a (suc zero) e = let (ran, good) = measures 8 in (_, rw e ran, good, refl)
  numbered a (suc (suc zero)) e = let (ran, good) = measures 12 in (_, rw e ran, good, refl)
  numbered a (suc (suc (suc zero))) e = (exits 1, rw e refl, omega arith, refl)
  numbered a (suc (suc (suc (suc zero)))) e = (exits 1, rw e refl, omega arith, refl)
  numbered a (suc (suc (suc (suc (suc n))))) e =
      let beyond : ltb 5 (suc (suc (suc (suc (suc (suc n)))))) ≡ true = ground arith in
      let set : (suc (suc (suc (suc (suc (suc n))))) == 0) ≡ false = ground arith in
      (exits 1, rw e (rw (set, beyond) refl), omega arith, refl)

  app-Runs : (a : App) → HasDepth a → Runs fuel m a
  app-Runs a h = at a.test refl
    where
      at :
          (n : ℕ)
          → n ≡ a.test
          → (e : Ending) × (run_app fuel m a ≡ some e) × IsEnd m e × EndsAs m a n e
      at zero unset = untested a h (sym unset)
      at (suc n) set = numbered a n (sym set)

-- With fuel for every depth, the program ends, and never with undefined behaviour. If an option ends it, it
-- exits with that option's code. Otherwise the last value of each option counts. A test's number
-- from 1 to 3 measures the four queues of that test, with elements of 4, 8 or 12 bytes, and any other exits
-- with 1. Without a number, and with boost's queue, it measures that queue exactly if the widths are
-- offered and boost is built in; without boost's queue it measures the four queues of those settings
-- exactly if the widths are offered and the depth is a power of two; otherwise it exits with 1. Measuring
-- ends with the first run whose main thread gives up, which aborts the program, or it makes all runs. Every
-- queue of the runs that are made has a size that the constructor accepts, and that is the size
-- of its template if that is not 0.
pub main_program-EndsWell :
    (fuel : ℕ) (m : Machine) (opts : List Opt) → 2 ^ 31 ≤ fuel → EndsWell fuel m opts
unfolding main_program
main_program-EndsWell fuel m opts enough =
    let parsed = args-settings m.with_boost opts default_app in
    let (e, ran, good, is) = go (stopped m.with_boost opts) (settings default_app opts) (
      subst IsParsed parsed
        (args-IsParsed m.with_boost opts default_app (omega arith, omega arith))) in
    (e, rw (parsed, main_program) ran, good, is)
  where
    go :
        (o : Option ℕ) (a : App)
        → IsParsed (parsed_as o a)
        → (e : Ending) × ((elim (parsed_as o a) [
          | exits_with code ↦ some (exits code)
          | goes_on a ↦ run_app fuel m a
        ])
            ≡ some e)
          × IsEnd m e
          × EndsBy m o a e
    go (some code) a h = (exits code, refl, h, refl)
    go none a h = app-Runs fuel m enough a h
