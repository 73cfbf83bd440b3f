-- ===== src/TestApp/Expected.antt =====
-- src/q_bandwidth.cpp: the ending that a command line asks for.
use lockfree_mpmc_queue.Base.{
  zero, suc, if◌then◌else◌, ◌&&◌, get?, ℕ, ◌≤◌, ◌≡◌, ◌⊎◌, Bool, true, false, List, [], ◌∷◌, Option,
  none, some,
}
use lockfree_mpmc_queue.Queue.Shape.{IsShape}
use lockfree_mpmc_queue.TestApp.{
  App, default_app, table_app, Opt, Ending, exits, finishes, compares_boost, aborts, is_undefined,
  Machine, QueueRun, four_runs, template_of, main_program,
}
use lockfree_mpmc_queue.TestApp.Options.{stopped, settings}
use lockfree_mpmc_queue.TestApp.Sizes.{is_offered, IsPower, measured}

-- A queue that its constructor accepts, at the size of its template if that is not 0.
abbrev pub AllAccepted : List QueueRun → Type 0
AllAccepted [] = Unit {0}
AllAccepted (r ∷ runs) =
    IsShape r.config
    × ((r.template_size ≡ 0) ⊎ (r.template_size ≡ r.config.size))
    × AllAccepted runs

-- The main thread of no run gives up.
abbrev pub NoneAborts : Machine → List QueueRun → Type 0
NoneAborts m [] = Unit {0}
NoneAborts m (r ∷ runs) = (m.gives_up r ≡ false) × NoneAborts m runs

-- An exit with 0 or 1, queues that are all accepted, none of whose runs aborts, or one that does, or
-- boost's queue if that is built in; and never undefined behaviour.
abbrev pub IsEnd : Machine → Ending → Type 0
IsEnd m (exits code) = code ≤ 1
IsEnd m (finishes runs) = AllAccepted runs × NoneAborts m runs
IsEnd m compares_boost = m.with_boost ≡ true
IsEnd m (aborts r) = m.gives_up r ≡ true
IsEnd m is_undefined = ⊥

-- A test of the table: the bytes of its elements, where it has a name.
abbrev pub EndsTested : Machine → Option ℕ → Ending → Type 0
EndsTested m none e = e ≡ exits 1
EndsTested m (some bytes) e = let runs = four_runs 32 bytes 4 table_app in e ≡ measured m runs runs

-- Without a numbered test: with boost's queue the widths must be offered and boost built in, and without
-- it the depth must be a power of two.
abbrev pub EndsUntested : Machine → App → Bool → Ending → Type 0
EndsUntested m a true e =
    e ≡ (if is_offered a.index_bytes a.data_bytes && m.with_boost then compares_boost else exits 1)
EndsUntested m a false e =
    ((is_offered a.index_bytes a.data_bytes ≡ true)
      × IsPower a.q_depth
      × (let runs = four_runs (template_of a) a.data_bytes a.index_bytes a in
          e ≡ measured m runs runs))
    ⊎ (((is_offered a.index_bytes a.data_bytes ≡ false) ⊎ (¬ IsPower a.q_depth)) × (e ≡ exits 1))

-- The ending that the settings of the options ask for.
abbrev pub EndsAs : Machine → App → ℕ → Ending → Type 0
EndsAs m a zero e = EndsUntested m a a.boost_q_flag e
EndsAs m a (suc n) e = EndsTested m (get? (4 ∷ 8 ∷ 12 ∷ []) n) e

abbrev pub EndsBy : Machine → Option ℕ → App → Ending → Type 0
EndsBy m (some code) a e = e ≡ exits code
EndsBy m none a e = EndsAs m a a.test e

-- The program ends, and so.
abbrev pub EndsWell : ℕ → Machine → List Opt → Type 0
EndsWell fuel m opts =
    (e : Ending) × (main_program fuel m opts ≡ some e)
    × IsEnd m e
    × EndsBy m (stopped m.with_boost opts) (settings default_app opts) e
