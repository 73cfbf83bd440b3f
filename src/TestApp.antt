-- ===== src/TestApp.antt =====
-- src/q_bandwidth.cpp: the program that benchmarks one kind of queue, chosen by its options. The runs
-- themselves are those of Bandwidth; here is which queues it builds, when it refuses, and how it ends,
-- given which runs abort.
pub mod Options
pub mod Sizes
pub mod Expected
pub mod Endings
use lockfree_mpmc_queue.Base.{
  ℕ, zero, suc, ◌+◌, ◌*◌, ◌^◌, Bool, true, false, ◌&&◌, List, [], ◌∷◌, Option, none, some, ◌==◌,
  ltb, if◌then◌else◌, ◌-◌, length, get?,
}
use lockfree_mpmc_queue.Queue.{Config}
use lockfree_mpmc_queue.Queue.Init.{Construction, throws, builds, construct}

-- `TestApp`, its members.
pub record App : Type 0 where
  pub test : ℕ
  pub q_depth : ℕ
  pub readers : ℕ
  pub writers : ℕ
  pub data_bytes : ℕ
  pub index_bytes : ℕ
  pub millis : ℕ
  pub boost_q_flag : Bool
  pub inplace : Bool

abbrev pub default_app : App
default_app = record {
  test = 0;
  q_depth = 32;
  readers = 2;
  writers = 2;
  data_bytes = 8;
  index_bytes = 4;
  millis = 1000;
  boost_q_flag = false;
  inplace = true;
}

-- What `getopt` returns, in order; a number is what `atoi` makes of `optarg`, as a 32-bit word.
pub data Opt : Type 0 where
  help : Opt
  boost_queue : Opt
  millis_are : ℕ → Opt
  test_is : ℕ → Opt
  list_all : Opt
  writers_are : ℕ → Opt
  readers_are : ℕ → Opt
  depth_is : ℕ → Opt
  index_is : ℕ → Opt
  data_is : ℕ → Opt
  not_inplace : Opt
  other : Opt  -- every other letter, with the `a` and the `n` that `getopt` is told of

pub data Parsed : Type 0 where
  exits_with : ℕ → Parsed
  goes_on : App → Parsed

-- One round of `args`. `with_boost` is the macro `COMPARE_BOOST`.
unfoldable pub take_option : Bool → App → Opt → Parsed
take_option with_boost a help = exits_with 0
take_option with_boost a boost_queue =
    if with_boost then goes_on (record a { boost_q_flag = true }) else exits_with 1
take_option with_boost a (millis_are n) = goes_on (record a { millis = n })
take_option with_boost a (test_is n) = goes_on (record a { test = n })
take_option with_boost a list_all = exits_with 0
take_option with_boost a (writers_are n) = goes_on (record a { writers = n })
take_option with_boost a (readers_are n) = goes_on (record a { readers = n })
take_option with_boost a (depth_is n) =
    goes_on (if ltb 0 n && ltb n (2 ^ 31) then record a { q_depth = n } else a)
take_option with_boost a (index_is n) = goes_on (record a { index_bytes = n })
take_option with_boost a (data_is n) = goes_on (record a { data_bytes = n })
take_option with_boost a not_inplace = goes_on (record a { inplace = false })
take_option with_boost a other = exits_with 1

unfoldable pub args : Bool → App → List Opt → Parsed
args with_boost a [] = goes_on a
args with_boost a (o ∷ opts) = elim (take_option with_boost a o) [
  | exits_with code ↦ exits_with code
  | goes_on a' ↦ args with_boost a' opts
]

-- One queue under test: its type's parameters, and the arguments of `QBandwidth`.
pub record QueueRun : Type 0 where
  pub data_bytes : ℕ
  pub template_size : ℕ
  pub config : Config
  pub producers : ℕ
  pub consumers : ℕ
  pub millis : ℕ

pub data Ending : Type 0 where
  exits : ℕ → Ending
  finishes : List QueueRun → Ending  -- the runs made, with 0 for the exit code
  compares_boost : Ending  -- a run of boost's queue, which is not of this repository
  aborts : QueueRun → Ending  -- the run that waited too long for its readers
  is_undefined : Ending  -- an access outside an array

-- The four queues of `test_bandwidth_mpmc_queue`.
abbrev pub run_of : ℕ → ℕ → ℕ → App → Bool → Bool → QueueRun
run_of template_size data_bytes index_bytes a lazy_push lazy_pop = record {
  data_bytes = data_bytes;
  template_size = template_size;
  config = record {
    bits = index_bytes * 8;
    size = a.q_depth;
    lazy_push = lazy_push;
    lazy_pop = lazy_pop;
  };
  producers = a.writers;
  consumers = a.readers;
  millis = a.millis;
}

abbrev pub four_runs : ℕ → ℕ → ℕ → App → List QueueRun
four_runs template_size data_bytes index_bytes a =
    run_of template_size data_bytes index_bytes a false false
    ∷ run_of template_size data_bytes index_bytes a false true
    ∷ run_of template_size data_bytes index_bytes a true false
    ∷ run_of template_size data_bytes index_bytes a true true
    ∷ []

-- How the program goes where it is built and run: whether with boost, and whether the main thread of a
-- run waits too long for its readers, and so calls `abort`, which is up to the clock.
pub record Machine : Type 0 where
  pub with_boost : Bool
  pub gives_up : QueueRun → Bool

-- Each queue is built and measured in turn. A constructor that throws ends the program, whose `main`
-- catches `std::invalid_argument` and exits with 1. `QBandwidth::run` returns, or it aborts the program.
-- `none` means that the fuel of a constructor ran out.
unfoldable pub make_runs : ℕ → Machine → List QueueRun → List QueueRun → Option Ending
make_runs fuel m made [] = some (finishes made)
make_runs fuel m made (r ∷ runs) = elim (construct fuel r.template_size r.config) [
  | none ↦ none
  | some throws ↦ some (exits 1)
  | some (builds q) ↦ elim (m.gives_up r) [
    | true ↦ some (aborts r)
    | false ↦ make_runs fuel m made runs
  ]
]

-- `test_bandwidth_mpmc_queue<DT, Q_DEPTH, IT>`
unfoldable pub test_bandwidth : ℕ → Machine → ℕ → ℕ → ℕ → App → Option Ending
test_bandwidth fuel m template_size data_bytes index_bytes a =
    let runs = four_runs template_size data_bytes index_bytes a in
    if a.boost_q_flag
    then (if m.with_boost then some compares_boost else some (exits 1))
    else make_runs fuel m runs runs

-- `runD<TEST_Q_DEPTH>`
unfoldable pub run_sized : ℕ → Machine → ℕ → App → Option Ending
run_sized fuel m template_size a =
    if a.index_bytes == 4
    then if a.data_bytes == 1
      then test_bandwidth fuel m template_size 1 4 a
      else if a.data_bytes == 2
      then test_bandwidth fuel m template_size 2 4 a
      else if a.data_bytes == 4
      then test_bandwidth fuel m template_size 4 4 a
      else if a.data_bytes == 8
      then test_bandwidth fuel m template_size 8 4 a
      else if a.data_bytes == 12
      then test_bandwidth fuel m template_size 12 4 a
      else some (exits 1)
    else if a.index_bytes == 8
    then if a.data_bytes == 1
      then test_bandwidth fuel m template_size 1 8 a
      else if a.data_bytes == 2
      then test_bandwidth fuel m template_size 2 8 a
      else if a.data_bytes == 4
      then test_bandwidth fuel m template_size 4 8 a
      else if a.data_bytes == 8
      then test_bandwidth fuel m template_size 8 8 a
      else some (exits 1)
    else some (exits 1)

-- What stands at an index of `tests`: a test with the bytes of its element, or an empty function.
pub data TableEntry : Type 0 where
  tests_bytes : ℕ → TableEntry
  is_empty_function : TableEntry

-- `tests`, an array of five of which three are given; `none` is outside.
abbrev pub test_table : List TableEntry
test_table =
    tests_bytes 4 ∷ tests_bytes 8 ∷ tests_bytes 12 ∷ is_empty_function ∷ is_empty_function ∷ []

-- The arguments that `test_bandwidth_mpmc_queue` takes by default.
abbrev pub table_app : App
table_app = record default_app { q_depth = 32; readers = 1; writers = 1; millis = 1000 }

-- `switch (_q_depth)`: the sizes that have a template.
abbrev pub template_of : App → ℕ
template_of a =
    if a.inplace
    then if a.q_depth == 1
      then 1
      else if a.q_depth == 2
      then 2
      else if a.q_depth == 16
      then 16
      else if a.q_depth == 64
      then 64
      else 0
    else 0

-- `TestApp::run`. A call of an empty function throws, and `main` exits with 1.
unfoldable pub run_app : ℕ → Machine → App → Option Ending
run_app fuel m a =
    if a.test == 0
    then run_sized fuel m (template_of a) a
    else if ltb (length test_table) a.test
    then some (exits 1)
    else elim (get? test_table (a.test - 1)) [
      | none ↦ some is_undefined
      | some is_empty_function ↦ some (exits 1)
      | some (tests_bytes bytes) ↦ test_bandwidth fuel m 32 bytes 4 table_app
    ]

-- `main`
unfoldable pub main_program : ℕ → Machine → List Opt → Option Ending
main_program fuel m opts = elim (args m.with_boost default_app opts) [
  | exits_with code ↦ some (exits code)
  | goes_on a ↦ run_app fuel m a
]
