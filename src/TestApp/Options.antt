-- ===== src/TestApp/Options.antt =====
-- src/q_bandwidth.cpp: what the options leave.
use lockfree_mpmc_queue.Base.{
  ℕ, if◌then◌else◌, Option, none, some, refl, ◌≡◌, ◌≤◌, ◌<◌, ◌^◌, Bool, true, false, Bool-cases,
  inl, inr, ◌&&◌, List, [], ◌∷◌, arith, ltb,
}
use lockfree_mpmc_queue.TestApp.{
  App, Opt, help, boost_queue, millis_are, test_is, list_all, writers_are, readers_are, depth_is,
  index_is, data_is, not_inplace, other, Parsed, exits_with, goes_on, take_option, args,
}

-- The depth is one that `-d` sets, or was there before.
abbrev pub HasDepth : App → Type 0
HasDepth a = (0 < a.q_depth) × (a.q_depth < 2 ^ 31)

abbrev pub IsParsed : Parsed → Type 0
IsParsed (exits_with code) = code ≤ 1
IsParsed (goes_on a) = HasDepth a

take_option-IsParsed :
    (with_boost : Bool) (a : App) (o : Opt) → HasDepth a → IsParsed (take_option with_boost a o)
unfolding take_option
take_option-IsParsed with_boost a help h = omega arith
take_option-IsParsed true a boost_queue h = h
take_option-IsParsed false a boost_queue h = omega arith
take_option-IsParsed with_boost a (millis_are n) h = h
take_option-IsParsed with_boost a (test_is n) h = h
take_option-IsParsed with_boost a list_all h = omega arith
take_option-IsParsed with_boost a (writers_are n) h = h
take_option-IsParsed with_boost a (readers_are n) h = h
take_option-IsParsed with_boost a (depth_is n) h = elim (Bool-cases (ltb 0 n && ltb n (2 ^ 31))) [
  | inl good ↦ rw good (ground (arith, good), ground (arith, good))
  | inr bad ↦ rw bad h
]
take_option-IsParsed with_boost a (index_is n) h = h
take_option-IsParsed with_boost a (data_is n) h = h
take_option-IsParsed with_boost a not_inplace h = h
take_option-IsParsed with_boost a other h = omega arith

pub args-IsParsed :
    (with_boost : Bool) (opts : List Opt) (a : App) → HasDepth a → IsParsed (args with_boost a opts)
unfolding args
args-IsParsed with_boost [] a h = h
args-IsParsed with_boost (o ∷ opts) a h =
    go (take_option with_boost a o) (take_option-IsParsed with_boost a o h)
      (args-IsParsed with_boost opts)
  where
    go :
        (p : Parsed)
        → IsParsed p
        → ((a : App) → HasDepth a → IsParsed (args with_boost a opts))
        → IsParsed
            (elim p [ exits_with code ↦ exits_with code | goes_on a' ↦ args with_boost a' opts ])
    go (exits_with code) h ih = h
    go (goes_on a') h ih = ih a' h

-- The exit code of the first option that ends the program.
abbrev pub stopped : Bool → List Opt → Option ℕ
stopped with_boost [] = none
stopped with_boost (help ∷ opts) = some 0
stopped with_boost (list_all ∷ opts) = some 0
stopped with_boost (other ∷ opts) = some 1
stopped with_boost (boost_queue ∷ opts) = if with_boost then stopped with_boost opts else some 1
stopped with_boost (_ ∷ opts) = stopped with_boost opts

-- The last value that the options give, or the one before them.
abbrev pub last {ℓ} : {A : Type ℓ} → (Opt → Option A) → A → List Opt → A
last given x [] = x
last given x (o ∷ opts) = last given (elim (given o) [ none ↦ x | some y ↦ y ]) opts

abbrev pub test_given : Opt → Option ℕ
test_given (test_is n) = some n
test_given _ = none

-- A depth that is not positive, as an `int`, is reported and left out.
abbrev pub depth_given : Opt → Option ℕ
depth_given (depth_is n) = if ltb 0 n && ltb n (2 ^ 31) then some n else none
depth_given _ = none

abbrev pub readers_given : Opt → Option ℕ
readers_given (readers_are n) = some n
readers_given _ = none

abbrev pub writers_given : Opt → Option ℕ
writers_given (writers_are n) = some n
writers_given _ = none

abbrev pub data_given : Opt → Option ℕ
data_given (data_is n) = some n
data_given _ = none

abbrev pub index_given : Opt → Option ℕ
index_given (index_is n) = some n
index_given _ = none

abbrev pub millis_given : Opt → Option ℕ
millis_given (millis_are n) = some n
millis_given _ = none

abbrev pub boost_given : Opt → Option Bool
boost_given boost_queue = some true
boost_given _ = none

abbrev pub place_given : Opt → Option Bool
place_given not_inplace = some false
place_given _ = none

-- What the options set, the last of each kind.
abbrev pub settings : App → List Opt → App
settings a opts = record {
  test = last test_given a.test opts;
  q_depth = last depth_given a.q_depth opts;
  readers = last readers_given a.readers opts;
  writers = last writers_given a.writers opts;
  data_bytes = last data_given a.data_bytes opts;
  index_bytes = last index_given a.index_bytes opts;
  millis = last millis_given a.millis opts;
  boost_q_flag = last boost_given a.boost_q_flag opts;
  inplace = last place_given a.inplace opts;
}

abbrev pub parsed_as : Option ℕ → App → Parsed
parsed_as (some code) a = exits_with code
parsed_as none a = goes_on a

pub args-settings :
    (with_boost : Bool) (opts : List Opt) (a : App)
    → args with_boost a opts ≡ parsed_as (stopped with_boost opts) (settings a opts)
unfolding args take_option
args-settings with_boost [] a = refl
args-settings with_boost (help ∷ opts) a = refl
args-settings true (boost_queue ∷ opts) a = args-settings true opts _
args-settings false (boost_queue ∷ opts) a = refl
args-settings with_boost (millis_are n ∷ opts) a = args-settings with_boost opts _
args-settings with_boost (test_is n ∷ opts) a = args-settings with_boost opts _
args-settings with_boost (list_all ∷ opts) a = refl
args-settings with_boost (writers_are n ∷ opts) a = args-settings with_boost opts _
args-settings with_boost (readers_are n ∷ opts) a = args-settings with_boost opts _
args-settings with_boost (depth_is n ∷ opts) a = elim (Bool-cases (ltb 0 n && ltb n (2 ^ 31))) [
  | inl good ↦ rw good (args-settings with_boost opts (record a { q_depth = n }))
  | inr bad ↦ rw bad (args-settings with_boost opts a)
]
args-settings with_boost (index_is n ∷ opts) a = args-settings with_boost opts _
args-settings with_boost (data_is n ∷ opts) a = args-settings with_boost opts _
args-settings with_boost (not_inplace ∷ opts) a = args-settings with_boost opts _
args-settings with_boost (other ∷ opts) a = refl
