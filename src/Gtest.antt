-- ===== src/Gtest.antt =====
-- src/gtest_mpmc_queue.cpp, the tests of one thread: a queue is filled and emptied, and every value and
-- every number that it gives back is compared. An `int` is its 32 bits. `inner` is the fuel of the loops
-- inside the queue's operations, `fuel` that of a test's own loops.
pub mod Counting
pub mod Rounds
pub mod Fills
pub mod FullEmpty
pub mod KeepsN
pub mod Singles
pub mod Sizes
pub mod Streams
pub mod InOut
pub mod Merge
pub mod Values
use lockfree_mpmc_queue.Base.{
  ℕ, zero, suc, ◌+◌, ◌*◌, Bool, true, false, Option, none, some, List, [], ◌∷◌, if◌then◌else◌, ◌==◌,
  ◌&&◌, ltb, not,
}
use lockfree_mpmc_queue.Base.Word.{cast}
use lockfree_mpmc_queue.Base.Loop.{◌>>=◌}
use lockfree_mpmc_queue.Queue.{Config, Queue}
use lockfree_mpmc_queue.Queue.Init.{construct, Construction, builds, throws}
use lockfree_mpmc_queue.Queue.Push.{push, push_index}
use lockfree_mpmc_queue.Queue.Pop.{pop, pop_index}
use lockfree_mpmc_queue.Queue.Peek.{peek}
use lockfree_mpmc_queue.Queue.Calls.{push_keep_n_index, enqueue, dequeue}
use lockfree_mpmc_queue.Queue.Glance.{capacity, exchange}

-- `for (n = 0; round(n); n++)` with an `unsigned` n: how far it counts, and what its rounds leave.
unfoldable pub count_while {ℓ} :
    {S : Type ℓ} → (ℕ → S → Option (Bool × S)) → ℕ → ℕ → S → Option (ℕ × S)
count_while round zero n s = none
count_while round (suc fuel) n s = do
  (more, t) ← round n s
  elim more [ false ↦ some (n, t) | true ↦ count_while round fuel (cast 32 (n + 1)) t ]

-- A call returned true, and stored this value.
abbrev pub equals : Option ℕ → ℕ → Bool
equals none r = false
equals (some x) r = x == r

-- The same for `pop(r, ri)`.
abbrev pub equals_both : Option (ℕ × ℕ) → ℕ → ℕ → Bool
equals_both none r i = false
equals_both (some (x, j)) r i = x == r && j == i

-- `w++`, the body of the loops that push.
abbrev pub step_w : Bool → ℕ → ℕ
step_w more w = if more then cast 32 (w + 1) else w

-- `qut.push(w)`
unfoldable pub push_round : ℕ → ℕ → Queue × ℕ → Option (Bool × (Queue × ℕ))
push_round inner n (q, w) = do (more, q') ← push inner q w; some (more, (q', step_w more w))

-- `qut.pop(r) && r == rloop + k`
unfoldable pub pop_round : ℕ → ℕ → ℕ → Queue → Option (Bool × Queue)
pop_round inner k n q = do (got, q') ← pop inner q; some (equals got (cast 32 (n + k)), q')

-- `testFullEmpty1`
unfoldable pub test_full_empty : ℕ → ℕ → Queue → Option (Bool × Queue)
test_full_empty inner fuel q0 = do
  (n1, (q1, w1)) ← count_while (push_round inner) fuel 0 (q0, 0)
  (n2, q2) ← count_while (pop_round inner 0) fuel 0 q1
  (wloop, (q3, w3)) ← count_while (push_round inner) fuel 0 (q2, w1)
  (rloop, q4) ← count_while (pop_round inner (capacity q3)) fuel 0 q3
  some (wloop == rloop && wloop == capacity q4, q4)

-- `TEST(…, different_sizes)`, for one size: `x` is counted and pushed.
unfoldable pub test_size : ℕ → ℕ → Queue → Option (Bool × Queue)
test_size inner fuel q = do
  (x, (q', w)) ← count_while (push_round inner) fuel 0 (q, 0)
  some (x == capacity q', q')

-- `qut.push(w, wi) && wi == wloop + k`
unfoldable pub push_index_round : ℕ → ℕ → ℕ → Queue × ℕ → Option (Bool × (Queue × ℕ))
push_index_round inner k n (q, w) = do
  (done, q') ← push_index inner q w
  some (equals done (n + k), (q', step_w (equals done (n + k)) w))

-- `… && qut.pop(r, ri) && r == x && ri == i`, with what came before it.
unfoldable pub and_pop : ℕ → Bool → ℕ → ℕ → Queue → Option (Bool × Queue)
and_pop inner false x i q = some (false, q)
and_pop inner true x i q = do (got, q') ← pop_index inner q; some (equals_both got x i, q')

-- `qut.peek(r) && r == rloop + z && qut.pop(r, ri) && r == rloop + z && ri == rloop + k`
unfoldable pub take_round : ℕ → ℕ → ℕ → ℕ → Queue → Option (Bool × Queue)
take_round inner z k n q = do
  (seen, q') ← peek inner q
  and_pop inner (equals seen (cast 32 (n + z))) (cast 32 (n + z)) (n + k) q'

-- `testFullEmptyIndex`
unfoldable pub test_full_empty_index : ℕ → ℕ → Queue → Option (Bool × Queue)
test_full_empty_index inner fuel q0 = do
  (n1, (q1, w1)) ← count_while (push_index_round inner 0) fuel 0 (q0, 0)
  (n2, q2) ← count_while (take_round inner 0 0) fuel 0 q1
  (wloop, (q3, w3)) ← count_while (push_index_round inner (capacity q2)) fuel 0 (q2, w1)
  (rloop, q4) ← count_while (take_round inner (capacity q3) (capacity q3)) fuel 0 q3
  some (wloop == rloop && wloop == capacity q4, q4)

-- `wloop < qut.capacity() && qut.push_keep_n(w, wi) && wi == (wloop + qut.capacity())`
unfoldable pub keep_round : ℕ → ℕ → Queue × ℕ → Option (Bool × (Queue × ℕ))
keep_round inner n (q, w) = elim (ltb n (capacity q)) [
  | false ↦ some (false, (q, w))
  | true ↦ do
    (wi, q') ← push_keep_n_index inner inner q w
    some (wi == n + capacity q, (q', step_w (wi == n + capacity q) w))
]

-- `rloop < qut.capacity() && …`; the comparison in the loop's body repeats one of its condition.
unfoldable pub take_kept_round : ℕ → ℕ → Queue → Option (Bool × Queue)
take_kept_round inner n q = elim (ltb n (capacity q)) [
  | false ↦ some (false, q)
  | true ↦ take_round inner 93 (capacity q) n q
]

-- `testFullEmptyKeepN`, with `z` 93
unfoldable pub test_full_empty_keep_n : ℕ → ℕ → Queue → Option (Bool × Queue)
test_full_empty_keep_n inner fuel q0 = do
  (n1, (q1, w1)) ← count_while (push_index_round inner 0) fuel 0 (q0, 0)
  (wloop, (q2, w2)) ← count_while (keep_round inner) fuel 0 (q1, 93)
  (rloop, q3) ← count_while (take_kept_round inner) fuel 0 q2
  some (wloop == rloop && wloop == capacity q3, q3)

-- What a variable that is 0 holds after `pop`.
abbrev pub or_zero : Option ℕ → ℕ
or_zero none = 0
or_zero (some x) = x

-- `testPushPop`
unfoldable pub test_push_pop : ℕ → Queue → Option (Bool × Queue)
test_push_pop inner q0 = do
  (b1, q1) ← push inner q0 199
  (r, q2) ← pop inner q1
  (b2, q3) ← enqueue inner q2 199
  (rq, q4) ← dequeue inner q3
  some (199 == or_zero r && 199 == or_zero rq, q4)

-- `push(d, wi) && wi == i && pop(r, ri) && r == d && ri == i`
unfoldable pub numbered_trip : ℕ → ℕ → ℕ → Queue → Option (Bool × Queue)
numbered_trip inner d i q = do
  (done, q') ← push_index inner q d
  and_pop inner (equals done i) d i q'

-- `push(d) && pop(r) && r == d`
unfoldable pub trip : ℕ → ℕ → Queue → Option (Bool × Queue)
trip inner d q = do
  (done, q') ← push inner q d
  elim done [
    | false ↦ some (false, q')
    | true ↦ do (got, q'') ← pop inner q'; some (equals got d, q'')
  ]

-- `testPushPopOne`
unfoldable pub test_push_pop_one : ℕ → Queue → Option (Bool × Queue)
test_push_pop_one inner q0 = do
  (t1, q1) ← numbered_trip inner 11 0 q0
  (t2, q2) ← numbered_trip inner 22 1 q1
  (t3, q3) ← trip inner 33 q2
  (t4, q4) ← trip inner 44 q3
  (t5, q5) ← trip inner 55 q4
  some (t1 && t2 && t3 && t4 && t5, q5)

-- `TEST(…, Exchange32)`, and `Exchange64`
unfoldable pub test_exchange : ℕ → Queue → Option (Bool × Queue)
test_exchange inner q0 = do
  (b1, q1) ← push inner q0 1
  (b2, q2) ← push inner q1 2
  (b3, q3) ← push_index inner q2 3
  (b4, q4) ← push inner q3 4
  (bt, q5) ← some (exchange q4 (or_zero b3) 3 17)
  (bf, q6) ← some (exchange q5 (or_zero b3) 3 99)
  (a, q7) ← pop inner q6
  (b, q8) ← pop inner q7
  (c, q9) ← pop inner q8
  (d, q10) ← pop inner q9
  some (or_zero a == 1 && or_zero b == 2 && or_zero c == 17 && or_zero d == 4 && bt && not bf, q10)

-- A new `mpmc_queue<int, 0, unsigned, …>` goes through a test. A constructor that throws fails it.
unfoldable pub on_new_queue : ℕ → (Queue → Option (Bool × Queue)) → Config → Option Bool
on_new_queue fuel test c = do
  made ← construct fuel 0 c
  elim made [ throws ↦ some false | builds q ↦ do (passed, q') ← test q; some passed ]

abbrev pub sized : ℕ → Bool → Bool → Config
sized s lazy_push lazy_pop = record {
  bits = 32;
  size = s;
  lazy_push = lazy_push;
  lazy_pop = lazy_pop;
}

-- `q0` to `q3`
unfoldable pub four_queues : ℕ → (Queue → Option (Bool × Queue)) → ℕ → Option Bool
four_queues fuel test s = do
  b0 ← on_new_queue fuel test (sized s false false)
  b1 ← on_new_queue fuel test (sized s false true)
  b2 ← on_new_queue fuel test (sized s true false)
  b3 ← on_new_queue fuel test (sized s true true)
  some (b0 && b1 && b2 && b3)

-- `for (unsigned s = 1; s < 2048; s *= 2)`, the limit a parameter
unfoldable pub for_sizes : (ℕ → Option Bool) → ℕ → ℕ → ℕ → Option Bool
for_sizes test limit zero s = none
for_sizes test limit (suc fuel) s = elim (ltb s limit) [
  | false ↦ some true
  | true ↦ do
    passed ← test s
    rest ← for_sizes test limit fuel (cast 32 (s * 2))
    some (passed && rest)
]

-- `TEST(…, FillEmpty)`, `TEST(…, FillEmptyIndex)`, `TEST(…, FillKeepN)`
unfoldable pub fill_empty : ℕ → ℕ → ℕ → Option Bool
fill_empty inner fuel limit = for_sizes (four_queues fuel (test_full_empty inner fuel)) limit fuel 1

unfoldable pub fill_empty_index : ℕ → ℕ → ℕ → Option Bool
fill_empty_index inner fuel limit =
    for_sizes (four_queues fuel (test_full_empty_index inner fuel)) limit fuel 1

unfoldable pub fill_keep_n : ℕ → ℕ → ℕ → Option Bool
fill_keep_n inner fuel limit =
    for_sizes (four_queues fuel (test_full_empty_keep_n inner fuel)) limit fuel 1

-- `TEST(…, PushOne_f_f)` to `TEST(…, PushOne_t_t)`, with `s` for their 8
unfoldable pub push_one : ℕ → ℕ → ℕ → Option Bool
push_one inner fuel s = four_queues fuel (test_push_pop_one inner) s

-- One round of `TEST(…, different_sizes)`: an exception is reported and no failure.
unfoldable pub try_size : ℕ → ℕ → ℕ → Option Bool
try_size inner fuel n = do
  made ← construct fuel 0 (sized n false false)
  elim made [
    | throws ↦ some true
    | builds q ↦ do (passed, q') ← test_size inner fuel q; some passed
  ]

-- `for (auto n : szs)`
unfoldable pub different_sizes : ℕ → ℕ → List ℕ → Option Bool
different_sizes inner fuel [] = some true
different_sizes inner fuel (n ∷ szs) = do
  passed ← try_size inner fuel n
  rest ← different_sizes inner fuel szs
  some (passed && rest)
