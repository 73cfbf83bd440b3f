-- ===== src/Gtest/Values.antt =====
-- src/gtest_mpmc_queue.cpp: the tests that move single values of other types through a queue, and those
-- that run src/hash_signature.h on fixed values. A character pointer is its address, 0 for none.
use native.Mathlib.Nat.{mod-eq_of_lt}
use lockfree_mpmc_queue.Base.{
  ℕ, suc, ◌+◌, ◌*◌, ◌/◌, ◌%◌, ◌^◌, ◌≤◌, ◌<◌, ◌≡◌, refl, ap, Bool, true, false, Option, none, some,
  List, [], ◌∷◌, length, arith, ==_of_eq, ◌==◌, ltb, ◌&&◌, ltb_of_lt, ◌-◌,
}
use lockfree_mpmc_queue.Base.Word.{cast}
use lockfree_mpmc_queue.Base.Loop.{◌>>=◌}
use lockfree_mpmc_queue.Fifo.{empty}
use lockfree_mpmc_queue.Queue.{Config, Queue}
use lockfree_mpmc_queue.Queue.Serves.{Serves}
use lockfree_mpmc_queue.Queue.Push.{push, push_index}
use lockfree_mpmc_queue.Queue.Pop.{pop, pop_index}
use lockfree_mpmc_queue.Queue.Pop.Result.{pop_index-Pops}
use lockfree_mpmc_queue.Queue.Calls.KeepN.{pop-Pops}
use lockfree_mpmc_queue.Hash.{make_signature, add_value, add_string}
use lockfree_mpmc_queue.Hash.Count.{chunks, add_string-Counts}
use lockfree_mpmc_queue.Gtest.{or_zero}
use lockfree_mpmc_queue.Gtest.Rounds.{push-room, push_index-room}
use lockfree_mpmc_queue.Gtest.Singles.{Serves-size_pos, Serves-wide}

-- `q.push(p)`, and later `q.pop(a)` into a pointer that is 0
unfoldable through : ℕ → Queue → ℕ → Option ℕ
through inner q p = do (done, q') ← push inner q p; (got, q'') ← pop inner q'; some (or_zero got)

-- `TEST(…, PushCharPointer)`, with the addresses of its four strings for "Hello" to "Up?"
unfoldable push_char_pointer : ℕ → Queue → Queue → Queue → Queue → ℕ → ℕ → ℕ → ℕ → Option Bool
push_char_pointer inner q0 q1 q2 q3 hello world whats up = do
  (b0, q0) ← push inner q0 hello
  (b1, q1) ← push inner q1 world
  (b2, q2) ← push inner q2 whats
  (b3, q3) ← push inner q3 up
  (a, q0) ← pop inner q0
  (b, q1) ← pop inner q1
  (c, q2) ← pop inner q2
  (d, q3) ← pop inner q3
  some (
      (ltb 0 (or_zero a) && ltb 0 (or_zero b) && ltb 0 (or_zero c) && ltb 0 (or_zero d))
      && hello == or_zero a
      && world == or_zero b
      && whats == or_zero c
      && up == or_zero d)

-- What `pop(a, pop_index)` leaves in `pop_index`, which was `i`.
abbrev number_or : Option (ℕ × ℕ) → ℕ → ℕ
number_or none i = i
number_or (some (x, j)) i = j

-- The same for `push(d, push_index)`.
abbrev index_or : Option ℕ → ℕ → ℕ
index_or none i = i
index_or (some j) i = j

abbrev worked {ℓ} : {A : Type ℓ} → Option A → Bool
worked none = false
worked (some x) = true

-- `before && q.push(33, push_index)`
unfoldable and_push : ℕ → Bool × (ℕ × Queue) → Option (Bool × (ℕ × Queue))
and_push inner (false, (i, q)) = some (false, (i, q))
and_push inner (true, (i, q)) = do
  (done, q') ← push_index inner q 33
  some (worked done, (index_or done i, q'))

-- `before && q.pop(a, pop_index)`
unfoldable and_take : ℕ → Bool × (ℕ × Queue) → Option (Bool × (ℕ × Queue))
and_take inner (false, (i, q)) = some (false, (i, q))
and_take inner (true, (i, q)) = do
  (got, q') ← pop_index inner q
  some (worked got, (number_or got i, q'))

-- `TEST(…, PushPopIndex)`
unfoldable push_pop_index : ℕ → Queue → Option Bool
push_pop_index inner q0 = do
  (b1, (i1, q1)) ← and_push inner (true, (0, q0))
  (b2, (i2, q2)) ← and_push inner (b1, (i1, q1))
  (b3, (push_at, q3)) ← and_push inner (b2, (i2, q2))
  (b4, (j1, q4)) ← and_take inner (b3, (0, q3))
  (b5, (j2, q5)) ← and_take inner (b4, (j1, q4))
  (b6, (pop_at, q6)) ← and_take inner (b5, (j2, q5))
  some (b6 && pop_at == 2 && push_at == 2)

-- `Data12`, twelve bytes, in the order of the struct.
abbrev data12 : ℕ → ℕ → ℕ → ℕ
data12 a b c = a + b * 2 ^ 64 + c * 2 ^ 80

-- `TEST(…, Data12)`, with `a`, `b` and `c` for its 1, 2 and 3; `y` is all zero before `pop`.
unfoldable test_data12 : ℕ → ℕ → ℕ → ℕ → Queue → Option Bool
test_data12 inner a b c q = do
  y ← through inner q (data12 a b c)
  some (y % 2 ^ 64 == a && y / 2 ^ 64 % 2 ^ 16 == b && y / 2 ^ 80 == c)

-- `TEST(…, IntStringHash)`, with the string for its "abcdefghijjklmnop": the count at the end.
unfoldable int_string_hash : ℕ → List ℕ → Option ℕ
int_string_hash fuel text = do
  a ← some (add_value (add_value (add_value (make_signature 1) 234) 456) 456)
  a ← add_string fuel a text
  a ← add_string fuel a []
  a ← add_string fuel a []
  some a.count

-- `TEST(…, HashWrap)`
abbrev hash_wrap : Bool
hash_wrap =
    let hs = make_signature (2 ^ 64 - 1) in hs.state == 11936128518282651044 && hs.count == 0

module _ {c : Config} {q : Queue} (inner : ℕ) (start : Serves c q empty) where
  -- On a queue that serves the empty list, what is pushed is popped.
  through-same : (p : ℕ) → through (suc (suc inner)) q p ≡ some p
  unfolding through
  through-same p =
      let (q1, ran1, s1) = push-room inner 0 [] p start (Serves-size_pos start) in
      let (q2, ran2, s2) = pop-Pops _ inner s1 in rw ran1 (rw ran2 refl)

  -- On a queue that serves the empty list, any value of a `Data12` comes back in its three fields.
  test_data12-passes :
      (x y z : ℕ) → x < 2 ^ 64 → y < 2 ^ 16 → test_data12 (suc (suc inner)) x y z q ≡ some true
  unfolding test_data12
  test_data12-passes x y z low mid =
      let e1 : data12 x y z % 2 ^ 64 ≡ x = omega arith in
      let e2 : data12 x y z / 2 ^ 64 % 2 ^ 16 ≡ y = omega arith in
      let e3 : data12 x y z / 2 ^ 80 ≡ z = omega arith in
      rw (through-same (data12 x y z))
        (rw (e1, e2, e3, ==_of_eq x x refl, ==_of_eq y y refl, ==_of_eq z z refl) refl)

  -- On a queue that serves the empty list, with at least three slots, `PushPopIndex` passes.
  push_pop_index-passes : 3 ≤ c.size → push_pop_index (suc (suc inner)) q ≡ some true
  unfolding push_pop_index and_push and_take
  push_pop_index-passes room =
      let two : cast c.bits 2 ≡ 2 = mod-eq_of_lt (omega (arith, Serves-wide start)) in
      let (q1, ran1, s1) = push_index-room inner 0 [] 33 start (omega arith) in
      let (q2, ran2, s2) = push_index-room inner 0 (33 ∷ []) 33 s1 (omega arith) in
      let (q3, ran3, s3) = push_index-room inner 0 (33 ∷ 33 ∷ []) 33 s2 (omega arith) in
      let (q4, ran4, s4) = pop_index-Pops _ inner s3 in
      let (q5, ran5, s5) = pop_index-Pops _ inner s4 in
      let (q6, ran6, s6) = pop_index-Pops _ inner s5 in
      rw ran1 (rw ran2 (rw ran3 (rw ran4 (rw ran5 (rw (ran6, two) refl)))))

module _ {c0 c1 c2 c3 : Config} {q0 q1 q2 q3 : Queue} (inner : ℕ) (s0 : Serves c0 q0 empty)
    (s1 : Serves c1 q1 empty) (s2 : Serves c2 q2 empty) (s3 : Serves c3 q3 empty) where
  -- On four queues that each serve the empty list, `PushCharPointer` passes, whatever the addresses.
  push_char_pointer-passes :
      (i j k l : ℕ)
      → 0 < i
      → 0 < j
      → 0 < k
      → 0 < l
      → push_char_pointer (suc (suc inner)) q0 q1 q2 q3 i j k l ≡ some true
  unfolding push_char_pointer
  push_char_pointer-passes i j k l e f g h =
      let (a1, push0, t0) = push-room inner 0 [] i s0 (Serves-size_pos s0) in
      let (b1, push1, t1) = push-room inner 0 [] j s1 (Serves-size_pos s1) in
      let (c1, push2, t2) = push-room inner 0 [] k s2 (Serves-size_pos s2) in
      let (d1, push3, t3) = push-room inner 0 [] l s3 (Serves-size_pos s3) in
      let (a2, pop0, u0) = pop-Pops _ inner t0 in
      let (b2, pop1, u1) = pop-Pops _ inner t1 in
      let (c2, pop2, u2) = pop-Pops _ inner t2 in
      let (d2, pop3, u3) = pop-Pops _ inner t3 in
      rw push0 (
        rw push1 (
          rw push2 (
            rw push3 (
              rw pop0 (
                rw pop1 (
                  rw pop2 (
                    rw pop3 (
                      rw
                        (
                          ltb_of_lt 0 i e,
                          ltb_of_lt 0 j f,
                          ltb_of_lt 0 k g,
                          ltb_of_lt 0 l h,
                          ==_of_eq i i refl,
                          ==_of_eq j j refl,
                          ==_of_eq k k refl,
                          ==_of_eq l l refl,
                        )
                        refl))))))))

-- With fuel for every byte, `IntStringHash` counts five and the pieces of its string.
int_string_hash-count :
    (fuel : ℕ) (text : List ℕ)
    → length text ≤ fuel
    → int_string_hash fuel text ≡ some (cast 64 (chunks text + 5))
unfolding int_string_hash make_signature add_value
int_string_hash-count fuel text enough =
    let start = add_value (add_value (add_value (make_signature 1) 234) 456) 456 in
    let (s1, ran1, n1) = add_string-Counts fuel start text enough in
    let (s2, ran2, n2) = add_string-Counts fuel s1 [] (omega arith) in
    let (s3, ran3, n3) = add_string-Counts fuel s2 [] (omega arith) in
    let sum : s3.count ≡ cast 64 (chunks text + 5) = omega (arith, n1, n2, n3) in
    rw ran1 (rw ran2 (rw ran3 (ap some sum)))

-- `HashWrap` passes.
hash_wrap-passes : hash_wrap ≡ true
unfolding make_signature
hash_wrap-passes = refl
