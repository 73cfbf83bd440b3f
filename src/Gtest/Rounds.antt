-- ===== src/Gtest/Rounds.antt =====
-- src/gtest_mpmc_queue.cpp: the rounds of the tests' loops, on a queue that serves a list.
use native.Mathlib.Nat.{mod-le}
use lockfree_mpmc_queue.Base.{
  ℕ, suc, ◌+◌, ◌-◌, ◌≤◌, ◌<◌, ◌^◌, ◌≡◌, refl, ◌∙◌, true, false, none, some, List, [], ◌∷◌, ◌++◌,
  length, arith, ltb_of_lt, ltb_of_le, ==_of_eq,
}
use lockfree_mpmc_queue.Base.Word.{cast}
use lockfree_mpmc_queue.Fifo.{Fifo}
use lockfree_mpmc_queue.Queue.{Config, Queue}
use lockfree_mpmc_queue.Queue.Serves.{Serves}
use lockfree_mpmc_queue.Queue.Push.{push, push_index}
use lockfree_mpmc_queue.Queue.Push.Result.{push_index-Pushes}
use lockfree_mpmc_queue.Queue.Push.Overloads.{push-push_index}
use lockfree_mpmc_queue.Queue.Pop.Result.{pop_index-Pops}
use lockfree_mpmc_queue.Queue.Peek.{peek}
use lockfree_mpmc_queue.Queue.Peek.Result.{peek_index-Peeks, CanHelp}
use lockfree_mpmc_queue.Queue.Peek.Overloads.{peek-peek_index}
use lockfree_mpmc_queue.Queue.Calls.KeepN.{pop-Pops}
use lockfree_mpmc_queue.Gtest.{
  equals_both, take_round, push_round, push_index_round, pop_round, and_pop,
}

-- A queue under test that holds the list from the number `h` on.
abbrev pub ServesFrom : Config → Queue → ℕ → List ℕ → Type 0
ServesFrom c q h xs = Serves c q (record { read = h; items = xs })

module _ {c : Config} {q : Queue} (inner h : ℕ) where
  pub push_index-room :
      (xs : List ℕ) (d : ℕ)
      → ServesFrom c q h xs
      → length xs < c.size
      → (q' : Queue) × (push_index (suc (suc inner)) q d
          ≡ some (some (cast c.bits (h + length xs)), q'))
        × ServesFrom c q' h (xs ++ d ∷ [])
  push_index-room xs d s room =
      let (q', pushed, serves) = push_index-Pushes _ inner d s in
      (q', rw (ltb_of_lt _ _ room) at pushed, rw (ltb_of_lt _ _ room) at serves)

  pub push_index-no_room :
      (xs : List ℕ) (d : ℕ)
      → ServesFrom c q h xs
      → c.size ≤ length xs
      → (q' : Queue) × (push_index (suc (suc inner)) q d ≡ some (none, q')) × ServesFrom c q' h xs
  push_index-no_room xs d s full =
      let (q', pushed, serves) = push_index-Pushes _ inner d s in
      (q', rw (ltb_of_le _ _ full) at pushed, rw (ltb_of_le _ _ full) at serves)

  pub push-room :
      (xs : List ℕ) (d : ℕ)
      → ServesFrom c q h xs
      → length xs < c.size
      → (q' : Queue) × (push (suc (suc inner)) q d ≡ some (true, q'))
        × ServesFrom c q' h (xs ++ d ∷ [])
  push-room xs d s room =
      let (q', pushed, serves) = push_index-room xs d s room in
      (q', push-push_index (suc (suc inner)) q d ∙ rw pushed refl, serves)

  pub push-no_room :
      (xs : List ℕ) (d : ℕ)
      → ServesFrom c q h xs
      → c.size ≤ length xs
      → (q' : Queue) × (push (suc (suc inner)) q d ≡ some (false, q')) × ServesFrom c q' h xs
  push-no_room xs d s full =
      let (q', pushed, serves) = push_index-no_room xs d s full in
      (q', push-push_index (suc (suc inner)) q d ∙ rw pushed refl, serves)

-- An index that stays below half the range of a word: `peek` can help a lagging one.
abbrev pub IsLow : Config → ℕ → Type 0
IsLow c h = h + c.size ≤ 2 ^ (c.bits - 1)

Serves-CanHelp :
    {c : Config} {q : Queue} (f : Fifo) (s : Serves c q f) → IsLow c f.read → CanHelp c f.read s.rd
Serves-CanHelp {c} f s low lags = omega (arith, mod-le (s.rd + c.size) (2 ^ c.bits))

-- `equals_both` where both are equal.
equals_both-same : (x r j i : ℕ) → x ≡ r → j ≡ i → equals_both (some (x, j)) r i ≡ true
equals_both-same x r j i e f = rw (==_of_eq x r e, ==_of_eq j i f) refl

pub and_pop-next :
    {c : Config} {q : Queue} (inner h r i x : ℕ) (xs : List ℕ)
    → ServesFrom c q h (x ∷ xs)
    → x ≡ r
    → cast c.bits h ≡ i
    → (q' : Queue) × (and_pop (suc (suc inner)) true r i q ≡ some (true, q'))
      × ServesFrom c q' (h + 1) xs
unfolding and_pop
and_pop-next inner h r i x xs s value number =
    let (q', got, left) = pop_index-Pops _ inner s in
    (q', rw got (rw (equals_both-same x r _ i value number) refl), left)

module _ {c : Config} {q : Queue} (inner z k n h : ℕ) (low : IsLow c h) where
  peek-first :
      (xs : List ℕ) (s : ServesFrom c q h xs)
      → (q' : Queue) × (peek (suc (suc inner)) q
          ≡ some (elim xs [ [] ↦ none | x ∷ ys ↦ some x ], q'))
        × ServesFrom c q' h xs
  peek-first [] s =
      let (q', seen, serves) = peek_index-Peeks _ inner s (Serves-CanHelp _ s low) in
      (q', peek-peek_index (suc (suc inner)) q ∙ rw seen refl, serves)
  peek-first (x ∷ xs) s =
      let (q', seen, serves) = peek_index-Peeks _ inner s (Serves-CanHelp _ s low) in
      (q', peek-peek_index (suc (suc inner)) q ∙ rw seen refl, serves)

  -- The value and the number that the round asks for are those of the oldest element.
  pub take_round-next :
      (x : ℕ) (xs : List ℕ)
      → ServesFrom c q h (x ∷ xs)
      → x ≡ cast 32 (n + z)
      → cast c.bits h ≡ n + k
      → (q' : Queue) × (take_round (suc (suc inner)) z k n q ≡ some (true, q'))
        × ServesFrom c q' (h + 1) xs
  unfolding take_round
  take_round-next x xs s value number =
      let (q1, seen, serves) = peek-first (x ∷ xs) s in
      let (q2, got, left) =
        and_pop-next inner h (cast 32 (n + z)) (n + k) x xs serves value number in
      (q2, rw (seen, ==_of_eq x (cast 32 (n + z)) value) got, left)

  pub take_round-none :
      ServesFrom c q h []
      → (q' : Queue) × (take_round (suc (suc inner)) z k n q ≡ some (false, q'))
        × ServesFrom c q' h []
  unfolding take_round and_pop
  take_round-none s = let (q', seen, serves) = peek-first [] s in (q', rw seen refl, serves)

module _ {c : Config} {q : Queue} (inner k n h : ℕ) where
  pub pop_round-next :
      (x : ℕ) (xs : List ℕ)
      → ServesFrom c q h (x ∷ xs)
      → x ≡ cast 32 (n + k)
      → (q' : Queue) × (pop_round (suc (suc inner)) k n q ≡ some (true, q'))
        × ServesFrom c q' (h + 1) xs
  unfolding pop_round
  pop_round-next x xs s value =
      let (q', got, left) = pop-Pops _ inner s in
      (q', rw (got, ==_of_eq x (cast 32 (n + k)) value) refl, left)

  pub pop_round-none :
      ServesFrom c q h []
      → (q' : Queue) × (pop_round (suc (suc inner)) k n q ≡ some (false, q')) × ServesFrom c q' h []
  unfolding pop_round
  pop_round-none s = let (q', got, left) = pop-Pops _ inner s in (q', rw got refl, left)

module _ {c : Config} {q : Queue} (inner n w h : ℕ) (xs : List ℕ) (s : ServesFrom c q h xs) where
  pub push_round-room :
      length xs < c.size
      → (q' : Queue) × (push_round (suc (suc inner)) n (q, w) ≡ some (true, (q', cast 32 (w + 1))))
        × ServesFrom c q' h (xs ++ w ∷ [])
  unfolding push_round
  push_round-room room =
      let (q', pushed, serves) = push-room inner h xs w s room in (q', rw pushed refl, serves)

  pub push_round-full :
      c.size ≤ length xs
      → (q' : Queue) × (push_round (suc (suc inner)) n (q, w) ≡ some (false, (q', w)))
        × ServesFrom c q' h xs
  unfolding push_round
  push_round-full full =
      let (q', pushed, serves) = push-no_room inner h xs w s full in (q', rw pushed refl, serves)

  pub push_index_round-room :
      (k : ℕ)
      → length xs < c.size
      → cast c.bits (h + length xs) ≡ n + k
      → (q' : Queue) × (push_index_round (suc (suc inner)) k n (q, w)
          ≡ some (true, (q', cast 32 (w + 1))))
        × ServesFrom c q' h (xs ++ w ∷ [])
  unfolding push_index_round
  push_index_round-room k room number =
      let (q', pushed, serves) = push_index-room inner h xs w s room in
      (q', rw (pushed, ==_of_eq (cast c.bits (h + length xs)) (n + k) number) refl, serves)

  pub push_index_round-full :
      (k : ℕ)
      → c.size ≤ length xs
      → (q' : Queue) × (push_index_round (suc (suc inner)) k n (q, w) ≡ some (false, (q', w)))
        × ServesFrom c q' h xs
  unfolding push_index_round
  push_index_round-full k full =
      let (q', pushed, serves) = push_index-no_room inner h xs w s full in
      (q', rw pushed refl, serves)
