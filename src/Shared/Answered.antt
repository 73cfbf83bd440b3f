-- ===== src/Shared/Answered.antt =====
-- The queue in a mapped file answers as a list, whoever comes and goes.
use native.Mathlib.Nat.{mod-eq_of_lt}
use lockfree_mpmc_queue.Base.{
  ℕ, suc, ◌^◌, ◌<◌, ◌≡◌, refl, ◌∙◌, true, none, some, List, [], ◌∷◌, arith, ==_of_eq, ==_of_ne, ◌%◌,
}
use lockfree_mpmc_queue.Fifo
use lockfree_mpmc_queue.Fifo.{Fifo, empty, next}
use lockfree_mpmc_queue.Queue.{Config, Queue}
use lockfree_mpmc_queue.Queue.Shape.{IsShape, size_pos}
use lockfree_mpmc_queue.Queue.Serves.{Serves}
use lockfree_mpmc_queue.Queue.Init
use lockfree_mpmc_queue.Queue.Init.{construct, Construction, builds}
use lockfree_mpmc_queue.Queue.Init.Fresh.{build-Serves}
use lockfree_mpmc_queue.Queue.Push.Result.{push_reply, push_index-Pushes}
use lockfree_mpmc_queue.Queue.Pop.Result.{pop_reply, pop_index-Pops}
use lockfree_mpmc_queue.Queue.Calls.KeepN.{make_room, snoc, push_keep_n_index-Keeps}
use lockfree_mpmc_queue.Shared.{
  Header, Layout, Answers, creates, attaches, new_header, is_compatible, open_shared, Visit,
  producer_comes, producer_goes, consumer_comes, consumer_goes, visit, producers_inc, producers_dec,
  consumers_inc, consumers_dec,
}
use lockfree_mpmc_queue.Shared.Open.{answers_of}
use lockfree_mpmc_queue.Shared.Mapped.{
  Mapped, open_mapped, Request, visits_it, pushes, keeps, pops, Answer, visited, pushed, kept,
  popped, handle, handle_all,
}

-- What a list answers, and what it then holds.
abbrev pub asked : Config → Fifo → Request → Answer × Fifo
asked c f (visits_it v) = (visited, f)
asked c f (pushes d) = (pushed (push_reply c f), Fifo.push c.size f d)
asked c f (keeps d) = (kept (next f % 2 ^ c.bits), snoc (make_room c.size f) d)
asked c f pops = (popped (pop_reply c f), Fifo.pop f)

abbrev pub all_asked : Config → Fifo → List Request → List Answer × Fifo
all_asked c f [] = ([], f)
all_asked c f (r ∷ rs) =
    let (answers, g) = all_asked c (asked c f r).1 rs in ((asked c f r).0 ∷ answers, g)

abbrev pub new_visits : Request → List Visit
new_visits (visits_it v) = v ∷ []
new_visits _ = []

-- The file answers as the list does, and its layout stays.
abbrev Answered : ℕ → Config → Layout → Mapped → Fifo → Request → Type 0
Answered fuel c l m f r =
    (m' : Mapped) × (handle fuel m r ≡ some ((asked c f r).0, m'))
    × Serves c m'.queue (asked c f r).1
    × (is_compatible l m'.header ≡ is_compatible l m.header)

abbrev AllAnswered : ℕ → Config → Layout → Mapped → Fifo → List Request → Type 0
AllAnswered fuel c l m f rs =
    (m' : Mapped) × (handle_all fuel m rs ≡ some ((all_asked c f rs).0, m'))
    × Serves c m'.queue (all_asked c f rs).1
    × (is_compatible l m'.header ≡ is_compatible l m.header)

module _ {c : Config} (fuel : ℕ) (l : Layout) where
  handle-Answered :
      (m : Mapped) (f : Fifo) (r : Request)
      → Serves c m.queue f
      → Answered (suc (suc fuel)) c l m f r
  unfolding handle visit is_compatible producers_inc producers_dec consumers_inc consumers_dec
  handle-Answered m f (visits_it v) s = (record m { header = visit m.header v }, refl, s, same v)
    where
      same : (v : Visit) → is_compatible l (visit m.header v) ≡ is_compatible l m.header
      same producer_comes = refl
      same producer_goes = refl
      same consumer_comes = refl
      same consumer_goes = refl
  handle-Answered m f (pushes d) s =
      let (q, ran, serves) = push_index-Pushes f fuel d s in
      (record m { queue = q }, rw ran refl, serves, refl)
  handle-Answered m f (keeps d) s =
      let (q, ran, serves) = push_keep_n_index-Keeps f fuel fuel d s in
      (record m { queue = q }, rw ran refl, serves, refl)
  handle-Answered m f pops s =
      let (q, ran, serves) = pop_index-Pops f fuel s in
      (record m { queue = q }, rw ran refl, serves, refl)

  handle_all-AllAnswered :
      (m : Mapped) (f : Fifo) (rs : List Request)
      → Serves c m.queue f
      → AllAnswered (suc (suc fuel)) c l m f rs
  unfolding handle_all
  handle_all-AllAnswered m f [] s = (m, refl, s, refl)
  handle_all-AllAnswered m f (r ∷ rs) s =
      let (m1, first, s1, same1) = handle-Answered m f r s in
      let (m2, rest, s2, same2) = handle_all-AllAnswered m1 (asked c f r).1 rs s1 in
      (m2, rw first (rw rest refl), s2, same2 ∙ same1)

found-attaches :
    (l : Layout) (h : Header)
    → is_compatible l h ≡ true
    → open_shared l (answers_of (some h)) ≡ attaches h
unfolding open_shared
found-attaches l h same = rw same refl

attached :
    (fuel : ℕ) (c : Config) (l : Layout) (m : Mapped)
    → is_compatible l m.header ≡ true
    → open_mapped fuel c l (answers_of (some m.header)) m.queue ≡ some (some m)
unfolding open_mapped
attached fuel c l m same = rw (found-attaches l m.header same, open_mapped) refl

-- The system calls go well on a new file.
abbrev pub on_new_file : Layout → Answers
on_new_file l = record { opened = true; found = none; truncated = true; written = l.header_bytes }

new_file-creates : (l : Layout) → open_shared l (on_new_file l) ≡ creates (new_header l)
unfolding open_shared
new_file-creates l = rw (==_of_eq l.header_bytes l.header_bytes refl) refl

-- The file is created, asked, opened again as it was left, and asked again, with these answers.
abbrev pub IsSession : ℕ → ℕ → Config → Layout → Queue → List Request → List Request → Type 0
IsSession fuel inner c l stored rs rs' =
    (m0 : Mapped) × (m1 : Mapped) × (m2 : Mapped) × (open_mapped fuel c l (on_new_file l) stored
      ≡ some (some m0))
    × (handle_all (suc (suc inner)) m0 rs ≡ some ((all_asked c empty rs).0, m1))
    × (open_mapped fuel c l (answers_of (some m1.header)) m1.queue ≡ some (some m1))
    × (handle_all (suc (suc inner)) m1 rs'
        ≡ some ((all_asked c (all_asked c empty rs).1 rs').0, m2))

module _ (c : Config) (l : Layout) (inner fuel : ℕ) (stored : Queue) (shape : IsShape c)
    (enough : c.size < fuel) (sized : l.elements ≡ c.size) (short : l.header_bytes < 2 ^ 32) where
  constructed :
      (q : Queue)
      → Init.build fuel c ≡ some (builds q)
      → construct fuel l.elements c ≡ some (builds q)
  unfolding construct
  constructed q built =
      let pos = size_pos shape in
      rw (sized, ==_of_ne c.size 0 (omega arith), ==_of_eq c.size c.size refl) built

  created :
      (q : Queue)
      → Init.build fuel c ≡ some (builds q)
      → open_mapped fuel c l (on_new_file l) stored
        ≡ some (some (record { header = new_header l; queue = q }))
  unfolding open_mapped
  created q built = rw (new_file-creates l, open_mapped) (rw (constructed q built) refl)

  new-compatible : is_compatible l (new_header l) ≡ true
  unfolding is_compatible
  new-compatible = rw (mod-eq_of_lt short) (ground arith)

  -- For a size at compile time that fits the index, with two rounds for each loop of the queue and fuel
  -- beyond its size: a process creates the file, and its requests, comings and goings among them, are
  -- answered as by the empty list; a process with the same layout that then opens the file attaches to
  -- it as it was left, and its requests are answered as by what the list then holds.
  pub open_mapped-Answers : (rs rs' : List Request) → IsSession fuel inner c l stored rs rs'
  open_mapped-Answers rs rs' =
      let (q, built, serves) = build-Serves shape fuel enough in
      let m0 : Mapped = record { header = new_header l; queue = q } in
      let (m1, ran1, s1, same1) = handle_all-AllAnswered inner l m0 empty rs serves in
      let (m2, ran2, s2, same2) =
        handle_all-AllAnswered inner l m1 (all_asked c empty rs).1 rs' s1 in
      (m0, m1, m2, created q built, ran1, attached fuel c l m1 (same1 ∙ new-compatible), ran2)
