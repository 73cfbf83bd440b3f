-- ===== src/Tests/Files.antt =====
-- A file that one process creates and others attach to.
use lockfree_mpmc_queue.Base.{ℕ, ◌≡◌, ◌↔◌, refl, [], ◌∷◌, some, arith, none}
use lockfree_mpmc_queue.Shared.{
  Layout, new_header, open_shared, attaches, producer_comes, producer_goes, consumer_comes, visits,
  get_producers_count,
}
use lockfree_mpmc_queue.Shared.Open.{left_by, answers_of, open_shared-left_by}
use lockfree_mpmc_queue.Fifo.{empty}
use lockfree_mpmc_queue.Shared.Mapped.{visits_it, pushes, keeps, pops, visited, popped}
use lockfree_mpmc_queue.Shared.Answered.{IsSession, all_asked, open_mapped-Answers}
use lockfree_mpmc_queue.Tests.{two_slots, fresh_queue, fresh-Holds}
use lockfree_mpmc_queue.Shared.Visits.{visits-get_producers_count}

abbrev layout : Layout
layout = record { header_bytes = 168; elements = 64; queue_bytes = 8448 }

open_shared-left_by_example :
    (open_shared layout (answers_of (some (left_by layout 2 1))) ≡ attaches (left_by layout 2 1))
    ↔ ((◌≡◌ {A = ℕ} 168 168) × (◌≡◌ {A = ℕ} 64 64) × (◌≡◌ {A = ℕ} 8448 8448))
open_shared-left_by_example = open_shared-left_by layout layout 2 1 (omega arith)

visits-get_producers_count_example :
    get_producers_count (
      visits
        (new_header layout)
        (producer_comes ∷ consumer_comes ∷ producer_goes ∷ producer_comes ∷ []))
    ≡ 1
visits-get_producers_count_example =
    visits-get_producers_count layout
      (producer_comes ∷ consumer_comes ∷ producer_goes ∷ producer_comes ∷ []) 1 refl (omega arith)

-- Two slots behind the header.
abbrev small_layout : Layout
small_layout = record { header_bytes = 168; elements = 2; queue_bytes = 192 }

open_mapped-Answers_example :
    IsSession 3 0 two_slots small_layout fresh_queue
      (visits_it producer_comes ∷ pushes 7 ∷ keeps 8 ∷ keeps 9 ∷ visits_it producer_goes ∷ [])
      (visits_it consumer_comes ∷ pops ∷ pops ∷ pops ∷ [])
open_mapped-Answers_example =
    open_mapped-Answers two_slots small_layout 0 3 fresh_queue fresh-Holds.shape (omega arith) refl
      (omega arith)
      (visits_it producer_comes ∷ pushes 7 ∷ keeps 8 ∷ keeps 9 ∷ visits_it producer_goes ∷ [])
      (visits_it consumer_comes ∷ pops ∷ pops ∷ pops ∷ [])

-- The first value made room for the last.
kept_for_later :
    (all_asked two_slots
      (all_asked two_slots empty
        (visits_it producer_comes ∷ pushes 7 ∷ keeps 8 ∷ keeps 9 ∷ visits_it producer_goes ∷ [])).1
      (visits_it consumer_comes ∷ pops ∷ pops ∷ pops ∷ [])).0
    ≡ visited ∷ popped (some (8, 1)) ∷ popped (some (9, 2)) ∷ popped none ∷ []
kept_for_later = refl
