-- ===== src/Shared/Open.antt =====
-- Which files a process attaches to, and what the counters of a header count.
use native.Mathlib.Nat.{mod-eq_of_lt}
use lockfree_mpmc_queue.Base.{
  ℕ, ◌^◌, ◌<◌, ◌≡◌, ◌↔◌, refl, true, false, Option, some, arith, Bool-cases, inl, inr,
}
use lockfree_mpmc_queue.Shared.{
  Header, Layout, Answers, exits, attaches, new_header, is_compatible, open_shared,
}

-- A file as the creator left it, with any counts.
abbrev pub left_by : Layout → ℕ → ℕ → Header
left_by l m n = record (new_header l) { producer_count = m; consumer_count = n }

abbrev pub answers_of : Option Header → Answers
answers_of found = record { opened = true; found = found; truncated = true; written = 0 }

is_compatible-left_by :
    (k l : Layout) (m n : ℕ)
    → k.header_bytes < 2 ^ 32
    → (is_compatible l (left_by k m n) ≡ true) ↔ (
        (l.header_bytes ≡ k.header_bytes)
        × (l.elements ≡ k.elements)
        × (l.queue_bytes ≡ k.queue_bytes))
unfolding is_compatible
is_compatible-left_by k l m n small = (
  λ same. let e = mod-eq_of_lt small in (ground (arith, e), ground (arith, e), ground (arith, e)),
  λ (e, f, g). rw (mod-eq_of_lt small, e, f, g) (ground arith),
)

-- The header that a creator wrote, whatever the counts are by now: a process with the same layout
-- attaches to the file, and one with another layout exits.
pub open_shared-left_by :
    (k l : Layout) (m n : ℕ)
    → k.header_bytes < 2 ^ 32
    → (open_shared l (answers_of (some (left_by k m n))) ≡ attaches (left_by k m n)) ↔ (
        (l.header_bytes ≡ k.header_bytes)
        × (l.elements ≡ k.elements)
        × (l.queue_bytes ≡ k.queue_bytes))
unfolding open_shared
open_shared-left_by k l m n small =
    let (to, from) = is_compatible-left_by k l m n small in
    elim (Bool-cases (is_compatible l (left_by k m n))) [
      | inl same ↦ (λ e. to same, λ e. rw same refl)
      | inr other ↦ (λ e. absurd (refused other e), λ e. cc (from e, other))
    ]
  where
    refused :
        is_compatible l (left_by k m n) ≡ false
        → ¬ (open_shared l (answers_of (some (left_by k m n))) ≡ attaches (left_by k m n))
    refused other e =
        let f : open_shared l (answers_of (some (left_by k m n))) ≡ exits = rw other refl in
        cc (f, e)
