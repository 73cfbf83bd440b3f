-- ===== src/Shared.antt =====
-- shared_mpmc_queue.h: a queue in a file that processes map. The header of the file says whose queue it
-- holds; the queue behind it is that of mpmc_queue.h.
pub mod Open
pub mod Visits
pub mod Mapped
pub mod Answered
use lockfree_mpmc_queue.Base.{
  ℕ, ◌+◌, ◌-◌, ◌^◌, Bool, true, false, ◌&&◌, not, Option, none, some, List, [], ◌∷◌, ◌==◌, ltb,
  if◌then◌else◌,
}
use lockfree_mpmc_queue.Base.Word.{cast}

-- `shared_file_header`, less its arrays of process numbers, which nothing reads or writes.
pub record Header : Type 0 where
  pub signature : ℕ
  pub hdr_size : ℕ
  pub q_start : ℕ
  pub q_size_elements : ℕ
  pub q_size_bytes : ℕ
  pub producer_count : ℕ
  pub consumer_count : ℕ

-- What the template argument fixes: `Q::size_n()` and `sizeof(Q)`, with the size of the header.
pub record Layout : Type 0 where
  pub header_bytes : ℕ
  pub elements : ℕ
  pub queue_bytes : ℕ

-- `ShareMPMCQueue`
abbrev pub share_signature : ℕ
share_signature = 195934939

-- The header that a new file gets.
abbrev pub new_header : Layout → Header
new_header l = record {
  signature = share_signature;
  hdr_size = cast 32 l.header_bytes;
  q_start = 4096;
  q_size_elements = l.elements;
  q_size_bytes = l.queue_bytes;
  producer_count = 0;
  consumer_count = 0;
}

unfoldable pub is_compatible : Layout → Header → Bool
is_compatible l h =
    h.signature == share_signature
    && l.header_bytes == h.hdr_size
    && h.q_start == 4096
    && l.elements == h.q_size_elements
    && l.queue_bytes == h.q_size_bytes

-- What the system calls return: whether `open` succeeds, the header where `read` gives a whole one,
-- whether `ftruncate` returns 0, and the bytes that `write` wrote.
pub record Answers : Type 0 where
  pub opened : Bool
  pub found : Option Header
  pub truncated : Bool
  pub written : ℕ

-- `creates`: the queue is constructed in the file; `attaches`: it is used as it stands.
pub data Opening : Type 0 where
  exits : Opening
  throws : Opening
  creates : Header → Opening
  attaches : Header → Opening

-- `shared_mpmc_queue(fname)`
unfoldable pub open_shared : Layout → Answers → Opening
open_shared l a =
    if a.opened
    then elim a.found [
      | none ↦
          if not a.truncated
          then throws
          else if a.written == l.header_bytes
          then creates (new_header l)
          else throws
      | some h ↦ if is_compatible l h then attaches h else exits
    ]
    else exits

-- The counters are 32-bit words in two's complement.
unfoldable pub producers_inc : Header → Header
producers_inc h = record h { producer_count = cast 32 (h.producer_count + 1) }

unfoldable pub producers_dec : Header → Header
producers_dec h = record h { producer_count = cast 32 (h.producer_count + 2 ^ 32 - 1) }

unfoldable pub consumers_inc : Header → Header
consumers_inc h = record h { consumer_count = cast 32 (h.consumer_count + 1) }

unfoldable pub consumers_dec : Header → Header
consumers_dec h = record h { consumer_count = cast 32 (h.consumer_count + 2 ^ 32 - 1) }

-- `producer(sq)`, `~producer()`, `consumer(sq)`, `~consumer()`
pub data Visit : Type 0 where
  producer_comes : Visit
  producer_goes : Visit
  consumer_comes : Visit
  consumer_goes : Visit

unfoldable pub visit : Header → Visit → Header
visit h producer_comes = producers_inc h
visit h producer_goes = producers_dec h
visit h consumer_comes = consumers_inc h
visit h consumer_goes = consumers_dec h

unfoldable pub visits : Header → List Visit → Header
visits h [] = h
visits h (v ∷ vs) = visits (visit h v) vs

-- A counter, an `int32_t`, as a `size_t`.
abbrev pub widen : ℕ → ℕ
widen n = if ltb n (2 ^ 31) then n else n + 2 ^ 64 - 2 ^ 32

unfoldable pub get_producers_count : Header → ℕ
get_producers_count h = widen h.producer_count

unfoldable pub get_consumers_count : Header → ℕ
get_consumers_count h = widen h.consumer_count
