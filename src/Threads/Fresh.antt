-- ===== src/Threads/Fresh.antt =====
-- The invariant of threads on one queue: what the index that a thread has read still says.
use native.Mathlib.Nat.{add-mod-mod, add-mul-mod_self_right, mod-mod, mod-lt, div-add-mod'}
use lockfree_mpmc_queue.Base.{
  ℕ, ◌+◌, ◌-◌, ◌*◌, ◌/◌, ◌%◌, ◌^◌, ◌≤◌, ◌<◌, ◌≡◌, refl, ap, ◌∙◌, List, length, ltb, if◌then◌else◌,
  arith, true,
}
use lockfree_mpmc_queue.Base.Word.{cast}
use lockfree_mpmc_queue.Fifo.{Fifo, next}
use lockfree_mpmc_queue.Queue.{Config, Queue, slot, Entry}
use lockfree_mpmc_queue.Queue.Shape.{Holds, cell, slot-cell, size_pos}
use lockfree_mpmc_queue.Threads.{
  Pc, push_read, push_swap, push_help, push_settle, pop_read, pop_swap, pop_help, pop_settle,
  look_read, look_help, pop_if_swap, empty_read, Step, silently,
}
use lockfree_mpmc_queue.Threads.History.{after, Permits}

-- The index word `w` was read when the index stood at `l`, not before it stood at `base`.
pub record IsRead (c : Config) (base top w l : ℕ) : Type 0 where
  pub word : w ≡ cast c.bits l
  pub since : base ≤ l
  pub passed : l ≤ top

-- Of a thread's locals: what it has read of the indexes, and whether it knows that the write or
-- read of that number is done.
abbrev pub IsFresh : Config → ℕ → ℕ → ℕ → Fifo → Pc → Type 0
IsFresh c base wr rd f (push_read d w) = (l : ℕ) × IsRead c base wr w l
IsFresh c base wr rd f (push_swap d w) = (l : ℕ) × IsRead c base wr w l
IsFresh c base wr rd f (push_help d w) = (l : ℕ) × IsRead c base wr w l × (l < next f)
IsFresh c base wr rd f (push_settle d w) = (l : ℕ) × IsRead c base wr w l × (l < next f)
IsFresh c base wr rd f (pop_read w) = (l : ℕ) × IsRead c base rd w l
IsFresh c base wr rd f (pop_swap w e) =
    (l : ℕ) × IsRead c base rd w l × (e.seq ≡ cast c.bits (l * 2 + 1))
IsFresh c base wr rd f (pop_help w) = (l : ℕ) × IsRead c base rd w l × (l < f.read)
IsFresh c base wr rd f (pop_settle w x) = (l : ℕ) × IsRead c base rd w l × (l < f.read)
IsFresh c base wr rd f (look_read k w) = (l : ℕ) × IsRead c base rd w l
IsFresh c base wr rd f (look_help k w) = (l : ℕ) × IsRead c base rd w l × (l < f.read)
IsFresh c base wr rd f (pop_if_swap g w e) =
    (l : ℕ) × IsRead c base rd w l × (e.seq ≡ cast c.bits (l * 2 + 1)) × (g e.item e.seq ≡ true)
IsFresh c base wr rd f (empty_read w) = (l : ℕ) × IsRead c base rd w l
IsFresh c base wr rd f p = Unit {0}

-- Fewer writes than half the range of an index, less two turns of the array, since any index that a
-- thread still goes by was read.
abbrev pub IsNear : Config → ℕ → Fifo → Type 0
IsNear c base f = next f * 2 + c.size * 4 ≤ base * 2 + 2 ^ c.bits

-- What a step of one thread must leave: the list of the event, and the thread's own locals fresh.
pub record Kept (c : Config) (base wr rd : ℕ) (f : Fifo) (t : Step) : Type 0 where
  pub wr' : ℕ
  pub rd' : ℕ
  pub wr_grows : wr ≤ wr'
  pub rd_grows : rd ≤ rd'
  pub config_is : t.queue.config ≡ c
  pub permits : Permits c f t.event
  pub holds : Holds t.queue (after c f t.event).read (after c f t.event).items wr' rd'
  pub fresh : IsFresh c base wr' rd' (after c f t.event) t.pc

-- The write that the slot of index `l` serves now.
serving : ℕ → ℕ → ℕ → ℕ
serving n h l = h + (l % n + n - h % n) % n

serving-mod : (n h l : ℕ) → 0 < n → serving n h l % n ≡ l % n
unfolding serving
serving-mod n h l pos =
    add-mod-mod h (l % n + n - h % n) n
    ∙ ap (λ t. t % n) whole
    ∙ add-mul-mod_self_right (l % n) (1 + h / n) n
    ∙ mod-mod l n
  where
    whole : h + (l % n + n - h % n) ≡ l % n + (1 + h / n) * n
    whole = omega (arith, div-add-mod' h n, mod-lt h pos)

-- The sequence number of a cell before it is cast.
abbrev pub cell_number : ℕ → List ℕ → ℕ → ℕ
cell_number h xs j = if ltb j (h + length xs) then j * 2 + 1 else j * 2

-- What a thread sees in the slot of an index, however old the index is.
pub record Sight (q : Queue) (h : ℕ) (xs : List ℕ) (l : ℕ) : Type 0 where
  pub at : ℕ
  pub from : h ≤ at
  pub below : at < h + q.size
  pub entry : slot q (cast q.bits l) ≡ cell q.config h xs at
  pub seq : (slot q (cast q.bits l)).seq ≡ cast q.bits (cell_number h xs at)

pub sight : {q : Queue} {h wr rd : ℕ} {xs : List ℕ} → Holds q h xs wr rd → (l : ℕ) → Sight q h xs l
unfolding serving
sight {q} {h} {xs = xs} v l = record {
  at = serving q.size h l;
  from = omega arith;
  below = low;
  entry = seen;
  seq = ap (λ (e : Entry). e.seq) seen ∙ ground arith;
}
  where
    low : serving q.size h l < h + q.size
    low = omega (arith, mod-lt (l % q.size + q.size - h % q.size) (size_pos v.shape))

    seen : slot q (cast q.bits l) ≡ cell q.config h xs (serving q.size h l)
    seen =
        slot-cell v l (serving q.size h l) (omega arith) low
          (serving-mod q.size h l (size_pos v.shape))

module _ {q : Queue} {f : Fifo} {base wr rd : ℕ} (v : Holds q f.read f.items wr rd) where
  -- A step that leaves the queue and the list as they are.
  pub Kept-silently :
      (p : Pc) → IsFresh q.config base wr rd f p → Kept q.config base wr rd f (silently q p)
  Kept-silently p fresh = record {
    wr' = wr;
    rd' = rd;
    wr_grows = omega arith;
    rd_grows = omega arith;
    config_is = refl;
    permits = tt;
    holds = v;
    fresh = fresh;
  }
