-- ===== src/Queue/Push/Cases.antt =====
-- The tests of `push` decide about the logical numbers behind the words.
use native.Mathlib.Nat.{mod-add-mod}
use lockfree_mpmc_queue.Base.{ℕ, ◌+◌, ◌*◌, ◌^◌, ◌<◌, ◌≡◌, ◌||◌, ◌==◌, if◌then◌else◌, arith, ◌≤◌}
use lockfree_mpmc_queue.Base.Word.{cast, cast-==}
use lockfree_mpmc_queue.Queue.{Config}
use lockfree_mpmc_queue.Queue.Shape.{
  IsShape, size_small, size_pos, empty_seq-cast, empty_seq-cast-add, full_seq-cast,
}
use lockfree_mpmc_queue.Queue.Push.{PushCase, insert, help, refuse, reload, push_case}

-- The same choice on numbers that do not wrap.
abbrev pub push_choice : ℕ → ℕ → ℕ → PushCase
push_choice n l s =
    if s == l * 2
    then insert
    else if s == l * 2 + 1 || s == (l + n) * 2
    then help
    else if s + n * 2 == l * 2 + 1
    then refuse
    else reload

pub push_case-cast :
    {c : Config} (l s : ℕ)
    → IsShape c
    → s + c.size * 2 ≤ l * 2 + 2 ^ c.bits
    → (l + c.size) * 2 < s + 2 ^ c.bits
    → push_case c (cast c.bits l) (cast c.bits s) ≡ push_choice c.size l s
unfolding push_case
push_case-cast {c} l s shape near far =
    let pos = size_pos shape in
    let small = size_small shape in
    rw (
      empty_seq-cast,
      full_seq-cast,
      empty_seq-cast-add,
      mod-add-mod,
      cast-== c.bits s (l * 2) (omega arith) (omega arith),
      cast-== c.bits s (l * 2 + 1) (omega arith) (omega arith),
      cast-== c.bits s ((l + c.size) * 2) (omega arith) (omega arith),
      cast-== c.bits (s + c.size * 2) (l * 2 + 1) (omega arith) (omega arith),
    )
