-- ===== src/Queue/Pop/Cases.antt =====
-- The tests of `pop` decide about the logical numbers behind the words.
use lockfree_mpmc_queue.Base.{ℕ, ◌+◌, ◌*◌, ◌/◌, ◌^◌, ◌<◌, ◌≡◌, ◌==◌, if◌then◌else◌, arith}
use lockfree_mpmc_queue.Base.Word.{cast, cast-==, cast-bit_or}
use lockfree_mpmc_queue.Queue.{Config}
use lockfree_mpmc_queue.Queue.Shape.{
  IsShape, size_small, size_pos, empty_seq-cast, full_seq-cast, full_seq-cast-add,
}
use lockfree_mpmc_queue.Queue.Pop.{PopCase, take, help, refuse, reload, pop_case}

-- The same choice on numbers that do not wrap.
abbrev pub pop_choice : ℕ → ℕ → ℕ → PopCase
pop_choice n l s =
    if s == l * 2 + 1
    then take
    else if s / 2 * 2 + 1 == (l + n) * 2 + 1
    then help
    else if s == l * 2
    then refuse
    else reload

pub pop_case-cast :
    {c : Config} (l s : ℕ)
    → IsShape c
    → s < l * 2 + 2 ^ c.bits
    → (l + c.size) * 2 + 1 < s + 2 ^ c.bits
    → pop_case c (cast c.bits l) (cast c.bits s) ≡ pop_choice c.size l s
unfolding pop_case
pop_case-cast {c} l s shape near far =
    let pos = size_pos shape in
    let small = size_small shape in
    rw (
      empty_seq-cast,
      full_seq-cast,
      full_seq-cast-add,
      cast-bit_or c.bits s (omega arith),
      cast-== c.bits s (l * 2) (omega arith) (omega arith),
      cast-== c.bits s (l * 2 + 1) (omega arith) (omega arith),
      cast-== c.bits (s / 2 * 2 + 1) ((l + c.size) * 2 + 1) (omega arith) (omega arith),
    )
