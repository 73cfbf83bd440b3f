-- ===== src/Bandwidth/Phases.antt =====
-- How many threads a run has room for, and what `_state` says of the main thread.
use lockfree_mpmc_queue.Base.{◌+◌, ◌^◌, ◌≤◌, ◌<◌, ◌≡◌, refl, arith}
use lockfree_mpmc_queue.Bandwidth.{
  Setup, Main, clearing, gathering, gathering_producers, opening, closing, awaiting_producers,
  finishing, awaiting_consumers, adding, done, aborted,
}
use lockfree_mpmc_queue.Bandwidth.Stages.{phase, state_at}

-- Few enough threads for the counters, and someone to read.
pub record IsFit (u : Setup) : Type 0 where
  pub few_producers : u.producers + 1 < 2 ^ 32
  pub few_consumers : u.consumers + 1 < 2 ^ 32
  pub some_consumer : 0 < u.consumers

-- `_state` says how far the main thread is.
pub state_at_early : (m : Main) → phase m ≤ 3 → state_at m ≡ 0
state_at_early clearing h = refl
state_at_early gathering h = refl
state_at_early gathering_producers h = refl
state_at_early opening h = refl
state_at_early closing h = absurd (omega arith)
state_at_early awaiting_producers h = absurd (omega arith)
state_at_early finishing h = absurd (omega arith)
state_at_early awaiting_consumers h = absurd (omega arith)
state_at_early adding h = absurd (omega arith)
state_at_early (done a b) h = absurd (omega arith)
state_at_early aborted h = absurd (omega arith)

pub state_at_late : (m : Main) → 3 ≤ state_at m → 7 ≤ phase m
state_at_late clearing h = absurd (omega arith)
state_at_late gathering h = absurd (omega arith)
state_at_late gathering_producers h = absurd (omega arith)
state_at_late opening h = absurd (omega arith)
state_at_late closing h = absurd (omega arith)
state_at_late awaiting_producers h = absurd (omega arith)
state_at_late finishing h = absurd (omega arith)
state_at_late awaiting_consumers h = omega arith
state_at_late adding h = omega arith
state_at_late (done a b) h = omega arith
state_at_late aborted h = omega arith
