-- ===== src/Lib.antt =====
-- The lock-free queues of this repository: bounded first-in first-out queues between any number of
-- producers and consumers, built on two index words and an array of entries, each of which carries
-- the sequence of its turn. The development models mpmc_queue.h, with its data, every operation of
-- the class but printing, and threads that interleave inside `push`, `pop`, `peek`, `pop_if` and
-- `empty`; and the three classes built on it, mpmc_queue_pack.h, pointer_mpmc_queue.h and
-- shared_mpmc_queue.h, with src/hash_signature.h, which the test programs use. On top of them
-- stand the programs that drive a queue from many threads: src/mpmc_queue_timing.h with
-- src/q_bandwidth.cpp, src/pack_benchmark.cpp and src/example2.cpp, and the tests of
-- src/gtest_mpmc_queue.cpp.
--
-- The parts and their files:
--   Base: the libraries' names and the lemmas on lists (Base/Lists), words (Base/Word), masks
--     (Base/Bits), tests (Base/Tests) and `while (true)` loops (Base/Loop) that the components
--     share.
--   Fifo: what a queue promises, a list of bounded length in which every element has a number.
--     It models no code.
--   Queue: the data of mpmc_queue.h. `Config` is the template's parameters with the array's
--     size, `Entry` the machine value of a slot, `Queue` the object; `slot`, `compare_exchange`,
--     `advance_write` and `advance_read` are its atomic accesses. Queue/Words is the class `entry`
--     as the machine word that is compared and exchanged. Queue/Shape and Queue/Serves relate the
--     words of memory to the numbers they stand for and to a list; Queue/Atomic says what an
--     access does to that relation.
--   Queue/Push, Queue/Pop: `push` and `pop`, both overloads. One pass of the `while (true)` is a
--     function, which tests the sequence of the slot as the code does (`push_case`, `pop_case`).
--   Queue/Init: the constructor with its checks of the size. Queue/Peek: `peek` and `pop_if`.
--     Queue/Calls: `push_keep_n`, `consume`, the destructor, `enqueue`, `dequeue`. Queue/Glance:
--     `exchange`, `empty`, `size`, `capacity`.
--   Queue/Client: any sequence of calls of one client.
--   Threads: the same `push` and `pop`, with `peek`, `pop_if` and `empty`, cut at each access to
--     shared memory. A `System` is the memory and where every thread stands; `execute` runs any
--     schedule of turns and calls. Threads/Fresh is the invariant of one thread's local variables,
--     Threads/Producer, Consumer, Sights and Looker are about the steps of each call, Threads/Safe
--     is the invariant of the system; Threads/Returns says what the caller of each call is told,
--     Threads/Honest and Threads/Told relate that to the history; Threads/Alone is about a thread
--     with no other between its steps, and Threads/History says which histories a list permits.
--   Pack: mpmc_queue_pack.h. A `Pack` is its array of queues and counters; `consumer_pop` is
--     `consumer::pop` with its scan of the other queues. Pack/Served relates a pack to one list
--     for each queue, Pack/Takes is about `pop`, Pack/Starts about the constructors and `push`,
--     Pack/Overloads about `push` with the index, Pack/Shared makes a pack with a producer and a
--     consumer for each thread a service, and Pack/Whole is about any calls on a new pack.
--   Pointer: pointer_mpmc_queue.h. A `unique_ptr` is an address, 0 for none, and each operation
--     says what it deletes.
--   Shared: shared_mpmc_queue.h, the decision to create, attach or refuse (`open_shared`), given
--     what the system calls return, and the counters of the header. Shared/Mapped is the file as
--     its producers and consumers use it, and Shared/Answered says what they are answered.
--   Hash: src/hash_signature.h, its two `add` functions.
--   Service: what those programs use of a queue, operations with the laws that make them keep
--     their elements. Service/Queues makes the queue of mpmc_queue.h one; Service/Lines is what a
--     program uses that relies on the order; Service/Calls is about any sequence of calls,
--     Service/Totals about sums over threads.
--   Bandwidth: src/mpmc_queue_timing.h, `QBandwidth::run`. `writer_step`, `reader_step` and
--     `main_step` are the steps of its three kinds of threads. Bandwidth/Fair is the invariant of
--     a run; Writes, Reads and Leads with Moves are about the steps; Stages, Places and Phases are
--     about where threads stand, and Result is about the end.
--   Timing: src/mpmc_queue_timing.h, `QTiming::run`, with the clock's answers from the
--     scheduler: its first rounds (WarmUp) and the array of its reader (Bounds).
--   TestApp: src/q_bandwidth.cpp, its options (`args`), the queue that each choice builds
--     (`run_sized`, `run_app`) and the program's ending (Expected is what a command line asks
--     for). Whether the main thread of a run waits too long and aborts is given (`Machine`).
--   Relay: src/example2.cpp. Relay/Kept is its invariant, Relay/Steps is about a thread's steps,
--     Relay/Sums about the end.
--   PackBench: src/pack_benchmark.cpp, `bw_benchmark`, with its sums (Kept, Sums) and its wait
--     at the start (Late, Stuck).
--   Gtest: src/gtest_mpmc_queue.cpp. Its tests of one thread are functions of a queue:
--     Gtest/Counting and Rounds are about their loops, Fills, FullEmpty, KeepsN and Singles about
--     the tests, Values about those of other types and of src/hash_signature.h, Sizes about those
--     that go through many sizes. Gtest/Streams is the test hash3 with its threads: Kept is its
--     invariant, Makers, Changes and Takers are about the threads' steps, Result is about the end.
--     Gtest/InOut is the test HashInputOutput, and Gtest/Merge the test hash2, whose comparison
--     relies on the queue's order.
--   Tests: concrete queues, and each theorem at one of them.
--
-- Values: an index is a word of `Config.bits` bits, with its wrap-around written out as a
-- remainder, so every size, width and starting point is covered and the indexes wrap. An element
-- is a number, since the code moves it and compares it but looks no further. The static assertions
-- on the size of an entry become the condition that a slot number leaves two bits of the index.
--
-- Loops: a `while (true)` runs on fuel and gives `none` where the fuel runs out. Without other
-- threads two rounds of `push` and `pop` are enough, which is a theorem, and the calls built on
-- them take one round for each element and one more. The schedule theorems have no fuel, since a
-- schedule is a list of steps; their bound on its length keeps a delayed thread from meeting its
-- own sequence again after the index has gone round, which is the ABA limit of the algorithm.
--
-- In Bandwidth, Timing, Relay, PackBench, Gtest/Streams, Gtest/Merge and Gtest/InOut a call of the
-- queue is one step, and every other access to what the threads share is a step of its own, in any
-- order. Their counters and sums are words of the source's widths. A call that runs out of fuel
-- would be no step, which the laws of a service exclude.
--
-- Memory is sequentially consistent: every atomic operation of the source has the default order.
-- The slot's sequence is read by the source without an atomic load, which the model takes as one
-- access.
--
-- Not modelled: printing (`dump_state`, `operator<<`, `print`), the mapping of a file into memory,
-- and exceptions of the allocator. `push_keep_n`, `consume`, `exchange`, `size` and the destructor
-- are modelled without other threads. Of the programs, what they print, the clock and the
-- comparison with boost's queue are left out, with src/example1.cpp, whose loops are those of
-- src/example2.cpp, and the list of runs in the `main` of src/pack_benchmark.cpp. Of
-- src/gtest_mpmc_queue.cpp the frame of the test library and its `main` are left out. The other
-- test programs, the reports and the scripts are not modelled.
pub mod Bandwidth
pub mod Base
pub mod Fifo
pub mod Gtest
pub mod Hash
pub mod Pack
pub mod PackBench
pub mod Pointer
pub mod Queue
pub mod Relay
pub mod Service
pub mod Shared
pub mod TestApp
pub mod Tests
pub mod Threads
pub mod Timing
