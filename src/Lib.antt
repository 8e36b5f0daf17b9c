-- ===== src/Lib.antt =====
-- rapidfire: an async channel with many producers, and many consumers or one, over a queue of linked
-- blocks. This library models src/queue.rs, src/lib.rs and src/mpsc.rs and verifies them.
--
-- The parts, and how they interact. A channel is one shared `Inner` (src/lib.rs): the queue
-- (src/queue.rs), the flags, two lists of parked wakers. The handles and futures of src/lib.rs and
-- src/mpsc.rs are clients of it: they push and pop, register and unregister waiters, and wake the
-- waiters of the other side when an operation says so.
--
-- Sync      one thread's accesses to shared memory: a call is an action on a `World`, which is the
--           shared state and a schedule. Before each access the schedule's next event may change
--           the shared state as other threads would, or make a weak compare-exchange fail; the empty
--           schedule is a thread that is alone. Memory is sequentially consistent: the orderings
--           that the source chooses are not modelled. An outcome tells a return from a loop that
--           ran out of fuel, undefined behaviour and a panic.
-- Layout    the constants, tags and position arithmetic of src/queue.rs, for the default build
--           (LAP_SHIFT = 6) and 64-bit words.
-- Shared    the structs of src/queue.rs and src/lib.rs. Blocks live in a memory from addresses to
--           blocks; the null pointer is `none`.
-- Queue     the functions of src/queue.rs: Backoff (with Bounds), Memory (blocks and their cells), Pool
--           (take_block, recycle), Claim (the three claims of producers), Push, Pop, Single (the
--           exclusive consumer), Observe (new, len, the parking accesses), Teardown (Drop).
-- Channel   src/lib.rs: Waiters (WaiterList), Core (Inner), Handles (constructors, Clone, Drop),
--           Sender and Receiver (the methods that only call Inner), Debug (what they show),
--           Futures (Send and Recv with poll and Drop), Errors (the methods and texts of the errors).
-- Mpsc      src/mpsc.rs: Receiver (the exclusive receiver and recv_many), Handles (the rest).
-- Fifo      the specification of the queue.
-- Refine    the proof that a thread that is alone sees the FIFO: Index (positions of values), Holds
--           (when a queue holds a list), Claim to Pushes for push, Pop to Pops for pop, Run for
--           sequences of calls.
-- Parked    the waiter lists: Invariant (kept by every access of any thread), Leaving (a list
--           without an entry), Wakes (what a notification, an unregistration and a closing wake,
--           for a thread that is alone).
-- Sequential  the channel for a thread that is alone: Observe, Trying, Waiting, Sending, Handover,
--           Backpressure, Closing, Draining, Cancelling.
-- Release   the drop of the queue: Values (what it drops), Blocks (what it releases).
-- Exclusive  src/mpsc.rs and the exclusive receive paths of src/queue.rs for a thread that is alone:
--           Single and Pop (pop_single), Ready, Batch, Taking and Batches (pop_single_batch), Trying
--           (try_recv, Recv::poll), Waking (one batch of recv_many and the senders it wakes), Many,
--           RecvMany and RecvNone (recv_many), RoundTrip (try_send, then recv_many).
-- Interference  operations between whose accesses other threads act: After (postconditions), Rely
--           (what the other threads keep to), Capacity (claim_bounded), Claims,
--           Exchanges and Unbounded (claim_fetch_add, claim_cas),
--           Polling and Parking (the loop of a receive poll), Ending and
--           Popping (the loop of a pop), Shrinking (that a call only uses the schedule up), Attempts
--           and Singles (one attempt of each receiver).
-- Threads   threads whose accesses interleave: Program (a call as a tree of accesses), Runs (how a
--           program is a call of Sync), System (the step relation), Claim (the claims as programs)
--           and ClaimRuns (that they are the claims of Queue), Phases and Seeking (how a claim moves
--           the tail), Tables, Positions and Claims (the positions of any number of threads);
--           Push and Pop (as programs), At, PushRuns and PopRuns (that they are those of Queue),
--           Roles, Still, Consuming, Admitting and Filling (how they move the indices), Indices,
--           Accesses and Capacity (the indices under any number of pushes and pops).
-- Tests     runs by evaluation, and the main theorems at concrete inputs.
--
-- Fuel and bounds. Loops that other threads can prolong take fuel, and `starved` is its end; for a
-- thread that is alone two rounds are enough for a claim and one for a pop, and the theorems say so.
-- `recv_many` takes fuel for its limit. Where other threads act, a claim takes fuel for three rounds
-- and three more for each of their events, a pop for two rounds for each of their events and 74 more,
-- and the loop of a receive for the 72 steps of its backoff. Positions wrap modulo 2 ^ 64 as in the
-- source; the theorems ask that the tail is not within a few hundred positions of the end, and those
-- on threads that the run is too short for the indices to wrap.
--
-- Not modelled: memory orderings, the spinning itself, `Arc`, the layout of the texts of `Debug`
-- and of the debugging dump, the allocator itself, and the `loom`, `fcrs_small_blocks` and other
-- experimental builds. What a thread does while it holds a mutex is one access. So are the reads of
-- the read marks of the retired blocks that `take_block_slow` looks through with its lock held,
-- which other threads may set meanwhile. A `next` that is null where `finish_block` needs a block
-- faults there, where the source has a debug assertion: a release build would store the null
-- pointer and fault later. Wakers are std's: their type is a parameter, `will_wake` is an argument,
-- and the calls of `wake` are recorded. Where threads interleave, the theorems are about the
-- indices, the claims and the end of the loops, and not about which values the pops take.
pub mod Prelude
pub mod Sync
pub mod Layout
pub mod Shared
pub mod Queue
pub mod Channel
pub mod Mpsc
pub mod Fifo
pub mod Refine
pub mod Release
pub mod Exclusive
pub mod Parked
pub mod Sequential
pub mod Interference
pub mod Threads
mod Tests
