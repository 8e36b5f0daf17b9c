-- ===== src/Threads.antt =====
-- Threads of src/queue.rs that interleave: any number of calls over one shared state, one access of
-- one of them at a time.
pub mod Program
pub mod Runs
pub mod At
pub mod System
pub mod Claim
pub mod ClaimRuns
pub mod Pop
pub mod Push
pub mod PushRuns
pub mod PopRuns
pub mod Roles
pub mod Still
pub mod Consuming
pub mod Admitting
pub mod Filling
pub mod Indices
pub mod Accesses
pub mod Capacity
pub mod Phases
pub mod Seeking
pub mod Tables
pub mod Positions
pub mod Claims
