-- ===== src/Queue.antt =====
-- src/queue.rs, a module for each group of its functions. Functions with a loop take fuel.
pub mod Backoff
pub mod Memory
pub mod Pool
pub mod Claim
pub mod Push
pub mod Pop
pub mod Single
pub mod Observe
pub mod Teardown
