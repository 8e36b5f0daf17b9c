-- ===== src/Refine.antt =====
-- One thread alone on the queue of src/queue.rs: it is a FIFO.
pub mod Index
pub mod Holds
pub mod Claim
pub mod Fill
pub mod Install
pub mod Push
pub mod PushLast
pub mod Filling
pub mod Pushes
pub mod Pop
pub mod Finish
pub mod PopHolds
pub mod Head
pub mod Pops
pub mod Run
