-- ===== src/Release.antt =====
-- The drop of the queue of src/queue.rs: what it drops and what it frees.
pub mod Values
pub mod Blocks
