-- ===== src/Sequential.antt =====
-- The channel of src/lib.rs as one thread sees it that is alone: its calls against the FIFO.
pub mod Observe
pub mod Attempt
pub mod Trying
pub mod Withdrawn
pub mod Waiting
pub mod Sending
pub mod Handover
pub mod Backpressure
pub mod Closing
pub mod Draining
pub mod Cancelling
