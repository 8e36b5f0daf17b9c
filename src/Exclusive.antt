-- ===== src/Exclusive.antt =====
-- The exclusive receive paths of src/queue.rs and src/mpsc.rs, for a thread that is alone: the one
-- receiver of a queue whose readers leave no marks.
pub mod Single
pub mod Pop
pub mod Ready
pub mod Taking
pub mod Batch
pub mod Batches
pub mod Trying
pub mod Waking
pub mod Many
pub mod RecvMany
pub mod RecvNone
pub mod RoundTrip
