-- ===== src/Parked.antt =====
-- The waiter lists of src/lib.rs: their invariant, and what a notification and an unregistration do.
pub mod Entries
pub mod Invariant
pub mod Leaving
pub mod Wakes
