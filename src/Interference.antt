-- ===== src/Interference.antt =====
-- What holds of an operation whatever the other threads do between its accesses, as long as they keep
-- to what the code of the source keeps to.
pub mod After
pub mod Rely
pub mod Capacity
pub mod Claims
pub mod Exchanges
pub mod Unbounded
pub mod Polling
pub mod Parking
pub mod Shrinking
pub mod Attempts
pub mod Singles
pub mod Ending
pub mod Popping
