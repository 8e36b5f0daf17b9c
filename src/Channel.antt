-- ===== src/Channel.antt =====
-- src/lib.rs, a module for each of its parts: the waiter lists, the shared channel, the handles,
-- and the two futures.
pub mod Waiters
pub mod Core
pub mod Handles
pub mod Futures
pub mod Errors
pub mod Sender
pub mod Receiver
pub mod Debug
