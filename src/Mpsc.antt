-- ===== src/Mpsc.antt =====
-- src/mpsc.rs: the exclusive receiver. It shares the channel and the senders with src/lib.rs.
pub mod Receiver
pub mod Handles
