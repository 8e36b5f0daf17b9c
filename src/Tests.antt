-- ===== src/Tests.antt =====
-- Concrete runs of the model, and the main theorems at concrete inputs.
mod Runs
mod Channel
mod Interference
mod Queue
mod Teardown
mod Exclusive
mod Backoff
mod Backpressure
mod Threads
mod Racing
mod Retired
