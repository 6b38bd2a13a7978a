-- ===== src/Tests.antt =====
-- Concrete inputs for the theorems of the other modules.
mod Sample
mod Wire
mod Batches
mod Stream
mod Sessions
mod Documents
mod Tables
mod Flushes
mod Setups
mod Feedback
mod Verify
mod Runs
