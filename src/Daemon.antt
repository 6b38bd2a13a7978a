-- ===== src/Daemon.antt =====
-- walflux/daemon.py: from replication messages to committed batches.
pub mod Op
pub mod Source
pub mod Holds
pub mod Maintain
pub mod Incremental
pub mod State
pub mod Rows
pub mod Flush
pub mod Loop
pub mod Drift
pub mod Images
pub mod Emission
pub mod Sound
pub mod Bounds
pub mod Newer
pub mod ExactlyOnce
pub mod Sent
pub mod Refines
pub mod Run
pub mod Resume
