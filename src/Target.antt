-- ===== src/Target.antt =====
-- The target tables of walflux/aggregates.py in the database: what the statements of a flush make of them.
pub mod Texts
pub mod Table
pub mod Effects
pub mod Upserts
pub mod Cleanup
pub mod Plans
pub mod Flush
