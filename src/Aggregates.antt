-- ===== src/Aggregates.antt =====
-- walflux/aggregates.py: view definitions and their SQL, delta accumulation, flush statements.
pub mod Spec
pub mod Sql
pub mod Delta
pub mod Batch
pub mod Statements
pub mod Measure
pub mod Totals
pub mod Weight
pub mod Shape
pub mod Plans
pub mod Emit
