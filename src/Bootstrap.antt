-- ===== src/Bootstrap.antt =====
-- walflux/bootstrap.py: `setup` and `teardown`.
pub mod Checks
pub mod Slot
pub mod Columns
pub mod Populate
pub mod Setup
pub mod Durable
pub mod Triple
pub mod Calm
pub mod Filling
pub mod Safe
pub mod Retry
pub mod Ends
pub mod Removal
