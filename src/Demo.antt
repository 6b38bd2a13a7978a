-- ===== src/Demo.antt =====
-- demo/verify.py: the check of the target tables against fresh GROUP BY queries.
pub mod Queries
pub mod Views
pub mod Fields
pub mod Agree
pub mod Cells
pub mod Report
pub mod Compare
pub mod Pass
pub mod Verdict
pub mod Catchup
