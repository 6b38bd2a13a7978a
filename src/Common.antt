-- ===== src/Common.antt =====
-- walflux/common.py: the identifier and LSN helpers (the exception classes are in Prelude/Results).
pub mod Ident
pub mod Lsn
