-- ===== src/Database.antt =====
-- The database connection of psycopg2 as the modules of walflux/ use it: what they ask of it, and code
-- that runs over it.
pub mod Command
pub mod Session
