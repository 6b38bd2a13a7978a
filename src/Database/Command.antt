-- ===== src/Database/Command.antt =====
-- What walflux/bootstrap.py, walflux/checkpoint.py and walflux/daemon.py ask of psycopg2 and PostgreSQL: a data type of
-- commands beside the SQL text and the parameters of each, and what `fetchone`, `fetchall` or
-- `rowcount` gives afterwards, `Answer`.
use walflux_postgres_increme.Prelude.{Option, Bool, List, [], ◌∷◌, ◌++◌, Text, codes, Error}
use walflux_postgres_increme.Prelude.Int.{ℤ}
use walflux_postgres_increme.Value.{Value}
use walflux_postgres_increme.Aggregates.Spec.{Num}
use walflux_postgres_increme.Aggregates.Statements.{Param, value, number}

-- A slot, publication or table in a statement text is already quoted; a parameter is not.
pub data Command : Type 0 where
  connect connect_replication close close_replication : Command
  show_version_num show_version show_wal_level : Command
  find_source : Text → Text → Command
  set_identity_full : Text → Text → Command
  create_schema create_checkpoint_table : Command
  find_publication : Text → Command
  create_publication set_publication : Text → Text → Command
  find_slot : Text → Command
  drop_slot : Text → Command
  delete_checkpoint : Text → Command
  create_slot : Text → Command
  begin : Command
  set_snapshot : Text → Command
  find_columns : Text → Text → Command
  ddl : Text → Command
  backfill : Text → Command
  upsert_checkpoint : Text → ℤ → Command
  select_checkpoint : Text → Command
  commit : Command
  find_walsender : Text → Command
  terminate_backend : ℤ → Command
  drop_publication : Text → Command
  drop_schema : Command
  sleep : Command
  rollback open_stream close_stream : Command
  find_slot_status : Text → Command
  find_current_lsn : Command
  count_rows : Text → Command

-- Connecting, and starting a stream, gives the text of an `OperationalError` if it is refused.
abbrev pub Answer : Command → Type 0
Answer connect = Option Text
Answer connect_replication = Option Text
Answer show_version_num = Text
Answer show_version = Text
Answer show_wal_level = Text
Answer (find_source _ _) = Option Text
Answer (find_publication _) = Bool
Answer (find_slot _) = Option (Bool × Option ℤ)
Answer (create_slot _) = Option (Text × Text)
Answer (find_columns _ _) = List (Text × Text)
Answer (backfill _) = ℤ
Answer (select_checkpoint _) = Option ℤ
Answer (find_walsender _) = Option (Option ℤ)
Answer close = Unit
Answer close_replication = Unit
Answer (set_identity_full _ _) = Unit
Answer create_schema = Unit
Answer create_checkpoint_table = Unit
Answer (create_publication _ _) = Unit
Answer (set_publication _ _) = Unit
Answer (drop_slot _) = Unit
Answer (delete_checkpoint _) = Unit
Answer begin = Unit
Answer (set_snapshot _) = Unit
Answer (ddl _) = Unit
Answer (upsert_checkpoint _ _) = Unit
Answer commit = Unit
Answer (terminate_backend _) = Unit
Answer (drop_publication _) = Unit
Answer drop_schema = Unit
Answer sleep = Unit
Answer rollback = Unit
Answer open_stream = Option Text
Answer close_stream = Unit
Answer (find_slot_status _) = Option (Bool × Option Text × Option Text × Option ℤ)
Answer find_current_lsn = Text
Answer (count_rows _) = ℤ

abbrev text : Text → Param
text t = value (Value.text t)

abbrev line : Text → Text
line t = t ++ 10 ∷ []

-- The argument of `execute`: the statement text and its parameters, by the code that executes it. A
-- command of another part of the code, and connecting, closing, streaming, rolling back and sleeping,
-- which execute nothing, have an empty text.

-- The statements of walflux/checkpoint.py.
abbrev pub render_checkpoint : Command → Text × List Param
render_checkpoint create_schema = (codes "CREATE SCHEMA IF NOT EXISTS walflux", [])
render_checkpoint create_checkpoint_table = (
  line (codes "CREATE TABLE IF NOT EXISTS walflux.checkpoint (")
      ++ line (codes "  slot        text PRIMARY KEY,")
      ++ line (codes "  commit_lsn  bigint NOT NULL,")
      ++ line (codes "  updated_at  timestamptz NOT NULL DEFAULT now()")
      ++ codes ")",
  [],
)
render_checkpoint (upsert_checkpoint slot lsn) = (
  codes "INSERT INTO walflux.checkpoint (slot, commit_lsn, updated_at) "
      ++ codes "VALUES (%s, %s, now()) "
      ++ codes
          "ON CONFLICT (slot) DO UPDATE SET commit_lsn = EXCLUDED.commit_lsn, updated_at = now()",
  text slot ∷ number (Num.int lsn) ∷ [],
)
render_checkpoint (select_checkpoint slot) =
    (codes "SELECT commit_lsn FROM walflux.checkpoint WHERE slot = %s", text slot ∷ [])
render_checkpoint _ = ([], [])

-- The statements of `setup` itself.
abbrev pub render_setup : Command → Text × List Param
render_setup (delete_checkpoint slot) =
    (codes "DELETE FROM walflux.checkpoint WHERE slot = %s", text slot ∷ [])
render_setup (create_slot slot) =
    (codes "CREATE_REPLICATION_SLOT " ++ slot ++ codes " LOGICAL pgoutput EXPORT_SNAPSHOT", [])
render_setup begin = (codes "BEGIN ISOLATION LEVEL REPEATABLE READ", [])
render_setup (set_snapshot snapshot) = (codes "SET TRANSACTION SNAPSHOT %s", text snapshot ∷ [])
render_setup (ddl statement) = (statement, [])
render_setup (backfill statement) = (statement, [])
render_setup commit = (codes "COMMIT", [])
render_setup _ = ([], [])

-- The statements of the functions that `setup` calls.
abbrev pub render_checks : Command → Text × List Param
render_checks show_version_num = (codes "SHOW server_version_num", [])
render_checks show_version = (codes "SHOW server_version", [])
render_checks show_wal_level = (codes "SHOW wal_level", [])
render_checks (find_source schema table) = (
  codes "SELECT c.relreplident FROM pg_class c "
      ++ codes "JOIN pg_namespace n ON n.oid = c.relnamespace "
      ++ codes "WHERE n.nspname = %s AND c.relname = %s AND c.relkind = 'r'",
  text schema ∷ text table ∷ [],
)
render_checks (set_identity_full schema table) =
    (codes "ALTER TABLE " ++ schema ++ codes "." ++ table ++ codes " REPLICA IDENTITY FULL", [])
render_checks (find_publication name) =
    (codes "SELECT 1 FROM pg_publication WHERE pubname = %s", text name ∷ [])
render_checks (create_publication name tables) =
    (codes "CREATE PUBLICATION " ++ name ++ codes " FOR TABLE " ++ tables, [])
render_checks (set_publication name tables) =
    (codes "ALTER PUBLICATION " ++ name ++ codes " SET TABLE " ++ tables, [])
render_checks (find_slot slot) = (
  codes "SELECT active, active_pid FROM pg_replication_slots WHERE slot_name = %s",
  text slot ∷ [],
)
render_checks (drop_slot slot) = (codes "SELECT pg_drop_replication_slot(%s)", text slot ∷ [])
render_checks (find_columns schema table) = (
  codes "SELECT a.attname, format_type(a.atttypid, a.atttypmod) "
      ++ codes "FROM pg_attribute a "
      ++ codes "JOIN pg_class c ON c.oid = a.attrelid "
      ++ codes "JOIN pg_namespace n ON n.oid = c.relnamespace "
      ++ codes "WHERE n.nspname = %s AND c.relname = %s AND c.relkind = 'r' "
      ++ codes "AND a.attnum > 0 AND NOT a.attisdropped",
  text schema ∷ text table ∷ [],
)
render_checks _ = ([], [])

-- The statements of `teardown`.
abbrev pub render_teardown : Command → Text × List Param
render_teardown (find_walsender slot) =
    (codes "SELECT active_pid FROM pg_replication_slots WHERE slot_name = %s", text slot ∷ [])
render_teardown (terminate_backend pid) =
    (codes "SELECT pg_terminate_backend(%s)", number (Num.int pid) ∷ [])
render_teardown (drop_publication name) = (codes "DROP PUBLICATION IF EXISTS " ++ name, [])
render_teardown drop_schema = (codes "DROP SCHEMA IF EXISTS walflux CASCADE", [])
render_teardown _ = ([], [])

-- The statements of `status`.
abbrev pub render_status : Command → Text × List Param
render_status (find_slot_status slot) = (
  codes "SELECT active, restart_lsn::text, confirmed_flush_lsn::text, "
      ++ codes "pg_wal_lsn_diff(pg_current_wal_lsn(), confirmed_flush_lsn)::bigint "
      ++ codes "FROM pg_replication_slots WHERE slot_name = %s",
  text slot ∷ [],
)
render_status find_current_lsn = (codes "SELECT pg_current_wal_lsn()::text", [])
render_status (count_rows name) = (codes "SELECT count(*) FROM walflux." ++ name, [])
render_status _ = ([], [])

-- A command that was answered, or that raised.
pub data Event : Type 0 where
  done : (c : Command) → Answer c → Event
  failed : Command → Error → Event
