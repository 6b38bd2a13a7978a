-- ===== src/Bootstrap/Setup.antt =====
-- walflux/bootstrap.py: `setup` and `teardown` as a whole.
use walflux_postgres_increme.Prelude.{
  Bool, List, Text, Error, Result, setup_error, insufficient_privilege,
}
use walflux_postgres_increme.Prelude.Int.{ℤ}
use walflux_postgres_increme.Common.Ident.{quote_ident}
use walflux_postgres_increme.Common.Lsn.{parse_lsn}
use walflux_postgres_increme.Config.{Config}
use walflux_postgres_increme.Checkpoint.{ensure_checkpoint_table, write_checkpoint}
use walflux_postgres_increme.Database.Command.{
  Command, Answer, close, close_replication, delete_checkpoint, begin, set_snapshot, commit,
  find_walsender, drop_publication, drop_schema,
}
use walflux_postgres_increme.Database.Session.{
  Session, pure, raise, lift, ◌>>=◌, ◌>>◌, catch, finally, execute, when_repl_conn,
}
use walflux_postgres_increme.Bootstrap.Checks.{
  connect_regular, connect_walsender, check_server_version, check_wal_level, ensure_sources,
  ensure_publication,
}
use walflux_postgres_increme.Bootstrap.Slot.{prepare_slot, create_replication_slot, remove_slot}
use walflux_postgres_increme.Bootstrap.Populate.{populate_all}

-- `except psycopg2.errors.InsufficientPrivilege as exc: raise SetupError`
abbrev pub hint_privilege : Error → Error
hint_privilege insufficient_privilege = setup_error
hint_privilege e = e

module _ {D : Type 0} (server : (c : Command) → D → Result (Answer c) × D) where
  -- step 1
  abbrev pub prepare : Config → Bool → Session D Unit
  prepare config force = do
    check_server_version server
    check_wal_level server
    ensure_sources server config.views
    ensure_checkpoint_table server
    ensure_publication server config
    prepare_slot server config.slot force
    execute server (delete_checkpoint config.slot)

  -- step 3, with the consistent point and the snapshot of the slot
  abbrev pub fill : Config → Text → Text → Session D (List (Text × ℤ))
  fill config consistent_point snapshot_name = do
    execute server begin
    execute server (set_snapshot snapshot_name)
    backfilled ← populate_all server config.views
    lsn ← lift (parse_lsn consistent_point)
    write_checkpoint server config.slot lsn
    execute server commit
    pure backfilled

  -- the body of the `try`; what it gives is what `setup` prints
  abbrev pub handshake : Config → Bool → Session D (Text × List (Text × ℤ))
  handshake config force = do
    prepare config force
    connect_walsender server
    row ← create_replication_slot server config.slot
    backfilled ← fill config row.0 row.1
    pure (row.0, backfilled)

  abbrev pub close_all : Session D Unit
  close_all = do when_repl_conn (execute server close_replication); execute server close

  abbrev pub setup : Config → Bool → Session D (Text × List (Text × ℤ))
  setup config force = do
    connect_regular server
    finally (catch (handshake config force) (λ e. raise (hint_privilege e))) close_all

  abbrev pub removal : Config → Session D Unit
  removal config = do
    found ← execute server (find_walsender config.slot)
    remove_slot server config.slot found
    name ← lift (quote_ident config.publication)
    execute server (drop_publication name)
    execute server drop_schema

  abbrev pub teardown : Config → Session D Unit
  teardown config = do connect_regular server; finally (removal config) (execute server close)
