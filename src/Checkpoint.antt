-- ===== src/Checkpoint.antt =====
-- walflux/checkpoint.py: the checkpoint table.
use walflux_postgres_increme.Prelude.{Option, Text, Result}
use walflux_postgres_increme.Prelude.Int.{ℤ}
use walflux_postgres_increme.Database.Command.{
  Command, Answer, create_schema, create_checkpoint_table, upsert_checkpoint, select_checkpoint,
}
use walflux_postgres_increme.Database.Session.{Session, ◌>>◌, execute}

module _ {D : Type 0} (server : (c : Command) → D → Result (Answer c) × D) where
  -- the two statements of `CHECKPOINT_DDL`
  abbrev pub ensure_checkpoint_table : Session D Unit
  ensure_checkpoint_table = do execute server create_schema; execute server create_checkpoint_table

  -- `int(row[0]) if row is not None else None`
  abbrev pub read_checkpoint : Text → Session D (Option ℤ)
  read_checkpoint slot = execute server (select_checkpoint slot)

  abbrev pub write_checkpoint : Text → ℤ → Session D Unit
  write_checkpoint slot lsn = execute server (upsert_checkpoint slot lsn)
