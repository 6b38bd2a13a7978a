-- ===== src/Daemon/Run.antt =====
-- walflux/daemon.py: `Daemon.run` around the loop, and `status`.
use walflux_postgres_increme.Prelude.{
  Option, none, some, Bool, true, false, List, [], ◌∷◌, Text, Error, Result, walflux_error,
  setup_error, undefined_table, if◌then◌else◌,
}
use walflux_postgres_increme.Prelude.Int.{ℤ}
use walflux_postgres_increme.Common.Ident.{quote_ident}
use walflux_postgres_increme.Common.Lsn.{format_lsn}
use walflux_postgres_increme.Value.{Dict, put}
use walflux_postgres_increme.Aggregates.Spec.{ViewSpec}
use walflux_postgres_increme.Config.{Config}
use walflux_postgres_increme.Checkpoint.{read_checkpoint}
use walflux_postgres_increme.Database.Command.{
  Command, Answer, connect, close, rollback, open_stream, close_stream, find_slot_status,
  find_current_lsn, count_rows,
}
use walflux_postgres_increme.Database.Session.{
  Session, pure, raise, lift, ◌>>=◌, ◌>>◌, catch, finally, execute, assign_repl_conn,
  when_repl_conn,
}
use walflux_postgres_increme.Bootstrap.Slot.{is_database_error}

-- What `status` returns.
pub record Status : Type 0 where
  pub slot : Text
  pub slot_exists : Bool
  pub active : Option Bool
  pub restart_lsn : Option Text
  pub confirmed_flush_lsn : Option Text
  pub lag_bytes : Option ℤ
  pub current_lsn : Text
  pub checkpoint_lsn : Option Text
  pub views : Dict (Option ℤ)

-- `except psycopg2.errors.UndefinedTable as exc: raise SetupError`
abbrev pub ask_for_setup : Error → Error
ask_for_setup undefined_table = setup_error
ask_for_setup e = e

abbrev formatted : Option ℤ → Option Text
formatted none = none
formatted (some lsn) = some (format_lsn lsn)

abbrev report :
    Text
    → Option (Bool × Option Text × Option Text × Option ℤ)
    → Text
    → Option ℤ
    → Dict (Option ℤ)
    → Status
report slot none current checkpoint views = record {
  slot = slot;
  slot_exists = false;
  active = none;
  restart_lsn = none;
  confirmed_flush_lsn = none;
  lag_bytes = none;
  current_lsn = current;
  checkpoint_lsn = formatted checkpoint;
  views = views;
}
report slot (some (active, restart, confirmed, lag)) current checkpoint views = record {
  slot = slot;
  slot_exists = true;
  active = some active;
  restart_lsn = restart;
  confirmed_flush_lsn = confirmed;
  lag_bytes = lag;
  current_lsn = current;
  checkpoint_lsn = formatted checkpoint;
  views = views;
}

module _ {D : Type 0} (server : (c : Command) → D → Result (Answer c) × D) where
  -- `_connect`
  abbrev accepted : Option Text → Session D Unit
  accepted none = pure tt
  accepted (some refusal) = raise walflux_error

  abbrev pub connect_target : Session D Unit
  connect_target = do refusal ← execute server connect; accepted refusal

  abbrev pub stored_checkpoint : Config → Session D (Option ℤ)
  stored_checkpoint config =
      catch (read_checkpoint server config.slot) (λ e. raise (ask_for_setup e))

  abbrev pub required : Option ℤ → Session D ℤ
  required none = raise setup_error
  required (some lsn) = pure lsn

  -- `stream = self._stream = ReplicationStream(…)`
  abbrev opened : Option Text → Session D Unit
  opened none = assign_repl_conn
  opened (some refusal) = raise walflux_error

  abbrev pub start_stream : Session D Unit
  start_stream = do refusal ← execute server open_stream; opened refusal

  -- The body of the `try`. `loop` is `_loop`, from the checkpoint.
  abbrev pub stream_from_checkpoint : (ℤ → Session D Unit) → Config → Session D Unit
  stream_from_checkpoint loop config = do
    row ← stored_checkpoint config
    execute server rollback
    checkpoint ← required row
    start_stream
    loop checkpoint

  -- `ReplicationStream.close` passes exceptions over.
  abbrev pub close_both : Session D Unit
  close_both = do
    when_repl_conn (catch (execute server close_stream) (λ e. pure tt))
    execute server close

  abbrev pub run : (ℤ → Session D Unit) → Config → Session D Unit
  run loop config = do connect_target; finally (stream_from_checkpoint loop config) close_both

  -- `except psycopg2.Error`: None
  abbrev none_on_error : {A : Type 0} → Session D (Option A) → Session D (Option A)
  none_on_error call = catch call (λ e. if is_database_error e then pure none else raise e)

  abbrev counted : Text → Session D (Option ℤ)
  counted name = do
    table ← lift (quote_ident name)
    count ← execute server (count_rows table)
    pure (some count)

  abbrev count_views : Dict (Option ℤ) → List ViewSpec → Session D (Dict (Option ℤ))
  count_views views [] = pure views
  count_views views (v ∷ vs) = do
    count ← none_on_error (counted v.name)
    count_views (put v.name count views) vs

  abbrev snapshot : Config → Session D Status
  snapshot config = do
    slot_row ← execute server (find_slot_status config.slot)
    current ← execute server find_current_lsn
    checkpoint ← none_on_error (read_checkpoint server config.slot)
    views ← count_views [] config.views
    pure (report config.slot slot_row current checkpoint views)

  abbrev pub status : Config → Session D Status
  status config = do connect_target; finally (snapshot config) (execute server close)
