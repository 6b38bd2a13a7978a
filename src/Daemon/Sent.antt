-- ===== src/Daemon/Sent.antt =====
-- walflux/daemon.py, `_loop`: the transactions that the messages of the server stand for, apart from the
-- buffer of the loop.
use walflux_postgres_increme.Prelude.{List, [], ◌∷◌, ◌++◌, Text, Result, ok, err}
use walflux_postgres_increme.Protocol.Message.{
  Message, begin, commit, insert, update, delete, truncate,
}
use walflux_postgres_increme.Protocol.Decode.{decode_message}
use walflux_postgres_increme.Daemon.Op.{Op, SealedTxn}
use walflux_postgres_increme.Daemon.State.{Daemon}
use walflux_postgres_increme.Daemon.Rows.{row_ops, insert_ops, update_ops, delete_ops, truncate_ops}
use walflux_postgres_increme.Daemon.Loop.{Item, wake, payload}

-- The events of a row message, by the relations that the daemon knows.
abbrev pub resolved : Result (List Op) → List Op
resolved (ok ops) = ops
resolved (err e) = []

abbrev pub events_of : (Text → Result Text) → Daemon → Message → List Op
events_of to_float d (insert rel_id new) =
    resolved (row_ops to_float d rel_id (λ rel. insert_ops to_float rel new))
events_of to_float d (update rel_id old key new) =
    resolved (row_ops to_float d rel_id (λ rel. update_ops to_float rel old new))
events_of to_float d (delete rel_id old key) =
    resolved (row_ops to_float d rel_id (λ rel. delete_ops to_float rel old))
events_of to_float d (truncate _ rel_ids) = truncate_ops d rel_ids
events_of to_float d _ = []

-- How the server means its messages: Begin opens an empty transaction, Commit ends it, and any other
-- message adds its events. `events` are those since the last Begin, of which the loop knows nothing.
abbrev pub events_after : (Text → Result Text) → Daemon → Message → List Op → List Op
events_after to_float d (begin _ _ _) events = []
events_after to_float d (commit _ _ _ _) events = []
events_after to_float d msg events = events ++ events_of to_float d msg

-- The transaction that a message completes.
abbrev pub completed : Message → List Op → List SealedTxn
completed (commit _ _ end_lsn _) events = record { end_lsn = end_lsn; ops = events } ∷ []
completed _ events = []

abbrev completed_by : Result Message → List Op → List SealedTxn
completed_by (ok msg) events = completed msg events
completed_by (err _) events = []

abbrev pub completed_in : Item → List Op → List SealedTxn
completed_in wake events = []
completed_in (payload bytes _) events = completed_by (decode_message bytes) events

abbrev after_decoded : (Text → Result Text) → Daemon → Result Message → List Op → List Op
after_decoded to_float d (ok msg) events = events_after to_float d msg events
after_decoded to_float d (err _) events = events

abbrev pub after_item : (Text → Result Text) → Daemon → Item → List Op → List Op
after_item to_float d wake events = events
after_item to_float d (payload bytes _) events =
    after_decoded to_float d (decode_message bytes) events
