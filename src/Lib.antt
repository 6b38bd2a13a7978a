-- ===== src/Lib.antt =====
-- WalFlux keeps aggregate views in PostgreSQL up to date from the logical replication stream. This
-- library models its core: the decoder of the pgoutput protocol, the deltas that row events make, the
-- loop of the daemon that applies whole transactions exactly once, and the setup that it starts from.
--
-- How the parts work together: the loop (walflux/daemon.py, `Daemon._loop`) decodes each payload
-- (walflux/protocol.py, `decode_message`), resolves a row message to one event for each view over its
-- table (`_row_ops`), and collects the events between Begin and Commit. A sealed transaction waits in
-- `pending`. A flush (`_flush`) folds the events of the pending transactions into a `DeltaBatch`
-- (walflux/aggregates.py), executes its statements and the checkpoint row in one target transaction,
-- commits, and acknowledges the position. Before all this, `setup` (walflux/bootstrap.py) creates the
-- slot, fills the target tables in its snapshot and writes the first checkpoint row.
--
-- Files and code:
--   Prelude              shared names, integers over the native numbers, results for exceptions; UTF-8
--                        and Python's `int(text, base)`, which are Python's own
--   Common/Ident         walflux/common.py, `quote_ident`
--   Common/Lsn           `parse_lsn` and `format_lsn`, over Prelude/Binary for Python's `|` and `>>`
--   Decimal              Python's decimal arithmetic in the default context of 28 digits; Decimal/Parse
--                        is `Decimal(text)`, Decimal/Exact says when a sum and a sign are exact
--   Value                what a decoded row holds, dicts, and Python's `==`
--   Protocol/Message     walflux/protocol.py, the message classes
--   Protocol/Reader      `_Reader`: its position is an integer, since `take` accepts a negative length
--   Protocol/Decode      `_decode_*` and `decode_message`, one function each
--   Protocol/Convert     `convert_value`
--   Protocol/Encode      the documented wire format, which the source only reads, as a specification
--   Protocol/Parts, Rules, Reads, Fields, Messages, RoundTrip
--                        how the reader takes what the format writes, and where it stops if that is cut
--                        short, field by field, then whole
--   Aggregates/Spec      walflux/aggregates.py, `AggSpec`, `ViewSpec`, `_agg_storage`, `_target`
--   Aggregates/Sql       `target_ddl`, `backfill_sql` and the upsert of `_build_plan`
--   Aggregates/Delta     `_as_decimal`, `_agg_deltas` and the addition of deltas
--   Aggregates/Batch     `_build_plan` and the state of `class DeltaBatch` with its `apply_*`
--   Aggregates/Statements, Emit
--                        `DeltaBatch.statements`: a statement is a data type, `render` is its SQL and
--                        parameters
--   Aggregates/Measure, Totals, Weight, Shape, Plans
--                        the value of a storage column, of the groups and of a source row
--   Config               walflux/config.py, `Config`, and the YAML values it is read from
--   Config/Parse, Names, Valid
--                        the validation, `_check_ident` to `load_config`, and what it ensures
--   Daemon/Op            walflux/daemon.py, `_Op`, `_SealedTxn` and the loop of `_flush`
--   Daemon/Source        what an event does to the rows of its source table
--   Daemon/Holds, Maintain, Incremental
--                        the deltas of a flush against the recomputed view
--   Daemon/State         `Daemon.__init__` and its dicts
--   Daemon/Rows          `_on_relation`, `_row_ops`, `_decode_row`, `_required_columns`
--   Daemon/Drift, Images when these accept what the source sends
--   Daemon/Flush         `_flush` over a target that is a parameter: a type of states and what one
--                        statement does to it, with the row of walflux/checkpoint.py beside it
--   Daemon/Loop          `_loop`, one item of the stream at a time, with the clock in the item
--   Daemon/Emission      the statements of a flush
--   Daemon/Sound, Bounds what the loop keeps between two items
--   Daemon/Newer, ExactlyOnce
--                        sessions and crashes as a step relation
--   Daemon/Sent          the transactions that a stream of messages stands for
--   Daemon/Refines       the loop against these sessions
--   Database/Command     what the program asks of psycopg2, its SQL text and the type of the answer
--   Database/Session     code over a connection: state, exceptions and a log of the commands
--   Checkpoint           walflux/checkpoint.py
--   Bootstrap/Checks, Slot, Columns, Populate, Setup
--                        walflux/bootstrap.py, one function each; `setup` and `teardown` in Setup
--   Bootstrap/Durable    what the commands leave in the database, and when that is safe to start from
--   Bootstrap/Triple, Calm, Filling, Safe
--                        a logic of conditions before and after a session, and `setup` in it
--   Bootstrap/Retry      `_drop_slot_with_retry`
--   Bootstrap/Ends, Removal
--                        `teardown`, by what its commands have logged
--   Replication          walflux/replication.py, `ReplicationStream`, one round of `messages` at a time
--   Replication/Feedback, Wake
--                        what the server is told, and when the consumer is woken
--   Daemon/Run           `Daemon.run` around the loop, which is a parameter there, and `status`
--   Daemon/Resume        where `run` starts the loop
--   Cli                  walflux/cli.py, the subcommands, `main` and `_print_status`
--   Cli/Exit             the exit codes
--   Demo/Queries, Cells, Report, Compare
--                        demo/verify.py, `verify_view` and what it calls; what the queries answer, `str`
--                        of a value and `Decimal` of a float are parameters
--   Demo/Views           `load_views`
--   Demo/Fields, Agree   on a document that `load_config` accepts
--   Demo/Pass, Verdict   when it counts no mismatch
--   Demo/Catchup         `wait_for_catchup`, over the rounds that its loop sees, and the exit code
--   Target/Texts         the statement texts that this interface gives a meaning to
--   Target/Table         the tables of a target database, as an interface that says what its statements do
--   Target/Effects, Upserts, Cleanup, Plans, Flush
--                        the statements of a flush, against the recomputed view
--   Tests                concrete inputs
--
-- State is passed explicitly, and an exception is an error value. A flush raises only before its
-- commit, so a failing item leaves the world as it was. Loops are recursion on the list, the count or
-- the bytes they run over, so no fuel is needed. A decimal sum rounds to 28 digits as Python does, and
-- the theorem on deltas bounds the amounts accordingly.
--
-- Not modelled: message texts of exceptions, logging, signals and connections; the reading of a float
-- from text, which is a parameter (`to_float`); the negative zero of a decimal and its context's limits
-- on exponents; digits outside ASCII in `int(text)` and `Decimal(text)`; the equality of a float and
-- another number in a group key; errors of the database inside a flush; the opening of
-- the configuration file and its YAML reader; the argument parser of walflux/cli.py; what
-- `wait_for_catchup` captures and writes before its loop; and
-- demo/generate.py, a load of random writes that keeps no state of the system. `load_views` on a source
-- that is not a text, which Python would convert.
pub mod Prelude
pub mod Common
pub mod Decimal
pub mod Value
pub mod Aggregates
pub mod Protocol
pub mod Config
pub mod Database
pub mod Checkpoint
pub mod Bootstrap
pub mod Replication
pub mod Daemon
pub mod Cli
pub mod Target
pub mod Demo
pub mod Tests
