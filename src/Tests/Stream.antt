-- ===== src/Tests/Stream.antt =====
-- Examples for `_loop` of walflux/daemon.py: a target that counts the statements it executes.
use walflux_postgres_increme.Prelude.{
  ℕ, length, ◌<◌, ◌+◌, ◌≡◌, refl, List, [], ◌∷◌, ◌++◌, Text, codes, some, none, Result, ok, err,
  arith, value_error,
}
use walflux_postgres_increme.Prelude.Int.{◌+ℤ◌, pos}
use walflux_postgres_increme.Prelude.Numeral.{parse_int}
use walflux_postgres_increme.Prelude.Utf8.{decode, encode}
use walflux_postgres_increme.Common.Ident.{is_ident_char, is_ident_start, ident_match, quote_ident}
use walflux_postgres_increme.Value.{put, get}
use walflux_postgres_increme.Protocol.Convert.{convert_value}
use walflux_postgres_increme.Protocol.Decode.{
  text_value, column_value, columns_values, decode_tuple_data, decode_insert, decode_column,
  decode_columns, relation_columns, decode_relation, decode_commit, decode_begin, decode_message,
}
use walflux_postgres_increme.Protocol.Encode.{be_bytes, encode_message}
use walflux_postgres_increme.Protocol.Message.{Message, ColumnValue}
use walflux_postgres_increme.Protocol.Reader.{
  int32, uint16, tag, find_zero, cstring, uint8, uint32, big_endian, timestamp, slice, unpack,
  take_bytes, unsigned, uint64,
}
use walflux_postgres_increme.Aggregates.Batch.{
  bump, key_of, check_columns, apply_row, plan_of, apply, apply_insert, new,
}
use walflux_postgres_increme.Aggregates.Statements.{statements, Statement}
use walflux_postgres_increme.Aggregates.Delta.{times_all, add_all, agg_deltas, row_deltas}
use walflux_postgres_increme.Aggregates.Spec.{key_columns, target, agg_storage, all_storage}
use walflux_postgres_increme.Aggregates.Sql.{upsert_sql}
use walflux_postgres_increme.Daemon.ExactlyOnce.{concat, Applied, Reach}
use walflux_postgres_increme.Daemon.Flush.{last_lsn, batch_statements, commit, flush, World}
use walflux_postgres_increme.Daemon.Loop.{on_item, Item, payload, wake, Loop, run_items, begin_loop}
use walflux_postgres_increme.Daemon.Newer.{newer, Increasing}
use walflux_postgres_increme.Daemon.Op.{SealedTxn}
use walflux_postgres_increme.Daemon.Refines.{
  run_items-exactly_once, run_items-Reach, delivered, session,
}
use walflux_postgres_increme.Daemon.Rows.{
  inserts, decode_cells, decode_row, insert_ops, row_ops, resolve_relation, on_relation,
}
use walflux_postgres_increme.Daemon.Sound.{IsSound}
use walflux_postgres_increme.Daemon.Bounds.{on_item-Bounded}
use walflux_postgres_increme.Daemon.State.{
  put_relation, find_relation, add_view, index_views, views_at, start,
}
use walflux_postgres_increme.Tests.Sample.{two_views, two_views_config, order, orders_table, result}
use walflux_postgres_increme.Daemon.Op

abbrev count_up : Statement → ℕ → ℕ
count_up s d = d + 1

abbrev no_floats : Text → Result Text
no_floats s = err value_error

abbrev world : World ℕ
world = record { db = 0; checkpoint = 10; acked = 5 }

abbrev old_txn : SealedTxn
old_txn = record { end_lsn = 8; ops = [] }

abbrev new_txn : SealedTxn
new_txn = record {
  end_lsn = 20;
  ops =
      Op.insert (codes "by_region") (order (codes "north") (pos 7))
      ∷ Op.insert (codes "overall") (order (codes "north") (pos 7))
      ∷ [];
}

abbrev log : List SealedTxn
log = old_txn ∷ new_txn ∷ []

-- The server sends the old transaction again, then the new one.
abbrev items : List Item
items =
    payload (encode_message (Message.begin 8 (pos 0) 700)) 0
    ∷ payload (encode_message (Message.commit 0 8 8 (pos 0))) 1
    ∷ wake
    ∷ payload (encode_message (Message.begin 20 (pos 0) 701)) 2
    ∷ payload (encode_message (Message.relation orders_table)) 3
    ∷ payload
        (encode_message (
          Message.insert 16384
            (ColumnValue.text (codes "north") ∷ ColumnValue.text (codes "7") ∷ [])))
        4
    ∷ payload (encode_message (Message.commit 0 20 20 (pos 0))) 5
    ∷ []

abbrev last_loop : Loop ℕ
last_loop =
    result (begin_loop two_views_config world)
      (run_items no_floats count_up items (begin_loop two_views_config world))

ran : run_items no_floats count_up items (begin_loop two_views_config world) ≡ ok last_loop
unfolding run_items decode_message decode_begin uint64 unsigned take_bytes be_bytes ◌+ℤ◌ unpack
    slice timestamp big_endian uint32 decode_commit uint8 start decode_relation encode cstring
    find_zero decode tag relation_columns uint16 decode_columns decode_column int32 on_relation
    resolve_relation views_at index_views add_view decode_insert decode_tuple_data columns_values
    column_value text_value row_ops find_relation put_relation insert_ops decode_row decode_cells
    convert_value parse_int flush commit batch_statements new all_storage agg_storage quote_ident
    ident_match is_ident_start is_ident_char upsert_sql target key_columns Op.fold_txns Op.fold_ops
    inserts Op.fold_op apply_insert apply plan_of get put apply_row check_columns key_of row_deltas
    agg_deltas bump add_all times_all statements last_lsn
ran = refl

sent : log ≡ [] ++ delivered no_floats count_up items (begin_loop two_views_config world) []
unfolding run_items decode_message decode_begin uint64 unsigned take_bytes be_bytes ◌+ℤ◌ unpack
    slice timestamp big_endian uint32 decode_commit uint8 start decode_relation encode cstring
    find_zero decode tag relation_columns uint16 decode_columns decode_column int32 on_relation
    resolve_relation views_at index_views add_view decode_insert decode_tuple_data columns_values
    column_value text_value row_ops find_relation put_relation insert_ops decode_row decode_cells
    convert_value parse_int flush commit batch_statements new all_storage agg_storage quote_ident
    ident_match is_ident_start is_ident_char upsert_sql target key_columns Op.fold_txns Op.fold_ops
    inserts Op.fold_op apply_insert apply plan_of get put apply_row check_columns key_of row_deltas
    agg_deltas bump add_all times_all statements last_lsn delivered
sent = refl

log-Increasing : Increasing log
log-Increasing = ground arith

begin_loop-IsSound : IsSound two_views_config (begin_loop two_views_config world)
unfolding start
begin_loop-IsSound = record { timed = refl; current = refl; configured = refl }

run_items-exactly_once_example :
    (bs : List (List SealedTxn)) × (concat bs ≡ newer 10 log)
    × Applied count_up two_views log 0 bs last_loop.world.db
    × (newer last_loop.world.checkpoint log ≡ [])
run_items-exactly_once_example =
    run_items-exactly_once no_floats count_up two_views_config log world [] items last_loop
      log-Increasing (omega arith) (omega arith) sent tt ran

run_items-Reach_example :
    Reach count_up two_views log
      (session
        (begin_loop two_views_config world)
        (delivered no_floats count_up items (begin_loop two_views_config world) [] ++ []))
      (session last_loop [])
run_items-Reach_example =
    run_items-Reach no_floats count_up two_views_config log items
      (begin_loop two_views_config world) last_loop [] (omega arith) begin_loop-IsSound ran

-- A transaction is open when its commit arrives.
abbrev open_loop : Loop ℕ
open_loop = record {
  daemon = start two_views_config 10;
  world = world;
  pending = [];
  oldest = none;
  open_ops = some new_txn.ops;
}

abbrev sealed_loop : Loop ℕ
sealed_loop = record open_loop { pending = new_txn ∷ []; oldest = some 5; open_ops = none }

closed :
    on_item no_floats count_up
      (payload (encode_message (Message.commit 0 20 20 (pos 0))) 5)
      open_loop
    ≡ ok sealed_loop
unfolding on_item decode_message decode_commit uint8 take_bytes be_bytes ◌+ℤ◌ slice uint64 unsigned
    unpack timestamp big_endian start
closed = refl

on_item-Bounded_example :
    IsSound two_views_config sealed_loop
    × (length sealed_loop.pending < two_views_config.batch_max_txns)
unfolding start
on_item-Bounded_example =
    on_item-Bounded count_up no_floats two_views_config
      (payload (encode_message (Message.commit 0 20 20 (pos 0))) 5) open_loop sealed_loop
      (omega arith) (record { timed = refl; current = refl; configured = refl }) closed
