-- ===== src/Tests/Sessions.antt =====
-- Examples for the sessions of walflux/daemon.py, and for the routing of its messages to views.
use walflux_postgres_increme.Prelude.{
  ℕ, ◌+◌, ◌≡◌, ◌≢◌, ◌≤◌, refl, List, [], ◌∷◌, All, Text, codes, some, true, Result, ok, err, arith,
  value_error,
}
use walflux_postgres_increme.Prelude.Int.{pos}
use walflux_postgres_increme.Prelude.Numeral.{parse_int}
use walflux_postgres_increme.Prelude.Utf8.{encode}
use walflux_postgres_increme.Common.Ident.{is_ident_char, is_ident_start, ident_match, quote_ident}
use walflux_postgres_increme.Value.{put, get, Row}
use walflux_postgres_increme.Protocol.Convert.{convert_value}
use walflux_postgres_increme.Protocol.Message.{ColumnValue, TupleData}
use walflux_postgres_increme.Aggregates.Batch.{
  bump, key_of, check_columns, apply_row, plan_of, apply, apply_insert, new,
}
use walflux_postgres_increme.Aggregates.Statements.{statements, Statement}
use walflux_postgres_increme.Aggregates.Delta.{times_all, add_all, agg_deltas, row_deltas}
use walflux_postgres_increme.Aggregates.Spec.{key_columns, target, agg_storage, all_storage}
use walflux_postgres_increme.Aggregates.Sql.{upsert_sql}
use walflux_postgres_increme.Daemon.Drift.{Known, on_relation-Known}
use walflux_postgres_increme.Daemon.ExactlyOnce.{
  down, streaming, committed, Step, Reach, here, next, Ledger, Reach-Ledger,
}
use walflux_postgres_increme.Daemon.Flush.{batch_statements, World, exec_all, commit, last_lsn}
use walflux_postgres_increme.Daemon.Images.{IsKnown, IsFilled, AreUpdates, update_ops-IsKnown}
use walflux_postgres_increme.Daemon.Loop.{seal}
use walflux_postgres_increme.Daemon.Op.{fold_op, Op, SealedTxn, fold_ops, fold_txns}
use walflux_postgres_increme.Daemon.Rows.{
  decode_cells, substitute, resolve_relation, on_relation, relation_table, decode_row, update_ops,
}
use walflux_postgres_increme.Daemon.State.{
  index_views, add_view, Daemon, start, views_at, find_relation, member_id, views_of,
  views_at-start,
}
use walflux_postgres_increme.Tests.Sample.{two_views, two_views_config, order, orders_table, result}

abbrev count_up : Statement → ℕ → ℕ
count_up s d = d + 1

abbrev first : SealedTxn
first = record {
  end_lsn = 20;
  ops = Op.insert (codes "by_region") (order (codes "north") (pos 7)) ∷ [];
}

abbrev second : SealedTxn
second = record {
  end_lsn = 30;
  ops = Op.delete (codes "by_region") (order (codes "north") (pos 7)) ∷ [];
}

abbrev log : List SealedTxn
log = first ∷ second ∷ []

abbrev at_setup : World ℕ
at_setup = record { db = 0; checkpoint = 10; acked = 0 }

abbrev after_first : World ℕ
after_first = record { db = 2; checkpoint = 20; acked = 0 }

done : commit count_up two_views (first ∷ []) at_setup ≡ ok after_first
unfolding commit batch_statements new all_storage agg_storage quote_ident ident_match is_ident_start
    is_ident_char encode upsert_sql target key_columns fold_txns fold_ops fold_op apply_insert apply
    plan_of get put apply_row check_columns key_of row_deltas agg_deltas bump add_all times_all
    statements last_lsn exec_all
done = refl

last : last_lsn (first ∷ []) ≡ ok 20
unfolding last_lsn
last = refl

-- The process dies after its commit, before the acknowledgement, and the next session is sent the
-- first transaction again.
resent : Reach count_up two_views log (at_setup, down) (after_first, streaming (second ∷ []) 20 [])
unfolding seal
resent =
    next
      (next
        (next
          (next
            (next (next here (Step.start at_setup [] log refl tt))
              (Step.deliver at_setup first (second ∷ []) [] 10))
            (Step.commits at_setup after_first (second ∷ []) (first ∷ []) 10 20 done last))
          (Step.crash after_first (committed (second ∷ []) 20)))
        (Step.start after_first [] log refl tt))
      (Step.deliver after_first first (second ∷ []) [] 20)

Reach-Ledger_example :
    Ledger count_up two_views log at_setup after_first
    × (after_first.acked ≤ after_first.checkpoint)
Reach-Ledger_example =
    Reach-Ledger count_up two_views log at_setup after_first (streaming (second ∷ []) 20 [])
      (ground arith) (omega arith) resent

views_at-start_example :
    views_at (codes "public", codes "orders") (start two_views_config 10).views_by_table
    ≡ views_of (codes "public", codes "orders") two_views
views_at-start_example = views_at-start two_views_config 10 (codes "public", codes "orders")

abbrev resolved : Daemon
resolved = result (start two_views_config 10) (on_relation orders_table (start two_views_config 10))

accepted : on_relation orders_table (start two_views_config 10) ≡ ok resolved
unfolding on_relation resolve_relation views_at start index_views add_view
accepted = refl

on_relation-Known_example :
    (find_relation 16384 resolved.relations ≡ some orders_table)
    × Known
        (views_at (relation_table orders_table) (start two_views_config 10).views_by_table)
        orders_table
        (start two_views_config 10)
    × (views_at (relation_table orders_table) (start two_views_config 10).views_by_table ≢ []
        → member_id 16384 resolved.view_rel_ids ≡ true)
on_relation-Known_example =
    on_relation-Known orders_table (start two_views_config 10) resolved accepted

-- The amount changes, the region is a TOASTed value that the server leaves out.
abbrev old_tuple : TupleData
old_tuple = ColumnValue.text (codes "north") ∷ ColumnValue.text (codes "7") ∷ []

abbrev new_tuple : TupleData
new_tuple = ColumnValue.unchanged_toast ∷ ColumnValue.text (codes "8") ∷ []

abbrev no_floats : Text → Result Text
no_floats s = err value_error

decoded : decode_row no_floats orders_table old_tuple ≡ ok (order (codes "north") (pos 7))
unfolding decode_row decode_cells convert_value parse_int put
decoded = refl

abbrev amended : List Op
amended = result [] (update_ops no_floats orders_table (some old_tuple) new_tuple two_views)

updated : update_ops no_floats orders_table (some old_tuple) new_tuple two_views ≡ ok amended
unfolding decode_row decode_cells convert_value parse_int put update_ops substitute get
updated = refl

update_ops-IsKnown_example :
    (new full : Row) × (decode_row no_floats orders_table new_tuple ≡ ok new)
    × All IsKnown full
    × IsFilled (order (codes "north") (pos 7)) new full
    × AreUpdates (order (codes "north") (pos 7)) full two_views amended
update_ops-IsKnown_example =
    update_ops-IsKnown no_floats orders_table old_tuple new_tuple two_views
      (order (codes "north") (pos 7)) amended (λ e. cc) decoded ((λ e. cc), ((λ e. cc), tt)) updated
