-- ===== src/Tests/Flushes.antt =====
-- A flush of walflux/daemon.py into the database of Tests/Tables.antt.
use walflux_postgres_increme.Prelude.{
  not, ◌≡◌, refl, ap, Bool, List, [], ◌∷◌, none, codes, ok, arith, All, inl,
}
use walflux_postgres_increme.Prelude.Int.{pos, ◌*ℕ◌}
use walflux_postgres_increme.Value.{get, put, key_eq}
use walflux_postgres_increme.Aggregates.Spec.{agg_storage, all_storage, target, key_columns}
use walflux_postgres_increme.Aggregates.Batch.{Key, Plan}
use walflux_postgres_increme.Aggregates.Statements.{Statement}
use walflux_postgres_increme.Aggregates.Batch.{
  DeltaBatch, bump, check_columns, key_of, apply_row, plan_of, apply, apply_insert, apply_update,
  new,
}
use walflux_postgres_increme.Aggregates.Statements.{
  statements, truncations, upserts, group_upserts, cleanups,
}
use walflux_postgres_increme.Aggregates.Delta.{times_all, add_all, agg_deltas, row_deltas}
use walflux_postgres_increme.Aggregates.Sql.{upsert_sql}
use walflux_postgres_increme.Aggregates.Weight.{recompute}
use walflux_postgres_increme.Common.Ident.{is_ident_char, is_ident_start, ident_match, quote_ident}
use walflux_postgres_increme.Daemon.Op.{Op, insert, update, fold_op, fold_ops}
use walflux_postgres_increme.Daemon.Source.{Changes}
use walflux_postgres_increme.Daemon.Incremental.{column, OpIsLow}
use walflux_postgres_increme.Daemon.Flush.{exec_all}
use walflux_postgres_increme.Decimal.Exact.{units}
use walflux_postgres_increme.Tests.Batches.{no_plan, empty_batch, fresh, made}
use walflux_postgres_increme.Prelude.Utf8.{encode}
use walflux_postgres_increme.Target.Table.{table_total}
use walflux_postgres_increme.Target.Flush.{flush-recompute}
use walflux_postgres_increme.Tests.Sample.{two_views, order, result}
use walflux_postgres_increme.Tests.Tables.{is_north, class_eq, Tables, rows, execute, database}

abbrev plan : Plan
plan = result no_plan (get (codes "by_region") fresh.plans)

planned : get (codes "by_region") fresh.plans ≡ ok plan
unfolding new all_storage agg_storage quote_ident ident_match is_ident_start is_ident_char encode
    upsert_sql target key_columns put get
planned = refl

-- An order arrives and is moved to another region, so the group of its first region is cleaned up.
abbrev moved : List Op
moved =
    insert (codes "by_region") (order (codes "north") (pos 5))
    ∷ update (codes "by_region") (order (codes "north") (pos 5)) (order (codes "south") (pos 7))
    ∷ []

abbrev flushed : DeltaBatch
flushed = result empty_batch (fold_ops moved fresh)

folded : fold_ops moved fresh ≡ ok flushed
unfolding fold_ops fold_op apply_insert apply_update apply plan_of apply_row check_columns key_of
    row_deltas agg_deltas bump add_all times_all key_eq new all_storage agg_storage quote_ident
    ident_match is_ident_start is_ident_char encode upsert_sql target key_columns put get
folded = refl

abbrev written_out : List Statement
written_out = result [] (statements flushed)

emitted : statements flushed ≡ ok written_out
unfolding fold_ops fold_op apply_insert apply_update apply plan_of apply_row check_columns key_of
    row_deltas agg_deltas bump add_all times_all key_eq new all_storage agg_storage quote_ident
    ident_match is_ident_start is_ident_char encode upsert_sql target key_columns put get statements
    truncations upserts group_upserts cleanups
emitted = refl

changed : Changes (codes "by_region") moved [] (order (codes "south") (pos 7) ∷ [])
changed = (
  order (codes "north") (pos 5) ∷ [],
  inl (refl, refl),
  (order (codes "south") (pos 7) ∷ [], inl (refl, ([], [], refl, refl)), refl),
)

whole : All (OpIsLow (codes "by_region") (pos 0) plan) moved
unfolding key_of row_deltas agg_deltas new all_storage agg_storage quote_ident ident_match
    is_ident_start is_ident_char encode upsert_sql target key_columns put get
whole = (
  (λ mine. ((tt, (tt, (omega arith, (tt, tt)))), tt)),
  ((λ mine. ((tt, (tt, (omega arith, (tt, tt)))), ((tt, (tt, (omega arith, (tt, tt)))), tt))), tt),
)

abbrev no_rows : Tables
no_rows _ = (none, none)

abbrev elsewhere : Key → Bool
elsewhere k = not (is_north k)

flush-recompute_example :
    (table_total
        (column plan 2 (pos 0))
        elsewhere
        (rows (exec_all execute written_out no_rows (codes "by_region")))
      ≡ recompute (column plan 2 (pos 0)) elsewhere plan (order (codes "south") (pos 7) ∷ []))
    × (table_total
          (column plan 0 (pos 0))
          elsewhere
          (rows (exec_all execute written_out no_rows (codes "by_region")))
        ≡ recompute (column plan 0 (pos 0)) elsewhere plan (order (codes "south") (pos 7) ∷ []))
unfolding key_of row_deltas agg_deltas new all_storage agg_storage quote_ident ident_match
    is_ident_start is_ident_char encode upsert_sql target key_columns put get units ◌*ℕ◌
flush-recompute_example =
    flush-recompute execute database two_views fresh flushed (codes "by_region") plan moved []
      (order (codes "south") (pos 7) ∷ []) 2 (pos 0) written_out no_rows elsewhere made planned
      changed folded (omega arith) (omega arith) whole (omega arith) (omega arith) emitted
      (λ a b e. ap not (class_eq (is_north a) (is_north b) e)) (λ P sel. refl) (λ P sel. refl)
