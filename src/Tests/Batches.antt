-- ===== src/Tests/Batches.antt =====
-- Examples for walflux/aggregates.py and the flush of walflux/daemon.py.
use walflux_postgres_increme.Prelude.{
  ◌≡◌, ◌≤◌, All, refl, List, [], ◌∷◌, codes, true, inl, ok, arith,
}
use walflux_postgres_increme.Prelude.Int.{pos, ◌+ℤ◌, ◌*ℕ◌}
use walflux_postgres_increme.Prelude.Utf8.{encode}
use walflux_postgres_increme.Common.Ident.{quote_ident, ident_match, is_ident_start, is_ident_char}
use walflux_postgres_increme.Decimal.Exact.{units}
use walflux_postgres_increme.Value.{get, put, key_eq}
use walflux_postgres_increme.Aggregates.Batch.{
  is_empty, Groups, Plan, DeltaBatch, new, plan_of, check_columns, key_of, bump, apply_row, apply,
  apply_insert, apply_update,
}
use walflux_postgres_increme.Aggregates.Statements.{Statement, statements}
use walflux_postgres_increme.Aggregates.Delta.{row_deltas, agg_deltas, add_all, times_all}
use walflux_postgres_increme.Aggregates.Spec.{all_storage, agg_storage, target, key_columns}
use walflux_postgres_increme.Aggregates.Sql.{upsert_sql}
use walflux_postgres_increme.Aggregates.Totals.{total}
use walflux_postgres_increme.Aggregates.Weight.{recompute}
use walflux_postgres_increme.Daemon.Emission.{fold_ops-statements}
use walflux_postgres_increme.Daemon.Incremental.{column, kept, OpIsLow, fold_ops-recompute}
use walflux_postgres_increme.Daemon.Op.{Op, insert, update, fold_op, fold_ops}
use walflux_postgres_increme.Daemon.Source.{Changes}
use walflux_postgres_increme.Tests.Sample.{by_region, two_views, order, result}

abbrev pub empty_batch : DeltaBatch
empty_batch = record { plans = []; deltas = []; truncated = [] }

abbrev pub fresh : DeltaBatch
fresh = result empty_batch (new two_views)

pub made : new two_views ≡ ok fresh
unfolding new all_storage agg_storage quote_ident ident_match is_ident_start is_ident_char encode
    upsert_sql target key_columns
made = refl

abbrev pub no_plan : Plan
no_plan = record { view = by_region; needed = []; zeros = []; upsert = [] }

abbrev plan : Plan
plan = result no_plan (get (codes "by_region") fresh.plans)

planned : get (codes "by_region") fresh.plans ≡ ok plan
unfolding new all_storage agg_storage quote_ident ident_match is_ident_start is_ident_char encode
    upsert_sql target key_columns put get
planned = refl

-- An order arrives in the north, then moves to the south and changes its amount.
abbrev moved : List Op
moved =
    insert (codes "by_region") (order (codes "north") (pos 5))
    ∷ update (codes "by_region") (order (codes "north") (pos 5)) (order (codes "south") (pos 7))
    ∷ []

abbrev flushed : DeltaBatch
flushed = result empty_batch (fold_ops moved fresh)

folded : fold_ops moved fresh ≡ ok flushed
unfolding fold_ops fold_op apply_insert apply_update apply plan_of apply_row check_columns key_of
    row_deltas agg_deltas bump add_all times_all key_eq new all_storage agg_storage quote_ident
    ident_match is_ident_start is_ident_char encode upsert_sql target key_columns put get
folded = refl

abbrev LowAmount : Type 0
LowAmount = Unit {0} × (Unit {0} × ((0 ≤ 0) × (Unit {0} × Unit {0})))

low_amount : LowAmount
low_amount = (tt, (tt, (omega arith, (tt, tt))))

changed : Changes (codes "by_region") moved [] (order (codes "south") (pos 7) ∷ [])
changed = (
  order (codes "north") (pos 5) ∷ [],
  inl (refl, refl),
  (order (codes "south") (pos 7) ∷ [], inl (refl, ([], [], refl, refl)), refl),
)

whole : All (OpIsLow (codes "by_region") (pos 0) plan) moved
unfolding key_of row_deltas agg_deltas new all_storage agg_storage quote_ident ident_match
    is_ident_start is_ident_char encode upsert_sql target key_columns put get
whole = ((λ mine. (low_amount, tt)), ((λ mine. (low_amount, (low_amount, tt))), tt))

fold_ops-recompute_example :
    (groups : Groups) × (get (codes "by_region") flushed.deltas ≡ ok groups)
    × (kept (codes "by_region") flushed (recompute (column plan 2 (pos 0)) (λ _. true) plan [])
          +ℤ total (column plan 2 (pos 0)) (λ _. true) groups
        ≡ recompute (column plan 2 (pos 0)) (λ _. true) plan (order (codes "south") (pos 7) ∷ []))
unfolding key_of row_deltas agg_deltas new all_storage agg_storage quote_ident ident_match
    is_ident_start is_ident_char encode upsert_sql target key_columns put get units ◌*ℕ◌
fold_ops-recompute_example =
    fold_ops-recompute two_views fresh flushed (codes "by_region") plan moved []
      (order (codes "south") (pos 7) ∷ []) (λ _. true) 2 (pos 0) made planned changed folded
      (λ a b e. refl) (omega arith) (omega arith) whole (omega arith)

fold_ops-statements_example :
    (ss : List Statement) × (statements flushed ≡ ok ss) × (is_empty flushed ≡ true → ss ≡ [])
fold_ops-statements_example = fold_ops-statements two_views moved fresh flushed made folded
