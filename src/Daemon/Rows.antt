-- ===== src/Daemon/Rows.antt =====
-- walflux/daemon.py: `_on_relation`, `_row_ops`, `_decode_row` and `_required_columns`. `to_float` is the
-- parameter of Protocol/Convert.
use walflux_postgres_increme.Prelude.{
  ℕ, not, List, [], ◌∷◌, ◌++◌, Option, none, some, Text, member, if◌then◌else◌, Result, ok, err,
  protocol_error, schema_drift_error, value_error, ◌>>=◌, ◌>>◌, any,
}
use walflux_postgres_increme.Value.{Value, Row, get, put}
use walflux_postgres_increme.Protocol.Message.{ColumnValue, TupleData, Column, Relation}
use walflux_postgres_increme.Protocol.Convert.{convert_value}
use walflux_postgres_increme.Aggregates.Spec.{AggSpec, ViewSpec}
use walflux_postgres_increme.Daemon.Op.{Op, insert, update, delete, truncate}
use walflux_postgres_increme.Daemon.State.{
  Daemon, TableName, views_at, find_relation, put_relation, member_id,
}

unfoldable pub aggregated : List AggSpec → List Text
aggregated [] = []
aggregated (agg ∷ aggs) =
    let rest = aggregated aggs in elim agg.column [ none ↦ rest | some c ↦ c ∷ rest ]

-- A set, here as a list that may repeat.
unfoldable pub required_columns : ViewSpec → List Text
unfolding aggregated
required_columns view = view.group_by ++ aggregated view.aggregates

abbrev pub column_names : List Column → List Text
column_names [] = []
column_names (c ∷ cs) = c.name ∷ column_names cs

-- `_required_columns(view) - available`, tested for emptiness
unfoldable pub check_view : List Text → ViewSpec → Result (Unit {0})
unfolding required_columns
check_view available view =
    if any (λ c. not (member c available)) (required_columns view)
    then err schema_drift_error
    else ok tt

unfoldable pub check_views : List Text → List ViewSpec → Result (Unit {0})
unfolding check_view
check_views available [] = ok tt
check_views available (v ∷ vs) = check_view available v >> check_views available vs

abbrev pub relation_table : Relation → TableName
relation_table rel = (rel.namespace, rel.name)

-- After the cache has the relation: a relation without views, or the checks of its views.
unfoldable pub resolve_relation : Relation → List ViewSpec → Daemon → Result Daemon
unfolding check_views
resolve_relation rel [] d =
    if member_id rel.rel_id d.view_rel_ids then err schema_drift_error else ok d
resolve_relation rel (v ∷ vs) d = do
  check_views (column_names rel.columns) (v ∷ vs)
  ok (record d {
    view_rel_ids =
        if member_id rel.rel_id d.view_rel_ids then d.view_rel_ids else rel.rel_id ∷ d.view_rel_ids;
  })

unfoldable pub on_relation : Relation → Daemon → Result Daemon
on_relation rel d =
    resolve_relation rel (views_at (relation_table rel) d.views_by_table)
      (record d { relations = put_relation rel.rel_id rel d.relations })

-- Old values take the place of unchanged-TOAST markers in the new row.
unfoldable pub substitute : Row → Row → Result Row
substitute old [] = ok []
substitute old ((name, Value.unchanged_toast) ∷ new) = do
  v ← get name old
  rest ← substitute old new
  ok ((name, v) ∷ rest)
substitute old ((name, v) ∷ new) = do rest ← substitute old new; ok ((name, v) ∷ rest)

unfoldable pub truncations : List ViewSpec → List Op
truncations [] = []
truncations (v ∷ vs) = truncate v.name ∷ truncations vs

unfoldable pub truncate_ops : Daemon → List ℕ → List Op
unfolding truncations
truncate_ops d [] = []
truncate_ops d (id ∷ ids) =
    let rest = truncate_ops d ids in
    elim (find_relation id d.relations) [
      | none ↦ rest
      | some rel ↦ truncations (views_at (relation_table rel) d.views_by_table) ++ rest
    ]

unfoldable pub inserts : Row → List ViewSpec → List Op
inserts row [] = []
inserts row (v ∷ vs) = insert v.name row ∷ inserts row vs

unfoldable pub updates : Row → Row → List ViewSpec → List Op
updates old new [] = []
updates old new (v ∷ vs) = update v.name old new ∷ updates old new vs

unfoldable pub deletes : Row → List ViewSpec → List Op
deletes row [] = []
deletes row (v ∷ vs) = delete v.name row ∷ deletes row vs

abbrev known : Option Relation → Result Relation
known none = err protocol_error
known (some rel) = ok rel

abbrev pub old_image : Option TupleData → Result TupleData
old_image none = err schema_drift_error
old_image (some row) = ok row

module _ (to_float : Text → Result Text) where
  unfoldable pub cell : Column → ColumnValue → Result Value
  cell c ColumnValue.null = ok Value.none
  cell c ColumnValue.unchanged_toast = ok Value.unchanged_toast
  cell c (ColumnValue.text s) = convert_value to_float s c.type_oid

  -- `zip(…, strict=True)` raises when one side is longer.
  unfoldable pub decode_cells : List Column → TupleData → Row → Result Row
  unfolding cell
  decode_cells [] [] row = ok row
  decode_cells (c ∷ cs) (v ∷ vs) row = do
    value ← cell c v
    decode_cells cs vs (put c.name value row)
  decode_cells [] (_ ∷ _) row = err value_error
  decode_cells (_ ∷ _) [] row = err value_error

  unfoldable pub decode_row : Relation → TupleData → Result Row
  decode_row rel values = decode_cells rel.columns values []

  -- A relation without views has no events, and its rows are not decoded.
  unfoldable pub insert_ops : Relation → TupleData → List ViewSpec → Result (List Op)
  insert_ops rel new [] = ok []
  insert_ops rel new (v ∷ vs) = do row ← decode_row rel new; ok (inserts row (v ∷ vs))

  unfoldable pub update_ops :
      Relation → Option TupleData → TupleData → List ViewSpec → Result (List Op)
  update_ops rel old new [] = ok []
  update_ops rel old new (v ∷ vs) = do
    image ← old_image old
    old_row ← decode_row rel image
    new_row ← decode_row rel new
    full_row ← substitute old_row new_row
    ok (updates old_row full_row (v ∷ vs))

  unfoldable pub delete_ops : Relation → Option TupleData → List ViewSpec → Result (List Op)
  delete_ops rel old [] = ok []
  delete_ops rel old (v ∷ vs) = do
    image ← old_image old
    row ← decode_row rel image
    ok (deletes row (v ∷ vs))

  -- `_row_ops` of an insert, an update and a delete.
  unfoldable pub row_ops :
      Daemon → ℕ → (Relation → List ViewSpec → Result (List Op)) → Result (List Op)
  row_ops d rel_id ops = do
    rel ← known (find_relation rel_id d.relations)
    ops rel (views_at (relation_table rel) d.views_by_table)
