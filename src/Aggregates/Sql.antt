-- ===== src/Aggregates/Sql.antt =====
-- walflux/aggregates.py: the SQL text for setup (`target_ddl`, `backfill_sql`) and for the upsert of
-- `_build_plan`.
use walflux_postgres_increme.Prelude.{
  ℕ, zero, suc, List, [], ◌∷◌, ◌++◌, Text, codes, join, length, Result, ok, err, walflux_error,
  ◌>>=◌, map_result,
}
use walflux_postgres_increme.Common.Ident.{quote_ident}
use walflux_postgres_increme.Value.{Dict, get}
use walflux_postgres_increme.Aggregates.Spec.{
  AggFn, count, sum, avg, unknown, AggSpec, ViewSpec, Storage, all_storage, agg_storage,
  rows_column, global_key_column, qualified, target, key_columns, column_names,
}

abbrev newline : Text
newline = 10 ∷ []

abbrev comma : Text
comma = codes ", "

-- `", ".join(quote_ident(c) for c in columns)`
abbrev pub quoted_list : List Text → Result Text
quoted_list columns = do qs ← map_result quote_ident columns; ok (join comma qs)

-- `except KeyError: raise WalfluxError`
abbrev or_walflux_error {ℓ} : {A : Type ℓ} → Result A → Result A
or_walflux_error (ok a) = ok a
or_walflux_error (err _) = err walflux_error

group_column : Dict Text → Text → Result Text
group_column types col = do
  type ← or_walflux_error (get col types)
  c ← quote_ident col
  ok (c ++ codes " " ++ type)

key_ddl : Dict Text → List Text → Result (List Text)
unfolding group_column
key_ddl types [] = do
  c ← quote_ident global_key_column
  ok ((c ++ codes " boolean NOT NULL DEFAULT true") ∷ [])
key_ddl types (c ∷ cs) = map_result (group_column types) (c ∷ cs)

storage_ddl : Storage → Result Text
storage_ddl s = do c ← quote_ident s.name; ok (c ++ codes " " ++ s.ddl_type)

-- The generated column over a running total and its non-NULL count.
generated_column : Text → (Text → Text → Text) → Result (List Text)
generated_column alias value = do
  total ← quote_ident (alias ++ codes "__sum")
  nn ← quote_ident (alias ++ codes "__nn")
  name ← quote_ident alias
  ok (
      (name
        ++ codes " numeric GENERATED ALWAYS AS (CASE WHEN "
        ++ nn
        ++ codes " > 0 THEN "
        ++ value total nn
        ++ codes " END) STORED")
      ∷ [])

generated_ddl : AggFn → Text → Result (List Text)
unfolding generated_column
generated_ddl sum alias = generated_column alias (λ total nn. total)
generated_ddl avg alias = generated_column alias (λ total nn. total ++ codes " / " ++ nn)
generated_ddl count alias = ok []
generated_ddl (unknown _) alias = ok []

agg_ddl : AggSpec → Result (List Text)
unfolding storage_ddl generated_ddl
agg_ddl agg = do
  s ← agg_storage agg
  stored ← map_result storage_ddl s
  generated ← generated_ddl agg.fn agg.alias
  ok (stored ++ generated)

aggs_ddl : List AggSpec → Result (List Text)
unfolding agg_ddl
aggs_ddl [] = ok []
aggs_ddl (agg ∷ aggs) = do a ← agg_ddl agg; rest ← aggs_ddl aggs; ok (a ++ rest)

unfoldable pub target_ddl : ViewSpec → Dict Text → Result (List Text)
unfolding key_ddl aggs_ddl
target_ddl view types = do
  t ← target view
  key ← key_ddl types view.group_by
  rows ← quote_ident rows_column
  aggs ← aggs_ddl view.aggregates
  keys ← quoted_list (key_columns view.group_by)
  let body =
      join (codes "," ++ newline ++ codes "    ") (key ++ (rows ++ codes " bigint NOT NULL") ∷ aggs)
  ok (
      (codes "DROP TABLE IF EXISTS " ++ t)
      ∷ (codes "CREATE TABLE "
          ++ t
          ++ codes " ("
          ++ newline
          ++ codes "    "
          ++ body
          ++ newline
          ++ codes ")")
      ∷ (codes "CREATE UNIQUE INDEX ON " ++ t ++ codes " (" ++ keys ++ codes ") NULLS NOT DISTINCT")
      ∷ [])

-- Key and storage columns, which the upsert and the backfill write.
abbrev pub insert_columns : ViewSpec → List Storage → List Text
insert_columns view storage = key_columns view.group_by ++ rows_column ∷ column_names storage

abbrev backfill_exprs : List Storage → List Text
backfill_exprs [] = []
backfill_exprs (s ∷ ss) = s.backfill_expr ∷ backfill_exprs ss

key_exprs : List Text → Result (List Text)
key_exprs [] = ok (codes "true" ∷ [])
key_exprs (c ∷ cs) = map_result quote_ident (c ∷ cs)

group_clause : List Text → Result Text
group_clause [] = ok []
group_clause (c ∷ cs) = do keys ← quoted_list (c ∷ cs); ok (newline ++ codes "GROUP BY " ++ keys)

unfoldable pub backfill_sql : ViewSpec → Result Text
unfolding key_exprs group_clause
backfill_sql view = do
  storage ← all_storage view.aggregates
  keys ← key_exprs view.group_by
  source ← qualified view.source_schema view.source_table
  t ← target view
  columns ← quoted_list (insert_columns view storage)
  group ← group_clause view.group_by
  ok (
      codes "INSERT INTO "
      ++ t
      ++ codes " ("
      ++ columns
      ++ codes ")"
      ++ newline
      ++ codes "SELECT "
      ++ join comma (keys ++ codes "count(*)" ∷ backfill_exprs storage)
      ++ newline
      ++ codes "FROM "
      ++ source
      ++ group)

-- `['%s'] * n`
unfoldable pub placeholders : ℕ → List Text
placeholders zero = []
placeholders (suc n) = codes "%s" ∷ placeholders n

unfoldable pub additive_update : Text → Text → Result Text
additive_update t column = do
  c ← quote_ident column
  ok (c ++ codes " = " ++ t ++ codes "." ++ c ++ codes " + EXCLUDED." ++ c)

unfoldable pub upsert_sql : ViewSpec → List Storage → Result Text
unfolding placeholders additive_update
upsert_sql view storage = do
  t ← target view
  let columns = insert_columns view storage
  updates ← map_result (additive_update t) (rows_column ∷ column_names storage)
  keys ← quoted_list (key_columns view.group_by)
  names ← quoted_list columns
  ok (
      codes "INSERT INTO "
      ++ t
      ++ codes " ("
      ++ names
      ++ codes ")"
      ++ newline
      ++ codes "VALUES ("
      ++ join comma (placeholders (length columns))
      ++ codes ")"
      ++ newline
      ++ codes "ON CONFLICT ("
      ++ keys
      ++ codes ") DO UPDATE SET"
      ++ newline
      ++ codes "  "
      ++ join (codes "," ++ newline ++ codes "  ") updates)
