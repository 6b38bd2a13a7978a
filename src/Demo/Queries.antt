-- ===== src/Demo/Queries.antt =====
-- demo/verify.py: `View`, `Agg` and the texts of the queries.
use walflux_postgres_increme.Prelude.{
  ◌≡◌, refl, Option, none, some, Bool, true, false, List, [], ◌∷◌, ◌++◌, map, Text, codes, ◌=t◌,
  join, Result, ok, ◌>>=◌, map_result,
}
use walflux_postgres_increme.Common.Ident.{quote_ident, ident_match, is_ident_start, is_ident_char}
use walflux_postgres_increme.Prelude.Utf8.{encode}
use walflux_postgres_increme.Aggregates.Spec.{qualified}

pub record Agg : Type 0 where
  pub fn : Text
  pub column : Option Text
  pub alias : Text

pub record View : Type 0 where
  pub name : Text
  pub schema : Text
  pub table : Text
  pub group_by : List Text
  pub aggregates : List Agg

abbrev or_empty : Option Text → Text
or_empty none = []
or_empty (some column) = column

-- `{agg.fn}({quote_ident(agg.column or '')})`
abbrev fn_expr : Text → Option Text → Result Text
fn_expr fn column = do c ← quote_ident (or_empty column); ok (fn ++ codes "(" ++ c ++ codes ")")

unfoldable pub agg_expr : Agg → Result Text
agg_expr agg = expr (agg.fn =t codes "count") agg.column
  where
    expr : Bool → Option Text → Result Text
    expr true none = ok (codes "count(*)")
    expr true (some c) = fn_expr agg.fn (some c)
    expr false column = fn_expr agg.fn column

abbrev comma : Text
comma = codes ", "

abbrev quoted : List Text → Result (List Text)
quoted = map_result quote_ident

-- ` GROUP BY …`, if there are group columns
abbrev grouping : List Text → Result Text
grouping [] = ok []
grouping (g ∷ gs) = do names ← quoted (g ∷ gs); ok (codes " GROUP BY " ++ join comma names)

unfoldable pub ground_truth_sql : View → Result Text
unfolding agg_expr
ground_truth_sql view = do
  keys ← quoted view.group_by
  exprs ← map_result agg_expr view.aggregates
  source ← qualified view.schema view.table
  group ← grouping view.group_by
  ok (codes "SELECT " ++ join comma (keys ++ exprs) ++ codes " FROM " ++ source ++ group)

unfoldable pub target_sql : View → Result Text
target_sql view = do
  names ← quoted (view.group_by ++ map (λ (a : Agg). a.alias) view.aggregates)
  table ← quote_ident view.name
  ok (codes "SELECT " ++ join comma names ++ codes " FROM walflux." ++ table)

unfoldable pub dead_sql : View → Result Text
dead_sql view = do
  table ← quote_ident view.name
  ok (codes "SELECT count(*) FROM walflux." ++ table ++ codes " WHERE __walflux_rows <= 0")

abbrev pub sales : View
sales = record {
  name = codes "by_region";
  schema = codes "public";
  table = codes "orders";
  group_by = codes "region" ∷ [];
  aggregates = record { fn = codes "count"; column = none; alias = codes "n" } ∷ [];
}

queries_example :
    (ground_truth_sql sales
      ≡ ok (codes "SELECT \"region\", count(*) FROM \"public\".\"orders\" GROUP BY \"region\""))
    × (target_sql sales ≡ ok (codes "SELECT \"region\", \"n\" FROM walflux.\"by_region\""))
unfolding ground_truth_sql target_sql quote_ident ident_match is_ident_start is_ident_char encode
queries_example = (refl, refl)
