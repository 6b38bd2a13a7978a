-- ===== src/Aggregates/Spec.antt =====
-- walflux/aggregates.py: view definitions and the storage columns of a target table.
use walflux_postgres_increme.Prelude.{
  Option, none, some, List, [], ◌∷◌, ◌++◌, Text, codes, Result, ok, err, walflux_error, ◌>>=◌,
}
use walflux_postgres_increme.Prelude.Int.{ℤ, pos}
use walflux_postgres_increme.Decimal.{Decimal, of_ℤ}
use walflux_postgres_increme.Common.Ident.{quote_ident}

-- `fn` of the source: one of three texts, or a text that no function has.
pub data AggFn : Type 0 where
  count sum avg : AggFn
  unknown : Text → AggFn

pub record AggSpec : Type 0 where
  pub fn : AggFn
  pub column : Option Text
  pub alias : Text

pub record ViewSpec : Type 0 where
  pub name : Text
  pub source_schema : Text
  pub source_table : Text
  pub group_by : List Text
  pub aggregates : List AggSpec

-- `int | Decimal`
pub data Num : Type 0 where
  int : ℤ → Num
  dec : Decimal → Num

pub record Storage : Type 0 where
  pub name : Text
  pub ddl_type : Text
  pub backfill_expr : Text
  pub zero : Num

abbrev pub storage : Text → Text → Text → Num → Storage
storage name ddl_type expr zero = record {
  name = name;
  ddl_type = ddl_type;
  backfill_expr = expr;
  zero = zero;
}

abbrev pub zero_int : Num
zero_int = int (pos 0)

abbrev pub zero_dec : Num
zero_dec = dec (of_ℤ (pos 0))

unfoldable pub count_storage : Text → Option Text → Result (List Storage)
count_storage alias none =
    ok (storage alias (codes "bigint NOT NULL") (codes "count(*)") zero_int ∷ [])
count_storage alias (some column) = do
  src ← quote_ident column
  ok (storage alias (codes "bigint NOT NULL") (codes "count(" ++ src ++ codes ")") zero_int ∷ [])

-- COALESCE keeps the running total non-NULL.
abbrev pub total_pair : Text → Text → List Storage
total_pair alias src =
    storage (alias ++ codes "__sum") (codes "numeric")
      (codes "coalesce(sum(" ++ src ++ codes "), 0)") zero_dec
    ∷ storage (alias ++ codes "__nn") (codes "bigint NOT NULL") (codes "count(" ++ src ++ codes ")")
        zero_int
    ∷ []

unfoldable pub total_storage : Text → Option Text → Result (List Storage)
total_storage alias none = err walflux_error
total_storage alias (some column) = do src ← quote_ident column; ok (total_pair alias src)

unfoldable pub storage_of : AggFn → Text → Option Text → Result (List Storage)
unfolding count_storage total_storage
storage_of count alias column = count_storage alias column
storage_of sum alias column = total_storage alias column
storage_of avg alias column = total_storage alias column
storage_of (unknown _) alias column = err walflux_error

unfoldable pub agg_storage : AggSpec → Result (List Storage)
unfolding storage_of
agg_storage agg = storage_of agg.fn agg.alias agg.column

-- the storage columns of a view, in target-table order
unfoldable pub all_storage : List AggSpec → Result (List Storage)
all_storage [] = ok []
all_storage (agg ∷ aggs) = do s ← agg_storage agg; rest ← all_storage aggs; ok (s ++ rest)

abbrev pub target_schema : Text
target_schema = codes "walflux"

abbrev pub rows_column : Text
rows_column = codes "__walflux_rows"

abbrev pub global_key_column : Text
global_key_column = codes "__walflux_all"

-- `a.b`, both quoted
abbrev pub qualified : Text → Text → Result Text
qualified a b = do a' ← quote_ident a; b' ← quote_ident b; ok (a' ++ codes "." ++ b')

unfoldable pub target : ViewSpec → Result Text
target view = qualified target_schema view.name

unfoldable pub key_columns : List Text → List Text
key_columns [] = global_key_column ∷ []
key_columns (c ∷ cs) = c ∷ cs

abbrev pub column_names : List Storage → List Text
column_names [] = []
column_names (s ∷ ss) = s.name ∷ column_names ss
