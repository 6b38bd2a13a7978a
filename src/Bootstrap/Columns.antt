-- ===== src/Bootstrap/Columns.antt =====
-- walflux/bootstrap.py: the columns of a source table, and those that a view needs.
use walflux_postgres_increme.Prelude.{
  Option, none, some, Bool, true, false, List, [], ◌∷◌, ◌++◌, Text, ◌=t◌, if◌then◌else◌, any, not,
  Result, ok, ◌>>=◌,
}
use walflux_postgres_increme.Value.{Dict, get, put}
use walflux_postgres_increme.Aggregates.Spec.{AggSpec, ViewSpec}

abbrev aggregated : List AggSpec → List Text
aggregated [] = []
aggregated (agg ∷ aggs) = column_and agg.column (aggregated aggs)
  where
    column_and : Option Text → List Text → List Text
    column_and none rest = rest
    column_and (some c) rest = c ∷ rest

-- `_required_columns`
unfoldable pub required_columns : ViewSpec → List Text
required_columns view = view.group_by ++ aggregated view.aggregates

-- the dict comprehension of `_source_columns`
unfoldable pub column_types : Dict Text → List (Text × Text) → Dict Text
column_types types [] = types
column_types types ((name, type) ∷ rows) = column_types (put name type types) rows

abbrev has_column : Dict Text → Text → Bool
has_column [] name = false
has_column ((n, _) ∷ types) name = if n =t name then true else has_column types name

-- `_required_columns(view) - columns.keys()` is not empty
unfoldable pub is_missing_column : Dict Text → ViewSpec → Bool
is_missing_column columns view = any (λ c. not (has_column columns c)) (required_columns view)

-- `{name: columns[name] for name in view.group_by}`
unfoldable pub group_types : Dict Text → Dict Text → List Text → Result (Dict Text)
group_types columns types [] = ok types
group_types columns types (name ∷ names) = do
  type ← get name columns
  group_types columns (put name type types) names
