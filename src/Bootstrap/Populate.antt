-- ===== src/Bootstrap/Populate.antt =====
-- walflux/bootstrap.py: the target table of a view and its backfill.
use walflux_postgres_increme.Prelude.{List, [], ◌∷◌, Text, Result, setup_error}
use walflux_postgres_increme.Prelude.Int.{ℤ}
use walflux_postgres_increme.Value.{Dict}
use walflux_postgres_increme.Aggregates.Spec.{ViewSpec}
use walflux_postgres_increme.Aggregates.Sql.{target_ddl, backfill_sql}
use walflux_postgres_increme.Bootstrap.Columns.{column_types, is_missing_column, group_types}
use walflux_postgres_increme.Database.Command.{Command, Answer, find_columns, ddl, backfill}
use walflux_postgres_increme.Database.Session.{Session, pure, lift, check, ◌>>=◌, ◌>>◌, execute}

module _ {D : Type 0} (server : (c : Command) → D → Result (Answer c) × D) where
  abbrev pub source_columns : ViewSpec → Session D (Dict Text)
  source_columns view = do
    rows ← execute server (find_columns view.source_schema view.source_table)
    pure (column_types [] rows)

  abbrev pub run_all : List Text → Session D Unit
  run_all [] = pure tt
  run_all (statement ∷ statements) = do execute server (ddl statement); run_all statements

  -- One round of the loop of `setup` over the views, up to the number of rows that it backfills.
  abbrev pub populate : ViewSpec → Session D ℤ
  populate view = do
    columns ← source_columns view
    check (is_missing_column columns view) setup_error
    types ← lift (group_types columns [] view.group_by)
    statements ← lift (target_ddl view types)
    run_all statements
    sql ← lift (backfill_sql view)
    execute server (backfill sql)

  abbrev pub populate_all : List ViewSpec → Session D (List (Text × ℤ))
  populate_all [] = pure []
  populate_all (view ∷ views) = do
    rows ← populate view
    rest ← populate_all views
    pure ((view.name, rows) ∷ rest)
