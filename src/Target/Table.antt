-- ===== src/Target/Table.antt =====
-- The database as far as the statements of walflux/aggregates.py rely on it. PostgreSQL is not part of
-- the repository, so this is an interface: the documented behaviour of DELETE, of INSERT with ON
-- CONFLICT DO UPDATE over a unique index with NULLS NOT DISTINCT, and of exact numeric addition.
use walflux_postgres_increme.Prelude.{
  ℕ, zero, suc, ◌≡◌, Bool, true, false, List, [], ◌∷◌, ◌++◌, Text, ◌=t◌, if◌then◌else◌, ok,
}
use walflux_postgres_increme.Prelude.Int.{ℤ, pos, ◌+ℤ◌, leb_ℤ}
use walflux_postgres_increme.Value.{key_eq}
use walflux_postgres_increme.Aggregates.Spec.{ViewSpec, Num}
use walflux_postgres_increme.Aggregates.Batch.{Key, Plan}
use walflux_postgres_increme.Aggregates.Statements.{Statement, delete_all, upsert, cleanup, render}
use walflux_postgres_increme.Target.Texts.{delete_text, cleanup_text, Upserts}
use walflux_postgres_increme.Aggregates.Totals.{Column, amount, Fits, select}

-- A row of a target table: its key, `__walflux_rows`, and its other storage columns, each in the unit
-- of the column that is asked for.
pub record TargetRow : Type 0 where
  pub key : Key
  pub count : ℤ
  pub cell : Column → ℤ

abbrev pub Table : Type 0
Table = List TargetRow

value_at : ℕ → Column → TargetRow → ℤ
value_at zero c r = r.count
value_at (suc i) c r = r.cell c

-- Storage column 0 is `__walflux_rows`, an integer.
unfoldable pub value : Column → TargetRow → ℤ
unfolding value_at
value c r = if c.is_decimal then r.cell c else value_at c.index c r

-- the sum of a column over the rows that `P` selects
abbrev pub table_total : Column → (Key → Bool) → Table → ℤ
table_total c P [] = pos 0
table_total c P (r ∷ rows) = select c (P r.key) (value c r) +ℤ table_total c P rows

-- `DELETE … WHERE "__walflux_rows" <= 0`
abbrev pub live : Table → Table
live [] = []
live (r ∷ rows) = if leb_ℤ r.count (pos 0) then live rows else r ∷ live rows

abbrev pub target_of : Statement → Text
target_of (delete_all view) = view.name
target_of (upsert plan _ _) = plan.view.name
target_of (cleanup view) = view.name

-- `P` sees no difference between keys that the unique index takes for equal.
abbrev pub Selects : (Key → Key → Bool) → (Key → Bool) → Type 0
Selects same P = (a b : Key) → same a b ≡ true → P a ≡ P b

pub record Postgres {D : Type 0} (exec : Statement → D → D) : Type 0 where
  pub table : D → Text → Table
  -- equality of keys in the unique index, which identifies keys that are equal in Python
  pub same : Key → Key → Bool
  pub same_keys : (a b : Key) → key_eq a b ≡ true → same a b ≡ true
  pub same_selects : (k : Key) → Selects same (same k)
  -- one row for each key
  pub unique :
      (d : D) (name : Text) (c : Column) (before after : Table) (r : TargetRow)
      → table d name ≡ before ++ r ∷ after
      → table_total c (same r.key) (table d name) ≡ value c r
  -- Each of the three has its meaning by the text and the parameters that are executed.
  pub deleted :
      (d : D) (view : ViewSpec)
      → render (delete_all view) ≡ ok (delete_text view, [])
      → table (exec (delete_all view) d) view.name ≡ []
  pub upserted :
      (d : D) (plan : Plan) (key : Key) (ds : List Num) (c : Column) (P : Key → Bool)
      → Upserts plan key ds
      → Selects same P
      → Fits c ds
      → table_total c P (table (exec (upsert plan key ds) d) plan.view.name)
        ≡ table_total c P (table d plan.view.name) +ℤ select c (P key) (amount c ds)
  pub cleaned :
      (d : D) (view : ViewSpec)
      → render (cleanup view) ≡ ok (cleanup_text view, [])
      → table (exec (cleanup view) d) view.name ≡ live (table d view.name)
  pub elsewhere :
      (d : D) (s : Statement) (name : Text)
      → (target_of s =t name) ≡ false
      → table (exec s d) name ≡ table d name
