-- ===== src/Aggregates/Statements.antt =====
-- walflux/aggregates.py: `DeltaBatch.statements`. A statement is a data type beside its SQL text and
-- parameters, `render`.
use walflux_postgres_increme.Prelude.{
  Bool, true, false, ◌&&◌, ◌||◌, List, [], ◌∷◌, ◌++◌, Text, codes, member, if◌then◌else◌, Result,
  ok, ◌>>=◌,
}
use walflux_postgres_increme.Common.Ident.{quote_ident}
use walflux_postgres_increme.Value.{Value, Dict, get}
use walflux_postgres_increme.Aggregates.Spec.{ViewSpec, Num, rows_column, target}
use walflux_postgres_increme.Aggregates.Batch.{Plan, Key, Groups, DeltaBatch, has_groups}

-- A parameter of a statement.
pub data Param : Type 0 where
  value : Value → Param
  number : Num → Param

pub data Statement : Type 0 where
  delete_all : ViewSpec → Statement
  upsert : Plan → Key → List Num → Statement
  cleanup : ViewSpec → Statement

-- `name in self._truncated`
unfoldable pub truncations : List Text → Dict Plan → List Statement
truncations marked [] = []
truncations marked ((name, plan) ∷ plans) =
    let rest = truncations marked plans in
    if member name marked then delete_all plan.view ∷ rest else rest

unfoldable pub group_upserts : Plan → Groups → List Statement
group_upserts plan [] = []
group_upserts plan ((key, ds) ∷ gs) = upsert plan key ds ∷ group_upserts plan gs

unfoldable pub upserts : Dict Groups → Dict Plan → Result (List Statement)
unfolding group_upserts
upserts deltas [] = ok []
upserts deltas ((name, plan) ∷ plans) = do
  gs ← get name deltas
  rest ← upserts deltas plans
  ok (group_upserts plan gs ++ rest)

unfoldable pub is_grouped : ViewSpec → Bool
is_grouped view = elim view.group_by [ [] ↦ false | _ ∷ _ ↦ true ]

unfoldable pub cleanups : List Text → Dict Groups → Dict Plan → Result (List Statement)
unfolding is_grouped
cleanups marked deltas [] = ok []
cleanups marked deltas ((name, plan) ∷ plans) = do
  gs ← get name deltas
  rest ← cleanups marked deltas plans
  ok (
      if is_grouped plan.view && (member name marked || has_groups gs)
      then cleanup plan.view ∷ rest
      else rest)

-- Truncations first, then one upsert for each touched group, then the clean-up of empty groups.
unfoldable pub statements : DeltaBatch → Result (List Statement)
unfolding truncations upserts cleanups
statements b = do
  us ← upserts b.deltas b.plans
  cs ← cleanups b.truncated b.deltas b.plans
  ok (truncations b.truncated b.plans ++ us ++ cs)

unfoldable pub key_params : Key → List Param
key_params [] = []
key_params (v ∷ vs) = value v ∷ key_params vs

unfoldable pub delta_params : List Num → List Param
delta_params [] = []
delta_params (n ∷ ns) = number n ∷ delta_params ns

-- `() if plan.view.group_by else (True,)`
unfoldable pub key_prefix : List Text → List Param
key_prefix [] = value (Value.bool true) ∷ []
key_prefix (_ ∷ _) = []

-- The `(sql, params)` pair of a statement.
unfoldable pub render : Statement → Result (Text × List Param)
unfolding key_params delta_params key_prefix
render (delete_all view) = do t ← target view; ok (codes "DELETE FROM " ++ t, [])
render (upsert plan key ds) =
    ok (plan.upsert, key_prefix plan.view.group_by ++ key_params key ++ delta_params ds)
render (cleanup view) = do
  t ← target view
  rows ← quote_ident rows_column
  ok (codes "DELETE FROM " ++ t ++ codes " WHERE " ++ rows ++ codes " <= 0", [])
