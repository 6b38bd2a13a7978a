-- ===== src/Aggregates/Batch.antt =====
-- walflux/aggregates.py: `_build_plan` and `class DeltaBatch`. A batch is local to one flush, and an
-- exception abandons it, so a failing operation returns no batch.
use walflux_postgres_increme.Prelude.{
  Bool, true, false, not, ◌&&◌, ◌||◌, none, some, List, [], ◌∷◌, ◌++◌, Text, member, if◌then◌else◌,
  Result, ok, err, walflux_error, schema_drift_error, ◌>>=◌, ◌>>◌, map_result,
}
use walflux_postgres_increme.Decimal.{Sign, plus, minus}
use walflux_postgres_increme.Value.{Value, Dict, Row, get, put, key_eq}
use walflux_postgres_increme.Aggregates.Spec.{
  AggSpec, ViewSpec, Storage, Num, zero_int, all_storage,
}
use walflux_postgres_increme.Aggregates.Sql.{upsert_sql}
use walflux_postgres_increme.Aggregates.Delta.{row_deltas, times_all, add_all, sign_num}

pub record Plan : Type 0 where
  pub view : ViewSpec
  pub needed : List Text
  pub zeros : List Num
  pub upsert : Text

agg_columns : List AggSpec → List Text
agg_columns [] = []
agg_columns (agg ∷ aggs) =
    let rest = agg_columns aggs in elim agg.column [ none ↦ rest | some c ↦ c ∷ rest ]

-- `tuple(dict.fromkeys(…))`, after the keys that were seen
distinct : List Text → List Text → List Text
distinct seen [] = []
distinct seen (c ∷ cs) =
    let old = distinct seen cs in
    let new = c ∷ distinct (c ∷ seen) cs in if member c seen then old else new

abbrev pub zero_list : List Storage → List Num
zero_list [] = []
zero_list (s ∷ ss) = s.zero ∷ zero_list ss

unfoldable pub build_plan : ViewSpec → Result Plan
unfolding agg_columns distinct
build_plan view = do
  storage ← all_storage view.aggregates
  sql ← upsert_sql view storage
  ok (record {
    view = view;
    needed = distinct [] (view.group_by ++ agg_columns view.aggregates);
    zeros = zero_int ∷ zero_list storage;
    upsert = sql;
  })

abbrev pub Key : Type 0
Key = List Value

-- the deltas of one view, by group
abbrev pub Groups : Type 0
Groups = List (Key × List Num)

pub record DeltaBatch : Type 0 where
  pub plans : Dict Plan
  pub deltas : Dict Groups
  pub truncated : List Text

unfoldable pub build_plans : Dict Plan → List ViewSpec → Result (Dict Plan)
unfolding build_plan
build_plans plans [] = ok plans
build_plans plans (v ∷ vs) = do p ← build_plan v; build_plans (put v.name p plans) vs

unfoldable pub no_deltas : Dict Plan → Dict Groups
no_deltas [] = []
no_deltas ((name, _) ∷ plans) = (name, []) ∷ no_deltas plans

-- `DeltaBatch(views)`
unfoldable pub new : List ViewSpec → Result DeltaBatch
unfolding build_plans no_deltas
new views = do
  plans ← build_plans [] views
  ok (record { plans = plans; deltas = no_deltas plans; truncated = [] })

-- `_plan`
unfoldable pub plan_of : DeltaBatch → Text → Result Plan
plan_of b name = elim (get name b.plans) [ ok p ↦ ok p | err _ ↦ err walflux_error ]

check_value : Value → Result (Unit {0})
check_value Value.unchanged_toast = err schema_drift_error
check_value _ = ok tt

check_column : Text → Row → Result (Unit {0})
unfolding check_value
check_column col row = elim (get col row) [ ok v ↦ check_value v | err _ ↦ err schema_drift_error ]

-- Every column that the view needs is there, and none of them is an unchanged TOAST marker.
unfoldable pub check_columns : List Text → Row → Result (Unit {0})
unfolding check_column
check_columns [] row = ok tt
check_columns (c ∷ cs) row = check_column c row >> check_columns cs row

-- `tuple(row[c] for c in view.group_by)`
unfoldable pub key_of : List Text → Row → Result Key
key_of cols row = map_result (λ c. get c row) cols

-- `setdefault(key, list(zeros))` and the additions to that group
unfoldable pub bump : Key → List Num → List Num → Groups → Result Groups
bump key zeros ds [] = do g ← add_all zeros ds; ok ((key, g) ∷ [])
bump key zeros ds ((k, g) ∷ gs) =
    let here = (do g' ← add_all g ds; ok ((k, g') ∷ gs)) in
    let there = (do gs' ← bump key zeros ds gs; ok ((k, g) ∷ gs')) in
    if key_eq k key then here else there

-- `_apply` on the groups of its view
unfoldable pub apply_row : Plan → Row → Sign → Groups → Result Groups
apply_row plan row sign groups = do
  check_columns plan.needed row
  key ← key_of plan.view.group_by row
  ds ← row_deltas plan.view.aggregates row
  bump key plan.zeros (sign_num sign ∷ times_all sign ds) groups

unfoldable pub apply : Text → Row → Sign → DeltaBatch → Result DeltaBatch
apply name row sign b = do
  plan ← plan_of b name
  groups ← get name b.deltas
  groups' ← apply_row plan row sign groups
  ok (record b { deltas = put name groups' b.deltas })

unfoldable pub apply_insert : Text → Row → DeltaBatch → Result DeltaBatch
apply_insert name row = apply name row plus

unfoldable pub apply_delete : Text → Row → DeltaBatch → Result DeltaBatch
apply_delete name row = apply name row minus

unfoldable pub apply_update : Text → Row → Row → DeltaBatch → Result DeltaBatch
apply_update name old new b = do b' ← apply name old minus b; apply name new plus b'

-- A global view keeps its single row, so its group is seeded with zeros.
unfoldable pub truncated_groups : List Text → List Num → Groups
truncated_groups [] zeros = ([], zeros) ∷ []
truncated_groups (_ ∷ _) zeros = []

-- `set.add`
unfoldable pub add_member : Text → List Text → List Text
add_member t ts = if member t ts then ts else t ∷ ts

unfoldable pub apply_truncate : Text → DeltaBatch → Result DeltaBatch
apply_truncate name b = do
  plan ← plan_of b name
  _ ← get name b.deltas
  ok (record b {
    deltas = put name (truncated_groups plan.view.group_by plan.zeros) b.deltas;
    truncated = add_member name b.truncated;
  })

abbrev pub has_groups : Groups → Bool
has_groups [] = false
has_groups (_ ∷ _) = true

unfoldable pub any_groups : Dict Groups → Bool
any_groups [] = false
any_groups ((_, g) ∷ d) = has_groups g || any_groups d

abbrev pub has_members : List Text → Bool
has_members [] = false
has_members (_ ∷ _) = true

unfoldable pub is_empty : DeltaBatch → Bool
unfolding any_groups
is_empty b = not (has_members b.truncated) && not (any_groups b.deltas)
