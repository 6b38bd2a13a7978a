-- ===== src/Daemon/Incremental.antt =====
-- `_flush` and `DeltaBatch` together: what the groups of a flush add up to.
use walflux_postgres_increme.Prelude.{
  ℕ, ◌+◌, ◌<◌, ◌≡◌, refl, ap, Bool, List, [], ◌∷◌, Text, length, All, member, if◌then◌else◌, Result,
  ok, err, >>=-ok, ok-injective, arith,
}
use walflux_postgres_increme.Prelude.Int.{ℤ, pos, ◌+ℤ◌, ◌≤ℤ◌, int_laws}
use walflux_postgres_increme.Decimal.{coef_limit}
use walflux_postgres_increme.Value.{Row, get}
use walflux_postgres_increme.Aggregates.Spec.{ViewSpec, Num, int}
use walflux_postgres_increme.Aggregates.Delta.{row_deltas}
use walflux_postgres_increme.Aggregates.Batch.{Key, Groups, Plan, DeltaBatch, new, key_of}
use walflux_postgres_increme.Aggregates.Measure.{entry}
use walflux_postgres_increme.Aggregates.Totals.{Column, total, Respects}
use walflux_postgres_increme.Aggregates.Weight.{contribution, FitsIn, recompute}
use walflux_postgres_increme.Aggregates.Shape.{
  kind, IsLow, SameKinds, row_deltas-SameKinds, entry-AtColumn,
}
use walflux_postgres_increme.Aggregates.Plans.{IsBuilt, IsBuilt-zeros, new-IsFresh, zeros-fit}
use walflux_postgres_increme.Daemon.Op.{Op, view_of, fold_ops}
use walflux_postgres_increme.Daemon.Source.{Changes, rows_of}
use walflux_postgres_increme.Daemon.Holds.{Holds}
use walflux_postgres_increme.Daemon.Maintain.{OpFits, ops_size, ops-Kept}

-- Storage column `i` of a view, with its decimals in units of `10 ^ low`. Column 0 counts the rows.
abbrev pub column : Plan → ℕ → ℤ → Column
column plan i low = record { index = i; low = low; is_decimal = kind (entry i plan.zeros) }

abbrev LowIn : ℤ → Result (Key × List Num) → Type 0
LowIn low (ok (_, ds)) = All (IsLow low) ds
LowIn low (err _) = Unit

-- No decimal that the view reads from the row has a digit below `10 ^ low`.
abbrev pub RowIsLow : ℤ → Plan → Row → Type 0
RowIsLow low plan row = LowIn low (contribution plan row)

contribution-SameKinds :
    (plan : Plan) (row : Row) (k : Key) (ds : List Num)
    → IsBuilt plan
    → contribution plan row ≡ ok (k, ds)
    → SameKinds plan.zeros ds
contribution-SameKinds plan row k ds built e =
    let (key, _, e₁) = >>=-ok (key_of plan.view.group_by row) _ e in
    let (ds', ed, e₂) = >>=-ok (row_deltas plan.view.aggregates row) _ e₁ in
    let same : int (pos 1) ∷ ds' ≡ ds = ap (λ (p : Key × List Num). p.1) (ok-injective e₂) in
    rw (built.zeros_are, ← same)
      (refl, row_deltas-SameKinds plan.view.aggregates row built.stored ed)

fits_of :
    (plan : Plan) (i : ℕ) (low : ℤ) (r : Result (Key × List Num))
    → i < length plan.zeros
    → ((k : Key) (ds : List Num) → r ≡ ok (k, ds) → SameKinds plan.zeros ds)
    → LowIn low r
    → FitsIn (column plan i low) r
fits_of plan i low (ok (k, ds)) h same l = entry-AtColumn low i plan.zeros ds h (same k ds refl) l
fits_of plan i low (err x) h same l = tt

rows-fit :
    (plan : Plan) (i : ℕ) (low : ℤ) (rows : List Row)
    → IsBuilt plan
    → i < length plan.zeros
    → All (RowIsLow low plan) rows
    → All (λ row. FitsIn (column plan i low) (contribution plan row)) rows
rows-fit plan i low [] built h l = tt
rows-fit plan i low (row ∷ rows) built h l = (
  fits_of plan i low (contribution plan row) h
      (λ k ds e. contribution-SameKinds plan row k ds built e) l.0,
  rows-fit plan i low rows built h l.1,
)

-- the rows that the events of a view carry
abbrev pub OpIsLow : Text → ℤ → Plan → Op → Type 0
OpIsLow name low plan op = view_of op ≡ name → All (RowIsLow low plan) (rows_of op)

-- the absolute amounts of the events of one view, in units of `10 ^ low`
abbrev pub volume : Text → Plan → ℕ → ℤ → List Op → ℕ
volume name plan i low ops = ops_size (column plan i low) name plan ops

ops-fit :
    (name : Text) (plan : Plan) (i : ℕ) (low : ℤ) (ops : List Op)
    → IsBuilt plan
    → i < length plan.zeros
    → All (OpIsLow name low plan) ops
    → All (OpFits (column plan i low) name plan) ops
ops-fit name plan i low [] built h l = tt
ops-fit name plan i low (op ∷ ops) built h l = (
  λ mine. rows-fit plan i low (rows_of op) built h (l.0 mine),
  ops-fit name plan i low ops built h l.1,
)

-- What the target still needs after the statements that delete truncated tables.
abbrev pub kept : Text → DeltaBatch → ℤ → ℤ
kept name b before = if member name b.truncated then pos 0 else before

-- What the batch holds for one column and one test on keys after the events.
pub fold_ops-Holds :
    (views : List ViewSpec) (b₀ b : DeltaBatch) (name : Text) (plan : Plan) (ops : List Op)
    (s s' : List Row) (P : Key → Bool) (i : ℕ) (low : ℤ)
    → new views ≡ ok b₀
    → get name b₀.plans ≡ ok plan
    → Changes name ops s s'
    → fold_ops ops b₀ ≡ ok b
    → Respects P
    → i < length plan.zeros
    → low ≤ℤ pos 0
    → All (OpIsLow name low plan) ops
    → volume name plan i low ops < coef_limit
    → Holds
        (column plan i low)
        P
        name
        plan
        (recompute (column plan i low) P plan s)
        b
        (recompute (column plan i low) P plan s')
        (0 + volume name plan i low ops)
fold_ops-Holds views b₀ b name plan ops s s' P i low made found changes folded resp inside below
      lows small =
    let fresh = new-IsFresh views b₀ name plan made found in
    let (zero, fits) = zeros-fit low below i plan.zeros (IsBuilt-zeros plan fresh.built) inside in
    let c = column plan i low in
    let start = recompute c P plan s in
    let h₀ : Holds c P name plan start b₀ start 0 = record {
      groups = [];
      plan_is = found;
      stored = fresh.empty;
      balance = rw fresh.unmarked (omega int_laws);
      bounded = omega arith;
      fits = tt;
    } in
    ops-Kept c P resp name plan fits zero start 0 b₀ b s s' ops changes folded
      (ops-fit name plan i low ops fresh.built inside lows) (omega arith) h₀

-- Let a new batch fold the events of whole transactions, which take the source of a view from the
-- rows `s` to the rows `s'`. Then for every storage column and every test `P` on keys that agrees with
-- Python's `==`, the column recomputed from `s` (or 0, if the view was truncated) plus the deltas of
-- the groups that `P` selects is the column recomputed from `s'`. The condition is that the absolute
-- amounts, counted in units that divide every decimal, stay below 28 digits.
pub fold_ops-recompute :
    (views : List ViewSpec) (b₀ b : DeltaBatch) (name : Text) (plan : Plan) (ops : List Op)
    (s s' : List Row) (P : Key → Bool) (i : ℕ) (low : ℤ)
    → new views ≡ ok b₀
    → get name b₀.plans ≡ ok plan
    → Changes name ops s s'
    → fold_ops ops b₀ ≡ ok b
    → Respects P
    → i < length plan.zeros
    → low ≤ℤ pos 0
    → All (OpIsLow name low plan) ops
    → volume name plan i low ops < coef_limit
    → (groups : Groups) × (get name b.deltas ≡ ok groups)
      × (kept name b (recompute (column plan i low) P plan s) +ℤ total (column plan i low) P groups
          ≡ recompute (column plan i low) P plan s')
fold_ops-recompute views b₀ b name plan ops s s' P i low made found changes folded resp inside below
      lows small =
    let h =
      fold_ops-Holds views b₀ b name plan ops s s' P i low made found changes folded resp inside
        below lows small in
    (h.groups, h.stored, h.balance)
