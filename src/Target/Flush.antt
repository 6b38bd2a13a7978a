-- ===== src/Target/Flush.antt =====
-- `_flush` of walflux/daemon.py against the views: the statements of a batch take a target table that
-- agrees with the source before the events to one that agrees with the source after them.
use walflux_postgres_increme.Prelude.{
  ℕ, ◌<◌, ◌≡◌, refl, ◌∙◌, ap, Bool, List, ◌++◌, length, Text, member, All, if◌then◌else◌, ok,
  >>=-ok, ok-injective, Bool-cases, arith, inl, inr,
}
use walflux_postgres_increme.Prelude.Int.{ℤ, pos, ◌+ℤ◌, ◌≤ℤ◌}
use walflux_postgres_increme.Decimal.{coef_limit}
use walflux_postgres_increme.Value.{Row, get}
use walflux_postgres_increme.Aggregates.Spec.{ViewSpec}
use walflux_postgres_increme.Aggregates.Batch.{Key, Plan, DeltaBatch, new}
use walflux_postgres_increme.Aggregates.Statements.{
  Statement, truncations, upserts, cleanups, statements,
}
use walflux_postgres_increme.Aggregates.Totals.{Column, Respects, total}
use walflux_postgres_increme.Aggregates.Weight.{recompute}
use walflux_postgres_increme.Aggregates.Plans.{new-IsFresh}
use walflux_postgres_increme.Daemon.Op.{Op, fold_ops}
use walflux_postgres_increme.Daemon.Source.{Changes}
use walflux_postgres_increme.Daemon.Incremental.{column, OpIsLow, volume, fold_ops-Holds}
use walflux_postgres_increme.Daemon.Flush.{exec_all}
use walflux_postgres_increme.Target.Table.{Table, table_total, Selects, Postgres}
use walflux_postgres_increme.Target.Effects.{Keyed, emptied, exec_all-append, truncations-table}
use walflux_postgres_increme.Target.Upserts.{upserts-total, cleanups-table}
use walflux_postgres_increme.Target.Cleanup.{row_count, Agrees, live-Agrees}
use walflux_postgres_increme.Target.Plans.{new-Keyed, fold_ops-plans}

module _ {D : Type 0} (exec : Statement → D → D) (pg : Postgres exec) where
  emptied-total :
      (c : Column) (P : Key → Bool) (marked : List Text) (name : Text) (rows : Table) (z : ℤ)
      → table_total c P rows ≡ z
      → table_total c P (emptied marked name rows) ≡ (if member name marked then pos 0 else z)
  emptied-total c P marked name rows z h = elim (Bool-cases (member name marked)) [
    | inl e ↦ rw e refl
    | inr e ↦ rw e h
  ]

  -- The table after the deletes and the upserts of a batch.
  upserted-Agrees :
      (views : List ViewSpec) (b₀ b : DeltaBatch) (name : Text) (plan : Plan) (ops : List Op)
      (s s' : List Row) (i : ℕ) (low : ℤ) (us : List Statement) (d : D)
      → new views ≡ ok b₀
      → get name b₀.plans ≡ ok plan
      → Changes name ops s s'
      → fold_ops ops b₀ ≡ ok b
      → i < length plan.zeros
      → low ≤ℤ pos 0
      → All (OpIsLow name low plan) ops
      → volume name plan i low ops < coef_limit
      → upserts b.deltas b.plans ≡ ok us
      → Agrees exec pg plan (column plan i low) s (pg.table d name)
      → Agrees exec pg plan
          (column plan i low)
          s'
          (pg.table (exec_all exec us (exec_all exec (truncations b.truncated b.plans) d)) name)
  upserted-Agrees views b₀ b name plan ops s s' i low us d made found changes folded inside below
        lows small emitted agrees P sel =
      let c = column plan i low in
      let resp : Respects P = λ k k' e. sel k k' (pg.same_keys k k' e) in
      let h =
        fold_ops-Holds views b₀ b name plan ops s s' P i low made found changes folded resp inside
          below lows small in
      let keyed : Keyed b.plans = rw (fold_ops-plans ops b₀ b folded) (new-Keyed views b₀ made) in
      let d₁ = exec_all exec (truncations b.truncated b.plans) d in
      upserts-total exec pg c P b.deltas b.plans us name plan h.groups d₁ sel keyed h.plan_is
        h.stored h.fits emitted
      ∙ ap (λ rows. table_total c P rows +ℤ total c P h.groups)
          (truncations-table exec pg b.truncated b.plans name plan d keyed h.plan_is)
      ∙ ap (λ z. z +ℤ total c P h.groups)
          (emptied-total c P b.truncated name (pg.table d name) _ (agrees P sel))
      ∙ h.balance

  rows_column :
      (views : List ViewSpec) (b₀ : DeltaBatch) (name : Text) (plan : Plan) (low : ℤ)
      → new views ≡ ok b₀
      → get name b₀.plans ≡ ok plan
      → (column plan 0 low ≡ row_count low) × (0 < length plan.zeros)
  rows_column views b₀ name plan low made found =
      let fresh = new-IsFresh views b₀ name plan made found in
      rw fresh.built.zeros_are (refl, omega arith)

  statements-Agrees :
      (views : List ViewSpec) (b₀ b : DeltaBatch) (name : Text) (plan : Plan) (ops : List Op)
      (s s' : List Row) (i : ℕ) (low : ℤ) (ss : List Statement) (d : D)
      → new views ≡ ok b₀
      → get name b₀.plans ≡ ok plan
      → Changes name ops s s'
      → fold_ops ops b₀ ≡ ok b
      → i < length plan.zeros
      → low ≤ℤ pos 0
      → All (OpIsLow name low plan) ops
      → volume name plan i low ops < coef_limit
      → volume name plan 0 low ops < coef_limit
      → statements b ≡ ok ss
      → Agrees exec pg plan (column plan i low) s (pg.table d name)
      → Agrees exec pg plan (column plan 0 low) s (pg.table d name)
      → Agrees exec pg plan (column plan i low) s' (pg.table (exec_all exec ss d) name)
        × Agrees exec pg plan (column plan 0 low) s' (pg.table (exec_all exec ss d) name)
  unfolding statements
  statements-Agrees views b₀ b name plan ops s s' i low ss d made found changes folded inside below
        lows small few emitted agrees counts =
      let (us, up, e₁) = >>=-ok (upserts b.deltas b.plans) _ emitted in
      let (cs, clean, e₂) = >>=-ok (cleanups b.truncated b.deltas b.plans) _ e₁ in
      let tr = truncations b.truncated b.plans in
      let d₂ = exec_all exec us (exec_all exec tr d) in
      let (is_count, zero_inside) = rows_column views b₀ name plan low made found in
      let column_i =
        upserted-Agrees views b₀ b name plan ops s s' i low us d made found changes folded inside
          below lows small up agrees in
      let column_0 =
        upserted-Agrees views b₀ b name plan ops s s' 0 low us d made found changes folded
          zero_inside below lows few up counts in
      let same = fold_ops-plans ops b₀ b folded in
      let keyed : Keyed b.plans = rw same (new-Keyed views b₀ made) in
      let found' : get name b.plans ≡ ok plan = rw same found in
      rw
        (
          ← ok-injective e₂,
          exec_all-append exec pg (tr ++ us) cs d,
          exec_all-append exec pg tr us d,
        )
        (elim (cleanups-table exec pg b.truncated b.deltas b.plans cs name plan d₂ keyed found'
          clean) [
            | inl kept ↦ rw kept (column_i, column_0)
            | inr cleaned ↦
                let counted = rw is_count at column_0 in
                rw cleaned (
                  live-Agrees exec pg plan (column plan i low) low s' d₂ name column_i counted,
                  live-Agrees exec pg plan (column plan 0 low) low s' d₂ name column_0 counted,
                )
          ])

  -- The statements of a flush keep a target table true to its view. Let a new batch fold the events of
  -- whole transactions, which take the source of a view from the rows `s` to the rows `s'`, and let the
  -- statements of the batch be executed. If in the table before, `__walflux_rows` and storage column `i`
  -- agreed with the view recomputed from `s` for every selection of groups, then afterwards they agree
  -- with the view recomputed from `s'` for every selection `P` of groups. The database is one that
  -- behaves as PostgreSQL documents for the texts and parameters that are executed, and the absolute amounts in both columns, in units that divide
  -- every decimal, are below 28 digits.
  pub flush-recompute :
      (views : List ViewSpec) (b₀ b : DeltaBatch) (name : Text) (plan : Plan) (ops : List Op)
      (s s' : List Row) (i : ℕ) (low : ℤ) (ss : List Statement) (d : D) (P : Key → Bool)
      → new views ≡ ok b₀
      → get name b₀.plans ≡ ok plan
      → Changes name ops s s'
      → fold_ops ops b₀ ≡ ok b
      → i < length plan.zeros
      → low ≤ℤ pos 0
      → All (OpIsLow name low plan) ops
      → volume name plan i low ops < coef_limit
      → volume name plan 0 low ops < coef_limit
      → statements b ≡ ok ss
      → Selects pg.same P
      → Agrees exec pg plan (column plan i low) s (pg.table d name)
      → Agrees exec pg plan (column plan 0 low) s (pg.table d name)
      → (table_total (column plan i low) P (pg.table (exec_all exec ss d) name)
          ≡ recompute (column plan i low) P plan s')
        × (table_total (column plan 0 low) P (pg.table (exec_all exec ss d) name)
            ≡ recompute (column plan 0 low) P plan s')
  flush-recompute views b₀ b name plan ops s s' i low ss d P made found changes folded inside below
        lows small few emitted sel agrees counts =
      let (column_i, column_0) =
        statements-Agrees views b₀ b name plan ops s s' i low ss d made found changes folded inside
          below lows small few emitted agrees counts in
      (column_i P sel, column_0 P sel)
