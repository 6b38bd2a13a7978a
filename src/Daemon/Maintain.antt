-- ===== src/Daemon/Maintain.antt =====
-- Folding the events of whole transactions into a batch accounts, for every view, every storage
-- column and every test on keys, for the change of the source.
use walflux_postgres_increme.Prelude.{
  ℕ, ◌+◌, ◌≤◌, ◌<◌, ◌≡◌, refl, ap, subst, ◌∙◌, inl, inr, Bool, false, List, [], ◌∷◌, ◌++◌, Text,
  ◌=t◌, =t_refl, All, if◌then◌else◌, ok, >>=-ok, ok-injective, arith,
}
use walflux_postgres_increme.Prelude.Int.{ℤ, pos, ◌+ℤ◌, neg, int_laws}
use walflux_postgres_increme.Decimal.{coef_limit, Sign, plus, minus, sign_ℤ}
use walflux_postgres_increme.Value.{Row}
use walflux_postgres_increme.Aggregates.Batch.{
  Key, Plan, DeltaBatch, apply, apply_insert, apply_delete, apply_update,
}
use walflux_postgres_increme.Aggregates.Totals.{Column, amount, Fits, Respects}
use walflux_postgres_increme.Aggregates.Weight.{
  contribution, worth, size, FitsIn, recompute, recompute-append,
}
use walflux_postgres_increme.Daemon.Op.{
  Op, insert, update, delete, truncate, view_of, fold_op, fold_ops,
}
use walflux_postgres_increme.Daemon.Source.{Effect, Change, Changes, rows_of}
use walflux_postgres_increme.Daemon.Holds.{
  Holds, apply-Holds, truncate-Holds, Untouched, Untouched-trans, Untouched-Holds, apply-Untouched,
  truncate-Untouched,
}

module _ (c : Column) (name : Text) (plan : Plan) where
  abbrev pub rows_size : List Row → ℕ
  rows_size [] = 0
  rows_size (row ∷ rows) = size c (contribution plan row) + rows_size rows

  abbrev pub op_size : Op → ℕ
  op_size op = if view_of op =t name then rows_size (rows_of op) else 0

  abbrev pub OpFits : Op → Type 0
  OpFits op = view_of op ≡ name → All (λ row. FitsIn c (contribution plan row)) (rows_of op)

  abbrev pub ops_size : List Op → ℕ
  ops_size [] = 0
  ops_size (op ∷ ops) = op_size op + ops_size ops

module _ (c : Column) (P : Key → Bool) (resp : Respects P) (name : Text) (plan : Plan)
    (zeros_fit : Fits c plan.zeros) (zeros_zero : amount c plan.zeros ≡ pos 0) where
  abbrev current : List Row → ℤ
  current s = recompute c P plan s

  row_worth : Row → ℤ
  row_worth row = worth c P (contribution plan row)

  -- The state of the batch after the events so far.
  abbrev pub Kept : ℤ → DeltaBatch → List Row → ℕ → Type 0
  Kept start b s used = Holds c P name plan start b (current s) used

  remove_one :
      (before after : List Row) (row : Row)
      → current (before ++ row ∷ after) +ℤ neg (row_worth row) ≡ current (before ++ after)
  unfolding row_worth
  remove_one before after row =
      rw (recompute-append c P plan before (row ∷ after), recompute-append c P plan before after)
        (omega int_laws)

  add_one :
      (before after : List Row) (row : Row)
      → current (before ++ after) +ℤ row_worth row ≡ current (before ++ row ∷ after)
  unfolding row_worth
  add_one before after row =
      rw (recompute-append c P plan before (row ∷ after), recompute-append c P plan before after)
        (omega int_laws)

  restate :
      (start z z' : ℤ) (used used' : ℕ) (b : DeltaBatch)
      → z ≡ z'
      → used ≤ used'
      → Holds c P name plan start b z used
      → Holds c P name plan start b z' used'
  restate start z z' used used' b same le h = record {
    groups = h.groups;
    plan_is = h.plan_is;
    stored = h.stored;
    balance = h.balance ∙ same;
    bounded = omega (arith, h.bounded);
    fits = h.fits;
  }

  -- One event of this view, with the view's name in its place.
  abbrev Step : ℤ → ℕ → DeltaBatch → DeltaBatch → List Row → List Row → List Row → Type 0
  Step start used b b' s s' rows =
      All (λ row. FitsIn c (contribution plan row)) rows
      → used + rows_size c name plan rows < coef_limit
      → Kept start b s used
      → Kept start b' s' (used + rows_size c name plan rows)

  applied :
      (start z : ℤ) (used : ℕ) (b b' : DeltaBatch) (row : Row) (sign : Sign)
      → apply name row sign b ≡ ok b'
      → FitsIn c (contribution plan row)
      → used + size c (contribution plan row) < coef_limit
      → Holds c P name plan start b z used
      → Holds c P name plan start b'
          (z +ℤ sign_ℤ sign (row_worth row))
          (used + size c (contribution plan row))
  unfolding row_worth
  applied = apply-Holds c P resp name plan zeros_fit zeros_zero

  insert-Step :
      (start : ℤ) (used : ℕ) (b b' : DeltaBatch) (s s' : List Row) (row : Row)
      → Effect (insert name row) s s'
      → fold_op (insert name row) b ≡ ok b'
      → Step start used b b' s s' (row ∷ [])
  unfolding fold_op apply_insert row_worth
  insert-Step start used b b' s s' row effect e fits small h =
      restate start _ _ _ _ b' (rw effect (add_one [] s row)) (omega arith)
        (applied start (current s) used b b' row plus e fits.0 (omega arith) h)

  delete-Step :
      (start : ℤ) (used : ℕ) (b b' : DeltaBatch) (s s' : List Row) (row : Row)
      → Effect (delete name row) s s'
      → fold_op (delete name row) b ≡ ok b'
      → Step start used b b' s s' (row ∷ [])
  unfolding fold_op apply_delete
  delete-Step start used b b' s s' row (before, after, at, at') e fits small h =
      restate start _ _ _ _ b' (rw (at, at') (remove_one before after row)) (omega arith)
        (applied start (current s) used b b' row minus e fits.0 (omega arith) h)

  update-Step :
      (start : ℤ) (used : ℕ) (b b' : DeltaBatch) (s s' : List Row) (old new : Row)
      → Effect (update name old new) s s'
      → fold_op (update name old new) b ≡ ok b'
      → Step start used b b' s s' (old ∷ new ∷ [])
  unfolding fold_op apply_update
  update-Step start used b b' s s' old new (before, after, at, at') e fits small h =
      let (m, e₁, e₂) = >>=-ok (apply name old minus b) _ e in
      restate start _ _ _ _ b'
        (rw (at, at', remove_one before after old) (add_one before after new)) (omega arith)
        (applied start _ _ m b' new plus e₂ fits.1.0 (omega arith)
          (applied start (current s) used b m old minus e₁ fits.0 (omega arith) h))

  own-Step :
      (start : ℤ) (used : ℕ) (b b' : DeltaBatch) (s s' : List Row) (op : Op)
      → view_of op ≡ name
      → Effect op s s'
      → fold_op op b ≡ ok b'
      → Step start used b b' s s' (rows_of op)
  own-Step start used b b' s s' (insert v row) mine effect e fits small h =
      insert-Step start used b b' s s' row effect
        (rw (ap (λ (n : Text). fold_op (insert n row) b) mine) at e) fits small h
  own-Step start used b b' s s' (delete v row) mine effect e fits small h =
      delete-Step start used b b' s s' row effect
        (rw (ap (λ (n : Text). fold_op (delete n row) b) mine) at e) fits small h
  own-Step start used b b' s s' (update v old new) mine effect e fits small h =
      update-Step start used b b' s s' old new effect
        (rw (ap (λ (n : Text). fold_op (update n old new) b) mine) at e) fits small h
  own-Step start used b b' s s' (truncate v) mine effect e fits small h =
      restate start _ _ _ _ b' (rw effect) (omega arith) (
        truncate-Holds c P resp name plan zeros_fit zeros_zero start (current s) used b b'
          (unfold fold_op in rw (ap (λ (n : Text). fold_op (truncate n) b) mine) at e) h)

  op-Untouched :
      (b b' : DeltaBatch) (op : Op)
      → (view_of op =t name) ≡ false
      → fold_op op b ≡ ok b'
      → Untouched name b b'
  unfolding fold_op apply_insert apply_delete apply_update
  op-Untouched b b' (insert v row) differs e = apply-Untouched name v row plus b b' differs e
  op-Untouched b b' (delete v row) differs e = apply-Untouched name v row minus b b' differs e
  op-Untouched b b' (truncate v) differs e = truncate-Untouched name v b b' differs e
  op-Untouched b b' (update v old new) differs e =
      let (m, e₁, e₂) = >>=-ok (apply v old minus b) _ e in
      Untouched-trans name b m b' (apply-Untouched name v old minus b m differs e₁)
        (apply-Untouched name v new plus m b' differs e₂)

  -- One event of any view.
  op-Kept :
      (start : ℤ) (used : ℕ) (b b' : DeltaBatch) (s s' : List Row) (op : Op)
      → Change name op s s'
      → fold_op op b ≡ ok b'
      → OpFits c name plan op
      → used + op_size c name plan op < coef_limit
      → Kept start b s used
      → Kept start b' s' (used + op_size c name plan op)
  op-Kept start used b b' s s' op (inl (mine, effect)) e fits small h =
      let all : op_size c name plan op ≡ rows_size c name plan (rows_of op) =
        rw (mine, =t_refl name) in
      restate start _ _ _ _ b' refl (omega arith)
        (own-Step start used b b' s s' op mine effect e (fits mine) (omega arith) h)
  op-Kept start used b b' s s' op (inr (differs, same)) e fits small h =
      restate start _ _ _ _ b' (rw same) (omega arith) (
        Untouched-Holds c P resp name plan zeros_fit zeros_zero start (current s) used b b'
          (op-Untouched b b' op differs e) h)

  -- All the events of a batch.
  pub ops-Kept :
      (start : ℤ) (used : ℕ) (b b' : DeltaBatch) (s s' : List Row) (ops : List Op)
      → Changes name ops s s'
      → fold_ops ops b ≡ ok b'
      → All (OpFits c name plan) ops
      → used + ops_size c name plan ops < coef_limit
      → Kept start b s used
      → Kept start b' s' (used + ops_size c name plan ops)
  unfolding fold_ops
  ops-Kept start used b b' s s' [] same e fits small h =
      subst (λ d. Kept start d s' (used + 0)) (ok-injective e)
        (restate start _ _ _ _ b (rw same) (omega arith) h)
  ops-Kept start used b b' s s' (op ∷ ops) (t, change, changes) e fits small h =
      let (m, e₁, e₂) = >>=-ok (fold_op op b) _ e in
      restate start _ _ _ _ b' refl (omega arith) (
        ops-Kept start (used + op_size c name plan op) m b' t s' ops changes e₂ fits.1 (omega arith)
          (op-Kept start used b m s t op change e₁ fits.0 (omega arith) h))
