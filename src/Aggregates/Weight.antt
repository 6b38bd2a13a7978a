-- ===== src/Aggregates/Weight.antt =====
-- What one source row is worth to a view: the specification of a target row is the sum of this over
-- the source rows of its group, which is what the view's `SELECT … GROUP BY` computes.
use walflux_postgres_increme.Prelude.{
  ℕ, ◌+◌, ◌≤◌, ◌<◌, ◌≡◌, refl, sym, subst, Bool, true, false, List, [], ◌∷◌, ◌++◌, length, Result,
  ok, err, >>=-ok, ◌>>=◌, arith,
}
use walflux_postgres_increme.Prelude.Int.{ℤ, pos, ◌+ℤ◌, abs, int_laws}
use walflux_postgres_increme.Decimal.{coef_limit, Sign, plus, minus, sign_ℤ}
use walflux_postgres_increme.Value.{Row}
use walflux_postgres_increme.Aggregates.Spec.{Num, int}
use walflux_postgres_increme.Aggregates.Delta.{row_deltas, times_all, times_num}
use walflux_postgres_increme.Aggregates.Batch.{
  Key, Groups, Plan, key_of, check_columns, bump, apply_row,
}
use walflux_postgres_increme.Aggregates.Measure.{
  entry, times_num_exact, entry-times_all, length-times_all, abs-sign_ℤ,
}
use walflux_postgres_increme.Aggregates.Totals.{
  Column, amount, Fits, GroupsFit, mass, select, total, Respects, bump-total,
}

-- The group of a row, and 1 for the row itself before its contribution to each storage column.
abbrev pub contribution : Plan → Row → Result (Key × List Num)
contribution plan row = do
  key ← key_of plan.view.group_by row
  ds ← row_deltas plan.view.aggregates row
  ok (key, int (pos 1) ∷ ds)

module _ (c : Column) where
  abbrev pub worth : (Key → Bool) → Result (Key × List Num) → ℤ
  worth P (ok (key, ds)) = select c (P key) (amount c ds)
  worth P (err _) = pos 0

  abbrev pub size : Result (Key × List Num) → ℕ
  size (ok (_, ds)) = abs (amount c ds)
  size (err _) = 0

  abbrev pub FitsIn : Result (Key × List Num) → Type 0
  FitsIn (ok (_, ds)) = (c.index < length ds) × Fits c ds
  FitsIn (err _) = Unit

  select_sign : (b : Bool) (s : Sign) (z : ℤ) → select c b (sign_ℤ s z) ≡ sign_ℤ s (select c b z)
  select_sign true s z = refl
  select_sign false plus z = refl
  select_sign false minus z = omega int_laws

  -- The signed contribution of a row, whose column is exact.
  signed_amount :
      (s : Sign) (ds : List Num)
      → (c.index < length ds) × Fits c ds
      → abs (amount c ds) < coef_limit
      → (c.index < length (times_all s ds))
        × (amount c (times_all s ds) ≡ sign_ℤ s (amount c ds))
        × Fits c (times_all s ds)
  signed_amount s ds (short, fits) small =
      let (m, f) = times_num_exact c.low s c.is_decimal (entry c.index ds) fits small in
      (
        rw length-times_all short,
        rw (entry-times_all c.index s ds short) m,
        rw (entry-times_all c.index s ds short) f,
      )

  abbrev pub Applied : (Key → Bool) → Sign → Result (Key × List Num) → Groups → Groups → Type 0
  Applied P sign r gs gs' =
      (total c P gs' ≡ total c P gs +ℤ sign_ℤ sign (worth P r))
      × (mass c gs' ≤ mass c gs + size r)
      × GroupsFit c gs'

  signed_bump :
      (P : Key → Bool) (key : Key) (zeros ds : List Num) (sign : Sign) (gs gs' : Groups)
      → Respects P
      → bump key zeros (times_all sign ds) gs ≡ ok gs'
      → Fits c zeros
      → amount c zeros ≡ pos 0
      → GroupsFit c gs
      → (c.index < length ds) × Fits c ds
      → mass c gs + abs (amount c ds) < coef_limit
      → Applied P sign (ok (key, ds)) gs gs'
  signed_bump P key zeros ds sign gs gs' resp e fz z fg fd small =
      let (short, m, f) = signed_amount sign ds fd (omega arith) in
      let same : abs (amount c (times_all sign ds)) ≡ abs (amount c ds) =
        rw m (abs-sign_ℤ sign (amount c ds)) in
      let (sum, bound, rest) =
        bump-total c P key zeros (times_all sign ds) gs gs' resp e short fz z f fg (omega arith) in
      (rw (sum, m, select_sign (P key) sign (amount c ds)), omega arith, rest)

  -- One row event moves the total by the signed worth of its row.
  pub apply_row-total :
      (P : Key → Bool) (plan : Plan) (row : Row) (sign : Sign) (gs gs' : Groups)
      → Respects P
      → apply_row plan row sign gs ≡ ok gs'
      → Fits c plan.zeros
      → amount c plan.zeros ≡ pos 0
      → GroupsFit c gs
      → FitsIn (contribution plan row)
      → mass c gs + size (contribution plan row) < coef_limit
      → Applied P sign (contribution plan row) gs gs'
  unfolding apply_row times_all times_num
  apply_row-total P plan row sign gs gs' resp e fz z fg =
      let (_, _, e₁) = >>=-ok (check_columns plan.needed row) _ e in
      let (key, ek, e₂) = >>=-ok (key_of plan.view.group_by row) _ e₁ in
      let (ds, ed, e₃) = >>=-ok (row_deltas plan.view.aggregates row) _ e₂ in
      let found : contribution plan row ≡ ok (key, int (pos 1) ∷ ds) = rw (ek, ed) in
      subst (λ r. FitsIn r → mass c gs + size r < coef_limit → Applied P sign r gs gs') (sym found)
        (signed_bump P key plan.zeros (int (pos 1) ∷ ds) sign gs gs' resp e₃ fz z fg)

module _ (c : Column) (P : Key → Bool) (plan : Plan) where
  -- The column of the rows that `P` selects, aggregated from scratch.
  abbrev pub recompute : List Row → ℤ
  recompute [] = pos 0
  recompute (row ∷ s) = worth c P (contribution plan row) +ℤ recompute s

  pub recompute-append : (s t : List Row) → recompute (s ++ t) ≡ recompute s +ℤ recompute t
  recompute-append [] t = omega int_laws
  recompute-append (row ∷ s) t = rw (recompute-append s t) (omega int_laws)
