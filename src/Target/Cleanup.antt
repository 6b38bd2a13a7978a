-- ===== src/Target/Cleanup.antt =====
-- The clean-up of walflux/aggregates.py deletes the rows whose `__walflux_rows` is not positive. In a table
-- that agrees with its view such a row has nothing in any other column.
use walflux_postgres_increme.Prelude.{
  ℕ, ◌+◌, ◌≡◌, refl, sym, ◌∙◌, Bool, true, false, List, [], ◌∷◌, ◌++◌, append_assoc, All, Text, ◌⊎◌,
  inl, inr, Result, ok, err, ◌>>=◌, Bool-cases, arith,
}
use walflux_postgres_increme.Prelude.Int.{ℤ, pos, ◌+ℤ◌, leb_ℤ, int_laws, pos-+ℤ}
use walflux_postgres_increme.Value.{Row}
use walflux_postgres_increme.Aggregates.Spec.{Num, int}
use walflux_postgres_increme.Aggregates.Delta.{row_deltas}
use walflux_postgres_increme.Aggregates.Batch.{Key, Plan, key_of}
use walflux_postgres_increme.Aggregates.Statements.{Statement}
use walflux_postgres_increme.Aggregates.Totals.{Column, select}
use walflux_postgres_increme.Aggregates.Weight.{worth, recompute}
use walflux_postgres_increme.Target.Table.{
  TargetRow, Table, value, table_total, live, Selects, Postgres,
}

-- `__walflux_rows`
abbrev pub row_count : ℤ → Column
row_count low = record { index = 0; low = low; is_decimal = false }

not_positive : (n : ℕ) → leb_ℤ (pos n) (pos 0) ≡ true → n ≡ 0
not_positive n h = ground arith

nothing : (c : Column) (q : Bool) (z : ℤ) → select c q (pos 0) +ℤ z ≡ z
nothing c true z = omega int_laws
nothing c false z = omega int_laws

module _ (c : Column) (low : ℤ) (P : Key → Bool) where
  Counted : Result (Key × List Num) → Type 0
  Counted r =
      (worth (row_count low) P r ≡ pos 1)
      ⊎ ((worth (row_count low) P r ≡ pos 0) × (worth c P r ≡ pos 0))

  selected-Counted :
      (k : Key) (ds : List Num) (q : Bool) → P k ≡ q → Counted (ok (k, int (pos 1) ∷ ds))
  unfolding Counted
  selected-Counted k ds true e = inl (rw e refl)
  selected-Counted k ds false e = inr (rw e refl, rw e refl)

  bound-Counted :
      (kr : Result Key) (dr : Result (List Num))
      → Counted (kr >>= λ k. dr >>= λ ds. ok (k, int (pos 1) ∷ ds))
  unfolding Counted
  bound-Counted (err x) dr = inr (refl, refl)
  bound-Counted (ok k) (err x) = inr (refl, refl)
  bound-Counted (ok k) (ok ds) = selected-Counted k ds (P k) refl

  -- The count of the selected rows is a number, and where it is zero every column is.
  recompute-row_count :
      (plan : Plan) (s : List Row)
      → (n : ℕ) × (recompute (row_count low) P plan s ≡ pos n)
        × (n ≡ 0 → recompute c P plan s ≡ pos 0)
  unfolding Counted
  recompute-row_count plan [] = (0, refl, λ e. refl)
  recompute-row_count plan (row ∷ s) =
      let (n, counted, none_left) = recompute-row_count plan s in
      elim (bound-Counted (key_of plan.view.group_by row) (row_deltas plan.view.aggregates row)) [
        | inl one ↦ (1 + n, rw (one, counted) (pos-+ℤ 1 n), λ e. absurd (omega arith))
        | inr (zero_count, zero_worth) ↦ (
          n,
          rw (zero_count, counted) (omega int_laws),
          λ e. rw (zero_worth, none_left e) (omega int_laws),
        )
      ]

module _ {D : Type 0} (exec : Statement → D → D) (pg : Postgres exec) (plan : Plan) where
  -- The table holds, for every group of keys, what the view recomputed from the rows has there.
  abbrev pub Agrees : Column → List Row → Table → Type 0
  Agrees c s rows =
      (P : Key → Bool) → Selects pg.same P → table_total c P rows ≡ recompute c P plan s

  abbrev IsIdle : Column → TargetRow → Type 0
  IsIdle c r = leb_ℤ r.count (pos 0) ≡ true → value c r ≡ pos 0

  live-total :
      (c : Column) (P : Key → Bool) (rows : Table)
      → All (IsIdle c) rows
      → table_total c P (live rows) ≡ table_total c P rows
  live-total c P [] h = refl
  live-total c P (r ∷ rows) h = elim (Bool-cases (leb_ℤ r.count (pos 0))) [
    | inl dead ↦
        rw (dead, h.0 dead, live-total c P rows h.1)
          (sym (nothing c (P r.key) (table_total c P rows)))
    | inr alive ↦ rw (alive, live-total c P rows h.1) refl
  ]

  All-splits :
      (Q : TargetRow → Type 0) (rows before after : Table)
      → rows ≡ before ++ after
      → ((b a : Table) (r : TargetRow) → rows ≡ b ++ r ∷ a → Q r)
      → All Q after
  All-splits Q rows before [] e h = tt
  All-splits Q rows before (r ∷ after) e h = (
    h before after r e,
    All-splits Q rows (before ++ r ∷ []) after (e ∙ sym (append_assoc before (r ∷ []) after)) h,
  )

  row-IsIdle :
      (c : Column) (low : ℤ) (s : List Row) (d : D) (name : Text) (b a : Table) (r : TargetRow)
      → Agrees c s (pg.table d name)
      → Agrees (row_count low) s (pg.table d name)
      → pg.table d name ≡ b ++ r ∷ a
      → IsIdle c r
  unfolding value
  row-IsIdle c low s d name b a r agrees counts at dead =
      let P = pg.same r.key in
      let sel = pg.same_selects r.key in
      let (n, counted, none_left) = recompute-row_count c low P plan s in
      let count : r.count ≡ pos n =
        sym (pg.unique d name (row_count low) b a r at) ∙ counts P sel ∙ counted in
      let mine : value c r ≡ recompute c P plan s =
        sym (pg.unique d name c b a r at) ∙ agrees P sel in
      mine ∙ none_left (not_positive n (rw count at dead))

  -- A clean-up takes nothing from a table that agrees.
  pub live-Agrees :
      (c : Column) (low : ℤ) (s : List Row) (d : D) (name : Text)
      → Agrees c s (pg.table d name)
      → Agrees (row_count low) s (pg.table d name)
      → Agrees c s (live (pg.table d name))
  live-Agrees c low s d name agrees counts P sel =
      live-total c P (pg.table d name) (
        All-splits (IsIdle c) (pg.table d name) [] (pg.table d name) refl
          (λ b a r at. row-IsIdle c low s d name b a r agrees counts at))
      ∙ agrees P sel
