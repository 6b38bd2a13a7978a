-- ===== src/Aggregates/Totals.antt =====
-- The total of one storage column over the groups that a test `P` on keys selects, and how a bump of
-- one group changes it. `P` stands for "the key of one target row": it has to agree on keys that
-- Python's `==` identifies.
use walflux_postgres_increme.Prelude.{
  ℕ, ◌+◌, ◌≤◌, ◌<◌, ◌≡◌, ap, subst, Bool, List, [], ◌∷◌, length, All, if◌then◌else◌, true, false,
  ok, >>=-ok, ok-injective, arith, Bool-cases, inl, inr,
}
use walflux_postgres_increme.Prelude.Int.{ℤ, pos, ◌+ℤ◌, abs, int_laws, +ℤ_comm, +ℤ_assoc, abs-+ℤ}
use walflux_postgres_increme.Decimal.{coef_limit}
use walflux_postgres_increme.Value.{key_eq}
use walflux_postgres_increme.Aggregates.Spec.{Num}
use walflux_postgres_increme.Aggregates.Delta.{add_all}
use walflux_postgres_increme.Aggregates.Batch.{Key, Groups, bump}
use walflux_postgres_increme.Aggregates.Measure.{
  entry, measure, AtColumn, add_num_exact, entry-add_all,
}

-- `P` sees no difference between equal keys.
abbrev pub Respects : (Key → Bool) → Type 0
Respects P = (a b : Key) → key_eq a b ≡ true → P a ≡ P b

-- One column: its index, its unit and whether it holds decimals.
pub record Column : Type 0 where
  pub index : ℕ
  pub low : ℤ
  pub is_decimal : Bool

module _ (c : Column) where
  -- the column's entry of a list of deltas
  abbrev pub amount : List Num → ℤ
  amount ds = measure c.low (entry c.index ds)

  abbrev pub Fits : List Num → Type 0
  Fits ds = AtColumn c.low c.is_decimal (entry c.index ds)

  abbrev pub GroupsFit : Groups → Type 0
  GroupsFit = All (λ g. Fits g.1)

  -- the sum of absolute amounts
  abbrev pub mass : Groups → ℕ
  mass [] = 0
  mass ((_, g) ∷ gs) = abs (amount g) + mass gs

  abbrev pub select : Bool → ℤ → ℤ
  select b z = if b then z else pos 0

  abbrev pub total : (Key → Bool) → Groups → ℤ
  total P [] = pos 0
  total P ((k, g) ∷ gs) = select (P k) (amount g) +ℤ total P gs

  pub add_all_exact :
      (g ds r : List Num)
      → add_all g ds ≡ ok r
      → c.index < length ds
      → Fits g
      → Fits ds
      → abs (amount g) + abs (amount ds) < coef_limit
      → (amount r ≡ amount g +ℤ amount ds) × Fits r
  add_all_exact g ds r e h fg fd small = rw (entry-add_all c.index g ds r e h) (
      add_num_exact c.low c.is_decimal (entry c.index g) (entry c.index ds) fg fd
        (omega (arith, abs-+ℤ (amount g) (amount ds))))

  select_add : (b : Bool) (x y t : ℤ) → select b (x +ℤ y) +ℤ t ≡ select b x +ℤ t +ℤ select b y
  select_add true x y t = omega int_laws
  select_add false x y t = omega int_laws

  abbrev Bumped : (Key → Bool) → Key → List Num → Groups → Groups → Type 0
  Bumped P key ds gs gs' =
      (total P gs' ≡ total P gs +ℤ select (P key) (amount ds))
      × (mass gs' ≤ mass gs + abs (amount ds))
      × GroupsFit gs'

  bump-here :
      (P : Key → Bool) (k key : Key) (g ds r : List Num) (gs : Groups)
      → P k ≡ P key
      → (amount r ≡ amount g +ℤ amount ds) × Fits r
      → GroupsFit gs
      → Bumped P key ds ((k, g) ∷ gs) ((k, r) ∷ gs)
  bump-here P k key g ds r gs same (sum, fits) rest = (
    rw (sum, same) (select_add (P key) (amount g) (amount ds) (total P gs)),
    rw sum (omega (arith, abs-+ℤ (amount g) (amount ds))),
    (fits, rest),
  )

  bump-new :
      (P : Key → Bool) (key : Key) (zeros ds r : List Num)
      → amount zeros ≡ pos 0
      → (amount r ≡ amount zeros +ℤ amount ds) × Fits r
      → Bumped P key ds [] ((key, r) ∷ [])
  bump-new P key zeros ds r z (sum, fits) =
      let same : amount r ≡ amount ds = rw (sum, z) (omega int_laws) in
      (rw (same, +ℤ_comm), rw same (omega arith), (fits, tt))

  bump-there :
      (P : Key → Bool) (k key : Key) (g ds : List Num) (gs gs' : Groups)
      → Fits g
      → Bumped P key ds gs gs'
      → Bumped P key ds ((k, g) ∷ gs) ((k, g) ∷ gs')
  bump-there P k key g ds gs gs' fits (sum, small, rest) =
      (rw (sum, +ℤ_assoc), omega arith, (fits, rest))

  -- A bump adds its amount to the total exactly where `P` selects its key.
  pub bump-total :
      (P : Key → Bool) (key : Key) (zeros ds : List Num) (gs gs' : Groups)
      → Respects P
      → bump key zeros ds gs ≡ ok gs'
      → c.index < length ds
      → Fits zeros
      → amount zeros ≡ pos 0
      → Fits ds
      → GroupsFit gs
      → mass gs + abs (amount ds) < coef_limit
      → Bumped P key ds gs gs'
  unfolding bump
  bump-total P key zeros ds [] gs' resp e h fz z fd fg small =
      let (r, e', built) = >>=-ok (add_all zeros ds) (λ r. ok ((key, r) ∷ [])) e in
      subst (Bumped P key ds []) (ok-injective built) (
        bump-new P key zeros ds r z
          (add_all_exact zeros ds r e' h fz fd (omega (arith, ap (λ (t : ℤ). abs t) z))))
  bump-total P key zeros ds ((k, g) ∷ gs) gs' resp e h fz z fd fg small =
      elim (Bool-cases (key_eq k key)) [
        | inl same ↦
            let (r, e', built) = >>=-ok (add_all g ds) (λ r. ok ((k, r) ∷ gs)) (rw same at e) in
            subst (Bumped P key ds ((k, g) ∷ gs)) (ok-injective built) (
              bump-here P k key g ds r gs (resp k key same)
                (add_all_exact g ds r e' h fg.0 fd (omega arith)) fg.1)
        | inr different ↦
            let (r, e', built) =
              >>=-ok (bump key zeros ds gs) (λ r. ok ((k, g) ∷ r)) (rw different at e) in
            subst (Bumped P key ds ((k, g) ∷ gs)) (ok-injective built) (
              bump-there P k key g ds gs r fg.0
                (bump-total P key zeros ds gs r resp e' h fz z fd fg.1 (omega arith)))
      ]
