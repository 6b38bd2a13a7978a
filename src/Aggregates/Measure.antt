-- ===== src/Aggregates/Measure.antt =====
-- The value of one storage column, as an integer: a count, or a decimal in units of `10 ^ low`.
-- Below 28 digits the additions and signs of `DeltaBatch` are exact in it.
use walflux_postgres_increme.Prelude.{
  ℕ, zero, suc, ◌<◌, ◌≡◌, refl, Bool, true, false, List, [], ◌∷◌, length, ok, >>=-ok, arith,
}
use walflux_postgres_increme.Prelude.Int.{ℤ, ◌+ℤ◌, ◌≤ℤ◌, abs, int_laws}
use walflux_postgres_increme.Decimal.{coef_limit, Sign, plus, minus, sign_ℤ}
use walflux_postgres_increme.Decimal.Exact.{units, +d_exact, times_exact}
use walflux_postgres_increme.Aggregates.Spec.{Num, int, dec, zero_int}
use walflux_postgres_increme.Aggregates.Delta.{add_num, times_num, add_all, times_all}

abbrev pub entry : ℕ → List Num → Num
entry i [] = zero_int
entry zero (n ∷ ns) = n
entry (suc i) (n ∷ ns) = entry i ns

module _ (low : ℤ) where
  abbrev pub measure : Num → ℤ
  measure (int n) = n
  measure (dec d) = units low d

  -- A number of the column's type, with no digit below `low`.
  abbrev pub AtColumn : Bool → Num → Type 0
  AtColumn false (int n) = Unit
  AtColumn false (dec d) = ⊥
  AtColumn true (int n) = ⊥
  AtColumn true (dec d) = low ≤ℤ d.exp

  pub add_num_exact :
      (b : Bool) (x y : Num)
      → AtColumn b x
      → AtColumn b y
      → abs (measure x +ℤ measure y) < coef_limit
      → (measure (add_num x y) ≡ measure x +ℤ measure y) × AtColumn b (add_num x y)
  unfolding add_num
  add_num_exact false (int m) (int n) hx hy h = (refl, tt)
  add_num_exact true (dec d) (dec e) hx hy h = +d_exact low d e hx hy h
  add_num_exact false (dec d) y hx hy h = absurd hx
  add_num_exact true (int m) y hx hy h = absurd hx
  add_num_exact false (int m) (dec e) hx hy h = absurd hy
  add_num_exact true (dec d) (int e) hx hy h = absurd hy

  pub times_num_exact :
      (s : Sign) (b : Bool) (x : Num)
      → AtColumn b x
      → abs (measure x) < coef_limit
      → (measure (times_num s x) ≡ sign_ℤ s (measure x)) × AtColumn b (times_num s x)
  unfolding times_num
  times_num_exact s false (int m) hx h = (refl, tt)
  times_num_exact s true (dec d) hx h = times_exact low s d hx h
  times_num_exact s false (dec d) hx h = absurd hx
  times_num_exact s true (int m) hx h = absurd hx

pub entry-add_all :
    (i : ℕ) (g ds r : List Num)
    → add_all g ds ≡ ok r
    → i < length ds
    → entry i r ≡ add_num (entry i g) (entry i ds)
unfolding add_all
entry-add_all i [] [] r e h = absurd (omega arith)
entry-add_all i (n ∷ g) [] r e h = absurd (omega arith)
entry-add_all i [] (d ∷ ds) r e h = absurd (cc)
entry-add_all zero (n ∷ g) (d ∷ ds) r e h = ground arith
entry-add_all (suc i) (n ∷ g) (d ∷ ds) r e h =
    let (rest, e', built) = >>=-ok (add_all g ds) (λ rest. ok (add_num n d ∷ rest)) e in
    ground (arith, built, entry-add_all i g ds rest e')

pub entry-times_all :
    (i : ℕ) (s : Sign) (ds : List Num)
    → i < length ds
    → entry i (times_all s ds) ≡ times_num s (entry i ds)
unfolding times_all
entry-times_all i s [] h = absurd (omega arith)
entry-times_all zero s (d ∷ ds) h = refl
entry-times_all (suc i) s (d ∷ ds) h = entry-times_all i s ds (omega arith)

pub length-times_all : (s : Sign) (ds : List Num) → length (times_all s ds) ≡ length ds
unfolding times_all
length-times_all s [] = refl
length-times_all s (d ∷ ds) = omega (arith, length-times_all s ds)

pub abs-sign_ℤ : (s : Sign) (z : ℤ) → abs (sign_ℤ s z) ≡ abs z
abs-sign_ℤ plus z = refl
abs-sign_ℤ minus z = omega int_laws
