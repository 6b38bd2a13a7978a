-- ===== src/Decimal/Exact.antt =====
-- Decimal arithmetic is exact while the coefficients stay below 28 digits: a value is read in units
-- of a power of ten, `10 ^ low`, in which all the values of a sum are whole.
use native.Mathlib.Nat.{pow-zero, pow-suc, add-zero, add-suc}
use walflux_postgres_increme.Prelude.{ℕ, zero, suc, ◌+◌, ◌*◌, ◌^◌, ◌≤◌, ◌<◌, ◌≡◌, refl, ap, arith}
use walflux_postgres_increme.Prelude.Int.{
  ℤ, ◌+ℤ◌, neg, ◌*ℕ◌, ◌≤ℤ◌, abs, +ℤ_parts, pos_part-neg, neg_part-neg, pos_part-*ℕ, neg_part-*ℕ,
  int_laws,
}
use walflux_postgres_increme.Decimal.{
  Decimal, coef_limit, fix, min_ℤ, gap, ◌+d◌, Sign, plus, minus, sign_ℤ, times,
}

pub *ℕ_+ℤ : (a b : ℤ) (k : ℕ) → (a +ℤ b) *ℕ k ≡ a *ℕ k +ℤ b *ℕ k
*ℕ_+ℤ a b k = omega (int_laws, ap (λ (t : ℕ). t * k) (+ℤ_parts a b))

*ℕ_assoc : (a : ℤ) (j k : ℕ) → a *ℕ j *ℕ k ≡ a *ℕ (j * k)
*ℕ_assoc a j k =
    omega
      (int_laws, ap (λ (t : ℕ). t * k) (pos_part-*ℕ a j), ap (λ (t : ℕ). t * k) (neg_part-*ℕ a j))

pub neg-*ℕ : (a : ℤ) (k : ℕ) → neg a *ℕ k ≡ neg (a *ℕ k)
neg-*ℕ a k =
    omega (int_laws, ap (λ (t : ℕ). t * k) (pos_part-neg a), ap (λ (t : ℕ). t * k) (neg_part-neg a))

pow_add : (a b : ℕ) → 10 ^ (a + b) ≡ 10 ^ a * 10 ^ b
pow_add a zero = rw (add-zero, pow-zero) (omega arith)
pow_add a (suc b) =
    rw (add-suc, pow-suc, pow-suc) (omega (arith, ap (λ (t : ℕ). t * 10) (pow_add a b)))

pow_pos : (k : ℕ) → 1 ≤ 10 ^ k
pow_pos zero = rw pow-zero (omega arith)
pow_pos (suc k) = rw pow-suc (omega (arith, pow_pos k))

-- `d` in units of `10 ^ low`
unfoldable pub units : ℤ → Decimal → ℤ
units low d = d.coef *ℕ (10 ^ gap d.exp low)

gap_add : (low m e : ℤ) → low ≤ℤ m → m ≤ℤ e → gap e low ≡ gap e m + gap m low
gap_add low m e h k = omega arith

fix-exact : (c e : ℤ) → abs c < coef_limit → fix c e ≡ record { coef = c; exp = e }
unfolding fix
fix-exact c e h = ground arith

units_regroup :
    (c low m e : ℤ)
    → low ≤ℤ m
    → m ≤ℤ e
    → c *ℕ (10 ^ gap e m) *ℕ (10 ^ gap m low) ≡ c *ℕ (10 ^ gap e low)
units_regroup c low m e h k = rw (*ℕ_assoc, gap_add low m e h k, pow_add)

abs-*ℕ : (c : ℤ) (k : ℕ) → 1 ≤ k → abs c ≤ abs (c *ℕ k)
abs-*ℕ c k h = rw (pos_part-*ℕ, neg_part-*ℕ) (grind arith)

min_low : (low a b : ℤ) → low ≤ℤ a → low ≤ℤ b → low ≤ℤ min_ℤ a b
min_low low a b h k = ground arith

min_left : (a b : ℤ) → min_ℤ a b ≤ℤ a
min_left a b = ground arith

min_right : (a b : ℤ) → min_ℤ a b ≤ℤ b
min_right a b = ground arith

-- A sum whose value, in units below every digit of its terms, has at most 28 digits is exact.
pub +d_exact :
    (low : ℤ) (a b : Decimal)
    → low ≤ℤ a.exp
    → low ≤ℤ b.exp
    → abs (units low a +ℤ units low b) < coef_limit
    → (units low (a +d b) ≡ units low a +ℤ units low b) × (low ≤ℤ (a +d b).exp)
unfolding ◌+d◌ units
+d_exact low a b la lb h =
    let m = min_ℤ a.exp b.exp in
    let sum = a.coef *ℕ (10 ^ gap a.exp m) +ℤ b.coef *ℕ (10 ^ gap b.exp m) in
    let lm : low ≤ℤ m = min_low low a.exp b.exp la lb in
    let whole : sum *ℕ (10 ^ gap m low)
        ≡ a.coef *ℕ (10 ^ gap a.exp low) +ℤ b.coef *ℕ (10 ^ gap b.exp low) =
      rw (
        *ℕ_+ℤ,
        units_regroup a.coef low m a.exp lm (min_left a.exp b.exp),
        units_regroup b.coef low m b.exp lm (min_right a.exp b.exp),
      ) in
    let small : abs sum < coef_limit =
      omega
        (arith, abs-*ℕ sum (10 ^ gap m low) (pow_pos (gap m low)), ap (λ (t : ℤ). abs t) whole) in
    rw (fix-exact sum m small) (whole, lm)

-- The sign of a value of at most 28 digits changes without rounding.
pub times_exact :
    (low : ℤ) (s : Sign) (d : Decimal)
    → low ≤ℤ d.exp
    → abs (units low d) < coef_limit
    → (units low (times s d) ≡ sign_ℤ s (units low d)) × (low ≤ℤ (times s d).exp)
unfolding times units
times_exact low plus d l h =
    let small : abs d.coef < coef_limit =
      omega (arith, abs-*ℕ d.coef (10 ^ gap d.exp low) (pow_pos (gap d.exp low))) in
    rw (fix-exact d.coef d.exp small) (refl, l)
times_exact low minus d l h =
    let small : abs (neg d.coef) < coef_limit =
      omega (int_laws, abs-*ℕ d.coef (10 ^ gap d.exp low) (pow_pos (gap d.exp low))) in
    rw (fix-exact (neg d.coef) d.exp small) (neg-*ℕ d.coef (10 ^ gap d.exp low), l)
