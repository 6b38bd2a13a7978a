-- ===== src/Decimal.antt =====
-- Python's `decimal.Decimal` as the program uses it: finite values, `+` and `*` rounded half-even to
-- the 28 digits of the default context, and the constructor from text. The sign of a zero is not
-- kept, since Postgres' `numeric` has none; exponents stay far from the context's limits.
pub mod Parse
pub mod Exact
use walflux_postgres_increme.Prelude.{
  ℕ, zero, suc, ◌+◌, ◌-◌, ◌*◌, ◌/◌, ◌%◌, ◌^◌, Bool, ◌&&◌, ◌||◌, ltb, ◌==◌, if◌then◌else◌,
}
use walflux_postgres_increme.Prelude.Int.{
  ℤ, pos, negsuc, pos_part, neg_part, sub_ℕ, ◌+ℤ◌, neg, ◌*ℕ◌, ltb_ℤ, abs,
}

-- coef * 10 ^ exp
pub record Decimal : Type 0 where
  pub coef : ℤ
  pub exp : ℤ

-- `getcontext().prec`, as a bound on the coefficient
abbrev pub coef_limit : ℕ
coef_limit = 10 ^ 28

-- the digits that a coefficient has too many
unfoldable pub excess : ℕ → ℕ → ℕ
excess zero n = 0
excess (suc f) n = let rest = excess f (n / 10) in if ltb n coef_limit then 0 else suc rest

-- n / p, with a half rounded to the even neighbour
unfoldable pub round_half_even : ℕ → ℕ → ℕ
round_half_even n p =
    let q = n / p in
    let r = n % p in if ltb p (2 * r) || (2 * r == p && q % 2 == 1) then q + 1 else q

with_sign : ℤ → ℕ → ℤ
with_sign (pos _) n = pos n
with_sign (negsuc _) n = sub_ℕ 0 n

round_by : ℕ → ℤ → ℤ → Decimal
unfolding round_half_even with_sign ◌+ℤ◌
round_by zero c e = record { coef = c; exp = e }
round_by (suc k) c e =
    let q = round_half_even (abs c) (10 ^ suc k) in
    if q == coef_limit
    then record { coef = with_sign c (10 ^ 27); exp = e +ℤ pos (suc k + 1) }
    else record { coef = with_sign c q; exp = e +ℤ pos (suc k) }

-- the rounding that ends every operation
unfoldable pub fix : ℤ → ℤ → Decimal
unfolding excess round_by
fix c e = round_by (excess (suc (abs c)) (abs c)) c e

abbrev pub min_ℤ : ℤ → ℤ → ℤ
min_ℤ a b = if ltb_ℤ a b then a else b

-- a - b, which is not negative where it is used
abbrev pub gap : ℤ → ℤ → ℕ
gap a b = pos_part a + neg_part b - (neg_part a + pos_part b)

infixl 65 ◌+d◌
unfoldable pub ◌+d◌ : Decimal → Decimal → Decimal
a +d b =
    let m = min_ℤ a.exp b.exp in
    fix (a.coef *ℕ (10 ^ gap a.exp m) +ℤ b.coef *ℕ (10 ^ gap b.exp m)) m

-- An int that is 1 or -1 times a decimal.
pub data Sign : Type 0 where
  plus minus : Sign

abbrev pub sign_ℤ : Sign → ℤ → ℤ
sign_ℤ plus c = c
sign_ℤ minus c = neg c

unfoldable pub times : Sign → Decimal → Decimal
times s d = fix (sign_ℤ s d.coef) d.exp

abbrev pub of_ℤ : ℤ → Decimal
of_ℤ n = record { coef = n; exp = pos 0 }
