-- ===== src/Demo/Cells.antt =====
-- demo/verify.py, `_cells_match`: when a cell of the target agrees with the ground truth.
use walflux_postgres_increme.Prelude.{
  ◌^◌, Option, none, some, Bool, true, false, ◌&&◌, ◌||◌, Text, codes, ◌=t◌, if◌then◌else◌, Result,
  ok, err, ◌>>=◌, invalid_operation, type_error,
}
use walflux_postgres_increme.Prelude.Int.{pos, negsuc, neg, ◌*ℕ◌, abs, leb_ℤ}
use walflux_postgres_increme.Decimal.{Decimal, ◌+d◌, min_ℤ, gap, of_ℤ}
use walflux_postgres_increme.Decimal.Parse.{Parsed, finite, special, parse_decimal}
use walflux_postgres_increme.Value.{Value, value_eq}

-- `AVG_TOLERANCE`
abbrev pub avg_tolerance : Decimal
avg_tolerance = record { coef = pos 1; exp = negsuc 5 }

-- `a <= b`
unfoldable pub decimal_leb : Decimal → Decimal → Bool
decimal_leb a b =
    let m = min_ℤ a.exp b.exp in leb_ℤ (a.coef *ℕ (10 ^ gap a.exp m)) (b.coef *ℕ (10 ^ gap b.exp m))

-- `abs(a - b)`
unfoldable pub distance : Decimal → Decimal → Decimal
distance a b = let d = a +d record b { coef = neg b.coef } in record d { coef = pos (abs d.coef) }

abbrev of_parsed : Text → Option Parsed → Result Value
of_parsed t none = err invalid_operation
of_parsed t (some special) = ok (Value.non_finite t)
of_parsed t (some (finite c e)) = ok (Value.decimal (record { coef = c; exp = e }))

abbrev pub is_none : Value → Bool
is_none Value.none = true
is_none _ = false

abbrev is_nan : Text → Bool
is_nan t = t =t codes "NaN"

-- `of_float` is Python's `Decimal(x)` of a float, which has the float's binary value.
module _ (of_float : Text → Result Value) where
  -- `Decimal(x)`
  abbrev pub decimal_of : Value → Result Value
  decimal_of (Value.int n) = ok (Value.decimal (of_ℤ n))
  decimal_of (Value.bool b) = ok (Value.decimal (of_ℤ (if b then pos 1 else pos 0)))
  decimal_of (Value.decimal d) = ok (Value.decimal d)
  decimal_of (Value.non_finite t) = ok (Value.non_finite t)
  decimal_of (Value.float r) = of_float r
  decimal_of (Value.text t) = of_parsed t (parse_decimal t)
  decimal_of Value.none = err type_error
  decimal_of Value.unchanged_toast = err type_error

  -- `abs(a - b) <= AVG_TOLERANCE`: a NaN, and the difference of an infinity and itself, raise.
  abbrev pub near : Value → Value → Result Bool
  near (Value.decimal a) (Value.decimal b) = ok (decimal_leb (distance a b) avg_tolerance)
  near (Value.non_finite s) (Value.non_finite t) =
      if is_nan s || is_nan t || s =t t then err invalid_operation else ok false
  near (Value.non_finite s) b = if is_nan s then err invalid_operation else ok false
  near a (Value.non_finite t) = if is_nan t then err invalid_operation else ok false
  near _ _ = err type_error

  abbrev pub numbers_match : Text → Value → Value → Result Bool
  numbers_match fn expected actual = do
    e ← decimal_of expected
    a ← decimal_of actual
    if fn =t codes "avg" then near e a else ok (value_eq e a)

  unfoldable pub cells_match : Text → Value → Value → Result Bool
  cells_match fn expected actual =
      if is_none expected || is_none actual
      then ok (is_none expected && is_none actual)
      else numbers_match fn expected actual
