-- ===== src/Aggregates/Delta.antt =====
-- walflux/aggregates.py: what one row event contributes to its group (`_as_decimal`, `_agg_deltas`),
-- and the addition of contributions to a group's list of deltas (the inner loop of `_apply`).
use walflux_postgres_increme.Prelude.{
  true, false, Option, none, some, List, [], ◌∷◌, ◌++◌, Text, Result, ok, err, walflux_error,
  key_error, index_error, ◌>>=◌,
}
use walflux_postgres_increme.Prelude.Int.{pos, ◌+ℤ◌}
use walflux_postgres_increme.Decimal.{Decimal, ◌+d◌, of_ℤ, Sign, sign_ℤ, times}
use walflux_postgres_increme.Decimal.Parse.{Parsed, finite, special, parse_decimal}
use walflux_postgres_increme.Value.{Value, Row, get}
use walflux_postgres_increme.Aggregates.Spec.{
  AggFn, count, AggSpec, Num, int, dec, zero_int, zero_dec,
}

abbrev of_parsed : Option Parsed → Result Decimal
of_parsed none = err walflux_error
of_parsed (some special) = err walflux_error
of_parsed (some (finite c e)) = ok (record { coef = c; exp = e })

-- A float goes through its `repr`; a text is read as a number.
unfoldable pub as_decimal : Value → Result Decimal
as_decimal (Value.decimal d) = ok d
as_decimal (Value.non_finite _) = err walflux_error
as_decimal (Value.float r) = of_parsed (parse_decimal r)
as_decimal (Value.text t) = of_parsed (parse_decimal t)
as_decimal (Value.int n) = ok (of_ℤ n)
as_decimal (Value.bool true) = ok (of_ℤ (pos 1))
as_decimal (Value.bool false) = ok (of_ℤ (pos 0))
as_decimal Value.none = err walflux_error
as_decimal Value.unchanged_toast = err walflux_error

-- `COUNT(column)`
unfoldable pub non_null : Value → Num
non_null Value.none = zero_int
non_null _ = int (pos 1)

unfoldable pub total_deltas : Value → Result (List Num)
unfolding as_decimal
total_deltas Value.none = ok (zero_dec ∷ zero_int ∷ [])
total_deltas v = do d ← as_decimal v; ok (dec d ∷ int (pos 1) ∷ [])

unfoldable pub count_deltas : Option Text → Row → Result (List Num)
unfolding non_null
count_deltas none row = ok (int (pos 1) ∷ [])
count_deltas (some column) row = do v ← get column row; ok (non_null v ∷ [])

-- `row[None]` is a KeyError
unfoldable pub sum_deltas : Option Text → Row → Result (List Num)
unfolding total_deltas
sum_deltas none row = err key_error
sum_deltas (some column) row = do v ← get column row; total_deltas v

unfoldable pub fn_deltas : AggFn → Option Text → Row → Result (List Num)
unfolding count_deltas sum_deltas
fn_deltas count column row = count_deltas column row
fn_deltas _ column row = sum_deltas column row

-- The contribution to each storage column, before the sign.
unfoldable pub agg_deltas : AggSpec → Row → Result (List Num)
unfolding fn_deltas
agg_deltas agg row = fn_deltas agg.fn agg.column row

unfoldable pub row_deltas : List AggSpec → Row → Result (List Num)
row_deltas [] row = ok []
row_deltas (agg ∷ aggs) row = do
  ds ← agg_deltas agg row
  rest ← row_deltas aggs row
  ok (ds ++ rest)

-- `a + b`; an int beside a Decimal is converted first
unfoldable pub add_num : Num → Num → Num
add_num (int a) (int b) = int (a +ℤ b)
add_num (dec a) (dec b) = dec (a +d b)
add_num (int a) (dec b) = dec (of_ℤ a +d b)
add_num (dec a) (int b) = dec (a +d of_ℤ b)

-- `sign * delta`
unfoldable pub times_num : Sign → Num → Num
times_num s (int n) = int (sign_ℤ s n)
times_num s (dec d) = dec (times s d)

unfoldable pub times_all : Sign → List Num → List Num
times_all s [] = []
times_all s (n ∷ ns) = times_num s n ∷ times_all s ns

-- `group[index] += …` for each index in turn
unfoldable pub add_all : List Num → List Num → Result (List Num)
add_all g [] = ok g
add_all [] (d ∷ ds) = err index_error
add_all (n ∷ g) (d ∷ ds) = do rest ← add_all g ds; ok (add_num n d ∷ rest)

abbrev pub sign_num : Sign → Num
sign_num s = int (sign_ℤ s (pos 1))
