-- ===== src/Protocol/Convert.antt =====
-- walflux/protocol.py, `convert_value`: a text-format column value as a Python value, by type OID.
-- `float(text)` is a parameter, which returns the `repr` of the float.
use walflux_postgres_increme.Prelude.{
  ℕ, Bool, ◌||◌, Option, none, some, Text, codes, ◌=t◌, ◌==◌, if◌then◌else◌, Result, ok, err,
  invalid_operation, ◌>>=◌,
}
use walflux_postgres_increme.Prelude.Numeral.{parse_int}
use walflux_postgres_increme.Decimal.Parse.{Parsed, finite, special, parse_decimal}
use walflux_postgres_increme.Value.{Value}

-- int8, int2, int4, oid
unfoldable pub is_int_oid : ℕ → Bool
is_int_oid oid = oid == 20 || oid == 21 || oid == 23 || oid == 26

-- float4, float8
unfoldable pub is_float_oid : ℕ → Bool
is_float_oid oid = oid == 700 || oid == 701

abbrev decimal_value : Text → Option Parsed → Result Value
decimal_value text none = err invalid_operation
decimal_value text (some special) = ok (Value.non_finite text)
decimal_value text (some (finite c e)) = ok (Value.decimal (record { coef = c; exp = e }))

module _ (to_float : Text → Result Text) where
  unfoldable pub convert_value : Text → ℕ → Result Value
  unfolding is_int_oid is_float_oid
  convert_value text type_oid =
      if type_oid == 16
      then ok (Value.bool (text =t codes "t"))
      else if is_int_oid type_oid
      then (do n ← parse_int 10 text; ok (Value.int n))
      else if is_float_oid type_oid
      then (do r ← to_float text; ok (Value.float r))
      else if type_oid == 1700
      then decimal_value text (parse_decimal text)
      else ok (Value.text text)
