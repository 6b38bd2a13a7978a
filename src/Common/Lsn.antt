-- ===== src/Common/Lsn.antt =====
-- walflux/common.py, `parse_lsn` and `format_lsn`: replication positions as text.
use walflux_postgres_increme.Prelude.{
  ℕ, zero, suc, ◌+◌, ◌-◌, ◌*◌, ◌/◌, ◌%◌, ◌^◌, ◌≤◌, ◌<◌, ◌≡◌, refl, sym, ap, ◌∙◌, Bool, true, false,
  ◌&&◌, ◌||◌, List, [], ◌∷◌, ◌++◌, All, Text, codes, ltb, ltb→lt, lt→ltb, leb, ◌==◌, if◌then◌else◌,
  Result, ok, err, walflux_error, value_error, ◌>>=◌, arith, Bool-cases, inl, inr,
}
use walflux_postgres_increme.Prelude.Int.{ℤ, pos, negsuc, ◌*ℕ◌}
use walflux_postgres_increme.Prelude.Numeral.{
  parse_int, digits_from, digit_value, skip_prefix, skip_spaces, is_c_space, no_digit, digit, Last,
  with_sign,
}
use walflux_postgres_increme.Prelude.Binary.{or_ℤ, shift_right, low_bits, or_ℤ-parts}
pub mod RoundTrip

-- `text.split("/")`: the parts, of which there is at least one
abbrev push : ℕ → List Text → List Text
push c [] = (c ∷ []) ∷ []
push c (part ∷ parts) = (c ∷ part) ∷ parts

unfoldable pub split_slash : Text → List Text
split_slash [] = [] ∷ []
split_slash (c ∷ s) = let parts = split_slash s in if c == b'/' then [] ∷ parts else push c parts

-- `hi, lo = …` and the number of the two
unfoldable pub position : List Text → Result ℤ
position (hi ∷ lo ∷ []) = do h ← parse_int 16 hi; l ← parse_int 16 lo; ok (or_ℤ (h *ℕ 2 ^ 32) l)
position _ = err value_error

-- `except ValueError as exc: raise WalfluxError`
abbrev as_walflux_error : Result ℤ → Result ℤ
as_walflux_error (ok n) = ok n
as_walflux_error (err value_error) = err walflux_error
as_walflux_error (err e) = err e

unfoldable pub parse_lsn : Text → Result ℤ
unfolding split_slash position
parse_lsn text = as_walflux_error (position (split_slash text))

-- Python's `f"{n:X}"`: the fuel is one more than the number, and each digit divides it by 16.
unfoldable pub hex_digit : ℕ → ℕ
hex_digit d = if ltb d 10 then b'0' + d else b'A' + (d - 10)

unfoldable pub hex_from : ℕ → ℕ → Text → Text
unfolding hex_digit
hex_from zero n acc = acc
hex_from (suc fuel) n acc =
    let more = hex_from fuel (n / 16) (hex_digit (n % 16) ∷ acc) in
    if ltb n 16 then hex_digit n ∷ acc else more

unfoldable pub hex : ℕ → Text
unfolding hex_from
hex n = hex_from (suc n) n []

unfoldable pub hex_ℤ : ℤ → Text
unfolding hex
hex_ℤ (pos n) = hex n
hex_ℤ (negsuc n) = b'-' ∷ hex (suc n)

unfoldable pub format_lsn : ℤ → Text
unfolding hex hex_ℤ
format_lsn lsn = hex_ℤ (shift_right lsn 32) ++ b'/' ∷ hex (low_bits lsn 32)

lsn_examples :
    (parse_lsn (codes "16/B374D848") ≡ ok (pos 97500059720))
    × (format_lsn (pos 97500059720) ≡ codes "16/B374D848")
    × (format_lsn (negsuc 0) ≡ codes "-1/FFFFFFFF")
    × (parse_lsn (codes "16") ≡ err walflux_error)
    × (parse_lsn (codes "16/xyz") ≡ err walflux_error)
unfolding parse_lsn format_lsn or_ℤ shift_right low_bits parse_int ◌*ℕ◌
lsn_examples = (refl, refl, refl, refl, refl)
