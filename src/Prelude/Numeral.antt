-- ===== src/Prelude/Numeral.antt =====
-- Python's `int(text, base)` for the bases 10 and 16, on ASCII text.
use Prim.Native.Nat.{ℕ, ◌+◌, ◌-◌, ◌*◌}
use mathlib.Core.Path.{◌≡◌, refl}
use mathlib.Core.Bool.{Bool, true, false, ◌&&◌, ◌||◌}
use mathlib.Core.List.{[], ◌∷◌}
use walflux_postgres_increme.Prelude.Tests.{ltb, leb, ◌==◌, if◌then◌else◌}
use walflux_postgres_increme.Prelude.Texts.{Text, codes}
use walflux_postgres_increme.Prelude.Results.{Result, ok, err, value_error}
use walflux_postgres_increme.Prelude.Int.{ℤ, pos, negsuc, sub_ℕ}

-- C's `isspace`
unfoldable pub is_c_space : ℕ → Bool
is_c_space c = (leb 9 c && leb c 13) || c == 32

unfoldable pub skip_spaces : Text → Text
unfolding is_c_space
skip_spaces [] = []
skip_spaces (c ∷ s) = if is_c_space c then skip_spaces s else c ∷ s

-- The value of a digit; 99 for any other character.
unfoldable pub digit_value : ℕ → ℕ
digit_value c =
    if leb b'0' c && leb c b'9'
    then c - b'0'
    else if leb b'a' c && leb c b'f'
    then c - b'a' + 10
    else if leb b'A' c && leb c b'F'
    then c - b'A' + 10
    else 99

-- What the last character was: no digit yet, a digit, or an underscore behind a digit.
pub data Last : Type 0 where
  no_digit digit underscore : Last

abbrev finish : Last → ℕ → Text → Result ℕ
finish digit acc [] = ok acc
finish digit acc (_ ∷ _) = err value_error
finish no_digit acc s = err value_error
finish underscore acc s = err value_error

abbrev after_digit : Last → Bool
after_digit digit = true
after_digit _ = false

-- Digits with single underscores between them, and white space behind them.
unfoldable pub digits_from : ℕ → Last → ℕ → Text → Result ℕ
digits_from base last acc [] = finish last acc []
digits_from base last acc (c ∷ s) =
    let more = digits_from base digit (acc * base + digit_value c) s in
    let gap = digits_from base underscore acc s in
    if ltb (digit_value c) base
    then more
    else if c == b'_' && after_digit last
    then gap
    else finish last acc (skip_spaces (c ∷ s))

-- The prefix `0x` and one underscore behind it.
abbrev drop_underscore : Text → Text
drop_underscore [] = []
drop_underscore (c ∷ s) = if c == b'_' then s else c ∷ s

unfoldable pub skip_prefix : ℕ → Text → Text
skip_prefix base (z ∷ x ∷ s) =
    if base == 16 && (z == b'0' && (x == b'x' || x == b'X')) then drop_underscore s else z ∷ x ∷ s
skip_prefix base s = s

abbrev pub with_sign : Bool → Result ℕ → Result ℤ
with_sign negative (ok n) = ok (if negative then sub_ℕ 0 n else pos n)
with_sign negative (err e) = err e

abbrev pub unsigned_int : ℕ → Bool → Text → Result ℤ
unsigned_int base negative s = with_sign negative (digits_from base no_digit 0 (skip_prefix base s))

abbrev pub signed_int : ℕ → Text → Result ℤ
signed_int base [] = err value_error
signed_int base (c ∷ s) =
    if c == b'-'
    then unsigned_int base true s
    else if c == b'+'
    then unsigned_int base false s
    else unsigned_int base false (c ∷ s)

unfoldable pub parse_int : ℕ → Text → Result ℤ
unfolding skip_spaces digits_from digit_value skip_prefix
parse_int base s = signed_int base (skip_spaces s)

parse_int_examples :
    (parse_int 10 (codes " -1_200 ") ≡ ok (negsuc 1199))
    × (parse_int 16 (codes "0xB374D848") ≡ ok (pos 3010779208))
    × (parse_int 10 (codes "12a") ≡ err value_error)
    × (parse_int 10 (codes "1__2") ≡ err value_error)
unfolding parse_int
parse_int_examples = (refl, refl, refl, refl)
