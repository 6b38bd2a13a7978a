-- ===== src/Decimal/Parse.antt =====
-- `Decimal(text)`.
use walflux_postgres_increme.Prelude.{
  ℕ, ◌+◌, ◌-◌, ◌*◌, Bool, true, false, ◌&&◌, ◌||◌, [], ◌∷◌, ◌++◌, Option, none, some, Text, codes,
  ◌=t◌, ◌≡◌, refl, length, leb, ◌==◌, if◌then◌else◌,
}
use walflux_postgres_increme.Prelude.Int.{ℤ, pos, negsuc, sub_ℕ, ◌+ℤ◌, neg}

-- What a text denotes: a finite value `coef * 10 ^ exp`, or an infinity or NaN.
pub data Parsed : Type 0 where
  finite : ℤ → ℤ → Parsed
  special : Parsed

-- ASCII white space.
pub is_space : ℕ → Bool
is_space c = (leb 9 c && leb c 13) || (leb 28 c && leb c 32)

pub lstrip : Text → Text
unfolding is_space
lstrip [] = []
lstrip (c ∷ s) = if is_space c then lstrip s else c ∷ s

rstrip : Text → Text
unfolding is_space
rstrip [] = []
rstrip (c ∷ s) = let t = rstrip s in if is_space c && t =t [] then [] else c ∷ t

remove_underscores : Text → Text
remove_underscores [] = []
remove_underscores (c ∷ s) = let t = remove_underscores s in if c == b'_' then t else c ∷ t

is_digit : ℕ → Bool
is_digit c = leb b'0' c && leb c b'9'

-- the run of digits and what follows it
digits : Text → Text × Text
unfolding is_digit
digits [] = ([], [])
digits (c ∷ s) = let (d, r) = digits s in if is_digit c then (c ∷ d, r) else ([], c ∷ s)

number : ℕ → Text → ℕ
number acc [] = acc
number acc (c ∷ s) = number (acc * 10 + (c - b'0')) s

lower : Text → Text
lower [] = []
lower (c ∷ s) = (if leb b'A' c && leb c b'Z' then c + 32 else c) ∷ lower s

abbrev take_sign : Text → Bool × Text
take_sign [] = (false, [])
take_sign (c ∷ s) =
    if c == b'-' then (true, s) else if c == b'+' then (false, s) else (false, c ∷ s)

abbrev signed : Bool → ℕ → ℤ
signed true n = sub_ℕ 0 n
signed false n = pos n

-- `[eE][-+]?\d+` or nothing, up to the end
exponent : Text → Option ℤ
unfolding digits number
exponent [] = some (pos 0)
exponent (c ∷ s) =
    let (negative, t) = take_sign s in
    let (d, r) = digits t in
    if (c == b'e' || c == b'E') && leb 1 (length d) && r =t []
    then some (signed negative (number 0 d))
    else none

fraction : Text → Text × Text
unfolding digits
fraction [] = ([], [])
fraction (c ∷ s) = if c == b'.' then digits s else ([], c ∷ s)

is_nan : Text → Bool
unfolding digits
is_nan (a ∷ b ∷ c ∷ s) = ((a ∷ b ∷ c ∷ []) =t codes "nan") && ((digits s).1 =t [])
is_nan _ = false

is_special : Text → Bool
unfolding lower is_nan
is_special t =
    let s = lower t in
    (s =t codes "inf")
    || (s =t codes "infinity")
    || is_nan s
    || elim s [ [] ↦ false | c ∷ r ↦ c == b's' && is_nan r ]

unsigned_decimal : Bool → Text → Option Parsed
unfolding digits fraction exponent is_special number ◌+ℤ◌ neg
unsigned_decimal negative s =
    let (whole, r) = digits s in
    let (frac, e) = fraction r in
    if leb 1 (length whole + length frac)
    then (elim (exponent e) [
      | none ↦ none
      | some x ↦
          some (finite (signed negative (number 0 (whole ++ frac))) (x +ℤ neg (pos (length frac))))
    ])
    else if is_special s
    then some special
    else none

-- `none` is `InvalidOperation`. Digits and white space outside ASCII are refused here.
unfoldable pub parse_decimal : Text → Option Parsed
unfolding lstrip rstrip remove_underscores unsigned_decimal
parse_decimal text =
    let (negative, s) = take_sign (remove_underscores (lstrip (rstrip text))) in
    unsigned_decimal negative s

parse_examples :
    (parse_decimal (codes " -12.50") ≡ some (finite (negsuc 1249) (negsuc 1)))
    × (parse_decimal (codes "1e+22") ≡ some (finite (pos 1) (pos 22)))
    × (parse_decimal (codes "NaN") ≡ some special)
    × (parse_decimal (codes ".") ≡ none)
unfolding parse_decimal
parse_examples = (refl, refl, refl, refl)
