-- ===== src/Common/Lsn/RoundTrip.antt =====
-- walflux/common.py: a position as text, read back.
use walflux_postgres_increme.Prelude.{
  ℕ, zero, suc, ◌+◌, ◌*◌, ◌/◌, ◌%◌, ◌≤◌, ◌<◌, ◌≡◌, refl, ap, ◌∙◌, false, ◌||◌, [], ◌∷◌, ◌++◌, All,
  Text, ltb, ltb→lt, lt→ltb, ◌==◌, ok, arith, Bool-cases, inl, inr,
}
use walflux_postgres_increme.Prelude.Int.{ℤ, pos, negsuc, sub_ℕ}
use walflux_postgres_increme.Prelude.Numeral.{
  parse_int, digits_from, digit_value, skip_prefix, skip_spaces, is_c_space, no_digit, digit, Last,
  with_sign,
}
use walflux_postgres_increme.Prelude.Binary.{shift_right, low_bits, or_ℤ-parts}
use walflux_postgres_increme.Common.Lsn.{
  split_slash, position, parse_lsn, hex_digit, hex_from, hex, hex_ℤ, format_lsn,
}

-- What `hex` writes: digits and capital letters.
abbrev IsHex : ℕ → Type 0
IsHex c = (b'0' ≤ c) × (c ≤ b'F')

hex_digit-value : (d : ℕ) → d < 16 → (digit_value (hex_digit d) ≡ d) × IsHex (hex_digit d)
unfolding hex_digit digit_value
hex_digit-value d h = ground arith

digit-IsHex : (d : ℕ) → d < 16 → IsHex (hex_digit d)
digit-IsHex d h = (hex_digit-value d h).1

digits_step :
    (last : Last) (a d : ℕ) (acc : Text)
    → d < 16
    → digits_from 16 last a (hex_digit d ∷ acc) ≡ digits_from 16 digit (a * 16 + d) acc
unfolding digits_from
digits_step last a d acc h = rw ((hex_digit-value d h).0, lt→ltb d 16 h) refl

-- Enough fuel: the digits of a number are read back in front of whatever follows.
digits_from-hex :
    (fuel n : ℕ) (acc : Text)
    → n < fuel
    → digits_from 16 no_digit 0 (hex_from fuel n acc) ≡ digits_from 16 digit n acc
unfolding hex_from
digits_from-hex zero n acc h = absurd (omega arith)
digits_from-hex (suc fuel) n acc h = elim (Bool-cases (ltb n 16)) [
  | inl small ↦ rw small (
      digits_step no_digit 0 n acc (ltb→lt n 16 small)
      ∙ ap (λ m. digits_from 16 digit m acc) (omega arith))
  | inr large ↦ rw large (
      digits_from-hex fuel (n / 16) (hex_digit (n % 16) ∷ acc) (ground arith)
      ∙ digits_step digit (n / 16) (n % 16) acc (omega arith)
      ∙ ap (λ m. digits_from 16 digit m acc) (omega arith))
]

hex_from-IsHex : (fuel n : ℕ) (acc : Text) → All IsHex acc → All IsHex (hex_from fuel n acc)
unfolding hex_from
hex_from-IsHex zero n acc h = h
hex_from-IsHex (suc fuel) n acc h = elim (Bool-cases (ltb n 16)) [
  | inl small ↦ rw small (digit-IsHex n (ltb→lt n 16 small), h)
  | inr large ↦ rw large (
      hex_from-IsHex fuel (n / 16) (hex_digit (n % 16) ∷ acc)
        (digit-IsHex (n % 16) (omega arith), h))
]

-- What stands before the digits of `int(text, 16)`.
unprefixed : (s : Text) → All IsHex s → skip_prefix 16 s ≡ s
unfolding skip_prefix digit_value
unprefixed [] h = refl
unprefixed (c ∷ []) h = refl
unprefixed (c ∷ x ∷ s) (hc, (hx, _)) =
    let other : (x == b'x' || x == b'X') ≡ false = ground arith in
    elim (Bool-cases (c == b'0')) [ inl e ↦ rw (other, e) refl | inr e ↦ rw (other, e) refl ]

unsigned :
    (c : ℕ) (s : Text)
    → All IsHex (c ∷ s)
    → parse_int 16 (c ∷ s) ≡ with_sign false (digits_from 16 no_digit 0 (c ∷ s))
unfolding parse_int skip_spaces is_c_space
unsigned c s h =
    let visible : is_c_space c ≡ false = ground arith in
    let no_minus : (c == b'-') ≡ false = ground arith in
    let no_plus : (c == b'+') ≡ false = ground arith in
    rw (visible, no_minus, no_plus, unprefixed (c ∷ s) h) refl

parse-IsHex :
    (s : Text) (n : ℕ)
    → All IsHex s
    → digits_from 16 no_digit 0 s ≡ ok n
    → parse_int 16 s ≡ ok (pos n)
unfolding digits_from
parse-IsHex [] n h e = cc
parse-IsHex (c ∷ s) n h e = unsigned c s h ∙ ap (with_sign false) e

below_zero : (n : ℕ) → sub_ℕ 0 (suc n) ≡ negsuc n
below_zero n = ground arith

parse-minus :
    (s : Text) (n : ℕ)
    → All IsHex s
    → digits_from 16 no_digit 0 s ≡ ok (suc n)
    → parse_int 16 (b'-' ∷ s) ≡ ok (negsuc n)
unfolding parse_int skip_spaces is_c_space
parse-minus s n h e = rw (unprefixed s h, e) (ap (λ z. ok z) (below_zero n))

hex-digits : (n : ℕ) → digits_from 16 no_digit 0 (hex n) ≡ ok n
unfolding hex digits_from
hex-digits n = digits_from-hex (suc n) n [] (omega arith)

hex-IsHex : (n : ℕ) → All IsHex (hex n)
unfolding hex
hex-IsHex n = hex_from-IsHex (suc n) n [] tt

parse-hex : (n : ℕ) → parse_int 16 (hex n) ≡ ok (pos n)
parse-hex n = parse-IsHex (hex n) n (hex-IsHex n) (hex-digits n)

parse-hex_ℤ : (z : ℤ) → parse_int 16 (hex_ℤ z) ≡ ok z
unfolding hex_ℤ
parse-hex_ℤ (pos n) = parse-hex n
parse-hex_ℤ (negsuc n) = parse-minus (hex (suc n)) n (hex-IsHex (suc n)) (hex-digits (suc n))

abbrev NoSlash : Text → Type 0
NoSlash = All (λ c. (c == b'/') ≡ false)

All-NoSlash : (s : Text) → All IsHex s → NoSlash s
All-NoSlash [] h = tt
All-NoSlash (c ∷ s) h = (ground arith, All-NoSlash s h.1)

hex_ℤ-NoSlash : (z : ℤ) → NoSlash (hex_ℤ z)
unfolding hex_ℤ
hex_ℤ-NoSlash (pos n) = All-NoSlash (hex n) (hex-IsHex n)
hex_ℤ-NoSlash (negsuc n) = (refl, All-NoSlash (hex (suc n)) (hex-IsHex (suc n)))

split_whole : (s : Text) → NoSlash s → split_slash s ≡ s ∷ []
unfolding split_slash
split_whole [] h = refl
split_whole (c ∷ s) h = rw (h.0, split_whole s h.1) refl

split_once : (s t : Text) → NoSlash s → split_slash (s ++ b'/' ∷ t) ≡ s ∷ split_slash t
unfolding split_slash
split_once [] t h = refl
split_once (c ∷ s) t h = rw (h.0, split_once s t h.1) refl

-- `parse_lsn` reads every position back from the text that `format_lsn` gives, the negative ones too.
pub parse_lsn-format_lsn : (lsn : ℤ) → parse_lsn (format_lsn lsn) ≡ ok lsn
unfolding parse_lsn format_lsn position
parse_lsn-format_lsn lsn =
    let high = shift_right lsn 32 in
    let low = low_bits lsn 32 in
    rw
      (
        split_once (hex_ℤ high) (hex low) (hex_ℤ-NoSlash high),
        split_whole (hex low) (All-NoSlash (hex low) (hex-IsHex low)),
        parse-hex_ℤ high,
        parse-hex low,
      )
      (ap (λ z. ok z) (or_ℤ-parts lsn 32))
