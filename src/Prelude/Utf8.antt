-- ===== src/Prelude/Utf8.antt =====
-- Python's strict UTF-8 codec, `str.encode()` and `bytes.decode("utf-8")`: the decoder is the state
-- machine of the Unicode table of well-formed byte sequences.
use Prim.Native.Nat.{ℕ, zero, suc, ◌+◌, ◌-◌, ◌*◌, ◌/◌, ◌%◌, ◌≤◌, ◌<◌}
use mathlib.Core.Path.{◌≡◌, refl}
use mathlib.Core.Logic.{◌⊎◌, ◌≢◌}
use mathlib.Core.Bool.{Bool, ◌&&◌}
use mathlib.Core.List.{List, [], ◌∷◌, ◌++◌}
use native.Mathlib.Omega.{arith}
use walflux_postgres_increme.Prelude.Tests.{ltb, leb, if◌then◌else◌}
use walflux_postgres_increme.Prelude.Lists.{All}
use walflux_postgres_increme.Prelude.Results.{Result, ok, err, unicode_error, ◌>>=◌}

unfoldable pub encode_char : ℕ → List ℕ
encode_char c =
    if ltb c 0x80
    then c ∷ []
    else if ltb c 0x800
    then (0xc0 + c / 0x40) ∷ (0x80 + c % 0x40) ∷ []
    else if ltb c 0x1_0000
    then (0xe0 + c / 0x1000) ∷ (0x80 + c / 0x40 % 0x40) ∷ (0x80 + c % 0x40) ∷ []
    else (0xf0 + c / 0x4_0000)
      ∷ (0x80 + c / 0x1000 % 0x40)
      ∷ (0x80 + c / 0x40 % 0x40)
      ∷ (0x80 + c % 0x40)
      ∷ []

unfoldable pub encode : List ℕ → List ℕ
unfolding encode_char
encode [] = []
encode (c ∷ s) = encode_char c ++ encode s

-- The continuation bytes still due, the bits so far, and the bounds of the next byte.
record State : Type 0 where
  due : ℕ
  bits : ℕ
  lo : ℕ
  hi : ℕ

abbrev start : State
start = record { due = 0; bits = 0; lo = 0x80; hi = 0xbf }

abbrev more : ℕ → ℕ → State
more k bits = record { due = k; bits = bits; lo = 0x80; hi = 0xbf }

between : ℕ → ℕ → ℕ → Bool
between a b x = leb a x && leb x b

first_byte : ℕ → Result (List ℕ × State)
unfolding between
first_byte b =
    if ltb b 0x80
    then ok (b ∷ [], start)
    else if between 0xc2 0xdf b
    then ok ([], more 1 (b - 0xc0))
    else if between 0xe0 0xe0 b
    then ok ([], record { due = 2; bits = 0; lo = 0xa0; hi = 0xbf })
    else if between 0xed 0xed b
    then ok ([], record { due = 2; bits = 0xd; lo = 0x80; hi = 0x9f })
    else if between 0xe1 0xef b
    then ok ([], more 2 (b - 0xe0))
    else if between 0xf0 0xf0 b
    then ok ([], record { due = 3; bits = 0; lo = 0x90; hi = 0xbf })
    else if between 0xf1 0xf3 b
    then ok ([], more 3 (b - 0xf0))
    else if between 0xf4 0xf4 b
    then ok ([], record { due = 3; bits = 4; lo = 0x80; hi = 0x8f })
    else err unicode_error

emit : ℕ → ℕ → List ℕ × State
emit zero c = (c ∷ [], start)
emit (suc k) c = ([], more (suc k) c)

feed_due : ℕ → State → ℕ → Result (List ℕ × State)
unfolding first_byte emit between
feed_due zero st b = first_byte b
feed_due (suc k) st b =
    if between st.lo st.hi b then ok (emit k (st.bits * 0x40 + (b - 0x80))) else err unicode_error

decode_from : State → List ℕ → Result (List ℕ)
unfolding feed_due
decode_from st [] = if leb st.due 0 then ok [] else err unicode_error
decode_from st (b ∷ s) = do r ← feed_due st.due st b; rest ← decode_from r.1 s; ok (r.0 ++ rest)

unfoldable pub decode : List ℕ → Result (List ℕ)
unfolding decode_from
decode = decode_from start

-- A Unicode scalar value: no surrogate, at most 0x10ffff.
abbrev pub IsScalar : ℕ → Type 0
IsScalar c = (c < 0xd800) ⊎ ((0xdfff < c) × (c < 0x11_0000))

abbrev prepend : ℕ → Result (List ℕ) → Result (List ℕ)
prepend c r = r >>= λ s. ok (c ∷ s)

decode-one :
    (c : ℕ) (s : List ℕ) → c < 0x80 → decode_from start (c ∷ s) ≡ prepend c (decode_from start s)
unfolding decode_from
decode-one c s h = ground arith

decode-two :
    (c : ℕ) (s : List ℕ)
    → 0x80 ≤ c
    → c < 0x800
    → decode_from start ((0xc0 + c / 0x40) ∷ (0x80 + c % 0x40) ∷ s)
      ≡ prepend c (decode_from start s)
unfolding decode_from
decode-two c s l h = ground arith

decode-three :
    (c : ℕ) (s : List ℕ)
    → 0x800 ≤ c
    → c < 0x1_0000
    → IsScalar c
    → decode_from start ((0xe0 + c / 0x1000) ∷ (0x80 + c / 0x40 % 0x40) ∷ (0x80 + c % 0x40) ∷ s)
      ≡ prepend c (decode_from start s)
unfolding decode_from
decode-three c s l h v = ground arith

decode-four :
    (c : ℕ) (s : List ℕ)
    → 0x1_0000 ≤ c
    → c < 0x11_0000
    → decode_from start (
        (0xf0 + c / 0x4_0000)
        ∷ (0x80 + c / 0x1000 % 0x40)
        ∷ (0x80 + c / 0x40 % 0x40)
        ∷ (0x80 + c % 0x40)
        ∷ s)
      ≡ prepend c (decode_from start s)
unfolding decode_from
decode-four c s l h = ground arith

decode-encode_char :
    (c : ℕ) (s : List ℕ)
    → IsScalar c
    → decode_from start (encode_char c ++ s) ≡ prepend c (decode_from start s)
unfolding encode_char
decode-encode_char c s v =
    ground (arith, decode-one c s, decode-two c s, decode-three c s, decode-four c s)

-- `encode_char` stays shut here.
abbrev encode_all : List ℕ → List ℕ
encode_all [] = []
encode_all (c ∷ s) = encode_char c ++ encode_all s

encode-eq : (s : List ℕ) → encode s ≡ encode_all s
unfolding encode
encode-eq [] = refl
encode-eq (c ∷ s) = rw (encode-eq s)

decode_from-encode_all : (s : List ℕ) → All IsScalar s → decode_from start (encode_all s) ≡ ok s
decode_from-encode_all [] h = unfold decode_from in refl
decode_from-encode_all (c ∷ s) h =
    rw (decode-encode_char c (encode_all s) h.0, decode_from-encode_all s h.1)

-- Every text of scalar values is decoded from its encoding.
pub decode-encode : (s : List ℕ) → All IsScalar s → decode (encode s) ≡ ok s
unfolding decode
decode-encode s h = rw (encode-eq s) (decode_from-encode_all s h)

encode-cons : (c : ℕ) (s : List ℕ) → encode (c ∷ s) ≡ encode_char c ++ encode s
unfolding encode
encode-cons c s = refl

-- An ASCII text has as many bytes as characters, and is its own encoding.
pub encode-ascii : (s : List ℕ) → All (λ c. c < 0x80) s → encode s ≡ s
unfolding encode
encode-ascii [] h = refl
encode-ascii (c ∷ s) h = ground (arith, encode-ascii s h.1)

encode_char-nonzero : (c : ℕ) → c ≢ 0 → All (λ b. b ≢ 0) (encode_char c)
unfolding encode_char
encode_char-nonzero c h = ground arith

nonzero-append :
    (xs ys : List ℕ) → All (λ b. b ≢ 0) xs → All (λ b. b ≢ 0) ys → All (λ b. b ≢ 0) (xs ++ ys)
nonzero-append [] ys h k = k
nonzero-append (x ∷ xs) ys h k = (h.0, nonzero-append xs ys h.1 k)

-- A text with no NUL has no zero byte.
pub encode-nonzero : (s : List ℕ) → All (λ c. c ≢ 0) s → All (λ b. b ≢ 0) (encode s)
encode-nonzero [] h = unfold encode in tt
encode-nonzero (c ∷ s) h =
    rw (encode-cons c s)
      (nonzero-append (encode_char c) (encode s) (encode_char-nonzero c h.0) (encode-nonzero s h.1))
