-- ===== src/Protocol/Reads.antt =====
-- walflux/protocol.py, `class _Reader`: what its methods read of the wire format, and where they stop.
use native.Mathlib.Nat.{pow-zero, pow-suc}
use mathlib.Core.Path.{subst₂}
use walflux_postgres_increme.Prelude.{
  ℕ, zero, suc, ◌+◌, ◌-◌, ◌*◌, ◌/◌, ◌%◌, ◌^◌, ◌<◌, ◌≡◌, ◌≢◌, refl, sym, subst, false, ◌||◌, List,
  [], ◌∷◌, ◌++◌, append_assoc, some, length, length-append, take-append, drop-append, All, Text, ok,
  err, protocol_error, true, arith, ltb, lt→ltb,
}
use walflux_postgres_increme.Prelude.Int.{ℤ, pos, negsuc, pos-+ℤ, ◌≤ℤ◌, ltb_ℤ}
use walflux_postgres_increme.Prelude.Utf8.{encode, decode-encode, encode-nonzero, IsScalar}
use walflux_postgres_increme.Protocol.Reader.{
  slice, take_bytes, uint8, big_endian, unpack, unsigned, uint16, uint32, uint64, int32, timestamp,
  signed, cstring, find_zero, min_micros, max_micros,
}
use walflux_postgres_increme.Protocol.Rules.{
  place, Reads, Reads-pure, Reads-lift, Reads-bind, Reads-last,
}
use walflux_postgres_increme.Protocol.Parts.{IsPart, shorter, part-nonzero}
use walflux_postgres_increme.Protocol.Encode.{
  be_bytes, twos, InRange, int32_bytes, time_bytes, cstring_bytes, IsName, IsTime,
}

slice-at :
    (front bytes back : List ℕ)
    → slice (front ++ (bytes ++ back)) (pos (length front)) (pos (length front + length bytes))
      ≡ bytes
unfolding slice
slice-at front bytes back =
    let n : length front + length bytes - length front ≡ length bytes = omega arith in
    rw (n, drop-append front (bytes ++ back), take-append bytes back)

long_enough :
    (front bytes back : List ℕ)
    → ltb (length (front ++ (bytes ++ back))) (length front + length bytes) ≡ false
long_enough front bytes back =
    ground (arith, length-append front (bytes ++ back), length-append bytes back)

pub Reads-take_bytes : (bytes : List ℕ) → Reads (take_bytes (pos (length bytes))) bytes bytes
unfolding take_bytes
Reads-take_bytes bytes = record {
  reads = λ front back kind.
      rw (pos-+ℤ (length front) (length bytes), slice-at front bytes back)
        (ground (arith, length-append front (bytes ++ back), length-append bytes back));
  cuts = λ front part kind h.
      let short : ltb (length (front ++ part) + 0) (length front + length bytes + 0) ≡ true =
        lt→ltb _ _ (omega (arith, length-append front part, shorter part bytes h)) in
      rw (pos-+ℤ (length front) (length bytes), short) refl;
}

pub Reads-uint8 : (b : ℕ) → Reads uint8 (b ∷ []) b
unfolding uint8
Reads-uint8 b = Reads-bind _ (Reads-take_bytes (b ∷ [])) (Reads-pure b)

length-be_bytes : (w n : ℕ) → length (be_bytes w n) ≡ w
unfolding be_bytes
length-be_bytes zero n = refl
length-be_bytes (suc w) n =
    omega
      (arith, length-append (be_bytes w (n / 256)) ((n % 256) ∷ []), length-be_bytes w (n / 256))

big_endian-snoc :
    (acc b : ℕ) (bs : List ℕ) → big_endian acc (bs ++ b ∷ []) ≡ big_endian acc bs * 256 + b
unfolding big_endian
big_endian-snoc acc b [] = refl
big_endian-snoc acc b (x ∷ bs) = big_endian-snoc (acc * 256 + x) b bs

big_endian-be_bytes : (w n : ℕ) → n < 256 ^ w → big_endian 0 (be_bytes w n) ≡ n
unfolding be_bytes big_endian
big_endian-be_bytes zero n h = omega (arith, pow-zero 256)
big_endian-be_bytes (suc w) n h =
    rw (big_endian-snoc 0 (n % 256) (be_bytes w (n / 256)))
      (omega (arith, big_endian-be_bytes w (n / 256) (omega (arith, pow-suc 256 w))))

unpack-be_bytes : (w n : ℕ) → n < 256 ^ w → unpack w (be_bytes w n) ≡ ok n
unfolding unpack
unpack-be_bytes w n h = rw (length-be_bytes w n, big_endian-be_bytes w n h) (ground arith)

pub Reads-unsigned : (w n : ℕ) → n < 256 ^ w → Reads (unsigned w) (be_bytes w n) n
unfolding unsigned
Reads-unsigned w n h =
    Reads-last _
      (subst (λ k. Reads (take_bytes (pos k)) (be_bytes w n) (be_bytes w n)) (length-be_bytes w n)
        (Reads-take_bytes (be_bytes w n)))
      (Reads-lift _ n (unpack-be_bytes w n h))

pub Reads-uint16 : (n : ℕ) → n < 2 ^ 16 → Reads uint16 (be_bytes 2 n) n
unfolding uint16
Reads-uint16 n h = Reads-unsigned 2 n h

pub Reads-uint32 : (n : ℕ) → n < 2 ^ 32 → Reads uint32 (be_bytes 4 n) n
unfolding uint32
Reads-uint32 n h = Reads-unsigned 4 n h

pub Reads-uint64 : (n : ℕ) → n < 2 ^ 64 → Reads uint64 (be_bytes 8 n) n
unfolding uint64
Reads-uint64 n h = Reads-unsigned 8 n h

signed-twos : (half : ℕ) (z : ℤ) → InRange half z → signed half (twos half z) ≡ z
signed-twos half (pos n) h = ground arith
signed-twos half (negsuc n) h = ground arith

twos-lt : (half : ℕ) (z : ℤ) → InRange half z → twos half z < half + half
twos-lt half (pos n) h = omega arith
twos-lt half (negsuc n) h = omega arith

pub Reads-int32 : (z : ℤ) → InRange (2 ^ 31) z → Reads int32 (int32_bytes z) z
unfolding int32
Reads-int32 z h =
    Reads-last _ (Reads-unsigned 4 (twos (2 ^ 31) z) (twos-lt (2 ^ 31) z h))
      (rw (signed-twos (2 ^ 31) z h) (Reads-pure z))

in_calendar :
    (z : ℤ) → min_micros ≤ℤ z → z ≤ℤ max_micros → (ltb_ℤ z min_micros || ltb_ℤ max_micros z) ≡ false
in_calendar z lo hi = ground arith

pub Reads-timestamp : (z : ℤ) → IsTime z → Reads timestamp (time_bytes z) z
unfolding timestamp
Reads-timestamp z (range, lo, hi) =
    Reads-last _ (Reads-unsigned 8 (twos (2 ^ 63) z) (twos-lt (2 ^ 63) z range))
      (rw (signed-twos (2 ^ 63) z range, in_calendar z lo hi) (Reads-pure z))

find_zero-append :
    (xs back : List ℕ) → All (λ b. b ≢ 0) xs → find_zero (xs ++ 0 ∷ back) ≡ some (length xs)
unfolding find_zero
find_zero-append [] back h = refl
find_zero-append (x ∷ xs) back h = ground (arith, find_zero-append xs back h.1)

IsName-scalars : (s : Text) → IsName s → All IsScalar s
IsName-scalars [] h = tt
IsName-scalars (c ∷ s) h = (h.0.0, IsName-scalars s h.1)

IsName-nonzero : (s : Text) → IsName s → All (λ c. c ≢ 0) s
IsName-nonzero [] h = tt
IsName-nonzero (c ∷ s) h = (h.0.1, IsName-nonzero s h.1)

-- `cstring` at a string that is laid out as text, NUL and the rest
cstring-at :
    (s : Text) (front back : List ℕ) (kind : ℕ)
    → IsName s
    → cstring (place (front ++ (encode s ++ 0 ∷ back)) kind (length front))
      ≡ ok (s, place (front ++ (encode s ++ 0 ∷ back)) kind (length front + length (encode s) + 1))
unfolding cstring
cstring-at s front back kind h = rw (
  drop-append front (encode s ++ 0 ∷ back),
  find_zero-append (encode s) back (encode-nonzero s (IsName-nonzero s h)),
  slice-at front (encode s) (0 ∷ back),
  decode-encode s (IsName-scalars s h),
)

-- Without its NUL.
cstring-cut :
    (s : Text) (front part : List ℕ) (kind : ℕ)
    → IsName s
    → IsPart part (cstring_bytes s)
    → cstring (place (front ++ part) kind (length front)) ≡ err protocol_error
unfolding cstring
cstring-cut s front part kind h p =
    rw
      (
        drop-append front part,
        part-nonzero (encode s) part (encode-nonzero s (IsName-nonzero s h)) p,
      )
      refl

pub Reads-cstring : (s : Text) → IsName s → Reads cstring (cstring_bytes s) s
Reads-cstring s h = record {
  reads = λ front back kind.
      let e = encode s in
      let n = length front in
      subst₂ (λ z (p : ℕ). cstring (place (front ++ z) kind n) ≡ ok (s, place (front ++ z) kind p))
        (sym (append_assoc e (0 ∷ []) back)) (omega (arith, length-append e (0 ∷ [])))
        (cstring-at s front back kind h);
  cuts = λ front part kind p. cstring-cut s front part kind h p;
}
