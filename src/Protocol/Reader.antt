-- ===== src/Protocol/Reader.antt =====
-- walflux/protocol.py, `class _Reader`: a cursor over one message. The position is an integer, since
-- `take` moves it backwards on a negative length, and slices are Python's.
use walflux_postgres_increme.Prelude.{
  ℕ, suc, ◌+◌, ◌-◌, ◌*◌, ◌^◌, ◌||◌, List, [], ◌∷◌, Option, none, some, length, take, drop, ltb,
  ◌==◌, if◌then◌else◌, Result, ok, err, Error, protocol_error, index_error, struct_error,
  overflow_error, Text,
}
use walflux_postgres_increme.Prelude.Int.{ℤ, pos, negsuc, ◌+ℤ◌, ltb_ℤ}
use walflux_postgres_increme.Prelude.Utf8.{decode}

pub record Reader : Type 0 where
  pub buf : List ℕ
  pub kind : ℕ
  pub at : ℤ

-- A method of the reader: its result and the reader with its new position.
abbrev pub Read : Type 0 → Type 0
Read A = Reader → Result (A × Reader)

module _ {A : Type 0} where
  abbrev pub pure : A → Read A
  pure a r = ok (a, r)

  abbrev pub raise : Error → Read A
  raise e r = err e

  abbrev pub lift : Result A → Read A
  lift (ok a) r = ok (a, r)
  lift (err e) r = err e

infixl 5 ◌>>=◌ ◌>>◌
abbrev pub ◌>>=◌ : {A B : Type 0} → Read A → (A → Read B) → Read B
◌>>=◌ m f r = elim (m r) [ ok (a, r') ↦ f a r' | err e ↦ err e ]

abbrev pub ◌>>◌ : {A B : Type 0} → Read A → Read B → Read B
m >> k = m >>= λ _. k

-- The index that a slice bound stands for: a negative one counts from the end, and stops at 0.
abbrev pub slice_index : ℕ → ℤ → ℕ
slice_index len (pos n) = n
slice_index len (negsuc n) = len - suc n

-- `buf[start:stop]`
unfoldable pub slice : List ℕ → ℤ → ℤ → List ℕ
slice buf start stop =
    let i = slice_index (length buf) start in take (slice_index (length buf) stop - i) (drop i buf)

-- `take(n)`
unfoldable pub take_bytes : ℤ → Read (List ℕ)
take_bytes n r =
    let stop = r.at +ℤ n in
    if ltb_ℤ (pos (length r.buf)) stop
    then err protocol_error
    else ok (slice r.buf r.at stop, record r { at = stop })

-- `chunk[0]`
abbrev first : List ℕ → Read ℕ
first [] = raise index_error
first (b ∷ _) = pure b

unfoldable pub uint8 : Read ℕ
uint8 = do chunk ← take_bytes (pos 1); first chunk

-- `chr` of one byte is its code.
unfoldable pub tag : Read ℕ
tag = uint8

-- The value of big-endian bytes.
unfoldable pub big_endian : ℕ → List ℕ → ℕ
big_endian acc [] = acc
big_endian acc (b ∷ bs) = big_endian (acc * 256 + b) bs

-- `struct.unpack` of one unsigned integer of `width` bytes
unfoldable pub unpack : ℕ → List ℕ → Result ℕ
unpack width chunk = if length chunk == width then ok (big_endian 0 chunk) else err struct_error

unfoldable pub unsigned : ℕ → Read ℕ
unsigned width = do chunk ← take_bytes (pos width); lift (unpack width chunk)

unfoldable pub uint16 : Read ℕ
uint16 = unsigned 2

unfoldable pub uint32 : Read ℕ
uint32 = unsigned 4

unfoldable pub uint64 : Read ℕ
uint64 = unsigned 8

-- Two's complement, with the sign bit worth `half`.
abbrev pub signed : ℕ → ℕ → ℤ
signed half w = if ltb w half then pos w else negsuc (half + half - w - 1)

unfoldable pub int32 : Read ℤ
int32 = do w ← unsigned 4; pure (signed (2 ^ 31) w)

-- The first and the last microsecond of a `datetime`, from the Postgres epoch.
abbrev pub min_micros : ℤ
min_micros = negsuc (730119 * 86400 * 1000000 - 1)

abbrev pub max_micros : ℤ
max_micros = pos (2921940 * 86400 * 1000000 - 1)

-- `_PG_EPOCH + timedelta(microseconds=micros)`, which overflows outside the years 1 to 9999
unfoldable pub timestamp : Read ℤ
timestamp = do
  w ← unsigned 8
  let micros = signed (2 ^ 63) w
  if ltb_ℤ micros min_micros || ltb_ℤ max_micros micros then raise overflow_error else pure micros

-- the offset of the first zero byte
unfoldable pub find_zero : List ℕ → Option ℕ
find_zero [] = none
find_zero (b ∷ bs) =
    let rest = find_zero bs in
    if b == 0 then some 0 else elim rest [ none ↦ none | some n ↦ some (suc n) ]

-- the reader past the terminator, if the bytes before it are UTF-8
abbrev past : Result Text → ℕ → Reader → Result (Text × Reader)
past (ok text) stop r = ok (text, record r { at = pos (stop + 1) })
past (err e) stop r = err e

abbrev up_to : Option ℕ → ℕ → Reader → Result (Text × Reader)
up_to none start r = err protocol_error
up_to (some n) start r = past (decode (slice r.buf r.at (pos (start + n)))) (start + n) r

unfoldable pub cstring : Read Text
cstring r =
    let start = slice_index (length r.buf) r.at in up_to (find_zero (drop start r.buf)) start r
