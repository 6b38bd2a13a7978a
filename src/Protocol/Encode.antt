-- ===== src/Protocol/Encode.antt =====
-- The wire format of pgoutput version 1 as PostgreSQL documents it ("Logical Replication Message
-- Formats"), as an encoder, and the messages that it can carry.
use walflux_postgres_increme.Prelude.{
  ℕ, zero, suc, ◌+◌, ◌-◌, ◌/◌, ◌%◌, ◌^◌, ◌<◌, ◌≡◌, ◌≢◌, ◌⊎◌, Bool, true, false, List, [], ◌∷◌, ◌++◌,
  Option, none, some, length, All, Text,
}
use walflux_postgres_increme.Prelude.Int.{ℤ, pos, negsuc, ◌≤ℤ◌}
use walflux_postgres_increme.Prelude.Utf8.{encode, IsScalar}
use walflux_postgres_increme.Protocol.Message.{
  ColumnValue, null, unchanged_toast, text, TupleData, Column, Message, begin, commit, relation,
  insert, update, delete, truncate, origin, type_info,
}
use walflux_postgres_increme.Protocol.Reader.{min_micros, max_micros}

-- `width` big-endian bytes
unfoldable pub be_bytes : ℕ → ℕ → List ℕ
be_bytes zero n = []
be_bytes (suc w) n = be_bytes w (n / 256) ++ (n % 256) ∷ []

-- Two's complement.
abbrev pub twos : ℕ → ℤ → ℕ
twos half (pos n) = n
twos half (negsuc n) = half + half - 1 - n

abbrev pub InRange : ℕ → ℤ → Type 0
InRange half (pos n) = n < half
InRange half (negsuc n) = n < half

abbrev pub int32_bytes : ℤ → List ℕ
int32_bytes z = be_bytes 4 (twos (2 ^ 31) z)

abbrev pub time_bytes : ℤ → List ℕ
time_bytes z = be_bytes 8 (twos (2 ^ 63) z)

abbrev pub cstring_bytes : Text → List ℕ
cstring_bytes s = encode s ++ 0 ∷ []

abbrev pub value_bytes : ColumnValue → List ℕ
value_bytes null = b'n' ∷ []
value_bytes unchanged_toast = b'u' ∷ []
value_bytes (text s) = b't' ∷ int32_bytes (pos (length (encode s))) ++ encode s

abbrev pub values_bytes : TupleData → List ℕ
values_bytes [] = []
values_bytes (v ∷ vs) = value_bytes v ++ values_bytes vs

abbrev pub tuple_bytes : TupleData → List ℕ
tuple_bytes vs = be_bytes 2 (length vs) ++ values_bytes vs

abbrev pub flag : Bool → ℕ
flag true = 1
flag false = 0

abbrev pub column_bytes : Column → List ℕ
column_bytes c =
    (flag c.is_key ∷ [])
    ++ (cstring_bytes c.name ++ (be_bytes 4 c.type_oid ++ int32_bytes c.type_mod))

abbrev pub columns_bytes : List Column → List ℕ
columns_bytes [] = []
columns_bytes (c ∷ cs) = column_bytes c ++ columns_bytes cs

abbrev pub ids_bytes : List ℕ → List ℕ
ids_bytes [] = []
ids_bytes (id ∷ ids) = be_bytes 4 id ++ ids_bytes ids

-- The old tuple ('O') or the key ('K'); the server sends one of them at most.
abbrev pub old_bytes : Option TupleData → Option TupleData → List ℕ
old_bytes none none = []
old_bytes none (some key) = b'K' ∷ tuple_bytes key
old_bytes (some old) _ = b'O' ∷ tuple_bytes old

abbrev pub body_bytes : Message → List ℕ
body_bytes (begin final_lsn commit_ts xid) =
    be_bytes 8 final_lsn ++ (time_bytes commit_ts ++ be_bytes 4 xid)
body_bytes (commit flags commit_lsn end_lsn commit_ts) =
    (flags ∷ []) ++ (be_bytes 8 commit_lsn ++ (be_bytes 8 end_lsn ++ time_bytes commit_ts))
body_bytes (relation r) =
    be_bytes 4 r.rel_id
    ++ (cstring_bytes r.namespace
        ++ (cstring_bytes r.name
            ++ ((r.replica_identity ∷ [])
                ++ (be_bytes 2 (length r.columns) ++ columns_bytes r.columns))))
body_bytes (insert rel_id new) = be_bytes 4 rel_id ++ ((b'N' ∷ []) ++ tuple_bytes new)
body_bytes (update rel_id old key new) =
    be_bytes 4 rel_id ++ (old_bytes old key ++ ((b'N' ∷ []) ++ tuple_bytes new))
body_bytes (delete rel_id old key) = be_bytes 4 rel_id ++ old_bytes old key
body_bytes (truncate options rel_ids) =
    be_bytes 4 (length rel_ids) ++ ((options ∷ []) ++ ids_bytes rel_ids)
body_bytes (origin commit_lsn name) = be_bytes 8 commit_lsn ++ cstring_bytes name
body_bytes (type_info type_oid namespace name) =
    be_bytes 4 type_oid ++ (cstring_bytes namespace ++ cstring_bytes name)

abbrev pub kind_byte : Message → ℕ
kind_byte (begin _ _ _) = b'B'
kind_byte (commit _ _ _ _) = b'C'
kind_byte (relation _) = b'R'
kind_byte (insert _ _) = b'I'
kind_byte (update _ _ _ _) = b'U'
kind_byte (delete _ _ _) = b'D'
kind_byte (truncate _ _) = b'T'
kind_byte (origin _ _) = b'O'
kind_byte (type_info _ _ _) = b'Y'

abbrev pub encode_message : Message → List ℕ
encode_message m = kind_byte m ∷ body_bytes m

-- A text of scalar values; a wire string has no NUL in it.
abbrev pub IsText : Text → Type 0
IsText = All IsScalar

abbrev pub IsName : Text → Type 0
IsName = All (λ c. IsScalar c × (c ≢ 0))

abbrev pub IsValue : ColumnValue → Type 0
IsValue null = Unit
IsValue unchanged_toast = Unit
IsValue (text s) = IsText s × (length (encode s) < 2 ^ 31)

abbrev pub IsTuple : TupleData → Type 0
IsTuple vs = (length vs < 2 ^ 16) × All IsValue vs

abbrev pub IsTime : ℤ → Type 0
IsTime z = InRange (2 ^ 63) z × (min_micros ≤ℤ z) × (z ≤ℤ max_micros)

abbrev pub IsColumn : Column → Type 0
IsColumn c = IsName c.name × (c.type_oid < 2 ^ 32) × InRange (2 ^ 31) c.type_mod

abbrev pub IsIdentity : ℕ → Type 0
IsIdentity c = (c ≡ b'd') ⊎ (c ≡ b'n') ⊎ (c ≡ b'f') ⊎ (c ≡ b'i')

abbrev pub IsOld : Option TupleData → Option TupleData → Type 0
IsOld none none = Unit
IsOld none (some key) = IsTuple key
IsOld (some old) none = IsTuple old
IsOld (some _) (some _) = ⊥

-- The messages that the format can carry: every number fits its field, every text is encodable.
abbrev pub IsMessage : Message → Type 0
IsMessage (begin final_lsn commit_ts xid) = (final_lsn < 2 ^ 64) × IsTime commit_ts × (xid < 2 ^ 32)
IsMessage (commit flags commit_lsn end_lsn commit_ts) =
    (flags < 256) × (commit_lsn < 2 ^ 64) × (end_lsn < 2 ^ 64) × IsTime commit_ts
IsMessage (relation r) =
    (r.rel_id < 2 ^ 32)
    × IsName r.namespace
    × IsName r.name
    × IsIdentity r.replica_identity
    × (length r.columns < 2 ^ 16)
    × All IsColumn r.columns
IsMessage (insert rel_id new) = (rel_id < 2 ^ 32) × IsTuple new
IsMessage (update rel_id old key new) = (rel_id < 2 ^ 32) × IsOld old key × IsTuple new
IsMessage (delete rel_id old key) =
    (rel_id < 2 ^ 32) × IsOld old key × ((old ≢ none) ⊎ (key ≢ none))
IsMessage (truncate options rel_ids) =
    (length rel_ids < 2 ^ 32) × (options < 256) × All (λ id. id < 2 ^ 32) rel_ids
IsMessage (origin commit_lsn name) = (commit_lsn < 2 ^ 64) × IsName name
IsMessage (type_info type_oid namespace name) = (type_oid < 2 ^ 32) × IsName namespace × IsName name
