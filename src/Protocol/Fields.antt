-- ===== src/Protocol/Fields.antt =====
-- walflux/protocol.py: the fields of a message and its tuples are read back from the wire format.
use walflux_postgres_increme.Prelude.{ℕ, List, [], ◌∷◌, ◌++◌, length, All, Text}
use walflux_postgres_increme.Prelude.Int.{ℤ, pos}
use walflux_postgres_increme.Prelude.Utf8.{encode, decode-encode}
use walflux_postgres_increme.Protocol.Message.{
  ColumnValue, null, unchanged_toast, text, TupleData, begin, commit, origin, type_info,
}
use walflux_postgres_increme.Protocol.Reader.{Read, ◌>>=◌, tag}
use walflux_postgres_increme.Protocol.Decode.{
  text_value, column_value, columns_values, decode_tuple_data, decode_begin, decode_commit,
  decode_origin, decode_type,
}
use walflux_postgres_increme.Protocol.Encode.{
  int32_bytes, value_bytes, values_bytes, tuple_bytes, body_bytes, IsValue, IsTuple, IsMessage,
}
use walflux_postgres_increme.Protocol.Rules.{Reads, Reads-pure, Reads-lift, Reads-bind, Reads-last}
use walflux_postgres_increme.Protocol.Reads.{
  Reads-take_bytes, Reads-uint8, Reads-uint16, Reads-uint32, Reads-uint64, Reads-int32,
  Reads-timestamp, Reads-cstring,
}

pub Reads-tag : (b : ℕ) → Reads tag (b ∷ []) b
unfolding tag
Reads-tag b = Reads-uint8 b

Reads-text_value :
    (s : Text)
    → IsValue (text s)
    → Reads text_value (int32_bytes (pos (length (encode s))) ++ encode s) (text s)
unfolding text_value
Reads-text_value s (valid, short) = Reads-bind _ (Reads-int32 (pos (length (encode s))) short) (
    Reads-last _ (Reads-take_bytes (encode s))
      (Reads-last _ (Reads-lift _ s (decode-encode s valid)) (Reads-pure (text s))))

-- The category byte and the value behind it.
Reads-value :
    (v : ColumnValue) (more : List ℕ) (f : ColumnValue → Read TupleData) (vs : TupleData)
    → IsValue v
    → Reads (f v) more vs
    → Reads (tag >>= λ category. column_value category >>= f) (value_bytes v ++ more) vs
unfolding column_value
Reads-value null more f vs h k = Reads-bind _ (Reads-tag b'n') (Reads-bind f (Reads-pure null) k)
Reads-value unchanged_toast more f vs h k =
    Reads-bind _ (Reads-tag b'u') (Reads-bind f (Reads-pure unchanged_toast) k)
Reads-value (text s) more f vs h k =
    Reads-bind _ (Reads-tag b't') (Reads-bind f (Reads-text_value s h) k)

Reads-values :
    (vs : TupleData) → All IsValue vs → Reads (columns_values (length vs)) (values_bytes vs) vs
unfolding columns_values
Reads-values [] h = Reads-pure []
Reads-values (v ∷ vs) h =
    Reads-value v (values_bytes vs) _ (v ∷ vs) h.0
      (Reads-last _ (Reads-values vs h.1) (Reads-pure (v ∷ vs)))

pub Reads-tuple : (vs : TupleData) → IsTuple vs → Reads decode_tuple_data (tuple_bytes vs) vs
unfolding decode_tuple_data
Reads-tuple vs (short, valid) =
    Reads-bind _ (Reads-uint16 (length vs) short) (Reads-values vs valid)

pub Reads-begin :
    (final_lsn : ℕ) (commit_ts : ℤ) (xid : ℕ)
    → IsMessage (begin final_lsn commit_ts xid)
    → Reads decode_begin
        (body_bytes (begin final_lsn commit_ts xid))
        (begin final_lsn commit_ts xid)
unfolding decode_begin
Reads-begin final_lsn commit_ts xid (l, t, x) =
    Reads-bind _ (Reads-uint64 final_lsn l) (
      Reads-bind _ (Reads-timestamp commit_ts t) (Reads-last _ (Reads-uint32 xid x) (Reads-pure _)))

pub Reads-commit :
    (flags commit_lsn end_lsn : ℕ) (commit_ts : ℤ)
    → IsMessage (commit flags commit_lsn end_lsn commit_ts)
    → Reads decode_commit
        (body_bytes (commit flags commit_lsn end_lsn commit_ts))
        (commit flags commit_lsn end_lsn commit_ts)
unfolding decode_commit
Reads-commit flags commit_lsn end_lsn commit_ts (f, c, e, t) = Reads-bind _ (Reads-uint8 flags) (
    Reads-bind _ (Reads-uint64 commit_lsn c) (
      Reads-bind _ (Reads-uint64 end_lsn e)
        (Reads-last _ (Reads-timestamp commit_ts t) (Reads-pure _))))

pub Reads-origin :
    (commit_lsn : ℕ) (name : Text)
    → IsMessage (origin commit_lsn name)
    → Reads decode_origin (body_bytes (origin commit_lsn name)) (origin commit_lsn name)
unfolding decode_origin
Reads-origin commit_lsn name (c, n) =
    Reads-bind _ (Reads-uint64 commit_lsn c) (Reads-last _ (Reads-cstring name n) (Reads-pure _))

pub Reads-type :
    (oid : ℕ) (namespace name : Text)
    → IsMessage (type_info oid namespace name)
    → Reads decode_type (body_bytes (type_info oid namespace name)) (type_info oid namespace name)
unfolding decode_type
Reads-type oid namespace name (o, ns, n) =
    Reads-bind _ (Reads-uint32 oid o) (
      Reads-bind _ (Reads-cstring namespace ns)
        (Reads-last _ (Reads-cstring name n) (Reads-pure _)))
