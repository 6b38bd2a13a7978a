-- ===== src/Protocol/Messages.antt =====
-- walflux/protocol.py: the messages with columns, tuples and lists are read back from the wire format.
use walflux_postgres_increme.Prelude.{
  ℕ, ◌^◌, ◌<◌, ◌≡◌, refl, subst, inl, inr, Bool, true, false, List, [], ◌∷◌, ◌++◌, append_assoc,
  Option, none, some, length, All, arith, ◌==◌, ◌%◌,
}
use walflux_postgres_increme.Protocol.Message.{
  TupleData, Column, Relation, Message, relation, insert, update, delete, truncate,
}
use walflux_postgres_increme.Protocol.Reader.{Read, pure, ◌>>=◌, tag}
use walflux_postgres_increme.Protocol.Decode.{
  decode_tuple_data, decode_column, decode_columns, relation_columns, decode_relation,
  decode_insert, update_prefix, decode_update, delete_body, decode_delete, decode_rel_ids,
  decode_truncate, is_replica_identity, expect_tag,
}
use walflux_postgres_increme.Protocol.Encode.{
  be_bytes, tuple_bytes, flag, column_bytes, columns_bytes, ids_bytes, body_bytes, IsTuple,
  IsColumn, IsIdentity, IsMessage,
}
use walflux_postgres_increme.Protocol.Rules.{Reads, Reads-pure, Reads-bind, Reads-last}
use walflux_postgres_increme.Protocol.Reads.{
  Reads-uint8, Reads-uint16, Reads-uint32, Reads-int32, Reads-cstring,
}
use walflux_postgres_increme.Protocol.Fields.{Reads-tag, Reads-tuple}

flag-bit : (b : Bool) → (flag b % 2 == 1) ≡ b
flag-bit true = refl
flag-bit false = refl

Reads-column : (c : Column) → IsColumn c → Reads decode_column (column_bytes c) c
unfolding decode_column
Reads-column c (n, o, m) = Reads-bind _ (Reads-uint8 (flag c.is_key)) (
    Reads-bind _ (Reads-cstring c.name n) (
      Reads-bind _ (Reads-uint32 c.type_oid o)
        (Reads-last _ (Reads-int32 c.type_mod m) (rw (flag-bit c.is_key) (Reads-pure c)))))

Reads-columns :
    (cs : List Column) → All IsColumn cs → Reads (decode_columns (length cs)) (columns_bytes cs) cs
unfolding decode_columns
Reads-columns [] h = Reads-pure []
Reads-columns (c ∷ cs) h =
    Reads-bind _ (Reads-column c h.0) (Reads-last _ (Reads-columns cs h.1) (Reads-pure (c ∷ cs)))

known_identity : (c : ℕ) → IsIdentity c → is_replica_identity c ≡ true
known_identity c h = ground arith

Reads-relation_columns :
    (identity : ℕ) (cs : List Column)
    → IsIdentity identity
    → length cs < 2 ^ 16
    → All IsColumn cs
    → Reads (relation_columns identity) (be_bytes 2 (length cs) ++ columns_bytes cs) cs
unfolding relation_columns
Reads-relation_columns identity cs known short valid =
    rw (known_identity identity known)
      (Reads-bind _ (Reads-uint16 (length cs) short) (Reads-columns cs valid))

pub Reads-relation :
    (r : Relation)
    → IsMessage (relation r)
    → Reads decode_relation (body_bytes (relation r)) (relation r)
unfolding decode_relation
Reads-relation r (id, ns, n, known, short, valid) = Reads-bind _ (Reads-uint32 r.rel_id id) (
    Reads-bind _ (Reads-cstring r.namespace ns) (
      Reads-bind _ (Reads-cstring r.name n) (
        Reads-bind _ (Reads-tag r.replica_identity) (
          Reads-last _ (Reads-relation_columns r.replica_identity r.columns known short valid)
            (Reads-pure _)))))

pub Reads-insert :
    (rel_id : ℕ) (new : TupleData)
    → IsMessage (insert rel_id new)
    → Reads decode_insert (body_bytes (insert rel_id new)) (insert rel_id new)
unfolding decode_insert
Reads-insert rel_id new (i, n) =
    Reads-bind _ (Reads-uint32 rel_id i)
      (Reads-bind _ (Reads-tag b'N') (Reads-last _ (Reads-tuple new n) (Reads-pure _)))

Reads-assoc :
    {A : Type 0} {m : Read A} {a : A} (xs ys zs : List ℕ)
    → Reads m ((xs ++ ys) ++ zs) a
    → Reads m (xs ++ (ys ++ zs)) a
Reads-assoc {m = m} {a = a} xs ys zs h = subst (λ z. Reads m z a) (append_assoc xs ys zs) h

abbrev Prefix : Type 0
Prefix = Option TupleData × Option TupleData × ℕ

-- The tuple behind a tag 'K' or 'O', and the tag 'N' behind it.
Reads-submessage :
    (row : TupleData) (f : TupleData → ℕ → Prefix)
    → IsTuple row
    → Reads
        (decode_tuple_data >>= λ t. tag >>= λ next. pure (f t next))
        (tuple_bytes row ++ b'N' ∷ [])
        (f row b'N')
Reads-submessage row f valid =
    Reads-bind _ (Reads-tuple row valid) (Reads-last _ (Reads-tag b'N') (Reads-pure _))

-- The new tuple of an update, once the tag before it is read.
abbrev with_new : ℕ → Prefix → Read Message
with_new rel_id prefix = expect_tag b'N' prefix.2 >>= λ _.
    decode_tuple_data >>= λ new. pure (update rel_id prefix.1 prefix.0 new)

pub Reads-update :
    (rel_id : ℕ) (old key : Option TupleData) (new : TupleData)
    → IsMessage (update rel_id old key new)
    → Reads decode_update (body_bytes (update rel_id old key new)) (update rel_id old key new)
unfolding decode_update update_prefix
Reads-update rel_id none none new (i, o, n) =
    Reads-bind _ (Reads-uint32 rel_id i)
      (Reads-bind _ (Reads-tag b'N') (Reads-last _ (Reads-tuple new n) (Reads-pure _)))
Reads-update rel_id none (some key) new (i, o, n) = Reads-bind _ (Reads-uint32 rel_id i) (
    Reads-bind _ (Reads-tag b'K') (
      Reads-assoc (tuple_bytes key) (b'N' ∷ []) (tuple_bytes new) (
        Reads-bind (with_new rel_id) (Reads-submessage key (λ t next. (some t, none, next)) o)
          (Reads-last _ (Reads-tuple new n) (Reads-pure _)))))
Reads-update rel_id (some old) none new (i, o, n) = Reads-bind _ (Reads-uint32 rel_id i) (
    Reads-bind _ (Reads-tag b'O') (
      Reads-assoc (tuple_bytes old) (b'N' ∷ []) (tuple_bytes new) (
        Reads-bind (with_new rel_id) (Reads-submessage old (λ t next. (none, some t, next)) o)
          (Reads-last _ (Reads-tuple new n) (Reads-pure _)))))
Reads-update rel_id (some old) (some key) new (i, o, n) = absurd o

pub Reads-delete :
    (rel_id : ℕ) (old key : Option TupleData)
    → IsMessage (delete rel_id old key)
    → Reads decode_delete (body_bytes (delete rel_id old key)) (delete rel_id old key)
unfolding decode_delete delete_body
Reads-delete rel_id none none (i, o, inl h) = absurd (h refl)
Reads-delete rel_id none none (i, o, inr h) = absurd (h refl)
Reads-delete rel_id none (some key) (i, o, h) =
    Reads-bind _ (Reads-uint32 rel_id i)
      (Reads-bind _ (Reads-tag b'K') (Reads-last _ (Reads-tuple key o) (Reads-pure _)))
Reads-delete rel_id (some old) none (i, o, h) =
    Reads-bind _ (Reads-uint32 rel_id i)
      (Reads-bind _ (Reads-tag b'O') (Reads-last _ (Reads-tuple old o) (Reads-pure _)))
Reads-delete rel_id (some old) (some key) (i, o, h) = absurd o

Reads-ids :
    (ids : List ℕ)
    → All (λ id. id < 2 ^ 32) ids
    → Reads (decode_rel_ids (length ids)) (ids_bytes ids) ids
unfolding decode_rel_ids
Reads-ids [] h = Reads-pure []
Reads-ids (id ∷ ids) h =
    Reads-bind _ (Reads-uint32 id h.0) (Reads-last _ (Reads-ids ids h.1) (Reads-pure (id ∷ ids)))

pub Reads-truncate :
    (options : ℕ) (rel_ids : List ℕ)
    → IsMessage (truncate options rel_ids)
    → Reads decode_truncate (body_bytes (truncate options rel_ids)) (truncate options rel_ids)
unfolding decode_truncate
Reads-truncate options rel_ids (n, o, ids) =
    Reads-bind _ (Reads-uint32 (length rel_ids) n)
      (Reads-bind _ (Reads-uint8 options) (Reads-last _ (Reads-ids rel_ids ids) (Reads-pure _)))
