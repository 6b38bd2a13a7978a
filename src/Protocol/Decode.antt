-- ===== src/Protocol/Decode.antt =====
-- walflux/protocol.py: one decoder for each message type, and `decode_message`.
use walflux_postgres_increme.Prelude.{
  ℕ, zero, suc, ◌%◌, Bool, ◌||◌, List, [], ◌∷◌, Option, none, some, Result, ok, err, protocol_error,
  ◌==◌, if◌then◌else◌,
}
use walflux_postgres_increme.Prelude.Int.{pos}
use walflux_postgres_increme.Prelude.Utf8.{decode}
use walflux_postgres_increme.Protocol.Message.{
  ColumnValue, null, unchanged_toast, text, TupleData, Column, Message, begin, commit, relation,
  insert, update, delete, truncate, origin, type_info,
}
use walflux_postgres_increme.Protocol.Reader.{
  Reader, Read, pure, raise, lift, ◌>>=◌, ◌>>◌, take_bytes, uint8, tag, uint16, uint32, uint64,
  int32, timestamp, cstring,
}

-- The text of a column: Int32 length and bytes.
unfoldable pub text_value : Read ColumnValue
text_value = do length ← int32; chunk ← take_bytes length; s ← lift (decode chunk); pure (text s)

unfoldable pub column_value : ℕ → Read ColumnValue
column_value category =
    if category == b'n'
    then pure null
    else if category == b'u'
    then pure unchanged_toast
    else if category == b't'
    then text_value
    else raise protocol_error

unfoldable pub columns_values : ℕ → Read TupleData
columns_values zero = pure []
columns_values (suc n) = do
  category ← tag
  v ← column_value category
  vs ← columns_values n
  pure (v ∷ vs)

unfoldable pub decode_tuple_data : Read TupleData
decode_tuple_data = do count ← uint16; columns_values count

abbrev pub expect_tag : ℕ → ℕ → Read (Unit {0})
expect_tag expected got = if got == expected then pure tt else raise protocol_error

unfoldable pub decode_begin : Read Message
decode_begin = do
  final_lsn ← uint64
  commit_ts ← timestamp
  xid ← uint32
  pure (begin final_lsn commit_ts xid)

unfoldable pub decode_commit : Read Message
decode_commit = do
  flags ← uint8
  commit_lsn ← uint64
  end_lsn ← uint64
  commit_ts ← timestamp
  pure (commit flags commit_lsn end_lsn commit_ts)

unfoldable pub decode_origin : Read Message
decode_origin = do commit_lsn ← uint64; name ← cstring; pure (origin commit_lsn name)

-- `"dnfi"`
abbrev pub is_replica_identity : ℕ → Bool
is_replica_identity c = c == b'd' || c == b'n' || c == b'f' || c == b'i'

-- Bit 1 of the flags marks a key column.
unfoldable pub decode_column : Read Column
decode_column = do
  flags ← uint8
  name ← cstring
  type_oid ← uint32
  type_mod ← int32
  pure (record { name = name; type_oid = type_oid; type_mod = type_mod; is_key = flags % 2 == 1 })

unfoldable pub decode_columns : ℕ → Read (List Column)
decode_columns zero = pure []
decode_columns (suc n) = do c ← decode_column; cs ← decode_columns n; pure (c ∷ cs)

unfoldable pub relation_columns : ℕ → Read (List Column)
relation_columns identity =
    if is_replica_identity identity
    then (do count ← uint16; decode_columns count)
    else raise protocol_error

unfoldable pub decode_relation : Read Message
decode_relation = do
  rel_id ← uint32
  namespace ← cstring
  name ← cstring
  identity ← tag
  columns ← relation_columns identity
  pure (
      relation (record {
        rel_id = rel_id;
        namespace = namespace;
        name = name;
        replica_identity = identity;
        columns = columns;
      }))

unfoldable pub decode_type : Read Message
decode_type = do
  type_oid ← uint32
  namespace ← cstring
  name ← cstring
  pure (type_info type_oid namespace name)

unfoldable pub decode_insert : Read Message
decode_insert = do
  rel_id ← uint32
  got ← tag
  expect_tag b'N' got
  new ← decode_tuple_data
  pure (insert rel_id new)

-- An optional 'K' or 'O' submessage: key, old and the tag behind it.
unfoldable pub update_prefix : ℕ → Read (Option TupleData × Option TupleData × ℕ)
update_prefix got =
    if got == b'K'
    then (do key ← decode_tuple_data; next ← tag; pure (some key, none, next))
    else if got == b'O'
    then (do old ← decode_tuple_data; next ← tag; pure (none, some old, next))
    else pure (none, none, got)

unfoldable pub decode_update : Read Message
decode_update = do
  rel_id ← uint32
  got ← tag
  prefix ← update_prefix got
  expect_tag b'N' prefix.2
  new ← decode_tuple_data
  pure (update rel_id prefix.1 prefix.0 new)

unfoldable pub delete_body : ℕ → ℕ → Read Message
delete_body rel_id got =
    if got == b'K'
    then (do key ← decode_tuple_data; pure (delete rel_id none (some key)))
    else if got == b'O'
    then (do old ← decode_tuple_data; pure (delete rel_id (some old) none))
    else raise protocol_error

unfoldable pub decode_delete : Read Message
decode_delete = do rel_id ← uint32; got ← tag; delete_body rel_id got

unfoldable pub decode_rel_ids : ℕ → Read (List ℕ)
decode_rel_ids zero = pure []
decode_rel_ids (suc n) = do id ← uint32; ids ← decode_rel_ids n; pure (id ∷ ids)

unfoldable pub decode_truncate : Read Message
decode_truncate = do
  count ← uint32
  options ← uint8
  rel_ids ← decode_rel_ids count
  pure (truncate options rel_ids)

-- `_DECODERS`
unfoldable pub decoder : ℕ → Option (Read Message)
decoder kind =
    if kind == b'B'
    then some decode_begin
    else if kind == b'C'
    then some decode_commit
    else if kind == b'O'
    then some decode_origin
    else if kind == b'R'
    then some decode_relation
    else if kind == b'Y'
    then some decode_type
    else if kind == b'I'
    then some decode_insert
    else if kind == b'U'
    then some decode_update
    else if kind == b'D'
    then some decode_delete
    else if kind == b'T'
    then some decode_truncate
    else none

-- The reader starts past the message-type byte.
abbrev pub reader : List ℕ → ℕ → Reader
reader buf kind = record { buf = buf; kind = kind; at = pos 1 }

abbrev pub message_of : Result (Message × Reader) → Result Message
message_of (ok (m, _)) = ok m
message_of (err e) = err e

unfoldable pub run_decoder : Option (Read Message) → List ℕ → ℕ → Result Message
run_decoder none buf kind = err protocol_error
run_decoder (some d) buf kind = message_of (d (reader buf kind))

unfoldable pub decode_message : List ℕ → Result Message
unfolding decoder run_decoder
decode_message [] = err protocol_error
decode_message (kind ∷ rest) = run_decoder (decoder kind) (kind ∷ rest) kind
