-- ===== src/Protocol/Message.antt =====
-- walflux/protocol.py: the decoded messages. Text column values are still undecoded here: NULL, the
-- unchanged-TOAST marker or a text. A time is in microseconds since 2000-01-01 UTC.
use walflux_postgres_increme.Prelude.{ℕ, Bool, Option, List, Text}
use walflux_postgres_increme.Prelude.Int.{ℤ}

-- `ColumnValue`
pub data ColumnValue : Type 0 where
  null unchanged_toast : ColumnValue
  text : Text → ColumnValue

abbrev pub TupleData : Type 0
TupleData = List ColumnValue

pub record Column : Type 0 where
  pub name : Text
  pub type_oid : ℕ
  pub type_mod : ℤ
  pub is_key : Bool

pub record Relation : Type 0 where
  pub rel_id : ℕ
  pub namespace : Text
  pub name : Text
  pub replica_identity : ℕ
  pub columns : List Column

-- One constructor for each message class, its fields in the source's order.
pub data Message : Type 0 where
  -- final_lsn, commit_ts, xid
  begin : ℕ → ℤ → ℕ → Message
  -- flags, commit_lsn, end_lsn, commit_ts
  commit : ℕ → ℕ → ℕ → ℤ → Message
  relation : Relation → Message
  insert : ℕ → TupleData → Message
  -- rel_id, old, key, new
  update : ℕ → Option TupleData → Option TupleData → TupleData → Message
  -- rel_id, old, key
  delete : ℕ → Option TupleData → Option TupleData → Message
  -- options, rel_ids
  truncate : ℕ → List ℕ → Message
  -- commit_lsn, name
  origin : ℕ → Text → Message
  -- type_oid, namespace, name
  type_info : ℕ → Text → Text → Message
