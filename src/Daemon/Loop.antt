-- ===== src/Daemon/Loop.antt =====
-- walflux/daemon.py, `_loop`: the items of the stream one by one. An item carries the reading of the
-- monotonic clock, in milliseconds, when it is handled. A raised error ends the loop and leaves the
-- durable world as it was before the item, since a flush raises only before its commit.
use walflux_postgres_increme.Prelude.{
  ℕ, ◌-◌, Bool, true, false, ◌&&◌, ◌||◌, List, [], ◌∷◌, ◌++◌, Option, none, some, length, Text, leb,
  ltb, if◌then◌else◌, Result, ok, err, protocol_error, ◌>>=◌,
}
use walflux_postgres_increme.Aggregates.Statements.{Statement}
use walflux_postgres_increme.Protocol.Message.{
  Message, begin, commit, relation, insert, update, delete, truncate, origin, type_info,
}
use walflux_postgres_increme.Protocol.Decode.{decode_message}
use walflux_postgres_increme.Daemon.Op.{Op, SealedTxn}
use walflux_postgres_increme.Config.{Config}
use walflux_postgres_increme.Daemon.State.{Daemon, start}
use walflux_postgres_increme.Daemon.Rows.{
  on_relation, truncate_ops, insert_ops, update_ops, delete_ops, row_ops,
}
use walflux_postgres_increme.Daemon.Flush.{World, last_lsn, flush}

-- The skip rule: a transaction at or before the checkpoint was applied before a crash.
unfoldable pub seal : ℕ → List Op → ℕ → List SealedTxn → List SealedTxn
seal end_lsn ops checkpoint pending =
    if ltb checkpoint end_lsn
    then pending ++ record { end_lsn = end_lsn; ops = ops } ∷ []
    else pending

pub data Item : Type 0 where
  wake : Item
  payload : List ℕ → ℕ → Item

pub record Loop (D : Type 0) : Type 0 where
  pub daemon : Daemon
  pub world : World D
  pub pending : List SealedTxn
  -- arrival of the oldest pending transaction
  pub oldest : Option ℕ
  -- the buffer of an open Begin..Commit
  pub open_ops : Option (List Op)

abbrev pub is_pending : List SealedTxn → Bool
is_pending [] = false
is_pending (_ ∷ _) = true

abbrev pub opened : Option (List Op) → List Op
opened none = []
opened (some ops) = ops

abbrev pub first_arrival : Bool → Option ℕ → ℕ → Option ℕ
first_arrival false oldest now = oldest
first_arrival true none now = some now
first_arrival true (some t) now = some t

abbrev pub buffer : Option (List Op) → Result (List Op)
buffer none = err protocol_error
buffer (some ops) = ok ops

-- `oldest` is set while a transaction is pending.
abbrev pub waited : Option ℕ → ℕ → ℕ
waited none now = 0
waited (some t) now = now - t

unfoldable pub is_due : Config → List SealedTxn → Option ℕ → ℕ → Bool
is_due config pending oldest now =
    is_pending pending
    && (leb config.batch_max_txns (length pending) || leb config.batch_max_ms (waited oldest now))

module _ (to_float : Text → Result Text) {D : Type 0} (exec : Statement → D → D) where
  -- `_flush`, then `pending, oldest = [], None`
  unfoldable pub flush_pending : Loop D → Result (Loop D)
  flush_pending l = do
    w ← flush exec l.daemon.config.views l.pending l.world
    lsn ← last_lsn l.pending
    ok (record l {
      daemon = record l.daemon { checkpoint_lsn = lsn };
      world = w;
      pending = [];
      oldest = none;
    })

  unfoldable pub on_commit : ℕ → ℕ → Loop D → Loop D
  unfolding seal
  on_commit end_lsn now l = record l {
    open_ops = none;
    pending = seal end_lsn (opened l.open_ops) l.daemon.checkpoint_lsn l.pending;
    oldest = first_arrival (ltb l.daemon.checkpoint_lsn end_lsn) l.oldest now;
  }

  -- A row message outside Begin..Commit raises before it is resolved.
  unfoldable pub on_row : Result (List Op) → Loop D → Result (Loop D)
  on_row resolved l = do
    ops ← buffer l.open_ops
    more ← resolved
    ok (record l { open_ops = some (ops ++ more) })

  unfoldable pub on_message : Message → ℕ → Loop D → Result (Loop D)
  unfolding on_commit on_row
  on_message (begin _ _ _) now l = ok (record l { open_ops = some [] })
  on_message (commit _ _ end_lsn _) now l = ok (on_commit end_lsn now l)
  on_message (relation rel) now l = do d ← on_relation rel l.daemon; ok (record l { daemon = d })
  on_message (insert rel_id new) now l =
      on_row (row_ops to_float l.daemon rel_id (λ rel. insert_ops to_float rel new)) l
  on_message (update rel_id old key new) now l =
      on_row (row_ops to_float l.daemon rel_id (λ rel. update_ops to_float rel old new)) l
  on_message (delete rel_id old key) now l =
      on_row (row_ops to_float l.daemon rel_id (λ rel. delete_ops to_float rel old)) l
  on_message (truncate _ rel_ids) now l = on_row (ok (truncate_ops l.daemon rel_ids)) l
  on_message (origin _ _) now l = ok l
  on_message (type_info _ _ _) now l = ok l

  unfoldable pub on_payload : List ℕ → ℕ → Loop D → Result (Loop D)
  unfolding on_message is_due flush_pending
  on_payload bytes now l = do
    msg ← decode_message bytes
    l' ← on_message msg now l
    let flushed = flush_pending l'
    if is_due l'.daemon.config l'.pending l'.oldest now then flushed else ok l'

  unfoldable pub on_item : Item → Loop D → Result (Loop D)
  unfolding on_payload flush_pending
  on_item wake l = if is_pending l.pending then flush_pending l else ok l
  on_item (payload bytes now) l = on_payload bytes now l

  -- The items that arrive before a stop request, then the flush of what is sealed.
  unfoldable pub run_items : List Item → Loop D → Result (Loop D)
  unfolding on_item
  run_items [] l = if is_pending l.pending then flush_pending l else ok l
  run_items (item ∷ items) l = do l' ← on_item item l; run_items items l'

-- The variables of `_loop` before the first item.
abbrev pub begin_loop : {D : Type 0} → Config → World D → Loop D
begin_loop config w = record {
  daemon = start config w.checkpoint;
  world = w;
  pending = [];
  oldest = none;
  open_ops = none;
}
