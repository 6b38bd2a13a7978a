-- ===== src/Daemon/Flush.antt =====
-- walflux/daemon.py, `_flush`, with the checkpoint of walflux/checkpoint.py. The database is a parameter:
-- a type of states and what a statement does to it. One target transaction holds the statements and
-- the checkpoint row, so a commit changes both at once.
use walflux_postgres_increme.Prelude.{ℕ, List, [], ◌∷◌, Result, ok, err, index_error, ◌>>=◌}
use walflux_postgres_increme.Aggregates.Spec.{ViewSpec}
use walflux_postgres_increme.Aggregates.Batch.{new}
use walflux_postgres_increme.Aggregates.Statements.{Statement, statements}
use walflux_postgres_increme.Daemon.Op.{SealedTxn, fold_txns}

-- What survives a crash: the target database, its checkpoint row, and the position that the server
-- has been told.
pub record World (D : Type 0) : Type 0 where
  pub db : D
  pub checkpoint : ℕ
  pub acked : ℕ

-- `pending[-1].end_lsn`
unfoldable pub last_lsn : List SealedTxn → Result ℕ
last_lsn [] = err index_error
last_lsn (t ∷ []) = ok t.end_lsn
last_lsn (_ ∷ u ∷ ts) = last_lsn (u ∷ ts)

-- The statements of a flush: a new batch, the events of the pending transactions, `statements()`.
unfoldable pub batch_statements : List ViewSpec → List SealedTxn → Result (List Statement)
batch_statements views pending = do b ← new views; b' ← fold_txns pending b; statements b'

module _ {D : Type 0} (exec : Statement → D → D) where
  unfoldable pub exec_all : List Statement → D → D
  exec_all [] d = d
  exec_all (s ∷ ss) d = exec_all ss (exec s d)

  -- `write_checkpoint` beside the statements, then `conn.commit()`
  unfoldable pub commit : List ViewSpec → List SealedTxn → World D → Result (World D)
  commit views pending w = do
    ss ← batch_statements views pending
    lsn ← last_lsn pending
    ok (record w { db = exec_all ss w.db; checkpoint = lsn })

  -- `stream.ack(end_lsn)`
  unfoldable pub ack : ℕ → World D → World D
  ack lsn w = record w { acked = lsn }

  unfoldable pub flush : List ViewSpec → List SealedTxn → World D → Result (World D)
  flush views pending w = do w' ← commit views pending w; lsn ← last_lsn pending; ok (ack lsn w')
