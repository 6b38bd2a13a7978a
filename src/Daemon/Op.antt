-- ===== src/Daemon/Op.antt =====
-- walflux/daemon.py: `_Op`, a row event resolved to a view, and the loop of `_flush` that folds the
-- events of the pending transactions into a batch.
use walflux_postgres_increme.Prelude.{ℕ, List, [], ◌∷◌, Text, Result, ok, ◌>>=◌}
use walflux_postgres_increme.Value.{Row}
use walflux_postgres_increme.Aggregates.Batch.{
  DeltaBatch, apply_insert, apply_delete, apply_update, apply_truncate,
}

pub data Op : Type 0 where
  insert : Text → Row → Op
  update : Text → Row → Row → Op
  delete : Text → Row → Op
  truncate : Text → Op

abbrev pub view_of : Op → Text
view_of (insert v _) = v
view_of (update v _ _) = v
view_of (delete v _) = v
view_of (truncate v) = v

unfoldable pub fold_op : Op → DeltaBatch → Result DeltaBatch
fold_op (insert v new) b = apply_insert v new b
fold_op (update v old new) b = apply_update v old new b
fold_op (delete v old) b = apply_delete v old b
fold_op (truncate v) b = apply_truncate v b

unfoldable pub fold_ops : List Op → DeltaBatch → Result DeltaBatch
fold_ops [] b = ok b
fold_ops (op ∷ ops) b = do b' ← fold_op op b; fold_ops ops b'

-- A whole source transaction, Begin..Commit.
pub record SealedTxn : Type 0 where
  pub end_lsn : ℕ
  pub ops : List Op

unfoldable pub fold_txns : List SealedTxn → DeltaBatch → Result DeltaBatch
fold_txns [] b = ok b
fold_txns (t ∷ ts) b = do b' ← fold_ops t.ops b; fold_txns ts b'
