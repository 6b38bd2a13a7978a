-- ===== src/Daemon/Emission.antt =====
-- walflux/daemon.py, `_flush`: the statements of a batch that has folded the events of a flush.
use walflux_postgres_increme.Prelude.{◌≡◌, true, List, [], ◌∷◌, ok, >>=-ok, ok-injective}
use walflux_postgres_increme.Decimal.{plus, minus}
use walflux_postgres_increme.Aggregates.Spec.{ViewSpec}
use walflux_postgres_increme.Aggregates.Batch.{
  DeltaBatch, new, is_empty, apply, apply_insert, apply_delete, apply_update,
}
use walflux_postgres_increme.Aggregates.Statements.{Statement, statements}
use walflux_postgres_increme.Aggregates.Emit.{
  IsCovered, new-IsCovered, apply-IsCovered, apply_truncate-IsCovered, IsCovered-statements,
}
use walflux_postgres_increme.Daemon.Op.{Op, insert, update, delete, truncate, fold_op, fold_ops}

fold_op-IsCovered :
    (op : Op) (b b' : DeltaBatch) → IsCovered b → fold_op op b ≡ ok b' → IsCovered b'
unfolding fold_op apply_insert apply_delete apply_update
fold_op-IsCovered (insert v row) b b' h e = apply-IsCovered v row plus b b' h e
fold_op-IsCovered (delete v row) b b' h e = apply-IsCovered v row minus b b' h e
fold_op-IsCovered (truncate v) b b' h e = apply_truncate-IsCovered v b b' h e
fold_op-IsCovered (update v old new) b b' h e =
    let (b₁, less, e₁) = >>=-ok (apply v old minus b) _ e in
    apply-IsCovered v new plus b₁ b' (apply-IsCovered v old minus b b₁ h less) e₁

fold_ops-IsCovered :
    (ops : List Op) (b b' : DeltaBatch) → IsCovered b → fold_ops ops b ≡ ok b' → IsCovered b'
unfolding fold_ops
fold_ops-IsCovered [] b b' h e = rw (← ok-injective e) h
fold_ops-IsCovered (op ∷ ops) b b' h e =
    let (b₁, one, e₁) = >>=-ok (fold_op op b) _ e in
    fold_ops-IsCovered ops b₁ b' (fold_op-IsCovered op b b₁ h one) e₁

-- When a new batch has folded events without an error, `statements` raises nothing, and if `is_empty`
-- holds then it has no statement.
pub fold_ops-statements :
    (views : List ViewSpec) (ops : List Op) (b₀ b : DeltaBatch)
    → new views ≡ ok b₀
    → fold_ops ops b₀ ≡ ok b
    → (ss : List Statement) × (statements b ≡ ok ss) × (is_empty b ≡ true → ss ≡ [])
fold_ops-statements views ops b₀ b made folded =
    IsCovered-statements b (fold_ops-IsCovered ops b₀ b (new-IsCovered views b₀ made) folded)
