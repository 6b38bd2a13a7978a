-- ===== src/Target/Plans.antt =====
-- walflux/aggregates.py: the plans of a batch stand under the names of their views, and the events of a
-- flush leave them as they are.
use walflux_postgres_increme.Prelude.{
  ◌≡◌, sym, ◌∙◌, ap, false, List, [], ◌∷◌, Text, ◌=t◌, =t→eq, =t_sym, ok, >>=-ok, ok-injective,
  Bool-cases, inl, inr,
}
use walflux_postgres_increme.Decimal.{Sign, plus, minus}
use walflux_postgres_increme.Value.{Dict, Row, get, put}
use walflux_postgres_increme.Aggregates.Spec.{ViewSpec, all_storage}
use walflux_postgres_increme.Aggregates.Sql.{upsert_sql}
use walflux_postgres_increme.Aggregates.Batch.{
  Plan, DeltaBatch, build_plan, build_plans, new, plan_of, apply_row, apply, apply_truncate,
  apply_insert, apply_delete, apply_update,
}
use walflux_postgres_increme.Daemon.Op.{Op, insert, update, delete, truncate, fold_op, fold_ops}
use walflux_postgres_increme.Target.Texts.{IsWritten, build_plan-IsWritten}
use walflux_postgres_increme.Target.Effects.{Absent, Keyed}

Absent-put :
    (j k : Text) (p : Plan) (d : Dict Plan) → (k =t j) ≡ false → Absent j d → Absent j (put k p d)
unfolding put
Absent-put j k p [] h a = (h, tt)
Absent-put j k p ((i, q) ∷ d) h a = elim (Bool-cases (i =t k)) [
  | inl same ↦ rw same a
  | inr differs ↦ rw differs (a.0, Absent-put j k p d h a.1)
]

put-Keyed :
    (k : Text) (p : Plan) (d : Dict Plan)
    → p.view.name ≡ k
    → IsWritten p
    → Keyed d
    → Keyed (put k p d)
unfolding put
put-Keyed k p [] named w h = (named, w, tt, tt)
put-Keyed k p ((j, q) ∷ d) named w (own, v, absent, h) = elim (Bool-cases (j =t k)) [
  | inl same ↦ rw same (named ∙ sym (=t→eq j k same), w, absent, h)
  | inr differs ↦
      rw differs
        (own, v, Absent-put j k p d (=t_sym k j ∙ differs) absent, put-Keyed k p d named w h)
]

build_plan-view : (v : ViewSpec) (p : Plan) → build_plan v ≡ ok p → p.view ≡ v
unfolding build_plan
build_plan-view v p e =
    let (st, _, e₁) = >>=-ok (all_storage v.aggregates) _ e in
    let (sql, _, built) = >>=-ok (upsert_sql v st) _ e₁ in
    ap (λ (q : Plan). q.view) (sym (ok-injective built))

build_plans-Keyed :
    (d d' : Dict Plan) (vs : List ViewSpec) → build_plans d vs ≡ ok d' → Keyed d → Keyed d'
unfolding build_plans
build_plans-Keyed d d' [] e h = rw (← ok-injective e) h
build_plans-Keyed d d' (v ∷ vs) e h =
    let (p, built, e₁) = >>=-ok (build_plan v) _ e in
    build_plans-Keyed (put v.name p d) d' vs e₁ (
      put-Keyed v.name p d (ap (λ (w : ViewSpec). w.name) (build_plan-view v p built))
        (build_plan-IsWritten v p built) h)

pub new-Keyed : (views : List ViewSpec) (b : DeltaBatch) → new views ≡ ok b → Keyed b.plans
unfolding new
new-Keyed views b e =
    let (plans, built, e₁) = >>=-ok (build_plans [] views) _ e in
    rw (← ok-injective e₁) (build_plans-Keyed [] plans views built tt)

apply-plans :
    (name : Text) (row : Row) (sign : Sign) (b b' : DeltaBatch)
    → apply name row sign b ≡ ok b'
    → b'.plans ≡ b.plans
unfolding apply
apply-plans name row sign b b' e =
    let (plan, _, e₁) = >>=-ok (plan_of b name) _ e in
    let (groups, _, e₂) = >>=-ok (get name b.deltas) _ e₁ in
    let (groups', _, e₃) = >>=-ok (apply_row plan row sign groups) _ e₂ in
    ap (λ (q : DeltaBatch). q.plans) (sym (ok-injective e₃))

fold_op-plans : (op : Op) (b b' : DeltaBatch) → fold_op op b ≡ ok b' → b'.plans ≡ b.plans
unfolding fold_op apply_insert apply_delete apply_update apply_truncate
fold_op-plans (insert v row) b b' e = apply-plans v row plus b b' e
fold_op-plans (delete v row) b b' e = apply-plans v row minus b b' e
fold_op-plans (update v old new) b b' e =
    let (m, e₁, e₂) = >>=-ok (apply v old minus b) _ e in
    apply-plans v new plus m b' e₂ ∙ apply-plans v old minus b m e₁
fold_op-plans (truncate v) b b' e =
    let (plan, _, e₁) = >>=-ok (plan_of b v) _ e in
    let (groups, _, e₂) = >>=-ok (get v b.deltas) _ e₁ in
    ap (λ (q : DeltaBatch). q.plans) (sym (ok-injective e₂))

pub fold_ops-plans :
    (ops : List Op) (b b' : DeltaBatch) → fold_ops ops b ≡ ok b' → b'.plans ≡ b.plans
unfolding fold_ops
fold_ops-plans [] b b' e = ap (λ (q : DeltaBatch). q.plans) (sym (ok-injective e))
fold_ops-plans (op ∷ ops) b b' e =
    let (m, e₁, e₂) = >>=-ok (fold_op op b) _ e in
    fold_ops-plans ops m b' e₂ ∙ fold_op-plans op b m e₁
