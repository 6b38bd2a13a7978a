-- ===== src/Aggregates/Emit.antt =====
-- walflux/aggregates.py: `DeltaBatch.statements` and `DeltaBatch.is_empty` on the batches that occur,
-- in which every view of `_plans` has its groups in `_deltas`.
use walflux_postgres_increme.Prelude.{
  ◌≡◌, refl, ◌∙◌, Bool, true, false, not, ◌&&◌, ◌||◌, List, [], ◌∷◌, ◌++◌, All, member, Text, ◌=t◌,
  =t_refl, =t→eq, or-false, if◌then◌else◌, ok, >>=-ok, ok-injective, Bool-cases, inl, inr, either,
}
use walflux_postgres_increme.Value.{Dict, Row, get, put, get-put_self, get-put_ne}
use walflux_postgres_increme.Decimal.{Sign}
use walflux_postgres_increme.Aggregates.Spec.{ViewSpec}
use walflux_postgres_increme.Aggregates.Batch.{
  Plan, Groups, DeltaBatch, no_deltas, new, build_plans, plan_of, apply_row, apply, apply_truncate,
  truncated_groups, has_groups, any_groups, has_members, is_empty,
}
use walflux_postgres_increme.Aggregates.Statements.{
  Statement, cleanup, truncations, group_upserts, upserts, is_grouped, cleanups, statements,
}

abbrev Covers : Dict Groups → Text × Plan → Type 0
Covers d (name, _) = (gs : Groups) × (get name d ≡ ok gs)

-- `_deltas` has the groups of every view.
abbrev pub IsCovered : DeltaBatch → Type 0
IsCovered b = All (Covers b.deltas) b.plans

Covers-cons :
    (n : Text) (g : Groups) (d : Dict Groups) (p : Text × Plan) → Covers d p → Covers ((n, g) ∷ d) p
unfolding get
Covers-cons n g d (name, plan) (gs, e) = elim (Bool-cases (n =t name)) [
  | inl here ↦ (g, rw here refl)
  | inr there ↦ (gs, rw there e)
]

Covers-put :
    (n : Text) (g : Groups) (d : Dict Groups) (p : Text × Plan) → Covers d p → Covers (put n g d) p
Covers-put n g d (name, plan) (gs, e) = elim (Bool-cases (n =t name)) [
  | inl here ↦ (g, rw (=t→eq n name here) (get-put_self name g d))
  | inr there ↦ (gs, get-put_ne name n g d there ∙ e)
]

All-Covers :
    (d d' : Dict Groups) (plans : Dict Plan)
    → ((p : Text × Plan) → Covers d p → Covers d' p)
    → All (Covers d) plans
    → All (Covers d') plans
All-Covers d d' [] f h = tt
All-Covers d d' (p ∷ plans) f h = (f p h.0, All-Covers d d' plans f h.1)

no_deltas-Covers : (plans : Dict Plan) → All (Covers (no_deltas plans)) plans
unfolding no_deltas get
no_deltas-Covers [] = tt
no_deltas-Covers ((name, plan) ∷ plans) = (
  ([], rw (=t_refl name) refl),
  All-Covers (no_deltas plans) ((name, []) ∷ no_deltas plans) plans
      (Covers-cons name [] (no_deltas plans)) (no_deltas-Covers plans),
)

pub new-IsCovered : (views : List ViewSpec) (b : DeltaBatch) → new views ≡ ok b → IsCovered b
unfolding new
new-IsCovered views b e =
    let (plans, _, e₁) = >>=-ok (build_plans [] views) _ e in
    rw (← ok-injective e₁) (no_deltas-Covers plans)

put-IsCovered :
    (n : Text) (g : Groups) (b : DeltaBatch) → IsCovered b → All (Covers (put n g b.deltas)) b.plans
put-IsCovered n g b h = All-Covers b.deltas (put n g b.deltas) b.plans (Covers-put n g b.deltas) h

pub apply-IsCovered :
    (name : Text) (row : Row) (sign : Sign) (b b' : DeltaBatch)
    → IsCovered b
    → apply name row sign b ≡ ok b'
    → IsCovered b'
unfolding apply
apply-IsCovered name row sign b b' h e =
    let (plan, _, e₁) = >>=-ok (plan_of b name) _ e in
    let (groups, _, e₂) = >>=-ok (get name b.deltas) _ e₁ in
    let (groups', _, e₃) = >>=-ok (apply_row plan row sign groups) _ e₂ in
    rw (← ok-injective e₃) (put-IsCovered name groups' b h)

pub apply_truncate-IsCovered :
    (name : Text) (b b' : DeltaBatch) → IsCovered b → apply_truncate name b ≡ ok b' → IsCovered b'
unfolding apply_truncate
apply_truncate-IsCovered name b b' h e =
    let (plan, _, e₁) = >>=-ok (plan_of b name) _ e in
    let (groups, _, e₂) = >>=-ok (get name b.deltas) _ e₁ in
    rw (← ok-injective e₂) (put-IsCovered name (truncated_groups plan.view.group_by plan.zeros) b h)

no_members : (g : Groups) → has_groups g ≡ false → g ≡ []
no_members [] e = refl
no_members (x ∷ g) e = cc

no_groups :
    (name : Text) (d : Dict Groups) (gs : Groups)
    → any_groups d ≡ false
    → get name d ≡ ok gs
    → gs ≡ []
unfolding any_groups get
no_groups name [] gs none_any e = cc
no_groups name ((n, g) ∷ d) gs none_any e =
    let (here, later) = or-false (has_groups g) (any_groups d) none_any in
    elim (either (n =t name) e) [
      | inl (_, found) ↦ rw (← ok-injective found) (no_members g here)
      | inr (_, beyond) ↦ no_groups name d gs later beyond
    ]

-- What `statements` emits for the upserts and the clean-up of covered views, and of untouched ones.
upserts_covered :
    (d : Dict Groups) (plans : Dict Plan)
    → All (Covers d) plans
    → (us : List Statement) × (upserts d plans ≡ ok us) × (any_groups d ≡ false → us ≡ [])
unfolding upserts group_upserts
upserts_covered d [] h = ([], refl, λ q. refl)
upserts_covered d ((name, plan) ∷ plans) ((gs, e), h) =
    let (us, made, quiet) = upserts_covered d plans h in
    (
      group_upserts plan gs ++ us,
      rw (e, made) refl,
      λ q. rw (no_groups name d gs q e, quiet q) refl,
    )

neither : (a b : Bool) → (not a && not b) ≡ true → (a ≡ false) × (b ≡ false)
neither false false e = (refl, refl)
neither true b e = cc
neither false true e = cc

idle :
    (grouped : Bool) (name : Text) (marked : List Text) (gs : Groups)
    → has_members marked ≡ false
    → gs ≡ []
    → (grouped && (member name marked || has_groups gs)) ≡ false
idle true name [] gs m q = rw q refl
idle false name [] gs m q = refl
idle grouped name (t ∷ ts) gs m q = cc

cleanups_covered :
    (marked : List Text) (d : Dict Groups) (plans : Dict Plan)
    → All (Covers d) plans
    → (cs : List Statement) × (cleanups marked d plans ≡ ok cs)
      × (has_members marked ≡ false → any_groups d ≡ false → cs ≡ [])
unfolding cleanups
cleanups_covered marked d [] h = ([], refl, λ m q. refl)
cleanups_covered marked d ((name, plan) ∷ plans) ((gs, e), h) =
    let (cs, made, quiet) = cleanups_covered marked d plans h in
    (
      (if is_grouped plan.view && (member name marked || has_groups gs)
          then cleanup plan.view ∷ cs
          else cs),
      rw (e, made) refl,
      λ m q.
          rw (idle (is_grouped plan.view) name marked gs m (no_groups name d gs q e)) (quiet m q),
    )

truncations_idle :
    (marked : List Text) (plans : Dict Plan)
    → has_members marked ≡ false
    → truncations marked plans ≡ []
unfolding truncations
truncations_idle [] [] m = refl
truncations_idle [] ((name, plan) ∷ plans) m = truncations_idle [] plans m
truncations_idle (t ∷ ts) plans m = cc

-- `statements` raises nothing on a covered batch, and emits nothing when `is_empty` holds.
pub IsCovered-statements :
    (b : DeltaBatch)
    → IsCovered b
    → (ss : List Statement) × (statements b ≡ ok ss) × (is_empty b ≡ true → ss ≡ [])
unfolding statements is_empty
IsCovered-statements b h =
    let (us, made, no_upserts) = upserts_covered b.deltas b.plans h in
    let (cs, cleaned, no_cleanups) = cleanups_covered b.truncated b.deltas b.plans h in
    (
      truncations b.truncated b.plans ++ us ++ cs,
      rw (made, cleaned) refl,
      λ e.
          let (m, q) = neither (has_members b.truncated) (any_groups b.deltas) e in
          rw (truncations_idle b.truncated b.plans m, no_upserts q, no_cleanups m q) refl,
    )
