-- ===== src/Daemon/Holds.antt =====
-- What a batch holds for one view, one storage column and one test on keys: each of the operations
-- of `DeltaBatch` moves the sum of its groups by the worth of the row, or leaves it alone.
use walflux_postgres_increme.Prelude.{
  ℕ, ◌+◌, ◌≤◌, ◌<◌, ◌≡◌, refl, ap, subst, ◌∙◌, Bool, true, false, List, [], ◌∷◌, Text, ◌=t◌,
  =t_refl, =t_sym, member, if◌then◌else◌, ok, >>=-ok, ok-injective, arith,
}
use walflux_postgres_increme.Prelude.Int.{ℤ, pos, ◌+ℤ◌, abs, int_laws, +ℤ_assoc}
use walflux_postgres_increme.Decimal.{coef_limit, Sign, sign_ℤ}
use walflux_postgres_increme.Value.{Row, get, get-put_self, get-put_ne}
use walflux_postgres_increme.Aggregates.Batch.{
  Key, Groups, Plan, DeltaBatch, plan_of, apply_row, apply, apply_truncate, truncated_groups,
  add_member,
}
use walflux_postgres_increme.Aggregates.Totals.{
  Column, amount, Fits, GroupsFit, mass, select, total, Respects,
}
use walflux_postgres_increme.Aggregates.Weight.{contribution, worth, size, FitsIn, apply_row-total}

pub member-add_member : (t : Text) (ts : List Text) → member t (add_member t ts) ≡ true
unfolding add_member
member-add_member t ts = ground (arith, =t_refl t)

pub member-add_member_ne :
    (j t : Text) (ts : List Text) → (j =t t) ≡ false → member j (add_member t ts) ≡ member j ts
unfolding add_member
member-add_member_ne j t ts h = ground arith

shift : (b t w z : ℤ) → b +ℤ t ≡ z → b +ℤ (t +ℤ w) ≡ z +ℤ w
shift b t w z h = rw (← h, +ℤ_assoc)

-- What an event of another view leaves alone.
pub record Untouched (name : Text) (b b' : DeltaBatch) : Type 0 where
  pub plans_same : b'.plans ≡ b.plans
  pub groups_same : get name b'.deltas ≡ get name b.deltas
  pub mark_same : member name b'.truncated ≡ member name b.truncated

module _ (name : Text) where
  pub apply-Untouched :
      (m : Text) (row : Row) (sign : Sign) (b b' : DeltaBatch)
      → (m =t name) ≡ false
      → apply m row sign b ≡ ok b'
      → Untouched name b b'
  unfolding apply
  apply-Untouched m row sign b b' differs e =
      let (p, _, e₁) = >>=-ok (plan_of b m) _ e in
      let (gs, _, e₂) = >>=-ok (get m b.deltas) _ e₁ in
      let (gs', _, built) = >>=-ok (apply_row p row sign gs) _ e₂ in
      subst (Untouched name b) (ok-injective built) (record {
        plans_same = refl;
        groups_same = get-put_ne name m gs' b.deltas differs;
        mark_same = refl;
      })

  pub truncate-Untouched :
      (m : Text) (b b' : DeltaBatch)
      → (m =t name) ≡ false
      → apply_truncate m b ≡ ok b'
      → Untouched name b b'
  unfolding apply_truncate
  truncate-Untouched m b b' differs e =
      let (p, _, e₁) = >>=-ok (plan_of b m) _ e in
      let (gs, _, built) = >>=-ok (get m b.deltas) _ e₁ in
      subst (Untouched name b) (ok-injective built) (record {
        plans_same = refl;
        groups_same = get-put_ne name m _ b.deltas differs;
        mark_same = member-add_member_ne name m b.truncated (=t_sym name m ∙ differs);
      })

  pub Untouched-trans :
      (a b d : DeltaBatch) → Untouched name a b → Untouched name b d → Untouched name a d
  Untouched-trans a b d u v = record {
    plans_same = v.plans_same ∙ u.plans_same;
    groups_same = v.groups_same ∙ u.groups_same;
    mark_same = v.mark_same ∙ u.mark_same;
  }

module _ (c : Column) (P : Key → Bool) (name : Text) (plan : Plan) where
  -- what an unflushed batch starts from: the old target, or the empty table after a truncation
  abbrev pub base : ℤ → DeltaBatch → ℤ
  base start b = if member name b.truncated then pos 0 else start

  -- The batch holds `z`, less what it starts from.
  pub record Holds (start : ℤ) (b : DeltaBatch) (z : ℤ) (used : ℕ) : Type 0 where
    pub groups : Groups
    pub plan_is : get name b.plans ≡ ok plan
    pub stored : get name b.deltas ≡ ok groups
    pub balance : base start b +ℤ total c P groups ≡ z
    pub bounded : mass c groups ≤ used
    pub fits : GroupsFit c groups

-- The view, its plan, one column and one test on keys.
module _ (c : Column) (P : Key → Bool) (resp : Respects P) (name : Text) (plan : Plan)
    (zeros_fit : Fits c plan.zeros) (zeros_zero : amount c plan.zeros ≡ pos 0) where
  plan_of-ok : (b : DeltaBatch) (p : Plan) → get name b.plans ≡ ok p → plan_of b name ≡ ok p
  unfolding plan_of
  plan_of-ok b p h = rw (h, plan_of)

  pub apply-Holds :
      (start z : ℤ) (used : ℕ) (b b' : DeltaBatch) (row : Row) (sign : Sign)
      → apply name row sign b ≡ ok b'
      → FitsIn c (contribution plan row)
      → used + size c (contribution plan row) < coef_limit
      → Holds c P name plan start b z used
      → Holds c P name plan start b'
          (z +ℤ sign_ℤ sign (worth c P (contribution plan row)))
          (used + size c (contribution plan row))
  unfolding apply
  apply-Holds start z used b b' row sign e fits small h =
      let e₁ = rw (plan_of-ok b plan h.plan_is, h.stored) at e in
      let (gs', applied, built) = >>=-ok (apply_row plan row sign h.groups) _ e₁ in
      let (sum, bound, rest) =
        apply_row-total c P plan row sign h.groups gs' resp applied zeros_fit zeros_zero h.fits fits
          (omega (arith, h.bounded)) in
      subst
        (λ d.
          Holds c P name plan start d (z +ℤ sign_ℤ sign (worth c P (contribution plan row)))
            (used + size c (contribution plan row)))
        (ok-injective built)
        (record {
          groups = gs';
          plan_is = h.plan_is;
          stored = get-put_self name gs' b.deltas;
          balance = rw sum (shift (base c P name plan start b) (total c P h.groups) _ z h.balance);
          bounded = omega (arith, h.bounded);
          fits = rest;
        })

  zeros_size : abs (amount c plan.zeros) ≡ 0
  zeros_size = omega (arith, ap (λ (t : ℤ). abs t) zeros_zero)

  seed_total : (q : Bool) → pos 0 +ℤ (select c q (amount c plan.zeros) +ℤ pos 0) ≡ pos 0
  seed_total true = rw zeros_zero (omega int_laws)
  seed_total false = omega int_laws

  seeds-Holds :
      (start : ℤ) (used : ℕ) (b : DeltaBatch) (cols : List Text)
      → get name b.plans ≡ ok plan
      → get name b.deltas ≡ ok (truncated_groups cols plan.zeros)
      → member name b.truncated ≡ true
      → Holds c P name plan start b (pos 0) used
  unfolding truncated_groups
  seeds-Holds start used b [] p g m = record {
    groups = ([], plan.zeros) ∷ [];
    plan_is = p;
    stored = g;
    balance = rw m (seed_total (P []));
    bounded = omega (arith, zeros_size);
    fits = (zeros_fit, tt);
  }
  seeds-Holds start used b (_ ∷ _) p g m = record {
    groups = [];
    plan_is = p;
    stored = g;
    balance = rw m (omega int_laws);
    bounded = omega arith;
    fits = tt;
  }

  pub truncate-Holds :
      (start z : ℤ) (used : ℕ) (b b' : DeltaBatch)
      → apply_truncate name b ≡ ok b'
      → Holds c P name plan start b z used
      → Holds c P name plan start b' (pos 0) used
  unfolding apply_truncate
  truncate-Holds start z used b b' e h =
      let e₁ = rw (plan_of-ok b plan h.plan_is, h.stored) at e in
      subst (λ d. Holds c P name plan start d (pos 0) used) (ok-injective e₁)
        (seeds-Holds start used _ plan.view.group_by h.plan_is
          (get-put_self name (truncated_groups plan.view.group_by plan.zeros) b.deltas)
          (member-add_member name b.truncated))

  pub Untouched-Holds :
      (start z : ℤ) (used : ℕ) (b b' : DeltaBatch)
      → Untouched name b b'
      → Holds c P name plan start b z used
      → Holds c P name plan start b' z used
  Untouched-Holds start z used b b' u h = record {
    groups = h.groups;
    plan_is = rw u.plans_same h.plan_is;
    stored = rw u.groups_same h.stored;
    balance = rw u.mark_same h.balance;
    bounded = h.bounded;
    fits = h.fits;
  }
