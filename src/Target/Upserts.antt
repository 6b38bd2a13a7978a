-- ===== src/Target/Upserts.antt =====
-- What the upserts and the clean-up of `DeltaBatch.statements` do to the table of one view.
use walflux_postgres_increme.Prelude.{
  ◌≡◌, refl, sym, ◌∙◌, ap, Bool, false, ◌&&◌, ◌||◌, List, [], ◌∷◌, ◌++◌, All, Text, ◌=t◌, =t→eq,
  member, ok, >>=-ok, ok-injective, Bool-cases, inl, inr, ◌⊎◌, either,
}
use walflux_postgres_increme.Prelude.Int.{◌+ℤ◌, int_laws, +ℤ_assoc}
use walflux_postgres_increme.Value.{Dict, get}
use walflux_postgres_increme.Aggregates.Batch.{Key, Plan, Groups, has_groups}
use walflux_postgres_increme.Aggregates.Statements.{
  Statement, upsert, cleanup, group_upserts, upserts, is_grouped, cleanups,
}
use walflux_postgres_increme.Aggregates.Totals.{Column, GroupsFit, total}
use walflux_postgres_increme.Daemon.Flush.{exec_all}
use walflux_postgres_increme.Target.Texts.{IsWritten}
use walflux_postgres_increme.Target.Table.{Table, table_total, live, target_of, Selects, Postgres}
use walflux_postgres_increme.Target.Effects.{
  Absent, Keyed, differs, exec_all-append, exec_all-elsewhere, cleaned-named, upserted-named,
}

module _ {D : Type 0} (exec : Statement → D → D) (pg : Postgres exec) where
  group_upserts-total :
      (c : Column) (P : Key → Bool) (plan : Plan) (gs : Groups) (name : Text) (d : D)
      → Selects pg.same P
      → plan.view.name ≡ name
      → IsWritten plan
      → GroupsFit c gs
      → table_total c P (pg.table (exec_all exec (group_upserts plan gs) d) name)
        ≡ table_total c P (pg.table d name) +ℤ total c P gs
  unfolding group_upserts exec_all
  group_upserts-total c P plan [] name d sel named written fits = omega int_laws
  group_upserts-total c P plan ((key, ds) ∷ gs) name d sel named written (fit, fits) =
      let first = upserted-named exec pg plan key ds c P name d named written sel fit in
      rw (group_upserts-total c P plan gs name (exec (upsert plan key ds) d) sel named written fits)
        (rw (first, +ℤ_assoc) refl)

  group_upserts-elsewhere :
      (plan : Plan) (gs : Groups) (name : Text)
      → (plan.view.name =t name) ≡ false
      → All (λ s. (target_of s =t name) ≡ false) (group_upserts plan gs)
  unfolding group_upserts
  group_upserts-elsewhere plan [] name h = tt
  group_upserts-elsewhere plan ((key, ds) ∷ gs) name h = (h, group_upserts-elsewhere plan gs name h)

  Elsewhere-append :
      (name : Text) (xs ys : List Statement)
      → All (λ s. (target_of s =t name) ≡ false) xs
      → All (λ s. (target_of s =t name) ≡ false) ys
      → All (λ s. (target_of s =t name) ≡ false) (xs ++ ys)
  Elsewhere-append name [] ys h k = k
  Elsewhere-append name (x ∷ xs) ys h k = (h.0, Elsewhere-append name xs ys h.1 k)

  upserts-Absent :
      (deltas : Dict Groups) (plans : Dict Plan) (us : List Statement) (name : Text)
      → Keyed plans
      → Absent name plans
      → upserts deltas plans ≡ ok us
      → All (λ s. (target_of s =t name) ≡ false) us
  unfolding upserts
  upserts-Absent deltas [] us name k h e = rw (← ok-injective e) tt
  upserts-Absent deltas ((n, plan) ∷ plans) us name (named, _, _, k) (other, h) e =
      let (gs, _, e₁) = >>=-ok (get n deltas) _ e in
      let (rest, more, e₂) = >>=-ok (upserts deltas plans) _ e₁ in
      rw (← ok-injective e₂) (
        Elsewhere-append name (group_upserts plan gs) rest
          (group_upserts-elsewhere plan gs name (differs plan n name named other))
          (upserts-Absent deltas plans rest name k h more))

  -- The upserts of a view add up the deltas of its groups.
  pub upserts-total :
      (c : Column) (P : Key → Bool) (deltas : Dict Groups) (plans : Dict Plan) (us : List Statement)
      (name : Text) (plan : Plan) (groups : Groups) (d : D)
      → Selects pg.same P
      → Keyed plans
      → get name plans ≡ ok plan
      → get name deltas ≡ ok groups
      → GroupsFit c groups
      → upserts deltas plans ≡ ok us
      → table_total c P (pg.table (exec_all exec us d) name)
        ≡ table_total c P (pg.table d name) +ℤ total c P groups
  unfolding get upserts
  upserts-total c P deltas [] us name plan groups d sel k found stored fits e = cc
  upserts-total c P deltas ((n, p) ∷ plans) us name plan groups d sel (named, written, absent, k)
        found stored fits e =
      let (gs, got, e₁) = >>=-ok (get n deltas) _ e in
      let (rest, more, e₂) = >>=-ok (upserts deltas plans) _ e₁ in
      rw (← ok-injective e₂, exec_all-append exec pg (group_upserts p gs) rest d)
        (elim (either (n =t name) found) [
          | inl (here, _) ↦
              let at = =t→eq n name here in
              let mine : gs ≡ groups =
                ok-injective (sym got ∙ ap (λ t. get t deltas) at ∙ stored) in
              let others = upserts-Absent deltas plans rest name k (rw (← at) absent) more in
              rw
                (exec_all-elsewhere exec pg rest name (exec_all exec (group_upserts p gs) d) others)
                (rw mine (group_upserts-total c P p groups name d sel (named ∙ at) written fits))
          | inr (there, found') ↦
              let others = group_upserts-elsewhere p gs name (differs p n name named there) in
              upserts-total c P deltas plans rest name plan groups
                (exec_all exec (group_upserts p gs) d) sel k found' stored fits more
              ∙ ap (λ rows. table_total c P rows +ℤ total c P groups)
                  (exec_all-elsewhere exec pg (group_upserts p gs) name d others)
        ])

  cleanups-Absent :
      (marked : List Text) (deltas : Dict Groups) (plans : Dict Plan) (cs : List Statement)
      (name : Text)
      → Keyed plans
      → Absent name plans
      → cleanups marked deltas plans ≡ ok cs
      → All (λ s. (target_of s =t name) ≡ false) cs
  unfolding cleanups
  cleanups-Absent marked deltas [] cs name k h e = rw (← ok-injective e) tt
  cleanups-Absent marked deltas ((n, plan) ∷ plans) cs name (named, _, _, k) (other, h) e =
      let (gs, _, e₁) = >>=-ok (get n deltas) _ e in
      let (rest, more, e₂) = >>=-ok (cleanups marked deltas plans) _ e₁ in
      let others = cleanups-Absent marked deltas plans rest name k h more in
      rw (← ok-injective e₂)
        (elim (Bool-cases (is_grouped plan.view && (member n marked || has_groups gs))) [
          | inl q ↦ rw q (differs plan n name named other, others)
          | inr q ↦ rw q others
        ])

  moved : {t u v : Table} → u ≡ v → (t ≡ u) ⊎ (t ≡ live u) → (t ≡ v) ⊎ (t ≡ live v)
  moved e (inl h) = inl (h ∙ e)
  moved e (inr h) = inr (h ∙ ap live e)

  -- A table is cleaned up or left alone.
  pub cleanups-table :
      (marked : List Text) (deltas : Dict Groups) (plans : Dict Plan) (cs : List Statement)
      (name : Text) (plan : Plan) (d : D)
      → Keyed plans
      → get name plans ≡ ok plan
      → cleanups marked deltas plans ≡ ok cs
      → (pg.table (exec_all exec cs d) name ≡ pg.table d name)
        ⊎ (pg.table (exec_all exec cs d) name ≡ live (pg.table d name))
  unfolding get cleanups exec_all
  cleanups-table marked deltas [] cs name plan d k found e = cc
  cleanups-table marked deltas ((n, p) ∷ plans) cs name plan d (named, written, absent, k) found e =
      let (gs, _, e₁) = >>=-ok (get n deltas) _ e in
      let (rest, more, e₂) = >>=-ok (cleanups marked deltas plans) _ e₁ in
      rw (← ok-injective e₂)
        (elim (Bool-cases (is_grouped p.view && (member n marked || has_groups gs))) [
          | inl q ↦ rw q (elim (either (n =t name) found) [
            | inl (here, _) ↦
                let at = =t→eq n name here in
                let others =
                  cleanups-Absent marked deltas plans rest name k (rw (← at) absent) more in
                inr (
                  exec_all-elsewhere exec pg rest name (exec (cleanup p.view) d) others
                  ∙ cleaned-named exec pg p name d (named ∙ at) written)
            | inr (there, found') ↦
                let other = pg.elsewhere d (cleanup p.view) name (differs p n name named there) in
                moved other (
                  cleanups-table marked deltas plans rest name plan (exec (cleanup p.view) d) k
                    found' more)
          ])
          | inr q ↦ rw q (elim (either (n =t name) found) [
            | inl (here, _) ↦
                let at = =t→eq n name here in
                inl (
                  exec_all-elsewhere exec pg rest name d
                    (cleanups-Absent marked deltas plans rest name k (rw (← at) absent) more))
            | inr (there, found') ↦
                cleanups-table marked deltas plans rest name plan d k found' more
          ])
        ])
