-- ===== src/Target/Effects.antt =====
-- What the three parts of `DeltaBatch.statements` do to the table of one view.
use walflux_postgres_increme.Prelude.{
  ◌≡◌, refl, ◌∙◌, ap, subst, Bool, false, List, [], ◌∷◌, ◌++◌, All, Text, ◌=t◌, =t→eq, member,
  if◌then◌else◌, ok, Bool-cases, inl, inr, either,
}
use walflux_postgres_increme.Prelude.Int.{◌+ℤ◌}
use walflux_postgres_increme.Value.{Dict, get}
use walflux_postgres_increme.Aggregates.Spec.{Num}
use walflux_postgres_increme.Aggregates.Batch.{Key, Plan}
use walflux_postgres_increme.Aggregates.Statements.{
  Statement, delete_all, upsert, cleanup, truncations,
}
use walflux_postgres_increme.Aggregates.Totals.{Column, amount, Fits, select}
use walflux_postgres_increme.Daemon.Flush.{exec_all}
use walflux_postgres_increme.Target.Texts.{
  IsWritten, render-delete_all, render-cleanup, render-Upserts,
}
use walflux_postgres_increme.Target.Table.{Table, table_total, live, target_of, Selects, Postgres}

-- A dict of plans by the names of their views, with the documented statement texts: every key once, and no other plan of that view.
abbrev pub Absent : Text → Dict Plan → Type 0
Absent name plans = All (λ e. (e.0 =t name) ≡ false) plans

abbrev pub Keyed : Dict Plan → Type 0
Keyed [] = Unit
Keyed ((name, plan) ∷ plans) =
    (plan.view.name ≡ name) × IsWritten plan × Absent name plans × Keyed plans

pub differs :
    (plan : Plan) (n name : Text)
    → plan.view.name ≡ n
    → (n =t name) ≡ false
    → (plan.view.name =t name) ≡ false
differs plan n name same h = rw same h

-- the table after the statements that delete truncated tables
abbrev pub emptied : List Text → Text → Table → Table
emptied marked name rows = if member name marked then [] else rows

module _ {D : Type 0} (exec : Statement → D → D) (pg : Postgres exec) where
  pub exec_all-append :
      (xs ys : List Statement) (d : D)
      → exec_all exec (xs ++ ys) d ≡ exec_all exec ys (exec_all exec xs d)
  unfolding exec_all
  exec_all-append [] ys d = refl
  exec_all-append (x ∷ xs) ys d = exec_all-append xs ys (exec x d)

  -- Statements for other tables.
  pub exec_all-elsewhere :
      (ss : List Statement) (name : Text) (d : D)
      → All (λ s. (target_of s =t name) ≡ false) ss
      → pg.table (exec_all exec ss d) name ≡ pg.table d name
  unfolding exec_all
  exec_all-elsewhere [] name d h = refl
  exec_all-elsewhere (s ∷ ss) name d h =
      exec_all-elsewhere ss name (exec s d) h.1 ∙ pg.elsewhere d s name h.0

  deleted-named :
      (plan : Plan) (name : Text) (d : D)
      → plan.view.name ≡ name
      → IsWritten plan
      → pg.table (exec (delete_all plan.view) d) name ≡ []
  deleted-named plan name d named (_, (t, target_is)) =
      subst (λ n. pg.table (exec (delete_all plan.view) d) n ≡ []) named
        (pg.deleted d plan.view (render-delete_all plan.view t target_is))

  pub cleaned-named :
      (plan : Plan) (name : Text) (d : D)
      → plan.view.name ≡ name
      → IsWritten plan
      → pg.table (exec (cleanup plan.view) d) name ≡ live (pg.table d name)
  cleaned-named plan name d named (_, (t, target_is)) =
      subst (λ n. pg.table (exec (cleanup plan.view) d) n ≡ live (pg.table d n)) named
        (pg.cleaned d plan.view (render-cleanup plan.view t target_is))

  pub upserted-named :
      (plan : Plan) (key : Key) (ds : List Num) (c : Column) (P : Key → Bool) (name : Text) (d : D)
      → plan.view.name ≡ name
      → IsWritten plan
      → Selects pg.same P
      → Fits c ds
      → table_total c P (pg.table (exec (upsert plan key ds) d) name)
        ≡ table_total c P (pg.table d name) +ℤ select c (P key) (amount c ds)
  upserted-named plan key ds c P name d named written sel fit =
      subst
        (λ n.
          table_total c P (pg.table (exec (upsert plan key ds) d) n)
          ≡ table_total c P (pg.table d n) +ℤ select c (P key) (amount c ds))
        named (pg.upserted d plan key ds c P (render-Upserts plan key ds written.0) sel fit)

  truncations-Absent :
      (marked : List Text) (plans : Dict Plan) (name : Text)
      → Keyed plans
      → Absent name plans
      → All (λ s. (target_of s =t name) ≡ false) (truncations marked plans)
  unfolding truncations
  truncations-Absent marked [] name k h = tt
  truncations-Absent marked ((n, plan) ∷ plans) name (named, _, _, k) (other, h) =
      let rest = truncations-Absent marked plans name k h in
      elim (Bool-cases (member n marked)) [
        | inl e ↦ rw e (differs plan n name named other, rest)
        | inr e ↦ rw e rest
      ]

  truncations-own :
      (marked : List Text) (p : Plan) (plans : Dict Plan) (name n : Text) (d : D)
      → p.view.name ≡ name
      → IsWritten p
      → Keyed plans
      → Absent name plans
      → pg.table (exec_all exec (truncations marked ((n, p) ∷ plans)) d) name
        ≡ (if member n marked then [] else pg.table d name)
  unfolding truncations exec_all
  truncations-own marked p plans name n d named written k absent =
      let others = truncations-Absent marked plans name k absent in
      elim (Bool-cases (member n marked)) [
        | inl m ↦ rw m (
            exec_all-elsewhere (truncations marked plans) name (exec (delete_all p.view) d) others
            ∙ deleted-named p name d named written)
        | inr m ↦ rw m (exec_all-elsewhere (truncations marked plans) name d others)
      ]

  pub truncations-table :
      (marked : List Text) (plans : Dict Plan) (name : Text) (plan : Plan) (d : D)
      → Keyed plans
      → get name plans ≡ ok plan
      → pg.table (exec_all exec (truncations marked plans) d) name
        ≡ emptied marked name (pg.table d name)
  unfolding get truncations exec_all
  truncations-table marked [] name plan d k e = cc
  truncations-table marked ((n, p) ∷ plans) name plan d (named, written, absent, k) e =
      elim (either (n =t name) e) [
        | inl (here, _) ↦
            let at = =t→eq n name here in
            truncations-own marked p plans name n d (named ∙ at) written k (rw (← at) absent)
            ∙ ap (λ q. if q then [] else pg.table d name) (ap (λ t. member t marked) at)
        | inr (there, found) ↦
            let other = differs p n name named there in
            elim (Bool-cases (member n marked)) [
              | inl m ↦ rw m (
                  truncations-table marked plans name plan (exec (delete_all p.view) d) k found
                  ∙ ap (emptied marked name) (pg.elsewhere d (delete_all p.view) name other))
              | inr m ↦ rw m (truncations-table marked plans name plan d k found)
            ]
      ]
