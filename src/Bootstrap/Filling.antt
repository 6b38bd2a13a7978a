-- ===== src/Bootstrap/Filling.antt =====
-- The third step of `setup`: what its transaction does, view by view.
use walflux_postgres_increme.Prelude.{
  ◌≡◌, refl, ap, ◌∙◌, none, some, List, [], ◌∷◌, ◌++◌, append_assoc, append-nil, map, Text, =t_refl,
  Result, ok, setup_error, inl, inr,
}
use walflux_postgres_increme.Prelude.Int.{ℤ}
use walflux_postgres_increme.Value.{Dict}
use walflux_postgres_increme.Common.Lsn.{parse_lsn}
use walflux_postgres_increme.Aggregates.Spec.{ViewSpec}
use walflux_postgres_increme.Aggregates.Sql.{target_ddl, backfill_sql}
use walflux_postgres_increme.Config.{Config}
use walflux_postgres_increme.Database.Command.{
  Command, Answer, begin, set_snapshot, find_columns, ddl, backfill, upsert_checkpoint, commit,
}
use walflux_postgres_increme.Database.Session.{Session, execute}
use walflux_postgres_increme.Bootstrap.Columns.{column_types, is_missing_column, group_types}
use walflux_postgres_increme.Bootstrap.Populate.{run_all, populate, populate_all}
use walflux_postgres_increme.Bootstrap.Setup.{fill}
use walflux_postgres_increme.Bootstrap.Durable.{
  Durable, Transaction, Safe, BuildsView, Builds, Consistent,
}
use walflux_postgres_increme.Bootstrap.Triple.{
  Triple, bind-Triple, execute-Triple, calm-Triple, return-Triple, pure-Triple, lift-Triple,
  check-Triple, weaken-Triple,
}

-- The slot exists, there is no checkpoint row, and no transaction is open.
abbrev pub Created : Text × Text → Durable → Type 0
Created made d = (d.slot ≡ some made) × (d.checkpoint ≡ none) × (d.running ≡ none)

-- A transaction is open that has done `work`.
abbrev pub Within : Text × Text → Transaction → Durable → Type 0
Within made t d = (d.slot ≡ some made) × (d.checkpoint ≡ none) × (d.running ≡ some t)

abbrev pub at : Text → List Command → Transaction
at snapshot work = record { snapshot = some snapshot; work = work; position = none }

within-Safe :
    (views : List ViewSpec) (made : Text × Text) (d : Durable)
    → d.slot ≡ some made
    → d.checkpoint ≡ none
    → Safe views d
within-Safe views made d s c = inr (made, s, inl c)

module _ {D : Type 0} (server : (c : Command) → D → Result (Answer c) × D) (slot : Text)
    (views : List ViewSpec) (d₀ : Durable) where
  some-Triple :
      {A B : Type 0} (P : B → Type 0) (F : B → Durable → Type 0) {m : Session D A}
      {Q : A → Durable → Type 0}
      → ((b : B) → P b → Triple server slot views d₀ (F b) m Q)
      → Triple server slot views d₀ (λ d. (b : B) × P b × F b d) m Q
  some-Triple P F h = record { run = λ s keep. (h keep.1.0 keep.1.1).run s (keep.0, keep.1.2) }

  pub fact-Triple :
      {A : Type 0} {P : Type 0} {K : Durable → Type 0} {m : Session D A} {Q : A → Durable → Type 0}
      → (P → Triple server slot views d₀ K m Q)
      → Triple server slot views d₀ (λ d. P × K d) m Q
  fact-Triple h = record { run = λ s keep. (h keep.1.0).run s (keep.0, keep.1.1) }

  module _ (made : Text × Text) (snapshot : Text) where
    ddl-Within :
        (work : List Command) (statement : Text)
        → Triple server slot views d₀
            (Within made (at snapshot work))
            (execute server (ddl statement))
            (λ _. Within made (at snapshot (work ++ ddl statement ∷ [])))
    ddl-Within work statement =
        execute-Triple server slot views d₀ (ddl statement)
          (λ _. Within made (at snapshot (work ++ ddl statement ∷ [])))
          (λ a d k. (k.0, k.1, rw k.2 refl)) (λ a d k safe. safe)

    run_all-Within :
        (work : List Command) (statements : List Text)
        → Triple server slot views d₀
            (Within made (at snapshot work))
            (run_all server statements)
            (λ _. Within made (at snapshot (work ++ map (λ s. ddl s) statements)))
    run_all-Within work [] = rw (append-nil work) (record { run = λ s keep. keep })
    run_all-Within work (s ∷ ss) = bind-Triple server slot views d₀ (ddl-Within work s) (λ _.
        rw (← append_assoc work (ddl s ∷ []) (map (λ t. ddl t) ss))
          (run_all-Within (work ++ ddl s ∷ []) ss))

    -- What a view adds to the work of the transaction.
    abbrev Filled : List Command → (List Command → Type 0) → Durable → Type 0
    Filled work P d = (more : List Command) × P more × Within made (at snapshot (work ++ more)) d

    backfill-Filled :
        (work : List Command) (view : ViewSpec) (types : Dict Text) (statements : List Text)
        (sql : Text)
        → target_ddl view types ≡ ok statements
        → backfill_sql view ≡ ok sql
        → Triple server slot views d₀
            (Within made (at snapshot (work ++ map (λ s. ddl s) statements)))
            (execute server (backfill sql))
            (λ _. Filled work (BuildsView view))
    backfill-Filled work view types statements sql e₁ e₂ =
        execute-Triple server slot views d₀ (backfill sql) (λ _. Filled work (BuildsView view))
          (λ a d k. (
            map (λ s. ddl s) statements ++ backfill sql ∷ [],
            (types, statements, sql, e₁, e₂, refl),
            (
              k.0,
              k.1,
              rw k.2 (
                  ap (λ w. some (at snapshot w))
                    (append_assoc work (map (λ s. ddl s) statements) (backfill sql ∷ []))),
            ),
          ))
          (λ a d k safe. safe)

    populate-Filled :
        (work : List Command) (view : ViewSpec)
        → Triple server slot views d₀
            (Within made (at snapshot work))
            (populate server view)
            (λ _. Filled work (BuildsView view))
    populate-Filled work view =
        bind-Triple server slot views d₀
          (bind-Triple server slot views d₀
            (calm-Triple server slot views d₀ (find_columns view.source_schema view.source_table)
              (λ a d. refl))
            (λ rows. return-Triple server slot views d₀ (column_types [] rows)))
          (λ columns.
            bind-Triple server slot views d₀
              (check-Triple server slot views d₀ (is_missing_column columns view) setup_error)
              (λ _.
                bind-Triple server slot views d₀
                  (lift-Triple server slot views d₀ (group_types columns [] view.group_by))
                  (λ types. fact-Triple (λ _.
                    bind-Triple server slot views d₀
                      (lift-Triple server slot views d₀ (target_ddl view types))
                      (λ statements. fact-Triple (λ e₁.
                        bind-Triple server slot views d₀ (run_all-Within work statements) (λ _.
                          bind-Triple server slot views d₀
                            (lift-Triple server slot views d₀ (backfill_sql view))
                            (λ sql.
                              fact-Triple
                                (λ e₂. backfill-Filled work view types statements sql e₁ e₂)))))))))

    abbrev AllFilled : List Command → List ViewSpec → Durable → Type 0
    AllFilled work vs = Filled work (Builds vs)

    populate_all-Filled :
        (work : List Command) (vs : List ViewSpec)
        → Triple server slot views d₀
            (Within made (at snapshot work))
            (populate_all server vs)
            (λ _. Filled work (Builds vs))
    populate_all-Filled work [] = record {
      run = λ s keep. (keep.0, ([], refl, (keep.1.0, keep.1.1, rw (append-nil work) keep.1.2)));
    }
    populate_all-Filled work (view ∷ vs) =
        bind-Triple server slot views d₀ (populate-Filled work view) (λ rows.
          some-Triple (BuildsView view) (λ more. Within made (at snapshot (work ++ more)))
            (λ more built.
              bind-Triple server slot views d₀ (populate_all-Filled (work ++ more) vs) (λ rest.
                weaken-Triple server slot views d₀ (λ d k. k)
                  (pure-Triple server slot views d₀ ((view.name, rows) ∷ rest))
                  (λ a d k.
                    let (_, (last, builds, (s, c, r))) = k in
                    (
                      more ++ last,
                      (more, last, built, builds, refl),
                      (s, c, r ∙ ap (λ w. some (at snapshot w)) (append_assoc work more last)),
                    )))))

abbrev noted : Text → List Command → ℤ → Transaction
noted snapshot work lsn = record { snapshot = some snapshot; work = work; position = some lsn }

-- The slot exists and the checkpoint row is its consistent point.
abbrev pub Settled : List ViewSpec → Text × Text → Durable → Type 0
Settled views made d = (d.slot ≡ some made) × Consistent views made d

module _ {D : Type 0} (server : (c : Command) → D → Result (Answer c) × D) (config : Config)
    (d₀ : Durable) (made : Text × Text) where
  begin-Within :
      Triple server config.slot config.views d₀
        (Created made)
        (execute server begin)
        (λ _. Within made (record { snapshot = none; work = []; position = none }))
  begin-Within =
      execute-Triple server config.slot config.views d₀ begin _ (λ a d k. (k.0, k.1, refl))
        (λ a d k safe. safe)

  pinned-Within :
      Triple server config.slot config.views d₀
        (Within made (record { snapshot = none; work = []; position = none }))
        (execute server (set_snapshot made.1))
        (λ _. Within made (at made.1 []))
  pinned-Within =
      execute-Triple server config.slot config.views d₀ (set_snapshot made.1)
        (λ _. Within made (at made.1 [])) (λ a d k. (k.0, k.1, rw k.2 refl)) (λ a d k safe. safe)

  written-Within :
      (work : List Command) (lsn : ℤ)
      → Triple server config.slot config.views d₀
          (Within made (at made.1 work))
          (execute server (upsert_checkpoint config.slot lsn))
          (λ _. Within made (noted made.1 work lsn))
  written-Within work lsn =
      execute-Triple server config.slot config.views d₀ (upsert_checkpoint config.slot lsn)
        (λ _. Within made (noted made.1 work lsn))
        (λ a d k. rw (=t_refl config.slot, k.2) (k.0, k.1, refl))
        (λ a d k safe. rw (=t_refl config.slot, k.2) (inr (made, k.0, inl k.1)))

  commit-Settled :
      (work : List Command) (lsn : ℤ)
      → Builds config.views work
      → parse_lsn made.0 ≡ ok lsn
      → Triple server config.slot config.views d₀
          (Within made (noted made.1 work lsn))
          (execute server commit)
          (λ _. Settled config.views made)
  commit-Settled work lsn builds parsed =
      execute-Triple server config.slot config.views d₀ commit (λ _. Settled config.views made)
        (λ a d k. rw k.2 (k.0, (lsn, work, refl, parsed, refl, builds)))
        (λ a d k safe. rw k.2 (inr (made, k.0, inr (lsn, work, refl, parsed, refl, builds))))

  -- The third step leaves the targets filled in the snapshot and the checkpoint row beside them.
  pub fill-Settled :
      Triple server config.slot config.views d₀
        (Created made)
        (fill server config made.0 made.1)
        (λ _. Settled config.views made)
  fill-Settled = bind-Triple server config.slot config.views d₀ begin-Within (λ _.
      bind-Triple server config.slot config.views d₀ pinned-Within (λ _.
        bind-Triple server config.slot config.views d₀
          (populate_all-Filled server config.slot config.views d₀ made made.1 [] config.views)
          (λ backfilled.
            some-Triple server config.slot config.views d₀ (Builds config.views)
              (λ work. Within made (at made.1 work))
              (λ work builds.
                bind-Triple server config.slot config.views d₀
                  (lift-Triple server config.slot config.views d₀ (parse_lsn made.0))
                  (λ lsn. fact-Triple server config.slot config.views d₀ (λ parsed.
                    bind-Triple server config.slot config.views d₀ (written-Within work lsn) (λ _.
                      bind-Triple server config.slot config.views d₀
                        (commit-Settled work lsn builds parsed)
                        (λ _. return-Triple server config.slot config.views d₀ backfilled))))))))
