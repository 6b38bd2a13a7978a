-- ===== src/Bootstrap/Calm.antt =====
-- The first step of `setup`: its checks leave the slot and the checkpoint row alone, whatever condition
-- holds on the database.
use walflux_postgres_increme.Prelude.{
  ◌≡◌, refl, Option, none, some, Bool, true, false, not, List, [], ◌∷◌, Text, ◌=t◌, =t_refl, codes,
  Result, ok, err, setup_error, walflux_error, inl, if◌then◌else◌,
}
use walflux_postgres_increme.Prelude.Int.{ℤ, pos, ltb_ℤ}
use walflux_postgres_increme.Prelude.Numeral.{parse_int}
use walflux_postgres_increme.Common.Ident.{quote_ident}
use walflux_postgres_increme.Config.{Config}
use walflux_postgres_increme.Database.Command.{
  Command, Answer, connect, connect_replication, show_version_num, show_version, show_wal_level,
  find_source, create_schema, create_checkpoint_table, set_identity_full, find_publication,
  create_publication, set_publication, find_slot, drop_slot, delete_checkpoint,
}
use walflux_postgres_increme.Database.Session.{Session, pure, lift, ◌>>=◌}
use walflux_postgres_increme.Checkpoint.{ensure_checkpoint_table}
use walflux_postgres_increme.Bootstrap.Checks.{
  Table, refused, connect_regular, refused_replication, connect_walsender, reject_version,
  check_server_version, check_wal_level, set_identity, ensure_identity, ensure_tables, publish,
  ensure_publication, distinct_tables, table_list,
}
use walflux_postgres_increme.Bootstrap.Slot.{replace_slot}
use walflux_postgres_increme.Bootstrap.Setup.{prepare}
use walflux_postgres_increme.Bootstrap.Durable.{Durable}
use walflux_postgres_increme.Bootstrap.Triple.{
  Triple, bind-Triple, execute-Triple, calm-Triple, raise-Triple, check-Triple,
}

-- Before the slot of this run exists, and outside a transaction.
abbrev pub Before : Durable → Type 0
Before d = (d.slot ≡ none) × (d.running ≡ none) × (d.filled ≡ none)

-- No checkpoint row either.
abbrev pub Ready : Durable → Type 0
Ready d = (d.slot ≡ none) × (d.running ≡ none) × (d.filled ≡ none) × (d.checkpoint ≡ none)

module _ {D : Type 0} (server : (c : Command) → D → Result (Answer c) × D) (config : Config)
    (d₀ : Durable) where
  abbrev Calm : {A : Type 0} → (Durable → Type 0) → Session D A → Type 0
  Calm K m = Triple server config.slot config.views d₀ K m (λ _. K)

  idle : (K : Durable → Type 0) → Calm K (pure tt)
  idle K = record { run = λ s keep. keep }

  lifted :
      {A B : Type 0} {K : Durable → Type 0} (r : Result A) (f : A → Session D B)
      → ((a : A) → Calm K (f a))
      → Calm K (lift r >>= f)
  lifted {K = K} (ok a) f h = record { run = λ s keep. (h a).run s keep }
  lifted {K = K} (err e) f h = record { run = λ s keep. keep.0 }

  refused-Calm : (K : Durable → Type 0) (r : Option Text) → Calm K (refused server r)
  refused-Calm K none = idle K
  refused-Calm K (some message) = raise-Triple server config.slot config.views d₀ walflux_error

  pub connect_regular-Calm : (K : Durable → Type 0) → Calm K (connect_regular server)
  connect_regular-Calm K =
      bind-Triple server config.slot config.views d₀
        (calm-Triple server config.slot config.views d₀ connect (λ a d. refl)) (refused-Calm K)

  refused_replication-Calm :
      (K : Durable → Type 0) (r : Option Text) → Calm K (refused_replication server r)
  refused_replication-Calm K none = record { run = λ s keep. keep }
  refused_replication-Calm K (some message) = record { run = λ s keep. keep.0 }

  pub connect_walsender-Calm : (K : Durable → Type 0) → Calm K (connect_walsender server)
  connect_walsender-Calm K =
      bind-Triple server config.slot config.views d₀
        (calm-Triple server config.slot config.views d₀ connect_replication (λ a d. refl))
        (refused_replication-Calm K)

  reject_version-Calm : (K : Durable → Type 0) (old : Bool) → Calm K (reject_version server old)
  reject_version-Calm K true =
      bind-Triple server config.slot config.views d₀
        (calm-Triple server config.slot config.views d₀ show_version (λ a d. refl))
        (λ _. raise-Triple server config.slot config.views d₀ setup_error)
  reject_version-Calm K false = idle K

  check_server_version-Calm : (K : Durable → Type 0) → Calm K (check_server_version server)
  check_server_version-Calm K =
      bind-Triple server config.slot config.views d₀
        (calm-Triple server config.slot config.views d₀ show_version_num (λ a d. refl))
        (λ shown.
          lifted (parse_int 10 shown) (λ n. reject_version server (ltb_ℤ n (pos 150000)))
            (λ n. reject_version-Calm K (ltb_ℤ n (pos 150000))))

  check_wal_level-Calm : (K : Durable → Type 0) → Calm K (check_wal_level server)
  check_wal_level-Calm K =
      bind-Triple server config.slot config.views d₀
        (calm-Triple server config.slot config.views d₀ show_wal_level (λ a d. refl))
        (λ level.
          check-Triple server config.slot config.views d₀ (not (level =t codes "logical"))
            setup_error)

  either_Calm :
      {A : Type 0} (K : Durable → Type 0) (q : Bool) {m n : Session D A}
      → Calm K m
      → Calm K n
      → Calm K (if q then m else n)
  either_Calm K true g h = g
  either_Calm K false g h = h

  set_identity-Calm : (K : Durable → Type 0) (t : Table) → Calm K (set_identity server t)
  set_identity-Calm K t = lifted (quote_ident t.0) _ (λ schema. lifted (quote_ident t.1) _ (λ table.
      calm-Triple server config.slot config.views d₀ (set_identity_full schema table)
        (λ a d. refl)))

  ensure_identity-Calm :
      (K : Durable → Type 0) (t : Table) (row : Option Text) → Calm K (ensure_identity server t row)
  ensure_identity-Calm K t none = raise-Triple server config.slot config.views d₀ setup_error
  ensure_identity-Calm K t (some identity) =
      either_Calm K (identity =t codes "f") (idle K) (set_identity-Calm K t)

  ensure_tables-Calm : (K : Durable → Type 0) (ts : List Table) → Calm K (ensure_tables server ts)
  ensure_tables-Calm K [] = idle K
  ensure_tables-Calm K (t ∷ ts) =
      bind-Triple server config.slot config.views d₀
        (calm-Triple server config.slot config.views d₀ (find_source t.0 t.1) (λ a d. refl))
        (λ row.
          bind-Triple server config.slot config.views d₀ (ensure_identity-Calm K t row)
            (λ _. ensure_tables-Calm K ts))

  ensure_checkpoint_table-Calm : (K : Durable → Type 0) → Calm K (ensure_checkpoint_table server)
  ensure_checkpoint_table-Calm K =
      bind-Triple server config.slot config.views d₀
        (calm-Triple server config.slot config.views d₀ create_schema (λ a d. refl))
        (λ _. calm-Triple server config.slot config.views d₀ create_checkpoint_table (λ a d. refl))

  publish-Calm :
      (K : Durable → Type 0) (p t : Text) (found : Bool) → Calm K (publish server p t found)
  publish-Calm K p t true = lifted (quote_ident p) _ (λ name.
      calm-Triple server config.slot config.views d₀ (set_publication name t) (λ a d. refl))
  publish-Calm K p t false = lifted (quote_ident p) _ (λ name.
      calm-Triple server config.slot config.views d₀ (create_publication name t) (λ a d. refl))

  ensure_publication-Calm : (K : Durable → Type 0) → Calm K (ensure_publication server config)
  ensure_publication-Calm K = lifted (table_list (distinct_tables [] config.views)) _ (λ tables.
      bind-Triple server config.slot config.views d₀
        (calm-Triple server config.slot config.views d₀ (find_publication config.publication)
          (λ a d. refl))
        (publish-Calm K config.publication tables))

  replace_slot-Before :
      (force : Bool) (row : Option (Bool × Option ℤ))
      → Calm Before (replace_slot server config.slot force row)
  replace_slot-Before force none = idle Before
  replace_slot-Before force (some (active, pid)) =
      bind-Triple server config.slot config.views d₀
        (check-Triple server config.slot config.views d₀ (not force) setup_error)
        (λ _.
          bind-Triple server config.slot config.views d₀
            (check-Triple server config.slot config.views d₀ active setup_error)
            (λ _.
              execute-Triple server config.slot config.views d₀ (drop_slot config.slot)
                (λ _. Before) (λ a d k. rw (=t_refl config.slot) (refl, k.1, k.2))
                (λ a d k safe. rw (=t_refl config.slot) (inl (refl, k.2)))))

  -- The first step ends with no checkpoint row and no slot of this run.
  pub prepare-Ready :
      (force : Bool)
      → Triple server config.slot config.views d₀ Before (prepare server config force) (λ _. Ready)
  prepare-Ready force =
      bind-Triple server config.slot config.views d₀ (check_server_version-Calm Before) (λ _.
        bind-Triple server config.slot config.views d₀ (check_wal_level-Calm Before) (λ _.
          bind-Triple server config.slot config.views d₀
            (ensure_tables-Calm Before (distinct_tables [] config.views))
            (λ _.
              bind-Triple server config.slot config.views d₀ (ensure_checkpoint_table-Calm Before)
                (λ _.
                  bind-Triple server config.slot config.views d₀ (ensure_publication-Calm Before)
                    (λ _.
                      bind-Triple server config.slot config.views d₀
                        (bind-Triple server config.slot config.views d₀
                          (calm-Triple server config.slot config.views d₀ (find_slot config.slot)
                            (λ a d. refl))
                          (replace_slot-Before force))
                        (λ _.
                          execute-Triple server config.slot config.views d₀
                            (delete_checkpoint config.slot) (λ _. Ready)
                            (λ a d k. rw (=t_refl config.slot) (k.0, k.1, k.2, refl))
                            (λ a d k safe. rw (=t_refl config.slot) (inl (k.0, k.2)))))))))
