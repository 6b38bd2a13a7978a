-- ===== src/Bootstrap/Durable.antt =====
-- What the commands of `setup` leave in the database, as PostgreSQL documents them: the slot, the
-- checkpoint row of the slot, the target tables, and the open transaction, which a crash discards.
use walflux_postgres_increme.Prelude.{
  ◌≡◌, Option, none, some, List, [], ◌∷◌, ◌++◌, map, Text, ◌=t◌, if◌then◌else◌, ok, ◌⊎◌,
}
use walflux_postgres_increme.Prelude.Int.{ℤ}
use walflux_postgres_increme.Value.{Dict}
use walflux_postgres_increme.Common.Lsn.{parse_lsn}
use walflux_postgres_increme.Aggregates.Spec.{ViewSpec}
use walflux_postgres_increme.Aggregates.Sql.{target_ddl, backfill_sql}
use walflux_postgres_increme.Database.Command.{
  rollback, open_stream, close_stream, find_slot_status, find_current_lsn, count_rows, Command,
  Event, done, failed, connect, connect_replication, close, close_replication, show_version_num,
  show_version, show_wal_level, find_source, set_identity_full, create_schema,
  create_checkpoint_table, find_publication, create_publication, set_publication, find_slot,
  drop_slot, delete_checkpoint, create_slot, begin, set_snapshot, find_columns, ddl, backfill,
  upsert_checkpoint, select_checkpoint, commit, find_walsender, terminate_backend, drop_publication,
  drop_schema, sleep,
}

-- An open transaction: its snapshot, its statements on target tables in order, and the position that it
-- has written to the checkpoint row.
pub record Transaction : Type 0 where
  pub snapshot : Option Text
  pub work : List Command
  pub position : Option ℤ

-- `slot` is the slot that this run has created: its consistent point and its snapshot. `checkpoint` is the
-- row of that slot. `filled` is the snapshot and the statements of the last transaction that this run
-- has committed.
pub record Durable : Type 0 where
  pub slot : Option (Text × Text)
  pub checkpoint : Option ℤ
  pub filled : Option (Option Text × List Command)
  pub running : Option Transaction

abbrev blank : Transaction
blank = record { snapshot = none; work = []; position = none }

-- An aborted transaction does nothing at its COMMIT.
abbrev pub aborted : Durable → Durable
aborted d = record d { running = none }

abbrev pinned : Text → Option Transaction → Option Transaction
pinned name none = none
pinned name (some t) = some (record t { snapshot = some name })

abbrev worked : Command → Option Transaction → Option Transaction
worked c none = none
worked c (some t) = some (record t { work = t.work ++ c ∷ [] })

abbrev written : ℤ → Durable → Option Transaction → Durable
written lsn d none = record d { checkpoint = some lsn }
written lsn d (some t) = record d { running = some (record t { position = some lsn }) }

abbrev or_else : Option ℤ → Option ℤ → Option ℤ
or_else none old = old
or_else (some lsn) old = some lsn

abbrev committed : Durable → Option Transaction → Durable
committed d none = d
committed d (some t) = record {
  slot = d.slot;
  checkpoint = or_else t.position d.checkpoint;
  filled = some (t.snapshot, t.work);
  running = none;
}

abbrev pub given : Durable → Option (Text × Text) → Durable
given d none = d
given d (some made) = record d { slot = some made }

-- The name of a slot as `quote_ident` writes it.
abbrev pub quoted : Text → Text
quoted slot = b'"' ∷ slot ++ b'"' ∷ []

-- The effect on the slot of this name and on its checkpoint row: a statement that names another slot has
-- none.
abbrev pub effect : Text → Event → Durable → Durable
effect slot (failed c e) d = aborted d
effect slot (done close a) d = aborted d
effect slot (done (drop_slot name) a) d = if name =t slot then record d { slot = none } else d
effect slot (done (delete_checkpoint name) a) d =
    if name =t slot then record d { checkpoint = none } else d
effect slot (done (create_slot name) row) d = if name =t quoted slot then given d row else d
effect slot (done begin a) d = record d { running = some blank }
effect slot (done (set_snapshot name) a) d = record d { running = pinned name d.running }
effect slot (done (ddl statement) a) d = record d { running = worked (ddl statement) d.running }
effect slot (done (backfill statement) a) d = record d {
  running = worked (backfill statement) d.running;
}
effect slot (done (upsert_checkpoint name lsn) a) d =
    if name =t slot then written lsn d d.running else d
effect slot (done commit a) d = committed d d.running
effect slot (done connect a) d = d
effect slot (done connect_replication a) d = d
effect slot (done close_replication a) d = d
effect slot (done show_version_num a) d = d
effect slot (done show_version a) d = d
effect slot (done show_wal_level a) d = d
effect slot (done (find_source s t) a) d = d
effect slot (done (set_identity_full s t) a) d = d
effect slot (done create_schema a) d = d
effect slot (done create_checkpoint_table a) d = d
effect slot (done (find_publication p) a) d = d
effect slot (done (create_publication p t) a) d = d
effect slot (done (set_publication p t) a) d = d
effect slot (done (find_slot s) a) d = d
effect slot (done (find_columns s t) a) d = d
effect slot (done (select_checkpoint s) a) d = d
effect slot (done (find_walsender s) a) d = d
effect slot (done (terminate_backend p) a) d = d
effect slot (done (drop_publication p) a) d = d
effect slot (done drop_schema a) d = record d { checkpoint = none }
effect slot (done sleep a) d = d
effect slot (done rollback a) d = aborted d
effect slot (done open_stream a) d = d
effect slot (done close_stream a) d = d
effect slot (done (find_slot_status s) a) d = d
effect slot (done find_current_lsn a) d = d
effect slot (done (count_rows n) a) d = d

-- the state after a log, whose latest event stands first
abbrev pub after : Text → Durable → List Event → Durable
after slot d [] = d
after slot d (e ∷ log) = effect slot e (after slot d log)

-- The statements that make and fill the target of one view.
abbrev pub BuildsView : ViewSpec → List Command → Type 0
BuildsView view work =
    (types : Dict Text) × (statements : List Text) × (sql : Text) × (target_ddl view types
      ≡ ok statements)
    × (backfill_sql view ≡ ok sql)
    × (work ≡ map (λ s. ddl s) statements ++ backfill sql ∷ [])

-- One view after the other.
abbrev pub Builds : List ViewSpec → List Command → Type 0
Builds [] work = work ≡ []
Builds (view ∷ views) work =
    (first : List Command) × (rest : List Command) × BuildsView view first
    × Builds views rest
    × (work ≡ first ++ rest)

-- The checkpoint row is the consistent point of the slot, and the targets of the views have been filled
-- in the snapshot of the slot.
abbrev pub Consistent : List ViewSpec → Text × Text → Durable → Type 0
Consistent views made d =
    (lsn : ℤ) × (work : List Command) × (d.checkpoint ≡ some lsn)
    × (parse_lsn made.0 ≡ ok lsn)
    × (d.filled ≡ some (some made.1, work))
    × Builds views work

-- Before this run has created the slot, it has filled no target. After that, the daemon finds no
-- checkpoint row or a consistent one.
abbrev pub Safe : List ViewSpec → Durable → Type 0
Safe views d =
    ((d.slot ≡ none) × (d.filled ≡ none))
    ⊎ (made : Text × Text) × (d.slot ≡ some made)
      × ((d.checkpoint ≡ none) ⊎ Consistent views made d)

-- Safe after each event.
abbrev pub AlwaysSafe : Text → List ViewSpec → Durable → List Event → Type 0
AlwaysSafe slot views d [] = Safe views d
AlwaysSafe slot views d (e ∷ log) =
    Safe views (after slot d (e ∷ log)) × AlwaysSafe slot views d log
