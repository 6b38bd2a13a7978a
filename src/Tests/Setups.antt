-- ===== src/Tests/Setups.antt =====
-- Examples for walflux/bootstrap.py: a database that answers `setup`, and one whose slot is busy for a
-- while.
use walflux_postgres_increme.Prelude.{
  ℕ, zero, suc, ◌<◌, ◌≡◌, refl, none, some, false, List, [], ◌∷◌, Text, codes, Result, ok, err,
  database_error, arith,
}
use walflux_postgres_increme.Prelude.Int.{ℤ, pos}
use walflux_postgres_increme.Prelude.Numeral.{
  parse_int, digits_from, digit_value, skip_prefix, skip_spaces, is_c_space,
}
use walflux_postgres_increme.Prelude.Utf8.{encode}
use walflux_postgres_increme.Common.Ident.{quote_ident, ident_match, is_ident_start, is_ident_char}
use walflux_postgres_increme.Common.Lsn.{parse_lsn, position}
use walflux_postgres_increme.Config.{Config}
use walflux_postgres_increme.Value.{get, put}
use walflux_postgres_increme.Aggregates.Spec.{
  target, agg_storage, count_storage, key_columns, all_storage, qualified,
}
use walflux_postgres_increme.Aggregates.Sql.{target_ddl, backfill_sql}
use walflux_postgres_increme.Bootstrap.Checks.{distinct_tables, table_list}
use walflux_postgres_increme.Bootstrap.Columns.{
  is_missing_column, required_columns, column_types, group_types,
}
use walflux_postgres_increme.Database.Command.{
  open_stream, find_slot_status, find_current_lsn, count_rows, Command, Answer, connect,
  connect_replication, show_version_num, show_version, show_wal_level, find_source,
  find_publication, find_slot, create_slot, find_columns, backfill, select_checkpoint,
  find_walsender, drop_slot,
}
use walflux_postgres_increme.Database.Session.{Context}
use walflux_postgres_increme.Bootstrap.Setup.{setup, teardown}
use walflux_postgres_increme.Bootstrap.Slot.{drop_slot_with_retry}
use walflux_postgres_increme.Bootstrap.Durable.{Durable, after, AlwaysSafe}
use walflux_postgres_increme.Bootstrap.Filling.{Settled}
use walflux_postgres_increme.Bootstrap.Safe.{setup-AlwaysSafe, setup-Consistent}
use walflux_postgres_increme.Bootstrap.Retry.{
  Refuses, after_tries, drop_slot_with_retry_succeeds, drop_slot_with_retry_raises,
}
use walflux_postgres_increme.Bootstrap.Removal.{Closed, teardown-Closed}
use walflux_postgres_increme.Tests.Sample.{two_views, two_views_config, overall}

-- PostgreSQL 16 with the table `orders` and no slot.
abbrev pub answer : (c : Command) → Answer c
answer connect = none
answer connect_replication = none
answer show_version_num = codes "160003"
answer show_version = codes "16.3"
answer show_wal_level = codes "logical"
answer (find_source s t) = some (codes "d")
answer (find_publication p) = false
answer (find_slot s) = none
answer (create_slot s) = some (codes "0/16B3748", codes "00000003-1")
answer (find_columns s t) = (codes "region", codes "text") ∷ (codes "amount", codes "bigint") ∷ []
answer (backfill s) = pos 1
answer (select_checkpoint s) = none
answer (find_walsender s) = none
answer open_stream = none
answer (find_slot_status s) = none
answer find_current_lsn = codes "0/16B3B48"
answer (count_rows t) = pos 1
answer _ = tt

abbrev pub obliging : (c : Command) → Unit {0} → Result (Answer c) × Unit {0}
obliging c d = (ok (answer c), d)

-- A checkpoint row is left over.
abbrev stale : Durable
stale = record { slot = none; checkpoint = some (pos 5); filled = none; running = none }

abbrev pub fresh : Context Unit
fresh = record { db = tt; log = []; repl_conn = false }

setup-AlwaysSafe_example :
    AlwaysSafe (codes "walflux") two_views stale (setup obliging two_views_config false fresh).1.log
setup-AlwaysSafe_example =
    setup-AlwaysSafe obliging two_views_config stale false fresh refl refl refl refl

abbrev one_view_config : Config
one_view_config = record two_views_config { views = overall ∷ [] }

abbrev printed : Text × List (Text × ℤ)
printed = (codes "0/16B3748", (codes "overall", pos 1) ∷ [])

reported : (setup obliging one_view_config false fresh).0 ≡ ok printed
unfolding parse_int digits_from digit_value skip_prefix skip_spaces is_c_space distinct_tables
    quote_ident ident_match is_ident_start is_ident_char encode table_list is_missing_column
    required_columns column_types put group_types get target_ddl target agg_storage count_storage
    key_columns backfill_sql all_storage qualified parse_lsn position
reported = refl

setup-Consistent_example :
    (snapshot : Text) × Settled
      (overall ∷ [])
      (codes "0/16B3748", snapshot)
      (after (codes "walflux") stale (setup obliging one_view_config false fresh).1.log)
setup-Consistent_example =
    setup-Consistent obliging one_view_config stale false fresh
      (setup obliging one_view_config false fresh).1 printed refl refl refl refl
      (λ i. (reported i, (setup obliging one_view_config false fresh).1))

-- The walsender holds the slot for as many attempts as the state says.
abbrev busy : (c : Command) → ℕ → Result (Answer c) × ℕ
busy (drop_slot s) zero = (ok tt, 0)
busy (drop_slot s) (suc n) = (err database_error, n)
busy c n = (ok (answer c), n)

abbrev terminated : ℕ → Context ℕ
terminated n = record { db = n; log = []; repl_conn = false }

once : (j : ℕ) → j < 1 → j ≡ 0
once j h = omega arith

refused_once :
    (j : ℕ) → j < 1 → Refuses busy (codes "walflux") (after_tries busy (codes "walflux") j 1)
refused_once j h = rw (once j h) (database_error, refl, refl)

drop_slot_with_retry_succeeds_example :
    ((drop_slot_with_retry busy (codes "walflux") 10 (terminated 1)).0 ≡ ok tt)
    × ((drop_slot_with_retry busy (codes "walflux") 10 (terminated 1)).1.db ≡ 0)
drop_slot_with_retry_succeeds_example =
    drop_slot_with_retry_succeeds busy (codes "walflux") 10 1 (terminated 1) (omega arith)
      (λ d. refl) refused_once refl

refused_first :
    (j : ℕ) → j < 1 → Refuses busy (codes "walflux") (after_tries busy (codes "walflux") j 4)
refused_first j h = rw (once j h) (database_error, refl, refl)

drop_slot_with_retry_raises_example :
    (drop_slot_with_retry busy (codes "walflux") 1 (terminated 4)).0 ≡ err database_error
drop_slot_with_retry_raises_example =
    drop_slot_with_retry_raises busy (codes "walflux") 0 (terminated 4) (λ d. refl) refused_first

-- The same database, whose slot a walsender holds.
abbrev held : (c : Command) → ℕ → Result (Answer c) × ℕ
held (find_walsender s) n = (ok (some (some (pos 7))), n)
held c n = busy c n

torn_down : (teardown held two_views_config (terminated 1)).0 ≡ ok tt
unfolding quote_ident ident_match is_ident_start is_ident_char encode
torn_down = refl

teardown-Closed_example :
    Closed held two_views_config (teardown held two_views_config (terminated 1)).1.log
teardown-Closed_example = teardown-Closed held two_views_config (terminated 1) torn_down
