-- ===== src/Bootstrap/Slot.antt =====
-- walflux/bootstrap.py: the replication slot.
use walflux_postgres_increme.Prelude.{
  ℕ, zero, suc, Option, none, some, Bool, true, false, not, Text, if◌then◌else◌, Error, Result,
  setup_error, insufficient_privilege, undefined_table, database_error,
}
use walflux_postgres_increme.Prelude.Int.{ℤ}
use walflux_postgres_increme.Common.Ident.{quote_ident}
use walflux_postgres_increme.Database.Command.{
  Command, Answer, find_slot, drop_slot, create_slot, terminate_backend, sleep,
}
use walflux_postgres_increme.Database.Session.{
  Session, pure, raise, lift, check, ◌>>=◌, ◌>>◌, catch, execute,
}

-- `psycopg2.Error`
abbrev pub is_database_error : Error → Bool
is_database_error insufficient_privilege = true
is_database_error undefined_table = true
is_database_error database_error = true
is_database_error _ = false

module _ {D : Type 0} (server : (c : Command) → D → Result (Answer c) × D) where
  abbrev pub replace_slot : Text → Bool → Option (Bool × Option ℤ) → Session D Unit
  replace_slot slot force none = pure tt
  replace_slot slot force (some (active, pid)) = do
    check (not force) setup_error
    check active setup_error
    execute server (drop_slot slot)

  -- `_prepare_slot`
  abbrev pub prepare_slot : Text → Bool → Session D Unit
  prepare_slot slot force = do row ← execute server (find_slot slot); replace_slot slot force row

  abbrev pub exported : Option (Text × Text) → Session D (Text × Text)
  exported none = raise setup_error
  exported (some row) = pure row

  -- The consistent point and the snapshot of the new slot.
  abbrev pub create_replication_slot : Text → Session D (Text × Text)
  create_replication_slot slot = do
    name ← lift (quote_ident slot)
    row ← execute server (create_slot name)
    exported row

  -- `_drop_slot_with_retry`, with the number of attempts that are left
  abbrev pub drop_slot_with_retry : Text → ℕ → Session D Unit
  drop_slot_with_retry slot zero = pure tt
  drop_slot_with_retry slot (suc zero) = execute server (drop_slot slot)
  drop_slot_with_retry slot (suc (suc attempts)) = catch (execute server (drop_slot slot)) (λ e.
      if is_database_error e
      then execute server sleep >> drop_slot_with_retry slot (suc attempts)
      else raise e)

  abbrev pub terminate : Option ℤ → Session D Unit
  terminate none = pure tt
  terminate (some pid) = execute server (terminate_backend pid)

  -- The slot that `teardown` finds, and its walsender.
  abbrev pub remove_slot : Text → Option (Option ℤ) → Session D Unit
  remove_slot slot none = pure tt
  remove_slot slot (some pid) = do terminate pid; drop_slot_with_retry slot 10
