-- ===== src/Cli.antt =====
-- walflux/cli.py: the subcommands, the exit codes and the table of `walflux status`. The parsed arguments
-- are a record; argparse is Python's own.
use walflux_postgres_increme.Prelude.{
  ℕ, zero, suc, ◌+◌, ◌-◌, ◌/◌, ◌%◌, max, Option, none, some, Bool, true, false, not, ltb, List, [],
  ◌∷◌, ◌++◌, map, length, Text, codes, Error, Result, ok, err, walflux_error, protocol_error,
  config_error, schema_drift_error, setup_error, if◌then◌else◌,
}
use walflux_postgres_increme.Prelude.Int.{ℤ, pos, negsuc}
use walflux_postgres_increme.Value.{Dict}
use walflux_postgres_increme.Config.{Config}
use walflux_postgres_increme.Database.Command.{Command, Answer}
use walflux_postgres_increme.Database.Session.{Session, pure, raise, lift, ◌>>=◌, ◌>>◌, catch}
use walflux_postgres_increme.Bootstrap.Setup.{setup, teardown}
use walflux_postgres_increme.Daemon.Run.{Status, run, status}
pub mod Exit

-- Python's `str` of an int: the fuel is one more than the number.
unfoldable decimal_from : ℕ → ℕ → Text → Text
decimal_from zero n acc = acc
decimal_from (suc fuel) n acc =
    let more = decimal_from fuel (n / 10) ((b'0' + n % 10) ∷ acc) in
    if ltb n 10 then (b'0' + n) ∷ acc else more

unfoldable pub str_ℤ : ℤ → Text
unfolding decimal_from
str_ℤ (pos n) = decimal_from (suc n) n []
str_ℤ (negsuc n) = b'-' ∷ decimal_from (suc (suc n)) (suc n) []

-- `lsn`, of a text or None
abbrev lsn_cell : Option Text → Text
lsn_cell none = codes "-"
lsn_cell (some t) = t

abbrev slot_state : Status → Text
slot_state info = state info.slot_exists info.active
  where
    state : Bool → Option Bool → Text
    state false active = codes "absent — run `walflux setup`"
    state true (some true) = codes "active"
    state true (some false) = codes "inactive"
    state true none = codes "inactive"

abbrev lag_cell : Option ℤ → Text
lag_cell none = codes "-"
lag_cell (some n) = str_ℤ n

abbrev count_cell : Option ℤ → Text
count_cell none = codes "no target table"
count_cell (some n) = str_ℤ n ++ codes " rows"

abbrev view_rows : Dict (Option ℤ) → List (Text × Text)
view_rows [] = []
view_rows ((name, count) ∷ views) = (codes "view " ++ name, count_cell count) ∷ view_rows views

abbrev status_rows : Status → List (Text × Text)
status_rows info =
    (codes "slot", info.slot ++ codes " (" ++ slot_state info ++ codes ")")
    ∷ (codes "restart_lsn", lsn_cell info.restart_lsn)
    ∷ (codes "confirmed_flush_lsn", lsn_cell info.confirmed_flush_lsn)
    ∷ (codes "current_lsn", info.current_lsn)
    ∷ (codes "lag_bytes", lag_cell info.lag_bytes)
    ∷ (codes "checkpoint_lsn", lsn_cell info.checkpoint_lsn)
    ∷ view_rows info.views

abbrev spaces : ℕ → Text
spaces zero = []
spaces (suc n) = 32 ∷ spaces n

abbrev widest : List (Text × Text) → ℕ
widest [] = 0
widest ((label, _) ∷ rows) = max (length label) (widest rows)

-- `_print_status`: the lines that it prints
unfoldable pub status_lines : Status → List Text
unfolding str_ℤ
status_lines info =
    let rows = status_rows info in
    let width = widest rows in
    map (λ (r : Text × Text). r.0 ++ spaces (width - length r.0) ++ codes "  " ++ r.1) rows

pub data Subcommand : Type 0 where
  setup_command run_command status_command teardown_command : Subcommand

pub record Args : Type 0 where
  pub command : Subcommand
  pub config : Text
  pub force : Bool
  pub yes : Bool

-- The classes of walflux/common.py
abbrev pub is_walflux_error : Error → Bool
is_walflux_error walflux_error = true
is_walflux_error protocol_error = true
is_walflux_error config_error = true
is_walflux_error schema_drift_error = true
is_walflux_error setup_error = true
is_walflux_error _ = false

-- `load` is `load_config`, of a path, and `loop` is `Daemon._loop` of a configuration.
module _ {D : Type 0} (server : (c : Command) → D → Result (Answer c) × D)
    (load : Text → Result Config) (loop : Config → ℤ → Session D Unit) where
  abbrev cmd_setup : Args → Session D ℕ
  cmd_setup args = do config ← lift (load args.config); _ ← setup server config args.force; pure 0

  abbrev cmd_run : Args → Session D ℕ
  cmd_run args = do config ← lift (load args.config); run server (loop config) config; pure 0

  abbrev cmd_status : Args → Session D ℕ
  cmd_status args = do config ← lift (load args.config); _ ← status server config; pure 0

  abbrev cmd_teardown : Args → Session D ℕ
  cmd_teardown args = if args.yes then confirmed else pure 2
    where
      confirmed : Session D ℕ
      confirmed = do config ← lift (load args.config); teardown server config; pure 0

  abbrev pub handler : Subcommand → Args → Session D ℕ
  handler setup_command args = cmd_setup args
  handler run_command args = cmd_run args
  handler status_command args = cmd_status args
  handler teardown_command args = cmd_teardown args

  -- `except WalfluxError`: one line on stderr, and the exit code 1
  abbrev pub main : Args → Session D ℕ
  main args =
      catch (handler args.command args) (λ e. if is_walflux_error e then pure 1 else raise e)
