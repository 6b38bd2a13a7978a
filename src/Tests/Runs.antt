-- ===== src/Tests/Runs.antt =====
-- Examples for walflux/cli.py and `Daemon.run` of walflux/daemon.py.
use walflux_postgres_increme.Prelude.{
  ◌≡◌, refl, inl, none, some, true, false, [], ◌∷◌, Text, codes, Result, ok, err, setup_error,
}
use walflux_postgres_increme.Prelude.Int.{ℤ, pos}
use walflux_postgres_increme.Config.{Config}
use walflux_postgres_increme.Database.Command.{Command, Answer, select_checkpoint}
use walflux_postgres_increme.Database.Session.{Session, pure}
use walflux_postgres_increme.Daemon.Run.{run, Status}
use walflux_postgres_increme.Daemon.Resume.{run_refuses, run_resumes, ClosedAfter, resumed}
use walflux_postgres_increme.Cli.{Args, teardown_command, main, status_lines}
use walflux_postgres_increme.Cli.Exit.{Outcome, main-Outcome}
use walflux_postgres_increme.Tests.Sample.{two_views_config}
use walflux_postgres_increme.Tests.Setups.{answer, obliging, fresh}

abbrev silent : ℤ → Session Unit Unit
silent lsn = pure tt

run_refuses_example :
    ((run obliging silent two_views_config fresh).0 ≡ err setup_error)
    × (run obliging silent two_views_config fresh
        ≡ run obliging (λ lsn. pure tt) two_views_config fresh)
run_refuses_example =
    run_refuses obliging silent two_views_config fresh (λ lsn. pure tt) refl (inl refl) refl
      (λ d. refl) refl

-- The database after a setup.
abbrev prepared_answer : (c : Command) → Answer c
prepared_answer (select_checkpoint slot) = some (pos 23803720)
prepared_answer c = answer c

abbrev prepared : (c : Command) → Unit {0} → Result (Answer c) × Unit {0}
prepared c d = (ok (prepared_answer c), d)

run_resumes_example :
    ((run prepared silent two_views_config fresh).0 ≡ ok tt)
    × ClosedAfter prepared silent two_views_config fresh
        (resumed prepared silent two_views_config fresh (pos 23803720)).log
        (run prepared silent two_views_config fresh).1.log
run_resumes_example =
    run_resumes prepared silent two_views_config fresh (pos 23803720) refl refl refl refl
      (λ d. refl) refl

abbrev hasty : Args
hasty = record {
  command = teardown_command;
  config = codes "walflux.yaml";
  force = false;
  yes = false;
}

abbrev loaded : Text → Result Config
loaded path = ok two_views_config

main-Outcome_example :
    Outcome obliging loaded
      (λ config. silent)
      hasty
      fresh
      (main obliging loaded (λ config. silent) hasty fresh)
main-Outcome_example = main-Outcome obliging loaded (λ config. silent) hasty fresh

abbrev idle : Status
idle = record {
  slot = codes "walflux";
  slot_exists = true;
  active = some false;
  restart_lsn = some (codes "0/16B3748");
  confirmed_flush_lsn = none;
  lag_bytes = some (pos 1024);
  current_lsn = codes "0/16B3B48";
  checkpoint_lsn = none;
  views = (codes "by_region", some (pos 3)) ∷ [];
}

status_table :
    status_lines idle
    ≡ codes "slot                 walflux (inactive)"
      ∷ codes "restart_lsn          0/16B3748"
      ∷ codes "confirmed_flush_lsn  -"
      ∷ codes "current_lsn          0/16B3B48"
      ∷ codes "lag_bytes            1024"
      ∷ codes "checkpoint_lsn       -"
      ∷ codes "view by_region       3 rows"
      ∷ []
unfolding status_lines
status_table = refl
