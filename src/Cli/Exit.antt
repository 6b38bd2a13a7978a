-- ===== src/Cli/Exit.antt =====
-- walflux/cli.py: what `main` can return, and which exceptions leave it, for every subcommand.
use walflux_postgres_increme.Prelude.{
  ℕ, ◌≡◌, refl, ◌⊎◌, inl, inr, Bool, true, false, Text, Result, ok, err, Error, if◌then◌else◌,
  Bool-cases,
}
use walflux_postgres_increme.Prelude.Int.{ℤ}
use walflux_postgres_increme.Config.{Config}
use walflux_postgres_increme.Database.Command.{Command, Answer}
use walflux_postgres_increme.Database.Session.{
  Context, Session, pure, raise, ◌>>=◌, proceed, handled,
}
use walflux_postgres_increme.Bootstrap.Setup.{setup, teardown}
use walflux_postgres_increme.Daemon.Run.{run, status}
use walflux_postgres_increme.Cli.{
  Subcommand, setup_command, run_command, status_command, teardown_command, Args, is_walflux_error,
  handler, main,
}

module _ {D : Type 0} where
  abbrev pub voided : {A : Type 0} → Result A × Context D → Result (Unit {0}) × Context D
  voided (ok a, s) = (ok tt, s)
  voided (err e, s) = (err e, s)

  -- Success is 0, an error of walflux/common.py is 1, and any other exception leaves `main`.
  abbrev pub Reported : Result (Unit {0}) × Context D → Result ℕ × Context D → Type 0
  Reported (ok u, t) r = r ≡ (ok 0, t)
  Reported (err e, t) r =
      ((is_walflux_error e ≡ true) × (r ≡ (ok 1, t)))
      ⊎ ((is_walflux_error e ≡ false) × (r ≡ (err e, t)))

  abbrev caught : Result ℕ × Context D → Result ℕ × Context D
  caught r = handled (λ e. if is_walflux_error e then pure 1 else raise e) r

  raised-Reported : (e : Error) (t : Context D) → Reported (err e, t) (caught (err e, t))
  raised-Reported e t = elim (Bool-cases (is_walflux_error e)) [
    | inl known ↦ inl (known, rw known refl)
    | inr foreign ↦ inr (foreign, rw foreign refl)
  ]

  worked-Reported :
      {A : Type 0} (r : Result A × Context D)
      → Reported (voided r) (caught (proceed (λ _. pure 0) r))
  worked-Reported (ok a, t) = refl
  worked-Reported (err e, t) = raised-Reported e t

  -- The configuration that is read, or the error of reading it, and then the work.
  abbrev pub with_config :
      (Config → Context D → Result (Unit {0}) × Context D)
      → Result Config
      → Context D
      → Result (Unit {0}) × Context D
  with_config work (ok config) s = work config s
  with_config work (err e) s = (err e, s)

  loaded-Reported :
      {A : Type 0} (next : Config → Session D A) (read : Result Config) (s : Context D)
      → Reported
          (with_config (λ config t. voided (next config t)) read s)
          (caught (proceed (λ config. next config >>= λ _. pure 0) (read, s)))
  loaded-Reported next (ok config) s = worked-Reported (next config s)
  loaded-Reported next (err e) s = raised-Reported e s

module _ {D : Type 0} (server : (c : Command) → D → Result (Answer c) × D)
    (load : Text → Result Config) (loop : Config → ℤ → Session D Unit) where
  -- What each subcommand is for.
  abbrev pub work : Subcommand → Bool → Config → Context D → Result (Unit {0}) × Context D
  work setup_command force config s = voided (setup server config force s)
  work run_command force config s = voided (run server (loop config) config s)
  work status_command force config s = voided (status server config s)
  work teardown_command force config s = voided (teardown server config s)

  abbrev Guarded : Subcommand → Args → Context D → Result ℕ × Context D → Type 0
  Guarded command args s r =
      ((command ≡ teardown_command) × (args.yes ≡ false) × (r ≡ (ok 2, s)))
      ⊎ ((command ≡ teardown_command → args.yes ≡ true)
          × Reported (with_config (work command args.force) (load args.config) s) r)

  -- A teardown without `--yes` executes nothing and gives 2; anything else does its work.
  abbrev pub Outcome : Args → Context D → Result ℕ × Context D → Type 0
  Outcome args s r = Guarded args.command args s r

  teardown-Guarded :
      (args : Args) (s : Context D) (yes : Bool) (m : Session D ℕ)
      → args.yes ≡ yes
      → Reported
          (with_config (work teardown_command args.force) (load args.config) s)
          (caught (m s))
      → Guarded teardown_command args s (caught ((if yes then m else pure 2) s))
  teardown-Guarded args s true m e h = inr ((λ _. e), h)
  teardown-Guarded args s false m e h = inl (refl, e, refl)

  handler-Guarded :
      (command : Subcommand) (args : Args) (s : Context D)
      → Guarded command args s (caught (handler server load loop command args s))
  handler-Guarded setup_command args s =
      inr
        ((λ e. cc), loaded-Reported (λ config. setup server config args.force) (load args.config) s)
  handler-Guarded run_command args s =
      inr (
        (λ e. cc),
        loaded-Reported (λ config. run server (loop config) config) (load args.config) s,
      )
  handler-Guarded status_command args s =
      inr ((λ e. cc), loaded-Reported (status server) (load args.config) s)
  handler-Guarded teardown_command args s =
      teardown-Guarded args s args.yes _ refl
        (loaded-Reported (teardown server) (load args.config) s)

  -- `main` returns 2 and executes nothing for a teardown without `--yes`. Otherwise it reads the
  -- configuration and does the work of its subcommand, and returns 0 if that raises nothing, 1 if it
  -- raises an error of walflux/common.py, and lets any other exception through; in all cases the
  -- database and the commands are those of that work.
  pub main-Outcome : (args : Args) (s : Context D) → Outcome args s (main server load loop args s)
  main-Outcome args s = handler-Guarded args.command args s
