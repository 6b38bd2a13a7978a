-- ===== src/Daemon/Resume.antt =====
-- walflux/daemon.py, `Daemon.run`: where the loop starts, and that the connections are closed.
use walflux_postgres_increme.Prelude.{
  ◌≡◌, refl, ◌⊎◌, inl, inr, Bool, true, false, Option, none, some, List, ◌∷◌, Error, Result, ok,
  err, setup_error, undefined_table,
}
use walflux_postgres_increme.Prelude.Int.{ℤ}
use walflux_postgres_increme.Config.{Config}
use walflux_postgres_increme.Database.Command.{
  Command, Answer, Event, done, failed, connect, close, rollback, open_stream, close_stream,
  select_checkpoint,
}
use walflux_postgres_increme.Database.Session.{
  Context, Session, pure, proceed, handled, cleaned, logged, execute,
}
use walflux_postgres_increme.Daemon.Run.{close_both, run}

module _ {D : Type 0} (server : (c : Command) → D → Result (Answer c) × D)
    (loop : ℤ → Session D Unit) (config : Config) (s : Context D) where
  -- The database behind the first commands of `run`.
  abbrev connected : D
  connected = (server connect s.db).1

  abbrev asked : D
  asked = (server (select_checkpoint config.slot) connected).1

  abbrev ended : D
  ended = (server rollback asked).1

  -- No row for the slot, or no table.
  abbrev pub NoCheckpoint : Result (Option ℤ) → Type 0
  NoCheckpoint r = (r ≡ ok none) ⊎ (r ≡ err undefined_table)

  -- `run` starts only where `setup` has ended: if it finds no checkpoint table or no row for its slot, it
  -- raises SetupError, and no loop is started, so that any other in its place gives the same.
  pub run_refuses :
      (other : ℤ → Session D Unit)
      → (server connect s.db).0 ≡ ok none
      → NoCheckpoint (server (select_checkpoint config.slot) connected).0
      → (server rollback asked).0 ≡ ok tt
      → ((d : D) → (server close d).0 ≡ ok tt)
      → s.repl_conn ≡ false
      → ((run server loop config s).0 ≡ err setup_error)
        × (run server loop config s ≡ run server other config s)
  run_refuses other accepted (inl row) rolled closes alone =
      rw (accepted, row, rolled, alone, closes ended) (refl, refl)
  run_refuses other accepted (inr table) rolled closes alone =
      rw (accepted, table, alone, closes asked) (refl, refl)

  -- Where the loop starts otherwise: the stream is open, and these four commands have been executed.
  abbrev pub resumed : ℤ → Context D
  resumed lsn = record {
    db = (server open_stream ended).1;
    log =
        done open_stream none
        ∷ done rollback tt
        ∷ done (select_checkpoint config.slot) (some lsn)
        ∷ done connect none
        ∷ s.log;
    repl_conn = true;
  }

  -- The stream has been closed, or could not be, and then the connection has been closed.
  abbrev pub ClosedAfter : List Event → List Event → Type 0
  ClosedAfter before log =
      (log ≡ done close tt ∷ done close_stream tt ∷ before)
      ⊎ ((e : Error) × (log ≡ done close tt ∷ failed close_stream e ∷ before))

  abbrev pub Closes : Type 0
  Closes = (d : D) → (server close d).0 ≡ ok tt

  last_close :
      (log : List Event) (flag : Bool) (db : D) (r : Result Unit × D)
      → r.0 ≡ ok tt
      → logged close (record { db = db; log = log; repl_conn = flag }) r
        ≡ (ok tt, record { db = r.1; log = done close tt ∷ log; repl_conn = flag })
  last_close log flag db (ok u, d) e = refl
  last_close log flag db (err x, d) e = cc

  -- What `close_both` does while the stream is open, by what closing the stream gives.
  closing :
      (db : D) (log : List Event) (closed : Result Unit × D)
      → Closes
      → (c : Context D) × (proceed
            (λ _. execute server close)
            (handled
              (λ e. pure tt)
              (logged close_stream (record { db = db; log = log; repl_conn = true }) closed))
          ≡ (ok tt, c))
        × ClosedAfter log c.log
  closing db log (ok u, d) closes =
      (_, last_close (done close_stream tt ∷ log) true d (server close d) (closes d), inl refl)
  closing db log (err e, d) closes = (
    _,
    last_close (failed close_stream e ∷ log) true d (server close d) (closes d),
    inr (e, refl),
  )

  closed_after :
      (r : Result Unit) (c : Context D)
      → Closes
      → c.repl_conn ≡ true
      → ((cleaned (close_both server) (r, c)).0 ≡ r)
        × ClosedAfter c.log (cleaned (close_both server) (r, c)).1.log
  closed_after (ok tt) c closes opened =
      let (c', same, after) = closing c.db c.log (server close_stream c.db) closes in
      rw (opened, same) (refl, after)
  closed_after (err e) c closes opened =
      let (c', same, after) = closing c.db c.log (server close_stream c.db) closes in
      rw (opened, same) (refl, after)

  -- Where `run` finds a row for its slot, the loop starts at the position of the row, over an open
  -- stream. If the loop keeps the stream and closing the connection raises nothing, `run` raises what
  -- the loop raises, and otherwise nothing, and behind the commands of the loop it has closed the
  -- stream, an error of which it passes over, and then the connection.
  pub run_resumes :
      (lsn : ℤ)
      → (server connect s.db).0 ≡ ok none
      → (server (select_checkpoint config.slot) connected).0 ≡ ok (some lsn)
      → (server rollback asked).0 ≡ ok tt
      → (server open_stream ended).0 ≡ ok none
      → Closes
      → (loop lsn (resumed lsn)).1.repl_conn ≡ true
      → ((run server loop config s).0 ≡ (loop lsn (resumed lsn)).0)
        × ClosedAfter (loop lsn (resumed lsn)).1.log (run server loop config s).1.log
  run_resumes lsn accepted row rolled opened closes kept =
      rw (accepted, row, rolled, opened)
        (closed_after (loop lsn (resumed lsn)).0 (loop lsn (resumed lsn)).1 closes kept)
