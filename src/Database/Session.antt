-- ===== src/Database/Session.antt =====
-- Code over a database connection: it sees the database through the answers to its commands, and may
-- raise. `server` stands for psycopg2 and PostgreSQL: a state that the code does not see, and what a
-- command gives in it. The state and the log of commands, the latest first, survive an exception.
use walflux_postgres_increme.Prelude.{Bool, true, List, ◌∷◌, Error, Result, ok, err, if◌then◌else◌}
use walflux_postgres_increme.Database.Command.{Command, Answer, Event, done, failed}

-- `repl_conn` is a local variable of `setup`, and stands for `stream` of `Daemon.run`: whether it is not
-- None.
pub record Context (D : Type 0) : Type 0 where
  pub db : D
  pub log : List Event
  pub repl_conn : Bool

abbrev pub Session : Type 0 → Type 0 → Type 0
Session D A = Context D → Result A × Context D

module _ {D : Type 0} where
  abbrev pub pure : {A : Type 0} → A → Session D A
  pure a s = (ok a, s)

  abbrev pub raise : {A : Type 0} → Error → Session D A
  raise e s = (err e, s)

  -- a call that may raise and executes nothing
  abbrev pub lift : {A : Type 0} → Result A → Session D A
  lift r s = (r, s)

  abbrev pub check : Bool → Error → Session D Unit
  check wrong e = if wrong then raise e else pure tt

  abbrev pub proceed :
      {A B : Type 0} → (A → Session D B) → Result A × Context D → Result B × Context D
  proceed next (ok a, s) = next a s
  proceed next (err e, s) = (err e, s)

  infixl 5 ◌>>=◌ ◌>>◌
  abbrev pub ◌>>=◌ : {A B : Type 0} → Session D A → (A → Session D B) → Session D B
  ◌>>=◌ call next s = proceed next (call s)

  abbrev pub ◌>>◌ : {A B : Type 0} → Session D A → Session D B → Session D B
  call >> next = call >>= λ _. next

  abbrev pub handled :
      {A : Type 0} → (Error → Session D A) → Result A × Context D → Result A × Context D
  handled handler (ok a, s) = (ok a, s)
  handled handler (err e, s) = handler e s

  -- `try: … except …`, where the handler raises what it does not handle
  abbrev pub catch : {A : Type 0} → Session D A → (Error → Session D A) → Session D A
  catch call handler s = handled handler (call s)

  abbrev pub cleaned : {A : Type 0} → Session D Unit → Result A × Context D → Result A × Context D
  cleaned cleanup (ok a, s) = (cleanup >>= λ _. pure a) s
  cleaned cleanup (err e, s) = (cleanup >>= λ _. raise e) s

  -- `try: … finally: …`
  abbrev pub finally : {A : Type 0} → Session D A → Session D Unit → Session D A
  finally call cleanup s = cleaned cleanup (call s)

  abbrev pub assign_repl_conn : Session D Unit
  assign_repl_conn s = (ok tt, record s { repl_conn = true })

  abbrev pub when_repl_conn : Session D Unit → Session D Unit
  when_repl_conn call s = if s.repl_conn then call s else (ok tt, s)

  abbrev pub logged :
      (c : Command) → Context D → Result (Answer c) × D → Result (Answer c) × Context D
  logged c s (ok a, db) = (ok a, record s { db = db; log = done c a ∷ s.log })
  logged c s (err e, db) = (err e, record s { db = db; log = failed c e ∷ s.log })

  abbrev pub execute :
      ((c : Command) → D → Result (Answer c) × D) → (c : Command) → Session D (Answer c)
  execute server c s = logged c s (server c s.db)
