-- ===== src/Bootstrap/Removal.antt =====
-- walflux/bootstrap.py, `teardown`: what it has executed when it raises nothing, and that it closes its
-- connection.
use walflux_postgres_increme.Prelude.{
  ℕ, zero, suc, ◌≡◌, refl, ap, ◌⊎◌, Bool-cases, inl, inr, Option, none, some, List, ◌∷◌, Text,
  Error, Result, ok, err, if◌then◌else◌,
}
use walflux_postgres_increme.Prelude.Int.{ℤ}
use walflux_postgres_increme.Common.Ident.{quote_ident}
use walflux_postgres_increme.Config.{Config}
use walflux_postgres_increme.Database.Command.{
  Command, Answer, Event, done, failed, close, find_walsender, drop_slot, drop_publication,
  drop_schema, sleep,
}
use walflux_postgres_increme.Database.Session.{
  Context, Session, pure, raise, lift, proceed, handled, finally, cleaned, logged, ◌>>=◌, ◌>>◌,
  execute,
}
use walflux_postgres_increme.Bootstrap.Checks.{connect_regular}
use walflux_postgres_increme.Bootstrap.Slot.{
  drop_slot_with_retry, terminate, remove_slot, is_database_error,
}
use walflux_postgres_increme.Bootstrap.Ends.{Ends, then_Ends, execute-Ends, anything, ended}
use walflux_postgres_increme.Bootstrap.Setup.{removal, teardown}

-- The slot was not there, or is dropped.
abbrev pub Freed : Text → List Event → Type 0
Freed slot log =
    (rest : List Event) × ((log ≡ done (find_walsender slot) none ∷ rest)
      ⊎ (log ≡ done (drop_slot slot) tt ∷ rest))

-- The slot, then the publication of this name, then the schema.
abbrev pub Removed : Text → Text → List Event → Type 0
Removed slot name log =
    (before : List Event) × Freed slot before
    × (log ≡ done drop_schema tt ∷ done (drop_publication name) tt ∷ before)

module _ {D : Type 0} (server : (c : Command) → D → Result (Answer c) × D) where
  abbrev Dropped : Text → Unit {0} → List Event → Type 0
  Dropped slot u log = (rest : List Event) × (log ≡ done (drop_slot slot) tt ∷ rest)

  attempt :
      (slot : Text) (s : Context D) (r : Result Unit × D) (retry : Error → Session D Unit)
      → ((e : Error) (s' : Context D) → Ends (Dropped slot) (retry e s'))
      → Ends (Dropped slot) (handled retry (logged (drop_slot slot) s r))
  attempt slot s (ok u, db) retry h = (s.log, refl)
  attempt slot s (err e, db) retry h =
      h e (record s { db = db; log = failed (drop_slot slot) e ∷ s.log })

  once :
      (slot : Text) (s : Context D) (r : Result Unit × D)
      → Ends (Dropped slot) (logged (drop_slot slot) s r)
  once slot s (ok u, db) = (s.log, refl)
  once slot s (err e, db) = tt

  freed :
      (slot : Text) (r : Result Unit × Context D) → Ends (Dropped slot) r → Ends (λ _. Freed slot) r
  freed slot (ok u, s) (rest, e) = (rest, inr e)
  freed slot (err e, s) h = tt

  again :
      (slot : Text) (n : ℕ)
      → ((s : Context D) → Ends (Dropped slot) (drop_slot_with_retry server slot (suc n) s))
      → (e : Error) (s : Context D)
      → Ends (Dropped slot) (
          (if is_database_error e
              then execute server sleep >> drop_slot_with_retry server slot (suc n)
              else raise e)
            s)
  again slot n later e s = elim (Bool-cases (is_database_error e)) [
    | inl expected ↦ rw expected (
        then_Ends (λ _ _. Unit) (Dropped slot) (λ _. drop_slot_with_retry server slot (suc n))
          (execute server sleep s) (anything (execute server sleep s)) (λ _ s' _. later s'))
    | inr other ↦ rw other tt
  ]

  drop_slot_with_retry-Dropped :
      (slot : Text) (n : ℕ) (s : Context D)
      → Ends (Dropped slot) (drop_slot_with_retry server slot (suc n) s)
  drop_slot_with_retry-Dropped slot zero s = once slot s (server (drop_slot slot) s.db)
  drop_slot_with_retry-Dropped slot (suc n) s =
      attempt slot s (server (drop_slot slot) s.db) _
        (again slot n (drop_slot_with_retry-Dropped slot n))

  remove_slot-Freed :
      (slot : Text) (found : Option (Option ℤ)) (s : Context D)
      → ((rest : List Event) × (s.log ≡ done (find_walsender slot) found ∷ rest))
      → Ends (λ _. Freed slot) (remove_slot server slot found s)
  remove_slot-Freed slot none s (rest, e) = (rest, inl e)
  remove_slot-Freed slot (some pid) s h =
      then_Ends (λ _ _. Unit) (λ _. Freed slot) (λ _. drop_slot_with_retry server slot 10)
        (terminate server pid s) (anything (terminate server pid s))
        (λ _ s' _.
          freed slot (drop_slot_with_retry server slot 10 s')
            (drop_slot_with_retry-Dropped slot 9 s'))

  abbrev Named : Config → List Event → Type 0
  Named config log =
      (name : Text) × (quote_ident config.publication ≡ ok name) × Removed config.slot name log

  drops :
      (config : Config) (name : Text) (s : Context D)
      → quote_ident config.publication ≡ ok name
      → Freed config.slot s.log
      → Ends
          (λ _. Named config)
          ((execute server (drop_publication name) >>= λ _. execute server drop_schema) s)
  drops config name s quoted gone =
      then_Ends (λ _ log. log ≡ done (drop_publication name) tt ∷ s.log) (λ _. Named config)
        (λ _. execute server drop_schema) (execute server (drop_publication name) s)
        (execute-Ends server (drop_publication name) s)
        (λ _ s' e. schema s' (server drop_schema s'.db) e)
    where
      schema :
          (s' : Context D) (r : Result Unit × D)
          → s'.log ≡ done (drop_publication name) tt ∷ s.log
          → Ends (λ _. Named config) (logged drop_schema s' r)
      schema s' (ok u, db) e =
          (name, quoted, (s.log, gone, ap (λ (l : List Event). done drop_schema tt ∷ l) e))
      schema s' (err x, db) e = tt

  removal-Named :
      (config : Config) (s : Context D) → Ends (λ _. Named config) (removal server config s)
  removal-Named config s =
      then_Ends (λ found log. log ≡ done (find_walsender config.slot) found ∷ s.log)
        (λ _. Named config) (λ found. remove_slot server config.slot found >> rest)
        (execute server (find_walsender config.slot) s)
        (execute-Ends server (find_walsender config.slot) s)
        (λ found s' e.
          then_Ends (λ _. Freed config.slot) (λ _. Named config) (λ _. rest)
            (remove_slot server config.slot found s')
            (remove_slot-Freed config.slot found s' (s.log, e))
            (λ _ s'' gone. named (quote_ident config.publication) s'' refl gone))
    where
      publish : Text → Session D Unit
      publish name = execute server (drop_publication name) >> execute server drop_schema

      rest : Session D Unit
      rest = lift (quote_ident config.publication) >>= publish

      named :
          (r : Result Text) (s' : Context D)
          → quote_ident config.publication ≡ r
          → Freed config.slot s'.log
          → Ends (λ _. Named config) (proceed publish (r, s'))
      named (ok name) s' quoted gone = drops config name s' quoted gone
      named (err e) s' quoted gone = tt

  -- The same under the event of closing.
  abbrev pub Closed : Config → List Event → Type 0
  Closed config log =
      (name : Text) × (quote_ident config.publication ≡ ok name)
      × (removed : List Event) × Removed config.slot name removed
      × (log ≡ done close tt ∷ removed)

  closing :
      (config : Config) (r : Result Unit × Context D)
      → Ends (λ _. Named config) r
      → Ends (λ _. Closed config) (cleaned (execute server close) r)
  closing config (ok u, s) (name, quoted, removed) =
      then_Ends (λ _ log. log ≡ done close tt ∷ s.log) (λ _. Closed config) (λ _. pure u)
        (execute server close s) (execute-Ends server close s)
        (λ _ s' e. (name, quoted, s.log, removed, e))
  closing config (err x, s) h =
      then_Ends (λ _ _. Unit) (λ _. Closed config) (λ _. raise x) (execute server close s)
        (anything (execute server close s)) (λ _ s' _. tt)

  -- A teardown that raises nothing, whatever the database answers on the way, has first seen that there
  -- is no slot or dropped it, then dropped the publication under its quoted name and the schema, in this
  -- order, and closed its connection last.
  pub teardown-Closed :
      (config : Config) (s : Context D)
      → (teardown server config s).0 ≡ ok tt
      → Closed config (teardown server config s).1.log
  teardown-Closed config s = ended (Closed config) (teardown server config s) (
      then_Ends (λ _ _. Unit) (λ _. Closed config)
        (λ _. finally (removal server config) (execute server close)) (connect_regular server s)
        (anything (connect_regular server s))
        (λ _ s' _. closing config (removal server config s') (removal-Named config s')))
