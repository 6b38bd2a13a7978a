-- ===== src/Bootstrap/Retry.antt =====
-- walflux/bootstrap.py, `_drop_slot_with_retry`: how often it tries, and when it gives up.
use walflux_postgres_increme.Prelude.{
  ℕ, zero, suc, ◌<◌, ◌≡◌, refl, true, List, ◌∷◌, Text, Error, Result, ok, err, arith,
}
use walflux_postgres_increme.Database.Command.{
  Command, Answer, Event, done, failed, drop_slot, sleep,
}
use walflux_postgres_increme.Database.Session.{Context, logged}
use walflux_postgres_increme.Bootstrap.Slot.{drop_slot_with_retry, is_database_error}

module _ {D : Type 0} (server : (c : Command) → D → Result (Answer c) × D) (slot : Text) where
  -- The database after a number of failed attempts and the sleeps behind them.
  abbrev pub after_tries : ℕ → D → D
  after_tries zero d = d
  after_tries (suc k) d = after_tries k (server sleep (server (drop_slot slot) d).1).1

  -- `pg_drop_replication_slot` raises a `psycopg2.Error`.
  abbrev pub Refuses : D → Type 0
  Refuses d = (e : Error) × ((server (drop_slot slot) d).0 ≡ err e) × (is_database_error e ≡ true)

  abbrev pub Sleeps : Type 0
  Sleeps = (d : D) → (server sleep d).0 ≡ ok tt

  logged_result : (c : Command) (s : Context D) (r : Result (Answer c) × D) → (logged c s r).0 ≡ r.0
  logged_result c s (ok a, db) = refl
  logged_result c s (err e, db) = refl

  -- A failed attempt, a sleep, and then what is left of the attempts.
  again :
      (attempts : ℕ) (s : Context D)
      → Refuses s.db
      → Sleeps
      → (log : List Event) × (drop_slot_with_retry server slot (suc (suc attempts)) s
          ≡ drop_slot_with_retry server slot
              (suc attempts)
              (record s { db = after_tries 1 s.db; log = log }))
  again attempts s (e, refused, expected) sleeps = (
    done sleep tt ∷ failed (drop_slot slot) e ∷ s.log,
    rw (refused, expected, sleeps (server (drop_slot slot) s.db).1) refl,
  )

  -- `_drop_slot_with_retry` succeeds if the database takes the drop at one of its attempts: if the first
  -- `k` of them are refused with a `psycopg2.Error` and the next one is not, `k` less than the number
  -- of attempts, it raises nothing, and leaves the database as `k` refusals, each with a sleep behind
  -- it, and the drop leave it.
  pub drop_slot_with_retry_succeeds :
      (attempts k : ℕ) (s : Context D)
      → k < attempts
      → Sleeps
      → ((j : ℕ) → j < k → Refuses (after_tries j s.db))
      → (server (drop_slot slot) (after_tries k s.db)).0 ≡ ok tt
      → ((drop_slot_with_retry server slot attempts s).0 ≡ ok tt)
        × ((drop_slot_with_retry server slot attempts s).1.db
            ≡ (server (drop_slot slot) (after_tries k s.db)).1)
  drop_slot_with_retry_succeeds zero k s below sleeps refuses takes = absurd (omega arith)
  drop_slot_with_retry_succeeds (suc zero) zero s below sleeps refuses takes = rw takes (refl, refl)
  drop_slot_with_retry_succeeds (suc (suc n)) zero s below sleeps refuses takes =
      rw takes (refl, refl)
  drop_slot_with_retry_succeeds (suc zero) (suc k) s below sleeps refuses takes =
      absurd (omega arith)
  drop_slot_with_retry_succeeds (suc (suc n)) (suc k) s below sleeps refuses takes =
      let (log, same) = again n s (refuses 0 (omega arith)) sleeps in
      rw same (
        drop_slot_with_retry_succeeds (suc n) k (record s { db = after_tries 1 s.db; log = log })
          (omega arith) sleeps (λ j h. refuses (suc j) (omega arith)) takes)

  -- If all its attempts are refused with a `psycopg2.Error`, it raises what the last one raised.
  pub drop_slot_with_retry_raises :
      (attempts : ℕ) (s : Context D)
      → Sleeps
      → ((j : ℕ) → j < suc attempts → Refuses (after_tries j s.db))
      → (drop_slot_with_retry server slot (suc attempts) s).0
        ≡ (server (drop_slot slot) (after_tries attempts s.db)).0
  drop_slot_with_retry_raises zero s sleeps refuses =
      logged_result (drop_slot slot) s (server (drop_slot slot) s.db)
  drop_slot_with_retry_raises (suc n) s sleeps refuses =
      let (log, same) = again n s (refuses 0 (omega arith)) sleeps in
      rw same (
        drop_slot_with_retry_raises n (record s { db = after_tries 1 s.db; log = log }) sleeps
          (λ j h. refuses (suc j) (omega arith)))
