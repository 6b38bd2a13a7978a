-- ===== src/Bootstrap/Triple.antt =====
-- How to prove that a session keeps the database safe after each of its commands: triples of a
-- condition on the database before, a session, and a condition after it if it raises nothing.
use walflux_postgres_increme.Prelude.{
  ◌≡◌, refl, Bool, true, false, List, [], ◌∷◌, Text, Error, Result, ok, err,
}
use walflux_postgres_increme.Aggregates.Spec.{ViewSpec}
use walflux_postgres_increme.Database.Command.{Command, Answer, Event, done}
use walflux_postgres_increme.Database.Session.{
  Context, Session, pure, raise, lift, check, proceed, logged, ◌>>=◌, execute,
}
use walflux_postgres_increme.Bootstrap.Durable.{Durable, effect, aborted, after, Safe, AlwaysSafe}

pub now_Safe :
    (slot : Text) (views : List ViewSpec) (d : Durable) (log : List Event)
    → AlwaysSafe slot views d log
    → Safe views (after slot d log)
now_Safe slot views d [] h = h
now_Safe slot views d (e ∷ log) h = h.0

pub aborted-Safe : (views : List ViewSpec) (d : Durable) → Safe views d → Safe views (aborted d)
aborted-Safe views d h = h

module _ {D : Type 0} (server : (c : Command) → D → Result (Answer c) × D) (slot : Text)
    (views : List ViewSpec) (d₀ : Durable) where
  abbrev pub Keeps : (Durable → Type 0) → Context D → Type 0
  Keeps K s = AlwaysSafe slot views d₀ s.log × K (after slot d₀ s.log)

  abbrev pub Post : {A : Type 0} → (A → Durable → Type 0) → Result A × Context D → Type 0
  Post Q (ok a, s) = Keeps (Q a) s
  Post Q (err e, s) = AlwaysSafe slot views d₀ s.log

  pub record Triple {A : Type 0} (K : Durable → Type 0) (m : Session D A) (Q : A → Durable → Type 0)
      : Type 0 where
    pub run : (s : Context D) → Keeps K s → Post Q (m s)

  proceed-Post :
      {A B : Type 0} (Q : A → Durable → Type 0) (R : B → Durable → Type 0) (f : A → Session D B)
      (r : Result A × Context D)
      → Post Q r
      → ((a : A) → Triple (Q a) (f a) R)
      → Post R (proceed f r)
  proceed-Post Q R f (ok a, s) h k = (k a).run s h
  proceed-Post Q R f (err e, s) h k = h

  pub bind-Triple :
      {A B : Type 0} {K : Durable → Type 0} {Q : A → Durable → Type 0} {R : B → Durable → Type 0}
      {m : Session D A} {f : A → Session D B}
      → Triple K m Q
      → ((a : A) → Triple (Q a) (f a) R)
      → Triple K (m >>= f) R
  bind-Triple {Q = Q} {R = R} {m = m} {f = f} h k = record {
    run = λ s keep. proceed-Post Q R f (m s) (h.run s keep) k;
  }

  logged-Post :
      (K : Durable → Type 0) (c : Command) (Q : Answer c → Durable → Type 0) (s : Context D)
      (r : Result (Answer c) × D)
      → Keeps K s
      → ((a : Answer c) (d : Durable) → K d → Q a (effect slot (done c a) d))
      → ((a : Answer c) (d : Durable) → K d → Safe views d → Safe views (effect slot (done c a) d))
      → Post Q (logged c s r)
  logged-Post K c Q s (ok a, db) keep step safe =
      let d = after slot d₀ s.log in
      ((safe a d keep.1 (now_Safe slot views d₀ s.log keep.0), keep.0), step a d keep.1)
  logged-Post K c Q s (err e, db) keep step safe =
      (aborted-Safe views (after slot d₀ s.log) (now_Safe slot views d₀ s.log keep.0), keep.0)

  pub execute-Triple :
      {K : Durable → Type 0} (c : Command) (Q : Answer c → Durable → Type 0)
      → ((a : Answer c) (d : Durable) → K d → Q a (effect slot (done c a) d))
      → ((a : Answer c) (d : Durable) → K d → Safe views d → Safe views (effect slot (done c a) d))
      → Triple K (execute server c) Q
  execute-Triple {K = K} c Q step safe = record {
    run = λ s keep. logged-Post K c Q s (server c s.db) keep step safe;
  }

  -- A command without an effect that counts here.
  pub calm-Triple :
      {K : Durable → Type 0} (c : Command)
      → ((a : Answer c) (d : Durable) → effect slot (done c a) d ≡ d)
      → Triple K (execute server c) (λ a. K)
  calm-Triple {K = K} c calm =
      execute-Triple c (λ a. K) (λ a d k. rw (calm a d) k) (λ a d k safe. rw (calm a d) safe)

  pub pure-Triple :
      {A : Type 0} {K : Durable → Type 0} (a : A) → Triple K (pure a) (λ b d. (b ≡ a) × K d)
  pure-Triple a = record { run = λ s keep. (keep.0, (refl, keep.1)) }

  pub return-Triple : {A : Type 0} {K : Durable → Type 0} (a : A) → Triple K (pure a) (λ _. K)
  return-Triple a = record { run = λ s keep. keep }

  pub raise-Triple :
      {A : Type 0} {K : Durable → Type 0} {Q : A → Durable → Type 0} (e : Error)
      → Triple K (raise e) Q
  raise-Triple e = record { run = λ s keep. keep.0 }

  pub lift-Triple :
      {A : Type 0} {K : Durable → Type 0} (r : Result A)
      → Triple K (lift r) (λ a d. (r ≡ ok a) × K d)
  lift-Triple (ok a) = record { run = λ s keep. (keep.0, (refl, keep.1)) }
  lift-Triple (err e) = record { run = λ s keep. keep.0 }

  pub check-Triple :
      {K : Durable → Type 0} (wrong : Bool) (e : Error) → Triple K (check wrong e) (λ _. K)
  check-Triple true e = record { run = λ s keep. keep.0 }
  check-Triple false e = record { run = λ s keep. keep }

  weaken-Post :
      {A : Type 0} (Q R : A → Durable → Type 0) (r : Result A × Context D)
      → ((a : A) (d : Durable) → Q a d → R a d)
      → Post Q r
      → Post R r
  weaken-Post Q R (ok a, s) h keep = (keep.0, h a (after slot d₀ s.log) keep.1)
  weaken-Post Q R (err e, s) h keep = keep

  pub weaken-Triple :
      {A : Type 0} {K L : Durable → Type 0} {Q R : A → Durable → Type 0} {m : Session D A}
      → ((d : Durable) → L d → K d)
      → Triple K m Q
      → ((a : A) (d : Durable) → Q a d → R a d)
      → Triple L m R
  weaken-Triple {Q = Q} {R = R} {m = m} g t h = record {
    run = λ s keep. weaken-Post Q R (m s) h (t.run s (keep.0, g (after slot d₀ s.log) keep.1));
  }
