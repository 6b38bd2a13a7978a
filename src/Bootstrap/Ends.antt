-- ===== src/Bootstrap/Ends.antt =====
-- What a session of commands has logged if it raises nothing.
use walflux_postgres_increme.Prelude.{◌≡◌, refl, List, ◌∷◌, Result, ok, err}
use walflux_postgres_increme.Database.Command.{Command, Answer, Event, done}
use walflux_postgres_increme.Database.Session.{Context, Session, proceed, logged, execute}

module _ {D : Type 0} where
  -- What holds if nothing is raised.
  abbrev pub Ends : {A : Type 0} → (A → List Event → Type 0) → Result A × Context D → Type 0
  Ends Q (ok a, s) = Q a s.log
  Ends Q (err e, s) = Unit

  pub then_Ends :
      {A B : Type 0} (Q : A → List Event → Type 0) (R : B → List Event → Type 0)
      (f : A → Session D B) (r : Result A × Context D)
      → Ends Q r
      → ((a : A) (s : Context D) → Q a s.log → Ends R (f a s))
      → Ends R (proceed f r)
  then_Ends Q R f (ok a, s) h k = k a s h
  then_Ends Q R f (err e, s) h k = tt

  logged-Ends :
      (c : Command) (s : Context D) (r : Result (Answer c) × D)
      → Ends (λ a log. log ≡ done c a ∷ s.log) (logged c s r)
  logged-Ends c s (ok a, db) = refl
  logged-Ends c s (err e, db) = tt

  pub execute-Ends :
      (server : (c : Command) → D → Result (Answer c) × D) (c : Command) (s : Context D)
      → Ends (λ a log. log ≡ done c a ∷ s.log) (execute server c s)
  execute-Ends server c s = logged-Ends c s (server c s.db)

  pub anything : {A : Type 0} (r : Result A × Context D) → Ends (λ _ _. Unit) r
  anything (ok a, s) = tt
  anything (err e, s) = tt

  pub ended :
      (Q : List Event → Type 0) (r : Result Unit × Context D)
      → Ends (λ _. Q) r
      → r.0 ≡ ok tt
      → Q r.1.log
  ended Q (ok u, s) h e = h
  ended Q (err x, s) h e = cc
