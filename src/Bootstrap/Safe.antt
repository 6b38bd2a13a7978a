-- ===== src/Bootstrap/Safe.antt =====
-- walflux/bootstrap.py: `setup` keeps the database safe after each of its commands, so that a crash at
-- any point leaves no stale checkpoint row beside the new slot.
use walflux_postgres_increme.Prelude.{
  ◌≡◌, refl, sym, ◌=t◌, =t_refl, raised_or, walflux_error, subst, Option, none, some, Bool, true,
  false, List, [], Text, Error, Result, ok, err, setup_error, inl, inr, if◌then◌else◌,
}
use walflux_postgres_increme.Prelude.Int.{ℤ}
use walflux_postgres_increme.Common.Ident.{quote_ident}
use walflux_postgres_increme.Config.{Config}
use walflux_postgres_increme.Database.Command.{
  Command, Answer, Event, create_slot, close, close_replication,
}
use walflux_postgres_increme.Database.Session.{
  Context, pure, raise, catch, handled, cleaned, execute,
}
use walflux_postgres_increme.Bootstrap.Slot.{create_replication_slot, exported}
use walflux_postgres_increme.Bootstrap.Setup.{handshake, close_all, setup, hint_privilege}
use walflux_postgres_increme.Bootstrap.Durable.{
  Durable, aborted, after, given, quoted, Safe, AlwaysSafe,
}
use walflux_postgres_increme.Bootstrap.Triple.{
  Triple, Post, bind-Triple, execute-Triple, calm-Triple, raise-Triple, lift-Triple,
}
use walflux_postgres_increme.Bootstrap.Calm.{
  Before, Ready, prepare-Ready, connect_walsender-Calm, connect_regular-Calm,
}
use walflux_postgres_increme.Bootstrap.Filling.{Created, Settled, fact-Triple, fill-Settled}

quoted_name : (slot name : Text) → quote_ident slot ≡ ok name → name ≡ quoted slot
unfolding quote_ident
quoted_name slot name e = sym (raised_or walflux_error _ e).1

module _ {D : Type 0} (server : (c : Command) → D → Result (Answer c) × D) (config : Config)
    (d₀ : Durable) where
  abbrev Made : Option (Text × Text) → Durable → Type 0
  Made none = Ready
  Made (some made) = Created made

  given-Made : (row : Option (Text × Text)) (d : Durable) → Ready d → Made row (given d row)
  given-Made none d k = k
  given-Made (some made) d k = (refl, k.3, k.1)

  given-Safe :
      (row : Option (Text × Text)) (d : Durable) → Ready d → Safe config.views (given d row)
  given-Safe none d k = inl (k.0, k.2)
  given-Safe (some made) d k = inr (made, refl, inl k.3)

  create-Made :
      (name : Text)
      → quote_ident config.slot ≡ ok name
      → Triple server config.slot config.views d₀ Ready (execute server (create_slot name)) Made
  create-Made name e =
      let own : (name =t quoted config.slot) ≡ true =
        rw (quoted_name config.slot name e) (=t_refl (quoted config.slot)) in
      execute-Triple server config.slot config.views d₀ (create_slot name) Made
        (λ row d k. rw own (given-Made row d k)) (λ row d k safe. rw own (given-Safe row d k))

  exported-Created :
      (row : Option (Text × Text))
      → Triple server config.slot config.views d₀ (Made row) (exported server row) Created
  exported-Created none = raise-Triple server config.slot config.views d₀ setup_error
  exported-Created (some made) = record { run = λ s keep. keep }

  slot-Created :
      Triple server config.slot config.views d₀ Ready
        (create_replication_slot server config.slot)
        Created
  slot-Created =
      bind-Triple server config.slot config.views d₀
        (lift-Triple server config.slot config.views d₀ (quote_ident config.slot))
        (λ name. fact-Triple server config.slot config.views d₀ (λ e.
          bind-Triple server config.slot config.views d₀ (create-Made name e) exported-Created))

  -- What a setup that raises nothing ends with.
  abbrev Complete : Text × List (Text × ℤ) → Durable → Type 0
  Complete r d = (snapshot : Text) × Settled config.views (r.0, snapshot) d

  finished :
      (made : Text × Text) (backfilled : List (Text × ℤ))
      → Triple server config.slot config.views d₀
          (Settled config.views made)
          (pure (made.0, backfilled))
          Complete
  finished made backfilled = record { run = λ s keep. (keep.0, (made.1, keep.1)) }

  handshake-Complete :
      (force : Bool)
      → Triple server config.slot config.views d₀ Before (handshake server config force) Complete
  handshake-Complete force =
      bind-Triple server config.slot config.views d₀ (prepare-Ready server config d₀ force) (λ _.
        bind-Triple server config.slot config.views d₀
          (connect_walsender-Calm server config d₀ Ready)
          (λ _. bind-Triple server config.slot config.views d₀ slot-Created (λ made.
            bind-Triple server config.slot config.views d₀ (fill-Settled server config d₀ made)
              (finished made))))

  handled-Post :
      {A : Type 0} (Q : A → Durable → Type 0) (h : Error → Error) (r : Result A × Context D)
      → Post server config.slot config.views d₀ Q r
      → Post server config.slot config.views d₀ Q (handled (λ e. raise (h e)) r)
  handled-Post Q h (ok a, s) keep = keep
  handled-Post Q h (err e, s) keep = keep

  -- Closing the connections discards an open transaction and nothing else.
  abbrev Stable : (Durable → Type 0) → Type 0
  Stable K = (d : Durable) → K d → K (aborted d)

  either-Post :
      {A : Type 0} (Q : A → Durable → Type 0) (q : Bool) (r r' : Result A × Context D)
      → Post server config.slot config.views d₀ Q r
      → Post server config.slot config.views d₀ Q r'
      → Post server config.slot config.views d₀ Q (if q then r else r')
  either-Post Q true r r' h h' = h
  either-Post Q false r r' h h' = h'

  close_all-Stable :
      (K : Durable → Type 0)
      → Stable K
      → Triple server config.slot config.views d₀ K (close_all server) (λ _. K)
  close_all-Stable K stable =
      bind-Triple server config.slot config.views d₀
        (record {
          run = λ s keep.
              either-Post (λ _. K) s.repl_conn _ _
                ((calm-Triple server config.slot config.views d₀ {K = K} close_replication
                    (λ a d. refl)).run
                  s keep)
                keep;
        })
        (λ _.
          execute-Triple server config.slot config.views d₀ close (λ _. K) (λ a d k. stable d k)
            (λ a d k safe. safe))

  cleaned-Post :
      {A : Type 0} (Q : A → Durable → Type 0) (r : Result A × Context D)
      → ((a : A) → Stable (Q a))
      → Post server config.slot config.views d₀ Q r
      → Post server config.slot config.views d₀ Q (cleaned (close_all server) r)
  cleaned-Post Q (ok a, s) stable keep =
      (bind-Triple server config.slot config.views d₀ {R = Q} (close_all-Stable (Q a) (stable a))
          (λ _. record { run = λ t k. k })).run
        s keep
  cleaned-Post Q (err e, s) stable keep =
      (bind-Triple server config.slot config.views d₀ {R = Q}
          (close_all-Stable (λ d. Unit) (λ d k. tt))
          (λ _. raise-Triple server config.slot config.views d₀ e)).run
        s (keep, tt)

  attempt :
      (force : Bool)
      → Triple server config.slot config.views d₀ Before (setup server config force) Complete
  attempt force =
      bind-Triple server config.slot config.views d₀ (connect_regular-Calm server config d₀ Before)
        (λ _. record {
          run = λ s keep.
              cleaned-Post Complete
                (catch (handshake server config force) (λ e. raise (hint_privilege e)) s)
                (λ a d k. k)
                (handled-Post Complete hint_privilege (handshake server config force s)
                  ((handshake-Complete force).run s keep));
        })

  starting :
      (log : List Event)
      → log ≡ []
      → d₀.slot ≡ none
      → d₀.running ≡ none
      → d₀.filled ≡ none
      → AlwaysSafe config.slot config.views d₀ log × Before (after config.slot d₀ log)
  starting log e slot running filled = rw e (inl (slot, filled), (slot, running, filled))

  safe_either :
      (r : Result (Text × List (Text × ℤ)) × Context D)
      → Post server config.slot config.views d₀ Complete r
      → AlwaysSafe config.slot config.views d₀ r.1.log
  safe_either (ok a, t) h = h.0
  safe_either (err e, t) h = h

  -- A run of `setup` that starts outside a transaction, and has not yet created the configured slot or
  -- filled a target, is safe after every command, whatever the database answers and wherever it raises:
  -- until the slot exists no target is filled, and from then on the checkpoint row of this slot is
  -- missing, or it is the consistent point of the slot and the targets of all views have been made and
  -- filled in the snapshot of the slot. Statements that name another slot have no effect on these.
  pub setup-AlwaysSafe :
      (force : Bool) (s : Context D)
      → s.log ≡ []
      → d₀.slot ≡ none
      → d₀.running ≡ none
      → d₀.filled ≡ none
      → AlwaysSafe config.slot config.views d₀ (setup server config force s).1.log
  setup-AlwaysSafe force s empty slot running filled =
      safe_either (setup server config force s)
        ((attempt force).run s (starting s.log empty slot running filled))

  -- If moreover it raises nothing, then afterwards the configured slot exists with the consistent
  -- point that it reports, the checkpoint row of this slot is that point, and the targets have been filled in the slot's snapshot.
  pub setup-Consistent :
      (force : Bool) (s s' : Context D) (r : Text × List (Text × ℤ))
      → s.log ≡ []
      → d₀.slot ≡ none
      → d₀.running ≡ none
      → d₀.filled ≡ none
      → setup server config force s ≡ (ok r, s')
      → (snapshot : Text) × Settled config.views (r.0, snapshot) (after config.slot d₀ s'.log)
  setup-Consistent force s s' r empty slot running filled returned =
      let settled =
        subst (Post server config.slot config.views d₀ Complete) returned
          ((attempt force).run s (starting s.log empty slot running filled)) in
      settled.1
