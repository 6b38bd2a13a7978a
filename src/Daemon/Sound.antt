-- ===== src/Daemon/Sound.antt =====
-- walflux/daemon.py: what `_loop` keeps between two items of the stream.
use walflux_postgres_increme.Prelude.{
  ℕ, ◌≡◌, refl, sym, ◌∙◌, ap, Bool, true, false, List, [], ◌∷◌, ◌++◌, Option, none, some, Text, ltb,
  if◌then◌else◌, Result, raised_or, either, ok, >>=-ok, ok-injective, Bool-cases, inl, inr,
}
use walflux_postgres_increme.Aggregates.Statements.{Statement}
use walflux_postgres_increme.Protocol.Message.{
  Message, Relation, begin, commit, relation, insert, update, delete, truncate, origin, type_info,
}
use walflux_postgres_increme.Daemon.Op.{Op, SealedTxn}
use walflux_postgres_increme.Config.{Config}
use walflux_postgres_increme.Daemon.State.{Daemon, member_id}
use walflux_postgres_increme.Daemon.Rows.{
  on_relation, resolve_relation, check_views, column_names, truncate_ops,
}
use walflux_postgres_increme.Daemon.Flush.{World, last_lsn, batch_statements, flush, ack}
use walflux_postgres_increme.Aggregates.Spec.{ViewSpec}
use walflux_postgres_increme.Daemon.Loop.{
  buffer, opened, first_arrival, Loop, is_pending, seal, flush_pending, on_commit, on_row,
  on_message,
}
use walflux_postgres_increme.Daemon.Flush

abbrev is_set : Option ℕ → Bool
is_set none = false
is_set (some _) = true

-- An arrival time is kept exactly while a transaction is pending, and the checkpoint in memory is the
-- durable one. The configuration stays what it was.
pub record IsSound {D : Type 0} (config : Config) (l : Loop D) : Type 0 where
  pub timed : is_set l.oldest ≡ is_pending l.pending
  pub current : l.daemon.checkpoint_lsn ≡ l.world.checkpoint
  pub configured : l.daemon.config ≡ config

resolve_relation-same :
    (rel : Relation) (views : List ViewSpec) (d d' : Daemon)
    → resolve_relation rel views d ≡ ok d'
    → (d'.checkpoint_lsn ≡ d.checkpoint_lsn) × (d'.config ≡ d.config)
unfolding resolve_relation
resolve_relation-same rel [] d d' e =
    let (_, same) = raised_or _ (member_id rel.rel_id d.view_rel_ids) e in rw (← same) (refl, refl)
resolve_relation-same rel (v ∷ vs) d d' e =
    let (_, _, e₁) = >>=-ok (check_views (column_names rel.columns) (v ∷ vs)) _ e in
    rw (← ok-injective e₁) (refl, refl)

pub on_relation-same :
    (rel : Relation) (d d' : Daemon)
    → on_relation rel d ≡ ok d'
    → (d'.checkpoint_lsn ≡ d.checkpoint_lsn) × (d'.config ≡ d.config)
unfolding on_relation
on_relation-same rel d d' e = resolve_relation-same rel _ _ d' e

not_pending : (ts : List SealedTxn) → is_pending ts ≡ false → ts ≡ []
not_pending [] e = refl
not_pending (t ∷ ts) e = cc

is_pending-snoc : (ts : List SealedTxn) (t : SealedTxn) → is_pending (ts ++ t ∷ []) ≡ true
is_pending-snoc [] t = refl
is_pending-snoc (u ∷ ts) t = refl

first_arrival-is_set : (oldest : Option ℕ) (now : ℕ) → is_set (first_arrival true oldest now) ≡ true
first_arrival-is_set none now = refl
first_arrival-is_set (some t) now = refl

timed-seal :
    (end_lsn : ℕ) (ops : List Op) (cp now : ℕ) (pending : List SealedTxn) (oldest : Option ℕ)
    → is_set oldest ≡ is_pending pending
    → is_set (first_arrival (ltb cp end_lsn) oldest now) ≡ is_pending (seal end_lsn ops cp pending)
unfolding seal
timed-seal end_lsn ops cp now pending oldest h = elim (Bool-cases (ltb cp end_lsn)) [
  | inl e ↦ rw (e, is_pending-snoc pending, first_arrival-is_set oldest now) refl
  | inr e ↦ rw e h
]

module _ {D : Type 0} (exec : Statement → D → D) where
  flush-checkpoint :
      (views : List ViewSpec) (pending : List SealedTxn) (w w' : World D) (lsn : ℕ)
      → flush exec views pending w ≡ ok w'
      → last_lsn pending ≡ ok lsn
      → w'.checkpoint ≡ lsn
  unfolding flush Flush.commit ack
  flush-checkpoint views pending w w' lsn e last =
      let (w₁, committed, e₁) = >>=-ok (Flush.commit exec views pending w) _ e in
      let (lsn₁, last₁, e₂) = >>=-ok (last_lsn pending) _ e₁ in
      let (ss, _, e₃) = >>=-ok (batch_statements views pending) _ committed in
      let (lsn₂, last₂, e₄) = >>=-ok (last_lsn pending) _ e₃ in
      ap (λ (v : World D). v.checkpoint) (sym (ok-injective e₂))
      ∙ ap (λ (v : World D). v.checkpoint) (sym (ok-injective e₄))
      ∙ ok-injective (sym last₂ ∙ last)

  module _ (to_float : Text → Result Text) where
    pub flush_pending-IsSound :
        (config : Config) (l l' : Loop D)
        → IsSound config l
        → flush_pending to_float exec l ≡ ok l'
        → IsSound config l' × (l'.pending ≡ [])
    unfolding flush_pending
    flush_pending-IsSound config l l' h e =
        let (w, flushed, e₁) = >>=-ok (flush exec l.daemon.config.views l.pending l.world) _ e in
        let (lsn, last, e₂) = >>=-ok (last_lsn l.pending) _ e₁ in
        rw (← ok-injective e₂) (
          record {
            timed = refl;
            current =
                sym (flush-checkpoint l.daemon.config.views l.pending l.world w lsn flushed last);
            configured = h.configured;
          },
          refl,
        )

    pub flush_all :
        (config : Config) (l l' : Loop D)
        → IsSound config l
        → (if is_pending l.pending then flush_pending to_float exec l else ok l) ≡ ok l'
        → IsSound config l' × (l'.pending ≡ [])
    flush_all config l l' h e = elim (either (is_pending l.pending) e) [
      | inl (_, flushed) ↦ flush_pending-IsSound config l l' h flushed
      | inr (idle, same) ↦ rw (← ok-injective same) (h, not_pending l.pending idle)
    ]

    on_row-IsSound :
        (config : Config) (resolved : Result (List Op)) (l l' : Loop D)
        → IsSound config l
        → on_row to_float exec resolved l ≡ ok l'
        → IsSound config l'
    unfolding on_row
    on_row-IsSound config resolved l l' h e =
        let (ops, _, e₁) = >>=-ok (buffer l.open_ops) _ e in
        let (more, _, e₂) = >>=-ok resolved _ e₁ in
        rw (← ok-injective e₂)
          (record { timed = h.timed; current = h.current; configured = h.configured })

    on_commit-IsSound :
        (config : Config) (end_lsn now : ℕ) (l : Loop D)
        → IsSound config l
        → IsSound config (on_commit to_float exec end_lsn now l)
    unfolding on_commit seal
    on_commit-IsSound config end_lsn now l h = record {
      timed =
          timed-seal end_lsn (opened l.open_ops) l.daemon.checkpoint_lsn now l.pending l.oldest
            h.timed;
      current = h.current;
      configured = h.configured;
    }

    pub on_message-IsSound :
        (config : Config) (msg : Message) (now : ℕ) (l l' : Loop D)
        → IsSound config l
        → on_message to_float exec msg now l ≡ ok l'
        → IsSound config l'
    unfolding on_message
    on_message-IsSound config (begin _ _ _) now l l' h e =
        rw (← ok-injective e)
          (record { timed = h.timed; current = h.current; configured = h.configured })
    on_message-IsSound config (commit _ _ end_lsn _) now l l' h e =
        rw (← ok-injective e) (on_commit-IsSound config end_lsn now l h)
    on_message-IsSound config (relation rel) now l l' h e =
        let (d, seen, e₁) = >>=-ok (on_relation rel l.daemon) _ e in
        let (same, kept) = on_relation-same rel l.daemon d seen in
        rw (← ok-injective e₁)
          (record { timed = h.timed; current = same ∙ h.current; configured = kept ∙ h.configured })
    on_message-IsSound config (insert rel_id new) now l l' h e = on_row-IsSound config _ l l' h e
    on_message-IsSound config (update rel_id old key new) now l l' h e =
        on_row-IsSound config _ l l' h e
    on_message-IsSound config (delete rel_id old key) now l l' h e =
        on_row-IsSound config _ l l' h e
    on_message-IsSound config (truncate _ rel_ids) now l l' h e =
        on_row-IsSound config (ok (truncate_ops l.daemon rel_ids)) l l' h e
    on_message-IsSound config (origin _ _) now l l' h e = rw (← ok-injective e) h
    on_message-IsSound config (type_info _ _ _) now l l' h e = rw (← ok-injective e) h
