-- ===== src/Daemon/Refines.antt =====
-- walflux/daemon.py: `_loop`, message by message, against the sessions of Daemon/ExactlyOnce.
use walflux_postgres_increme.Prelude.{
  ℕ, ◌≤◌, ◌<◌, append-nil, ◌≡◌, refl, sym, ◌∙◌, ap, Option, none, some, List, [], ◌∷◌, ◌++◌,
  append_assoc, Text, if◌then◌else◌, Result, ok, err, >>=-ok, ok-injective, inl, inr, either,
}
use walflux_postgres_increme.Aggregates.Statements.{Statement}
use walflux_postgres_increme.Protocol.Message.{
  Message, begin, commit, relation, insert, update, delete, truncate, origin, type_info,
}
use walflux_postgres_increme.Protocol.Decode.{decode_message}
use walflux_postgres_increme.Daemon.Op.{Op, SealedTxn}
use walflux_postgres_increme.Config.{Config}
use walflux_postgres_increme.Daemon.State.{start}
use walflux_postgres_increme.Daemon.Rows.{on_relation, truncate_ops}
use walflux_postgres_increme.Daemon.Flush.{World, last_lsn, flush, ack}
use walflux_postgres_increme.Daemon.Loop.{
  buffer, opened, Item, wake, payload, Loop, is_pending, is_due, flush_pending, on_commit, on_row,
  on_message, on_payload, on_item, run_items, begin_loop,
}
use walflux_postgres_increme.Daemon.Sound.{IsSound, on_relation-same, on_message-IsSound}
use walflux_postgres_increme.Daemon.Bounds.{on_item-Bounded, run_items-flushed}
use walflux_postgres_increme.Daemon.ExactlyOnce.{
  Phase, down, streaming, Step, deliver, commits, acks, Reach, here, next, concat, Applied,
  Reach-Inv,
}
use walflux_postgres_increme.Daemon.Newer.{newer, Below, Increasing}
use walflux_postgres_increme.Daemon.Flush
use walflux_postgres_increme.Daemon.Sent.{
  resolved, events_after, completed, completed_in, after_item,
}

-- The session that a loop is in, with the transactions that the server has yet to send.
abbrev pub session : {D : Type 0} → Loop D → List SealedTxn → World D × Phase
session l rest = (l.world, streaming rest l.daemon.checkpoint_lsn l.pending)

module _ (to_float : Text → Result Text) {D : Type 0} (exec : Statement → D → D) where
  -- All the transactions that the messages complete. Of the loop it takes the relations that the
  -- daemon knows at each item, not the buffer.
  unfoldable pub delivered : List Item → Loop D → List Op → List SealedTxn
  delivered [] l events = []
  delivered (item ∷ items) l events =
      completed_in item events ++ elim (on_item to_float exec item l) [
        | ok l' ↦ delivered items l' (after_item to_float l.daemon item events)
        | err _ ↦ []
      ]

  module _ (config : Config) (wal : List SealedTxn) where
    abbrev Reaches : World D × Phase → World D × Phase → Type 0
    Reaches s t = Reach exec config.views wal s t

    opened-buffer : (o : Option (List Op)) (ops : List Op) → buffer o ≡ ok ops → opened o ≡ ops
    opened-buffer none ops e = cc
    opened-buffer (some x) ops e = ok-injective e

    Reach-trans : {s t u : World D × Phase} → Reaches s t → Reaches t u → Reaches s u
    Reach-trans r here = r
    Reach-trans r (next q step) = next (Reach-trans r q) step

    flush_pending-Reach :
        (l l' : Loop D) (rest : List SealedTxn)
        → IsSound config l
        → flush_pending to_float exec l ≡ ok l'
        → Reaches (session l rest) (session l' rest)
    unfolding flush_pending flush
    flush_pending-Reach l l' rest h e =
        let (w, flushed, e₁) = >>=-ok (flush exec l.daemon.config.views l.pending l.world) _ e in
        let (lsn, last, e₂) = >>=-ok (last_lsn l.pending) _ e₁ in
        let (w₁, committed, e₃) =
          >>=-ok (Flush.commit exec l.daemon.config.views l.pending l.world) _ flushed in
        let (lsn₁, last₁, e₄) = >>=-ok (last_lsn l.pending) _ e₃ in
        let same : lsn₁ ≡ lsn = ok-injective (sym last₁ ∙ last) in
        let told : ack exec lsn w₁ ≡ w = rw (← same) (ok-injective e₄) in
        rw (← ok-injective e₂, ← told)
          (next
            (next here (
              commits l.world w₁ rest l.pending l.daemon.checkpoint_lsn lsn
                (rw (← h.configured) committed) last))
            (acks w₁ rest lsn))

    on_row-opened :
        (found : Result (List Op)) (l l' : Loop D)
        → on_row to_float exec found l ≡ ok l'
        → opened l'.open_ops ≡ opened l.open_ops ++ resolved found
    unfolding on_row
    on_row-opened found l l' e =
        let (ops, buffered, e₁) = >>=-ok (buffer l.open_ops) _ e in
        let (more, known, e₂) = >>=-ok found _ e₁ in
        rw (← ok-injective e₂, known, opened-buffer l.open_ops ops buffered) refl

    on_message-opened :
        (msg : Message) (now : ℕ) (l l' : Loop D)
        → on_message to_float exec msg now l ≡ ok l'
        → opened l'.open_ops ≡ events_after to_float l.daemon msg (opened l.open_ops)
    unfolding on_message on_commit
    on_message-opened (begin _ _ _) now l l' e = rw (← ok-injective e) refl
    on_message-opened (commit _ _ _ _) now l l' e = rw (← ok-injective e) refl
    on_message-opened (relation rel) now l l' e =
        let (d, seen, e₁) = >>=-ok (on_relation rel l.daemon) _ e in
        rw (← ok-injective e₁, append-nil (opened l.open_ops)) refl
    on_message-opened (insert rel_id new) now l l' e = on_row-opened _ l l' e
    on_message-opened (update rel_id old key new) now l l' e = on_row-opened _ l l' e
    on_message-opened (delete rel_id old key) now l l' e = on_row-opened _ l l' e
    on_message-opened (truncate _ rel_ids) now l l' e =
        on_row-opened (ok (truncate_ops l.daemon rel_ids)) l l' e
    on_message-opened (origin _ _) now l l' e =
        rw (← ok-injective e, append-nil (opened l.open_ops)) refl
    on_message-opened (type_info _ _ _) now l l' e =
        rw (← ok-injective e, append-nil (opened l.open_ops)) refl

    flush_pending-opened :
        (l l' : Loop D)
        → flush_pending to_float exec l ≡ ok l'
        → opened l'.open_ops ≡ opened l.open_ops
    unfolding flush_pending
    flush_pending-opened l l' e =
        let (w, _, e₁) = >>=-ok (flush exec l.daemon.config.views l.pending l.world) _ e in
        let (lsn, _, e₂) = >>=-ok (last_lsn l.pending) _ e₁ in rw (← ok-injective e₂) refl

    on_item-opened :
        (item : Item) (l l' : Loop D)
        → on_item to_float exec item l ≡ ok l'
        → opened l'.open_ops ≡ after_item to_float l.daemon item (opened l.open_ops)
    unfolding on_item on_payload
    on_item-opened wake l l' e = elim (either (is_pending l.pending) e) [
      | inl (_, flushed) ↦ flush_pending-opened l l' flushed
      | inr (_, same) ↦ rw (← ok-injective same) refl
    ]
    on_item-opened (payload bytes now) l l' e =
        let (msg, decoded, e₁) = >>=-ok (decode_message bytes) _ e in
        let (l₁, handled, e₂) = >>=-ok (on_message to_float exec msg now l) _ e₁ in
        let kept = on_message-opened msg now l l₁ handled in
        rw decoded (elim (either (is_due l₁.daemon.config l₁.pending l₁.oldest now) e₂) [
          | inl (_, flushed) ↦ flush_pending-opened l₁ l' flushed ∙ kept
          | inr (_, same) ↦ rw (← ok-injective same) kept
        ])

    on_row-Reach :
        (found : Result (List Op)) (l l' : Loop D) (rest : List SealedTxn)
        → on_row to_float exec found l ≡ ok l'
        → Reaches (session l rest) (session l' rest)
    unfolding on_row
    on_row-Reach found l l' rest e =
        let (ops, _, e₁) = >>=-ok (buffer l.open_ops) _ e in
        let (more, _, e₂) = >>=-ok found _ e₁ in rw (← ok-injective e₂) here

    on_message-Reach :
        (msg : Message) (now : ℕ) (l l' : Loop D) (rest : List SealedTxn)
        → on_message to_float exec msg now l ≡ ok l'
        → Reaches (session l (completed msg (opened l.open_ops) ++ rest)) (session l' rest)
    unfolding on_message on_commit
    on_message-Reach (begin _ _ _) now l l' rest e = rw (← ok-injective e) here
    on_message-Reach (commit _ _ end_lsn _) now l l' rest e = rw (← ok-injective e) (
        next here (
          deliver l.world (record { end_lsn = end_lsn; ops = opened l.open_ops }) rest l.pending
            l.daemon.checkpoint_lsn))
    on_message-Reach (relation rel) now l l' rest e =
        let (d, seen, e₁) = >>=-ok (on_relation rel l.daemon) _ e in
        let (same, _) = on_relation-same rel l.daemon d seen in
        rw (← ok-injective e₁) (rw same here)
    on_message-Reach (insert rel_id new) now l l' rest e = on_row-Reach _ l l' rest e
    on_message-Reach (update rel_id old key new) now l l' rest e = on_row-Reach _ l l' rest e
    on_message-Reach (delete rel_id old key) now l l' rest e = on_row-Reach _ l l' rest e
    on_message-Reach (truncate _ rel_ids) now l l' rest e =
        on_row-Reach (ok (truncate_ops l.daemon rel_ids)) l l' rest e
    on_message-Reach (origin _ _) now l l' rest e = rw (← ok-injective e) here
    on_message-Reach (type_info _ _ _) now l l' rest e = rw (← ok-injective e) here

    flush_all-Reach :
        (l l' : Loop D) (rest : List SealedTxn)
        → IsSound config l
        → (if is_pending l.pending then flush_pending to_float exec l else ok l) ≡ ok l'
        → Reaches (session l rest) (session l' rest)
    flush_all-Reach l l' rest h e = elim (either (is_pending l.pending) e) [
      | inl (_, flushed) ↦ flush_pending-Reach l l' rest h flushed
      | inr (_, same) ↦ rw (← ok-injective same) here
    ]

    on_item-Reach :
        (item : Item) (l l' : Loop D) (rest : List SealedTxn)
        → IsSound config l
        → on_item to_float exec item l ≡ ok l'
        → Reaches (session l (completed_in item (opened l.open_ops) ++ rest)) (session l' rest)
    unfolding on_item on_payload
    on_item-Reach wake l l' rest h e = flush_all-Reach l l' rest h e
    on_item-Reach (payload bytes now) l l' rest h e =
        let (msg, decoded, e₁) = >>=-ok (decode_message bytes) _ e in
        let (l₁, handled, e₂) = >>=-ok (on_message to_float exec msg now l) _ e₁ in
        let h₁ = on_message-IsSound exec to_float config msg now l l₁ h handled in
        let first = on_message-Reach msg now l l₁ rest handled in
        rw decoded (elim (either (is_due l₁.daemon.config l₁.pending l₁.oldest now) e₂) [
          | inl (_, flushed) ↦ Reach-trans first (flush_pending-Reach l₁ l' rest h₁ flushed)
          | inr (_, same) ↦ rw (← ok-injective same) first
        ])

    -- A loop that raises nothing goes through a session of the step machine: from its state with the
    -- transactions that its items complete still to be sent, to its last state with none of them left,
    -- on condition that it begins in a sound state and `batch_max_txns` is positive.
    pub run_items-Reach :
        (items : List Item) (l l' : Loop D) (rest : List SealedTxn)
        → 0 < config.batch_max_txns
        → IsSound config l
        → run_items to_float exec items l ≡ ok l'
        → Reaches (session l (delivered items l (opened l.open_ops) ++ rest)) (session l' rest)
    unfolding run_items delivered
    run_items-Reach [] l l' rest some_txns h e = flush_all-Reach l l' rest h e
    run_items-Reach (item ∷ items) l l' rest some_txns h e =
        let (l₁, handled, e₁) = >>=-ok (on_item to_float exec item l) _ e in
        let (h₁, _) = on_item-Bounded exec to_float config item l l₁ some_txns h handled in
        let more = delivered items l₁ (opened l₁.open_ops) in
        rw
          (
            handled,
            ← on_item-opened item l l₁ handled,
            append_assoc (completed_in item (opened l.open_ops)) more rest,
          )
          (Reach-trans (on_item-Reach item l l₁ (more ++ rest) h handled)
            (run_items-Reach items l₁ l' rest some_txns h₁ e₁))

    begin_loop-IsSound : (w : World D) → IsSound config (begin_loop config w)
    unfolding start
    begin_loop-IsSound w = record { timed = refl; current = refl; configured = refl }

    -- A whole session: let the server send the transactions of a log in commit order, each as its Begin,
    -- row messages and Commit, from where it was
    -- told they are acknowledged, and let the loop raise nothing. Then the target has, applied batch by
    -- batch, exactly the transactions of the log above the checkpoint that the session read, each once
    -- and in order, and none is left above the checkpoint row.
    pub run_items-exactly_once :
        (w : World D) (before : List SealedTxn) (items : List Item) (l' : Loop D)
        → Increasing wal
        → w.acked ≤ w.checkpoint
        → 0 < config.batch_max_txns
        → wal ≡ before ++ delivered items (begin_loop config w) []
        → Below w.acked before
        → run_items to_float exec items (begin_loop config w) ≡ ok l'
        → (bs : List (List SealedTxn)) × (concat bs ≡ newer w.checkpoint wal)
          × Applied exec config.views wal w.db bs l'.world.db
          × (newer l'.world.checkpoint wal ≡ [])
    unfolding start
    run_items-exactly_once w before items l' inc told some_txns sent done e =
        let sound = begin_loop-IsSound w in
        let (sound', none_left) =
          run_items-flushed exec to_float config items (begin_loop config w) l' some_txns sound e in
        let first : Reaches (w, down)
            (session (begin_loop config w) (delivered items (begin_loop config w) [] ++ [])) =
          next here
            (Step.start w before _ (sent ∙ ap (λ ts. before ++ ts) (sym (append-nil _))) done) in
        let r =
          Reach-trans first (run_items-Reach items (begin_loop config w) l' [] some_txns sound e) in
        let ((bs, sums, applied), _, (same, split)) =
          Reach-Inv exec config.views wal w inc told r in
        let empty : newer l'.world.checkpoint wal ≡ [] =
          ap (λ cp. newer cp wal) (sym sound'.current)
          ∙ sym split
          ∙ ap (λ ts. ts ++ []) none_left in
        (
          bs,
          sym (append-nil (concat bs)) ∙ ap (λ ts. concat bs ++ ts) (sym empty) ∙ sums,
          applied,
          empty,
        )
