-- ===== src/Daemon/ExactlyOnce.antt =====
-- walflux/daemon.py across crashes: sessions of `run` over one log of source transactions. A session
-- starts after a prefix that the server takes as acknowledged, receives the rest in order, flushes when
-- it will, and may die between any two steps, the commit and the acknowledgement of a flush included.
use walflux_postgres_increme.Prelude.{
  ℕ, ◌≤◌, ◌≡◌, refl, sym, ◌∙◌, List, [], ◌∷◌, ◌++◌, append_assoc, append-nil, ok, >>=-ok,
  ok-injective, arith, ap, ltb, Bool-cases, inl, inr,
}
use walflux_postgres_increme.Aggregates.Spec.{ViewSpec}
use walflux_postgres_increme.Aggregates.Statements.{Statement}
use walflux_postgres_increme.Daemon.Op.{SealedTxn}
use walflux_postgres_increme.Daemon.Flush.{World, last_lsn, batch_statements, exec_all, commit, ack}
use walflux_postgres_increme.Daemon.Loop.{seal}
use walflux_postgres_increme.Daemon.Newer.{
  newer, Below, Increasing, newer-Increasing, newer-Above, newer-newer, newer-drop, newer-rest,
  last_lsn-Above,
}

-- Where a session is: what the server has yet to send, the checkpoint in memory and what is sealed.
pub data Phase : Type 0 where
  down : Phase
  streaming : (rest : List SealedTxn) (checkpoint_lsn : ℕ) (pending : List SealedTxn) → Phase
  -- after `conn.commit()`, before `stream.ack(end_lsn)`
  committed : (rest : List SealedTxn) (end_lsn : ℕ) → Phase

abbrev pub concat : List (List SealedTxn) → List SealedTxn
concat [] = []
concat (b ∷ bs) = b ++ concat bs

concat-snoc :
    (bs : List (List SealedTxn)) (b : List SealedTxn) → concat (bs ++ b ∷ []) ≡ concat bs ++ b
concat-snoc [] b = append-nil b
concat-snoc (c ∷ bs) b = ap (λ ts. c ++ ts) (concat-snoc bs b) ∙ sym (append_assoc c (concat bs) b)

Below-mono : (k n : ℕ) (ts : List SealedTxn) → k ≤ n → Below k ts → Below n ts
Below-mono k n [] le h = tt
Below-mono k n (t ∷ ts) le h = (omega arith, Below-mono k n ts le h.1)

sealed :
    (t : SealedTxn) (rest pending : List SealedTxn) (cp : ℕ)
    → seal t.end_lsn t.ops cp pending ++ newer cp rest ≡ pending ++ newer cp (t ∷ rest)
unfolding seal
sealed t rest pending cp = elim (Bool-cases (ltb cp t.end_lsn)) [
  | inl e ↦ rw e (append_assoc pending (t ∷ []) (newer cp rest))
  | inr e ↦ rw e refl
]

module _ {D : Type 0} (exec : Statement → D → D) (views : List ViewSpec)
    (wal : List SealedTxn) where
  pub data Step : World D × Phase → World D × Phase → Type 0 where
    start :
        (w : World D) (before rest : List SealedTxn)
        → wal ≡ before ++ rest
        → Below w.acked before
        → Step (w, down) (w, streaming rest w.checkpoint [])
    deliver :
        (w : World D) (t : SealedTxn) (rest pending : List SealedTxn) (cp : ℕ)
        → Step
            (w, streaming (t ∷ rest) cp pending)
            (w, streaming rest cp (seal t.end_lsn t.ops cp pending))
    commits :
        (w w' : World D) (rest pending : List SealedTxn) (cp lsn : ℕ)
        → commit exec views pending w ≡ ok w'
        → last_lsn pending ≡ ok lsn
        → Step (w, streaming rest cp pending) (w', committed rest lsn)
    acks :
        (w : World D) (rest : List SealedTxn) (lsn : ℕ)
        → Step (w, committed rest lsn) (ack exec lsn w, streaming rest lsn [])
    crash : (w : World D) (phase : Phase) → Step (w, phase) (w, down)

  pub data Reach (s : World D × Phase) : World D × Phase → Type 0 where
    here : Reach s s
    next : {t u : World D × Phase} → Reach s t → Step t u → Reach s u

  -- The database is what the statements of these batches make of it, one batch after the other.
  abbrev pub Applied : D → List (List SealedTxn) → D → Type 0
  Applied d [] d' = d' ≡ d
  Applied d (b ∷ bs) d' =
      (ss : List Statement) × (batch_statements views b ≡ ok ss)
      × Applied (exec_all exec ss d) bs d'

  Applied-snoc :
      (d d' : D) (bs : List (List SealedTxn)) (b : List SealedTxn) (ss : List Statement)
      → Applied d bs d'
      → batch_statements views b ≡ ok ss
      → Applied d (bs ++ b ∷ []) (exec_all exec ss d')
  Applied-snoc d d' [] b ss h e = (ss, e, ap (exec_all exec ss) h)
  Applied-snoc d d' (c ∷ bs) b ss (ss', e', h) e =
      (ss', e', Applied-snoc (exec_all exec ss' d) d' bs b ss h e)

  -- Batches of whole transactions applied in order, and those that the checkpoint leaves, make up all
  -- that was new at the beginning.
  abbrev pub Ledger : World D → World D → Type 0
  Ledger w₀ w =
      (bs : List (List SealedTxn)) × (concat bs ++ newer w.checkpoint wal ≡ newer w₀.checkpoint wal)
      × Applied w₀.db bs w.db

  abbrev pub InPhase : World D → Phase → Type 0
  InPhase w down = Unit
  InPhase w (streaming rest cp pending) =
      (cp ≡ w.checkpoint) × (pending ++ newer cp rest ≡ newer cp wal)
  InPhase w (committed rest lsn) = (lsn ≡ w.checkpoint) × (newer lsn rest ≡ newer lsn wal)

  abbrev pub Inv : World D → World D × Phase → Type 0
  Inv w₀ (w, phase) = Ledger w₀ w × (w.acked ≤ w.checkpoint) × InPhase w phase

  commit-Ledger :
      (w₀ w w' : World D) (rest pending : List SealedTxn) (lsn : ℕ)
      → Increasing wal
      → Inv w₀ (w, streaming rest w.checkpoint pending)
      → commit exec views pending w ≡ ok w'
      → last_lsn pending ≡ ok lsn
      → Inv w₀ (w', committed rest lsn)
  unfolding commit
  commit-Ledger w₀ w w' rest pending lsn inc ((bs, sums, applied), told, (_, split)) e last =
      let (ss, made, e₁) = >>=-ok (batch_statements views pending) _ e in
      let (lsn', last', e₂) = >>=-ok (last_lsn pending) _ e₁ in
      let same : lsn ≡ lsn' = ok-injective (sym last ∙ last') in
      let grown : Increasing (pending ++ newer w.checkpoint rest) =
        rw split (newer-Increasing w.checkpoint wal inc) in
      let (cut, kept) = newer-rest lsn pending (newer w.checkpoint rest) grown last in
      let later =
        last_lsn-Above w.checkpoint lsn pending (newer w.checkpoint rest)
          (rw split (newer-Above w.checkpoint wal)) last in
      let left : newer lsn wal ≡ newer w.checkpoint rest =
        sym (newer-newer w.checkpoint lsn wal (omega arith)) ∙ ap (newer lsn) (sym split) ∙ cut in
      let behind : newer lsn rest ≡ newer w.checkpoint rest =
        sym (newer-newer w.checkpoint lsn rest (omega arith)) ∙ kept in
      let done : w' ≡ record w { db = exec_all exec ss w.db; checkpoint = lsn' } =
        sym (ok-injective e₂) in
      rw (done, ← same)
        (
          (
            bs ++ pending ∷ [],
            rw (concat-snoc bs pending, left)
                (append_assoc (concat bs) pending (newer w.checkpoint rest)
                  ∙ ap (λ ts. concat bs ++ ts) split
                  ∙ sums),
            Applied-snoc w₀.db w.db bs pending ss applied made,
          ),
          omega arith,
          (refl, behind ∙ sym left),
        )

  Step-Inv :
      (w₀ : World D) {s t : World D × Phase} → Increasing wal → Step s t → Inv w₀ s → Inv w₀ t
  unfolding ack seal
  Step-Inv w₀ inc (start w before rest split done) (ledger, told, _) =
      let stale = Below-mono w.acked w.checkpoint before told done in
      (ledger, told, (refl, rw split (sym (newer-drop w.checkpoint before rest stale))))
  Step-Inv w₀ inc (deliver w t rest pending cp) (ledger, told, (same, split)) =
      (ledger, told, (same, sealed t rest pending cp ∙ split))
  Step-Inv w₀ inc (commits w w' rest pending cp lsn e last) (ledger, told, (same, split)) =
      commit-Ledger w₀ w w' rest pending lsn inc (ledger, told, (refl, rw (← same) split)) e last
  Step-Inv w₀ inc (acks w rest lsn) (ledger, told, (same, split)) =
      (ledger, omega arith, (same, split))
  Step-Inv w₀ inc (crash w phase) (ledger, told, _) = (ledger, told, tt)

  pub Reach-Inv :
      (w₀ : World D) {s : World D × Phase}
      → Increasing wal
      → w₀.acked ≤ w₀.checkpoint
      → Reach (w₀, down) s
      → Inv w₀ s
  Reach-Inv w₀ inc told here = (([], refl, refl), told, tt)
  Reach-Inv w₀ inc told (next r step) = Step-Inv w₀ inc step (Reach-Inv w₀ inc told r)

  -- Exactly once: however sessions start, flush and die over a log in commit order, the target is what
  -- it was with a sequence of batches of whole transactions applied, one after the other, and these
  -- batches, followed by the transactions of the log above the checkpoint row, are the transactions
  -- above the first checkpoint, each once and in order. The server is never told a position above the
  -- checkpoint row, on condition that it was not at the beginning.
  pub Reach-Ledger :
      (w₀ w : World D) (phase : Phase)
      → Increasing wal
      → w₀.acked ≤ w₀.checkpoint
      → Reach (w₀, down) (w, phase)
      → Ledger w₀ w × (w.acked ≤ w.checkpoint)
  Reach-Ledger w₀ w phase inc told r =
      let (ledger, kept, _) = Reach-Inv w₀ inc told r in (ledger, kept)
