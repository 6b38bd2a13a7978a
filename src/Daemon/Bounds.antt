-- ===== src/Daemon/Bounds.antt =====
-- walflux/daemon.py, `_loop`: how many transactions wait between two items, and after the last one.
use walflux_postgres_increme.Prelude.{
  ℕ, ◌<◌, ◌≡◌, false, List, [], ◌∷◌, Option, length, Text, Result, either, ok, >>=-ok, ok-injective,
  arith, inl, inr,
}
use walflux_postgres_increme.Aggregates.Statements.{Statement}
use walflux_postgres_increme.Protocol.Decode.{decode_message}
use walflux_postgres_increme.Daemon.Op.{SealedTxn}
use walflux_postgres_increme.Config.{Config}
use walflux_postgres_increme.Daemon.Loop.{
  Item, wake, payload, Loop, is_due, on_message, on_payload, on_item, run_items,
}
use walflux_postgres_increme.Daemon.Sound.{
  IsSound, flush_pending-IsSound, flush_all, on_message-IsSound,
}

not_due :
    (config : Config) (pending : List SealedTxn) (oldest : Option ℕ) (now : ℕ)
    → 0 < config.batch_max_txns
    → is_due config pending oldest now ≡ false
    → length pending < config.batch_max_txns
unfolding is_due
not_due config [] oldest now some_txns e = some_txns
not_due config (t ∷ ts) oldest now some_txns e = ground arith

few_pending :
    (config config' : Config) (pending : List SealedTxn) (oldest : Option ℕ) (now : ℕ)
    → config' ≡ config
    → 0 < config.batch_max_txns
    → is_due config' pending oldest now ≡ false
    → length pending < config.batch_max_txns
few_pending config config' pending oldest now same some_txns e =
    not_due config pending oldest now some_txns (rw (← same) e)

module _ {D : Type 0} (exec : Statement → D → D) (to_float : Text → Result Text) where
  -- Between two items fewer than `batch_max_txns` transactions are pending.
  abbrev Bounded : Config → Loop D → Type 0
  Bounded config l = IsSound config l × (length l.pending < config.batch_max_txns)

  on_payload-Bounded :
      (config : Config) (bytes : List ℕ) (now : ℕ) (l l' : Loop D)
      → 0 < config.batch_max_txns
      → IsSound config l
      → on_payload to_float exec bytes now l ≡ ok l'
      → Bounded config l'
  unfolding on_payload
  on_payload-Bounded config bytes now l l' some_txns h e =
      let (msg, _, e₁) = >>=-ok (decode_message bytes) _ e in
      let (l₁, handled, e₂) = >>=-ok (on_message to_float exec msg now l) _ e₁ in
      let h₁ = on_message-IsSound exec to_float config msg now l l₁ h handled in
      elim (either (is_due l₁.daemon.config l₁.pending l₁.oldest now) e₂) [
        | inl (_, flushed) ↦
            let (h₂, none_left) = flush_pending-IsSound exec to_float config l₁ l' h₁ flushed in
            (h₂, rw none_left some_txns)
        | inr (later, same) ↦ rw (← ok-injective same) (
          h₁,
          few_pending config l₁.daemon.config l₁.pending l₁.oldest now h₁.configured some_txns
              later,
        )
      ]

  -- An item that is handled without an error leaves fewer than `batch_max_txns` transactions pending,
  -- an arrival time exactly while one is, the durable checkpoint in memory and the configuration, on
  -- condition that the last three held before and `batch_max_txns` is positive.
  pub on_item-Bounded :
      (config : Config) (item : Item) (l l' : Loop D)
      → 0 < config.batch_max_txns
      → IsSound config l
      → on_item to_float exec item l ≡ ok l'
      → Bounded config l'
  unfolding on_item
  on_item-Bounded config (payload bytes now) l l' some_txns h e =
      on_payload-Bounded config bytes now l l' some_txns h e
  on_item-Bounded config wake l l' some_txns h e =
      let (h', none_left) = flush_all exec to_float config l l' h e in (h', rw none_left some_txns)

  -- When the stream ends, a loop that raised nothing has flushed every sealed transaction, and it
  -- ends in a sound state, on condition that it began in one and `batch_max_txns` is positive.
  pub run_items-flushed :
      (config : Config) (items : List Item) (l l' : Loop D)
      → 0 < config.batch_max_txns
      → IsSound config l
      → run_items to_float exec items l ≡ ok l'
      → IsSound config l' × (l'.pending ≡ [])
  unfolding run_items
  run_items-flushed config [] l l' some_txns h e = flush_all exec to_float config l l' h e
  run_items-flushed config (item ∷ items) l l' some_txns h e =
      let (l₁, handled, e₁) = >>=-ok (on_item to_float exec item l) _ e in
      let (h₁, _) = on_item-Bounded config item l l₁ some_txns h handled in
      run_items-flushed config items l₁ l' some_txns h₁ e₁
