-- ===== src/Replication.antt =====
-- walflux/replication.py: `ReplicationStream`. The connection of psycopg2 and the clock are not part of
-- the repository: what they give in one round of the loop of `messages` is a `Poll`, in milliseconds.
use walflux_postgres_increme.Prelude.{
  ℕ, ◌+◌, ◌-◌, Option, none, some, Bool, true, false, not, ◌&&◌, ◌||◌, List, [], ◌∷◌, Text, leb,
  ltb, if◌then◌else◌, Result, ok, err, walflux_error,
}
pub mod Feedback
pub mod Wake

-- `_WAKE_SECONDS` and `_KEEPALIVE_SECONDS`
abbrev pub wake_default : ℕ
wake_default = 1000

abbrev pub keepalive : ℕ
keepalive = 10000

-- `sent` is what `send_feedback` has been called with, the latest first.
pub record Stream : Type 0 where
  pub flush_lsn : ℕ
  pub last_feedback : ℕ
  pub stopping : Bool
  pub closed : Bool
  pub sent : List ℕ

-- `__init__`: the text of the `OperationalError` if the connection is refused, and the clock.
unfoldable pub open_stream : Option Text → ℕ → Result Stream
open_stream (some refusal) now = err walflux_error
open_stream none now =
    ok (record { flush_lsn = 0; last_feedback = now; stopping = false; closed = false; sent = [] })

unfoldable pub send_feedback : ℕ → ℕ → Stream → Stream
send_feedback lsn now s = record s { last_feedback = now; sent = lsn ∷ s.sent }

unfoldable pub ack : ℕ → ℕ → Stream → Stream
unfolding send_feedback
ack lsn now s = send_feedback lsn now (record s { flush_lsn = lsn })

unfoldable pub stop : Stream → Stream
stop s = record s { stopping = true }

-- An exception of `close` on the cursor or the connection is passed over.
unfoldable pub close : Stream → Stream
close s = record s { stopping = true; closed = true }

unfoldable pub keepalive_if_due : ℕ → ℕ → Stream → Stream
unfolding send_feedback
keepalive_if_due checked now s =
    if leb (s.last_feedback + keepalive) checked then send_feedback s.flush_lsn now s else s

-- What one round sees: the message that is there, the clock where the code reads it, and whether a
-- signal handler has called `stop` since the round began.
pub record Poll : Type 0 where
  pub message : Option (ℕ × List ℕ)
  pub received : ℕ
  pub checked : ℕ
  pub reported : ℕ
  pub waiting : ℕ
  pub woken : ℕ
  pub yielded : ℕ
  pub interrupted : Bool

-- `messages`: the stream, its local variable `last_yield`, and what the rounds have yielded, the latest
-- first.
pub record Reading : Type 0 where
  pub stream : Stream
  pub last_yield : ℕ
  pub yields : List (Option (ℕ × List ℕ))

abbrev pub with_signal : Bool → Stream → Stream
with_signal interrupted s = record s { stopping = s.stopping || interrupted }

-- `select` only waits, and its timeout shows in the clock reading behind it, `woken`.
unfoldable pub poll_idle : ℕ → Poll → Reading → Reading
unfolding keepalive_if_due
poll_idle wake_after p r =
    let s = with_signal p.interrupted (keepalive_if_due p.checked p.reported r.stream) in
    if leb (r.last_yield + wake_after) p.woken && not s.stopping
    then record { stream = s; last_yield = p.yielded; yields = none ∷ r.yields }
    else record { stream = s; last_yield = r.last_yield; yields = r.yields }

unfoldable pub poll_message : Option (ℕ × List ℕ) → ℕ → Poll → Reading → Reading
unfolding poll_idle
poll_message none wake_after p r = poll_idle wake_after p r
poll_message (some m) wake_after p r = record {
  stream = with_signal p.interrupted r.stream;
  last_yield = p.received;
  yields = some m ∷ r.yields;
}

-- one round of `while not self._stopping`
unfoldable pub poll : ℕ → Poll → Reading → Reading
unfolding poll_message
poll wake_after p r = if r.stream.stopping then r else poll_message p.message wake_after p r

-- What happens to a stream: a round of `messages`, and calls of the consumer and of signal handlers,
-- in any order.
pub data Action : Type 0 where
  polled : Poll → Action
  acked : ℕ → ℕ → Action
  stopped : Action
  closed : Action

unfoldable pub act : ℕ → Action → Reading → Reading
unfolding poll ack stop close
act wake_after (polled p) r = poll wake_after p r
act wake_after (acked lsn now) r = record r { stream = ack lsn now r.stream }
act wake_after stopped r = record r { stream = stop r.stream }
act wake_after closed r = record r { stream = close r.stream }

unfoldable pub act_all : ℕ → List Action → Reading → Reading
unfolding act
act_all wake_after [] r = r
act_all wake_after (a ∷ as') r = act_all wake_after as' (act wake_after a r)
