-- ===== src/Replication/Feedback.antt =====
-- walflux/replication.py: what the server is told.
use walflux_postgres_increme.Prelude.{
  ℕ, ◌+◌, ◌≤◌, ◌≡◌, refl, Option, none, some, Bool, true, false, not, ◌&&◌, List, [], ◌∷◌, leb,
  if◌then◌else◌, arith, Bool-cases, inl, inr, ok, ok-injective,
}
use walflux_postgres_increme.Replication.{
  Stream, open_stream, send_feedback, ack, stop, close, keepalive_if_due, keepalive, Poll, Reading,
  with_signal, poll_idle, poll_message, poll, Action, polled, acked, stopped, closed, act, act_all,
}

abbrev pub latest : List ℕ → ℕ
latest [] = 0
latest (n ∷ ns) = n

-- The reports repeat what has been acknowledged, each at once and any number of times until the next;
-- before the first it is 0. Both lists have the latest first.
pub data Echoes : List ℕ → List ℕ → Type 0 where
  silent : Echoes [] []
  repeat : {acks sent : List ℕ} → Echoes acks sent → Echoes acks (latest acks ∷ sent)
  next : {acks sent : List ℕ} (n : ℕ) → Echoes acks sent → Echoes (n ∷ acks) (n ∷ sent)

-- the positions that were acknowledged, the latest first
unfoldable pub acks_of : List Action → List ℕ → List ℕ
acks_of [] acks = acks
acks_of (polled p ∷ as') acks = acks_of as' acks
acks_of (acked lsn now ∷ as') acks = acks_of as' (lsn ∷ acks)
acks_of (stopped ∷ as') acks = acks_of as' acks
acks_of (closed ∷ as') acks = acks_of as' acks

abbrev Reports : List ℕ → Stream → Type 0
Reports acks s = Echoes acks s.sent × (s.flush_lsn ≡ latest acks)

keepalive-Reports :
    (acks : List ℕ) (checked now : ℕ) (s : Stream)
    → Reports acks s
    → Reports acks (keepalive_if_due checked now s)
unfolding keepalive_if_due send_feedback
keepalive-Reports acks checked now s (echoes, same) =
    elim (Bool-cases (leb (s.last_feedback + keepalive) checked)) [
      | inl due ↦ rw due ((rw same (repeat echoes)), same)
      | inr early ↦ rw early (echoes, same)
    ]

either-Reports :
    (acks : List ℕ) (q : Bool) (r t : Reading)
    → Reports acks r.stream
    → Reports acks t.stream
    → Reports acks (if q then r else t).stream
either-Reports acks true r t h k = h
either-Reports acks false r t h k = k

message-Reports :
    (acks : List ℕ) (m : Option (ℕ × List ℕ)) (wake_after : ℕ) (p : Poll) (r : Reading)
    → Reports acks r.stream
    → Reports acks (poll_message m wake_after p r).stream
unfolding poll_message poll_idle
message-Reports acks (some m) wake_after p r h = h
message-Reports acks none wake_after p r h =
    let s = with_signal p.interrupted (keepalive_if_due p.checked p.reported r.stream) in
    let kept = keepalive-Reports acks p.checked p.reported r.stream h in
    either-Reports acks (leb (r.last_yield + wake_after) p.woken && not s.stopping) _ _ kept kept

act_all-Reports :
    (wake_after : ℕ) (actions : List Action) (acks : List ℕ) (r : Reading)
    → Reports acks r.stream
    → Reports (acks_of actions acks) (act_all wake_after actions r).stream
unfolding act_all act acks_of poll ack send_feedback stop close
act_all-Reports wake_after [] acks r h = h
act_all-Reports wake_after (polled p ∷ rest) acks r h =
    act_all-Reports wake_after rest acks (poll wake_after p r) (
      either-Reports acks r.stream.stopping r (poll_message p.message wake_after p r) h
        (message-Reports acks p.message wake_after p r h))
act_all-Reports wake_after (acked lsn now ∷ rest) acks r h =
    act_all-Reports wake_after rest (lsn ∷ acks) (record r { stream = ack lsn now r.stream })
      (next lsn h.0, refl)
act_all-Reports wake_after (stopped ∷ rest) acks r h =
    act_all-Reports wake_after rest acks (record r { stream = stop r.stream }) h
act_all-Reports wake_after (closed ∷ rest) acks r h =
    act_all-Reports wake_after rest acks (record r { stream = close r.stream }) h

-- Whatever the rounds see and in whatever order the calls come, the server is told each acknowledged
-- position at once, then only that position until the next one, and 0 before the first.
pub act_all-Echoes :
    (wake_after now : ℕ) (actions : List Action) (r : Reading)
    → open_stream none now ≡ ok r.stream
    → Echoes (acks_of actions []) (act_all wake_after actions r).stream.sent
unfolding open_stream
act_all-Echoes wake_after now actions r opened =
    (act_all-Reports wake_after actions [] r (rw (← ok-injective opened) (silent, refl))).0

abbrev pub Descending : List ℕ → Type 0
Descending [] = Unit
Descending (n ∷ ns) = (latest ns ≤ n) × Descending ns

latest-Echoes : (acks sent : List ℕ) → Echoes acks sent → latest sent ≤ latest acks
latest-Echoes _ _ silent = omega arith
latest-Echoes _ _ (repeat h) = omega arith
latest-Echoes _ _ (next n h) = omega arith

Echoes-Descending : (acks sent : List ℕ) → Echoes acks sent → Descending acks → Descending sent
Echoes-Descending _ _ silent d = tt
Echoes-Descending _ _ (repeat {acks = acks} {sent = sent} h) d =
    (latest-Echoes acks sent h, Echoes-Descending acks sent h d)
Echoes-Descending _ _ (next {acks = acks} {sent = sent} n h) d =
    (omega (arith, latest-Echoes acks sent h, d.0), Echoes-Descending acks sent h d.1)

-- If the positions that are acknowledged do not go back, neither does what the server is told.
pub act_all-Descending :
    (wake_after now : ℕ) (actions : List Action) (r : Reading)
    → open_stream none now ≡ ok r.stream
    → Descending (acks_of actions [])
    → Descending (act_all wake_after actions r).stream.sent
act_all-Descending wake_after now actions r opened ascending =
    Echoes-Descending (acks_of actions []) (act_all wake_after actions r).stream.sent
      (act_all-Echoes wake_after now actions r opened) ascending
