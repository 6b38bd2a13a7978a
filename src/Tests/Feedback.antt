-- ===== src/Tests/Feedback.antt =====
-- Examples for walflux/replication.py.
use walflux_postgres_increme.Prelude.{
  ℕ, ◌<◌, ◌≡◌, refl, none, some, false, List, [], ◌∷◌, length, map, arith,
}
use walflux_postgres_increme.Replication.{
  Stream, open_stream, Poll, Reading, Action, polled, acked, stopped, act_all, wake_default,
}
use walflux_postgres_increme.Replication.Feedback.{
  Echoes, acks_of, Descending, act_all-Echoes, act_all-Descending,
}
use walflux_postgres_increme.Replication.Wake.{rounds_wake}

abbrev opened : Stream
opened = record { flush_lsn = 0; last_feedback = 5000; stopping = false; closed = false; sent = [] }

abbrev started : Reading
started = record { stream = opened; last_yield = 5000; yields = [] }

-- A round without a message that ends at a time.
abbrev idle_until : ℕ → Poll
idle_until t = record {
  message = none;
  received = t;
  checked = t;
  reported = t;
  waiting = t;
  woken = t;
  yielded = t;
  interrupted = false;
}

-- A message, its acknowledgement, eleven idle seconds, another acknowledgement, and a signal.
abbrev session : List Action
session =
    polled (record (idle_until 5100) { message = some (90, 66 ∷ []) })
    ∷ acked 90 5200
    ∷ polled (idle_until 16200)
    ∷ acked 120 16300
    ∷ stopped
    ∷ polled (idle_until 30000)
    ∷ []

session_sent : (act_all wake_default session started).stream.sent ≡ 120 ∷ 90 ∷ 90 ∷ []
unfolding act_all
session_sent = refl

act_all-Echoes_example :
    Echoes (acks_of session []) (act_all wake_default session started).stream.sent
unfolding open_stream
act_all-Echoes_example = act_all-Echoes wake_default 5000 session started refl

act_all-Descending_example : Descending (act_all wake_default session started).stream.sent
unfolding open_stream acks_of
act_all-Descending_example =
    act_all-Descending wake_default 5000 session started refl (omega arith, (omega arith, tt))

rounds_wake_example :
    0
    < length
        (act_all wake_default
          (map (λ q. polled q) (idle_until 5400 ∷ idle_until 6000 ∷ []))
          started).yields
rounds_wake_example =
    rounds_wake wake_default (idle_until 5400 ∷ []) (idle_until 6000) started ((refl, refl), tt)
      (refl, refl) refl (omega arith)
