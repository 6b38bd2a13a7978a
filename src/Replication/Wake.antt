-- ===== src/Replication/Wake.antt =====
-- walflux/replication.py: an idle stream wakes its consumer.
use walflux_postgres_increme.Prelude.{
  ℕ, ◌+◌, ◌≤◌, ◌<◌, ◌≡◌, refl, ap, sym, subst, ◌∙◌, ◌⊎◌, Option, none, some, Bool, true, false, not,
  ◌&&◌, List, [], ◌∷◌, ◌++◌, All, length, map, leb, if◌then◌else◌, arith, Bool-cases, inl, inr,
}
use walflux_postgres_increme.Replication.{
  Stream, keepalive_if_due, keepalive, send_feedback, Poll, Reading, with_signal, poll_idle,
  poll_message, poll, polled, act, act_all,
}

-- A round that finds no message and is not interrupted.
abbrev pub IsIdle : Poll → Type 0
IsIdle p = (p.message ≡ none) × (p.interrupted ≡ false)

keepalive_if_due-stopping :
    (checked now : ℕ) (s : Stream) → (keepalive_if_due checked now s).stopping ≡ s.stopping
unfolding keepalive_if_due send_feedback
keepalive_if_due-stopping checked now s =
    elim (Bool-cases (leb (s.last_feedback + keepalive) checked)) [
      | inl due ↦ rw due refl
      | inr early ↦ rw early refl
    ]

if_false {ℓ} : {A : Type ℓ} (q : Bool) (x y : A) → q ≡ false → (if q then x else y) ≡ y
if_false true x y e = cc
if_false false x y e = refl

-- An idle round of a stream that has not been stopped runs the loop's body for no message.
idle_round :
    (wake_after : ℕ) (p : Poll) (r : Reading)
    → IsIdle p
    → r.stream.stopping ≡ false
    → poll wake_after p r ≡ poll_idle wake_after p r
unfolding poll poll_message
idle_round wake_after p r (empty, calm) on =
    if_false r.stream.stopping r (poll_message p.message wake_after p r) on
    ∙ ap (λ m. poll_message m wake_after p r) empty

still_on :
    (p : Poll) (s : Stream)
    → IsIdle p
    → s.stopping ≡ false
    → (with_signal p.interrupted (keepalive_if_due p.checked p.reported s)).stopping ≡ false
still_on p s (empty, calm) on = rw (keepalive_if_due-stopping p.checked p.reported s, on, calm) refl

-- It yields None if the time is over, and otherwise leaves the time at which it is over as it was.
idle_outcome :
    (wake_after : ℕ) (p : Poll) (r : Reading)
    → IsIdle p
    → r.stream.stopping ≡ false
    → ((poll_idle wake_after p r).yields ≡ none ∷ r.yields)
      ⊎ ((p.woken < r.last_yield + wake_after)
          × ((poll_idle wake_after p r).yields ≡ r.yields)
          × ((poll_idle wake_after p r).last_yield ≡ r.last_yield)
          × ((poll_idle wake_after p r).stream.stopping ≡ false))
unfolding poll_idle
idle_outcome wake_after p r idle on =
    let off = still_on p r.stream idle on in
    elim (Bool-cases (leb (r.last_yield + wake_after) p.woken)) [
      | inl late ↦ inl (rw (late, off) refl)
      | inr early ↦ inr (ground arith, rw early refl, rw early refl, rw early off)
    ]

either-grows :
    (n : ℕ) (q : Bool) (r t : Reading)
    → n ≤ length r.yields
    → n ≤ length t.yields
    → n ≤ length (if q then r else t).yields
either-grows n true r t h k = h
either-grows n false r t h k = k

poll_message-grows :
    (m : Option (ℕ × List ℕ)) (wake_after : ℕ) (p : Poll) (r : Reading)
    → length r.yields ≤ length (poll_message m wake_after p r).yields
unfolding poll_message poll_idle
poll_message-grows (some m) wake_after p r = omega arith
poll_message-grows none wake_after p r =
    let s = with_signal p.interrupted (keepalive_if_due p.checked p.reported r.stream) in
    either-grows (length r.yields) (leb (r.last_yield + wake_after) p.woken && not s.stopping) _ _
      (omega arith) (omega arith)

rounds-grow :
    (wake_after : ℕ) (ps : List Poll) (r : Reading)
    → length r.yields ≤ length (act_all wake_after (map (λ p. polled p) ps) r).yields
unfolding act_all act poll
rounds-grow wake_after [] r = omega arith
rounds-grow wake_after (p ∷ ps) r =
    let grown =
      either-grows (length r.yields) r.stream.stopping r (poll_message p.message wake_after p r)
        (omega arith) (poll_message-grows p.message wake_after p r) in
    omega (arith, grown, rounds-grow wake_after ps (poll wake_after p r))

-- If the rounds of `messages` find no message and nothing stops the stream, then something is yielded,
-- which is None, at the latest in the round that ends `wake_after` behind the last yield.
pub rounds_wake :
    (wake_after : ℕ) (ps : List Poll) (p : Poll) (r : Reading)
    → All IsIdle ps
    → IsIdle p
    → r.stream.stopping ≡ false
    → r.last_yield + wake_after ≤ p.woken
    → length r.yields < length (act_all wake_after (map (λ q. polled q) (ps ++ p ∷ [])) r).yields
unfolding act_all act
rounds_wake wake_after [] p r idles idle on late = elim (idle_outcome wake_after p r idle on) [
  | inl woke ↦ rw (idle_round wake_after p r idle on, woke) (omega arith)
  | inr (early, _, _, _) ↦ absurd (omega arith)
]
rounds_wake wake_after (q ∷ ps) p r idles idle on late =
    let round = sym (idle_round wake_after q r idles.0 on) in
    let others = map (λ t. polled t) (ps ++ p ∷ []) in
    subst (λ x. length r.yields < length (act_all wake_after others x).yields) round
      (elim (idle_outcome wake_after q r idles.0 on) [
        | inl woke ↦ omega (
          arith,
          ap (λ ys. length ys) woke,
          rounds-grow wake_after (ps ++ p ∷ []) (poll_idle wake_after q r),
        )
        | inr (early, same, kept, running) ↦ omega (
          arith,
          ap (λ ys. length ys) same,
          rounds_wake wake_after ps p (poll_idle wake_after q r) idles.1 idle running
              (omega (arith, kept)),
        )
      ])
