-- ===== src/Daemon/Newer.antt =====
-- The skip rule of walflux/daemon.py over a whole stream: the source's transactions in commit order,
-- and those of them that a checkpoint leaves to be applied.
use walflux_postgres_increme.Prelude.{
  ℕ, ◌≤◌, ◌<◌, ◌≡◌, refl, ap, true, false, List, [], ◌∷◌, ◌++◌, All, ltb, ok, if◌then◌else◌, arith,
  Bool-cases, inl, inr,
}
use walflux_postgres_increme.Daemon.Op.{SealedTxn}
use walflux_postgres_increme.Daemon.Flush.{last_lsn}

-- what the skip rule keeps
abbrev pub newer : ℕ → List SealedTxn → List SealedTxn
newer cp [] = []
newer cp (t ∷ ts) = if ltb cp t.end_lsn then t ∷ newer cp ts else newer cp ts

abbrev pub Above : ℕ → List SealedTxn → Type 0
Above k ts = All (λ t. k < t.end_lsn) ts

abbrev pub Below : ℕ → List SealedTxn → Type 0
Below k ts = All (λ t. t.end_lsn ≤ k) ts

-- Commits reach the log in the order of their positions.
abbrev pub Increasing : List SealedTxn → Type 0
Increasing [] = Unit
Increasing (t ∷ ts) = Above t.end_lsn ts × Increasing ts

Above-newer : (k cp : ℕ) (ts : List SealedTxn) → Above k ts → Above k (newer cp ts)
Above-newer k cp [] h = tt
Above-newer k cp (t ∷ ts) h = elim (Bool-cases (ltb cp t.end_lsn)) [
  | inl e ↦ rw e (h.0, Above-newer k cp ts h.1)
  | inr e ↦ rw e (Above-newer k cp ts h.1)
]

pub newer-Increasing : (cp : ℕ) (ts : List SealedTxn) → Increasing ts → Increasing (newer cp ts)
newer-Increasing cp [] h = tt
newer-Increasing cp (t ∷ ts) h = elim (Bool-cases (ltb cp t.end_lsn)) [
  | inl e ↦ rw e (Above-newer t.end_lsn cp ts h.0, newer-Increasing cp ts h.1)
  | inr e ↦ rw e (newer-Increasing cp ts h.1)
]

pub newer-Above : (cp : ℕ) (ts : List SealedTxn) → Above cp (newer cp ts)
newer-Above cp [] = tt
newer-Above cp (t ∷ ts) = elim (Bool-cases (ltb cp t.end_lsn)) [
  | inl e ↦ rw e (ground arith, newer-Above cp ts)
  | inr e ↦ rw e (newer-Above cp ts)
]

pub newer-newer :
    (cp lsn : ℕ) (ts : List SealedTxn) → cp ≤ lsn → newer lsn (newer cp ts) ≡ newer lsn ts
newer-newer cp lsn [] h = refl
newer-newer cp lsn (t ∷ ts) h = elim (Bool-cases (ltb cp t.end_lsn)) [
  | inl e ↦ rw (e, newer-newer cp lsn ts h) refl
  | inr e ↦
      let stale : ltb lsn t.end_lsn ≡ false = ground arith in
      rw (e, stale) (newer-newer cp lsn ts h)
]

newer-all : (k : ℕ) (ts : List SealedTxn) → Above k ts → newer k ts ≡ ts
newer-all k [] h = refl
newer-all k (t ∷ ts) h =
    let fresh : ltb k t.end_lsn ≡ true = ground arith in
    rw fresh (ap (λ us. t ∷ us) (newer-all k ts h.1))

pub newer-drop :
    (cp : ℕ) (before rest : List SealedTxn)
    → Below cp before
    → newer cp (before ++ rest) ≡ newer cp rest
newer-drop cp [] rest h = refl
newer-drop cp (t ∷ before) rest h =
    let stale : ltb cp t.end_lsn ≡ false = ground arith in rw stale (newer-drop cp before rest h.1)

pub last_lsn-Above :
    (k lsn : ℕ) (ts us : List SealedTxn) → Above k (ts ++ us) → last_lsn ts ≡ ok lsn → k < lsn
unfolding last_lsn
last_lsn-Above k lsn [] us h e = cc
last_lsn-Above k lsn (t ∷ []) us h e = let same : t.end_lsn ≡ lsn = cc in rw (← same) h.0
last_lsn-Above k lsn (t ∷ u ∷ ts) us h e = last_lsn-Above k lsn (u ∷ ts) us h.1 e

-- In commit order, the transactions after the last of a prefix are the rest of the list.
pub newer-rest :
    (lsn : ℕ) (ts us : List SealedTxn)
    → Increasing (ts ++ us)
    → last_lsn ts ≡ ok lsn
    → (newer lsn (ts ++ us) ≡ us) × (newer lsn us ≡ us)
unfolding last_lsn
newer-rest lsn [] us h e = cc
newer-rest lsn (t ∷ []) us h e =
    let same : t.end_lsn ≡ lsn = cc in
    let stale : ltb lsn t.end_lsn ≡ false = ground arith in
    let rest : newer lsn us ≡ us = newer-all lsn us (rw (← same) h.0) in (rw stale rest, rest)
newer-rest lsn (t ∷ u ∷ ts) us h e =
    let after = last_lsn-Above t.end_lsn lsn (u ∷ ts) us h.0 e in
    let stale : ltb lsn t.end_lsn ≡ false = ground arith in
    rw stale (newer-rest lsn (u ∷ ts) us h.1 e)
