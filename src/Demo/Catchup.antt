-- ===== src/Demo/Catchup.antt =====
-- demo/verify.py: waiting for the daemon, and the exit code.
use walflux_postgres_increme.Prelude.{
  ℕ, ◌+◌, ◌*◌, ◌≤◌, ◌<◌, ◌≡◌, refl, ◌⊎◌, Option, none, some, Bool, true, false, List, [], ◌∷◌, Text,
  length, ltb, ltb→lt, leb→le, ◌==◌, if◌then◌else◌, arith, Bool-cases, inl, inr,
}
use walflux_postgres_increme.Prelude.Int.{ℤ, leb_ℤ, pos_part, neg_part}

-- `POLL_S`, in milliseconds
abbrev pub poll_ms : ℕ
poll_ms = 500

-- `_read_checkpoint`: what `to_regclass` gives for the table, and the row of the slot.
unfoldable pub read_checkpoint : Option Text → Option ℤ → Option ℤ
read_checkpoint none row = none
read_checkpoint (some table) row = row

-- `ckpt is not None and ckpt >= target`
unfoldable pub has_reached : ℤ → Option ℤ → Bool
has_reached target none = false
has_reached target (some ckpt) = leb_ℤ target ckpt

-- One round of the loop: the clock at its test, and the two answers behind the checkpoint.
pub record Round : Type 0 where
  pub now : ℕ
  pub table : Option Text
  pub row : Option ℤ

-- The loop of `wait_for_catchup`, which goes on at the end of the rounds that are given.
unfoldable pub wait_rounds : ℤ → ℕ → List Round → Option Bool
unfolding has_reached read_checkpoint
wait_rounds target deadline [] = none
wait_rounds target deadline (r ∷ rs) =
    let later = wait_rounds target deadline rs in
    if ltb r.now deadline
    then if has_reached target (read_checkpoint r.table r.row) then some true else later
    else some false

-- From the target that it has captured and the marker rows that it has written, neither of which is
-- modelled.
unfoldable pub wait_for_catchup : ℤ → ℕ → ℕ → List Round → Option Bool
unfolding wait_rounds
wait_for_catchup target start timeout_ms rs = wait_rounds target (start + timeout_ms) rs

-- The exit code of `main`: of whether the daemon caught up, and the number of mismatches.
unfoldable pub exit_code : Bool → ℕ → ℕ
exit_code false mismatches = 1
exit_code true mismatches = if mismatches == 0 then 0 else 1

-- Every round sleeps for `POLL_S` before the next.
abbrev pub Paced : ℕ → List Round → Type 0
Paced t [] = Unit
Paced t (r ∷ rs) = (t ≤ r.now) × Paced (r.now + poll_ms) rs

settled :
    (q : Bool) (later : Option Bool)
    → (q ≡ false → (b : Bool) × (later ≡ some b))
    → (b : Bool) × ((if q then some true else later) ≡ some b)
settled true later h = (true, refl)
settled false later h = h refl

rounds_end :
    (target : ℤ) (deadline t : ℕ) (r : Round) (rs : List Round)
    → Paced t (r ∷ rs)
    → deadline ≤ t + poll_ms * length rs
    → (b : Bool) × (wait_rounds target deadline (r ∷ rs) ≡ some b)
unfolding wait_rounds
rounds_end target deadline t r [] paced enough = elim (Bool-cases (ltb r.now deadline)) [
  | inr over ↦ (false, rw over refl)
  | inl early ↦ absurd (omega (arith, ltb→lt r.now deadline early, paced.0))
]
rounds_end target deadline t r (next ∷ rs) paced enough = elim (Bool-cases (ltb r.now deadline)) [
  | inr over ↦ (false, rw over refl)
  | inl early ↦ rw early (
      settled (has_reached target (read_checkpoint r.table r.row))
        (wait_rounds target deadline (next ∷ rs))
        (λ _.
          rounds_end target deadline (r.now + poll_ms) next rs paced.1 (omega (arith, paced.0))))
]

-- `wait_for_catchup` ends: if every round begins at least half a second behind the one before, it has
-- given its answer when `POLL_S` times the number of rounds behind the first has passed the timeout.
pub wait_for_catchup_ends :
    (target : ℤ) (start timeout_ms : ℕ) (r : Round) (rs : List Round)
    → Paced start (r ∷ rs)
    → timeout_ms ≤ poll_ms * length rs
    → (b : Bool) × (wait_for_catchup target start timeout_ms (r ∷ rs) ≡ some b)
unfolding wait_for_catchup
wait_for_catchup_ends target start timeout_ms r rs paced enough =
    rounds_end target (start + timeout_ms) start r rs paced (omega arith)

-- The order of the integers, between natural numbers.
abbrev pub AtMost : ℤ → ℤ → Type 0
AtMost a b = pos_part a + neg_part b ≤ pos_part b + neg_part a

-- A round that sees in time that the table exists and has a row for the slot at or past the target.
abbrev pub Reaches : ℤ → ℕ → Round → Type 0
Reaches target deadline r =
    (r.now < deadline)
    × (table : Text) × (ckpt : ℤ) × (r.table ≡ some table)
    × (r.row ≡ some ckpt)
    × AtMost target ckpt

abbrev pub Some : (Round → Type 0) → List Round → Type 0
Some P [] = ⊥
Some P (r ∷ rs) = P r ⊎ Some P rs

seen_row :
    (target : ℤ) (table : Option Text) (row : Option ℤ)
    → has_reached target (read_checkpoint table row) ≡ true
    → (t : Text) × (ckpt : ℤ) × (table ≡ some t) × (row ≡ some ckpt) × AtMost target ckpt
unfolding has_reached read_checkpoint
seen_row target none row e = cc
seen_row target (some t) none e = cc
seen_row target (some t) (some ckpt) e = (
  t,
  ckpt,
  refl,
  refl,
  leb→le (pos_part target + neg_part ckpt) (pos_part ckpt + neg_part target) e,
)

-- Its answer is true only if, in a round before the deadline, the checkpoint table was there and the row
-- of the slot held a position that is at least the target.
pub wait_for_catchup_sound :
    (target : ℤ) (start timeout_ms : ℕ) (rs : List Round)
    → wait_for_catchup target start timeout_ms rs ≡ some true
    → Some (Reaches target (start + timeout_ms)) rs
unfolding wait_for_catchup wait_rounds
wait_for_catchup_sound target start timeout_ms [] e = cc
wait_for_catchup_sound target start timeout_ms (r ∷ rs) e =
    elim (Bool-cases (ltb r.now (start + timeout_ms))) [
      | inr over ↦ let wrong = rw over at e in absurd (cc)
      | inl early ↦ elim (Bool-cases (has_reached target (read_checkpoint r.table r.row))) [
        | inl seen ↦
            let (table, ckpt, there, row, past) = seen_row target r.table r.row seen in
            inl (ltb→lt r.now (start + timeout_ms) early, table, ckpt, there, row, past)
        | inr behind ↦
            inr (wait_for_catchup_sound target start timeout_ms rs (rw (early, behind) at e))
      ]
    ]
