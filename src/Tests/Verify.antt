-- ===== src/Tests/Verify.antt =====
-- Examples for demo/verify.py.
use walflux_postgres_increme.Prelude.{
  ℕ, ◌≡◌, ◌≢◌, take, ◌↔◌, refl, Bool, some, true, List, [], ◌∷◌, All, Text, codes, Result, ok, err,
  value_error, arith,
}
use walflux_postgres_increme.Prelude.Int.{ℤ, pos}
use walflux_postgres_increme.Value.{Value, value_eq, key_eq}
use walflux_postgres_increme.Demo.Queries.{sales}
use walflux_postgres_increme.Demo.Cells.{cells_match}
use walflux_postgres_increme.Demo.Report.{sorted, group_label}
use walflux_postgres_increme.Demo.Compare.{Findings, find_group, group_rows, verify_view}
use walflux_postgres_increme.Demo.Verdict.{Apart, HasCells, SameGroup, verify_view_iff}
use walflux_postgres_increme.Demo.Catchup.{
  Round, wait_for_catchup, Some, Reaches, wait_for_catchup_ends, wait_for_catchup_sound,
}
use walflux_postgres_increme.Tests.Sample.{result}

abbrev no_floats : Text → Result Value
no_floats r = err value_error

abbrev shown : Value → Text
shown (Value.text t) = t
shown _ = codes "?"

abbrev truth : List (List Value)
truth =
    (Value.text (codes "north") ∷ Value.int (pos 2) ∷ [])
    ∷ (Value.none ∷ Value.int (pos 1) ∷ [])
    ∷ []

-- The group of the NULL region counts one row too many.
abbrev off_by_one : List (List Value)
off_by_one =
    (Value.none ∷ Value.int (pos 2) ∷ [])
    ∷ (Value.text (codes "north") ∷ Value.int (pos 2) ∷ [])
    ∷ []

abbrev findings : Findings
findings = result (0, []) (verify_view no_floats shown sales truth off_by_one 0)

reported : verify_view no_floats shown sales truth off_by_one 0 ≡ ok findings
unfolding verify_view group_rows sorted find_group key_eq value_eq group_label cells_match
reported = refl

one_mismatch : findings.0 ≡ 1
unfolding verify_view group_rows sorted find_group key_eq value_eq group_label cells_match
one_mismatch = refl

truth-Apart : Apart 1 truth
unfolding key_eq value_eq
truth-Apart = ((refl, tt), (tt, tt))

target-Apart : Apart 1 off_by_one
unfolding key_eq value_eq
target-Apart = ((refl, tt), (tt, tt))

abbrev no_dead : ℕ
no_dead = 0

verify_view_iff_example : (findings.0 ≡ 0) ↔ (
    (All (λ row. SameGroup no_floats shown sales truth off_by_one (take 1 row)) truth
      × All (λ row. (cells : List Value) × HasCells 1 (take 1 row) truth cells) off_by_one)
    × (sales.group_by ≢ [] → no_dead ≡ 0))
verify_view_iff_example =
    verify_view_iff no_floats shown sales truth off_by_one no_dead findings truth-Apart target-Apart
      reported

abbrev round_at : ℕ → ℤ → Round
round_at now lsn = record { now = now; table = some (codes "walflux.checkpoint"); row = some lsn }

-- The checkpoint reaches 100 in the third round, a second before the timeout of two.
abbrev rounds : List Round
rounds =
    round_at 0 (pos 70)
    ∷ round_at 500 (pos 70)
    ∷ round_at 1000 (pos 120)
    ∷ round_at 1600 (pos 120)
    ∷ round_at 2100 (pos 120)
    ∷ []

wait_for_catchup_ends_example : (b : Bool) × (wait_for_catchup (pos 100) 0 2000 rounds ≡ some b)
wait_for_catchup_ends_example =
    wait_for_catchup_ends (pos 100) 0 2000 (round_at 0 (pos 70))
      (round_at 500 (pos 70)
        ∷ round_at 1000 (pos 120)
        ∷ round_at 1600 (pos 120)
        ∷ round_at 2100 (pos 120)
        ∷ [])
      (omega arith, (omega arith, (omega arith, (omega arith, (omega arith, tt))))) (omega arith)

in_time : wait_for_catchup (pos 100) 0 2000 rounds ≡ some true
unfolding wait_for_catchup
in_time = refl

wait_for_catchup_sound_example : Some (Reaches (pos 100) 2000) rounds
wait_for_catchup_sound_example = wait_for_catchup_sound (pos 100) 0 2000 rounds in_time
