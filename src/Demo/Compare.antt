-- ===== src/Demo/Compare.antt =====
-- demo/verify.py, `_rows` and `verify_view`: the rows of the two queries by group, and how often they
-- disagree.
use walflux_postgres_increme.Prelude.{
  ℕ, ◌+◌, Bool, true, false, Option, none, some, List, [], ◌∷◌, ◌++◌, take, drop, length, Text,
  codes, if◌then◌else◌, Result, ok, ◌>>=◌,
}
use walflux_postgres_increme.Value.{Value, key_eq}
use walflux_postgres_increme.Demo.Queries.{Agg, View}
use walflux_postgres_increme.Demo.Cells.{cells_match}
use walflux_postgres_increme.Demo.Report.{zip_strict, fmt, sorted, group_label}

abbrev pub Groups : Type 0
Groups = List (List Value × List Value)

-- `d[key] = cells` for keys that are tuples
unfoldable pub put_group : List Value → List Value → Groups → Groups
put_group key cells [] = (key, cells) ∷ []
put_group key cells ((k, c) ∷ gs) =
    if key_eq k key then (k, cells) ∷ gs else (k, c) ∷ put_group key cells gs

unfoldable pub find_group : List Value → Groups → Option (List Value)
find_group key [] = none
find_group key ((k, c) ∷ gs) = if key_eq k key then some c else find_group key gs

-- `{tuple(r[:n]): tuple(r[n:]) for r in cur.fetchall()}`
unfoldable pub by_group : ℕ → List (List Value) → Groups → Groups
unfolding put_group
by_group n [] groups = groups
by_group n (r ∷ rs) groups = by_group n rs (put_group (take n r) (drop n r) groups)

unfoldable pub group_rows : ℕ → List (List Value) → Groups
unfolding by_group
group_rows n rs = by_group n rs []

abbrev pub keys : Groups → List (List Value)
keys [] = []
keys ((k, _) ∷ gs) = k ∷ keys gs

-- `key not in d`
abbrev pub is_absent : Option (List Value) → Bool
is_absent none = true
is_absent (some _) = false

-- The keys of `actual` that `expected` does not have.
abbrev pub extra_keys : Groups → Groups → List (List Value)
extra_keys expected [] = []
extra_keys expected ((k, _) ∷ gs) =
    if is_absent (find_group k expected) then k ∷ extra_keys expected gs else extra_keys expected gs

-- `0 if ok else 1`
abbrev pub penalty : Bool → ℕ
penalty true = 0
penalty false = 1

abbrev verdict : Bool → Text
verdict true = codes "ok"
verdict false = codes "MISMATCH"

-- The mismatches and the lines of the table.
abbrev pub Findings : Type 0
Findings = ℕ × List (List Text)

abbrev pub joined : Findings → Findings → Findings
joined (m, rows) (n, more) = (m + n, rows ++ more)

-- `_dead_group_count`, of what the query for dead groups answers
abbrev pub dead_groups : List Text → ℕ → ℕ
dead_groups [] answer = 0
dead_groups (_ ∷ _) answer = answer

module _ (of_float : Text → Result Value) (show : Value → Text) where
  -- one aggregate of one group
  abbrev pub check_cell : Text → Agg × (Value × Value) → Result Findings
  check_cell label (agg, (exp, act)) = do
    same ← cells_match of_float agg.fn exp act
    ok (penalty same, (label ∷ agg.alias ∷ fmt show exp ∷ fmt show act ∷ verdict same ∷ []) ∷ [])

  abbrev pub check_cells : Text → List (Agg × (Value × Value)) → Result Findings
  check_cells label [] = ok (0, [])
  check_cells label (c ∷ cs) = do
    one ← check_cell label c
    rest ← check_cells label cs
    ok (joined one rest)

  abbrev pub check_found : View → Text → Option (List Value) → Option (List Value) → Result Findings
  check_found view label exp none = ok (
    1,
    (label ∷ codes "*" ∷ codes "group present" ∷ codes "group MISSING" ∷ codes "MISMATCH" ∷ [])
        ∷ [],
  )
  check_found view label none (some act) = ok (
    1,
    (label ∷ codes "*" ∷ codes "no such group" ∷ codes "extra group" ∷ codes "MISMATCH" ∷ []) ∷ [],
  )
  check_found view label (some exp) (some act) = do
    cells ← zip_strict exp act
    pairs ← zip_strict view.aggregates cells
    check_cells label pairs

  -- one group
  unfoldable pub check_key : View → Groups → Groups → List Value → Result Findings
  check_key view expected actual key = do
    label ← group_label show view key
    check_found view label (find_group key expected) (find_group key actual)

  unfoldable pub check_keys : View → Groups → Groups → List (List Value) → Result Findings
  unfolding check_key
  check_keys view expected actual [] = ok (0, [])
  check_keys view expected actual (key ∷ ks) = do
    one ← check_key view expected actual key
    rest ← check_keys view expected actual ks
    ok (joined one rest)

  -- `verify_view`, of what its three queries answer
  unfoldable pub verify_view : View → List (List Value) → List (List Value) → ℕ → Result Findings
  unfolding check_keys
  verify_view view truth target dead =
      let expected = group_rows (length view.group_by) truth in
      let actual = group_rows (length view.group_by) target in
      do
        found ←
            check_keys view expected actual
              (sorted show (keys expected ++ extra_keys expected actual))
        ok (found.0 + dead_groups view.group_by dead, found.1)

  -- The sum over the views, each with what its three queries answer.
  unfoldable pub verify_all : List (View × (List (List Value) × List (List Value) × ℕ)) → Result ℕ
  verify_all [] = ok 0
  verify_all ((view, (truth, target, dead)) ∷ views) = do
    found ← verify_view view truth target dead
    rest ← verify_all views
    ok (found.0 + rest)
