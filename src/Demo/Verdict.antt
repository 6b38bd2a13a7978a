-- ===== src/Demo/Verdict.antt =====
-- demo/verify.py: what it means for the rows of its queries that `verify_view` counts no mismatch.
use walflux_postgres_increme.Prelude.{
  ℕ, ◌≡◌, ◌≢◌, ◌↔◌, refl, sym, ◌∙◌, ap, true, false, ◌⊎◌, inl, inr, Option, none, some, List, [],
  ◌∷◌, ◌++◌, All, take, drop, append_assoc, append-nil, length, Text, codes, ◌=t◌, =t→eq, Result,
  ok, >>=-ok, ok-injective, Bool-cases, either, if◌then◌else◌,
}
use walflux_postgres_increme.Value.{Value, key_eq, value_eq}
use walflux_postgres_increme.Demo.Queries.{Agg, View}
use walflux_postgres_increme.Demo.Cells.{is_none, decimal_of, near, numbers_match, cells_match}
use walflux_postgres_increme.Demo.Report.{zip_strict}
use walflux_postgres_increme.Demo.Compare.{
  Groups, Findings, put_group, find_group, by_group, group_rows, keys, is_absent, extra_keys,
  dead_groups, verify_view,
}
use walflux_postgres_increme.Demo.Pass.{Match, AgreesOn, both_iff, then_iff, groups_iff}

-- No two rows have the same first `n` cells, as GROUP BY and the unique index of a target promise.
abbrev pub Apart : ℕ → List (List Value) → Type 0
Apart n [] = Unit
Apart n (r ∷ rs) = All (λ q. key_eq (take n r) (take n q) ≡ false) rs × Apart n rs

-- The first row with this key has these cells behind it.
abbrev pub HasCells : ℕ → List Value → List (List Value) → List Value → Type 0
HasCells n key [] cells = ⊥
HasCells n key (r ∷ rs) cells =
    ((key_eq (take n r) key ≡ true) × (drop n r ≡ cells))
    ⊎ ((key_eq (take n r) key ≡ false) × HasCells n key rs cells)

splits : ℕ → List (List Value) → Groups
splits n [] = []
splits n (r ∷ rs) = (take n r, drop n r) ∷ splits n rs

-- The groups so far have none of the keys to come.
Clear : ℕ → Groups → List (List Value) → Type 0
Clear n groups rs = All (λ g. All (λ r. key_eq g.0 (take n r) ≡ false) rs) groups

put_last :
    (n : ℕ) (groups : Groups) (r : List Value) (rs : List (List Value))
    → Clear n groups (r ∷ rs)
    → put_group (take n r) (drop n r) groups ≡ groups ++ (take n r, drop n r) ∷ []
unfolding Clear put_group
put_last n [] r rs h = refl
put_last n ((k, c) ∷ groups) r rs h = rw (h.0.0, put_last n groups r rs h.1) refl

Clear-next :
    (n : ℕ) (groups : Groups) (r : List Value) (rs : List (List Value))
    → Clear n groups (r ∷ rs)
    → All (λ q. key_eq (take n r) (take n q) ≡ false) rs
    → Clear n (groups ++ (take n r, drop n r) ∷ []) rs
unfolding Clear
Clear-next n [] r rs h new = (new, tt)
Clear-next n (g ∷ groups) r rs h new = (h.0.1, Clear-next n groups r rs h.1 new)

by_group-splits :
    (n : ℕ) (rs : List (List Value)) (groups : Groups)
    → Apart n rs
    → Clear n groups rs
    → by_group n rs groups ≡ groups ++ splits n rs
unfolding by_group splits
by_group-splits n [] groups apart h = sym (append-nil groups)
by_group-splits n (r ∷ rs) groups apart h =
    let one = (take n r, drop n r) ∷ [] in
    rw (put_last n groups r rs h) (
      by_group-splits n rs (groups ++ one) apart.1 (Clear-next n groups r rs h apart.0)
      ∙ append_assoc groups one (splits n rs))

group_rows-splits : (n : ℕ) (rs : List (List Value)) → Apart n rs → group_rows n rs ≡ splits n rs
unfolding group_rows Clear
group_rows-splits n rs apart = by_group-splits n rs [] apart tt

some-injective : {a b : List Value} → ◌≡◌ {A = Option (List Value)} (some a) (some b) → a ≡ b
some-injective e = cc

found_iff :
    (n : ℕ) (key : List Value) (rs : List (List Value)) (cells : List Value)
    → (find_group key (splits n rs) ≡ some cells) ↔ HasCells n key rs cells
unfolding find_group splits
found_iff n key [] cells = ((λ e. cc), (λ h. absurd h))
found_iff n key (r ∷ rs) cells = elim (Bool-cases (key_eq (take n r) key)) [
  | inl same ↦ rw same (
    (λ e. inl (refl, some-injective e)),
    (λ h. elim h [ inl (_, e) ↦ ap (λ c. some c) e | inr (wrong, _) ↦ absurd (cc) ]),
  )
  | inr differs ↦ rw differs (
    (λ e. inr (refl, (found_iff n key rs cells).0 e)),
    (λ h. elim h [
      | inl (wrong, _) ↦ absurd (cc)
      | inr (_, later) ↦ (found_iff n key rs cells).1 later
    ]),
  )
]

keys_iff :
    (P : List Value → Type 0) (n : ℕ) (rs : List (List Value))
    → All P (keys (splits n rs)) ↔ All (λ r. P (take n r)) rs
unfolding splits
keys_iff P n [] = ((λ h. h), (λ h. h))
keys_iff P n (r ∷ rs) = both_iff ((λ h. h), (λ h. h)) (keys_iff P n rs)

dead_iff :
    (group_by : List Text) (dead : ℕ) → (dead_groups group_by dead ≡ 0) ↔ (group_by ≢ [] → dead ≡ 0)
dead_iff [] dead = ((λ e h. absurd (h refl)), (λ h. refl))
dead_iff (c ∷ cs) dead = ((λ e h. e), (λ h. h (λ e. cc)))

present_iff :
    (o : Option (List Value)) → (is_absent o ≡ false) ↔ ((cells : List Value) × (o ≡ some cells))
present_iff none = ((λ e. cc), (λ h. absurd (cc)))
present_iff (some c) = ((λ e. (c, refl)), (λ h. refl))

absent : (o : Option (List Value)) (cells : List Value) → is_absent o ≡ true → o ≡ some cells → ⊥
absent none cells e f = cc
absent (some c) cells e f = cc

known_iff :
    (n : ℕ) (expected : Groups) (rs : List (List Value))
    → (extra_keys expected (splits n rs) ≡ [])
      ↔ All (λ r. (cells : List Value) × (find_group (take n r) expected ≡ some cells)) rs
unfolding splits
known_iff n expected [] = ((λ e. tt), (λ h. refl))
known_iff n expected (r ∷ rs) = elim (Bool-cases (is_absent (find_group (take n r) expected))) [
  | inl missing ↦ rw missing (
    (λ e. absurd (cc)),
    (λ h. absurd (absent (find_group (take n r) expected) h.0.0 missing h.0.1)),
  )
  | inr there ↦ rw there (
    (λ e. ((present_iff (find_group (take n r) expected)).0 there, (known_iff n expected rs).0 e)),
    (λ h. (known_iff n expected rs).1 h.1),
  )
]

All-iff :
    {A : Type 0} (P Q : A → Type 0) (xs : List A) → ((x : A) → P x ↔ Q x) → All P xs ↔ All Q xs
All-iff P Q [] h = ((λ k. tt), (λ k. tt))
All-iff P Q (x ∷ xs) h = both_iff (h x) (All-iff P Q xs h)

known_row :
    (n : ℕ) (key : List Value) (rs : List (List Value))
    → ((cells : List Value) × (find_group key (splits n rs) ≡ some cells))
      ↔ ((cells : List Value) × HasCells n key rs cells)
known_row n key rs =
    ((λ h. (h.0, (found_iff n key rs h.0).0 h.1)), (λ h. (h.0, (found_iff n key rs h.0).1 h.1)))

contradiction : false ≡ true → ⊥
contradiction e = cc

is_none_iff : (v : Value) → is_none v ≡ true → v ≡ Value.none
is_none_iff Value.none e = refl
is_none_iff (Value.int n) e = cc
is_none_iff (Value.bool b) e = cc
is_none_iff (Value.text t) e = cc
is_none_iff (Value.float r) e = cc
is_none_iff (Value.decimal d) e = cc
is_none_iff (Value.non_finite t) e = cc
is_none_iff Value.unchanged_toast e = cc

module _ (of_float : Text → Result Value) where
  -- Two numbers agree: an average within the tolerance, anything else exactly.
  abbrev pub Close : Text → Value → Value → Type 0
  Close fn e a =
      ((fn ≡ codes "avg") × (near of_float e a ≡ ok true))
      ⊎ ((fn ≢ codes "avg") × (value_eq e a ≡ true))

  -- Two cells agree: both are NULL, or neither is and their numbers agree.
  abbrev pub SameCell : Text → Value → Value → Type 0
  SameCell fn exp act =
      ((exp ≡ Value.none) × (act ≡ Value.none))
      ⊎ ((exp ≢ Value.none)
          × (act ≢ Value.none)
          × (e : Value) × (a : Value) × (decimal_of of_float exp ≡ ok e)
          × (decimal_of of_float act ≡ ok a)
          × Close fn e a)

  -- Two cells that are numbers agree.
  abbrev SameNumber : Text → Value → Value → Type 0
  SameNumber fn exp act =
      (e : Value) × (a : Value) × (decimal_of of_float exp ≡ ok e)
      × (decimal_of of_float act ≡ ok a)
      × Close fn e a

  compared :
      (fn : Text) (e a : Value)
      → (if fn =t codes "avg" then near of_float e a else ok (value_eq e a)) ≡ ok true
      → Close fn e a
  compared fn e a h = elim (either (fn =t codes "avg") h) [
    | inl (yes_avg, close) ↦ inl (=t→eq fn (codes "avg") yes_avg, close)
    | inr (no_avg, same) ↦ inr ((λ q. is_avg fn no_avg q), ok-injective same)
  ]
    where
      is_avg : (f : Text) → (f =t codes "avg") ≡ false → f ≡ codes "avg" → ⊥
      is_avg f differs q =
          absurd (contradiction (sym differs ∙ ap (λ (x : Text). x =t codes "avg") q))

  compare :
      (fn : Text) (e a : Value)
      → Close fn e a
      → (if fn =t codes "avg" then near of_float e a else ok (value_eq e a)) ≡ ok true
  compare fn e a (inl (avg, close)) = rw avg close
  compare fn e a (inr (other, same)) = elim (Bool-cases (fn =t codes "avg")) [
    | inl same_text ↦ absurd (other (=t→eq fn (codes "avg") same_text))
    | inr differs ↦ rw (differs, same) refl
  ]

  numbers_iff :
      (fn : Text) (exp act : Value)
      → (numbers_match of_float fn exp act ≡ ok true) ↔ SameNumber fn exp act
  numbers_iff fn exp act = (
    (λ h.
        let (e, left, h₁) = >>=-ok (decimal_of of_float exp) _ h in
        let (a, right, h₂) = >>=-ok (decimal_of of_float act) _ h₁ in
        (e, a, left, right, compared fn e a h₂)),
    (λ h. let (e, a, left, right, close) = h in rw (left, right) (compare fn e a close)),
  )

  cells_match-SameCell :
      (fn : Text) (exp act : Value)
      → (cells_match of_float fn exp act ≡ ok true) ↔ SameCell fn exp act
  unfolding cells_match
  cells_match-SameCell fn exp act = elim (Bool-cases (is_none exp)) [
    | inl e ↦ elim (Bool-cases (is_none act)) [
      | inl a ↦ rw (e, a) ((λ h. inl (is_none_iff exp e, is_none_iff act a)), (λ h. refl))
      | inr a ↦
          rw (e, a)
            (
              (λ h. absurd (cc)),
              (λ h. elim h [
                | inl (_, n) ↦ absurd (contradiction (sym a ∙ ap is_none n))
                | inr q ↦ absurd (q.0 (is_none_iff exp e))
              ]),
            )
    ]
    | inr e ↦ elim (Bool-cases (is_none act)) [
      | inl a ↦
          rw (e, a)
            (
              (λ h. absurd (cc)),
              (λ h. elim h [
                | inl (n, _) ↦ absurd (contradiction (sym e ∙ ap is_none n))
                | inr q ↦ absurd (q.1 (is_none_iff act a))
              ]),
            )
      | inr a ↦
          rw (e, a)
            (
              (λ h.
                  let (x, y, left, right, close) = (numbers_iff fn exp act).0 h in
                  inr (
                    (λ n. contradiction (sym e ∙ ap is_none n)),
                    (λ n. contradiction (sym a ∙ ap is_none n)),
                    x,
                    y,
                    left,
                    right,
                    close,
                  )),
              (λ h. elim h [
                | inl (n, _) ↦ absurd (contradiction (sym e ∙ ap is_none n))
                | inr (_, _, x, y, left, right, close) ↦
                    (numbers_iff fn exp act).1 (x, y, left, right, close)
              ]),
            )
    ]
  ]

module _ (of_float : Text → Result Value) (show : Value → Text) where
  -- Both queries give a row with this key, and its cells agree one by one.
  abbrev pub SameGroup : View → List (List Value) → List (List Value) → List Value → Type 0
  SameGroup view truth target key =
      (exp : List Value) × (act : List Value) × (cells : List (Value × Value)) × (pairs : List
        (Agg × (Value × Value)))
      × HasCells (length view.group_by) key truth exp
      × HasCells (length view.group_by) key target act
      × (zip_strict exp act ≡ ok cells)
      × (zip_strict view.aggregates cells ≡ ok pairs)
      × All (λ p. SameCell of_float p.0.fn p.1.0 p.1.1) pairs

  cells_iff :
      (ps : List (Agg × (Value × Value)))
      → All (Match of_float show) ps ↔ All (λ p. SameCell of_float p.0.fn p.1.0 p.1.1) ps
  cells_iff ps =
      All-iff (Match of_float show) (λ p. SameCell of_float p.0.fn p.1.0 p.1.1) ps
        (λ p. cells_match-SameCell of_float p.0.fn p.1.0 p.1.1)

  group_iff :
      (view : View) (truth target : List (List Value)) (key : List Value)
      → AgreesOn of_float show view
          (splits (length view.group_by) truth)
          (splits (length view.group_by) target)
          key
        ↔ SameGroup view truth target key
  group_iff view truth target key =
      let n = length view.group_by in
      (
        (λ h.
            let (exp, act, cells, pairs, e, a, z, y, m) = h in
            let found = (found_iff n key truth exp).0 e in
            let found' = (found_iff n key target act).0 a in
            (exp, act, cells, pairs, found, found', z, y, (cells_iff pairs).0 m)),
        (λ h.
            let (exp, act, cells, pairs, e, a, z, y, m) = h in
            let found = (found_iff n key truth exp).1 e in
            let found' = (found_iff n key target act).1 a in
            (exp, act, cells, pairs, found, found', z, y, (cells_iff pairs).1 m)),
      )

  -- If the rows of each query have different keys, `verify_view` counts no mismatch exactly if for every
  -- row of the ground truth the target has a row with the same key whose cells agree, every row of the
  -- target has a key of the ground truth, and, where the view has group columns, the query for dead
  -- groups counts none.
  pub verify_view_iff :
      (view : View) (truth target : List (List Value)) (dead : ℕ) (r : Findings)
      → Apart (length view.group_by) truth
      → Apart (length view.group_by) target
      → verify_view of_float show view truth target dead ≡ ok r
      → (r.0 ≡ 0) ↔ (
          (All (λ row. SameGroup view truth target (take (length view.group_by) row)) truth
            × All
                (λ row.
                  (cells : List Value) × HasCells
                    (length view.group_by)
                    (take (length view.group_by) row)
                    truth
                    cells)
                target)
          × (view.group_by ≢ [] → dead ≡ 0))
  verify_view_iff view truth target dead r apart apart' e =
      let n = length view.group_by in
      let counted = groups_iff of_float show view truth target dead r e in
      let P = AgreesOn of_float show view (splits n truth) (splits n target) in
      let by_rows =
        rw (group_rows-splits n truth apart, group_rows-splits n target apart') at counted in
      then_iff by_rows (
        both_iff
          (both_iff
            (then_iff (keys_iff P n truth) (
              All-iff (λ row. P (take n row)) _ truth
                (λ row. group_iff view truth target (take n row))))
            (then_iff (known_iff n (splits n truth) target)
              (All-iff _ _ target (λ row. known_row n (take n row) truth))))
          (dead_iff view.group_by dead))
