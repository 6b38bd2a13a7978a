-- ===== src/Demo/Pass.antt =====
-- demo/verify.py: when `verify_view` counts no mismatch, by the groups that it reads.
use walflux_postgres_increme.Prelude.{
  ℕ, ◌+◌, ◌≡◌, ◌↔◌, refl, sym, ◌∙◌, Bool, true, false, Option, none, some, List, [], ◌∷◌, ◌++◌, All,
  length, Text, Result, ok, >>=-ok, ok-injective, arith, Bool-cases, inl, inr,
}
use walflux_postgres_increme.Value.{Value}
use walflux_postgres_increme.Demo.Queries.{Agg, View}
use walflux_postgres_increme.Demo.Cells.{cells_match}
use walflux_postgres_increme.Demo.Report.{zip_strict, sorted, insert, key_ltb, group_label}
use walflux_postgres_increme.Demo.Compare.{
  Groups, Findings, find_group, group_rows, keys, is_absent, extra_keys, penalty, joined,
  check_cell, check_cells, check_found, check_key, check_keys, dead_groups, verify_view,
}

pub both_iff : {P Q R S : Type 0} → (P ↔ Q) → (R ↔ S) → (P × R) ↔ (Q × S)
both_iff f g = ((λ h. (f.0 h.0, g.0 h.1)), (λ h. (f.1 h.0, g.1 h.1)))

pub then_iff : {P Q R : Type 0} → (P ↔ Q) → (Q ↔ R) → P ↔ R
then_iff f g = ((λ h. g.0 (f.0 h)), (λ h. f.1 (g.1 h)))

module _ (of_float : Text → Result Value) (show : Value → Text) where
  abbrev pub Match : Agg × (Value × Value) → Type 0
  Match (agg, (exp, act)) = cells_match of_float agg.fn exp act ≡ ok true

  -- Both tables have the group, and every aggregate of the view matches in it.
  abbrev pub Agrees : View → Option (List Value) → Option (List Value) → Type 0
  Agrees view e a =
      (exp : List Value) × (act : List Value) × (cells : List (Value × Value)) × (pairs : List
        (Agg × (Value × Value)))
      × (e ≡ some exp)
      × (a ≡ some act)
      × (zip_strict exp act ≡ ok cells)
      × (zip_strict view.aggregates cells ≡ ok pairs)
      × All Match pairs

  abbrev pub AgreesOn : View → Groups → Groups → List Value → Type 0
  AgreesOn view expected actual key = Agrees view (find_group key expected) (find_group key actual)

  none_counted : (m n : ℕ) → (m + n ≡ 0) ↔ ((m ≡ 0) × (n ≡ 0))
  none_counted m n = ((λ h. (omega arith, omega arith)), (λ h. omega arith))

  penalty_iff : (r : Result Bool) (same : Bool) → r ≡ ok same → (penalty same ≡ 0) ↔ (r ≡ ok true)
  penalty_iff r true e = ((λ _. e), (λ _. refl))
  penalty_iff r false e = ((λ h. absurd (omega arith)), (λ h. absurd (wrong (sym e ∙ h))))
    where
      wrong : ok false ≡ ok true → ⊥
      wrong h = cc

  joined_iff :
      {P Q : Type 0} (f g r : Findings)
      → joined f g ≡ r
      → (f.0 ≡ 0) ↔ P
      → (g.0 ≡ 0) ↔ Q
      → (r.0 ≡ 0) ↔ (P × Q)
  joined_iff f g r e p q = rw (← e) (then_iff (none_counted f.0 g.0) (both_iff p q))

  check_cells_iff :
      (label : Text) (cs : List (Agg × (Value × Value))) (r : Findings)
      → check_cells of_float show label cs ≡ ok r
      → (r.0 ≡ 0) ↔ All Match cs
  check_cells_iff label [] r e = rw (← ok-injective e) ((λ _. tt), (λ _. refl))
  check_cells_iff label ((agg, (exp, act)) ∷ cs) r e =
      let (one, checked, e₁) = >>=-ok (check_cell of_float show label (agg, (exp, act))) _ e in
      let (rest, others, e₂) = >>=-ok (check_cells of_float show label cs) _ e₁ in
      let (same, compared, e₃) = >>=-ok (cells_match of_float agg.fn exp act) _ checked in
      joined_iff one rest r (ok-injective e₂)
        (rw (← ok-injective e₃) (penalty_iff (cells_match of_float agg.fn exp act) same compared))
        (check_cells_iff label cs rest others)

  check_found_iff :
      (view : View) (label : Text) (e a : Option (List Value)) (r : Findings)
      → check_found of_float show view label e a ≡ ok r
      → (r.0 ≡ 0) ↔ Agrees view e a
  check_found_iff view label e none r h =
      rw (← ok-injective h) ((λ z. absurd (omega arith)), (λ agrees. absurd (cc)))
  check_found_iff view label none (some act) r h =
      rw (← ok-injective h) ((λ z. absurd (omega arith)), (λ agrees. absurd (cc)))
  check_found_iff view label (some exp) (some act) r h =
      let (cells, zipped, h₁) = >>=-ok (zip_strict exp act) _ h in
      let (pairs, all_zipped, h₂) = >>=-ok (zip_strict view.aggregates cells) _ h₁ in
      let counted = check_cells_iff label pairs r h₂ in
      (
        (λ z. (exp, act, cells, pairs, refl, refl, zipped, all_zipped, counted.0 z)),
        (λ agrees.
            let (_, _, _, pairs', _, _, _, _, matching) = agrees in
            let same : pairs' ≡ pairs = cc in counted.1 (rw same at matching)),
      )

  check_keys_iff :
      (view : View) (expected actual : Groups) (ks : List (List Value)) (r : Findings)
      → check_keys of_float show view expected actual ks ≡ ok r
      → (r.0 ≡ 0) ↔ All (AgreesOn view expected actual) ks
  unfolding check_keys check_key
  check_keys_iff view expected actual [] r e = rw (← ok-injective e) ((λ _. tt), (λ _. refl))
  check_keys_iff view expected actual (key ∷ ks) r e =
      let (one, checked, e₁) = >>=-ok (check_key of_float show view expected actual key) _ e in
      let (rest, others, e₂) = >>=-ok (check_keys of_float show view expected actual ks) _ e₁ in
      let (label, _, e₃) = >>=-ok (group_label show view key) _ checked in
      joined_iff one rest r (ok-injective e₂)
        (check_found_iff view label (find_group key expected) (find_group key actual) one e₃)
        (check_keys_iff view expected actual ks rest others)

  insert-All :
      (P : List Value → Type 0) (k : List Value) (ks : List (List Value))
      → All P (insert show k ks) ↔ (P k × All P ks)
  unfolding insert
  insert-All P k [] = ((λ h. h), (λ h. h))
  insert-All P k (x ∷ xs) = elim (Bool-cases (key_ltb show x k)) [
    | inl later ↦ rw later (
      (λ h. let (mine, others) = (insert-All P k xs).0 h.1 in (mine, (h.0, others))),
      (λ h. (h.1.0, (insert-All P k xs).1 (h.0, h.1.1))),
    )
    | inr before ↦ rw before ((λ h. h), (λ h. h))
  ]

  sorted-All :
      (P : List Value → Type 0) (ks : List (List Value)) → All P (sorted show ks) ↔ All P ks
  unfolding sorted
  sorted-All P [] = ((λ h. h), (λ h. h))
  sorted-All P (k ∷ ks) =
      then_iff (insert-All P k (sorted show ks)) (both_iff ((λ h. h), (λ h. h)) (sorted-All P ks))

  append-All :
      (P : List Value → Type 0) (ks ls : List (List Value))
      → All P (ks ++ ls) ↔ (All P ks × All P ls)
  append-All P [] ls = ((λ h. (tt, h)), (λ h. h.1))
  append-All P (k ∷ ks) ls = (
    (λ h. let (mine, others) = (append-All P ks ls).0 h.1 in ((h.0, mine), others)),
    (λ h. (h.0.0, (append-All P ks ls).1 (h.0.1, h.1))),
  )

  -- An extra group is never one that agrees.
  absent-AgreesOn :
      (view : View) (expected actual : Groups) (k : List Value)
      → is_absent (find_group k expected) ≡ true
      → AgreesOn view expected actual k
      → ⊥
  absent-AgreesOn view expected actual k missing agrees =
      let (exp, _, _, _, found, _, _, _, _) = agrees in
      absurd (clash (find_group k expected) exp missing found)
    where
      clash : (o : Option (List Value)) (exp : List Value) → is_absent o ≡ true → o ≡ some exp → ⊥
      clash none exp m f = cc
      clash (some x) exp m f = cc

  extra_iff :
      (view : View) (expected actual gs : Groups)
      → All (AgreesOn view expected actual) (extra_keys expected gs) ↔ (extra_keys expected gs ≡ [])
  extra_iff view expected actual [] = ((λ _. refl), (λ _. tt))
  extra_iff view expected actual ((k, c) ∷ gs) =
      elim (Bool-cases (is_absent (find_group k expected))) [
        | inl missing ↦
            rw missing (
              (λ h. absurd (absent-AgreesOn view expected actual k missing h.0)),
              (λ h. absurd (cc)),
            )
        | inr present ↦ rw present (extra_iff view expected actual gs)
      ]

  -- The same over the groups that are read from the rows.
  pub groups_iff :
      (view : View) (truth target : List (List Value)) (dead : ℕ) (r : Findings)
      → verify_view of_float show view truth target dead ≡ ok r
      → (r.0 ≡ 0) ↔ (
          (All
              (AgreesOn view
                (group_rows (length view.group_by) truth)
                (group_rows (length view.group_by) target))
              (keys (group_rows (length view.group_by) truth))
            × (extra_keys
                  (group_rows (length view.group_by) truth)
                  (group_rows (length view.group_by) target)
                ≡ []))
          × (dead_groups view.group_by dead ≡ 0))
  unfolding verify_view
  groups_iff view truth target dead r e =
      let expected = group_rows (length view.group_by) truth in
      let actual = group_rows (length view.group_by) target in
      let extra = extra_keys expected actual in
      let (found, checked, e₁) =
        >>=-ok
          (check_keys of_float show view expected actual (sorted show (keys expected ++ extra))) _
          e in
      let P = AgreesOn view expected actual in
      rw (← ok-injective e₁) (
        then_iff (none_counted found.0 (dead_groups view.group_by dead)) (
          both_iff
            (then_iff (check_keys_iff view expected actual _ found checked) (
              then_iff (sorted-All P (keys expected ++ extra)) (
                then_iff (append-All P (keys expected) extra)
                  (both_iff ((λ h. h), (λ h. h)) (extra_iff view expected actual actual)))))
            ((λ h. h), (λ h. h))))
