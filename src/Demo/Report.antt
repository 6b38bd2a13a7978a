-- ===== src/Demo/Report.antt =====
-- demo/verify.py: labels, the order of groups, and the table that is printed. `show` is Python's `str`
-- of a value.
use walflux_postgres_increme.Prelude.{
  ℕ, zero, suc, ◌-◌, max, Bool, true, false, not, ◌&&◌, ◌||◌, List, [], ◌∷◌, ◌++◌, map, Text, codes,
  join, ltb, ◌==◌, length, if◌then◌else◌, Result, ok, err, value_error, ◌>>=◌, map_result,
}
use walflux_postgres_increme.Value.{Value}
use walflux_postgres_increme.Demo.Queries.{View}
use walflux_postgres_increme.Demo.Cells.{is_none}

-- `s < t` on texts
abbrev pub text_ltb : Text → Text → Bool
text_ltb [] [] = false
text_ltb [] (_ ∷ _) = true
text_ltb (_ ∷ _) [] = false
text_ltb (c ∷ s) (d ∷ t) = ltb c d || c == d && text_ltb s t

-- `zip(…, strict=True)`
abbrev pub zip_strict {ℓ κ} : {A : Type ℓ} {B : Type κ} → List A → List B → Result (List (A × B))
zip_strict [] [] = ok []
zip_strict (a ∷ as') (b ∷ bs) = do rest ← zip_strict as' bs; ok ((a, b) ∷ rest)
zip_strict [] (_ ∷ _) = err value_error
zip_strict (_ ∷ _) [] = err value_error

-- `s.ljust(w)`
abbrev spaces : ℕ → Text
spaces zero = []
spaces (suc n) = 32 ∷ spaces n

abbrev ljust : Text → ℕ → Text
ljust s w = s ++ spaces (w - length s)

-- `s.rstrip()` on text that ends in no other white space than spaces
abbrev blank : Text → Bool
blank [] = true
blank (c ∷ s) = c == 32 && blank s

abbrev rstrip : Text → Text
rstrip [] = []
rstrip (c ∷ s) = if blank (c ∷ s) then [] else c ∷ rstrip s

abbrev wider : List ℕ → List Text → Result (List ℕ)
wider widths row = do
  pairs ← zip_strict widths row
  ok (map (λ (p : ℕ × Text). max p.0 (length p.1)) pairs)

abbrev widest : List ℕ → List (List Text) → Result (List ℕ)
widest widths [] = ok widths
widest widths (row ∷ rows) = do w ← wider widths row; widest w rows

abbrev line : List ℕ → List Text → Result Text
line widths cells = do
  pairs ← zip_strict cells widths
  ok (rstrip (join (codes "  ") (map (λ (p : Text × ℕ). ljust p.0 p.1) pairs)))

abbrev dashes : ℕ → Text
dashes zero = []
dashes (suc n) = b'-' ∷ dashes n

unfoldable pub render : List Text → List (List Text) → Result Text
render headers rows = do
  widths ← widest (map (λ (h : Text). length h) headers) rows
  head ← line widths headers
  sep ← line widths (map dashes widths)
  lines ← map_result (line widths) rows
  ok (join (10 ∷ []) (head ∷ sep ∷ lines))

module _ (show : Value → Text) where
  abbrev pub fmt : Value → Text
  fmt v = if is_none v then codes "NULL" else show v

  -- `_null_safe_key(a) < _null_safe_key(b)`: pairs of whether the value is not None and its text
  unfoldable pub key_ltb : List Value → List Value → Bool
  key_ltb [] [] = false
  key_ltb [] (_ ∷ _) = true
  key_ltb (_ ∷ _) [] = false
  key_ltb (a ∷ as') (b ∷ bs) =
      let rest = key_ltb as' bs in
      if is_none a && not (is_none b)
      then true
      else if is_none b && not (is_none a)
      then false
      else text_ltb (show a) (show b) || not (text_ltb (show b) (show a)) && rest

  -- `sorted(…, key=_null_safe_key)`, which is stable
  unfoldable pub insert : List Value → List (List Value) → List (List Value)
  unfolding key_ltb
  insert k [] = k ∷ []
  insert k (x ∷ xs) = let later = insert k xs in if key_ltb x k then x ∷ later else k ∷ x ∷ xs

  unfoldable pub sorted : List (List Value) → List (List Value)
  unfolding insert
  sorted [] = []
  sorted (k ∷ ks) = insert k (sorted ks)

  abbrev parts : List (Text × Value) → List Text
  parts [] = []
  parts ((g, v) ∷ ps) = (g ++ codes "=" ++ fmt v) ∷ parts ps

  abbrev label_of : List Text → List Value → Result Text
  label_of [] key = ok (codes "(all rows)")
  label_of (g ∷ gs) key = do pairs ← zip_strict (g ∷ gs) key; ok (join (codes ", ") (parts pairs))

  unfoldable pub group_label : View → List Value → Result Text
  group_label view key = label_of view.group_by key
