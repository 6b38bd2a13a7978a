-- ===== src/Value.antt =====
-- The Python objects that a decoded row holds (walflux/protocol.py, `convert_value`; UNCHANGED_TOAST of
-- walflux/common.py), rows as dicts, and Python's `==` on them. A float is its `repr`, the shortest
-- text that reads back as it; a decimal NaN or infinity is its text.
use walflux_postgres_increme.Prelude.{
  ◌^◌, Bool, true, false, not, ◌&&◌, ◌||◌, List, [], ◌∷◌, Text, codes, ◌=t◌, if◌then◌else◌, Result,
  ok, ◌≡◌, =t_refl, =t→eq, Bool-cases, inl, inr, arith, err, key_error,
}
use walflux_postgres_increme.Prelude.Int.{ℤ, pos, ◌*ℕ◌, eqb_ℤ}
use walflux_postgres_increme.Decimal.{Decimal, min_ℤ, gap, of_ℤ}

pub data Value : Type 0 where
  none unchanged_toast : Value
  text : Text → Value
  bool : Bool → Value
  int : ℤ → Value
  float : Text → Value
  decimal : Decimal → Value
  non_finite : Text → Value

-- `a == b` on finite decimals
unfoldable pub decimal_eq : Decimal → Decimal → Bool
unfolding ◌*ℕ◌
decimal_eq a b =
    let m = min_ℤ a.exp b.exp in eqb_ℤ (a.coef *ℕ (10 ^ gap a.exp m)) (b.coef *ℕ (10 ^ gap b.exp m))

abbrev bool_ℤ : Bool → ℤ
bool_ℤ true = pos 1
bool_ℤ false = pos 0

abbrev is_zero_float : Text → Bool
is_zero_float r = (r =t codes "0.0") || (r =t codes "-0.0")

pub data Number : Type 0 where
  exact : Decimal → Number
  other : Value → Number

number_of : Value → Number
number_of (bool b) = exact (of_ℤ (bool_ℤ b))
number_of (int n) = exact (of_ℤ n)
number_of (decimal d) = exact d
number_of v = other v

non_number_eq : Value → Value → Bool
non_number_eq none none = true
non_number_eq unchanged_toast unchanged_toast = true
non_number_eq (text s) (text t) = s =t t
non_number_eq (float s) (float t) =
    (s =t t && not (s =t codes "nan")) || (is_zero_float s && is_zero_float t)
non_number_eq (non_finite s) (non_finite t) = s =t t && not (s =t codes "NaN")
non_number_eq _ _ = false

number_eq : Number → Number → Bool
unfolding decimal_eq non_number_eq
number_eq (exact a) (exact b) = decimal_eq a b
number_eq (other a) (other b) = non_number_eq a b
number_eq _ _ = false

-- `a == b`. A float against another type of number, which takes a change of a column's type between
-- two rows, counts as different.
unfoldable pub value_eq : Value → Value → Bool
unfolding number_of number_eq
value_eq a b = number_eq (number_of a) (number_of b)

-- `==` on tuples
unfoldable pub key_eq : List Value → List Value → Bool
unfolding value_eq
key_eq [] [] = true
key_eq (a ∷ as') (b ∷ bs) = value_eq a b && key_eq as' bs
key_eq [] (_ ∷ _) = false
key_eq (_ ∷ _) [] = false

-- A `dict` with text keys, in insertion order: a later write to a key keeps its place.
abbrev pub Dict {ℓ} : Type ℓ → Type ℓ
Dict V = List (Text × V)

module _ {ℓ} {V : Type ℓ} where
  -- `d[k]`
  unfoldable pub get : Text → Dict V → Result V
  get k [] = err key_error
  get k ((j, v) ∷ d) = if j =t k then ok v else get k d

  -- `d[k] = v`
  unfoldable pub put : Text → V → Dict V → Dict V
  put k v [] = (k, v) ∷ []
  put k v ((j, w) ∷ d) = if j =t k then (j, v) ∷ d else (j, w) ∷ put k v d

abbrev pub Row : Type 0
Row = Dict Value

module _ {ℓ} {V : Type ℓ} where
  pub get-put_self : (k : Text) (v : V) (d : Dict V) → get k (put k v d) ≡ ok v
  unfolding get put
  get-put_self k v [] = ground (arith, =t_refl k)
  get-put_self k v ((j, w) ∷ d) = elim (Bool-cases (j =t k)) [
    | inl same ↦ rw (same, same)
    | inr differs ↦ rw (differs, differs) (get-put_self k v d)
  ]

  pub get-put_ne :
      (j k : Text) (v : V) (d : Dict V) → (k =t j) ≡ false → get j (put k v d) ≡ get j d
  unfolding get put
  get-put_ne j k v [] h = rw h
  get-put_ne j k v ((i, w) ∷ d) h = elim (Bool-cases (i =t k)) [
    | inl same ↦ rw (same, =t→eq i k same, h)
    | inr differs ↦ elim (Bool-cases (i =t j)) [
      | inl found ↦ rw (differs, found)
      | inr missing ↦ rw (differs, missing) (get-put_ne j k v d h)
    ]
  ]
