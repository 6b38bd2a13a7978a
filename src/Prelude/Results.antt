-- ===== src/Prelude/Results.antt =====
-- Exceptions as values. A class of `walflux/common.py` has a constructor of its own, and so has each
-- built-in exception that the modelled code lets through; the message texts are left out.
-- `database_error` is a `psycopg2.Error` other than the two before it.
use mathlib.Core.Path.{◌≡◌, refl}
use mathlib.Core.Logic.{◌⊎◌, inl, inr}
use mathlib.Core.Bool.{Bool, true, false}
use mathlib.Core.List.{List, [], ◌∷◌}
use walflux_postgres_increme.Prelude.Tests.{if◌then◌else◌}

pub data Error : Type 0 where
  walflux_error protocol_error config_error schema_drift_error setup_error : Error
  index_error value_error key_error overflow_error unicode_error struct_error : Error
  invalid_operation type_error : Error
  insufficient_privilege undefined_table database_error : Error

pub data Result {μ} (X : Type μ) : Type μ where
  err : Error → Result X
  ok : X → Result X

-- `if failed: raise e`
abbrev pub raise_if : Bool → Error → Result (Unit {0})
raise_if true e = err e
raise_if false e = ok tt

-- What follows a call that may raise.
infixl 5 ◌>>=◌
abbrev pub ◌>>=◌ {μ ν} : {X : Type μ} {Y : Type ν} (call : Result X) → (X → Result Y) → Result Y
(err raised) >>= next = err raised
(ok x) >>= next = next x

infixl 5 ◌>>◌
abbrev pub ◌>>◌ {μ ν} : {X : Type μ} {Y : Type ν} → Result X → Result Y → Result Y
call >> next = call >>= λ ignored. next

-- A list comprehension whose body may raise.
abbrev pub map_result {ℓ κ} : {A : Type ℓ} {B : Type κ} → (A → Result B) → List A → Result (List B)
map_result f [] = ok []
map_result f (x ∷ xs) = do y ← f x; ys ← map_result f xs; ok (y ∷ ys)

pub >>=-ok {μ ν} :
    {X : Type μ} {Y : Type ν} {y : Y} (call : Result X) (next : X → Result Y)
    → (call >>= next) ≡ ok y
    → (x : X) × (call ≡ ok x) × (next x ≡ ok y)
>>=-ok (err raised) next returned = cc
>>=-ok (ok x) next returned = (x, refl, returned)

pub ok-injective {ℓ} : {A : Type ℓ} {a b : A} → ok a ≡ ok b → a ≡ b
ok-injective h = cc

pub raised_or {ℓ} :
    {A : Type ℓ} {a b : A} (x : Error) (failed : Bool)
    → (if failed then err x else ok a) ≡ ok b
    → (failed ≡ false) × (a ≡ b)
raised_or x true e = cc
raised_or x false e = (refl, ok-injective e)

pub either {ℓ} :
    {A : Type ℓ} {a b : Result A} {c : A} (due : Bool)
    → (if due then a else b) ≡ ok c
    → ((due ≡ true) × (a ≡ ok c)) ⊎ ((due ≡ false) × (b ≡ ok c))
either true e = inl (refl, e)
either false e = inr (refl, e)

pub >>=_assoc {ℓ κ μ} :
    {A : Type ℓ} {B : Type κ} {C : Type μ} (m : Result A) (f : A → Result B) (g : B → Result C)
    → ((m >>= f) >>= g) ≡ (m >>= λ a. f a >>= g)
>>=_assoc (ok a) f g = refl
>>=_assoc (err e) f g = refl

pub >>=_ext {ℓ κ} :
    {A : Type ℓ} {B : Type κ} (m : Result A) (f g : A → Result B)
    → ((a : A) → f a ≡ g a)
    → (m >>= f) ≡ (m >>= g)
>>=_ext (ok a) f g h = h a
>>=_ext (err e) f g h = refl
