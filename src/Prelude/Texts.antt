-- ===== src/Prelude/Texts.antt =====
-- A Python `str`: the list of its code points, and the operations of `str` that the program uses.
use Prim.Native.Nat.{ℕ}
use Prim.Native.Char.{code}
use Prim.Native.String.{String}
use mathlib.Core.Path.{◌≡◌, refl}
use mathlib.Core.Bool.{Bool, true, false, ◌&&◌}
use mathlib.Core.List.{List, [], ◌∷◌, ◌++◌}
use native.Mathlib.Omega.{arith}
use walflux_postgres_increme.Prelude.Tests.{◌==◌, if◌then◌else◌}

abbrev pub Text : Type 0
Text = List ℕ

-- A text literal.
abbrev pub codes : String → Text
codes String.[] = []
codes (String.◌∷◌ c s) = code c ∷ codes s

infix 50 ◌=t◌
abbrev pub ◌=t◌ : Text → Text → Bool
[] =t [] = true
(x ∷ xs) =t (y ∷ ys) = x == y && xs =t ys
[] =t (_ ∷ _) = false
(_ ∷ _) =t [] = false

pub =t_refl : (s : Text) → (s =t s) ≡ true
=t_refl [] = refl
=t_refl (x ∷ s) = ground (arith, =t_refl s)

pub =t→eq : (s t : Text) → (s =t t) ≡ true → s ≡ t
=t→eq [] [] h = refl
=t→eq (x ∷ s) (y ∷ t) h = ground (arith, =t→eq s t)
=t→eq [] (y ∷ t) h = ground arith
=t→eq (x ∷ s) [] h = ground arith

pub =t_sym : (s t : Text) → (s =t t) ≡ (t =t s)
=t_sym [] [] = refl
=t_sym (x ∷ s) (y ∷ t) = ground (arith, =t_sym s t)
=t_sym [] (y ∷ t) = refl
=t_sym (x ∷ s) [] = refl

-- `sep.join(parts)`
abbrev pub join : Text → List Text → Text
join sep [] = []
join sep (p ∷ []) = p
join sep (p ∷ q ∷ ps) = p ++ sep ++ join sep (q ∷ ps)

-- `c in s`, for a character
abbrev pub contains : ℕ → Text → Bool
contains c [] = false
contains c (x ∷ s) = if c == x then true else contains c s

-- `t in ts`
abbrev pub member : Text → List Text → Bool
member t [] = false
member t (x ∷ ts) = if t =t x then true else member t ts
