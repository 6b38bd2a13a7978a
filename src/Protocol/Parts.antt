-- ===== src/Protocol/Parts.antt =====
-- Proper initial parts of byte strings: what is left of a message that has been cut short.
use walflux_postgres_increme.Prelude.{
  ℕ, ◌<◌, ◌≡◌, ◌≢◌, refl, ap, ◌⊎◌, inl, inr, List, [], ◌∷◌, ◌++◌, length, length-append, All, arith,
  none,
}
use walflux_postgres_increme.Protocol.Reader.{find_zero}

abbrev pub IsPart : List ℕ → List ℕ → Type 0
IsPart part bytes = (b : ℕ) × (rest : List ℕ) × (bytes ≡ part ++ b ∷ rest)

pub nothing-IsPart : (part : List ℕ) → IsPart part [] → ⊥
nothing-IsPart [] (b, rest, e) = cc
nothing-IsPart (c ∷ part) (b, rest, e) = cc

pub tails :
    (x c : ℕ) (xs part : List ℕ) (b : ℕ) (rest : List ℕ)
    → x ∷ xs ≡ c ∷ (part ++ b ∷ rest)
    → (c ≡ x) × (xs ≡ part ++ b ∷ rest)
tails x c xs part b rest e = (cc, cc)

-- A part of two strings stops in the first, or behind it in the second.
pub append-IsPart :
    (xs ys part : List ℕ)
    → IsPart part (xs ++ ys)
    → IsPart part xs ⊎ ((more : List ℕ) × (part ≡ xs ++ more) × IsPart more ys)
append-IsPart [] ys part h = inr (part, refl, h)
append-IsPart (x ∷ xs) ys [] (b, rest, e) = inl (x, xs, refl)
append-IsPart (x ∷ xs) ys (c ∷ part) (b, rest, e) =
    let (same, e') = tails x c (xs ++ ys) part b rest e in
    elim (append-IsPart xs ys part (b, rest, e')) [
      | inl (b', rest', h) ↦ inl (b', rest', rw (same, h) refl)
      | inr (more, h, k) ↦ inr (more, rw (same, h) refl, k)
    ]

pub shorter : (part bytes : List ℕ) → IsPart part bytes → length part < length bytes
shorter part bytes (b, rest, e) = omega (arith, ap (λ z. length z) e, length-append part (b ∷ rest))

pub part-nonzero :
    (xs part : List ℕ) → All (λ b. b ≢ 0) xs → IsPart part (xs ++ 0 ∷ []) → find_zero part ≡ none
unfolding find_zero
part-nonzero xs [] h p = refl
part-nonzero [] (c ∷ part) h (b, rest, e) =
    absurd (nothing-IsPart part (b, rest, (tails 0 c [] part b rest e).1))
part-nonzero (x ∷ xs) (c ∷ part) h (b, rest, e) =
    let (same, e') = tails x c (xs ++ 0 ∷ []) part b rest e in
    let later = part-nonzero xs part h.1 (b, rest, e') in ground (arith, later, same, h.0)
