-- ===== src/Common/Ident.antt =====
-- walflux/common.py, `quote_ident`: validation and quoting of SQL identifiers.
use walflux_postgres_increme.Prelude.{
  ℕ, ◌≤◌, ◌<◌, ◌≡◌, ◌↔◌, refl, ap, ◌⊎◌, inl, inr, Bool, true, false, not, ◌&&◌, ◌||◌, [], ◌∷◌, ◌++◌,
  Text, length, All, ltb, leb, ◌==◌, if◌then◌else◌, Result, ok, err, walflux_error, arith,
  Bool-cases,
}
use walflux_postgres_increme.Prelude.Utf8.{encode, encode-ascii}

-- `[a-z_]`
unfoldable pub is_ident_start : ℕ → Bool
is_ident_start c = leb b'a' c && leb c b'z' || c == b'_'

-- `[a-z0-9_]`
unfoldable pub is_ident_char : ℕ → Bool
unfolding is_ident_start
is_ident_char c = is_ident_start c || leb b'0' c && leb c b'9'

abbrev is_empty : Text → Bool
is_empty [] = true
is_empty (_ ∷ _) = false

-- `[a-z0-9_]*$`: the class holds no newline, so the run is the longest one, and `$` matches at the
-- end of the text and before a newline that ends it.
ident_tail : Text → Bool
ident_tail [] = true
ident_tail (c ∷ s) = if is_ident_char c then ident_tail s else c == 10 && is_empty s

-- `_IDENT_RE.match(name)`
unfoldable pub ident_match : Text → Bool
unfolding ident_tail
ident_match [] = false
ident_match (c ∷ s) = is_ident_start c && ident_tail s

unfoldable pub quote_ident : Text → Result Text
quote_ident name =
    if not (ident_match name) || ltb 63 (length (encode name))
    then err walflux_error
    else ok (b'"' ∷ name ++ b'"' ∷ [])

-- What the doc string asks of an identifier.
abbrev pub IsIdent : Text → Type 0
IsIdent [] = ⊥
IsIdent (c ∷ s) = (is_ident_start c ≡ true) × All (λ d. is_ident_char d ≡ true) s

abbrev pub Chars : Text → Type 0
Chars = All (λ d. is_ident_char d ≡ true)

-- `$` also matches before a newline that ends the text.
abbrev pub IsIdentLine : Text → Type 0
IsIdentLine name = IsIdent name ⊎ ((m : Text) × (name ≡ m ++ 10 ∷ []) × IsIdent m)

newline_only :
    (c : ℕ) (s : Text) → (c == 10 && is_empty s) ≡ true → ◌≡◌ {A = Text} (c ∷ s) (10 ∷ [])
newline_only c [] h = ground arith
newline_only c (_ ∷ _) h = ground arith

-- the run and what `$` leaves behind it
ident_tail_sound :
    (s : Text) → ident_tail s ≡ true → Chars s ⊎ ((r : Text) × (s ≡ r ++ 10 ∷ []) × Chars r)
unfolding ident_tail
ident_tail_sound [] h = inl tt
ident_tail_sound (c ∷ s) h = elim (Bool-cases (is_ident_char c)) [
  | inl good ↦ elim (ident_tail_sound s (rw good at h)) [
    | inl all ↦ inl (good, all)
    | inr (r, e, all) ↦ inr (c ∷ r, ap (λ (t : Text). c ∷ t) e, (good, all))
  ]
  | inr bad ↦ inr ([], newline_only c s (rw bad at h), tt)
]

ident_tail-newline : (s : Text) → Chars s → ident_tail (s ++ 10 ∷ []) ≡ true
unfolding ident_tail is_ident_char
ident_tail-newline [] h = refl
ident_tail-newline (c ∷ s) h = rw h.0 (ident_tail-newline s h.1)

ident_tail-Chars : (s : Text) → Chars s → ident_tail s ≡ true
unfolding ident_tail
ident_tail-Chars [] h = refl
ident_tail-Chars (c ∷ s) h = rw h.0 (ident_tail-Chars s h.1)

ident_match_sound : (name : Text) → ident_match name ≡ true → IsIdentLine name
unfolding ident_match
ident_match_sound [] h = absurd (cc)
ident_match_sound (c ∷ s) h = elim (ident_tail_sound s (ground arith)) [
  | inl all ↦ inl (ground arith, all)
  | inr (r, e, all) ↦ inr (c ∷ r, ap (λ (t : Text). c ∷ t) e, (ground arith, all))
]

ident_match-IsIdent : (name : Text) → IsIdent name → ident_match name ≡ true
unfolding ident_match
ident_match-IsIdent [] h = elim h [ ]
ident_match-IsIdent (c ∷ s) h = rw h.0 (ident_tail-Chars s h.1)

ident_match-newline : (name : Text) → IsIdent name → ident_match (name ++ 10 ∷ []) ≡ true
unfolding ident_match
ident_match-newline [] h = elim h [ ]
ident_match-newline (c ∷ s) h = rw h.0 (ident_tail-newline s h.1)

ascii : (c : ℕ) → is_ident_char c ≡ true → c < 0x80
unfolding is_ident_char
ascii c h = ground arith

start-char : (c : ℕ) → is_ident_start c ≡ true → is_ident_char c ≡ true
unfolding is_ident_char
start-char c h = rw h

Chars-ascii : (s : Text) → Chars s → All (λ c. c < 0x80) s
Chars-ascii [] h = tt
Chars-ascii (c ∷ s) h = (ascii c h.0, Chars-ascii s h.1)

Chars-newline : (s : Text) → Chars s → All (λ c. c < 0x80) (s ++ 10 ∷ [])
Chars-newline [] h = omega arith
Chars-newline (c ∷ s) h = (ascii c h.0, Chars-newline s h.1)

IsIdent-Chars : (s : Text) → IsIdent s → Chars s
IsIdent-Chars [] h = tt
IsIdent-Chars (c ∷ s) h = (start-char c h.0, h.1)

IsIdentLine-bytes : (name : Text) → IsIdentLine name → encode name ≡ name
IsIdentLine-bytes name (inl h) = encode-ascii name (Chars-ascii name (IsIdent-Chars name h))
IsIdentLine-bytes name (inr (m, e, h)) = rw e (encode-ascii _ (Chars-newline m (IsIdent-Chars m h)))

IsIdentLine-match : (name : Text) → IsIdentLine name → ident_match name ≡ true
IsIdentLine-match name (inl h) = ident_match-IsIdent name h
IsIdentLine-match name (inr (m, e, h)) = rw e (ident_match-newline m h)

-- Whatever `quote_ident` accepts is an identifier of at most 63 characters, or such an identifier
-- of at most 62 with one newline behind it, and it comes back between double quotes.
pub quote_ident_sound :
    (name q : Text)
    → quote_ident name ≡ ok q
    → IsIdentLine name × (length name ≤ 63) × (q ≡ b'"' ∷ name ++ b'"' ∷ [])
unfolding quote_ident
quote_ident_sound name q h =
    let line : IsIdentLine name = ident_match_sound name (ground arith) in
    (
      line,
      ground (
        arith,
        IsIdentLine-bytes name line,
        ap (λ (t : Text). length t) (IsIdentLine-bytes name line),
      ),
      ground arith,
    )

-- Every identifier of at most 63 characters is quoted, and so is one with a newline behind it.
pub quote_ident_complete :
    (name : Text)
    → IsIdentLine name
    → length name ≤ 63
    → quote_ident name ≡ ok (b'"' ∷ name ++ b'"' ∷ [])
unfolding quote_ident
quote_ident_complete name h l =
    rw (IsIdentLine-match name h, IsIdentLine-bytes name h) (ground arith)

-- `quote_ident` succeeds exactly on an identifier of at most 63 characters, or one of at most 62
-- with a single newline behind it, and its result is the name between double quotes.
pub quote_ident_exact :
    (name q : Text)
    → (quote_ident name ≡ ok q)
      ↔ (IsIdentLine name × (length name ≤ 63) × (q ≡ b'"' ∷ name ++ b'"' ∷ []))
quote_ident_exact name q =
    (quote_ident_sound name q, λ (h, l, e). rw e (quote_ident_complete name h l))
