-- ===== src/Protocol/Rules.antt =====
-- `Reads m bytes v`: wherever `bytes` stand in the buffer, at the reader's position, `m` consumes just
-- them and returns `v`, and where the buffer ends within them it raises ProtocolError. One rule for each
-- way to build a decoder.
use native.Mathlib.Nat.{add-zero}
use mathlib.Core.Path.{subst₂, subst₃}
use walflux_postgres_increme.Prelude.{
  ℕ, ◌+◌, ◌≡◌, refl, sym, ap, subst, ◌∙◌, List, [], ◌++◌, append_assoc, append-nil, length,
  length-append, Result, ok, err, protocol_error, inl, inr, arith,
}
use walflux_postgres_increme.Prelude.Int.{pos}
use walflux_postgres_increme.Protocol.Reader.{Reader, Read, pure, lift, ◌>>=◌}
use walflux_postgres_increme.Protocol.Parts.{IsPart, nothing-IsPart, append-IsPart}

abbrev pub place : List ℕ → ℕ → ℕ → Reader
place buf kind n = record { buf = buf; kind = kind; at = pos n }

pub record Reads {A : Type 0} (m : Read A) (bytes : List ℕ) (v : A) : Type 0 where
  pub reads :
      (front back : List ℕ) (kind : ℕ)
      → m (place (front ++ (bytes ++ back)) kind (length front))
        ≡ ok (v, place (front ++ (bytes ++ back)) kind (length front + length bytes))
  pub cuts :
      (front part : List ℕ) (kind : ℕ)
      → IsPart part bytes
      → m (place (front ++ part) kind (length front)) ≡ err protocol_error

pub Reads-pure : {A : Type 0} (a : A) → Reads (pure a) [] a
Reads-pure a = record {
  reads = λ front back kind. rw add-zero;
  cuts = λ front part kind h. absurd (nothing-IsPart part h);
}

pub Reads-lift : {A : Type 0} (q : Result A) (a : A) → q ≡ ok a → Reads (lift q) [] a
Reads-lift q a e = rw e (Reads-pure a)

bind-at :
    {A B : Type 0} (m : Read A) (f : A → Read B) (r r' r'' : Reader) (a : A) (b : B)
    → m r ≡ ok (a, r')
    → f a r' ≡ ok (b, r'')
    → (m >>= f) r ≡ ok (b, r'')
bind-at m f r r' r'' a b e e' = rw (e, ◌>>=◌) e'

cut-at :
    {A B : Type 0} (m : Read A) (f : A → Read B) (r : Reader)
    → m r ≡ err protocol_error
    → (m >>= f) r ≡ err protocol_error
cut-at m f r e = rw (e, ◌>>=◌) refl

bind-cut :
    {A B : Type 0} (m : Read A) (f : A → Read B) (r r' : Reader) (a : A)
    → m r ≡ ok (a, r')
    → f a r' ≡ err protocol_error
    → (m >>= f) r ≡ err protocol_error
bind-cut m f r r' a e e' = rw (e, ◌>>=◌) e'

pub Reads-bind :
    {A B : Type 0} {m : Read A} (f : A → Read B) {xs ys : List ℕ} {a : A} {b : B}
    → Reads m xs a
    → Reads (f a) ys b
    → Reads (m >>= f) (xs ++ ys) b
Reads-bind {m = m} f {xs = xs} {ys = ys} {a = a} {b = b} h₁ k = record {
  reads = λ front back kind.
      let n = length front in
      let buf = front ++ ((xs ++ ys) ++ back) in
      let left : front ++ (xs ++ (ys ++ back)) ≡ buf =
        ap (λ (z : List ℕ). front ++ z) (sym (append_assoc xs ys back)) in
      let right : (front ++ xs) ++ (ys ++ back) ≡ buf = append_assoc front xs (ys ++ back) ∙ left in
      bind-at m f (place buf kind n) (place buf kind (n + length xs)) _ a b
        (subst (λ z. m (place z kind n) ≡ ok (a, place z kind (n + length xs))) left
          (h₁.reads front (ys ++ back) kind))
        (subst₃ (λ z (p : ℕ) (q : ℕ). f a (place z kind p) ≡ ok (b, place z kind q)) right
          (length-append front xs) (omega (arith, length-append front xs, length-append xs ys))
          (k.reads (front ++ xs) back kind));
  cuts = λ front part kind h. elim (append-IsPart xs ys part h) [
    | inl within ↦
        cut-at m f (place (front ++ part) kind (length front)) (h₁.cuts front part kind within)
    | inr (more, same, beyond) ↦
        let left : front ++ (xs ++ more) ≡ front ++ part =
          ap (λ (z : List ℕ). front ++ z) (sym same) in
        bind-cut m f (place (front ++ part) kind (length front))
          (place (front ++ part) kind (length front + length xs)) a
          (subst
            (λ z. m (place z kind (length front)) ≡ ok (a, place z kind (length front + length xs)))
            left (h₁.reads front more kind))
          (subst₂ (λ z (p : ℕ). f a (place z kind p) ≡ err protocol_error)
            (append_assoc front xs more ∙ left) (length-append front xs)
            (k.cuts (front ++ xs) more kind beyond))
  ];
}

-- Bytes and no rest: the end of a chain of binds.
pub Reads-last :
    {A B : Type 0} {m : Read A} (f : A → Read B) {xs : List ℕ} {a : A} {b : B}
    → Reads m xs a
    → Reads (f a) [] b
    → Reads (m >>= f) xs b
Reads-last {m = m} f {xs = xs} {b = b} h k =
    subst (λ z. Reads (m >>= f) z b) (append-nil xs) (Reads-bind f h k)
