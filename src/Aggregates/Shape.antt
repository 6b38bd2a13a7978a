-- ===== src/Aggregates/Shape.antt =====
-- The contributions of a row have the number and the types of the view's storage columns.
use walflux_postgres_increme.Prelude.{
  ℕ, zero, suc, ◌<◌, ◌≡◌, refl, sym, Bool, true, false, Option, none, some, List, [], ◌∷◌, ◌++◌,
  length, Text, All, Error, Result, ok, err, ◌>>=◌, arith,
}
use mathlib.Core.Path.{subst₂}
use walflux_postgres_increme.Prelude.Int.{ℤ, pos, ◌≤ℤ◌}
use walflux_postgres_increme.Common.Ident.{quote_ident}
use walflux_postgres_increme.Value.{Value, Row, get}
use walflux_postgres_increme.Decimal.{Decimal}
use walflux_postgres_increme.Aggregates.Spec.{
  AggFn, count, sum, avg, unknown, AggSpec, Storage, Num, int, dec, zero_int, zero_dec, agg_storage,
  all_storage, count_storage, total_pair, total_storage, storage_of,
}
use walflux_postgres_increme.Aggregates.Delta.{
  as_decimal, agg_deltas, row_deltas, non_null, total_deltas, count_deltas, sum_deltas, fn_deltas,
}
use walflux_postgres_increme.Aggregates.Batch.{zero_list}
use walflux_postgres_increme.Aggregates.Measure.{entry, AtColumn}

abbrev pub kind : Num → Bool
kind (int _) = false
kind (dec _) = true

-- As many numbers, of the same types.
abbrev pub SameKinds : List Num → List Num → Type 0
SameKinds [] [] = Unit
SameKinds (m ∷ ms) (n ∷ ns) = (kind m ≡ kind n) × SameKinds ms ns
SameKinds [] (_ ∷ _) = ⊥
SameKinds (_ ∷ _) [] = ⊥

SameKinds-append :
    (a b c d : List Num) → SameKinds a b → SameKinds c d → SameKinds (a ++ c) (b ++ d)
SameKinds-append [] [] c d h k = k
SameKinds-append (_ ∷ a) (_ ∷ b) c d h k = (h.0, SameKinds-append a b c d h.1 k)
SameKinds-append [] (_ ∷ b) c d h k = absurd h
SameKinds-append (_ ∷ a) [] c d h k = absurd h

pub zero_list-append : (s t : List Storage) → zero_list (s ++ t) ≡ zero_list s ++ zero_list t
zero_list-append [] t = refl
zero_list-append (x ∷ s) t = rw (zero_list-append s t)

-- every list of contributions that a computation may return
abbrev Kinds : Result (List Storage) → Result (List Num) → Type 0
Kinds (ok st) (ok ds) = SameKinds (zero_list st) ds
Kinds _ _ = Unit

Kinds-err : (r : Result (List Storage)) (x : Error) → Kinds r (err x)
Kinds-err (ok _) x = tt
Kinds-err (err _) x = tt

Kinds-bind :
    {A B : Type 0} (q : Result A) (f : A → Result (List Storage)) (v : Result B)
    (g : B → Result (List Num))
    → ((a : A) (b : B) → Kinds (f a) (g b))
    → Kinds (q >>= f) (v >>= g)
Kinds-bind (ok a) f (ok b) g h = h a b
Kinds-bind (ok a) f (err x) g h = Kinds-err (f a) x
Kinds-bind (err x) f v g h = tt

non_null-kind : (v : Value) → kind (non_null v) ≡ false
unfolding non_null
non_null-kind Value.none = refl
non_null-kind _ = refl

-- storage columns that are a decimal and a count
abbrev IsTotal : List Storage → Type 0
IsTotal st = zero_list st ≡ zero_dec ∷ zero_int ∷ []

decimal-Kinds :
    (st : List Storage) (r : Result Decimal)
    → IsTotal st
    → Kinds (ok st) (r >>= λ d. ok (dec d ∷ int (pos 1) ∷ []))
decimal-Kinds st (ok d) e = rw e (refl, (refl, tt))
decimal-Kinds st (err x) e = tt

total_deltas-Kinds : (st : List Storage) (v : Value) → IsTotal st → Kinds (ok st) (total_deltas v)
unfolding total_deltas
total_deltas-Kinds st Value.none e = rw e (refl, (refl, tt))
total_deltas-Kinds st v e = decimal-Kinds st (as_decimal v) e

count-Kinds :
    (alias : Text) (column : Option Text) (row : Row)
    → Kinds (count_storage alias column) (count_deltas column row)
unfolding count_storage count_deltas
count-Kinds alias none row = (refl, tt)
count-Kinds alias (some c) row =
    Kinds-bind (quote_ident c) _ (get c row) _ (λ src v. (sym (non_null-kind v), tt))

total-Kinds :
    (alias : Text) (column : Option Text) (row : Row)
    → Kinds (total_storage alias column) (sum_deltas column row)
unfolding total_storage sum_deltas
total-Kinds alias none row = tt
total-Kinds alias (some c) row =
    Kinds-bind (quote_ident c) _ (get c row) _
      (λ src v. total_deltas-Kinds (total_pair alias src) v refl)

fn-Kinds :
    (fn : AggFn) (alias : Text) (column : Option Text) (row : Row)
    → Kinds (storage_of fn alias column) (fn_deltas fn column row)
unfolding storage_of fn_deltas
fn-Kinds count alias column row = count-Kinds alias column row
fn-Kinds sum alias column row = total-Kinds alias column row
fn-Kinds avg alias column row = total-Kinds alias column row
fn-Kinds (unknown _) alias column row = tt

agg-Kinds : (agg : AggSpec) (row : Row) → Kinds (agg_storage agg) (agg_deltas agg row)
unfolding agg_storage agg_deltas
agg-Kinds agg row = fn-Kinds agg.fn agg.alias agg.column row

Kinds-append :
    (q q' : Result (List Storage)) (r r' : Result (List Num))
    → Kinds q r
    → Kinds q' r'
    → Kinds (q >>= λ s. q' >>= λ t. ok (s ++ t)) (r >>= λ d. r' >>= λ e. ok (d ++ e))
Kinds-append (ok s) (ok t) (ok d) (ok e) h k =
    rw (zero_list-append s t) (SameKinds-append (zero_list s) d (zero_list t) e h k)
Kinds-append (ok s) (ok t) (ok d) (err _) h k = tt
Kinds-append (ok s) (ok t) (err _) r' h k = tt
Kinds-append (ok s) (err _) r r' h k = tt
Kinds-append (err _) q' r r' h k = tt

row-Kinds : (aggs : List AggSpec) (row : Row) → Kinds (all_storage aggs) (row_deltas aggs row)
unfolding all_storage row_deltas
row-Kinds [] row = tt
row-Kinds (agg ∷ aggs) row =
    Kinds-append (agg_storage agg) (all_storage aggs) (agg_deltas agg row) (row_deltas aggs row)
      (agg-Kinds agg row) (row-Kinds aggs row)

-- A row that contributes at all contributes one number of the right type to each storage column.
pub row_deltas-SameKinds :
    (aggs : List AggSpec) (row : Row) {st : List Storage} {ds : List Num}
    → all_storage aggs ≡ ok st
    → row_deltas aggs row ≡ ok ds
    → SameKinds (zero_list st) ds
row_deltas-SameKinds aggs row {st} {ds} e f = subst₂ (λ q r. Kinds q r) e f (row-Kinds aggs row)

module _ (low : ℤ) where
  -- no decimal has a digit below `10 ^ low`
  abbrev pub IsLow : Num → Type 0
  IsLow (int _) = Unit
  IsLow (dec d) = low ≤ℤ d.exp

  column-of-kind : (z n : Num) → kind z ≡ kind n → IsLow n → AtColumn low (kind z) n
  column-of-kind (int _) (int _) e h = tt
  column-of-kind (dec _) (dec _) e h = h
  column-of-kind (int _) (dec _) e h = absurd (cc)
  column-of-kind (dec _) (int _) e h = absurd (cc)

  pub entry-AtColumn :
      (i : ℕ) (zs ds : List Num)
      → i < length zs
      → SameKinds zs ds
      → All IsLow ds
      → (i < length ds) × AtColumn low (kind (entry i zs)) (entry i ds)
  entry-AtColumn i [] ds h k l = absurd (omega arith)
  entry-AtColumn i (z ∷ zs) [] h k l = absurd k
  entry-AtColumn zero (z ∷ zs) (d ∷ ds) h k l = (omega arith, column-of-kind z d k.0 l.0)
  entry-AtColumn (suc i) (z ∷ zs) (d ∷ ds) h k l =
      let (short, at) = entry-AtColumn i zs ds (omega arith) k.1 l.1 in (omega arith, at)
