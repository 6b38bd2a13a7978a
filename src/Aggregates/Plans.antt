-- ===== src/Aggregates/Plans.antt =====
-- The plans of a new batch: each is built from a view, its deltas start at zeros of the types of the
-- view's storage columns, and no group has any yet.
use walflux_postgres_increme.Prelude.{
  ℕ, zero, suc, ◌<◌, ◌≡◌, refl, subst, ◌⊎◌, inl, inr, Option, none, some, List, [], ◌∷◌, ◌++◌,
  length, Text, ◌=t◌, All, Result, ok, err, >>=-ok, ok-injective, Bool-cases, ◌>>=◌, arith,
}
use walflux_postgres_increme.Prelude.Int.{ℤ, pos, ◌≤ℤ◌, ◌*ℕ◌, int_laws}
use walflux_postgres_increme.Common.Ident.{quote_ident}
use walflux_postgres_increme.Value.{Dict, get, put}
use walflux_postgres_increme.Decimal.Exact.{units}
use walflux_postgres_increme.Aggregates.Spec.{
  AggFn, count, sum, avg, unknown, AggSpec, ViewSpec, Storage, Num, zero_int, zero_dec, agg_storage,
  all_storage, count_storage, total_storage, storage_of,
}
use walflux_postgres_increme.Aggregates.Sql.{upsert_sql}
use walflux_postgres_increme.Aggregates.Batch.{
  Plan, DeltaBatch, zero_list, build_plan, build_plans, no_deltas, new,
}
use walflux_postgres_increme.Aggregates.Measure.{entry, measure, AtColumn}
use walflux_postgres_increme.Aggregates.Shape.{kind, zero_list-append}

abbrev pub IsZero : Num → Type 0
IsZero n = (n ≡ zero_int) ⊎ (n ≡ zero_dec)

abbrev Zeros : Result (List Storage) → Type 0
Zeros (ok st) = All IsZero (zero_list st)
Zeros (err _) = Unit

Zeros-bind :
    {A : Type 0} (q : Result A) (f : A → Result (List Storage))
    → ((a : A) → Zeros (f a))
    → Zeros (q >>= f)
Zeros-bind (ok a) f h = h a
Zeros-bind (err x) f h = tt

All-append : (xs ys : List Num) → All IsZero xs → All IsZero ys → All IsZero (xs ++ ys)
All-append [] ys h k = k
All-append (x ∷ xs) ys h k = (h.0, All-append xs ys h.1 k)

Zeros-append :
    (q r : Result (List Storage)) → Zeros q → Zeros r → Zeros (q >>= λ s. r >>= λ t. ok (s ++ t))
Zeros-append (ok s) (ok t) h k =
    rw (zero_list-append s t) (All-append (zero_list s) (zero_list t) h k)
Zeros-append (ok s) (err x) h k = tt
Zeros-append (err x) r h k = tt

count-Zeros : (alias : Text) (column : Option Text) → Zeros (count_storage alias column)
unfolding count_storage
count-Zeros alias none = (inl refl, tt)
count-Zeros alias (some c) = Zeros-bind (quote_ident c) _ (λ src. (inl refl, tt))

total-Zeros : (alias : Text) (column : Option Text) → Zeros (total_storage alias column)
unfolding total_storage
total-Zeros alias none = tt
total-Zeros alias (some c) = Zeros-bind (quote_ident c) _ (λ src. (inr refl, (inl refl, tt)))

fn-Zeros : (fn : AggFn) (alias : Text) (column : Option Text) → Zeros (storage_of fn alias column)
unfolding storage_of
fn-Zeros count alias column = count-Zeros alias column
fn-Zeros sum alias column = total-Zeros alias column
fn-Zeros avg alias column = total-Zeros alias column
fn-Zeros (unknown _) alias column = tt

all_storage-Zeros : (aggs : List AggSpec) → Zeros (all_storage aggs)
unfolding all_storage agg_storage
all_storage-Zeros [] = tt
all_storage-Zeros (agg ∷ aggs) =
    Zeros-append (storage_of agg.fn agg.alias agg.column) (all_storage aggs)
      (fn-Zeros agg.fn agg.alias agg.column) (all_storage-Zeros aggs)

-- A plan that `_build_plan` returns.
pub record IsBuilt (plan : Plan) : Type 0 where
  pub storage : List Storage
  pub stored : all_storage plan.view.aggregates ≡ ok storage
  pub zeros_are : plan.zeros ≡ zero_int ∷ zero_list storage

build_plan-IsBuilt : (v : ViewSpec) (p : Plan) → build_plan v ≡ ok p → IsBuilt p
unfolding build_plan
build_plan-IsBuilt v p e =
    let (st, es, e₁) = >>=-ok (all_storage v.aggregates) _ e in
    let (sql, _, built) = >>=-ok (upsert_sql v st) _ e₁ in
    subst IsBuilt (ok-injective built) (record { storage = st; stored = es; zeros_are = refl })

pub IsBuilt-zeros : (p : Plan) → IsBuilt p → All IsZero p.zeros
IsBuilt-zeros p h =
    rw h.zeros_are (inl refl, subst Zeros h.stored (all_storage-Zeros p.view.aggregates))

module _ (low : ℤ) (below : low ≤ℤ pos 0) where
  zero-fits : (n : Num) → IsZero n → (measure low n ≡ pos 0) × AtColumn low (kind n) n
  unfolding units ◌*ℕ◌
  zero-fits n (inl e) = rw e (refl, tt)
  zero-fits n (inr e) = rw e (omega int_laws, below)

  pub zeros-fit :
      (i : ℕ) (zs : List Num)
      → All IsZero zs
      → i < length zs
      → (measure low (entry i zs) ≡ pos 0) × AtColumn low (kind (entry i zs)) (entry i zs)
  zeros-fit i [] h l = absurd (omega arith)
  zeros-fit zero (z ∷ zs) h l = zero-fits z h.0
  zeros-fit (suc i) (z ∷ zs) h l = zeros-fit i zs h.1 (omega arith)

-- every plan of a dictionary is built
abbrev AllBuilt : Dict Plan → Type 0
AllBuilt = All (λ e. IsBuilt e.1)

put-AllBuilt : (k : Text) (p : Plan) (d : Dict Plan) → IsBuilt p → AllBuilt d → AllBuilt (put k p d)
unfolding put
put-AllBuilt k p [] h a = (h, tt)
put-AllBuilt k p ((j, q) ∷ d) h a = elim (Bool-cases (j =t k)) [
  | inl same ↦ rw same (h, a.1)
  | inr differs ↦ rw differs (a.0, put-AllBuilt k p d h a.1)
]

get-IsBuilt : (k : Text) (p : Plan) (d : Dict Plan) → AllBuilt d → get k d ≡ ok p → IsBuilt p
unfolding get
get-IsBuilt k p [] a e = absurd (cc)
get-IsBuilt k p ((j, q) ∷ d) a e = elim (Bool-cases (j =t k)) [
  | inl same ↦ subst IsBuilt (ok-injective (rw same at e)) a.0
  | inr differs ↦ get-IsBuilt k p d a.1 (rw differs at e)
]

build_plans-AllBuilt :
    (d d' : Dict Plan) (vs : List ViewSpec) → build_plans d vs ≡ ok d' → AllBuilt d → AllBuilt d'
unfolding build_plans
build_plans-AllBuilt d d' [] e a = subst AllBuilt (ok-injective e) a
build_plans-AllBuilt d d' (v ∷ vs) e a =
    let (p, ep, e₁) = >>=-ok (build_plan v) _ e in
    build_plans-AllBuilt (put v.name p d) d' vs e₁
      (put-AllBuilt v.name p d (build_plan-IsBuilt v p ep) a)

get-no_deltas : (k : Text) (p : Plan) (d : Dict Plan) → get k d ≡ ok p → get k (no_deltas d) ≡ ok []
unfolding get no_deltas
get-no_deltas k p [] e = absurd (cc)
get-no_deltas k p ((j, q) ∷ d) e = elim (Bool-cases (j =t k)) [
  | inl same ↦ rw same
  | inr differs ↦ rw differs (get-no_deltas k p d (rw differs at e))
]

-- A new batch holds built plans, no group and no truncation.
pub record IsFresh (b : DeltaBatch) (name : Text) (plan : Plan) : Type 0 where
  pub built : IsBuilt plan
  pub empty : get name b.deltas ≡ ok []
  pub unmarked : b.truncated ≡ []

pub new-IsFresh :
    (views : List ViewSpec) (b : DeltaBatch) (name : Text) (plan : Plan)
    → new views ≡ ok b
    → get name b.plans ≡ ok plan
    → IsFresh b name plan
unfolding new
new-IsFresh views b name plan e =
    let (d, ed, made) = >>=-ok (build_plans [] views) _ e in
    subst (λ m. get name m.plans ≡ ok plan → IsFresh m name plan) (ok-injective made)
      (λ found. record {
        built = get-IsBuilt name plan d (build_plans-AllBuilt [] d views ed tt) found;
        empty = get-no_deltas name plan d found;
        unmarked = refl;
      })
