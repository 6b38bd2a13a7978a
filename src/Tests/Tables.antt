-- ===== src/Tests/Tables.antt =====
-- A database for the interface of Target/Table.antt, whose index tells two groups apart.
use walflux_postgres_increme.Prelude.{
  ℕ, zero, suc, subst, ◌&&◌, =t→eq, =t_sym, ◌≡◌, refl, ◌∙◌, ap, Bool, true, false, List, [], ◌∷◌,
  ◌++◌, Option, none, some, Text, ◌=t◌, =t_refl, codes, if◌then◌else◌, inl, inr, Bool-cases,
}
use walflux_postgres_increme.Prelude.Int.{ℤ, pos, ◌+ℤ◌, leb_ℤ, int_laws}
use walflux_postgres_increme.Value.{Value, key_eq, value_eq}
use walflux_postgres_increme.Aggregates.Spec.{Num, int, dec}
use walflux_postgres_increme.Aggregates.Measure.{measure, AtColumn, entry}
use walflux_postgres_increme.Aggregates.Totals.{Column, amount, Fits, select}
use walflux_postgres_increme.Aggregates.Batch.{Key}
use walflux_postgres_increme.Aggregates.Statements.{Statement, delete_all, upsert, cleanup}
use walflux_postgres_increme.Target.Table.{
  TargetRow, Table, value, table_total, live, target_of, Selects, Postgres,
}

-- Keys fall into two classes, the region north and all others, and a table has one row of each at most.
abbrev pub north : Key
north = Value.text (codes "north") ∷ []

abbrev pub is_north : Key → Bool
is_north (Value.text t ∷ []) = t =t codes "north"
is_north _ = false

abbrev pub home : Bool → Key
home true = north
home false = Value.none ∷ []

abbrev pub same_class : Bool → Bool → Bool
same_class true true = true
same_class false false = true
same_class _ _ = false

abbrev pub same_key : Key → Key → Bool
same_key a b = same_class (is_north a) (is_north b)

pub class_eq : (p q : Bool) → same_class p q ≡ true → p ≡ q
class_eq true true e = refl
class_eq false false e = refl
class_eq true false e = cc
class_eq false true e = cc

class_refl : (q : Bool) → same_class q q ≡ true
class_refl true = refl
class_refl false = refl

home_class : (q : Bool) → is_north (home q) ≡ q
home_class true = refl
home_class false = refl

north_key : (k : Key) → is_north k ≡ true → k ≡ north
north_key [] e = cc
north_key (Value.text t ∷ []) e = ap (λ s. Value.text s ∷ []) (=t→eq t (codes "north") e)
north_key (Value.text t ∷ v ∷ vs) e = cc
north_key (Value.none ∷ vs) e = cc
north_key (Value.unchanged_toast ∷ vs) e = cc
north_key (Value.bool b ∷ vs) e = cc
north_key (Value.int n ∷ vs) e = cc
north_key (Value.float r ∷ vs) e = cc
north_key (Value.decimal d ∷ vs) e = cc
north_key (Value.non_finite r ∷ vs) e = cc

and_false : (b : Bool) → (b && false) ≡ true → ⊥
and_false true e = cc
and_false false e = cc

and_true : (b : Bool) → (b && true) ≡ true → b ≡ true
and_true true e = refl
and_true false e = cc

right_of_north : (k : Key) → key_eq north k ≡ true → is_north k ≡ true
unfolding key_eq value_eq
right_of_north [] e = cc
right_of_north (v ∷ w ∷ ws) e = absurd (and_false (value_eq (Value.text (codes "north")) v) e)
right_of_north (Value.text t ∷ []) e = =t_sym t (codes "north") ∙ and_true (codes "north" =t t) e
right_of_north (Value.none ∷ []) e = cc
right_of_north (Value.unchanged_toast ∷ []) e = cc
right_of_north (Value.bool b ∷ []) e = cc
right_of_north (Value.int n ∷ []) e = cc
right_of_north (Value.float r ∷ []) e = cc
right_of_north (Value.decimal d ∷ []) e = cc
right_of_north (Value.non_finite r ∷ []) e = cc

left_of_north : (k : Key) → key_eq k north ≡ true → is_north k ≡ true
unfolding key_eq value_eq
left_of_north [] e = cc
left_of_north (v ∷ w ∷ ws) e = absurd (and_false (value_eq v (Value.text (codes "north"))) e)
left_of_north (Value.text t ∷ []) e = and_true (t =t codes "north") e
left_of_north (Value.none ∷ []) e = cc
left_of_north (Value.unchanged_toast ∷ []) e = cc
left_of_north (Value.bool b ∷ []) e = cc
left_of_north (Value.int n ∷ []) e = cc
left_of_north (Value.float r ∷ []) e = cc
left_of_north (Value.decimal d ∷ []) e = cc
left_of_north (Value.non_finite r ∷ []) e = cc

pub same_keys : (a b : Key) → key_eq a b ≡ true → same_key a b ≡ true
same_keys a b e = elim (Bool-cases (is_north a)) [
  | inl p ↦ rw (p, right_of_north b (subst (λ k. key_eq k b ≡ true) (north_key a p) e)) refl
  | inr p ↦ elim (Bool-cases (is_north b)) [
    | inl q ↦
        let wrong = left_of_north a (subst (λ k. key_eq a k ≡ true) (north_key b q) e) in
        absurd (clash (is_north a) p wrong)
    | inr q ↦ rw (p, q) refl
  ]
]
  where
    clash : (c : Bool) → c ≡ false → c ≡ true → ⊥
    clash true f g = cc
    clash false f g = cc

abbrev pub Slots : Type 0
Slots = Option TargetRow × Option TargetRow

abbrev pub Tables : Type 0
Tables = Text → Slots

-- The row of one class, under the key of the class.
abbrev pub one : Bool → Option TargetRow → Table
one q none = []
one q (some r) = record r { key = home q } ∷ []

abbrev pub rows : Slots → Table
rows (n, o) = one true n ++ one false o

abbrev pub count_of : List Num → ℤ
count_of ds = measure (pos 0) (entry 0 ds)

abbrev pub merge : Option TargetRow → Key → List Num → TargetRow
merge none key ds = record { key = key; count = count_of ds; cell = λ c. amount c ds }
merge (some r) key ds = record {
  key = key;
  count = r.count +ℤ count_of ds;
  cell = λ c. r.cell c +ℤ amount c ds;
}

abbrev pub alive : Option TargetRow → Option TargetRow
alive none = none
alive (some r) = if leb_ℤ r.count (pos 0) then none else some r

abbrev pub place : Bool → Key → List Num → Slots → Slots
place true key ds (n, o) = (some (merge n key ds), o)
place false key ds (n, o) = (n, some (merge o key ds))

abbrev pub write : Statement → Slots → Slots
write (delete_all view) slots = (none, none)
write (upsert plan key ds) slots = place (is_north key) key ds slots
write (cleanup view) (n, o) = (alive n, alive o)

abbrev pub execute : Statement → Tables → Tables
execute s d n = if target_of s =t n then write s (d n) else d n

pub written :
    (d : Tables) (s : Statement)
    → rows (execute s d (target_of s)) ≡ rows (write s (d (target_of s)))
written d s = rw (=t_refl (target_of s)) refl

same_count : (low : ℤ) (x : Num) → AtColumn low false x → measure (pos 0) x ≡ measure low x
same_count low (int n) h = refl
same_count low (dec d) h = absurd h

sum_of :
    (b : Bool) (x y : ℤ)
    → (if b then x +ℤ y else pos 0) ≡ (if b then x else pos 0) +ℤ (if b then y else pos 0)
sum_of true x y = omega int_laws
sum_of false x y = omega int_laws

value-merge :
    (i : ℕ) (low : ℤ) (q : Bool) (key : Key) (ds : List Num) (r : TargetRow)
    → (c : Column) → c ≡ record { index = i; low = low; is_decimal = q }
    → Fits c ds
    → (value c (merge none key ds) ≡ amount c ds)
      × (value c (merge (some r) key ds) ≡ value c r +ℤ amount c ds)
unfolding value
value-merge zero low false key ds r c e fit =
    rw (e, ← same_count low (entry 0 ds) (rw e at fit)) (refl, refl)
value-merge zero low true key ds r c e fit = rw e (refl, refl)
value-merge (suc i) low false key ds r c e fit = rw e (refl, refl)
value-merge (suc i) low true key ds r c e fit = rw e (refl, refl)

total-append :
    (c : Column) (P : Key → Bool) (xs ys : Table)
    → table_total c P (xs ++ ys) ≡ table_total c P xs +ℤ table_total c P ys
total-append c P [] ys = omega int_laws
total-append c P (x ∷ xs) ys = rw (total-append c P xs ys) (omega int_laws)

live-append : (xs ys : Table) → live (xs ++ ys) ≡ live xs ++ live ys
live-append [] ys = refl
live-append (x ∷ xs) ys = elim (Bool-cases (leb_ℤ x.count (pos 0))) [
  | inl dead ↦ rw dead (live-append xs ys)
  | inr kept ↦ rw (kept, live-append xs ys) refl
]

keyless :
    (i : ℕ) (low : ℤ) (q : Bool) (k : Key) (r : TargetRow)
    → (c : Column) → c ≡ record { index = i; low = low; is_decimal = q }
    → value c (record r { key = k }) ≡ value c r
unfolding value
keyless zero low false k r c e = rw e refl
keyless zero low true k r c e = rw e refl
keyless (suc i) low false k r c e = rw e refl
keyless (suc i) low true k r c e = rw e refl

total_one :
    (q : Bool) (r : TargetRow) (c : Column) (P : Key → Bool)
    → table_total c P (one q (some r)) ≡ select c (P (home q)) (value c r)
total_one q r c P = rw (keyless c.index c.low c.is_decimal (home q) r c refl) (omega int_laws)

added_one :
    (q : Bool) (o : Option TargetRow) (key : Key) (ds : List Num) (c : Column) (P : Key → Bool)
    → P (home q) ≡ P key
    → Fits c ds
    → table_total c P (one q (some (merge o key ds)))
      ≡ table_total c P (one q o) +ℤ select c (P key) (amount c ds)
added_one q none key ds c P sel fit =
    let blank : TargetRow = record { key = key; count = pos 0; cell = λ _. pos 0 } in
    total_one q (merge none key ds) c P
    ∙ rw ((value-merge c.index c.low c.is_decimal key ds blank c refl fit).0, sel) (omega int_laws)
added_one q (some r) key ds c P sel fit =
    total_one q (merge (some r) key ds) c P
    ∙ rw ((value-merge c.index c.low c.is_decimal key ds r c refl fit).1, total_one q r c P, sel)
        (sum_of (P key) (value c r) (amount c ds))

pub added :
    (q : Bool) (slots : Slots) (key : Key) (ds : List Num) (c : Column) (P : Key → Bool)
    → P (home q) ≡ P key
    → Fits c ds
    → table_total c P (rows (place q key ds slots))
      ≡ table_total c P (rows slots) +ℤ select c (P key) (amount c ds)
added true (n, o) key ds c P sel fit =
    rw
      (
        total-append c P (one true (some (merge n key ds))) (one false o),
        total-append c P (one true n) (one false o),
        added_one true n key ds c P sel fit,
      )
      (omega int_laws)
added false (n, o) key ds c P sel fit =
    rw
      (
        total-append c P (one true n) (one false (some (merge o key ds))),
        total-append c P (one true n) (one false o),
        added_one false o key ds c P sel fit,
      )
      (omega int_laws)

cleaned_one : (q : Bool) (o : Option TargetRow) → one q (alive o) ≡ live (one q o)
cleaned_one q none = refl
cleaned_one q (some r) = elim (Bool-cases (leb_ℤ r.count (pos 0))) [
  | inl e ↦ rw e refl
  | inr e ↦ rw e refl
]

pub cleaned_rows : (n o : Option TargetRow) → rows (alive n, alive o) ≡ live (rows (n, o))
cleaned_rows n o =
    rw (live-append (one true n) (one false o), ← cleaned_one true n, ← cleaned_one false o) refl

-- Of the other class a table has no row that counts.
pub single :
    (c : Column) (slots : Slots) (before after : Table) (r : TargetRow)
    → rows slots ≡ before ++ r ∷ after
    → table_total c (same_key r.key) (rows slots) ≡ value c r
single c (none, none) [] after r e = absurd (cc)
single c (none, none) (b ∷ before) after r e = absurd (cc)
single c (some n, none) [] after r e =
    let same : record n { key = home true } ≡ r = cc in rw (← same) (omega int_laws)
single c (some n, none) (b ∷ []) after r e = absurd (cc)
single c (some n, none) (b ∷ b' ∷ before) after r e = absurd (cc)
single c (none, some o) [] after r e =
    let same : record o { key = home false } ≡ r = cc in rw (← same) (omega int_laws)
single c (none, some o) (b ∷ []) after r e = absurd (cc)
single c (none, some o) (b ∷ b' ∷ before) after r e = absurd (cc)
single c (some n, some o) [] after r e =
    let same : record n { key = home true } ≡ r = cc in rw (← same) (omega int_laws)
single c (some n, some o) (b ∷ []) after r e =
    let same : record o { key = home false } ≡ r = cc in rw (← same) (omega int_laws)
single c (some n, some o) (b ∷ b' ∷ []) after r e = absurd (cc)
single c (some n, some o) (b ∷ b' ∷ b'' ∷ before) after r e = absurd (cc)

pub at_home : (P : Key → Bool) (key : Key) → Selects same_key P → P (home (is_north key)) ≡ P key
at_home P key sel =
    sel (home (is_north key)) key (rw (home_class (is_north key)) (class_refl (is_north key)))

abbrev pub database : Postgres execute
database = record {
  table = λ d n. rows (d n);
  same = same_key;
  same_keys = same_keys;
  same_selects = λ k a b e. ap (same_class (is_north k)) (class_eq (is_north a) (is_north b) e);
  unique = λ d name c before after r e. single c (d name) before after r e;
  deleted = λ d view text. written d (delete_all view);
  upserted = λ d plan key ds c P text sel fit.
      ap (table_total c P) (written d (upsert plan key ds))
      ∙ added (is_north key) (d plan.view.name) key ds c P (at_home P key sel) fit;
  cleaned = λ d view text. written d (cleanup view) ∙ cleaned_rows (d view.name).0 (d view.name).1;
  elsewhere = λ d s name e. rw e refl;
}
