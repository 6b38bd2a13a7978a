-- ===== src/Daemon/Drift.antt =====
-- walflux/daemon.py: when `_on_relation` and `_row_ops` accept what the source sends.
use walflux_postgres_increme.Prelude.{
  ℕ, ◌≡◌, ◌≢◌, refl, sym, ap, Bool, true, false, not, List, [], ◌∷◌, All, some, Text, member, any,
  if◌then◌else◌, raised_or, ok, >>=-ok, ok-injective, or-false, Bool-cases, inl, inr, ◌==◌, arith,
}
use walflux_postgres_increme.Aggregates.Spec.{ViewSpec}
use walflux_postgres_increme.Protocol.Message.{Relation}
use walflux_postgres_increme.Daemon.State.{
  Daemon, RelationCache, views_at, find_relation, put_relation, member_id,
}
use walflux_postgres_increme.Daemon.Rows.{
  required_columns, column_names, check_view, check_views, relation_table, resolve_relation,
  on_relation,
}

-- What a view needs is among the columns of a relation.
abbrev pub IsServed : Relation → ViewSpec → Type 0
IsServed rel view = All (λ c. member c (column_names rel.columns) ≡ true) (required_columns view)

abbrev pub Known : List ViewSpec → Relation → Daemon → Type 0
Known [] rel d = member_id rel.rel_id d.view_rel_ids ≡ false
Known (v ∷ vs) rel d = All (IsServed rel) (v ∷ vs)

-- The cache is not looked at.
Known-put_relation :
    (views : List ViewSpec) (rel : Relation) (d : Daemon)
    → Known views rel (record d { relations = put_relation rel.rel_id rel d.relations })
    → Known views rel d
Known-put_relation [] rel d h = h
Known-put_relation (v ∷ vs) rel d h = h

not-false : (b : Bool) → not b ≡ false → b ≡ true
not-false true e = refl
not-false false e = cc

==_refl : (n : ℕ) → (n == n) ≡ true
==_refl n = ground arith

find-put :
    (id : ℕ) (rel : Relation) (cache : RelationCache)
    → find_relation id (put_relation id rel cache) ≡ some rel
unfolding find_relation put_relation
find-put id rel [] = rw (==_refl id) refl
find-put id rel ((j, r) ∷ cache) = elim (Bool-cases (j == id)) [
  | inl e ↦ rw (e, e) refl
  | inr e ↦ rw (e, e) (find-put id rel cache)
]

any-not-member :
    (available needed : List Text)
    → any (λ c. not (member c available)) needed ≡ false
    → All (λ c. member c available ≡ true) needed
any-not-member available [] e = tt
any-not-member available (c ∷ cs) e =
    let (here, later) = or-false (not (member c available)) _ e in
    (not-false (member c available) here, any-not-member available cs later)

check_views-IsServed :
    (rel : Relation) (views : List ViewSpec)
    → check_views (column_names rel.columns) views ≡ ok tt
    → All (IsServed rel) views
unfolding check_views check_view
check_views-IsServed rel [] e = tt
check_views-IsServed rel (v ∷ vs) e =
    let available = column_names rel.columns in
    let (_, checked, e₁) = >>=-ok (check_view available v) (λ _. check_views available vs) e in
    let (served, _) =
      raised_or _ (any (λ c. not (member c available)) (required_columns v)) checked in
    (any-not-member available (required_columns v) served, check_views-IsServed rel vs e₁)

seen : (id : ℕ) (ids : List ℕ) → member_id id (if member_id id ids then ids else id ∷ ids) ≡ true
seen id ids = elim (Bool-cases (member_id id ids)) [
  | inl e ↦ rw (e, e) refl
  | inr e ↦ rw (e, ==_refl id) refl
]

resolve_relation-Known :
    (rel : Relation) (views : List ViewSpec) (d d' : Daemon)
    → resolve_relation rel views d ≡ ok d'
    → Known views rel d
      × (d'.relations ≡ d.relations)
      × (views ≢ [] → member_id rel.rel_id d'.view_rel_ids ≡ true)
unfolding resolve_relation
resolve_relation-Known rel [] d d' e =
    let (fresh, same) = raised_or _ (member_id rel.rel_id d.view_rel_ids) e in
    (fresh, ap (λ (x : Daemon). x.relations) (sym same), λ none_seen. absurd (none_seen refl))
resolve_relation-Known rel (v ∷ vs) d d' e =
    let (_, served, e₁) = >>=-ok (check_views (column_names rel.columns) (v ∷ vs)) _ e in
    rw (← ok-injective e₁)
      (check_views-IsServed rel (v ∷ vs) served, refl, λ _. seen rel.rel_id d.view_rel_ids)

-- A relation message that raises nothing leaves the relation in the cache. If no view reads the table
-- it names, then its id had never resolved to a view. If one does, then it has every column that the
-- views over it group by or aggregate, and its id counts as resolved from then on.
pub on_relation-Known :
    (rel : Relation) (d d' : Daemon)
    → on_relation rel d ≡ ok d'
    → (find_relation rel.rel_id d'.relations ≡ some rel)
      × Known (views_at (relation_table rel) d.views_by_table) rel d
      × (views_at (relation_table rel) d.views_by_table ≢ []
          → member_id rel.rel_id d'.view_rel_ids ≡ true)
unfolding on_relation
on_relation-Known rel d d' e =
    let (known, same, seen) =
      resolve_relation-Known rel (views_at (relation_table rel) d.views_by_table) _ d' e in
    (
      rw same (find-put rel.rel_id rel d.relations),
      Known-put_relation (views_at (relation_table rel) d.views_by_table) rel d known,
      seen,
    )
