-- ===== src/Daemon/State.antt =====
-- walflux/daemon.py: the state of `class Daemon` and its index of views by source table.
use mathlib.Core.Path.{ap₂}
use mathlib.Core.Bool.{false≢true}
use walflux_postgres_increme.Prelude.{
  ℕ, ◌≡◌, refl, sym, ◌∙◌, append-nil, append_assoc, Bool, true, false, ◌&&◌, List, [], ◌∷◌, ◌++◌,
  Option, none, some, Text, ◌=t◌, =t→eq, =t_refl, ◌==◌, if◌then◌else◌, arith, Bool-cases, inl, inr,
}
use walflux_postgres_increme.Protocol.Message.{Relation}
use walflux_postgres_increme.Aggregates.Spec.{ViewSpec}
use walflux_postgres_increme.Config.{Config}

-- `(schema, table)`
abbrev pub TableName : Type 0
TableName = Text × Text

infix 50 ◌=n◌
abbrev pub ◌=n◌ : TableName → TableName → Bool
(s, t) =n (s', t') = s =t s' && t =t t'

abbrev pub TableIndex : Type 0
TableIndex = List (TableName × List ViewSpec)

-- `setdefault(key, []).append(view)`
unfoldable pub add_view : TableName → ViewSpec → TableIndex → TableIndex
add_view key v [] = (key, v ∷ []) ∷ []
add_view key v ((k, vs) ∷ index) =
    if k =n key then (k, vs ++ v ∷ []) ∷ index else (k, vs) ∷ add_view key v index

-- the source table of a view
abbrev pub table_of : ViewSpec → TableName
table_of v = (v.source_schema, v.source_table)

-- the loop of `__init__`
unfoldable pub index_views : TableIndex → List ViewSpec → TableIndex
index_views index [] = index
index_views index (v ∷ vs) = index_views (add_view (table_of v) v index) vs

-- `get(key, [])`
unfoldable pub views_at : TableName → TableIndex → List ViewSpec
views_at key [] = []
views_at key ((k, vs) ∷ index) = if k =n key then vs else views_at key index

abbrev pub RelationCache : Type 0
RelationCache = List (ℕ × Relation)

unfoldable pub find_relation : ℕ → RelationCache → Option Relation
find_relation id [] = none
find_relation id ((j, r) ∷ rs) = if j == id then some r else find_relation id rs

unfoldable pub put_relation : ℕ → Relation → RelationCache → RelationCache
put_relation id r [] = (id, r) ∷ []
put_relation id r ((j, q) ∷ rs) = if j == id then (j, r) ∷ rs else (j, q) ∷ put_relation id r rs

abbrev pub member_id : ℕ → List ℕ → Bool
member_id id [] = false
member_id id (j ∷ js) = if id == j then true else member_id id js

pub record Daemon : Type 0 where
  pub config : Config
  pub views_by_table : TableIndex
  pub relations : RelationCache
  -- the relations that ever resolved to a view
  pub view_rel_ids : List ℕ
  pub checkpoint_lsn : ℕ

-- `__init__`, and the checkpoint that `run` reads
unfoldable pub start : Config → ℕ → Daemon
start config checkpoint = record {
  config = config;
  views_by_table = index_views [] config.views;
  relations = [];
  view_rel_ids = [];
  checkpoint_lsn = checkpoint;
}

-- The views of a table, straight from the configuration.
abbrev pub views_of : TableName → List ViewSpec → List ViewSpec
views_of key [] = []
views_of key (v ∷ vs) = if table_of v =n key then v ∷ views_of key vs else views_of key vs

=n→eq : (a b : TableName) → (a =n b) ≡ true → a ≡ b
=n→eq (s, t) (s', t') h =
    ap₂ (λ x y. (x, y)) (=t→eq s s' (ground arith)) (=t→eq t t' (ground arith))

=n_refl : (a : TableName) → (a =n a) ≡ true
=n_refl (s, t) = rw (=t_refl s, =t_refl t)

other_table : (j k key : TableName) → (j =n k) ≡ false → (j =n key) ≡ true → (k =n key) ≡ false
other_table j k key h e = elim (Bool-cases (k =n key)) [
  | inl same ↦
      absurd (false≢true (sym h ∙ ap₂ ◌=n◌ (=n→eq j key e) (=n→eq k key same) ∙ =n_refl key))
  | inr differs ↦ differs
]

views_at-add_view :
    (key : TableName) (v : ViewSpec) (k : TableName) (index : TableIndex)
    → views_at key (add_view k v index)
      ≡ (if k =n key then views_at key index ++ v ∷ [] else views_at key index)
unfolding views_at add_view
views_at-add_view key v k [] = refl
views_at-add_view key v k ((j, vs) ∷ index) = elim (Bool-cases (j =n k)) [
  | inl same ↦
      rw (same, =n→eq j k same)
        (elim (Bool-cases (k =n key)) [ inl here ↦ rw here | inr there ↦ rw there ])
  | inr differs ↦ rw differs (elim (Bool-cases (j =n key)) [
    | inl here ↦ rw (here, other_table j k key differs here)
    | inr there ↦ rw there (views_at-add_view key v k index)
  ])
]

views_at-index_views :
    (key : TableName) (index : TableIndex) (vs : List ViewSpec)
    → views_at key (index_views index vs) ≡ views_at key index ++ views_of key vs
unfolding index_views
views_at-index_views key index [] = sym (append-nil (views_at key index))
views_at-index_views key index (v ∷ vs) =
    rw
      (
        views_at-index_views key (add_view (table_of v) v index) vs,
        views_at-add_view key v (table_of v) index,
      )
      (elim (Bool-cases (table_of v =n key)) [
        | inl here ↦ rw here (append_assoc (views_at key index) (v ∷ []) (views_of key vs))
        | inr there ↦ rw there
      ])

-- The index by source table that `__init__` builds gives, for every table, the configured views over
-- it in their order, and nothing for a table that no view reads.
pub views_at-start :
    (config : Config) (checkpoint : ℕ) (key : TableName)
    → views_at key (start config checkpoint).views_by_table ≡ views_of key config.views
unfolding start views_at
views_at-start config checkpoint key = views_at-index_views key [] config.views
