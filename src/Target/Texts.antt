-- ===== src/Target/Texts.antt =====
-- The statement texts that Target/Table.antt gives a meaning to, written out without walflux/aggregates.py,
-- and that its plans and statements have these texts.
use walflux_postgres_increme.Prelude.{
  true, ◌≡◌, refl, sym, ◌∙◌, ap, subst, List, [], ◌∷◌, ◌++◌, map, length, Text, codes, join, ok,
  >>=-ok, ok-injective, map_result, raised_or, walflux_error,
}
use walflux_postgres_increme.Common.Ident.{quote_ident, ident_match, is_ident_start, is_ident_char}
use walflux_postgres_increme.Prelude.Utf8.{encode}
use walflux_postgres_increme.Aggregates.Spec.{
  ViewSpec, Num, Storage, all_storage, target, key_columns, column_names,
}
use walflux_postgres_increme.Aggregates.Sql.{quoted_list, upsert_sql, placeholders, additive_update}
use walflux_postgres_increme.Aggregates.Batch.{Key, Plan, build_plan}
use walflux_postgres_increme.Value.{Value}
use walflux_postgres_increme.Aggregates.Statements.{
  Param, value, number, delete_all, upsert, cleanup, render, key_params, delta_params, key_prefix,
}

abbrev pub quoted : Text → Text
quoted name = b'"' ∷ name ++ b'"' ∷ []

abbrev pub table_name : ViewSpec → Text
table_name view = quoted (codes "walflux") ++ codes "." ++ quoted view.name

-- Every row of the table is deleted.
abbrev pub delete_text : ViewSpec → Text
delete_text view = codes "DELETE FROM " ++ table_name view

-- The rows are deleted whose row count is not positive.
abbrev pub cleanup_text : ViewSpec → Text
cleanup_text view =
    codes "DELETE FROM "
    ++ table_name view
    ++ codes " WHERE "
    ++ quoted (codes "__walflux_rows")
    ++ codes " <= 0"

-- `c = t.c + EXCLUDED.c`
abbrev pub addition : Text → Text → Text
addition t c =
    quoted c ++ codes " = " ++ t ++ codes "." ++ quoted c ++ codes " + EXCLUDED." ++ quoted c

abbrev pub listed : List Text → Text
listed names = join (codes ", ") (map quoted names)

abbrev newline : Text
newline = 10 ∷ []

abbrev insert_text : Text → Text → List Text → Text → List Text → Text
insert_text t names holes keys updates =
    codes "INSERT INTO "
    ++ t
    ++ codes " ("
    ++ names
    ++ codes ")"
    ++ newline
    ++ codes "VALUES ("
    ++ join (codes ", ") holes
    ++ codes ")"
    ++ newline
    ++ codes "ON CONFLICT ("
    ++ keys
    ++ codes ") DO UPDATE SET"
    ++ newline
    ++ codes "  "
    ++ join (codes "," ++ newline ++ codes "  ") updates

-- A row is inserted, or added column by column to the row with the same key.
abbrev pub upsert_text : Text → List Text → List Text → Text
upsert_text t keys columns =
    insert_text t (listed (keys ++ columns)) (map (λ (c : Text). codes "%s") (keys ++ columns))
      (listed keys) (map (addition t) columns)

-- The key, `true` where the view has no group columns, and then the deltas.
abbrev pub row_params : List Text → Key → List Num → List Param
row_params [] key ds = value (Value.bool true) ∷ map (λ v. value v) key ++ map (λ n. number n) ds
row_params (_ ∷ _) key ds = map (λ v. value v) key ++ map (λ n. number n) ds

-- The plan of a view: its upsert adds the row count and the storage columns of the view.
abbrev pub IsAdditive : Plan → Type 0
IsAdditive plan =
    (st : List Storage) × (all_storage plan.view.aggregates ≡ ok st)
    × (plan.upsert
        ≡ upsert_text (table_name plan.view) (key_columns plan.view.group_by)
            (codes "__walflux_rows" ∷ column_names st))

quoted_name : (name q : Text) → quote_ident name ≡ ok q → q ≡ quoted name
unfolding quote_ident
quoted_name name q e = sym (raised_or walflux_error _ e).1

quoted_names : (names qs : List Text) → map_result quote_ident names ≡ ok qs → qs ≡ map quoted names
quoted_names [] qs e = sym (ok-injective e)
quoted_names (n ∷ ns) qs e =
    let (q, one, e₁) = >>=-ok (quote_ident n) _ e in
    let (rest, more, e₂) = >>=-ok (map_result quote_ident ns) _ e₁ in
    rw (← ok-injective e₂, quoted_name n q one, quoted_names ns rest more) refl

additions :
    (t : Text) (columns us : List Text)
    → map_result (additive_update t) columns ≡ ok us
    → us ≡ map (addition t) columns
unfolding additive_update
additions t [] us e = sym (ok-injective e)
additions t (c ∷ cs) us e =
    let (u, one, e₁) = >>=-ok (additive_update t c) _ e in
    let (rest, more, e₂) = >>=-ok (map_result (additive_update t) cs) _ e₁ in
    let (q, named, e₃) = >>=-ok (quote_ident c) _ one in
    rw (← ok-injective e₂, ← ok-injective e₃, quoted_name c q named, additions t cs rest more) refl

placeholders-map : (xs : List Text) → placeholders (length xs) ≡ map (λ (c : Text). codes "%s") xs
unfolding placeholders
placeholders-map [] = refl
placeholders-map (x ∷ xs) = ap (λ ps. codes "%s" ∷ ps) (placeholders-map xs)

target_name : (view : ViewSpec) (t : Text) → target view ≡ ok t → t ≡ table_name view
unfolding target
target_name view t e =
    let (a, schema, e₁) = >>=-ok (quote_ident (codes "walflux")) _ e in
    let (b, name, e₂) = >>=-ok (quote_ident view.name) _ e₁ in
    rw (← ok-injective e₂, quoted_name (codes "walflux") a schema, quoted_name view.name b name)
      refl

listed_names : (names : List Text) (s : Text) → quoted_list names ≡ ok s → s ≡ listed names
listed_names names s e =
    let (qs, one, e₁) = >>=-ok (map_result quote_ident names) _ e in
    rw (← ok-injective e₁, quoted_names names qs one) refl

assembled :
    (t t' ns ns' : Text) (hs hs' : List Text) (ks ks' : Text) (us us' : List Text)
    → t ≡ t'
    → ns ≡ ns'
    → hs ≡ hs'
    → ks ≡ ks'
    → us ≡ us'
    → insert_text t ns hs ks us ≡ insert_text t' ns' hs' ks' us'
assembled t t' ns ns' hs hs' ks ks' us us' a b c d e = rw (a, b, c, d, e) refl

upsert_sql-upsert_text :
    (view : ViewSpec) (st : List Storage) (sql : Text)
    → upsert_sql view st ≡ ok sql
    → sql
      ≡ upsert_text
          (table_name view)
          (key_columns view.group_by)
          (codes "__walflux_rows" ∷ column_names st)
unfolding upsert_sql
upsert_sql-upsert_text view st sql e =
    let columns = codes "__walflux_rows" ∷ column_names st in
    let (t, named, e₁) = >>=-ok (target view) _ e in
    let (us, added, e₂) = >>=-ok (map_result (additive_update t) columns) _ e₁ in
    let (ks, keyed, e₃) = >>=-ok (quoted_list (key_columns view.group_by)) _ e₂ in
    let (ns, all_named, e₄) = >>=-ok (quoted_list (key_columns view.group_by ++ columns)) _ e₃ in
    let own = target_name view t named in
    sym (ok-injective e₄)
    ∙ assembled t (table_name view) ns _ _ _ ks _ us _ own
        (listed_names (key_columns view.group_by ++ columns) ns all_named)
        (placeholders-map (key_columns view.group_by ++ columns))
        (listed_names (key_columns view.group_by) ks keyed)
        (additions t columns us added ∙ ap (λ n. map (addition n) columns) own)

-- A plan whose statements have the texts above.
abbrev pub IsWritten : Plan → Type 0
IsWritten plan = IsAdditive plan × ((t : Text) × (target plan.view ≡ ok t))

pub build_plan-IsWritten : (v : ViewSpec) (p : Plan) → build_plan v ≡ ok p → IsWritten p
unfolding build_plan upsert_sql
build_plan-IsWritten v p e =
    let (st, stored, e₁) = >>=-ok (all_storage v.aggregates) _ e in
    let (sql, written, e₂) = >>=-ok (upsert_sql v st) _ e₁ in
    let (t, named, _) = >>=-ok (target v) _ written in
    subst IsWritten (ok-injective e₂)
      ((st, stored, upsert_sql-upsert_text v st sql written), (t, named))

params_map : (key : Key) → key_params key ≡ map (λ v. value v) key
unfolding key_params
params_map [] = refl
params_map (v ∷ vs) = ap (λ ps. value v ∷ ps) (params_map vs)

numbers_map : (ds : List Num) → delta_params ds ≡ map (λ n. number n) ds
unfolding delta_params
numbers_map [] = refl
numbers_map (n ∷ ns) = ap (λ ps. number n ∷ ps) (numbers_map ns)

params_of :
    (group_by : List Text) (key : Key) (ds : List Num)
    → key_prefix group_by ++ key_params key ++ delta_params ds ≡ row_params group_by key ds
unfolding key_prefix
params_of [] key ds = rw (params_map key, numbers_map ds) refl
params_of (_ ∷ _) key ds = rw (params_map key, numbers_map ds) refl

-- The text and the parameters of an upsert of one group.
abbrev pub Upserts : Plan → Key → List Num → Type 0
Upserts plan key ds =
    (st : List Storage) × (all_storage plan.view.aggregates ≡ ok st)
    × (render (upsert plan key ds)
        ≡ ok (
          upsert_text (table_name plan.view) (key_columns plan.view.group_by)
              (codes "__walflux_rows" ∷ column_names st),
          row_params plan.view.group_by key ds,
        ))

pub render-Upserts :
    (plan : Plan) (key : Key) (ds : List Num) → IsAdditive plan → Upserts plan key ds
unfolding render
render-Upserts plan key ds (st, stored, written) =
    (st, stored, rw (written, params_of plan.view.group_by key ds) refl)

pub render-delete_all :
    (view : ViewSpec) (t : Text)
    → target view ≡ ok t
    → render (delete_all view) ≡ ok (delete_text view, [])
unfolding render
render-delete_all view t e = rw (e, target_name view t e) refl

pub render-cleanup :
    (view : ViewSpec) (t : Text)
    → target view ≡ ok t
    → render (cleanup view) ≡ ok (cleanup_text view, [])
unfolding render quote_ident ident_match is_ident_start is_ident_char encode
render-cleanup view t e = rw (e, target_name view t e) refl
