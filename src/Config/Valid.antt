-- ===== src/Config/Valid.antt =====
-- walflux/config.py: what a configuration that was loaded satisfies.
use walflux_postgres_increme.Prelude.{
  ℕ, zero, suc, ◌<◌, ◌≡◌, ◌≢◌, false, List, [], ◌∷◌, All, Option, Text, codes, member, ok, raise_if,
  config_error, >>=-ok, ok-injective, arith,
}
use walflux_postgres_increme.Prelude.Int.{pos, negsuc}
use walflux_postgres_increme.Aggregates.Spec.{AggSpec, ViewSpec}
use walflux_postgres_increme.Config.{
  Config, Yaml, null, bool, int, text, scalar, sequence, mapping, Items, no_items, item,
}
use walflux_postgres_increme.Config.Parse.{
  lookup, require_mapping, check_ident, positive_int, parse_source, parse_aggregate,
  parse_aggregates, parse_group_by, some_items, parse_view, parse_views, or_empty, choose_dsn,
  ident_or, load_document, is_reserved,
}
use walflux_postgres_increme.Config.Names.{
  Distinct, Outside, aliases, passed, Outside-tail, parse_group_by-Distinct,
  parse_aggregates-aliases,
}

abbrev pub view_names : List ViewSpec → List Text
view_names [] = []
view_names (v ∷ vs) = v.name ∷ view_names vs

-- The names within one view.
abbrev pub IsValidView : ViewSpec → Type 0
IsValidView v =
    Distinct v.group_by
    × (v.aggregates ≢ [])
    × Distinct (aliases v.aggregates)
    × Outside v.group_by (aliases v.aggregates)
    × All (λ alias. is_reserved alias ≡ false) (aliases v.aggregates)

pub record IsValid (config : Config) : Type 0 where
  pub waits : 0 < config.batch_max_ms
  pub batches : 0 < config.batch_max_txns
  pub some_view : config.views ≢ []
  pub named : Distinct (view_names config.views)
  pub each : All IsValidView config.views

positive_int-positive :
    (value : Yaml) (default n : ℕ) → 0 < default → positive_int value default ≡ ok n → 0 < n
unfolding positive_int
positive_int-positive null default n h e = rw (← ok-injective e) h
positive_int-positive (int (pos (suc m))) default n h e = rw (← ok-injective e) (omega arith)
positive_int-positive (int (pos zero)) default n h e = cc
positive_int-positive (int (negsuc m)) default n h e = cc
positive_int-positive (bool b) default n h e = cc
positive_int-positive (text s) default n h e = cc
positive_int-positive (scalar b) default n h e = cc
positive_int-positive (sequence xs) default n h e = cc
positive_int-positive (mapping es) default n h e = cc

never_empty : (value : Yaml) → some_items value ≡ ok no_items → ⊥
unfolding some_items
never_empty (sequence (item x xs)) e = cc
never_empty (sequence no_items) e = cc
never_empty null e = cc
never_empty (bool b) e = cc
never_empty (int z) e = cc
never_empty (text s) e = cc
never_empty (scalar b) e = cc
never_empty (mapping es) e = cc

some_aggregates :
    (value : Yaml) (items : Items) (group_by : List Text) (aggs : List AggSpec)
    → some_items value ≡ ok items
    → parse_aggregates items group_by [] ≡ ok aggs
    → aggs ≢ []
unfolding some_items parse_aggregates
some_aggregates value no_items group_by aggs some_e e = λ none_left. never_empty value some_e
some_aggregates value (item raw rest) group_by aggs some_e e =
    let (agg, _, e₁) = >>=-ok (parse_aggregate raw group_by []) _ e in
    let (more, _, e₂) = >>=-ok (parse_aggregates rest group_by (agg.alias ∷ [])) _ e₁ in
    rw (← ok-injective e₂) (λ q. cc)

parse_view-IsValidView :
    (raw : Yaml) (seen : List Text) (view : ViewSpec)
    → parse_view raw seen ≡ ok view
    → (member view.name seen ≡ false) × IsValidView view
unfolding parse_view
parse_view-IsValidView raw seen view e =
    let (v, _, e₁) = >>=-ok (require_mapping raw) _ e in
    let (name, _, e₂) = >>=-ok (check_ident (lookup (codes "name") v)) _ e₁ in
    let (u, fresh, e₃) = >>=-ok (raise_if (member name seen) config_error) _ e₂ in
    let (source, _, e₄) = >>=-ok (parse_source (lookup (codes "source") v)) _ e₃ in
    let (group_by, grouped, e₅) = >>=-ok (parse_group_by (lookup (codes "group_by") v)) _ e₄ in
    let (items, some_e, e₆) = >>=-ok (some_items (lookup (codes "aggregates") v)) _ e₅ in
    let (aggs, parsed, e₇) = >>=-ok (parse_aggregates items group_by []) _ e₆ in
    let (_, distinct, apart, clear) = parse_aggregates-aliases items group_by [] aggs parsed in
    rw (← ok-injective e₇) (
      passed (member name seen) config_error u fresh,
      (
        parse_group_by-Distinct (lookup (codes "group_by") v) group_by grouped,
        some_aggregates (lookup (codes "aggregates") v) items group_by aggs some_e parsed,
        distinct,
        apart,
        clear,
      ),
    )

parse_views-IsValidView :
    (items : Items) (seen : List Text) (views : List ViewSpec)
    → parse_views items seen ≡ ok views
    → Outside seen (view_names views) × Distinct (view_names views) × All IsValidView views
unfolding parse_views
parse_views-IsValidView no_items seen views e = rw (← ok-injective e) (tt, tt, tt)
parse_views-IsValidView (item raw rest) seen views e =
    let (view, one, e₁) = >>=-ok (parse_view raw seen) _ e in
    let (more, parsed, e₂) = >>=-ok (parse_views rest (view.name ∷ seen)) _ e₁ in
    let (fresh, valid) = parse_view-IsValidView raw seen view one in
    let (outside, distinct, each) = parse_views-IsValidView rest (view.name ∷ seen) more parsed in
    let (other, before) = Outside-tail view.name seen (view_names more) outside in
    rw (← ok-injective e₂) ((fresh, before), (other, distinct), (valid, each))

some_views :
    (value : Yaml) (items : Items) (views : List ViewSpec)
    → some_items value ≡ ok items
    → parse_views items [] ≡ ok views
    → views ≢ []
unfolding parse_views
some_views value no_items views some_e e = λ none_left. never_empty value some_e
some_views value (item raw rest) views some_e e =
    let (view, _, e₁) = >>=-ok (parse_view raw []) _ e in
    let (more, _, e₂) = >>=-ok (parse_views rest (view.name ∷ [])) _ e₁ in
    rw (← ok-injective e₂) (λ q. cc)

-- A document that is accepted gives a configuration with positive batch limits and at least one view,
-- whose view names are distinct. Every view has distinct group columns and at least one aggregate, and
-- its aliases are distinct, differ from its group columns and are not reserved.
pub load_document-IsValid :
    (env : Option Text) (raw : Yaml) (config : Config)
    → load_document env raw ≡ ok config
    → IsValid config
unfolding load_document
load_document-IsValid env raw config e =
    let (doc, _, e₁) = >>=-ok (require_mapping raw) _ e in
    let (database, _, e₂) =
      >>=-ok (require_mapping (or_empty (lookup (codes "database") doc))) _ e₁ in
    let (dsn, _, e₃) = >>=-ok (choose_dsn env (lookup (codes "dsn") database)) _ e₂ in
    let (slot, _, e₄) = >>=-ok (ident_or (codes "walflux") (lookup (codes "slot") doc)) _ e₃ in
    let (pub_name, _, e₅) =
      >>=-ok (ident_or (codes "walflux") (lookup (codes "publication") doc)) _ e₄ in
    let (batch, _, e₆) = >>=-ok (require_mapping (or_empty (lookup (codes "batch") doc))) _ e₅ in
    let (ms, ms_e, e₇) = >>=-ok (positive_int (lookup (codes "max_ms") batch) 200) _ e₆ in
    let (txns, txns_e, e₈) = >>=-ok (positive_int (lookup (codes "max_txns") batch) 500) _ e₇ in
    let (items, some_e, e₉) = >>=-ok (some_items (lookup (codes "views") doc)) _ e₈ in
    let (views, parsed, made) = >>=-ok (parse_views items []) _ e₉ in
    let (_, distinct, each) = parse_views-IsValidView items [] views parsed in
    rw (← ok-injective made) (record {
      waits = positive_int-positive (lookup (codes "max_ms") batch) 200 ms (omega arith) ms_e;
      batches =
          positive_int-positive (lookup (codes "max_txns") batch) 500 txns (omega arith) txns_e;
      some_view = some_views (lookup (codes "views") doc) items views some_e parsed;
      named = distinct;
      each = each;
    })
