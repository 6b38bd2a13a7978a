-- ===== src/Demo/Agree.antt =====
-- demo/verify.py, `load_views`, against walflux/config.py, `load_config`, on one document.
use walflux_postgres_increme.Prelude.{
  ◌≡◌, refl, ◌&&◌, ltb, length, ◌+◌, Option, List, [], ◌∷◌, map, Text, codes, member, ok, raise_if,
  config_error, >>=-ok, ok-injective,
}
use walflux_postgres_increme.Prelude.Utf8.{encode}
use walflux_postgres_increme.Aggregates.Spec.{AggSpec, ViewSpec}
use walflux_postgres_increme.Config.{Config, Yaml, Entries, Items, no_items, item}
use walflux_postgres_increme.Config.Parse.{
  lookup, require_mapping, check_ident, positive_int, parse_source, parse_fn, parse_column,
  parse_aggregate, parse_aggregates, parse_group_by, some_items, parse_view, parse_views, or_empty,
  choose_dsn, ident_or, load_document, is_reserved, is_total,
}
use walflux_postgres_increme.Demo.Queries.{Agg, View}
use walflux_postgres_increme.Demo.Views.{
  entries_of, items_of, load_agg, load_aggs, load_view, load_each, load_views,
}
use walflux_postgres_increme.Demo.Fields.{
  fn_text, entries_of-require_mapping, text_field-ident, text_field-fn, optional_field-column,
  tuple_field-group_by, items_of-some_items, split_source-parse_source,
}

-- The same aggregate and the same view in the words of demo/verify.py.
abbrev pub as_agg : AggSpec → Agg
as_agg spec = record { fn = fn_text spec.fn; column = spec.column; alias = spec.alias }

abbrev pub as_view : ViewSpec → View
as_view spec = record {
  name = spec.name;
  schema = spec.source_schema;
  table = spec.source_table;
  group_by = spec.group_by;
  aggregates = map as_agg spec.aggregates;
}

load_agg-parse_aggregate :
    (raw : Yaml) (group_by seen : List Text) (agg : AggSpec)
    → parse_aggregate raw group_by seen ≡ ok agg
    → load_agg raw ≡ ok (as_agg agg)
unfolding parse_aggregate load_agg
load_agg-parse_aggregate raw group_by seen agg e =
    let (a, is_map, e₁) = >>=-ok (require_mapping raw) _ e in
    let (fn, fn_e, e₂) = >>=-ok (parse_fn (lookup (codes "fn") a)) _ e₁ in
    let (alias, alias_e, e₃) = >>=-ok (check_ident (lookup (codes "as") a)) _ e₂ in
    let (column, column_e, e₄) = >>=-ok (parse_column fn (lookup (codes "column") a)) _ e₃ in
    let (_, _, e₅) = >>=-ok (raise_if (member alias seen) config_error) _ e₄ in
    let (_, _, e₆) = >>=-ok (raise_if (member alias group_by) config_error) _ e₅ in
    let (_, _, e₇) = >>=-ok (raise_if (is_reserved alias) config_error) _ e₆ in
    let (_, _, e₈) =
      >>=-ok (raise_if (is_total fn && ltb 63 (length (encode alias) + 5)) config_error) _ e₇ in
    rw
      (
        ← ok-injective e₈,
        entries_of-require_mapping raw a is_map,
        text_field-fn (lookup (codes "fn") a) fn fn_e,
        optional_field-column fn (lookup (codes "column") a) column column_e,
        text_field-ident (lookup (codes "as") a) alias alias_e,
      )
      refl

load_aggs-parse_aggregates :
    (items : Items) (group_by seen : List Text) (aggs : List AggSpec)
    → parse_aggregates items group_by seen ≡ ok aggs
    → load_aggs items ≡ ok (map as_agg aggs)
unfolding parse_aggregates load_aggs
load_aggs-parse_aggregates no_items group_by seen aggs e = rw (← ok-injective e) refl
load_aggs-parse_aggregates (item raw rest) group_by seen aggs e =
    let (agg, one, e₁) = >>=-ok (parse_aggregate raw group_by seen) _ e in
    let (more, parsed, e₂) = >>=-ok (parse_aggregates rest group_by (agg.alias ∷ seen)) _ e₁ in
    rw
      (
        ← ok-injective e₂,
        load_agg-parse_aggregate raw group_by seen agg one,
        load_aggs-parse_aggregates rest group_by (agg.alias ∷ seen) more parsed,
      )
      refl

load_view-parse_view :
    (raw : Yaml) (seen : List Text) (view : ViewSpec)
    → parse_view raw seen ≡ ok view
    → load_view raw ≡ ok (as_view view)
unfolding parse_view load_view
load_view-parse_view raw seen view e =
    let (v, is_map, e₁) = >>=-ok (require_mapping raw) _ e in
    let (name, name_e, e₂) = >>=-ok (check_ident (lookup (codes "name") v)) _ e₁ in
    let (_, _, e₃) = >>=-ok (raise_if (member name seen) config_error) _ e₂ in
    let (source, source_e, e₄) = >>=-ok (parse_source (lookup (codes "source") v)) _ e₃ in
    let (group_by, grouped, e₅) = >>=-ok (parse_group_by (lookup (codes "group_by") v)) _ e₄ in
    let (items, some_e, e₆) = >>=-ok (some_items (lookup (codes "aggregates") v)) _ e₅ in
    let (aggs, parsed, e₇) = >>=-ok (parse_aggregates items group_by []) _ e₆ in
    let (from, from_e, split) =
      split_source-parse_source (lookup (codes "source") v) source source_e in
    rw
      (
        ← ok-injective e₇,
        entries_of-require_mapping raw v is_map,
        from_e,
        text_field-ident (lookup (codes "name") v) name name_e,
        tuple_field-group_by (lookup (codes "group_by") v) group_by grouped,
        items_of-some_items (lookup (codes "aggregates") v) items some_e,
        load_aggs-parse_aggregates items group_by [] aggs parsed,
        split,
      )
      refl

load_each-parse_views :
    (items : Items) (seen : List Text) (views : List ViewSpec)
    → parse_views items seen ≡ ok views
    → load_each items ≡ ok (map as_view views)
unfolding parse_views load_each
load_each-parse_views no_items seen views e = rw (← ok-injective e) refl
load_each-parse_views (item raw rest) seen views e =
    let (view, one, e₁) = >>=-ok (parse_view raw seen) _ e in
    let (more, parsed, e₂) = >>=-ok (parse_views rest (view.name ∷ seen)) _ e₁ in
    rw
      (
        ← ok-injective e₂,
        load_view-parse_view raw seen view one,
        load_each-parse_views rest (view.name ∷ seen) more parsed,
      )
      refl

read_from :
    (raw : Yaml) (doc : Entries) (items : Items) (views : List View)
    → entries_of raw ≡ ok doc
    → items_of (lookup (codes "views") doc) ≡ ok items
    → load_each items ≡ ok views
    → load_views raw ≡ ok views
unfolding load_views
read_from raw doc items views is_map listed e = rw (is_map, listed) e

-- From a document that `load_config` accepts, `load_views` reads the views of that configuration: the
-- same names, source tables, group columns and aggregates, in the same order.
pub load_views-load_document :
    (env : Option Text) (raw : Yaml) (config : Config)
    → load_document env raw ≡ ok config
    → load_views raw ≡ ok (map as_view config.views)
unfolding load_document
load_views-load_document env raw config e =
    let (doc, is_map, e₁) = >>=-ok (require_mapping raw) _ e in
    let (database, _, e₂) =
      >>=-ok (require_mapping (or_empty (lookup (codes "database") doc))) _ e₁ in
    let (dsn, _, e₃) = >>=-ok (choose_dsn env (lookup (codes "dsn") database)) _ e₂ in
    let (slot, _, e₄) = >>=-ok (ident_or (codes "walflux") (lookup (codes "slot") doc)) _ e₃ in
    let (pub_name, _, e₅) =
      >>=-ok (ident_or (codes "walflux") (lookup (codes "publication") doc)) _ e₄ in
    let (batch, _, e₆) = >>=-ok (require_mapping (or_empty (lookup (codes "batch") doc))) _ e₅ in
    let (ms, _, e₇) = >>=-ok (positive_int (lookup (codes "max_ms") batch) 200) _ e₆ in
    let (txns, _, e₈) = >>=-ok (positive_int (lookup (codes "max_txns") batch) 500) _ e₇ in
    let (items, some_e, e₉) = >>=-ok (some_items (lookup (codes "views") doc)) _ e₈ in
    let (views, parsed, made) = >>=-ok (parse_views items []) _ e₉ in
    let each = load_each-parse_views items [] views parsed in
    let listed = items_of-some_items (lookup (codes "views") doc) items some_e in
    rw (← ok-injective made) (
      read_from raw doc items (map as_view views) (entries_of-require_mapping raw doc is_map) listed
        each)
