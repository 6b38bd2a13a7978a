-- ===== src/Config/Parse.antt =====
-- walflux/config.py: the validation of a document, `_check_ident` to `load_config`. Every rejection is a
-- ConfigError.
use walflux_postgres_increme.Prelude.{
  ℕ, zero, suc, ◌+◌, Bool, true, false, not, ◌&&◌, ◌||◌, List, [], ◌∷◌, Option, none, some, Text,
  codes, ◌=t◌, member, length, ltb, if◌then◌else◌, Result, ok, err, config_error, raise_if, ◌>>=◌,
  ◌>>◌,
}
use walflux_postgres_increme.Prelude.Int.{pos}
use walflux_postgres_increme.Prelude.Utf8.{encode}
use walflux_postgres_increme.Common.Ident.{ident_match}
use walflux_postgres_increme.Aggregates.Spec.{AggFn, count, sum, avg, AggSpec, ViewSpec}
use walflux_postgres_increme.Config.{
  Config, Yaml, null, bool, int, text, scalar, sequence, mapping, Items, no_items, item, Entries,
  no_entries, entry,
}

-- `mapping.get(key)`
unfoldable pub lookup : Text → Entries → Yaml
lookup key no_entries = null
lookup key (entry k v es) = if k =t key then v else lookup key es

unfoldable pub require_mapping : Yaml → Result Entries
require_mapping (mapping es) = ok es
require_mapping _ = err config_error

unfoldable pub check_ident : Yaml → Result Text
check_ident (text value) = do
  raise_if (not (ident_match value)) config_error
  raise_if (ltb 63 (length (encode value))) config_error
  ok value
check_ident _ = err config_error

unfoldable pub positive_int : Yaml → ℕ → Result ℕ
positive_int null default = ok default
positive_int (int (pos (suc n))) default = ok (suc n)
positive_int _ default = err config_error

-- `value.split(".")`
unfoldable pub split_dots : Text → List Text
split_dots [] = [] ∷ []
split_dots (c ∷ cs) = elim (split_dots cs) [
  | [] ↦ [] ∷ []
  | part ∷ parts ↦ if (c ∷ []) =t codes "." then [] ∷ part ∷ parts else (c ∷ part) ∷ parts
]

unfoldable pub schema_and_table : List Text → Result (Text × Text)
schema_and_table (table ∷ []) = ok (codes "public", table)
schema_and_table (schema ∷ table ∷ []) = ok (schema, table)
schema_and_table _ = err config_error

unfoldable pub parse_source : Yaml → Result (Text × Text)
unfolding split_dots schema_and_table
parse_source (text value) = do
  parts ← schema_and_table (split_dots value)
  schema ← check_ident (text parts.0)
  table ← check_ident (text parts.1)
  ok (schema, table)
parse_source _ = err config_error

unfoldable pub parse_fn : Yaml → Result AggFn
parse_fn (text fn) =
    if fn =t codes "count"
    then ok count
    else if fn =t codes "sum"
    then ok sum
    else if fn =t codes "avg"
    then ok avg
    else err config_error
parse_fn _ = err config_error

abbrev pub is_total : AggFn → Bool
is_total count = false
is_total _ = true

unfoldable pub parse_column : AggFn → Yaml → Result (Option Text)
parse_column fn null = if is_total fn then err config_error else ok none
parse_column fn value = do c ← check_ident value; ok (some c)

-- `text.endswith(suffix)`
unfoldable pub ends_with : Text → Text → Bool
ends_with suffix [] = suffix =t []
ends_with suffix (c ∷ cs) = if suffix =t (c ∷ cs) then true else ends_with suffix cs

unfoldable pub is_reserved : Text → Bool
unfolding ends_with
is_reserved alias =
    alias =t codes "__walflux_rows"
    || (ends_with (codes "__sum") alias || ends_with (codes "__nn") alias)

unfoldable pub parse_aggregate : Yaml → List Text → List Text → Result AggSpec
unfolding parse_fn parse_column is_reserved
parse_aggregate raw group_by seen = do
  agg ← require_mapping raw
  fn ← parse_fn (lookup (codes "fn") agg)
  alias ← check_ident (lookup (codes "as") agg)
  column ← parse_column fn (lookup (codes "column") agg)
  raise_if (member alias seen) config_error
  raise_if (member alias group_by) config_error
  raise_if (is_reserved alias) config_error
  raise_if (is_total fn && ltb 63 (length (encode alias) + 5)) config_error
  ok (record { fn = fn; column = column; alias = alias })

unfoldable pub parse_aggregates : Items → List Text → List Text → Result (List AggSpec)
unfolding parse_aggregate
parse_aggregates no_items group_by seen = ok []
parse_aggregates (item raw rest) group_by seen = do
  agg ← parse_aggregate raw group_by seen
  aggs ← parse_aggregates rest group_by (agg.alias ∷ seen)
  ok (agg ∷ aggs)

-- the columns after those that were read, which are in reverse order
unfoldable pub parse_columns : Items → List Text → Result (List Text)
parse_columns no_items seen = ok []
parse_columns (item raw rest) seen = do
  col ← check_ident raw
  raise_if (col =t codes "__walflux_rows") config_error
  raise_if (member col seen) config_error
  cols ← parse_columns rest (col ∷ seen)
  ok (col ∷ cols)

unfoldable pub parse_group_by : Yaml → Result (List Text)
unfolding parse_columns
parse_group_by null = ok []
parse_group_by (sequence items) = parse_columns items []
parse_group_by _ = err config_error

-- A list that may not be missing or empty.
unfoldable pub some_items : Yaml → Result Items
some_items (sequence (item x xs)) = ok (item x xs)
some_items _ = err config_error

unfoldable pub parse_view : Yaml → List Text → Result ViewSpec
unfolding parse_source parse_group_by some_items parse_aggregates
parse_view raw seen = do
  view ← require_mapping raw
  name ← check_ident (lookup (codes "name") view)
  raise_if (member name seen) config_error
  source ← parse_source (lookup (codes "source") view)
  group_by ← parse_group_by (lookup (codes "group_by") view)
  raw_aggs ← some_items (lookup (codes "aggregates") view)
  aggregates ← parse_aggregates raw_aggs group_by []
  ok (record {
    name = name;
    source_schema = source.0;
    source_table = source.1;
    group_by = group_by;
    aggregates = aggregates;
  })

unfoldable pub parse_views : Items → List Text → Result (List ViewSpec)
unfolding parse_view
parse_views no_items seen = ok []
parse_views (item raw rest) seen = do
  view ← parse_view raw seen
  views ← parse_views rest (view.name ∷ seen)
  ok (view ∷ views)

-- `value or {}`
unfoldable pub or_empty : Yaml → Yaml
or_empty null = mapping no_entries
or_empty (bool false) = mapping no_entries
or_empty (int (pos zero)) = mapping no_entries
or_empty (text []) = mapping no_entries
or_empty (scalar false) = mapping no_entries
or_empty (sequence no_items) = mapping no_entries
or_empty value = value

-- The environment's WALFLUX_DSN, if set and not empty, before the file's.
unfoldable pub choose_dsn : Option Text → Yaml → Result Text
choose_dsn (some (c ∷ cs)) value = ok (c ∷ cs)
choose_dsn _ (text dsn) = ok dsn
choose_dsn _ _ = err config_error

unfoldable pub ident_or : Text → Yaml → Result Text
ident_or default null = ok default
ident_or default value = check_ident value

-- `load_config` from the document that the file holds.
unfoldable pub load_document : Option Text → Yaml → Result Config
unfolding or_empty choose_dsn ident_or
load_document env raw = do
  doc ← require_mapping raw
  database ← require_mapping (or_empty (lookup (codes "database") doc))
  dsn ← choose_dsn env (lookup (codes "dsn") database)
  slot ← ident_or (codes "walflux") (lookup (codes "slot") doc)
  publication ← ident_or (codes "walflux") (lookup (codes "publication") doc)
  batch ← require_mapping (or_empty (lookup (codes "batch") doc))
  batch_max_ms ← positive_int (lookup (codes "max_ms") batch) 200
  batch_max_txns ← positive_int (lookup (codes "max_txns") batch) 500
  raw_views ← some_items (lookup (codes "views") doc)
  views ← parse_views raw_views []
  ok (record {
    dsn = dsn;
    slot = slot;
    publication = publication;
    batch_max_ms = batch_max_ms;
    batch_max_txns = batch_max_txns;
    views = views;
  })
