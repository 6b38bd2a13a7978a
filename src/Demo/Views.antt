-- ===== src/Demo/Views.antt =====
-- demo/verify.py, `load_views`: the views as the check reads them from the same document.
use walflux_postgres_increme.Prelude.{
  zero, false, Option, none, some, List, [], ◌∷◌, map, Text, codes, ◌=t◌, if◌then◌else◌, Result, ok,
  err, ◌>>=◌, type_error,
}
use walflux_postgres_increme.Prelude.Int.{pos}
use walflux_postgres_increme.Config.{
  Yaml, null, bool, int, text, scalar, sequence, mapping, Items, no_items, item, Entries,
  no_entries,
}
use walflux_postgres_increme.Config.Parse.{lookup}
use walflux_postgres_increme.Demo.Queries.{Agg, View}

-- What stands before and after the last dot of a text, if it has one.
unfoldable pub last_dot : Text → Option (Text × Text)
last_dot [] = none
last_dot (c ∷ cs) = elim (last_dot cs) [
  | some (before, after) ↦ some (c ∷ before, after)
  | none ↦ if (c ∷ []) =t codes "." then some ([], cs) else none
]

-- `schema or "public"`
abbrev pub or_public : Text → Text
or_public [] = codes "public"
or_public (c ∷ cs) = c ∷ cs

-- `value.rpartition(".")`, whose first part is empty without a dot; then the default schema
unfoldable pub split_source : Text → Text × Text
unfolding last_dot
split_source value = elim (last_dot value) [
  | none ↦ (codes "public", value)
  | some (schema, table) ↦ (or_public schema, table)
]

-- A field that its annotation calls a text. Python does not check this: another value is the error here,
-- as is a missing key.
unfoldable pub text_field : Yaml → Result Text
text_field (text value) = ok value
text_field _ = err type_error

-- The same of a field that may be None.
unfoldable pub optional_field : Yaml → Result (Option Text)
optional_field null = ok none
optional_field (text value) = ok (some value)
optional_field _ = err type_error

-- `value[key]` reads a mapping.
unfoldable pub entries_of : Yaml → Result Entries
entries_of (mapping es) = ok es
entries_of _ = err type_error

-- What a `for` over a list goes through. A text or a mapping, if not empty, gives texts, which have no
-- fields to read.
unfoldable pub items_of : Yaml → Result Items
items_of (sequence items) = ok items
items_of (text []) = ok no_items
items_of (mapping no_entries) = ok no_items
items_of _ = err type_error

unfoldable pub text_fields : Items → Result (List Text)
unfolding text_field
text_fields no_items = ok []
text_fields (item raw rest) = do
  field ← text_field raw
  fields ← text_fields rest
  ok (field ∷ fields)

-- `tuple(value or ())`
unfoldable pub tuple_field : Yaml → Result (List Text)
unfolding text_fields
tuple_field null = ok []
tuple_field (bool false) = ok []
tuple_field (int (pos zero)) = ok []
tuple_field (scalar false) = ok []
tuple_field (mapping no_entries) = ok []
tuple_field (text value) = ok (map (λ c. c ∷ []) value)
tuple_field (sequence items) = text_fields items
tuple_field _ = err type_error

unfoldable pub load_agg : Yaml → Result Agg
unfolding entries_of text_field optional_field
load_agg raw = do
  agg ← entries_of raw
  fn ← text_field (lookup (codes "fn") agg)
  column ← optional_field (lookup (codes "column") agg)
  alias ← text_field (lookup (codes "as") agg)
  ok (record { fn = fn; column = column; alias = alias })

unfoldable pub load_aggs : Items → Result (List Agg)
unfolding load_agg
load_aggs no_items = ok []
load_aggs (item raw rest) = do agg ← load_agg raw; aggs ← load_aggs rest; ok (agg ∷ aggs)

unfoldable pub load_view : Yaml → Result View
unfolding split_source tuple_field items_of load_aggs
load_view raw = do
  view ← entries_of raw
  source ← text_field (lookup (codes "source") view)
  name ← text_field (lookup (codes "name") view)
  group_by ← tuple_field (lookup (codes "group_by") view)
  raw_aggs ← items_of (lookup (codes "aggregates") view)
  aggregates ← load_aggs raw_aggs
  ok (record {
    name = name;
    schema = (split_source source).0;
    table = (split_source source).1;
    group_by = group_by;
    aggregates = aggregates;
  })

unfoldable pub load_each : Items → Result (List View)
unfolding load_view
load_each no_items = ok []
load_each (item raw rest) = do view ← load_view raw; views ← load_each rest; ok (view ∷ views)

unfoldable pub load_views : Yaml → Result (List View)
unfolding load_each
load_views cfg = do
  doc ← entries_of cfg
  raw_views ← items_of (lookup (codes "views") doc)
  load_each raw_views
