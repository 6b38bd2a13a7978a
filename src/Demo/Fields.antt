-- ===== src/Demo/Fields.antt =====
-- demo/verify.py, `load_views`: one field of a document that walflux/config.py accepts.
use walflux_postgres_increme.Prelude.{
  ◌≡◌, ℕ, refl, ◌∙◌, ap, either, not, ltb, length, Bool-cases, inl, inr, Option, none, some, List,
  [], ◌∷◌, Text, codes, member, ◌=t◌, =t→eq, if◌then◌else◌, ok, raise_if, config_error, >>=-ok,
  ok-injective,
}
use walflux_postgres_increme.Prelude.Utf8.{encode}
use walflux_postgres_increme.Common.Ident.{ident_match}
use walflux_postgres_increme.Aggregates.Spec.{AggFn, count, sum, avg, unknown}
use walflux_postgres_increme.Config.{
  Yaml, null, bool, int, text, scalar, sequence, mapping, Items, no_items, item, Entries,
}
use walflux_postgres_increme.Config.Parse.{
  require_mapping, check_ident, split_dots, schema_and_table, parse_source, parse_fn, parse_column,
  is_total, parse_columns, parse_group_by, some_items,
}
use walflux_postgres_increme.Demo.Views.{
  last_dot, split_source, or_public, text_field, optional_field, entries_of, items_of, text_fields,
  tuple_field,
}

abbrev pub fn_text : AggFn → Text
fn_text count = codes "count"
fn_text sum = codes "sum"
fn_text avg = codes "avg"
fn_text (unknown name) = name

pub check_ident-text : (value : Yaml) (s : Text) → check_ident value ≡ ok s → value ≡ text s
unfolding check_ident
check_ident-text (text value) s e =
    let (_, _, e₁) = >>=-ok (raise_if (not (ident_match value)) config_error) _ e in
    let (_, _, e₂) = >>=-ok (raise_if (ltb 63 (length (encode value))) config_error) _ e₁ in
    ap text (ok-injective e₂)
check_ident-text null s e = cc
check_ident-text (bool b) s e = cc
check_ident-text (int z) s e = cc
check_ident-text (scalar b) s e = cc
check_ident-text (sequence xs) s e = cc
check_ident-text (mapping es) s e = cc

text-injective : {a b : Text} → text a ≡ text b → a ≡ b
text-injective e = cc

pub never_blank : (s : Text) → check_ident (text []) ≡ ok s → ⊥
unfolding check_ident ident_match
never_blank s e = cc

pub entries_of-require_mapping :
    (value : Yaml) (es : Entries) → require_mapping value ≡ ok es → entries_of value ≡ ok es
unfolding require_mapping entries_of
entries_of-require_mapping (mapping fields) es e = e
entries_of-require_mapping null es e = cc
entries_of-require_mapping (bool b) es e = cc
entries_of-require_mapping (int z) es e = cc
entries_of-require_mapping (text s) es e = cc
entries_of-require_mapping (scalar b) es e = cc
entries_of-require_mapping (sequence xs) es e = cc

pub text_field-ident :
    (value : Yaml) (s : Text) → check_ident value ≡ ok s → text_field value ≡ ok s
unfolding text_field
text_field-ident value s e = rw (check_ident-text value s e) refl

pub text_field-fn :
    (value : Yaml) (fn : AggFn) → parse_fn value ≡ ok fn → text_field value ≡ ok (fn_text fn)
unfolding parse_fn text_field
text_field-fn (text s) fn e = elim (either (s =t codes "count") e) [
  | inl (same, e₁) ↦ rw (← ok-injective e₁) (ap ok (=t→eq s (codes "count") same))
  | inr (_, e₁) ↦ elim (either (s =t codes "sum") e₁) [
    | inl (same, e₂) ↦ rw (← ok-injective e₂) (ap ok (=t→eq s (codes "sum") same))
    | inr (_, e₂) ↦ elim (either (s =t codes "avg") e₂) [
      | inl (same, e₃) ↦ rw (← ok-injective e₃) (ap ok (=t→eq s (codes "avg") same))
      | inr (_, e₃) ↦ cc
    ]
  ]
]
text_field-fn null fn e = cc
text_field-fn (bool b) fn e = cc
text_field-fn (int z) fn e = cc
text_field-fn (scalar b) fn e = cc
text_field-fn (sequence xs) fn e = cc
text_field-fn (mapping es) fn e = cc

pub optional_field-column :
    (fn : AggFn) (value : Yaml) (column : Option Text)
    → parse_column fn value ≡ ok column
    → optional_field value ≡ ok column
unfolding parse_column optional_field check_ident
optional_field-column fn null column e = elim (either (is_total fn) e) [
  | inl (_, e₁) ↦ cc
  | inr (_, e₁) ↦ e₁
]
optional_field-column fn (text s) column e =
    let (c, one, e₁) = >>=-ok (check_ident (text s)) _ e in
    rw (text-injective (check_ident-text (text s) c one)) e₁
optional_field-column fn (bool b) column e = cc
optional_field-column fn (int z) column e = cc
optional_field-column fn (scalar b) column e = cc
optional_field-column fn (sequence xs) column e = cc
optional_field-column fn (mapping es) column e = cc

text_fields-columns :
    (items : Items) (seen cols : List Text)
    → parse_columns items seen ≡ ok cols
    → text_fields items ≡ ok cols
unfolding parse_columns text_fields
text_fields-columns no_items seen cols e = e
text_fields-columns (item raw rest) seen cols e =
    let (col, one, e₁) = >>=-ok (check_ident raw) _ e in
    let (_, _, e₂) = >>=-ok (raise_if (col =t codes "__walflux_rows") config_error) _ e₁ in
    let (_, _, e₃) = >>=-ok (raise_if (member col seen) config_error) _ e₂ in
    let (more, parsed, e₄) = >>=-ok (parse_columns rest (col ∷ seen)) _ e₃ in
    rw (text_field-ident raw col one) (rw (text_fields-columns rest (col ∷ seen) more parsed) e₄)

pub tuple_field-group_by :
    (value : Yaml) (cols : List Text) → parse_group_by value ≡ ok cols → tuple_field value ≡ ok cols
unfolding parse_group_by tuple_field
tuple_field-group_by null cols e = e
tuple_field-group_by (sequence items) cols e = text_fields-columns items [] cols e
tuple_field-group_by (bool b) cols e = cc
tuple_field-group_by (int z) cols e = cc
tuple_field-group_by (text s) cols e = cc
tuple_field-group_by (scalar b) cols e = cc
tuple_field-group_by (mapping es) cols e = cc

pub items_of-some_items :
    (value : Yaml) (items : Items) → some_items value ≡ ok items → items_of value ≡ ok items
unfolding some_items items_of
items_of-some_items (sequence (item x xs)) items e = e
items_of-some_items (sequence no_items) items e = cc
items_of-some_items null items e = cc
items_of-some_items (bool b) items e = cc
items_of-some_items (int z) items e = cc
items_of-some_items (text s) items e = cc
items_of-some_items (scalar b) items e = cc
items_of-some_items (mapping es) items e = cc

-- The last dot of a text, from its parts: the only one of two parts.
Agrees : List Text → Option (Text × Text) → Text → Type 0
Agrees [] found value = ⊥
Agrees (t ∷ []) found value = (found ≡ none) × (value ≡ t)
Agrees (s ∷ t ∷ []) found value = found ≡ some (s, t)
Agrees (_ ∷ _ ∷ _ ∷ _) found value = Unit

one_more :
    (c : ℕ) (cs : Text) (parts : List Text) (found : Option (Text × Text))
    → Agrees parts found cs
    → Agrees
        (elim parts [
          | [] ↦ [] ∷ []
          | p ∷ ps ↦ if (c ∷ []) =t codes "." then [] ∷ p ∷ ps else (c ∷ p) ∷ ps
        ])
        (elim found [
          | some (before, after) ↦ some (c ∷ before, after)
          | none ↦ if (c ∷ []) =t codes "." then some ([], cs) else none
        ])
        (c ∷ cs)
unfolding Agrees
one_more c cs [] found h = absurd h
one_more c cs (t ∷ []) found (no_dot, whole) = elim (Bool-cases ((c ∷ []) =t codes ".")) [
  | inl dot ↦ rw no_dot (rw dot (rw whole refl))
  | inr other ↦ rw no_dot (rw other (rw whole (refl, refl)))
]
one_more c cs (s ∷ t ∷ []) found h = elim (Bool-cases ((c ∷ []) =t codes ".")) [
  | inl dot ↦ rw dot tt
  | inr other ↦ rw h (rw other refl)
]
one_more c cs (s ∷ t ∷ u ∷ us) found h = elim (Bool-cases ((c ∷ []) =t codes ".")) [
  | inl dot ↦ rw dot tt
  | inr other ↦ rw other tt
]

last_dot-split_dots : (value : Text) → Agrees (split_dots value) (last_dot value) value
unfolding split_dots last_dot Agrees
last_dot-split_dots [] = (refl, refl)
last_dot-split_dots (c ∷ cs) = one_more c cs (split_dots cs) (last_dot cs) (last_dot-split_dots cs)

or_public-ident : (value : Text) (s : Text) → check_ident (text value) ≡ ok s → or_public value ≡ s
or_public-ident [] s e = absurd (never_blank s e)
or_public-ident (c ∷ cs) s e = text-injective (check_ident-text (text (c ∷ cs)) s e)

ident-same : (value s : Text) → check_ident (text value) ≡ ok s → value ≡ s
ident-same value s e = text-injective (check_ident-text (text value) s e)

split_of :
    (value : Text) (parts : List Text) (two : Text × Text) (schema table : Text)
    → Agrees parts (last_dot value) value
    → schema_and_table parts ≡ ok two
    → check_ident (text two.0) ≡ ok schema
    → check_ident (text two.1) ≡ ok table
    → split_source value ≡ (schema, table)
unfolding Agrees schema_and_table split_source
split_of value [] two schema table h made left right = absurd h
split_of value (t ∷ []) two schema table (no_dot, whole) made left right =
    rw (no_dot, split_source)
      (rw (whole, ← ident-same two.0 schema left, ← ident-same two.1 table right)
        (ok-injective made))
split_of value (s ∷ t ∷ []) two schema table h made left right =
    rw (h, split_source)
      (rw
        (
          ap (λ (u : Text × Text). u.0) (ok-injective made),
          ap (λ (u : Text × Text). u.1) (ok-injective made),
          or_public-ident two.0 schema left,
          ident-same two.1 table right,
        )
        refl)
split_of value (_ ∷ _ ∷ _ ∷ _) two schema table h made left right = cc

pub split_source-parse_source :
    (value : Yaml) (source : Text × Text)
    → parse_source value ≡ ok source
    → (name : Text) × (text_field value ≡ ok name) × (split_source name ≡ source)
unfolding parse_source text_field
split_source-parse_source (text value) source e =
    let (two, made, e₁) = >>=-ok (schema_and_table (split_dots value)) _ e in
    let (schema, left, e₂) = >>=-ok (check_ident (text two.0)) _ e₁ in
    let (table, right, e₃) = >>=-ok (check_ident (text two.1)) _ e₂ in
    (
      value,
      refl,
      split_of value (split_dots value) two schema table (last_dot-split_dots value) made left right
          ∙ ok-injective e₃,
    )
split_source-parse_source null source e = cc
split_source-parse_source (bool b) source e = cc
split_source-parse_source (int z) source e = cc
split_source-parse_source (scalar b) source e = cc
split_source-parse_source (sequence xs) source e = cc
split_source-parse_source (mapping es) source e = cc
