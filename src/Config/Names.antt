-- ===== src/Config/Names.antt =====
-- walflux/config.py: the names of one view, its group columns and its aliases.
use walflux_postgres_increme.Prelude.{
  if◌then◌else◌, ◌≡◌, refl, ◌∙◌, Bool, true, false, ◌&&◌, ltb, length, ◌+◌, List, [], ◌∷◌, All,
  Text, codes, member, ◌=t◌, =t_sym, Error, ok, raise_if, config_error, >>=-ok, ok-injective,
}
use walflux_postgres_increme.Prelude.Utf8.{encode}
use walflux_postgres_increme.Aggregates.Spec.{AggSpec}
use walflux_postgres_increme.Config.{
  Yaml, null, bool, int, text, scalar, sequence, mapping, Items, no_items, item,
}
use walflux_postgres_increme.Config.Parse.{
  lookup, require_mapping, check_ident, parse_fn, parse_column, parse_aggregate, parse_aggregates,
  parse_columns, parse_group_by, is_reserved, is_total,
}

abbrev pub Distinct : List Text → Type 0
Distinct [] = Unit
Distinct (x ∷ xs) = (member x xs ≡ false) × Distinct xs

abbrev pub Outside : List Text → List Text → Type 0
Outside seen xs = All (λ x. member x seen ≡ false) xs

abbrev pub aliases : List AggSpec → List Text
aliases [] = []
aliases (a ∷ as') = a.alias ∷ aliases as'

pub passed : (failed : Bool) (x : Error) (u : Unit {0}) → raise_if failed x ≡ ok u → failed ≡ false
passed true x u e = cc
passed false x u e = refl

if_true : (a b : Bool) → (if a then true else b) ≡ false → (a ≡ false) × (b ≡ false)
if_true true b e = cc
if_true false b e = (refl, e)

pub Outside-tail :
    (x : Text) (seen xs : List Text)
    → Outside (x ∷ seen) xs
    → (member x xs ≡ false) × Outside seen xs
Outside-tail x seen [] h = (refl, tt)
Outside-tail x seen (y ∷ ys) (here, h) =
    let (differs, fresh) = if_true (y =t x) (member y seen) here in
    let (apart, before) = Outside-tail x seen ys h in
    let other : (x =t y) ≡ false = =t_sym x y ∙ differs in (rw other apart, (fresh, before))

parse_columns-Distinct :
    (items : Items) (seen cols : List Text)
    → parse_columns items seen ≡ ok cols
    → Outside seen cols × Distinct cols
unfolding parse_columns
parse_columns-Distinct no_items seen cols e = rw (← ok-injective e) (tt, tt)
parse_columns-Distinct (item raw rest) seen cols e =
    let (col, _, e₁) = >>=-ok (check_ident raw) _ e in
    let (_, _, e₂) = >>=-ok (raise_if (col =t codes "__walflux_rows") config_error) _ e₁ in
    let (u, fresh, e₃) = >>=-ok (raise_if (member col seen) config_error) _ e₂ in
    let (more, parsed, e₄) = >>=-ok (parse_columns rest (col ∷ seen)) _ e₃ in
    let (outside, distinct) = parse_columns-Distinct rest (col ∷ seen) more parsed in
    let (apart, before) = Outside-tail col seen more outside in
    rw (← ok-injective e₄)
      ((passed (member col seen) config_error u fresh, before), (apart, distinct))

pub parse_group_by-Distinct :
    (value : Yaml) (cols : List Text) → parse_group_by value ≡ ok cols → Distinct cols
unfolding parse_group_by
parse_group_by-Distinct null cols e = rw (← ok-injective e) tt
parse_group_by-Distinct (sequence items) cols e = (parse_columns-Distinct items [] cols e).1
parse_group_by-Distinct (bool b) cols e = cc
parse_group_by-Distinct (int z) cols e = cc
parse_group_by-Distinct (text s) cols e = cc
parse_group_by-Distinct (scalar b) cols e = cc
parse_group_by-Distinct (mapping es) cols e = cc

IsValidAlias : List Text → List Text → Text → Type 0
IsValidAlias group_by seen alias =
    (member alias seen ≡ false) × (member alias group_by ≡ false) × (is_reserved alias ≡ false)

parse_aggregate-alias :
    (raw : Yaml) (group_by seen : List Text) (agg : AggSpec)
    → parse_aggregate raw group_by seen ≡ ok agg
    → IsValidAlias group_by seen agg.alias
unfolding parse_aggregate IsValidAlias
parse_aggregate-alias raw group_by seen agg e =
    let (a, _, e₁) = >>=-ok (require_mapping raw) _ e in
    let (fn, _, e₂) = >>=-ok (parse_fn (lookup (codes "fn") a)) _ e₁ in
    let (alias, _, e₃) = >>=-ok (check_ident (lookup (codes "as") a)) _ e₂ in
    let (column, _, e₄) = >>=-ok (parse_column fn (lookup (codes "column") a)) _ e₃ in
    let (u, fresh, e₅) = >>=-ok (raise_if (member alias seen) config_error) _ e₄ in
    let (v, apart, e₆) = >>=-ok (raise_if (member alias group_by) config_error) _ e₅ in
    let (w, free, e₇) = >>=-ok (raise_if (is_reserved alias) config_error) _ e₆ in
    let (_, _, e₈) =
      >>=-ok (raise_if (is_total fn && ltb 63 (length (encode alias) + 5)) config_error) _ e₇ in
    rw (← ok-injective e₈) (
      passed (member alias seen) config_error u fresh,
      passed (member alias group_by) config_error v apart,
      passed (is_reserved alias) config_error w free,
    )

pub parse_aggregates-aliases :
    (items : Items) (group_by seen : List Text) (aggs : List AggSpec)
    → parse_aggregates items group_by seen ≡ ok aggs
    → Outside seen (aliases aggs)
      × Distinct (aliases aggs)
      × Outside group_by (aliases aggs)
      × All (λ alias. is_reserved alias ≡ false) (aliases aggs)
unfolding parse_aggregates IsValidAlias
parse_aggregates-aliases no_items group_by seen aggs e = rw (← ok-injective e) (tt, tt, tt, tt)
parse_aggregates-aliases (item raw rest) group_by seen aggs e =
    let (agg, one, e₁) = >>=-ok (parse_aggregate raw group_by seen) _ e in
    let (more, parsed, e₂) = >>=-ok (parse_aggregates rest group_by (agg.alias ∷ seen)) _ e₁ in
    let (fresh, out, free) = parse_aggregate-alias raw group_by seen agg one in
    let (outside, distinct, apart, clear) =
      parse_aggregates-aliases rest group_by (agg.alias ∷ seen) more parsed in
    let (other, before) = Outside-tail agg.alias seen (aliases more) outside in
    rw (← ok-injective e₂) ((fresh, before), (other, distinct), (out, apart), (free, clear))
