-- ===== src/Tests/Documents.antt =====
-- Examples for walflux/config.py.
use walflux_postgres_increme.Prelude.Utf8.{encode}
use walflux_postgres_increme.Common.Ident.{is_ident_char}
use walflux_postgres_increme.Common.Ident.{is_ident_start}
use walflux_postgres_increme.Common.Ident.{ident_match}
use walflux_postgres_increme.Config.Parse.{check_ident}
use walflux_postgres_increme.Config.Parse.{parse_views}
use walflux_postgres_increme.Config.Parse.{some_items}
use walflux_postgres_increme.Config.Parse.{positive_int}
use walflux_postgres_increme.Config.Parse.{lookup}
use walflux_postgres_increme.Config.Parse.{require_mapping}
use walflux_postgres_increme.Prelude.{◌≡◌, refl, Text, codes, none, ok, map}
use walflux_postgres_increme.Prelude.Int.{pos}
use walflux_postgres_increme.Config.{Yaml, no_items, item, no_entries, entry}
use walflux_postgres_increme.Config.Parse.{load_document}
use walflux_postgres_increme.Demo.Views.{load_views}
use walflux_postgres_increme.Demo.Agree.{as_view, load_views-load_document}
use walflux_postgres_increme.Config.Valid.{IsValid, load_document-IsValid}
use walflux_postgres_increme.Tests.Sample.{two_views_config}

abbrev str : Text → Yaml
str s = Yaml.text s

abbrev count_all : Yaml
count_all =
    Yaml.mapping
      (entry (codes "fn") (str (codes "count")) (entry (codes "as") (str (codes "n")) no_entries))

abbrev sum_amount : Yaml
sum_amount = Yaml.mapping (
    entry (codes "fn") (str (codes "sum")) (
      entry (codes "column") (str (codes "amount"))
        (entry (codes "as") (str (codes "total")) no_entries)))

abbrev by_region : Yaml
by_region = Yaml.mapping (
    entry (codes "name") (str (codes "by_region")) (
      entry (codes "source") (str (codes "public.orders")) (
        entry (codes "group_by") (Yaml.sequence (item (str (codes "region")) no_items)) (
          entry (codes "aggregates") (Yaml.sequence (item count_all (item sum_amount no_items)))
            no_entries))))

abbrev overall : Yaml
overall = Yaml.mapping (
    entry (codes "name") (str (codes "overall")) (
      entry (codes "source") (str (codes "orders"))
        (entry (codes "aggregates") (Yaml.sequence (item count_all no_items)) no_entries)))

-- The batch limits of two_views_config, and its two views.
abbrev document : Yaml
document = Yaml.mapping (
    entry (codes "database")
      (Yaml.mapping (entry (codes "dsn") (str (codes "dbname=shop")) no_entries))
      (entry (codes "batch")
        (Yaml.mapping (
          entry (codes "max_ms") (Yaml.int (pos 500))
            (entry (codes "max_txns") (Yaml.int (pos 2)) no_entries)))
        (entry (codes "views") (Yaml.sequence (item by_region (item overall no_items)))
          no_entries)))

loaded : load_document none document ≡ ok two_views_config
unfolding load_document require_mapping lookup positive_int some_items parse_views check_ident
    ident_match is_ident_start is_ident_char encode
loaded = refl

load_document-IsValid_example : IsValid two_views_config
load_document-IsValid_example = load_document-IsValid none document two_views_config loaded

load_views-load_document_example : load_views document ≡ ok (map as_view two_views_config.views)
load_views-load_document_example = load_views-load_document none document two_views_config loaded
