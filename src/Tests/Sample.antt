-- ===== src/Tests/Sample.antt =====
-- A configuration with two views over one table, and rows of that table.
use walflux_postgres_increme.Prelude.{List, [], ◌∷◌, Text, codes, none, some, true, Result, ok, err}
use walflux_postgres_increme.Prelude.Int.{ℤ, negsuc}
use walflux_postgres_increme.Value.{Value, Row}
use walflux_postgres_increme.Protocol.Message.{Relation}
use walflux_postgres_increme.Aggregates.Spec.{AggSpec, ViewSpec, count, sum}
use walflux_postgres_increme.Config.{Config}

abbrev pub count_all : AggSpec
count_all = record { fn = count; column = none; alias = codes "n" }

abbrev pub sum_amount : AggSpec
sum_amount = record { fn = sum; column = some (codes "amount"); alias = codes "total" }

abbrev pub by_region : ViewSpec
by_region = record {
  name = codes "by_region";
  source_schema = codes "public";
  source_table = codes "orders";
  group_by = codes "region" ∷ [];
  aggregates = count_all ∷ sum_amount ∷ [];
}

abbrev pub overall : ViewSpec
overall = record {
  name = codes "overall";
  source_schema = codes "public";
  source_table = codes "orders";
  group_by = [];
  aggregates = count_all ∷ [];
}

abbrev pub two_views : List ViewSpec
two_views = by_region ∷ overall ∷ []

abbrev pub two_views_config : Config
two_views_config = record {
  dsn = codes "dbname=shop";
  slot = codes "walflux";
  publication = codes "walflux";
  batch_max_ms = 500;
  batch_max_txns = 2;
  views = two_views;
}

abbrev pub order : Text → ℤ → Row
order region amount = (codes "region", Value.text region) ∷ (codes "amount", Value.int amount) ∷ []

abbrev pub orders_table : Relation
orders_table = record {
  rel_id = 16384;
  namespace = codes "public";
  name = codes "orders";
  replica_identity = 102;
  columns =
      record { name = codes "region"; type_oid = 25; type_mod = negsuc 0; is_key = true }
      ∷ record { name = codes "amount"; type_oid = 20; type_mod = negsuc 0; is_key = true }
      ∷ [];
}

-- The result of a computation that succeeds.
abbrev pub result {ℓ} : {A : Type ℓ} → A → Result A → A
result default (ok a) = a
result default (err _) = default
