-- ===== src/Config.antt =====
-- walflux/config.py: the validated configuration, and the YAML values that it is read from.
use walflux_postgres_increme.Prelude.{
  ℕ, Bool, true, false, Text, ◌=t◌, if◌then◌else◌, Result, ok, err, config_error,
}
use walflux_postgres_increme.Prelude.Int.{ℤ, pos, negsuc}
use walflux_postgres_increme.Prelude.{List}
use walflux_postgres_increme.Aggregates.Spec.{ViewSpec}
pub mod Parse
pub mod Names
pub mod Valid

pub record Config : Type 0 where
  pub dsn : Text
  pub slot : Text
  pub publication : Text
  pub batch_max_ms : ℕ
  pub batch_max_txns : ℕ
  pub views : List ViewSpec

-- What `yaml.safe_load` returns. A scalar that is none of null, bool, int and str is its truth value; of
-- a mapping the keys that are texts.
mutual
  pub data Yaml : Type 0 where
    null : Yaml
    bool : Bool → Yaml
    int : ℤ → Yaml
    text : Text → Yaml
    scalar : Bool → Yaml
    sequence : Items → Yaml
    mapping : Entries → Yaml

  pub data Items : Type 0 where
    no_items : Items
    item : Yaml → Items → Items

  pub data Entries : Type 0 where
    no_entries : Entries
    entry : Text → Yaml → Entries → Entries
