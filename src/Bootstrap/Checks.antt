-- ===== src/Bootstrap/Checks.antt =====
-- walflux/bootstrap.py: connecting, and the checks and preparations of `setup` before the slot.
use walflux_postgres_increme.Prelude.{
  ◌+◌, Option, none, some, Bool, true, false, not, ◌&&◌, ◌||◌, List, [], ◌∷◌, map, Text, codes,
  ◌=t◌, join, leb, if◌then◌else◌, Result, ok, err, map_result, walflux_error, setup_error,
}
use walflux_postgres_increme.Prelude.Int.{pos, ltb_ℤ}
use walflux_postgres_increme.Prelude.Numeral.{parse_int}
use walflux_postgres_increme.Common.Ident.{quote_ident}
use walflux_postgres_increme.Aggregates.Spec.{ViewSpec, qualified}
use walflux_postgres_increme.Config.{Config}
use walflux_postgres_increme.Database.Command.{
  Command, Answer, connect, connect_replication, show_version_num, show_version, show_wal_level,
  find_source, set_identity_full, find_publication, create_publication, set_publication,
}
use walflux_postgres_increme.Database.Session.{
  Session, pure, raise, lift, check, ◌>>=◌, ◌>>◌, execute, assign_repl_conn,
}

abbrev pub Table : Type 0
Table = Text × Text

abbrev same_table : Table → Table → Bool
same_table a b = a.0 =t b.0 && a.1 =t b.1

abbrev has_table : Table → List Table → Bool
has_table t [] = false
has_table t (u ∷ us) = same_table u t || has_table t us

-- `dict.fromkeys((v.source_schema, v.source_table) for v in views)`: each table once, where it comes first
unfoldable pub distinct_tables : List Table → List ViewSpec → List Table
distinct_tables seen [] = []
distinct_tables seen (v ∷ vs) =
    let t : Table = (v.source_schema, v.source_table) in
    let rest = distinct_tables seen vs in
    let new_rest = distinct_tables (t ∷ seen) vs in if has_table t seen then rest else t ∷ new_rest

-- `", ".join(f"{quote_ident(s)}.{quote_ident(t)}" for s, t in tables)`
unfoldable pub table_list : List Table → Result Text
table_list tables = list_of (map_result (λ t. qualified t.0 t.1) tables)
  where
    list_of : Result (List Text) → Result Text
    list_of (ok names) = ok (join (codes ", ") names)
    list_of (err e) = err e

-- `str(exc).lower()` as far as ASCII goes: no other character has an ASCII letter of the word searched
-- for as its lower case.
abbrev lower : Text → Text
lower s = map (λ c. if leb b'A' c && leb c b'Z' then c + 32 else c) s

abbrev starts_with : Text → Text → Bool
starts_with [] s = true
starts_with (c ∷ p) [] = false
starts_with (c ∷ p) (d ∷ s) = (c ∷ []) =t (d ∷ []) && starts_with p s

abbrev has_part : Text → Text → Bool
has_part p [] = starts_with p []
has_part p (c ∷ s) = starts_with p (c ∷ s) || has_part p s

-- The message of `_connect` around the text of the `OperationalError` has the word where the text has it.
unfoldable pub names_replication : Text → Bool
names_replication message = has_part (codes "replication") (lower message)

module _ {D : Type 0} (server : (c : Command) → D → Result (Answer c) × D) where
  -- `_connect`
  abbrev pub refused : Option Text → Session D Unit
  refused none = pure tt
  refused (some message) = raise walflux_error

  abbrev pub connect_regular : Session D Unit
  connect_regular = do refusal ← execute server connect; refused refusal

  abbrev pub refused_replication : Option Text → Session D Unit
  refused_replication none = assign_repl_conn
  refused_replication (some message) =
      raise (if names_replication message then setup_error else walflux_error)

  abbrev pub connect_walsender : Session D Unit
  connect_walsender = do refusal ← execute server connect_replication; refused_replication refusal

  abbrev pub reject_version : Bool → Session D Unit
  reject_version true = do _ ← execute server show_version; raise setup_error
  reject_version false = pure tt

  abbrev pub check_server_version : Session D Unit
  check_server_version = do
    shown ← execute server show_version_num
    version_num ← lift (parse_int 10 shown)
    reject_version (ltb_ℤ version_num (pos 150000))

  abbrev pub check_wal_level : Session D Unit
  check_wal_level = do
    level ← execute server show_wal_level
    check (not (level =t codes "logical")) setup_error

  -- `ALTER TABLE … REPLICA IDENTITY FULL`
  abbrev pub set_identity : Table → Session D Unit
  set_identity t = do
    schema ← lift (quote_ident t.0)
    table ← lift (quote_ident t.1)
    execute server (set_identity_full schema table)

  abbrev pub ensure_identity : Table → Option Text → Session D Unit
  ensure_identity t none = raise setup_error
  ensure_identity t (some identity) = if identity =t codes "f" then pure tt else set_identity t

  abbrev pub ensure_tables : List Table → Session D Unit
  ensure_tables [] = pure tt
  ensure_tables (t ∷ ts) = do
    row ← execute server (find_source t.0 t.1)
    ensure_identity t row
    ensure_tables ts

  abbrev pub ensure_sources : List ViewSpec → Session D Unit
  ensure_sources views = ensure_tables (distinct_tables [] views)

  abbrev pub publish : Text → Text → Bool → Session D Unit
  publish publication tables false = do
    name ← lift (quote_ident publication)
    execute server (create_publication name tables)
  publish publication tables true = do
    name ← lift (quote_ident publication)
    execute server (set_publication name tables)

  abbrev pub ensure_publication : Config → Session D Unit
  ensure_publication config = do
    tables ← lift (table_list (distinct_tables [] config.views))
    found ← execute server (find_publication config.publication)
    publish config.publication tables found
