-- ===== src/Daemon/Source.antt =====
-- What the events of a transaction do to the rows of one source table.
use walflux_postgres_increme.Prelude.{◌≡◌, ◌⊎◌, false, List, [], ◌∷◌, ◌++◌, Text, ◌=t◌}
use walflux_postgres_increme.Value.{Row}
use walflux_postgres_increme.Daemon.Op.{Op, insert, update, delete, truncate, view_of}

-- What one event does to the rows of its source table.
abbrev pub Effect : Op → List Row → List Row → Type 0
Effect (insert _ row) s s' = s' ≡ row ∷ s
Effect (delete _ row) s s' =
    (before : List Row) × (after : List Row) × (s ≡ before ++ row ∷ after) × (s' ≡ before ++ after)
Effect (update _ old new) s s' =
    (before : List Row) × (after : List Row) × (s ≡ before ++ old ∷ after)
    × (s' ≡ before ++ new ∷ after)
Effect (truncate _) s s' = s' ≡ []

-- An event of another view leaves this view's source as it is.
abbrev pub Change : Text → Op → List Row → List Row → Type 0
Change name op s s' =
    ((view_of op ≡ name) × Effect op s s') ⊎ (((view_of op =t name) ≡ false) × (s' ≡ s))

abbrev pub Changes : Text → List Op → List Row → List Row → Type 0
Changes name [] s s' = s' ≡ s
Changes name (op ∷ ops) s s' = (t : List Row) × Change name op s t × Changes name ops t s'

-- The row images that an event carries.
abbrev pub rows_of : Op → List Row
rows_of (insert _ row) = row ∷ []
rows_of (delete _ row) = row ∷ []
rows_of (update _ old new) = old ∷ new ∷ []
rows_of (truncate _) = []
