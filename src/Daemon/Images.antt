-- ===== src/Daemon/Images.antt =====
-- walflux/daemon.py: the row images of an update in `_row_ops`.
use walflux_postgres_increme.Prelude.{
  ◌≡◌, refl, sym, ◌∙◌, ◌⊎◌, List, [], ◌∷◌, All, Text, ◌=t◌, Result, ok, >>=-ok, ok-injective, inl,
  inr, ◌≢◌, either, some,
}
use walflux_postgres_increme.Value.{Value, Row, get}
use walflux_postgres_increme.Protocol.Message.{TupleData, Relation}
use walflux_postgres_increme.Aggregates.Spec.{ViewSpec}
use walflux_postgres_increme.Daemon.Op.{Op, update}
use walflux_postgres_increme.Daemon.Rows.{decode_row, substitute, updates, update_ops}

abbrev pub IsKnown : Text × Value → Type 0
IsKnown (_, v) = v ≢ Value.unchanged_toast

get-IsKnown :
    (name : Text) (row : Row) (v : Value)
    → All IsKnown row
    → get name row ≡ ok v
    → v ≢ Value.unchanged_toast
unfolding get
get-IsKnown name [] v h e = cc
get-IsKnown name ((n, u) ∷ row) v h e = elim (either (n =t name) e) [
  | inl (_, here) ↦ rw (← ok-injective here) h.0
  | inr (_, there) ↦ get-IsKnown name row v h.1 there
]

-- The new image after the substitution, column by column: a value that was sent is kept, and one that
-- was not is the old value of the column.
abbrev pub IsFilled : Row → Row → Row → Type 0
IsFilled old [] full = full ≡ []
IsFilled old ((name, v) ∷ new) full =
    (w : Value) × (rest : Row) × (full ≡ (name, w) ∷ rest)
    × ((IsKnown (name, v) × (w ≡ v)) ⊎ ((v ≡ Value.unchanged_toast) × (get name old ≡ ok w)))
    × IsFilled old new rest

substitute-IsFilled :
    (old new full : Row)
    → All IsKnown old
    → substitute old new ≡ ok full
    → All IsKnown full × IsFilled old new full
unfolding substitute
substitute-IsFilled old [] full h e = rw (← ok-injective e) (tt, refl)
substitute-IsFilled old ((name, Value.unchanged_toast) ∷ new) full h e =
    let (v, found, e₁) = >>=-ok (get name old) _ e in
    let (rest, step, e₂) = >>=-ok (substitute old new) _ e₁ in
    let (known, filled) = substitute-IsFilled old new rest h step in
    rw (← ok-injective e₂)
      ((get-IsKnown name old v h found, known), (v, rest, refl, inr (refl, found), filled))
substitute-IsFilled old ((name, v) ∷ new) full h e =
    let (rest, step, e₁) = >>=-ok (substitute old new) _ e in
    let (known, filled) = substitute-IsFilled old new rest h step in
    rw (← ok-injective e₁) (((λ q. cc), known), (v, rest, refl, inl ((λ q. cc), refl), filled))

-- one event of every view, in the order of the views
abbrev pub AreUpdates : Row → Row → List ViewSpec → List Op → Type 0
AreUpdates old new [] ops = ops ≡ []
AreUpdates old new (v ∷ vs) ops =
    (rest : List Op) × (ops ≡ update v.name old new ∷ rest) × AreUpdates old new vs rest

updates-AreUpdates :
    (old new : Row) (vs : List ViewSpec) → AreUpdates old new vs (updates old new vs)
unfolding updates
updates-AreUpdates old new [] = refl
updates-AreUpdates old new (v ∷ vs) = (updates old new vs, refl, updates-AreUpdates old new vs)

-- If an update of a table with views is resolved and its old image is complete, then every view gets
-- one event, in order, all with the decoded old image and a new image that is complete too: it has the
-- columns of the decoded new tuple, each with the value that was sent, or the value of the old image
-- where the marker for an unchanged TOAST value was sent, and so no marker.
pub update_ops-IsKnown :
    (to_float : Text → Result Text) (rel : Relation) (old_tuple new_tuple : TupleData)
    (views : List ViewSpec) (old : Row) (ops : List Op)
    → views ≢ []
    → decode_row to_float rel old_tuple ≡ ok old
    → All IsKnown old
    → update_ops to_float rel (some old_tuple) new_tuple views ≡ ok ops
    → (new full : Row) × (decode_row to_float rel new_tuple ≡ ok new)
      × All IsKnown full
      × IsFilled old new full
      × AreUpdates old full views ops
unfolding update_ops
update_ops-IsKnown to_float rel old_tuple new_tuple [] old ops some_view decoded h e =
    absurd (some_view refl)
update_ops-IsKnown to_float rel old_tuple new_tuple (v ∷ vs) old ops some_view decoded h e =
    let (old', decoded', e₁) = >>=-ok (decode_row to_float rel old_tuple) _ e in
    let (new, decoded_new, e₂) = >>=-ok (decode_row to_float rel new_tuple) _ e₁ in
    let (full, step, e₃) = >>=-ok (substitute old' new) _ e₂ in
    let same : old' ≡ old = ok-injective (sym decoded' ∙ decoded) in
    let (known, columns) = substitute-IsFilled old new full h (rw (← same) step) in
    (
      new,
      full,
      decoded_new,
      known,
      columns,
      rw (← ok-injective e₃, same) (updates-AreUpdates old full (v ∷ vs)),
    )
