-- ===== src/Entity/Visible.antt =====
-- The row that an entity of lib/entity/entity.go shows of an id, `Current`.
use go_platform.Base.{
  if◌then◌else◌, false, Bool, true, sym, GoString, [], ◌∷◌, ◌≡◌, refl, ◌∙◌, ap, lit,
}
use go_platform.Pgtx.Explain.{problem}
use go_platform.Rest.Writable.Guarded.{Shows, call_row-Shows, row-bind}
use go_platform.Rest.Row.{call_row, not_found, RowId, stop, row}
use go_platform.Entity.{get_row, Entity, current}

module _ {B V W : Type 0} (e : Entity B V W) where
  -- `GetFn` returned the row `out` of an id, whose own id is not null.
  abbrev pub IsVisible : RowId → W → GoString → W → Type 0
  IsVisible id w out after =
      Shows (e.api e.get_fn ((lit "id", e.id_value id) ∷ []) w) out after
      × (e.has_null_id out ≡ false)

  shown-IsVisible :
      (b : Bool) (out' : GoString) (w' : W) {out : GoString} {after : W}
      → e.has_null_id out' ≡ b
      → (if b then stop (problem not_found) w' else row out' w') ≡ row out after
      → (out' ≡ out) × (w' ≡ after) × (e.has_null_id out' ≡ false)
  shown-IsVisible true out' w' known h = cc
  shown-IsVisible false out' w' known h = (cc h, cc h, known)

  pub current-IsVisible :
      (id : RowId) (w : W) {out : GoString} {after : W}
      → current e id w ≡ row out after
      → IsVisible id w out after
  unfolding current get_row
  current-IsVisible id w {out} {after} h =
      let (out', w', got, h') =
        row-bind (call_row (problem not_found) (e.api e.get_fn ((lit "id", e.id_value id) ∷ []) w))
          _ h in
      let (same, here, kept) = shown-IsVisible (e.has_null_id out') out' w' refl h' in
      (
        call_row-Shows (problem not_found) _ (got ∙ ap (λ x. row x w') same ∙ ap (row out) here),
        ap e.has_null_id (sym same) ∙ kept,
      )
