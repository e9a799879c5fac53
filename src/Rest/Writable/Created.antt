-- ===== src/Rest/Writable/Created.antt =====
-- The POST and the DELETE of lib/rest/writable.go, `Create` and `Delete`, over a transaction.
use mathlib.Core.Path.{subst}
use go_platform.Base.{
  ℤ, false, refl, GoString, [], ◌∷◌, none, some, ◌≡◌, ◌⊎◌, inl, inr, arith, lit, str_eq,
  str_eq_sound, delete, Bool-cases,
}
use go_platform.Problem.{Problem}
use go_platform.Pgtx.Explain.{problem, pg, other}
use go_platform.Pgtx.Doer.{Doer, IsDoer}
use go_platform.Rest.Row.{
  not_found, Result, ok, err, RowId, uuid, number, id_of, etag_of, location_of, Called, raised,
  rows, Step, stop, row,
}
use go_platform.Rest.Writable.{
  Writable, NewId, not_json, other_value, text, numeral, get_row, created_row, row_of_new,
  create_step, without, deleted, delete_step, create, delete_row, sent_row,
}
use go_platform.Rest.Writable.Guarded.{Shows, call_row-Shows, row-bind}
use go_platform.Rest.Handler.{HttpRequest, Answer, failed, sent, transact, Done, transact-Done}

module _ {B V W : Type 0} (wr : Writable B V W) where
  created_row-row :
      (s : Step W) {out : GoString} {w : W} → created_row wr s ≡ row out w → s ≡ row out w
  unfolding created_row
  created_row-row (stop (problem p) w') h = absurd (ground arith)
  created_row-row (stop (pg state message) w') h = h
  created_row-row (stop other w') h = h
  created_row-row (row r w') h = h

  -- `GetFn` returned the row `out` of an id.
  abbrev pub IsRead : RowId → W → GoString → W → Type 0
  IsRead id w out after = Shows (wr.api wr.get_fn ((lit "id", wr.id_value id) ∷ []) w) out after

  get_row-IsRead :
      (id : RowId) (w : W) {out : GoString} {after : W}
      → get_row wr id w ≡ row out after
      → IsRead id w out after
  unfolding get_row
  get_row-IsRead id w h =
      call_row-Shows (problem not_found) (wr.api wr.get_fn ((lit "id", wr.id_value id) ∷ []) w) h

  -- The row that the reader shows of a new id, which is a text that is not empty or a number.
  abbrev pub IsNew : NewId → W → GoString → W → Type 0
  IsNew n w' out w =
      ((s : GoString) × (n ≡ text s) × (str_eq s [] ≡ false) × IsRead (uuid s) w' out w)
      ⊎ ((k : ℤ) × (n ≡ numeral (some k)) × IsRead (number k) w' out w)

  row_of_new-shown :
      (n : NewId) (w' : W) {out : GoString} {w : W}
      → row_of_new wr n w' ≡ row out w
      → IsNew n w' out w
  unfolding row_of_new
  row_of_new-shown not_json w' h = cc
  row_of_new-shown other_value w' h = cc
  row_of_new-shown (text s) w' h = elim (Bool-cases (str_eq s [])) [
    | inl empty ↦ absurd (let e = (rw empty at h) in cc e)
    | inr named ↦ inl (
      s,
      refl,
      named,
      get_row-IsRead (uuid s) w' (created_row-row (get_row wr (uuid s) w') (rw named at h)),
    )
  ]
  row_of_new-shown (numeral none) w' h = cc
  row_of_new-shown (numeral (some n)) w' h =
      inr (n, refl, get_row-IsRead (number n) w' (created_row-row (get_row wr (number n) w') h))

  -- How the row of a POST came about: api.set_<x> returned it, or CreateFn returned an id and GetFn
  -- shows the row of it.
  abbrev pub IsMade : B → W → GoString → W → Type 0
  IsMade b w out after =
      ((wr.create_fn ≡ []) × Shows (wr.api wr.set_fn (wr.args none b) w) out after)
      ⊎ ((str_eq wr.create_fn [] ≡ false)
          × (made : GoString) × (w' : W) × Shows
              (wr.api wr.create_fn (without wr wr.create_omit (delete (lit "id") (wr.args none b)))
                w)
              made w'
          × IsNew (wr.new_id made) w' out after)

  create_step-IsMade :
      (b : B) (w : W) {out : GoString} {after : W}
      → create_step wr b w ≡ row out after
      → IsMade b w out after
  unfolding create_step
  create_step-IsMade b w h = elim (Bool-cases (str_eq wr.create_fn [])) [
    | inl set ↦ inl (
      str_eq_sound wr.create_fn [] set,
      call_row-Shows other (wr.api wr.set_fn (wr.args none b) w) (rw set at h),
    )
    | inr add ↦
        let (made, w', made_by, h') =
          row-bind _ (λ out w'. row_of_new wr (wr.new_id out) w') (rw add at h) in
        inr (add, made, w', call_row-Shows other _ made_by, row_of_new-shown (wr.new_id made) w' h')
  ]

  module _ (run : Doer W) (r : HttpRequest) where
    abbrev pub Created : GoString × B → W → Answer × W → Type 0
    Created (raw, b) w (a, after) =
        ((p : Problem) × (a ≡ failed p) × (after ≡ w))
        ⊎ ((out : GoString) × IsMade b w out after
            × (a
                ≡ sent (record {
                  status = 201;
                  etag = etag_of wr.json out;
                  location = location_of wr.json wr.prefix wr.int_id out;
                  body = out;
                })))

    Created-of_Done :
        (d : IsDoer run) (raw : GoString) (b : B) (w : W) (x : Answer × W)
        → Done run r
            (create_step wr b)
            (λ out. sent_row wr run r 201 (location_of wr.json wr.prefix wr.int_id out) out)
            w
            x
        → Created (raw, b) w x
    unfolding sent_row
    Created-of_Done d raw b w (a, after) (inl h) = inl h
    Created-of_Done d raw b w (a, after) (inr (out, h, same)) =
        inr (out, create_step-IsMade b w h, same)

    -- What a DELETE has established: the row was visible, and the call of DeleteFn did not raise.
    abbrev pub Deleted : RowId → W → Answer × W → Type 0
    Deleted id w (a, after) =
        ((p : Problem) × (a ≡ failed p) × (after ≡ w))
        ⊎ ((current : GoString) × (w' : W) × (get_row wr id w ≡ row current w')
            × (deleted wr (wr.api wr.delete_fn ((lit "id", wr.id_value id) ∷ []) w') ≡ row [] after)
            × (a ≡ sent (record { status = 204; etag = []; location = []; body = [] })))

    deleted-row :
        (c : Called W) {out : GoString} {after : W}
        → deleted wr c ≡ row out after
        → deleted wr c ≡ row [] after
    unfolding deleted
    deleted-row (raised e w) h = cc
    deleted-row (rows rs w) h = cc

    Deleted-of_Done :
        (d : IsDoer run) (id : RowId) (w : W) (x : Answer × W)
        → Done run r
            (delete_step wr id)
            (λ out. record { status = 204; etag = []; location = []; body = [] })
            w
            x
        → Deleted id w x
    unfolding delete_step
    Deleted-of_Done d id w (a, after) (inl h) = inl h
    Deleted-of_Done d id w (a, after) (inr (out, h, same)) =
        let (current, w', shown, h') = row-bind (get_row wr id w) _ h in
        inr (current, w', shown, deleted-row _ h', same)

delete-cases :
    {B V W : Type 0} (wr : Writable B V W) (run : Doer W) (d : IsDoer run) (r : HttpRequest)
    (id : RowId) (w : W) (i : Result RowId)
    → i ≡ ok id
    → Deleted wr run r id w (elim i [
      | err p ↦ (failed p, w)
      | ok j ↦
          transact run r []
            (λ out. 204)
            (delete_step wr j)
            (λ out. record { status = 204; etag = []; location = []; body = [] })
            w
    ])
delete-cases wr run d r id w (err p) h = cc
delete-cases wr run d r id w (ok j) h =
    let same : j ≡ id = cc h in
    subst
      (λ k. Deleted wr run r k w (
        transact run r [] (λ out. 204) (delete_step wr j)
          (λ out. record { status = 204; etag = []; location = []; body = [] }) w))
      same
      (Deleted-of_Done wr run r d j w _
        (transact-Done run r d [] (λ out. 204) (delete_step wr j) _ w))

-- A POST over a transaction, its body accepted, either is refused, and the database is as it was, or
-- answers 201 with its ETag and the row that api.set_<x> returned, or, where the resource has a create of its own,
-- with the row that its reader shows of the id that this create returned.
pub create-Created :
    {B V W : Type 0} (wr : Writable B V W) (run : Doer W) (d : IsDoer run) (r : HttpRequest)
    (raw : GoString) (b : B) (w : W)
    → Created wr run r (raw, b) w (create wr run r (raw, b) w)
unfolding create
create-Created wr run d r raw b w =
    Created-of_Done wr run r d raw b w _
      (transact-Done run r d _ (λ out. 201) (create_step wr b) _ w)

-- A DELETE with an id that is accepted either is refused, and the database is as it was, or answers
-- 204 after the row was visible and its deletion did not raise.
pub delete_row-Deleted :
    {B V W : Type 0} (wr : Writable B V W) (run : Doer W) (d : IsDoer run) (r : HttpRequest)
    (id : RowId) (w : W)
    → id_of wr.int_id r.id ≡ ok id
    → Deleted wr run r id w (delete_row wr run r w)
unfolding delete_row
delete_row-Deleted wr run d r id w known = delete-cases wr run d r id w (id_of wr.int_id r.id) known
