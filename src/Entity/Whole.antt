-- ===== src/Entity/Whole.antt =====
-- The sets of lib/entity/entity.go, `RowsOf`, over a transaction.
use go_platform.Base.{GoString, List, [], ◌∷◌, ◌≡◌, refl, ◌∙◌, ap, inl, map}
use go_platform.Pgtx.Doer.{Doer, IsDoer}
use go_platform.Query.{Values, QueryError}
use go_platform.Rest.Row.{Result, ok, err, RowId, uuid_id_of, Called, raised, rows, Step, stop, row}
use go_platform.Rest.Read.{project}
use go_platform.Rest.Handler.{HttpRequest, Answer, failed, sent}
use go_platform.Rest.Many.{read, json_answer}
use go_platform.Rest.Many.Listed.{OrRefused, OrRefused-map, IsRead, transact_reading-Done}
use go_platform.Entity.{Entity, current, cut_rows, rows_behind, rows_step, rows_with, rows_of}
use go_platform.Entity.Args.{fields_of}
use go_platform.Entity.Visible.{IsVisible, current-IsVisible}

module _ {B V W : Type 0} (e : Entity B V W) where
  cut_rows-rows :
      (fields : List GoString) (c : Called W) (items : List GoString) (after : W)
      → cut_rows e fields c ≡ read items after
      → (rs : List GoString) × (c ≡ rows rs after)
        × (items ≡ map (project e.texts.object fields) rs)
  unfolding cut_rows
  cut_rows-rows fields (raised err' w) items after h = cc
  cut_rows-rows fields (rows rs w) items after h =
      let here : w ≡ after = cc h in
      let same : items ≡ map (project e.texts.object fields) rs = cc h in
      (rs, ap (rows rs) here, same)

  module _ (run : Doer W) (d : IsDoer run) (r : HttpRequest) (fn key : GoString) where
    -- What a set that was answered has established: the row was visible, and the rows are those of the
    -- function, in its order, cut to the fields.
    abbrev pub IsWhole : List GoString → RowId → W → Answer → W → Type 0
    IsWhole fields id w a after =
        (out : GoString) × (w' : W) × IsVisible e id w out w'
        × (rs : List GoString) × (e.api fn ((key, e.id_value id) ∷ []) w' ≡ rows rs after)
        × (a ≡ sent (json_answer (e.texts.array (map (project e.texts.object fields) rs))))

    rows_behind-IsWhole :
        (fields : List GoString) (id : RowId) (w after : W) (items : List GoString) (a : Answer)
        (s : Step W)
        → current e id w ≡ s
        → rows_behind e fn key fields id s ≡ read items after
        → a ≡ sent (json_answer (e.texts.array items))
        → IsWhole fields id w a after
    unfolding rows_behind
    rows_behind-IsWhole fields id w after items a (stop err' w') shown h same = cc
    rows_behind-IsWhole fields id w after items a (row out w') shown h same =
        let (rs, ran, cut) =
          cut_rows-rows fields (e.api fn ((key, e.id_value id) ∷ []) w') items after h in
        (
          out,
          w',
          current-IsVisible e id w shown,
          rs,
          ran,
          same ∙ ap (λ x. sent (json_answer (e.texts.array x))) cut,
        )

    module _ (error_text : QueryError → GoString) (values : Values) where
      abbrev pub IsAnswered : W → Answer → W → Type 0
      IsAnswered w a after =
          (id : RowId) × (uuid_id_of r.id ≡ ok id)
          × (fields : List GoString) × (fields_of error_text values ≡ ok fields)
          × IsWhole fields id w a after

      rows_with-IsAnswered :
          (id : RowId) (fields : Result (List GoString)) (w : W)
          → uuid_id_of r.id ≡ ok id
          → fields_of error_text values ≡ fields
          → OrRefused (IsAnswered w) w (rows_with e run r fn key id fields w)
      unfolding rows_with rows_step
      rows_with-IsAnswered id (err p) w known chosen = inl (p, refl, refl)
      rows_with-IsAnswered id (ok fields) w known chosen =
          OrRefused-map
            (IsRead (λ w'. rows_behind e fn key fields id (current e id w'))
              (λ items. json_answer (e.texts.array items)) w)
            (IsAnswered w) _
            (λ a after (items, h, same). (
              id,
              known,
              fields,
              chosen,
              rows_behind-IsWhole fields id w after items a (current e id w) refl h same,
            ))
            (transact_reading-Done run d r [] (λ x. 200)
              (λ w'. rows_behind e fn key fields id (current e id w'))
              (λ items. json_answer (e.texts.array items)) w)

      rows_of-cases :
          (id : Result RowId) (w : W)
          → uuid_id_of r.id ≡ id
          → OrRefused (IsAnswered w) w (elim id [
            | err p ↦ (failed p, w)
            | ok i ↦ rows_with e run r fn key i (fields_of error_text values) w
          ])
      rows_of-cases (err p) w known = inl (p, refl, refl)
      rows_of-cases (ok id) w known =
          rows_with-IsAnswered id (fields_of error_text values) w known refl

-- A set of an entity over a transaction either is refused, and the database is as it was, or the row was
-- visible and the answer is the array of the rows that the function returned behind it for that row, in
-- its order, cut to the fields of a query that names nothing but fields.
pub rows_of-IsAnswered :
    {B V W : Type 0} (e : Entity B V W) (run : Doer W) (d : IsDoer run) (r : HttpRequest)
    (error_text : QueryError → GoString) (fn key : GoString) (values : Values) (w : W)
    → OrRefused
        (IsAnswered e run d r fn key error_text values w)
        w
        (rows_of e run r error_text fn key values w)
unfolding rows_of
rows_of-IsAnswered e run d r error_text fn key values w =
    rows_of-cases e run d r fn key error_text values (uuid_id_of r.id) w refl
