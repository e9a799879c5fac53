-- ===== src/Rest/Writable/Guarded.antt =====
-- The PATCH of lib/rest/writable.go, `Update`, over a transaction.
use go_platform.Base.{
  List, ◌∷◌, ap, ◌∙◌, GoString, [], Option, none, some, ◌≡◌, refl, ◌⊎◌, ◌≢◌, inl, inr, arith, lit,
  str_eq_iff,
}
use go_platform.Problem.{Problem}
use go_platform.Pgtx.Explain.{GoError, problem, other}
use go_platform.Pgtx.Doer.{Doer, IsDoer}
use go_platform.Rest.Row.{
  Called, raised, rows, not_found, Result, ok, err, RowId, id_of, Json, etag_of, precondition,
  if_match, Step, stop, row, call_row, ◌>>=◌,
}
use go_platform.Rest.Writable.{
  Writable, get_row, update_step, update_body, update_with, update, sent_row,
}
use go_platform.Rest.Handler.{HttpRequest, Answer, failed, sent, Done, transact-Done}

-- The tag names the version `current` of the row, or any.
abbrev pub Matches : Json → GoString → GoString → Type 0
Matches j tag current = (tag ≢ []) × ((tag ≡ lit "*") ⊎ (etag_of j current ≡ tag))

pub if_match-Matches :
    (j : Json) (tag current : GoString) → if_match j tag current ≡ none → Matches j tag current
unfolding if_match precondition
if_match-Matches j tag current h =
    ground (arith, str_eq_iff tag [], str_eq_iff tag (lit "*"), str_eq_iff (etag_of j current) tag)

-- A call returned rows, of which the first is `out`.
abbrev pub Shows : {W : Type 0} → Called W → GoString → W → Type 0
Shows c out after = (more : List GoString) × (c ≡ rows (out ∷ more) after)

pub call_row-Shows :
    {W : Type 0} (no_row : GoError) (c : Called W) {out : GoString} {after : W}
    → call_row no_row c ≡ row out after
    → Shows c out after
unfolding call_row
call_row-Shows no_row (raised e w) h = cc
call_row-Shows no_row (rows [] w) h = cc
call_row-Shows no_row (rows (r ∷ rs) w) {out} {after} h =
    let same : r ≡ out = cc h in
    let here : w ≡ after = cc h in
    (rs, ap (λ x. rows (x ∷ rs) w) same ∙ ap (λ y. rows (out ∷ rs) y) here)

pub row-bind :
    {W : Type 0} (s : Step W) (f : GoString → W → Step W) {out : GoString} {w : W}
    → (s >>= f) ≡ row out w
    → (r : GoString) × (w' : W) × (s ≡ row r w') × (f r w' ≡ row out w)
row-bind (stop e w) f h = cc
row-bind (row r w') f h = (r, w', refl, h)

module _ {B V W : Type 0} (wr : Writable B V W) (run : Doer W) (d : IsDoer run)
    (r : HttpRequest) where
  free-row :
      (m : Option Problem) (x : Step W) (w' : W) {out : GoString} {after : W}
      → elim m [ some p ↦ stop (problem p) w' | none ↦ x ] ≡ row out after
      → (m ≡ none) × (x ≡ row out after)
  free-row none x w' h = (refl, h)
  free-row (some p) x w' h = cc

  update_step-row :
      (tag : GoString) (id : RowId) (b : B) (w : W) {out : GoString} {after : W}
      → update_step wr tag id b w ≡ row out after
      → (current : GoString) × (w' : W) × (get_row wr id w ≡ row current w')
        × Matches wr.json tag current
        × (call_row other (wr.api wr.set_fn (wr.args (some id) b) w') ≡ row out after)
  unfolding update_step
  update_step-row tag id b w h =
      let (current, w', shown, h') = row-bind (get_row wr id w) _ h in
      let (free, set) = free-row (if_match wr.json tag current) _ w' h' in
      (current, w', shown, if_match-Matches wr.json tag current free, set)

  -- What a PATCH that changed the database has established.
  abbrev pub IsUpdated : W → Answer → W → Type 0
  IsUpdated w a after =
      (id : RowId) × (id_of wr.int_id r.id ≡ ok id)
      × (raw : GoString) × (b : B) × (update_body wr r.raw ≡ ok (raw, b))
      × (current : GoString) × (w' : W) × Shows
          (wr.api wr.get_fn ((lit "id", wr.id_value id) ∷ []) w) current w'
      × Matches wr.json r.if_match current
      × (out : GoString) × Shows (wr.api wr.set_fn (wr.args (some id) b) w') out after
      × (a ≡ sent (record { status = 200; etag = etag_of wr.json out; location = []; body = out }))

  abbrev pub Updated : W → Answer × W → Type 0
  Updated w (a, after) = ((p : Problem) × (a ≡ failed p) × (after ≡ w)) ⊎ IsUpdated w a after

  Updated-of_Done :
      (id : RowId) (raw : GoString) (b : B) (w : W) (x : Answer × W)
      → id_of wr.int_id r.id ≡ ok id
      → update_body wr r.raw ≡ ok (raw, b)
      → Done run r (update_step wr r.if_match id b) (sent_row wr run r 200 []) w x
      → Updated w x
  unfolding sent_row get_row
  Updated-of_Done id raw b w (a, after) known read (inl h) = inl h
  Updated-of_Done id raw b w (a, after) known read (inr (out, h, same)) =
      let (current, w', shown, matches, set) = update_step-row r.if_match id b w h in
      inr (
        id,
        known,
        raw,
        b,
        read,
        current,
        w',
        call_row-Shows (problem not_found) (wr.api wr.get_fn ((lit "id", wr.id_value id) ∷ []) w)
            shown,
        matches,
        out,
        call_row-Shows other (wr.api wr.set_fn (wr.args (some id) b) w') set,
        same,
      )

  update_with-Updated :
      (id : RowId) (body : Result (GoString × B)) (w : W)
      → id_of wr.int_id r.id ≡ ok id
      → update_body wr r.raw ≡ body
      → Updated w (update_with wr run r id body w)
  unfolding update_with
  update_with-Updated id (err p) w known read = inl (p, refl, refl)
  update_with-Updated id (ok (raw, b)) w known read =
      Updated-of_Done id raw b w _ known read
        (transact-Done run r d _ (λ out. 200) (update_step wr r.if_match id b) _ w)

  update-cases :
      (id : Result RowId) (m : Option Problem) (w : W)
      → id_of wr.int_id r.id ≡ id
      → Updated w (elim id [
        | err p ↦ (failed p, w)
        | ok i ↦ elim m [
          | some p ↦ (failed p, w)
          | none ↦ update_with wr run r i (update_body wr r.raw) w
        ]
      ])
  update-cases (err p) m w known = inl (p, refl, refl)
  update-cases (ok id) (some p) w known = inl (p, refl, refl)
  update-cases (ok id) none w known = update_with-Updated id (update_body wr r.raw) w known refl

-- A PATCH over a transaction either is refused, and the database is as it was, or answers 200 with
-- the row that api.set_<x> returned: then the id and the body were accepted, the row was visible, and
-- the If-Match of the request was the ETag of that row as read in the same transaction, or `*`.
pub update-Updated :
    {B V W : Type 0} (wr : Writable B V W) (run : Doer W) (d : IsDoer run) (r : HttpRequest) (w : W)
    → Updated wr run d r w (update wr run r w)
unfolding update
update-Updated wr run d r w =
    update-cases wr run d r (id_of wr.int_id r.id) (precondition r.if_match) w refl
