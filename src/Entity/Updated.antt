-- ===== src/Entity/Updated.antt =====
-- The PATCH of lib/entity/entity.go, `Update`, over a transaction.
use go_platform.Base.{[], GoString, false, Option, none, some, ◌≡◌, refl, inl, inr, arith}
use go_platform.Problem.{Problem}
use go_platform.Pgtx.Explain.{problem}
use go_platform.Pgtx.Doer.{Doer, IsDoer}
use go_platform.Rest.Row.{
  Result, ok, err, RowId, etag_of, uuid_id_of, precondition, if_match, read_body, Step, stop, row,
}
use go_platform.Rest.Handler.{HttpRequest, Answer, failed, sent, Done, transact-Done}
use go_platform.Rest.Writable.Guarded.{Matches, if_match-Matches, row-bind}
use go_platform.Rest.Many.Listed.{OrRefused}
use go_platform.Entity.{
  Entity, current, empty_body, checked_body, update_body, write, update_step, row_sent, update_with,
  update,
}

module _ {B V W : Type 0} (e : Entity B V W) where
  taken-set :
      (x : Result (GoString × B)) (text : GoString) (b : B)
      → checked_body e x ≡ ok (text, b)
      → (empty_body e b ≡ false) × (e.validate false b ≡ none)
  unfolding checked_body
  taken-set (err p) text b h = cc
  taken-set (ok (raw, b')) text b h = (ground arith, ground arith)

  -- A body that is accepted sets something and is valid.
  update_body-set :
      (raw : Option GoString) (text : GoString) (b : B)
      → update_body e raw ≡ ok (text, b)
      → (empty_body e b ≡ false) × (e.validate false b ≡ none)
  unfolding update_body
  update_body-set raw text b h = taken-set (read_body e.decode e.fresh raw) text b h

  free-row :
      (m : Option Problem) (x : Step W) (w' : W) {out : GoString} {after : W}
      → elim m [ some p ↦ stop (problem p) w' | none ↦ x ] ≡ row out after
      → (m ≡ none) × (x ≡ row out after)
  free-row none x w' h = (refl, h)
  free-row (some p) x w' h = cc

  update_step-row :
      (tag : GoString) (id : RowId) (b : B) (w : W) {out : GoString} {after : W}
      → update_step e tag id b w ≡ row out after
      → (cur : GoString) × (w' : W) × (current e id w ≡ row cur w')
        × Matches e.json tag cur
        × (write e id b w' ≡ row out after)
  unfolding update_step
  update_step-row tag id b w h =
      let (cur, w', shown, h') = row-bind (current e id w) _ h in
      let (free, set) = free-row (if_match e.json tag cur) _ w' h' in
      (cur, w', shown, if_match-Matches e.json tag cur free, set)

  module _ (run : Doer W) (d : IsDoer run) (r : HttpRequest) where
    -- What a PATCH that changed the database has established.
    abbrev pub IsUpdated : W → Answer → W → Type 0
    IsUpdated w a after =
        (id : RowId) × (uuid_id_of r.id ≡ ok id)
        × (text : GoString) × (b : B) × (update_body e r.raw ≡ ok (text, b))
        × (empty_body e b ≡ false)
        × (e.validate false b ≡ none)
        × (cur : GoString) × (w' : W) × (current e id w ≡ row cur w')
        × Matches e.json r.if_match cur
        × (out : GoString) × (write e id b w' ≡ row out after)
        × (a ≡ sent (record { status = 200; etag = etag_of e.json out; location = []; body = out }))

    IsUpdated-of_Done :
        (id : RowId) (text : GoString) (b : B) (w : W) (x : Answer × W)
        → uuid_id_of r.id ≡ ok id
        → update_body e r.raw ≡ ok (text, b)
        → Done run r (update_step e r.if_match id b) (row_sent e) w x
        → OrRefused (IsUpdated w) w x
    unfolding row_sent
    IsUpdated-of_Done id text b w (a, after) known taken (inl h) = inl h
    IsUpdated-of_Done id text b w (a, after) known taken (inr (out, h, same)) =
        let (cur, w', shown, matches, set) = update_step-row r.if_match id b w h in
        let (given, valid) = update_body-set r.raw text b taken in
        inr (id, known, text, b, taken, given, valid, cur, w', shown, matches, out, set, same)

    update_with-IsUpdated :
        (id : RowId) (body : Result (GoString × B)) (w : W)
        → uuid_id_of r.id ≡ ok id
        → update_body e r.raw ≡ body
        → OrRefused (IsUpdated w) w (update_with e run r id body w)
    unfolding update_with
    update_with-IsUpdated id (err p) w known taken = inl (p, refl, refl)
    update_with-IsUpdated id (ok (text, b)) w known taken =
        IsUpdated-of_Done id text b w _ known taken
          (transact-Done run r d _ (λ out. 200) (update_step e r.if_match id b) _ w)

    update-cases :
        (id : Result RowId) (m : Option Problem) (w : W)
        → uuid_id_of r.id ≡ id
        → OrRefused (IsUpdated w) w (elim id [
          | err p ↦ (failed p, w)
          | ok i ↦ elim m [
            | some p ↦ (failed p, w)
            | none ↦ update_with e run r i (update_body e r.raw) w
          ]
        ])
    update-cases (err p) m w known = inl (p, refl, refl)
    update-cases (ok id) (some p) w known = inl (p, refl, refl)
    update-cases (ok id) none w known = update_with-IsUpdated id (update_body e r.raw) w known refl

-- A PATCH of an entity over a transaction either is refused, and the database is as it was, or answers
-- 200 with the row that its write gave: then the id is a UUID, the body sets at least one field and is
-- valid, the row was visible, and If-Match named the version of it that was read in the transaction,
-- or `*`.
pub update-IsUpdated :
    {B V W : Type 0} (e : Entity B V W) (run : Doer W) (d : IsDoer run) (r : HttpRequest) (w : W)
    → OrRefused (IsUpdated e run d r w) w (update e run r w)
unfolding update
update-IsUpdated e run d r w =
    update-cases e run d r (uuid_id_of r.id) (precondition r.if_match) w refl
