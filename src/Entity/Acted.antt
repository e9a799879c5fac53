-- ===== src/Entity/Acted.antt =====
-- The actions of lib/entity/entity.go, `Action`, over a transaction.
use mathlib.Core.Path.{subst}
use go_platform.Base.{
  true, sym, ◌⊎◌, GoString, List, [], ◌∷◌, Option, none, some, ◌≡◌, refl, ◌∙◌, ap, inl, inr, arith,
  lit, Bool-cases, ◌==◌,
}
use go_platform.Problem.{Problem}
use go_platform.Pgtx.Explain.{problem, pg, other}
use go_platform.Pgtx.Doer.{Doer, IsDoer}
use go_platform.Rest.Row.{
  etag_of, Result, ok, err, RowId, uuid_id_of, Called, raised, rows, Step, stop, row,
}
use go_platform.Rest.Handler.{HttpRequest, Answer, failed, sent}
use go_platform.Rest.Many.{read}
use go_platform.Rest.Many.Listed.{OrRefused, OrRefused-map, IsRead, transact_reading-Done}
use go_platform.Entity.{
  is_action, too_large, unreadable, text, Entity, current, action_name, action_body, ActionBody,
  action_status, action_args, action_step, after_action, executed, acted_on, action_sent, row_sent,
  act, action,
}
use go_platform.Entity.Visible.{IsVisible, current-IsVisible}

module _ {B V W : Type 0} (e : Entity B V W) where
  -- The row behind an action is the one that is visible then, or there is none.
  abbrev pub IsLeft : RowId → W → Option GoString → W → Type 0
  IsLeft id w none after =
      (p : Problem) × (current e id w ≡ stop (problem p) after) × (p.status ≡ 404)
  IsLeft id w (some out) after = IsVisible e id w out after

  after_action-IsLeft :
      (id : RowId) (w after : W) (s : Step W) (left : Option GoString)
      → current e id w ≡ s
      → after_action e s ≡ read left after
      → IsLeft id w left after
  unfolding after_action
  after_action-IsLeft id w after (row out w') none shown h = cc
  after_action-IsLeft id w after (row out w') (some x) shown h =
      let here : w' ≡ after = cc h in
      let same : out ≡ x = cc h in
      current-IsVisible e id w (shown ∙ ap (row out) here ∙ ap (λ y. row y after) same)
  after_action-IsLeft id w after (stop (problem p) w') none shown h =
      elim (Bool-cases (p.status == 404)) [
        | inl gone ↦
            let here : w' ≡ after = ground arith in
            (p, shown ∙ ap (stop (problem p)) here, ground arith)
        | inr other' ↦ absurd (ground arith)
      ]
  after_action-IsLeft id w after (stop (problem p) w') (some x) shown h =
      elim (Bool-cases (p.status == 404)) [
        | inl gone ↦ absurd (ground arith)
        | inr other' ↦ absurd (ground arith)
      ]
  after_action-IsLeft id w after (stop (pg s m) w') left shown h = cc
  after_action-IsLeft id w after (stop other w') left shown h = cc

  executed-read :
      (id : RowId) (c : Called W) (left : Option GoString) (after : W)
      → executed e id c ≡ read left after
      → (rs : List GoString) × (w' : W) × (c ≡ rows rs w') × IsLeft id w' left after
  unfolding executed
  executed-read id (raised err' w) left after h = cc
  executed-read id (rows rs w) left after h =
      (rs, w, refl, after_action-IsLeft id w after (current e id w) left refl h)

  -- The action ran on a visible row, and `left` is the row behind it.
  abbrev pub Acts : RowId → GoString → GoString → W → Option GoString → W → Type 0
  Acts id name params w left after =
      (out : GoString) × (w' : W) × IsVisible e id w out w'
      × (rs : List GoString) × (w'' : W) × (e.api (lit "execute_object_action")
            ((lit "object", e.id_value id)
              ∷ (lit "code", e.text_value name)
              ∷ (lit "params", e.json_value params)
              ∷ [])
            w'
          ≡ rows rs w'')
      × IsLeft id w'' left after

  acted_on-Acts :
      (id : RowId) (name params : GoString) (w after : W) (left : Option GoString) (s : Step W)
      → current e id w ≡ s
      → acted_on e id name params s ≡ read left after
      → Acts id name params w left after
  unfolding acted_on action_args
  acted_on-Acts id name params w after left (stop err' w') shown h = cc
  acted_on-Acts id name params w after left (row out w') shown h =
      let (rs, w'', ran, behind) =
        executed-read id (e.api (lit "execute_object_action") (action_args e id name params) w')
          left after h in
      (out, w', current-IsVisible e id w shown, rs, w'', ran, behind)

  -- The params that a body gives: its bytes, which are an object or nothing.
  abbrev pub IsGiven : ActionBody → GoString → Type 0
  IsGiven (text raw) params = (params ≡ raw) × ((raw ≡ []) ⊎ (e.is_object raw ≡ true))
  IsGiven _ params = ⊥

  action_body-IsGiven :
      (body : ActionBody) {params : GoString}
      → action_body e.is_object body ≡ ok params
      → IsGiven body params
  unfolding action_body
  action_body-IsGiven too_large h = cc
  action_body-IsGiven unreadable h = cc
  action_body-IsGiven (text []) h = (cc, inl refl)
  action_body-IsGiven (text (c ∷ s)) h = ground arith

  named-ok :
      (name : GoString) {n : GoString}
      → action_name name ≡ ok n
      → (is_action name ≡ true) × (name ≡ n)
  unfolding action_name
  named-ok name h = ground arith

  -- The answer: the row and its ETag, or none.
  abbrev pub IsShown : Option GoString → Answer → Type 0
  IsShown none a = a ≡ sent (record { status = 204; etag = []; location = []; body = [] })
  IsShown (some out) a =
      a ≡ sent (record { status = 200; etag = etag_of e.json out; location = []; body = out })

  IsShown-of_sent :
      (left : Option GoString) (a : Answer) → a ≡ sent (action_sent e left) → IsShown left a
  unfolding action_sent row_sent
  IsShown-of_sent none a h = h
  IsShown-of_sent (some out) a h = h

  module _ (run : Doer W) (d : IsDoer run) (r : HttpRequest) (name : GoString)
      (body : ActionBody) where
    -- What an action that changed the database has established.
    abbrev pub IsActed : W → Answer → W → Type 0
    IsActed w a after =
        (id : RowId) × (uuid_id_of r.id ≡ ok id)
        × (is_action name ≡ true)
        × (params : GoString) × IsGiven body params
        × (left : Option GoString) × Acts id name params w left after
        × IsShown left a

    act-IsActed :
        (id : RowId) (n params : Result GoString) (w : W)
        → uuid_id_of r.id ≡ ok id
        → action_name name ≡ n
        → action_body e.is_object body ≡ params
        → OrRefused (IsActed w) w (act e run r id n params w)
    unfolding act action_step
    act-IsActed id (err p) params w known named taken = inl (p, refl, refl)
    act-IsActed id (ok n) (err p) w known named taken = inl (p, refl, refl)
    act-IsActed id (ok n) (ok params) w known named taken =
        OrRefused-map (IsRead (λ w'. acted_on e id n params (current e id w')) (action_sent e) w)
          (IsActed w) _
          (λ a after (left, h, same). (
            id,
            known,
            (named-ok name named).0,
            params,
            action_body-IsGiven body taken,
            left,
            subst (λ x. Acts id x params w left after) (sym (named-ok name named).1)
                (acted_on-Acts id n params w after left (current e id w) refl h),
            IsShown-of_sent left a same,
          ))
          (transact_reading-Done run d r params action_status
            (λ w'. acted_on e id n params (current e id w')) (action_sent e) w)

    action-cases :
        (id : Result RowId) (w : W)
        → uuid_id_of r.id ≡ id
        → OrRefused (IsActed w) w (elim id [
          | err p ↦ (failed p, w)
          | ok i ↦ act e run r i (action_name name) (action_body e.is_object body) w
        ])
    action-cases (err p) w known = inl (p, refl, refl)
    action-cases (ok id) w known =
        act-IsActed id (action_name name) (action_body e.is_object body) w known refl refl

-- An action of an entity over a transaction either is refused, and the database is as it was, or
-- api.execute_object_action ran with the id of the path, the name of the action and the object of the
-- body on a row that was visible, and the answer is 200 with the row that is visible behind it and its
-- ETag, or 204 with no body where the reader of that row answers 404.
pub action-IsActed :
    {B V W : Type 0} (e : Entity B V W) (run : Doer W) (d : IsDoer run) (r : HttpRequest)
    (name : GoString) (body : ActionBody) (w : W)
    → OrRefused (IsActed e run d r name body w) w (action e run r name body w)
unfolding action
action-IsActed e run d r name body w = action-cases e run d r name body (uuid_id_of r.id) w refl
