-- ===== src/Object/Behind.antt =====
-- The handlers of entity/object/object.go behind the row of their object.
use mathlib.Core.Path.{subst}
use go_platform.Base.{
  true, Option, none, some, ◌⊎◌, inr, arith, sym, ◌∙◌, str_eq, str_eq_sound, trim_space, Bool-cases,
  lit, [], ◌∷◌, GoString, ℕ, Bool, List, ◌≡◌, refl, inl,
}
use go_platform.Pgtx.Doer.{Doer, IsDoer}
use go_platform.Rest.Row.{
  not_found, etag_of, Result, ok, err, RowId, uuid_id_of, rows, Step, stop, row,
}
use go_platform.Rest.Handler.{HttpRequest, Sent, Answer, failed, sent}
use go_platform.Pgtx.Explain.{problem}
use go_platform.Rest.Writable.Guarded.{Shows, call_row-Shows}
use go_platform.Rest.Many.{Reading, read, call, transact_reading}
use go_platform.Rest.Many.Listed.{
  OrRefused, OrRefused-map, IsRead, transact_reading-Done, read-bind, call-rows,
}
use go_platform.Object.{
  Objects, get_row, behind, visible, one_row, run_args, run_behind, row_sent, behind_row, run_given,
  run_on,
}
use go_platform.Object.Bodies.{key_of_run, params_of}

module _ {V W : Type 0} (o : Objects V W) where
  behind-row :
      {A : Type 0} (s : Step W) (next : W → Reading A W) {a : A} {after : W}
      → behind o s next ≡ read a after
      → (out : GoString) × (w' : W) × (s ≡ row out w') × (next w' ≡ read a after)
  unfolding behind
  behind-row (stop e w) next h = cc
  behind-row (row out w) next h = (out, w, refl, h)

  module _ {A X : Type 0} (run : Doer W) (d : IsDoer run) (r : HttpRequest) (payload : A → GoString)
      (status : ℕ) (args : Result A) (next : A → RowId → W → Reading X W)
      (make : A → X → Sent) where
    -- The object was visible, and the answer is made of what the closure has read behind it.
    abbrev pub IsBehind : W → Answer → W → Type 0
    IsBehind w a after =
        (id : RowId) × (uuid_id_of r.id ≡ ok id)
        × (given : A) × (args ≡ ok given)
        × (out : GoString) × (w' : W) × (get_row o id w ≡ row out w')
        × (x : X) × (next given id w' ≡ read x after)
        × (a ≡ sent (make given x))

    abbrev handled : Result RowId → Result A → W → Answer × W
    handled i gs w = elim i [
      | err p ↦ (failed p, w)
      | ok id ↦ elim gs [
        | err p ↦ (failed p, w)
        | ok g ↦
            transact_reading run r (payload g) (λ x. status) (visible o id (next g id)) (make g) w
      ]
    ]

    handled-IsBehind :
        (i : Result RowId) (gs : Result A) (w : W)
        → uuid_id_of r.id ≡ i
        → args ≡ gs
        → OrRefused (IsBehind w) w (handled i gs w)
    unfolding visible
    handled-IsBehind (err p) gs w known given = inl (p, refl, refl)
    handled-IsBehind (ok id) (err p) w known given = inl (p, refl, refl)
    handled-IsBehind (ok id) (ok g) w known given =
        OrRefused-map (IsRead (λ w'. behind o (get_row o id w') (next g id)) (make g) w)
          (IsBehind w) _
          (λ a after (x, h, same).
            let (out, w', shown, h') = behind-row (get_row o id w) (next g id) h in
            (id, known, g, given, out, w', shown, x, h', same))
          (transact_reading-Done run d r (payload g) (λ x. status)
            (λ w'. behind o (get_row o id w') (next g id)) (make g) w)

    -- A handler behind the row of its object.
    pub behind_row-IsBehind :
        (w : W) → OrRefused (IsBehind w) w (behind_row o run r payload status args next make w)
    unfolding behind_row
    behind_row-IsBehind w = handled-IsBehind (uuid_id_of r.id) args w refl refl

  one_row-row :
      (s : Step W) {out : GoString} {after : W} → one_row o s ≡ read out after → s ≡ row out after
  unfolding one_row
  one_row-row (stop e w) h = cc
  one_row-row (row out w) h = cc

  -- The params of a body that was read: its text without the white space around it, which is an object
  -- or nothing.
  abbrev pub IsGiven : Option GoString → GoString → Type 0
  IsGiven none params = ⊥
  IsGiven (some raw) params =
      (params ≡ trim_space raw) × ((params ≡ []) ⊎ (o.is_object params ≡ true))

  params_of-IsGiven :
      (raw : Option GoString) {params : GoString}
      → params_of o.is_object raw ≡ ok params
      → IsGiven raw params
  unfolding params_of
  params_of-IsGiven none h = cc
  params_of-IsGiven (some raw) h = elim (Bool-cases (str_eq (trim_space raw) [])) [
    | inl empty ↦
        let e = str_eq_sound (trim_space raw) [] empty in
        let f = (rw empty at h) in let g : [] ≡ _ = cc f in (sym g ∙ sym e, inl (sym g))
    | inr full ↦ (let f = (rw full at h) in ground arith)
  ]

  module _ (run : Doer W) (d : IsDoer run) (r : HttpRequest) (what : GoString)
      (valid : GoString → Bool) (fn key_name key : GoString) where
    -- A method or an action ran on a visible object, which is visible behind it.
    abbrev pub IsRun : W → Answer → W → Type 0
    IsRun w a after =
        (id : RowId) × (uuid_id_of r.id ≡ ok id)
        × (valid key ≡ true)
        × (params : GoString) × IsGiven r.raw params
        × (out : GoString) × (w' : W) × Shows (o.api o.get_fn ((lit "id", o.id_value id) ∷ []) w)
            out w'
        × (rs : List GoString) × (w'' : W) × (o.api fn
              ((lit "object", o.id_value id)
                ∷ (key_name, o.text_value key)
                ∷ (lit "params", o.json_value params)
                ∷ [])
              w'
            ≡ rows rs w'')
        × (left : GoString) × Shows (o.api o.get_fn ((lit "id", o.id_value id) ∷ []) w'') left after
        × (a
            ≡ sent
                (record { status = 200; etag = etag_of o.json left; location = []; body = left }))

    valid-ok : {k : GoString} → key_of_run valid what key ≡ ok k → (valid key ≡ true) × (key ≡ k)
    unfolding key_of_run
    valid-ok h = ground arith

    given-both :
        (k params : Result GoString) (g : GoString × GoString)
        → run_given o run r k params ≡ ok g
        → (k ≡ ok g.0) × (params ≡ ok g.1)
    unfolding run_given
    given-both (err p) params g h = cc
    given-both (ok k) (err p) g h = cc
    given-both (ok k) (ok params) g h = (cc, cc)

    run-IsRun :
        (a : Answer) (w after : W)
        → IsBehind run d r
            (λ (x : GoString × GoString). x.1)
            200
            (run_given o run r (key_of_run valid what key) (params_of o.is_object r.raw))
            (run_behind o fn key_name)
            (λ x. row_sent o)
            w
            a
            after
        → IsRun w a after
    unfolding get_row run_behind run_args row_sent
    run-IsRun a w after (id, known, g, given, out, w', shown, left, h, same) =
        let (keyed, taken) =
          given-both (key_of_run valid what key) (params_of o.is_object r.raw) g given in
        let (rs, w'', ran, h') =
          read-bind (call (o.api fn (run_args o key_name id g.0 g.1) w')) _ h in
        let (good, same_key) = valid-ok keyed in
        (
          id,
          known,
          good,
          g.1,
          params_of-IsGiven r.raw taken,
          out,
          w',
          call_row-Shows (problem not_found) _ shown,
          rs,
          w'',
          subst (λ x. o.api fn (run_args o key_name id x g.1) w' ≡ rows rs w'') (sym same_key)
              (call-rows (o.api fn (run_args o key_name id g.0 g.1) w') ran),
          left,
          call_row-Shows (problem not_found) _ (one_row-row (get_row o id w'') h'),
          same,
        )

-- A method or an action of an object over a transaction either is refused, and the database is as it
-- was, or its function ran with the id of the path, its key and the object of its body on an object that
-- was visible, and the answer is 200 with the row of the object that is visible behind it and its ETag:
-- one that leaves no visible row is never committed.
pub run_on-IsRun :
    {V W : Type 0} (o : Objects V W) (run : Doer W) (d : IsDoer run) (r : HttpRequest)
    (what : GoString) (valid : GoString → Bool) (fn key_name key : GoString) (w : W)
    → OrRefused
        (IsRun o run d r what valid fn key_name key w)
        w
        (run_on o run r what valid fn key_name key w)
unfolding run_on
run_on-IsRun o run d r what valid fn key_name key w =
    OrRefused-map
      (IsBehind o run d r (λ (x : GoString × GoString). x.1) 200
        (run_given o run r (key_of_run valid what key) (params_of o.is_object r.raw))
        (run_behind o fn key_name) (λ x. row_sent o) w)
      (IsRun o run d r what valid fn key_name key w) _
      (λ a after. run-IsRun o run d r what valid fn key_name key a w after)
      (behind_row-IsBehind o run d r (λ (x : GoString × GoString). x.1) 200
        (run_given o run r (key_of_run valid what key) (params_of o.is_object r.raw))
        (run_behind o fn key_name) (λ x. row_sent o) w)
