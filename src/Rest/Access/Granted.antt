-- ===== src/Rest/Access/Granted.antt =====
-- The PUT of lib/rest/access.go over a transaction, and the width of its mask.
use mathlib.Core.Path.{subst}
use go_platform.Base.{
  List, ap, sym, ◌∙◌, false, if◌then◌else◌, GoString, ℕ, ◌≤◌, ◌%◌, ◌^◌, Bool, true, [], ◌∷◌, Option,
  none, some, ◌≡◌, refl, ◌⊎◌, inl, inr, arith, lit, pos, uuid_match,
}
use go_platform.Problem.{Problem}
use go_platform.Pgtx.Doer.{Doer, IsDoer}
use go_platform.Pgtx.Explain.{problem}
use go_platform.Rest.Row.{
  Called, raised, rows, not_found, validation, Result, ok, err, row, read_body,
}
use go_platform.Rest.Handler.{HttpRequest, Answer, failed, sent, Done, transact-Done}
use go_platform.Rest.Writable.Guarded.{Shows, call_row-Shows, row-bind}
use go_platform.Rest.Access.{
  AccessBody, Access, mask_bits6, mask_bits10, validate_mask, validate, bound, check_grant, passed,
  checked, no_body, ok_sent, grant_with, grant_body, visible, dropped, array_of, grant_step,
  uuid_of, grant,
}

-- A grant that may reach the database: a user, a mask of at most `max`, and the options of a class
-- only where they apply.
pub record IsGrant (max : ℕ) (class_options : Bool) (b : AccessBody) : Type 0 where
  pub user : uuid_match b.user_id ≡ true
  pub mask : ℕ
  pub masked : b.mask ≡ some (pos mask)
  pub narrow : mask ≤ max
  pub options : (class_options ≡ true) ⊎ ((b.recursive ≡ none) × (b.object_set ≡ none))

validate-ok :
    (b : AccessBody) (mask : ℕ)
    → validate b ≡ ok mask
    → (uuid_match b.user_id ≡ true) × (b.mask ≡ some (pos mask))
unfolding validate validate_mask
validate-ok b mask h = ground arith

bound-none :
    (b : AccessBody) (mask max : ℕ) (class_options : Bool)
    → bound b mask max class_options ≡ none
    → (mask ≤ max) × ((class_options ≡ true) ⊎ ((b.recursive ≡ none) × (b.object_set ≡ none)))
unfolding bound
bound-none b mask max class_options h = ground arith

validate-IsGrant :
    (b : AccessBody) (v : Result ℕ) (max : ℕ) (class_options : Bool)
    → validate b ≡ v
    → elim v [ err p ↦ some p | ok mask ↦ bound b mask max class_options ] ≡ none
    → IsGrant max class_options b
validate-IsGrant b (err p) max class_options e h = cc
validate-IsGrant b (ok mask) max class_options e h =
    let (user, masked) = validate-ok b mask e in
    let (narrow, options) = bound-none b mask max class_options h in
    record { user = user; mask = mask; masked = masked; narrow = narrow; options = options }

module _ {V W : Type 0} (a : Access V W) where
  check_grant-IsGrant :
      (b : AccessBody) → check_grant a b ≡ none → IsGrant a.max_mask a.class_options b
  unfolding check_grant
  check_grant-IsGrant b h = validate-IsGrant b (validate b) a.max_mask a.class_options refl h

  passed-IsGrant :
      (m : Option Problem) (body : GoString × AccessBody) {raw : GoString} {b : AccessBody}
      → check_grant a body.1 ≡ m
      → passed a m body ≡ ok (raw, b)
      → (body ≡ (raw, b)) × IsGrant a.max_mask a.class_options b
  unfolding passed
  passed-IsGrant (some p) body e h = cc
  passed-IsGrant none (raw', b') {raw} {b} e h =
      let same : b' ≡ b = cc h in
      let given : raw' ≡ raw = cc h in
      (
        ap (λ x. (x, b')) given ∙ ap (λ x. (raw, x)) same,
        subst (IsGrant a.max_mask a.class_options) same (check_grant-IsGrant b' e),
      )

  checked-IsGrant :
      (x : Result (GoString × AccessBody)) {raw : GoString} {b : AccessBody}
      → checked a x ≡ ok (raw, b)
      → (x ≡ ok (raw, b)) × IsGrant a.max_mask a.class_options b
  unfolding checked
  checked-IsGrant (err p) h = cc
  checked-IsGrant (ok (raw, b)) h =
      let (same, g) = passed-IsGrant (check_grant a b) (raw, b) refl h in (ap ok same, g)

  grant_body-IsGrant :
      (raw' : Option GoString) {raw : GoString} {b : AccessBody}
      → grant_body a raw' ≡ ok (raw, b)
      → (read_body a.decode no_body raw' ≡ ok (raw, b)) × IsGrant a.max_mask a.class_options b
  unfolding grant_body
  grant_body-IsGrant raw' h = checked-IsGrant (read_body a.decode no_body raw') h

  -- The row was visible, the grant did not raise on it, and the list was read behind it.
  abbrev pub IsApplied : GoString → AccessBody → W → GoString → W → Type 0
  IsApplied id b w out after =
      (current : GoString) × (w' : W) × (kept : List GoString) × (w'' : W) × Shows
        (a.api a.get_fn ((lit "id", a.text_value id) ∷ []) w) current w'
      × (a.set id b w' ≡ rows kept w'')
      × (listed : List GoString) × (a.api a.list_fn ((lit "id", a.text_value id) ∷ []) w''
          ≡ rows listed after)
      × (out ≡ a.array listed)

  dropped-rows :
      (c : Called W) {out : GoString} {w : W}
      → dropped a c ≡ row out w
      → (rs : List GoString) × (c ≡ rows rs w)
  unfolding dropped
  dropped-rows (raised e w') h = cc
  dropped-rows (rows rs w') h = (rs, (let here : w' ≡ _ = cc h in ap (rows rs) here))

  array_of-rows :
      (c : Called W) {out : GoString} {w : W}
      → array_of a c ≡ row out w
      → (rs : List GoString) × (c ≡ rows rs w) × (out ≡ a.array rs)
  unfolding array_of
  array_of-rows (raised e w') h = cc
  array_of-rows (rows rs w') h = (
    rs,
    (let here : w' ≡ _ = cc h in ap (rows rs) here),
    (let same : a.array rs ≡ _ = cc h in sym same),
  )

  grant_step-IsApplied :
      (id : GoString) (b : AccessBody) (w : W) {out : GoString} {after : W}
      → grant_step a id b w ≡ row out after
      → IsApplied id b w out after
  unfolding grant_step visible
  grant_step-IsApplied id b w h =
      let (kept, w'', h1, listed) = row-bind _ (λ r w'. array_of a (a.api a.list_fn _ w')) h in
      let (current, w', shown, set) = row-bind (visible a id w) _ h1 in
      let (rs, applied) = dropped-rows (a.set id b w') set in
      let (rs', read_by, same) = array_of-rows (a.api a.list_fn _ w'') listed in
      (
        current,
        w',
        rs,
        w'',
        call_row-Shows (problem not_found) _ shown,
        applied,
        rs',
        read_by,
        same,
      )

  module _ (run : Doer W) (r : HttpRequest) where
    abbrev pub Granted : W → Answer × W → Type 0
    Granted w (answer, after) =
        ((p : Problem) × (answer ≡ failed p) × (after ≡ w))
        ⊎ ((raw : GoString) × (b : AccessBody) × (uuid_match r.id ≡ true)
            × (read_body a.decode no_body r.raw ≡ ok (raw, b))
            × IsGrant a.max_mask a.class_options b
            × (out : GoString) × IsApplied r.id b w out after
            × (answer ≡ sent (ok_sent a out)))

    Granted-of_Done :
        (raw : GoString) (b : AccessBody) (w : W) (x : Answer × W)
        → uuid_match r.id ≡ true
        → (read_body a.decode no_body r.raw ≡ ok (raw, b)) × IsGrant a.max_mask a.class_options b
        → Done run r (grant_step a r.id b) (ok_sent a) w x
        → Granted w x
    Granted-of_Done raw b w (answer, after) named g (inl h) = inl h
    Granted-of_Done raw b w (answer, after) named g (inr (out, h, same)) =
        inr (raw, b, named, g.0, g.1, out, grant_step-IsApplied r.id b w h, same)

    grant_with-Granted :
        (d : IsDoer run) (body : Result (GoString × AccessBody)) (w : W)
        → uuid_match r.id ≡ true
        → grant_body a r.raw ≡ body
        → Granted w (grant_with a run r r.id body w)
    unfolding grant_with
    grant_with-Granted d (err p) w named h = inl (p, refl, refl)
    grant_with-Granted d (ok (raw, b)) w named h =
        Granted-of_Done raw b w _ named (grant_body-IsGrant r.raw h)
          (transact-Done run r d raw (λ out. 200) (grant_step a r.id b) _ w)

    grant-cases :
        (d : IsDoer run) (named : Bool) (w : W)
        → uuid_match r.id ≡ named
        → Granted w (elim (if named then ok r.id else err (validation (lit "id must be a UUID"))) [
          | err p ↦ (failed p, w)
          | ok i ↦ grant_with a run r i (grant_body a r.raw) w
        ])
    grant-cases d false w h = inl (validation (lit "id must be a UUID"), refl, refl)
    grant-cases d true w h = grant_with-Granted d (grant_body a r.raw) w h refl

-- A grant over a transaction either is refused, and the database is as it was, or answers 200 with
-- the list after it: then the id of its path is a UUID and its body was read, the user of the body is a
-- UUID, its mask is a number of at most the bound of the table, the options of a class stand only where
-- they apply, the row of this id was visible, and the grant was set on this id with this body.
pub grant-Granted :
    {V W : Type 0} (a : Access V W) (run : Doer W) (d : IsDoer run) (r : HttpRequest) (w : W)
    → Granted a run r w (grant a run r w)
unfolding grant uuid_of
grant-Granted a run d r w = grant-cases a run r d (uuid_match r.id) w refl

-- A mask that the bound of its table lets through is not changed by the cast to the bit string of
-- the table: 6 bits for an object or a method, 10 bits for a class.
pub bound-fits :
    (b : AccessBody) (mask max bits : ℕ) (class_options : Bool)
    → ((max ≡ mask_bits6) × (bits ≡ 6)) ⊎ ((max ≡ mask_bits10) × (bits ≡ 10))
    → bound b mask max class_options ≡ none
    → mask % 2 ^ bits ≡ mask
bound-fits b mask max bits class_options (inl (e, n)) h =
    let (narrow, _) = bound-none b mask max class_options h in rw n (omega arith)
bound-fits b mask max bits class_options (inr (e, n)) h =
    let (narrow, _) = bound-none b mask max class_options h in rw n (omega arith)
