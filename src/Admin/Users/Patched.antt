-- ===== src/Admin/Users/Patched.antt =====
-- The PATCH of a profile in admin/users.go, over a transaction.
use go_platform.Base.{GoString, lit, List, Option, none, some, ◌≡◌, refl, inl}
use go_platform.Problem.{Problem}
use go_platform.Pgtx.Explain.{problem}
use go_platform.Pgtx.Doer.{Doer, IsDoer}
use go_platform.Rest.Row.{
  Result, ok, err, RowId, uuid_id_of, if_match, precondition, read_body, Called, rows,
}
use go_platform.Rest.Writable.Guarded.{Matches, if_match-Matches}
use go_platform.Rest.Handler.{HttpRequest, Answer, failed, sent}
use go_platform.Rest.Many.{Reading, broke, read, call}
use go_platform.Rest.Many.Listed.{
  OrRefused, OrRefused-map, IsRead, transact_reading-Done, read-bind, call-rows,
}
use go_platform.Admin.Users.{Users, ProfileBody}
use go_platform.Admin.Users.Steps.{
  profile_args, redact, get_row, row_sent, after_current, patch_step,
}
use go_platform.Admin.Users.Handlers.{patch, with_id, with_body, patch_head, user_profile}

module _ {V W : Type 0} (u : Users V W) where
  free-read :
      {A : Type 0} (m : Option Problem) (x : Reading A W) (w : W) {a : A} {after : W}
      → elim m [ some p ↦ broke (problem p) w | none ↦ x ] ≡ read a after
      → (m ≡ none) × (x ≡ read a after)
  free-read none x w h = (refl, h)
  free-read (some p) x w h = cc

  -- The row was read, its version is the one of If-Match, the update ran, and the row was read again.
  abbrev pub IsChanged : GoString → RowId → (W → Called W) → W → GoString → W → Type 0
  IsChanged tag id update w out after =
      (cur : GoString) × (w' : W) × (get_row u id w ≡ read cur w')
      × Matches u.json tag cur
      × (rs : List GoString) × (w'' : W) × (update w' ≡ rows rs w'')
      × (get_row u id w'' ≡ read out after)

  patch_step-IsChanged :
      (tag : GoString) (id : RowId) (update : W → Called W) (w : W) {out : GoString} {after : W}
      → patch_step u tag id update w ≡ read out after
      → IsChanged tag id update w out after
  unfolding patch_step after_current
  patch_step-IsChanged tag id update w h =
      let (cur, w', shown, h') = read-bind (get_row u id w) _ h in
      let (free, h'') = free-read (if_match u.json tag cur) _ w' h' in
      let (rs, w'', ran, again) = read-bind (call (update w')) _ h'' in
      (
        cur,
        w',
        shown,
        if_match-Matches u.json tag cur free,
        rs,
        w'',
        call-rows (update w') ran,
        again,
      )

  module _ (run : Doer W) (d : IsDoer run) (r : HttpRequest) where
    -- What a PATCH of a profile that changed the database has established.
    abbrev pub IsPatched : W → Answer → W → Type 0
    IsPatched w a after =
        (id : RowId) × (uuid_id_of r.id ≡ ok id)
        × (raw : GoString) × (b : ProfileBody) × (read_body u.read_profile u.no_profile r.raw
            ≡ ok (raw, b))
        × (out : GoString) × IsChanged r.if_match id
            (u.api (lit "set_user_profile") (profile_args u id b)) w out after
        × (a ≡ sent (row_sent u out))

    IsPatched-body :
        (id : RowId) (body : Result (GoString × ProfileBody)) (w : W)
        → uuid_id_of r.id ≡ ok id
        → read_body u.read_profile u.no_profile r.raw ≡ body
        → OrRefused (IsPatched w) w (
            with_body u run r body
              (λ raw b. patch u run r id raw (u.api (lit "set_user_profile") (profile_args u id b)))
              w)
    unfolding with_body patch
    IsPatched-body id (err p) w known taken = inl (p, refl, refl)
    IsPatched-body id (ok (raw, b)) w known taken =
        let update = u.api (lit "set_user_profile") (profile_args u id b) in
        OrRefused-map (IsRead (patch_step u r.if_match id update) (row_sent u) w) (IsPatched w) _
          (λ a after (out, h, same).
            (id, known, raw, b, taken, out, patch_step-IsChanged r.if_match id update w h, same))
          (transact_reading-Done run d r (redact u raw) (λ x. 200)
            (patch_step u r.if_match id update) (row_sent u) w)

    IsPatched-head :
        (i : Result RowId) (m : Option Problem) (w : W)
        → uuid_id_of r.id ≡ i
        → OrRefused (IsPatched w) w (elim i [
          | err p ↦ (failed p, w)
          | ok id ↦ elim m [
            | some p ↦ (failed p, w)
            | none ↦
                with_body u run r
                  (read_body u.read_profile u.no_profile r.raw)
                  (λ raw b.
                    patch u run r id raw (u.api (lit "set_user_profile") (profile_args u id b)))
                  w
          ]
        ])
    IsPatched-head (err p) m w known = inl (p, refl, refl)
    IsPatched-head (ok id) (some p) w known = inl (p, refl, refl)
    IsPatched-head (ok id) none w known =
        IsPatched-body id (read_body u.read_profile u.no_profile r.raw) w known refl

-- A PATCH of a profile over a transaction either is refused, and the database is as it was, or
-- api.set_user_profile ran with its body on a user that was visible in the version that If-Match names, or
-- `*`, and the answer is the row that is visible behind it, with its ETag.
pub user_profile-IsPatched :
    {V W : Type 0} (u : Users V W) (run : Doer W) (d : IsDoer run) (r : HttpRequest) (w : W)
    → OrRefused (IsPatched u run d r w) w (user_profile u run r w)
unfolding user_profile patch_head with_id
user_profile-IsPatched u run d r w =
    IsPatched-head u run d r (uuid_id_of r.id) (precondition r.if_match) w refl
