-- ===== src/Admin/Users/Handlers.antt =====
-- The handlers of admin/users.go over the closures of Admin/Users.
use go_platform.Base.{GoString, [], ◌++◌, none, some, lit, if◌then◌else◌, uuid_match}
use go_platform.Pgtx.Doer.{Doer}
use go_platform.Rest.Row.{
  Result, ok, err, validation, RowId, uuid_id_of, precondition, read_body, Called,
}
use go_platform.Rest.Handler.{HttpRequest, Answer, failed}
use go_platform.Rest.Many.{transact_reading, call, json_answer}
use go_platform.Admin.Users.{
  Users, Passwords, IpTable, Membership, both_passwords, UserAction, action_of, no_action,
  no_content, bad_member, calls, changes_password, unknown,
}
use go_platform.Admin.Users.Steps.{
  profile_args, redact, row_sent, patch_step, action_step, password_args, tables_step, put_step,
  list_step, member_args,
}

module _ {V W : Type 0} (u : Users V W) (run : Doer W) (r : HttpRequest) where
  unfoldable pub with_id : (RowId → W → Answer × W) → W → Answer × W
  with_id next w = elim (uuid_id_of r.id) [ err p ↦ (failed p, w) | ok id ↦ next id w ]

  unfoldable pub with_body :
      {B : Type 0} → Result (GoString × B) → (GoString → B → W → Answer × W) → W → Answer × W
  with_body (err p) next w = (failed p, w)
  with_body (ok (raw, b)) next w = next raw b w

  -- `patchHead`
  unfoldable pub patch_head : (RowId → W → Answer × W) → W → Answer × W
  patch_head next =
      with_id (λ id w. elim (precondition r.if_match) [ some p ↦ (failed p, w) | none ↦ next id w ])

  -- `patch`
  unfoldable pub patch : RowId → GoString → (W → Called W) → W → Answer × W
  patch id raw update =
      transact_reading run r (redact u raw) (λ out. 200) (patch_step u r.if_match id update)
        (row_sent u)

  -- `userProfile`
  unfoldable pub user_profile : W → Answer × W
  user_profile = patch_head (λ id.
      with_body (read_body u.read_profile u.no_profile r.raw)
        (λ raw b. patch id raw (u.api (lit "set_user_profile") (profile_args u id b))))

  -- `changePassword`
  unfoldable pub change_with : RowId → GoString → Passwords → W → Answer × W
  change_with id raw b w = elim (both_passwords b) [
    | none ↦ (failed (validation (lit "old and new passwords are required")), w)
    | some pair ↦
        transact_reading run r (redact u raw) (λ rs. 204)
          (λ w'. call (u.api (lit "change_password") (password_args u id pair.0 pair.1) w'))
          (λ rs. no_content) w
  ]

  unfoldable pub no_passwords : Passwords
  no_passwords = record { old_password = none; new_password = none }

  unfoldable pub change_password : RowId → W → Answer × W
  change_password id = with_body (read_body u.read_passwords no_passwords r.raw) (change_with id)

  unfoldable pub act_as : UserAction → RowId → W → Answer × W
  act_as (calls fn) id w =
      transact_reading run r [] (λ out. 200) (action_step u fn id) (row_sent u) w
  act_as changes_password id w = change_password id w
  act_as unknown id w = (failed no_action, w)

  -- `userAction`, whose name is beside the request.
  unfoldable pub user_action : GoString → W → Answer × W
  user_action name = with_id (act_as (action_of name))

  -- `userIptableGet` and `userIptablePut`
  unfoldable pub iptable_get : W → Answer × W
  iptable_get = with_id (λ id.
      transact_reading run r [] (λ t. 200) (tables_step u id) (λ t. json_answer (u.write_table t)))

  unfoldable pub no_table : IpTable
  no_table = record { allow = []; deny = [] }

  unfoldable pub iptable_put : W → Answer × W
  iptable_put = with_id (λ id. with_body (read_body u.read_table no_table r.raw) (λ raw t.
      transact_reading run r raw (λ rs. 200) (put_step u t id)
        (λ rs. json_answer (u.write_table t))))

  -- `membershipList`, `membershipAdd`, `membershipDelete` and `userMemberships`
  unfoldable pub member_list : Membership → W → Answer × W
  member_list m = with_id (λ id.
      transact_reading run r [] (λ rs. 200) (list_step u m.fn id) (λ rs. json_answer (u.array rs)))

  unfoldable pub change_member :
      GoString → Membership → GoString → GoString → RowId → W → Answer × W
  change_member fn m raw group id =
      transact_reading run r raw (λ rs. 204) (λ w'. call (u.api fn (member_args u m id group) w'))
        (λ rs. no_content)

  unfoldable pub member_add : Membership → W → Answer × W
  member_add m = with_id (λ id. with_body (read_body u.read_member [] r.raw) (λ raw group w.
      if uuid_match group
      then change_member (m.fn ++ lit "_add") m raw group id w
      else (failed (bad_member m), w)))

  unfoldable pub member_delete : Membership → GoString → W → Answer × W
  member_delete m group = with_id (λ id w.
      if uuid_match group
      then change_member (m.fn ++ lit "_delete") m [] group id w
      else (failed (validation (lit "id must be a UUID")), w))

  unfoldable pub member_all : W → Answer × W
  member_all = with_id (λ id.
      transact_reading run r [] (λ rs. 200) (list_step u (lit "user_member") id)
        (λ rs. json_answer (u.array rs)))
