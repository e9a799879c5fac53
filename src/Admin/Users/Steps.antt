-- ===== src/Admin/Users/Steps.antt =====
-- The arguments and the closures of admin/users.go.
use go_platform.Base.{GoString, List, [], ◌∷◌, none, some, lit, if◌then◌else◌, Map}
use go_platform.Pgtx.Explain.{problem, other}
use go_platform.Rest.Row.{RowId, etag_of, if_match, Called, raised, rows, call_row, not_found}
use go_platform.Rest.Handler.{Sent}
use go_platform.Rest.Many.{Reading, broke, read, ◌>>=◌, call}
use go_platform.Admin.Users.{
  UserBody, ProfileBody, IpTable, Membership, Users, hide_all, has_secret, table_list, table_text,
  reading_of,
}

module _ {V W : Type 0} (u : Users V W) where
  -- `(*userBody).Args`
  unfoldable pub user_args : V → UserBody → Map V
  user_args id b =
      (lit "id", id)
      ∷ (lit "username", u.text_value b.username)
      ∷ (lit "password", u.text_value b.password)
      ∷ (lit "name", u.text_value b.full_name)
      ∷ (lit "phone", u.text_value b.phone)
      ∷ (lit "email", u.text_value b.email)
      ∷ (lit "description", u.text_value b.description)
      ∷ (lit "passwordchange", u.flag_value b.password_change)
      ∷ (lit "passwordnotchange", u.flag_value b.password_not_change)
      ∷ []

  unfoldable pub profile_args : RowId → ProfileBody → Map V
  profile_args id b =
      (lit "userid", u.id_value id)
      ∷ (lit "familyname", u.text_value b.family_name)
      ∷ (lit "givenname", u.text_value b.given_name)
      ∷ (lit "patronymicname", u.text_value b.patronymic_name)
      ∷ (lit "locale", u.text_value b.locale)
      ∷ (lit "area", u.text_value b.area)
      ∷ (lit "interface", u.text_value b.interface)
      ∷ (lit "picture", u.text_value b.picture)
      ∷ []

  -- `redact`
  unfoldable pub redact : GoString → GoString
  unfolding hide_all has_secret
  redact raw = elim (u.read_map raw) [
    | none ↦ raw
    | some m ↦ if has_secret m then u.write_map (hide_all m) else raw
  ]

  -- `users.GetRow`
  unfoldable pub get_row : RowId → W → Reading GoString W
  get_row id w =
      reading_of (
        call_row (problem not_found)
          (u.api (lit "api.get_user") ((lit "id", u.id_value id) ∷ []) w))

  unfoldable pub row_sent : GoString → Sent
  row_sent out = record { status = 200; etag = etag_of u.json out; location = []; body = out }

  -- What is behind the current row: the precondition, the update, and the new row.
  unfoldable pub after_current :
      GoString → RowId → (W → Called W) → GoString → W → Reading GoString W
  after_current tag id update cur w = elim (if_match u.json tag cur) [
    | some p ↦ broke (problem p) w
    | none ↦ call (update w) >>= λ rs w'. get_row id w'
  ]

  -- The closure of `patch`.
  unfoldable pub patch_step : GoString → RowId → (W → Called W) → W → Reading GoString W
  patch_step tag id update w = get_row id w >>= after_current tag id update

  -- The closure of `userAction`.
  unfoldable pub action_step : GoString → RowId → W → Reading GoString W
  action_step fn id w = get_row id w >>= λ cur w'.
      call (u.api fn ((lit "id", u.id_value id) ∷ []) w') >>= λ rs w''. get_row id w''

  unfoldable pub password_args : RowId → GoString → GoString → Map V
  password_args id old new' =
      (lit "id", u.id_value id)
      ∷ (lit "oldpass", u.text_value (some old))
      ∷ (lit "newpass", u.text_value (some new'))
      ∷ []

  -- One kind of the table that a row of api.get_user_iptable holds.
  unfoldable pub table_of_rows : Called W → Reading (List GoString) W
  table_of_rows (raised e w) = broke e w
  table_of_rows (rows [] w) = read [] w
  table_of_rows (rows ([] ∷ rs) w) = read [] w
  table_of_rows (rows ((c ∷ out) ∷ rs) w) = elim (u.list_of (c ∷ out)) [
    | none ↦ broke other w
    | some list ↦ read (table_list list) w
  ]

  unfoldable pub get_table : GoString → RowId → W → Reading (List GoString) W
  get_table kind id w = table_of_rows (
      u.api (lit "get_user_iptable")
        ((lit "id", u.id_value id) ∷ (lit "type", u.text_value (some kind)) ∷ []) w)

  unfoldable pub set_table : GoString → List GoString → RowId → W → Called W
  set_table kind list id w =
      u.api (lit "set_user_iptable")
        ((lit "id", u.id_value id)
          ∷ (lit "type", u.text_value (some kind))
          ∷ (lit "iptable", u.text_value (table_text list))
          ∷ [])
        w

  -- The closures of `userIptableGet` and `userIptablePut`.
  unfoldable pub tables_step : RowId → W → Reading IpTable W
  tables_step id w = get_row id w >>= λ cur w'. get_table (lit "A") id w' >>= λ allow w''.
      get_table (lit "D") id w'' >>= λ deny w'''. read (record { allow = allow; deny = deny }) w'''

  unfoldable pub put_step : IpTable → RowId → W → Reading (List GoString) W
  put_step t id w = get_row id w >>= λ cur w'.
      call (set_table (lit "A") t.allow id w') >>= λ rs w''.
      call (set_table (lit "D") t.deny id w'')

  -- The closure of `membershipList` and of `userMemberships`.
  unfoldable pub list_step : GoString → RowId → W → Reading (List GoString) W
  list_step fn id w =
      get_row id w >>= λ cur w'. call (u.api fn ((lit "userid", u.id_value id) ∷ []) w')

  unfoldable pub member_args : Membership → RowId → GoString → Map V
  member_args m id group = (lit "member", u.id_value id) ∷ (m.key, u.text_value (some group)) ∷ []
