-- ===== src/Admin/Users.antt =====
-- admin/users.go: the users, their profile, actions, tables of addresses and memberships over a
-- transaction. JSON, the functions of schema api and the values of their arguments are parameters.
pub mod Steps
pub mod Handlers
pub mod Redacted
pub mod Patched
pub mod Iptable
mod Tests
use go_platform.Base.{
  GoString, ℕ, Bool, true, false, ◌&&◌, ◌||◌, not, List, [], ◌∷◌, ◌++◌, Option, none, some, lit,
  str_eq, split_at, lookup, insert, if◌then◌else◌, Map, uuid_match, is_some,
}
use go_platform.Problem
use go_platform.Problem.{Problem}
use go_platform.Pgtx.Explain.{GoError, problem, other}
use go_platform.Pgtx.Doer.{Doer}
use go_platform.Rest.Row.{
  Result, ok, err, validation, RowId, uuid_id_of, Json, etag_of, precondition, if_match, Decoded,
  read_body, Called, raised, rows, Step, stop, row, call_row, not_found,
}
use go_platform.Rest.Writable.{required}
use go_platform.Rest.Handler.{HttpRequest, Sent, Answer, failed, sent}
use go_platform.Rest.Many.{Reading, broke, read, ◌>>=◌, transact_reading, call, json_answer}
use go_platform.Host.Address.{elements}

-- `userBody`
pub record UserBody : Type 0 where
  pub username : Option GoString
  pub password : Option GoString
  pub full_name : Option GoString
  pub phone : Option GoString
  pub email : Option GoString
  pub description : Option GoString
  pub password_change : Option Bool
  pub password_not_change : Option Bool

-- `profileBody`
pub record ProfileBody : Type 0 where
  pub family_name : Option GoString
  pub given_name : Option GoString
  pub patronymic_name : Option GoString
  pub locale : Option GoString
  pub area : Option GoString
  pub interface : Option GoString
  pub picture : Option GoString

-- The body of change-password.
pub record Passwords : Type 0 where
  pub old_password : Option GoString
  pub new_password : Option GoString

-- `iptable`
pub record IpTable : Type 0 where
  pub allow : List GoString
  pub deny : List GoString

-- `membership`
pub record Membership : Type 0 where
  pub path : GoString
  pub fn : GoString
  pub key : GoString

unfoldable pub memberships : List Membership
memberships =
    record { path = lit "groups"; fn = lit "api.member_group"; key = lit "group" }
    ∷ record { path = lit "areas"; fn = lit "api.member_area"; key = lit "area" }
    ∷ record { path = lit "interfaces"; fn = lit "api.member_interface"; key = lit "interface" }
    ∷ []

-- What the module is given: the values of arguments, JSON, and the functions of schema api. A row of
-- api.get_user_iptable holds a list, or null, or is no such JSON.
pub record Users (V W : Type 0) : Type 0 where
  pub id_value : RowId → V
  pub text_value : Option GoString → V
  pub flag_value : Option Bool → V
  pub json : Json
  pub array : List GoString → GoString
  pub read_map : GoString → Option (Map GoString)
  pub write_map : Map GoString → GoString
  pub read_profile : GoString → Decoded ProfileBody
  pub no_profile : ProfileBody
  pub read_passwords : GoString → Decoded Passwords
  pub read_table : GoString → Decoded IpTable
  pub write_table : IpTable → GoString
  pub list_of : GoString → Option (Option GoString)
  pub read_member : GoString → Decoded GoString
  pub api : GoString → Map V → W → Called W

-- `m[k] = "***"` where the map has `k`.
abbrev pub stars : GoString
stars = lit "\"***\""

unfoldable pub hide : GoString → Map GoString → Map GoString
hide k m = if is_some (lookup k m) then insert k stars m else m

unfoldable pub hide_all : Map GoString → Map GoString
unfolding hide
hide_all m = hide (lit "new") (hide (lit "old") (hide (lit "password") m))

unfoldable pub has_secret : Map GoString → Bool
has_secret m =
    is_some (lookup (lit "password") m)
    || is_some (lookup (lit "old") m)
    || is_some (lookup (lit "new") m)

-- `strings.TrimSuffix(ms.path, "s")`
unfoldable pub singular : GoString → GoString
singular [] = []
singular (c ∷ []) = if str_eq (c ∷ []) (lit "s") then [] else c ∷ []
singular (c ∷ d ∷ s) = c ∷ singular (d ∷ s)

-- `splitList`
unfoldable pub split_list : GoString → List GoString
split_list s = elements (split_at b',' s)

-- `strings.Join(list, ",")`
unfoldable pub join_list : List GoString → GoString
join_list [] = []
join_list (s ∷ []) = s
join_list (s ∷ t ∷ ss) = s ++ (b',' ∷ join_list (t ∷ ss))

-- The list of an answer, of the text that the database has or not.
unfoldable pub table_list : Option GoString → List GoString
table_list none = []
table_list (some s) = split_list s

unfoldable pub table_text : List GoString → Option GoString
table_text [] = none
table_text (s ∷ ss) = some (join_list (s ∷ ss))

-- The passwords of a body, both of them there.
unfoldable pub both_passwords : Passwords → Option (GoString × GoString)
both_passwords p = elim p.old_password [
  | none ↦ none
  | some old ↦ elim p.new_password [
    | none ↦ none
    | some new' ↦ if str_eq old [] || str_eq new' [] then none else some (old, new')
  ]
]

-- The actions on a user: a function that is called on the row, or the change of the password.
pub data UserAction : Type 0 where
  calls : (fn : GoString) → UserAction
  changes_password unknown : UserAction

unfoldable pub action_of : GoString → UserAction
action_of name =
    if str_eq name (lit "lock")
    then calls (lit "api.user_lock")
    else if str_eq name (lit "unlock")
    then calls (lit "api.user_unlock")
    else if str_eq name (lit "change-password")
    then changes_password
    else unknown

unfoldable pub no_action : Problem
no_action = Problem.new 404 (lit "not-found") (lit "Not found") (lit "no such action")

unfoldable pub reading_of : {W : Type 0} → Step W → Reading GoString W
reading_of (stop e w) = broke e w
reading_of (row out w) = read out w

abbrev pub no_content : Sent
no_content = record { status = 204; etag = []; location = []; body = [] }

-- `(*userBody).Validate`
unfoldable pub validate : Bool → UserBody → Option Problem
validate create b = required (lit "username") b.username create

-- The refusal of a member that is no UUID.
unfoldable pub bad_member : Membership → Problem
bad_member m = validation (lit "id of the " ++ (singular m.path ++ lit " is required"))
