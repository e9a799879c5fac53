-- ===== src/Rest/Access.antt =====
-- lib/rest/access.go: the grants of an access table, and the three handlers of it over a transaction.
-- What schema api does, `Set` among it, is a parameter; answers stand for their JSON texts.
pub mod Granted
use go_platform.Base.{
  GoString, ℕ, ◌^◌, Bool, true, false, ◌&&◌, ◌||◌, not, List, [], ◌∷◌, ◌++◌, Option, none, some,
  lit, str_eq, ltb, is_some, ℤ, pos, negsuc, if◌then◌else◌, uuid_match, Map,
}
use go_platform.Problem.{Problem}
use go_platform.Pgtx.Call.{decimal}
use go_platform.Pgtx.Explain.{GoError, problem, other}
use go_platform.Pgtx.Doer.{Doer}
use go_platform.Rest.Row.{
  Result, ok, err, validation, RowId, uuid, uuid_id_of, Decoded, read_body, Called, raised, rows,
  Step, stop, row, call_row, not_found, ◌>>=◌,
}
use go_platform.Rest.Handler.{HttpRequest, Sent, Answer, failed, sent, transact}

pub record AccessBody : Type 0 where
  pub user_id : GoString
  pub mask : Option ℤ
  pub recursive : Option Bool
  pub object_set : Option Bool

abbrev pub mask_bits6 : ℕ
mask_bits6 = 63

abbrev pub mask_bits10 : ℕ
mask_bits10 = 1023

-- `Validate`: the mask that it has passed, or the refusal.
unfoldable pub validate_mask : Option ℤ → Result ℕ
validate_mask none = err (validation (lit "mask is required"))
validate_mask (some (pos n)) = ok n
validate_mask (some (negsuc n)) = err (validation (lit "mask is required"))

unfoldable pub validate : AccessBody → Result ℕ
validate b =
    if not (uuid_match b.user_id)
    then err (validation (lit "userid is required"))
    else validate_mask b.mask

-- `Bound`, behind `Validate`: the mask is there.
unfoldable pub bound : AccessBody → ℕ → ℕ → Bool → Option Problem
bound b mask max class_options =
    if ltb max mask
    then some (validation (lit "mask must be at most " ++ decimal max))
    else if not class_options && (is_some b.recursive || is_some b.object_set)
    then some (validation (lit "recursive and objectset apply to a class only"))
    else none

-- `Access`, with what schema api does on the work `W` and the JSON of an array of rows.
pub record Access (V W : Type 0) : Type 0 where
  pub get_fn : GoString
  pub list_fn : GoString
  pub decode_fn : GoString
  pub max_mask : ℕ
  pub class_options : Bool
  pub set : GoString → AccessBody → W → Called W
  pub text_value : GoString → V
  pub array : List GoString → GoString
  pub decode : GoString → Decoded AccessBody
  pub api : GoString → Map V → W → Called W

abbrev pub no_body : AccessBody
no_body = record { user_id = []; mask = none; recursive = none; object_set = none }

module _ {V W : Type 0} (a : Access V W) where
  abbrev id_args : GoString → Map V
  id_args id = (lit "id", a.text_value id) ∷ []

  unfoldable pub visible : GoString → W → Step W
  visible id w = call_row (problem not_found) (a.api a.get_fn (id_args id) w)

  -- `pgtx.Call` whose rows are answered as an array.
  unfoldable pub array_of : Called W → Step W
  array_of (raised e w) = stop e w
  array_of (rows rs w) = row (a.array rs) w

  -- A call whose answer is dropped.
  unfoldable pub dropped : Called W → Step W
  dropped (raised e w) = stop e w
  dropped (rows rs w) = row [] w

  -- The closures of the three handlers.
  unfoldable pub list_step : GoString → W → Step W
  list_step id w = visible id w >>= λ r w'. array_of (a.api a.list_fn (id_args id) w')

  unfoldable pub grant_step : GoString → AccessBody → W → Step W
  grant_step id b w =
      visible id w
      >>= (λ r w'. dropped (a.set id b w'))
      >>= (λ r w'. array_of (a.api a.list_fn (id_args id) w'))

  unfoldable pub decode_args : GoString → Option GoString → Map V
  decode_args id none = id_args id
  decode_args id (some u) = id_args id ++ (lit "userid", a.text_value u) ∷ []

  unfoldable pub decode_step : GoString → Option GoString → W → Step W
  decode_step id user w =
      visible id w >>= λ r w'. call_row other (a.api a.decode_fn (decode_args id user) w')

  -- The body of a PUT, or the first refusal.
  unfoldable pub check_grant : AccessBody → Option Problem
  check_grant b = elim (validate b) [
    | err p ↦ some p
    | ok mask ↦ bound b mask a.max_mask a.class_options
  ]

  unfoldable pub passed : Option Problem → GoString × AccessBody → Result (GoString × AccessBody)
  passed (some p) body = err p
  passed none body = ok body

  unfoldable pub checked : Result (GoString × AccessBody) → Result (GoString × AccessBody)
  checked (err p) = err p
  checked (ok (raw, b)) = passed (check_grant b) (raw, b)

  unfoldable pub grant_body : Option GoString → Result (GoString × AccessBody)
  grant_body raw = checked (read_body a.decode no_body raw)

  -- The parameter `userid` of a decode: "" is none.
  unfoldable pub user_of : GoString → Result (Option GoString)
  user_of u =
      if str_eq u []
      then ok none
      else if uuid_match u
      then ok (some u)
      else err (validation (lit "userid must be a UUID"))

  abbrev pub ok_sent : GoString → Sent
  ok_sent out = record { status = 200; etag = []; location = []; body = out }

  unfoldable pub uuid_of : GoString → Result GoString
  uuid_of value = if uuid_match value then ok value else err (validation (lit "id must be a UUID"))

  module _ (run : Doer W) (r : HttpRequest) where
    unfoldable pub list : W → Answer × W
    list w = elim (uuid_of r.id) [
      | err p ↦ (failed p, w)
      | ok id ↦ transact run r [] (λ out. 200) (list_step id) ok_sent w
    ]

    unfoldable pub grant_with : GoString → Result (GoString × AccessBody) → W → Answer × W
    grant_with id (err p) w = (failed p, w)
    grant_with id (ok (raw, b)) w = transact run r raw (λ out. 200) (grant_step id b) ok_sent w

    unfoldable pub grant : W → Answer × W
    grant w = elim (uuid_of r.id) [
      | err p ↦ (failed p, w)
      | ok id ↦ grant_with id (grant_body r.raw) w
    ]

    unfoldable pub decode_access : GoString → W → Answer × W
    decode_access userid w = elim (uuid_of r.id) [
      | err p ↦ (failed p, w)
      | ok id ↦ elim (user_of userid) [
        | err p ↦ (failed p, w)
        | ok user ↦ transact run r [] (λ out. 200) (decode_step id user) ok_sent w
      ]
    ]
