-- ===== src/Entity.antt =====
-- lib/entity/entity.go: the six routes of an entity over a transaction. The body of an entity, the
-- functions of schema api and JSON are parameters, as in Rest/Writable and Rest/Many.
pub mod Args
pub mod Keys
pub mod Updated
pub mod Answered
pub mod Acted
pub mod Visible
pub mod Whole
pub mod Listed
mod Tests
use go_platform.Base.{
  GoString, ℕ, suc, Bool, true, false, ◌&&◌, ◌||◌, not, List, [], ◌∷◌, ◌++◌, Option, none, some,
  lit, str_eq, has_prefix, ltb, leb, ◌==◌, lookup, delete, keys_of, if◌then◌else◌, Map, any, all,
  length, is_lower, is_digit, map,
}
use go_platform.Problem
use go_platform.Problem.{Problem, with_code, code_json_empty, code_json_key}
use go_platform.Pgtx.Explain.{GoError, problem, other}
use go_platform.Pgtx.Doer.{Doer}
use go_platform.Query
use go_platform.Query.{Params, Values, QueryError}
use go_platform.Search.{Condition, search_of}
use go_platform.Rest.Row.{
  Result, ok, err, validation, RowId, uuid_id_of, Json, etag_of, precondition, if_match, Decoded,
  read_body, Called, raised, rows, Step, stop, row, call_row, not_found, ◌>>=◌,
}
use go_platform.Rest.Read.{Object, project, row_handler}
use go_platform.Rest.Handler.{HttpRequest, Sent, Answer, failed, sent, transact}
use go_platform.Rest.Many
use go_platform.Rest.Many.{
  Reading, broke, read, transact_reading, call, json_answer, Texts, Lister, list_page,
}
use go_platform.Entity.Args.{list_args, fields_of}

-- `Entity` and its module over a body `B`, values `V` of arguments and the work `W` of a transaction.
pub record Entity (B V W : Type 0) : Type 0 where
  pub get_fn : GoString
  pub set_fn : GoString
  pub update_fn : GoString
  pub search_fields : List GoString
  pub fresh : B
  pub decode : GoString → Decoded B
  pub validate : Bool → B → Option Problem
  pub args : Option RowId → B → Map V
  pub is_nil : V → Bool
  pub id_value : RowId → V
  pub text_value : GoString → V
  pub json_value : GoString → V
  pub terms_value : Option (List Condition) → V
  pub json : Json
  pub texts : Texts
  -- the row is JSON whose id is null or absent
  pub has_null_id : GoString → Bool
  -- the text is JSON, and its first byte behind blanks is a brace
  pub is_object : GoString → Bool
  pub api : GoString → Map V → W → Called W

-- `emptyBody`, over the arguments of the body: the id does not count.
unfoldable pub all_nil : {V : Type 0} → (V → Bool) → Map V → Bool
all_nil is_nil [] = true
all_nil is_nil ((k, v) ∷ args) = (str_eq k (lit "id") || is_nil v) && all_nil is_nil args

-- `^[a-z][a-z0-9_]{0,63}$`
unfoldable pub is_action_byte : ℕ → Bool
is_action_byte c = is_lower c || is_digit c || c == b'_'

unfoldable pub is_action : GoString → Bool
is_action [] = false
is_action (c ∷ s) = is_lower c && all is_action_byte s && leb (length s) 63

-- What the first 1 MiB of the body of an action is.
pub data ActionBody : Type 0 where
  too_large unreadable : ActionBody
  text : GoString → ActionBody

unfoldable pub action_body : (GoString → Bool) → ActionBody → Result GoString
action_body is_object too_large =
    err (Problem.new 413 (lit "validation") (lit "Payload too large") (lit "body over 1 MiB"))
action_body is_object unreadable = err (validation (lit "body must be a JSON object or empty"))
action_body is_object (text []) = ok []
action_body is_object (text (c ∷ s)) =
    if is_object (c ∷ s)
    then ok (c ∷ s)
    else err (validation (lit "body must be a JSON object or empty"))

unfoldable pub action_name : GoString → Result GoString
action_name name = if is_action name then ok name else err (validation (lit "bad action name"))

-- The answer to an action: the row behind it, or nothing with 204.
unfoldable pub action_status : Option GoString → ℕ
action_status none = 204
action_status (some out) = 200

module _ {B V W : Type 0} (e : Entity B V W) where
  -- `getRow`: a row whose id is null is no row; the first argument is what stands for `ErrNoRow`.
  unfoldable pub get_row : GoError → RowId → W → Step W
  get_row no_row id w =
      call_row no_row (e.api e.get_fn ((lit "id", e.id_value id) ∷ []) w) >>= λ out w'.
      if e.has_null_id out then stop no_row w' else row out w'

  -- `Current`
  unfoldable pub current : RowId → W → Step W
  current = get_row (problem not_found)

  -- `emptyBody`
  unfoldable pub empty_body : B → Bool
  empty_body b = all_nil e.is_nil (e.args none b)

  unfoldable pub empty_problem : GoString → Problem
  empty_problem raw =
      let p = validation (lit "body must carry at least one field") in
      if str_eq raw [] then with_code p code_json_empty else p

  -- The body of a PATCH, or the first refusal.
  unfoldable pub checked_body : Result (GoString × B) → Result (GoString × B)
  checked_body (err p) = err p
  checked_body (ok (raw, b)) =
      if empty_body b
      then err (empty_problem raw)
      else elim (e.validate false b) [ some p ↦ err p | none ↦ ok (raw, b) ]

  unfoldable pub update_body : Option GoString → Result (GoString × B)
  update_body raw = checked_body (read_body e.decode e.fresh raw)

  -- A call whose rows are dropped, and a row read behind it.
  unfoldable pub row_behind : Called W → (W → Step W) → Step W
  row_behind (raised err' w) next = stop err' w
  row_behind (rows rs w) next = next w

  -- The write of a PATCH: UpdateFn with a read behind it, or SetFn.
  unfoldable pub write : RowId → B → W → Step W
  write id b w =
      if str_eq e.update_fn []
      then call_row other (e.api e.set_fn (e.args (some id) b) w)
      else row_behind (e.api e.update_fn (e.args (some id) b) w) (current id)

  -- The closure of `Update`.
  unfoldable pub update_step : GoString → RowId → B → W → Step W
  update_step tag id b w = current id w >>= λ cur w'. elim (if_match e.json tag cur) [
    | some p ↦ stop (problem p) w'
    | none ↦ write id b w'
  ]

  -- The row behind an action: one that is gone, by a 404, leaves none.
  unfoldable pub after_action : Step W → Reading (Option GoString) W
  after_action (row out w) = read (some out) w
  after_action (stop (problem p) w) = if p.status == 404 then read none w else broke (problem p) w
  after_action (stop err' w) = broke err' w

  -- `api.execute_object_action`
  unfoldable pub action_args : RowId → GoString → GoString → Map V
  action_args id name params =
      (lit "object", e.id_value id)
      ∷ (lit "code", e.text_value name)
      ∷ (lit "params", e.json_value params)
      ∷ []

  unfoldable pub executed : RowId → Called W → Reading (Option GoString) W
  executed id (raised err' w) = broke err' w
  executed id (rows rs w) = after_action (current id w)

  unfoldable pub acted_on : RowId → GoString → GoString → Step W → Reading (Option GoString) W
  acted_on id name params (stop err' w) = broke err' w
  acted_on id name params (row out w) =
      executed id (e.api (lit "execute_object_action") (action_args id name params) w)

  -- The closure of `Action`.
  unfoldable pub action_step : RowId → GoString → GoString → W → Reading (Option GoString) W
  action_step id name params w = acted_on id name params (current id w)

  unfoldable pub row_sent : GoString → Sent
  row_sent out = record { status = 200; etag = etag_of e.json out; location = []; body = out }

  unfoldable pub action_sent : Option GoString → Sent
  action_sent none = record { status = 204; etag = []; location = []; body = [] }
  action_sent (some out) = row_sent out

  unfoldable pub cut_rows : List GoString → Called W → Reading (List GoString) W
  cut_rows fields (raised err' w) = broke err' w
  cut_rows fields (rows rs w) = read (map (project e.texts.object fields) rs) w

  unfoldable pub rows_behind :
      GoString → GoString → List GoString → RowId → Step W → Reading (List GoString) W
  rows_behind fn key fields id (stop err' w) = broke err' w
  rows_behind fn key fields id (row out w) =
      cut_rows fields (e.api fn ((key, e.id_value id) ∷ []) w)

  -- The closure of `RowsOf`: the row is visible, and the set behind it, cut.
  unfoldable pub rows_step :
      GoString → GoString → List GoString → RowId → W → Reading (List GoString) W
  rows_step fn key fields id w = rows_behind fn key fields id (current id w)

  module _ (run : Doer W) (r : HttpRequest) where
    unfoldable pub update_with : RowId → Result (GoString × B) → W → Answer × W
    update_with id (err p) w = (failed p, w)
    update_with id (ok (raw, b)) w =
        transact run r raw (λ out. 200) (update_step r.if_match id b) row_sent w

    -- `Update`
    unfoldable pub update : W → Answer × W
    update w = elim (uuid_id_of r.id) [
      | err p ↦ (failed p, w)
      | ok id ↦ elim (precondition r.if_match) [
        | some p ↦ (failed p, w)
        | none ↦ update_with id (update_body r.raw) w
      ]
    ]

    unfoldable pub act : RowId → Result GoString → Result GoString → W → Answer × W
    act id (err p) params w = (failed p, w)
    act id (ok name) (err p) w = (failed p, w)
    act id (ok name) (ok params) w =
        transact_reading run r params action_status (action_step id name params) action_sent w

    -- `Action`, whose name and body stand beside the request.
    unfoldable pub action : GoString → ActionBody → W → Answer × W
    action name body w = elim (uuid_id_of r.id) [
      | err p ↦ (failed p, w)
      | ok id ↦ act id (action_name name) (action_body e.is_object body) w
    ]

    unfoldable pub rows_with : GoString → GoString → RowId → Result (List GoString) → W → Answer × W
    rows_with fn key id (err p) w = (failed p, w)
    rows_with fn key id (ok fields) w =
        transact_reading run r [] (λ x. 200) (rows_step fn key fields id)
          (λ items. json_answer (e.texts.array items)) w

    -- `RowsOf`, over the query of the request.
    unfoldable pub rows_of : (QueryError → GoString) → GoString → GoString → Values → W → Answer × W
    rows_of error_text fn key values w = elim (uuid_id_of r.id) [
      | err p ↦ (failed p, w)
      | ok id ↦ rows_with fn key id (fields_of error_text values) w
    ]

    -- `List`, over the query of the request and the payload that is made of it.
    unfoldable pub list : (QueryError → GoString) → Lister V W → GoString → Values → W → Answer × W
    list error_text l raw_query values w = elim (list_args error_text values e.search_fields) [
      | err p ↦ (failed p, w)
      | ok a ↦ list_page e.texts l run r raw_query (e.terms_value a.terms) a.params w
    ]

    -- `Get`: `RowFieldsFunc` over `getRow` and `fieldsOf`.
    unfoldable pub get : (QueryError → GoString) → Values → GoString → W → Answer × W
    get error_text values none_match =
        row_handler e.json e.texts.object run (λ r'. uuid_id_of r'.id) current
          (λ r'. fields_of error_text values) none_match r
