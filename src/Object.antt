-- ===== src/Object.antt =====
-- entity/object/object.go: the generic object over a transaction: its methods, its actions and its
-- files. JSON, the functions of schema api and the values of their arguments are parameters.
pub mod Bodies
pub mod Behind
pub mod Files
pub mod Search
mod Tests
use go_platform.Base.{
  GoString, ℕ, suc, Bool, true, false, ◌&&◌, ◌||◌, not, List, [], ◌∷◌, ◌++◌, Option, none, some,
  lit, str_eq, map, trim_space, split_at, ltb, leb, length, all, if◌then◌else◌, Map, ℤ, pos, negsuc,
  nat_lt_int, is_lower, is_digit, ◌==◌, uuid_match,
}
use go_platform.Problem.{Problem}
use go_platform.Pgtx.Explain.{GoError, problem, other}
use go_platform.Pgtx.Call.{decimal}
use go_platform.Pgtx.Doer.{Doer}
use go_platform.Query
use go_platform.Query.{Params, Values, QueryError}
use go_platform.Rest.Row.{
  Result, ok, err, validation, RowId, uuid_id_of, Json, etag_of, Called, raised, rows, Step, stop,
  row, call_row, not_found,
}
use go_platform.Rest.Handler.{HttpRequest, Sent, Answer, failed, sent}
use go_platform.Rest.Many
use go_platform.Rest.Many.{
  Reading, broke, read, ◌>>=◌, transact_reading, call, call_scalar, json_answer, Texts, Lister,
  list_step, page_answer, call_rows,
}
use go_platform.Entity.{is_action}
use go_platform.Object.Bodies.{
  FileBody, params_of, files_of, without_data, file_id, no_body, key_of_run,
}

-- What the module is given: the functions of schema api, the values of arguments, and JSON. A decoded
-- list of files is `none` where the text is no array of such objects, or has more behind it; an element
-- is `none` for null.
pub record Objects (V W : Type 0) : Type 0 where
  pub get_fn : GoString
  pub id_value : RowId → V
  pub text_value : GoString → V
  pub json_value : GoString → V
  pub null_value : V
  pub json : Json
  pub texts : Texts
  pub flag_of : GoString → Option Bool
  pub is_object : GoString → Bool
  pub decode_files : GoString → Option (List (Option FileBody))
  pub files_text : List FileBody → GoString
  pub terms_value : List Query.Condition → V
  pub files : Lister V W
  pub api : GoString → Map V → W → Called W

module _ {V W : Type 0} (o : Objects V W) where
  -- `objects.GetRow`
  unfoldable pub get_row : RowId → W → Step W
  get_row id w = call_row (problem not_found) (o.api o.get_fn ((lit "id", o.id_value id) ∷ []) w)

  -- A closure behind `objects.GetRow`.
  unfoldable pub behind : {A : Type 0} → Step W → (W → Reading A W) → Reading A W
  behind (stop e w) next = broke e w
  behind (row out w) next = next w

  unfoldable pub visible : {A : Type 0} → RowId → (W → Reading A W) → W → Reading A W
  visible id next w = behind (get_row id w) next

  -- A row of a call, where no row is 404.
  unfoldable pub one_row : Step W → Reading GoString W
  one_row (stop e w) = broke e w
  one_row (row out w) = read out w

  unfoldable pub run_args : GoString → RowId → GoString → GoString → Map V
  run_args key_name id key params =
      (lit "object", o.id_value id)
      ∷ (key_name, o.text_value key)
      ∷ (lit "params", o.json_value params)
      ∷ []

  -- The closure of `run` behind the row.
  unfoldable pub run_behind :
      GoString → GoString → GoString × GoString → RowId → W → Reading GoString W
  run_behind fn key_name (key, params) id w =
      call (o.api fn (run_args key_name id key params) w) >>= λ rs w'. one_row (get_row id w')

  -- The closures of `methods`, `filesAdd`, `file`, `fileDelete` and `filesClear` behind the row.
  unfoldable pub methods_behind : RowId → W → Reading (List GoString) W
  methods_behind id w =
      call (o.api (lit "get_object_methods") ((lit "object", o.id_value id) ∷ []) w)

  unfoldable pub add_behind : GoString → RowId → W → Reading (List GoString) W
  add_behind raw id w = call (
      o.api (lit "set_object_files_json")
        ((lit "id", o.id_value id) ∷ (lit "files", o.json_value raw) ∷ []) w)

  unfoldable pub file_args : RowId → GoString → Map V
  file_args id file =
      (lit "object", o.id_value id)
      ∷ (lit "file", o.text_value file)
      ∷ (lit "name", o.null_value)
      ∷ []

  unfoldable pub file_behind : GoString → RowId → W → Reading GoString W
  file_behind file id w =
      one_row (call_row (problem not_found) (o.api (lit "get_object_file") (file_args id file) w))

  unfoldable pub delete_behind : GoString → RowId → W → Reading Bool W
  delete_behind file id w =
      call_scalar false o.flag_of (o.api (lit "delete_object_file") (file_args id file) w)
      >>= λ deleted w'. if deleted then read true w' else broke (problem not_found) w'

  unfoldable pub clear_behind : RowId → W → Reading (List GoString) W
  clear_behind id w = call (o.api (lit "clear_object_files") ((lit "id", o.id_value id) ∷ []) w)

  -- The filter on the object, before those of the query.
  unfoldable pub files_terms : GoString → Params → List Query.Condition
  files_terms id p =
      record { field = lit "object"; compare = lit "EQL"; value = id; val_arr = [] } ∷ p.search

  unfoldable pub row_sent : GoString → Sent
  row_sent out = record { status = 200; etag = etag_of o.json out; location = []; body = out }

  module _ (run : Doer W) (r : HttpRequest) where
    -- `Do` over a closure behind the row of {id}, once what else the request gives is read.
    unfoldable pub behind_row :
        {A X : Type 0}
        → (A → GoString)
        → ℕ
        → Result A
        → (A → RowId → W → Reading X W)
        → (A → X → Sent)
        → W
        → Answer × W
    behind_row payload status args next make w = elim (uuid_id_of r.id) [
      | err p ↦ (failed p, w)
      | ok id ↦ elim args [
        | err p ↦ (failed p, w)
        | ok a ↦
            transact_reading run r (payload a) (λ x. status) (visible id (next a id)) (make a) w
      ]
    ]

    unfoldable pub run_given : Result GoString → Result GoString → Result (GoString × GoString)
    run_given (err p) params = err p
    run_given (ok key) (err p) = err p
    run_given (ok key) (ok params) = ok (key, params)

    -- `run`, whose key is beside the request.
    unfoldable pub run_on :
        GoString → (GoString → Bool) → GoString → GoString → GoString → W → Answer × W
    run_on what valid fn key_name key =
        behind_row (λ x. x.1) 200
          (run_given (key_of_run valid what key) (params_of o.is_object r.raw))
          (run_behind fn key_name) (λ x. row_sent)

    unfoldable pub methods : W → Answer × W
    methods =
        behind_row (λ x. []) 200 (ok tt) (λ x. methods_behind)
          (λ x items. json_answer (o.texts.array items))

    -- `files`, over the query of the request and the payload that is made of it.
    unfoldable pub translated : (QueryError → GoString) → Values → Result Params
    translated error_text values = elim (Query.parse values) [
      | Query.err e ↦ err (validation (error_text e))
      | Query.ok p ↦ ok p
    ]

    unfoldable pub files_list : (QueryError → GoString) → GoString → Values → W → Answer × W
    files_list error_text raw_query values =
        behind_row (λ p. raw_query) 200 (translated error_text values)
          (λ p id. list_step o.texts o.files (o.terms_value (files_terms r.id p)) p)
          (page_answer o.texts o.files)

    unfoldable pub files_add : W → Answer × W
    files_add =
        behind_row (λ x. o.files_text (without_data x.1)) 200 (files_of o.decode_files r.raw)
          (λ x. add_behind x.0) (λ x items. json_answer (o.texts.array items))

    unfoldable pub file : GoString → W → Answer × W
    file name = behind_row (λ x. []) 200 (file_id name) file_behind (λ x. json_answer)

    unfoldable pub file_delete : GoString → W → Answer × W
    file_delete name = behind_row (λ x. []) 204 (file_id name) delete_behind (λ x y. no_body 204)

    unfoldable pub files_clear : W → Answer × W
    files_clear = behind_row (λ x. []) 204 (ok tt) (λ x. clear_behind) (λ x y. no_body 204)
