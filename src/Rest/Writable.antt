-- ===== src/Rest/Writable.antt =====
-- lib/rest/writable.go: the rules of a body, and the POST, PATCH and DELETE of a resource over a
-- transaction (`Doer`). The body of a resource and the functions of schema api are parameters.
pub mod Guarded
pub mod Created
use go_platform.Base.{
  GoString, ℕ, ℤ, Bool, true, false, ◌&&◌, ◌||◌, not, List, [], ◌∷◌, ◌++◌, Option, none, some, lit,
  str_eq, ◌==◌, lookup, delete, if◌then◌else◌, Map,
}
use go_platform.Problem
use go_platform.Problem.{Problem, with_code, code_json_empty}
use go_platform.Pgtx.Explain.{GoError, problem, other}
use go_platform.Pgtx.Doer.{Doer}
use go_platform.Rest.Row.{
  Result, ok, err, validation, RowId, uuid, number, id_of, Json, etag_of, location_of, precondition,
  if_match, Decoded, read_body, Called, Step, stop, row, call_row, not_found, ◌>>=◌,
}
use go_platform.Rest.Handler.{HttpRequest, Sent, Answer, failed, sent, transact}

-- `Required`: `none` where the field passes.
unfoldable pub required : GoString → Option GoString → Bool → Option Problem
required name none create = if create then some (validation (name ++ lit " is required")) else none
required name (some v) create =
    if str_eq v [] then some (validation (name ++ lit " is required")) else none

-- `RequiredAll`
unfoldable pub required_all : Bool → List (GoString × Option GoString) → Option Problem
required_all create [] = none
required_all create ((name, v) ∷ fields) = elim (required name v create) [
  | some p ↦ some p
  | none ↦ required_all create fields
]

-- What `create` reads off the answer of CreateFn: no JSON, a string, a number (`none` where it does
-- not fit 64 bits), or another value.
pub data NewId : Type 0 where
  not_json other_value : NewId
  text : GoString → NewId
  numeral : Option ℤ → NewId

-- `Writable` over a body `B`, values `V` of arguments and the work `W` of a transaction: its fields,
-- the methods of its body, and what schema api does.
pub record Writable (B V W : Type 0) : Type 0 where
  pub prefix : GoString
  pub get_fn : GoString
  pub int_id : Bool
  pub set_fn : GoString
  pub create_fn : GoString
  pub create_omit : List GoString
  pub delete_fn : GoString
  pub fresh : B
  pub decode : GoString → Decoded B
  pub validate : Bool → B → Option Problem
  pub args : Option RowId → B → Map V
  pub is_nil : V → Bool
  pub id_value : RowId → V
  pub redact : GoString → GoString
  pub defaults : B → B
  pub new_id : GoString → NewId
  pub json : Json
  pub api : GoString → Map V → W → Called W

unfoldable pub first_problem : Option Problem → Option Problem → Option Problem
first_problem (some p) next = some p
first_problem none next = next

module _ {B V W : Type 0} (wr : Writable B V W) where
  -- `GetRow`
  unfoldable pub get_row : RowId → W → Step W
  get_row id w = call_row (problem not_found) (wr.api wr.get_fn ((lit "id", wr.id_value id) ∷ []) w)

  -- The loop of `omitted`.
  unfoldable pub omitted_from : Map V → List GoString → Option Problem
  omitted_from args [] = none
  omitted_from args (k ∷ ks) =
      let set : Bool = elim (lookup k args) [ none ↦ false | some v ↦ not (wr.is_nil v) ] in
      let rest = omitted_from args ks in
      if set then some (validation (k ++ lit " is not taken on create")) else rest

  -- `omitted`
  unfoldable pub omitted : B → Option Problem
  omitted b = if str_eq wr.create_fn [] then none else omitted_from (wr.args none b) wr.create_omit

  unfoldable pub without : List GoString → Map V → Map V
  without [] args = args
  without (k ∷ ks) args = without ks (delete k args)

  -- The row behind a new id: one that its creator does not see is a fault.
  unfoldable pub created_row : Step W → Step W
  created_row (stop (problem p) w) = if p.status == 404 then stop other w else stop (problem p) w
  created_row s = s

  unfoldable pub row_of_new : NewId → W → Step W
  row_of_new not_json w = stop other w
  row_of_new other_value w = stop other w
  row_of_new (text s) w = if str_eq s [] then stop other w else created_row (get_row (uuid s) w)
  row_of_new (numeral none) w = stop other w
  row_of_new (numeral (some n)) w = created_row (get_row (number n) w)

  -- `create`
  unfoldable pub create_step : B → W → Step W
  create_step b w =
      if str_eq wr.create_fn []
      then call_row other (wr.api wr.set_fn (wr.args none b) w)
      else call_row other
          (wr.api wr.create_fn (without wr.create_omit (delete (lit "id") (wr.args none b))) w)
        >>= λ out w'. row_of_new (wr.new_id out) w'

  -- The closures of `Update` and `Delete`.
  unfoldable pub update_step : GoString → RowId → B → W → Step W
  update_step tag id b w = get_row id w >>= λ current w'. elim (if_match wr.json tag current) [
    | some p ↦ stop (problem p) w'
    | none ↦ call_row other (wr.api wr.set_fn (wr.args (some id) b) w')
  ]

  -- A DELETE needs no row of its call: what it returns is dropped.
  unfoldable pub deleted : Called W → Step W
  deleted (Called.raised e w) = stop e w
  deleted (Called.rows rs w) = row [] w

  unfoldable pub delete_step : RowId → W → Step W
  delete_step id w = get_row id w >>= λ current w'.
      deleted (wr.api wr.delete_fn ((lit "id", wr.id_value id) ∷ []) w')

  -- The body of a POST, or the first refusal.
  unfoldable pub create_body : Option GoString → Result (GoString × B)
  create_body raw = elim (read_body wr.decode wr.fresh raw) [
    | err p ↦ err p
    | ok (raw', b) ↦
        if str_eq raw' []
        then err (with_code (validation (lit "a JSON body is required")) code_json_empty)
        else elim (first_problem (wr.validate true b) (omitted b)) [
          | some p ↦ err p
          | none ↦ ok (raw', wr.defaults b)
        ]
  ]

  unfoldable pub update_body : Option GoString → Result (GoString × B)
  update_body raw = elim (read_body wr.decode wr.fresh raw) [
    | err p ↦ err p
    | ok (raw', b) ↦ elim (wr.validate false b) [ some p ↦ err p | none ↦ ok (raw', b) ]
  ]

  module _ (run : Doer W) (r : HttpRequest) where
    unfoldable pub sent_row : ℕ → GoString → GoString → Sent
    sent_row status location out = record {
      status = status;
      etag = etag_of wr.json out;
      location = location;
      body = out;
    }

    -- `Create` without its idempotency key, once the body is read.
    unfoldable pub create : GoString × B → W → Answer × W
    create (raw, b) =
        transact run r (wr.redact raw) (λ out. 201) (create_step b)
          (λ out. sent_row 201 (location_of wr.json wr.prefix wr.int_id out) out)

    -- `Update`
    unfoldable pub update_with : RowId → Result (GoString × B) → W → Answer × W
    update_with id (err p) w = (failed p, w)
    update_with id (ok (raw, b)) w =
        transact run r (wr.redact raw) (λ out. 200) (update_step r.if_match id b) (sent_row 200 [])
          w

    unfoldable pub update : W → Answer × W
    update w = elim (id_of wr.int_id r.id) [
      | err p ↦ (failed p, w)
      | ok id ↦ elim (precondition r.if_match) [
        | some p ↦ (failed p, w)
        | none ↦ update_with id (update_body r.raw) w
      ]
    ]

    -- `Delete`
    unfoldable pub delete_row : W → Answer × W
    delete_row w = elim (id_of wr.int_id r.id) [
      | err p ↦ (failed p, w)
      | ok id ↦
          transact run r [] (λ out. 204) (delete_step id)
            (λ out. record { status = 204; etag = []; location = []; body = [] }) w
    ]
