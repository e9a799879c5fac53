-- ===== src/Rest/Many.antt =====
-- The readers of many rows of lib/rest/rest.go: `List` and `CallRowsOf`, over one transaction. The JSON
-- texts that are made of rows and of arguments are the record `Texts`.
pub mod Listed
use go_platform.Base.{
  GoString, ℕ, Bool, true, false, List, [], ◌∷◌, Option, none, some, lit, map, ℤ, pos, Map,
  if◌then◌else◌, str_eq,
}
use go_platform.Problem.{Problem}
use go_platform.Pgtx.Explain.{GoError, problem, other}
use go_platform.Pgtx.Direct.{Outcome, done, refused}
use go_platform.Pgtx.Doer.{Doer}
use go_platform.Query
use go_platform.Query.{Params, Values, QueryError}
use go_platform.Rest.Row.{Result, ok, err, validation, Called, raised, rows, not_found}
use go_platform.Rest.Read.{Object, project}
use go_platform.Rest.Handler.{HttpRequest, Sent, Answer, failed, sent, req_of}

-- A closure of `Do` so far: an error, or what it has read, with the work done by then.
pub data Reading (A W : Type 0) : Type 0 where
  broke : GoError → W → Reading A W
  read : A → W → Reading A W

infixl 5 ◌>>=◌
abbrev pub ◌>>=◌ : {A B W : Type 0} → Reading A W → (A → W → Reading B W) → Reading B W
broke e w >>= f = broke e w
read a w >>= f = f a w

unfoldable pub reading_outcome : {A W : Type 0} → (A → ℕ) → Reading A W → Outcome W
reading_outcome status (broke e w) = refused e w
reading_outcome status (read a w) = done w (status a)

-- `Do` over a closure, and the answer that is made of what it has read.
unfoldable pub transact_reading :
    {A W : Type 0}
    → Doer W
    → HttpRequest
    → GoString
    → (A → ℕ)
    → (W → Reading A W)
    → (A → Sent)
    → W
    → Answer × W
transact_reading run r payload status closure make w =
    let (answer, after) = run (req_of r payload) (λ w'. reading_outcome status (closure w')) w in
    elim answer [
      | some p ↦ (failed p, after)
      | none ↦ elim (closure w) [
        | read a w' ↦ (sent (make a), after)
        | broke e w' ↦ (failed not_found, after)
      ]
    ]

-- `pgtx.Call`
unfoldable pub call : {W : Type 0} → Called W → Reading (List GoString) W
call (raised e w) = broke e w
call (rows rs w) = read rs w

-- `pgtx.CallScalar`: a NULL, which is no text, leaves the variable as it is.
unfoldable pub call_scalar : {A W : Type 0} → A → (GoString → Option A) → Called W → Reading A W
call_scalar zeroed decode (raised e w) = broke e w
call_scalar zeroed decode (rows [] w) = broke other w
call_scalar zeroed decode (rows ([] ∷ rs) w) = read zeroed w
call_scalar zeroed decode (rows ((c ∷ row) ∷ rs) w) = elim (decode (c ∷ row)) [
  | none ↦ broke other w
  | some n ↦ read n w
]

-- `WriteJSON` with the status 200.
unfoldable pub json_answer : GoString → Sent
json_answer body = record { status = 200; etag = []; location = []; body = body }

-- The JSON texts of an answer.
pub record Texts : Type 0 where
  pub array : List GoString → GoString
  pub page : List GoString → ℤ → ℕ → ℕ → GoString
  pub number_of : GoString → Option ℤ
  pub object : Object

-- The functions of a resource that a list calls, and the values of their arguments.
pub record Lister (V W : Type 0) : Type 0 where
  pub list_fn : GoString
  pub count_fn : GoString
  pub number : ℕ → V
  pub order : List GoString → V
  pub api : GoString → Map V → W → Called W

module _ {V W : Type 0} (t : Texts) (l : Lister V W) where
  -- The arguments of api.list_<x>.
  unfoldable pub list_args : V → Params → Map V
  list_args search p =
      (lit "search", search)
      ∷ (lit "limit", l.number p.limit)
      ∷ (lit "offset", l.number p.offset)
      ∷ (lit "orderby", l.order p.order_by)
      ∷ []

  -- The closure of `List`: the count, and the rows of the page.
  unfoldable pub list_step : V → Params → W → Reading (ℤ × List GoString) W
  list_step search p w =
      call_scalar (pos 0) t.number_of (l.api l.count_fn ((lit "search", search) ∷ []) w)
      >>= λ total w'. call (l.api l.list_fn (list_args search p) w') >>= λ rs w''.
          read (total, map (project t.object p.fields) rs) w''

  unfoldable pub page_answer : Params → ℤ × List GoString → Sent
  page_answer p (total, items) = json_answer (t.page items total p.limit p.offset)

  -- `List` once the query is translated; `raw_query` is the payload of the request.
  unfoldable pub list_page : Doer W → HttpRequest → GoString → V → Params → W → Answer × W
  list_page run r raw_query search p w =
      transact_reading run r raw_query (λ x. 200) (list_step search p) (page_answer p) w

-- `List` of lib/rest: the filters of the query as they are.
unfoldable pub list :
    {V W : Type 0}
    → Texts
    → Lister V W
    → (List Query.Condition → V)
    → (QueryError → GoString)
    → Doer W
    → HttpRequest
    → GoString
    → Values
    → W
    → Answer × W
list t l search_value error_text run r raw_query values w = elim (Query.parse values) [
  | Query.err e ↦ (failed (validation (error_text e)), w)
  | Query.ok p ↦ list_page t l run r raw_query (search_value p.search) p w
]

-- `CallRowsOf`: every row of one function, whose arguments the request decides.
unfoldable pub call_rows :
    {V W : Type 0}
    → Texts
    → (Map V → W → Called W)
    → Doer W
    → HttpRequest
    → Result (Map V)
    → W
    → Answer × W
call_rows t fn run r (err p) w = (failed p, w)
call_rows t fn run r (ok args) w =
    transact_reading run r [] (λ x. 200) (λ w'. call (fn args w')) (λ rs. json_answer (t.array rs))
      w
