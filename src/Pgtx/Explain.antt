-- ===== src/Pgtx/Explain.antt =====
-- The refusals of lib/pgtx: `classify`, `explain`, `refusalOf`, `refusal` and the catalogue's
-- titles. An error is what `errors.As` finds in its chain.
pub mod Laws
pub mod Cache
use go_platform.Base.{
  GoString, ℕ, Bool, true, false, ◌&&◌, ◌||◌, not, List, [], ◌∷◌, ◌++◌, Option, none, some, lit,
  str_eq, has_prefix, any, ◌==◌, if◌then◌else◌, lookup, insert, is_some, Map,
}
use go_platform.Problem
use go_platform.Problem.{Problem, parse_message, from_code, code_login_failed}

-- A Go error on the request road: a problem, an error of PostgreSQL with its SQLSTATE and its
-- message, or anything else.
pub data GoError : Type 0 where
  problem : Problem → GoError
  pg : GoString → GoString → GoError
  other : GoError

pub data Kind : Type 0 where
  of_problem catalogue raise constraint of_data internal : Kind

pub record Class : Type 0 where
  pub code : GoString
  pub detail : GoString
  pub kind : Kind

unfoldable pub classify_pg : GoString → GoString → Class
classify_pg state message =
    if str_eq state (lit "P0001")
    then (elim (parse_message message) [
      | some cut ↦ record { code = cut.0; detail = cut.1; kind = catalogue }
      | none ↦ record { code = []; detail = message; kind = raise }
    ])
    else if has_prefix state (lit "23")
    then record { code = state; detail = message; kind = constraint }
    else if has_prefix state (lit "22")
    then record { code = state; detail = message; kind = of_data }
    else record { code = []; detail = []; kind = internal }

unfoldable pub classify : GoError → Class
classify (problem p) = record { code = []; detail = []; kind = of_problem }
classify (pg state message) = classify_pg state message
classify other = record { code = []; detail = []; kind = internal }

-- A catalogue message that can be a title: not empty, and no format template.
unfoldable pub usable_title : GoString → Bool
usable_title msg = not (str_eq msg []) && not (any (λ c. c == b'%') msg)

-- The answer of a one-row query for a message: no answer, no row, or a message that may be null.
pub data Answer : Type 0 where
  failed no_row : Answer
  row : Option GoString → Answer

unfoldable pub usable_answer : Option GoString → GoString
usable_answer none = []
usable_answer (some msg) = if usable_title msg then msg else []

-- The parts of a `Runner` that the wording of a refusal reads, and the answers of the database:
-- the catalogue by code, and `api.parse_message` by message.
pub record Runner : Type 0 where
  pub titles : Map GoString
  pub has_pool : Bool
  pub daemon : Bool
  pub parses : Bool
  pub catalogue : GoString → Answer
  pub parse_in_db : GoString → Option GoString

-- `titles[code]`, "" on a missing key.
unfoldable pub text_at : Map GoString → GoString → GoString
text_at m code = elim (lookup code m) [ none ↦ [] | some t ↦ t ]

-- `(*Runner).Title`
unfoldable pub title : Runner → GoString → GoString → GoString
title r code fallback =
    if str_eq (text_at r.titles code) [] then fallback else text_at r.titles code

unfoldable pub or_else : GoString → GoString → GoString
or_else t fallback = if str_eq t [] then fallback else t

-- The lookup of `catalogueTitle` in the database: the title, and the map `looked` afterwards.
unfoldable pub ask_title : Runner → Map GoString → GoString → GoString → GoString × Map GoString
ask_title r looked code fallback = elim (r.catalogue code) [
  | failed ↦ (fallback, looked)
  | no_row ↦ (fallback, insert code [] looked)
  | row msg ↦ (or_else (usable_answer msg) fallback, insert code (usable_answer msg) looked)
]

-- `(*Runner).catalogueTitle`
unfoldable pub catalogue_title :
    Runner → Map GoString → GoString → GoString → GoString × Map GoString
catalogue_title r looked code fallback =
    if not (str_eq (text_at r.titles code) [])
    then (text_at r.titles code, looked)
    else if not r.has_pool
    then (fallback, looked)
    else elim (lookup code looked) [
      | some t ↦ (or_else t fallback, looked)
      | none ↦ ask_title r looked code fallback
    ]

-- The wording of a catalogue refusal before the daemon road: the database's own cut of the
-- message, and the catalogue's message where it can be a title; the raised text otherwise.
unfoldable pub direct_title : Runner → GoString → GoString → GoString
direct_title r code detail = if not r.has_pool then detail else elim (r.catalogue code) [
  | failed ↦ detail
  | no_row ↦ detail
  | row msg ↦ or_else (usable_answer msg) detail
]

unfoldable pub direct_detail : Runner → GoString → GoString → GoString
direct_detail r message detail =
    if r.has_pool && r.parses
    then (elim (r.parse_in_db message) [ none ↦ detail | some m ↦ or_else m detail ])
    else detail

unfoldable pub internal_problem : GoString → Problem
internal_problem place =
    Problem.new 500 (lit "internal") (lit "Internal error") (place ++ lit " failed")

unfoldable pub message_of : GoError → GoString
message_of (problem p) = []
message_of (pg state message) = message
message_of other = []

unfoldable pub constraint_problem : Option GoString → GoString → GoString → Problem
constraint_problem method code detail =
    if str_eq code (lit "23505")
    then Problem.new 409 (lit "conflict") (lit "Conflict") detail
    else if str_eq code (lit "23503")
        && (elim method [ none ↦ false | some m ↦ str_eq m (lit "DELETE") ])
    then Problem.new 409 (lit "conflict") (lit "Conflict") detail
    else Problem.new 400 (lit "validation") (lit "Bad request") detail

unfoldable pub catalogue_problem : Runner → Map GoString → GoError → GoString → GoString → Problem
catalogue_problem r looked e code detail =
    if r.daemon
    then from_code code (catalogue_title r looked code detail).0 detail
    else from_code code (direct_title r code detail) (direct_detail r (message_of e) detail)

unfoldable pub explain_class :
    Runner → Map GoString → Option GoString → GoError → GoString → GoString → Kind → Problem
explain_class r looked method (problem p) code detail kind = p
explain_class r looked method e code detail of_problem = internal_problem (lit "request")
explain_class r looked method e code detail catalogue = catalogue_problem r looked e code detail
explain_class r looked method e code detail raise =
    Problem.new 400 (lit "raise") (lit "Request refused") detail
explain_class r looked method e code detail constraint = constraint_problem method code detail
explain_class r looked method e code detail of_data =
    Problem.new 400 (lit "validation") (lit "Bad request") detail
explain_class r looked method e code detail internal = internal_problem (lit "request")

-- `(*Runner).explain`: `method` is that of the request, `none` where there is no request.
unfoldable pub explain : Runner → Map GoString → Option GoString → GoError → Problem
explain r looked method e =
    let c = classify e in explain_class r looked method e c.code c.detail c.kind

-- `refusalOf`: the status and the text that daemon.end journals.
unfoldable pub refusal_of : Problem → GoError → ℕ × Option GoString
refusal_of p (pg state message) = (p.status, some message)
refusal_of p e = elim p.code [
  | some code ↦ (p.status, some (code ++ (lit ": " ++ p.detail)))
  | none ↦ (p.status, if str_eq p.detail [] then none else some p.detail)
]

unfoldable pub code_not_accepted : GoString
code_not_accepted = lit "ERR-401-002"

unfoldable pub text_or_empty : Option GoString → GoString
text_or_empty none = []
text_or_empty (some s) = s

unfoldable pub status_or : ℕ → Option ℕ → ℕ
status_or n none = n
status_or n (some s) = s

-- `(*Runner).refusal`: the problem for what daemon.begin refused.
unfoldable pub refusal :
    Runner → Map GoString → Option ℕ → Option GoString → Option GoString → Problem
refusal r looked status code message =
    let st = status_or 500 status in
    let c = text_or_empty code in
    let detail = text_or_empty message in
    let named = or_else c code_login_failed in
    if st == 401
    then Problem.unauthorized (some (title r)) named (
        if str_eq named code_not_accepted then lit "The access token was not accepted." else detail)
    else if not (str_eq c [])
    then record (from_code c (catalogue_title r looked c detail).0 detail) { status = st }
    else internal_problem (lit "begin")
