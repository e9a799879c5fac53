-- ===== src/Pgtx/Direct.antt =====
-- `(*Runner).Do` of lib/pgtx/pgtx.go on the direct road: authorize, savepoint, handler, journal,
-- commit. What the database answers to each statement is a parameter; a transaction that is not
-- committed leaves the database as it was.
pub mod Atomic
use go_platform.Base.{
  GoString, ℕ, Bool, true, false, ◌&&◌, not, List, [], ◌∷◌, ◌++◌, Option, none, some, lit, str_eq,
  is_uuid, ◌==◌, if◌then◌else◌, is_some, Map,
}
use go_platform.Problem.{Problem, unauthorized, code_login_failed}
use go_platform.Pgtx.Features.{Features}
use go_platform.Pgtx.Explain.{GoError, Runner, explain, internal_problem, title, text_or_empty}

-- `Request`, without the two fields that `Do` writes.
pub record Request : Type 0 where
  pub method : GoString
  pub path : GoString
  pub payload : GoString
  pub request_id : GoString

-- A row of db.api_log as api.log_request writes it.
pub record Entry : Type 0 where
  pub method : GoString
  pub path : GoString
  pub payload : Option GoString
  pub status : ℕ
  pub request_id : Option GoString
  pub error : Option GoString

-- The committed work of the handlers and the journal.
pub record Db (W : Type 0) : Type 0 where
  pub work : W
  pub journal : List Entry

-- What a handler does: its work and the status that it sets (0: unset), or an error with the work
-- that it had done by then.
pub data Outcome (W : Type 0) : Type 0 where
  done : W → ℕ → Outcome W
  refused : GoError → W → Outcome W

-- The answer of api.authorize: an exception, or the verdict with a message.
pub data Verdict : Type 0 where
  raised : GoError → Verdict
  answered : Bool → Option GoString → Verdict

-- Which statements succeed, and what they return.
pub record Env : Type 0 where
  pub begin_ok : Bool
  pub authorize : Verdict
  pub fresh_ok : Bool
  pub savepoint_ok : Bool
  pub rollback_ok : Bool
  pub log_ok : Bool
  pub log_id : ℕ
  pub log_error : GoError
  pub commit_ok : Bool
  pub commit_error : GoError

pub record Result (W : Type 0) : Type 0 where
  pub answer : Option Problem
  pub db : Db W
  pub log_id : ℕ

-- `(*Request).status`
unfoldable pub status_of : ℕ → ℕ
status_of s = if s == 0 then 200 else s

unfoldable pub nil_if_empty : GoString → Option GoString
nil_if_empty [] = none
nil_if_empty (c ∷ s) = some (c ∷ s)

-- The row of `logRequest`: a catalogue code only where the database takes it.
unfoldable pub log_request : Features → Request → ℕ → GoString → Entry
log_request f req status code = record {
  method = req.method;
  path = req.path;
  payload = nil_if_empty req.payload;
  status = status;
  request_id =
      if not (str_eq req.request_id []) && is_uuid req.request_id
      then some req.request_id
      else none;
  error = if f.log_request_err then nil_if_empty code else none;
}

-- The row of a refusal: the status and the code of the problem.
unfoldable pub refusal_entry : Features → Request → Problem → Entry
refusal_entry f req p = log_request f req p.status (text_or_empty p.code)

unfoldable pub method_of : Option Request → Option GoString
method_of none = none
method_of (some req) = some req.method

module _ {W : Type 0} (f : Features) (r : Runner) (looked : Map GoString) (env : Env)
    (db : Db W) where
  unfoldable pub fail : Problem → Result W
  fail p = record { answer = some p; db = db; log_id = 0 }

  -- `journalRefusal` on a transaction whose view is `tx`.
  unfoldable pub journal_refusal : Request → Problem → Db W → Result W
  journal_refusal req p tx =
      if env.log_ok && env.commit_ok
      then record {
        answer = some p;
        db = record tx { journal = tx.journal ++ refusal_entry f req p ∷ [] };
        log_id = env.log_id;
      }
      else fail p

  -- A refusal is journalled where the database journals and there is a request.
  unfoldable pub refuse : Option Request → Bool → Problem → Db W → Result W
  refuse none possible p tx = fail p
  refuse (some req) possible p tx =
      if f.log_request && possible then journal_refusal req p tx else fail p

  unfoldable pub commit : Option Request → Db W → ℕ → Result W
  commit req tx log_id =
      if env.commit_ok
      then record { answer = none; db = tx; log_id = log_id }
      else fail (explain r looked (method_of req) env.commit_error)

  -- What follows a handler that succeeded.
  unfoldable pub complete : Option Request → Db W → ℕ → Result W
  complete none tx status = commit none tx 0
  complete (some req) tx status =
      let logged = record tx {
        journal = tx.journal ++ log_request f req (status_of status) [] ∷ [];
      } in
      if not f.log_request
      then commit (some req) tx 0
      else if env.log_ok
      then commit (some req) logged env.log_id
      else fail (explain r looked (some req.method) env.log_error)

  unfoldable pub run_handler : Option Request → (W → Outcome W) → Result W
  run_handler req handler = elim (handler db.work) [
    | refused e w ↦ refuse req env.rollback_ok (explain r looked (method_of req) e) db
    | done w status ↦ complete req (record db { work = w }) status
  ]

  unfoldable pub authorized : Option Request → (W → Outcome W) → Result W
  authorized req handler =
      if f.log_request && is_some req && not env.savepoint_ok
      then fail (internal_problem (lit "savepoint"))
      else run_handler req handler

  -- `Do`
  unfoldable pub do_direct : Option Request → (W → Outcome W) → Result W
  do_direct req handler =
      if not env.begin_ok then fail (internal_problem (lit "begin")) else elim env.authorize [
        | raised e ↦ refuse req env.fresh_ok (explain r looked (method_of req) e) db
        | answered allowed message ↦
            if allowed
            then authorized req handler
            else refuse req true
                (unauthorized (some (title r)) code_login_failed (text_or_empty message)) db
      ]
