-- ===== src/Pgtx/Daemon.antt =====
-- `doDaemon`, `salvage` and `end` of lib/pgtx/daemon.go: one request on the daemon road. The journal
-- belongs to the database: what daemon.begin and daemon.end write there, and what they answer, are
-- parameters. A transaction that is not committed leaves the database as it was.
pub mod Atomic
mod Tests
use go_platform.Base.{
  GoString, ℕ, ◌-◌, Bool, true, false, ◌&&◌, not, List, [], ◌∷◌, map, Option, none, some, lit,
  str_eq, is_uuid, is_lower, if◌then◌else◌, Map,
}
use go_platform.Problem.{Problem}
use go_platform.Pgtx.Explain.{GoError, Runner, explain, internal_problem, refusal, refusal_of}
use go_platform.Pgtx.Direct.{Request, Outcome, done, refused, status_of, nil_if_empty}

-- `Session`, without the code, which this road does not use.
pub record Session : Type 0 where
  pub token : GoString
  pub agent : GoString
  pub host : GoString

-- The arguments of daemon.begin.
pub record BeginCall : Type 0 where
  pub token : GoString
  pub agent : Option GoString
  pub host : Option GoString
  pub method : GoString
  pub path : GoString
  pub payload : Option GoString
  pub request_id : Option GoString

pub data BeginAnswer : Type 0 where
  failed : BeginAnswer
  answered : Bool → Option ℕ → Option GoString → Option GoString → BeginAnswer

-- The database: what daemon.begin answers and writes, what daemon.end writes, and `net.ParseIP`.
pub record Road (J : Type 0) : Type 0 where
  pub begun : BeginCall → BeginAnswer
  pub opens : BeginCall → J → J
  pub closes : ℕ → Option GoString → J → J
  pub parse_ip : GoString → Option GoString

-- Which statements succeed. `undo_ok` is the second rollback to the savepoint, that of `salvage`.
pub record Env : Type 0 where
  pub begin_ok : Bool
  pub savepoint_ok : Bool
  pub rollback_ok : Bool
  pub end_ok : Bool
  pub end_id : Option ℕ
  pub undo_ok : Bool
  pub commit_ok : Bool
  pub commit_error : GoError

pub record Db (W J : Type 0) : Type 0 where
  pub work : W
  pub journal : J

pub record Result (W J : Type 0) : Type 0 where
  pub answer : Option Problem
  pub db : Db W J
  pub log_id : ℕ

-- `strings.ToUpper` of a method, which is ASCII.
unfoldable pub to_upper : GoString → GoString
to_upper s = map (λ c. if is_lower c then c - 32 else c) s

-- The guard of a route knows GET, never HEAD.
unfoldable pub guard_method : GoString → GoString
guard_method m = if str_eq (to_upper m) (lit "HEAD") then lit "GET" else to_upper m

unfoldable pub begin_call : (GoString → Option GoString) → Session → Request → BeginCall
begin_call parse_ip s req = record {
  token = s.token;
  agent = nil_if_empty s.agent;
  host = parse_ip s.host;
  method = guard_method req.method;
  path = req.path;
  payload = nil_if_empty req.payload;
  request_id = if is_uuid req.request_id then some req.request_id else none;
}

-- `req.LogID` after daemon.end: 0 where it returns NULL.
unfoldable pub id_or_zero : Option ℕ → ℕ
id_or_zero none = 0
id_or_zero (some n) = n

module _ {W J : Type 0} (road : Road J) (r : Runner) (looked : Map GoString) (env : Env)
    (db : Db W J) where
  unfoldable pub fail : Problem → Result W J
  fail p = record { answer = some p; db = db; log_id = 0 }

  -- A commit of the transaction, after which the answer is a problem either way.
  unfoldable pub keep : Problem → J → ℕ → Result W J
  keep p journal log_id =
      if env.commit_ok
      then record {
        answer = some p;
        db = record { work = db.work; journal = journal };
        log_id = log_id;
      }
      else fail p

  -- `salvage`
  unfoldable pub salvage : Problem → J → Result W J
  salvage p opened = if env.undo_ok then keep p opened 0 else fail p

  -- What follows a handler that failed with `e`, answered as `p`.
  unfoldable pub undo : Problem → GoError → J → Result W J
  undo p e opened =
      let (status, text) = refusal_of p e in
      if not env.rollback_ok
      then fail p
      else if not env.end_ok
      then salvage p opened
      else keep p (road.closes status text opened) (id_or_zero env.end_id)

  -- What follows a handler that succeeded.
  unfoldable pub finish : Request → W → ℕ → J → Result W J
  finish req w status opened =
      if not env.end_ok
      then salvage (internal_problem (lit "end")) opened
      else if env.commit_ok
      then record {
        answer = none;
        db = record { work = w; journal = road.closes status none opened };
        log_id = id_or_zero env.end_id;
      }
      else fail (explain r looked (some req.method) env.commit_error)

  unfoldable pub run_handler : Request → (W → Outcome W) → J → Result W J
  run_handler req handler opened =
      if not env.savepoint_ok
      then fail (internal_problem (lit "savepoint"))
      else elim (handler db.work) [
        | refused e w ↦ undo (explain r looked (some req.method) e) e opened
        | done w status ↦ finish req w (status_of status) opened
      ]

  unfoldable pub begun_request : Request → (W → Outcome W) → BeginAnswer → J → Result W J
  begun_request req handler failed opened = fail (internal_problem (lit "begin"))
  begun_request req handler (answered authorized status code message) opened =
      if authorized
      then run_handler req handler opened
      else keep (refusal r looked status code message) opened 0

  -- `doDaemon`
  unfoldable pub do_daemon : Session → Option Request → (W → Outcome W) → Result W J
  do_daemon s none handler = fail (internal_problem (lit "begin"))
  do_daemon s (some req) handler =
      let call = begin_call road.parse_ip s req in
      if not env.begin_ok
      then fail (internal_problem (lit "begin"))
      else begun_request req handler (road.begun call) (road.opens call db.journal)
