-- ===== src/Pgtx/Daemon/Tests.antt =====
-- A request on the daemon road at a concrete database, and the theorems about both roads at it.
use go_platform.Base.{
  GoString, ℕ, suc, true, false, List, [], ◌∷◌, Option, none, some, ◌≡◌, refl, lit, str_eq,
  is_lower, if◌then◌else◌,
}
use go_platform.Pgtx.Explain.{pg, other, no_row, Runner}
use go_platform.Pgtx.Features.{no_features}
use go_platform.Pgtx.Direct
use go_platform.Pgtx.Direct.{Request, Outcome, done, refused}
use go_platform.Pgtx.Daemon.{
  Session, answered, Road, Db, begin_call, do_daemon, to_upper, guard_method,
}
use go_platform.Pgtx.Daemon.Atomic.{After, sound_env, do_daemon-After}
use go_platform.Pgtx.Doer.{IsDoer, runner_doer, runner_doer-IsDoer}

-- A line of the journal: the path, and the status once daemon.end has closed it.
abbrev Line : Type 0
Line = GoString × Option ℕ

abbrev close : ℕ → List Line → List Line
close status [] = []
close status ((path, old) ∷ lines) = (path, some status) ∷ lines

-- It authorizes every token but "".
abbrev road : Road (List Line)
road = record {
  begun = λ c.
      if str_eq c.token []
      then answered false (some 401) none none
      else answered true none none none;
  opens = λ c lines. (c.path, none) ∷ lines;
  closes = λ status text lines. close status lines;
  parse_ip = λ s. none;
}

abbrev runner : Runner
runner = record {
  titles = [];
  has_pool = false;
  daemon = true;
  parses = false;
  catalogue = λ code. no_row;
  parse_in_db = λ m. none;
}

abbrev session : Session
session = record { token = lit "t"; agent = []; host = [] }

abbrev head : Request
head = record { method = lit "head"; path = lit "/api/v2/jobs"; payload = []; request_id = [] }

abbrev db : Db ℕ (List Line)
db = record { work = 1; journal = [] }

abbrev writing : ℕ → Outcome ℕ
writing n = done (suc n) 0

abbrev failing : ℕ → Outcome ℕ
failing n = refused (pg (lit "23505") (lit "duplicate key")) (suc n)

head-get : guard_method (lit "head") ≡ lit "GET"
unfolding guard_method to_upper lit str_eq is_lower
head-get = refl

do_daemon-After_example :
    (let res = do_daemon road runner [] (sound_env (some 7)) db session (some head) failing in
      After road runner []
        (sound_env (some 7))
        db
        failing
        (road.opens (begin_call road.parse_ip session head) db.journal)
        res.answer
        res.db
        res.log_id)
do_daemon-After_example =
    do_daemon-After road runner [] (sound_env (some 7)) db session head failing

authorized : road.begun (begin_call road.parse_ip session head) ≡ answered true none none none
unfolding begin_call lit str_eq
authorized = refl

-- Nothing of the direct road succeeds.
abbrev dead : Direct.Env
dead = record {
  begin_ok = false;
  authorize = Direct.answered false none;
  fresh_ok = false;
  savepoint_ok = false;
  rollback_ok = false;
  log_ok = false;
  log_id = 0;
  log_error = other;
  commit_ok = false;
  commit_error = other;
}

runner_doer-IsDoer_example : IsDoer {W = ℕ} (
    runner_doer
      (record no_features { daemon = true })
      road
      runner
      []
      dead
      (sound_env (some 7))
      []
      []
      session)
runner_doer-IsDoer_example =
    runner_doer-IsDoer (record no_features { daemon = true }) road runner [] dead
      (sound_env (some 7)) [] [] session
