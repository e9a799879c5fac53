-- ===== src/Pgtx/Doer.antt =====
-- `Doer` of lib/rest/rest.go: what a handler relies on of the request transaction, and that both
-- roads of `(*Runner).Do` provide it.
use go_platform.Base.{
  GoString, ℕ, Bool, true, false, if◌then◌else◌, ◌∙◌, sym, Option, none, some, ◌≡◌, ap, inl, inr,
  List, Map,
}
use go_platform.Problem.{Problem}
use go_platform.Pgtx.Features.{Features}
use go_platform.Pgtx.Explain.{Runner}
use go_platform.Pgtx.Direct
use go_platform.Pgtx.Direct.{Request, Outcome, done, do_direct}
use go_platform.Pgtx.Direct.Atomic.{do_direct-After}
use go_platform.Pgtx.Daemon
use go_platform.Pgtx.Daemon.{Session, Road, do_daemon}
use go_platform.Pgtx.Daemon.Atomic.{do_daemon-After}

-- The answer and the committed work after a request whose handler is given.
abbrev pub Doer : Type 0 → Type 0
Doer W = Request → (W → Outcome W) → W → Option Problem × W

-- Success commits what the handler has done, a problem leaves the work as it was.
abbrev pub Commits : {W : Type 0} → Outcome W → W → Option Problem × W → Type 0
Commits o before (none, after) = (status : ℕ) × (o ≡ done after status)
Commits o before (some p, after) = after ≡ before

pub record IsDoer {W : Type 0} (run : Doer W) : Type 0 where
  pub commits :
      (req : Request) (handler : W → Outcome W) (w : W) → Commits (handler w) w (run req handler w)

-- `Do` on the direct road, whatever was journalled before.
unfoldable pub direct_doer :
    {W : Type 0} → Features → Runner → Map GoString → Direct.Env → List Direct.Entry → Doer W
direct_doer f r looked env journal req handler w =
    let res =
      do_direct f r looked env (record { work = w; journal = journal }) (some req) handler in
    (res.answer, res.db.work)

-- `Do` on the daemon road.
unfoldable pub daemon_doer :
    {W J : Type 0} → Road J → Runner → Map GoString → Daemon.Env → J → Session → Doer W
daemon_doer road r looked env journal s req handler w =
    let res =
      do_daemon road r looked env (record { work = w; journal = journal }) s (some req) handler in
    (res.answer, res.db.work)

module _ {W : Type 0} (w : W) (handler : W → Outcome W) where
  direct-Commits :
      (f : Features) (r : Runner) (looked : Map GoString) (env : Direct.Env)
      (journal : List Direct.Entry) (req : Request) (answer : Option Problem) (after : Direct.Db W)
      → Direct.Atomic.After f r looked env
          (record { work = w; journal = journal })
          (some req)
          handler
          answer
          after
      → Commits (handler w) w (answer, after.work)
  direct-Commits f r looked env journal req none after (w', status, h, e) =
      (status, h ∙ ap (λ d. done (Direct.Db.work d) status) (sym e))
  direct-Commits f r looked env journal req (some p) after (inl e) = ap (λ d. d.work) e
  direct-Commits f r looked env journal req (some p) after (inr (q, e, h)) = ap (λ d. d.work) h

  daemon-Commits :
      {J : Type 0} (road : Road J) (r : Runner) (looked : Map GoString) (env : Daemon.Env)
      (journal opened : J) (answer : Option Problem) (after : Daemon.Db W J) (log_id : ℕ)
      → Daemon.Atomic.After road r looked env
          (record { work = w; journal = journal })
          handler
          opened
          answer
          after
          log_id
      → Commits (handler w) w (answer, after.work)
  daemon-Commits road r looked env journal opened none after log_id (w', status, h, e) =
      (status, h ∙ ap (λ d. done (Daemon.Db.work d) status) (sym e))
  daemon-Commits road r looked env journal opened (some p) after log_id (same, _) = same

-- `Do`: the daemon road where the database has it.
unfoldable pub runner_doer :
    {W J : Type 0}
    → Features
    → Road J
    → Runner
    → Map GoString
    → Direct.Env
    → Daemon.Env
    → List Direct.Entry
    → J
    → Session
    → Doer W
runner_doer f road r looked env env' rows journal s =
    if f.daemon then daemon_doer road r looked env' journal s else direct_doer f r looked env rows

IsDoer-if :
    {W : Type 0} (b : Bool) (d e : Doer W) → IsDoer d → IsDoer e → IsDoer (if b then d else e)
IsDoer-if true d e hd he = hd
IsDoer-if false d e hd he = he

-- On either road, whatever the database answers to each statement, `Do` is a transaction: success
-- commits exactly what the handler has done, and a problem leaves the work as it was.
pub runner_doer-IsDoer :
    {W J : Type 0} (f : Features) (road : Road J) (r : Runner) (looked : Map GoString)
    (env : Direct.Env) (env' : Daemon.Env) (rows : List Direct.Entry) (journal : J) (s : Session)
    → IsDoer {W = W} (runner_doer f road r looked env env' rows journal s)
unfolding runner_doer daemon_doer direct_doer
runner_doer-IsDoer f road r looked env env' rows journal s =
    IsDoer-if f.daemon _ _
      (record {
        commits = λ req handler w. daemon-Commits w handler road r looked env' journal _ _ _ _ (
            do_daemon-After road r looked env' (record { work = w; journal = journal }) s req
              handler);
      })
      (record {
        commits = λ req handler w. direct-Commits w handler f r looked env rows req _ _ (
            do_direct-After f r looked env (record { work = w; journal = rows }) (some req)
              handler);
      })
