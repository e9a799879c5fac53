-- ===== src/Pgtx/Daemon/Atomic.antt =====
-- What `doDaemon` of lib/pgtx/daemon.go has committed and journalled, by its answer.
use go_platform.Base.{
  GoString, ℕ, Bool, true, false, not, Option, none, some, ◌≡◌, refl, ap, ◌⊎◌, inl, inr, arith,
  if◌then◌else◌, Map,
}
use go_platform.Problem.{Problem}
use go_platform.Pgtx.Explain.{GoError, problem, pg, other, Runner, explain, refusal_of}
use go_platform.Pgtx.Direct.{Request, Outcome, done, refused, status_of}
use go_platform.Pgtx.Daemon.{
  Session, BeginAnswer, failed, answered, Road, Env, Db, Result, begin_call, id_or_zero, fail, keep,
  salvage, undo, finish, run_handler, begun_request, do_daemon,
}

refusal_of-status : (p : Problem) (e : GoError) → (refusal_of p e).0 ≡ p.status
unfolding refusal_of
refusal_of-status p (problem q) = ground arith
refusal_of-status p (pg state message) = refl
refusal_of-status p other = ground arith

module _ {W J : Type 0} (road : Road J) (r : Runner) (looked : Map GoString) (env : Env)
    (db : Db W J) where
  -- The state after an answer to a request whose line daemon.begin writes as `opened`. With a
  -- problem: the work as it was, and the journal as it was, with the line open, or with the line
  -- closed by the problem's status; only a closed line has a number.
  abbrev pub After : (W → Outcome W) → J → Option Problem → Db W J → ℕ → Type 0
  After handler opened none after log_id =
      (w : W) × (status : ℕ) × (handler db.work ≡ done w status)
      × (after ≡ record { work = w; journal = road.closes (status_of status) none opened })
  After handler opened (some p) after log_id =
      (after.work ≡ db.work)
      × (((log_id ≡ 0) × ((after.journal ≡ db.journal) ⊎ (after.journal ≡ opened)))
          ⊎ ((text : Option GoString) × (after.journal ≡ road.closes p.status text opened)))

  abbrev IsAtomic : (W → Outcome W) → J → Result W J → Type 0
  IsAtomic handler opened res = After handler opened res.answer res.db res.log_id

  module _ (handler : W → Outcome W) (opened : J) where
    IsAtomic-if :
        (b : Bool) (x y : Result W J)
        → (b ≡ true → IsAtomic handler opened x)
        → (b ≡ false → IsAtomic handler opened y)
        → IsAtomic handler opened (if b then x else y)
    IsAtomic-if true x y hx hy = hx refl
    IsAtomic-if false x y hx hy = hy refl

    fail-IsAtomic : (p : Problem) → IsAtomic handler opened (fail road r looked env db p)
    unfolding fail
    fail-IsAtomic p = (refl, inl (refl, inl refl))

    keep-IsAtomic : (p : Problem) → IsAtomic handler opened (keep road r looked env db p opened 0)
    unfolding keep
    keep-IsAtomic p =
        IsAtomic-if env.commit_ok _ _ (λ kept. (refl, inl (refl, inr refl)))
          (λ lost. fail-IsAtomic p)

    keep-closed-IsAtomic :
        (p : Problem) (e : GoError) (log_id : ℕ)
        → IsAtomic handler opened (
            keep road r looked env db p
              (road.closes (refusal_of p e).0 (refusal_of p e).1 opened)
              log_id)
    unfolding keep
    keep-closed-IsAtomic p e log_id =
        IsAtomic-if env.commit_ok _ _
          (λ kept. (refl, inr ((refusal_of p e).1, rw (refusal_of-status p e) refl)))
          (λ lost. fail-IsAtomic p)

    salvage-IsAtomic :
        (p : Problem) → IsAtomic handler opened (salvage road r looked env db p opened)
    unfolding salvage
    salvage-IsAtomic p =
        IsAtomic-if env.undo_ok _ _ (λ undone. keep-IsAtomic p) (λ lost. fail-IsAtomic p)

    undo-IsAtomic :
        (p : Problem) (e : GoError) → IsAtomic handler opened (undo road r looked env db p e opened)
    unfolding undo
    undo-IsAtomic p e =
        IsAtomic-if (not env.rollback_ok) _ _ (λ lost. fail-IsAtomic p)
          (λ back.
            IsAtomic-if (not env.end_ok) _ _ (λ raised. salvage-IsAtomic p)
              (λ ended. keep-closed-IsAtomic p e (id_or_zero env.end_id)))

    finish-IsAtomic :
        (req : Request) (w : W) (status : ℕ)
        → handler db.work ≡ done w status
        → IsAtomic handler opened (finish road r looked env db req w (status_of status) opened)
    unfolding finish
    finish-IsAtomic req w status h =
        IsAtomic-if (not env.end_ok) _ _ (λ raised. salvage-IsAtomic _)
          (λ ended.
            IsAtomic-if env.commit_ok _ _ (λ kept. (w, status, h, refl)) (λ lost. fail-IsAtomic _))

    outcome-IsAtomic :
        (req : Request) (o : Outcome W)
        → handler db.work ≡ o
        → IsAtomic handler opened (elim o [
          | refused e w ↦ undo road r looked env db (explain r looked (some req.method) e) e opened
          | done w status ↦ finish road r looked env db req w (status_of status) opened
        ])
    outcome-IsAtomic req (refused e w) h = undo-IsAtomic _ e
    outcome-IsAtomic req (done w status) h = finish-IsAtomic req w status h

    begun_request-IsAtomic :
        (req : Request) (a : BeginAnswer)
        → IsAtomic handler opened (begun_request road r looked env db req handler a opened)
    unfolding begun_request run_handler
    begun_request-IsAtomic req failed = fail-IsAtomic _
    begun_request-IsAtomic req (answered authorized status code message) =
        IsAtomic-if authorized _ _
          (λ allowed.
            IsAtomic-if (not env.savepoint_ok) _ _ (λ dead. fail-IsAtomic _)
              (λ alive. outcome-IsAtomic req (handler db.work) refl))
          (λ denied. keep-IsAtomic _)

-- Whatever the database answers and whatever the handler does: on the daemon road success is
-- answered exactly with the handler's work committed and the request's line closed with its status;
-- with a problem the work is as it was, and the journal is as it was, or has the line that
-- daemon.begin wrote, open or closed with the status of that problem.
pub do_daemon-After :
    {W J : Type 0} (road : Road J) (r : Runner) (looked : Map GoString) (env : Env) (db : Db W J)
    (s : Session) (req : Request) (handler : W → Outcome W)
    → (let res = do_daemon road r looked env db s (some req) handler in
        After road r looked env db handler
          (road.opens (begin_call road.parse_ip s req) db.journal)
          res.answer
          res.db
          res.log_id)
unfolding do_daemon
do_daemon-After road r looked env db s req handler =
    IsAtomic-if road r looked env db handler _ (not env.begin_ok) _ _
      (λ dead. fail-IsAtomic road r looked env db handler _ _)
      (λ begun. begun_request-IsAtomic road r looked env db handler _ req _)

-- Every statement of the request succeeds.
abbrev pub sound_env : Option ℕ → Env
sound_env end_id = record {
  begin_ok = true;
  savepoint_ok = true;
  rollback_ok = true;
  end_ok = true;
  end_id = end_id;
  undo_ok = true;
  commit_ok = true;
  commit_error = other;
}

-- The status of an answer on the wire, where the handler came to `o`.
abbrev pub wire_status : {W : Type 0} → Outcome W → Option Problem → ℕ
wire_status o (some p) = p.status
wire_status (done w status) none = status_of status
wire_status (refused e w) none = 500

module _ {W J : Type 0} (road : Road J) (r : Runner) (looked : Map GoString) (id : Option ℕ)
    (db : Db W J) where
  IsClosed : Outcome W → J → Result W J → Type 0
  IsClosed o opened res =
      (text : Option GoString) × (res.db.journal
        ≡ road.closes (wire_status o res.answer) text opened)
      × (res.log_id ≡ id_or_zero id)

  outcome-IsClosed :
      (req : Request) (o : Outcome W) (opened : J)
      → IsClosed o opened (elim o [
        | refused e w ↦
            undo road r looked (sound_env id) db (explain r looked (some req.method) e) e opened
        | done w status ↦ finish road r looked (sound_env id) db req w (status_of status) opened
      ])
  unfolding IsClosed undo finish keep
  outcome-IsClosed req (refused e w) opened = (
    (refusal_of (explain r looked (some req.method) e) e).1,
    ap (λ s. road.closes s (refusal_of (explain r looked (some req.method) e) e).1 opened)
        (refusal_of-status (explain r looked (some req.method) e) e),
    refl,
  )
  outcome-IsClosed req (done w status) opened = (none, refl, refl)

  answer-IsClosed :
      (req : Request) (handler : W → Outcome W) (a : BeginAnswer) (opened : J) (status : Option ℕ)
      (code message : Option GoString)
      → a ≡ answered true status code message
      → IsClosed
          (handler db.work)
          opened
          (begun_request road r looked (sound_env id) db req handler a opened)
  unfolding begun_request run_handler
  answer-IsClosed req handler a opened status code message h =
      rw h (outcome-IsClosed req (handler db.work) opened)

-- A request that daemon.begin authorizes and whose statements all succeed has its line closed, by
-- success and by refusal alike, with the status that goes on the wire, and carries the line's number.
pub do_daemon-closed :
    {W J : Type 0} (road : Road J) (r : Runner) (looked : Map GoString) (id : Option ℕ)
    (db : Db W J) (s : Session) (req : Request) (handler : W → Outcome W) (status : Option ℕ)
    (code message : Option GoString)
    → road.begun (begin_call road.parse_ip s req) ≡ answered true status code message
    → (let res = do_daemon road r looked (sound_env id) db s (some req) handler in
        (text : Option GoString) × (res.db.journal
          ≡ road.closes
              (wire_status (handler db.work) res.answer)
              text
              (road.opens (begin_call road.parse_ip s req) db.journal))
        × (res.log_id ≡ id_or_zero id))
unfolding do_daemon IsClosed
do_daemon-closed road r looked id db s req handler status code message h =
    answer-IsClosed road r looked id db req handler _ _ status code message h
