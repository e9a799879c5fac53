-- ===== src/Pgtx/Direct/Atomic.antt =====
-- What `Do` of lib/pgtx/pgtx.go has committed on the direct road, by its answer.
use go_platform.Base.{
  GoString, ℕ, Bool, true, false, ◌&&◌, not, List, [], ◌∷◌, ◌++◌, Option, none, some, ◌≡◌, refl,
  ◌⊎◌, inl, inr, arith, if◌then◌else◌, is_some, Map,
}
use go_platform.Problem.{Problem, unauthorized, code_login_failed}
use go_platform.Pgtx.Features.{Features}
use go_platform.Pgtx.Explain.{Runner, explain, title, text_or_empty}
use go_platform.Pgtx.Direct.{
  Request, Entry, Db, Outcome, done, refused, Verdict, raised, answered, Env, Result, status_of,
  log_request, refusal_entry, method_of, fail, journal_refusal, refuse, commit, complete,
  run_handler, authorized, do_direct,
}

module _ {W : Type 0} (f : Features) (r : Runner) (looked : Map GoString) (env : Env)
    (db : Db W) where
  -- The journal after a success.
  abbrev pub journal_with : Option Request → ℕ → List Entry
  journal_with none status = db.journal
  journal_with (some req) status =
      if f.log_request
      then db.journal ++ log_request f req (status_of status) [] ∷ []
      else db.journal

  -- What the database holds after an answer. With no problem: the handler's work, with the row of
  -- its status. With a problem: the work as it was, and at most a row of that problem.
  abbrev pub After : Option Request → (W → Outcome W) → Option Problem → Db W → Type 0
  After req handler none after =
      (w : W) × (status : ℕ) × (handler db.work ≡ done w status)
      × (after ≡ record { work = w; journal = journal_with req status })
  After req handler (some p) after =
      (after ≡ db)
      ⊎ ((q : Request) × (req ≡ some q)
          × (after ≡ record { work = db.work; journal = db.journal ++ refusal_entry f q p ∷ [] }))

  abbrev IsAtomic : Option Request → (W → Outcome W) → Result W → Type 0
  IsAtomic req handler res = After req handler res.answer res.db

  fail-IsAtomic :
      (req : Option Request) (handler : W → Outcome W) (p : Problem)
      → IsAtomic req handler (fail f r looked env db p)
  unfolding fail
  fail-IsAtomic req handler p = inl refl

  IsAtomic-if :
      (b : Bool) (req : Option Request) (handler : W → Outcome W) (x y : Result W)
      → (b ≡ true → IsAtomic req handler x)
      → (b ≡ false → IsAtomic req handler y)
      → IsAtomic req handler (if b then x else y)
  IsAtomic-if true req handler x y hx hy = hx refl
  IsAtomic-if false req handler x y hx hy = hy refl

  refuse-IsAtomic :
      (req : Option Request) (handler : W → Outcome W) (possible : Bool) (p : Problem)
      → IsAtomic req handler (refuse f r looked env db req possible p db)
  unfolding refuse journal_refusal
  refuse-IsAtomic none handler possible p = fail-IsAtomic none handler p
  refuse-IsAtomic (some req) handler possible p =
      IsAtomic-if (f.log_request && possible) (some req) handler _ _
        (λ loud.
          IsAtomic-if (env.log_ok && env.commit_ok) (some req) handler _ _
            (λ written. inr (req, refl, refl)) (λ lost. fail-IsAtomic (some req) handler p))
        (λ quiet. fail-IsAtomic (some req) handler p)

  commit-IsAtomic :
      (req : Option Request) (handler : W → Outcome W) (w : W) (status log_id : ℕ) (j : List Entry)
      → handler db.work ≡ done w status
      → j ≡ journal_with req status
      → IsAtomic req handler
          (commit f r looked env db req (record { work = w; journal = j }) log_id)
  unfolding commit
  commit-IsAtomic req handler w status log_id j e same =
      IsAtomic-if env.commit_ok req handler _ _ (λ kept. (w, status, e, rw same refl))
        (λ lost. fail-IsAtomic req handler _)

  complete-IsAtomic :
      (req : Option Request) (handler : W → Outcome W) (w : W) (status : ℕ)
      → handler db.work ≡ done w status
      → IsAtomic req handler (complete f r looked env db req (record db { work = w }) status)
  unfolding complete
  complete-IsAtomic none handler w status e =
      commit-IsAtomic none handler w status 0 db.journal e refl
  complete-IsAtomic (some req) handler w status e =
      IsAtomic-if (not f.log_request) (some req) handler _ _
        (λ quiet. commit-IsAtomic (some req) handler w status 0 db.journal e (ground arith))
        (λ loud.
          IsAtomic-if env.log_ok (some req) handler _ _
            (λ written.
              commit-IsAtomic (some req) handler w status env.log_id
                (db.journal ++ log_request f req (status_of status) [] ∷ []) e (ground arith))
            (λ lost. fail-IsAtomic (some req) handler _))

  run_handler-IsAtomic :
      (req : Option Request) (handler : W → Outcome W)
      → IsAtomic req handler (run_handler f r looked env db req handler)
  unfolding run_handler
  run_handler-IsAtomic req handler = by_outcome (handler db.work) refl
    where
      by_outcome :
          (o : Outcome W)
          → handler db.work ≡ o
          → IsAtomic req handler (run_handler f r looked env db req handler)
      by_outcome (refused e w) h =
          rw (h, run_handler)
            (refuse-IsAtomic req handler env.rollback_ok (explain r looked (method_of req) e))
      by_outcome (done w status) h = rw (h, run_handler) (complete-IsAtomic req handler w status h)

  authorized-IsAtomic :
      (req : Option Request) (handler : W → Outcome W)
      → IsAtomic req handler (authorized f r looked env db req handler)
  unfolding authorized
  authorized-IsAtomic req handler =
      IsAtomic-if (f.log_request && is_some req && not env.savepoint_ok) req handler _ _
        (λ lost. fail-IsAtomic req handler _) (λ saved. run_handler-IsAtomic req handler)

  verdict-IsAtomic :
      (req : Option Request) (handler : W → Outcome W) (v : Verdict)
      → IsAtomic req handler (elim v [
        | raised e ↦
            refuse f r looked env db req env.fresh_ok (explain r looked (method_of req) e) db
        | answered allowed message ↦
            if allowed
            then authorized f r looked env db req handler
            else refuse f r looked env db req true
                (unauthorized (some (title r)) code_login_failed (text_or_empty message))
                db
      ])
  verdict-IsAtomic req handler (raised e) = refuse-IsAtomic req handler env.fresh_ok _
  verdict-IsAtomic req handler (answered allowed message) =
      IsAtomic-if allowed req handler _ _ (λ yes_allowed. authorized-IsAtomic req handler)
        (λ denied. refuse-IsAtomic req handler true _)

-- Whatever the database answers to each statement and whatever the handler does: `Do` returns
-- success exactly with the handler's work committed, beside the row of its status where the
-- database journals; with a problem the handler's work is not there, and the journal has at most
-- one row more, of that problem's status and code.
pub do_direct-After :
    {W : Type 0} (f : Features) (r : Runner) (looked : Map GoString) (env : Env) (db : Db W)
    (req : Option Request) (handler : W → Outcome W)
    → After f r looked env db req handler
        (do_direct f r looked env db req handler).answer
        (do_direct f r looked env db req handler).db
unfolding do_direct
do_direct-After f r looked env db req handler =
    IsAtomic-if f r looked env db (not env.begin_ok) req handler _ _
      (λ dead. fail-IsAtomic f r looked env db req handler _)
      (λ begun. verdict-IsAtomic f r looked env db req handler env.authorize)
