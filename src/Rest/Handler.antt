-- ===== src/Rest/Handler.antt =====
-- A handler of lib/rest over one transaction: the request that it reads, the closure that it gives to
-- `Do`, and the answer that it makes of the row.
use go_platform.Base.{GoString, ℕ, Option, none, some, ◌≡◌, refl, ◌∙◌, ap, ◌⊎◌, inl, inr}
use go_platform.Problem.{Problem}
use go_platform.Pgtx.Direct.{Request, Outcome, done, refused}
use go_platform.Pgtx.Doer.{Doer, Commits, IsDoer}
use go_platform.Rest.Row.{Step, stop, row, not_found}

-- The parts of the request that the handlers read; `raw` is `none` where it cannot be read.
pub record HttpRequest : Type 0 where
  pub method : GoString
  pub path : GoString
  pub id : GoString
  pub if_match : GoString
  pub raw : Option GoString
  pub request_id : GoString

-- An answer: a problem, or a status with the ETag, the Location ("" for none) and the body.
pub record Sent : Type 0 where
  pub status : ℕ
  pub etag : GoString
  pub location : GoString
  pub body : GoString

pub data Answer : Type 0 where
  failed : Problem → Answer
  sent : Sent → Answer

-- `ReqOf`
unfoldable pub req_of : HttpRequest → GoString → Request
req_of r payload = record {
  method = r.method;
  path = r.path;
  payload = payload;
  request_id = r.request_id;
}

-- The handler's closure for `Do`, with the status that goes on the wire.
unfoldable pub outcome_of : {W : Type 0} → (GoString → ℕ) → Step W → Outcome W
outcome_of status (stop e w) = refused e w
outcome_of status (row out w) = done w (status out)

module _ {W : Type 0} (run : Doer W) (r : HttpRequest) where
  -- `Do` over a step, and the answer that is made of its row: a transaction that succeeds has one.
  unfoldable pub transact :
      GoString → (GoString → ℕ) → (W → Step W) → (GoString → Sent) → W → Answer × W
  transact payload status step make w =
      let (answer, after) = run (req_of r payload) (λ w'. outcome_of status (step w')) w in
      elim answer [
        | some p ↦ (failed p, after)
        | none ↦ elim (step w) [
          | row out w' ↦ (sent (make out), after)
          | stop e w' ↦ (failed not_found, after)
        ]
      ]

  -- A refusal leaves the work as it was, a success is the row of the step and its work.
  abbrev pub Done : (W → Step W) → (GoString → Sent) → W → Answer × W → Type 0
  Done step make w (a, after) =
      ((p : Problem) × (a ≡ failed p) × (after ≡ w))
      ⊎ ((out : GoString) × (step w ≡ row out after) × (a ≡ sent (make out)))

  done-row :
      (step : W → Step W) (make : GoString → Sent) (w after : W) (s : Step W)
      (status : GoString → ℕ) (n : ℕ)
      → step w ≡ s
      → outcome_of status s ≡ done after n
      → Done step make w
          (elim s [ row out w' ↦ (sent (make out), after) | stop e w' ↦ (failed not_found, after) ])
  unfolding outcome_of
  done-row step make w after (stop e w') status n e1 h = cc
  done-row step make w after (row out w') status n e1 h =
      let same : w' ≡ after = cc h in inr (out, e1 ∙ ap (row out) same, refl)

  answer-Done :
      (step : W → Step W) (make : GoString → Sent) (w after : W) (status : GoString → ℕ)
      (answer : Option Problem)
      → Commits (outcome_of status (step w)) w (answer, after)
      → Done step make w (elim answer [
        | some p ↦ (failed p, after)
        | none ↦ elim (step w) [
          | row out w' ↦ (sent (make out), after)
          | stop e w' ↦ (failed not_found, after)
        ]
      ])
  answer-Done step make w after status none (n, h) =
      done-row step make w after (step w) status n refl h
  answer-Done step make w after status (some p) h = inl (p, refl, h)

  pub transact-Done :
      (d : IsDoer run) (payload : GoString) (status : GoString → ℕ) (step : W → Step W)
      (make : GoString → Sent) (w : W)
      → Done step make w (transact payload status step make w)
  unfolding transact
  transact-Done d payload status step make w =
      answer-Done step make w _ status _
        (d.commits (req_of r payload) (λ w'. outcome_of status (step w')) w)
